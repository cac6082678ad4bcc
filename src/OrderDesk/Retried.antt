-- ===== src/OrderDesk/Retried.antt =====
-- A delivery that an administrator asks for again.
use gift_hub.Prelude.{ℕ, ◌<◌, ◌≡◌, refl, true, some, find, String}
use gift_hub.Models.Orders.{Order}
use gift_hub.Orders.{has_order_id}
use gift_hub.Session.{Session, ok}
use gift_hub.Fulfillment.{Call, fulfilled, set_columns}
use gift_hub.Fulfillment.Delivered.{IsMarked}
use gift_hub.Fulfillment.Failing.{IsPassing}
use gift_hub.Fulfillment.Attempts.{IsWaiting, columns-found}
use gift_hub.Fragment.{FragmentSetting}
use gift_hub.Fragment.Automatic.{client, hash, automatic_delivery}
use gift_hub.OrderDesk.{retry_order_fulfillment}

module _ (now : ℕ) (number : String) (link : Order → String) (setting : FragmentSetting)
    (automatic : setting.is_auto_buy ≡ true) where
  -- With automatic purchases switched on and a circuit that lets the call through, an order that an
  -- administrator sends back is delivered whatever its status was, refunded, cancelled and
  -- delivered already included, when fewer than three deliveries of it have been attempted.
  pub retry_delivers_any :
      (c : Call) (i n k : ℕ) (s : Session) (o : Order)
      → n < 3
      → find (has_order_id i) s.db.orders ≡ some o
      → o.fulfillment_attempts ≡ n
      → IsPassing k s.breaker
      → let r = retry_order_fulfillment (client now number link setting automatic) c i s in
        (r.0 ≡ ok (fulfilled (hash now number link setting automatic)))
        × IsMarked i (hash now number link setting automatic) r.1
  unfolding retry_order_fulfillment
  retry_delivers_any c i n k s o few found attempts passing =
      let sent =
        λ (x : Order). record x { fulfillment_status = "processing"; status = "processing" } in
      let s' = record s { db = set_columns i sent s.db } in
      let w : IsWaiting i n k s.db.failed_jobs s' = record {
        row = sent o;
        found = columns-found i sent s.db.orders o (λ x. refl) found;
        pending = record { attempts_made = attempts; unfulfilled = refl; awaits = refl };
        same_jobs = refl;
        passing = passing;
      } in
      rw found
        (automatic_delivery now number link setting automatic c i n k s.db.failed_jobs s' few w)
