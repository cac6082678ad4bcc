-- ===== src/Fragment/Delivering.antt =====
-- Deliveries through the client of Fragment, by its setting of automatic purchases.
use gift_hub.Prelude.{
  ℕ, ◌+◌, ◌<◌, String, ◌≡◌, refl, sym, ap, arith, true, false, ◌&&◌, none, some, List, ◌∷◌, length,
  find, Option-cases, inl, inr, update-same,
}
use gift_hub.Models.{Db}
use gift_hub.Models.Orders.{Order}
use gift_hub.Dlq.{FailedJob}
use gift_hub.Circuit.{failure_threshold}
use gift_hub.Orders.{has_order_id}
use gift_hub.Session.{Session, ok}
use gift_hub.Fulfillment.{Call, Delivery, Client, set_columns}
use gift_hub.Fulfillment.Delivered.{found-same}
use gift_hub.Fulfillment.Attempts.{IsWaiting, Fails}
use gift_hub.Fulfillment.GivingUp.{IsGivenUp}
use gift_hub.Fulfillment.Retries.{fulfill_all, given_up_after_three}
use gift_hub.Fragment.{
  FragmentSetting, Update, no_update, undelivered, updated, update_order_fulfillment, purchase,
  fulfill_order, get_fragment_settings,
}

columns-same : (i : ℕ) (d : Db) → set_columns i (λ r. r) d ≡ d
columns-same i d = ap (λ rows. record d { orders = rows }) (update-same (has_order_id i) d.orders)

module _ (now : ℕ) (number : String) (link : Order → String) (setting : FragmentSetting)
    (manual : setting.is_auto_buy ≡ false) where
  abbrev client : Client
  client = fulfill_order now number link (some setting)

  abbrev waiting : Order → Update
  waiting o = record no_update {
    fulfillment_status = "waiting_payment";
    fragment_payload = some (link o);
  }

  refused : (x d : Delivery) → x.fulfilled ≡ false → ok x ≡ ok d → d.success && d.fulfilled ≡ false
  refused x d h e =
      let same : x ≡ d = cc e in ground (arith, ap (λ (z : Delivery). z.fulfilled) same)

  pub manual-Fails : (i : ℕ) (s : Session) → Fails client i s
  unfolding fulfill_order purchase updated update_order_fulfillment get_fragment_settings
  manual-Fails i s = elim (Option-cases (find (has_order_id i) s.saved.orders)) [
    | inl e ↦
        let x = undelivered false (some "Buyurtma topilmadi") in
        record {
          answer = ok x;
          change = λ r. r;
          runs = rw e (λ t. (
            ok x,
            record s { db = sym (columns-same i s.db) t; saved = sym (columns-same i s.saved) t },
          ));
          refusal = λ d. refused x d refl;
          keeps_id = λ r. refl;
          keeps = λ n r h. h;
        }
    | inr (o, e) ↦
        let x = undelivered true none in
        let f = updated now (waiting o) in
        let same = found-same i s.saved.orders o e in
        record {
          answer = ok x;
          change = f;
          runs = rw e (
              rw manual (
                ap
                  (λ j.
                    (ok x, record s { db = set_columns j f s.db; saved = set_columns j f s.saved }))
                  same));
          refusal = λ d. refused x d refl;
          keeps_id = λ r. refl;
          keeps = λ n r h. record {
            attempts_made = h.attempts_made;
            unfulfilled = refl;
            awaits = h.awaits;
          };
        }
  ]

  -- With automatic purchases switched off, a paid order whose delivery is requested is given up:
  -- as many calls as are left of its three attempts, none of which the circuit defers, leave it
  -- failed, in manual review and with one more dead letter, though the client, which waits for a
  -- purchase by hand, reports success each time.
  pub manual_purchase_given_up :
      (i : ℕ) (jobs : List FailedJob) (c : Call) (cs : List Call) (n k : ℕ) (s : Session)
      → n + length cs ≡ 2
      → k + length cs < failure_threshold
      → IsWaiting i n k jobs s
      → let s' = fulfill_all client i (c ∷ cs) s in IsGivenUp i 3 jobs s'.db × (s'.saved ≡ s'.db)
  manual_purchase_given_up i jobs = given_up_after_three client manual-Fails i jobs
