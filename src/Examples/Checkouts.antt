-- ===== src/Examples/Checkouts.antt =====
-- The theorems on checkouts at concrete inputs.
use gift_hub.Prelude.{ℕ, ◌≡◌, refl, true, none, some, [], ◌∷◌, arith}
use gift_hub.Prelude.Int.{ℤ, pos, ◌+ℤ◌}
use gift_hub.Prelude.Texts.{show}
use gift_hub.Models.{Db}
use gift_hub.Models.Shop.{paid_order_missing_wallet_tx}
use gift_hub.Reconciliation.{find_discrepancies}
use gift_hub.Session.{Session, ok}
use gift_hub.Wallet.Ledger.{IsSound}
use gift_hub.Wallet.Moves.{IsSoundSession}
use gift_hub.Checkout.{Checkout, earlier_order, given}
use gift_hub.Checkout.Placing.{create_order}
use gift_hub.Referrals.{process_order_referral_reward, commission_due}
use gift_hub.Outbox.Retries.{mark_failed_times}
use gift_hub.Outbox.Letters.{HasLetter}
use gift_hub.Checkout.Placing.{request_delivery}
use gift_hub.Checkout.Delivery.{delivery_names_order}
use gift_hub.Checkout.Atomic.{checkout_sound}
use gift_hub.Checkout.Whole.{AllOrNothing, checkout_atomic}
use gift_hub.Checkout.Once.{IsAnswer, IsUntouched, checkout_once}
use gift_hub.Examples.{buyer, shop, start, env, order_in, with_order}

-- A buyer with a hundred thousand sums.
abbrev rich : Db
rich = record shop { users = record buyer { balance = pos 10000000 } ∷ [] }

abbrev wealthy : Session
wealthy = record start { db = rich; saved = rich }

abbrev purchase : Checkout
purchase = record {
  order_code = "GH-123456";
  user_id = 7;
  product_type = "gift";
  item_title = "Star";
  amount = pos 1;
  recipient_username = some "friend";
  promo_code_str = none;
  price_lock_id = none;
  payment_method = "balance";
  idempotency_key = some "key-1";
  correlation_id = none;
}

abbrev opening : ℕ → ℤ
opening i = pos 10000000

rich-IsSound : IsSound opening rich
unfolding ◌+ℤ◌
rich-IsSound = record {
  accounts = (record { nonneg = omega arith; balanced = refl }, tt);
  rows = tt;
  distinct = tt;
}

abbrev after_purchase : Session
after_purchase = (create_order env purchase wealthy).1

-- Sixty thousand sums are gone, in the committed tables as well.
purchasing : after_purchase.saved.users ≡ record buyer { balance = pos 4000000 } ∷ []
unfolding create_order
purchasing = refl

-- The audit misses the ledger row of the purchase, which is booked under the order's code.
purchase_missed :
    find_discrepancies 6000 after_purchase.saved
    ≡ record { kind = paid_order_missing_wallet_tx; order_id = some 1; payment_id = none } ∷ []
unfolding create_order find_discrepancies show
purchase_missed = refl

checkout_sound_example : IsSoundSession opening (create_order env purchase wealthy).1
checkout_sound_example =
    checkout_sound opening env purchase wealthy
      (record { now = rich-IsSound; committed = rich-IsSound })

checkout_atomic_example : AllOrNothing rich (create_order env purchase wealthy)
checkout_atomic_example = checkout_atomic env purchase wealthy

-- The purchase has been made before.
abbrev repeated : Session
repeated = record start {
  db = record rich {
    orders = order_in "paid" ∷ [];
    checkout_idempotency =
        record {
          idempotency_key = "key-1";
          user_id = 7;
          order_id = some 3;
          created_at = 1000;
          expires_at = 2000;
        }
        ∷ [];
  };
}

known : earlier_order (given purchase.idempotency_key) 7 repeated.db ≡ some (order_in "paid")
unfolding earlier_order
known = refl

checkout_once_example :
    IsAnswer (order_in "paid") (create_order env purchase repeated).0
    × IsUntouched repeated (create_order env purchase repeated).1
checkout_once_example = checkout_once repeated (order_in "paid") env purchase known

-- The request is written after the order has been paid for.
abbrev placed : Session
placed = with_order (order_in "paid")

abbrev sent : Session
sent = (request_delivery env purchase (order_in "paid") true placed).1

requests : request_delivery env purchase (order_in "paid") true placed ≡ (ok (pos 0, none), sent)
unfolding request_delivery process_order_referral_reward commission_due
requests = refl

delivery_names_order_example :
    HasLetter 3 []
      (mark_failed_times "trace" 1
        ((9000, "no gift") ∷ (9100, "") ∷ (9200, "") ∷ (9300, "") ∷ (9400, "no gift") ∷ [])
        (sent.db.outbox_events, [])).1
delivery_names_order_example =
    delivery_names_order env purchase (order_in "paid") placed sent (pos 0, none) "trace" 9000
      "no gift" ((9100, "") ∷ (9200, "") ∷ (9300, "") ∷ (9400, "no gift") ∷ []) [] refl refl
      requests refl
