-- ===== src/Examples/Purchases.antt =====
-- The theorems on orders at concrete inputs.
use mathlib.Core.List.{Memᴰ}
use gift_hub.Prelude.{
  ◌≡◌, ◌⊎◌, refl, true, false, none, some, List, [], ◌∷◌, ◌++◌, find, str_eq, All,
}
use gift_hub.Prelude.Int.{pos, ◌+ℤ◌}
use gift_hub.Prelude.Texts.{lower, strip}
use gift_hub.Models.{User}
use gift_hub.Models.Orders.{
  Order, OrderStatus, created, awaiting_payment, paid, refunded, cancelled, value,
  valid_order_transitions, normalize_status, of_value, validate_order_transition,
}
use gift_hub.Session.{Session, ok, err, invalid_order_state, domain_error}
use gift_hub.Wallet.{
  has_user_id, credit_balance, get_user_locked, book, ledger_valid, row_valid, same_reference,
}
use gift_hub.Orders.{
  Change, has_order_id, stamp, was_paid, reason_given, refund, pay_back, change_status,
  transition_order_status, timeline_row,
}
use gift_hub.Orders.Machine.{validate-accepts, IsRun, is_unpaid, money_needs_paid}
use gift_hub.Orders.Timeline.{transition_records, refund_once, refund_pays}
use gift_hub.Orders.Unexplained.{refund_unexplained_pays_nothing}
use gift_hub.Examples.{env, buyer, order_in, with_order}

two_statuses : str_eq (normalize_status "paid") (normalize_status "processing") ≡ false
unfolding normalize_status lower
two_statuses = refl

abbrev sold : List OrderStatus
sold = awaiting_payment ∷ paid ∷ refunded ∷ []

sold-IsRun : IsRun created sold
sold-IsRun = (
  validate-accepts created awaiting_payment,
  (validate-accepts awaiting_payment paid, (validate-accepts paid refunded, tt)),
)

money_needs_paid_example : Memᴰ paid sold ⊎ All (λ b. is_unpaid b ≡ true) sold
money_needs_paid_example = money_needs_paid created sold refl sold-IsRun

abbrev plain : Change
plain = record { admin_id = none; reason = none; payload = none; actor = none }

abbrev explained : Change
explained = record { admin_id = some 1; reason = some "buyer asked"; payload = none; actor = none }

cancelled_status : normalize_status "cancelled" ≡ value cancelled
unfolding normalize_status lower
cancelled_status = refl

cancelled_paid : str_eq (normalize_status "cancelled") (normalize_status "paid") ≡ false
unfolding normalize_status lower
cancelled_paid = refl

abbrev started : Order
started = record (order_in "paid") {
  status = "processing";
  processing_at = some 5000;
  fulfillment_status = "processing";
}

abbrev after_start : Session
after_start = (transition_order_status env 3 "processing" plain (with_order (order_in "paid"))).1

starting :
    transition_order_status env 3 "processing" plain (with_order (order_in "paid"))
    ≡ (ok started, after_start)
unfolding transition_order_status change_status normalize_status lower stamp
    validate_order_transition of_value
starting = refl

transition_records_example :
    (a : OrderStatus) × (b : OrderStatus) × (normalize_status "paid" ≡ value a)
    × (started.status ≡ value b)
    × Memᴰ b (valid_order_transitions a)
    × (find (has_order_id 3) after_start.db.orders ≡ some started)
    × (after_start.db.order_status_history
        ≡ []
          ++ timeline_row 5000
              (normalize_status "paid")
              (normalize_status "processing")
              none
              none
              none
              started
            ∷ [])
    × (after_start.saved ≡ after_start.db)
transition_records_example =
    transition_records env 3 "processing" plain (with_order (order_in "paid")) {o = order_in "paid"}
      refl started after_start two_statuses starting

paid_refunded : str_eq (normalize_status "paid") (normalize_status "refunded") ≡ false
unfolding normalize_status lower
paid_refunded = refl

refunded_status : normalize_status "refunded" ≡ value refunded
unfolding normalize_status lower
refunded_status = refl

paid_was_paid : was_paid (normalize_status "paid") ≡ true
unfolding normalize_status lower
paid_was_paid = refl

abbrev returned : Order
returned = record (order_in "paid") { status = "refunded"; refunded_at = some 5000 }

abbrev after_refund : Session
after_refund = (transition_order_status env 3 "refunded" explained (with_order (order_in "paid"))).1

refunding :
    transition_order_status env 3 "refunded" explained (with_order (order_in "paid"))
    ≡ (ok returned, after_refund)
unfolding transition_order_status change_status normalize_status lower stamp
    validate_order_transition refund pay_back reason_given strip credit_balance get_user_locked book
    ledger_valid row_valid same_reference ◌+ℤ◌ of_value
refunding = refl

-- A later session, in which the users have changed.
abbrev rebooked : Session
rebooked = record after_refund { db = record (after_refund.db) { users = [] } }

refund_once_example :
    transition_order_status env 3 "completed" plain rebooked ≡ (err invalid_order_state, rebooked)
refund_once_example =
    refund_once env 3 "refunded" explained (with_order (order_in "paid")) {o = order_in "paid"} refl
      returned after_refund paid_refunded refunding env "completed" plain rebooked refunded_status
      refl

refund_pays_example :
    (u : User) × (find (has_user_id 7) (with_order (order_in "paid")).db.users ≡ some u)
    × (find (has_user_id 7) after_refund.db.users
        ≡ some (record u { balance = u.balance +ℤ pos 500 }))
refund_pays_example =
    refund_pays env 3 "refunded" explained (with_order (order_in "paid")) {o = order_in "paid"} refl
      returned after_refund paid_refunded refunding refunded_status paid_was_paid

unexplained_reason : reason_given none ≡ false
unfolding reason_given
unexplained_reason = refl

refund_unexplained_pays_nothing_example :
    let (r, s') = transition_order_status env 3 "refunded" plain (with_order (order_in "paid")) in
    (r ≡ err (domain_error "ERROR"))
    × (s'.saved ≡ (with_order (order_in "paid")).saved)
    × (s'.db.users ≡ buyer ∷ [])
    × (s'.db.wallet_transactions ≡ [])
    × (x : Order) × (find (has_order_id 3) s'.db.orders ≡ some x)
    × (x.status ≡ "refunded")
refund_unexplained_pays_nothing_example =
    refund_unexplained_pays_nothing env 3 "refunded" plain (with_order (order_in "paid"))
      {o = order_in "paid"} refl refunded_status paid_was_paid unexplained_reason
