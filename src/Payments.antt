-- ===== src/Payments.antt =====
-- Confirmed payments: `process_successful_payment_idempotent` of app/services/payments/service.py.
-- The texts of notes, the raw payload and log lines are left out.
pub mod Settled
pub mod Once
use Prim.Native.Nat.{suc}
use Prim.Native.String.{◌++◌ as text_append}
use gift_hub.Prelude.{
  ℕ, ◌==◌, String, Bool, true, false, not, ◌&&◌, ◌||◌, Option, none, some, List, [], ◌∷◌, ◌++◌,
  str_eq, find, any, update_rows, if◌then◌else◌,
}
use gift_hub.Prelude.Int.{ℤ, pos, ltb_ℤ}
use gift_hub.Prelude.Texts.{is_empty, show}
use gift_hub.Models.{Db, User, PaymentTransaction}
use gift_hub.Models.Orders.{value, paid}
use gift_hub.Outbox.{NewEvent, create_event}
use gift_hub.Wallet.{Entry, has_user_id, credit_balance}
use gift_hub.Orders.{Env, transition_order_status, truthy, text_or, show_amount}
use gift_hub.Referrals.{process_order_referral_reward}
use gift_hub.Circuit.{record_success}
use gift_hub.Session.{
  Session, Exec, Result, Error, ok, err, pure, raise, gets, modify, commit, rollback, ◌>>=◌, ◌>>◌,
  value_error, integrity_error,
}

-- The arguments of a confirmation.
pub record Confirmation : Type 0 where
  pub provider : String
  pub provider_transaction_id : String
  pub amount : ℤ
  pub user_id : Option ℕ
  pub telegram_id : Option ℕ
  pub order_id : Option ℕ
  pub correlation_id : Option String

-- `ProcessPaymentResult`
pub record ProcessPaymentResult : Type 0 where
  pub payment : PaymentTransaction
  pub user : Option User
  pub is_new : Bool

abbrev pub is_payment : Confirmation → PaymentTransaction → Bool
is_payment c p =
    str_eq p.provider c.provider && str_eq p.provider_transaction_id c.provider_transaction_id

abbrev pub idempotency_key : Confirmation → String
idempotency_key c = text_append c.provider (text_append ":" c.provider_transaction_id)

-- `user_id or telegram_id`
abbrev pub effective_user : Confirmation → Option ℕ
effective_user c = elim (truthy c.user_id) [ none ↦ truthy c.telegram_id | some i ↦ some i ]

abbrev next_payment : List PaymentTransaction → ℕ
next_payment [] = 1
next_payment (p ∷ []) = suc p.id
next_payment (p ∷ q ∷ ps) = next_payment (q ∷ ps)

abbrev new_payment : Env → ℕ → Confirmation → Db → PaymentTransaction
new_payment env user c d = record {
  id = next_payment d.payment_transactions;
  provider = c.provider;
  provider_transaction_id = c.provider_transaction_id;
  idempotency_key = idempotency_key c;
  user_id = user;
  order_id = c.order_id;
  amount = c.amount;
  status = "success";
  correlation_id = some (text_or env.correlation_id c.correlation_id);
  created_at = env.now;
  paid_at = some env.now;
}

-- A row that was waiting.
abbrev completed_payment : Env → Confirmation → PaymentTransaction → PaymentTransaction
completed_payment env c p = record p {
  status = "success";
  paid_at = some env.now;
  correlation_id = some (text_or (text_or env.correlation_id c.correlation_id) p.correlation_id);
}

-- The constraints of the table, on a new row.
unfoldable pub payment_valid : PaymentTransaction → List PaymentTransaction → Bool
payment_valid p rows =
    ltb_ℤ (pos 0) p.amount
    && not (
        any
          (λ q.
            (str_eq q.provider p.provider
              && str_eq q.provider_transaction_id p.provider_transaction_id)
            || str_eq q.idempotency_key p.idempotency_key)
          rows)

-- The row that the call has written before it turns to the order or to the wallet, with the table
-- and whether it will pass the next flush.
pub record Written : Type 0 where
  pub row : PaymentTransaction
  pub rows : List PaymentTransaction
  pub valid : Bool

unfoldable pub write_payment : Env → ℕ → Confirmation → Option PaymentTransaction → Db → Written
unfolding payment_valid
write_payment env user c none d =
    let p = new_payment env user c d in
    record {
      row = p;
      rows = d.payment_transactions ++ p ∷ [];
      valid = payment_valid p d.payment_transactions;
    }
write_payment env user c (some q) d =
    let p = completed_payment env c q in
    record {
      row = p;
      rows = update_rows (is_payment c) (λ _. p) d.payment_transactions;
      valid = true;
    }

-- An action that flushes, with a row pending besides its own: where the row is not valid, the flush
-- fails, and the transaction is rolled back.
abbrev pub flushing : {A : Type 0} → Bool → Exec A → Exec A
flushing valid m s =
    let (r, t) = m s in
    elim r [
      | ok a ↦ if valid then (ok a, t) else (err integrity_error, record s { db = s.saved })
      | err e ↦ (err e, t)
    ]

abbrev pub emit : Env → NewEvent → Exec (Unit {0})
emit env e = modify (λ d. record d { outbox_events = create_event env.now e d.outbox_events })

abbrev pub requested : Env → ℕ → ℕ → Confirmation → NewEvent
requested env order user c = record {
  event_type = "ORDER_FULFILLMENT_REQUESTED";
  aggregate_type = "order";
  aggregate_id = show order;
  payload =
      ("order_id", show order)
      ∷ ("provider", c.provider)
      ∷ ("amount", show_amount c.amount)
      ∷ ("user_id", show user)
      ∷ [];
  correlation_id = text_or env.correlation_id c.correlation_id;
}

abbrev pub deposited : Env → ℕ → Confirmation → NewEvent
deposited env user c = record {
  event_type = "WALLET_DEPOSIT_COMPLETED";
  aggregate_type = "user";
  aggregate_id = show user;
  payload =
      ("user_id", show user) ∷ ("amount", show_amount c.amount) ∷ ("provider", c.provider) ∷ [];
  correlation_id = text_or env.correlation_id c.correlation_id;
}

abbrev pub deposit_entry : Confirmation → Entry
deposit_entry c = record {
  tx_type = "deposit";
  reference_type = some "payment";
  reference_id = some (idempotency_key c);
}

-- The payment of an order, and the payment into a wallet.
unfoldable pub pay_order : Env → ℕ → Bool → ℕ → Confirmation → Exec (Option User)
pay_order env user valid order c = do
  flushing valid (
      transition_order_status env order (value paid)
        (record { admin_id = none; reason = none; payload = none; actor = none }))
  process_order_referral_reward order user c.amount
  emit env (requested env order user c)
  gets (λ d. find (has_user_id user) d.users)

unfoldable pub deposit : Env → ℕ → Bool → Confirmation → Exec (Option User)
deposit env user valid c = do
  credited ← flushing valid (credit_balance user c.amount (deposit_entry c))
  emit env (deposited env user c)
  pure (some credited.0)

abbrev complete : Env → ℕ → Bool → Confirmation → Option ℕ → Exec (Option User)
complete env user valid c none = deposit env user valid c
complete env user valid c (some order) = pay_order env user valid order c

-- What the `except` clause makes of a clash: the row of another call, where there is one by now.
abbrev pub resolved : ℕ → Option PaymentTransaction → Exec ProcessPaymentResult
resolved user none s = (err integrity_error, s)
resolved user (some p) s =
    (ok (record { payment = p; user = find (has_user_id user) s.db.users; is_new = false }), s)

unfoldable pub resolve : ℕ → Confirmation → Exec ProcessPaymentResult
resolve user c =
    rollback >> (gets (λ d. find (is_payment c) d.payment_transactions) >>= resolved user)

abbrev pub is_integrity_error : Error → Bool
is_integrity_error integrity_error = true
is_integrity_error _ = false

-- The `try` block, after the row has been written.
unfoldable pub finish_payment :
    ℕ → Confirmation → PaymentTransaction → Result (Option User) → Exec ProcessPaymentResult
unfolding resolve
finish_payment user c p (ok u) s =
    (ok (record { payment = p; user = u; is_new = true }), record s { saved = s.db })
finish_payment user c p (err e) s = if is_integrity_error e then resolve user c s else (err e, s)

unfoldable pub process_new :
    Env → ℕ → Confirmation → Option PaymentTransaction → Exec ProcessPaymentResult
unfolding write_payment pay_order deposit finish_payment
process_new env user c existing s =
    let w = write_payment env user c existing s.db in
    let t = record s { db = record s.db { payment_transactions = w.rows } } in
    let (r, t') = complete env user w.valid c (truthy c.order_id) t in
    finish_payment user c w.row r t'

abbrev pub is_success : PaymentTransaction → Bool
is_success p = str_eq p.status "success"

-- The three cases of the row that a webhook finds.
unfoldable pub process_found :
    Env → ℕ → Confirmation → Option PaymentTransaction → Exec ProcessPaymentResult
unfolding process_new
process_found env user c none = process_new env user c none
process_found env user c (some p) =
    if is_success p
    then gets (λ d. record { payment = p; user = find (has_user_id user) d.users; is_new = false })
    else process_new env user c (some p)

-- `circuit_breaker.record_success(provider)`
unfoldable pub noted : String → Session → Session
noted provider s = record s { breaker = record_success provider s.breaker }

abbrev pub process_for : Env → Confirmation → Option ℕ → Exec ProcessPaymentResult
process_for env c none s = (err value_error, s)
process_for env c (some user) s =
    let t = noted c.provider s in
    process_found env user c (find (is_payment c) t.db.payment_transactions) t

unfoldable pub process_successful_payment_idempotent :
    Env → Confirmation → Exec ProcessPaymentResult
process_successful_payment_idempotent env c = process_for env c (effective_user c)
