-- ===== src/Payme.antt =====
-- The Payme merchant protocol: app/services/payments/payme.py, over `PaymeTransaction` of
-- app/models/payment.py. A request's parameters are decoded: `user_id` is what `int` made of the
-- account's field, or `none` where it raised. The clock's reading is in milliseconds here, as the
-- protocol counts. Texts of messages, the request's id and log lines are left out, as are the
-- checkout link and the check of the header.
pub mod Final
use Prim.Native.Nat.{suc}
use gift_hub.Prelude.{
  ℕ, ◌/◌, ◌==◌, String, Bool, true, false, not, ◌&&◌, Option, none, some, List, [], ◌∷◌, ◌++◌, leb,
  str_eq, find, update_rows, where_rows, if◌then◌else◌,
}
use gift_hub.Prelude.Int.{ℤ, pos, negsuc, ltb_ℤ, leb_ℤ}
use gift_hub.Decimal.{quantize}
use gift_hub.Models.{Db, User, PaymeTransaction, WalletTransaction}
use gift_hub.Wallet.{Entry, has_user_id, debit_balance}
use gift_hub.Orders.{Env}
use gift_hub.Payments.{Confirmation, process_successful_payment_idempotent}
use gift_hub.Session.{Session, Exec, Result, ok, err, pure, gets, modify, commit, ◌>>=◌, ◌>>◌}

pub data RpcError : Type 0 where
  amount_error user_not_found_error transaction_not_found cant_cancel cant_perform : RpcError
  method_not_found : RpcError

-- The error codes.
unfoldable pub code_of : RpcError → ℤ
code_of amount_error = negsuc 31000
code_of user_not_found_error = negsuc 31049
code_of transaction_not_found = negsuc 31002
code_of cant_cancel = negsuc 31006
code_of cant_perform = negsuc 31007
code_of method_not_found = negsuc 32600

-- `state` of a transaction.
abbrev pub state_created : ℤ
state_created = pos 1

abbrev pub state_performed : ℤ
state_performed = pos 2

abbrev pub eq_ℤ : ℤ → ℤ → Bool
eq_ℤ a b = leb_ℤ a b && leb_ℤ b a

pub record Params : Type 0 where
  pub id : String
  pub time : ℕ
  pub amount : ℤ
  pub user_id : Option ℕ
  pub reason : Option ℤ
  pub from_time : ℕ
  pub to_time : ℕ

pub data Reply : Type 0 where
  rpc_error : RpcError → Reply
  allow : Reply
  created : PaymeTransaction → Reply
  performed : PaymeTransaction → Reply
  cancelled : PaymeTransaction → Reply
  checked : PaymeTransaction → Reply
  statement : List PaymeTransaction → Reply

abbrev pub has_paycom_id : String → PaymeTransaction → Bool
has_paycom_id i t = str_eq t.paycom_id i

abbrev pub find_tx : String → Db → Option PaymeTransaction
find_tx i d = find (has_paycom_id i) d.payme_transactions

abbrev pub set_tx : PaymeTransaction → Db → Db
set_tx t d = record d {
  payme_transactions = update_rows (λ u. u.id == t.id) (λ _. t) d.payme_transactions;
}

-- The account's user, where there is one.
abbrev pub account : Params → Db → Option User
account p d = elim p.user_id [ none ↦ none | some i ↦ find (has_user_id i) d.users ]

abbrev allow_user : ℤ → Option User → Reply
allow_user amount none = rpc_error user_not_found_error
allow_user amount (some u) = if ltb_ℤ amount (pos 100000) then rpc_error amount_error else allow

unfoldable pub check_perform : Params → Exec Reply
check_perform p = gets (λ d. allow_user p.amount (account p d))

abbrev next_tx : List PaymeTransaction → ℕ
next_tx [] = 1
next_tx (t ∷ []) = suc t.id
next_tx (t ∷ u ∷ ts) = next_tx (u ∷ ts)

abbrev new_tx : ℕ → Params → User → Db → PaymeTransaction
new_tx now p u d = record {
  id = next_tx d.payme_transactions;
  paycom_id = p.id;
  paycom_time = p.time;
  create_time = now;
  perform_time = 0;
  cancel_time = 0;
  amount = p.amount;
  state = state_created;
  reason = none;
  user_id = u.id;
}

unfoldable pub create_for : ℕ → Params → User → Option PaymeTransaction → Exec Reply
create_for now p u (some t) =
    pure (if eq_ℤ t.state state_created then created t else rpc_error cant_perform)
create_for now p u none = do
  t ← gets (new_tx now p u)
  modify (λ d. record d { payme_transactions = d.payme_transactions ++ t ∷ [] })
  commit
  pure (created t)

unfoldable pub create_account : ℕ → Params → Option User → Exec Reply
unfolding create_for
create_account now p none = pure (rpc_error user_not_found_error)
create_account now p (some u) = gets (find_tx p.id) >>= create_for now p u

unfoldable pub create_tx : ℕ → Params → Exec Reply
unfolding create_account
create_tx now p = gets (account p) >>= create_account now p

-- `(Decimal(str(tx.amount)) / 100).quantize(1)`
abbrev pub amount_uzs : PaymeTransaction → ℤ
amount_uzs t = quantize t.amount 100

abbrev pub confirmation : Params → PaymeTransaction → Confirmation
confirmation p t = record {
  provider = "payme";
  provider_transaction_id = p.id;
  amount = amount_uzs t;
  user_id = some t.user_id;
  telegram_id = none;
  order_id = none;
  correlation_id = none;
}

abbrev mark_performed : ℕ → PaymeTransaction → PaymeTransaction
mark_performed now t = record t { state = state_performed; perform_time = now }

unfoldable pub perform_found : Env → ℕ → Params → Option PaymeTransaction → Exec Reply
perform_found env now p none = pure (rpc_error transaction_not_found)
perform_found env now p (some t) =
    if eq_ℤ t.state state_created
    then (do
      process_successful_payment_idempotent env (confirmation p t)
      let t' = mark_performed now t
      modify (set_tx t')
      commit
      pure (performed t'))
    else if eq_ℤ t.state state_performed
    then pure (performed t)
    else pure (rpc_error cant_perform)

unfoldable pub perform_tx : Env → ℕ → Params → Exec Reply
unfolding perform_found
perform_tx env now p = gets (find_tx p.id) >>= perform_found env now p

abbrev pub cancellation : Params → Entry
cancellation p = record {
  tx_type = "refund";
  reference_type = some "payment_cancellation";
  reference_id = some p.id;
}

abbrev mark_cancelled : ℕ → ℤ → Option ℤ → PaymeTransaction → PaymeTransaction
mark_cancelled now state reason t = record t { state = state; cancel_time = now; reason = reason }

abbrev close_tx : PaymeTransaction → Exec Reply
close_tx t = do modify (set_tx t); commit; pure (cancelled t)

-- What follows the debit, every exception of which is caught.
abbrev after_debit : ℕ → Params → PaymeTransaction → Result (User × WalletTransaction) → Exec Reply
after_debit now p t (err e) = pure (rpc_error cant_cancel)
after_debit now p t (ok x) = close_tx (mark_cancelled now (negsuc 1) p.reason t)

unfoldable pub cancel_performed : ℕ → Params → PaymeTransaction → Exec Reply
cancel_performed now p t s =
    let (r, s') = debit_balance t.user_id (amount_uzs t) (cancellation p) s in
    after_debit now p t r s'

unfoldable pub cancel_found : ℕ → Params → Option PaymeTransaction → Exec Reply
unfolding cancel_performed
cancel_found now p none = pure (rpc_error transaction_not_found)
cancel_found now p (some t) =
    if eq_ℤ t.state state_created
    then close_tx (mark_cancelled now (negsuc 0) p.reason t)
    else if eq_ℤ t.state state_performed
    then cancel_performed now p t
    else pure (cancelled t)

unfoldable pub cancel_tx : ℕ → Params → Exec Reply
unfolding cancel_found
cancel_tx now p = gets (find_tx p.id) >>= cancel_found now p

abbrev check_found : Option PaymeTransaction → Reply
check_found none = rpc_error transaction_not_found
check_found (some t) = checked t

unfoldable pub check_tx : Params → Exec Reply
check_tx p = gets (λ d. check_found (find_tx p.id d))

unfoldable pub get_statement : Params → Exec Reply
get_statement p = gets (λ d. statement (
    where_rows (λ t. leb p.from_time t.create_time && leb t.create_time p.to_time)
      d.payme_transactions))

unfoldable pub handle_request : Env → ℕ → String → Params → Exec Reply
unfolding check_perform create_tx perform_tx cancel_tx check_tx get_statement
handle_request env now method p =
    if str_eq method "CheckPerformTransaction"
    then check_perform p
    else if str_eq method "CreateTransaction"
    then create_tx now p
    else if str_eq method "PerformTransaction"
    then perform_tx env now p
    else if str_eq method "CancelTransaction"
    then cancel_tx now p
    else if str_eq method "CheckTransaction"
    then check_tx p
    else if str_eq method "GetStatement"
    then get_statement p
    else pure (rpc_error method_not_found)
