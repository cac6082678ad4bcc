-- ===== src/Click.antt =====
-- The Click protocol: app/services/payments/click.py over `ClickTransaction` of
-- app/models/payment.py. MD5 and the settings are parameters. The fields of a request come as texts
-- with the numbers that `int` and `Decimal` read of them; the notes of an answer, the checkout link
-- and log lines are left out. A row that a simultaneous request inserts is seen by the look-up.
pub mod Guards
use Prim.Native.Char.{code}
use Prim.Native.String.{◌++◌ as text_append}
use gift_hub.Prelude.{
  ℕ, suc, ◌+◌, ◌-◌, ◌*◌, leb, ◌==◌, String, Bool, true, false, not, ◌&&◌, ◌||◌, Option, none, some,
  List, [], ◌∷◌, ◌++◌, str_eq, find, update_rows, if◌then◌else◌,
}
use gift_hub.Prelude.Int.{ℤ, pos, negsuc, ltb_ℤ, leb_ℤ}
use gift_hub.Prelude.Texts.{is_empty, is_digit, int_of, lower, strip}
use gift_hub.Models.{Db, User}
use gift_hub.Models.Shop.{ClickTransaction}
use gift_hub.Orders.{Env}
use gift_hub.Wallet.{has_user_id}
use gift_hub.Pricing.Prices.{show_ℤ}
use gift_hub.Payments.{Confirmation, ProcessPaymentResult, process_successful_payment_idempotent}
use gift_hub.Session.{Session, Exec, pure, gets, modify, commit, ◌>>=◌, ◌>>◌}

-- A field of the request: its text, and the number read of it.
pub record Field : Type 0 where
  pub text : String
  pub number : ℤ

-- A callback; the amount in tiyin.
pub record ClickRequest : Type 0 where
  pub click_trans_id : Field
  pub service_id : Field
  pub merchant_trans_id : String
  pub merchant_prepare_id : Field
  pub amount : Field
  pub action : Field
  pub error : Field
  pub sign_time : String
  pub sign_string : String

-- CLICK_SERVICE_ID, CLICK_SECRET_KEY, whether ENVIRONMENT is "test", and MD5 in hexadecimal.
pub record ClickSettings : Type 0 where
  pub service_id : String
  pub secret_key : String
  pub is_test : Bool
  pub md5 : String → String

pub record ClickAnswer : Type 0 where
  pub error : ℤ
  pub merchant_prepare_id : Option ℕ
  pub merchant_confirm_id : Option ℕ

abbrev pub answer : ℤ → ClickAnswer
answer e = record { error = e; merchant_prepare_id = none; merchant_confirm_id = none }

abbrev pub prepared : ℕ → ClickAnswer
prepared i = record { error = pos 0; merchant_prepare_id = some i; merchant_confirm_id = none }

abbrev pub confirmed : ℤ → ℕ → ClickAnswer
confirmed e i = record { error = e; merchant_prepare_id = none; merchant_confirm_id = some i }

-- CLICK_SIGN_CHECK_FAILED and the codes that follow it.
abbrev pub sign_check_failed : ℤ
sign_check_failed = negsuc 0

abbrev pub invalid_amount : ℤ
invalid_amount = negsuc 1

abbrev pub action_not_found : ℤ
action_not_found = negsuc 2

abbrev pub already_paid : ℤ
already_paid = negsuc 3

abbrev pub click_user_not_found : ℤ
click_user_not_found = negsuc 4

abbrev pub transaction_not_found : ℤ
transaction_not_found = negsuc 5

abbrev pub error_failed : ℤ
error_failed = negsuc 7

abbrev pub transaction_cancelled : ℤ
transaction_cancelled = negsuc 8

-- The text that is signed; only the completion has the prepared identity in it.
abbrev signed_text : ClickSettings → ClickRequest → String
signed_text c r = text_append r.click_trans_id.text (
    text_append r.service_id.text (
      text_append c.secret_key (
        text_append r.merchant_trans_id (
          text_append (if str_eq r.action.text "1" then r.merchant_prepare_id.text else "")
            (text_append r.amount.text (text_append r.action.text r.sign_time))))))

unfoldable pub verify_signature : ClickSettings → ClickRequest → Bool
unfolding lower
verify_signature c r =
    if c.is_test && is_empty r.sign_string
    then true
    else str_eq (lower (c.md5 (signed_text c r))) (lower r.sign_string)

abbrev pub same_amount : ℤ → ℤ → Bool
same_amount a b = leb_ℤ a b && leb_ℤ b a

abbrev pub has_trans_id : ℤ → ClickTransaction → Bool
has_trans_id i t = same_amount t.click_trans_id i

abbrev pub set_click : ClickTransaction → Db → Db
set_click t d = record d {
  click_transactions = update_rows (has_trans_id t.click_trans_id) (λ _. t) d.click_transactions;
}

-- Digits, with single underscores between them, after `n` has been read; the test says whether the
-- last character was a digit.
unfoldable read_digits : Bool → ℕ → String → Option ℕ
read_digits after_digit n String.[] = if after_digit then some n else none
read_digits after_digit n (String.◌∷◌ c s) =
    let digit = leb b'0' (code c) && leb (code c) b'9' in
    let next = if digit then n * 10 + (code c - b'0') else n in
    let rest = read_digits digit next s in
    if digit || (after_digit && code c == b'_') then rest else none

-- A negative number is nobody's.
abbrev not_negative : Option ℕ → Option ℕ
not_negative none = none
not_negative (some n) = if n == 0 then some 0 else none

-- `int(s)`, where it is not negative.
abbrev read_int : String → Option ℕ
read_int String.[] = none
read_int (String.◌∷◌ c s) =
    if code c == b'+'
    then read_digits false 0 s
    else if code c == b'-'
    then not_negative (read_digits false 0 s)
    else read_digits false 0 (String.◌∷◌ c s)

abbrev with_id : List User → Option ℕ → Option User
with_id users none = none
with_id users (some i) = find (has_user_id i) users

-- The user with the identity `int(merchant_trans_id.strip())`.
abbrev user_named : String → List User → Option User
user_named s users = with_id users (read_int (strip s))

abbrev next_click_id : List ClickTransaction → ℕ
next_click_id [] = 1
next_click_id (t ∷ []) = suc t.id
next_click_id (t ∷ u ∷ ts) = next_click_id (u ∷ ts)

abbrev new_click : ClickRequest → User → Db → ClickTransaction
new_click r u d = record {
  id = next_click_id d.click_transactions;
  click_trans_id = r.click_trans_id.number;
  service_id = r.service_id.number;
  merchant_trans_id = r.merchant_trans_id;
  amount = r.amount.number;
  action = pos 0;
  error = pos 0;
  user_id = u.id;
  status = "prepared";
}

-- A thousand sums.
abbrev minimum_payment : ℤ
minimum_payment = pos 100000

abbrev insert_click : ClickRequest → User → Exec ClickAnswer
insert_click r u = do
  t ← gets (new_click r u)
  modify (λ d. record d { click_transactions = d.click_transactions ++ t ∷ [] })
  commit
  pure (prepared t.id)

-- The row of the transaction, where an earlier request made one.
abbrev prepare_found : ClickRequest → User → Option ClickTransaction → Exec ClickAnswer
prepare_found r u none = insert_click r u
prepare_found r u (some t) =
    if not (str_eq t.merchant_trans_id r.merchant_trans_id)
    then pure (answer transaction_not_found)
    else if not (same_amount t.amount r.amount.number)
    then pure (answer invalid_amount)
    else pure (prepared t.id)

abbrev prepare_for : ClickRequest → Option User → Exec ClickAnswer
prepare_for r none = pure (answer click_user_not_found)
prepare_for r (some u) =
    if ltb_ℤ r.amount.number minimum_payment
    then pure (answer invalid_amount)
    else gets (λ d. find (has_trans_id r.click_trans_id.number) d.click_transactions)
      >>= prepare_found r u

unfoldable pub process_prepare : ClickSettings → ClickRequest → Exec ClickAnswer
unfolding verify_signature strip read_digits
process_prepare c r =
    if not (verify_signature c r)
    then pure (answer sign_check_failed)
    else if not (is_empty c.service_id) && not (str_eq (show_ℤ r.service_id.number) c.service_id)
    then pure (answer error_failed)
    else gets (λ d. user_named r.merchant_trans_id d.users) >>= prepare_for r

abbrev pub click_payment : ClickRequest → ClickTransaction → Confirmation
click_payment r t = record {
  provider = "click";
  provider_transaction_id = show_ℤ r.click_trans_id.number;
  amount = r.amount.number;
  user_id = some t.user_id;
  telegram_id = none;
  order_id = none;
  correlation_id = none;
}

-- Whether the request names another prepared row, where it names one.
abbrev pub other_row : ClickRequest → ClickTransaction → Bool
other_row r t =
    let i = r.merchant_prepare_id.number in
    not (same_amount i (pos 0)) && not (same_amount (pos t.id) i)

abbrev pub paid_answer : ClickTransaction → ProcessPaymentResult → ClickAnswer
paid_answer t x = confirmed (if x.is_new then pos 0 else already_paid) t.id

unfoldable pub complete_payment : Env → ClickRequest → ClickTransaction → Exec ClickAnswer
complete_payment env r t = do
  modify (set_click (record t { status = "completed"; action = pos 1 }))
  x ← process_successful_payment_idempotent env (click_payment r t)
  pure (paid_answer t x)

abbrev cancel_payment : ClickRequest → ClickTransaction → Exec ClickAnswer
cancel_payment r t = do
  modify (set_click (record t { status = "cancelled"; error = r.error.number }))
  commit
  pure (answer transaction_cancelled)

unfoldable pub complete_found : Env → ClickRequest → Option ClickTransaction → Exec ClickAnswer
unfolding complete_payment
complete_found env r none = pure (answer transaction_not_found)
complete_found env r (some t) =
    if other_row r t
    then pure (answer transaction_not_found)
    else if not (same_amount t.amount r.amount.number)
    then pure (answer invalid_amount)
    else if str_eq t.status "completed"
    then pure (confirmed already_paid t.id)
    else if ltb_ℤ r.error.number (pos 0)
    then cancel_payment r t
    else complete_payment env r t

unfoldable pub process_complete : Env → ClickSettings → ClickRequest → Exec ClickAnswer
unfolding verify_signature complete_found
process_complete env c r =
    if not (verify_signature c r)
    then pure (answer sign_check_failed)
    else gets (λ d. find (has_trans_id r.click_trans_id.number) d.click_transactions)
      >>= complete_found env r

unfoldable pub process_webhook : Env → ClickSettings → ClickRequest → Exec ClickAnswer
unfolding process_prepare process_complete
process_webhook env c r =
    if same_amount r.action.number (pos 0)
    then process_prepare c r
    else if same_amount r.action.number (pos 1)
    then process_complete env c r
    else pure (answer action_not_found)
