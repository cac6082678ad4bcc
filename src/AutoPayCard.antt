-- ===== src/AutoPayCard.antt =====
-- Transfers to a card: `handle_webhook` of app/services/payments/autopaycard.py with `PaymentSetting`
-- of app/models/payment.py. A request's fields are decoded; instants are in microseconds. The texts
-- of the answers and notes are left out.
pub mod Charged
use gift_hub.Prelude.{
  ℕ, ◌+◌, ◌-◌, ◌*◌, String, Bool, true, false, not, ◌&&◌, ◌||◌, Option, none, some, str_eq, ltb,
  leb, find, if◌then◌else◌,
}
use gift_hub.Prelude.Int.{ℤ, pos, ltb_ℤ}
use gift_hub.Prelude.Texts.{is_empty, strip}
use gift_hub.Models.{User}
use gift_hub.Orders.{Env}
use gift_hub.Wallet.{has_user_id}
use gift_hub.Payments.{Confirmation, ProcessPaymentResult, process_successful_payment_idempotent}
use gift_hub.Session.{Exec, pure, gets, ◌>>=◌}

pub record PaymentSetting : Type 0 where
  pub autopaycard_active : Bool
  pub autopaycard_api_key : Option String

-- What `float` made of the field, in thousandths.
pub data Timestamp : Type 0 where
  missing unreadable not_a_number : Timestamp
  at : ℕ → Timestamp

-- `bearer` is what follows the word in the header; `amount` is none where it is no decimal, and
-- `user_id` where `int` refuses it.
pub record Webhook : Type 0 where
  pub bearer : Option String
  pub x_api_key : Option String
  pub api_key : Option String
  pub secret : Option String
  pub timestamp : Timestamp
  pub tx_id : Option String
  pub transaction_id : Option String
  pub id : Option String
  pub amount : Option ℤ
  pub user_id : Option ℕ

pub data Refusal : Type 0 where
  inactive bad_key stale no_transaction bad_amount too_small no_user unknown_user : Refusal

-- An accepted webhook answers with the user and the balance of the result.
pub data Answer : Type 0 where
  refused : Refusal → Answer
  accepted : ProcessPaymentResult → Answer

-- Python's `a or b` on texts that may be missing.
abbrev pub or_text : Option String → Option String → Option String
or_text none other = other
or_text (some t) other = if is_empty t then other else some t

abbrev header_key : Option String → Option String → Option String
header_key none x = x
header_key (some t) x = some (strip t)

unfoldable pub given_key : Webhook → Option String
given_key r = or_text (header_key r.bearer r.x_api_key) (or_text r.api_key r.secret)

abbrev same_key : Option String → Option String → Bool
same_key none e = false
same_key (some k) none = false
same_key (some k) (some e) = not (is_empty k) && not (is_empty e) && str_eq (strip k) (strip e)

-- The key of the settings, or else that of the configuration.
unfoldable pub is_authenticated : Option String → PaymentSetting → Webhook → Bool
unfolding given_key
is_authenticated configured setting r =
    same_key (given_key r) (or_text setting.autopaycard_api_key configured)

abbrev pub tolerance : ℕ
tolerance = 600000000

-- A number above 1e11 counts milliseconds, any other seconds.
abbrev pub instant : ℕ → ℕ
instant n = if ltb 100000000000000 n then n else n * 1000

unfoldable pub is_stale : ℕ → Timestamp → Bool
is_stale now missing = false
is_stale now unreadable = false
is_stale now not_a_number = false
is_stale now (at n) = ltb (instant n + tolerance) now || ltb (now + tolerance) (instant n)

unfoldable pub provider_tx_id : Webhook → Option String
provider_tx_id r = or_text r.tx_id (or_text r.transaction_id r.id)

abbrev pub confirmation : String → ℕ → ℤ → Confirmation
confirmation tx user amount = record {
  provider = "autopaycard";
  provider_transaction_id = strip tx;
  amount = amount;
  user_id = some user;
  telegram_id = none;
  order_id = none;
  correlation_id = none;
}

-- A thousand sums.
abbrev pub minimum : ℤ
minimum = pos 100000

abbrev charge_found : Env → Confirmation → Option User → Exec Answer
charge_found env c none = pure (refused unknown_user)
charge_found env c (some u) = do
  result ← process_successful_payment_idempotent env c
  pure (accepted result)

unfoldable pub charge : Env → String → ℕ → ℤ → Exec Answer
charge env tx user amount =
    gets (λ d. find (has_user_id user) d.users) >>= charge_found env (confirmation tx user amount)

abbrev with_user : Env → String → ℤ → Option ℕ → Exec Answer
with_user env tx amount none = pure (refused no_user)
with_user env tx amount (some user) = charge env tx user amount

abbrev with_amount : Env → String → Option ℕ → Option ℤ → Exec Answer
with_amount env tx user none = pure (refused bad_amount)
with_amount env tx user (some amount) =
    if ltb_ℤ amount minimum then pure (refused too_small) else with_user env tx amount user

abbrev with_transaction : Env → Webhook → Option String → Exec Answer
with_transaction env r none = pure (refused no_transaction)
with_transaction env r (some tx) =
    if is_empty tx || is_empty (strip tx)
    then pure (refused no_transaction)
    else with_amount env tx r.user_id r.amount

abbrev with_setting : Env → Option String → Webhook → Option PaymentSetting → Exec Answer
with_setting env configured r none = pure (refused inactive)
with_setting env configured r (some setting) =
    if not setting.autopaycard_active
    then pure (refused inactive)
    else if not (is_authenticated configured setting r)
    then pure (refused bad_key)
    else if is_stale env.now r.timestamp
    then pure (refused stale)
    else with_transaction env r (provider_tx_id r)

unfoldable pub handle_webhook : Env → Option String → Option PaymentSetting → Webhook → Exec Answer
handle_webhook env configured stored r = with_setting env configured r stored
