-- ===== src/Examples/Cards.antt =====
-- The theorem on card transfers at a concrete input.
use gift_hub.Prelude.{◌≡◌, refl, true, none, some, find}
use gift_hub.Prelude.Int.{pos, ◌+ℤ◌}
use gift_hub.Prelude.Texts.{strip, lstrip}
use gift_hub.Models.{User}
use gift_hub.Session.{Session, ok}
use gift_hub.Wallet.{
  has_user_id, credit_balance, get_user_locked, book, ledger_valid, row_valid, same_reference,
}
use gift_hub.Payments.{
  ProcessPaymentResult, process_successful_payment_idempotent, process_found, process_new,
  write_payment, payment_valid, deposit, finish_payment, noted,
}
use gift_hub.AutoPayCard.{
  PaymentSetting, Webhook, missing, at, accepted, handle_webhook, is_authenticated, given_key,
  is_stale, provider_tx_id, charge,
}
use gift_hub.AutoPayCard.Charged.{IsAccepted, card_credited_once}
use gift_hub.Examples.{env, buyer, start}

abbrev setting : PaymentSetting
setting = record { autopaycard_active = true; autopaycard_api_key = some "key" }

abbrev hook : Webhook
hook = record {
  bearer = some "key";
  x_api_key = none;
  api_key = none;
  secret = none;
  timestamp = at 1000;
  tx_id = some "77";
  transaction_id = none;
  id = none;
  amount = some (pos 150000);
  user_id = some 7;
}

-- The same transaction from a stranger, for more.
abbrev replay : Webhook
replay = record hook {
  bearer = none;
  timestamp = missing;
  tx_id = some "77 ";
  amount = some (pos 900000);
}

abbrev result : ProcessPaymentResult
result = record {
  payment = record {
    id = 1;
    provider = "autopaycard";
    provider_transaction_id = "77";
    idempotency_key = "autopaycard:77";
    user_id = 7;
    order_id = none;
    amount = pos 150000;
    status = "success";
    correlation_id = some "req-1";
    created_at = 5000;
    paid_at = some 5000;
  };
  user = some (record buyer { balance = pos 151000 });
  is_new = true;
}

abbrev paid : Session
paid = (handle_webhook env none (some setting) hook start).1

pays : handle_webhook env none (some setting) hook start ≡ (ok (accepted result), paid)
unfolding handle_webhook is_authenticated given_key is_stale provider_tx_id charge strip lstrip
    process_successful_payment_idempotent process_found process_new write_payment payment_valid
    deposit finish_payment noted credit_balance get_user_locked book ledger_valid row_valid
    same_reference ◌+ℤ◌
pays = refl

names : provider_tx_id hook ≡ some "77"
unfolding provider_tx_id
names = refl

names_again : provider_tx_id replay ≡ some "77 "
unfolding provider_tx_id
names_again = refl

same : strip "77 " ≡ strip "77"
unfolding strip lstrip
same = refl

card_credited_once_example :
    (a : IsAccepted env none (some setting) hook start paid result) × (u : User) × (find
        (has_user_id a.user)
        start.db.users
      ≡ some u)
    × (find (has_user_id a.user) paid.db.users
        ≡ some (record u { balance = u.balance +ℤ a.amount }))
    × ((handle_webhook env (some "key") (some setting) replay paid).1.db ≡ paid.db)
card_credited_once_example =
    card_credited_once env env none (some "key") (some setting) (some setting) hook replay start
      paid result pays refl names names_again same
