-- ===== src/Examples/Gateways.antt =====
-- The theorems on payments at concrete inputs.
use gift_hub.Prelude.{ℕ, ◌≡◌, inr, refl, true, false, none, some, [], ◌∷◌, find}
use gift_hub.Prelude.Int.{pos, negsuc, ◌+ℤ◌}
use gift_hub.Models.{User, PaymentTransaction, PaymeTransaction}
use gift_hub.Session.{Session, ok}
use gift_hub.Wallet.{
  has_user_id, credit_balance, get_user_locked, book, ledger_valid, row_valid, same_reference,
}
use gift_hub.Payments.{
  is_payment, Confirmation, ProcessPaymentResult, effective_user,
  process_successful_payment_idempotent, process_found, process_new, write_payment, payment_valid,
  deposit, finish_payment, noted,
}
use gift_hub.Payments.Once.{deposit_once}
use gift_hub.Payme.{Params, rpc_error, cant_perform, cancelled, perform_tx, cancel_tx, create_tx}
use gift_hub.Payme.Final.{closed_for_good}
use gift_hub.Examples.{env, buyer, shop, start}

abbrev report : Confirmation
report = record {
  provider = "click";
  provider_transaction_id = "42";
  amount = pos 500;
  user_id = some 7;
  telegram_id = none;
  order_id = none;
  correlation_id = none;
}

-- The same payment as it is reported again, with another amount.
abbrev repeated : Confirmation
repeated = record report { amount = pos 900; correlation_id = some "req-9" }

abbrev payment : PaymentTransaction
payment = record {
  id = 1;
  provider = "click";
  provider_transaction_id = "42";
  idempotency_key = "click:42";
  user_id = 7;
  order_id = none;
  amount = pos 500;
  status = "success";
  correlation_id = some "req-1";
  created_at = 5000;
  paid_at = some 5000;
}

abbrev confirmed : ProcessPaymentResult
confirmed = record {
  payment = payment;
  user = some (record buyer { balance = pos 1500 });
  is_new = true;
}

abbrev after_report : Session
after_report = (process_successful_payment_idempotent env report start).1

confirming : process_successful_payment_idempotent env report start ≡ (ok confirmed, after_report)
unfolding process_successful_payment_idempotent process_found process_new write_payment
    payment_valid deposit finish_payment noted credit_balance get_user_locked book ledger_valid
    row_valid same_reference ◌+ℤ◌
confirming = refl

deposit_once_example :
    ((user : ℕ) × (u : User) × (effective_user report ≡ some user)
      × (find (has_user_id user) start.db.users ≡ some u)
      × (find (has_user_id user) after_report.db.users
          ≡ some (record u { balance = u.balance +ℤ pos 500 })))
    × (p : PaymentTransaction) × (find (is_payment report) after_report.db.payment_transactions
        ≡ some p)
    × (p.status ≡ "success")
    × (process_successful_payment_idempotent env repeated after_report ≡ (
      ok (record {
        payment = p;
        user = find (has_user_id 7) after_report.db.users;
        is_new = false;
      }),
      noted "click" after_report,
    ))
deposit_once_example =
    deposit_once env env report repeated start after_report after_report confirmed {user' = 7} refl
      confirming refl refl refl refl refl

abbrev withdrawn : PaymeTransaction
withdrawn = record {
  id = 1;
  paycom_id = "pc-1";
  paycom_time = 100;
  create_time = 110;
  perform_time = 120;
  cancel_time = 130;
  amount = pos 150000;
  state = negsuc 1;
  reason = some (pos 5);
  user_id = 7;
}

abbrev params : Params
params = record {
  id = "pc-1";
  time = 100;
  amount = pos 150000;
  user_id = some 7;
  reason = some (pos 5);
  from_time = 0;
  to_time = 0;
}

abbrev merchant : Session
merchant = record start { db = record shop { payme_transactions = withdrawn ∷ [] } }

closed_for_good_example :
    (perform_tx env 200 params merchant ≡ (ok (rpc_error cant_perform), merchant))
    × (cancel_tx 200 params merchant ≡ (ok (cancelled withdrawn), merchant))
    × ((create_tx 200 params merchant).1 ≡ merchant)
closed_for_good_example = closed_for_good env 200 params merchant {t = withdrawn} refl (inr refl)
