-- ===== src/Examples/Audits.antt =====
-- The theorems on the audit and on Click at concrete inputs.
use gift_hub.Prelude.{ℕ, String, ◌≡◌, refl, true, false, some, [], ◌∷◌, str_eq, find}
use gift_hub.Prelude.Int.{pos, ◌+ℤ◌, ltb_ℤ}
use gift_hub.Models.{User}
use gift_hub.Models.Shop.{ClickTransaction}
use gift_hub.Session.{Session, ok}
use gift_hub.Wallet.{has_user_id, credit_balance}
use gift_hub.Payments.{process_successful_payment_idempotent, process_found, noted}
use gift_hub.Click.{
  ClickSettings, ClickRequest, Field, confirmed, has_trans_id, same_amount, process_complete,
}
use gift_hub.Click.Guards.{IsSigned, click_charges}
use gift_hub.Examples.{shop, start, env}

abbrev field : String → ℕ → Field
field s n = record { text = s; number = pos n }

abbrev completion : ClickRequest
completion = record {
  click_trans_id = field "42" 42;
  service_id = field "1" 1;
  merchant_trans_id = "7";
  merchant_prepare_id = field "5" 5;
  amount = field "1000" 100000;
  action = field "1" 1;
  error = field "0" 0;
  sign_time = "now";
  sign_string = "ABC";
}

-- A hash that gives every text the same value.
abbrev click_settings : ClickSettings
click_settings = record { service_id = "1"; secret_key = "key"; is_test = false; md5 = λ s. "abc" }

abbrev prepared_row : ClickTransaction
prepared_row = record {
  id = 5;
  click_trans_id = pos 42;
  service_id = pos 1;
  merchant_trans_id = "7";
  amount = pos 100000;
  action = pos 0;
  error = pos 0;
  user_id = 7;
  status = "prepared";
}

abbrev clicked : Session
clicked = record start { db = record shop { click_transactions = prepared_row ∷ [] } }

abbrev after_click : Session
after_click = (process_complete env click_settings completion clicked).1

completing :
    process_complete env click_settings completion clicked ≡ (ok (confirmed (pos 0) 5), after_click)
unfolding process_complete process_successful_payment_idempotent process_found noted credit_balance
    ◌+ℤ◌
completing = refl

click_charges_example :
    IsSigned click_settings completion
    × (t : ClickTransaction) × (find (has_trans_id (pos 42)) clicked.db.click_transactions ≡ some t)
    × (same_amount t.amount (pos 100000) ≡ true)
    × (str_eq t.status "completed" ≡ false)
    × (ltb_ℤ (pos 0) (pos 0) ≡ false)
    × (u : User) × (find (has_user_id t.user_id) clicked.db.users ≡ some u)
    × (find (has_user_id t.user_id) after_click.db.users
        ≡ some (record u { balance = u.balance +ℤ pos 100000 }))
click_charges_example =
    click_charges env click_settings completion (confirmed (pos 0) 5) clicked after_click refl
      completing refl
