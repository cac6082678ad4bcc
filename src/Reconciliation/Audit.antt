-- ===== src/Reconciliation/Audit.antt =====
-- When the audit finds nothing.
use gift_hub.Prelude.{ℕ, ◌≤◌, ◌≡◌, some, List, count_rows, All}
use gift_hub.Models.{Db, PaymentTransaction}
use gift_hub.Session.{Session}
use gift_hub.Reconciliation.Meaning.{Settles, PaysPrice, Booked, Delivered, PaysAlone}
use gift_hub.Reconciliation.{success_for, order_paid}

-- At most one successful payment for the order that the audit reads of `p`.
abbrev OnlyOne : List PaymentTransaction → PaymentTransaction → Type 0
OnlyOne all p = (i : ℕ) → order_paid p ≡ some i → count_rows (success_for i) all ≤ 1

module _ (all : List PaymentTransaction) where
  abbrev Single : ℕ → Type 0
  Single i = count_rows (success_for i) all ≤ 1

-- What a clean audit means: no successful payment is for an order left unpaid or of another price, no
-- order has two successful payments, each order paid for from the wallet has a row in the ledger
-- that books a purchase under the number of the order (checkouts book it under the order's code), and no
-- order that was paid for more than five minutes ago waits for its delivery.
pub record IsReconciled (now : ℕ) (d : Db) : Type 0 where
  pub settled : All (λ p. All (Settles p) d.orders) d.payment_transactions
  pub booked : All (Booked d.wallet_transactions) d.orders
  pub delivered : All (Delivered now) d.orders
  pub equal : All (λ p. All (PaysPrice p) d.orders) d.payment_transactions
  pub alone : All (PaysAlone d.payment_transactions) d.payment_transactions
