-- ===== src/Reconciliation.antt =====
-- The audit of payments, orders and ledger: app/services/reconciliation/service.py. The texts of a
-- discrepancy are left out; the rows of a join come in the order of the payments. The instant is an
-- argument.
pub mod Meaning
pub mod Audit
use gift_hub.Prelude.{
  ℕ, suc, ◌+◌, ◌==◌, String, Bool, true, false, not, ◌&&◌, ◌||◌, Option, none, some, List, [], ◌∷◌,
  ◌++◌, map, str_eq, ltb, length, where_rows, count_rows, any, if◌then◌else◌,
}
use gift_hub.Prelude.Int.{ℤ, pos, ◌+ℤ◌, leb_ℤ}
use gift_hub.Prelude.Dict.{Dict, lookup, insert}
use gift_hub.Prelude.Texts.{show}
use gift_hub.Models.{Db, PaymentTransaction, WalletTransaction}
use gift_hub.Models.Orders.{
  Order, value, created, awaiting_payment, paid, processing, completed, refunded,
}
use gift_hub.Models.Shop.{
  DiscrepancyType, paid_payment_unpaid_order, paid_order_missing_wallet_tx,
  paid_order_missing_fulfillment, amount_mismatch, duplicate_provider_transaction,
  ReconciliationDiscrepancy, ReconciliationReport,
}
use gift_hub.Session.{Exec, pure, gets, modify, ◌>>=◌, ◌>>◌}

-- A discrepancy before it has a report: its kind, the order and the payment.
pub record Found : Type 0 where
  pub kind : DiscrepancyType
  pub order_id : Option ℕ
  pub payment_id : Option ℕ

abbrev pub is_success : PaymentTransaction → Bool
is_success p = str_eq p.status "success"

-- The condition of the join.
abbrev pub pays : PaymentTransaction → Order → Bool
pays p o = elim p.order_id [ none ↦ false | some i ↦ o.id == i ]

-- The orders that a test relates to a payment, each reported as `kind`.
unfoldable pub pairs :
    DiscrepancyType
    → (PaymentTransaction → Order → Bool)
    → List PaymentTransaction
    → List Order
    → List Found
pairs kind test [] os = []
pairs kind test (p ∷ ps) os =
    map (λ (o : Order). record { kind = kind; order_id = some o.id; payment_id = some p.id })
      (where_rows (test p) os)
    ++ pairs kind test ps os

-- The orders that a test accepts, each reported as `kind`.
abbrev pub singles : DiscrepancyType → (Order → Bool) → List Order → List Found
singles kind test os =
    map (λ (o : Order). record { kind = kind; order_id = some o.id; payment_id = none })
      (where_rows test os)

-- Check 1.
abbrev pub left_unpaid : PaymentTransaction → Order → Bool
left_unpaid p o =
    pays p o
    && is_success p
    && (str_eq o.status (value created) || str_eq o.status (value awaiting_payment))

-- Check 2.
abbrev pub is_wallet_order : Order → Bool
is_wallet_order o =
    (str_eq o.status (value paid)
      || str_eq o.status (value completed)
      || str_eq o.status (value processing))
    && (str_eq o.payment_method "balance" || str_eq o.payment_method "wallet")

abbrev same_text : Option String → String → Bool
same_text none t = false
same_text (some s) t = str_eq s t

abbrev pub books : Order → WalletTransaction → Bool
books o t =
    same_text t.reference_type "order"
    && same_text t.reference_id (show o.id)
    && str_eq t.tx_type "purchase"

abbrev pub lacks_ledger : List WalletTransaction → Order → Bool
lacks_ledger ts o = is_wallet_order o && not (any (books o) ts)

-- Check 3; five minutes.
abbrev pub five_minutes : ℕ
five_minutes = 300000000

abbrev long_paid : ℕ → Option ℕ → Bool
long_paid now none = false
long_paid now (some t) = ltb (t + five_minutes) now

abbrev pub is_stuck : ℕ → Order → Bool
is_stuck now o =
    str_eq o.status (value paid)
    && long_paid now o.paid_at
    && (str_eq o.fulfillment_status "pending" || str_eq o.fulfillment_status "failed")

-- Check 4.
abbrev pub differs : PaymentTransaction → Order → Bool
differs p o =
    pays p o && is_success p && not (leb_ℤ p.amount o.total_price && leb_ℤ o.total_price p.amount)

-- Check 5: the orders of successful payments, each once, with how many pay it.
abbrev pub success_for : ℕ → PaymentTransaction → Bool
success_for i p = is_success p && elim p.order_id [ none ↦ false | some j ↦ j == i ]

abbrev duplicate : ℕ → Found
duplicate i = record { kind = duplicate_provider_transaction; order_id = some i; payment_id = none }

abbrev pub order_paid : PaymentTransaction → Option ℕ
order_paid p = if is_success p then p.order_id else none

abbrev pub is_seen : List ℕ → ℕ → Bool
is_seen seen i = any (λ j. j == i) seen

abbrev pub first_report : List PaymentTransaction → List ℕ → Option ℕ → List Found
first_report all seen none = []
first_report all seen (some i) =
    if not (is_seen seen i) && ltb 1 (count_rows (success_for i) all) then duplicate i ∷ [] else []

abbrev pub see : List ℕ → Option ℕ → List ℕ
see seen none = seen
see seen (some i) = i ∷ seen

unfoldable pub duplicates : List PaymentTransaction → List ℕ → List PaymentTransaction → List Found
duplicates all seen [] = []
duplicates all seen (p ∷ ps) =
    first_report all seen (order_paid p) ++ duplicates all (see seen (order_paid p)) ps

-- The five checks, in their order.
unfoldable pub find_discrepancies : ℕ → Db → List Found
unfolding pairs duplicates
find_discrepancies now d =
    pairs paid_payment_unpaid_order left_unpaid d.payment_transactions d.orders
    ++ singles paid_order_missing_wallet_tx (lacks_ledger d.wallet_transactions) d.orders
    ++ singles paid_order_missing_fulfillment (is_stuck now) d.orders
    ++ pairs amount_mismatch differs d.payment_transactions d.orders
    ++ duplicates d.payment_transactions [] d.payment_transactions

-- The identity that the database gives to the next report.
abbrev next_report_id : List ReconciliationReport → ℕ
next_report_id [] = 1
next_report_id (r ∷ []) = suc r.id
next_report_id (r ∷ s ∷ rs) = next_report_id (s ∷ rs)

abbrev pub report_of : ℕ → Db → List Found → ReconciliationReport
report_of now d found = record {
  id = next_report_id d.reconciliation_reports;
  total_payments_checked = length d.payment_transactions;
  total_orders_checked = length d.orders;
  total_wallet_tx_checked = length d.wallet_transactions;
  discrepancies_count = length found;
  status = if length found == 0 then "clean" else "discrepancies_found";
  created_at = now;
}

abbrev stored : ℕ → ℕ → Found → ReconciliationDiscrepancy
stored now report_id f = record {
  report_id = report_id;
  discrepancy_type = f.kind;
  order_id = f.order_id;
  payment_id = f.payment_id;
  is_resolved = false;
  created_at = now;
}

unfoldable pub run_reconciliation_audit : ℕ → Exec ReconciliationReport
unfolding find_discrepancies
run_reconciliation_audit now = do
  found ← gets (find_discrepancies now)
  report ← gets (λ d. report_of now d found)
  modify (λ d. record d {
    reconciliation_reports = d.reconciliation_reports ++ report ∷ [];
    reconciliation_discrepancies =
        d.reconciliation_discrepancies ++ map (stored now report.id) found;
  })
  pure report

-- The count and the total of a group of the dashboard.
pub record Tally : Type 0 where
  pub count : ℕ
  pub total : ℤ

abbrev add_to : Option Tally → ℤ → Tally
add_to none a = record { count = 1; total = a }
add_to (some t) a = record { count = suc t.count; total = t.total +ℤ a }

unfoldable pub payments_by_provider : List PaymentTransaction → Dict Tally
payments_by_provider [] = []
payments_by_provider (p ∷ ps) =
    let rest = payments_by_provider ps in
    if is_success p then insert p.provider (add_to (lookup p.provider rest) p.amount) rest else rest

unfoldable pub wallet_by_type : List WalletTransaction → Dict Tally
wallet_by_type [] = []
wallet_by_type (t ∷ ts) =
    let rest = wallet_by_type ts in insert t.tx_type (add_to (lookup t.tx_type rest) t.amount) rest

pub record DashboardStats : Type 0 where
  pub payments : Dict Tally
  pub wallet_breakdown : Dict Tally
  pub paid_count : ℕ
  pub fulfilled_count : ℕ
  pub refunded_count : ℕ
  pub unresolved_discrepancies : ℕ

unfoldable pub get_dashboard_stats : Db → DashboardStats
unfolding payments_by_provider wallet_by_type
get_dashboard_stats d = record {
  payments = payments_by_provider d.payment_transactions;
  wallet_breakdown = wallet_by_type d.wallet_transactions;
  paid_count =
      count_rows (λ (o : Order). str_eq o.status (value paid) || str_eq o.status (value completed))
        d.orders;
  fulfilled_count = count_rows (λ (o : Order). str_eq o.fulfillment_status "fulfilled") d.orders;
  refunded_count = count_rows (λ (o : Order). str_eq o.status (value refunded)) d.orders;
  unresolved_discrepancies =
      count_rows (λ (x : ReconciliationDiscrepancy). not x.is_resolved)
        d.reconciliation_discrepancies;
}
