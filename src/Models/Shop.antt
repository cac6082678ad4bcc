-- ===== src/Models/Shop.antt =====
-- The rows of the shop's settings, of checkouts and of the audits: app/models/feature_flags.py,
-- support.py, risk.py, pricing.py, services.py, order.py, payment.py, notification.py and reconciliation.py.
-- A JSON column holds what `json.loads` makes of its text.
use gift_hub.Prelude.{ℕ, String, Bool, Option, List}
use gift_hub.Prelude.Int.{ℤ}
use gift_hub.Prelude.Dict.{Dict}

-- A text that is null or empty, one that `json.loads` raises on, and a value.
pub data Json (A : Type 0) : Type 0 where
  absent malformed : Json A
  parsed : A → Json A

pub record FeatureFlag : Type 0 where
  pub name : String
  pub is_enabled : Bool
  pub updated_at : ℕ

pub data RiskType : Type 0 where
  referral_velocity promo_bruteforce checkout_spam unusual_amount self_referral : RiskType

pub data RiskSeverity : Type 0 where
  low medium high critical : RiskSeverity

pub record RiskAudit : Type 0 where
  pub user_id : ℕ
  pub risk_type : RiskType
  pub severity : RiskSeverity
  pub created_at : ℕ

-- An item of `stars_discounts_json`, missing keys read as 0; the percentage in hundredths.
pub record Tier : Type 0 where
  pub min_amount : ℤ
  pub discount_pct : ℤ

-- An item of `gifts_json`, missing prices filled in.
pub record Gift : Type 0 where
  pub id : String
  pub price_uzs : ℤ
  pub cost_uzs : ℤ

-- Percentages in hundredths; a null column is `none`.
pub record PricingSetting : Type 0 where
  pub star_unit_price_uzs : Option ℤ
  pub margin_percent : Option ℤ
  pub minimum_margin : Option ℤ
  pub maximum_discount : Option ℤ
  pub minimum_price : Option ℤ
  pub stars_discounts_json : Json (List Tier)
  pub premium_prices_json : Json (Dict ℤ)
  pub gifts_json : Json (List Gift)

pub record CustomService : Type 0 where
  pub name : String
  pub price_uzs : ℤ
  pub cost_uzs : ℤ
  pub is_active : Bool

pub record CheckoutIdempotency : Type 0 where
  pub idempotency_key : String
  pub user_id : ℕ
  pub order_id : Option ℕ
  pub created_at : ℕ
  pub expires_at : ℕ

pub record ClickTransaction : Type 0 where
  pub id : ℕ
  pub click_trans_id : ℤ
  pub service_id : ℤ
  pub merchant_trans_id : String
  pub amount : ℤ
  pub action : ℤ
  pub error : ℤ
  pub user_id : ℕ
  pub status : String

pub record InAppNotification : Type 0 where
  pub id : ℕ
  pub user_id : ℕ
  pub kind : String
  pub related_entity : Option String
  pub is_read : Bool
  pub created_at : ℕ

pub data DiscrepancyType : Type 0 where
  paid_payment_unpaid_order paid_order_missing_wallet_tx : DiscrepancyType
  paid_order_missing_fulfillment amount_mismatch : DiscrepancyType
  duplicate_provider_transaction refund_mismatch : DiscrepancyType

pub record ReconciliationDiscrepancy : Type 0 where
  pub report_id : ℕ
  pub discrepancy_type : DiscrepancyType
  pub order_id : Option ℕ
  pub payment_id : Option ℕ
  pub is_resolved : Bool
  pub created_at : ℕ

pub record ReconciliationReport : Type 0 where
  pub id : ℕ
  pub total_payments_checked : ℕ
  pub total_orders_checked : ℕ
  pub total_wallet_tx_checked : ℕ
  pub discrepancies_count : ℕ
  pub status : String
  pub created_at : ℕ

pub record SupportTicket : Type 0 where
  pub id : ℕ
  pub user_id : ℕ
  pub order_id : Option ℕ
  pub category : String
  pub subject : String
  pub status : String
  pub assigned_admin_id : Option ℕ
  pub created_at : ℕ
  pub updated_at : ℕ

pub record TicketMessage : Type 0 where
  pub ticket_id : ℕ
  pub sender_id : ℕ
  pub sender_type : String
  pub text : String
  pub created_at : ℕ
