-- ===== src/Models.antt =====
-- The tables: app/models/. Amounts of money are in tiyin, hundredths of a sum: the columns hold two
-- decimals. Instants are in microseconds. A column that no modelled code reads is left out.
pub mod Orders
pub mod Shop
use gift_hub.Prelude.{ℕ, String, Bool, Option, List}
use gift_hub.Prelude.Int.{ℤ}
use gift_hub.Dlq.{FailedJob}
use gift_hub.Outbox.{OutboxEvent}
use gift_hub.Models.Orders.{Order, OrderStatusHistory}
use gift_hub.Models.Shop.{
  FeatureFlag, RiskAudit, PricingSetting, CustomService, CheckoutIdempotency, ClickTransaction,
  InAppNotification, ReconciliationReport, ReconciliationDiscrepancy, SupportTicket, TicketMessage,
}
use gift_hub.Prelude.Dict.{Dict}
use gift_hub.Circuit.Health.{ProviderHealth}

-- app/models/user.py
pub record User : Type 0 where
  pub id : ℕ
  pub balance : ℤ
  pub referrer_id : Option ℕ
  pub referral_earnings : ℤ
  pub referrals_count : ℕ
  pub is_flagged_for_abuse : Bool
  pub created_at : ℕ

-- app/models/wallet.py: the ledger.
pub record WalletTransaction : Type 0 where
  pub user_id : ℕ
  pub tx_type : String
  pub amount : ℤ
  pub balance_before : ℤ
  pub balance_after : ℤ
  pub reference_type : Option String
  pub reference_id : Option String

-- app/models/wallet.py: the older table of transactions.
pub record Transaction : Type 0 where
  pub user_id : ℕ
  pub amount : ℤ
  pub tx_type : String
  pub method : String

-- app/models/audit.py; the two values are the amounts whose texts the columns hold.
pub record AdminAuditLog : Type 0 where
  pub admin_id : ℕ
  pub action : String
  pub entity_type : String
  pub entity_id : ℕ
  pub old_value : Option ℤ
  pub new_value : Option ℤ
  pub reason : Option String

-- app/models/promo.py
pub record PromoCode : Type 0 where
  pub id : ℕ
  pub code : String
  pub reward_type : String
  pub reward_value : ℤ
  pub max_discount : Option ℤ
  pub min_order_amount : ℤ
  pub max_uses : ℕ
  pub current_uses : ℕ
  pub max_uses_per_user : ℕ
  pub applicable_products : String
  pub is_active : Bool
  pub starts_at : Option ℕ
  pub expires_at : Option ℕ

pub record PromoRedemption : Type 0 where
  pub promo_code_id : ℕ
  pub user_id : ℕ
  pub order_id : Option ℕ
  pub benefit_amount : ℤ
  pub redeemed_at : ℕ

pub record PromoCodeUsage : Type 0 where
  pub promo_code_id : ℕ
  pub user_id : ℕ
  pub benefit_amount : ℤ
  pub used_at : ℕ

-- app/models/referral.py; percentages in hundredths of a percent.
pub record ReferralSetting : Type 0 where
  pub bonus_percent : ℤ
  pub min_purchase_uzs : ℤ
  pub auto_reward : Bool
  pub require_purchase : Bool
  pub tier_1_count : Option ℕ
  pub tier_1_percent : Option ℤ
  pub tier_2_count : Option ℕ
  pub tier_2_percent : Option ℤ
  pub tier_3_count : Option ℕ
  pub tier_3_percent : Option ℤ

pub record ReferralReward : Type 0 where
  pub referrer_id : ℕ
  pub referred_user_id : ℕ
  pub order_id : ℕ
  pub commission_rate : ℤ
  pub commission_amount : ℤ
  pub status : String

-- app/models/payment.py
pub record PaymentTransaction : Type 0 where
  pub id : ℕ
  pub provider : String
  pub provider_transaction_id : String
  pub idempotency_key : String
  pub user_id : ℕ
  pub order_id : Option ℕ
  pub amount : ℤ
  pub status : String
  pub correlation_id : Option String
  pub created_at : ℕ
  pub paid_at : Option ℕ

pub record PaymeTransaction : Type 0 where
  pub id : ℕ
  pub paycom_id : String
  pub paycom_time : ℕ
  pub create_time : ℕ
  pub perform_time : ℕ
  pub cancel_time : ℕ
  pub amount : ℤ
  pub state : ℤ
  pub reason : Option ℤ
  pub user_id : ℕ

-- app/models/pricing.py
pub record PriceLock : Type 0 where
  pub id : String
  pub product_type : String
  pub amount : ℤ
  pub unit_price : ℤ
  pub total_price : ℤ
  pub cost_price : ℤ
  pub is_used : Bool
  pub expires_at : ℕ

-- All tables.
pub record Db : Type 0 where
  pub users : List User
  pub wallet_transactions : List WalletTransaction
  pub transactions : List Transaction
  pub admin_audit_log : List AdminAuditLog
  pub orders : List Order
  pub order_status_history : List OrderStatusHistory
  pub outbox_events : List OutboxEvent
  pub failed_jobs : List FailedJob
  pub promo_codes : List PromoCode
  pub promo_redemptions : List PromoRedemption
  pub promo_code_usages : List PromoCodeUsage
  pub referral_setting : Option ReferralSetting
  pub referral_rewards : List ReferralReward
  pub payment_transactions : List PaymentTransaction
  pub payme_transactions : List PaymeTransaction
  pub price_locks : List PriceLock
  pub feature_flags : List FeatureFlag
  pub risk_audits : List RiskAudit
  pub pricing_setting : Option PricingSetting
  pub custom_services : List CustomService
  pub checkout_idempotency : List CheckoutIdempotency
  pub click_transactions : List ClickTransaction
  pub provider_health : Dict ProviderHealth
  pub in_app_notifications : List InAppNotification
  pub reconciliation_reports : List ReconciliationReport
  pub reconciliation_discrepancies : List ReconciliationDiscrepancy
  pub support_tickets : List SupportTicket
  pub ticket_messages : List TicketMessage
