-- ===== src/Examples.antt =====
-- The theorems at concrete inputs: the data here, and a module per component.
pub mod Providers
pub mod Events
pub mod Money
pub mod Purchases
pub mod Codes
pub mod Gateways
pub mod Shopping
pub mod Checkouts
pub mod Audits
pub mod Deliveries
pub mod Workers
pub mod Cards
pub mod Callers
pub mod Offers
use gift_hub.Prelude.{ℕ, String, false, Option, none, some, List, [], ◌∷◌}
use gift_hub.Prelude.Int.{ℤ, pos}
use gift_hub.Models.{Db, User}
use gift_hub.Models.Orders.{Order}
use gift_hub.Wallet.{Entry}
use gift_hub.Session.{Session}
use gift_hub.Orders.{Env}

-- A user with ten sums.
abbrev pub buyer : User
buyer = record {
  id = 7;
  balance = pos 1000;
  referrer_id = none;
  referral_earnings = pos 0;
  referrals_count = 0;
  is_flagged_for_abuse = false;
  created_at = 0;
}

abbrev pub shop : Db
shop = record {
  users = buyer ∷ [];
  wallet_transactions = [];
  transactions = [];
  admin_audit_log = [];
  orders = [];
  order_status_history = [];
  outbox_events = [];
  failed_jobs = [];
  promo_codes = [];
  promo_redemptions = [];
  promo_code_usages = [];
  referral_setting = none;
  referral_rewards = [];
  payment_transactions = [];
  payme_transactions = [];
  price_locks = [];
  feature_flags = [];
  risk_audits = [];
  pricing_setting = none;
  custom_services = [];
  checkout_idempotency = [];
  click_transactions = [];
  provider_health = [];
  in_app_notifications = [];
  reconciliation_reports = [];
  reconciliation_discrepancies = [];
  support_tickets = [];
  ticket_messages = [];
}

abbrev pub start : Session
start = record {
  db = shop;
  saved = shop;
  breaker = [];
  flag_cache = record { flags = []; refreshed_at = 0 };
}

abbrev pub env : Env
env = record { now = 5000; clock = 100000; correlation_id = "req-1" }

abbrev pub top_up : Entry
top_up = record {
  tx_type = "deposit";
  reference_type = some "payment";
  reference_id = some "click:42";
}

-- An order of five sums, in the given status.
abbrev pub order_in : String → Order
order_in status = record {
  id = 3;
  order_code = "GH-3";
  user_id = 7;
  product_type = "stars";
  item_title = "50 Stars";
  amount = pos 50;
  unit_price = pos 10;
  total_price = pos 500;
  cost_price = pos 400;
  margin = pos 100;
  discount_amount = pos 0;
  promo_code = none;
  payment_method = "balance";
  status = status;
  recipient_username = none;
  price_lock_id = none;
  correlation_id = "req-0";
  fragment_payload = none;
  fragment_tx_hash = none;
  fulfillment_status = "pending";
  fulfillment_attempts = 0;
  fulfillment_error = none;
  created_at = 1000;
  paid_at = none;
  processing_at = none;
  completed_at = none;
  cancelled_at = none;
  refunded_at = none;
}

abbrev pub with_order : Order → Session
with_order o = record start { db = record shop { orders = o ∷ [] } }
