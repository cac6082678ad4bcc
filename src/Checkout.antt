-- ===== src/Checkout.antt =====
-- The creation of an order: `create_order` of app/services/orders/service.py, over the tables of
-- app/models/order.py, in two files: here the steps up to the price, in Checkout/Placing.antt the
-- promo code, the payment, the order itself and the commit. The code that `generate_order_code`
-- draws is an argument; the request's hash, the stored response, the currency, the exchange rate
-- and log lines are left out.
pub mod Placing
pub mod Stable
pub mod Through
pub mod Atomic
pub mod Whole
pub mod Once
pub mod Delivery
use Prim.Native.String.{◌++◌ as text_append}
use gift_hub.Prelude.{
  ℕ, zero, suc, ◌+◌, ◌*◌, ◌==◌, String, Bool, true, false, not, ◌&&◌, ◌||◌, Option, none, some,
  List, [], ◌∷◌, ◌++◌, str_eq, find, any, if◌then◌else◌,
}
use gift_hub.Prelude.Int.{ℤ, pos, negsuc, ◌-ℤ◌, neg, max, ltb_ℤ, leb_ℤ}
use gift_hub.Prelude.Texts.{is_empty, lower, upper, strip, show}
use gift_hub.Prelude.Dict.{Dict}
use gift_hub.Decimal.{quantize}
use gift_hub.Models.{Db, User, PriceLock}
use gift_hub.Models.Shop.{CheckoutIdempotency}
use gift_hub.Models.Orders.{Order, OrderStatusHistory, value, created, paid}
use gift_hub.Outbox.{NewEvent, create_event}
use gift_hub.Orders.{Env, has_order_id, text_or, add_history}
use gift_hub.Wallet.{Entry, has_user_id, debit_balance}
use gift_hub.FeatureFlags.{is_enabled, is_maintenance_mode}
use gift_hub.Risk.{check_checkout_spam}
use gift_hub.Pricing.{validate_or_consume_price_lock}
use gift_hub.Pricing.Prices.{Price, get_authoritative_price, show_ℤ}
use gift_hub.Promotions.{Redeemed, discounted, bonus, apply_promo_code}
use gift_hub.Referrals.{process_order_referral_reward}
use gift_hub.Session.{
  Exec, pure, raise, gets, or_raise, raise_if, lift, modify, commit, rollback, flush, ◌>>=◌, ◌>>◌,
  integrity_error, domain_error,
}

-- The arguments of a checkout, with the code drawn for its order.
pub record Checkout : Type 0 where
  pub order_code : String
  pub user_id : ℕ
  pub product_type : String
  pub item_title : String
  pub amount : ℤ
  pub recipient_username : Option String
  pub promo_code_str : Option String
  pub price_lock_id : Option String
  pub payment_method : String
  pub idempotency_key : Option String
  pub correlation_id : Option String

-- `if text:`
abbrev pub given : Option String → Option String
given none = none
given (some s) = if is_empty s then none else some s

-- `flag_map`
abbrev pub flag_of : String → Option String
flag_of p =
    if str_eq p "stars"
    then some "stars_purchases_enabled"
    else if str_eq p "premium"
    then some "premium_purchases_enabled"
    else if str_eq p "gift"
    then some "gifts_purchases_enabled"
    else none

abbrev pub check_product : ℕ → Option String → Exec (Unit {0})
check_product clock none = pure tt
check_product clock (some flag) =
    is_enabled clock flag true >>= λ b. raise_if (not b) (domain_error "ERROR")

unfoldable pub check_flags : ℕ → String → Exec (Unit {0})
unfolding is_maintenance_mode is_enabled
check_flags clock product_type = do
  maintenance ← is_maintenance_mode clock
  raise_if maintenance (domain_error "ERROR")
  is_open ← is_enabled clock "store_checkout_enabled" true
  raise_if (not is_open) (domain_error "ERROR")
  check_product clock (flag_of product_type)

unfoldable pub check_spam : ℕ → ℕ → Exec (Unit {0})
unfolding check_checkout_spam
check_spam now user_id = do
  fine ← check_checkout_spam now user_id
  raise_if (not fine) (domain_error "ERROR")

abbrev pub has_key : String → CheckoutIdempotency → Bool
has_key k r = str_eq r.idempotency_key k

abbrev pub has_key_of : String → ℕ → CheckoutIdempotency → Bool
has_key_of k user_id r = has_key k r && (r.user_id == user_id)

-- The order of a found record, where it has one that still exists.
abbrev pub order_of : Option CheckoutIdempotency → List Order → Option Order
order_of none orders = none
order_of (some r) orders = elim r.order_id [
  | none ↦ none
  | some i ↦ if i == 0 then none else find (has_order_id i) orders
]

-- The order of an earlier checkout of the same user with the same key.
unfoldable pub earlier_order : Option String → ℕ → Db → Option Order
earlier_order none user_id d = none
earlier_order (some k) user_id d =
    order_of (find (has_key_of k user_id) d.checkout_idempotency) d.orders

-- The total, the price of one and the cost.
pub record Quote : Type 0 where
  pub total_price : ℤ
  pub unit_price : ℤ
  pub cost_price : ℤ

-- `(total_price / Decimal(amount)).quantize(Decimal(1)) if amount else total_price`
unfoldable pub price_of_one : ℤ → ℤ → ℤ
unfolding quantize neg
price_of_one total (pos zero) = total
price_of_one total (pos (suc n)) = quantize total (100 * suc n)
price_of_one total (negsuc n) = neg (quantize total (100 * suc n))

abbrev pub locked_quote : PriceLock → Quote
locked_quote l = record {
  total_price = l.total_price;
  unit_price = l.unit_price;
  cost_price = l.cost_price;
}

abbrev pub priced_quote : ℤ → Price → Quote
priced_quote amount p = record {
  total_price = p.total;
  unit_price = price_of_one p.total amount;
  cost_price = p.cost;
}

unfoldable pub quote : ℕ → Checkout → Option String → Exec Quote
unfolding validate_or_consume_price_lock get_authoritative_price price_of_one
quote now c (some lock_id) =
    validate_or_consume_price_lock now lock_id c.product_type c.amount >>= λ l.
    pure (locked_quote l)
quote now c none = do
  answer ← gets (get_authoritative_price c.product_type c.amount (some c.item_title))
  p ← lift answer
  pure (priced_quote c.amount p)
