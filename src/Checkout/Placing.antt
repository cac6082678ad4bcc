-- ===== src/Checkout/Placing.antt =====
-- The second half of `create_order` of app/services/orders/service.py: promo code, payment, order,
-- timeline, reward, event, idempotency record and commit.
use Prim.Native.String.{◌++◌ as text_append}
use gift_hub.Prelude.{
  ℕ, suc, ◌+◌, String, Bool, true, false, not, ◌&&◌, ◌||◌, Option, none, some, List, [], ◌∷◌, ◌++◌,
  str_eq, find, any, or_else, if◌then◌else◌,
}
use gift_hub.Prelude.Int.{ℤ, pos, ◌-ℤ◌, max, ltb_ℤ, leb_ℤ}
use gift_hub.Prelude.Texts.{lower, upper, strip, show}
use gift_hub.Models.{Db, User}
use gift_hub.Models.Orders.{Order, OrderStatusHistory, value, created, paid}
use gift_hub.Outbox.{NewEvent, create_event}
use gift_hub.Orders.{Env, text_or, add_history}
use gift_hub.Wallet.{Entry, has_user_id, debit_balance}
use gift_hub.Pricing.Prices.{show_ℤ}
use gift_hub.Promotions.{Redeemed, discounted, bonus, apply_promo_code}
use gift_hub.Referrals.{process_order_referral_reward}
use gift_hub.Session.{
  Exec, pure, raise, gets, modify, commit, rollback, flush, ◌>>=◌, ◌>>◌, integrity_error,
}
use gift_hub.Checkout.{
  Checkout, Quote, given, has_key, order_of, check_flags, check_spam, earlier_order, quote,
}

-- What `create_order` returns: the order, the reward and the referrer.
abbrev pub Placed : Type 0
Placed = Order × (ℤ × Option User)

-- `promo_res.get("discount_amount", 0)`
abbrev pub discount_in : Redeemed → ℤ
discount_in (discounted kind a total) = a
discount_in (bonus a balance) = pos 0

-- The discount and the code that was applied.
unfoldable pub apply_promo : ℕ → Checkout → ℤ → Option String → Exec (ℤ × Option String)
unfolding apply_promo_code strip upper
apply_promo now c total none = pure (pos 0, none)
apply_promo now c total (some code) =
    apply_promo_code now code c.user_id total c.product_type none >>= λ r.
    pure (discount_in r, some (upper (strip code)))

unfoldable pub payable : ℤ → ℤ → ℤ
unfolding max ◌-ℤ◌
payable total discount = max (pos 0) (total -ℤ discount)

abbrev pub is_wallet_payment : String → Bool
is_wallet_payment m = str_eq (lower m) "wallet" || str_eq (lower m) "balance"

abbrev pub purchase_entry : String → Entry
purchase_entry order_code = record {
  tx_type = "purchase";
  reference_type = some "order";
  reference_id = some order_code;
}

unfoldable pub pay : Bool → Checkout → ℤ → Exec (Unit {0})
unfolding debit_balance
pay false c amount = pure tt
pay true c amount = debit_balance c.user_id amount (purchase_entry c.order_code) >> pure tt

-- The identity that the database gives to the next order.
abbrev pub next_order_id : List Order → ℕ
next_order_id [] = 1
next_order_id (o ∷ []) = suc o.id
next_order_id (o ∷ p ∷ os) = next_order_id (p ∷ os)

abbrev pub initial_status : Bool → String
initial_status wallet = if wallet then value paid else value created

unfoldable pub new_order : Env → Checkout → Quote → ℤ → Option String → Bool → List Order → Order
unfolding payable max
new_order env c q discount promo wallet orders = record {
  id = next_order_id orders;
  order_code = c.order_code;
  user_id = c.user_id;
  product_type = c.product_type;
  item_title = c.item_title;
  amount = c.amount;
  unit_price = q.unit_price;
  total_price = payable q.total_price discount;
  cost_price = q.cost_price;
  margin = max (pos 0) (payable q.total_price discount -ℤ q.cost_price);
  discount_amount = discount;
  promo_code = promo;
  payment_method = c.payment_method;
  status = initial_status wallet;
  recipient_username = c.recipient_username;
  price_lock_id = c.price_lock_id;
  correlation_id = text_or env.correlation_id c.correlation_id;
  fragment_payload = none;
  fragment_tx_hash = none;
  fulfillment_status = "pending";
  fulfillment_attempts = 0;
  fulfillment_error = none;
  created_at = env.now;
  paid_at = if wallet then some env.now else none;
  processing_at = none;
  completed_at = none;
  cancelled_at = none;
  refunded_at = none;
}

-- The constraints of the orders' table on a new row: the buyer exists, the code is new, and three
-- columns have their signs.
unfoldable pub order_valid : Order → Db → Bool
order_valid o d =
    any (has_user_id o.user_id) d.users
    && not (any (λ (p : Order). str_eq p.order_code o.order_code) d.orders)
    && leb_ℤ (pos 0) o.total_price
    && ltb_ℤ (pos 0) o.amount
    && leb_ℤ (pos 0) o.unit_price

abbrev pub add_order : Order → Db → Db
add_order o d = record d { orders = d.orders ++ o ∷ [] }

-- `session.add(order)` and the flush.
unfoldable pub insert_order : Order → Exec (Unit {0})
unfolding order_valid
insert_order o s = (modify (add_order o) >> flush (λ _. order_valid o s.db)) s

abbrev pub first_row : ℕ → Checkout → Order → OrderStatusHistory
first_row now c o = record {
  order_id = o.id;
  order_code = o.order_code;
  from_status = none;
  to_status = o.status;
  actor = "USER";
  note = some (
      text_append "Buyurtma yaratildi: "
        (text_append c.item_title (text_append " (To'lov: " (text_append c.payment_method ")"))));
  created_at = now;
}

abbrev pub fulfillment_event : Checkout → Order → NewEvent
fulfillment_event c o = record {
  event_type = "ORDER_FULFILLMENT_REQUESTED";
  aggregate_type = "order";
  aggregate_id = show o.id;
  payload =
      ("order_id", show o.id)
      ∷ ("order_code", o.order_code)
      ∷ ("user_id", show c.user_id)
      ∷ ("product_type", c.product_type)
      ∷ ("amount", show_ℤ c.amount)
      ∷ ("recipient_username", or_else c.recipient_username "null")
      ∷ [];
  correlation_id = o.correlation_id;
}

abbrev pub add_event : ℕ → NewEvent → Db → Db
add_event now e d = record d { outbox_events = create_event now e d.outbox_events }

-- What follows a payment from the wallet: the referrer's reward and the request of the delivery.
unfoldable pub request_delivery : Env → Checkout → Order → Bool → Exec (ℤ × Option User)
unfolding process_order_referral_reward
request_delivery env c o false = pure (pos 0, none)
request_delivery env c o true = do
  reward ← process_order_referral_reward o.id c.user_id o.total_price
  modify (add_event env.now (fulfillment_event c o))
  pure reward

-- One day.
abbrev day : ℕ
day = 86400000000

abbrev pub add_record : ℕ → String → ℕ → ℕ → Db → Db
add_record now k user_id order_id d = record d {
  checkout_idempotency =
      d.checkout_idempotency
      ++ record {
        idempotency_key = k;
        user_id = user_id;
        order_id = some order_id;
        created_at = now;
        expires_at = now + day;
      }
        ∷ [];
}

abbrev pub return_order : Option Order → Exec Placed
return_order none = raise integrity_error
return_order (some o) = pure (o, (pos 0, none))

-- `except IntegrityError:`, the order that has taken the key is looked up, whoever placed it.
unfoldable pub resolve : String → Exec Placed
resolve k = do
  rollback
  taken_by ← gets (λ d. order_of (find (has_key k) d.checkout_idempotency) d.orders)
  return_order taken_by

-- The commit, with the record of the key if there is one. Where the key is taken the commit fails.
unfoldable pub commit_checkout : Env → Option String → ℕ → Placed → Exec Placed
unfolding resolve
commit_checkout env none user_id p = commit >> pure p
commit_checkout env (some k) user_id p = do
  taken ← gets (λ d. any (has_key k) d.checkout_idempotency)
  modify (add_record env.now k user_id (p.0).id)
  if taken then resolve k else (commit >> pure p)

-- The steps from the price to the flush of the order and its timeline.
unfoldable pub place : Env → Checkout → Quote → Exec Order
unfolding apply_promo pay new_order insert_order
place env c q = do
  (discount, promo) ← apply_promo env.now c q.total_price (given c.promo_code_str)
  let wallet = is_wallet_payment c.payment_method
  pay wallet c (payable q.total_price discount)
  o ← gets (λ d. new_order env c q discount promo wallet d.orders)
  insert_order o
  modify (add_history (first_row env.now c o))
  pure o

-- A checkout that repeats no earlier one.
unfoldable pub new_checkout : Env → Checkout → Exec Placed
unfolding quote place request_delivery commit_checkout
new_checkout env c = do
  q ← quote env.now c (given c.price_lock_id)
  o ← place env c q
  reward ← request_delivery env c o (is_wallet_payment c.payment_method)
  commit_checkout env (given c.idempotency_key) c.user_id (o, reward)

unfoldable pub create_order : Env → Checkout → Exec Placed
unfolding check_flags check_spam earlier_order new_checkout
create_order env c = do
  check_flags env.clock c.product_type
  check_spam env.now c.user_id
  earlier ← gets (earlier_order (given c.idempotency_key) c.user_id)
  elim earlier [ none ↦ new_checkout env c | some o ↦ pure (o, (pos 0, none)) ]
