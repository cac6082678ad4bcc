-- ===== src/Models/Orders.antt =====
-- The rows of app/models/order.py and its order state machine. A status is the text that the column
-- holds, as in the source, where `OrderStatus` is a `str`.
use gift_hub.Prelude.{ℕ, String, Option, none, some, List, [], ◌∷◌, map, str_eq, if◌then◌else◌, any}
use gift_hub.Prelude.Texts.{lower}
use gift_hub.Prelude.Int.{ℤ}
use gift_hub.Errors.{Result, ok, err, invalid_order_state}

pub data OrderStatus : Type 0 where
  created awaiting_payment paid processing completed failed cancelled refunded expired : OrderStatus

-- `OrderStatus.X.value`
abbrev pub value : OrderStatus → String
value created = "created"
value awaiting_payment = "awaiting_payment"
value paid = "paid"
value processing = "processing"
value completed = "completed"
value failed = "failed"
value cancelled = "cancelled"
value refunded = "refunded"
value expired = "expired"

-- The member with the given value.
unfoldable pub of_value : String → Option OrderStatus
of_value s =
    if str_eq s "created"
    then some created
    else if str_eq s "awaiting_payment"
    then some awaiting_payment
    else if str_eq s "paid"
    then some paid
    else if str_eq s "processing"
    then some processing
    else if str_eq s "completed"
    then some completed
    else if str_eq s "failed"
    then some failed
    else if str_eq s "cancelled"
    then some cancelled
    else if str_eq s "refunded"
    then some refunded
    else if str_eq s "expired"
    then some expired
    else none

abbrev pub valid_order_transitions : OrderStatus → List OrderStatus
valid_order_transitions created = awaiting_payment ∷ paid ∷ cancelled ∷ expired ∷ []
valid_order_transitions awaiting_payment = paid ∷ cancelled ∷ expired ∷ []
valid_order_transitions paid = processing ∷ completed ∷ failed ∷ refunded ∷ []
valid_order_transitions processing = completed ∷ failed ∷ refunded ∷ []
valid_order_transitions completed = refunded ∷ []
valid_order_transitions failed = processing ∷ refunded ∷ cancelled ∷ []
valid_order_transitions cancelled = []
valid_order_transitions refunded = []
valid_order_transitions expired = []

-- `VALID_ORDER_TRANSITIONS.get(s, set())`
abbrev pub allowed : Option OrderStatus → List String
allowed none = []
allowed (some a) = map value (valid_order_transitions a)

unfoldable pub normalize_status : String → String
normalize_status status =
    let s = lower status in
    if str_eq s "done"
    then value completed
    else if str_eq s "cancel"
    then value cancelled
    else if str_eq s "pending"
    then value awaiting_payment
    else s

unfoldable pub validate_order_transition : String → String → Result (Unit {0})
validate_order_transition current new =
    let current_norm = normalize_status current in
    let new_norm = normalize_status new in
    if str_eq current_norm new_norm
    then ok tt
    else if any (str_eq new_norm) (allowed (of_value current_norm))
    then ok tt
    else err invalid_order_state

pub record Order : Type 0 where
  pub id : ℕ
  pub order_code : String
  pub user_id : ℕ
  pub product_type : String
  pub item_title : String
  pub amount : ℤ
  pub unit_price : ℤ
  pub total_price : ℤ
  pub cost_price : ℤ
  pub margin : ℤ
  pub discount_amount : ℤ
  pub promo_code : Option String
  pub payment_method : String
  pub status : String
  pub recipient_username : Option String
  pub price_lock_id : Option String
  pub correlation_id : String
  pub fragment_payload : Option String
  pub fragment_tx_hash : Option String
  pub fulfillment_status : String
  pub fulfillment_attempts : ℕ
  pub fulfillment_error : Option String
  pub created_at : ℕ
  pub paid_at : Option ℕ
  pub processing_at : Option ℕ
  pub completed_at : Option ℕ
  pub cancelled_at : Option ℕ
  pub refunded_at : Option ℕ

pub record OrderStatusHistory : Type 0 where
  pub order_id : ℕ
  pub order_code : String
  pub from_status : Option String
  pub to_status : String
  pub actor : String
  pub note : Option String
  pub created_at : ℕ
