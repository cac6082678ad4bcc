-- ===== src/Fulfillment.antt =====
-- Delivery of an order: app/services/fulfillment/service.py. `fragment_client.fulfill_order` is an
-- argument: a function on the session, since what its own session commits is what this one's rows
-- then read. The session keeps the objects that it has loaded, so the status that a change starts
-- from is the one read before the client was called. What an exception says and the traceback are
-- arguments.
pub mod Delivered
pub mod Failing
pub mod Attempts
pub mod GivingUp
pub mod Retries
pub mod OverLimit
pub mod Events
use Prim.Native.String.{◌++◌ as text_append}
use gift_hub.Prelude.{
  ℕ, suc, String, Bool, true, false, not, ◌&&◌, ◌||◌, Option, none, some, List, [], ◌∷◌, str_eq,
  leb, find, update_rows, if◌then◌else◌,
}
use gift_hub.Prelude.Texts.{is_empty, show}
use gift_hub.Errors.{Error}
use gift_hub.Dlq.{Job, record_failed_job}
use gift_hub.Circuit.{can_execute, record_success, record_failure}
use gift_hub.Circuit.Health.{sync_to_db}
use gift_hub.Models.{Db}
use gift_hub.Models.Orders.{Order, value, completed, failed, refunded, normalize_status}
use gift_hub.Notifications.{create_notification}
use gift_hub.Orders.{Env, has_order_id, set_order, text_or, Change, change_status}
use gift_hub.Session.{
  Exec, Session, Result, ok, err, pure, gets, or_raise, raise_if, modify, commit, ◌>>=◌, ◌>>◌,
  order_not_found, invalid_order_state,
}

abbrev pub max_fulfillment_retries : ℕ
max_fulfillment_retries = 3

-- What the client's call returns.
pub record Delivery : Type 0 where
  pub success : Bool
  pub fulfilled : Bool
  pub tx_hash : Option String
  pub error : Option String

abbrev pub Client : Type 0
Client = ℕ → Exec Delivery

-- What a call returns: each of the dicts.
pub data Answer : Type 0 where
  already_fulfilled circuit_open manual_review : Answer
  fulfilled : String → Answer
  not_delivered : String → Answer

pub record Call : Type 0 where
  pub env : Env
  pub describe : Error → String
  pub traceback : String

-- `except Exception as e`
abbrev pub catching : {A : Type 0} → Result A → (Error → Exec A) → Exec A
catching (ok a) handler s = (ok a, s)
catching (err e) handler s = handler e s

abbrev pub try_except : {A : Type 0} → Exec A → (Error → Exec A) → Exec A
try_except m handler s = let (r, s') = m s in catching r handler s'

unfoldable pub is_delivered : Order → Bool
is_delivered o = str_eq o.fulfillment_status "fulfilled" || str_eq o.status (value completed)

abbrev pub provider : String
provider = "fragment"

unfoldable pub ask_circuit : ℕ → Exec Bool
ask_circuit clock s =
    let (allowed, b) = can_execute provider clock s.breaker in
    (ok allowed, record s { breaker = b })

-- The outcome for the circuit, and `sync_to_db`.
unfoldable pub record_outcome : Bool → Env → Exec (Unit {0})
record_outcome is_success env s =
    let b =
      if is_success
      then record_success provider s.breaker
      else record_failure provider env.clock s.breaker in
    let (b', rows) = sync_to_db provider is_success env.now b s.db.provider_health in
    (ok tt, record s { breaker = b'; db = record s.db { provider_health = rows } })

-- Columns of the loaded order.
abbrev pub set_columns : ℕ → (Order → Order) → Db → Db
set_columns i f d = record d { orders = update_rows (has_order_id i) f d.orders }

abbrev or_null : Option String → String
or_null none = "null"
or_null (some t) = t

abbrev pub fulfillment_job : Call → Order → String → Job
fulfillment_job c o message = record {
  job_type = "fulfillment";
  payload =
      ("order_id", show o.id)
      ∷ ("order_code", o.order_code)
      ∷ ("recipient", or_null o.recipient_username)
      ∷ [];
  error_message = message;
  traceback = c.traceback;
  order_id = some o.id;
  attempts = o.fulfillment_attempts;
  correlation_id = if is_empty o.correlation_id then c.env.correlation_id else o.correlation_id;
}

abbrev pub add_job : Call → Order → String → Db → Db
add_job c o message d = record d {
  failed_jobs = record_failed_job c.env.now (fulfillment_job c o message) d.failed_jobs;
}

abbrev pub by_system : String → Change
by_system reason = record {
  admin_id = none;
  reason = some reason;
  payload = none;
  actor = some "SYSTEM";
}

-- `transition_order_status` for the order that the session has loaded.
unfoldable pub transition_loaded : Env → Order → String → String → Exec Order
transition_loaded env order new_status reason = do
  found ← gets (λ d. find (has_order_id order.id) d.orders)
  row ← or_raise order_not_found found
  let current = normalize_status order.status
  let target = normalize_status new_status
  raise_if (str_eq target (value refunded) && str_eq current (value refunded)) invalid_order_state
  let change = by_system reason
  if str_eq current target then pure row else change_status env current target change row

abbrev pub is_last : Order → Bool
is_last o = leb max_fulfillment_retries o.fulfillment_attempts

abbrev pub schedule : Order → Exec (Unit {0})
schedule order =
    modify (set_columns order.id (λ o. record o { fulfillment_status = "retry_scheduled" }))

-- The retry limit at the start of a call.
unfoldable pub exhausted : Call → Order → Exec Answer
exhausted c order = do
  modify (set_order (record order { fulfillment_status = "manual_review"; status = value failed }))
  commit
  modify (add_job c order (text_or "Maksimal urinishlar soni tugadi" order.fulfillment_error))
  commit
  pure manual_review

unfoldable pub delivered : Call → Order → String → Exec Answer
delivered c order tx_hash = do
  record_outcome true c.env
  let reason =
      text_append "Fragment orqali muvaffaqiyatli yetkazildi (tx: " (text_append tx_hash ")")
  transition_loaded c.env order (value completed) reason
  modify (
      set_columns order.id (λ o. record o {
        fulfillment_status = "fulfilled";
        completed_at = some c.env.now;
        fragment_tx_hash = some tx_hash;
      }))
  commit
  let entity = text_append "order:" order.order_code
  create_notification c.env.now order.user_id "order" (some entity)
  pure (fulfilled tx_hash)

-- The last attempt has failed.
unfoldable pub give_up : Call → Order → String → String → Exec (Unit {0})
give_up c order reason error = do
  modify (set_columns order.id (λ o. record o { fulfillment_status = "manual_review" }))
  transition_loaded c.env order (value failed) (text_append reason error)
  modify (add_job c order error)

unfoldable pub refused : Call → Order → String → Exec Answer
refused c order error = do
  record_outcome false c.env
  modify (set_columns order.id (λ o. record o { fulfillment_error = some error }))
  if is_last order
      then give_up c order "Maksimal urinishlar soni tugadi: " error
      else schedule order
  commit
  pure (not_delivered error)

-- The handler.
unfoldable pub interrupted : Call → Order → Error → Exec Answer
interrupted c order e = do
  let error = c.describe e
  record_outcome false c.env
  modify (set_columns order.id (λ o. record o { fulfillment_error = some error }))
  if is_last order then give_up c order "Yetkazib berish istisnosi: " error else pure tt
  commit
  pure (not_delivered error)

abbrev pub or_else : String → Option String → String
or_else d none = d
or_else d (some t) = t

unfoldable pub conclude : Call → Order → Delivery → Exec Answer
conclude c order r =
    if r.success && r.fulfilled
    then delivered c order (or_else "" r.tx_hash)
    else refused c order (or_else "Yetkazib berishda xatolik" r.error)

-- The row of an attempt.
unfoldable pub begin : ℕ → Order → Order
begin now o = record o {
  fulfillment_attempts = suc o.fulfillment_attempts;
  fulfillment_status = "processing";
  processing_at = some now;
}

unfoldable pub attempt : Client → Call → Order → Exec Answer
attempt client c loaded = do
  let order = begin c.env.now loaded
  modify (set_order order)
  commit
  try_except (client order.id >>= conclude c order) (interrupted c order)

abbrev limited : Client → Call → Order → Exec Answer
limited client c order = if is_last order then exhausted c order else attempt client c order

unfoldable pub guarded : Client → Call → Order → Exec Answer
guarded client c order = do
  allowed ← ask_circuit c.env.clock
  if not allowed then pure circuit_open else limited client c order

unfoldable pub fulfill_order_automated : Client → Call → ℕ → Exec Answer
fulfill_order_automated client c order_id = do
  found ← gets (λ d. find (has_order_id order_id) d.orders)
  order ← or_raise order_not_found found
  if is_delivered order then pure already_fulfilled else guarded client c order
