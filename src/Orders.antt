-- ===== src/Orders.antt =====
-- Status changes of an order: `transition_order_status`, `transition_order_state` and `refund_order`
-- of app/services/orders/service.py. The clock's reading and the request's correlation id are
-- arguments; log lines are left out.
pub mod Machine
pub mod Transitions
pub mod Refunds
pub mod Timeline
pub mod Unexplained
use Prim.Native.String.{◌++◌ as text_append}
use gift_hub.Prelude.{
  ℕ, ◌+◌, ◌/◌, ◌%◌, ◌==◌, String, Bool, true, false, not, ◌&&◌, ◌||◌, Option, none, some, List, [],
  ◌∷◌, ◌++◌, str_eq, ltb, find, update_rows, if◌then◌else◌,
}
use gift_hub.Prelude.Int.{ℤ, pos, pos_part, neg_part, ltb_ℤ}
use gift_hub.Prelude.Texts.{is_empty, strip, len, show}
use gift_hub.Models.{Db, AdminAuditLog}
use gift_hub.Models.Orders.{
  Order, OrderStatusHistory, value, paid, processing, completed, failed, cancelled, refunded,
  normalize_status, validate_order_transition,
}
use gift_hub.Outbox.{NewEvent, create_event}
use gift_hub.Wallet.{Entry, credit_balance}
use gift_hub.Session.{
  Exec, pure, gets, or_raise, raise_if, lift, modify, commit, ◌>>=◌, ◌>>◌, order_not_found,
  invalid_order_state, domain_error,
}

-- What a call is made with besides its arguments: the instant in microseconds, `time.time()` in
-- milliseconds, and the request.
pub record Env : Type 0 where
  pub now : ℕ
  pub clock : ℕ
  pub correlation_id : String

abbrev pub has_order_id : ℕ → Order → Bool
has_order_id i o = o.id == i

-- `reason` of at least five characters once its blanks are stripped.
unfoldable pub reason_given : Option String → Bool
reason_given none = false
reason_given (some r) = not (is_empty r) && not (ltb (len (strip r)) 5)

-- The status and the instants that the branches set.
unfoldable pub stamp : ℕ → String → Order → Order
stamp now target o =
    let o' = record o { status = target } in
    if str_eq target (value paid)
    then record o' { paid_at = some now }
    else if str_eq target (value processing)
    then record o' { processing_at = some now; fulfillment_status = "processing" }
    else if str_eq target (value completed)
    then record o' { completed_at = some now; fulfillment_status = "fulfilled" }
    else if str_eq target (value cancelled)
    then record o' { cancelled_at = some now }
    else if str_eq target (value refunded)
    then record o' { refunded_at = some now }
    else o'

-- The attributes of the loaded row.
abbrev pub set_order : Order → Db → Db
set_order o d = record d { orders = update_rows (has_order_id o.id) (λ _. o) d.orders }

-- The statuses at which a refund gives money back.
abbrev pub was_paid : String → Bool
was_paid s =
    str_eq s (value paid)
    || str_eq s (value processing)
    || str_eq s (value completed)
    || str_eq s (value failed)

abbrev pub refund_entry : Order → Entry
refund_entry o = record {
  tx_type = "refund";
  reference_type = some "order_refund";
  reference_id = some o.order_code;
}

abbrev pub text_or : String → Option String → String
text_or d none = d
text_or d (some s) = if is_empty s then d else s

-- `str` of an amount with two decimals.
abbrev pub show_amount : ℤ → String
show_amount a =
    let n = pos_part a + neg_part a in
    let cents = text_append "." (text_append (show (n % 100 / 10)) (show (n % 10))) in
    text_append (if ltb_ℤ a (pos 0) then "-" else "") (text_append (show (n / 100)) cents)

abbrev refund_event : Env → Order → Option String → NewEvent
refund_event env o reason = record {
  event_type = "ORDER_REFUNDED";
  aggregate_type = "order";
  aggregate_id = show o.id;
  payload =
      ("order_id", show o.id)
      ∷ ("order_code", o.order_code)
      ∷ ("user_id", show o.user_id)
      ∷ ("refund_amount", show_amount o.total_price)
      ∷ ("reason", text_or "" reason)
      ∷ [];
  correlation_id = if is_empty o.correlation_id then env.correlation_id else o.correlation_id;
}

-- `if admin_id:`
abbrev pub truthy : Option ℕ → Option ℕ
truthy none = none
truthy (some i) = if i == 0 then none else some i

abbrev refund_audit : Option ℕ → Order → Option String → Db → Db
refund_audit none o reason d = d
refund_audit (some admin) o reason d = record d {
  admin_audit_log =
      d.admin_audit_log
      ++ record {
        admin_id = admin;
        action = "order_refund";
        entity_type = "order";
        entity_id = o.id;
        old_value = none;
        new_value = none;
        reason = reason;
      }
        ∷ [];
}

-- The refund of an order that had the status `current`.
unfoldable pub pay_back : Env → String → Option ℕ → Option String → Order → Exec (Unit {0})
pay_back env current admin_id reason o =
    if was_paid current
    then (do
      credit_balance o.user_id o.total_price (refund_entry o)
      modify (λ d. record d {
        outbox_events = create_event env.now (refund_event env o reason) d.outbox_events;
      })
      modify (refund_audit (truthy admin_id) o reason))
    else pure tt

unfoldable pub refund : Env → String → Option ℕ → Option String → Order → Exec (Unit {0})
unfolding pay_back reason_given
refund env current admin_id reason o = do
  raise_if (not (reason_given reason)) (domain_error "ERROR")
  pay_back env current admin_id reason o

abbrev actor_of : Option String → Option ℕ → String
actor_of actor admin =
    text_or (elim (truthy admin) [ none ↦ "SYSTEM" | some i ↦ text_append "ADMIN:" (show i) ]) actor

-- `if payload: order.fragment_payload = payload`
abbrev pub with_payload : Option String → Order → Order
with_payload none o = o
with_payload (some p) o = if is_empty p then o else record o { fragment_payload = some p }

abbrev pub timeline_row :
    ℕ → String → String → Option String → Option ℕ → Option String → Order → OrderStatusHistory
timeline_row now current target actor admin reason o = record {
  order_id = o.id;
  order_code = o.order_code;
  from_status = some current;
  to_status = target;
  actor = actor_of actor admin;
  note = some (
      text_or
        (text_append "Buyurtma holati o'zgartirildi: "
          (text_append current (text_append " -> " target)))
        reason);
  created_at = now;
}

abbrev pub add_history : OrderStatusHistory → Db → Db
add_history h d = record d { order_status_history = d.order_status_history ++ h ∷ [] }

-- The optional arguments of a status change.
pub record Change : Type 0 where
  pub admin_id : Option ℕ
  pub reason : Option String
  pub payload : Option String
  pub actor : Option String

-- The change of a loaded order whose two statuses differ.
unfoldable pub change_status : Env → String → String → Change → Order → Exec Order
unfolding stamp refund
change_status env current target c order = do
  lift (validate_order_transition current target)
  let o = stamp env.now target order
  modify (set_order o)
  if str_eq target (value refunded) then refund env current c.admin_id c.reason o else pure tt
  let o' = with_payload c.payload o
  modify (set_order o')
  modify (add_history (timeline_row env.now current target c.actor c.admin_id c.reason o'))
  commit
  pure o'

unfoldable pub transition_order_status : Env → ℕ → String → Change → Exec Order
unfolding change_status normalize_status
transition_order_status env order_id new_status_raw c = do
  found ← gets (λ d. find (has_order_id order_id) d.orders)
  order ← or_raise order_not_found found
  let current = normalize_status order.status
  let target = normalize_status new_status_raw
  raise_if (str_eq target (value refunded) && str_eq current (value refunded)) invalid_order_state
  if str_eq current target then pure order else change_status env current target c order

-- `refund_order`
unfoldable pub refund_order : Env → ℕ → Option ℕ → Option String → Exec Order
unfolding transition_order_status
refund_order env order_id admin reason =
    transition_order_status env order_id (value refunded) (record {
      admin_id = admin;
      reason = some (text_or "Admin tomonidan qaytarildi" reason);
      payload = none;
      actor = none;
    })
