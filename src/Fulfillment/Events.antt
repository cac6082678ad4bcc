-- ===== src/Fulfillment/Events.antt =====
-- A delivery leaves the table of outbox events alone.
use Prim.Native.String.{◌++◌ as text_append}
use gift_hub.Prelude.{
  ℕ, String, ◌≡◌, refl, ◌∙◌, Bool, true, false, not, ◌&&◌, Option, some, List, str_eq, find,
}
use gift_hub.Prelude.Texts.{lower}
use gift_hub.Models.{Db}
use gift_hub.Models.Orders.{
  Order, value, completed, failed, refunded, normalize_status, validate_order_transition,
}
use gift_hub.Outbox.{OutboxEvent}
use gift_hub.Notifications.{create_notification}
use gift_hub.Orders.{
  Env, Change, has_order_id, set_order, stamp, with_payload, add_history, timeline_row, refund,
  change_status,
}
use gift_hub.Session.{
  Session, Exec, Error, Result, ok, err, modify, commit as commit_all, order_not_found,
  invalid_order_state,
}
use gift_hub.Session.Keeps.{
  Keeps, Kept, gets, pure, lift, raise_if, or_raise, branch, unless, ◌>>=◌, ◌>>◌,
}
use gift_hub.Fulfillment.{
  already_fulfilled, circuit_open, fulfilled, not_delivered, Client, Call, Delivery, by_system,
  is_delivered, is_last, ask_circuit, record_outcome, set_columns, add_job, try_except, catching,
  transition_loaded, exhausted, delivered, give_up, refused, interrupted, or_else, conclude, begin,
  attempt, guarded, fulfill_order_automated,
}

pub catching-Keeps :
    (P : Session → Type 0) {A : Type 0} (r : Result A) (h : Error → Exec A)
    → ((e : Error) → Keeps P (h e))
    → Keeps P (catching r h)
catching-Keeps P (ok a) h k s p = p
catching-Keeps P (err e) h k s p = k e s p

-- `try` with its handler.
abbrev pub guard : {P : Session → Type 0} {A : Type 0} → Kept P A → (Error → Kept P A) → Kept P A
guard {P} m h = (
  try_except m.0 (λ e. (h e).0),
  λ s p. catching-Keeps P (m.0 s).0 (λ e. (h e).0) (λ e. (h e).1) (m.0 s).1 (m.1 s p),
)

module _ (events : List OutboxEvent) where
  abbrev pub Same : Session → Type 0
  Same s = s.db.outbox_events ≡ events

  abbrev change :
      (f : Db → Db) → ((d : Db) → (f d).outbox_events ≡ d.outbox_events) → Kept Same (Unit {0})
  change f k = (modify f, λ s h. k s.db ∙ h)

  abbrev commit : Kept Same (Unit {0})
  commit = (commit_all, λ s h. h)

  change-Same :
      (env : Env) (current target : String) (c : Change) (o : Order)
      → str_eq target (value refunded) ≡ false
      → Keeps Same (change_status env current target c o)
  unfolding change_status
  change-Same env current target c order e =
      (do
        lift (validate_order_transition current target)
        let o = stamp env.now target order
        change (set_order o) (λ d. refl)
        unless (str_eq target (value refunded)) e (refund env current c.admin_id c.reason o)
            (pure tt)
        let o' = with_payload c.payload o
        change (set_order o') (λ d. refl)
        change (add_history (timeline_row env.now current target c.actor c.admin_id c.reason o'))
            (λ d. refl)
        commit
        pure o').1

  transition-Same :
      (env : Env) (o : Order) (target reason : String)
      → str_eq (normalize_status target) (value refunded) ≡ false
      → Keeps Same (transition_loaded env o target reason)
  unfolding transition_loaded
  transition-Same env order target reason e =
      (do
        found ← gets (λ d. find (has_order_id order.id) d.orders)
        row ← or_raise order_not_found found
        let current = normalize_status order.status
        raise_if
            (str_eq (normalize_status target) (value refunded) && str_eq current (value refunded))
            invalid_order_state
        branch (str_eq current (normalize_status target)) (pure row) (
          change_status env current (normalize_status target) (by_system reason) row,
          change-Same env current (normalize_status target) (by_system reason) row e,
        )).1

  outcome-Same : (b : Bool) (env : Env) → Keeps Same (record_outcome b env)
  unfolding record_outcome
  outcome-Same b env s h = h

  notification-Same :
      (now user : ℕ) (kind : String) (entity : Option String)
      → Keeps Same (create_notification now user kind entity)
  unfolding create_notification
  notification-Same now user kind entity s h = h

  complete_not_refund : str_eq (normalize_status (value completed)) (value refunded) ≡ false
  unfolding normalize_status lower
  complete_not_refund = refl

  fail_not_refund : str_eq (normalize_status (value failed)) (value refunded) ≡ false
  unfolding normalize_status lower
  fail_not_refund = refl

  delivered-Same : (c : Call) (o : Order) (tx : String) → Keeps Same (delivered c o tx)
  unfolding delivered
  delivered-Same c order tx_hash =
      (do
        (record_outcome true c.env, outcome-Same true c.env)
        let reason =
            text_append "Fragment orqali muvaffaqiyatli yetkazildi (tx: " (text_append tx_hash ")")
        (
          transition_loaded c.env order (value completed) reason,
          transition-Same c.env order (value completed) reason complete_not_refund,
        )
        change
            (set_columns order.id (λ o. record o {
              fulfillment_status = "fulfilled";
              completed_at = some c.env.now;
              fragment_tx_hash = some tx_hash;
            }))
            (λ d. refl)
        commit
        let entity = text_append "order:" order.order_code
        (
          create_notification c.env.now order.user_id "order" (some entity),
          notification-Same c.env.now order.user_id "order" (some entity),
        )
        pure (fulfilled tx_hash)).1

  give_up-Same :
      (c : Call) (o : Order) (reason error : String) → Keeps Same (give_up c o reason error)
  unfolding give_up
  give_up-Same c order reason error =
      (do
        change (set_columns order.id (λ o. record o { fulfillment_status = "manual_review" }))
            (λ d. refl)
        (
          transition_loaded c.env order (value failed) (text_append reason error),
          transition-Same c.env order (value failed) (text_append reason error) fail_not_refund,
        )
        change (add_job c order error) (λ d. refl)).1

  refused-Same : (c : Call) (o : Order) (error : String) → Keeps Same (refused c o error)
  unfolding refused
  refused-Same c order error =
      (do
        (record_outcome false c.env, outcome-Same false c.env)
        change (set_columns order.id (λ o. record o { fulfillment_error = some error })) (λ d. refl)
        branch (is_last order)
            (
              give_up c order "Maksimal urinishlar soni tugadi: " error,
              give_up-Same c order "Maksimal urinishlar soni tugadi: " error,
            )
            (change
              (set_columns order.id (λ o. record o { fulfillment_status = "retry_scheduled" }))
              (λ d. refl))
        commit
        pure (not_delivered error)).1

  interrupted-Same : (c : Call) (o : Order) (e : Error) → Keeps Same (interrupted c o e)
  unfolding interrupted
  interrupted-Same c order e =
      (do
        let error = c.describe e
        (record_outcome false c.env, outcome-Same false c.env)
        change (set_columns order.id (λ o. record o { fulfillment_error = some error })) (λ d. refl)
        branch (is_last order)
            (
              give_up c order "Yetkazib berish istisnosi: " error,
              give_up-Same c order "Yetkazib berish istisnosi: " error,
            )
            (pure tt)
        commit
        pure (not_delivered error)).1

  conclude-Same : (c : Call) (o : Order) (r : Delivery) → Keeps Same (conclude c o r)
  unfolding conclude
  conclude-Same c o r =
      (branch (r.success && r.fulfilled)
        (delivered c o (or_else "" r.tx_hash), delivered-Same c o (or_else "" r.tx_hash))
        (
          refused c o (or_else "Yetkazib berishda xatolik" r.error),
          refused-Same c o (or_else "Yetkazib berishda xatolik" r.error),
        )).1

  module _ (client : Client) (keeps : (i : ℕ) → Keeps Same (client i)) where
    attempt-Same : (c : Call) (o : Order) → Keeps Same (attempt client c o)
    unfolding attempt
    attempt-Same c loaded =
        (do
          let order = begin c.env.now loaded
          change (set_order order) (λ d. refl)
          commit
          guard
              (do
                r ← (client order.id, keeps order.id)
                (conclude c order r, conclude-Same c order r))
              (λ e. (interrupted c order e, interrupted-Same c order e))).1

    exhausted-Same : (c : Call) (o : Order) → Keeps Same (exhausted c o)
    unfolding exhausted
    exhausted-Same c o s h = h

    ask-Same : (clock : ℕ) → Keeps Same (ask_circuit clock)
    unfolding ask_circuit
    ask-Same clock s h = h

    guarded-Same : (c : Call) (o : Order) → Keeps Same (guarded client c o)
    unfolding guarded
    guarded-Same c order =
        (do
          allowed ← (ask_circuit c.env.clock, ask-Same c.env.clock)
          branch (not allowed) (pure circuit_open) (
              branch (is_last order) (exhausted c order, exhausted-Same c order)
                (attempt client c order, attempt-Same c order))).1

    pub fulfill-Same : (c : Call) (i : ℕ) → Keeps Same (fulfill_order_automated client c i)
    unfolding fulfill_order_automated
    fulfill-Same c order_id =
        (do
          found ← gets (λ d. find (has_order_id order_id) d.orders)
          order ← or_raise order_not_found found
          branch (is_delivered order) (pure already_fulfilled)
              (guarded client c order, guarded-Same c order)).1
