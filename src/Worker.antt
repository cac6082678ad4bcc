-- ===== src/Worker.antt =====
-- The background worker: app/services/worker.py, with `list_failed_jobs` of
-- app/services/dlq/service.py. One turn of the loop is a function on the worker's memory and the
-- session. What the sending of a message to Telegram ends with is an argument; log lines, the
-- heartbeat in Redis and the waiting are left out.
pub mod Outcomes
pub mod Settling
pub mod CleanUp
pub mod DeadLetters
pub mod Delivering
use gift_hub.Prelude.{
  ℕ, zero, suc, ◌+◌, ◌%◌, ◌==◌, String, Bool, true, false, not, ◌&&◌, ◌||◌, Option, none, some,
  List, [], ◌∷◌, ◌++◌, map, str_eq, ltb, leb, where_rows, take, update_rows, if◌then◌else◌,
}
use gift_hub.Prelude.Dict.{lookup}
use gift_hub.Prelude.Texts.{is_digit, int_of}
use gift_hub.Dlq
use gift_hub.Dlq.{DlqStatus, FailedJob, exhausted, retrying, resolve_job}
use gift_hub.Outbox.{OutboxEvent, seconds, claim_pending_events, mark_processed, mark_failed}
use gift_hub.Models.{Db, PriceLock}
use gift_hub.Models.Orders.{Order}
use gift_hub.Orders.{truthy}
use gift_hub.Reconciliation.{run_reconciliation_audit}
use gift_hub.Session.{
  Exec, Session, Result, Error, ok, err, value_error, pure, gets, lift, or_raise, modify, commit,
  ◌>>=◌, ◌>>◌,
}
use gift_hub.Fulfillment.{
  Answer, already_fulfilled, circuit_open, manual_review, fulfilled, not_delivered, Client, Call,
  try_except, fulfill_order_automated,
}

-- What a turn works with: the client, the instant and the texts of a call, how the sending of a
-- message ends, and the rows that other transactions hold locked.
pub record Tools : Type 0 where
  pub client : Client
  pub call : Call
  pub notify : OutboxEvent → Result (Unit {0})
  pub held : ℕ → Bool

-- `res.get("success")`
abbrev pub is_success : Answer → Bool
is_success already_fulfilled = true
is_success (fulfilled t) = true
is_success circuit_open = false
is_success manual_review = false
is_success (not_delivered e) = false

-- `res.get("fulfilled")`
abbrev pub is_fulfilled : Answer → Bool
is_fulfilled (fulfilled t) = true
is_fulfilled already_fulfilled = false
is_fulfilled circuit_open = false
is_fulfilled manual_review = false
is_fulfilled (not_delivered e) = false

-- `res.get("error", default)`
abbrev pub error_of : String → Answer → String
error_of d already_fulfilled = d
error_of d (fulfilled t) = d
error_of d circuit_open = "Fragment provayderi vaqtincha nofaol"
error_of d manual_review = "Maksimal urinishlar soni tugadi, DLQ ga yuborildi"
error_of d (not_delivered e) = e

-- `async_session_scope`
abbrev close : Result (Unit {0}) → Exec (Unit {0})
close (ok t) s = (ok t, record s { saved = s.db })
close (err e) s = (err e, record s { db = s.saved })

abbrev pub in_scope : Exec (Unit {0}) → Exec (Unit {0})
in_scope m s = let (r, s') = m s in close r s'

abbrev pub for_each : {A : Type 0} → (A → Exec (Unit {0})) → List A → Exec (Unit {0})
for_each f [] = pure tt
for_each f (x ∷ xs) = f x >> for_each f xs

-- `int(ev.payload.get("order_id"))`
abbrev pub to_int : Option String → Result ℕ
to_int none = err value_error
to_int (some t) = if is_digit t then ok (int_of t) else err value_error

abbrev pub processed_event : Call → ℕ → Exec (Unit {0})
processed_event c i =
    modify (λ d. record d { outbox_events = mark_processed c.env.now i d.outbox_events })

abbrev pub failed_event : Call → ℕ → String → Exec (Unit {0})
failed_event c i error = modify (λ d.
    let (events, jobs) =
      mark_failed c.env.now c.traceback i error (d.outbox_events, d.failed_jobs) in
    record d { outbox_events = events; failed_jobs = jobs })

abbrev pub settle : Call → ℕ → Answer → Exec (Unit {0})
settle c i res =
    if is_success res
    then processed_event c i
    else failed_event c i (error_of "Fulfillment failed" res)

abbrev pub request_delivery : Tools → OutboxEvent → Exec (Unit {0})
request_delivery t ev = do
  order_id ← lift (to_int (lookup "order_id" ev.payload))
  res ← fulfill_order_automated t.client t.call order_id
  settle t.call ev.id res

abbrev pub is_message : String → Bool
is_message kind =
    str_eq kind "WALLET_DEPOSIT_COMPLETED"
    || str_eq kind "PAYMENT_TOPUP_NOTIFICATION"
    || str_eq kind "ORDER_CREATED_NOTIFICATION"

abbrev pub send_message : Tools → OutboxEvent → Exec (Unit {0})
send_message t ev = lift (t.notify ev) >> processed_event t.call ev.id

-- The body of the loop, inside its `try`.
unfoldable pub handle_event : Tools → OutboxEvent → Exec (Unit {0})
handle_event t ev =
    if str_eq ev.event_type "ORDER_FULFILLMENT_REQUESTED"
    then request_delivery t ev
    else if is_message ev.event_type
    then send_message t ev
    else processed_event t.call ev.id

unfoldable pub process_event : Tools → OutboxEvent → Exec (Unit {0})
process_event t ev =
    try_except (handle_event t ev) (λ e. failed_event t.call ev.id (t.call.describe e))

unfoldable pub claim_events : Tools → Exec (List OutboxEvent)
claim_events t s =
    let (events, rows) =
      claim_pending_events t.call.env.now "worker-main" 10 (seconds 300) t.held
        s.db.outbox_events in
    (ok events, record s { db = record s.db { outbox_events = rows } })

unfoldable pub process_outbox_events : Tools → Exec (Unit {0})
process_outbox_events t = do events ← claim_events t; for_each (process_event t) events

-- `order_by(created_at.desc())`
unfoldable pub insert_by_date : FailedJob → List FailedJob → List FailedJob
insert_by_date j [] = j ∷ []
insert_by_date j (k ∷ ks) =
    let rest = insert_by_date j ks in if ltb j.created_at k.created_at then k ∷ rest else j ∷ k ∷ ks

unfoldable pub sort_by_date : List FailedJob → List FailedJob
sort_by_date [] = []
sort_by_date (j ∷ js) = insert_by_date j (sort_by_date js)

abbrev pub is_retrying : DlqStatus → Bool
is_retrying retrying = true
is_retrying _ = false

-- `list_failed_jobs` of the jobs that an administrator has sent back.
unfoldable pub list_failed_jobs : ℕ → Db → List FailedJob
list_failed_jobs limit d =
    take limit (sort_by_date (where_rows (λ j. is_retrying j.status) d.failed_jobs))

abbrev pub or_zero : Option ℕ → ℕ
or_zero none = 0
or_zero (some i) = i

abbrev pub give_back : Call → FailedJob → Answer → Db → Db
give_back c job res d = record d {
  failed_jobs =
      if is_success res && is_fulfilled res
      then (resolve_job c.env.now job.id (or_zero job.resolved_by) "Admin re-try succeeded."
          d.failed_jobs).1
      else update_rows (Dlq.has_id job.id)
          (λ j. record j { status = exhausted; error_message = error_of "Retry failed" res })
          d.failed_jobs;
}

abbrev retry_order : Tools → FailedJob → Option ℕ → Exec (Unit {0})
retry_order t job none = pure tt
retry_order t job (some order_id) = do
  res ← fulfill_order_automated t.client t.call order_id
  modify (give_back t.call job res)

unfoldable pub retry_job : Tools → FailedJob → Exec (Unit {0})
retry_job t job =
    if str_eq job.job_type "fulfillment"
    then try_except (retry_order t job (truthy job.order_id)) (λ e. pure tt)
    else pure tt

unfoldable pub process_dlq_retries : Tools → Exec (Unit {0})
process_dlq_retries t = do jobs ← gets (list_failed_jobs 5); for_each (retry_job t) jobs

-- The tasks of the queue in memory.
pub data Task : Type 0 where
  fulfill_order : Option ℕ → Task
  cleanup_expired_price_locks retry_failed_fulfillments unknown : Task

abbrev pub is_stale : ℕ → PriceLock → Bool
is_stale now l = ltb l.expires_at now && not l.is_used

unfoldable pub cleanup : ℕ → Exec (Unit {0})
cleanup now =
    modify (λ d. record d { price_locks = where_rows (λ l. not (is_stale now l)) d.price_locks })

abbrev is_scheduled : Order → Bool
is_scheduled o = str_eq o.fulfillment_status "retry_scheduled" && ltb o.fulfillment_attempts 3

abbrev deliver : Tools → ℕ → Exec (Unit {0})
deliver t i = fulfill_order_automated t.client t.call i >> pure tt

abbrev deliver_given : Tools → Option ℕ → Exec (Unit {0})
deliver_given t none = pure tt
deliver_given t (some i) = in_scope (deliver t i)

unfoldable pub process_task : Tools → Task → Exec (Unit {0})
process_task t (fulfill_order i) = deliver_given t (truthy i)
process_task t cleanup_expired_price_locks = in_scope (cleanup t.call.env.now)
process_task t retry_failed_fulfillments = in_scope (do
  ids ← gets (λ d. map (λ o. o.id) (where_rows is_scheduled d.orders))
  for_each (deliver t) ids)
process_task t unknown = pure tt

-- What the process keeps in memory between two turns.
pub record Memory : Type 0 where
  pub queue : List Task
  pub cycle_counter : ℕ
  pub last_heartbeat : Option ℕ
  pub is_running : Bool

abbrev first_task : Tools → List Task → Exec (Unit {0})
first_task t [] = pure tt
first_task t (task ∷ rest) = try_except (process_task t task) (λ e. pure tt)

abbrev rest_of : List Task → List Task
rest_of [] = []
rest_of (task ∷ rest) = rest

-- What follows the outbox, with the counter already raised.
unfoldable pub periodic : Tools → ℕ → Exec (Unit {0})
periodic t n = do
  if n % 15 == 0 then in_scope (process_dlq_retries t) else pure tt
  if n % 1800 == 0 then in_scope (run_reconciliation_audit t.call.env.now >> pure tt) else pure tt

abbrev count_up : Tools → ℕ → Result (Unit {0}) → Session → ℕ × Session
count_up t n (ok u) s = let (r, s') = periodic t (n + 1) s in (n + 1, s')
count_up t n (err e) s = (n, s)

-- One turn of `run_worker_loop`; an exception ends the turn.
unfoldable pub turn : Tools → Memory → Session → Memory × Session
turn t m s =
    let (r, s1) = first_task t m.queue s in
    let (r', s2) = in_scope (process_outbox_events t) s1 in
    let (n, s3) = count_up t m.cycle_counter r' s2 in
    (
      record {
        queue = rest_of m.queue;
        cycle_counter = n;
        last_heartbeat = some t.call.env.now;
        is_running = true;
      },
      s3,
    )

-- `get_worker_status`, without the texts.
abbrev alive_since : ℕ → Option ℕ → Bool
alive_since now none = false
alive_since now (some t) = ltb now (t + seconds 60)

unfoldable pub is_alive : ℕ → Memory → Bool
is_alive now m = m.is_running && alive_since now m.last_heartbeat

unfoldable pub enqueue_task : Task → Memory → Memory
enqueue_task task m = record m { queue = m.queue ++ task ∷ [] }

unfoldable pub stop_worker : Memory → Memory
stop_worker m = record m { is_running = false }
