-- ===== src/Outbox.antt =====
-- The transactional outbox: app/services/outbox/service.py over the table of
-- app/models/outbox.py. Times are in microseconds. A JSON payload is a dict
-- from keys to the texts of their values.
pub mod Claim
pub mod Retries
pub mod Letters
use Prim.Native.Nat.{min}
use Prim.Native.String.{◌++◌ as text_append}
use gift_hub.Prelude.{
  ℕ, zero, suc, ◌+◌, ◌*◌, ◌^◌, ◌==◌, String, Bool, true, false, not, ◌&&◌, ◌||◌, Option, none, some,
  List, [], ◌∷◌, ◌++◌, map, ltb, leb, str_eq, if◌then◌else◌, find, where_rows, any, take,
  update_rows,
}
use gift_hub.Prelude.Dict.{Dict}
use gift_hub.Prelude.Texts.{take_chars, is_empty, is_digit, int_of, show}
use gift_hub.Dlq.{FailedJob, Job, record_failed_job}

pub data OutboxStatus : Type 0 where
  pending processing retry processed failed : OutboxStatus

pub record OutboxEvent : Type 0 where
  pub id : ℕ
  pub event_type : String
  pub aggregate_type : String
  pub aggregate_id : String
  pub payload : Dict String
  pub status : OutboxStatus
  pub retry_count : ℕ
  pub max_retries : ℕ
  pub next_retry_at : Option ℕ
  pub locked_at : Option ℕ
  pub locked_by : Option String
  pub last_error : Option String
  pub correlation_id : String
  pub created_at : ℕ
  pub processed_at : Option ℕ

abbrev pub seconds : ℕ → ℕ
seconds n = n * 1000000

-- The identity that the database gives to the next row.
abbrev pub next_id : List OutboxEvent → ℕ
next_id [] = 1
next_id (e ∷ []) = suc e.id
next_id (e ∷ f ∷ es) = next_id (f ∷ es)

-- What `create_event` is called with, its correlation id resolved.
pub record NewEvent : Type 0 where
  pub event_type : String
  pub aggregate_type : String
  pub aggregate_id : String
  pub payload : Dict String
  pub correlation_id : String

unfoldable pub create_event : ℕ → NewEvent → List OutboxEvent → List OutboxEvent
create_event now e events =
    events
    ++ record {
      id = next_id events;
      event_type = e.event_type;
      aggregate_type = e.aggregate_type;
      aggregate_id = e.aggregate_id;
      payload = e.payload;
      status = pending;
      retry_count = 0;
      max_retries = 5;
      next_retry_at = some now;
      locked_at = none;
      locked_by = none;
      last_error = none;
      correlation_id = e.correlation_id;
      created_at = now;
      processed_at = none;
    }
      ∷ []

-- `column IS NULL OR column + wait <= now`
abbrev null_or_past : ℕ → ℕ → Option ℕ → Bool
null_or_past wait now none = true
null_or_past wait now (some t) = leb (t + wait) now

-- `is_ready` and `is_stale` of the query, by status.
abbrev due : OutboxStatus → ℕ → ℕ → OutboxEvent → Bool
due pending timeout now e = null_or_past 0 now e.next_retry_at
due retry timeout now e = null_or_past 0 now e.next_retry_at
due processing timeout now e = null_or_past timeout now e.locked_at
due _ timeout now e = false

-- The WHERE clause of `claim_pending_events`.
unfoldable pub is_claimable : ℕ → ℕ → OutboxEvent → Bool
is_claimable timeout now e = due e.status timeout now e && ltb e.retry_count e.max_retries

-- ORDER BY created_at ASC; rows of one time keep their order.
unfoldable pub insert_by_created : OutboxEvent → List OutboxEvent → List OutboxEvent
insert_by_created e [] = e ∷ []
insert_by_created e (f ∷ fs) =
    if leb e.created_at f.created_at then e ∷ f ∷ fs else f ∷ insert_by_created e fs

unfoldable pub sort_by_created : List OutboxEvent → List OutboxEvent
unfolding insert_by_created
sort_by_created [] = []
sort_by_created (e ∷ es) = insert_by_created e (sort_by_created es)

abbrev pub has_id : ℕ → OutboxEvent → Bool
has_id i e = e.id == i

unfoldable pub lock : ℕ → String → OutboxEvent → OutboxEvent
lock now worker e = record e { status = processing; locked_at = some now; locked_by = some worker }

-- The rows that the SELECT returns. `held` says which rows another transaction has locked: SKIP
-- LOCKED passes over them.
unfoldable pub select_claimable : ℕ → ℕ → (ℕ → Bool) → ℕ → List OutboxEvent → List OutboxEvent
unfolding sort_by_created is_claimable
select_claimable limit timeout held now events =
    take limit
      (sort_by_created (where_rows (λ e. is_claimable timeout now e && not (held e.id)) events))

abbrev pub chosen_in : List OutboxEvent → OutboxEvent → Bool
chosen_in chosen e = any (has_id e.id) chosen

-- The events that `claim_pending_events` returns, and the table after it.
unfoldable pub claim_pending_events :
    ℕ → String → ℕ → ℕ → (ℕ → Bool) → List OutboxEvent → List OutboxEvent × List OutboxEvent
unfolding select_claimable lock
claim_pending_events now worker limit timeout held events =
    let chosen = select_claimable limit timeout held now events in
    (map (lock now worker) chosen, update_rows (chosen_in chosen) (lock now worker) events)

unfoldable pub finish : ℕ → OutboxEvent → OutboxEvent
finish now e = record e {
  status = processed;
  processed_at = some now;
  locked_by = none;
  locked_at = none;
}

unfoldable pub mark_processed : ℕ → ℕ → List OutboxEvent → List OutboxEvent
unfolding finish
mark_processed now i events = update_rows (has_id i) (finish now) events

-- Seconds to wait after the given number of failures.
unfoldable pub backoff_sec : ℕ → ℕ
backoff_sec n = min 300 (2 ^ n * 2)

-- The row as `mark_failed` leaves it.
unfoldable pub fail_row : ℕ → String → OutboxEvent → OutboxEvent
unfolding backoff_sec
fail_row now error e =
    let n = e.retry_count + 1 in
    let e' = record e {
      retry_count = n;
      last_error = some (take_chars 2000 error);
      locked_by = none;
      locked_at = none;
    } in
    if leb e.max_retries n
    then record e' { status = failed }
    else record e' { next_retry_at = some (now + seconds (backoff_sec n)); status = retry }

-- `int(aggregate_id) if aggregate_id.isdigit() else None`
abbrev pub order_of : String → Option ℕ
order_of s = if is_digit s then some (int_of s) else none

-- Whether the failed row, its count raised already, goes to the dead letter queue.
unfoldable pub is_dead_letter : OutboxEvent → Bool
is_dead_letter e =
    leb e.max_retries e.retry_count
    && str_eq e.event_type "ORDER_FULFILLMENT_REQUESTED"
    && not (is_empty e.aggregate_id)

abbrev pub dead_letter : String → String → OutboxEvent → Job
dead_letter traceback error e = record {
  job_type = "outbox_fulfillment";
  payload = e.payload;
  error_message =
      text_append "Outbox retries exhausted ("
        (text_append (show e.retry_count) (text_append "): " error));
  traceback = traceback;
  order_id = order_of e.aggregate_id;
  attempts = e.retry_count;
  correlation_id = e.correlation_id;
}

abbrev route : ℕ → String → String → Option OutboxEvent → List FailedJob → List FailedJob
route now traceback error none jobs = jobs
route now traceback error (some e) jobs =
    let sent = record_failed_job now (dead_letter traceback error e) jobs in
    if is_dead_letter e then sent else jobs

-- The tables of events and of dead letters after `mark_failed`; an unknown id changes nothing.
unfoldable pub mark_failed :
    ℕ → String → ℕ → String → List OutboxEvent × List FailedJob → List OutboxEvent × List FailedJob
unfolding fail_row is_dead_letter record_failed_job
mark_failed now traceback i error (events, jobs) =
    let events' = update_rows (has_id i) (fail_row now error) events in
    (events', route now traceback error (find (has_id i) events') jobs)
