-- ===== src/Outbox/Retries.antt =====
-- Failed attempts of an outbox event, `mark_failed`, and the dead letter queue.
use native.Mathlib.Nat.{pow-suc}
use mathlib.Core.Option
use gift_hub.Prelude.{
  ℕ, zero, suc, ◌+◌, ◌^◌, ◌≤◌, ◌<◌, ◌==◌, String, ◌≡◌, sym, ap, ◌∙◌, Bool, true, false, some, ◌⊎◌,
  List, [], ◌∷◌, arith, length, length-append, find, find-update, Bool-cases, inl, inr, leb, str_eq,
  if◌then◌else◌,
}
use gift_hub.Prelude.Texts.{is_empty}
use gift_hub.Dlq.{FailedJob, record_failed_job}
use gift_hub.Outbox.{
  retry, processed, failed, OutboxEvent, seconds, is_claimable, has_id, backoff_sec, fail_row,
  is_dead_letter, route, mark_failed,
}

two-le-pow : (n : ℕ) → 2 ≤ 2 ^ suc n
two-le-pow zero = omega arith
two-le-pow (suc n) = rw (pow-suc 2 (suc n)) (omega (arith, two-le-pow n))

-- The wait after a failure is at least four seconds and at most five minutes.
pub backoff_sec_bounds : (n : ℕ) → (4 ≤ backoff_sec (suc n)) × (backoff_sec (suc n) ≤ 300)
unfolding backoff_sec
backoff_sec_bounds n = (omega (arith, two-le-pow n), omega arith)

-- After a failure that leaves a retry, the event cannot be claimed until the wait of its new count
-- is over; the wait is at least four seconds and at most five minutes.
pub backoff_delays :
    (now now' timeout : ℕ) (error : String) (e : OutboxEvent)
    → e.retry_count + 1 < e.max_retries
    → now' < now + seconds (backoff_sec (suc e.retry_count))
    → (is_claimable timeout now' (fail_row now error e) ≡ false)
      × (4 ≤ backoff_sec (suc e.retry_count))
      × (backoff_sec (suc e.retry_count) ≤ 300)
unfolding fail_row is_claimable
backoff_delays now now' timeout error e left early =
    let b = backoff_sec_bounds e.retry_count in
    let eq : e.retry_count + 1 ≡ suc e.retry_count = omega arith in (rw eq (ground arith), b.0, b.1)

-- The row after failed attempts, each at a time and with an error.
pub fail_times : List (ℕ × String) → OutboxEvent → OutboxEvent
fail_times [] e = e
fail_times ((now, error) ∷ fs) e = fail_times fs (fail_row now error e)

pub fail_row-counts :
    (now : ℕ) (error : String) (e : OutboxEvent)
    → ((fail_row now error e).retry_count ≡ e.retry_count + 1)
      × ((fail_row now error e).max_retries ≡ e.max_retries)
      × ((fail_row now error e).status
          ≡ (if leb e.max_retries (e.retry_count + 1) then failed else retry))
unfolding fail_row
fail_row-counts now error e = (ground arith, ground arith, ground arith)

-- After one or more failed attempts of an event, every one of them is counted, and it is given up
-- exactly when the count has reached its limit; until then it waits for a retry.
pub given_up_at_limit :
    (now : ℕ) (error : String) (fs : List (ℕ × String)) (e : OutboxEvent)
    → let e' = fail_times ((now, error) ∷ fs) e in
      (e'.retry_count ≡ e.retry_count + suc (length fs))
      × (e'.status ≡ (if leb e.max_retries e'.retry_count then failed else retry))
unfolding fail_times
given_up_at_limit now error [] e =
    let c = fail_row-counts now error e in
    (c.0 ∙ omega arith, c.2 ∙ ap (λ n. if leb e.max_retries n then failed else retry) (sym c.0))
given_up_at_limit now error ((now', error') ∷ fs) e =
    let c = fail_row-counts now error e in
    let h = given_up_at_limit now' error' fs (fail_row now error e) in
    let n = (fail_times ((now, error) ∷ (now', error') ∷ fs) e).retry_count in
    (omega (arith, h.0, c.0), h.1 ∙ ap (λ m. if leb m n then failed else retry) c.1)

-- An event that is given up, or done, is claimed no more.
pub settled-not_claimable :
    (timeout now : ℕ) (e : OutboxEvent)
    → (e.status ≡ failed) ⊎ (e.status ≡ processed)
    → is_claimable timeout now e ≡ false
unfolding is_claimable
settled-not_claimable timeout now e h = ground arith

fail_row-id :
    (now i : ℕ) (error : String) (e : OutboxEvent) → has_id i (fail_row now error e) ≡ has_id i e
unfolding fail_row
fail_row-id now i error e = ground arith

-- The tables after failed attempts of one event.
unfoldable pub mark_failed_times :
    String
    → ℕ
    → List (ℕ × String)
    → List OutboxEvent × List FailedJob
    → List OutboxEvent × List FailedJob
mark_failed_times traceback i [] db = db
mark_failed_times traceback i ((now, error) ∷ fs) db =
    mark_failed_times traceback i fs (mark_failed now traceback i error db)

-- A fulfillment request of some order.
abbrev pub IsFulfillment : OutboxEvent → Type 0
IsFulfillment e =
    (str_eq e.event_type "ORDER_FULFILLMENT_REQUESTED" ≡ true) × (is_empty e.aggregate_id ≡ false)

pub fail_row-IsFulfillment :
    (now : ℕ) (error : String) (e : OutboxEvent)
    → IsFulfillment e
    → IsFulfillment (fail_row now error e)
unfolding fail_row
fail_row-IsFulfillment now error e h = ground arith

pub fail_row-is_dead_letter :
    (now : ℕ) (error : String) (e : OutboxEvent)
    → IsFulfillment e
    → is_dead_letter (fail_row now error e) ≡ leb e.max_retries (e.retry_count + 1)
unfolding fail_row is_dead_letter
fail_row-is_dead_letter now error e h = ground arith

-- One more row, where the test passes.
abbrev one_if : Bool → ℕ
one_if b = if b then 1 else 0

length-route :
    (now : ℕ) (traceback error : String) (e : OutboxEvent) (jobs : List FailedJob)
    → length (route now traceback error (some e) jobs) ≡ length jobs + one_if (is_dead_letter e)
unfolding record_failed_job
length-route now traceback error e jobs = elim (Bool-cases (is_dead_letter e)) [
  | inl t ↦ rw t (length-append jobs _)
  | inr t ↦ rw t (omega arith)
]

module _ (traceback error : String) (now i : ℕ) (es : List OutboxEvent) (jobs : List FailedJob)
    {e : OutboxEvent} (known : find (has_id i) es ≡ some e) where
  pub find-mark_failed :
      find (has_id i) (mark_failed now traceback i error (es, jobs)).0 ≡ some (fail_row now error e)
  unfolding mark_failed
  find-mark_failed =
      find-update (has_id i) (fail_row now error) es (fail_row-id now i error)
      ∙ ap (Option.map (fail_row now error)) known

  length-mark_failed :
      IsFulfillment e
      → length (mark_failed now traceback i error (es, jobs)).1
        ≡ length jobs + one_if (leb e.max_retries (e.retry_count + 1))
  length-mark_failed h =
      unfold mark_failed in
      rw find-mark_failed (
        length-route now traceback error (fail_row now error e) jobs
        ∙ ap (λ b. length jobs + one_if b) (fail_row-is_dead_letter now error e h))

-- A fulfillment request that keeps failing enters the dead letter queue exactly once, by the
-- attempt with which its retries are used up.
pub dead_letter_once :
    (traceback : String) (i now : ℕ) (error : String) (fs : List (ℕ × String))
    (es : List OutboxEvent) (jobs : List FailedJob) {e : OutboxEvent}
    → find (has_id i) es ≡ some e
    → IsFulfillment e
    → e.retry_count + suc (length fs) ≤ e.max_retries
    → length (mark_failed_times traceback i ((now, error) ∷ fs) (es, jobs)).1
      ≡ length jobs + (if e.retry_count + suc (length fs) == e.max_retries then 1 else 0)
unfolding mark_failed_times
dead_letter_once traceback i now error [] es jobs {e} known h room =
    length-mark_failed traceback error now i es jobs known h ∙ ground arith
dead_letter_once traceback i now error ((now', error') ∷ fs) es jobs {e} known h room =
    let db = mark_failed now traceback i error (es, jobs) in
    let c = fail_row-counts now error e in
    let n = length-mark_failed traceback error now i es jobs known h in
    let later =
      dead_letter_once traceback i now' error' fs db.0 db.1
        (find-mark_failed traceback error now i es jobs known)
        (fail_row-IsFulfillment now error e h) (omega (arith, c.0, c.1)) in
    later ∙ ground (arith, n, c.0, c.1)
