-- ===== src/Outbox/Letters.antt =====
-- The order that the dead letter of an event names.
use gift_hub.Prelude.{
  ℕ, suc, ◌+◌, ◌<◌, String, ◌≡◌, refl, ap, ◌∙◌, true, false, some, List, [], ◌∷◌, ◌++◌, arith,
  length, find,
}
use gift_hub.Dlq.{FailedJob, record_failed_job}
use gift_hub.Outbox.{
  OutboxEvent, has_id, order_of, fail_row, is_dead_letter, dead_letter, route, mark_failed,
}
use gift_hub.Outbox.Retries.{
  fail_row-counts, IsFulfillment, fail_row-IsFulfillment, fail_row-is_dead_letter, find-mark_failed,
  mark_failed_times,
}

fail_row-aggregate :
    (now : ℕ) (error : String) (e : OutboxEvent)
    → (fail_row now error e).aggregate_id ≡ e.aggregate_id
unfolding fail_row
fail_row-aggregate now error e = ground arith

-- One more dead letter, which names the order.
pub record HasLetter (n : ℕ) (jobs after : List FailedJob) : Type 0 where
  pub letter : FailedJob
  pub added : after ≡ jobs ++ letter ∷ []
  pub names : letter.order_id ≡ some n

module _ (traceback error : String) (now i : ℕ) (es : List OutboxEvent) (jobs : List FailedJob)
    {e : OutboxEvent} (known : find (has_id i) es ≡ some e) (h : IsFulfillment e) where
  routed :
      (mark_failed now traceback i error (es, jobs)).1
      ≡ route now traceback error (some (fail_row now error e)) jobs
  routed =
      let f = find-mark_failed traceback error now i es jobs known in
      unfold mark_failed in ap (λ o. route now traceback error o jobs) f

  kept : suc e.retry_count < e.max_retries → (mark_failed now traceback i error (es, jobs)).1 ≡ jobs
  kept more =
      let dead = fail_row-is_dead_letter now error e h in
      let no : is_dead_letter (fail_row now error e) ≡ false = dead ∙ ground (arith, more) in
      routed ∙ rw no refl

  lettered :
      (n : ℕ)
      → order_of e.aggregate_id ≡ some n
      → suc e.retry_count ≡ e.max_retries
      → HasLetter n jobs (mark_failed now traceback i error (es, jobs)).1
  unfolding record_failed_job
  lettered n named last =
      let dead = fail_row-is_dead_letter now error e h in
      let yes : is_dead_letter (fail_row now error e) ≡ true = dead ∙ ground (arith, last) in
      let sent = record_failed_job now (dead_letter traceback error (fail_row now error e)) jobs in
      let same : route now traceback error (some (fail_row now error e)) jobs ≡ sent =
        rw yes refl in
      record {
        letter = _;
        added = routed ∙ same;
        names = ap order_of (fail_row-aggregate now error e) ∙ named;
      }

pub letter_names :
    (traceback : String) (i n now : ℕ) (error : String) (fs : List (ℕ × String))
    (es : List OutboxEvent) (jobs : List FailedJob) {e : OutboxEvent}
    → find (has_id i) es ≡ some e
    → IsFulfillment e
    → order_of e.aggregate_id ≡ some n
    → e.retry_count + suc (length fs) ≡ e.max_retries
    → HasLetter n jobs (mark_failed_times traceback i ((now, error) ∷ fs) (es, jobs)).1
unfolding mark_failed_times
letter_names traceback i n now error [] es jobs {e} known h named room =
    lettered traceback error now i es jobs known h n named (omega (arith, room))
letter_names traceback i n now error ((now', error') ∷ fs) es jobs {e} known h named room =
    let db = mark_failed now traceback i error (es, jobs) in
    let c = fail_row-counts now error e in
    let same = kept traceback error now i es jobs known h (omega (arith, room)) in
    let later =
      letter_names traceback i n now' error' fs db.0 db.1
        (find-mark_failed traceback error now i es jobs known)
        (fail_row-IsFulfillment now error e h)
        (ap order_of (fail_row-aggregate now error e) ∙ named) (omega (arith, c.0, c.1, room)) in
    record {
      letter = later.letter;
      added = later.added ∙ ap (λ js. js ++ later.letter ∷ []) same;
      names = later.names;
    }
