-- ===== src/Worker/DeadLetters.antt =====
-- Dead letters that an administrator sends back to the worker.
use gift_hub.Prelude.{
  ℕ, ◌+◌, ◌≡◌, refl, ap, sym, ◌∙◌, subst, Bool, true, false, some, List, All, length, length-update,
  update_rows, arith, Bool-cases, inl, inr, [], ◌∷◌,
}
use gift_hub.Dlq
use gift_hub.Dlq.{FailedJob, DlqStatus, exhausted}
use gift_hub.Session.{Session, Result, ok, continue, modify, pure}
use gift_hub.Orders.{truthy}
use gift_hub.Fulfillment.{Answer, manual_review, catching, fulfill_order_automated}
use gift_hub.Fulfillment.OverLimit.{IsSpent, over_limit-step}
use gift_hub.Worker.{Tools, retry_job, give_back, error_of}

abbrev pub is_exhausted : DlqStatus → Bool
is_exhausted exhausted = true
is_exhausted _ = false

abbrev Sent : ℕ → FailedJob → Type 0
Sent i j = Dlq.has_id i j ≡ true → is_exhausted j.status ≡ true

Sent-update :
    (i : ℕ) (f : FailedJob → FailedJob) (js : List FailedJob)
    → ((j : FailedJob) → is_exhausted (f j).status ≡ true)
    → All (Sent i) (update_rows (Dlq.has_id i) f js)
Sent-update i f [] e = tt
Sent-update i f (j ∷ js) e = elim (Bool-cases (Dlq.has_id i j)) [
  | inl y ↦ rw y (λ h. e j, Sent-update i f js e)
  | inr n ↦ rw n (λ h. ground arith, Sent-update i f js e)
]

-- The session after the answer of a spent order.
abbrev sent_back : FailedJob → Session → Session
sent_back job s = record s {
  db = record s.db {
    failed_jobs =
        update_rows (Dlq.has_id job.id)
          (λ j. record j {
            status = exhausted;
            error_message = error_of "Retry failed" manual_review;
          })
          s.db.failed_jobs;
  };
}

retried :
    (t : Tools) (job : FailedJob) (i : ℕ) (s : Session)
    → job.job_type ≡ "fulfillment"
    → truthy job.order_id ≡ some i
    → (fulfill_order_automated t.client t.call i s).0 ≡ ok manual_review
    → (retry_job t job s).1 ≡ sent_back job (fulfill_order_automated t.client t.call i s).1
unfolding retry_job
retried t job i s kind order e =
    let q = fulfill_order_automated t.client t.call i s in
    let after = λ (r : Result Answer).
      let c = continue r (λ res. modify (give_back t.call job res)) q.1 in
      (catching c.0 (λ x. pure tt) c.1).1 in
    rw kind (rw order (ap after e))

-- Sending back the dead letter of a delivery is in vain when the order is neither fulfilled nor
-- completed, its three attempts are spent and the circuit is closed: whatever the client would do,
-- the letter is exhausted again, one more letter is added, and all of that still holds of the order
-- and the circuit.
pub retry_in_vain :
    (t : Tools) (job : FailedJob) (i k : ℕ) (s : Session)
    → job.job_type ≡ "fulfillment"
    → truthy job.order_id ≡ some i
    → IsSpent i k s
    → let s' = (retry_job t job s).1 in
      IsSpent i k s'
      × (length s'.db.failed_jobs ≡ length s.db.failed_jobs + 1)
      × All (λ j. Dlq.has_id job.id j ≡ true → is_exhausted j.status ≡ true) s'.db.failed_jobs
retry_in_vain t job i k s kind order w =
    let r = over_limit-step t.client i k t.call s w in
    let q = (fulfill_order_automated t.client t.call i s).1 in
    let e = sym (retried t job i s kind order r.0) in
    subst
      (λ s'.
        IsSpent i k s'
        × (length s'.db.failed_jobs ≡ length s.db.failed_jobs + 1)
        × All (Sent job.id) s'.db.failed_jobs)
      e
      (
        record {
          row = r.2.row;
          found = r.2.found;
          spent = r.2.spent;
          undelivered = r.2.undelivered;
          passing = r.2.passing;
        },
        length-update (Dlq.has_id job.id) _ q.db.failed_jobs ∙ r.3,
        Sent-update job.id _ q.db.failed_jobs (λ j. refl),
      )
