-- ===== src/Worker/Outcomes.antt =====
-- How the marks of the worker leave the table of events.
use gift_hub.Prelude.{
  ℕ, suc, ◌+◌, ◌≤◌, ◌<◌, ◌⊎◌, some, map, leb, String, ◌≡◌, refl, ap, Bool, true, List, [], ◌∷◌, All,
  update_rows, Bool-cases, inl, inr, arith,
}
use gift_hub.Prelude.Every.{All-update}
use gift_hub.Outbox.{
  processed, failed, retry, OutboxEvent, has_id, fail_row, lock, backoff_sec, claim_pending_events,
  seconds,
}
use gift_hub.Outbox.Retries.{backoff_sec_bounds}
use gift_hub.Session.{Session}

-- How a worker leaves an event: processed, given up with its retries used up, or waiting for a
-- retry at a later time.
abbrev pub Outcome : ℕ → OutboxEvent → Type 0
Outcome now e =
    (e.status ≡ processed)
    ⊎ ((e.status ≡ failed) × (e.max_retries ≤ e.retry_count))
    ⊎ ((e.status ≡ retry) × (at : ℕ) × (e.next_retry_at ≡ some at) × (now < at))

abbrev pub Open : ℕ → ℕ → OutboxEvent → Type 0
Open now i e = has_id i e ≡ true → Outcome now e

-- The event with the number has such an outcome.
abbrev pub IsSettled : ℕ → ℕ → Session → Type 0
IsSettled now i s = All (Open now i) s.db.outbox_events

pub fail_row-Outcome :
    (now : ℕ) (error : String) (e : OutboxEvent) → Outcome now (fail_row now error e)
unfolding fail_row
fail_row-Outcome now error e =
    let n = e.retry_count + 1 in
    let more : n ≡ suc e.retry_count = omega arith in
    let wait : now < now + seconds (backoff_sec n) =
      rw more (omega (arith, (backoff_sec_bounds e.retry_count).0)) in
    elim (Bool-cases (leb e.max_retries n)) [
      | inl y ↦ rw y (inr (inl (refl, ground arith)))
      | inr m ↦ rw m (inr (inr (refl, _, refl, wait)))
    ]

pub fail_row-id : (now : ℕ) (error : String) (e : OutboxEvent) → (fail_row now error e).id ≡ e.id
unfolding fail_row
fail_row-id now error e = ground arith

-- Marking the event with a number.
module _ (now i : ℕ) (f : OutboxEvent → OutboxEvent) (id_same : (e : OutboxEvent) → (f e).id ≡ e.id)
    (settled : (e : OutboxEvent) → Outcome now (f e)) where
  pub mark-settles : (es : List OutboxEvent) → All (Open now i) (update_rows (has_id i) f es)
  mark-settles [] = tt
  mark-settles (e ∷ es) = elim (Bool-cases (has_id i e)) [
    | inl y ↦ rw y (λ h. settled e, mark-settles es)
    | inr n ↦ rw n (λ h. cc (n, h), mark-settles es)
  ]

  pub mark-keeps :
      (j : ℕ) (es : List OutboxEvent)
      → All (Open now j) es
      → All (Open now j) (update_rows (has_id i) f es)
  mark-keeps j es h =
      All-update (Open now j) (Open now j) (has_id i) f es (λ e o t k. settled e) (λ e o t. o) h

-- The numbers of the events.
abbrev pub ids : List OutboxEvent → List ℕ
ids es = map (λ e. e.id) es

pub ids-update :
    (p : OutboxEvent → Bool) (f : OutboxEvent → OutboxEvent) (es : List OutboxEvent)
    → ((e : OutboxEvent) → (f e).id ≡ e.id)
    → ids (update_rows p f es) ≡ ids es
ids-update p f [] k = refl
ids-update p f (e ∷ es) k =
    let rest = ids-update p f es k in
    elim (Bool-cases (p e)) [
      | inl y ↦ rw y (λ i. k e i ∷ rest i)
      | inr n ↦ rw n (ap (λ r. e.id ∷ r) rest)
    ]

pub claim-ids :
    (now : ℕ) (worker : String) (limit timeout : ℕ) (held : ℕ → Bool) (es : List OutboxEvent)
    → ids (claim_pending_events now worker limit timeout held es).1 ≡ ids es
unfolding claim_pending_events lock
claim-ids now worker limit timeout held es = ids-update _ _ es (λ e. refl)
