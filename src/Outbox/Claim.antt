-- ===== src/Outbox/Claim.antt =====
-- What `claim_pending_events` of the outbox gives to a worker.
use gift_hub.Prelude.{
  ℕ, suc, ◌+◌, ◌≤◌, ◌<◌, ◌==◌, String, ◌≡◌, refl, ap, ◌∙◌, Bool, true, false, not, ◌&&◌, some, List,
  [], ◌∷◌, map, arith, length, length-take, any, update_rows, All, Bool-cases, inl, inr, leb,
  if◌then◌else◌,
}
use gift_hub.Prelude.Every.{All-where, All-take, All-where_test, All-imp, All-both, All-map}
use gift_hub.Outbox.{
  processing, OutboxEvent, is_claimable, insert_by_created, sort_by_created, has_id, lock,
  select_claimable, chosen_in, claim_pending_events,
}

module _ (P : OutboxEvent → Type 0) where
  All-insert :
      (e : OutboxEvent) (es : List OutboxEvent) → P e → All P es → All P (insert_by_created e es)
  unfolding insert_by_created
  All-insert e [] h k = (h, tt)
  All-insert e (f ∷ fs) h k = elim (Bool-cases (leb e.created_at f.created_at)) [
    | inl t ↦ rw t (h, k)
    | inr t ↦ rw t (k.0, All-insert e fs h k.1)
  ]

  All-sort : (es : List OutboxEvent) → All P es → All P (sort_by_created es)
  unfolding sort_by_created
  All-sort [] h = tt
  All-sort (e ∷ es) h = All-insert e (sort_by_created es) h.0 (All-sort es h.1)

  All-select :
      (limit timeout : ℕ) (held : ℕ → Bool) (now : ℕ) (es : List OutboxEvent)
      → All P es
      → All P (select_claimable limit timeout held now es)
  unfolding select_claimable
  All-select limit timeout held now es h = All-take P limit _ (All-sort _ (All-where P _ es h))

-- An event that may be claimed at `now`, and that no other transaction holds.
abbrev pub IsFree : ℕ → (ℕ → Bool) → ℕ → OutboxEvent → Type 0
IsFree timeout held now e = (is_claimable timeout now e ≡ true) × (held e.id ≡ false)

pub select-IsFree :
    (limit timeout : ℕ) (held : ℕ → Bool) (now : ℕ) (es : List OutboxEvent)
    → All (IsFree timeout held now) (select_claimable limit timeout held now es)
unfolding select_claimable
select-IsFree limit timeout held now es = All-take _ limit _ (
    All-sort _ _ (
      All-imp _ _ _ (λ e h. ground arith)
        (All-where_test (λ e. is_claimable timeout now e && not (held e.id)) es)))

length-map : (f : OutboxEvent → OutboxEvent) (es : List OutboxEvent) → length (map f es) ≡ length es
length-map f [] = refl
length-map f (e ∷ es) = ap suc (length-map f es)

-- A worker is never given more events than it asked for.
pub length-claim :
    (now : ℕ) (worker : String) (limit timeout : ℕ) (held : ℕ → Bool) (es : List OutboxEvent)
    → length (claim_pending_events now worker limit timeout held es).0 ≤ limit
unfolding claim_pending_events
length-claim now worker limit timeout held es =
    unfold select_claimable in rw length-map (length-take limit _)

any-map :
    (i now : ℕ) (worker : String) (es : List OutboxEvent)
    → any (has_id i) (map (lock now worker) es) ≡ any (has_id i) es
unfolding lock
any-map i now worker [] = refl
any-map i now worker (e ∷ es) = ap (λ r. if e.id == i then true else r) (any-map i now worker es)

-- A row that was claimed at `now`.
abbrev IsLocked : List OutboxEvent → ℕ → OutboxEvent → Type 0
IsLocked chosen now e =
    chosen_in chosen e ≡ true → (e.status ≡ processing) × (e.locked_at ≡ some now)

All-IsLocked :
    (chosen es : List OutboxEvent) (now : ℕ) (worker : String)
    → All (IsLocked chosen now) (update_rows (chosen_in chosen) (lock now worker) es)
unfolding lock
All-IsLocked chosen [] now worker = tt
All-IsLocked chosen (e ∷ es) now worker = elim (Bool-cases (chosen_in chosen e)) [
  | inl t ↦ rw t ((λ _. (refl, refl)), All-IsLocked chosen es now worker)
  | inr t ↦ rw t ((λ c. ground arith), All-IsLocked chosen es now worker)
]

locked-not_claimable :
    (chosen : List OutboxEvent) (now now' timeout : ℕ) (held : ℕ → Bool) (e : OutboxEvent)
    → now' < now + timeout
    → IsLocked chosen now e × IsFree timeout held now' e
    → chosen_in chosen e ≡ false
unfolding is_claimable
locked-not_claimable chosen now now' timeout held e early h =
    elim (Bool-cases (chosen_in chosen e)) [ inl t ↦ let k = h.0 t in ground arith | inr t ↦ t ]

-- Two claims, by any two workers, of which the later one comes before the lock's timeout has
-- passed since the first: no event is given to both, whatever rows other transactions hold.
pub claims_disjoint :
    (now now' : ℕ) (worker worker' : String) (limit limit' timeout : ℕ) (held held' : ℕ → Bool)
    (es : List OutboxEvent)
    → now' < now + timeout
    → let (mine, es') = claim_pending_events now worker limit timeout held es in
      let (theirs, _) = claim_pending_events now' worker' limit' timeout held' es' in
      All (λ e. any (has_id e.id) mine ≡ false) theirs
unfolding claim_pending_events
claims_disjoint now now' worker worker' limit limit' timeout held held' es early =
    let chosen = select_claimable limit timeout held now es in
    let es' = update_rows (chosen_in chosen) (lock now worker) es in
    All-map _ (lock now' worker') (select_claimable limit' timeout held' now' es') (
      All-imp _ _ _
        (λ e h.
          unfold lock in
          any-map e.id now worker chosen
          ∙ locked-not_claimable chosen now now' timeout held' e early h)
        (All-both _ _ _
          (All-select _ limit' timeout held' now' es' (All-IsLocked chosen es now worker))
          (select-IsFree limit' timeout held' now' es')))
