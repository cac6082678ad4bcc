-- ===== src/Circuit/Permits.antt =====
-- Calls that ask the circuit breaker for a provider, and the calls of several providers.
use gift_hub.Prelude.{
  ℕ, ◌+◌, ◌≤◌, ◌<◌, String, ◌≡◌, ◌≢◌, refl, ap, ◌∙◌, Bool, true, false, List, [], ◌∷◌, arith,
  eq_iff, ltb, if◌then◌else◌, length, All,
}
use gift_hub.Prelude.Dict.{lookup, insert, lookup-insert, str_eq_refl}
use gift_hub.Circuit.{
  CircuitState, closed, opened, half_open, Circuit, Breaker, failure_threshold, cooldown,
  probe_interval, get_or_init_state, get_state, permit, can_execute, succeed, record_success, fail,
  record_failure, initial,
}
use gift_hub.Circuit.Invariant.{Call, apply}

-- The entry that a later call of the same provider reads.
pub get_or_init_state-insert :
    (p : String) (c : Circuit) (b : Breaker)
    → get_or_init_state p (insert p c b) ≡ (c, insert p c b)
unfolding get_or_init_state
get_or_init_state-insert p c b = rw (lookup-insert p p c b) (rw (str_eq_refl p))

get_state-insert :
    (p : String) (c : Circuit) (b : Breaker) → (get_state p (insert p c b)).0 ≡ c.state
unfolding get_state
get_state-insert p c b = ap (λ g. g.0.state) (get_or_init_state-insert p c b)

record_failure-insert :
    (p : String) (t : ℕ) (c : Circuit) (b : Breaker)
    → record_failure p t (insert p c b) ≡ insert p (fail t c) (insert p c b)
unfolding record_failure
record_failure-insert p t c b = ap (λ g. insert p (fail t g.0) g.1) (get_or_init_state-insert p c b)

can_execute-insert :
    (p : String) (t : ℕ) (c : Circuit) (b : Breaker)
    → can_execute p t (insert p c b)
      ≡ ((permit c.state t c).0, insert p (permit c.state t c).1 (insert p c b))
unfolding can_execute
can_execute-insert p t c b =
    ap (λ g. ((permit g.0.state t g.0).0, insert p (permit g.0.state t g.0).1 g.1))
      (get_or_init_state-insert p c b)

-- The failures of one provider, at the given times.
fail_at : String → List ℕ → Breaker → Breaker
fail_at p [] b = b
fail_at p (t ∷ ts) b = fail_at p ts (record_failure p t b)

-- The state that `n` failures in a row lead to.
abbrev after_failures : ℕ → CircuitState
after_failures n = if ltb n failure_threshold then closed else opened

fail-after :
    (t : ℕ) (c : Circuit)
    → c.state ≡ after_failures c.consecutive_failures
    → (fail t c).state ≡ after_failures (fail t c).consecutive_failures
unfolding fail
fail-after t c h = ground arith

fail_at-insert :
    (p : String) (ts : List ℕ) (c : Circuit) (b : Breaker)
    → c.state ≡ after_failures c.consecutive_failures
    → (get_state p (fail_at p ts (insert p c b))).0
      ≡ after_failures (c.consecutive_failures + length ts)
unfolding fail_at
fail_at-insert p [] c b h = get_state-insert p c b ∙ h ∙ ap after_failures (omega arith)
fail_at-insert p (t ∷ ts) c b h = rw (record_failure-insert p t c b) (
    fail_at-insert p ts (fail t c) (insert p c b) (fail-after t c h)
    ∙ ap after_failures (unfold fail in omega arith))

-- After a success, a provider's circuit stays closed for four failures in a row, at any times, and
-- is open from the fifth on.
trips_at_threshold :
    (p : String) (ts : List ℕ) (b : Breaker)
    → (get_state p (fail_at p ts (record_success p b))).0
      ≡ (if ltb (length ts) failure_threshold then closed else opened)
unfolding record_success
trips_at_threshold p ts b =
    let g = get_or_init_state p b in
    fail_at-insert p ts (succeed g.0) g.1 (unfold succeed in refl)
    ∙ ap after_failures (unfold succeed in omega arith)

-- The answers to calls that ask for one provider, at the given times.
pub asks : String → List ℕ → Breaker → List Bool
asks p [] b = []
asks p (t ∷ ts) b = let (r, b') = can_execute p t b in r ∷ asks p ts b'

abbrev pub Refused : Bool → Type 0
Refused r = r ≡ false

-- A time before `cooldown` has passed since `t`.
abbrev pub BeforeCooldown : ℕ → ℕ → Type 0
BeforeCooldown t now = now < t + cooldown

asks-opened :
    (p : String) (c : Circuit) (b : Breaker) (ts : List ℕ)
    → c.state ≡ opened
    → All (BeforeCooldown c.last_failure_ts) ts
    → All Refused (asks p ts (insert p c b))
unfolding asks
asks-opened p c b [] h early = tt
asks-opened p c b (t ∷ ts) h early =
    let e : permit c.state t c ≡ (false, c) = rw h (unfold permit in ground arith) in
    rw (can_execute-insert p t c b) (rw e (refl, asks-opened p c (insert p c b) ts h early.1))

-- The failure that opens a circuit, or any later one, refuses every call until `cooldown` has
-- passed since it, however many are made.
cooldown_refuses :
    (p : String) (t : ℕ) (b : Breaker) (ts : List ℕ)
    → failure_threshold ≤ (get_or_init_state p b).0.consecutive_failures + 1
    → All (BeforeCooldown t) ts
    → All Refused (asks p ts (record_failure p t b))
unfolding record_failure
cooldown_refuses p t b ts h early =
    let g = get_or_init_state p b in
    asks-opened p (fail t g.0) g.1 ts (unfold fail in ground arith) (unfold fail in early)

-- A time within `probe_interval` of `t`.
abbrev pub WithinProbe : ℕ → ℕ → Type 0
WithinProbe t now = now ≤ t + probe_interval

asks-half_open :
    (p : String) (c : Circuit) (b : Breaker) (ts : List ℕ)
    → c.state ≡ half_open
    → All (WithinProbe c.last_probe_ts) ts
    → All Refused (asks p ts (insert p c b))
unfolding asks
asks-half_open p c b [] h early = tt
asks-half_open p c b (t ∷ ts) h early =
    let e : permit c.state t c ≡ (false, c) = rw h (unfold permit in ground arith) in
    rw (can_execute-insert p t c b) (rw e (refl, asks-half_open p c (insert p c b) ts h early.1))

permit-half_open :
    (t : ℕ) (c : Circuit)
    → c.state ≢ closed
    → (permit c.state t c).0 ≡ true
    → ((permit c.state t c).1.state ≡ half_open) × ((permit c.state t c).1.last_probe_ts ≡ t)
unfolding permit
permit-half_open t c h e = ground arith

-- A circuit that is not closed and lets a call through at `t` lets through no other one for the
-- five seconds that follow.
pub one_probe :
    (p : String) (t : ℕ) (b : Breaker) (ts : List ℕ)
    → (get_or_init_state p b).0.state ≢ closed
    → (can_execute p t b).0 ≡ true
    → All (WithinProbe t) ts
    → All Refused (asks p ts (can_execute p t b).1)
unfolding can_execute
one_probe p t b ts h e early =
    let g = get_or_init_state p b in
    let q = permit-half_open t g.0 h e in
    asks-half_open p (permit g.0.state t g.0).1 g.1 ts q.0 (rw q.1 early)

abbrev pub provider_of : Call → String
provider_of (Call.state_read p) = p
provider_of (Call.success p) = p
provider_of (Call.ask p _) = p
provider_of (Call.failure p _) = p

get_or_init_state-other :
    (p q : String) (b : Breaker) → p ≢ q → lookup q (get_or_init_state p b).1 ≡ lookup q b
unfolding get_or_init_state
get_or_init_state-other p q b h = ground (arith, lookup-insert p q (initial) b, eq_iff p q)

insert-other :
    (p q : String) (c : Circuit) (b : Breaker) → p ≢ q → lookup q (insert p c b) ≡ lookup q b
insert-other p q c b h = ground (arith, lookup-insert p q c b, eq_iff p q)

-- A call for one provider leaves the entries of all other providers as they were.
pub apply-other :
    (q : String) (c : Call) (b : Breaker) → provider_of c ≢ q → lookup q (apply b c) ≡ lookup q b
unfolding apply get_state record_success record_failure can_execute
apply-other q (Call.state_read p) b h = get_or_init_state-other p q b h
apply-other q (Call.success p) b h =
    let g = get_or_init_state p b in
    insert-other p q (succeed g.0) g.1 h ∙ get_or_init_state-other p q b h
apply-other q (Call.ask p t) b h =
    let g = get_or_init_state p b in
    insert-other p q (permit g.0.state t g.0).1 g.1 h ∙ get_or_init_state-other p q b h
apply-other q (Call.failure p t) b h =
    let g = get_or_init_state p b in
    insert-other p q (fail t g.0) g.1 h ∙ get_or_init_state-other p q b h
