-- ===== src/Circuit/Invariant.antt =====
-- What holds of every entry of the circuit breaker between two calls.
use gift_hub.Prelude.{ℕ, ◌<◌, String, ◌≡◌, ◌↔◌, List, [], ◌∷◌, some, arith, Option-cases, inl, inr}
use gift_hub.Prelude.Dict.{lookup, insert, lookup-insert}
use gift_hub.Circuit.{
  closed, Circuit, Breaker, failure_threshold, initial, get_or_init_state, get_state, permit,
  can_execute, succeed, record_success, fail, record_failure,
}

-- An entry is closed exactly while fewer failures than the threshold have been seen in a row.
pub record IsConsistent (c : Circuit) : Type 0 where
  pub few : c.state ≡ closed → c.consecutive_failures < failure_threshold
  pub many : c.consecutive_failures < failure_threshold → c.state ≡ closed

pub initial-IsConsistent : IsConsistent initial
initial-IsConsistent = ground arith

pub permit-IsConsistent :
    (now : ℕ) (c : Circuit) → IsConsistent c → IsConsistent (permit c.state now c).1
unfolding permit
permit-IsConsistent now c h = ground arith

pub succeed-IsConsistent : (c : Circuit) → IsConsistent (succeed c)
unfolding succeed
succeed-IsConsistent c = ground arith

pub fail-IsConsistent : (now : ℕ) (c : Circuit) → IsConsistent c → IsConsistent (fail now c)
unfolding fail
fail-IsConsistent now c h = ground arith

-- Every entry of the dict is consistent.
pub record IsValid (b : Breaker) : Type 0 where
  pub at_key : (p : String) (c : Circuit) → lookup p b ≡ some c → IsConsistent c

insert-IsValid :
    (p : String) (c : Circuit) (b : Breaker) → IsConsistent c → IsValid b → IsValid (insert p c b)
insert-IsValid p c b h v = record {
  at_key = λ q x e. ground (arith, lookup-insert p q c b, v.at_key q x);
}

pub get_or_init_state-IsValid :
    (p : String) (b : Breaker)
    → IsValid b
    → IsConsistent (get_or_init_state p b).0 × IsValid (get_or_init_state p b).1
unfolding get_or_init_state
get_or_init_state-IsValid p b v = elim (Option-cases (lookup p b)) [
  | inl e ↦ rw e (initial-IsConsistent, insert-IsValid p initial b initial-IsConsistent v)
  | inr (c, e) ↦ rw e (v.at_key p c e, v)
]

-- The calls that change the dict.
pub data Call : Type 0 where
  state_read success : String → Call
  ask failure : String → ℕ → Call

unfoldable pub apply : Breaker → Call → Breaker
apply b (Call.state_read p) = (get_state p b).1
apply b (Call.success p) = record_success p b
apply b (Call.ask p now) = (can_execute p now b).1
apply b (Call.failure p now) = record_failure p now b

unfoldable pub run : Breaker → List Call → Breaker
run b [] = b
run b (c ∷ cs) = run (apply b c) cs

apply-IsValid : (b : Breaker) (c : Call) → IsValid b → IsValid (apply b c)
unfolding apply get_state record_success record_failure can_execute
apply-IsValid b (Call.state_read p) v = (get_or_init_state-IsValid p b v).1
apply-IsValid b (Call.success p) v =
    let g = get_or_init_state p b in
    insert-IsValid p (succeed g.0) g.1 (succeed-IsConsistent g.0)
      (get_or_init_state-IsValid p b v).1
apply-IsValid b (Call.ask p now) v =
    let g = get_or_init_state p b in
    let h = get_or_init_state-IsValid p b v in
    insert-IsValid p (permit g.0.state now g.0).1 g.1 (permit-IsConsistent now g.0 h.0) h.1
apply-IsValid b (Call.failure p now) v =
    let g = get_or_init_state p b in
    let h = get_or_init_state-IsValid p b v in
    insert-IsValid p (fail now g.0) g.1 (fail-IsConsistent now g.0 h.0) h.1

run-IsValid : (b : Breaker) (calls : List Call) → IsValid b → IsValid (run b calls)
unfolding run
run-IsValid b [] v = v
run-IsValid b (c ∷ cs) v = run-IsValid (apply b c) cs (apply-IsValid b c v)

empty-IsValid : IsValid []
unfolding lookup
empty-IsValid = record { at_key = λ p c e. ground arith }

-- After any calls for any providers at any times, a provider's circuit is closed exactly while
-- fewer than five failures in a row are counted for it.
pub closed_exactly :
    (calls : List Call) (p : String)
    → let c = (get_or_init_state p (run [] calls)).0 in
      (c.state ≡ closed) ↔ (c.consecutive_failures < failure_threshold)
closed_exactly calls p =
    let h = (get_or_init_state-IsValid p (run [] calls) (run-IsValid [] calls empty-IsValid)).0 in
    (h.few, h.many)
