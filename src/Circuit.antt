-- ===== src/Circuit.antt =====
-- The circuit breaker of the payment and delivery providers: the class `CircuitBreaker` of
-- app/services/providers/circuit_breaker.py. Its dict of states and the table of
-- `ProviderHealth` (app/models/provider.py) are dicts by provider name; the clock's reading is an
-- argument, in milliseconds.
pub mod Invariant
pub mod Permits
pub mod Health
use gift_hub.Prelude.{
  ℕ, ◌+◌, String, Bool, true, false, Option, none, some, ltb, leb, if◌then◌else◌,
}
use gift_hub.Prelude.Dict.{Dict, lookup, insert}

pub data CircuitState : Type 0 where
  closed opened half_open : CircuitState

-- One entry of `_states`.
pub record Circuit : Type 0 where
  pub state : CircuitState
  pub consecutive_failures : ℕ
  pub last_failure_ts : ℕ
  pub last_probe_ts : ℕ

abbrev pub Breaker : Type 0
Breaker = Dict Circuit

abbrev pub failure_threshold : ℕ
failure_threshold = 5

abbrev pub cooldown : ℕ
cooldown = 60000

abbrev pub probe_interval : ℕ
probe_interval = 5000

abbrev pub initial : Circuit
initial = record {
  state = closed;
  consecutive_failures = 0;
  last_failure_ts = 0;
  last_probe_ts = 0;
}

abbrev or_initial : String → Breaker → Option Circuit → Circuit × Breaker
or_initial p b none = (initial, insert p initial b)
or_initial p b (some c) = (c, b)

-- A missing entry is stored before it is returned.
unfoldable pub get_or_init_state : String → Breaker → Circuit × Breaker
get_or_init_state p b = or_initial p b (lookup p b)

unfoldable pub get_state : String → Breaker → CircuitState × Breaker
unfolding get_or_init_state
get_state p b = let (c, b') = get_or_init_state p b in (c.state, b')

-- The branches of `can_execute`, on the state that was read.
unfoldable pub permit : CircuitState → ℕ → Circuit → Bool × Circuit
permit closed now c = (true, c)
permit opened now c =
    if leb (c.last_failure_ts + cooldown) now
    then (true, record c { state = half_open; last_probe_ts = now })
    else (false, c)
permit half_open now c =
    if ltb (c.last_probe_ts + probe_interval) now
    then (true, record c { last_probe_ts = now })
    else (false, c)

unfoldable pub can_execute : String → ℕ → Breaker → Bool × Breaker
unfolding permit get_or_init_state
can_execute p now b =
    let (c, b') = get_or_init_state p b in
    let (allowed, c') = permit c.state now c in (allowed, insert p c' b')

-- `record_success` on the entry.
unfoldable pub succeed : Circuit → Circuit
succeed c = record c { state = closed; consecutive_failures = 0 }

unfoldable pub record_success : String → Breaker → Breaker
unfolding get_or_init_state succeed
record_success p b = let (c, b') = get_or_init_state p b in insert p (succeed c) b'

-- `record_failure` on the entry.
unfoldable pub fail : ℕ → Circuit → Circuit
fail now c =
    let n = c.consecutive_failures + 1 in
    record c {
      state = if leb failure_threshold n then opened else c.state;
      consecutive_failures = n;
      last_failure_ts = now;
    }

unfoldable pub record_failure : String → ℕ → Breaker → Breaker
unfolding get_or_init_state fail
record_failure p now b = let (c, b') = get_or_init_state p b in insert p (fail now c) b'
