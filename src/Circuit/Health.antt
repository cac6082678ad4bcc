-- ===== src/Circuit/Health.antt =====
-- The part of `CircuitBreaker` that reads and writes the table of app/models/provider.py:
-- `sync_to_db` and `is_provider_available`. Log lines and the texts of refusals are left out, and
-- so is the handler of `sync_to_db` for a database that fails.
use gift_hub.Prelude.{
  ℕ, ◌+◌, String, ◌≡◌, refl, ◌∙◌, Bool, true, false, not, ◌&&◌, Option, none, some, List, [], ◌∷◌,
  arith, leb, eq_iff, if◌then◌else◌,
}
use gift_hub.Prelude.Dict.{Dict, lookup, insert, lookup-insert}
use gift_hub.Circuit.{
  CircuitState, closed, Circuit, Breaker, failure_threshold, get_or_init_state, can_execute,
}

pub data ProviderStatus : Type 0 where
  healthy degraded disabled : ProviderStatus

-- The row of app/models/provider.py; the key of the dict is its `provider_name`.
pub record ProviderHealth : Type 0 where
  pub status : ProviderStatus
  pub circuit_state : CircuitState
  pub failure_count : ℕ
  pub success_count : ℕ
  pub consecutive_failures : ℕ
  pub last_failure_at : Option ℕ
  pub last_success_at : Option ℕ

abbrev pub new_health : ProviderHealth
new_health = record {
  status = healthy;
  circuit_state = closed;
  failure_count = 0;
  success_count = 0;
  consecutive_failures = 0;
  last_failure_at = none;
  last_success_at = none;
}

abbrev pub is_disabled : ProviderStatus → Bool
is_disabled disabled = true
is_disabled _ = false

abbrev or_new : Option ProviderHealth → ProviderHealth
or_new none = new_health
or_new (some ph) = ph

-- The fields that `sync_to_db` writes.
unfoldable pub sync_row : Circuit → Bool → ℕ → ProviderHealth → ProviderHealth
sync_row st true now ph = record ph {
  circuit_state = st.state;
  success_count = ph.success_count + 1;
  consecutive_failures = 0;
  last_success_at = some now;
  status = if is_disabled ph.status then ph.status else healthy;
}
sync_row st false now ph = record ph {
  circuit_state = st.state;
  failure_count = ph.failure_count + 1;
  consecutive_failures = st.consecutive_failures;
  last_failure_at = some now;
  status =
      if leb failure_threshold st.consecutive_failures && not (is_disabled ph.status)
      then degraded
      else ph.status;
}

unfoldable pub sync_to_db :
    String → Bool → ℕ → Breaker → Dict ProviderHealth → Breaker × Dict ProviderHealth
unfolding sync_row get_or_init_state
sync_to_db p is_success now b db =
    let (st, b') = get_or_init_state p b in
    (b', insert p (sync_row st is_success now (or_new (lookup p db))) db)

abbrev row_disabled : Option ProviderHealth → Bool
row_disabled none = false
row_disabled (some ph) = is_disabled ph.status

-- The answer without its text.
unfoldable pub is_provider_available : String → ℕ → Dict ProviderHealth → Breaker → Bool × Breaker
unfolding can_execute
is_provider_available p now db b =
    let call = can_execute p now b in if row_disabled (lookup p db) then (false, b) else call

-- One call of `sync_to_db`.
pub record Sync : Type 0 where
  pub provider : String
  pub is_success : Bool
  pub now : ℕ
  pub breaker : Breaker

pub sync_all : List Sync → Dict ProviderHealth → Dict ProviderHealth
sync_all [] db = db
sync_all (s ∷ ss) db = sync_all ss (sync_to_db s.provider s.is_success s.now s.breaker db).1

sync_row-disabled :
    (c : Circuit) (ok : Bool) (t : ℕ) (ph : ProviderHealth)
    → is_disabled (sync_row c ok t ph).status ≡ is_disabled ph.status
unfolding sync_row
sync_row-disabled c true t ph = ground arith
sync_row-disabled c false t ph = ground arith

sync_to_db-disabled :
    (q : String) (s : Sync) (db : Dict ProviderHealth)
    → row_disabled (lookup q (sync_to_db s.provider s.is_success s.now s.breaker db).1)
      ≡ row_disabled (lookup q db)
unfolding sync_to_db
sync_to_db-disabled q s db =
    let c = (get_or_init_state s.provider s.breaker).0 in
    let row = or_new (lookup s.provider db) in
    ground (
      arith,
      eq_iff s.provider q,
      lookup-insert s.provider q (sync_row c s.is_success s.now row) db,
      sync_row-disabled c s.is_success s.now row,
    )

sync_all-disabled :
    (q : String) (ss : List Sync) (db : Dict ProviderHealth)
    → row_disabled (lookup q (sync_all ss db)) ≡ row_disabled (lookup q db)
unfolding sync_all
sync_all-disabled q [] db = refl
sync_all-disabled q (s ∷ ss) db = sync_all-disabled q ss _ ∙ sync_to_db-disabled q s db

-- A provider that an administrator has disabled stays unavailable whatever successes and failures
-- are recorded in the table afterwards, and an inquiry leaves the circuits as they are.
pub disabled_stays_unavailable :
    (q : String) (ss : List Sync) (db : Dict ProviderHealth) (now : ℕ) (b : Breaker)
    {ph : ProviderHealth}
    → lookup q db ≡ some ph
    → ph.status ≡ disabled
    → is_provider_available q now (sync_all ss db) b ≡ (false, b)
unfolding is_provider_available
disabled_stays_unavailable q ss db now b e d =
    let off : row_disabled (lookup q (sync_all ss db)) ≡ true =
      sync_all-disabled q ss db ∙ ground arith in
    rw off
