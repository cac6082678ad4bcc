-- ===== src/FeatureFlags.antt =====
-- Feature flags: app/services/feature_flags/service.py, over `FeatureFlag` of
-- app/models/feature_flags.py. The cache of the process is in the session's memory. Descriptions,
-- the handler for a database that fails and log lines are left out.
pub mod Seen
use gift_hub.Prelude.{
  ℕ, ◌+◌, String, Bool, true, false, not, ◌||◌, Option, none, some, List, [], ◌∷◌, ◌++◌, str_eq,
  ltb, find, update_rows, if◌then◌else◌,
}
use gift_hub.Prelude.Dict.{Dict, lookup, insert}
use gift_hub.Models.{Db}
use gift_hub.Models.Shop.{FeatureFlag}
use gift_hub.Session.{Session, FlagCache, Exec, ok, pure, gets, modify, ◌>>=◌, ◌>>◌}
use gift_hub.Orders.{Env}

-- `_cache_ttl` in milliseconds.
abbrev pub cache_ttl : ℕ
cache_ttl = 15000

abbrev pub has_name : String → FeatureFlag → Bool
has_name n f = str_eq f.name n

-- The dict that `_refresh_cache` fills, row by row.
unfoldable pub load_flags : List FeatureFlag → Dict Bool → Dict Bool
load_flags [] d = d
load_flags (f ∷ fs) d = load_flags fs (insert f.name f.is_enabled d)

unfoldable pub refresh_cache : ℕ → Session → Session
unfolding load_flags
refresh_cache clock s = record s {
  flag_cache = record { flags = load_flags s.db.feature_flags []; refreshed_at = clock };
}

abbrev is_missing : Option Bool → Bool
is_missing none = true
is_missing (some b) = false

abbrev pub or_default : Bool → Option Bool → Bool
or_default d none = d
or_default d (some b) = b

-- Whether the cache is read again: it is too old, or lacks the name.
unfoldable pub is_stale : ℕ → String → FlagCache → Bool
is_stale clock name c = ltb (c.refreshed_at + cache_ttl) clock || is_missing (lookup name c.flags)

unfoldable pub is_enabled : ℕ → String → Bool → Exec Bool
unfolding refresh_cache is_stale
is_enabled clock name default s =
    let t = if is_stale clock name s.flag_cache then refresh_cache clock s else s in
    (ok (or_default default (lookup name t.flag_cache.flags)), t)

unfoldable pub is_maintenance_mode : ℕ → Exec Bool
unfolding is_enabled
is_maintenance_mode clock = is_enabled clock "maintenance_mode" false

abbrev pub new_flag : ℕ → String → Bool → FeatureFlag
new_flag now name b = record { name = name; is_enabled = b; updated_at = now }

abbrev pub write_flag : ℕ → String → Bool → Option FeatureFlag → List FeatureFlag → List FeatureFlag
write_flag now name b none rows = rows ++ new_flag now name b ∷ []
write_flag now name b (some f) rows =
    update_rows (has_name name) (λ g. record g { is_enabled = b; updated_at = now }) rows

-- `self._cache_ts = 0.0`
abbrev invalidate : Session → Session
invalidate s = record s { flag_cache = record s.flag_cache { refreshed_at = 0 } }

unfoldable pub set_flag : ℕ → String → Bool → Exec (Option FeatureFlag)
set_flag now name b s =
    let rows = write_flag now name b (find (has_name name) s.db.feature_flags) s.db.feature_flags in
    let t = record s { db = record s.db { feature_flags = rows } } in
    (ok (find (has_name name) rows), invalidate t)

abbrev default_flags : List (String × Bool)
default_flags =
    ("maintenance_mode", false)
    ∷ ("store_checkout_enabled", true)
    ∷ ("stars_purchases_enabled", true)
    ∷ ("premium_purchases_enabled", true)
    ∷ ("gifts_purchases_enabled", true)
    ∷ ("promocodes_enabled", true)
    ∷ ("referrals_enabled", true)
    ∷ []

abbrev add_missing : ℕ → String → Bool → Option FeatureFlag → List FeatureFlag → List FeatureFlag
add_missing now name b none rows = rows ++ new_flag now name b ∷ []
add_missing now name b (some f) rows = rows

unfoldable pub seed_flags : ℕ → List (String × Bool) → List FeatureFlag → List FeatureFlag
seed_flags now [] rows = rows
seed_flags now ((name, b) ∷ fs) rows =
    seed_flags now fs (add_missing now name b (find (has_name name) rows) rows)

unfoldable pub ensure_defaults : ℕ → Exec (Unit {0})
unfolding seed_flags
ensure_defaults now =
    modify (λ d. record d { feature_flags = seed_flags now default_flags d.feature_flags })
