-- ===== src/Security.antt =====
-- Who calls: app/core/security.py. The modules hmac, hashlib, json and urllib are parameters; of
-- the settings stand those that are read here. Log lines are left out, and JSON texts that are no
-- object.
pub mod InitData
pub mod Permissions
use Prim.Native.Nat.{Ordering}
use Prim.Native.String.{◌++◌ as text_append, compare}
use gift_hub.Prelude.{
  ℕ, ◌+◌, ◌==◌, String, Bool, true, false, not, ◌&&◌, ◌||◌, Option, none, some, List, [], ◌∷◌, map,
  str_eq, any, ltb, if◌then◌else◌,
}
use gift_hub.Prelude.Dict.{Dict, lookup}
use gift_hub.Prelude.Texts.{is_empty, is_digit, int_of}
use gift_hub.Orders.{truthy, text_or}

-- `settings`
pub record Settings : Type 0 where
  pub environment : String
  pub bot_token : String
  pub admins : List ℕ
  pub init_data_max_age_seconds : ℕ

abbrev pub is_test : Settings → Bool
is_test st = str_eq st.environment "test"

-- `parse_qsl` with `dict`; `encode`; `hmac.new` with SHA-256, its digest and `hexdigest`; `json.loads`
-- with the assignment to a key.
pub record Library (Bytes Json : Type 0) : Type 1 where
  pub parse : String → Dict String
  pub encode : String → Bytes
  pub hmac : Bytes → Bytes → Bytes
  pub hex : Bytes → String
  pub loads : String → Option Json
  pub put : String → Option String → Json → Json

-- The answer: an object, or the fields where no user stands among them.
pub data Validated (Json : Type 0) : Type 0 where
  object : Json → Validated Json
  fields : Dict String → Validated Json

-- `d.pop(k)`
unfoldable pub remove : String → Dict String → Dict String
remove k [] = []
remove k ((j, v) ∷ d) = let rest = remove k d in if str_eq j k then rest else (j, v) ∷ rest

abbrev is_greater : Ordering → Bool
is_greater Ordering.gt = true
is_greater _ = false

unfoldable pub insert_field : String × String → Dict String → Dict String
insert_field x [] = x ∷ []
insert_field x (y ∷ ys) =
    let rest = insert_field x ys in if is_greater (compare x.0 y.0) then y ∷ rest else x ∷ y ∷ ys

-- `sorted(d.items(), key=lambda x: x[0])`
unfoldable pub sort_fields : Dict String → Dict String
sort_fields [] = []
sort_fields (x ∷ xs) = insert_field x (sort_fields xs)

-- `"\n".join`
unfoldable pub join_lines : List String → String
join_lines [] = ""
join_lines (t ∷ []) = t
join_lines (t ∷ u ∷ ts) = text_append t (text_append "\n" (join_lines (u ∷ ts)))

unfoldable pub data_check_string : Dict String → String
data_check_string d = join_lines (map (λ x. text_append x.0 (text_append "=" x.1)) (sort_fields d))

-- The checks of `auth_date`; a text that is not of digits passes in the tests' environment.
abbrev is_recent : ℕ → ℕ → ℕ → Bool
is_recent now max_age auth_date =
    if ltb (now + 300) auth_date then false else not (ltb (auth_date + max_age) now)

unfoldable pub is_fresh : Settings → ℕ → ℕ → Option String → Bool
is_fresh st now max_age none = is_test st
is_fresh st now max_age (some t) =
    if is_digit t then is_recent now max_age (int_of t) else is_test st

abbrev pub number_or : ℕ → Option ℕ → ℕ
number_or d none = d
number_or d (some n) = n

module _ {Bytes Json : Type 0} (p : Library Bytes Json) (st : Settings) where
  -- `calculated_hash`
  unfoldable pub calculated_hash : String → Dict String → String
  calculated_hash token d =
      p.hex
        (p.hmac (p.hmac (p.encode "WebAppData") (p.encode token)) (p.encode (data_check_string d)))

  abbrev pub with_metadata : Dict String → Json → Json
  with_metadata d user =
      p.put "_query_id" (lookup "query_id" d) (p.put "_auth_date" (lookup "auth_date" d) user)

  abbrev loaded : (Json → Json) → Option Json → Option (Validated Json)
  loaded f none = none
  loaded f (some user) = some (object (f user))

  -- `if user_data`
  abbrev user_or_fields : (Json → Json) → Dict String → Option String → Option (Validated Json)
  user_or_fields f d none = some (fields d)
  user_or_fields f d (some t) = if is_empty t then some (fields d) else loaded f (p.loads t)

  unfoldable pub compare_hash : String → String → Dict String → Option (Validated Json)
  compare_hash token received d =
      if str_eq (calculated_hash token d) received
      then user_or_fields (with_metadata d) d (lookup "user" d)
      else if is_test st && str_eq received "valid_test_hash"
      then user_or_fields (λ user. user) d (lookup "user" d)
      else none

  abbrev pub check_hash : ℕ → String → ℕ → Dict String → Option String → Option (Validated Json)
  check_hash now token max_age parsed none = none
  check_hash now token max_age parsed (some received) =
      let d = remove "hash" parsed in
      if is_fresh st now max_age (lookup "auth_date" d) then compare_hash token received d else none

  -- The instant in seconds.
  unfoldable pub validate_telegram_init_data :
      ℕ → String → Option String → Option ℕ → Option (Validated Json)
  validate_telegram_init_data now init_data bot_token max_age_seconds =
      let parsed = p.parse init_data in
      if is_empty init_data
      then none
      else check_hash now (text_or st.bot_token bot_token)
          (number_or st.init_data_max_age_seconds (truthy max_age_seconds)) parsed
          (lookup "hash" parsed)

-- ROLE_PERMISSIONS
unfoldable pub role_permissions : Dict (List String)
role_permissions =
    (
      "super_admin",
      "users.read" ∷ "orders.read" ∷ "orders.update" ∷ "orders.refund" ∷ "pricing.read"
          ∷ "pricing.update" ∷ "payments.read" ∷ "broadcast.create" ∷ "broadcast.send"
          ∷ "support.read" ∷ "support.reply" ∷ "analytics.read" ∷ "admins.read" ∷ "admins.manage"
          ∷ "settings.read" ∷ "settings.update" ∷ [],
    )
    ∷ ("price_admin", "pricing.read" ∷ "pricing.update" ∷ "orders.read" ∷ "analytics.read" ∷ [])
    ∷ (
      "support_admin",
      "support.read" ∷ "support.reply" ∷ "orders.read" ∷ "orders.update" ∷ "users.read" ∷ [],
    )
    ∷ (
      "marketing_admin",
      "broadcast.create" ∷ "broadcast.send" ∷ "analytics.read" ∷ "pricing.read" ∷ "users.read" ∷ [],
    )
    ∷ ("user", [])
    ∷ []

abbrev pub set_has : String → Option (List String) → Bool
set_has permission none = false
set_has permission (some ps) = any (λ q. str_eq q permission) ps

abbrev role_has : String → Option String → Bool
role_has permission none = false
role_has permission (some role) =
    if str_eq role "super_admin"
    then true
    else if is_empty role
    then false
    else set_has permission (lookup role role_permissions)

abbrev pub is_listed_admin : Settings → ℕ → Bool
is_listed_admin st user_id = any (λ i. i == user_id) st.admins

unfoldable pub has_permission : Settings → Option String → ℕ → String → Bool
has_permission st role user_id permission = is_listed_admin st user_id || role_has permission role
