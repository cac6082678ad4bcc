-- ===== src/WebAuth.antt =====
-- Who a request comes from: app/web/auth.py, with `get_or_create_user` and `get_user_by_id` of
-- database/queries.py. Of the rows of `users` stand the columns that are read or written here; the
-- timestamps, log lines and texts of errors are left out. A call commits what it writes, so the
-- table is the committed one. Numbers of users are natural, and the values of a user's object are
-- texts or missing.
pub mod Accounts
pub mod Guarded
unfoldable pub use Accounts.*
use Prim.Native.String.{◌++◌ as text_append}
use gift_hub.Prelude.{
  ℕ, suc, ◌==◌, String, Bool, true, false, not, ◌&&◌, ◌||◌, Option, none, some, is_some, List, [],
  ◌∷◌, ◌++◌, str_eq, find, update_rows, if◌then◌else◌,
}
use gift_hub.Prelude.Dict.{Dict, lookup}
use gift_hub.Prelude.Texts.{is_empty, is_digit, int_of, show}
use gift_hub.Orders.{truthy, text_or}
use gift_hub.Security.{
  Settings, Library, Validated, object, fields, is_listed_admin, has_permission,
  validate_telegram_init_data,
}

-- What is read of a validated answer with the key "id"; without an identifier `int` raises.
pub record Claims : Type 0 where
  pub id : Option ℕ
  pub first_name : Option String
  pub last_name : Option String
  pub username : Option String
  pub photo_url : Option String

-- 401, 403, and an exception that is not caught.
pub data Refusal : Type 0 where
  unauthorized forbidden server_error : Refusal

pub data Reply : Type 0 where
  account : Account → Reply
  refuse : Refusal → Reply

abbrev pub Request : Type 0
Request = List Account → Reply × List Account

-- The headers and the query of a request.
pub record Sent : Type 0 where
  pub x_telegram_init_data : Option String
  pub x_auth_user_id : Option String
  pub auth_user_id : Option ℕ

abbrev named : String → Option String → String
named d none = d
named d (some t) = t

abbrev pub profile : String → Claims → Profile
profile default c = record {
  first_name = named default c.first_name;
  last_name = c.last_name;
  username = c.username;
  photo_url = c.photo_url;
  referrer_id = none;
}

-- The row of the user with the identifier that `int` reads.
abbrev pub enter : (Account → Reply) → String → Claims → Option ℕ → Request
enter f default c none accounts = (refuse server_error, accounts)
enter f default c (some i) accounts =
    let (a, rows) = get_or_create_user i (profile default c) accounts in (f a, rows)

abbrev number_of : String → Option ℕ
number_of t = if is_digit t then some (int_of t) else none

abbrev pub in_fields : Dict String → Option String → Option Claims
in_fields d none = none
in_fields d (some i) = some (record {
  id = number_of i;
  first_name = lookup "first_name" d;
  last_name = lookup "last_name" d;
  username = lookup "username" d;
  photo_url = lookup "photo_url" d;
})

abbrev header_uid : Option String → Option ℕ
header_uid none = none
header_uid (some t) = if is_digit t then truthy (some (int_of t)) else none

abbrev first_uid : Option ℕ → Option ℕ → Option ℕ
first_uid none j = j
first_uid (some i) j = some i

abbrev effective_uid : Sent → Option ℕ
effective_uid q = first_uid (truthy q.auth_user_id) (header_uid q.x_auth_user_id)

-- `settings.ENVIRONMENT in ("development", "test")`
abbrev pub is_local : Settings → Bool
is_local st = str_eq st.environment "development" || str_eq st.environment "test"

abbrev guest : String → String → Profile
guest first_name username = record {
  first_name = first_name;
  last_name = none;
  username = some username;
  photo_url = none;
  referrer_id = none;
}

abbrev found_or_created : ℕ → Profile → Request
found_or_created i p accounts =
    let (a, rows) = get_or_create_user i p accounts in
    elim (get_user_by_id i accounts) [ none ↦ (account a, rows) | some b ↦ (account b, accounts) ]

abbrev as_local : Option ℕ → Request
as_local none = found_or_created 999999999 (guest "Mehmon" "mehmon")
as_local (some i) =
    found_or_created i
      (guest (text_append "Foydalanuvchi " (show i)) (text_append "user_" (show i)))

-- `user.role != "user" or user.id in settings.ADMINS`
abbrev pub is_admin : Settings → Account → Bool
is_admin st a = not (str_eq a.role "user") || is_listed_admin st a.id

abbrev pub admit : Settings → Account → Reply
admit st a = if is_admin st a then account a else refuse forbidden

abbrev known_admin : Settings → Option Account → Reply
known_admin st none = refuse forbidden
known_admin st (some a) = admit st a

abbrev pub as_local_admin : Settings → Option ℕ → Request
as_local_admin st none accounts = (refuse forbidden, accounts)
as_local_admin st (some i) accounts = (known_admin st (get_user_by_id i accounts), accounts)

abbrev pub permitted : Settings → String → Reply → Reply
permitted st permission (refuse e) = refuse e
permitted st permission (account a) =
    if has_permission st (some a.role) a.id permission then account a else refuse forbidden

-- `claims` reads an object of json that has the key "id".
module _ {Bytes Json : Type 0} (p : Library Bytes Json) (claims : Json → Option Claims)
    (st : Settings) where
  unfoldable pub claims_of : Validated Json → Option Claims
  claims_of (object user) = claims user
  claims_of (fields d) = in_fields d (lookup "id" d)

  abbrev pub validated_claims : Option (Validated Json) → Option Claims
  validated_claims none = none
  validated_claims (some v) = claims_of v

  -- `validate_init_data`
  unfoldable pub validate_init_data : ℕ → String → Option String → Option (Validated Json)
  validate_init_data now init_data bot_token =
      validate_telegram_init_data p st now init_data (some (text_or st.bot_token bot_token)) none

  -- The user of the header, when it is one of Telegram's.
  abbrev pub tg_user : ℕ → Option String → Option Claims
  tg_user now none = none
  tg_user now (some text) =
      if is_empty text
      then none
      else validated_claims (validate_telegram_init_data p st now text none none)

  abbrev user_or_local : Sent → Option Claims → Request
  user_or_local q (some c) accounts = enter account "Foydalanuvchi" c c.id accounts
  user_or_local q none accounts =
      if is_local st then as_local (effective_uid q) accounts else (refuse unauthorized, accounts)

  unfoldable pub get_current_user : ℕ → Sent → Request
  get_current_user now q = user_or_local q (tg_user now q.x_telegram_init_data)

  abbrev pub admin_or_local : Sent → Option Claims → Request
  admin_or_local q (some c) accounts = enter (admit st) "Admin" c c.id accounts
  admin_or_local q none accounts =
      if is_local st
      then as_local_admin st (effective_uid q) accounts
      else (refuse forbidden, accounts)

  unfoldable pub get_current_admin : ℕ → Sent → Request
  get_current_admin now q = admin_or_local q (tg_user now q.x_telegram_init_data)

  unfoldable pub require_permission : String → ℕ → Sent → Request
  require_permission permission now q accounts =
      let (r, rows) = get_current_admin now q accounts in (permitted st permission r, rows)
