-- ===== src/Examples/Callers.antt =====
-- The theorems on callers at concrete inputs.
use Prim.Native.String.{◌++◌ as text_append}
use gift_hub.Prelude.{String, none, some, [], ◌∷◌, str_eq, if◌then◌else◌}
use gift_hub.Security.{Settings, Library}
use gift_hub.WebAuth.{Account, Claims, Sent}

abbrev settings : Settings
settings = record {
  environment = "production";
  bot_token = "token";
  admins = 7 ∷ [];
  init_data_max_age_seconds = 86400;
}

abbrev caller : Claims
caller = record {
  id = some 7;
  first_name = some "Ali";
  last_name = none;
  username = none;
  photo_url = none;
}

-- A stand-in for the libraries: texts for bytes, and one text of a header that is understood.
abbrev library : Library String Claims
library = record {
  parse = λ t.
      if str_eq t "signed"
      then ("user", "ali")
        ∷ ("hash", "WebAppDatatokenauth_date=1000\nuser=ali")
        ∷ ("auth_date", "1000")
        ∷ []
      else [];
  encode = λ t. t;
  hmac = text_append;
  hex = λ t. t;
  loads = λ t. if str_eq t "ali" then some caller else none;
  put = λ k v c. c;
}

abbrev sent : Sent
sent = record { x_telegram_init_data = some "signed"; x_auth_user_id = none; auth_user_id = none }

abbrev ali : Account
ali = record {
  id = 7;
  first_name = "Ali";
  last_name = some "";
  username = none;
  photo_url = none;
  referrer_id = none;
  referrals_count = 0;
  role = "user";
}
