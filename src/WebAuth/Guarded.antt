-- ===== src/WebAuth/Guarded.antt =====
-- What a request that is let through has shown.
use gift_hub.Prelude.{ℕ, String, ◌≡◌, false, Option, none, some, List}
use gift_hub.Security.{Settings, Library, Validated, validate_telegram_init_data}
use gift_hub.Security.InitData.{IsSigned}
use gift_hub.WebAuth.{
  Account, Claims, account, refuse, Sent, is_local, forbidden, claims_of, admin_or_local,
}

module _ {Bytes Json : Type 0} (p : Library Bytes Json) (claims : Json → Option Claims)
    (st : Settings) where
  -- The header is signed with the token of the bot, recent, and of the user with the number.
  pub record IsFrom (now : ℕ) (header : Option String) (i : ℕ) : Type 0 where
    pub text : String
    pub sent : header ≡ some text
    pub signed : IsSigned p st now st.init_data_max_age_seconds st.bot_token text
    pub answer : Validated Json
    pub accepted : validate_telegram_init_data p st now text none none ≡ some answer
    pub claim : Claims
    pub claimed : claims_of p claims st answer ≡ some claim
    pub user : claim.id ≡ some i

  -- Outside development and tests.
  module _ (remote : is_local st ≡ false) where
    module _ (q : Sent) (accounts : List Account) (a : Account) where
      refused : {X : Type 0} → (admin_or_local p claims st q none accounts).0 ≡ account a → X
      refused h = let e : refuse forbidden ≡ account a = rw remote at h in cc e
