-- ===== src/Security/InitData.antt =====
-- What is accepted as coming from Telegram.
use gift_hub.Prelude.{
  ℕ, ◌+◌, ◌≤◌, String, ◌≡◌, refl, sym, ap, ◌∙◌, Bool-cases, inl, inr, true, false, Option, none,
  some, eq_iff, arith,
}
use gift_hub.Prelude.Dict.{Dict, lookup}
use gift_hub.Prelude.Texts.{is_empty, is_digit, int_of}
use gift_hub.Orders.{truthy, text_or}
use gift_hub.Security.{
  Settings, Library, Validated, is_test, remove, is_fresh, calculated_hash, compare_hash,
  check_hash, number_or, validate_telegram_init_data,
}

-- The date lies at most `max_age` seconds back and 300 ahead.
pub record IsRecent (now max_age : ℕ) (auth_date : Option String) : Type 0 where
  pub text : String
  pub given : auth_date ≡ some text
  pub digits : is_digit text ≡ true
  pub not_old : now ≤ int_of text + max_age
  pub not_ahead : int_of text ≤ now + 300

fresh-IsRecent :
    (st : Settings) (now max_age : ℕ) (d : Option String)
    → is_test st ≡ false
    → is_fresh st now max_age d ≡ true
    → IsRecent now max_age d
unfolding is_fresh
fresh-IsRecent st now max_age none live h = cc (live, h)
fresh-IsRecent st now max_age (some t) live h = record {
  text = t;
  given = refl;
  digits = ground arith;
  not_old = ground arith;
  not_ahead = ground arith;
}

module _ {Bytes Json : Type 0} (p : Library Bytes Json) (st : Settings) where
  -- The fields of a text without their hash.
  abbrev pub signed_fields : String → Dict String
  signed_fields text = remove "hash" (p.parse text)

  -- The text carries the hash that the owner of the token computes of the other fields, and a
  -- recent date.
  pub record IsSigned (now max_age : ℕ) (token text : String) : Type 0 where
    pub some_text : is_empty text ≡ false
    pub hash : lookup "hash" (p.parse text) ≡ some (calculated_hash p st token (signed_fields text))
    pub recent : IsRecent now max_age (lookup "auth_date" (signed_fields text))

module _ {Bytes Json : Type 0} (p : Library Bytes Json) (st : Settings)
    (live : is_test st ≡ false) where
  compared :
      (token received : String) (d : Dict String) (v : Validated Json)
      → compare_hash p st token received d ≡ some v
      → calculated_hash p st token d ≡ received
  unfolding compare_hash
  compared token received d v h =
      ground (arith, live, eq_iff (calculated_hash p st token d) received)

  checked :
      (now max_age : ℕ) (token text : String) (h : Option String) (v : Validated Json)
      → is_empty text ≡ false
      → lookup "hash" (p.parse text) ≡ h
      → check_hash p st now token max_age (p.parse text) h ≡ some v
      → IsSigned p st now max_age token text
  checked now max_age token text none v nonempty same e = cc e
  checked now max_age token text (some received) v nonempty same e =
      let d = signed_fields p st text in
      let fresh : is_fresh st now max_age (lookup "auth_date" d) ≡ true =
        elim (Bool-cases (is_fresh st now max_age (lookup "auth_date" d))) [
          | inl y ↦ y
          | inr n ↦ let a : none ≡ some v = rw n at e in cc a
        ] in
      record {
        some_text = nonempty;
        hash = same ∙ ap some (sym (compared token received d v (rw fresh at e)));
        recent = fresh-IsRecent st now max_age (lookup "auth_date" d) live fresh;
      }

  -- Outside the tests' environment, what is accepted is a text whose hash is the one that the
  -- owner of the token computes of its other fields, with a date at most the allowed age back and
  -- at most five minutes ahead.
  pub validate-IsSigned :
      (now : ℕ) (text : String) (bot_token : Option String) (max_age_seconds : Option ℕ)
      (v : Validated Json)
      → validate_telegram_init_data p st now text bot_token max_age_seconds ≡ some v
      → IsSigned p st now
          (number_or st.init_data_max_age_seconds (truthy max_age_seconds))
          (text_or st.bot_token bot_token)
          text
  unfolding validate_telegram_init_data
  validate-IsSigned now text bot_token max_age_seconds v h = elim (Bool-cases (is_empty text)) [
    | inl y ↦ let a : none ≡ some v = rw y at h in cc a
    | inr n ↦ checked now _ _ text _ v n refl (rw n at h)
  ]
