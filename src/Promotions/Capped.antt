-- ===== src/Promotions/Capped.antt =====
-- The uses of promo codes along calls of `apply_promo_code`.
use gift_hub.Prelude.{
  ℕ, ◌≤◌, ◌<◌, ◌==◌, String, ◌≡◌, refl, sym, ap, subst, Option, none, arith, str_eq, find, All,
  Bool-cases, Option-cases, inl, inr,
}
use gift_hub.Prelude.Every.{All-update}
use gift_hub.Prelude.Int.{ℤ}
use gift_hub.Prelude.Texts.{strip, upper}
use gift_hub.Models.{PromoCode, User, WalletTransaction}
use gift_hub.Session.{Session, Result, ok, err, continue}
use gift_hub.Wallet.{credit_balance}
use gift_hub.Wallet.Outcomes.{credit-Outcome}
use gift_hub.Promotions.{
  bonus, has_code, is_percent, is_fixed, check_promo, record_use, redeem, apply_promo_code,
  percent_discount, fixed_discount, bonus_entry,
}
use gift_hub.Promotions.Limits.{
  check-IsRedeemable, redeem_percent, redeem_fixed, redeem_bonus, redeem_unknown, used, used_bonus,
}
use gift_hub.Promotions.Redeeming.{apply_missing, apply_found}

-- A code within its number of uses, and all codes, as seen and as committed.
abbrev pub IsCapped : PromoCode → Type 0
IsCapped p = p.current_uses ≤ p.max_uses

abbrev pub AreCapped : Session → Type 0
AreCapped s = All IsCapped s.db.promo_codes × All IsCapped s.saved.promo_codes

module _ (now user : ℕ) (total : ℤ) (oid : Option ℕ) (p : PromoCode) (s : Session)
    (capped : AreCapped s) (left : p.current_uses < p.max_uses) where
  recorded-AreCapped :
      (o : Option ℕ) (a : ℤ) (t : Session)
      → AreCapped t
      → AreCapped (record t { db = record_use now user o a p t.db })
  recorded-AreCapped o a t h = (
    All-update IsCapped IsCapped (λ (q : PromoCode). q.id == p.id) _ t.db.promo_codes
        (λ q k e. omega (arith, left)) (λ q k e. k) h.0,
    h.1,
  )

  credited-AreCapped : AreCapped (credit_balance user p.reward_value (bonus_entry p) s).1
  credited-AreCapped = elim (credit-Outcome user p.reward_value (bonus_entry p) s) [
    | inl e ↦ subst AreCapped (sym e) capped
    | inr (inl e) ↦ subst AreCapped (sym e) (capped.1, capped.1)
    | inr (inr (t, method, e)) ↦ subst AreCapped (sym e) capped
  ]

  bonus-AreCapped :
      (r : Result (User × WalletTransaction)) (t : Session)
      → AreCapped t
      → AreCapped
          (continue r
            (λ y t. (ok (bonus p.reward_value (y.0).balance), used_bonus now user total oid p s t))
            t).1
  unfolding used_bonus
  bonus-AreCapped (ok y) t h = recorded-AreCapped none p.reward_value t h
  bonus-AreCapped (err e) t h = h

  used-AreCapped : (a : ℤ) → AreCapped (used now user total oid p s a)
  unfolding used
  used-AreCapped a = recorded-AreCapped oid a s capped

  redeem-AreCapped : AreCapped (redeem now user total oid p s).1
  redeem-AreCapped = elim (Bool-cases (is_percent p)) [
    | inl y ↦
        subst AreCapped (ap (λ z. z.1) (sym (redeem_percent now user total oid p s y)))
          (used-AreCapped (percent_discount p total))
    | inr n ↦ elim (Bool-cases (is_fixed p)) [
      | inl y ↦
          subst AreCapped (ap (λ z. z.1) (sym (redeem_fixed now user total oid p s n y)))
            (used-AreCapped (fixed_discount p total))
      | inr m ↦ elim (Bool-cases (str_eq p.reward_type "balance_bonus")) [
        | inl y ↦
            subst AreCapped (ap (λ z. z.1) (sym (redeem_bonus now user total oid p s n m y)))
              (bonus-AreCapped _ _ credited-AreCapped)
        | inr u ↦
            subst AreCapped (ap (λ z. z.1) (sym (redeem_unknown now user total oid p s n m u)))
              capped
      ]
    ]
  ]

checked-AreCapped :
    (now user : ℕ) (total : ℤ) (product : String) (oid : Option ℕ) (p : PromoCode) (s : Session)
    (r : Result (Unit {0}))
    → AreCapped s
    → check_promo now user total product p s.db ≡ r
    → AreCapped (continue r (λ _. redeem now user total oid p) s).1
checked-AreCapped now user total product oid p s (ok u) capped c =
    redeem-AreCapped now user total oid p s capped
      ((check-IsRedeemable now user total product p s.db c).uses_left)
checked-AreCapped now user total product oid p s (err e) capped c = capped

-- Every call of `apply_promo_code`, whether it redeems a code, raises or is rolled back, leaves each
-- code with at most as many uses as its limit, if that held before, in the session and as committed.
pub uses_capped :
    (now : ℕ) (code : String) (user : ℕ) (total : ℤ) (product : String) (oid : Option ℕ)
    (s : Session)
    → AreCapped s
    → AreCapped (apply_promo_code now code user total product oid s).1
uses_capped now code user total product oid s capped =
    elim (Option-cases (find (has_code (upper (strip code))) s.db.promo_codes)) [
      | inl h ↦
          subst AreCapped (ap (λ z. z.1) (sym (apply_missing now code user total product oid s h)))
            capped
      | inr (p, h) ↦
          subst AreCapped (ap (λ z. z.1) (sym (apply_found now code user total product oid s h)))
            (checked-AreCapped now user total product oid p s _ capped refl)
    ]
