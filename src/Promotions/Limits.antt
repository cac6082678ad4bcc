-- ===== src/Promotions/Limits.antt =====
-- What the guards of a promo code let through.
use gift_hub.Prelude.{
  ℕ, ◌<◌, String, ◌≡◌, refl, sym, ap, subst, ◌∙◌, Bool, true, false, not, ◌||◌, Option, none, arith,
  str_eq, leb, count_rows, Bool-cases, inl, inr,
}
use gift_hub.Prelude.Int.{ℤ, ltb_ℤ, ◌≤ℤ◌}
use gift_hub.Models.{Db, PromoCode, User, WalletTransaction}
use gift_hub.Session.{
  passed, Session, Result, ok, err, continue, domain_error, promo_code_limit_reached,
  promo_code_already_used,
}
use gift_hub.Wallet.{credit_balance}
use gift_hub.Wallet.Success.{credit-IsCredited}
use gift_hub.Promotions.{
  Redeemed, discounted, bonus, is_redemption, is_percent, is_fixed, not_started, has_expired,
  product_excluded, check_promo, record_use, redeem, percent_discount, fixed_discount, new_total,
  bonus_entry,
}

-- What a code must be for a redemption.
pub record IsRedeemable (now user : ℕ) (total : ℤ) (product : String) (p : PromoCode) (d : Db)
    : Type 0 where
  pub active : p.is_active ≡ true
  pub started : not_started now p.starts_at ≡ false
  pub running : has_expired now p.expires_at ≡ false
  pub uses_left : p.current_uses < p.max_uses
  pub product_included : product_excluded p.applicable_products product ≡ false
  pub user_uses_left :
      count_rows (is_redemption p.id user) d.promo_redemptions < p.max_uses_per_user
  pub large_enough : p.min_order_amount ≤ℤ total

true_of_not : (b : Bool) → not b ≡ false → b ≡ true
true_of_not true h = refl
true_of_not false h = cc h

neither : (a b : Bool) → (a || b) ≡ false → (a ≡ false) × (b ≡ false)
neither true b h = cc h
neither false b h = (refl, h)

pub check-IsRedeemable :
    (now user : ℕ) (total : ℤ) (product : String) (p : PromoCode) (d : Db)
    → check_promo now user total product p d ≡ ok tt
    → IsRedeemable now user total product p d
unfolding check_promo
check-IsRedeemable now user total product p d h =
    let g1 = passed _ _ _ h in
    let g2 = passed _ _ _ g1.1 in
    let g3 = passed (leb p.max_uses p.current_uses) promo_code_limit_reached _ g2.1 in
    let g4 = passed _ (domain_error "PROMO_PRODUCT_MISMATCH") _ g3.1 in
    let g5 =
      passed (leb p.max_uses_per_user (count_rows (is_redemption p.id user) d.promo_redemptions))
        promo_code_already_used _ g4.1 in
    let g6 =
      passed (ltb_ℤ total p.min_order_amount) (domain_error "MIN_ORDER_NOT_MET") (ok (tt {0}))
        g5.1 in
    let n = neither _ _ g2.0 in
    let h3 = g3.0 in
    let h5 = g5.0 in
    let h6 = g6.0 in
    record {
      active = true_of_not _ g1.0;
      started = n.0;
      running = n.1;
      uses_left = ground (arith, h3);
      product_included = g4.0;
      user_uses_left = ground (arith, h5);
      large_enough = ground (arith, h6);
    }

module _ (now user : ℕ) (total : ℤ) (oid : Option ℕ) (p : PromoCode) (s : Session) where
  -- A redemption that went through: the use is recorded, on top of the credit of a bonus.
  pub record IsUsed (s' : Session) : Type 0 where
    pub between : Session
    pub order : Option ℕ
    pub benefit : ℤ
    pub codes : between.db.promo_codes ≡ s.db.promo_codes
    pub redemptions : between.db.promo_redemptions ≡ s.db.promo_redemptions
    pub after : s' ≡ record between { db = record_use now user order benefit p between.db }

  -- The session with a discount's use recorded.
  unfoldable pub used : ℤ → Session
  used a = record s { db = record_use now user oid a p s.db }

  unfoldable pub used_bonus : Session → Session
  used_bonus t = record t { db = record_use now user none p.reward_value p t.db }

  pub redeem_percent :
      is_percent p ≡ true
      → let a = percent_discount p total in
        redeem now user total oid p s
        ≡ (ok (discounted "discount_percent" a (new_total total a)), used a)
  unfolding redeem used
  redeem_percent h = rw h

  module _ (other : is_percent p ≡ false) where
    pub redeem_fixed :
        is_fixed p ≡ true
        → let a = fixed_discount p total in
          redeem now user total oid p s
          ≡ (ok (discounted "fixed_discount" a (new_total total a)), used a)
    unfolding redeem used
    redeem_fixed h = rw other (rw h)

    module _ (no_discount : is_fixed p ≡ false) where
      pub redeem_bonus :
          str_eq p.reward_type "balance_bonus" ≡ true
          → let r = credit_balance user p.reward_value (bonus_entry p) s in
            redeem now user total oid p s
            ≡ continue r.0 (λ x t. (ok (bonus p.reward_value (x.0).balance), used_bonus t)) r.1
      unfolding redeem used_bonus
      redeem_bonus h = rw other (rw no_discount (rw h))

      pub redeem_unknown :
          str_eq p.reward_type "balance_bonus" ≡ false
          → redeem now user total oid p s ≡ (err (domain_error "ERROR"), s)
      unfolding redeem
      redeem_unknown h = rw other (rw no_discount (rw h))

-- What of the tables of promo codes a credit leaves alone.
credit-keeps :
    (user : ℕ) (a : ℤ) (p : PromoCode) (s s' : Session) (x : User × WalletTransaction)
    → credit_balance user a (bonus_entry p) s ≡ (ok x, s')
    → (s'.db.promo_codes ≡ s.db.promo_codes) × (s'.db.promo_redemptions ≡ s.db.promo_redemptions)
credit-keeps user a p s s' x h =
    let c = credit-IsCredited user a (bonus_entry p) s s' x h in
    (
      ap (λ (t : Session). t.db.promo_codes) c.after,
      ap (λ (t : Session). t.db.promo_redemptions) c.after,
    )

module _ (now user : ℕ) (total : ℤ) (oid : Option ℕ) (p : PromoCode) (s : Session) where
  used-IsUsed : (a : ℤ) → IsUsed now user total oid p s (used now user total oid p s a)
  unfolding used
  used-IsUsed a = record {
    between = s;
    order = oid;
    benefit = a;
    codes = refl;
    redemptions = refl;
    after = refl;
  }

  bonus-IsUsed :
      (r : Result (User × WalletTransaction)) (t s' : Session) (x : Redeemed)
      → credit_balance user p.reward_value (bonus_entry p) s ≡ (r, t)
      → continue r
          (λ y t. (ok (bonus p.reward_value (y.0).balance), used_bonus now user total oid p s t))
          t
        ≡ (ok x, s')
      → IsUsed now user total oid p s s'
  unfolding used_bonus
  bonus-IsUsed (err e) t s' x h k = cc k
  bonus-IsUsed (ok y) t s' x h k =
      let c = credit-keeps user p.reward_value p s t y h in
      record {
        between = t;
        order = none;
        benefit = p.reward_value;
        codes = c.0;
        redemptions = c.1;
        after = ap (λ z. z.1) (sym k);
      }

  pub redeem-IsUsed :
      (s' : Session) (x : Redeemed)
      → redeem now user total oid p s ≡ (ok x, s')
      → IsUsed now user total oid p s s'
  redeem-IsUsed s' x h = elim (Bool-cases (is_percent p)) [
    | inl y ↦
        subst (IsUsed now user total oid p s)
          (ap (λ z. z.1) (sym (redeem_percent now user total oid p s y) ∙ h))
          (used-IsUsed (percent_discount p total))
    | inr n ↦ elim (Bool-cases (is_fixed p)) [
      | inl y ↦
          subst (IsUsed now user total oid p s)
            (ap (λ z. z.1) (sym (redeem_fixed now user total oid p s n y) ∙ h))
            (used-IsUsed (fixed_discount p total))
      | inr m ↦ elim (Bool-cases (str_eq p.reward_type "balance_bonus")) [
        | inl y ↦ bonus-IsUsed _ _ s' x refl (sym (redeem_bonus now user total oid p s n m y) ∙ h)
        | inr u ↦ cc (sym (redeem_unknown now user total oid p s n m u) ∙ h)
      ]
    ]
  ]
