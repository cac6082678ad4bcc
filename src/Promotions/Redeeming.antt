-- ===== src/Promotions/Redeeming.antt =====
-- Calls of `apply_promo_code`: the limits of a code, and what a discount leaves to pay.
use gift_hub.Prelude.{
  ℕ, ◌+◌, ◌*◌, ◌≤◌, ◌==◌, String, ◌≡◌, refl, sym, ap, subst, ◌∙◌, Bool, true, ◌&&◌, ◌||◌, Option,
  none, some, List, [], ◌∷◌, ◌++◌, arith, str_eq, find, All, count_rows, Bool-cases, Option-cases,
  inl, inr,
}
use gift_hub.Prelude.Every.{find-All}
use gift_hub.Prelude.Int.{
  ℤ, pos, ltb_ℤ, ◌≤ℤ◌, ◌+ℤ◌, int_laws, min, max, sub_ℕ, negsuc, neg_part, pos_part,
}
use gift_hub.Prelude.Texts.{strip, upper}
use gift_hub.Decimal.{percent_of, quantize, half_even, ◌*ℤ◌}
use gift_hub.Models.{PromoCode, User, WalletTransaction}
use gift_hub.Session.{Session, Result, ok, err, continue, domain_error}
use gift_hub.Promotions.{
  Redeemed, discounted, bonus, has_code, is_redemption, is_percent, is_fixed, check_promo, redeem,
  apply_promo_code, percent_discount, fixed_discount, new_total, cap,
}
use gift_hub.Promotions.Limits.{
  IsRedeemable, check-IsRedeemable, redeem-IsUsed, redeem_percent, redeem_fixed, redeem_bonus,
  redeem_unknown,
}

count_rows-append :
    {A : Type 0} (p : A → Bool) (xs : List A) (y : A)
    → p y ≡ true
    → count_rows p (xs ++ y ∷ []) ≡ count_rows p xs + 1
count_rows-append p [] y h = rw h refl
count_rows-append p (x ∷ xs) y h = omega (arith, count_rows-append p xs y h)

module _ (now : ℕ) (code : String) (user : ℕ) (total : ℤ) (product : String) (oid : Option ℕ)
    (s : Session) where
  pub apply_missing :
      find (has_code (upper (strip code))) s.db.promo_codes ≡ none
      → apply_promo_code now code user total product oid s
        ≡ (err (domain_error "PROMO_NOT_FOUND"), s)
  unfolding apply_promo_code
  apply_missing h = rw h

  pub apply_found :
      {p : PromoCode}
      → find (has_code (upper (strip code))) s.db.promo_codes ≡ some p
      → apply_promo_code now code user total product oid s
        ≡ continue (check_promo now user total product p s.db) (λ _. redeem now user total oid p) s
  unfolding apply_promo_code
  apply_found h = rw h

  -- A call that went through.
  record IsApplied (x : Redeemed) (s' : Session) : Type 0 where
    promo : PromoCode
    found : find (has_code (upper (strip code))) s.db.promo_codes ≡ some promo
    redeemable : IsRedeemable now user total product promo s.db
    redeemed : redeem now user total oid promo s ≡ (ok x, s')

  found-IsApplied :
      (x : Redeemed) (s' : Session) (p : PromoCode) (r : Result (Unit {0}))
      → find (has_code (upper (strip code))) s.db.promo_codes ≡ some p
      → check_promo now user total product p s.db ≡ r
      → continue r (λ _. redeem now user total oid p) s ≡ (ok x, s')
      → IsApplied x s'
  found-IsApplied x s' p (ok u) h c k = record {
    promo = p;
    found = h;
    redeemable = check-IsRedeemable now user total product p s.db c;
    redeemed = k;
  }
  found-IsApplied x s' p (err e) h c k = cc k

  apply-IsApplied :
      (x : Redeemed) (s' : Session)
      → apply_promo_code now code user total product oid s ≡ (ok x, s')
      → IsApplied x s'
  apply-IsApplied x s' k =
      elim (Option-cases (find (has_code (upper (strip code))) s.db.promo_codes)) [
        | inl h ↦ cc (sym (apply_missing h) ∙ k)
        | inr (p, h) ↦ found-IsApplied x s' p _ h refl (sym (apply_found h) ∙ k)
      ]

same_id : (n : ℕ) → (n == n) ≡ true
same_id n = ground arith

-- A call that redeems a code has found an active code, inside its dates, with a use left, open to
-- the product and to the total; and the user's redemptions, the new one among them, are within the
-- code's limit for one user.
pub redeemed_within_limits :
    (now : ℕ) (code : String) (user : ℕ) (total : ℤ) (product : String) (oid : Option ℕ)
    (s s' : Session) (x : Redeemed)
    → apply_promo_code now code user total product oid s ≡ (ok x, s')
    → (p : PromoCode) × (find (has_code (upper (strip code))) s.db.promo_codes ≡ some p)
      × IsRedeemable now user total product p s.db
      × (count_rows (is_redemption p.id user) s'.db.promo_redemptions
          ≡ count_rows (is_redemption p.id user) s.db.promo_redemptions + 1)
      × (count_rows (is_redemption p.id user) s'.db.promo_redemptions ≤ p.max_uses_per_user)
redeemed_within_limits now code user total product oid s s' x k =
    let a = apply-IsApplied now code user total product oid s x s' k in
    let u = redeem-IsUsed now user total oid a.promo s s' x a.redeemed in
    let test : Bool = (a.promo.id == a.promo.id) && (user == user) in
    let both : test ≡ true = rw (same_id a.promo.id) (same_id user) in
    let e : count_rows (is_redemption a.promo.id user) s'.db.promo_redemptions
        ≡ count_rows (is_redemption a.promo.id user) s.db.promo_redemptions + 1 =
      ap (λ (t : Session). count_rows (is_redemption a.promo.id user) t.db.promo_redemptions)
        u.after
      ∙ count_rows-append (is_redemption a.promo.id user) u.between.db.promo_redemptions _ both
      ∙ ap (λ rs. count_rows (is_redemption a.promo.id user) rs + 1) u.redemptions in
    let left = a.redeemable.user_uses_left in
    (a.promo, a.found, a.redeemable, e, omega (arith, e, left))

-- What is asked of a result: a discount lies between nothing and the total, and it and what is left
-- to pay add up to the total.
abbrev pub IsPriced : ℤ → Redeemed → Type 0
IsPriced total (discounted kind a left) = (pos 0 ≤ℤ a) × (a ≤ℤ total) × (a +ℤ left ≡ total)
IsPriced total (bonus a balance) = Unit

min-laws :
    (a b : ℤ) → (min a b ≤ℤ a) × (min a b ≤ℤ b) × (pos 0 ≤ℤ a → pos 0 ≤ℤ b → pos 0 ≤ℤ min a b)
unfolding min
min-laws a b = (ground arith, ground arith, λ h k. ground arith)

new_total-laws : (t a : ℤ) → a ≤ℤ t → a +ℤ new_total t a ≡ t
unfolding new_total max
new_total-laws t a h = grind int_laws

sub_zero : (n : ℕ) → pos 0 ≤ℤ sub_ℕ n 0
sub_zero n = ground arith

sub-no_less : (a b : ℕ) → b ≡ 0 → neg_part (sub_ℕ a b) ≡ 0
sub-no_less a b h = ground arith

product-positive : (a b : ℤ) → pos 0 ≤ℤ a → pos 0 ≤ℤ b → neg_part (a *ℤ b) ≡ 0
unfolding ◌*ℤ◌
product-positive (pos n) (pos m) h k = sub-no_less (n * m + 0 * 0) (n * 0 + 0 * m) (omega arith)
product-positive (negsuc n) b h k = omega (arith, h)
product-positive (pos n) (negsuc m) h k = omega (arith, k)

quantize-positive : (a : ℤ) → neg_part a ≡ 0 → pos 0 ≤ℤ quantize a 1000000
unfolding quantize half_even
quantize-positive a h =
    subst (λ z. pos 0 ≤ℤ sub_ℕ (100 * half_even (pos_part a) 1000000) (100 * half_even z 1000000))
      (sym h) (sub_zero _)

percent_of-positive : (a b : ℤ) → pos 0 ≤ℤ a → pos 0 ≤ℤ b → pos 0 ≤ℤ percent_of a b
unfolding percent_of
percent_of-positive a b h k = quantize-positive (a *ℤ b) (product-positive a b h k)

-- The amounts of a code that are not negative.
pub record IsProper (p : PromoCode) : Type 0 where
  pub reward : pos 0 ≤ℤ p.reward_value
  pub most : (m : ℤ) → p.max_discount ≡ some m → pos 0 ≤ℤ m

cap-positive :
    (c : Option ℤ) (a : ℤ) → ((m : ℤ) → c ≡ some m → pos 0 ≤ℤ m) → pos 0 ≤ℤ a → pos 0 ≤ℤ cap c a
cap-positive none a h k = k
cap-positive (some m) a h k = elim (Bool-cases (ltb_ℤ m (pos 0) || ltb_ℤ (pos 0) m)) [
  | inl y ↦ rw y ((min-laws a m).2 k (h m refl))
  | inr n ↦ rw n k
]

module _ (p : PromoCode) (proper : IsProper p) (total : ℤ) (owed : pos 0 ≤ℤ total) where
  percent_discount-bounds :
      (pos 0 ≤ℤ percent_discount p total) × (percent_discount p total ≤ℤ total)
  unfolding percent_discount
  percent_discount-bounds =
      let a = cap p.max_discount (percent_of total p.reward_value) in
      let k =
        cap-positive p.max_discount _ proper.most
          (percent_of-positive total p.reward_value owed proper.reward) in
      ((min-laws a total).2 k owed, (min-laws a total).1)

  fixed_discount-bounds : (pos 0 ≤ℤ fixed_discount p total) × (fixed_discount p total ≤ℤ total)
  unfolding fixed_discount
  fixed_discount-bounds = let l = min-laws p.reward_value total in (l.2 proper.reward owed, l.1)

  discounted-IsPriced :
      (kind : String) (a : ℤ)
      → (pos 0 ≤ℤ a) × (a ≤ℤ total)
      → IsPriced total (discounted kind a (new_total total a))
  discounted-IsPriced kind a b = (b.0, b.1, new_total-laws total a b.1)

  same-IsPriced : (a x : Redeemed) → IsPriced total a → ok a ≡ ok x → IsPriced total x
  same-IsPriced a x h e = let e' : a ≡ x = cc e in subst (IsPriced total) e' h

  bonus-IsPriced :
      (t0 : ℤ) (f : Session → Session) (r : Result (User × WalletTransaction)) (t s' : Session)
      (x : Redeemed)
      → continue r (λ y t. (ok (bonus t0 (y.0).balance), f t)) t ≡ (ok x, s')
      → IsPriced total x
  bonus-IsPriced t0 f (err e) t s' x k = cc k
  bonus-IsPriced t0 f (ok y) t s' x k =
      same-IsPriced (bonus t0 (y.0).balance) x tt (ap (λ z. z.0) k)

  redeem-IsPriced :
      (now user : ℕ) (oid : Option ℕ) (s s' : Session) (x : Redeemed)
      → redeem now user total oid p s ≡ (ok x, s')
      → IsPriced total x
  redeem-IsPriced now user oid s s' x h = elim (Bool-cases (is_percent p)) [
    | inl y ↦
        same-IsPriced _ x (discounted-IsPriced "discount_percent" _ percent_discount-bounds)
          (ap (λ z. z.0) (sym (redeem_percent now user total oid p s y) ∙ h))
    | inr n ↦ elim (Bool-cases (is_fixed p)) [
      | inl y ↦
          same-IsPriced _ x (discounted-IsPriced "fixed_discount" _ fixed_discount-bounds)
            (ap (λ z. z.0) (sym (redeem_fixed now user total oid p s n y) ∙ h))
      | inr m ↦ elim (Bool-cases (str_eq p.reward_type "balance_bonus")) [
        | inl y ↦ bonus-IsPriced _ _ _ _ s' x (sym (redeem_bonus now user total oid p s n m y) ∙ h)
        | inr u ↦ cc (sym (redeem_unknown now user total oid p s n m u) ∙ h)
      ]
    ]
  ]

-- A discount of a code whose amounts are not negative, on a total that is not negative, lies between
-- nothing and the total, and with what is left to pay it makes up the total.
discount_within_total :
    (now : ℕ) (code : String) (user : ℕ) (total : ℤ) (product : String) (oid : Option ℕ)
    (s s' : Session) (x : Redeemed)
    → pos 0 ≤ℤ total
    → All IsProper s.db.promo_codes
    → apply_promo_code now code user total product oid s ≡ (ok x, s')
    → IsPriced total x
discount_within_total now code user total product oid s s' x owed proper k =
    let a = apply-IsApplied now code user total product oid s x s' k in
    let p = find-All IsProper (has_code (upper (strip code))) s.db.promo_codes proper a.found in
    redeem-IsPriced a.promo p.0 total owed now user oid s s' x a.redeemed
