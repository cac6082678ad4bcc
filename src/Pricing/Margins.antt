-- ===== src/Pricing/Margins.antt =====
-- Prices of stars against their cost.
use native.Mathlib.Nat.{le_trans, mul-le-mul_left, mul-le-mul_right}
use gift_hub.Prelude.{
  ℕ, suc, ◌+◌, ◌-◌, ◌*◌, ◌≤◌, ◌<◌, ◌≡◌, refl, subst, false, Option, none, some, arith,
}
use gift_hub.Prelude.Int.{ℤ, pos, negsuc, leb_ℤ, ◌≤ℤ◌, ◌<ℤ◌, ◌+ℤ◌, ◌-ℤ◌, min, max}
use gift_hub.Decimal.{◌*ℤ◌, half_up}
use gift_hub.Models.Shop.{Tier, PricingSetting}
use gift_hub.Session.{ok}
use gift_hub.Pricing.Prices.{
  unit_cost, effective_margin, applied_discount, minimum_margin_of, maximum_discount_of, capped,
  discounted_total, setting, minimum_price_of, round_money, at_least, stars_price, Price,
  calculate_stars_price,
}

half_up_mono : (n m : ℕ) → n ≤ m → half_up n 10000000000 ≤ half_up m 10000000000
unfolding half_up
half_up_mono n m h = ground arith

half_up_scale : (n : ℕ) → half_up (n * 100000000) 10000000000 ≡ half_up n 100
unfolding half_up
half_up_scale n = ground arith

positive_pos : (x : ℤ) → pos 0 <ℤ x → (c : ℕ) × (x ≡ pos c)
positive_pos (pos n) h = (n, refl)
positive_pos (negsuc n) h = (0, ground arith)

unit_cost-pos : (p : Option PricingSetting) → (c : ℕ) × (unit_cost p ≡ pos c)
unfolding unit_cost
unit_cost-pos none = (17646, refl)
unit_cost-pos (some p) = positive_pos (unit_cost (some p)) (ground arith)

min-right : (a b : ℤ) → min a b ≤ℤ b
unfolding min
min-right a b = ground arith

max-right : (a b : ℤ) → b ≤ℤ max a b
unfolding max
max-right a b = ground arith

capped-below : (cap : ℤ) (t : Option Tier) → pos 0 ≤ℤ cap → capped cap t ≤ℤ cap
capped-below cap none h = h
capped-below cap (some t) h = min-right t.discount_pct cap

effective_margin-above : (p : Option PricingSetting) → minimum_margin_of p ≤ℤ effective_margin p
unfolding effective_margin
effective_margin-above p =
    max-right (setting (λ q. q.margin_percent) (pos 1500) p) (minimum_margin_of p)

applied_discount-below :
    (amount : ℤ) (p : Option PricingSetting)
    → pos 0 ≤ℤ maximum_discount_of p
    → applied_discount amount p ≤ℤ maximum_discount_of p
unfolding applied_discount
applied_discount-below amount p h = capped-below (maximum_discount_of p) _ h

*ℤ_pos : (a b : ℕ) → pos a *ℤ pos b ≡ pos (a * b)
unfolding ◌*ℤ◌
*ℤ_pos a b = ground arith

margin_factor :
    (m : ℕ) (x : ℤ) → pos m ≤ℤ x → (e : ℕ) × ((pos 10000 +ℤ x ≡ pos e) × (10000 + m ≤ e))
unfolding ◌+ℤ◌
margin_factor m (pos n) h = (10000 + n, (ground arith, omega (arith, h)))
margin_factor m (negsuc n) h = (0, (ground arith, omega (arith, h)))

discount_factor :
    (d : ℕ) (x : ℤ)
    → d ≤ 10000
    → x ≤ℤ pos d
    → (e : ℕ) × ((pos 10000 -ℤ x ≡ pos e) × (10000 - d ≤ e))
unfolding ◌-ℤ◌
discount_factor d (pos n) k h = (10000 - n, (ground arith, omega (arith, h, k)))
discount_factor d (negsuc n) k h = (10000 + suc n, (ground arith, omega (arith, h, k)))

product_mono : (a b e d : ℕ) → a ≤ e → b ≤ d → a * b ≤ e * d
product_mono a b e d h k = le_trans (mul-le-mul_right b h) (mul-le-mul_left e k)

total_pos : (v : ℕ) → round_money 10000000000 (pos v) ≡ pos (100 * half_up v 10000000000)
unfolding round_money half_up
total_pos v = ground arith

cost_pos : (v : ℕ) → round_money 100 (pos v) ≡ pos (100 * half_up v 100)
unfolding round_money half_up
cost_pos v = ground arith

at_least-above : (m a t : ℤ) → t ≤ℤ at_least m a t
at_least-above m a t = ground arith

rounded_below :
    (n v : ℕ) → n * 100000000 ≤ v → round_money 100 (pos n) ≤ℤ round_money 10000000000 (pos v)
rounded_below n v h =
    rw (cost_pos n, total_pos v) (omega (arith, half_up_mono (n * 100000000) v h, half_up_scale n))

covers : (c a e f : ℕ) → 100000000 ≤ e * f → c * a * 100000000 ≤ c * e * a * f
covers c a e f h = omega (arith, mul-le-mul_left (c * a) h)

discounted_total-covers :
    (amount m d : ℕ) (p : Option PricingSetting)
    → minimum_margin_of p ≡ pos m
    → maximum_discount_of p ≡ pos d
    → d ≤ 10000
    → 100000000 ≤ (10000 + m) * (10000 - d)
    → round_money 100 (unit_cost p *ℤ pos amount) ≤ℤ discounted_total (pos amount) p
unfolding discounted_total
discounted_total-covers amount m d p min_is max_is small enough =
    let (c, c_is) = unit_cost-pos p in
    let above : pos m ≤ℤ effective_margin p =
      subst (λ x. x ≤ℤ effective_margin p) min_is (effective_margin-above p) in
    let below : applied_discount (pos amount) p ≤ℤ pos d =
      subst (λ x. applied_discount (pos amount) p ≤ℤ x) max_is
        (applied_discount-below (pos amount) p (rw max_is (omega arith))) in
    let (e, (e_is, e_large)) = margin_factor m (effective_margin p) above in
    let (f, (f_is, f_large)) = discount_factor d (applied_discount (pos amount) p) small below in
    let large = le_trans enough (product_mono (10000 + m) (10000 - d) e f e_large f_large) in
    rw
      (
        c_is,
        *ℤ_pos c amount,
        e_is,
        *ℤ_pos c e,
        *ℤ_pos (c * e) amount,
        f_is,
        *ℤ_pos (c * e * amount) f,
      )
      (rounded_below (c * amount) (c * e * amount * f) (covers c amount e f large))

leb_ℤ_positive : (a : ℕ) → 0 < a → leb_ℤ (pos a) (pos 0) ≡ false
leb_ℤ_positive a h = ground arith

-- When the minimal margin and the maximal discount of the settings balance, (100 % + margin) times
-- (100 % - discount) being at least 100 %, every positive number of stars has a price, and it is
-- never below the cost of the stars, whatever the other settings and the tiers are.
pub stars_cover_cost :
    (amount m d : ℕ) (p : Option PricingSetting)
    → 0 < amount
    → minimum_margin_of p ≡ pos m
    → maximum_discount_of p ≡ pos d
    → d ≤ 10000
    → 100000000 ≤ (10000 + m) * (10000 - d)
    → (price : Price) × ((calculate_stars_price (pos amount) p ≡ ok price)
        × (price.cost ≤ℤ price.total))
unfolding calculate_stars_price
stars_cover_cost amount m d p some_stars min_is max_is small enough =
    let t = discounted_total (pos amount) p in
    let covered = discounted_total-covers amount m d p min_is max_is small enough in
    let kept = at_least-above (minimum_price_of p) (pos amount) t in
    (
      stars_price (pos amount) p,
      (rw (leb_ℤ_positive amount some_stars), omega (arith, covered, kept)),
    )
