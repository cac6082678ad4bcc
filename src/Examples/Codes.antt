-- ===== src/Examples/Codes.antt =====
-- The theorems on promo codes and price locks at concrete inputs.
use gift_hub.Prelude.{
  ◌+◌, ◌≤◌, ◌≡◌, refl, subst, true, false, some, [], ◌∷◌, arith, find, count_rows,
}
use gift_hub.Prelude.Int.{ℤ, pos, ◌-ℤ◌, ◌≤ℤ◌, min, max}
use gift_hub.Prelude.Texts.{lower, upper, strip, split_commas}
use gift_hub.Decimal.{percent_of, quantize, half_even, ◌*ℤ◌}
use gift_hub.Models.{PromoCode, PriceLock}
use gift_hub.Session.{Session, ok}
use gift_hub.Promotions.{
  discounted, has_code, is_redemption, not_started, has_expired, product_excluded, check_promo,
  redeem, percent_discount, new_total, apply_promo_code,
}
use gift_hub.Promotions.Limits.{IsRedeemable}
use gift_hub.Promotions.Redeeming.{IsProper, redeemed_within_limits}
use gift_hub.Promotions.Capped.{AreCapped, uses_capped}
use gift_hub.Pricing.{validate_or_consume_price_lock}
use gift_hub.Examples.{shop, start}

-- Ten percent, at most two sums, twice in all and once for each user.
abbrev spring : PromoCode
spring = record {
  id = 1;
  code = "SPRING";
  reward_type = "percent";
  reward_value = pos 1000;
  max_discount = some (pos 200);
  min_order_amount = pos 100;
  max_uses = 2;
  current_uses = 1;
  max_uses_per_user = 1;
  applicable_products = "Stars, premium";
  is_active = true;
  starts_at = some 10;
  expires_at = some 9000;
}

abbrev sale : Session
sale = record start { db = record shop { promo_codes = spring ∷ [] } }

abbrev after_sale : Session
after_sale = (apply_promo_code 5000 " spring " 7 (pos 5000) "stars" (some 3) sale).1

redeeming :
    apply_promo_code 5000 " spring " 7 (pos 5000) "stars" (some 3) sale
    ≡ (ok (discounted "discount_percent" (pos 200) (pos 4800)), after_sale)
unfolding apply_promo_code check_promo not_started has_expired product_excluded lower upper strip
    split_commas redeem percent_discount new_total percent_of quantize half_even ◌*ℤ◌ ◌-ℤ◌ min max
redeeming = refl

spring_code : upper (strip " spring ") ≡ "SPRING"
unfolding upper strip
spring_code = refl

redeemed_within_limits_example :
    (p : PromoCode) × (find (has_code (upper (strip " spring "))) sale.db.promo_codes ≡ some p)
    × IsRedeemable 5000 7 (pos 5000) "stars" p sale.db
    × (count_rows (is_redemption p.id 7) after_sale.db.promo_redemptions
        ≡ count_rows (is_redemption p.id 7) sale.db.promo_redemptions + 1)
    × (count_rows (is_redemption p.id 7) after_sale.db.promo_redemptions ≤ p.max_uses_per_user)
redeemed_within_limits_example =
    redeemed_within_limits 5000 " spring " 7 (pos 5000) "stars" (some 3) sale after_sale
      (discounted "discount_percent" (pos 200) (pos 4800)) redeeming

uses_capped_example :
    AreCapped (apply_promo_code 5000 " spring " 7 (pos 5000) "stars" (some 3) sale).1
uses_capped_example =
    uses_capped 5000 " spring " 7 (pos 5000) "stars" (some 3) sale ((omega arith, tt), tt)

spring_most : (m : ℤ) → some (pos 200) ≡ some m → pos 0 ≤ℤ m
spring_most m e = let e' : pos 200 ≡ m = cc e in subst (λ z. pos 0 ≤ℤ z) e' (omega arith)

spring-IsProper : IsProper spring
spring-IsProper = record { reward = omega arith; most = spring_most }

abbrev locked_price : PriceLock
locked_price = record {
  id = "pl_1";
  product_type = "stars";
  amount = pos 50;
  unit_price = pos 10;
  total_price = pos 500;
  cost_price = pos 400;
  is_used = false;
  expires_at = 6000;
}

abbrev quoted : Session
quoted = record start { db = record shop { price_locks = locked_price ∷ [] } }

abbrev after_taking : Session
after_taking = (validate_or_consume_price_lock 5000 "pl_1" "stars" (pos 50) quoted).1
