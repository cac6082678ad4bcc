-- ===== src/Examples/Shopping.antt =====
-- The theorems on feature flags and prices at concrete inputs.
use gift_hub.Prelude.{◌≡◌, refl, none, some, List, [], ◌∷◌, arith}
use gift_hub.Prelude.Int.{pos, ◌≤ℤ◌}
use gift_hub.Prelude.Texts.{lower}
use gift_hub.Models.Shop.{Tier, PricingSetting, absent, malformed, parsed}
use gift_hub.Session.{Session, ok}
use gift_hub.Pricing.{validate_or_consume_price_lock, use_lock}
use gift_hub.Pricing.Prices.{
  Price, calculate_stars_price, stars_price, get_authoritative_price, new_lock, create_price_lock,
  first_tier,
}
use gift_hub.Pricing.Tiers.{better, best_tier, first_tier-best_tier}
use gift_hub.Pricing.Margins.{stars_cover_cost}
use gift_hub.Pricing.Kept.{lock_keeps_price}
use gift_hub.Examples.{shop, start}

abbrev tiers : List Tier
tiers =
    record { min_amount = pos 100; discount_pct = pos 200 }
    ∷ record { min_amount = pos 1000; discount_pct = pos 700 }
    ∷ record { min_amount = pos 500; discount_pct = pos 500 }
    ∷ record { min_amount = pos 500; discount_pct = pos 400 }
    ∷ []

first_tier-best_tier_example : first_tier (pos 700) tiers ≡ best_tier (pos 700) tiers
first_tier-best_tier_example = first_tier-best_tier (pos 700) tiers

-- A tier that applies to 700 stars: five percent.
five_percent :
    best_tier (pos 700) tiers ≡ some (record { min_amount = pos 500; discount_pct = pos 500 })
unfolding best_tier better
five_percent = refl

-- A minimal margin of 25 % and a maximal discount of 20 % balance.
abbrev settings : PricingSetting
settings = record {
  star_unit_price_uzs = some (pos 20000);
  margin_percent = some (pos 1000);
  minimum_margin = some (pos 2500);
  maximum_discount = some (pos 2000);
  minimum_price = none;
  stars_discounts_json = parsed (record { min_amount = pos 1; discount_pct = pos 9000 } ∷ []);
  premium_prices_json = absent;
  gifts_json = malformed;
}

stars_cover_cost_example :
    (price : Price) × ((calculate_stars_price (pos 50) (some settings) ≡ ok price)
      × (price.cost ≤ℤ price.total))
stars_cover_cost_example =
    stars_cover_cost 50 2500 2000 (some settings) (omega arith) refl refl (omega arith)
      (omega arith)

abbrev fifty : Price
fifty = stars_price (pos 50) (some settings)

abbrev priced : Session
priced = record start { db = record shop { pricing_setting = some settings } }

fifty_stars : get_authoritative_price "stars" (pos 50) none priced.db ≡ ok fifty
unfolding get_authoritative_price calculate_stars_price lower
fifty_stars = refl

-- The settings are gone by the time of the checkout.
abbrev repriced : Session
repriced = record start {
  db = record shop {
    price_locks = (create_price_lock 5000 "pl_1" "stars" (pos 50) priced).1.db.price_locks;
  };
}

lock_keeps_price_example :
    (validate_or_consume_price_lock 9000 "pl_1" "stars" (pos 50) repriced).0
    ≡ ok (use_lock (new_lock 5000 "pl_1" "stars" (pos 50) fifty))
lock_keeps_price_example =
    lock_keeps_price 5000 9000 "pl_1" "stars" (pos 50) priced repriced refl fifty_stars
      (omega arith) refl
