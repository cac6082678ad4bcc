-- ===== src/Pricing/Prices.antt =====
-- Prices: `round_money`, the three price calculations, `get_authoritative_price` and
-- `create_price_lock` of app/services/pricing/service.py. Amounts are in tiyin and percentages in
-- hundredths; what is only shown to the buyer is left out. The id of a new lock is an argument.
use Prim.Native.String.{◌++◌ as text_append}
use gift_hub.Prelude.{
  ℕ, suc, ◌+◌, ◌*◌, String, Bool, false, ◌&&◌, Option, none, some, List, [], ◌∷◌, ◌++◌, str_eq,
  find, or_else, if◌then◌else◌,
}
use gift_hub.Prelude.Int.{
  ℤ, pos, negsuc, pos_part, neg_part, sub_ℕ, ltb_ℤ, leb_ℤ, ◌+ℤ◌, ◌-ℤ◌, min, max,
}
use gift_hub.Prelude.Dict.{Dict, lookup}
use gift_hub.Prelude.Texts.{lower, show, remove_spaces}
use gift_hub.Decimal.{◌*ℤ◌, half_up}
use gift_hub.Models.{Db, PriceLock}
use gift_hub.Models.Shop.{
  Json, absent, malformed, parsed, Tier, Gift, PricingSetting, CustomService,
}
use gift_hub.Session.{
  Exec, Result, ok, err, pure, gets, lift, modify, commit, ◌>>=◌, ◌>>◌, value_error, domain_error,
}

-- Rounds to whole sums a value counted in parts of 1 / scale sums; the result is in tiyin.
unfoldable pub round_money : ℕ → ℤ → ℤ
unfolding half_up
round_money scale v = sub_ℕ (100 * half_up (pos_part v) scale) (100 * half_up (neg_part v) scale)

-- FRAGMENT_STAR_BASE_UZS
abbrev fragment_star_base : ℤ
fragment_star_base = pos 17646

-- A figure of the settings, where there are settings and the column is not null.
abbrev pub setting : (PricingSetting → Option ℤ) → ℤ → Option PricingSetting → ℤ
setting f d none = d
setting f d (some p) = or_else (f p) d

abbrev positive_or : ℤ → ℤ → ℤ
positive_or d v = if ltb_ℤ (pos 0) v then v else d

unfoldable pub unit_cost : Option PricingSetting → ℤ
unit_cost p =
    positive_or fragment_star_base (setting (λ q. q.star_unit_price_uzs) fragment_star_base p)

abbrev pub minimum_margin_of : Option PricingSetting → ℤ
minimum_margin_of = setting (λ q. q.minimum_margin) (pos 500)

abbrev pub maximum_discount_of : Option PricingSetting → ℤ
maximum_discount_of = setting (λ q. q.maximum_discount) (pos 3000)

abbrev pub minimum_price_of : Option PricingSetting → ℤ
minimum_price_of = setting (λ q. q.minimum_price) (pos 100000)

unfoldable pub effective_margin : Option PricingSetting → ℤ
unfolding max
effective_margin p = max (setting (λ q. q.margin_percent) (pos 1500) p) (minimum_margin_of p)

-- `sorted(..., key=min_amount, reverse=True)`: equal keys keep their order.
unfoldable pub insert_tier : Tier → List Tier → List Tier
insert_tier t [] = t ∷ []
insert_tier t (u ∷ us) =
    let rest = insert_tier t us in if ltb_ℤ t.min_amount u.min_amount then u ∷ rest else t ∷ u ∷ us

unfoldable pub sort_tiers : List Tier → List Tier
unfolding insert_tier
sort_tiers [] = []
sort_tiers (t ∷ ts) = insert_tier t (sort_tiers ts)

abbrev pub is_reached : ℤ → Tier → Bool
is_reached amount t = leb_ℤ t.min_amount amount

-- The first tier of the sorted ones that the amount reaches.
unfoldable pub first_tier : ℤ → List Tier → Option Tier
unfolding sort_tiers
first_tier amount ts = find (is_reached amount) (sort_tiers ts)

abbrev pub capped : ℤ → Option Tier → ℤ
capped cap none = pos 0
capped cap (some t) = min t.discount_pct cap

abbrev pub tiers_of : Json (List Tier) → List Tier
tiers_of absent = []
tiers_of malformed = []
tiers_of (parsed ts) = ts

abbrev tiers_set : Option PricingSetting → List Tier
tiers_set none = []
tiers_set (some p) = tiers_of p.stars_discounts_json

unfoldable pub applied_discount : ℤ → Option PricingSetting → ℤ
unfolding first_tier min
applied_discount amount p = capped (maximum_discount_of p) (first_tier amount (tiers_set p))

-- What the calculations return: the total, the cost and, of stars, the rounded price of one.
pub record Price : Type 0 where
  pub total : ℤ
  pub cost : ℤ
  pub unit_sell : Option ℤ

-- The price of one star in parts of 1 / 1000000 sums.
abbrev pub unit_sell : Option PricingSetting → ℤ
unit_sell p = unit_cost p *ℤ (pos 10000 +ℤ effective_margin p)

unfoldable pub discounted_total : ℤ → Option PricingSetting → ℤ
unfolding round_money ◌*ℤ◌ unit_cost effective_margin applied_discount ◌+ℤ◌ ◌-ℤ◌
discounted_total amount p =
    round_money 10000000000 (unit_sell p *ℤ amount *ℤ (pos 10000 -ℤ applied_discount amount p))

abbrev pub at_least : ℤ → ℤ → ℤ → ℤ
at_least min_price amount total =
    if ltb_ℤ total min_price && leb_ℤ (pos 10) amount then min_price else total

abbrev pub stars_price : ℤ → Option PricingSetting → Price
stars_price amount p = record {
  total = at_least (minimum_price_of p) amount (discounted_total amount p);
  cost = round_money 100 (unit_cost p *ℤ amount);
  unit_sell = some (round_money 1000000 (unit_sell p));
}

unfoldable pub calculate_stars_price : ℤ → Option PricingSetting → Result Price
unfolding discounted_total round_money
calculate_stars_price amount p =
    if leb_ℤ amount (pos 0) then err value_error else ok (stars_price amount p)

-- `str(months)`
abbrev pub show_ℤ : ℤ → String
show_ℤ (pos n) = show n
show_ℤ (negsuc n) = text_append "-" (show (suc n))

-- FRAGMENT_PREMIUM_BASE_UZS
abbrev fragment_premium_base : Dict ℤ
fragment_premium_base = ("3", pos 13800000) ∷ ("6", pos 20500000) ∷ ("12", pos 37500000) ∷ []

abbrev premium_prices : Option PricingSetting → Dict ℤ
premium_prices none = []
premium_prices (some p) = elim p.premium_prices_json [ parsed d ↦ d | _ ↦ [] ]

unfoldable pub calculate_premium_price : ℤ → Option PricingSetting → Price
unfolding lookup ◌+ℤ◌
calculate_premium_price months p =
    let m = show_ℤ months in
    let base_cost = or_else (lookup m fragment_premium_base) (pos 14000000) in
    record {
      total = or_else (lookup m (premium_prices p)) (base_cost +ℤ pos 500000);
      cost = base_cost;
      unit_sell = none;
    }

abbrev gift_row : String → ℕ → ℕ → Gift
gift_row id price cost = record {
  id = id;
  price_uzs = pos (100 * price);
  cost_uzs = pos (100 * cost);
}

-- DEFAULT_GIFTS
abbrev default_gifts : List Gift
default_gifts =
    gift_row "bear" 64000 50000
    ∷ gift_row "heart" 85000 68000
    ∷ gift_row "rocket" 120000 95000
    ∷ gift_row "star" 60000 45000
    ∷ gift_row "ring" 165000 130000
    ∷ gift_row "trophy" 195000 155000
    ∷ gift_row "yacht" 270000 220000
    ∷ gift_row "crown" 225000 180000
    ∷ gift_row "medal" 95000 75000
    ∷ gift_row "hat" 78000 60000
    ∷ gift_row "eagle" 110000 88000
    ∷ gift_row "lion" 175000 140000
    ∷ []

-- `if parsed: gifts_list = parsed`
abbrev nonempty_or : List Gift → List Gift → List Gift
nonempty_or d [] = d
nonempty_or d (g ∷ gs) = g ∷ gs

abbrev gifts_list : Option PricingSetting → List Gift
gifts_list none = default_gifts
gifts_list (some p) = elim p.gifts_json [
  | parsed gs ↦ nonempty_or default_gifts gs
  | _ ↦ default_gifts
]

abbrev gift_price : Option Gift → Price
gift_price none = record { total = pos 6000000; cost = pos 4500000; unit_sell = none }
gift_price (some g) = record { total = g.price_uzs; cost = g.cost_uzs; unit_sell = none }

unfoldable pub calculate_gift_price : String → Option PricingSetting → Price
calculate_gift_price gift_id p =
    gift_price (find (λ (g : Gift). str_eq g.id gift_id) (gifts_list p))

abbrev is_offered : Option String → CustomService → Bool
is_offered none s = false
is_offered (some n) s = str_eq s.name n && s.is_active

abbrev service_price : Option CustomService → Result Price
service_price none = err (domain_error "ERROR")
service_price (some s) = ok (record { total = s.price_uzs; cost = s.cost_uzs; unit_sell = none })

abbrev text_of : Option String → String
text_of none = ""
text_of (some s) = s

unfoldable pub get_authoritative_price : String → ℤ → Option String → Db → Result Price
unfolding calculate_stars_price calculate_premium_price calculate_gift_price lower remove_spaces
get_authoritative_price product_type amount item_title d =
    let p_type = lower product_type in
    if str_eq p_type "stars"
    then calculate_stars_price amount d.pricing_setting
    else if str_eq p_type "premium"
    then ok (calculate_premium_price amount d.pricing_setting)
    else if str_eq p_type "gift"
    then ok (calculate_gift_price (remove_spaces (lower (text_of item_title))) d.pricing_setting)
    else if str_eq p_type "service"
    then service_price (find (is_offered item_title) d.custom_services)
    else err (domain_error "ERROR")

-- PRICE_LOCK_SECONDS in microseconds.
abbrev pub price_lock_time : ℕ
price_lock_time = 600000000

abbrev pub new_lock : ℕ → String → String → ℤ → Price → PriceLock
new_lock now lock_id product_type amount p = record {
  id = lock_id;
  product_type = product_type;
  amount = amount;
  unit_price = or_else p.unit_sell p.total;
  total_price = p.total;
  cost_price = p.cost;
  is_used = false;
  expires_at = now + price_lock_time;
}

unfoldable pub create_price_lock : ℕ → String → String → ℤ → Exec PriceLock
unfolding get_authoritative_price
create_price_lock now lock_id product_type amount = do
  answer ← gets (get_authoritative_price product_type amount none)
  p ← lift answer
  let lock = new_lock now lock_id product_type amount p
  modify (λ d. record d { price_locks = d.price_locks ++ lock ∷ [] })
  commit
  pure lock
