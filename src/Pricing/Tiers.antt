-- ===== src/Pricing/Tiers.antt =====
-- The discount tier that a number of stars gets, without the sorting of the source.
use gift_hub.Prelude.{
  ◌≡◌, refl, ap, ◌∙◌, true, Option, none, some, List, [], ◌∷◌, arith, find, All, Bool-cases, inl,
  inr, if◌then◌else◌,
}
use gift_hub.Prelude.Every.{All-imp}
use gift_hub.Prelude.Int.{ℤ, ltb_ℤ, ◌≤ℤ◌}
use gift_hub.Models.Shop.{Tier}
use gift_hub.Pricing.Prices.{insert_tier, sort_tiers, is_reached, first_tier}

-- The tier with the larger threshold; of equal ones, the first.
unfoldable pub better : Tier → Option Tier → Tier
better t none = t
better t (some u) = if ltb_ℤ t.min_amount u.min_amount then u else t

-- Of the tiers that the amount reaches, the one with the largest threshold.
unfoldable pub best_tier : ℤ → List Tier → Option Tier
unfolding better
best_tier amount [] = none
best_tier amount (t ∷ ts) =
    let rest = best_tier amount ts in if is_reached amount t then some (better t rest) else rest

abbrev Below : Tier → Tier → Type 0
Below t u = u.min_amount ≤ℤ t.min_amount

abbrev Descending : List Tier → Type 0
Descending [] = Unit {0}
Descending (t ∷ ts) = All (Below t) ts × Descending ts

insert_tier-Below :
    (t u : Tier) (us : List Tier) → Below u t → All (Below u) us → All (Below u) (insert_tier t us)
unfolding insert_tier
insert_tier-Below t u [] b h = (b, tt)
insert_tier-Below t u (v ∷ us) b h = elim (Bool-cases (ltb_ℤ t.min_amount v.min_amount)) [
  | inl y ↦ rw y (h.0, insert_tier-Below t u us b h.1)
  | inr m ↦ rw m (b, h)
]

insert_tier-Descending : (t : Tier) (us : List Tier) → Descending us → Descending (insert_tier t us)
unfolding insert_tier
insert_tier-Descending t [] h = (tt, tt)
insert_tier-Descending t (u ∷ us) h = elim (Bool-cases (ltb_ℤ t.min_amount u.min_amount)) [
  | inl y ↦
      let b : Below u t = ground arith in
      rw y (insert_tier-Below t u us b h.0, insert_tier-Descending t us h.1)
  | inr m ↦
      let b : Below t u = ground arith in
      rw m ((b, All-imp (Below u) (Below t) us (λ v k. omega (arith, b, k)) h.0), h)
]

sort_tiers-Descending : (ts : List Tier) → Descending (sort_tiers ts)
unfolding sort_tiers
sort_tiers-Descending [] = tt
sort_tiers-Descending (t ∷ ts) = insert_tier-Descending t (sort_tiers ts) (sort_tiers-Descending ts)

-- A tier above all others is the better one.
better-Below :
    (amount : ℤ) (t : Tier) (us : List Tier)
    → All (Below t) us
    → better t (find (is_reached amount) us) ≡ t
unfolding better
better-Below amount t [] h = refl
better-Below amount t (u ∷ us) h = elim (Bool-cases (is_reached amount u)) [
  | inl y ↦ let b = h.0 in rw y (ground arith)
  | inr m ↦ rw m (better-Below amount t us h.1)
]

find-insert_tier :
    (amount : ℤ) (t : Tier) (us : List Tier)
    → Descending us
    → find (is_reached amount) (insert_tier t us) ≡ (
        if is_reached amount t
        then some (better t (find (is_reached amount) us))
        else find (is_reached amount) us)
unfolding insert_tier better
find-insert_tier amount t [] h = refl
find-insert_tier amount t (u ∷ us) h = elim (Bool-cases (ltb_ℤ t.min_amount u.min_amount)) [
  | inl y ↦ elim (Bool-cases (is_reached amount u)) [
    | inl r ↦ let q : is_reached amount t ≡ true = ground arith in rw (y, r, q, y)
    | inr r ↦ rw (y, r, find-insert_tier amount t us h.1)
  ]
  | inr m ↦
      let b : Below t u = ground arith in
      let all : All (Below t) (u ∷ us) =
        (b, All-imp (Below u) (Below t) us (λ v k. omega (arith, b, k)) h.0) in
      rw (m, better-Below amount t (u ∷ us) all)
]

find-sort_tiers :
    (amount : ℤ) (ts : List Tier) → find (is_reached amount) (sort_tiers ts) ≡ best_tier amount ts
unfolding sort_tiers best_tier
find-sort_tiers amount [] = refl
find-sort_tiers amount (t ∷ ts) =
    find-insert_tier amount t (sort_tiers ts) (sort_tiers-Descending ts)
    ∙ ap (λ r. if is_reached amount t then some (better t r) else r) (find-sort_tiers amount ts)

-- The tier that the pricing applies, the first reached one of the sorted list, is the one with the
-- largest threshold among those reached, and the first listed of equal ones.
pub first_tier-best_tier :
    (amount : ℤ) (ts : List Tier) → first_tier amount ts ≡ best_tier amount ts
unfolding first_tier
first_tier-best_tier amount ts = find-sort_tiers amount ts
