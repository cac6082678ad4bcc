-- ===== src/Prelude/Every.antt =====
-- What holds of every row of a table, through the queries and updates of the tables.
use Prim.Native.Nat.{ℕ, zero, suc}
use mathlib.Core.Path.{◌≡◌, subst}
use mathlib.Core.Option.{some}
use mathlib.Core.Bool.{Bool, true, false}
use mathlib.Core.List.{List, [], ◌∷◌, ◌++◌, map}
use gift_hub.Prelude.Tests.{Bool-cases}
use gift_hub.Prelude.Lists.{All, where_rows, take, find, update_rows}
use mathlib.Core.Logic.{inl, inr}

module _ {ℓ κ} {A : Type ℓ} (P : A → Type κ) where
  pub All-where : (p : A → Bool) (xs : List A) → All P xs → All P (where_rows p xs)
  All-where p [] h = tt
  All-where p (x ∷ xs) h = elim (Bool-cases (p x)) [
    | inl e ↦ rw e (h.0, All-where p xs h.1)
    | inr e ↦ rw e (All-where p xs h.1)
  ]

  pub All-take : (n : ℕ) (xs : List A) → All P xs → All P (take n xs)
  All-take zero xs h = tt
  All-take (suc n) [] h = tt
  All-take (suc n) (x ∷ xs) h = (h.0, All-take n xs h.1)

  pub All-append : (xs ys : List A) → All P xs → All P ys → All P (xs ++ ys)
  All-append [] ys h k = k
  All-append (x ∷ xs) ys h k = (h.0, All-append xs ys h.1 k)

  -- The row that a query finds meets the test, and what holds of all rows.
  pub find-All :
      (p : A → Bool) (xs : List A) {x : A} → All P xs → find p xs ≡ some x → P x × (p x ≡ true)
  find-All p [] h e = cc
  find-All p (y ∷ ys) {x} h e = elim (Bool-cases (p y)) [
    | inl t ↦
        let e' : some y ≡ some x = rw t at e in
        let same : y ≡ x = cc e' in (subst P same h.0, subst (λ z. p z ≡ true) same t)
    | inr t ↦ find-All p ys h.1 (rw t at e)
  ]

pub All-where_test {ℓ} :
    {A : Type ℓ} (p : A → Bool) (xs : List A) → All (λ x. p x ≡ true) (where_rows p xs)
All-where_test p [] = tt
All-where_test p (x ∷ xs) = elim (Bool-cases (p x)) [
  | inl e ↦ rw e (e, All-where_test p xs)
  | inr e ↦ rw e (All-where_test p xs)
]

module _ {ℓ κ ι} {A : Type ℓ} (P : A → Type κ) (Q : A → Type ι) where
  pub All-imp : (xs : List A) → ((x : A) → P x → Q x) → All P xs → All Q xs
  All-imp [] f h = tt
  All-imp (x ∷ xs) f h = (f x h.0, All-imp xs f h.1)

  pub All-both : (xs : List A) → All P xs → All Q xs → All (λ x. P x × Q x) xs
  All-both [] h k = tt
  All-both (x ∷ xs) h k = ((h.0, k.0), All-both xs h.1 k.1)

  pub All-update :
      (p : A → Bool) (f : A → A) (xs : List A)
      → ((x : A) → P x → p x ≡ true → Q (f x))
      → ((x : A) → P x → p x ≡ false → Q x)
      → All P xs
      → All Q (update_rows p f xs)
  All-update p f [] change keep h = tt
  All-update p f (x ∷ xs) change keep h = elim (Bool-cases (p x)) [
    | inl e ↦ rw e (change x h.0 e, All-update p f xs change keep h.1)
    | inr e ↦ rw e (keep x h.0 e, All-update p f xs change keep h.1)
  ]

module _ {ℓ κ ι} {A : Type ℓ} {B : Type κ} (P : B → Type ι) where
  pub All-map : (f : A → B) (xs : List A) → All (λ x. P (f x)) xs → All P (map f xs)
  All-map f [] h = tt
  All-map f (x ∷ xs) h = (h.0, All-map f xs h.1)
