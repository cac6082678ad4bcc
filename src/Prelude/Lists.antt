-- ===== src/Prelude/Lists.antt =====
-- Lists measured by native numbers, and the queries that the source writes as `select ... where`.
use Prim.Native.Nat.{ℕ, zero, suc, ◌+◌, ◌≤◌}
use mathlib.Core.Path.{◌≡◌, refl, sym, ap, subst}
use mathlib.Core.Bool.{Bool, true, false}
use mathlib.Core.Option
use mathlib.Core.Option.{Option, none, some}
use mathlib.Core.List.{List, [], ◌∷◌, ◌++◌}
use native.Mathlib.Omega.{arith}
use mathlib.Core.Logic.{inl, inr}
use gift_hub.Prelude.Tests.{if◌then◌else◌, Bool-cases}

module _ {ℓ} {A : Type ℓ} where
  abbrev pub length : List A → ℕ
  length [] = 0
  length (x ∷ xs) = suc (length xs)

  abbrev pub take : ℕ → List A → List A
  take zero xs = []
  take (suc n) [] = []
  take (suc n) (x ∷ xs) = x ∷ take n xs

  -- The first row that a test accepts.
  abbrev pub find : (A → Bool) → List A → Option A
  find p [] = none
  find p (x ∷ xs) = if p x then some x else find p xs

  -- The rows that a test accepts.
  abbrev pub where_rows : (A → Bool) → List A → List A
  where_rows p [] = []
  where_rows p (x ∷ xs) = let rest = where_rows p xs in if p x then x ∷ rest else rest

  -- `func.count` of the rows that a test accepts.
  abbrev pub count_rows : (A → Bool) → List A → ℕ
  count_rows p [] = 0
  count_rows p (x ∷ xs) = (if p x then 1 else 0) + count_rows p xs

  -- Whether a test accepts some row.
  abbrev pub any : (A → Bool) → List A → Bool
  any p [] = false
  any p (x ∷ xs) = if p x then true else any p xs

  -- A change of the rows that a test accepts.
  abbrev pub update_rows : (A → Bool) → (A → A) → List A → List A
  update_rows p f [] = []
  update_rows p f (x ∷ xs) = (if p x then f x else x) ∷ update_rows p f xs

  pub length-append : (xs ys : List A) → length (xs ++ ys) ≡ length xs + length ys
  length-append [] ys = omega arith
  length-append (x ∷ xs) ys = omega (arith, length-append xs ys)

  pub length-take : (n : ℕ) (xs : List A) → length (take n xs) ≤ n
  length-take zero xs = omega arith
  length-take (suc n) [] = omega arith
  length-take (suc n) (x ∷ xs) = omega (arith, length-take n xs)

-- A change that keeps what the test reads is seen by the query of the same test.
pub find-update {ℓ} :
    {A : Type ℓ} (p : A → Bool) (f : A → A) (xs : List A)
    → ((x : A) → p (f x) ≡ p x)
    → find p (update_rows p f xs) ≡ Option.map f (find p xs)
find-update p f [] keep = refl
find-update p f (x ∷ xs) keep = elim (Bool-cases (p x)) [
  | inl e ↦ rw (e, keep x, e)
  | inr e ↦ rw (e, e) (find-update p f xs keep)
]

-- A row that replaces the rows of a test, and meets it, is what the query finds.
pub find-replace {ℓ} :
    {A : Type ℓ} (p : A → Bool) (y : A) (xs : List A) {x : A}
    → find p xs ≡ some x
    → p y ≡ true
    → find p (update_rows p (λ _. y) xs) ≡ some y
find-replace p y [] h k = cc
find-replace p y (x ∷ xs) h k = elim (Bool-cases (p x)) [
  | inl e ↦ rw (e, k)
  | inr e ↦ rw (e, e) (find-replace p y xs (rw e at h) k)
]

-- What a query finds meets its test.
pub find-test {ℓ} :
    {A : Type ℓ} (p : A → Bool) (xs : List A) {x : A} → find p xs ≡ some x → p x ≡ true
find-test p [] h = cc
find-test p (y ∷ xs) {x} h = elim (Bool-cases (p y)) [
  | inl e ↦
      let h' : some y ≡ some x = rw e at h in
      let same : y ≡ x = cc h' in subst (λ z. p z ≡ true) same e
  | inr e ↦ find-test p xs (rw e at h)
]

abbrev pub All {ℓ κ} : {A : Type ℓ} → (A → Type κ) → List A → Type κ
All P [] = Unit
All P (x ∷ xs) = P x × All P xs

-- A row that is added is what the query finds, where it found none before.
pub find-append {ℓ} :
    {A : Type ℓ} (p : A → Bool) (xs : List A) (y : A)
    → find p xs ≡ none
    → p y ≡ true
    → find p (xs ++ y ∷ []) ≡ some y
find-append p [] y h k = rw k
find-append p (x ∷ xs) y h k = elim (Bool-cases (p x)) [
  | inl t ↦ let h' : some x ≡ none = rw t at h in cc h'
  | inr n ↦ rw n (find-append p xs y (rw n at h) k)
]

-- A query still finds a row after a change of other rows, or one that keeps what its test reads.
pub found-update {ℓ} :
    {A : Type ℓ} (p q : A → Bool) (f : A → A) (xs : List A)
    → ((x : A) → q x ≡ true → p (f x) ≡ p x)
    → {x : A} → find p xs ≡ some x
    → (y : A) × (find p (update_rows q f xs) ≡ some y)
found-update p q f [] keep h = cc
found-update p q f (x ∷ xs) keep h = elim (Bool-cases (p x)) [
  | inl e ↦ elim (Bool-cases (q x)) [ inl c ↦ (f x, rw (c, keep x c, e)) | inr c ↦ (x, rw (c, e)) ]
  | inr e ↦
      let rest = found-update p q f xs keep (rw e at h) in
      elim (Bool-cases (q x)) [
        | inl c ↦ (rest.0, rw (c, keep x c, e) rest.1)
        | inr c ↦ (rest.0, rw (c, e) rest.1)
      ]
]

-- A change that changes nothing.
pub update-same {ℓ} : {A : Type ℓ} (p : A → Bool) (xs : List A) → update_rows p (λ x. x) xs ≡ xs
update-same p [] = refl
update-same p (x ∷ xs) = elim (Bool-cases (p x)) [
  | inl e ↦ rw (e, update-same p xs)
  | inr e ↦ rw (e, update-same p xs)
]

-- The row that a query finds is still found when rows are deleted, and it is not one of them.
pub find-where {ℓ} :
    {A : Type ℓ} (p q : A → Bool) (xs : List A) {x : A}
    → find p xs ≡ some x
    → q x ≡ true
    → find p (where_rows q xs) ≡ some x
find-where p q [] h k = cc
find-where p q (y ∷ ys) {x} h k = elim (Bool-cases (p y)) [
  | inl t ↦
      let h' : some y ≡ some x = rw t at h in
      let same : y ≡ x = cc h' in
      let kept : q y ≡ true = subst (λ z. q z ≡ true) (sym same) k in rw kept (rw t h')
  | inr n ↦
      let rest = find-where p q ys (rw n at h) k in
      elim (Bool-cases (q y)) [ inl t ↦ rw t (rw n rest) | inr t ↦ rw t rest ]
]

pub length-update {ℓ} :
    {A : Type ℓ} (p : A → Bool) (f : A → A) (xs : List A) → length (update_rows p f xs) ≡ length xs
length-update p f [] = refl
length-update p f (x ∷ xs) = ap suc (length-update p f xs)
