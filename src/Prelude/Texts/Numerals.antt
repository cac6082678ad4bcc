-- ===== src/Prelude/Texts/Numerals.antt =====
-- Numbers written as texts, and read back.
use Prim.Native.Nat.{ℕ, zero, suc, ◌+◌, ◌-◌, ◌*◌, ◌/◌, ◌%◌, ◌<◌}
use Prim.Native.Char.{code}
use Prim.Native.String.{String, ◌++◌ as text_append}
use mathlib.Core.Bool.{true, false}
use mathlib.Core.Path.{◌≡◌, refl}
use native.Mathlib.Omega.{arith}
use mathlib.Core.Logic.{inl, inr}
use text.Mathlib.TextLemmas.{nil-append, cons-append}
use gift_hub.Prelude.Tests.{Bool-cases, ltb, leb}
use gift_hub.Prelude.Texts.{
  digit, digits_value, show_from, show, int_of, is_digit, all_digits, is_empty, show-nonempty,
}

digits_value-append :
    (m : ℕ) (s t : String) → digits_value m (text_append s t) ≡ digits_value (digits_value m s) t
unfolding digits_value
digits_value-append m String.[] t = rw nil-append
digits_value-append m (String.◌∷◌ c s) t =
    rw cons-append (digits_value-append (m * 10 + (code c - b'0')) s t)

digits_value-digit : (m d : ℕ) → d < 10 → digits_value m (digit d) ≡ m * 10 + d
unfolding digits_value
digits_value-digit m zero h = refl
digits_value-digit m (suc zero) h = refl
digits_value-digit m (suc (suc zero)) h = refl
digits_value-digit m (suc (suc (suc zero))) h = refl
digits_value-digit m (suc (suc (suc (suc zero)))) h = refl
digits_value-digit m (suc (suc (suc (suc (suc zero))))) h = refl
digits_value-digit m (suc (suc (suc (suc (suc (suc zero)))))) h = refl
digits_value-digit m (suc (suc (suc (suc (suc (suc (suc zero))))))) h = refl
digits_value-digit m (suc (suc (suc (suc (suc (suc (suc (suc zero)))))))) h = refl
digits_value-digit m (suc (suc (suc (suc (suc (suc (suc (suc (suc zero))))))))) h = refl
digits_value-digit m (suc (suc (suc (suc (suc (suc (suc (suc (suc (suc n)))))))))) h =
    omega (arith, h)

show_from-value : (fuel n : ℕ) → n < fuel → digits_value 0 (show_from fuel n) ≡ n
unfolding show_from
show_from-value zero n h = omega (arith, h)
show_from-value (suc fuel) n h = elim (Bool-cases (ltb n 10)) [
  | inl e ↦ rw e (omega (arith, digits_value-digit 0 n (ground (arith, e))))
  | inr e ↦
      let smaller : n / 10 < fuel = ground (arith, e, h) in
      rw
        (
          e,
          digits_value-append 0 (show_from fuel (n / 10)) (digit (n % 10)),
          show_from-value fuel (n / 10) smaller,
          digits_value-digit (n / 10) (n % 10) (omega arith),
        )
        (omega arith)
]

-- The text of a number is read back as the number.
pub int_of-show : (n : ℕ) → int_of (show n) ≡ n
unfolding int_of show
int_of-show n = show_from-value (suc n) n (omega arith)

all_digits-digit : (d : ℕ) → all_digits (digit d) ≡ true
unfolding all_digits
all_digits-digit zero = refl
all_digits-digit (suc zero) = refl
all_digits-digit (suc (suc zero)) = refl
all_digits-digit (suc (suc (suc zero))) = refl
all_digits-digit (suc (suc (suc (suc zero)))) = refl
all_digits-digit (suc (suc (suc (suc (suc zero))))) = refl
all_digits-digit (suc (suc (suc (suc (suc (suc zero)))))) = refl
all_digits-digit (suc (suc (suc (suc (suc (suc (suc zero))))))) = refl
all_digits-digit (suc (suc (suc (suc (suc (suc (suc (suc zero)))))))) = refl
all_digits-digit (suc (suc (suc (suc (suc (suc (suc (suc (suc n))))))))) = refl

all_digits-append :
    (s t : String) → all_digits s ≡ true → all_digits t ≡ true → all_digits (text_append s t) ≡ true
unfolding all_digits
all_digits-append String.[] t h k = rw nil-append k
all_digits-append (String.◌∷◌ c s) t h k = elim (Bool-cases (leb b'0' (code c))) [
  | inl a ↦ elim (Bool-cases (leb (code c) b'9')) [
    | inl b ↦ rw (cons-append, a, b) (all_digits-append s t (rw (a, b) at h) k)
    | inr b ↦ let h' : false ≡ true = rw (a, b) at h in cc h'
  ]
  | inr a ↦ let h' : false ≡ true = rw a at h in cc h'
]

all_digits-show_from : (fuel n : ℕ) → all_digits (show_from fuel n) ≡ true
unfolding show_from all_digits
all_digits-show_from zero n = refl
all_digits-show_from (suc fuel) n = elim (Bool-cases (ltb n 10)) [
  | inl e ↦ rw e (all_digits-digit n)
  | inr e ↦ rw e (
      all_digits-append (show_from fuel (n / 10)) (digit (n % 10))
        (all_digits-show_from fuel (n / 10)) (all_digits-digit (n % 10)))
]

digits_alone : (s : String) → is_empty s ≡ false → all_digits s ≡ true → is_digit s ≡ true
unfolding is_digit
digits_alone String.[] h k = cc h
digits_alone (String.◌∷◌ c s) h k = k

-- The text of a number has digits only.
pub is_digit-show : (n : ℕ) → is_digit (show n) ≡ true
is_digit-show n =
    digits_alone (show n) (show-nonempty n) (unfold show in all_digits-show_from (suc n) n)
