-- ===== src/Decimal.antt =====
-- The arithmetic of `decimal.Decimal` that the services use, on amounts counted in tiyin: rounding
-- to whole sums. A quotient is exact before it is rounded: the 28 digits of the default context
-- hold every amount of the tables.
use gift_hub.Prelude.{ℕ, ◌+◌, ◌*◌, ◌/◌, ◌%◌, ◌==◌, ltb, if◌then◌else◌}
use gift_hub.Prelude.Int.{ℤ, sub_ℕ, pos_part, neg_part}

-- The whole number nearest to n / d, a half to the even one: ROUND_HALF_EVEN.
unfoldable pub half_even : ℕ → ℕ → ℕ
half_even n d =
    let q = n / d in
    let r = n % d in
    if ltb (2 * r) d then q else if ltb d (2 * r) then q + 1 else if q % 2 == 0 then q else q + 1

infixl 66 ◌*ℤ◌
unfoldable pub ◌*ℤ◌ : ℤ → ℤ → ℤ
a *ℤ b =
    sub_ℕ (pos_part a * pos_part b + neg_part a * neg_part b)
      (pos_part a * neg_part b + neg_part a * pos_part b)

-- a / d in whole sums, as an amount in tiyin: `quantize(Decimal(1))`, which treats both signs alike.
unfoldable pub quantize : ℤ → ℕ → ℤ
unfolding half_even
quantize a d = sub_ℕ (100 * half_even (pos_part a) d) (100 * half_even (neg_part a) d)

-- `(amount * (percent / 100)).quantize(Decimal(1))`, the percentage in hundredths.
unfoldable pub percent_of : ℤ → ℤ → ℤ
unfolding quantize ◌*ℤ◌
percent_of amount percent = quantize (amount *ℤ percent) 1000000

-- The whole number nearest to n / d, a half upwards: ROUND_HALF_UP on a positive quotient.
unfoldable pub half_up : ℕ → ℕ → ℕ
half_up n d = let q = n / d in if ltb (2 * (n % d)) d then q else q + 1
