-- ===== src/Prelude/Texts.antt =====
-- The operations on `str` that the source uses, on the native texts. Letters and blanks are the
-- ASCII ones.
pub mod Letters
pub mod Numerals
use Prim.Native.Nat.{ℕ, zero, suc, ◌+◌, ◌-◌, ◌*◌, ◌/◌, ◌%◌, ◌<◌}
use Prim.Native.Char.{Char, code}
use Prim.Native.String.{String, ◌++◌ as text_append}
use mathlib.Core.Bool.{Bool, true, false, ◌&&◌, ◌||◌}
use mathlib.Core.List.{List, [], ◌∷◌}
use mathlib.Core.Path.{◌≡◌, refl, ap}
use native.Mathlib.Omega.{arith}
use mathlib.Core.Logic.{inl, inr}
use text.Mathlib.TextLemmas.{nil-append, cons-append}
use gift_hub.Prelude.Tests.{Bool-cases, ltb, leb, ◌==◌, if◌then◌else◌}

-- `s[:n]`
unfoldable pub take_chars : ℕ → String → String
take_chars zero s = String.[]
take_chars (suc n) String.[] = String.[]
take_chars (suc n) (String.◌∷◌ c s) = String.◌∷◌ c (take_chars n s)

-- `not s`
abbrev pub is_empty : String → Bool
is_empty String.[] = true
is_empty (String.◌∷◌ c s) = false

-- Whether every character is a decimal digit.
unfoldable pub all_digits : String → Bool
all_digits String.[] = true
all_digits (String.◌∷◌ c s) = leb b'0' (code c) && leb (code c) b'9' && all_digits s

-- `s.isdigit()`
unfoldable pub is_digit : String → Bool
unfolding all_digits
is_digit String.[] = false
is_digit (String.◌∷◌ c s) = all_digits (String.◌∷◌ c s)

-- The value of a text of digits, after `n` has been read.
unfoldable pub digits_value : ℕ → String → ℕ
digits_value n String.[] = n
digits_value n (String.◌∷◌ c s) = digits_value (n * 10 + (code c - b'0')) s

-- `int(s)` of a text of digits.
unfoldable pub int_of : String → ℕ
unfolding digits_value
int_of s = digits_value 0 s

-- A decimal digit as a text.
abbrev pub digit : ℕ → String
digit zero = "0"
digit (suc zero) = "1"
digit (suc (suc zero)) = "2"
digit (suc (suc (suc zero))) = "3"
digit (suc (suc (suc (suc zero)))) = "4"
digit (suc (suc (suc (suc (suc zero))))) = "5"
digit (suc (suc (suc (suc (suc (suc zero)))))) = "6"
digit (suc (suc (suc (suc (suc (suc (suc zero))))))) = "7"
digit (suc (suc (suc (suc (suc (suc (suc (suc zero)))))))) = "8"
digit _ = "9"

-- The decimal text of `n`, with more fuel than it has digits.
show_from : ℕ → ℕ → String
show_from zero n = ""
show_from (suc fuel) n =
    let higher = show_from fuel (n / 10) in
    if ltb n 10 then digit n else text_append higher (digit (n % 10))

-- `str(n)`; a number has fewer digits than its successor.
unfoldable pub show : ℕ → String
unfolding show_from
show n = show_from (suc n) n

-- The n-th character of a text, or `c` past its end.
char_or : Char → ℕ → String → Char
char_or c n String.[] = c
char_or c zero (String.◌∷◌ d s) = d
char_or c (suc n) (String.◌∷◌ d s) = char_or c n s

lower_char : Char → Char
unfolding char_or
lower_char c =
    if leb b'A' (code c) && leb (code c) b'Z'
    then char_or c (code c - b'A') "abcdefghijklmnopqrstuvwxyz"
    else c

upper_char : Char → Char
unfolding char_or
upper_char c =
    if leb b'a' (code c) && leb (code c) b'z'
    then char_or c (code c - b'a') "ABCDEFGHIJKLMNOPQRSTUVWXYZ"
    else c

-- `s.lower()`
unfoldable pub lower : String → String
unfolding lower_char
lower String.[] = String.[]
lower (String.◌∷◌ c s) = String.◌∷◌ (lower_char c) (lower s)

-- `s.upper()`
unfoldable pub upper : String → String
unfolding upper_char
upper String.[] = String.[]
upper (String.◌∷◌ c s) = String.◌∷◌ (upper_char c) (upper s)

is_blank : Char → Bool
is_blank c = code c == 32 || (leb 9 (code c) && leb (code c) 13)

unfoldable pub lstrip : String → String
unfolding is_blank
lstrip String.[] = String.[]
lstrip (String.◌∷◌ c s) = if is_blank c then lstrip s else String.◌∷◌ c s

-- The text with the character in front, unless both are blank to the end.
abbrev keep : Char → String → String
keep c String.[] = if is_blank c then String.[] else String.◌∷◌ c String.[]
keep c (String.◌∷◌ d s) = String.◌∷◌ c (String.◌∷◌ d s)

rstrip : String → String
unfolding is_blank
rstrip String.[] = String.[]
rstrip (String.◌∷◌ c s) = keep c (rstrip s)

-- `s.strip()`
unfoldable pub strip : String → String
unfolding lstrip rstrip is_blank
strip s = lstrip (rstrip s)

onto_head : Char → List String → List String
onto_head c [] = String.◌∷◌ c String.[] ∷ []
onto_head c (s ∷ ss) = String.◌∷◌ c s ∷ ss

-- `s.split(",")`
unfoldable pub split_commas : String → List String
unfolding onto_head
split_commas String.[] = String.[] ∷ []
split_commas (String.◌∷◌ c s) =
    let rest = split_commas s in if code c == b',' then String.[] ∷ rest else onto_head c rest

-- `s.replace(" ", "")`
unfoldable pub remove_spaces : String → String
remove_spaces String.[] = String.[]
remove_spaces (String.◌∷◌ c s) =
    let rest = remove_spaces s in if code c == b' ' then rest else String.◌∷◌ c rest

-- `len(s)`
abbrev pub len : String → ℕ
len String.[] = 0
len (String.◌∷◌ c s) = suc (len s)

digit-nonempty : (n : ℕ) → is_empty (digit n) ≡ false
digit-nonempty zero = refl
digit-nonempty (suc zero) = refl
digit-nonempty (suc (suc zero)) = refl
digit-nonempty (suc (suc (suc zero))) = refl
digit-nonempty (suc (suc (suc (suc zero)))) = refl
digit-nonempty (suc (suc (suc (suc (suc zero))))) = refl
digit-nonempty (suc (suc (suc (suc (suc (suc zero)))))) = refl
digit-nonempty (suc (suc (suc (suc (suc (suc (suc zero))))))) = refl
digit-nonempty (suc (suc (suc (suc (suc (suc (suc (suc zero)))))))) = refl
digit-nonempty (suc (suc (suc (suc (suc (suc (suc (suc (suc n))))))))) = refl

append-nonempty : (s t : String) → is_empty t ≡ false → is_empty (text_append s t) ≡ false
append-nonempty String.[] t h = rw nil-append h
append-nonempty (String.◌∷◌ c s) t h = rw cons-append

-- The text of a number is not empty.
pub show-nonempty : (n : ℕ) → is_empty (show n) ≡ false
unfolding show
show-nonempty n = elim (Bool-cases (ltb n 10)) [
  | inl e ↦ rw e (digit-nonempty n)
  | inr e ↦ rw e (append-nonempty _ (digit (n % 10)) (digit-nonempty (n % 10)))
]
