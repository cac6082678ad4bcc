-- ===== src/Prelude/Texts/Letters.antt =====
-- Texts lowered twice.
use Prim.Native.Nat.{ℕ, zero, suc, ◌-◌, ◌<◌}
use Prim.Native.Char.{Char, code}
use Prim.Native.String.{String}
use mathlib.Core.Bool.{◌&&◌}
use mathlib.Core.Path.{◌≡◌, refl, ap}
use native.Mathlib.Omega.{arith}
use mathlib.Core.Logic.{inl, inr}
use gift_hub.Prelude.Tests.{Bool-cases, leb}
use gift_hub.Prelude.Texts.{char_or, lower_char, lower}

lower-letter :
    (c : Char) (n : ℕ)
    → n < 26
    → lower_char (char_or c n "abcdefghijklmnopqrstuvwxyz")
      ≡ char_or c n "abcdefghijklmnopqrstuvwxyz"
unfolding lower_char
lower-letter c zero h = refl
lower-letter c (suc zero) h = refl
lower-letter c (suc (suc zero)) h = refl
lower-letter c (suc (suc (suc zero))) h = refl
lower-letter c (suc (suc (suc (suc zero)))) h = refl
lower-letter c (suc (suc (suc (suc (suc zero))))) h = refl
lower-letter c (suc (suc (suc (suc (suc (suc zero)))))) h = refl
lower-letter c (suc (suc (suc (suc (suc (suc (suc zero))))))) h = refl
lower-letter c (suc (suc (suc (suc (suc (suc (suc (suc zero)))))))) h = refl
lower-letter c (suc (suc (suc (suc (suc (suc (suc (suc (suc zero))))))))) h = refl
lower-letter c (suc (suc (suc (suc (suc (suc (suc (suc (suc (suc zero)))))))))) h = refl
lower-letter c (suc (suc (suc (suc (suc (suc (suc (suc (suc (suc (suc zero))))))))))) h = refl
lower-letter c (suc (suc (suc (suc (suc (suc (suc (suc (suc (suc (suc (suc zero)))))))))))) h = refl
lower-letter c (suc (suc (suc (suc (suc (suc (suc (suc (suc (suc (suc (suc (suc zero)))))))))))))
      h =
    refl
lower-letter c
      (suc (suc (suc (suc (suc (suc (suc (suc (suc (suc (suc (suc (suc (suc zero)))))))))))))) h =
    refl
lower-letter c
      (suc (suc (suc (suc (suc (suc (suc (suc (suc (suc (suc (suc (suc (suc (suc zero)))))))))))))))
      h =
    refl
lower-letter c
      (suc (
        suc
          (suc (suc (suc (suc (suc (suc (suc (suc (suc (suc (suc (suc (suc (suc zero))))))))))))))))
      h =
    refl
lower-letter c
      (suc (
        suc (
          suc (
            suc
              (suc (suc (suc (suc (suc (suc (suc (suc (suc (suc (suc (suc (suc zero)))))))))))))))))
      h =
    refl
lower-letter c
      (suc (
        suc (
          suc (
            suc (
              suc (
                suc
                  (suc (suc (suc (suc (suc (suc (suc (suc (suc (suc (suc (suc zero))))))))))))))))))
      h =
    refl
lower-letter c
      (suc (
        suc (
          suc (
            suc (
              suc (
                suc (
                  suc (
                    suc
                      (suc (suc (suc (suc (suc (suc (suc (suc (suc (suc (suc zero)))))))))))))))))))
      h =
    refl
lower-letter c
      (suc (
        suc (
          suc (
            suc (
              suc (
                suc (
                  suc (
                    suc (
                      suc (
                        suc
                          (suc (suc (suc (suc (suc (suc (suc (suc (suc (suc zero))))))))))))))))))))
      h =
    refl
lower-letter c
      (suc (
        suc (
          suc (
            suc (
              suc (
                suc (
                  suc (
                    suc (
                      suc (
                        suc (
                          suc (
                            suc
                              (suc (suc (suc (suc (suc (suc (suc (suc (suc zero)))))))))))))))))))))
      h =
    refl
lower-letter c
      (suc (
        suc (
          suc (
            suc (
              suc (
                suc (
                  suc (
                    suc (
                      suc (
                        suc (
                          suc (
                            suc (
                              suc (
                                suc
                                  (suc (suc (suc (suc (suc (suc (suc (suc zero))))))))))))))))))))))
      h =
    refl
lower-letter c
      (suc (
        suc (
          suc (
            suc (
              suc (
                suc (
                  suc (
                    suc (
                      suc (
                        suc (
                          suc (
                            suc (
                              suc (
                                suc (
                                  suc (
                                    suc
                                      (suc (suc (suc (suc (suc (suc (suc zero)))))))))))))))))))))))
      h =
    refl
lower-letter c
      (suc (
        suc (
          suc (
            suc (
              suc (
                suc (
                  suc (
                    suc (
                      suc (
                        suc (
                          suc (
                            suc (
                              suc (
                                suc (
                                  suc (
                                    suc (
                                      suc (
                                        suc
                                          (suc (suc (suc (suc (suc (suc zero))))))))))))))))))))))))
      h =
    refl
lower-letter c
      (suc (
        suc (
          suc (
            suc (
              suc (
                suc (
                  suc (
                    suc (
                      suc (
                        suc (
                          suc (
                            suc (
                              suc (
                                suc (
                                  suc (
                                    suc (
                                      suc (
                                        suc (
                                          suc (
                                            suc
                                              (suc (suc (suc (suc (suc zero)))))))))))))))))))))))))
      h =
    refl
lower-letter c
      (suc (
        suc (
          suc (
            suc (
              suc (
                suc (
                  suc (
                    suc (
                      suc (
                        suc (
                          suc (
                            suc (
                              suc (
                                suc (
                                  suc (
                                    suc (
                                      suc (
                                        suc (
                                          suc (
                                            suc (
                                              suc
                                                (suc (suc (suc (suc (suc n))))))))))))))))))))))))))
      h =
    absurd (omega arith)

lower_char_idem : (c : Char) → lower_char (lower_char c) ≡ lower_char c
lower_char_idem c = elim (Bool-cases (leb b'A' (code c) && leb (code c) b'Z')) [
  | inl e ↦
      let f : lower_char c ≡ char_or c (code c - b'A') "abcdefghijklmnopqrstuvwxyz" =
        unfold lower_char in rw e in
      rw f (lower-letter c (code c - b'A') (ground arith))
  | inr e ↦ let f : lower_char c ≡ c = unfold lower_char in rw e in ap lower_char f
]

-- Lowering a text twice is lowering it once.
pub lower_idem : (s : String) → lower (lower s) ≡ lower s
unfolding lower
lower_idem String.[] = refl
lower_idem (String.◌∷◌ c s) = cc (lower_char_idem c, lower_idem s)
