-- ===== src/Worker/CleanUp.antt =====
-- The clean-up of price locks and the checkouts that hold them.
use gift_hub.Prelude.{
  ℕ, ◌≤◌, String, ◌≡◌, refl, ap, Bool, true, false, not, ◌⊎◌, inl, inr, Bool-cases, List, [], ◌∷◌,
  All, where_rows, arith,
}
use gift_hub.Prelude.Every.{All-where_test, All-imp}
use gift_hub.Prelude.Int.{ℤ}
use gift_hub.Models.{PriceLock}
use gift_hub.Pricing.{check_lock}
use gift_hub.Session.{Session, Result, ok, err}
use gift_hub.Worker.{is_stale, cleanup}

-- A query that only asks for rows that another one keeps.
where-where :
    (p q : PriceLock → Bool) (ls : List PriceLock)
    → ((l : PriceLock) → p l ≡ true → q l ≡ true)
    → where_rows p (where_rows q ls) ≡ where_rows p ls
where-where p q [] h = refl
where-where p q (l ∷ ls) h =
    let rest = where-where p q ls h in
    elim (Bool-cases (q l)) [
      | inl y ↦ elim (Bool-cases (p l)) [
        | inl z ↦ rw (y, z) (ap (λ ks. l ∷ ks) rest)
        | inr n ↦ rw (y, n) rest
      ]
      | inr n ↦ elim (Bool-cases (p l)) [ inl z ↦ cc (n, h l z) | inr m ↦ rw (n, m) rest ]
    ]

abbrev is_ok : Result (Unit {0}) → Bool
is_ok (ok u) = true
is_ok (err e) = false

-- Whether a checkout accepts the lock.
abbrev pub is_accepted : ℕ → String → ℤ → PriceLock → Bool
is_accepted now product amount l = is_ok (check_lock now product amount l)

accepted-fresh :
    (now : ℕ) (product : String) (amount : ℤ) (l : PriceLock)
    → is_accepted now product amount l ≡ true
    → not (is_stale now l) ≡ true
unfolding check_lock
accepted-fresh now product amount l h = ground arith

fresh-cases :
    (now : ℕ) (k : PriceLock)
    → not (is_stale now k) ≡ true
    → (k.is_used ≡ true) ⊎ (now ≤ k.expires_at)
fresh-cases now k h = elim (Bool-cases (k.is_used)) [ inl y ↦ inl y | inr n ↦ inr (ground arith) ]

-- The clean-up of price locks leaves the locks that a checkout at that instant would accept as they
-- were, in their order, whatever product and amount it is for, and likewise the used ones; and every
-- lock that is left is used or has not expired.
pub cleanup_keeps_usable :
    (now : ℕ) (product : String) (amount : ℤ) (s : Session)
    → let left = (cleanup now s).1.db.price_locks in
      (where_rows (is_accepted now product amount) left
        ≡ where_rows (is_accepted now product amount) s.db.price_locks)
      × (where_rows (λ k. k.is_used) left ≡ where_rows (λ k. k.is_used) s.db.price_locks)
      × All (λ k. (k.is_used ≡ true) ⊎ (now ≤ k.expires_at)) left
unfolding cleanup
cleanup_keeps_usable now product amount s = (
  where-where (is_accepted now product amount) (λ k. not (is_stale now k)) s.db.price_locks
      (accepted-fresh now product amount),
  where-where (λ k. k.is_used) (λ k. not (is_stale now k)) s.db.price_locks (λ k h. ground arith),
  All-imp (λ k. not (is_stale now k) ≡ true) (λ k. (k.is_used ≡ true) ⊎ (now ≤ k.expires_at)) _
      (λ k h. fresh-cases now k h) (All-where_test (λ k. not (is_stale now k)) s.db.price_locks),
)
