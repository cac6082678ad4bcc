-- ===== src/Pricing/Kept.antt =====
-- A price lock from its creation to its use.
use gift_hub.Prelude.{
  ℕ, ◌+◌, ◌≤◌, String, ◌≡◌, ap, ◌∙◌, true, false, none, some, [], ◌∷◌, ◌++◌, arith, ltb, find,
  find-append,
}
use gift_hub.Prelude.Dict.{str_eq_refl}
use gift_hub.Prelude.Int.{ℤ, leb_ℤ}
use gift_hub.Session.{Session, ok}
use gift_hub.Pricing.{has_lock_id, check_lock, use_lock, validate_or_consume_price_lock}
use gift_hub.Pricing.Prices.{
  Price, get_authoritative_price, new_lock, create_price_lock, price_lock_time,
}

leb_ℤ_refl : (a : ℤ) → leb_ℤ a a ≡ true
leb_ℤ_refl a = ground arith

check_lock-new :
    (now later : ℕ) (i t : String) (a : ℤ) (p : Price)
    → later ≤ now + price_lock_time
    → check_lock later t a (new_lock now i t a p) ≡ ok tt
unfolding check_lock
check_lock-new now later i t a p soon =
    let fresh : ltb (now + price_lock_time) later ≡ false = ground arith in
    rw (fresh, str_eq_refl t, leb_ℤ_refl a)

found_lock :
    (now later : ℕ) (i t : String) (a : ℤ) (s : Session) (p : Price)
    → find (has_lock_id i) s.db.price_locks ≡ some (new_lock now i t a p)
    → later ≤ now + price_lock_time
    → (validate_or_consume_price_lock later i t a s).0 ≡ ok (use_lock (new_lock now i t a p))
unfolding validate_or_consume_price_lock
found_lock now later i t a s p k soon = rw (k, check_lock-new now later i t a p soon)

-- A price lock that is created under a new id, for a product that has a price, holds that price: a
-- checkout of the same product within the lock's time is given the lock with that price, whatever
-- has become of all other tables, and so of the prices, in between.
pub lock_keeps_price :
    (now later : ℕ) (i t : String) (a : ℤ) (s s' : Session) {p : Price}
    → find (has_lock_id i) s.db.price_locks ≡ none
    → get_authoritative_price t a none s.db ≡ ok p
    → later ≤ now + price_lock_time
    → s'.db.price_locks ≡ (create_price_lock now i t a s).1.db.price_locks
    → (validate_or_consume_price_lock later i t a s').0 ≡ ok (use_lock (new_lock now i t a p))
unfolding create_price_lock
lock_keeps_price now later i t a s s' {p} new priced soon same =
    let l = new_lock now i t a p in
    let same' : s'.db.price_locks ≡ s.db.price_locks ++ l ∷ [] = rw priced at same in
    let found : find (has_lock_id i) s'.db.price_locks ≡ some l =
      ap (find (has_lock_id i)) same'
      ∙ find-append (has_lock_id i) s.db.price_locks l new (str_eq_refl i) in
    found_lock now later i t a s' p found soon
