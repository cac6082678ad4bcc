-- ===== src/Pricing.antt =====
-- Price locks: `validate_or_consume_price_lock` of app/services/pricing/service.py, over `PriceLock`
-- of app/models/pricing.py. The clock's reading is an argument.
pub mod Locks
pub mod Prices
pub mod Tiers
pub mod Margins
pub mod Kept
use gift_hub.Prelude.{
  ℕ, String, Bool, true, false, not, ◌&&◌, ◌||◌, Option, none, some, List, str_eq, ltb, find,
  update_rows, if◌then◌else◌,
}
use gift_hub.Prelude.Int.{ℤ, leb_ℤ}
use gift_hub.Models.{Db, PriceLock}
use gift_hub.Session.{
  Exec, Result, ok, err, pure, gets, or_raise, lift, modify, ◌>>=◌, ◌>>◌, price_expired,
  domain_error,
}

abbrev pub has_lock_id : String → PriceLock → Bool
has_lock_id i l = str_eq l.id i

abbrev same_amount : ℤ → ℤ → Bool
same_amount a b = leb_ℤ a b && leb_ℤ b a

unfoldable pub check_lock : ℕ → String → ℤ → PriceLock → Result (Unit {0})
check_lock now product_type amount l =
    if l.is_used
    then err price_expired
    else if ltb l.expires_at now
    then err price_expired
    else if not (str_eq l.product_type product_type) || not (same_amount l.amount amount)
    then err (domain_error "ERROR")
    else ok tt

abbrev pub use_lock : PriceLock → PriceLock
use_lock l = record l { is_used = true }

abbrev pub set_lock : PriceLock → Db → Db
set_lock l d = record d { price_locks = update_rows (has_lock_id l.id) (λ _. l) d.price_locks }

unfoldable pub validate_or_consume_price_lock : ℕ → String → String → ℤ → Exec PriceLock
unfolding check_lock
validate_or_consume_price_lock now lock_id product_type amount = do
  found ← gets (λ d. find (has_lock_id lock_id) d.price_locks)
  lock ← or_raise price_expired found
  lift (check_lock now product_type amount lock)
  modify (set_lock (use_lock lock))
  pure (use_lock lock)
