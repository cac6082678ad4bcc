-- ===== src/Pricing/Locks.antt =====
-- Calls of `validate_or_consume_price_lock`, one after the other.
use gift_hub.Prelude.{ℕ, ◌≤◌, String, ◌≡◌, false, some, find}
use gift_hub.Prelude.Int.{ℤ}
use gift_hub.Models.{PriceLock}
use gift_hub.Session.{Session}
use gift_hub.Pricing.{has_lock_id, use_lock, set_lock}

module _ (now : ℕ) (i : String) (product : String) (amount : ℤ) (s : Session) where
  -- A lock that was taken.
  pub record IsConsumed (s' : Session) : Type 0 where
    pub lock : PriceLock
    pub found : find (has_lock_id i) s.db.price_locks ≡ some lock
    pub unused : lock.is_used ≡ false
    pub valid : now ≤ lock.expires_at
    pub after : s' ≡ record s { db = set_lock (use_lock lock) s.db }
