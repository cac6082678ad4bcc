-- ===== src/Session.antt =====
-- A database session: app/core/database.py and SQLAlchemy's `AsyncSession`, as the services use it.
-- A service's function is an action on the session: it returns a value or raises, and what it wrote
-- before it raised stays written until somebody rolls back. The rows that other transactions hold
-- locked are not seen: a row lock makes the actions on that row follow one another.
pub mod Keeps
pub mod Returns
pub use gift_hub.Errors.{
  Error, Result, ok, err, value_error, integrity_error, user_not_found, insufficient_balance,
  order_not_found, invalid_order_state, price_expired, promo_code_expired, promo_code_limit_reached,
  promo_code_already_used, domain_error,
}
use gift_hub.Prelude.{◌≡◌, refl, Bool, true, false, Option, none, some, if◌then◌else◌}
use gift_hub.Models.{Db}
use gift_hub.Prelude.{ℕ}
use gift_hub.Prelude.Dict.{Dict}
use gift_hub.Circuit.{Breaker}

-- The memory of `FeatureFlagService`; the instant in milliseconds.
pub record FlagCache : Type 0 where
  pub flags : Dict Bool
  pub refreshed_at : ℕ

-- What the transaction sees, what has been committed, and the memory of the process: the circuit
-- breaker and the feature flags, which no rollback touches.
pub record Session : Type 0 where
  pub db : Db
  pub saved : Db
  pub breaker : Breaker
  pub flag_cache : FlagCache

abbrev pub Exec : Type 0 → Type 0
Exec A = Session → Result A × Session

module _ {A : Type 0} where
  abbrev pub pure : A → Exec A
  pure a s = (ok a, s)

  abbrev pub raise : Error → Exec A
  raise e s = (err e, s)

  abbrev pub gets : (Db → A) → Exec A
  gets f s = (ok (f s.db), s)

  -- `if not row: raise e`
  abbrev pub or_raise : Error → Option A → Exec A
  or_raise e none = raise e
  or_raise e (some a) = pure a

  abbrev pub lift : Result A → Exec A
  lift r s = (r, s)

module _ {A B : Type 0} where
  -- What follows a call, by how the call ended.
  abbrev pub continue : Result A → (A → Exec B) → Exec B
  continue (ok a) f s = f a s
  continue (err e) f s = (err e, s)

infixl 5 ◌>>=◌ ◌>>◌
abbrev pub ◌>>=◌ : {A B : Type 0} → Exec A → (A → Exec B) → Exec B
◌>>=◌ m f s = let (r, s') = m s in continue r f s'

abbrev pub ◌>>◌ : {A B : Type 0} → Exec A → Exec B → Exec B
m >> k = m >>= λ _. k

abbrev pub raise_if : Bool → Error → Exec (Unit {0})
raise_if c e s = (if c then err e else ok tt, s)

abbrev pub modify : (Db → Db) → Exec (Unit {0})
modify f s = (ok tt, record s { db = f s.db })

-- `session.commit()`
abbrev pub commit : Exec (Unit {0})
commit s = (ok tt, record s { saved = s.db })

-- `session.rollback()`
abbrev pub rollback : Exec (Unit {0})
rollback s = (ok tt, record s { db = s.saved })

-- `session.flush()`, where `valid` says whether what is pending meets the constraints of the
-- tables. A failed flush rolls the transaction back and raises. What a caller that catches the error
-- does next runs on the committed tables; that SQLAlchemy wants `rollback()` called first is left
-- out.
abbrev pub flush : (Db → Bool) → Exec (Unit {0})
flush valid s = if valid s.db then (ok tt, s) else (err integrity_error, record s { db = s.saved })

-- A guard that did not raise.
pub passed :
    (b : Bool) (e : Error) (r : Result (Unit {0}))
    → (if b then err e else r) ≡ ok tt
    → (b ≡ false) × (r ≡ ok tt)
passed true e r h = cc h
passed false e r h = (refl, h)
