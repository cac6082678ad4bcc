-- ===== src/Session/Keeps.antt =====
-- Predicates of a session that actions keep, however they end. A `Kept` action is built step by step
-- like the action itself, with the proof beside it.
use gift_hub.Prelude.{◌≡◌, Bool, true, false, Option, none, some, if◌then◌else◌}
use gift_hub.Models.{Db}
use gift_hub.Session.{Session, Exec, Result, ok, err, Error, continue}
use gift_hub.Session

abbrev pub Keeps : (Session → Type 0) → {A : Type 0} → Exec A → Type 0
Keeps P m = (s : Session) → P s → P (m s).1

pub continue-Keeps :
    (P : Session → Type 0) {A B : Type 0} (r : Result A) (f : A → Exec B) (s : Session)
    → ((a : A) → Keeps P (f a))
    → P s
    → P (continue r f s).1
continue-Keeps P (ok a) f s k h = k a s h
continue-Keeps P (err e) f s k h = h

abbrev pub Kept : (Session → Type 0) → Type 0 → Type 0
Kept P A = (m : Exec A) × Keeps P m

infixl 5 ◌>>=◌ ◌>>◌
abbrev pub ◌>>=◌ : {P : Session → Type 0} {A B : Type 0} → Kept P A → (A → Kept P B) → Kept P B
◌>>=◌ {P} m f = (
  Session.◌>>=◌ m.0 (λ a. (f a).0),
  λ s h. continue-Keeps P (m.0 s).0 (λ a. (f a).0) (m.0 s).1 (λ a. (f a).1) (m.1 s h),
)

abbrev pub ◌>>◌ : {P : Session → Type 0} {A B : Type 0} → Kept P A → Kept P B → Kept P B
m >> k = m >>= λ _. k

pub or_raise-Keeps :
    (P : Session → Type 0) {A : Type 0} (e : Error) (o : Option A) → Keeps P (Session.or_raise e o)
or_raise-Keeps P e none s h = h
or_raise-Keeps P e (some a) s h = h

pub if-Keeps :
    (P : Session → Type 0) {A : Type 0} (b : Bool) (m n : Exec A)
    → Keeps P m
    → Keeps P n
    → Keeps P (if b then m else n)
if-Keeps P true m n k l = k
if-Keeps P false m n k l = l

module _ {P : Session → Type 0} {A : Type 0} where
  abbrev pub pure : A → Kept P A
  pure a = (Session.pure a, λ s h. h)

  abbrev pub raise : Error → Kept P A
  raise e = (Session.raise e, λ s h. h)

  abbrev pub gets : (Db → A) → Kept P A
  gets f = (Session.gets f, λ s h. h)

  abbrev pub lift : Result A → Kept P A
  lift r = (Session.lift r, λ s h. h)

  abbrev pub or_raise : Error → Option A → Kept P A
  or_raise e o = (Session.or_raise e o, or_raise-Keeps P e o)

  abbrev pub branch : Bool → Kept P A → Kept P A → Kept P A
  branch b m n = (if b then m.0 else n.0, if-Keeps P b m.0 n.0 m.1 n.1)

abbrev pub raise_if : {P : Session → Type 0} → Bool → Error → Kept P (Unit {0})
raise_if c e = (Session.raise_if c e, λ s h. h)

-- A branch that is not taken.
pub unless-Keeps :
    (P : Session → Type 0) {A : Type 0} (b : Bool) (m n : Exec A)
    → b ≡ false
    → Keeps P n
    → Keeps P (if b then m else n)
unless-Keeps P true m n e k = cc e
unless-Keeps P false m n e k = k

abbrev pub unless :
    {P : Session → Type 0} {A : Type 0} (b : Bool) → b ≡ false → Exec A → Kept P A → Kept P A
unless {P} b e m n = (if b then m else n.0, unless-Keeps P b m n.0 e n.1)
