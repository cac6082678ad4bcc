-- ===== src/Session/Returns.antt =====
-- What holds of the value and the session that an action returns with. An action that raises meets
-- every such condition.
use gift_hub.Prelude.{◌≡◌, Bool, true, false, if◌then◌else◌}
use gift_hub.Session.{Session, Exec, Result, ok, err, continue}

abbrev pub Returns : {A : Type 0} → (A → Session → Type 0) → Result A × Session → Type 0
Returns Q (ok a, s) = Q a s
Returns Q (err e, s) = Unit

module _ {A : Type 0} (Q : A → Session → Type 0) where
  pub continue-Returns :
      {B : Type 0} (P : B → Session → Type 0) (r : Result B × Session) (f : B → Exec A)
      → Returns P r
      → ((b : B) (s : Session) → P b s → Returns Q (f b s))
      → Returns Q (continue r.0 f r.1)
  continue-Returns P (ok b, s) f h k = k b s h
  continue-Returns P (err e, s) f h k = tt

  pub if-Returns :
      (b : Bool) (m n : Exec A) (s : Session)
      → Returns Q (m s)
      → Returns Q (n s)
      → Returns Q ((if b then m else n) s)
  if-Returns true m n s h k = h
  if-Returns false m n s h k = k

  pub lift-Returns :
      {B : Type 0} (v : Result B) (f : B → Exec A) (s : Session)
      → ((b : B) → Returns Q (f b s))
      → Returns Q (continue v f s)
  lift-Returns (ok b) f s k = k b
  lift-Returns (err e) f s k = tt

  -- The other branch of a step that is not taken.
  pub unless-Returns :
      {B : Type 0} (c : Bool) (m n : Exec B) (f : B → Exec A) (s : Session)
      → c ≡ false
      → Returns Q (continue (n s).0 f (n s).1)
      → let r = (if c then m else n) s in Returns Q (continue r.0 f r.1)
  unless-Returns true m n f s e h = cc e
  unless-Returns false m n f s e h = h

  -- Where what follows meets the condition, whatever the step has done.
  pub after-Returns :
      {B : Type 0} (r : Result B × Session) (f : B → Exec A)
      → ((b : B) (s : Session) → Returns Q (f b s))
      → Returns Q (continue r.0 f r.1)
  after-Returns (ok b, s) f k = k b s
  after-Returns (err e, s) f k = tt
