-- ===== src/Checkout/Whole.antt =====
-- What a checkout commits, however it ends.
use gift_hub.Prelude.{
  ℕ, String, ◌≡◌, refl, ◌⊎◌, Bool, true, false, Option, none, some, find, any, inl, inr,
  if◌then◌else◌,
}
use gift_hub.Prelude.Int.{pos}
use gift_hub.Models.{Db}
use gift_hub.Models.Orders.{Order}
use gift_hub.Orders.{Env}
use gift_hub.Session
use gift_hub.Session.{Session, Exec, Result, ok, err, continue}
use gift_hub.Session.Keeps.{Kept}
use gift_hub.Checkout.{
  Checkout, check_flags, check_spam, earlier_order, given, has_key, order_of, quote,
}
use gift_hub.Checkout.Placing.{
  Placed, place, request_delivery, is_wallet_payment, resolve, return_order, commit_checkout,
  new_checkout, create_order,
}
use gift_hub.Checkout.Stable.{check_flags-Keeps, check_spam-Keeps, quote-Keeps}
use gift_hub.Checkout.Through.{place-Keeps, request_delivery-Keeps}
use gift_hub.Checkout.Atomic.{saved-IsStable}

-- Where `d` was committed before: a call that raises has committed nothing, and one that returns has
-- committed nothing or all that it did.
abbrev pub AllOrNothing : {A : Type 0} → Db → Result A × Session → Type 0
AllOrNothing d (err e, t) = t.saved ≡ d
AllOrNothing d (ok a, t) = (t.saved ≡ d) ⊎ (t.saved ≡ t.db)

abbrev IsAtomic : {A : Type 0} → Db → Exec A → Type 0
IsAtomic d m = (s : Session) → s.saved ≡ d → AllOrNothing d (m s)

module _ (d : Db) where
  abbrev Unsaved : Session → Type 0
  Unsaved s = s.saved ≡ d

  continue-IsAtomic :
      {A B : Type 0} (r : Result A) (f : A → Exec B) (s : Session)
      → ((a : A) → IsAtomic d (f a))
      → s.saved ≡ d
      → AllOrNothing d (continue r f s)
  continue-IsAtomic (ok a) f s k h = k a s h
  continue-IsAtomic (err e) f s k h = h

  -- An action that commits nothing, before an atomic one.
  abbrev before :
      {A B : Type 0}
      → Kept Unsaved A
      → (A → (m : Exec B) × IsAtomic d m)
      → (m : Exec B) × IsAtomic d m
  before m f = (
    Session.◌>>=◌ m.0 (λ a. (f a).0),
    λ s h. continue-IsAtomic (m.0 s).0 (λ a. (f a).0) (m.0 s).1 (λ a. (f a).1) (m.1 s h),
  )

  return-IsAtomic : (o : Option Order) → IsAtomic d (return_order o)
  return-IsAtomic none s h = h
  return-IsAtomic (some o) s h = inl h

  resolve-IsAtomic : (k : String) → IsAtomic d (resolve k)
  unfolding resolve
  resolve-IsAtomic k s h =
      return-IsAtomic (order_of (find (has_key k) s.saved.checkout_idempotency) s.saved.orders) _ h

  taken-IsAtomic :
      (b : Bool) (k : String) (p : Placed)
      → IsAtomic d (if b then resolve k else Session.◌>>◌ Session.commit (Session.pure p))
  taken-IsAtomic true k p = resolve-IsAtomic k
  taken-IsAtomic false k p = λ s h. inr refl

  commit-IsAtomic :
      (env : Env) (k : Option String) (user : ℕ) (p : Placed)
      → IsAtomic d (commit_checkout env k user p)
  unfolding commit_checkout
  commit-IsAtomic env none user p s h = inr refl
  commit-IsAtomic env (some k) user p s h =
      taken-IsAtomic (any (has_key k) s.db.checkout_idempotency) k p _ h

  new_checkout-IsAtomic : (env : Env) (c : Checkout) → IsAtomic d (new_checkout env c)
  unfolding new_checkout
  new_checkout-IsAtomic env c =
      let st = saved-IsStable d in
      let lock = given c.price_lock_id in
      let wallet = is_wallet_payment c.payment_method in
      (before (quote env.now c lock, quote-Keeps Unsaved st env.now c lock)
        (λ q.
          before (place env c q, place-Keeps Unsaved st env c q)
            (λ o.
              before
                (request_delivery env c o wallet, request_delivery-Keeps Unsaved st env c o wallet)
                (λ r. (
                  commit_checkout env (given c.idempotency_key) c.user_id (o, r),
                  commit-IsAtomic env (given c.idempotency_key) c.user_id (o, r),
                ))))).1

  earlier-IsAtomic :
      (env : Env) (c : Checkout) (e : Option Order)
      → IsAtomic {A = Placed} d
          (elim e [ none ↦ new_checkout env c | some o ↦ Session.pure (o, (pos 0, none)) ])
  earlier-IsAtomic env c none = new_checkout-IsAtomic env c
  earlier-IsAtomic env c (some o) = λ s h. inl h

  create_order-IsAtomic : (env : Env) (c : Checkout) → IsAtomic d (create_order env c)
  unfolding create_order
  create_order-IsAtomic env c =
      let st = saved-IsStable d in
      (before
        (
          check_flags env.clock c.product_type,
          check_flags-Keeps Unsaved st.caches env.clock c.product_type,
        )
        (λ _.
          before (check_spam env.now c.user_id, check_spam-Keeps Unsaved st env.now c.user_id)
            (λ _.
              before (Session.gets (earlier_order (given c.idempotency_key) c.user_id), λ s h. h)
                (λ e. (
                  elim e [ none ↦ new_checkout env c | some o ↦ Session.pure (o, (pos 0, none)) ],
                  earlier-IsAtomic env c e,
                ))))).1

-- A checkout is all or nothing: when it raises, at whatever step, nothing has been committed; when it
-- returns an order, either nothing has been committed or everything it did has.
pub checkout_atomic :
    (env : Env) (c : Checkout) (s : Session) → AllOrNothing s.saved (create_order env c s)
checkout_atomic env c s = create_order-IsAtomic s.saved env c s refl
