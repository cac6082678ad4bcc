-- ===== src/Checkout/Once.antt =====
-- A checkout that is sent again with its idempotency key.
use gift_hub.Prelude.{
  ℕ, String, ◌≡◌, refl, ap, ◌∙◌, ◌⊎◌, Option, none, some, leb, count_rows, Bool-cases, inl, inr,
}
use gift_hub.Prelude.Int.{pos}
use gift_hub.Models.Orders.{Order}
use gift_hub.Orders.{Env}
use gift_hub.Risk.{check_checkout_spam, log_risk_event, unpaid_since}
use gift_hub.Session.{Session, Exec, Result, ok, err, Error, continue, gets, pure, ◌>>=◌}
use gift_hub.Checkout.{Checkout, check_flags, check_spam, earlier_order, given}
use gift_hub.Checkout.Placing.{Placed, new_checkout, create_order}
use gift_hub.Checkout.Stable.{check_flags-Keeps}

-- The tables that a checkout works on are those of `d`, apart from the log of risks, and nothing
-- has been committed.
pub record IsUntouched (s t : Session) : Type 0 where
  pub users : t.db.users ≡ s.db.users
  pub ledger : t.db.wallet_transactions ≡ s.db.wallet_transactions
  pub orders : t.db.orders ≡ s.db.orders
  pub keys : t.db.checkout_idempotency ≡ s.db.checkout_idempotency
  pub events : t.db.outbox_events ≡ s.db.outbox_events
  pub history : t.db.order_status_history ≡ s.db.order_status_history
  pub codes : t.db.promo_codes ≡ s.db.promo_codes
  pub locks : t.db.price_locks ≡ s.db.price_locks
  pub committed : t.saved ≡ s.saved

-- The answer is the earlier order, or a refusal.
abbrev pub IsAnswer : Order → Result Placed → Type 0
IsAnswer o r = (r ≡ ok (o, (pos 0, none))) ⊎ ((e : Error) × (r ≡ err e))

module _ (s : Session) (o : Order) where
  abbrev Repeats : Result Placed × Session → Type 0
  Repeats r = IsAnswer o r.0 × IsUntouched s r.1

  continue-Repeats :
      {A : Type 0} (r : Result A) (f : A → Exec Placed) (t : Session)
      → ((a : A) → IsUntouched s t → Repeats (f a t))
      → IsUntouched s t
      → Repeats (continue r f t)
  continue-Repeats (ok a) f t k h = k a h
  continue-Repeats (err e) f t k h = (inr (e, refl), h)

  spam-IsUntouched :
      (now user : ℕ) (t : Session) → IsUntouched s t → IsUntouched s (check_spam now user t).1
  unfolding check_spam check_checkout_spam log_risk_event
  spam-IsUntouched now user t h =
      elim (Bool-cases (leb 10 (count_rows (unpaid_since now user) t.db.orders))) [
        | inl y ↦ rw y (record {
          users = h.users;
          ledger = h.ledger;
          orders = h.orders;
          keys = h.keys;
          events = h.events;
          history = h.history;
          codes = h.codes;
          locks = h.locks;
          committed = h.committed;
        })
        | inr n ↦ rw n h
      ]

  flags-IsUntouched :
      (clock : ℕ) (p : String) (t : Session)
      → IsUntouched s t
      → IsUntouched s (check_flags clock p t).1
  flags-IsUntouched clock p =
      check_flags-Keeps (IsUntouched s)
        (λ c t h. record {
          users = h.users;
          ledger = h.ledger;
          orders = h.orders;
          keys = h.keys;
          events = h.events;
          history = h.history;
          codes = h.codes;
          locks = h.locks;
          committed = h.committed;
        })
        clock p

  earlier-same :
      (k : Option String) (user : ℕ) (t : Session)
      → IsUntouched s t
      → earlier_order k user t.db ≡ earlier_order k user s.db
  unfolding earlier_order
  earlier-same none user t h = refl
  earlier-same (some k) user t h = rw (h.keys, h.orders)

  module _ (env : Env) (c : Checkout)
      (k : earlier_order (given c.idempotency_key) c.user_id s.db ≡ some o) where
    abbrev reply : Option Order → Exec Placed
    reply e = elim e [ none ↦ new_checkout env c | some p ↦ pure (p, (pos 0, none)) ]

    abbrev answer : Exec Placed
    answer = gets (earlier_order (given c.idempotency_key) c.user_id) >>= reply

    reply-Repeats :
        (t : Session) (e : Option Order) → e ≡ some o → IsUntouched s t → Repeats (reply e t)
    reply-Repeats t none e h = cc e
    reply-Repeats t (some p) e h =
        let same : p ≡ o = cc e in (inl (ap (λ x. ok (x, (pos 0, none))) same), h)

    answer-Repeats : (t : Session) → IsUntouched s t → Repeats (answer t)
    answer-Repeats t h =
        reply-Repeats t (earlier_order (given c.idempotency_key) c.user_id t.db)
          (earlier-same (given c.idempotency_key) c.user_id t h ∙ k) h

    abbrev checked : Exec Placed
    checked = check_spam env.now c.user_id >>= λ _. answer

    checked-Repeats : (t : Session) → IsUntouched s t → Repeats (checked t)
    checked-Repeats t h =
        continue-Repeats (check_spam env.now c.user_id t).0 (λ _. answer)
          (check_spam env.now c.user_id t).1 (λ _. answer-Repeats _)
          (spam-IsUntouched env.now c.user_id t h)

    -- A checkout whose user already has an order under its idempotency key places nothing: it
    -- answers with that order, or is refused, and in either case users, ledger, orders, promo codes,
    -- price locks and events stay as they are, and nothing is committed.
    pub checkout_once : IsAnswer o (create_order env c s).0 × IsUntouched s (create_order env c s).1
    unfolding create_order
    checkout_once =
        let untouched : IsUntouched s s = record {
          users = refl;
          ledger = refl;
          orders = refl;
          keys = refl;
          events = refl;
          history = refl;
          codes = refl;
          locks = refl;
          committed = refl;
        } in
        let flags = check_flags env.clock c.product_type s in
        continue-Repeats flags.0 (λ _. checked) flags.1 (λ _. checked-Repeats _)
          (flags-IsUntouched env.clock c.product_type s untouched)
