-- ===== src/Checkout/Delivery.antt =====
-- The request of a delivery, from the checkout that writes it to the dead letter queue.
use gift_hub.Prelude.{
  ℕ, String, ◌≡◌, refl, sym, ap, ◌∙◌, true, Option, none, some, List, ◌∷◌, length, find,
  find-append, arith, Bool-cases, inl, inr,
}
use gift_hub.Prelude.Int.{ℤ, pos, leb_ℤ, ◌+ℤ◌}
use gift_hub.Prelude.Texts.{show-nonempty}
use gift_hub.Prelude.Texts.Numerals.{int_of-show, is_digit-show}
use gift_hub.Dlq.{FailedJob}
use gift_hub.Models.{Db, User, WalletTransaction}
use gift_hub.Models.Orders.{Order}
use gift_hub.Orders.{Env}
use gift_hub.Outbox.{OutboxEvent, has_id, next_id, create_event}
use gift_hub.Outbox.Retries.{mark_failed_times}
use gift_hub.Outbox.Letters.{HasLetter, letter_names}
use gift_hub.Referrals.{
  Commission, add_reward, add_earnings, auto_reward_of, bonus_entry, commission_due, pay_commission,
  process_order_referral_reward,
}
use gift_hub.Session
use gift_hub.Session.{
  Session, Result, ok, err, modify, flush as flush_all, value_error, user_not_found,
}
use gift_hub.Session.Keeps.{Keeps, Kept, gets, pure, raise_if, or_raise, branch, ◌>>=◌, ◌>>◌}
use gift_hub.Wallet.{
  Entry, credit_balance, book, get_user_locked, ledger_row, ledger_valid, or_system, has_user_id,
}
use gift_hub.Checkout.{Checkout}
use gift_hub.Checkout.Placing.{fulfillment_event, request_delivery, add_event}

-- The reward of a referrer leaves the events alone, also when a flush fails.
module _ (events : List OutboxEvent) where
  abbrev Same : Session → Type 0
  Same s = (s.db.outbox_events ≡ events) × (s.saved.outbox_events ≡ events)

  abbrev change :
      (f : Db → Db) → ((d : Db) → (f d).outbox_events ≡ d.outbox_events) → Kept Same (Unit {0})
  change f k = (modify f, λ s h. (k s.db ∙ h.0, h.1))

  book-Same : (t : WalletTransaction) (method : String) → Keeps Same (book t method)
  unfolding book
  book-Same t method s h = elim (Bool-cases (ledger_valid t s.db.wallet_transactions)) [
    | inl y ↦ rw y h
    | inr n ↦ rw n (h.1, h.1)
  ]

  credit-Same : (i : ℕ) (a : ℤ) (e : Entry) → Keeps Same (credit_balance i a e)
  unfolding credit_balance get_user_locked
  credit-Same i a e =
      (do
        raise_if (leb_ℤ a (pos 0)) value_error
        found ← gets (λ d. find (has_user_id i) d.users)
        user ← or_raise user_not_found found
        let after = user.balance +ℤ a
        let t = ledger_row i a user.balance after e
        (book t (or_system e.reference_type), book-Same t (or_system e.reference_type))
        pure (record user { balance = after }, t)).1

  commission-Same : (order : ℕ) (c : Commission) → Keeps Same (pay_commission order c)
  unfolding pay_commission
  commission-Same order c =
      (do
        auto ← gets auto_reward_of
        change (add_reward order auto c) (λ d. refl)
        branch auto
            (do
              (
                credit_balance c.referrer.id c.amount (bonus_entry order),
                credit-Same c.referrer.id c.amount (bonus_entry order),
              )
              change (add_earnings c) (λ d. refl))
            (pure tt)).1

  due-Same :
      (order : ℕ) (due : Option Commission)
      → Keeps Same {A = ℤ × Option User} (elim due [
        | none ↦ Session.pure (pos 0, none)
        | some c ↦
            Session.◌>>◌
              (pay_commission order c)
              (Session.gets (λ d. (c.amount, find (has_user_id c.referrer.id) d.users)))
      ])
  due-Same order none = λ s h. h
  due-Same order (some c) =
      (do
        (pay_commission order c, commission-Same order c)
        gets (λ d. (c.amount, find (has_user_id c.referrer.id) d.users))).1

  reward-Same : (order buyer : ℕ) (a : ℤ) → Keeps Same (process_order_referral_reward order buyer a)
  unfolding process_order_referral_reward
  reward-Same order buyer a s h = due-Same order (commission_due order buyer a s.db) s h

written :
    (env : Env) (c : Checkout) (o : Order) (q : Result (ℤ × Option User) × Session) (s' : Session)
    (r : ℤ × Option User)
    → Session.continue q.0
        (λ reward.
          Session.◌>>◌ (modify (add_event env.now (fulfillment_event c o))) (Session.pure reward))
        q.1
      ≡ (ok r, s')
    → s'.db.outbox_events ≡ create_event env.now (fulfillment_event c o) q.1.db.outbox_events
written env c o (ok a, t) s' r h = ap (λ z. z.1.db.outbox_events) (sym h)
written env c o (err e, t) s' r h = cc h

requested :
    (env : Env) (c : Checkout) (o : Order) (s s' : Session) (r : ℤ × Option User)
    → s.saved.outbox_events ≡ s.db.outbox_events
    → request_delivery env c o true s ≡ (ok r, s')
    → s'.db.outbox_events ≡ create_event env.now (fulfillment_event c o) s.db.outbox_events
unfolding request_delivery
requested env c o s s' r saved h =
    let q = process_order_referral_reward o.id c.user_id o.total_price s in
    let same = reward-Same s.db.outbox_events o.id c.user_id o.total_price s (refl, saved) in
    written env c o q s' r h ∙ ap (create_event env.now (fulfillment_event c o)) same.0

-- The number of an order is written as a text into the event that a checkout paid from the wallet
-- writes for its delivery. When the event fails five times, its limit, the dead letter queue has one
-- more letter, and the letter names that order. (No event has the number of the new one, and the
-- checkout has no other event pending.)
pub delivery_names_order :
    (env : Env) (c : Checkout) (o : Order) (s s' : Session) (r : ℤ × Option User)
    (traceback : String) (now : ℕ) (error : String) (fs : List (ℕ × String)) (jobs : List FailedJob)
    → s.saved.outbox_events ≡ s.db.outbox_events
    → find (has_id (next_id s.db.outbox_events)) s.db.outbox_events ≡ none
    → request_delivery env c o true s ≡ (ok r, s')
    → length fs ≡ 4
    → HasLetter o.id jobs
        (mark_failed_times traceback
          (next_id s.db.outbox_events)
          ((now, error) ∷ fs)
          (s'.db.outbox_events, jobs)).1
unfolding create_event
delivery_names_order env c o s s' r traceback now error fs jobs saved fresh h five =
    let events = s.db.outbox_events in
    let i = next_id events in
    rw (requested env c o s s' r saved h) (
      letter_names traceback i o.id now error fs _ jobs
        (find-append (has_id i) events _ fresh (ground arith)) (refl, show-nonempty o.id)
        (rw (is_digit-show o.id) (ap some (int_of-show o.id))) (omega (arith, five)))
