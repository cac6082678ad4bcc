-- ===== src/Checkout/Through.antt =====
-- Predicates of a session that the wallet's calls and changes of other tables keep, through all of
-- a checkout.
use gift_hub.Prelude.{ℕ, String, refl, Bool, true, false, Option, none, some, find, any}
use gift_hub.Prelude.Int.{ℤ, pos, ◌+ℤ◌}
use gift_hub.Models.{User}
use gift_hub.Session.{
  Session, Error, FlagCache, Exec, modify, flush, commit, rollback, domain_error, price_expired,
}
use gift_hub.Session.Keeps.{Keeps, gets, pure, branch, ◌>>=◌, ◌>>◌}
use gift_hub.Wallet.{has_user_id, credit_balance, debit_balance}
use gift_hub.Prelude.Texts.{strip, upper}
use gift_hub.Promotions.{apply_promo_code}
use gift_hub.Orders.{Env, add_history}
use gift_hub.Models.Orders.{Order}
use gift_hub.Referrals.{
  Commission, credit_commission, pay_commission, add_earnings, add_reward, auto_reward_of,
  bonus_entry, commission_due, process_order_referral_reward,
}
use gift_hub.Checkout.Stable.{
  IsStable, change, check_flags-Keeps, check_spam-Keeps, quote-Keeps, apply_promo_code-Keeps,
}
use gift_hub.Checkout.Placing.{
  apply_promo, discount_in, pay, purchase_entry, insert_order, order_valid, add_order, place,
  payable, is_wallet_payment, new_order, first_row, request_delivery, fulfillment_event, add_event,
  Placed, return_order, resolve, commit_checkout, add_record, new_checkout, create_order,
}
use gift_hub.Session
use gift_hub.Checkout.{
  earlier_order, has_key, order_of, Checkout, Quote, given, quote, check_flags, check_spam,
}

module _ (P : Session → Type 0) (st : IsStable P) where
  apply_promo-Keeps :
      (now : ℕ) (c : Checkout) (total : ℤ) (o : Option String) → Keeps P (apply_promo now c total o)
  unfolding apply_promo
  apply_promo-Keeps now c total none = λ s h. h
  apply_promo-Keeps now c total (some code) =
      (do
        r ← (
          apply_promo_code now code c.user_id total c.product_type none,
          apply_promo_code-Keeps P st now code c.user_id total c.product_type none,
        )
        pure (discount_in r, some (upper (strip code)))).1

  pay-Keeps : (b : Bool) (c : Checkout) (a : ℤ) → Keeps P (pay b c a)
  unfolding pay
  pay-Keeps false c a = λ s h. h
  pay-Keeps true c a =
      (do
        (
          debit_balance c.user_id a (purchase_entry c.order_code),
          st.debits c.user_id a (purchase_entry c.order_code),
        )
        pure tt).1

  insert_order-Keeps : (o : Order) → Keeps P (insert_order o)
  unfolding insert_order
  insert_order-Keeps o s h =
      st.flushes (λ _. order_valid o s.db) _ (st.tables s (add_order o s.db) refl refl h)

  pub place-Keeps : (env : Env) (c : Checkout) (q : Quote) → Keeps P (place env c q)
  unfolding place
  place-Keeps env c q =
      (do
        a ← (
          apply_promo env.now c q.total_price (given c.promo_code_str),
          apply_promo-Keeps env.now c q.total_price (given c.promo_code_str),
        )
        (
          pay (is_wallet_payment c.payment_method) c (payable q.total_price a.0),
          pay-Keeps (is_wallet_payment c.payment_method) c (payable q.total_price a.0),
        )
        o ← gets (λ d. new_order env c q a.0 a.1 (is_wallet_payment c.payment_method) d.orders)
        (insert_order o, insert_order-Keeps o)
        change P st (add_history (first_row env.now c o)) (λ d. refl) (λ d. refl)
        pure o).1

  credit_commission-Keeps : (order : ℕ) (c : Commission) → Keeps P (credit_commission order c)
  credit_commission-Keeps order c =
      (do
        (
          credit_balance c.referrer.id c.amount (bonus_entry order),
          st.credits c.referrer.id c.amount (bonus_entry order),
        )
        (
          modify (add_earnings c),
          st.earnings c.referrer.id (c.referrer.referral_earnings +ℤ c.amount),
        )).1

  pay_commission-Keeps : (order : ℕ) (c : Commission) → Keeps P (pay_commission order c)
  unfolding pay_commission
  pay_commission-Keeps order c =
      (do
        auto ← gets auto_reward_of
        change P st (add_reward order auto c) (λ d. refl) (λ d. refl)
        branch auto (credit_commission order c, credit_commission-Keeps order c) (pure tt)).1

  due-Keeps :
      (order : ℕ) (due : Option Commission)
      → Keeps P {A = ℤ × Option User} (elim due [
        | none ↦ Session.pure (pos 0, none)
        | some c ↦
            Session.◌>>◌
              (pay_commission order c)
              (Session.gets (λ d. (c.amount, find (has_user_id c.referrer.id) d.users)))
      ])
  due-Keeps order none = λ s h. h
  due-Keeps order (some c) =
      (do
        (pay_commission order c, pay_commission-Keeps order c)
        gets (λ d. (c.amount, find (has_user_id c.referrer.id) d.users))).1

  reward-Keeps : (order buyer : ℕ) (a : ℤ) → Keeps P (process_order_referral_reward order buyer a)
  unfolding process_order_referral_reward
  reward-Keeps order buyer a s h = due-Keeps order (commission_due order buyer a s.db) s h

  pub request_delivery-Keeps :
      (env : Env) (c : Checkout) (o : Order) (b : Bool) → Keeps P (request_delivery env c o b)
  unfolding request_delivery
  request_delivery-Keeps env c o false = λ s h. h
  request_delivery-Keeps env c o true =
      (do
        reward ← (
          process_order_referral_reward o.id c.user_id o.total_price,
          reward-Keeps o.id c.user_id o.total_price,
        )
        change P st (add_event env.now (fulfillment_event c o)) (λ d. refl) (λ d. refl)
        pure reward).1

  module _ (commits : (s : Session) → P s → P (record s { saved = s.db }))
      (rolls : (s : Session) → P s → P (record s { db = s.saved })) where
    return_order-Keeps : (o : Option Order) → Keeps P (return_order o)
    return_order-Keeps none s h = h
    return_order-Keeps (some o) s h = h

    resolve-Keeps : (k : String) → Keeps P (resolve k)
    unfolding resolve
    resolve-Keeps k =
        (do
          (rollback, rolls)
          o ← gets (λ d. order_of (find (has_key k) d.checkout_idempotency) d.orders)
          (return_order o, return_order-Keeps o)).1

    commit_checkout-Keeps :
        (env : Env) (k : Option String) (user : ℕ) (p : Placed)
        → Keeps P (commit_checkout env k user p)
    unfolding commit_checkout
    commit_checkout-Keeps env none user p = ((commit, commits) >> pure p).1
    commit_checkout-Keeps env (some k) user p =
        (do
          taken ← gets (λ d. any (has_key k) d.checkout_idempotency)
          change P st (add_record env.now k user (p.0).id) (λ d. refl) (λ d. refl)
          branch taken (resolve k, resolve-Keeps k) ((commit, commits) >> pure p)).1

    new_checkout-Keeps : (env : Env) (c : Checkout) → Keeps P (new_checkout env c)
    unfolding new_checkout
    new_checkout-Keeps env c =
        (do
          q ← (
            quote env.now c (given c.price_lock_id),
            quote-Keeps P st env.now c (given c.price_lock_id),
          )
          o ← (place env c q, place-Keeps env c q)
          r ← (
            request_delivery env c o (is_wallet_payment c.payment_method),
            request_delivery-Keeps env c o (is_wallet_payment c.payment_method),
          )
          (
            commit_checkout env (given c.idempotency_key) c.user_id (o, r),
            commit_checkout-Keeps env (given c.idempotency_key) c.user_id (o, r),
          )).1

    earlier-Keeps :
        (env : Env) (c : Checkout) (e : Option Order)
        → Keeps P {A = Placed}
            (elim e [ none ↦ new_checkout env c | some o ↦ Session.pure (o, (pos 0, none)) ])
    earlier-Keeps env c none = new_checkout-Keeps env c
    earlier-Keeps env c (some o) = λ s h. h

    -- A whole checkout.
    pub create_order-Keeps : (env : Env) (c : Checkout) → Keeps P (create_order env c)
    unfolding create_order
    create_order-Keeps env c =
        (do
          (
            check_flags env.clock c.product_type,
            check_flags-Keeps P st.caches env.clock c.product_type,
          )
          (check_spam env.now c.user_id, check_spam-Keeps P st env.now c.user_id)
          e ← gets (earlier_order (given c.idempotency_key) c.user_id)
          (
            elim e [ none ↦ new_checkout env c | some o ↦ Session.pure (o, (pos 0, none)) ],
            earlier-Keeps env c e,
          )).1
