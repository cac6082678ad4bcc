-- ===== src/Payments/Once.antt =====
-- `process_successful_payment_idempotent` for payments into a wallet, reported again and again.
use gift_hub.Prelude.{
  ℕ, ◌≡◌, refl, sym, ap, subst, ◌∙◌, true, false, ◌&&◌, Option, none, some, str_eq, eq_iff, find,
  Bool-cases, Option-cases, inl, inr,
}
use gift_hub.Prelude.Int.{◌+ℤ◌}
use gift_hub.Models.{Db, User, PaymentTransaction}
use gift_hub.Session.{Session, Result, ok, err, value_error}
use gift_hub.Wallet.{has_user_id}
use gift_hub.Wallet.Success.{IsCredited-balance}
use gift_hub.Orders.{Env, truthy}
use gift_hub.Payments.{
  Confirmation, ProcessPaymentResult, Written, is_payment, is_success, effective_user,
  write_payment, deposit, deposit_entry, finish_payment, process_new, process_found,
  process_successful_payment_idempotent, process_for, noted,
}
use gift_hub.Payments.Settled.{
  IsSettled, IsDeposited, deposit-IsDeposited, finish-new, write-IsSettled,
}

module _ (env : Env) (c : Confirmation) (s : Session) where
  -- The session once the payment's row is written.
  opened : ℕ → Option PaymentTransaction → Session
  opened user q = record s {
    db = record s.db { payment_transactions = (write_payment env user c q s.db).rows };
  }

  new_deposit :
      (user : ℕ) (q : Option PaymentTransaction)
      → truthy c.order_id ≡ none
      → let w = write_payment env user c q s.db in
        let r = deposit env user w.valid c (opened user q) in
        process_new env user c q s ≡ finish_payment user c w.row r.0 r.1
  unfolding process_new opened
  new_deposit user q h = rw h refl

  found-IsNew :
      (user : ℕ) (q : Option PaymentTransaction) (x : ProcessPaymentResult) (s' : Session)
      → truthy c.order_id ≡ none
      → process_new env user c q s ≡ (ok x, s')
      → x.is_new ≡ true
      → (t : Session) × IsDeposited env user c (opened user q) t × (s'.db ≡ t.db)
  found-IsNew user q x s' wallet k n =
      let w : Written = write_payment env user c q s.db in
      let r : Result (Option User) × Session = deposit env user w.valid c (opened user q) in
      let f = finish-new env user c w.row r.0 r.1 s' x (sym (new_deposit user q wallet) ∙ k) n in
      (
        r.1,
        deposit-IsDeposited env user c w.valid (opened user q) r.1 f.0 (ap (λ z. (z, r.1)) f.1),
        ap (λ (z : Session). z.db) f.2,
      )

  found_settled :
      (user : ℕ) (p : PaymentTransaction)
      → is_success p ≡ true
      → process_found env user c (some p) s ≡ (
        ok (record { payment = p; user = find (has_user_id user) s.db.users; is_new = false }),
        s,
      )
  unfolding process_found
  found_settled user p h = rw h refl

  found_waiting :
      (user : ℕ) (p : PaymentTransaction)
      → is_success p ≡ false
      → process_found env user c (some p) s ≡ process_new env user c (some p) s
  unfolding process_found
  found_waiting user p h = rw h refl

  found_none : (user : ℕ) → process_found env user c none s ≡ process_new env user c none s
  unfolding process_found
  found_none user = refl

  new_processed :
      (user : ℕ) (q : Option PaymentTransaction) (x : ProcessPaymentResult) (s' : Session)
      → process_found env user c q s ≡ (ok x, s')
      → x.is_new ≡ true
      → process_new env user c q s ≡ (ok x, s')
  new_processed user none x s' k n = sym (found_none user) ∙ k
  new_processed user (some p) x s' k n = elim (Bool-cases (is_success p)) [
    | inl y ↦
        let old : ProcessPaymentResult = record {
          payment = p;
          user = find (has_user_id user) s.db.users;
          is_new = false;
        } in
        let e : ok old ≡ ok x = ap (λ z. z.0) (sym (found_settled user p y) ∙ k) in
        let e' : old ≡ x = cc e in
        let b : false ≡ x.is_new = ap (λ (z : ProcessPaymentResult). z.is_new) e' in cc (b ∙ n)
    | inr m ↦ sym (found_waiting user p m) ∙ k
  ]

module _ (env : Env) (c : Confirmation) (s : Session) where
  pub process_payer :
      {user : ℕ}
      → effective_user c ≡ some user
      → process_successful_payment_idempotent env c s
        ≡ process_found env user c
            (find (is_payment c) s.db.payment_transactions)
            (noted c.provider s)
  unfolding process_successful_payment_idempotent noted
  process_payer h = ap (λ u. process_for env c u s) h

  pub process_nobody :
      effective_user c ≡ none → process_successful_payment_idempotent env c s ≡ (err value_error, s)
  unfolding process_successful_payment_idempotent
  process_nobody h = ap (λ u. process_for env c u s) h

  pub settled_again :
      {user : ℕ}
      → effective_user c ≡ some user
      → (z : IsSettled c s.db.payment_transactions)
      → process_successful_payment_idempotent env c s ≡ (
        ok (record { payment = z.row; user = find (has_user_id user) s.db.users; is_new = false }),
        noted c.provider s,
      )
  unfolding noted
  settled_again {user} h z =
      process_payer h
      ∙ ap (λ q. process_found env user c q (noted c.provider s)) z.found
      ∙ found_settled env c (noted c.provider s) user z.row ((eq_iff _ _).1 z.settled)

pub found_payer :
    (env : Env) (c : Confirmation) (s s' : Session) (x : ProcessPaymentResult)
    → process_successful_payment_idempotent env c s ≡ (ok x, s')
    → (user : ℕ) × (effective_user c ≡ some user)
found_payer env c s s' x k = elim (Option-cases (effective_user c)) [
  | inl h ↦ cc (sym (process_nobody env c s h) ∙ k)
  | inr y ↦ y
]

-- The table as a new deposit leaves it.
deposited-rows :
    (env : Env) (c : Confirmation) (s t : Session) (user : ℕ) (q : Option PaymentTransaction)
    → IsDeposited env user c (opened env c s user q) t
    → t.db.payment_transactions ≡ (write_payment env user c q s.db).rows
unfolding opened
deposited-rows env c s t user q d =
    ap (λ (z : Session). z.db.payment_transactions) d.after
    ∙ ap (λ (z : Session). z.db.payment_transactions) d.credited.after

same-is_payment :
    (c c' : Confirmation)
    → c'.provider ≡ c.provider
    → c'.provider_transaction_id ≡ c.provider_transaction_id
    → is_payment c' ≡ is_payment c
same-is_payment c c' h k =
    ap
      (λ a. (λ (p : PaymentTransaction).
        str_eq p.provider a && str_eq p.provider_transaction_id c'.provider_transaction_id))
      h
    ∙ ap
        (λ b. (λ (p : PaymentTransaction).
          str_eq p.provider c.provider && str_eq p.provider_transaction_id b))
        k

opened-users :
    (env : Env) (c : Confirmation) (s : Session) (user : ℕ) (q : Option PaymentTransaction)
    → (opened env c s user q).db.users ≡ s.db.users
unfolding opened
opened-users env c s user q = refl

-- A call that reports a new payment into a wallet, one that names no order, has added its amount to
-- the payer's balance; and on every session in which a query for the payment finds the row as the
-- call left it, another report of the same payment, by any caller and of whatever amount, returns
-- that row, which is a successful one, with `is_new` false, and leaves the tables as they are: it
-- only notes the provider's success in the circuit breaker.
pub deposit_once :
    (env env' : Env) (c c' : Confirmation) (s s' t : Session) (x : ProcessPaymentResult) {user' : ℕ}
    → truthy c.order_id ≡ none
    → process_successful_payment_idempotent env c s ≡ (ok x, s')
    → x.is_new ≡ true
    → c'.provider ≡ c.provider
    → c'.provider_transaction_id ≡ c.provider_transaction_id
    → effective_user c' ≡ some user'
    → find (is_payment c) t.db.payment_transactions ≡ find (is_payment c) s'.db.payment_transactions
    → ((user : ℕ) × (u : User) × (effective_user c ≡ some user)
        × (find (has_user_id user) s.db.users ≡ some u)
        × (find (has_user_id user) s'.db.users
            ≡ some (record u { balance = u.balance +ℤ c.amount })))
      × (p : PaymentTransaction) × (find (is_payment c) s'.db.payment_transactions ≡ some p)
      × (p.status ≡ "success")
      × (process_successful_payment_idempotent env' c' t ≡ (
        ok (record { payment = p; user = find (has_user_id user') t.db.users; is_new = false }),
        noted c'.provider t,
      ))
unfolding noted
deposit_once env env' c c' s s' t x wallet k n same_provider same_id payer same_row =
    let user = found_payer env c s s' x k in
    let v : Session = noted c.provider s in
    let q : Option PaymentTransaction = find (is_payment c) s.db.payment_transactions in
    let f = sym (process_payer env c s user.1) ∙ k in
    let d = found-IsNew env c v user.0 q x s' wallet (new_processed env c v user.0 q x s' f n) n in
    let w = write-IsSettled env user.0 c s.db in
    let rows : (write_payment env user.0 c q s.db).rows ≡ s'.db.payment_transactions =
      sym (ap (λ (z : Db). z.payment_transactions) d.2 ∙ deposited-rows env c v d.0 user.0 q d.1) in
    let z : IsSettled c' t.db.payment_transactions = record {
      row = w.row;
      found =
          ap (λ p. find p t.db.payment_transactions) (same-is_payment c c' same_provider same_id)
          ∙ same_row
          ∙ subst (λ r. find (is_payment c) r ≡ some w.row) rows w.found;
      settled = w.settled;
    } in
    let b = d.1.credited in
    let before : find (has_user_id user.0) s.db.users ≡ some b.user =
      ap (find (has_user_id user.0)) (sym (opened-users env c v user.0 q)) ∙ b.found in
    let after : find (has_user_id user.0) s'.db.users
        ≡ some (record b.user { balance = b.user.balance +ℤ c.amount }) =
      ap (λ (z : Db). find (has_user_id user.0) z.users) d.2
      ∙ ap (λ (z : Session). find (has_user_id user.0) z.db.users) d.1.after
      ∙ IsCredited-balance user.0 c.amount (deposit_entry c) (opened env c v user.0 q)
          d.1.credited_session b in
    (
      (user.0, b.user, user.1, before, after),
      w.row,
      subst (λ r. find (is_payment c) r ≡ some w.row) rows w.found,
      w.settled,
      settled_again env' c' t payer z,
    )
