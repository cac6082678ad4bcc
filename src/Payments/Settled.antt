-- ===== src/Payments/Settled.antt =====
-- The row and the deposit of a confirmed payment.
use gift_hub.Prelude.{
  ℕ, ◌≡◌, refl, sym, ap, ◌∙◌, Bool, true, false, Option, none, some, List, find, find-append,
  find-replace, find-test, Bool-cases, Option-cases, inl, inr,
}
use gift_hub.Prelude.Dict.{str_eq_refl}
use gift_hub.Models.{Db, User, PaymentTransaction, WalletTransaction}
use gift_hub.Session.{Session, Result, Exec, ok, err, continue}
use gift_hub.Wallet.{has_user_id, credit_balance}
use gift_hub.Wallet.Success.{IsCredited, credit-IsCredited}
use gift_hub.Orders.{Env}
use gift_hub.Payments.{
  Confirmation, ProcessPaymentResult, is_payment, new_payment, completed_payment, write_payment,
  flushing, deposit, deposit_entry, deposited, emit, resolve, resolved, finish_payment,
  is_integrity_error,
}

-- The table has a settled row of this payment, and it is the one a webhook finds.
pub record IsSettled (c : Confirmation) (rows : List PaymentTransaction) : Type 0 where
  pub row : PaymentTransaction
  pub found : find (is_payment c) rows ≡ some row
  pub settled : row.status ≡ "success"

is_payment-same :
    (c : Confirmation) (p : PaymentTransaction)
    → p.provider ≡ c.provider
    → p.provider_transaction_id ≡ c.provider_transaction_id
    → is_payment c p ≡ true
is_payment-same c p h k =
    rw h (rw k (rw (str_eq_refl c.provider) (str_eq_refl c.provider_transaction_id)))

pub write-IsSettled :
    (env : Env) (user : ℕ) (c : Confirmation) (d : Db)
    → IsSettled c (write_payment env user c (find (is_payment c) d.payment_transactions) d).rows
unfolding write_payment
write-IsSettled env user c d = elim (Option-cases (find (is_payment c) d.payment_transactions)) [
  | inl h ↦ rw h (record {
    row = new_payment env user c d;
    found =
        find-append (is_payment c) d.payment_transactions (new_payment env user c d) h
          (is_payment-same c (new_payment env user c d) refl refl);
    settled = refl;
  })
  | inr (p, h) ↦ rw h (record {
    row = completed_payment env c p;
    found =
        find-replace (is_payment c) (completed_payment env c p) d.payment_transactions h
          (find-test (is_payment c) d.payment_transactions h);
    settled = refl;
  })
]

-- What a deposit that went through has done.
pub record IsDeposited (env : Env) (user : ℕ) (c : Confirmation) (t t' : Session) : Type 0 where
  pub credited_session : Session
  pub credited : IsCredited user c.amount (deposit_entry c) t credited_session
  pub after : t' ≡ (emit env (deposited env user c) credited_session).1

module _ (env : Env) (user : ℕ) (c : Confirmation) where
  after_credit : User × WalletTransaction → Exec (Option User)
  after_credit x s = (ok (some x.0), (emit env (deposited env user c) s).1)

  deposit_credit :
      (valid : Bool) (t : Session)
      → let q = credit_balance user c.amount (deposit_entry c) t in
        let f = flushing valid (λ _. q) t in
        deposit env user valid c t ≡ continue f.0 after_credit f.1
  unfolding deposit after_credit
  deposit_credit valid t = refl

  flushed-IsDeposited :
      (valid : Bool) (t t' : Session) (u : Option User) (r : Result (User × WalletTransaction))
      (t1 : Session)
      → credit_balance user c.amount (deposit_entry c) t ≡ (r, t1)
      → let f = flushing valid (λ _. (r, t1)) t in
        continue f.0 after_credit f.1 ≡ (ok u, t') → IsDeposited env user c t t'
  unfolding after_credit
  flushed-IsDeposited true t t' u (ok x) t1 h k = record {
    credited_session = t1;
    credited = credit-IsCredited user c.amount (deposit_entry c) t t1 x h;
    after = ap (λ z. z.1) (sym k);
  }
  flushed-IsDeposited false t t' u (ok x) t1 h k = cc k
  flushed-IsDeposited valid t t' u (err e) t1 h k = cc k

  pub deposit-IsDeposited :
      (valid : Bool) (t t' : Session) (u : Option User)
      → deposit env user valid c t ≡ (ok u, t')
      → IsDeposited env user c t t'
  deposit-IsDeposited valid t t' u k =
      flushed-IsDeposited valid t t' u _ _ refl (sym (deposit_credit valid t) ∙ k)

  -- The result of a clash is never a new payment.
  resolved-not_new :
      (p : Option PaymentTransaction) (s s' : Session) (x : ProcessPaymentResult)
      → resolved user p s ≡ (ok x, s')
      → x.is_new ≡ false
  resolved-not_new none s s' x k = cc k
  resolved-not_new (some p) s s' x k =
      let y : ProcessPaymentResult = record {
        payment = p;
        user = find (has_user_id user) s.db.users;
        is_new = false;
      } in
      let e : ok y ≡ ok x = ap (λ z. z.0) k in
      let e' : y ≡ x = cc e in ap (λ (z : ProcessPaymentResult). z.is_new) (sym e')

  resolve-not_new :
      (s s' : Session) (x : ProcessPaymentResult) → resolve user c s ≡ (ok x, s') → x.is_new ≡ false
  unfolding resolve
  resolve-not_new s s' x k = resolved-not_new _ _ s' x k

  pub finish-new :
      (p : PaymentTransaction) (r : Result (Option User)) (t s' : Session)
      (x : ProcessPaymentResult)
      → finish_payment user c p r t ≡ (ok x, s')
      → x.is_new ≡ true
      → (u : Option User) × (r ≡ ok u) × (s' ≡ record t { saved = t.db })
  unfolding finish_payment
  finish-new p (ok u) t s' x k n = (u, refl, ap (λ z. z.1) (sym k))
  finish-new p (err e) t s' x k n = elim (Bool-cases (is_integrity_error e)) [
    | inl y ↦ let z = resolve-not_new t s' x (rw y at k) in cc (sym n ∙ z)
    | inr other ↦ cc (rw other at k)
  ]
