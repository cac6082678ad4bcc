-- ===== src/Wallet/Once.antt =====
-- References of the ledger, along calls of the wallet.
use gift_hub.Prelude.{
  ℕ, String, ◌≡◌, refl, sym, ap, subst, ◌∙◌, Bool, true, false, ◌||◌, some, List, [], ◌∷◌, ◌++◌,
  arith, find, any, Bool-cases, Option-cases, inl, inr, if◌then◌else◌,
}
use gift_hub.Prelude.Int.{ℤ, pos, ◌+ℤ◌, ◌-ℤ◌, neg, abs, leb_ℤ, ltb_ℤ}
use gift_hub.Prelude.Dict.{str_eq_refl}
use gift_hub.Prelude.Texts.{show, is_empty}
use gift_hub.Models.{User, WalletTransaction}
use gift_hub.Session.{Session, Result, ok, err, continue, commit, integrity_error}
use gift_hub.Wallet.{
  Entry, has_user_id, same_reference, ledger_valid, ledger_row, credit_balance, debit_balance,
  get_user_locked, log_adjustment, adjust_balance_admin, or_system, adjustment,
}
use gift_hub.Wallet.Outcomes.{
  booked, rolled_back, credit_refused, credit_missing, debit_refused, debit_missing, debit_short,
  credit_found, debit_found, credit-Outcome, debit-Outcome, Outcome,
}
use gift_hub.Wallet.Moves.{WalletCall, call, calls}

-- Whether a ledger row has the reference of an entry.
abbrev pub refers : Entry → WalletTransaction → Bool
refers e u = same_reference (ledger_row 0 (pos 0) (pos 0) (pos 0) e) u

-- An entry whose reference is not null.
pub record HasReference (e : Entry) : Type 0 where
  pub kind : String
  pub ident : String
  pub type_eq : e.reference_type ≡ some kind
  pub id_eq : e.reference_id ≡ some ident
  pub nonempty : is_empty ident ≡ false

-- The reference is in the ledger, now and as committed.
pub record IsTaken (e : Entry) (s : Session) : Type 0 where
  pub now : any (refers e) s.db.wallet_transactions ≡ true
  pub committed : any (refers e) s.saved.wallet_transactions ≡ true

any-append :
    (p : WalletTransaction → Bool) (ts us : List WalletTransaction)
    → any p (ts ++ us) ≡ (any p ts || any p us)
any-append p [] us = refl
any-append p (t ∷ ts) us = ground (arith, any-append p ts us)

Outcome-IsTaken : (e : Entry) {s s' : Session} → Outcome s s' → IsTaken e s → IsTaken e s'
Outcome-IsTaken e (inl same) h = subst (IsTaken e) (sym same) h
Outcome-IsTaken e (inr (inl back)) h =
    subst (IsTaken e) (sym back) (record { now = h.committed; committed = h.committed })
Outcome-IsTaken e {s} (inr (inr (t, m, more))) h = subst (IsTaken e) (sym more) (record {
  now =
      any-append (refers e) s.db.wallet_transactions (t ∷ [])
      ∙ ap (λ b. b || any (refers e) (t ∷ [])) h.now;
  committed = h.committed;
})

log-IsTaken :
    (e : Entry) (admin i : ℕ) (reason : String) (r : Result (User × WalletTransaction))
    (s : Session)
    → IsTaken e s
    → IsTaken e (continue r (log_adjustment admin i reason) s).1
unfolding log_adjustment
log-IsTaken e admin i reason (ok (u, t)) s h = record { now = h.now; committed = h.committed }
log-IsTaken e admin i reason (err x) s h = h

adjust-IsTaken :
    (e : Entry) (admin i : ℕ) (amount : ℤ) (reason : String) (s : Session)
    → IsTaken e s
    → IsTaken e (adjust_balance_admin admin i amount reason s).1
unfolding adjust_balance_admin get_user_locked
adjust-IsTaken e admin i amount reason s h =
    let entry = adjustment (show admin) in
    elim (Bool-cases (ltb_ℤ (pos 0) amount)) [
      | inl up ↦
          let r = credit_balance i amount entry s in
          rw up (
            log-IsTaken e admin i reason r.0 r.1
              (Outcome-IsTaken e (credit-Outcome i amount entry s) h))
      | inr le ↦ elim (Bool-cases (ltb_ℤ amount (pos 0))) [
        | inl down ↦
            let r = debit_balance i (abs amount) entry s in
            rw le (
              rw down (
                log-IsTaken e admin i reason r.0 r.1
                  (Outcome-IsTaken e (debit-Outcome i (abs amount) entry s) h)))
        | inr zero_ ↦ rw le (
            rw zero_ (elim (Option-cases (find (has_user_id i) s.db.users)) [
              | inl n ↦ rw n h
              | inr (u, f) ↦ rw f h
            ]))
      ]
    ]

call-IsTaken : (e : Entry) (c : WalletCall) (s : Session) → IsTaken e s → IsTaken e (call c s)
unfolding call
call-IsTaken e (WalletCall.credit i a x) s h = Outcome-IsTaken e (credit-Outcome i a x s) h
call-IsTaken e (WalletCall.debit i a x) s h = Outcome-IsTaken e (debit-Outcome i a x s) h
call-IsTaken e (WalletCall.adjust admin i a reason) s h = adjust-IsTaken e admin i a reason s h
call-IsTaken e WalletCall.commit_ s h = record { now = h.now; committed = h.now }
call-IsTaken e WalletCall.rollback_ s h = record { now = h.committed; committed = h.committed }

pub calls-IsTaken :
    (e : Entry) (cs : List WalletCall) (s : Session) → IsTaken e s → IsTaken e (calls cs s)
unfolding calls
calls-IsTaken e [] s h = h
calls-IsTaken e (c ∷ cs) s h = calls-IsTaken e cs (call c s) (call-IsTaken e c s h)

or_true : (b : Bool) → (b || true) ≡ true
or_true b = ground arith

-- A call that raised.
abbrev pub IsRaised : {A : Type 0} → Result A → Type 0
IsRaised (ok _) = ⊥
IsRaised (err _) = Unit

taken-invalid :
    (e : Entry) (i : ℕ) (amount before after : ℤ) (ts : List WalletTransaction)
    → any (refers e) ts ≡ true
    → ledger_valid (ledger_row i amount before after e) ts ≡ false
unfolding ledger_valid
taken-invalid e i amount before after ts h =
    let h' : any (same_reference (ledger_row i amount before after e)) ts ≡ true = h in ground arith

module _ (e : Entry) (i : ℕ) (amount : ℤ) (s : Session)
    (taken : any (refers e) s.db.wallet_transactions ≡ true) where
  pub taken-credit : IsRaised (credit_balance i amount e s).0
  taken-credit = elim (Bool-cases (leb_ℤ amount (pos 0))) [
    | inl bad ↦ rw (credit_refused i amount e s bad) tt
    | inr good ↦ elim (Option-cases (find (has_user_id i) s.db.users)) [
      | inl h ↦ rw (credit_missing i amount e s good h) tt
      | inr (u, h) ↦ rw (credit_found i amount e s good h) (
          rw
            (taken-invalid e i amount u.balance (u.balance +ℤ amount) s.db.wallet_transactions
              taken)
            tt)
    ]
  ]

  pub taken-debit : IsRaised (debit_balance i amount e s).0
  taken-debit = elim (Bool-cases (leb_ℤ amount (pos 0))) [
    | inl bad ↦ rw (debit_refused i amount e s bad) tt
    | inr good ↦ elim (Option-cases (find (has_user_id i) s.db.users)) [
      | inl h ↦ rw (debit_missing i amount e s good h) tt
      | inr (u, h) ↦ elim (Bool-cases (ltb_ℤ u.balance amount)) [
        | inl short ↦ rw (debit_short i amount e s good h short) tt
        | inr covered ↦ rw (debit_found i amount e s good h covered) (
            rw
              (taken-invalid e i (neg amount) u.balance (u.balance -ℤ amount)
                s.db.wallet_transactions taken)
              tt)
      ]
    ]
  ]

row-refers :
    (e : Entry) (i : ℕ) (amount before after : ℤ)
    → HasReference e
    → refers e (ledger_row i amount before after e) ≡ true
unfolding same_reference
row-refers e i amount before after r = rw r.type_eq (
    rw r.id_eq
      (rw r.nonempty (rw (str_eq_refl r.kind) (rw (str_eq_refl r.ident) (str_eq_refl e.tx_type)))))

-- After a credit that succeeded, the reference is in the ledger.
module _ {A : Type 0} (e : Entry) (r : HasReference e) (s : Session) {x : Result A × Session} where
  booked-taken :
      (v : Bool) (i : ℕ) (amount before after : ℤ) (method : String) (a a' : A) (s' : Session)
      → x ≡ (
          if v
          then (ok a, booked (ledger_row i amount before after e) method s)
          else (err integrity_error, rolled_back s))
      → x ≡ (ok a', s')
      → any (refers e) s'.db.wallet_transactions ≡ true
  booked-taken true i amount before after method a a' s' h k =
      let e' : s' ≡ booked (ledger_row i amount before after e) method s =
        ap (λ y. y.1) (sym k ∙ h) in
      rw e' (
        any-append (refers e) s.db.wallet_transactions (ledger_row i amount before after e ∷ [])
        ∙ (rw (row-refers e i amount before after r) (or_true _)))
  booked-taken false i amount before after method a a' s' h k = cc

module _ (i : ℕ) (amount : ℤ) (e : Entry) (r : HasReference e) (s : Session)
    (x : User × WalletTransaction) (s' : Session) where
  pub credit-takes :
      credit_balance i amount e s ≡ (ok x, s') → any (refers e) s'.db.wallet_transactions ≡ true
  credit-takes k = elim (Bool-cases (leb_ℤ amount (pos 0))) [
    | inl bad ↦ cc (credit_refused i amount e s bad)
    | inr good ↦ elim (Option-cases (find (has_user_id i) s.db.users)) [
      | inl h ↦ cc (credit_missing i amount e s good h)
      | inr (u, h) ↦
          booked-taken e r s _ i amount u.balance (u.balance +ℤ amount) (or_system e.reference_type)
            _ x s' (credit_found i amount e s good h) k
    ]
  ]

  pub debit-takes :
      debit_balance i amount e s ≡ (ok x, s') → any (refers e) s'.db.wallet_transactions ≡ true
  debit-takes k = elim (Bool-cases (leb_ℤ amount (pos 0))) [
    | inl bad ↦ cc (debit_refused i amount e s bad)
    | inr good ↦ elim (Option-cases (find (has_user_id i) s.db.users)) [
      | inl h ↦ cc (debit_missing i amount e s good h)
      | inr (u, h) ↦ elim (Bool-cases (ltb_ℤ u.balance amount)) [
        | inl short ↦ cc (debit_short i amount e s good h short)
        | inr covered ↦
            booked-taken e r s _ i (neg amount) u.balance (u.balance -ℤ amount) "balance" _ x s'
              (debit_found i amount e s good h covered) k
      ]
    ]
  ]

-- Once a credit under a reference that is not null has succeeded and is committed, every credit and
-- every debit under that reference raises, for any user and amount, whatever calls of the wallet,
-- commits and rollbacks come in between.
pub booked_once :
    (e : Entry) (i : ℕ) (amount : ℤ) (s s' : Session) (x : User × WalletTransaction)
    (cs : List WalletCall) (j : ℕ) (amount' : ℤ)
    → HasReference e
    → credit_balance i amount e s ≡ (ok x, s')
    → let later = calls cs (commit s').1 in
      IsRaised (credit_balance j amount' e later).0 × IsRaised (debit_balance j amount' e later).0
booked_once e i amount s s' x cs j amount' r k =
    let t = credit-takes i amount e r s x s' k in
    let taken = calls-IsTaken e cs (commit s').1 (record { now = t; committed = t }) in
    (
      taken-credit e j amount' (calls cs (commit s').1) taken.now,
      taken-debit e j amount' (calls cs (commit s').1) taken.now,
    )
