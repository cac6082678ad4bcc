-- ===== src/Wallet/Outcomes.antt =====
-- What each operation of the wallet leaves behind, on every branch.
use gift_hub.Prelude.{
  ℕ, String, ◌≡◌, ap, ◌⊎◌, Bool, true, false, none, some, [], ◌∷◌, ◌++◌, find, Bool-cases,
  Option-cases, inl, inr, if◌then◌else◌,
}
use gift_hub.Prelude.Int.{ℤ, pos, ◌+ℤ◌, ◌-ℤ◌, neg, leb_ℤ, ltb_ℤ}
use gift_hub.Models.{User, WalletTransaction}
use gift_hub.Session.{
  Session, Result, ok, err, value_error, user_not_found, integrity_error, insufficient_balance,
}
use gift_hub.Wallet.{
  Entry, has_user_id, get_user_locked, ledger_valid, set_balance, ledger_row, book, credit_balance,
  debit_balance, or_system,
}

-- The session after a booking that passed its checks.
abbrev pub booked : WalletTransaction → String → Session → Session
booked t method s = record s {
  db = record (set_balance t.user_id t.balance_after s.db) {
    wallet_transactions = s.db.wallet_transactions ++ t ∷ [];
    transactions =
        s.db.transactions
        ++ record { user_id = t.user_id; amount = t.amount; tx_type = t.tx_type; method = method }
          ∷ [];
  };
}

-- The session after a rollback.
abbrev pub rolled_back : Session → Session
rolled_back s = record s { db = s.saved }

module _ (i : ℕ) (amount : ℤ) (e : Entry) (s : Session) where
  pub credit_refused :
      leb_ℤ amount (pos 0) ≡ true → credit_balance i amount e s ≡ (err value_error, s)
  unfolding credit_balance
  credit_refused h = rw h

  module _ (positive : leb_ℤ amount (pos 0) ≡ false) where
    pub credit_missing :
        find (has_user_id i) s.db.users ≡ none
        → credit_balance i amount e s ≡ (err user_not_found, s)
    unfolding credit_balance get_user_locked
    credit_missing h = rw positive (rw h)

    pub credit_found :
        {u : User}
        → find (has_user_id i) s.db.users ≡ some u
        → let t = ledger_row i amount u.balance (u.balance +ℤ amount) e in
          credit_balance i amount e s ≡ (
            if ledger_valid t s.db.wallet_transactions
            then (
              ok (record u { balance = u.balance +ℤ amount }, t),
              booked t (or_system e.reference_type) s,
            )
            else (err integrity_error, rolled_back s))
    unfolding credit_balance get_user_locked book
    credit_found {u} h =
        let t = ledger_row i amount u.balance (u.balance +ℤ amount) e in
        rw positive (
          rw h (elim (Bool-cases (ledger_valid t s.db.wallet_transactions)) [
            | inl v ↦ rw v
            | inr v ↦ rw v
          ]))

  pub debit_refused :
      leb_ℤ amount (pos 0) ≡ true → debit_balance i amount e s ≡ (err value_error, s)
  unfolding debit_balance
  debit_refused h = rw h

  module _ (positive : leb_ℤ amount (pos 0) ≡ false) where
    pub debit_missing :
        find (has_user_id i) s.db.users ≡ none
        → debit_balance i amount e s ≡ (err user_not_found, s)
    unfolding debit_balance get_user_locked
    debit_missing h = rw positive (rw h)

    pub debit_short :
        {u : User}
        → find (has_user_id i) s.db.users ≡ some u
        → ltb_ℤ u.balance amount ≡ true
        → debit_balance i amount e s ≡ (err insufficient_balance, s)
    unfolding debit_balance get_user_locked
    debit_short h short = rw positive (rw h (rw short))

    pub debit_found :
        {u : User}
        → find (has_user_id i) s.db.users ≡ some u
        → ltb_ℤ u.balance amount ≡ false
        → let t = ledger_row i (neg amount) u.balance (u.balance -ℤ amount) e in
          debit_balance i amount e s ≡ (
            if ledger_valid t s.db.wallet_transactions
            then (ok (record u { balance = u.balance -ℤ amount }, t), booked t "balance" s)
            else (err integrity_error, rolled_back s))
    unfolding debit_balance get_user_locked
    debit_found {u} h covered =
        let t = ledger_row i (neg amount) u.balance (u.balance -ℤ amount) e in
        rw positive (
          rw h (
            rw covered (elim (Bool-cases (ledger_valid t s.db.wallet_transactions)) [
              | inl v ↦ rw v
              | inr v ↦ rw v
            ])))

-- How a call can leave the session: as it was, rolled back, or with one more ledger row.
abbrev pub Outcome : Session → Session → Type 0
Outcome s s' =
    (s' ≡ s)
    ⊎ (s' ≡ rolled_back s)
    ⊎ ((t : WalletTransaction) × (method : String) × (s' ≡ booked t method s))

booked-Outcome :
    {A : Type 0} (v : Bool) (t : WalletTransaction) (method : String) (a : A) (s : Session)
    {r : Result A × Session}
    → r ≡ (if v then (ok a, booked t method s) else (err integrity_error, rolled_back s))
    → Outcome s r.1
booked-Outcome true t method a s e = inr (inr (t, method, ap (λ r. r.1) e))
booked-Outcome false t method a s e = inr (inl (ap (λ r. r.1) e))

module _ (i : ℕ) (amount : ℤ) (e : Entry) (s : Session) where
  pub credit-Outcome : Outcome s (credit_balance i amount e s).1
  credit-Outcome = elim (Bool-cases (leb_ℤ amount (pos 0))) [
    | inl bad ↦ inl (ap (λ r. r.1) (credit_refused i amount e s bad))
    | inr good ↦ elim (Option-cases (find (has_user_id i) s.db.users)) [
      | inl h ↦ inl (ap (λ r. r.1) (credit_missing i amount e s good h))
      | inr (u, h) ↦ booked-Outcome _ _ _ _ s (credit_found i amount e s good h)
    ]
  ]

  pub debit-Outcome : Outcome s (debit_balance i amount e s).1
  debit-Outcome = elim (Bool-cases (leb_ℤ amount (pos 0))) [
    | inl bad ↦ inl (ap (λ r. r.1) (debit_refused i amount e s bad))
    | inr good ↦ elim (Option-cases (find (has_user_id i) s.db.users)) [
      | inl h ↦ inl (ap (λ r. r.1) (debit_missing i amount e s good h))
      | inr (u, h) ↦ elim (Bool-cases (ltb_ℤ u.balance amount)) [
        | inl short ↦ inl (ap (λ r. r.1) (debit_short i amount e s good h short))
        | inr covered ↦ booked-Outcome _ _ _ _ s (debit_found i amount e s good h covered)
      ]
    ]
  ]
