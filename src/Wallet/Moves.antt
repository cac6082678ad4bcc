-- ===== src/Wallet/Moves.antt =====
-- The invariant of the wallet, along any sequence of calls.
use gift_hub.Prelude.{
  ℕ, String, ◌≡◌, refl, some, List, [], ◌∷◌, find, Bool-cases, Option-cases, inl, inr,
  if◌then◌else◌,
}
use gift_hub.Prelude.Int.{ℤ, pos, ◌+ℤ◌, ◌-ℤ◌, neg, leb_ℤ, ltb_ℤ, int_laws, abs}
use gift_hub.Models.{User, WalletTransaction}
use gift_hub.Prelude.Texts.{show}
use gift_hub.Session.{commit, rollback, continue, Session, Result, ok, err, integrity_error}
use gift_hub.Wallet.{
  Entry, has_user_id, get_user_locked, ledger_valid, ledger_row, credit_balance, debit_balance,
  log_adjustment, adjust_balance_admin, or_system, adjustment,
}
use gift_hub.Wallet.Ledger.{IsSound, booked-IsSound}
use gift_hub.Wallet.Outcomes.{
  booked, rolled_back, credit_refused, credit_missing, credit_found, debit_refused, debit_missing,
  debit_short, debit_found,
}

-- Sound tables, now and as committed.
pub record IsSoundSession (opening : ℕ → ℤ) (s : Session) : Type 0 where
  pub now : IsSound opening s.db
  pub committed : IsSound opening s.saved

module _ {A : Type 0} (opening : ℕ → ℤ) (s : Session) {u : User} (t : WalletTransaction)
    (method : String) (a : A) (sound : IsSoundSession opening s)
    (found : find (has_user_id t.user_id) s.db.users ≡ some u)
    (before : t.balance_before ≡ u.balance)
    (after : t.balance_after ≡ t.balance_before +ℤ t.amount) where
  booked-IsSound_session :
      {r : Result A × Session}
      → r ≡ (
          if ledger_valid t s.db.wallet_transactions
          then (ok a, booked t method s)
          else (err integrity_error, rolled_back s))
      → IsSoundSession opening r.1
  booked-IsSound_session e = elim (Bool-cases (ledger_valid t s.db.wallet_transactions)) [
    | inl v ↦ rw e (
        rw v (record {
          now = booked-IsSound opening t s.db sound.now found before after v _;
          committed = sound.committed;
        }))
    | inr v ↦ rw e (rw v (record { now = sound.committed; committed = sound.committed }))
  ]

module _ (opening : ℕ → ℤ) (i : ℕ) (amount : ℤ) (e : Entry) (s : Session)
    (sound : IsSoundSession opening s) where
  -- A credit, however it ends, keeps the tables sound.
  pub credit-IsSound : IsSoundSession opening (credit_balance i amount e s).1
  credit-IsSound = elim (Bool-cases (leb_ℤ amount (pos 0))) [
    | inl bad ↦ rw (credit_refused i amount e s bad) sound
    | inr good ↦ elim (Option-cases (find (has_user_id i) s.db.users)) [
      | inl h ↦ rw (credit_missing i amount e s good h) sound
      | inr (u, h) ↦
          booked-IsSound_session opening s (ledger_row i amount u.balance (u.balance +ℤ amount) e)
            (or_system e.reference_type) _ sound h refl refl (credit_found i amount e s good h)
    ]
  ]

  -- A debit, however it ends, keeps the tables sound.
  pub debit-IsSound : IsSoundSession opening (debit_balance i amount e s).1
  debit-IsSound = elim (Bool-cases (leb_ℤ amount (pos 0))) [
    | inl bad ↦ rw (debit_refused i amount e s bad) sound
    | inr good ↦ elim (Option-cases (find (has_user_id i) s.db.users)) [
      | inl h ↦ rw (debit_missing i amount e s good h) sound
      | inr (u, h) ↦ elim (Bool-cases (ltb_ℤ u.balance amount)) [
        | inl short ↦ rw (debit_short i amount e s good h short) sound
        | inr covered ↦
            booked-IsSound_session opening s
              (ledger_row i (neg amount) u.balance (u.balance -ℤ amount) e) "balance" _ sound h refl
              (omega int_laws) (debit_found i amount e s good h covered)
      ]
    ]
  ]

-- What is done with the wallet in a session, with the ends of transactions between the calls.
pub data WalletCall : Type 0 where
  credit debit : ℕ → ℤ → Entry → WalletCall
  adjust : ℕ → ℕ → ℤ → String → WalletCall
  commit_ rollback_ : WalletCall

unfoldable pub call : WalletCall → Session → Session
call (WalletCall.credit i a e) s = (credit_balance i a e s).1
call (WalletCall.debit i a e) s = (debit_balance i a e s).1
call (WalletCall.adjust admin i a reason) s = (adjust_balance_admin admin i a reason s).1
call WalletCall.commit_ s = (commit s).1
call WalletCall.rollback_ s = (rollback s).1

unfoldable pub calls : List WalletCall → Session → Session
calls [] s = s
calls (c ∷ cs) s = calls cs (call c s)

log-IsSound :
    (opening : ℕ → ℤ) (admin i : ℕ) (reason : String) (r : Result (User × WalletTransaction))
    (s : Session)
    → IsSoundSession opening s
    → IsSoundSession opening (continue r (log_adjustment admin i reason) s).1
unfolding log_adjustment
log-IsSound opening admin i reason (ok (u, t)) s h = record {
  now = record { accounts = h.now.accounts; rows = h.now.rows; distinct = h.now.distinct };
  committed = h.committed;
}
log-IsSound opening admin i reason (err e) s h = h

adjust-IsSound :
    (opening : ℕ → ℤ) (admin i : ℕ) (amount : ℤ) (reason : String) (s : Session)
    → IsSoundSession opening s
    → IsSoundSession opening (adjust_balance_admin admin i amount reason s).1
unfolding adjust_balance_admin get_user_locked
adjust-IsSound opening admin i amount reason s h =
    let entry = adjustment (show admin) in
    elim (Bool-cases (ltb_ℤ (pos 0) amount)) [
      | inl up ↦
          let r = credit_balance i amount entry s in
          rw up
            (log-IsSound opening admin i reason r.0 r.1 (credit-IsSound opening i amount entry s h))
      | inr e ↦ elim (Bool-cases (ltb_ℤ amount (pos 0))) [
        | inl down ↦
            let r = debit_balance i (abs amount) entry s in
            rw e (
              rw down (
                log-IsSound opening admin i reason r.0 r.1
                  (debit-IsSound opening i (abs amount) entry s h)))
        | inr zero_ ↦ rw e (
            rw zero_ (elim (Option-cases (find (has_user_id i) s.db.users)) [
              | inl n ↦ rw n h
              | inr (u, f) ↦ rw f h
            ]))
      ]
    ]

call-IsSound :
    (opening : ℕ → ℤ) (c : WalletCall) (s : Session)
    → IsSoundSession opening s
    → IsSoundSession opening (call c s)
unfolding call
call-IsSound opening (WalletCall.credit i a e) s h = credit-IsSound opening i a e s h
call-IsSound opening (WalletCall.debit i a e) s h = debit-IsSound opening i a e s h
call-IsSound opening (WalletCall.adjust admin i a reason) s h =
    adjust-IsSound opening admin i a reason s h
call-IsSound opening WalletCall.commit_ s h = record { now = h.now; committed = h.now }
call-IsSound opening WalletCall.rollback_ s h = record {
  now = h.committed;
  committed = h.committed;
}

-- From sound tables, after any calls of the wallet, failed ones included, and any commits and
-- rollbacks, the tables are sound: no balance is negative, every balance is the opening one with all
-- movements of that user in the ledger, every ledger row's balances differ by its amount, and no
-- reference is booked twice.
pub calls-IsSound :
    (opening : ℕ → ℤ) (cs : List WalletCall) (s : Session)
    → IsSoundSession opening s
    → IsSoundSession opening (calls cs s)
unfolding calls
calls-IsSound opening [] s h = h
calls-IsSound opening (c ∷ cs) s h =
    calls-IsSound opening cs (call c s) (call-IsSound opening c s h)
