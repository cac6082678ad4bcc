-- ===== src/Wallet/Success.antt =====
-- What a credit that succeeded has done.
use gift_hub.Prelude.{
  ℕ, ◌≡◌, sym, ap, ◌∙◌, Bool, true, false, some, find, Bool-cases, Option-cases, inl, inr,
  find-update, refl, if◌then◌else◌,
}
use gift_hub.Prelude.Int.{ℤ, pos, ◌+ℤ◌, leb_ℤ}
use mathlib.Core.Option
use gift_hub.Models.{User, WalletTransaction}
use gift_hub.Session.{Session, Result, ok, err, integrity_error}
use gift_hub.Wallet.{Entry, has_user_id, ledger_row, or_system, credit_balance}
use gift_hub.Wallet.Outcomes.{booked, credit_refused, credit_missing, credit_found}

-- The user was there, the amount was positive, and the ledger has one more row.
pub record IsCredited (i : ℕ) (amount : ℤ) (e : Entry) (s s' : Session) : Type 0 where
  pub user : User
  pub found : find (has_user_id i) s.db.users ≡ some user
  pub positive : leb_ℤ amount (pos 0) ≡ false
  pub after :
      s'
      ≡ booked
          (ledger_row i amount user.balance (user.balance +ℤ amount) e)
          (or_system e.reference_type)
          s

pub if_ok :
    {A : Type 0} (v : Bool) (a x : A) (s1 s0 s' : Session) {r : Result A × Session}
    → r ≡ (if v then (ok a, s1) else (err integrity_error, s0))
    → r ≡ (ok x, s')
    → s' ≡ s1
if_ok true a x s1 s0 s' h k = ap (λ y. y.1) (sym k ∙ h)
if_ok false a x s1 s0 s' h k = cc

pub credit-IsCredited :
    (i : ℕ) (amount : ℤ) (e : Entry) (s s' : Session) (x : User × WalletTransaction)
    → credit_balance i amount e s ≡ (ok x, s')
    → IsCredited i amount e s s'
credit-IsCredited i amount e s s' x k = elim (Bool-cases (leb_ℤ amount (pos 0))) [
  | inl bad ↦ cc (credit_refused i amount e s bad)
  | inr good ↦ elim (Option-cases (find (has_user_id i) s.db.users)) [
    | inl h ↦ cc (credit_missing i amount e s good h)
    | inr (u, h) ↦ record {
      user = u;
      found = h;
      positive = good;
      after = if_ok _ _ x _ _ s' (credit_found i amount e s good h) k;
    }
  ]
]

-- The balance that a later call reads.
pub IsCredited-balance :
    (i : ℕ) (amount : ℤ) (e : Entry) (s s' : Session) (c : IsCredited i amount e s s')
    → find (has_user_id i) s'.db.users ≡ some (record c.user { balance = c.user.balance +ℤ amount })
IsCredited-balance i amount e s s' c =
    let b = c.user.balance +ℤ amount in
    ap (λ (t : Session). find (has_user_id i) t.db.users) c.after
    ∙ find-update (has_user_id i) (λ u. record u { balance = b }) s.db.users (λ u. refl)
    ∙ ap (Option.map (λ (u : User). record u { balance = b })) c.found
