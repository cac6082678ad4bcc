-- ===== src/Wallet/Adjust.antt =====
-- Adjustments by administrators, `adjust_balance_admin`, and their reference.
use gift_hub.Prelude.{
  ℕ, String, ◌≡◌, refl, sym, ap, ◌∙◌, Bool, true, ◌||◌, Option, List, arith, any, Bool-cases, inl,
  inr,
}
use gift_hub.Prelude.Int.{ℤ, pos, abs, ltb_ℤ}
use gift_hub.Prelude.Texts.{show, show-nonempty}
use gift_hub.Models.{User, WalletTransaction}
use gift_hub.Session.{Session, Result, ok, err, continue, commit}
use gift_hub.Wallet.{
  Entry, credit_balance, debit_balance, log_adjustment, adjust_balance_admin, adjustment,
}
use gift_hub.Wallet.Moves.{WalletCall, calls}
use gift_hub.Wallet.Once.{
  refers, HasReference, calls-IsTaken, IsRaised, taken-credit, taken-debit, credit-takes,
  debit-takes,
}

adjustment-HasReference : (admin : ℕ) → HasReference (adjustment (show admin))
adjustment-HasReference admin = record {
  kind = "admin";
  ident = show admin;
  type_eq = refl;
  id_eq = refl;
  nonempty = show-nonempty admin;
}

log-takes :
    (e : Entry) (admin i : ℕ) (reason : String) (r : Result (User × WalletTransaction))
    (s1 s' : Session) (y : User × Option WalletTransaction)
    → continue r (log_adjustment admin i reason) s1 ≡ (ok y, s')
    → ((x : User × WalletTransaction) → r ≡ ok x → any (refers e) s1.db.wallet_transactions ≡ true)
    → any (refers e) s'.db.wallet_transactions ≡ true
unfolding log_adjustment
log-takes e admin i reason (ok (u, t)) s1 s' y k h =
    ap
      (λ (z : Result (User × Option WalletTransaction) × Session).
        any (refers e) z.1.db.wallet_transactions)
      (sym k)
    ∙ h (u, t) refl
log-takes e admin i reason (err z) s1 s' y k h = cc

-- Whether an adjustment changes the balance.
abbrev pub is_nonzero : ℤ → Bool
is_nonzero amount = ltb_ℤ (pos 0) amount || ltb_ℤ amount (pos 0)

adjust-takes :
    (admin i : ℕ) (amount : ℤ) (reason : String) (s s' : Session)
    (y : User × Option WalletTransaction)
    → is_nonzero amount ≡ true
    → adjust_balance_admin admin i amount reason s ≡ (ok y, s')
    → any (refers (adjustment (show admin))) s'.db.wallet_transactions ≡ true
unfolding adjust_balance_admin
adjust-takes admin i amount reason s s' y nz k =
    let e = adjustment (show admin) in
    let ref = adjustment-HasReference admin in
    elim (Bool-cases (ltb_ℤ (pos 0) amount)) [
      | inl up ↦
          let c = credit_balance i amount e s in
          log-takes e admin i reason c.0 c.1 s' y (rw up at k)
            (λ x h. credit-takes i amount e ref s x c.1 (ap (λ z. (z, c.1)) h))
      | inr le ↦
          let down : ltb_ℤ amount (pos 0) ≡ true = ground arith in
          let c = debit_balance i (abs amount) e s in
          log-takes e admin i reason c.0 c.1 s' y (rw down at (rw le at k))
            (λ x h. debit-takes i (abs amount) e ref s x c.1 (ap (λ z. (z, c.1)) h))
    ]

log-IsRaised :
    (admin i : ℕ) (reason : String) (r : Result (User × WalletTransaction)) (s : Session)
    → IsRaised r
    → IsRaised (continue r (log_adjustment admin i reason) s).0
log-IsRaised admin i reason (ok x) s h = absurd h
log-IsRaised admin i reason (err z) s h = tt

-- Once an administrator's adjustment by an amount other than zero has succeeded and is committed,
-- every other one of the same administrator raises: for any user, amount other than zero and reason,
-- whatever calls of the wallet come in between.
pub adjusts_once :
    (admin i j : ℕ) (amount amount' : ℤ) (reason reason' : String) (s s' : Session)
    (y : User × Option WalletTransaction) (cs : List WalletCall)
    → is_nonzero amount ≡ true
    → is_nonzero amount' ≡ true
    → adjust_balance_admin admin i amount reason s ≡ (ok y, s')
    → IsRaised (adjust_balance_admin admin j amount' reason' (calls cs (commit s').1)).0
adjusts_once admin i j amount amount' reason reason' s s' y cs nz nz' k =
    let e = adjustment (show admin) in
    let t = adjust-takes admin i amount reason s s' y nz k in
    let later = calls cs (commit s').1 in
    let taken = (calls-IsTaken e cs (commit s').1 (record { now = t; committed = t })).now in
    unfold adjust_balance_admin in
    elim (Bool-cases (ltb_ℤ (pos 0) amount')) [
      | inl up ↦
          let c = credit_balance j amount' e later in
          rw up (log-IsRaised admin j reason' c.0 c.1 (taken-credit e j amount' later taken))
      | inr le ↦
          let down : ltb_ℤ amount' (pos 0) ≡ true = ground arith in
          let c = debit_balance j (abs amount') e later in
          rw le (
            rw down
              (log-IsRaised admin j reason' c.0 c.1 (taken-debit e j (abs amount') later taken)))
    ]
