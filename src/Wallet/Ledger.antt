-- ===== src/Wallet/Ledger.antt =====
-- The invariant of the users' and the ledger's tables, and the booking of a movement.
use gift_hub.Prelude.{
  ℕ, ◌==◌, ◌≡◌, sym, ap, ◌∙◌, true, false, some, List, [], ◌∷◌, ◌++◌, arith, find, any, All,
  Bool-cases, inl, inr, if◌then◌else◌,
}
use gift_hub.Prelude.Int.{ℤ, pos, ◌+ℤ◌, ◌≤ℤ◌, int_laws}
use gift_hub.Prelude.Every.{All-update, All-append, find-All}
use gift_hub.Models.{User, WalletTransaction, Transaction, Db}
use gift_hub.Wallet.{has_user_id, same_reference, row_valid, ledger_valid, set_balance}

-- The sum of the movements of one user.
abbrev pub ledger_sum : ℕ → List WalletTransaction → ℤ
ledger_sum i [] = pos 0
ledger_sum i (t ∷ ts) = (if t.user_id == i then t.amount else pos 0) +ℤ ledger_sum i ts

pub ledger_sum-append :
    (i : ℕ) (t : WalletTransaction) (ts : List WalletTransaction)
    → ledger_sum i (ts ++ t ∷ []) ≡ ledger_sum i ts +ℤ (if t.user_id == i then t.amount else pos 0)
ledger_sum-append i t [] = omega int_laws
ledger_sum-append i t (u ∷ us) = rw (ledger_sum-append i t us) (omega int_laws)

-- Every row keeps the constraints, its balances differ by its amount, and no two rows share a
-- reference.
abbrev pub IsDistinct : List WalletTransaction → Type 0
IsDistinct [] = Unit
IsDistinct (t ∷ ts) = All (λ u. same_reference u t ≡ false) ts × IsDistinct ts

-- One row: what is booked is what the balance moved by, and no balance is negative.
pub record IsBooked (t : WalletTransaction) : Type 0 where
  pub moved : t.balance_before +ℤ t.amount ≡ t.balance_after
  pub before_nonneg : pos 0 ≤ℤ t.balance_before
  pub after_nonneg : pos 0 ≤ℤ t.balance_after

-- A user's balance is not negative, and is the opening balance with all movements of the ledger.
pub record IsAccounted (opening : ℕ → ℤ) (ledger : List WalletTransaction) (u : User) : Type 0 where
  pub nonneg : pos 0 ≤ℤ u.balance
  pub balanced : u.balance ≡ opening u.id +ℤ ledger_sum u.id ledger

pub record IsSound (opening : ℕ → ℤ) (d : Db) : Type 0 where
  pub accounts : All (IsAccounted opening d.wallet_transactions) d.users
  pub rows : All IsBooked d.wallet_transactions
  pub distinct : IsDistinct d.wallet_transactions

any-All :
    (t : WalletTransaction) (ts : List WalletTransaction)
    → any (same_reference t) ts ≡ false
    → All (λ u. same_reference t u ≡ false) ts
any-All t [] h = tt
any-All t (u ∷ us) h = elim (Bool-cases (same_reference t u)) [
  | inl e ↦ ground arith
  | inr e ↦ (e, any-All t us (ground arith))
]

IsDistinct-append :
    (t : WalletTransaction) (ts : List WalletTransaction)
    → All (λ u. same_reference t u ≡ false) ts
    → IsDistinct ts
    → IsDistinct (ts ++ t ∷ [])
IsDistinct-append t [] h k = (tt, tt)
IsDistinct-append t (u ∷ us) h k =
    (All-append _ us (t ∷ []) k.0 (h.0, tt), IsDistinct-append t us h.1 k.1)

module _ (opening : ℕ → ℤ) (t : WalletTransaction) (d : Db) {u : User} (sound : IsSound opening d)
    (found : find (has_user_id t.user_id) d.users ≡ some u) (before : t.balance_before ≡ u.balance)
    (after : t.balance_after ≡ t.balance_before +ℤ t.amount) where
  abbrev pub new_ledger : List WalletTransaction
  new_ledger = d.wallet_transactions ++ t ∷ []

  -- The user who is booked on.
  changed-IsAccounted :
      pos 0 ≤ℤ t.balance_after
      → (x : User) → IsAccounted opening d.wallet_transactions x
      → has_user_id t.user_id x ≡ true
      → IsAccounted opening new_ledger (record x { balance = t.balance_after })
  changed-IsAccounted nonneg x h e =
      let f = find-All _ (has_user_id t.user_id) d.users sound.accounts found in
      let same : x.id ≡ t.user_id = ground arith in
      let same_u : u.id ≡ t.user_id = ground (arith, f.1) in
      let self : (t.user_id == x.id) ≡ true = ground arith in
      let one_more : opening x.id +ℤ ledger_sum x.id d.wallet_transactions +ℤ t.amount
          ≡ opening x.id
            +ℤ (ledger_sum x.id d.wallet_transactions
                +ℤ (if t.user_id == x.id then t.amount else pos 0)) =
        rw self (omega int_laws) in
      record {
        nonneg = nonneg;
        balanced =
            after
            ∙ ap (λ b. b +ℤ t.amount) (before ∙ f.0.balanced)
            ∙ ap (λ i. opening i +ℤ ledger_sum i d.wallet_transactions +ℤ t.amount)
                (same_u ∙ sym same)
            ∙ one_more
            ∙ ap (λ z. opening x.id +ℤ z) (sym (ledger_sum-append x.id t d.wallet_transactions));
      }

  -- Any other user.
  kept-IsAccounted :
      (x : User)
      → IsAccounted opening d.wallet_transactions x
      → has_user_id t.user_id x ≡ false
      → IsAccounted opening new_ledger x
  kept-IsAccounted x h e =
      let other : (t.user_id == x.id) ≡ false = ground arith in
      let no_more : ledger_sum x.id d.wallet_transactions
            +ℤ (if t.user_id == x.id then t.amount else pos 0)
          ≡ ledger_sum x.id d.wallet_transactions =
        rw other (omega int_laws) in
      record {
        nonneg = h.nonneg;
        balanced =
            h.balanced
            ∙ ap (λ z. opening x.id +ℤ z)
                (sym (ledger_sum-append x.id t d.wallet_transactions ∙ no_more));
      }

  -- A booking that passes the constraints keeps the tables sound.
  pub booked-IsSound :
      ledger_valid t d.wallet_transactions ≡ true
      → (ts : List Transaction)
      → IsSound opening (record (set_balance t.user_id t.balance_after d) {
        wallet_transactions = new_ledger;
        transactions = ts;
      })
  unfolding ledger_valid row_valid
  booked-IsSound valid ts =
      let fresh : any (same_reference t) d.wallet_transactions ≡ false = ground arith in
      let row : IsBooked t = record {
        moved = sym after;
        before_nonneg = ground arith;
        after_nonneg = ground arith;
      } in
      record {
        accounts =
            All-update _ _ (has_user_id t.user_id) _ d.users (changed-IsAccounted row.after_nonneg)
              kept-IsAccounted sound.accounts;
        rows = All-append _ d.wallet_transactions (t ∷ []) sound.rows (row, tt);
        distinct =
            IsDistinct-append t d.wallet_transactions (any-All t d.wallet_transactions fresh)
              sound.distinct;
      }
