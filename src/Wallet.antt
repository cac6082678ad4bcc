-- ===== src/Wallet.antt =====
-- The wallet: app/services/wallet/service.py, over `User` and the ledger of app/models/wallet.py with
-- the constraints of both tables. Notes, log lines and the texts of errors are left out.
pub mod Ledger
pub mod Outcomes
pub mod Moves
pub mod Once
pub mod Adjust
pub mod Success
pub mod Accounts
use gift_hub.Prelude.{
  ℕ, ◌==◌, String, Bool, true, false, not, ◌&&◌, ◌||◌, Option, none, some, List, [], ◌∷◌, ◌++◌,
  str_eq, find, any, update_rows, if◌then◌else◌,
}
use gift_hub.Prelude.Int.{ℤ, pos, ◌+ℤ◌, ◌-ℤ◌, neg, abs, ltb_ℤ, leb_ℤ}
use gift_hub.Prelude.Texts.{is_empty, show}
use gift_hub.Models.{User, WalletTransaction, Transaction, AdminAuditLog, Db}
use gift_hub.Session.{
  Exec, pure, gets, or_raise, raise_if, modify, flush, ◌>>=◌, ◌>>◌, value_error, user_not_found,
  insufficient_balance,
}

abbrev pub has_user_id : ℕ → User → Bool
has_user_id i u = u.id == i

unfoldable pub get_user_locked : ℕ → Exec User
get_user_locked user_id = do
  user ← gets (λ d. find (has_user_id user_id) d.users)
  or_raise user_not_found user

abbrev pub same_text : Option String → Option String → Bool
same_text (some a) (some b) = str_eq a b
same_text _ _ = false

-- Whether two rows clash under `uq_wallet_reference_tx`; a null column clashes with nothing.
unfoldable pub same_reference : WalletTransaction → WalletTransaction → Bool
same_reference t u =
    same_text t.reference_type u.reference_type
    && same_text t.reference_id u.reference_id
    && str_eq t.tx_type u.tx_type

-- The constraints of the ledger's table and of the users' table, on a new row.
unfoldable pub row_valid : WalletTransaction → Bool
row_valid t =
    (ltb_ℤ t.amount (pos 0) || ltb_ℤ (pos 0) t.amount)
    && leb_ℤ (pos 0) t.balance_before
    && leb_ℤ (pos 0) t.balance_after

-- What a flush checks of a new ledger row: its balances are also the user's.
unfoldable pub ledger_valid : WalletTransaction → List WalletTransaction → Bool
unfolding same_reference row_valid
ledger_valid t ledger = row_valid t && not (any (same_reference t) ledger)

-- `str(reference_id) if reference_id else None`
abbrev or_null : Option String → Option String
or_null none = none
or_null (some s) = if is_empty s then none else some s

-- `reference_type or "system"`
abbrev pub or_system : Option String → String
or_system none = "system"
or_system (some s) = if is_empty s then "system" else s

-- `user.balance = balance`
abbrev pub set_balance : ℕ → ℤ → Db → Db
set_balance i balance d = record d {
  users = update_rows (has_user_id i) (λ u. record u { balance = balance }) d.users;
}

-- What a movement is booked under.
pub record Entry : Type 0 where
  pub tx_type : String
  pub reference_type : Option String
  pub reference_id : Option String

abbrev pub ledger_row : ℕ → ℤ → ℤ → ℤ → Entry → WalletTransaction
ledger_row user_id amount before after e = record {
  user_id = user_id;
  tx_type = e.tx_type;
  amount = amount;
  balance_before = before;
  balance_after = after;
  reference_type = e.reference_type;
  reference_id = or_null e.reference_id;
}

-- The two rows are added and flushed with the new balance.
unfoldable pub book : WalletTransaction → String → Exec (Unit {0})
unfolding ledger_valid
book t method s =
    let pending = λ (d : Db). record (set_balance t.user_id t.balance_after d) {
      wallet_transactions = d.wallet_transactions ++ t ∷ [];
      transactions =
          d.transactions
          ++ record { user_id = t.user_id; amount = t.amount; tx_type = t.tx_type; method = method }
            ∷ [];
    } in
    (modify pending >> flush (λ _. ledger_valid t s.db.wallet_transactions)) s

unfoldable pub credit_balance : ℕ → ℤ → Entry → Exec (User × WalletTransaction)
unfolding get_user_locked book
credit_balance user_id amount e = do
  raise_if (leb_ℤ amount (pos 0)) value_error
  user ← get_user_locked user_id
  let after = user.balance +ℤ amount
  let t = ledger_row user_id amount user.balance after e
  book t (or_system e.reference_type)
  pure (record user { balance = after }, t)

unfoldable pub debit_balance : ℕ → ℤ → Entry → Exec (User × WalletTransaction)
unfolding get_user_locked book
debit_balance user_id amount e = do
  raise_if (leb_ℤ amount (pos 0)) value_error
  user ← get_user_locked user_id
  raise_if (ltb_ℤ user.balance amount) insufficient_balance
  let after = user.balance -ℤ amount
  let t = ledger_row user_id (neg amount) user.balance after e
  book t "balance"
  pure (record user { balance = after }, t)

abbrev pub adjustment : String → Entry
adjustment admin = record {
  tx_type = "admin_adjustment";
  reference_type = some "admin";
  reference_id = some admin;
}

abbrev audit : ℕ → ℕ → String → WalletTransaction → Db → Db
audit admin_id user_id reason t d = record d {
  admin_audit_log =
      d.admin_audit_log
      ++ record {
        admin_id = admin_id;
        action = "adjust_balance";
        entity_type = "user";
        entity_id = user_id;
        old_value = some t.balance_before;
        new_value = some t.balance_after;
        reason = some reason;
      }
        ∷ [];
}

unfoldable pub log_adjustment :
    ℕ → ℕ → String → User × WalletTransaction → Exec (User × Option WalletTransaction)
log_adjustment admin_id user_id reason (user, t) = do
  modify (audit admin_id user_id reason t)
  pure (user, some t)

unfoldable pub adjust_balance_admin : ℕ → ℕ → ℤ → String → Exec (User × Option WalletTransaction)
unfolding get_user_locked log_adjustment
adjust_balance_admin admin_id user_id amount reason =
    let entry = adjustment (show admin_id) in
    if ltb_ℤ (pos 0) amount
    then (credit_balance user_id amount entry >>= log_adjustment admin_id user_id reason)
    else if ltb_ℤ amount (pos 0)
    then (debit_balance user_id (abs amount) entry >>= log_adjustment admin_id user_id reason)
    else (get_user_locked user_id >>= λ u. pure (u, none))
