-- ===== src/Wallet/Accounts.antt =====
-- The wallet as a map from users to balances, and what its operations are on that map.
use mathlib.Core.Option
use mathlib.Core.Path.{fun_ext}
use gift_hub.Prelude.{
  ℕ, ◌==◌, ◌≡◌, refl, sym, ap, subst, ◌∙◌, false, Option, some, List, [], ◌∷◌, arith, find,
  find-update, update_rows, Bool-cases, Option-cases, inl, inr, if◌then◌else◌,
}
use gift_hub.Prelude.Int.{ℤ, pos, ◌+ℤ◌, ◌-ℤ◌, neg, ltb_ℤ, leb_ℤ}
use gift_hub.Models.{User, WalletTransaction}
use gift_hub.Session.{Session, Exec, Result, ok, err, continue, pure, ◌>>=◌}
use gift_hub.Wallet.{Entry, has_user_id, ledger_row, credit_balance, debit_balance}
use gift_hub.Wallet.Outcomes.{booked, debit_refused, debit_missing, debit_short, debit_found}
use gift_hub.Wallet.Success.{credit-IsCredited, if_ok}

-- The balances of a session's users.
abbrev pub Balances : Type 0
Balances = ℕ → Option ℤ

abbrev pub balances : Session → Balances
balances s j = Option.map (λ (u : User). u.balance) (find (has_user_id j) s.db.users)

pub data Move : Type 0 where
  credit debit : ℕ → ℤ → Entry → Move

-- The operation itself.
unfoldable pub move : Move → Exec (User × WalletTransaction)
move (credit i a e) = credit_balance i a e
move (debit i a e) = debit_balance i a e

-- What it is on the map: one balance moves, by the amount or its opposite.
abbrev pub move_spec : Move → Balances → Balances
move_spec (credit i a e) b j = if i == j then Option.map (λ x. x +ℤ a) (b j) else b j
move_spec (debit i a e) b j = if i == j then Option.map (λ x. x -ℤ a) (b j) else b j

-- When it is allowed on the map.
abbrev pub Allowed : Move → Balances → Type 0
Allowed (credit i a e) b = (x : ℤ) × ((b i ≡ some x) × (leb_ℤ a (pos 0) ≡ false))
Allowed (debit i a e) b =
    (x : ℤ) × ((b i ≡ some x) × ((leb_ℤ a (pos 0) ≡ false) × (ltb_ℤ x a ≡ false)))

find-other :
    (i j : ℕ) (f : User → User) (us : List User)
    → ((u : User) → (f u).id ≡ u.id)
    → (i == j) ≡ false
    → find (has_user_id j) (update_rows (has_user_id i) f us) ≡ find (has_user_id j) us
find-other i j f [] keep k = refl
find-other i j f (u ∷ us) keep k = elim (Bool-cases (has_user_id i u)) [
  | inl y ↦
      let n : has_user_id j u ≡ false = ground arith in
      rw (y, keep u, n) (find-other i j f us keep k)
  | inr m ↦ elim (Bool-cases (has_user_id j u)) [
    | inl z ↦ rw (m, z)
    | inr w ↦ rw (m, w) (find-other i j f us keep k)
  ]
]

module _ (i : ℕ) (a : ℤ) (u : User) (s : Session)
    (found : find (has_user_id i) s.db.users ≡ some u) where
  moved :
      (b : ℤ) (j : ℕ)
      → Option.map
          (λ (u : User). u.balance)
          (find
            (has_user_id j)
            (update_rows (has_user_id i) (λ (u : User). record u { balance = b }) s.db.users))
        ≡ (if i == j then some b else balances s j)
  moved b j = elim (Bool-cases (i == j)) [
    | inl y ↦
        let same : i ≡ j = ground arith in
        let f = λ (u : User). record u { balance = b } in
        let at_i =
          ap (Option.map (λ (u : User). u.balance))
            (find-update (has_user_id i) f s.db.users (λ u. refl) ∙ ap (Option.map f) found) in
        rw y (
          subst
            (λ k.
              Option.map (λ (u : User). u.balance)
                (find (has_user_id k) (update_rows (has_user_id i) f s.db.users))
              ≡ some b)
            same at_i)
    | inr n ↦
        rw (n, find-other i j (λ (u : User). record u { balance = b }) s.db.users (λ u. refl) n)
  ]

  moved_as_stated :
      (b : ℤ) (f : ℤ → ℤ) (j : ℕ)
      → f u.balance ≡ b
      → (if i == j then some b else balances s j)
        ≡ (if i == j then Option.map f (balances s j) else balances s j)
  moved_as_stated b f j k = elim (Bool-cases (i == j)) [
    | inl y ↦
        let same : i ≡ j = ground arith in
        rw y (
          sym (
            ap (λ o. Option.map f (Option.map (λ (u : User). u.balance) o))
              (subst (λ k. find (has_user_id k) s.db.users ≡ some u) same found)
            ∙ ap some k))
    | inr n ↦ rw n
  ]

-- What a debit that succeeded has done.
record IsDebited (i : ℕ) (a : ℤ) (e : Entry) (s s' : Session) : Type 0 where
  pub user : User
  pub found : find (has_user_id i) s.db.users ≡ some user
  pub positive : leb_ℤ a (pos 0) ≡ false
  pub covered : ltb_ℤ user.balance a ≡ false
  pub after : s' ≡ booked (ledger_row i (neg a) user.balance (user.balance -ℤ a) e) "balance" s

debit-IsDebited :
    (i : ℕ) (a : ℤ) (e : Entry) (s s' : Session) (x : User × WalletTransaction)
    → debit_balance i a e s ≡ (ok x, s')
    → IsDebited i a e s s'
debit-IsDebited i a e s s' x k = elim (Bool-cases (leb_ℤ a (pos 0))) [
  | inl bad ↦ cc (debit_refused i a e s bad)
  | inr good ↦ elim (Option-cases (find (has_user_id i) s.db.users)) [
    | inl h ↦ cc (debit_missing i a e s good h)
    | inr (u, h) ↦ elim (Bool-cases (ltb_ℤ u.balance a)) [
      | inl short ↦ cc (debit_short i a e s good h short)
      | inr covered ↦ record {
        user = u;
        found = h;
        positive = good;
        covered = covered;
        after = if_ok _ _ x _ _ s' (debit_found i a e s good h covered) k;
      }
    ]
  ]
]

-- A credit or debit that succeeds was allowed on the map, and is on it what it is specified to be.
move_refines :
    (m : Move) (s s' : Session) (x : User × WalletTransaction)
    → move m s ≡ (ok x, s')
    → Allowed m (balances s) × ((j : ℕ) → balances s' j ≡ move_spec m (balances s) j)
unfolding move
move_refines (credit i a e) s s' x k =
    let c = credit-IsCredited i a e s s' x k in
    let b = c.user.balance +ℤ a in
    (
      (c.user.balance, (ap (Option.map (λ (u : User). u.balance)) c.found, c.positive)),
      λ j.
          ap (λ t. balances t j) c.after
          ∙ moved i a c.user s c.found b j
          ∙ moved_as_stated i a c.user s c.found b (λ x. x +ℤ a) j refl,
    )
move_refines (debit i a e) s s' x k =
    let c = debit-IsDebited i a e s s' x k in
    let b = c.user.balance -ℤ a in
    (
      (
        c.user.balance,
        (ap (Option.map (λ (u : User). u.balance)) c.found, (c.positive, c.covered)),
      ),
      λ j.
          ap (λ t. balances t j) c.after
          ∙ moved i a c.user s c.found b j
          ∙ moved_as_stated i a c.user s c.found b (λ x. x -ℤ a) j refl,
    )

-- A sequence of credits and debits, ended by the first that raises.
unfoldable pub moves : List Move → Exec (Unit {0})
unfolding move
moves [] = pure tt
moves (m ∷ ms) = move m >>= λ _. moves ms

abbrev pub moves_spec : List Move → Balances → Balances
moves_spec [] b = b
moves_spec (m ∷ ms) b = moves_spec ms (move_spec m b)

abbrev pub AllAllowed : List Move → Balances → Type 0
AllAllowed [] b = Unit {0}
AllAllowed (m ∷ ms) b = Allowed m b × AllAllowed ms (move_spec m b)

step_refines :
    (m : Move) (ms : List Move) (s t s' : Session) (r : Result (User × WalletTransaction))
    → move m s ≡ (r, t)
    → continue r (λ _. moves ms) t ≡ (ok tt, s')
    → ((t : Session)
        → moves ms t ≡ (ok tt, s')
        → AllAllowed ms (balances t) × (balances s' ≡ moves_spec ms (balances t)))
    → AllAllowed (m ∷ ms) (balances s) × (balances s' ≡ moves_spec (m ∷ ms) (balances s))
step_refines m ms s t s' (err e) k h rest = cc (ap (λ p. p.0) h)
step_refines m ms s t s' (ok x) k h rest =
    let one = move_refines m s t x k in
    let same : balances t ≡ move_spec m (balances s) = fun_ext one.1 in
    let more = rest t h in
    ((one.0, subst (AllAllowed ms) same more.0), more.1 ∙ ap (moves_spec ms) same)

-- The wallet implements a map from users to balances. A sequence of credits and debits that goes
-- through was allowed on the map at every step, each amount being positive, each user known and each
-- debit covered, and leaves the map that the steps make of it: each moves one balance by its amount
-- and no other.
pub moves_refine :
    (ms : List Move) (s s' : Session)
    → moves ms s ≡ (ok tt, s')
    → AllAllowed ms (balances s) × (balances s' ≡ moves_spec ms (balances s))
unfolding moves
moves_refine [] s s' h = (tt, ap (λ p. balances p.1) (sym h))
moves_refine (m ∷ ms) s s' h = step_refines m ms s _ s' _ refl h (λ t k. moves_refine ms t s' k)
