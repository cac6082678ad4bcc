-- ===== src/Payme/Final.antt =====
-- The methods of the Payme protocol on a transaction that is cancelled.
use gift_hub.Prelude.{ℕ, ◌≡◌, refl, ap, ◌∙◌, false, Option, none, some, inl, inr, ◌⊎◌}
use gift_hub.Prelude.Int.{negsuc}
use gift_hub.Models.{User, PaymeTransaction}
use gift_hub.Orders.{Env}
use gift_hub.Session.{Session, ok}
use gift_hub.Payme.{
  Params, rpc_error, cant_perform, cancelled, eq_ℤ, state_created, state_performed, find_tx,
  account, create_tx, create_account, create_for, perform_tx, perform_found, cancel_tx,
  cancel_found,
}

-- Cancelled before or after it was performed.
abbrev pub IsClosed : PaymeTransaction → Type 0
IsClosed t = (t.state ≡ negsuc 0) ⊎ (t.state ≡ negsuc 1)

closed-not_open :
    (t : PaymeTransaction)
    → IsClosed t
    → (eq_ℤ t.state state_created ≡ false) × (eq_ℤ t.state state_performed ≡ false)
closed-not_open t (inl h) = rw h (refl, refl)
closed-not_open t (inr h) = rw h (refl, refl)

module _ (env : Env) (now : ℕ) (p : Params) (t : PaymeTransaction) (s : Session)
    (closed : IsClosed t) where
  perform-closed : perform_found env now p (some t) s ≡ (ok (rpc_error cant_perform), s)
  unfolding perform_found
  perform-closed =
      let n = closed-not_open t closed in let n0 = n.0 in let n1 = n.1 in rw n0 (rw n1 refl)

  cancel-closed : cancel_found now p (some t) s ≡ (ok (cancelled t), s)
  unfolding cancel_found
  cancel-closed =
      let n = closed-not_open t closed in let n0 = n.0 in let n1 = n.1 in rw n0 (rw n1 refl)

  create-closed : (u : User) → create_for now p u (some t) s ≡ (ok (rpc_error cant_perform), s)
  unfolding create_for
  create-closed u = let n = closed-not_open t closed in let n0 = n.0 in rw n0 refl

  module _ (found : find_tx p.id s.db ≡ some t) where
    create_account-closed : (u : Option User) → ((create_account now p u s).1 ≡ s)
    unfolding create_account
    create_account-closed none = refl
    create_account-closed (some u) =
        ap (λ q. (create_for now p u q s).1) found ∙ ap (λ z. z.1) (create-closed u)

-- A cancelled transaction stays as it is: performing it is refused, cancelling it again reports it
-- once more, creating one of the same id makes none, and none of the three changes anything.
pub closed_for_good :
    (env : Env) (now : ℕ) (p : Params) (s : Session) {t : PaymeTransaction}
    → find_tx p.id s.db ≡ some t
    → IsClosed t
    → (perform_tx env now p s ≡ (ok (rpc_error cant_perform), s))
      × (cancel_tx now p s ≡ (ok (cancelled t), s))
      × ((create_tx now p s).1 ≡ s)
unfolding perform_tx cancel_tx create_tx
closed_for_good env now p s {t} found closed = (
  ap (λ q. perform_found env now p q s) found ∙ perform-closed env now p t s closed,
  ap (λ q. cancel_found now p q s) found ∙ cancel-closed env now p t s closed,
  create_account-closed env now p t s closed found (account p s.db),
)
