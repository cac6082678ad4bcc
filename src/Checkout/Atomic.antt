-- ===== src/Checkout/Atomic.antt =====
-- What a checkout leaves in the wallet's tables and in what is committed, however it ends.
use gift_hub.Prelude.{
  ℕ, ◌≡◌, refl, sym, ap, subst, ◌∙◌, Bool, All, update_rows, Bool-cases, inl, inr,
}
use gift_hub.Prelude.Every.{All-update}
use gift_hub.Prelude.Int.{ℤ}
use gift_hub.Models.{Db}
use gift_hub.Orders.{Env}
use gift_hub.Session.{Session, flush}
use gift_hub.Session.Keeps.{Keeps}
use gift_hub.Wallet.{has_user_id}
use gift_hub.Wallet.Outcomes.{Outcome, credit-Outcome, debit-Outcome}
use gift_hub.Wallet.Ledger.{IsSound, IsAccounted, IsBooked, IsDistinct}
use gift_hub.Wallet.Moves.{IsSoundSession, credit-IsSound, debit-IsSound}
use gift_hub.Checkout.{Checkout}
use gift_hub.Checkout.Placing.{create_order}
use gift_hub.Checkout.Stable.{IsStable}
use gift_hub.Checkout.Through.{create_order-Keeps}

Outcome-saved : (s s' : Session) → Outcome s s' → s'.saved ≡ s.saved
Outcome-saved s s' (inl e) = ap (λ (t : Session). t.saved) e
Outcome-saved s s' (inr (inl e)) = ap (λ (t : Session). t.saved) e
Outcome-saved s s' (inr (inr (t, m, e))) = ap (λ (t : Session). t.saved) e

flush-saved : (valid : Db → Bool) (s : Session) → (flush valid s).1.saved ≡ s.saved
flush-saved valid s = elim (Bool-cases (valid s.db)) [ inl y ↦ rw y refl | inr n ↦ rw n refl ]

pub saved-IsStable : (d : Db) → IsStable (λ s. s.saved ≡ d)
saved-IsStable d = record {
  credits = λ i a e s h. Outcome-saved s _ (credit-Outcome i a e s) ∙ h;
  debits = λ i a e s h. Outcome-saved s _ (debit-Outcome i a e s) ∙ h;
  flushes = λ valid s h. flush-saved valid s ∙ h;
  caches = λ c s h. h;
  tables = λ s t u w h. h;
  earnings = λ i x s h. h;
}

module _ (opening : ℕ → ℤ) where
  same-IsSound :
      (d d' : Db)
      → d'.users ≡ d.users
      → d'.wallet_transactions ≡ d.wallet_transactions
      → IsSound opening d
      → IsSound opening d'
  same-IsSound d d' u w h = record {
    accounts =
        subst (λ us. All (IsAccounted opening d'.wallet_transactions) us) (sym u)
          (subst (λ ts. All (IsAccounted opening ts) d.users) (sym w) h.accounts);
    rows = subst (All IsBooked) (sym w) h.rows;
    distinct = subst IsDistinct (sym w) h.distinct;
  }

  flush-IsSound : (valid : Db → Bool) → Keeps (IsSoundSession opening) (flush valid)
  flush-IsSound valid s h = elim (Bool-cases (valid s.db)) [
    | inl y ↦ rw y h
    | inr n ↦ rw n (record { now = h.committed; committed = h.committed })
  ]

  earned-IsSound :
      (i : ℕ) (x : ℤ) (d : Db)
      → IsSound opening d
      → IsSound opening (record d {
        users = update_rows (has_user_id i) (λ u. record u { referral_earnings = x }) d.users;
      })
  earned-IsSound i x d h = record {
    accounts =
        All-update (IsAccounted opening d.wallet_transactions)
          (IsAccounted opening d.wallet_transactions) (has_user_id i) _ d.users
          (λ u k e. record { nonneg = k.nonneg; balanced = k.balanced }) (λ u k e. k) h.accounts;
    rows = h.rows;
    distinct = h.distinct;
  }

  sound-IsStable : IsStable (IsSoundSession opening)
  sound-IsStable = record {
    credits = λ i a e s h. credit-IsSound opening i a e s h;
    debits = λ i a e s h. debit-IsSound opening i a e s h;
    flushes = flush-IsSound;
    caches = λ c s h. record { now = h.now; committed = h.committed };
    tables = λ s d u w h. record { now = same-IsSound s.db d u w h.now; committed = h.committed };
    earnings = λ i x s h. record { now = earned-IsSound i x s.db h.now; committed = h.committed };
  }

  -- A checkout, however it ends, keeps the wallet sound, now and as committed: every balance is the
  -- opening balance with the movements of the ledger and not negative, every row of the ledger is
  -- what its balance moved by, and no two rows have the same reference.
  pub checkout_sound :
      (env : Env) (c : Checkout) (s : Session)
      → IsSoundSession opening s
      → IsSoundSession opening (create_order env c s).1
  checkout_sound env c s h =
      create_order-Keeps (IsSoundSession opening) sound-IsStable
        (λ s k. record { now = k.now; committed = k.now })
        (λ s k. record { now = k.committed; committed = k.committed }) env c s h
