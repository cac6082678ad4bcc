-- ===== src/Orders/Refunds.antt =====
-- The steps of a refund, in `transition_order_status`.
use gift_hub.Prelude.{
  ℕ, String, ◌≡◌, refl, sym, ap, ◌∙◌, true, false, Option, none, some, Bool-cases, inl, inr,
}
use gift_hub.Models.{Db, User, WalletTransaction}
use gift_hub.Models.Orders.{Order}
use gift_hub.Session.{Session, Result, ok, err, domain_error, continue}
use gift_hub.Outbox.{create_event}
use gift_hub.Wallet.{credit_balance}
use gift_hub.Wallet.Success.{IsCredited, credit-IsCredited}
use gift_hub.Orders.{
  Env, refund, pay_back, truthy, refund_audit, refund_event, refund_entry, reason_given, was_paid,
}

module _ (env : Env) (cur : String) (admin : Option ℕ) (reason : Option String) (o : Order)
    (s : Session) where
  -- The session after the event and the audit of a refund.
  unfoldable pub emitted : Session → Session
  emitted t = record t {
    db = refund_audit (truthy admin) o reason (record t.db {
      outbox_events = create_event env.now (refund_event env o reason) t.db.outbox_events;
    });
  }

  pay_back_paid :
      was_paid cur ≡ true
      → let r = credit_balance o.user_id o.total_price (refund_entry o) s in
        pay_back env cur admin reason o s ≡ continue r.0 (λ _ t. (ok tt, emitted t)) r.1
  unfolding pay_back emitted
  pay_back_paid h = rw h

  pub refund_unexplained :
      reason_given reason ≡ false
      → refund env cur admin reason o s ≡ (err (domain_error "ERROR"), s)
  unfolding refund
  refund_unexplained h = rw h

  refund_explained :
      reason_given reason ≡ true
      → refund env cur admin reason o s ≡ pay_back env cur admin reason o s
  unfolding refund
  refund_explained h = rw h

  audit-keeps :
      (a : Option ℕ) (d : Db)
      → ((refund_audit a o reason d).orders ≡ d.orders)
        × ((refund_audit a o reason d).order_status_history ≡ d.order_status_history)
        × ((refund_audit a o reason d).users ≡ d.users)
  audit-keeps none d = (refl, refl, refl)
  audit-keeps (some i) d = (refl, refl, refl)

  pub emitted-keeps :
      (t : Session)
      → ((emitted t).db.orders ≡ t.db.orders)
        × ((emitted t).db.order_status_history ≡ t.db.order_status_history)
        × ((emitted t).db.users ≡ t.db.users)
  unfolding emitted
  emitted-keeps t = audit-keeps (truthy admin) _

  emitted-ok :
      (r : Result (User × WalletTransaction)) (t s' : Session)
      → continue {B = Unit {0}} r (λ _ t. (ok tt, emitted t)) t ≡ (ok tt, s')
      → (x : User × WalletTransaction) × (r ≡ ok x) × (s' ≡ emitted t)
  emitted-ok (ok x) t s' h = (x, refl, ap (λ z. z.1) (sym h))
  emitted-ok (err e) t s' h = cc

  -- What a refund that went through has left alone, and whom it has paid.
  pub record IsRefunded (s' : Session) : Type 0 where
    pub paid_session : Session
    pub credited : IsCredited o.user_id o.total_price (refund_entry o) s paid_session
    pub after : s' ≡ emitted paid_session

  pub pay_back-IsRefunded :
      (s' : Session)
      → was_paid cur ≡ true
      → pay_back env cur admin reason o s ≡ (ok tt, s')
      → IsRefunded s'
  pay_back-IsRefunded s' paid k =
      let r : Result (User × WalletTransaction) × Session =
        credit_balance o.user_id o.total_price (refund_entry o) s in
      let d = emitted-ok r.0 r.1 s' (sym (pay_back_paid paid) ∙ k) in
      record {
        paid_session = r.1;
        credited =
            credit-IsCredited o.user_id o.total_price (refund_entry o) s r.1 d.0
              (ap (λ z. (z, r.1)) d.1);
        after = d.2;
      }

  pub refund-pay_back :
      (s' : Session)
      → refund env cur admin reason o s ≡ (ok tt, s')
      → pay_back env cur admin reason o s ≡ (ok tt, s')
  refund-pay_back s' k = elim (Bool-cases (reason_given reason)) [
    | inl y ↦ sym (refund_explained y) ∙ k
    | inr n ↦ cc (refund_unexplained n)
  ]

  pay_back_unpaid : was_paid cur ≡ false → pay_back env cur admin reason o s ≡ (ok tt, s)
  unfolding pay_back
  pay_back_unpaid h = rw h

  IsRefunded-keeps :
      (s' : Session)
      → IsRefunded s'
      → (s'.db.orders ≡ s.db.orders) × (s'.db.order_status_history ≡ s.db.order_status_history)
  IsRefunded-keeps s' r =
      let k = emitted-keeps r.paid_session in
      (
        ap (λ (t : Session). t.db.orders) r.after
            ∙ k.0
            ∙ ap (λ (t : Session). t.db.orders) r.credited.after,
        ap (λ (t : Session). t.db.order_status_history) r.after
            ∙ k.1
            ∙ ap (λ (t : Session). t.db.order_status_history) r.credited.after,
      )

  pub refund-keeps :
      (s' : Session)
      → refund env cur admin reason o s ≡ (ok tt, s')
      → (s'.db.orders ≡ s.db.orders) × (s'.db.order_status_history ≡ s.db.order_status_history)
  refund-keeps s' k = elim (Bool-cases (was_paid cur)) [
    | inl y ↦ IsRefunded-keeps s' (pay_back-IsRefunded s' y (refund-pay_back s' k))
    | inr n ↦
        let e : s' ≡ s = ap (λ z. z.1) (sym (refund-pay_back s' k) ∙ pay_back_unpaid n) in
        (ap (λ (t : Session). t.db.orders) e, ap (λ (t : Session). t.db.order_status_history) e)
  ]
