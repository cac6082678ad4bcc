-- ===== src/Orders/Unexplained.antt =====
-- Refunds in `transition_order_status` that give no reason.
use gift_hub.Prelude.{
  ℕ, String, ◌≡◌, refl, ap, ◌∙◌, true, false, some, arith, str_eq, eq_iff, find, find-test,
  Bool-cases, inl, inr,
}
use gift_hub.Models.Orders.{
  Order, paid, processing, completed, failed, refunded, value, validate_order_transition,
  normalize_status,
}
use gift_hub.Session.{Session, Result, ok, err, domain_error, continue}
use gift_hub.Orders.{
  Env, Change, has_order_id, stamp, was_paid, reason_given, with_payload, transition_order_status,
}
use gift_hub.Orders.Machine.{validate-accepts}
use gift_hub.Orders.Transitions.{
  transition_found, stamp-id, stamp-status, change-accepted, finished, marked, refund_part,
}
use gift_hub.Orders.Timeline.{has_id-eq, find-set_order}
use gift_hub.Orders.Refunds.{refund_unexplained}

paid-refundable :
    (t : String)
    → was_paid t ≡ true
    → (validate_order_transition t (value refunded) ≡ ok tt) × (str_eq t (value refunded) ≡ false)
paid-refundable t h = elim (Bool-cases (str_eq t (value paid))) [
  | inl y ↦ rw ((eq_iff t (value paid)).0 y) (validate-accepts paid refunded, refl)
  | inr n1 ↦ elim (Bool-cases (str_eq t (value processing))) [
    | inl y ↦ rw ((eq_iff t (value processing)).0 y) (validate-accepts processing refunded, refl)
    | inr n2 ↦ elim (Bool-cases (str_eq t (value completed))) [
      | inl y ↦ rw ((eq_iff t (value completed)).0 y) (validate-accepts completed refunded, refl)
      | inr n3 ↦
          let y : str_eq t (value failed) ≡ true = ground arith in
          rw ((eq_iff t (value failed)).0 y) (validate-accepts failed refunded, refl)
    ]
  ]
]

module _ (env : Env) (i : ℕ) (raw : String) (c : Change) (s : Session) {o : Order}
    (found : find (has_order_id i) s.db.orders ≡ some o) where
  unexplained :
      normalize_status raw ≡ value refunded
      → was_paid (normalize_status o.status) ≡ true
      → reason_given c.reason ≡ false
      → transition_order_status env i raw c s
        ≡ (err (domain_error "ERROR"), marked env i raw c s found (value refunded))
  unexplained e was bad =
      let from = normalize_status o.status in
      let p = paid-refundable from was in
      let m = marked env i raw c s found (value refunded) in
      let ru : refund_part env i raw c s found from (value refunded) m
          ≡ (err (domain_error "ERROR"), m) =
        unfold refund_part in
        refund_unexplained env from c.admin_id c.reason (stamp env.now (value refunded) o) m bad in
      transition_found env i raw c s found
      ∙ rw e (
          rw p.1 (
            change-accepted env i raw c s found from (value refunded) p.0
            ∙ ap
                (λ (r : Result (Unit {0}) × Session).
                  continue r.0
                    (λ _ t. (
                      ok (with_payload c.payload (stamp env.now (value refunded) o)),
                      finished env i raw c s found from (value refunded)
                          (with_payload c.payload (stamp env.now (value refunded) o)) t,
                    ))
                    r.1)
                ru))

-- A refund of a paid-for order with no reason of at least five characters raises and pays nothing
-- back: what is committed, the users and the ledger stay as they were. In the open session a query
-- for the order finds it with the status `refunded`.
pub refund_unexplained_pays_nothing :
    (env : Env) (i : ℕ) (raw : String) (c : Change) (s : Session) {o : Order}
    → find (has_order_id i) s.db.orders ≡ some o
    → normalize_status raw ≡ value refunded
    → was_paid (normalize_status o.status) ≡ true
    → reason_given c.reason ≡ false
    → let (r, s') = transition_order_status env i raw c s in
      (r ≡ err (domain_error "ERROR"))
      × (s'.saved ≡ s.saved)
      × (s'.db.users ≡ s.db.users)
      × (s'.db.wallet_transactions ≡ s.db.wallet_transactions)
      × (x : Order) × (find (has_order_id i) s'.db.orders ≡ some x)
      × (x.status ≡ value refunded)
refund_unexplained_pays_nothing env i raw c s {o} found e was bad =
    let from = normalize_status o.status in
    let m : Session = marked env i raw c s found (value refunded) in
    let k = unexplained env i raw c s found e was bad in
    (
      ap (λ (z : Result Order × Session). z.0) k,
      ap (λ (z : Result Order × Session). z.1.saved) k ∙ unfold marked in refl,
      ap (λ (z : Result Order × Session). z.1.db.users) k ∙ unfold marked in refl,
      ap (λ (z : Result Order × Session). z.1.db.wallet_transactions) k ∙ unfold marked in refl,
      stamp env.now (value refunded) o,
      ap (λ (z : Result Order × Session). find (has_order_id i) z.1.db.orders) k
          ∙ unfold marked in
            find-set_order i o (stamp env.now (value refunded) o) s.db found (
              stamp-id env.now (value refunded) o
              ∙ has_id-eq i o (find-test (has_order_id i) s.db.orders found)),
      stamp-status env.now (value refunded) o,
    )
