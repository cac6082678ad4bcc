-- ===== src/Orders/Timeline.antt =====
-- Changes of an order's status that succeed, refunds among them.
use mathlib.Core.List.{Memᴰ}
use gift_hub.Prelude.{
  ℕ, String, ◌≡◌, refl, sym, ap, ◌∙◌, true, false, ◌&&◌, Option, some, [], ◌∷◌, ◌++◌, arith, str_eq,
  eq_iff, find, find-replace, find-test, update_rows, Bool-cases, inl, inr,
}
use gift_hub.Prelude.Int.{◌+ℤ◌}
use gift_hub.Models.{Db, User}
use gift_hub.Models.Orders.{
  OrderStatus, Order, refunded, value, valid_order_transitions, normalize_status,
}
use gift_hub.Session.{Session, ok, err, invalid_order_state}
use gift_hub.Wallet.{has_user_id}
use gift_hub.Wallet.Success.{IsCredited-balance}
use gift_hub.Orders.{
  Env, Change, has_order_id, stamp, set_order, change_status, timeline_row, refund_entry, was_paid,
  with_payload, transition_order_status,
}
use gift_hub.Orders.Machine.{validate-listed, normalize_idem, normalize-value}
use gift_hub.Orders.Transitions.{
  transition_found, terminal_rejects, IsChanged, change-IsChanged, finished, marked, refund_part,
  stamp-id, stamp-status,
}
use gift_hub.Orders.Refunds.{
  refund-keeps, pay_back-IsRefunded, refund-pay_back, emitted-keeps, IsRefunded,
}

with_payload-id : (p : Option String) (o : Order) → (with_payload p o).id ≡ o.id
with_payload-id p o = ground arith

with_payload-status : (p : Option String) (o : Order) → (with_payload p o).status ≡ o.status
with_payload-status p o = ground arith

pub has_id-eq : (i : ℕ) (o : Order) → has_order_id i o ≡ true → o.id ≡ i
has_id-eq i o h = ground arith

has_id-of_eq : (i : ℕ) (o : Order) → o.id ≡ i → has_order_id i o ≡ true
has_id-of_eq i o h = ground arith

pub find-set_order :
    (i : ℕ) (o x : Order) (d : Db)
    → find (has_order_id i) d.orders ≡ some o
    → x.id ≡ i
    → find (has_order_id i) (set_order x d).orders ≡ some x
find-set_order i o x d h e =
    ap (λ j. find (has_order_id i) (update_rows (has_order_id j) (λ _. x) d.orders)) e
    ∙ find-replace (has_order_id i) x d.orders h (has_id-of_eq i x e)

stamp-buyer : (now : ℕ) (t : String) (o : Order) → (stamp now t o).user_id ≡ o.user_id
unfolding stamp
stamp-buyer now t o = ground arith

stamp-total : (now : ℕ) (t : String) (o : Order) → (stamp now t o).total_price ≡ o.total_price
unfolding stamp
stamp-total now t o = ground arith

module _ (env : Env) (i : ℕ) (raw : String) (c : Change) (s : Session) {o : Order}
    (found : find (has_order_id i) s.db.orders ≡ some o) (x : Order) (s' : Session)
    (differs : str_eq (normalize_status o.status) (normalize_status raw) ≡ false)
    (done : transition_order_status env i raw c s ≡ (ok x, s')) where
  abbrev from : String
  from = normalize_status o.status

  abbrev to : String
  to = normalize_status raw

  succeeded : change_status env from to c o s ≡ (ok x, s')
  succeeded = elim (Bool-cases (str_eq to (value refunded) && str_eq from (value refunded))) [
    | inl y ↦ cc (rw y at (transition_found env i raw c s found))
    | inr n ↦ sym (rw differs at (rw n at (transition_found env i raw c s found))) ∙ done
  ]

  changed : IsChanged env i raw c s found from to x s'
  changed = change-IsChanged env i raw c s found from to x s' succeeded

  marked_order : Order
  marked_order = stamp env.now to o

  part-keeps :
      (t : Session)
      → refund_part env i raw c s found from to (marked env i raw c s found to) ≡ (ok tt, t)
      → (t.db.orders ≡ (marked env i raw c s found to).db.orders)
        × (t.db.order_status_history ≡ (marked env i raw c s found to).db.order_status_history)
  unfolding refund_part
  part-keeps t k = elim (Bool-cases (str_eq to (value refunded))) [
    | inl y ↦
        refund-keeps env from c.admin_id c.reason (stamp env.now to o)
          (marked env i raw c s found to) t (rw y at k)
    | inr n ↦
        let e : t ≡ marked env i raw c s found to = ap (λ z. z.1) (sym (rw n at k)) in
        (ap (λ (u : Session). u.db.orders) e, ap (λ (u : Session). u.db.order_status_history) e)
  ]

  x-id : x.id ≡ i
  x-id =
      ap (λ (y : Order). y.id) changed.returned
      ∙ with_payload-id c.payload (stamp env.now to o)
      ∙ stamp-id env.now to o
      ∙ has_id-eq i o (find-test (has_order_id i) s.db.orders found)

  x-status : x.status ≡ to
  x-status =
      ap (λ (y : Order). y.status) changed.returned
      ∙ with_payload-status c.payload (stamp env.now to o)
      ∙ stamp-status env.now to o

  x-found : find (has_order_id i) s'.db.orders ≡ some x
  x-found =
      let o' = with_payload c.payload (stamp env.now to o) in
      let t = changed.between in
      let first : find (has_order_id i) (marked env i raw c s found to).db.orders
          ≡ some (stamp env.now to o) =
        unfold marked in
        find-set_order i o (stamp env.now to o) s.db found
          (stamp-id env.now to o ∙ has_id-eq i o (find-test (has_order_id i) s.db.orders found)) in
      let before : find (has_order_id i) t.db.orders ≡ some (stamp env.now to o) =
        ap (find (has_order_id i)) (part-keeps t changed.refunded_ok).0 ∙ first in
      ap (λ (u : Session). find (has_order_id i) u.db.orders) changed.after
      ∙ unfold finished in
        find-set_order i (stamp env.now to o) o' t.db before
          (ap (λ (y : Order). y.id) (sym changed.returned) ∙ x-id)
        ∙ ap some (sym changed.returned)

  x-history :
      s'.db.order_status_history
      ≡ s.db.order_status_history ++ timeline_row env.now from to c.actor c.admin_id c.reason x ∷ []
  unfolding finished marked
  x-history =
      ap (λ (u : Session). u.db.order_status_history) changed.after
      ∙ ap
          (λ (y : Order).
            changed.between.db.order_status_history
            ++ timeline_row env.now from to c.actor c.admin_id c.reason y ∷ [])
          (sym changed.returned)
      ∙ ap (λ h. h ++ timeline_row env.now from to c.actor c.admin_id c.reason x ∷ [])
          (part-keeps changed.between changed.refunded_ok).1

  x-committed : s'.saved ≡ s'.db
  unfolding finished
  x-committed =
      ap (λ (u : Session). u.saved) changed.after ∙ ap (λ (u : Session). u.db) (sym changed.after)

  -- A change of status that succeeds, where the status changes: it leads from one member of the
  -- enumeration to another that the table of transitions lists for it, the order that is returned
  -- has the new status and is the one that a later call finds, the timeline has one row more, from
  -- the old status to the new one, and all of it is committed.
  pub transition_records :
      (a : OrderStatus) × (b : OrderStatus) × (from ≡ value a)
      × (x.status ≡ value b)
      × Memᴰ b (valid_order_transitions a)
      × (find (has_order_id i) s'.db.orders ≡ some x)
      × (s'.db.order_status_history
          ≡ s.db.order_status_history
            ++ timeline_row env.now from to c.actor c.admin_id c.reason x ∷ [])
      × (s'.saved ≡ s'.db)
  transition_records =
      let v = validate-listed from to changed.valid (
        ap (λ z. str_eq z (normalize_status to)) (normalize_idem o.status)
        ∙ ap (λ z. str_eq from z) (normalize_idem raw)
        ∙ differs) in
      (
        v.0,
        v.1,
        sym (normalize_idem o.status) ∙ v.2,
        x-status ∙ sym (normalize_idem raw) ∙ v.3,
        v.4,
        x-found,
        x-history,
        x-committed,
      )

  -- A refund that succeeds, of an order that was not refunded yet: on every session in which a query
  -- for the order finds the row as the refund left it, `transition_order_status` to whatever status
  -- raises an invalid state error and writes nothing.
  pub refund_once :
      (env' : Env) (raw' : String) (c' : Change) (t : Session)
      → to ≡ value refunded
      → find (has_order_id i) t.db.orders ≡ find (has_order_id i) s'.db.orders
      → transition_order_status env' i raw' c' t ≡ (err invalid_order_state, t)
  refund_once env' raw' c' t e same_row =
      let st : normalize_status x.status ≡ value refunded =
        ap normalize_status (x-status ∙ e) ∙ normalize-value refunded in
      terminal_rejects env' i raw' c' t (same_row ∙ x-found) refunded st refl
        (elim (Bool-cases (str_eq (normalize_status x.status) (normalize_status raw'))) [
          | inl same ↦
              inr (sym ((eq_iff (normalize_status x.status) (normalize_status raw')).0 same) ∙ st)
          | inr n ↦ inl n
        ])

  paid_back :
      to ≡ value refunded
      → was_paid from ≡ true
      → IsRefunded env from c.admin_id c.reason
          (stamp env.now to o)
          (marked env i raw c s found to)
          changed.between
  unfolding refund_part
  paid_back e was =
      let y : str_eq to (value refunded) ≡ true = (eq_iff to (value refunded)).1 e in
      pay_back-IsRefunded env from c.admin_id c.reason (stamp env.now to o)
        (marked env i raw c s found to) changed.between was
        (refund-pay_back env from c.admin_id c.reason (stamp env.now to o)
          (marked env i raw c s found to) changed.between (rw y at changed.refunded_ok))

  -- A refund that succeeds, of an order that had been paid for (`paid`, `processing`, `completed` or
  -- `failed`): the buyer's balance is raised by exactly the order's total price.
  pub refund_pays :
      to ≡ value refunded
      → was_paid from ≡ true
      → (u : User) × (find (has_user_id o.user_id) s.db.users ≡ some u)
        × (find (has_user_id o.user_id) s'.db.users
            ≡ some (record u { balance = u.balance +ℤ o.total_price }))
  unfolding marked finished
  refund_pays e was =
      let r = paid_back e was in
      let k =
        emitted-keeps env from c.admin_id c.reason (stamp env.now to o)
          (marked env i raw c s found to) r.paid_session in
      let buyer = stamp-buyer env.now to o in
      let price = stamp-total env.now to o in
      (
        r.credited.user,
        ap (λ j. find (has_user_id j) s.db.users) (sym buyer) ∙ r.credited.found,
        ap (λ (t : Session). find (has_user_id o.user_id) t.db.users) (changed.after)
            ∙ ap (λ (t : Session). find (has_user_id o.user_id) t.db.users) r.after
            ∙ ap (find (has_user_id o.user_id)) k.2
            ∙ ap (λ j. find (has_user_id j) r.paid_session.db.users) (sym buyer)
            ∙ IsCredited-balance (stamp env.now to o).user_id (stamp env.now to o).total_price
                (refund_entry (stamp env.now to o)) (marked env i raw c s found to) r.paid_session
                r.credited
            ∙ ap (λ z. some (record (r.credited.user) { balance = r.credited.user.balance +ℤ z }))
                price,
      )
