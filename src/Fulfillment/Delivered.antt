-- ===== src/Fulfillment/Delivered.antt =====
-- A delivery that went through, and the calls after it.
use mathlib.Core.Option
use gift_hub.Prelude.{
  ℕ, String, ◌≡◌, refl, ap, subst, leb, ◌∙◌, true, false, some, str_eq, List, find, update_rows,
  find-update, found-update, find-test, Option-cases, inl, inr, arith, if◌then◌else◌, not, ◌&&◌,
}
use gift_hub.Models.Orders.{
  Order, value, completed, refunded, validate_order_transition, normalize_status,
}
use gift_hub.Prelude.Texts.{lower}
use gift_hub.Orders.{Env, Change, has_order_id, set_order, change_status, stamp}
use gift_hub.Session.{Session, pure, Exec, Result, Error, ok, err, continue, modify, commit}
use gift_hub.Session.Returns.{
  Returns, continue-Returns, if-Returns, lift-Returns, unless-Returns, after-Returns,
}
use gift_hub.Circuit.{can_execute}
use gift_hub.Notifications.{create_notification}
use gift_hub.Fulfillment.{
  by_system, Answer, already_fulfilled, circuit_open, manual_review, not_delivered, fulfilled,
  Client, Call, Delivery, provider, max_fulfillment_retries, catching, begin, ask_circuit,
  is_delivered, is_last, schedule, give_up, transition_loaded, delivered, conclude, refused,
  interrupted, attempt, guarded, exhausted, fulfill_order_automated, record_outcome,
}

complete_not_refund : str_eq (normalize_status (value completed)) "refunded" ≡ false
unfolding normalize_status lower
complete_not_refund = refl

-- A row of the order is there.
abbrev pub IsListed : ℕ → List Order → Type 0
IsListed i rows = (r : Order) × (find (has_order_id i) rows ≡ some r)

abbrev Listed : {A : Type 0} → ℕ → A → Session → Type 0
Listed i a s = IsListed i s.db.orders

pub found-same :
    (i : ℕ) (rows : List Order) (r : Order) → find (has_order_id i) rows ≡ some r → r.id ≡ i
found-same i rows r h = let t = find-test (has_order_id i) rows h in ground arith

same_test : (i : ℕ) (o x : Order) → has_order_id o.id x ≡ true → has_order_id i o ≡ has_order_id i x
same_test i o x h = ground arith

set-IsListed :
    (i : ℕ) (o : Order) (rows : List Order)
    → IsListed i rows
    → IsListed i (update_rows (has_order_id o.id) (λ _. o) rows)
set-IsListed i o rows h =
    found-update (has_order_id i) (has_order_id o.id) (λ _. o) rows (same_test i o) h.1

pub change-Listed :
    (env : Env) (current target : String) (ch : Change) (i : ℕ) (r : Order) (s : Session)
    → str_eq target "refunded" ≡ false
    → IsListed i s.db.orders
    → Returns (Listed i) (change_status env current target ch r s)
unfolding change_status
change-Listed env current target ch i r s n h =
    lift-Returns (Listed i) (validate_order_transition current target) _ s λ b.
      unless-Returns (Listed i) (str_eq target (value refunded)) _ _ _ _ n
        (set-IsListed i _ _ (set-IsListed i (stamp env.now target r) s.db.orders h))

pub transition-Listed :
    (env : Env) (o : Order) (target reason : String) (s : Session)
    → str_eq (normalize_status target) "refunded" ≡ false
    → Returns (Listed o.id) (transition_loaded env o target reason s)
unfolding transition_loaded
transition-Listed env o target reason s n =
    elim (Option-cases (find (has_order_id o.id) s.db.orders)) [
      | inl e ↦ rw e tt
      | inr (row, e) ↦
          let same = str_eq (normalize_status o.status) (normalize_status target) in
          rw e (
            rw n (
              if-Returns (Listed o.id) same _ _ s (row, e)
                (change-Listed env (normalize_status o.status) (normalize_status target)
                  (by_system reason) o.id row s n (row, e))))
    ]

-- The row of a delivered order, with the hash of the transaction, and all of it committed.
pub record IsMarked (i : ℕ) (tx_hash : String) (s : Session) : Type 0 where
  pub row : Order
  pub found : find (has_order_id i) s.db.orders ≡ some row
  pub status : row.fulfillment_status ≡ "fulfilled"
  pub hash : row.fragment_tx_hash ≡ some tx_hash
  pub committed : s.saved ≡ s.db

-- What an answer says of the session.
abbrev pub AsAnswered : ℕ → Answer → Session → Type 0
AsAnswered i (fulfilled tx_hash) s = IsMarked i tx_hash s
AsAnswered i already_fulfilled s = Unit
AsAnswered i circuit_open s = Unit
AsAnswered i manual_review s = Unit
AsAnswered i (not_delivered e) s = Unit

delivered-AsAnswered :
    (c : Call) (o : Order) (tx_hash : String) (s : Session)
    → Returns (AsAnswered o.id) (delivered c o tx_hash s)
unfolding delivered record_outcome create_notification
delivered-AsAnswered c o tx_hash s =
    continue-Returns (AsAnswered o.id) (Listed o.id)
      (transition_loaded c.env o (value completed) _ _) _
      (transition-Listed c.env o (value completed) _ _ complete_not_refund)
      (λ b s' l. record {
        row = _;
        found = find-update (has_order_id o.id) _ s'.db.orders (λ x. refl) ∙ ap (Option.map _) l.1;
        status = refl;
        hash = refl;
        committed = refl;
      })

refused-AsAnswered :
    (i : ℕ) (c : Call) (o : Order) (error : String) (s : Session)
    → Returns (AsAnswered i) (refused c o error s)
unfolding refused record_outcome
refused-AsAnswered i c o error s =
    after-Returns (AsAnswered i)
      ((if is_last o then give_up c o "Maksimal urinishlar soni tugadi: " error else schedule o) _)
      _ (λ b t. tt)

interrupted-AsAnswered :
    (i : ℕ) (c : Call) (o : Order) (e : Error) (s : Session)
    → Returns (AsAnswered i) (interrupted c o e s)
unfolding interrupted record_outcome
interrupted-AsAnswered i c o e s =
    after-Returns (AsAnswered i)
      ((if is_last o then give_up c o "Yetkazib berish istisnosi: " (c.describe e) else pure tt) _)
      _ (λ b t. tt)

conclude-AsAnswered :
    (c : Call) (o : Order) (r : Delivery) (s : Session)
    → Returns (AsAnswered o.id) (conclude c o r s)
unfolding conclude
conclude-AsAnswered c o r s =
    if-Returns (AsAnswered o.id) (r.success && r.fulfilled) _ _ s (delivered-AsAnswered c o _ s)
      (refused-AsAnswered o.id c o _ s)

catching-Returns :
    {A : Type 0} (Q : A → Session → Type 0) (r : Result A × Session) (h : Error → Exec A)
    → Returns Q r
    → ((e : Error) (t : Session) → Returns Q (h e t))
    → Returns Q (catching r.0 h r.1)
catching-Returns Q (ok a, s) h k l = k
catching-Returns Q (err e, s) h k l = l e s

attempt-AsAnswered :
    (client : Client) (c : Call) (o : Order) (s : Session)
    → Returns (AsAnswered o.id) (attempt client c o s)
unfolding attempt begin
attempt-AsAnswered client c o s =
    let order = begin c.env.now o in
    let called = client order.id (commit (modify (set_order order) s).1).1 in
    catching-Returns (AsAnswered o.id) (continue called.0 (conclude c order) called.1) _
      (after-Returns (AsAnswered o.id) called (conclude c order) (conclude-AsAnswered c order))
      (interrupted-AsAnswered o.id c order)

guarded-AsAnswered :
    (client : Client) (c : Call) (o : Order) (s : Session)
    → Returns (AsAnswered o.id) (guarded client c o s)
unfolding guarded ask_circuit exhausted
guarded-AsAnswered client c o s =
    let allowed = (can_execute provider c.env.clock s.breaker).0 in
    if-Returns (AsAnswered o.id) (not allowed) _ _ _ tt (
      if-Returns (AsAnswered o.id) (leb max_fulfillment_retries o.fulfillment_attempts) _ _ _ tt
        (attempt-AsAnswered client c o _))

pub fulfill-AsAnswered :
    (client : Client) (c : Call) (i : ℕ) (s : Session)
    → Returns (AsAnswered i) (fulfill_order_automated client c i s)
unfolding fulfill_order_automated
fulfill-AsAnswered client c i s = elim (Option-cases (find (has_order_id i) s.db.orders)) [
  | inl e ↦ rw e tt
  | inr (o, e) ↦
      let same : o.id ≡ i = found-same i s.db.orders o e in
      rw e (
        if-Returns (AsAnswered i) (is_delivered o) _ _ s tt (
          subst (λ k. Returns (AsAnswered k) (guarded client c o s)) same
            (guarded-AsAnswered client c o s)))
]

-- A call that delivers the order leaves it marked as fulfilled with the hash of its transaction,
-- and commits; on every session in which a query for the order finds the row as it was left, a
-- further call of the service, with whatever client, answers that the order is fulfilled already
-- and changes nothing of the session.
pub delivered_once :
    (client client' : Client) (c c' : Call) (i : ℕ) (s s' t : Session) (tx_hash : String)
    → fulfill_order_automated client c i s ≡ (ok (fulfilled tx_hash), s')
    → find (has_order_id i) t.db.orders ≡ find (has_order_id i) s'.db.orders
    → IsMarked i tx_hash s' × (fulfill_order_automated client' c' i t ≡ (ok already_fulfilled, t))
unfolding fulfill_order_automated is_delivered
delivered_once client client' c c' i s s' t tx_hash h same =
    let d : IsMarked i tx_hash s' =
      subst (Returns (AsAnswered i)) h (fulfill-AsAnswered client c i s) in
    (d, rw same (rw d.found (rw d.status)))
