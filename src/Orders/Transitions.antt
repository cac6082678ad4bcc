-- ===== src/Orders/Transitions.antt =====
-- What `transition_order_status` does to an order and to its timeline.
use gift_hub.Prelude.{
  ℕ, String, ◌≡◌, refl, sym, ap, ◌∙◌, ◌⊎◌, true, false, ◌&&◌, some, [], ◌∷◌, ◌++◌, arith, str_eq,
  eq_iff, find, Bool-cases, inl, inr, if◌then◌else◌,
}
use gift_hub.Models.Orders.{
  OrderStatus, Order, refunded, value, normalize_status, validate_order_transition,
}
use gift_hub.Session.{Session, Exec, Result, ok, err, Error, invalid_order_state, continue, pure}
use gift_hub.Orders.{
  Env, Change, has_order_id, stamp, set_order, change_status, refund, timeline_row,
  transition_order_status, with_payload,
}
use gift_hub.Orders.Machine.{is_terminal, normalize_idem, terminal-allowed}

pub stamp-id : (now : ℕ) (t : String) (o : Order) → (stamp now t o).id ≡ o.id
unfolding stamp
stamp-id now t o = ground arith

pub stamp-status : (now : ℕ) (t : String) (o : Order) → (stamp now t o).status ≡ t
unfolding stamp
stamp-status now t o = ground arith

-- A change from a terminal status is refused; both texts are normal already.
terminal-refuses :
    (s t : String) (a : OrderStatus)
    → normalize_status s ≡ value a
    → is_terminal a ≡ true
    → str_eq (normalize_status s) (normalize_status t) ≡ false
    → validate_order_transition (normalize_status s) (normalize_status t) ≡ err invalid_order_state
unfolding validate_order_transition
terminal-refuses s t a e term ne =
    rw (normalize_idem s) (rw (normalize_idem t) (rw ne (rw e (rw (terminal-allowed a term)))))

Result-cases : (r : Result (Unit {0})) → (r ≡ ok tt) ⊎ ((e : Error) × (r ≡ err e))
Result-cases (ok _) = inl refl
Result-cases (err e) = inr (e, refl)

continue-ok :
    (r : Result (Unit {0})) (t : Session) (a : Order) (g : Session → Session) (x : Order)
    (s' : Session)
    → continue r (λ _ t. (ok a, g t)) t ≡ (ok x, s')
    → (r ≡ ok tt) × (x ≡ a) × (s' ≡ g t)
continue-ok (ok _) t a g x s' h = (refl, cc, ap (λ z. z.1) (sym h))
continue-ok (err e) t a g x s' h = cc

module _ (env : Env) (i : ℕ) (raw : String) (c : Change) (s : Session) {o : Order}
    (found : find (has_order_id i) s.db.orders ≡ some o) where
  pub transition_found : transition_order_status env i raw c s ≡ (
      if str_eq (normalize_status raw) (value refunded)
        && str_eq (normalize_status o.status) (value refunded)
      then (err invalid_order_state, s)
      else if str_eq (normalize_status o.status) (normalize_status raw)
      then (ok o, s)
      else change_status env (normalize_status o.status) (normalize_status raw) c o s)
  unfolding transition_order_status
  transition_found =
      let again =
        str_eq (normalize_status raw) (value refunded)
        && str_eq (normalize_status o.status) (value refunded) in
      let same = str_eq (normalize_status o.status) (normalize_status raw) in
      rw found (elim (Bool-cases again) [
        | inl y ↦ rw y
        | inr n ↦ rw n (elim (Bool-cases same) [ inl y ↦ rw y | inr m ↦ rw m ])
      ])

  change-refused :
      (cur tgt : String) {e : Error}
      → validate_order_transition cur tgt ≡ err e
      → change_status env cur tgt c o s ≡ (err e, s)
  unfolding change_status
  change-refused cur tgt h = rw h

  -- An order whose status is `cancelled`, `refunded` or `expired`, under any of its spellings: a
  -- change to a status of another normal form, and any further change of a refunded order to
  -- `refunded`, raises an invalid state error and writes nothing.
  pub terminal_rejects :
      (a : OrderStatus)
      → normalize_status o.status ≡ value a
      → is_terminal a ≡ true
      → (str_eq (normalize_status o.status) (normalize_status raw) ≡ false)
        ⊎ (normalize_status raw ≡ value refunded)
      → transition_order_status env i raw c s ≡ (err invalid_order_state, s)
  terminal_rejects a st term differs =
      elim (Bool-cases (
        str_eq (normalize_status raw) (value refunded)
        && str_eq (normalize_status o.status) (value refunded))) [
          | inl again ↦ transition_found ∙ rw again refl
          | inr new ↦
              let ne : str_eq (normalize_status o.status) (normalize_status raw) ≡ false =
                not_same differs new in
              transition_found
              ∙ rw new (
                  rw ne (
                    change-refused (normalize_status o.status) (normalize_status raw)
                      (terminal-refuses o.status raw a st term ne)))
        ]
    where
      not_same :
          (str_eq (normalize_status o.status) (normalize_status raw) ≡ false)
            ⊎ (normalize_status raw ≡ value refunded)
          → (str_eq (normalize_status raw) (value refunded)
              && str_eq (normalize_status o.status) (value refunded))
            ≡ false
          → str_eq (normalize_status o.status) (normalize_status raw) ≡ false
      not_same (inl n) new = n
      not_same (inr r) new = ground (
        arith,
        eq_iff (normalize_status o.status) (normalize_status raw),
        eq_iff (normalize_status raw) "refunded",
        eq_iff (normalize_status o.status) "refunded",
      )

  -- The session after the rest of a change, from the session that the refund has left.
  unfoldable pub finished : String → String → Order → Session → Session
  finished cur tgt o' t =
      let d = record (set_order o' t.db) {
        order_status_history =
            t.db.order_status_history
            ++ timeline_row env.now cur tgt c.actor c.admin_id c.reason o' ∷ [];
      } in
      record t { db = d; saved = d }

  -- The session in which the order has its new status.
  unfoldable pub marked : String → Session
  marked tgt = record s { db = set_order (stamp env.now tgt o) s.db }

  -- What is left between the two.
  unfoldable pub refund_part : String → String → Exec (Unit {0})
  refund_part cur tgt =
      if str_eq tgt (value refunded)
      then refund env cur c.admin_id c.reason (stamp env.now tgt o)
      else pure tt

  -- The steps of a change that was made.
  pub record IsChanged (cur tgt : String) (x : Order) (s' : Session) : Type 0 where
    pub valid : validate_order_transition cur tgt ≡ ok tt
    pub returned : x ≡ with_payload c.payload (stamp env.now tgt o)
    pub between : Session
    pub refunded_ok : refund_part cur tgt (marked tgt) ≡ (ok tt, between)
    pub after : s' ≡ finished cur tgt (with_payload c.payload (stamp env.now tgt o)) between

  pub change-accepted :
      (cur tgt : String)
      → validate_order_transition cur tgt ≡ ok tt
      → let o' = with_payload c.payload (stamp env.now tgt o) in
        let r = refund_part cur tgt (marked tgt) in
        change_status env cur tgt c o s ≡ continue r.0 (λ _ t. (ok o', finished cur tgt o' t)) r.1
  unfolding change_status finished marked refund_part
  change-accepted cur tgt h = rw h

  valid-IsChanged :
      (cur tgt : String) (x : Order) (s' : Session)
      → validate_order_transition cur tgt ≡ ok tt
      → change_status env cur tgt c o s ≡ (ok x, s')
      → IsChanged cur tgt x s'
  valid-IsChanged cur tgt x s' valid k =
      let o' : Order = with_payload c.payload (stamp env.now tgt o) in
      let r : Result (Unit {0}) × Session = refund_part cur tgt (marked tgt) in
      let e = sym (change-accepted cur tgt valid) ∙ k in
      record {
        valid = valid;
        returned = (continue-ok r.0 r.1 o' (finished cur tgt o') x s' e).1;
        between = r.1;
        refunded_ok = ap (λ z. (z, r.1)) (continue-ok r.0 r.1 o' (finished cur tgt o') x s' e).0;
        after = (continue-ok r.0 r.1 o' (finished cur tgt o') x s' e).2;
      }

  refused-IsChanged :
      (cur tgt : String) (x : Order) (s' : Session) (e : Error)
      → validate_order_transition cur tgt ≡ err e
      → change_status env cur tgt c o s ≡ (ok x, s')
      → IsChanged cur tgt x s'
  refused-IsChanged cur tgt x s' e refused k = cc (change-refused cur tgt refused)

  pub change-IsChanged :
      (cur tgt : String) (x : Order) (s' : Session)
      → change_status env cur tgt c o s ≡ (ok x, s')
      → IsChanged cur tgt x s'
  change-IsChanged cur tgt x s' k = elim (Result-cases (validate_order_transition cur tgt)) [
    | inl valid ↦ valid-IsChanged cur tgt x s' valid k
    | inr (e, refused) ↦ refused-IsChanged cur tgt x s' e refused k
  ]
