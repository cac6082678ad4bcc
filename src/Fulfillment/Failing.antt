-- ===== src/Fulfillment/Failing.antt =====
-- Attempts that fail: the count of attempts, the circuit and the dead letter.
use gift_hub.Prelude.{
  ℕ, suc, ◌<◌, String, ◌≡◌, sym, ap, subst, ◌∙◌, Bool, true, false, none, some, [], ◌∷◌, ◌++◌,
  str_eq, find, Bool-cases, inl, inr, arith, ◌||◌, ◌⊎◌, eq_iff,
}
use gift_hub.Prelude.Dict.{insert}
use gift_hub.Circuit.{
  closed, Circuit, Breaker, failure_threshold, get_or_init_state, can_execute, permit,
  record_failure, fail,
}
use gift_hub.Circuit.Permits.{get_or_init_state-insert}
use gift_hub.Circuit.Health.{sync_to_db}
use gift_hub.Fulfillment.{is_delivered, transition_loaded, provider, record_outcome}
use gift_hub.Models.Orders.{
  Order, value, paid, processing, failed, normalize_status, validate_order_transition, of_value,
}
use gift_hub.Prelude.Texts.{lower}
use gift_hub.Orders.{Env, has_order_id, set_order, stamp, timeline_row, change_status}
use gift_hub.Session.{Session, Result, ok}

-- The circuit lets calls through after the given number of failures in a row.
pub record IsPassing (failures : ℕ) (b : Breaker) : Type 0 where
  pub state : (get_or_init_state provider b).0.state ≡ closed
  pub count : (get_or_init_state provider b).0.consecutive_failures ≡ failures

IsPassing-insert :
    (n : ℕ) (c : Circuit) (b : Breaker)
    → c.state ≡ closed
    → c.consecutive_failures ≡ n
    → IsPassing n (insert provider c b)
IsPassing-insert n c b h k =
    let e = get_or_init_state-insert provider c b in record { state = rw e h; count = rw e k }

pub ask-IsPassing :
    (n now : ℕ) (b : Breaker)
    → IsPassing n b
    → ((can_execute provider now b).0 ≡ true) × IsPassing n (can_execute provider now b).1
unfolding can_execute permit
ask-IsPassing n now b h =
    let c = (get_or_init_state provider b).0 in
    let same : permit c.state now c ≡ (true, c) = ap (λ x. permit x now c) h.state in
    (
      ap (λ x. x.0) same,
      IsPassing-insert n (permit c.state now c).1 _ (ap (λ x. x.1.state) same ∙ h.state)
          (ap (λ x. x.1.consecutive_failures) same ∙ h.count),
    )

pub fail-IsPassing :
    (n : ℕ) (env : Env) (s : Session)
    → IsPassing n s.breaker
    → suc n < failure_threshold
    → IsPassing (suc n) (record_outcome false env s).1.breaker
unfolding record_outcome record_failure fail sync_to_db
fail-IsPassing n env s h l =
    let c = (get_or_init_state provider s.breaker).0 in
    let b = (get_or_init_state provider s.breaker).1 in
    let again = get_or_init_state-insert provider (fail env.clock c) b in
    subst (IsPassing (suc n)) (sym (ap (λ x. x.1) again)) (
      IsPassing-insert (suc n) (fail env.clock c) b (ground (arith, h.state, h.count))
        (ground (arith, h.count)))

-- Paid, and not at the end of its way.
abbrev pub awaits_delivery : String → Bool
awaits_delivery status = str_eq status (value paid) || str_eq status (value processing)

-- An order whose delivery has been attempted so often.
pub record IsPending (attempts : ℕ) (o : Order) : Type 0 where
  pub attempts_made : o.fulfillment_attempts ≡ attempts
  pub unfulfilled : str_eq o.fulfillment_status "fulfilled" ≡ false
  pub awaits : awaits_delivery o.status ≡ true

pub awaits-cases :
    (s : String) → awaits_delivery s ≡ true → (s ≡ value paid) ⊎ (s ≡ value processing)
awaits-cases s h = elim (Bool-cases (str_eq s (value paid))) [
  | inl p ↦ inl ((eq_iff s (value paid)).0 p)
  | inr n ↦ inr ((eq_iff s (value processing)).0 (rw n at h))
]

pub IsPending-undelivered : (n : ℕ) (o : Order) → IsPending n o → is_delivered o ≡ false
unfolding is_delivered
IsPending-undelivered n o h = elim (awaits-cases o.status h.awaits) [
  | inl e ↦ rw (h.unfulfilled) (rw e)
  | inr e ↦ rw (h.unfulfilled) (rw e)
]

-- The transition of a pending order to `failed`.
module _ (env : Env) (o : Order) (reason : String) (s : Session) (r : Order)
    (awaits : awaits_delivery o.status ≡ true)
    (found : find (has_order_id o.id) s.db.orders ≡ some r) where
  abbrev failing : Result Order × Session
  failing = transition_loaded env o (value failed) reason s

  pub failing-eq :
      let r' = record r { status = value failed } in
      let d = set_order r' (set_order r' s.db) in
      let h =
        timeline_row env.now
          (normalize_status o.status)
          (value failed)
          (some "SYSTEM")
          none
          (some reason)
          r' in
      let d' = record d { order_status_history = d.order_status_history ++ h ∷ [] } in
      failing ≡ (ok r', record s { db = d'; saved = d' })
  unfolding transition_loaded change_status stamp normalize_status lower validate_order_transition
      of_value
  failing-eq = elim (awaits-cases o.status awaits) [
    | inl e ↦ rw found (rw e)
    | inr e ↦ rw found (rw e)
  ]
