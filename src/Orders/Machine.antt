-- ===== src/Orders/Machine.antt =====
-- The order state machine of app/models/order.py: `normalize_status` and
-- `validate_order_transition`.
use mathlib.Core.List.{Memᴰ}
use gift_hub.Prelude.{
  String, ◌≡◌, refl, sym, subst, ◌⊎◌, Bool, true, false, some, List, [], ◌∷◌, map, arith, str_eq,
  eq_iff, any, All, Bool-cases, Option-cases, inl, inr, if◌then◌else◌,
}
use gift_hub.Prelude.Texts.{lower}
use gift_hub.Prelude.Texts.Letters.{lower_idem}
use gift_hub.Errors.{ok, err, invalid_order_state}
use gift_hub.Models.Orders.{
  OrderStatus, created, awaiting_payment, paid, processing, completed, failed, cancelled, refunded,
  expired, value, of_value, valid_order_transitions, allowed, normalize_status,
  validate_order_transition,
}

-- The values of the enumeration are normal.
pub normalize-value : (a : OrderStatus) → normalize_status (value a) ≡ value a
unfolding normalize_status lower
normalize-value created = refl
normalize-value awaiting_payment = refl
normalize-value paid = refl
normalize-value processing = refl
normalize-value completed = refl
normalize-value failed = refl
normalize-value cancelled = refl
normalize-value refunded = refl
normalize-value expired = refl

-- The normal form of a normal form is itself.
pub normalize_idem : (s : String) → normalize_status (normalize_status s) ≡ normalize_status s
unfolding normalize_status lower
normalize_idem s = elim (Bool-cases (str_eq (lower s) "done")) [
  | inl d ↦ rw d
  | inr d ↦ elim (Bool-cases (str_eq (lower s) "cancel")) [
    | inl c ↦ rw d (rw c)
    | inr c ↦ elim (Bool-cases (str_eq (lower s) "pending")) [
      | inl p ↦ rw d (rw c (rw p))
      | inr p ↦ rw d (rw c (rw p (rw (lower_idem s) (rw d (rw c (rw p))))))
    ]
  ]
]

of_value-eq : (s : String) {a : OrderStatus} → of_value s ≡ some a → s ≡ value a
unfolding of_value
of_value-eq s h = ground (
  arith,
  eq_iff s "created",
  eq_iff s "awaiting_payment",
  eq_iff s "paid",
  eq_iff s "processing",
  eq_iff s "completed",
  eq_iff s "failed",
  eq_iff s "cancelled",
  eq_iff s "refunded",
  eq_iff s "expired",
)

any-value :
    (t : String) (bs : List OrderStatus)
    → any (str_eq t) (map value bs) ≡ true
    → (b : OrderStatus) × (t ≡ value b) × Memᴰ b bs
any-value t [] h = cc
any-value t (b ∷ bs) h = elim (Bool-cases (str_eq t (value b))) [
  | inl e ↦ (b, (eq_iff t (value b)).0 e, Memᴰ.head refl)
  | inr e ↦ let r = any-value t bs (rw e at h) in (r.0, r.1, Memᴰ.tail r.2)
]

-- An accepted change between two statuses whose normal forms differ leads from one member of the
-- enumeration to another that the table of transitions lists for it.
pub validate-listed :
    (s t : String)
    → validate_order_transition s t ≡ ok tt
    → str_eq (normalize_status s) (normalize_status t) ≡ false
    → (a : OrderStatus) × (b : OrderStatus) × (normalize_status s ≡ value a)
      × (normalize_status t ≡ value b)
      × Memᴰ b (valid_order_transitions a)
unfolding validate_order_transition
validate-listed s t h ne = elim (Option-cases (of_value (normalize_status s))) [
  | inl e ↦ cc (rw (e, allowed) at (rw ne at h))
  | inr (a, e) ↦
      let m = any-value (normalize_status t) (valid_order_transitions a) (listed a e) in
      (a, m.0, of_value-eq (normalize_status s) e, m.1, m.2)
]
  where
    listed :
        (a : OrderStatus)
        → of_value (normalize_status s) ≡ some a
        → any (str_eq (normalize_status t)) (map value (valid_order_transitions a)) ≡ true
    listed a e =
        elim (Bool-cases
          (any (str_eq (normalize_status t)) (map value (valid_order_transitions a)))) [
            | inl y ↦ y
            | inr n ↦ cc (rw n at (rw e at (rw ne at h)))
          ]

-- Whether a change is accepted: no change, or one that the table lists.
abbrev pub accepts : OrderStatus → OrderStatus → Bool
accepts created created = true
accepts created awaiting_payment = true
accepts created paid = true
accepts created cancelled = true
accepts created expired = true
accepts awaiting_payment awaiting_payment = true
accepts awaiting_payment paid = true
accepts awaiting_payment cancelled = true
accepts awaiting_payment expired = true
accepts paid paid = true
accepts paid processing = true
accepts paid completed = true
accepts paid failed = true
accepts paid refunded = true
accepts processing processing = true
accepts processing completed = true
accepts processing failed = true
accepts processing refunded = true
accepts completed completed = true
accepts completed refunded = true
accepts failed failed = true
accepts failed processing = true
accepts failed refunded = true
accepts failed cancelled = true
accepts cancelled cancelled = true
accepts refunded refunded = true
accepts expired expired = true
accepts _ _ = false

pub validate-accepts :
    (a b : OrderStatus)
    → validate_order_transition (value a) (value b)
      ≡ (if accepts a b then ok tt else err invalid_order_state)
unfolding validate_order_transition normalize_status lower of_value
validate-accepts created created = refl
validate-accepts created _ = refl
validate-accepts awaiting_payment created = refl
validate-accepts awaiting_payment _ = refl
validate-accepts paid created = refl
validate-accepts paid _ = refl
validate-accepts processing created = refl
validate-accepts processing _ = refl
validate-accepts completed created = refl
validate-accepts completed _ = refl
validate-accepts failed created = refl
validate-accepts failed _ = refl
validate-accepts cancelled created = refl
validate-accepts cancelled _ = refl
validate-accepts refunded created = refl
validate-accepts refunded _ = refl
validate-accepts expired created = refl
validate-accepts expired _ = refl

accepted :
    (a b : OrderStatus) → validate_order_transition (value a) (value b) ≡ ok tt → accepts a b ≡ true
accepted a b h = elim (Bool-cases (accepts a b)) [
  | inl y ↦ y
  | inr n ↦ let v = validate-accepts a b in ground arith
]

-- A chain of accepted changes, each from the status before it.
abbrev pub IsRun : OrderStatus → List OrderStatus → Type 0
IsRun a [] = Unit
IsRun a (b ∷ bs) = (validate_order_transition (value a) (value b) ≡ ok tt) × IsRun b bs

-- The statuses before any payment, and those that a never-paid order ends in.
abbrev pub is_unpaid : OrderStatus → Bool
is_unpaid created = true
is_unpaid awaiting_payment = true
is_unpaid cancelled = true
is_unpaid expired = true
is_unpaid _ = false

unpaid_step :
    (a b : OrderStatus)
    → is_unpaid a ≡ true
    → accepts a b ≡ true
    → (b ≡ paid) ⊎ (is_unpaid b ≡ true)
unpaid_step a b h k = ground arith

-- From a status before payment, no chain of accepted changes reaches a refund, a completion or a
-- failure without passing through `paid`.
pub money_needs_paid :
    (a : OrderStatus) (bs : List OrderStatus)
    → is_unpaid a ≡ true
    → IsRun a bs
    → Memᴰ paid bs ⊎ All (λ b. is_unpaid b ≡ true) bs
money_needs_paid a [] h run = inr tt
money_needs_paid a (b ∷ bs) h run = elim (unpaid_step a b h (accepted a b run.0)) [
  | inl e ↦ inl (Memᴰ.head (sym e))
  | inr u ↦ elim (money_needs_paid b bs u run.1) [
    | inl m ↦ inl (Memᴰ.tail m)
    | inr all ↦ inr (u, all)
  ]
]

abbrev pub is_terminal : OrderStatus → Bool
is_terminal cancelled = true
is_terminal refunded = true
is_terminal expired = true
is_terminal _ = false

terminal_step : (a b : OrderStatus) → is_terminal a ≡ true → accepts a b ≡ true → b ≡ a
terminal_step a b h k = ground arith

-- A cancelled, refunded or expired order keeps its status along every chain of accepted changes.
terminal_absorbs :
    (a : OrderStatus) (bs : List OrderStatus)
    → is_terminal a ≡ true
    → IsRun a bs
    → All (λ b. b ≡ a) bs
terminal_absorbs a [] h run = tt
terminal_absorbs a (b ∷ bs) h run =
    let e = terminal_step a b h (accepted a b run.0) in
    (e, subst (λ c. All (λ d. d ≡ c) bs) e (terminal_absorbs b bs (rw e h) run.1))

-- The table lists nothing for a terminal status.
pub terminal-allowed : (a : OrderStatus) → is_terminal a ≡ true → allowed (of_value (value a)) ≡ []
unfolding of_value
terminal-allowed cancelled h = refl
terminal-allowed refunded h = refl
terminal-allowed expired h = refl
terminal-allowed created h = cc
terminal-allowed awaiting_payment h = cc
terminal-allowed paid h = cc
terminal-allowed processing h = cc
terminal-allowed completed h = cc
terminal-allowed failed h = cc
