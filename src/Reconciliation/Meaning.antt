-- ===== src/Reconciliation/Meaning.antt =====
-- What the audit's tests mean for a payment and an order.
use mathlib.Core.List.{Memᴰ}
use gift_hub.Prelude.{
  ℕ, ◌+◌, ◌<◌, ◌==◌, String, ◌≡◌, ◌≢◌, ◌⊎◌, ◌↔◌, refl, ap, subst, Bool, true, false, ◌&&◌, ◌||◌,
  Option, none, some, List, [], ◌∷◌, arith, any, All, count_rows, ◌≤◌, Bool-cases, inl, inr, str_eq,
  eq_iff,
}
use gift_hub.Prelude.Every.{All-imp}
use gift_hub.Prelude.Int.{ℤ, pos, negsuc, leb_ℤ}
use gift_hub.Prelude.Texts.{show}
use gift_hub.Models.{PaymentTransaction, WalletTransaction}
use gift_hub.Models.Orders.{Order}
use gift_hub.Reconciliation.{
  pays, is_success, left_unpaid, differs, lacks_ledger, is_stuck, books, same_text, is_wallet_order,
  long_paid, order_paid,
}

-- A payment that went through is for the order.
abbrev pub Concerns : PaymentTransaction → Order → Type 0
Concerns p o = (p.status ≡ "success") × (p.order_id ≡ some o.id)

-- The order is no longer unpaid, when the payment is for it.
abbrev pub Settles : PaymentTransaction → Order → Type 0
Settles p o = Concerns p o → (o.status ≢ "created") × (o.status ≢ "awaiting_payment")

-- The payment has the order's price, when it is for it.
abbrev pub PaysPrice : PaymentTransaction → Order → Type 0
PaysPrice p o = Concerns p o → p.amount ≡ o.total_price

-- The order was paid for from the wallet.
abbrev pub FromWallet : Order → Type 0
FromWallet o =
    (((o.status ≡ "paid") ⊎ (o.status ≡ "completed")) ⊎ (o.status ≡ "processing"))
    × ((o.payment_method ≡ "balance") ⊎ (o.payment_method ≡ "wallet"))

-- The row books a purchase under the number of the order.
abbrev pub Books : Order → WalletTransaction → Type 0
Books o t =
    (t.reference_type ≡ some "order")
    × (t.reference_id ≡ some (show o.id))
    × (t.tx_type ≡ "purchase")

-- An order paid for from the wallet has such a row.
abbrev pub Booked : List WalletTransaction → Order → Type 0
Booked ts o = FromWallet o → (t : WalletTransaction) × Memᴰ t ts × Books o t

-- An order that was paid for more than five minutes ago does not wait for its delivery.
abbrev pub Delivered : ℕ → Order → Type 0
Delivered now o =
    (t : ℕ)
    → o.status ≡ "paid"
    → o.paid_at ≡ some t
    → t + 300000000 < now
    → (o.fulfillment_status ≢ "pending") × (o.fulfillment_status ≢ "failed")

module _ {a b : Bool} {P Q : Type 0} (e : (a ≡ true) ↔ P) (f : (b ≡ true) ↔ Q) where
  and_iff : (a && b ≡ true) ↔ (P × Q)
  and_iff = (
    (λ h. (e.0 (ground arith), f.0 (ground arith))),
    λ h. let x = e.1 h.0 in let y = f.1 h.1 in ground arith,
  )

  or_iff : (a || b ≡ true) ↔ (P ⊎ Q)
  or_iff = (
    (λ h. elim (Bool-cases a) [ inl y ↦ inl (e.0 y) | inr n ↦ inr (f.0 (ground arith)) ]),
    λ h. elim h [ inl x ↦ let y = e.1 x in ground arith | inr x ↦ let y = f.1 x in ground arith ],
  )

not_true : (b : Bool) → b ≢ true → b ≡ false
not_true true h = absurd (h refl)
not_true false h = refl

not_both : {b : Bool} → b ≡ false → b ≢ true
not_both h k = ground arith

for-order :
    (x : Option ℕ) (i : ℕ) → (elim x [ none ↦ false | some j ↦ i == j ] ≡ true) ↔ (x ≡ some i)
for-order none i = ((λ h. cc h), λ h. cc h)
for-order (some j) i = (
  (λ h. let same : j ≡ i = ground arith in ap some same),
  λ h. let same : j ≡ i = cc h in ground arith,
)

paid_for_iff :
    (p : PaymentTransaction) (o : Order) → (pays p o && is_success p ≡ true) ↔ Concerns p o
paid_for_iff p o =
    let a = for-order p.order_id o.id in
    let b = eq_iff p.status "success" in
    ((λ h. (b.0 (ground arith), a.0 (ground arith))), λ h. rw (a.1 h.1) (b.1 h.0))

pub unpaid_iff : (p : PaymentTransaction) (o : Order) → (left_unpaid p o ≡ false) ↔ Settles p o
unpaid_iff p o =
    let c = paid_for_iff p o in
    let a = eq_iff o.status "created" in
    let b = eq_iff o.status "awaiting_payment" in
    let both = or_iff a b in
    (
      (λ h k.
          let q = c.1 k in
          ((λ e. let y = a.1 e in ground arith), λ e. let y = b.1 e in ground arith)),
      λ f. not_true (left_unpaid p o) (λ h.
          let k = f (c.0 (ground arith)) in
          elim (both.0 (ground arith)) [ inl x ↦ k.0 x | inr y ↦ k.1 y ]),
    )

same_iff : (a b : ℤ) → (leb_ℤ a b && leb_ℤ b a ≡ true) ↔ (a ≡ b)
same_iff (pos m) (pos n) =
    ((λ h. let e : m ≡ n = ground arith in ap pos e), λ h. let e : m ≡ n = cc h in ground arith)
same_iff (pos m) (negsuc n) = ((λ h. ground arith), λ h. cc h)
same_iff (negsuc m) (pos n) = ((λ h. ground arith), λ h. cc h)
same_iff (negsuc m) (negsuc n) =
    ((λ h. let e : m ≡ n = ground arith in ap negsuc e), λ h. let e : m ≡ n = cc h in ground arith)

pub price_iff : (p : PaymentTransaction) (o : Order) → (differs p o ≡ false) ↔ PaysPrice p o
price_iff p o =
    let c = paid_for_iff p o in
    let e = same_iff p.amount o.total_price in
    (
      (λ h k. let q = c.1 k in e.0 (ground arith)),
      λ f. not_true (differs p o) (λ h. let y = e.1 (f (c.0 (ground arith))) in ground arith),
    )

text_iff : (x : Option String) (t : String) → (same_text x t ≡ true) ↔ (x ≡ some t)
text_iff none t = ((λ h. cc h), λ h. cc h)
text_iff (some u) t =
    ((λ h. ap some ((eq_iff u t).0 h)), λ h. let e : u ≡ t = cc h in (eq_iff u t).1 e)

books_iff : (o : Order) (t : WalletTransaction) → (books o t ≡ true) ↔ Books o t
books_iff o t =
    let all =
      and_iff (and_iff (text_iff t.reference_type "order") (text_iff t.reference_id (show o.id)))
        (eq_iff t.tx_type "purchase") in
    ((λ h. let q = all.0 h in (q.0.0, q.0.1, q.1)), λ h. all.1 ((h.0, h.1), h.2))

wallet_iff : (o : Order) → (is_wallet_order o ≡ true) ↔ FromWallet o
wallet_iff o =
    and_iff
      (or_iff (or_iff (eq_iff o.status "paid") (eq_iff o.status "completed"))
        (eq_iff o.status "processing"))
      (or_iff (eq_iff o.payment_method "balance") (eq_iff o.payment_method "wallet"))

-- A row that is not the first.
elsewhere :
    (o : Order) (t : WalletTransaction) (ts : List WalletTransaction)
    → books o t ≢ true
    → ((u : WalletTransaction) × Memᴰ u (t ∷ ts) × Books o u)
    → (u : WalletTransaction) × Memᴰ u ts × Books o u
elsewhere o t ts n (u, Memᴰ.head e, h) = absurd (n ((books_iff o t).1 (subst (Books o) e h)))
elsewhere o t ts n (u, Memᴰ.tail m, h) = (u, m, h)

any_iff :
    (o : Order) (ts : List WalletTransaction)
    → (any (books o) ts ≡ true) ↔ ((t : WalletTransaction) × Memᴰ t ts × Books o t)
any_iff o [] = ((λ h. cc h), λ h. elim (h.1) [ ])
any_iff o (t ∷ ts) =
    let b = books_iff o t in
    let rest = any_iff o ts in
    (
      (λ h. elim (Bool-cases (books o t)) [
        | inl y ↦ (t, Memᴰ.head refl, b.0 y)
        | inr n ↦ let r = rest.0 (rw n at h) in (r.0, Memᴰ.tail r.1, r.2)
      ]),
      λ h. elim (Bool-cases (books o t)) [
        | inl y ↦ rw y refl
        | inr n ↦ rw n (rest.1 (elsewhere o t ts (not_both n) h))
      ],
    )

pub booked_iff :
    (ts : List WalletTransaction) (o : Order) → (lacks_ledger ts o ≡ false) ↔ Booked ts o
booked_iff ts o =
    let w = wallet_iff o in
    let a = any_iff o ts in
    (
      (λ h k. let y = w.1 k in a.0 (ground arith)),
      λ f. not_true (lacks_ledger ts o) (λ h. let y = a.1 (f (w.0 (ground arith))) in ground arith),
    )

late_iff :
    (now : ℕ) (x : Option ℕ)
    → (long_paid now x ≡ true) ↔ ((t : ℕ) × (x ≡ some t) × (t + 300000000 < now))
late_iff now none = ((λ h. cc h), λ h. cc (h.1))
late_iff now (some u) =
    ((λ h. (u, refl, ground arith)), λ h. let e : u ≡ h.0 = cc (h.1) in let l = h.2 in ground arith)

pub delivered_iff : (now : ℕ) (o : Order) → (is_stuck now o ≡ false) ↔ Delivered now o
delivered_iff now o =
    let stuck =
      and_iff (and_iff (eq_iff o.status "paid") (late_iff now o.paid_at))
        (or_iff (eq_iff o.fulfillment_status "pending") (eq_iff o.fulfillment_status "failed")) in
    (
      (λ h t paid at late. (
        (λ e. not_both h (stuck.1 ((paid, (t, at, late)), inl e))),
        λ e. not_both h (stuck.1 ((paid, (t, at, late)), inr e)),
      )),
      λ f. not_true (is_stuck now o) (λ h.
          let k = stuck.0 h in
          let late = k.0.1 in
          let d = f late.0 k.0.0 late.1 late.2 in elim (k.1) [ inl x ↦ d.0 x | inr y ↦ d.1 y ]),
    )

-- A payment that went through for the order with the number.
abbrev pub pays_for : ℕ → PaymentTransaction → Bool
pays_for i p = str_eq p.status "success" && elim p.order_id [ none ↦ false | some j ↦ j == i ]

-- At most one payment went through for the order that `p` pays.
abbrev pub PaysAlone : List PaymentTransaction → PaymentTransaction → Type 0
PaysAlone all p =
    (i : ℕ) → p.status ≡ "success" → p.order_id ≡ some i → count_rows (pays_for i) all ≤ 1

pub paid_iff :
    (p : PaymentTransaction) (i : ℕ)
    → (order_paid p ≡ some i) ↔ ((p.status ≡ "success") × (p.order_id ≡ some i))
paid_iff p i = elim (Bool-cases (str_eq p.status "success")) [
  | inl y ↦ rw y ((λ h. ((eq_iff p.status "success").0 y, h)), λ h. h.1)
  | inr n ↦ rw n ((λ h. cc h), λ h. absurd (not_both n ((eq_iff p.status "success").1 h.0)))
]

module _ {A : Type 0} {P Q : A → Type 0} (e : (x : A) → P x ↔ Q x) where
  pub all_iff : (xs : List A) → All P xs ↔ All Q xs
  all_iff xs = (All-imp P Q xs (λ x. (e x).0), All-imp Q P xs (λ x. (e x).1))
