-- ===== src/Click/Guards.antt =====
-- Completions of Click that succeed.
use Prim.Native.String.{◌++◌ as text_append}
use gift_hub.Prelude.{
  ℕ, ◌==◌, ◌≡◌, refl, String, List, [], ◌∷◌, eq_iff, if◌then◌else◌, sym, ap, subst, ◌∙◌, true,
  false, Option, none, some, str_eq, find, Bool-cases, inl, inr,
}
use gift_hub.Prelude.Texts.{lower}
use gift_hub.Prelude.Int.{pos, negsuc, ltb_ℤ, ◌+ℤ◌}
use gift_hub.Models.{User}
use gift_hub.Models.Shop.{ClickTransaction}
use gift_hub.Orders.{Env}
use gift_hub.Wallet.{has_user_id}
use gift_hub.Payments.Once.{found_payer, deposit_once}
use gift_hub.Payments.{effective_user, ProcessPaymentResult, process_successful_payment_idempotent}
use gift_hub.Session.{Session, Result, ok, err, pure, continue}
use gift_hub.Click.{
  ClickRequest, ClickSettings, ClickAnswer, verify_signature, same_amount, has_trans_id, other_row,
  click_payment, paid_answer, set_click, complete_payment, complete_found, process_complete,
}

-- The session in which a completion of the row `t` confirms its payment.
abbrev pub marked : ClickTransaction → Session → Session
marked t s = record s { db = set_click (record t { status = "completed"; action = pos 1 }) s.db }

-- The row was prepared for the same amount and had not been completed, and its payment was new.
pub record IsCharged (env : Env) (r : ClickRequest) (s s' : Session) : Type 0 where
  pub row : ClickTransaction
  pub found : find (has_trans_id r.click_trans_id.number) s.db.click_transactions ≡ some row
  pub same_row : other_row r row ≡ false
  pub amount : same_amount row.amount r.amount.number ≡ true
  pub open_row : str_eq row.status "completed" ≡ false
  pub no_error : ltb_ℤ r.error.number (pos 0) ≡ false
  pub result : ProcessPaymentResult
  pub is_new : result.is_new ≡ true
  pub paid_now :
      (process_successful_payment_idempotent env (click_payment r row) (marked row s)).0 ≡ ok result
  pub after :
      (process_successful_payment_idempotent env (click_payment r row) (marked row s)).1 ≡ s'

-- An answer with an error is no success.
refused :
    {X : Type 0} (b a : ClickAnswer) (n : ℕ) (s s' : Session)
    → b.error ≡ negsuc n
    → pure b s ≡ (ok a, s')
    → a.error ≡ pos 0
    → X
refused b a n s s' e h k =
    let same : b ≡ a = cc (ap (λ p. p.0) h) in
    let z : negsuc n ≡ pos 0 = sym e ∙ ap (λ (c : ClickAnswer). c.error) same ∙ k in cc z

module _ (env : Env) (r : ClickRequest) (a : ClickAnswer) (s s' : Session) where
  paid_new :
      (t : ClickTransaction) (q : Result ProcessPaymentResult) (u : Session)
      → continue q (λ x v. (ok (paid_answer t x), v)) u ≡ (ok a, s')
      → a.error ≡ pos 0
      → (x : ProcessPaymentResult) × ((x.is_new ≡ true) × ((q ≡ ok x) × (u ≡ s')))
  paid_new t (ok x) u h k = elim (Bool-cases x.is_new) [
    | inl y ↦ (x, (y, (refl, ap (λ p. p.1) h)))
    | inr n ↦ refused (paid_answer t x) a 3 u s' (rw n) h k
  ]
  paid_new t (err e) u h k = cc (ap (λ p. p.0) h)

  found-IsCharged :
      (o : Option ClickTransaction)
      → find (has_trans_id r.click_trans_id.number) s.db.click_transactions ≡ o
      → complete_found env r o s ≡ (ok a, s')
      → a.error ≡ pos 0
      → IsCharged env r s s'
  unfolding complete_found complete_payment
  found-IsCharged none f h k = refused _ a 5 s s' refl h k
  found-IsCharged (some t) f h k = elim (Bool-cases (other_row r t)) [
    | inl y ↦ refused _ a 5 s s' refl (rw y at h) k
    | inr same ↦ elim (Bool-cases (same_amount t.amount r.amount.number)) [
      | inr n ↦ refused _ a 1 s s' refl (rw (same, n) at h) k
      | inl amount ↦ elim (Bool-cases (str_eq t.status "completed")) [
        | inl y ↦ refused _ a 3 s s' refl (rw (same, amount, y) at h) k
        | inr left ↦ elim (Bool-cases (ltb_ℤ r.error.number (pos 0))) [
          | inl y ↦ refused _ a 8 _ s' refl (rw (same, amount, left, y) at h) k
          | inr fine ↦
              let p = paid_new t _ _ (rw (same, amount, left, fine) at h) k in
              record {
                row = t;
                found = f;
                same_row = same;
                amount = amount;
                open_row = left;
                no_error = fine;
                result = p.0;
                is_new = p.1.0;
                paid_now = p.1.1.0;
                after = p.1.1.1;
              }
        ]
      ]
    ]
  ]

click_payer :
    (r : ClickRequest) (t : ClickTransaction) (i : ℕ)
    → effective_user (click_payment r t) ≡ some i
    → i ≡ t.user_id
click_payer r t i h = elim (Bool-cases (t.user_id == 0)) [
  | inl z ↦ let h' : none ≡ some i = rw (effective_user, z) at h in cc h'
  | inr n ↦ let h' : some t.user_id ≡ some i = rw (effective_user, n) at h in cc (h')
]

charged :
    (env : Env) (r : ClickRequest) (s s' : Session) (c : IsCharged env r s s')
    → (u : User) × ((find (has_user_id c.row.user_id) s.db.users ≡ some u)
        × (find (has_user_id c.row.user_id) s'.db.users
            ≡ some (record u { balance = u.balance +ℤ r.amount.number })))
charged env r s s' c =
    let p = click_payment r c.row in
    let m = marked c.row s in
    let k : process_successful_payment_idempotent env p m ≡ (ok c.result, s') =
      cc (c.paid_now, c.after) in
    let f = found_payer env p m s' c.result k in
    let d = deposit_once env env p p m s' s' c.result refl k c.is_new refl refl f.1 refl in
    let (i, u, payer, before, after) = d.0 in
    let same = click_payer r c.row i payer in
    (
      u,
      (
        subst (λ j. find (has_user_id j) s.db.users ≡ some u) same before,
        subst
            (λ j.
              find (has_user_id j) s'.db.users
              ≡ some (record u { balance = u.balance +ℤ r.amount.number }))
            same after,
      ),
    )

abbrev pub joined : List String → String
joined [] = ""
joined (t ∷ []) = t
joined (t ∷ u ∷ ts) = text_append t (joined (u ∷ ts))

-- The signature of the request is, up to the case of its letters, the MD5 sum of the request's
-- fields and the secret key, in the order of the protocol; the prepared identity is among them in
-- a completion.
abbrev pub IsSigned : ClickSettings → ClickRequest → Type 0
IsSigned c r =
    lower r.sign_string
    ≡ lower (
        c.md5 (
          joined (
            r.click_trans_id.text
            ∷ r.service_id.text
            ∷ c.secret_key
            ∷ r.merchant_trans_id
            ∷ (if str_eq r.action.text "1" then r.merchant_prepare_id.text else "")
            ∷ r.amount.text
            ∷ r.action.text
            ∷ r.sign_time
            ∷ [])))

verify-IsSigned :
    (c : ClickSettings) (r : ClickRequest)
    → c.is_test ≡ false
    → verify_signature c r ≡ true
    → IsSigned c r
unfolding verify_signature
verify-IsSigned c r live h = sym ((eq_iff _ _).0 (rw live at h))

-- Outside the tests' environment, a completion that Click is told has succeeded carries the MD5 sum
-- of its fields with the secret key, names a row that was prepared for the same amount and had not
-- been completed, reports no error, and has added the amount to the balance of the row's user.
pub click_charges :
    (env : Env) (c : ClickSettings) (r : ClickRequest) (a : ClickAnswer) (s s' : Session)
    → c.is_test ≡ false
    → process_complete env c r s ≡ (ok a, s')
    → a.error ≡ pos 0
    → IsSigned c r
      × (t : ClickTransaction) × (find
            (has_trans_id r.click_trans_id.number)
            s.db.click_transactions
          ≡ some t)
      × (same_amount t.amount r.amount.number ≡ true)
      × (str_eq t.status "completed" ≡ false)
      × (ltb_ℤ r.error.number (pos 0) ≡ false)
      × (u : User) × (find (has_user_id t.user_id) s.db.users ≡ some u)
      × (find (has_user_id t.user_id) s'.db.users
          ≡ some (record u { balance = u.balance +ℤ r.amount.number }))
unfolding process_complete
click_charges env c r a s s' live h k = elim (Bool-cases (verify_signature c r)) [
  | inr n ↦ refused _ a 0 s s' refl (rw n at h) k
  | inl y ↦
      let g = found-IsCharged env r a s s' _ refl (rw y at h) k in
      let p = charged env r s s' g in
      (
        verify-IsSigned c r live y,
        g.row,
        g.found,
        g.amount,
        g.open_row,
        g.no_error,
        p.0,
        p.1.0,
        p.1.1,
      )
]
