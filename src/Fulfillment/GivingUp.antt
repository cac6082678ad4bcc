-- ===== src/Fulfillment/GivingUp.antt =====
-- The last attempt that fails.
use Prim.Native.String.{◌++◌ as text_append}
use gift_hub.Prelude.{
  ℕ, String, ◌≡◌, refl, ap, arith, true, some, List, [], ◌∷◌, ◌++◌, find, find-replace, update_rows,
}
use gift_hub.Dlq.{FailedJob, record_failed_job}
use gift_hub.Models.{Db}
use gift_hub.Models.Orders.{Order, value, failed}
use gift_hub.Orders.{has_order_id}
use gift_hub.Session.{Session, Result, Error, ok, err, continue, modify, commit, pure, ◌>>◌}
use gift_hub.Fulfillment.{
  not_delivered, Call, is_last, set_columns, fulfillment_job, record_outcome, refused, interrupted,
  give_up,
}
use gift_hub.Fulfillment.Failing.{awaits_delivery, failing-eq}
use gift_hub.Fulfillment.Delivered.{found-same}
use gift_hub.Fulfillment.Attempts.{columns-found}

-- The order has failed and waits for an administrator, who finds one more dead letter for it.
pub record IsGivenUp (i attempts : ℕ) (jobs : List FailedJob) (d : Db) : Type 0 where
  pub row : Order
  pub found : find (has_order_id i) d.orders ≡ some row
  pub review : row.fulfillment_status ≡ "manual_review"
  pub status : row.status ≡ value failed
  pub letter : FailedJob
  pub letters : d.failed_jobs ≡ jobs ++ letter ∷ []
  pub of_order : letter.order_id ≡ some i
  pub of_type : letter.job_type ≡ "fulfillment"
  pub attempts_made : letter.attempts ≡ attempts

twice-found :
    (i j : ℕ) (o r : Order) (rows : List Order)
    → j ≡ i
    → o.id ≡ i
    → find (has_order_id i) rows ≡ some r
    → let change = update_rows (has_order_id j) (λ _. o) in
      find (has_order_id i) (change (change rows)) ≡ some o
twice-found i j o r rows e k h =
    let t : has_order_id i o ≡ true = ground arith in
    rw e (find-replace (has_order_id i) o _ (find-replace (has_order_id i) o rows h t) t)

module _ (c : Call) (order : Order) (jobs : List FailedJob)
    (awaits : awaits_delivery order.status ≡ true) where
  give_up-IsGivenUp :
      (reason e : String) (s : Session) (r : Order)
      → s.db.failed_jobs ≡ jobs
      → find (has_order_id order.id) s.db.orders ≡ some r
      → let q = give_up c order reason e s in
        (q.0 ≡ ok tt) × IsGivenUp order.id order.fulfillment_attempts jobs q.1.db
  unfolding give_up record_failed_job
  give_up-IsGivenUp reason e s r same found =
      let r1 = record r { fulfillment_status = "manual_review" } in
      let s1 =
        (modify (set_columns order.id (λ o. record o { fulfillment_status = "manual_review" }))
          s).1 in
      let found1 =
        columns-found order.id (λ o. record o { fulfillment_status = "manual_review" }) s.db.orders
          r (λ x. refl) found in
      let eq = failing-eq c.env order (text_append reason e) s1 r1 awaits found1 in
      let e_id = found-same order.id s.db.orders r found in
      rw eq (
        refl,
        record {
          row = record r1 { status = value failed };
          found = twice-found order.id r.id _ r1 s1.db.orders e_id e_id found1;
          review = refl;
          status = refl;
          letter = _;
          letters = ap (λ js. record_failed_job c.env.now (fulfillment_job c order e) js) same;
          of_order = refl;
          of_type = refl;
          attempts_made = refl;
        },
      )

  -- What follows `give_up`.
  finish :
      (q : Result (Unit {0}) × Session) (e : String)
      → q.0 ≡ ok tt
      → IsGivenUp order.id order.fulfillment_attempts jobs q.1.db
      → let r = continue q.0 (λ _. commit >> pure (not_delivered e)) q.1 in
        (r.0 ≡ ok (not_delivered e))
        × IsGivenUp order.id order.fulfillment_attempts jobs r.1.db
        × (r.1.saved ≡ r.1.db)
  finish (ok tt, s) e h g = (refl, g, refl)
  finish (err x, s) e h g = cc h

  module _ (s : Session) (r : Order) (same : s.db.failed_jobs ≡ jobs)
      (found : find (has_order_id order.id) s.db.orders ≡ some r)
      (last : is_last order ≡ true) where
    pub refused-IsGivenUp :
        (e : String)
        → let t = refused c order e s in
          (t.0 ≡ ok (not_delivered e))
          × IsGivenUp order.id order.fulfillment_attempts jobs t.1.db
          × (t.1.saved ≡ t.1.db)
    unfolding refused record_outcome
    refused-IsGivenUp e =
        let g =
          give_up-IsGivenUp "Maksimal urinishlar soni tugadi: " e _
            (record r { fulfillment_error = some e }) same
            (columns-found order.id (λ o. record o { fulfillment_error = some e }) s.db.orders r
              (λ x. refl) found) in
        rw last (finish _ e g.0 g.1)

    pub interrupted-IsGivenUp :
        (x : Error)
        → let t = interrupted c order x s in
          (t.0 ≡ ok (not_delivered (c.describe x)))
          × IsGivenUp order.id order.fulfillment_attempts jobs t.1.db
          × (t.1.saved ≡ t.1.db)
    unfolding interrupted record_outcome
    interrupted-IsGivenUp x =
        let e = c.describe x in
        let g =
          give_up-IsGivenUp "Yetkazib berish istisnosi: " e _
            (record r { fulfillment_error = some e }) same
            (columns-found order.id (λ o. record o { fulfillment_error = some e }) s.db.orders r
              (λ y. refl) found) in
        rw last (finish _ e g.0 g.1)
