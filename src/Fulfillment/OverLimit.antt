-- ===== src/Fulfillment/OverLimit.antt =====
-- Calls for an order whose three attempts are spent.
use gift_hub.Prelude.{
  ℕ, ◌≤◌, ◌+◌, ◌≡◌, refl, true, false, some, List, [], ◌∷◌, find, find-replace, update_rows, arith,
  length, length-append,
}
use gift_hub.Dlq.{record_failed_job}
use gift_hub.Models.Orders.{Order, value, failed}
use gift_hub.Orders.{has_order_id}
use gift_hub.Session.{Session, ok}
use gift_hub.Fulfillment.{
  manual_review, Client, Call, is_delivered, is_last, exhausted, guarded, ask_circuit,
  fulfill_order_automated,
}
use gift_hub.Fulfillment.Delivered.{found-same}
use gift_hub.Fulfillment.Failing.{IsPassing, ask-IsPassing}
use gift_hub.Fulfillment.Retries.{fulfill_all}

-- The three attempts are spent, the order is neither fulfilled nor completed, and the circuit is
-- closed with the given number of failures. The order may have been refunded.
pub record IsSpent (i failures : ℕ) (s : Session) : Type 0 where
  pub row : Order
  pub found : find (has_order_id i) s.db.orders ≡ some row
  pub spent : 3 ≤ row.fulfillment_attempts
  pub undelivered : is_delivered row ≡ false
  pub passing : IsPassing failures s.breaker

-- The order reads as failed and in manual review.
pub record IsReopened (i : ℕ) (s : Session) : Type 0 where
  pub row : Order
  pub found : find (has_order_id i) s.db.orders ≡ some row
  pub review : row.fulfillment_status ≡ "manual_review"
  pub status : row.status ≡ value failed
  pub committed : s.saved ≡ s.db

replaced :
    (i j : ℕ) (o : Order) (rows : List Order) {r : Order}
    → j ≡ i
    → has_order_id i o ≡ true
    → find (has_order_id i) rows ≡ some r
    → find (has_order_id i) (update_rows (has_order_id j) (λ _. o) rows) ≡ some o
replaced i j o rows e t h = rw e (find-replace (has_order_id i) o rows h t)

module _ (client : Client) (i k : ℕ) where
  pub over_limit-step :
      (c : Call) (s : Session)
      → IsSpent i k s
      → let r = fulfill_order_automated client c i s in
        (r.0 ≡ ok manual_review)
        × IsReopened i r.1
        × IsSpent i k r.1
        × (length r.1.db.failed_jobs ≡ length s.db.failed_jobs + 1)
  unfolding fulfill_order_automated guarded ask_circuit exhausted is_delivered record_failed_job
  over_limit-step c s w =
      let o = w.row in
      let o' = record o { fulfillment_status = "manual_review"; status = value failed } in
      let same = found-same i s.db.orders o w.found in
      let mine : has_order_id i o' ≡ true = ground arith in
      let a = ask-IsPassing k c.env.clock s.breaker w.passing in
      let last : is_last o ≡ true = ground (arith, w.spent) in
      let written = replaced i o.id o' s.db.orders same mine w.found in
      rw (w.found) (
        rw (w.undelivered) (
          rw (a.0) (
            rw last (
              refl,
              record { row = o'; found = written; review = refl; status = refl; committed = refl },
              record {
                row = o';
                found = written;
                spent = w.spent;
                undelivered = refl;
                passing = a.1;
              },
              length-append s.db.failed_jobs _,
            ))))

  -- For an order that is neither fulfilled nor completed and whose three attempts are spent, and
  -- with a closed circuit, any number of calls in a row leave the order failed and in manual review,
  -- committed, whatever other status it had, a refund included; each call adds a dead letter.
  pub over_limit :
      (c : Call) (cs : List Call) (s : Session)
      → IsSpent i k s
      → let s' = fulfill_all client i (c ∷ cs) s in
        IsReopened i s' × (length s'.db.failed_jobs ≡ length s.db.failed_jobs + length (c ∷ cs))
  unfolding fulfill_all
  over_limit c [] s w = let r = over_limit-step c s w in (r.1, r.3)
  over_limit c (c' ∷ cs) s w =
      let r = over_limit-step c s w in
      let rest = over_limit c' cs _ r.2 in (rest.0, omega (arith, r.3, rest.1))
