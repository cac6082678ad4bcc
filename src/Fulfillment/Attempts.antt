-- ===== src/Fulfillment/Attempts.antt =====
-- One attempt after another with a client that fails.
use mathlib.Core.Option
use gift_hub.Prelude.{
  ℕ, suc, ◌<◌, ◌==◌, String, ◌≡◌, refl, ap, ◌∙◌, false, ◌&&◌, some, List, find, update_rows,
  find-update,
}
use gift_hub.Dlq.{FailedJob}
use gift_hub.Circuit.{failure_threshold}
use gift_hub.Models.Orders.{Order}
use gift_hub.Orders.{has_order_id}
use gift_hub.Session.{Session, Result, Error, ok}
use gift_hub.Fulfillment.{
  not_delivered, Client, Call, Delivery, is_last, set_columns, record_outcome, refused, interrupted,
}
use gift_hub.Fulfillment.Failing.{IsPassing, fail-IsPassing, IsPending}

-- Between two attempts: the order with its count, the dead letters and the circuit.
pub record IsWaiting (i n failures : ℕ) (jobs : List FailedJob) (s : Session) : Type 0 where
  pub row : Order
  pub found : find (has_order_id i) s.db.orders ≡ some row
  pub pending : IsPending n row
  pub same_jobs : s.db.failed_jobs ≡ jobs
  pub passing : IsPassing failures s.breaker

-- A client's call that did not deliver, and wrote at most columns of the order that leave it pending.
pub record Fails (client : Client) (i : ℕ) (s : Session) : Type 0 where
  pub answer : Result Delivery
  pub change : Order → Order
  pub runs :
      client i s
      ≡ (answer, record s { db = set_columns i change s.db; saved = set_columns i change s.saved })
  pub refusal : ((d : Delivery) → answer ≡ ok d → d.success && d.fulfilled ≡ false)
  pub keeps_id : (r : Order) → (change r).id ≡ r.id
  pub keeps : (n : ℕ) (r : Order) → IsPending n r → IsPending n (change r)

pub columns-found :
    (i : ℕ) (f : Order → Order) (rows : List Order) (r : Order)
    → ((x : Order) → (f x).id ≡ x.id)
    → find (has_order_id i) rows ≡ some r
    → find (has_order_id i) (update_rows (has_order_id i) f rows) ≡ some (f r)
columns-found i f rows r keep h =
    find-update (has_order_id i) f rows (λ x. ap (λ j. j == i) (keep x)) ∙ ap (Option.map f) h

-- An attempt that failed and is not the last.
module _ (c : Call) (order : Order) (n k : ℕ) (jobs : List FailedJob) (s : Session)
    (w : IsWaiting order.id n k jobs s) (last : is_last order ≡ false)
    (few : suc k < failure_threshold) where
  pub refused-IsWaiting :
      (e : String)
      → let r = refused c order e s in
        (r.0 ≡ ok (not_delivered e)) × IsWaiting order.id n (suc k) jobs r.1
  unfolding refused record_outcome
  refused-IsWaiting e = rw last (
    refl,
    record {
      row = _;
      found =
          columns-found order.id _ _ _ (λ x. refl)
            (columns-found order.id _ _ w.row (λ x. refl) w.found);
      pending = record {
        attempts_made = w.pending.attempts_made;
        unfulfilled = refl;
        awaits = w.pending.awaits;
      };
      same_jobs = w.same_jobs;
      passing = fail-IsPassing k c.env s w.passing few;
    },
  )

  pub interrupted-IsWaiting :
      (e : Error)
      → let r = interrupted c order e s in
        (r.0 ≡ ok (not_delivered (c.describe e))) × IsWaiting order.id n (suc k) jobs r.1
  unfolding interrupted record_outcome
  interrupted-IsWaiting e = rw last (
    refl,
    record {
      row = _;
      found = columns-found order.id _ _ w.row (λ x. refl) w.found;
      pending = record {
        attempts_made = w.pending.attempts_made;
        unfulfilled = w.pending.unfulfilled;
        awaits = w.pending.awaits;
      };
      same_jobs = w.same_jobs;
      passing = fail-IsPassing k c.env s w.passing few;
    },
  )
