-- ===== src/Examples/Workers.antt =====
-- The worker's theorems at concrete inputs.
use gift_hub.Prelude.{
  ℕ, ◌+◌, ◌≤◌, ◌⊎◌, where_rows, ◌≡◌, refl, arith, true, false, none, some, String, [], ◌∷◌, All,
  length,
}
use gift_hub.Prelude.Int.{pos}
use gift_hub.Prelude.Dict.{lookup}
use gift_hub.Prelude.Texts.{show}
use gift_hub.Dlq
use gift_hub.Dlq.{FailedJob, retrying}
use gift_hub.Models.{PriceLock}
use gift_hub.Outbox.{OutboxEvent, pending, seconds, claim_pending_events}
use gift_hub.Session.{Session, ok}
use gift_hub.Fulfillment.Attempts.{IsWaiting}
use gift_hub.Fulfillment.OverLimit.{IsSpent}
use gift_hub.Fragment.{fulfill_order}
use gift_hub.Fragment.Events.{fragment-KeepsEvents}
use gift_hub.Worker.{Tools, retry_job, cleanup, process_outbox_events, process_event}
use gift_hub.Worker.CleanUp.{is_accepted, cleanup_keeps_usable}
use gift_hub.Worker.DeadLetters.{is_exhausted, retry_in_vain}
use gift_hub.Worker.Delivering
use gift_hub.Worker.Delivering.{Requests, IsServed, request_goes_through}
use gift_hub.Worker.Settling.{outbox-IsSettled}
use gift_hub.Worker.Outcomes.{IsSettled, ids}
use gift_hub.Examples.{shop, start, order_in, with_order}
use gift_hub.Examples.Deliveries.{
  request, link, refunded_order, refunded-IsSpent, simulated, bought, passing,
}

abbrev tools : Tools
tools = record {
  client = fulfill_order 5000 "1700" link none;
  call = request;
  notify = λ e. ok tt;
  held = λ i. false;
}

-- Two requests, the second of an order that is not there.
abbrev event : ℕ → String → OutboxEvent
event i order = record {
  id = i;
  event_type = "ORDER_FULFILLMENT_REQUESTED";
  aggregate_type = "order";
  aggregate_id = order;
  payload = ("order_id", order) ∷ [];
  status = pending;
  retry_count = 0;
  max_retries = 5;
  next_retry_at = none;
  locked_at = none;
  locked_by = none;
  last_error = none;
  correlation_id = "req-1";
  created_at = i;
  processed_at = none;
}

abbrev asked : Session
asked = record start {
  db = record shop {
    orders = order_in "paid" ∷ [];
    outbox_events = event 1 "3" ∷ event 2 "9" ∷ [];
  };
}

outbox-IsSettled_example :
    let r = process_outbox_events tools asked in
    (r.0 ≡ ok tt)
    × (ids r.1.db.outbox_events ≡ ids asked.db.outbox_events)
    × All
        (λ ev. IsSettled 5000 ev.id r.1)
        (claim_pending_events 5000 "worker-main" 10
          (seconds 300)
          (λ i. false)
          asked.db.outbox_events).0
outbox-IsSettled_example = outbox-IsSettled tools (fragment-KeepsEvents 5000 "1700" link none) asked

abbrev lock : String → ℕ → PriceLock
lock i expires_at = record {
  id = i;
  product_type = "stars";
  amount = pos 50;
  unit_price = pos 10;
  total_price = pos 500;
  cost_price = pos 400;
  is_used = false;
  expires_at = expires_at;
}

abbrev locked : Session
locked = record start { db = record shop { price_locks = lock "old" 10 ∷ lock "new" 6000 ∷ [] } }

cleanup_keeps_usable_example :
    let left = (cleanup 5000 locked).1.db.price_locks in
    (where_rows (is_accepted 5000 "stars" (pos 50)) left
      ≡ where_rows (is_accepted 5000 "stars" (pos 50)) locked.db.price_locks)
    × (where_rows (λ k. k.is_used) left ≡ where_rows (λ k. k.is_used) locked.db.price_locks)
    × All (λ k. (k.is_used ≡ true) ⊎ (5000 ≤ k.expires_at)) left
cleanup_keeps_usable_example = cleanup_keeps_usable 5000 "stars" (pos 50) locked

abbrev letter : FailedJob
letter = record {
  id = 4;
  job_type = "fulfillment";
  order_id = some 3;
  payload = [];
  error_message = "error";
  traceback = "trace";
  attempts = 3;
  status = retrying;
  resolution_notes = none;
  resolved_by = some 1;
  correlation_id = "req-0";
  created_at = 4000;
  resolved_at = none;
}

retry_in_vain_example :
    let s' = (retry_job tools letter (with_order refunded_order)).1 in
    IsSpent 3 0 s'
    × (length s'.db.failed_jobs ≡ 0 + 1)
    × All (λ j. Dlq.has_id 4 j ≡ true → is_exhausted j.status ≡ true) s'.db.failed_jobs
retry_in_vain_example =
    retry_in_vain tools letter 3 0 (with_order refunded_order) refl refl refunded-IsSpent

abbrev bought_asked : Session
bought_asked = record bought { db = record bought.db { outbox_events = event 1 "3" ∷ [] } }

asks : Requests 3 (event 1 "3")
unfolding lookup show
asks = record { kind = refl; of_order = refl }

asked-IsWaiting : IsWaiting 3 0 0 [] bought_asked
asked-IsWaiting = record {
  row = order_in "paid";
  found = refl;
  pending = record { attempts_made = refl; unfulfilled = refl; awaits = refl };
  same_jobs = refl;
  passing = passing;
}

-- One event in the hands of a worker whose client buys by itself.
request_goes_through_example :
    let t = Delivering.tools 5000 "1700" link simulated refl request (λ e. ok tt) (λ i. false) in
    let r = process_event t (event 1 "3") bought_asked in
    (r.0 ≡ ok tt) × IsServed 3 (event 1 "3") "sim_1700" r.1
request_goes_through_example =
    request_goes_through 5000 "1700" link simulated refl request (λ e. ok tt) (λ i. false)
      (event 1 "3") 3 0 0 [] bought_asked asks (omega arith) asked-IsWaiting
