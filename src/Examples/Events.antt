-- ===== src/Examples/Events.antt =====
-- The outbox's theorems at concrete inputs.
use gift_hub.Prelude.{
  ℕ, suc, ◌+◌, ◌==◌, String, ◌≡◌, refl, Bool, false, none, List, [], ◌∷◌, arith, any, length, All,
  if◌then◌else◌,
}
use gift_hub.Outbox.{OutboxEvent, pending, has_id, claim_pending_events}
use gift_hub.Outbox.Claim.{claims_disjoint}
use gift_hub.Outbox.Retries.{dead_letter_once, mark_failed_times}

abbrev request : ℕ → OutboxEvent
request i = record {
  id = i;
  event_type = "ORDER_FULFILLMENT_REQUESTED";
  aggregate_type = "order";
  aggregate_id = "3";
  payload = [];
  status = pending;
  retry_count = 0;
  max_retries = 3;
  next_retry_at = none;
  locked_at = none;
  locked_by = none;
  last_error = none;
  correlation_id = "req-1";
  created_at = i;
  processed_at = none;
}

abbrev queue : List OutboxEvent
queue = request 2 ∷ request 1 ∷ request 4 ∷ []

abbrev unheld : ℕ → Bool
unheld i = i == 4

claims_disjoint_example :
    let (mine, es) = claim_pending_events 10 "a" 1 300 unheld queue in
    let (theirs, _) = claim_pending_events 20 "b" 5 300 unheld es in
    All (λ e. any (has_id e.id) mine ≡ false) theirs
claims_disjoint_example = claims_disjoint 10 20 "a" "b" 1 5 300 unheld unheld queue (omega arith)

abbrev again : List (ℕ × String)
again = (20, "timeout") ∷ (30, "refused") ∷ []

dead_letter_once_example :
    length (mark_failed_times "trace" 1 ((10, "timeout") ∷ again) (queue, [])).1
    ≡ length {A = OutboxEvent} [] + (if 0 + suc (length again) == 3 then 1 else 0)
dead_letter_once_example =
    dead_letter_once "trace" 1 10 "timeout" again queue [] {e = request 1} refl (refl, refl)
      (omega arith)
