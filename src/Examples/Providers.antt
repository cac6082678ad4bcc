-- ===== src/Examples/Providers.antt =====
-- The circuit breaker's theorems at concrete inputs.
use gift_hub.Prelude.{◌<◌, ◌≡◌, ◌↔◌, List, [], ◌∷◌}
use gift_hub.Circuit.{closed, failure_threshold, get_or_init_state}
use gift_hub.Circuit.Invariant.{Call, run, closed_exactly}

abbrev failures : List Call
failures =
    Call.failure "click" 10
    ∷ Call.success "click"
    ∷ Call.failure "click" 20
    ∷ Call.ask "payme" 30
    ∷ []

closed_exactly_example :
    let c = (get_or_init_state "click" (run [] failures)).0 in
    (c.state ≡ closed) ↔ (c.consecutive_failures < failure_threshold)
closed_exactly_example = closed_exactly failures "click"
