-- ===== src/Examples/Breakers.antt =====
-- The circuit breaker.
use context_brain_memory_lab.Prelude.{
  ◌<◌, ◌≡◌, refl, String, true, false, none, some, List, [], ◌∷◌, arith, All, tally,
}
use context_brain_memory_lab.Governance.CircuitBreaker.{
  EventType, closed, opened, CircuitBreakerEvent, CircuitBreakerStateSnapshot, default_config,
  normalize_event_type, read_event_type, evaluate_from,
}
use context_brain_memory_lab.Governance.CircuitBreaker.Safety.{
  ordinary, failing, IsConsistent, ordinary, failing, evaluate_from-IsConsistent,
  evaluate_from_allows,
}
use context_brain_memory_lab.Governance.CircuitBreaker.Recovery.{evaluate_from_stuck}

abbrev lower : String → String
lower s = s

abbrev two_failures : List CircuitBreakerEvent
two_failures =
    record { event_type = "failure"; timestamp = 20; reason = "down" }
    ∷ record { event_type = "timeout"; timestamp = 10; reason = "" }
    ∷ []

kinds :
    (normalize_event_type lower default_config "failure" ≡ some EventType.failure)
    × (normalize_event_type lower default_config "timeout" ≡ some EventType.timeout)
    × (normalize_event_type lower default_config "success" ≡ some EventType.success)
unfolding normalize_event_type read_event_type
kinds = (refl, refl, refl)

known :
    All
      (λ e.
        ordinary lower default_config (normalize_event_type lower default_config e.event_type)
        ≡ true)
      two_failures
unfolding normalize_event_type read_event_type
known = (refl, (refl, tt))

few : tally (failing lower default_config) two_failures < 3
unfolding normalize_event_type read_event_type
few = omega arith

evaluate_from_allows_example :
    (s : CircuitBreakerStateSnapshot) × (evaluate_from lower default_config closed two_failures 30
      ≡ some s)
    × (s.allow_request_recommendation ≡ true)
evaluate_from_allows_example = evaluate_from_allows lower default_config two_failures 30 known few

abbrev one_success_event : List CircuitBreakerEvent
one_success_event = record { event_type = "success"; timestamp = 5; reason = "" } ∷ []

evaluate_from_stuck_example :
    (s : CircuitBreakerStateSnapshot) × (evaluate_from lower default_config opened one_success_event
        1_000_000_000
      ≡ some s)
    × (s.state ≡ opened)
    × (s.allow_request_recommendation ≡ false)
    × (s.retry_after_seconds ≡ none)
evaluate_from_stuck_example =
    evaluate_from_stuck lower default_config one_success_event 1_000_000_000 (kinds.2, tt)

evaluated :
    (s : CircuitBreakerStateSnapshot) × (evaluate_from lower default_config closed two_failures 30
      ≡ some s)
evaluated =
    let (s, found, allowed) = evaluate_from_allows lower default_config two_failures 30 known few in
    (s, found)

evaluate_from-IsConsistent_example : IsConsistent default_config evaluated.0
evaluate_from-IsConsistent_example =
    evaluate_from-IsConsistent lower default_config closed two_failures 30 evaluated.0 (omega arith)
      evaluated.1
