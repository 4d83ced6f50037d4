-- ===== src/Governance/CircuitBreaker/Recovery.antt =====
-- A circuit that starts open without the time of its opening.
use context_brain_memory_lab.Prelude.{
  ℕ, ◌≡◌, refl, String, false, Option, none, some, List, [], ◌∷◌, arith, ltb, All, Bool-cases, inl,
  inr,
}
use context_brain_memory_lab.Governance.CircuitBreaker.{
  opened, success, CircuitBreakerEvent, CircuitBreakerConfig, Progress, normalize_event_type,
  on_success, note_event, try_half_open, handle_event, run_events, snapshot,
  CircuitBreakerStateSnapshot, evaluate_from, start_in, sort_events,
}
use context_brain_memory_lab.Governance.CircuitBreaker.Sorting.{All-sort_events}

module _ (lower : String → String) (config : CircuitBreakerConfig) where
  abbrev IsStuck : Progress → Type 0
  IsStuck p = (p.state ≡ opened) × (p.opened_at ≡ none)

  abbrev Sticks : Option Progress → Type 0
  Sticks r = (p : Progress) × (r ≡ some p) × IsStuck p

  success-IsStuck :
      (ordered : List CircuitBreakerEvent) (e : CircuitBreakerEvent) (p : Progress)
      → IsStuck p
      → on_success lower config ordered e (try_half_open lower config e p) ≡ some p
  unfolding on_success try_half_open
  success-IsStuck ordered e p h = rw (h.0, h.1) (ground (arith, h.0))

  handle_event-IsStuck :
      (ordered : List CircuitBreakerEvent) (e : CircuitBreakerEvent) (p : Progress)
      → normalize_event_type lower config e.event_type ≡ some success
      → IsStuck p
      → Sticks (handle_event lower config ordered e p)
  unfolding note_event handle_event
  handle_event-IsStuck ordered e p kind h =
      rw (kind, handle_event) (_, success-IsStuck ordered e (note_event lower config e p) h, h)

  run_events-IsStuck :
      (ordered : List CircuitBreakerEvent) (now : ℕ) (es : List CircuitBreakerEvent) (p : Progress)
      → All (λ e. normalize_event_type lower config e.event_type ≡ some success) es
      → IsStuck p
      → Sticks (run_events lower config ordered now es p)
  unfolding run_events
  run_events-IsStuck ordered now [] p known h = (p, refl, h)
  run_events-IsStuck ordered now (e ∷ es) p known h = elim (Bool-cases (ltb now e.timestamp)) [
    | inl later ↦ rw later (run_events-IsStuck ordered now es p known.1 h)
    | inr due ↦
        let (p', found, stuck) = handle_event-IsStuck ordered e p known.0 h in
        rw (due, found) (run_events-IsStuck ordered now es p' known.1 stuck)
  ]

  -- A circuit that starts open, with events that are all successes, is open at every later time:
  -- it refuses the request and gives no time to retry.
  pub evaluate_from_stuck :
      (events : List CircuitBreakerEvent) (now : ℕ)
      → All (λ e. normalize_event_type lower config e.event_type ≡ some success) events
      → (s : CircuitBreakerStateSnapshot) × (evaluate_from lower config opened events now ≡ some s)
        × (s.state ≡ opened)
        × (s.allow_request_recommendation ≡ false)
        × (s.retry_after_seconds ≡ none)
  unfolding snapshot evaluate_from
  evaluate_from_stuck events now known =
      let ordered = sort_events events in
      let (p, found, stuck) =
        run_events-IsStuck ordered now ordered (start_in lower config opened)
          (All-sort_events _ events known) (refl, refl) in
      rw (found, evaluate_from)
        (snapshot lower config now p, refl, ground arith, ground arith, ground arith)
