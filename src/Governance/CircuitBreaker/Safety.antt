-- ===== src/Governance/CircuitBreaker/Safety.antt =====
-- What a snapshot says, and that fewer failures than the threshold never block a request.
use context_brain_memory_lab.Prelude.{
  ℕ, suc, ◌+◌, ◌-◌, ◌≤◌, ◌<◌, ◌≡◌, refl, sym, String, Bool, true, false, not, Option, none, some,
  List, [], ◌∷◌, arith, leb, ltb, if◌then◌else◌, length, is_empty, select, tally, All,
  length-append, Option-cases, Bool-cases, inl, inr, subst,
}
use context_brain_memory_lab.Governance.CircuitBreaker.{
  dispatch, CircuitState, closed, degraded, opened, half_open, EventType, success, failure, timeout,
  rate_limited, manual_reset, CircuitBreakerEvent, CircuitBreakerConfig, Progress, is_blocking,
  normalize_event_type, on_failure, on_success, note_event, try_half_open, handle_event, run_events,
  snapshot, CircuitBreakerStateSnapshot, evaluate_from, round_six, start_in, sort_events,
}
use context_brain_memory_lab.Governance.CircuitBreaker.Sorting.{tally-sort_events, All-sort_events}

-- `round(t, 6)` is at most half a microsecond away.
round_six_lem : (t : ℕ) → (round_six t ≤ t + 500) × (t ≤ round_six t + 500)
unfolding round_six
round_six_lem t = ground arith

-- A retry time is given only with a refusal, and lies within the open duration, and the cooldown is
-- its rounding; a request that is allowed has neither a retry time nor a cooldown.
pub record IsConsistent (config : CircuitBreakerConfig) (s : CircuitBreakerStateSnapshot)
    : Type 0 where
  pub refusal : s.allow_request_recommendation ≡ not (is_blocking s.state)
  pub waiting :
      (c : ℕ)
      → s.retry_after_seconds ≡ some c
      → (s.allow_request_recommendation ≡ false)
        × (0 < c)
        × (c ≤ config.open_duration_seconds)
        × (s.cooldown_remaining_seconds ≡ round_six c)
        × (s.cooldown_remaining_seconds ≤ c + 500)
        × (c ≤ s.cooldown_remaining_seconds + 500)
  pub passing :
      s.allow_request_recommendation ≡ true
      → (s.retry_after_seconds ≡ none) × (s.cooldown_remaining_seconds ≡ 0)

abbrev half_opened : CircuitState → Bool
half_opened half_open = true
half_opened _ = false

module _ (lower : String → String) (config : CircuitBreakerConfig) where
  snapshot-IsConsistent :
      (now : ℕ) (p : Progress)
      → 0 < config.open_duration_seconds
      → IsConsistent config (snapshot lower config now p)
  unfolding snapshot
  snapshot-IsConsistent now p h = record {
    refusal = refl;
    waiting = λ c e. ground (arith, round_six_lem c);
    passing = λ e. ground arith;
  }

  -- Every snapshot that a circuit with a positive open duration gives is consistent: a retry time
  -- comes only with a refusal, is positive and at most the open duration, and the cooldown is that time
  -- rounded to a whole microsecond, so at most half of one away; a request that is allowed has no retry
  -- time, and its cooldown is 0.
  pub evaluate_from-IsConsistent :
      (state : CircuitState) (events : List CircuitBreakerEvent) (now : ℕ)
      (s : CircuitBreakerStateSnapshot)
      → 0 < config.open_duration_seconds
      → evaluate_from lower config state events now ≡ some s
      → IsConsistent config s
  unfolding evaluate_from
  evaluate_from-IsConsistent state events now s h e =
      elim (Option-cases (
        run_events lower config (sort_events events) now (sort_events events)
          (start_in lower config state))) [
            | inl stuck ↦ ground (arith, stuck, e)
            | inr (p, found) ↦
                subst (IsConsistent config) (ground (arith, found, e))
                  (snapshot-IsConsistent now p h)
          ]

  -- A failure of the circuit, as its kind is read.
  abbrev counts : Option EventType → Bool
  counts (some failure) = true
  counts (some timeout) = true
  counts (some rate_limited) = true
  counts _ = false

  abbrev pub ordinary : Option EventType → Bool
  ordinary none = false
  ordinary (some EventType.unavailable) = false
  ordinary _ = true

  abbrev pub failing : CircuitBreakerEvent → Bool
  failing e = counts (normalize_event_type lower config e.event_type)

  -- Below the threshold, with `left` failures still to come.
  abbrev IsBelow : ℕ → Progress → Type 0
  IsBelow left p =
      (is_blocking p.state ≡ false)
      × (half_opened p.state ≡ false)
      × (length p.recent_failures + left < config.failure_threshold)

  length-select :
      (t : CircuitBreakerEvent → Bool) (es : List CircuitBreakerEvent)
      → length (select t es) ≤ length es
  length-select t [] = omega arith
  length-select t (e ∷ es) = ground (arith, length-select t es)

  note_event-IsBelow :
      (e : CircuitBreakerEvent) (n : ℕ) (p : Progress)
      → IsBelow n p
      → IsBelow n (note_event lower config e p)
  unfolding note_event
  note_event-IsBelow e n p h =
      let shorter =
        length-select (λ f. leb (e.timestamp - f.timestamp) config.window_seconds)
          p.recent_failures in
      (h.0, h.1, omega arith)

  on_failure-IsBelow :
      (e : CircuitBreakerEvent) (left : ℕ) (p : Progress)
      → IsBelow (suc left) p
      → IsBelow left (on_failure lower config e p)
  unfolding on_failure
  on_failure-IsBelow e left p h =
      let longer = length-append p.recent_failures (e ∷ []) in ground arith

  -- The result is there, and is below the threshold.
  abbrev Reaches : ℕ → Option Progress → Type 0
  Reaches left r = (p : Progress) × (r ≡ some p) × IsBelow left p

  on_success-IsBelow :
      (ordered : List CircuitBreakerEvent) (e : CircuitBreakerEvent) (left : ℕ) (p : Progress)
      (st : CircuitState)
      → p.state ≡ st
      → IsBelow left p
      → Reaches left (on_success lower config ordered e p)
  unfolding on_success
  on_success-IsBelow ordered e left p closed q h = (p, ground arith, h)
  on_success-IsBelow ordered e left p degraded q h = (
    if is_empty p.recent_failures then record p { state = closed } else p,
    ground arith,
    ground arith,
  )
  on_success-IsBelow ordered e left p opened q h = ground arith
  on_success-IsBelow ordered e left p half_open q h = ground arith
  on_success-IsBelow ordered e left p CircuitState.unavailable q h = ground arith

  try_half_open_closed :
      (e : CircuitBreakerEvent) (p : Progress)
      → is_blocking p.state ≡ false
      → try_half_open lower config e p ≡ p
  unfolding try_half_open
  try_half_open_closed e p h = ground arith

  failed-IsBelow :
      (e : CircuitBreakerEvent) (left : ℕ) (p : Progress)
      → IsBelow (suc left) p
      → Reaches left (some (on_failure lower config e (try_half_open lower config e p)))
  failed-IsBelow e left p h =
      subst (λ q. Reaches left (some (on_failure lower config e q)))
        (sym (try_half_open_closed e p h.0)) (_, refl, on_failure-IsBelow e left p h)

  dispatch-IsBelow :
      (ordered : List CircuitBreakerEvent) (e : CircuitBreakerEvent) (kind : EventType) (left : ℕ)
      (p : Progress)
      → ordinary (some kind) ≡ true
      → IsBelow (if counts (some kind) then suc left else left) p
      → Reaches left (dispatch lower config ordered e kind p)
  dispatch-IsBelow ordered e manual_reset left p quiet h = (_, refl, ground arith)
  dispatch-IsBelow ordered e EventType.unavailable left p quiet h = ground arith
  dispatch-IsBelow ordered e success left p quiet h =
      subst (λ q. Reaches left (on_success lower config ordered e q))
        (sym (try_half_open_closed e p h.0)) (on_success-IsBelow ordered e left p p.state refl h)
  dispatch-IsBelow ordered e failure left p quiet h = failed-IsBelow e left p h
  dispatch-IsBelow ordered e timeout left p quiet h = failed-IsBelow e left p h
  dispatch-IsBelow ordered e rate_limited left p quiet h = failed-IsBelow e left p h

  handle_event-IsBelow :
      (ordered : List CircuitBreakerEvent) (e : CircuitBreakerEvent) (left : ℕ) (p : Progress)
      → ordinary (normalize_event_type lower config e.event_type) ≡ true
      → IsBelow (if failing e then suc left else left) p
      → Reaches left (handle_event lower config ordered e p)
  unfolding handle_event
  handle_event-IsBelow ordered e left p quiet h =
      elim (Option-cases (normalize_event_type lower config e.event_type)) [
        | inl stuck ↦ ground (arith, stuck, quiet)
        | inr (kind, found) ↦
            rw (found, handle_event)
              (dispatch-IsBelow ordered e kind left (note_event lower config e p)
                (subst (λ k. ordinary k ≡ true) found quiet)
                (note_event-IsBelow e _ p
                  (subst (λ k. IsBelow (if counts k then suc left else left) p) found h)))
      ]

  run_events-IsBelow :
      (ordered : List CircuitBreakerEvent) (now : ℕ) (es : List CircuitBreakerEvent) (p : Progress)
      → All (λ e. ordinary (normalize_event_type lower config e.event_type) ≡ true) es
      → IsBelow (tally failing es) p
      → Reaches 0 (run_events lower config ordered now es p)
  unfolding run_events
  run_events-IsBelow ordered now [] p known h = (p, refl, h)
  run_events-IsBelow ordered now (e ∷ es) p known h = elim (Bool-cases (ltb now e.timestamp)) [
    | inl later ↦ rw later (run_events-IsBelow ordered now es p known.1 (ground arith))
    | inr due ↦
        let (p', found, below) = handle_event-IsBelow ordered e (tally failing es) p known.0 h in
        rw (due, found) (run_events-IsBelow ordered now es p' known.1 below)
  ]

  -- Of a closed circuit, when every event is of a known kind and none says that the service is
  -- unavailable, and the failing ones are fewer than the threshold: there is a snapshot, and it
  -- allows the request.
  pub evaluate_from_allows :
      (events : List CircuitBreakerEvent) (now : ℕ)
      → All (λ e. ordinary (normalize_event_type lower config e.event_type) ≡ true) events
      → tally failing events < config.failure_threshold
      → (s : CircuitBreakerStateSnapshot) × (evaluate_from lower config closed events now ≡ some s)
        × (s.allow_request_recommendation ≡ true)
  unfolding evaluate_from snapshot
  evaluate_from_allows events now known few =
      let ordered = sort_events events in
      let (p, found, below) =
        run_events-IsBelow ordered now ordered (start_in lower config closed)
          (All-sort_events _ events known)
          (refl, refl, (let same = tally-sort_events failing events in omega arith)) in
      rw (found, evaluate_from) (snapshot lower config now p, refl, ground arith)
