-- ===== src/Governance/CircuitBreaker.antt =====
-- memory_lab/governance/circuit_breaker.py. Times are whole nanoseconds from 0 on, with exact sums and
-- differences: the rounding of the cooldown to six digits is `round_six`, and what floats lose in a
-- difference is not modelled. `-` stops at 0, which every test here allows, as it compares a difference
-- with a bound that is not negative. `lower` is Python's `str.lower`. A raised ValueError is `none`.
pub mod Sorting
pub mod Safety
pub mod Recovery
use context_brain_memory_lab.Prelude.{
  ℕ, zero, suc, ◌+◌, ◌-◌, ◌*◌, ◌/◌, ◌≡◌, refl, String, Bool, true, false, not, ◌&&◌, ◌||◌, Option,
  none, some, List, [], ◌∷◌, ◌++◌, map, ltb, leb, if◌then◌else◌, length, is_empty, select,
}
use text.Mathlib.Text.{◌==◌ as str_eqb}
use context_brain_memory_lab.Prelude.Str.{truthy, ◌+++◌}
use context_brain_memory_lab.Prelude.Names.{dedupe}

pub data CircuitState : Type 0 where
  closed degraded opened half_open unavailable : CircuitState

pub data EventType : Type 0 where
  success failure timeout rate_limited unavailable manual_reset : EventType

pub record CircuitBreakerEvent : Type 0 where
  pub event_type : String
  pub timestamp : ℕ
  pub reason : String

pub record CircuitBreakerConfig : Type 0 where
  pub failure_threshold : ℕ
  pub degraded_threshold : ℕ
  pub window_seconds : ℕ
  pub open_duration_seconds : ℕ
  pub half_open_successes_to_close : ℕ

abbrev pub default_config : CircuitBreakerConfig
default_config = record {
  failure_threshold = 3;
  degraded_threshold = 2;
  window_seconds = 60_000_000_000;
  open_duration_seconds = 300_000_000_000;
  half_open_successes_to_close = 1;
}

unfoldable pub validate_config : CircuitBreakerConfig → Bool
validate_config c =
    not (ltb c.failure_threshold 1 || ltb c.degraded_threshold 1)
    && not (leb c.window_seconds 0 || leb c.open_duration_seconds 0)

-- `round(t, 6)` of seconds: to a whole microsecond, and from the middle to the even one.
unfoldable pub round_six : ℕ → ℕ
round_six t =
    let whole = t / 1000 in
    let rest = t - whole * 1000 in
    let even = leb (whole - whole / 2 * 2) 0 in
    if ltb rest 500 || (leb rest 500 && even) then whole * 1000 else (whole + 1) * 1000

pub record CircuitBreakerStateSnapshot : Type 0 where
  pub state : CircuitState
  pub allow_request_recommendation : Bool
  pub retry_after_seconds : Option ℕ
  pub cooldown_remaining_seconds : ℕ
  pub failure_reason_summary : String

-- The variables of the loop.
pub record Progress : Type 0 where
  pub state : CircuitState
  pub opened_at : Option ℕ
  pub half_open_started_at : Option ℕ
  pub recent_failures : List CircuitBreakerEvent
  pub reasons : List String

unfoldable pub read_state : String → Option CircuitState
read_state s =
    if str_eqb s "closed"
    then some closed
    else if str_eqb s "degraded"
    then some degraded
    else if str_eqb s "open"
    then some opened
    else if str_eqb s "half_open"
    then some half_open
    else if str_eqb s "unavailable"
    then some CircuitState.unavailable
    else none

unfoldable pub read_event_type : String → Option EventType
read_event_type s =
    if str_eqb s "success"
    then some success
    else if str_eqb s "failure"
    then some failure
    else if str_eqb s "timeout"
    then some timeout
    else if str_eqb s "rate_limited"
    then some rate_limited
    else if str_eqb s "unavailable"
    then some EventType.unavailable
    else if str_eqb s "manual_reset"
    then some manual_reset
    else none

-- `sorted(events, key=lambda event: event.timestamp)`
unfoldable pub insert_event :
    CircuitBreakerEvent → List CircuitBreakerEvent → List CircuitBreakerEvent
insert_event e [] = e ∷ []
insert_event e (f ∷ fs) = if leb e.timestamp f.timestamp then e ∷ f ∷ fs else f ∷ insert_event e fs

unfoldable pub sort_events : List CircuitBreakerEvent → List CircuitBreakerEvent
sort_events [] = []
sort_events (e ∷ es) = insert_event e (sort_events es)

abbrev is_failure : EventType → Bool
is_failure failure = true
is_failure timeout = true
is_failure rate_limited = true
is_failure _ = false

-- `max(0.0, now - t) >= open_duration_seconds`, of an `opened_at` that is set
abbrev pub expired : ℕ → ℕ → Option ℕ → Bool
expired duration now none = false
expired duration now (some t) = leb duration (now - t)

abbrev is_set : Option ℕ → Bool
is_set none = false
is_set (some t) = true

-- `start or default`: 0.0 is false.
abbrev or_time : Option ℕ → ℕ → ℕ
or_time none t = t
or_time (some zero) t = t
or_time (some (suc s)) t = suc s

abbrev pub is_opened : CircuitState → Bool
is_opened opened = true
is_opened _ = false

abbrev pub is_blocking : CircuitState → Bool
is_blocking opened = true
is_blocking CircuitState.unavailable = true
is_blocking _ = false

unfoldable pub join_reasons : List String → String
join_reasons [] = "none supplied"
join_reasons (r ∷ []) = r
join_reasons (r ∷ s ∷ rs) = r +++ "; " +++ join_reasons (s ∷ rs)

module _ (lower : String → String) (config : CircuitBreakerConfig) where
  unfoldable pub normalize_event_type : String → Option EventType
  unfolding read_event_type
  normalize_event_type s = read_event_type (lower s)

  unfoldable pub normalize_state : String → Option CircuitState
  unfolding read_state
  normalize_state s = read_state (lower (if truthy s then s else "closed"))

  abbrev one_success : EventType → ℕ → ℕ
  one_success success n = suc n
  one_success _ n = n

  -- `_successes_since`
  unfoldable pub successes_since : List CircuitBreakerEvent → ℕ → ℕ → Option ℕ
  successes_since [] start end = some 0
  successes_since (e ∷ es) start end =
      let rest = successes_since es start end in
      if leb start e.timestamp && leb e.timestamp end
      then elim (normalize_event_type e.event_type) [
        | none ↦ none
        | some kind ↦ elim rest [ none ↦ none | some n ↦ some (one_success kind n) ]
      ]
      else rest

  -- The failure branch, behind the append to `recent_failures`.
  unfoldable pub on_failure : CircuitBreakerEvent → Progress → Progress
  on_failure e p =
      let p' = record p { recent_failures = p.recent_failures ++ e ∷ [] } in
      let reopened = record p' { state = opened; opened_at = some e.timestamp } in
      elim p.state [
        | half_open ↦ reopened
        | closed ↦
            if leb config.failure_threshold (length p'.recent_failures)
            then reopened
            else if leb config.degraded_threshold (length p'.recent_failures)
            then record p' { state = degraded }
            else p'
        | _ ↦ if leb config.failure_threshold (length p'.recent_failures) then reopened else p'
      ]

  abbrev pub close_after : Progress → Option ℕ → Option Progress
  close_after p none = none
  close_after p (some n) = some (
      if leb config.half_open_successes_to_close n
      then record p { state = closed; opened_at = none; recent_failures = [] }
      else p)

  unfoldable pub on_success :
      List CircuitBreakerEvent → CircuitBreakerEvent → Progress → Option Progress
  on_success ordered e p = elim p.state [
    | half_open ↦
        close_after p
          (successes_since ordered (or_time p.half_open_started_at e.timestamp) e.timestamp)
    | degraded ↦ some (if is_empty p.recent_failures then record p { state = closed } else p)
    | _ ↦ some p
  ]

  -- What every event does first: it records its reason and drops the failures behind the window.
  unfoldable pub note_event : CircuitBreakerEvent → Progress → Progress
  note_event e p = record p {
    reasons = if truthy e.reason then p.reasons ++ e.reason ∷ [] else p.reasons;
    recent_failures =
        select (λ f. leb (e.timestamp - f.timestamp) config.window_seconds) p.recent_failures;
  }

  -- An open circuit goes half open when its time is over.
  unfoldable pub try_half_open : CircuitBreakerEvent → Progress → Progress
  try_half_open e p =
      if is_opened p.state && expired config.open_duration_seconds e.timestamp p.opened_at
      then record p { state = half_open; half_open_started_at = some e.timestamp }
      else p

  abbrev pub dispatch :
      List CircuitBreakerEvent → CircuitBreakerEvent → EventType → Progress → Option Progress
  dispatch ordered e manual_reset p = some (record p {
    state = closed;
    opened_at = none;
    half_open_started_at = none;
    recent_failures = [];
  })
  dispatch ordered e EventType.unavailable p = some (record (try_half_open e p) {
    state = CircuitState.unavailable;
    opened_at = some e.timestamp;
  })
  dispatch ordered e success p = on_success ordered e (try_half_open e p)
  dispatch ordered e _ p = some (on_failure e (try_half_open e p))

  unfoldable pub handle_event :
      List CircuitBreakerEvent → CircuitBreakerEvent → Progress → Option Progress
  handle_event ordered e p = elim (normalize_event_type e.event_type) [
    | none ↦ none
    | some kind ↦ dispatch ordered e kind (note_event e p)
  ]

  -- The `for` loop over the events that are left.
  unfoldable pub run_events :
      List CircuitBreakerEvent → ℕ → List CircuitBreakerEvent → Progress → Option Progress
  run_events ordered now [] p = some p
  run_events ordered now (e ∷ es) p =
      let skip = run_events ordered now es p in
      if ltb now e.timestamp
      then skip
      else elim (handle_event ordered e p) [ none ↦ none | some p' ↦ run_events ordered now es p' ]

  abbrev settled : ℕ → Progress → CircuitState
  settled now p =
      if is_blocking p.state && expired config.open_duration_seconds now p.opened_at
      then half_open
      else p.state

  abbrev cooldown : ℕ → Option ℕ → ℕ
  cooldown now none = 0
  cooldown now (some t) = config.open_duration_seconds - (now - t)

  unfoldable pub snapshot : ℕ → Progress → CircuitBreakerStateSnapshot
  snapshot now p =
      let state = settled now p in
      let waits = is_blocking state && is_set p.opened_at in
      record {
        state = state;
        allow_request_recommendation = not (is_blocking state);
        retry_after_seconds = if waits then some (cooldown now p.opened_at) else none;
        cooldown_remaining_seconds = if waits then round_six (cooldown now p.opened_at) else 0;
        failure_reason_summary = join_reasons (dedupe p.reasons);
      }

  abbrev pub start_in : CircuitState → Progress
  start_in state = record {
    state = state;
    opened_at = none;
    half_open_started_at = none;
    recent_failures = [];
    reasons = [];
  }

  unfoldable pub evaluate_from :
      CircuitState → List CircuitBreakerEvent → ℕ → Option CircuitBreakerStateSnapshot
  evaluate_from state events now =
      let ordered = sort_events events in
      elim (run_events ordered now ordered (start_in state)) [
        | none ↦ none
        | some p ↦ some (snapshot now p)
      ]

  -- The construction of the breaker, with its check of the configuration, and its method.
  unfoldable pub evaluate_circuit_state :
      List CircuitBreakerEvent → ℕ → String → Option CircuitBreakerStateSnapshot
  evaluate_circuit_state events now initial_state =
      if validate_config config
      then elim (normalize_state initial_state) [
        | none ↦ none
        | some state ↦ evaluate_from state events now
      ]
      else none
