-- ===== src/Governance/State/Lifecycle.antt =====
-- The life cycle that `validate_status_transition` allows: drafts come and go, and from `active` on
-- every transition moves forward.
use context_brain_memory_lab.Prelude.{
  ℕ, zero, suc, ◌+◌, ◌≤◌, ◌<◌, String, ◌≡◌, true, Option, some, [], ◌∷◌, if◌then◌else◌, arith, ◌⊎◌,
  All,
}
use context_brain_memory_lab.Prelude.Str.{strip}
use context_brain_memory_lab.Prelude.Names.{contains, All-contains}
use context_brain_memory_lab.Governance.State.{
  governance_statuses, status_transitions, validate_status, check_transition,
  validate_status_transition, validation_pass, validation_fail, stripped,
}

-- How far a status is in its life: drafts 0, active 1, rejected and superseded 2, archived 3.
abbrev pub stage : String → ℕ
stage s =
    if contains s ("active" ∷ [])
    then 1
    else if contains s ("rejected" ∷ "superseded" ∷ [])
    then 2
    else if contains s ("archived" ∷ [])
    then 3
    else 0

-- What an accepted transition does to the stage.
abbrev Forward : String → String → Type 0
Forward p n = (stage p < stage n) ⊎ (stage p ≡ 0) × (stage n ≡ 0)

table_Forward : All (λ p. All (Forward p) (status_transitions (some p))) governance_statuses
table_Forward = omega arith

known_status :
    (s : String)
    → (validate_status (some s)).valid ≡ true
    → contains (strip s) governance_statuses ≡ true
unfolding validate_status validation_fail validation_pass
known_status s h = ground arith

known_next :
    (previous : Option String) (next : String)
    → (validate_status_transition previous next).valid ≡ true
    → ((validate_status (some next)).valid ≡ true)
      × (contains (strip next) (status_transitions (stripped previous)) ≡ true)
unfolding validate_status_transition check_transition validation_pass validation_fail
known_next previous next h = ground arith

known_previous :
    (p next : String)
    → (validate_status_transition (some p) next).valid ≡ true
    → (validate_status (some p)).valid ≡ true
unfolding validate_status_transition
known_previous p next h = ground arith

-- An accepted transition between two statuses (white space around them aside) either moves to a
-- later stage or is one between drafts.
pub transition-Forward :
    (previous next : String)
    → (validate_status_transition (some previous) next).valid ≡ true
    → Forward (strip previous) (strip next)
transition-Forward previous next h =
    All-contains (Forward (strip previous)) (strip next)
      (status_transitions (some (strip previous)))
      (All-contains (λ p. All (Forward p) (status_transitions (some p))) (strip previous)
        governance_statuses table_Forward (known_status previous (known_previous previous next h)))
      (known_next (some previous) next h).1

-- A history of accepted transitions from one status to another, with its length.
pub data History (start : String) : String → ℕ → Type 0 where
  here : History start start zero
  next :
      {s : String} {n : ℕ} (t : String)
      → History start s n
      → (validate_status_transition (some s) t).valid ≡ true
      → History start t (suc n)

stage_le : (s : String) → stage s ≤ 3
stage_le s = ground arith

-- From `active` on, a record's history moves on to a later stage with every transition: it is at
-- most two transitions long and never comes back to a draft.
pub History-bounded :
    (start : String) {final : String} {n : ℕ}
    → 1 ≤ stage (strip start)
    → History start final n
    → (n + stage (strip start) ≤ stage (strip final)) × (n ≤ 2)
History-bounded start h here = omega arith
History-bounded start h (next {s} {n} t past accepted) =
    let ih = History-bounded start h past in
    let step = transition-Forward s t accepted in omega (arith, ih, step, stage_le (strip t))
