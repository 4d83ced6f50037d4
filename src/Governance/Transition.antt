-- ===== src/Governance/Transition.antt =====
-- memory_lab/governance/transition_matrix.py. The reason text of the exception is given by the rule
-- that refused and by what the text quotes.
pub mod Lives
use context_brain_memory_lab.Prelude.{
  ℕ, String, Bool, true, false, not, ◌&&◌, Option, none, some, List, [], ◌∷◌, if◌then◌else◌, ltb,
}
use text.Mathlib.Text.{◌==◌ as str_eqb}
use context_brain_memory_lab.Prelude.Names.{contains}

pub data Rule : Type 0 where
  human_gate : (new_tier trigger_type : String) → Rule
  terminal : (previous_tier : String) → Rule
  discarded : Rule
  not_allowed : (previous_tier : Option String) (allowed : List String) → Rule

pub record GovernanceTransitionError : Type 0 where
  pub previous_tier : Option String
  pub new_tier : String
  pub reason : Rule

-- `TIER_ORDER.get(tier, -1)`, raised by one.
abbrev pub tier_order : String → ℕ
tier_order t =
    if str_eqb t "transient"
    then 1
    else if str_eqb t "probationary"
    then 2
    else if str_eqb t "persistent"
    then 3
    else if str_eqb t "decision_artifact"
    then 4
    else 0

abbrev pub terminal_tiers : List String
terminal_tiers = "archived" ∷ "decayed" ∷ "superseded" ∷ []

abbrev pub human_gate_tiers : List String
human_gate_tiers = "decision_artifact" ∷ []

-- `_ALLOWED_SYSTEM.get(previous_tier, set())`
abbrev pub allowed_system : Option String → List String
allowed_system none = "discard" ∷ "transient" ∷ "probationary" ∷ "persistent" ∷ []
allowed_system (some t) =
    if str_eqb t "transient"
    then "probationary" ∷ "persistent" ∷ "decayed" ∷ "archived" ∷ "conflicted" ∷ []
    else if str_eqb t "probationary"
    then "persistent" ∷ "decayed" ∷ "archived" ∷ "conflicted" ∷ []
    else if str_eqb t "persistent"
    then "decayed" ∷ "archived" ∷ "conflicted" ∷ "superseded" ∷ []
    else if str_eqb t "conflicted"
    then "persistent" ∷ "transient" ∷ "archived" ∷ []
    else []

abbrev pub is_in : Option String → List String → Bool
is_in none names = false
is_in (some t) names = contains t names

abbrev quoted : Option String → String
quoted none = "None"
quoted (some t) = t

-- The exception that is raised, or `none` where the transition is allowed.
unfoldable pub validate_transition :
    Option String → String → String → Option GovernanceTransitionError
validate_transition previous_tier new_tier trigger_type =
    let refuse : Rule → Option GovernanceTransitionError =
      λ rule. some (record { previous_tier = previous_tier; new_tier = new_tier; reason = rule }) in
    if contains new_tier human_gate_tiers && not (str_eqb trigger_type "human_override")
    then refuse (human_gate new_tier trigger_type)
    else if is_in previous_tier terminal_tiers
    then refuse (terminal (quoted previous_tier))
    else if is_in previous_tier ("discard" ∷ [])
    then refuse discarded
    else if str_eqb trigger_type "human_override"
    then none
    else if contains new_tier (allowed_system previous_tier)
    then none
    else refuse (not_allowed previous_tier (allowed_system previous_tier))

unfoldable pub is_upshift : Option String → String → Bool
is_upshift none new_tier = false
is_upshift (some previous_tier) new_tier = ltb (tier_order previous_tier) (tier_order new_tier)
