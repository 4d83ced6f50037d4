-- ===== src/TierAdmin/Override.antt =====
-- memory_lab/api/routers/tier_override.py: `tier_override` and `tier_rollback`. The response repeats
-- what the event and the request say and is left out.
use context_brain_memory_lab.Prelude.{
  ℕ, String, Bool, true, false, not, ◌&&◌, Option, none, some, List, [], ◌∷◌, if◌then◌else◌,
}
use Prim.Native.Nat.{zero, suc}
use text.Mathlib.Text.{◌==◌}
use context_brain_memory_lab.Prelude.Str.{◌+++◌}
use context_brain_memory_lab.Prelude.Names.{contains}
use context_brain_memory_lab.Governance.Transition.{validate_transition}
use context_brain_memory_lab.Governance.Events.{Stamp, TierTransitionEvent, EventFields}
use context_brain_memory_lab.TierAdmin.Tables.{
  World, AuthContext, unknown_action, content_not_found, no_event_history, no_prior_tier,
  invalid_event, forbidden_transition, terminal_tier, Outcome, refused, fetch_tier, latest,
  move_tier, committed_or,
}

-- `text[:n]`
unfoldable pub prefix : ℕ → String → String
prefix zero s = String.[]
prefix (suc n) String.[] = String.[]
prefix (suc n) (String.◌∷◌ c s) = String.◌∷◌ c (prefix n s)

pub record OverrideRequest : Type 0 where
  pub override_action : String
  pub override_by : String
  pub override_reason : String

pub record RollbackRequest : Type 0 where
  pub rollback_by : String
  pub rollback_reason : String

-- `_OVERRIDE_TIER_MAP`
abbrev pub override_tier_map : String → Option String
override_tier_map action =
    if action == "force_persist"
    then some "persistent"
    else if action == "force_discard"
    then some "archived"
    else none

-- `f"OVERRIDE-{action.upper()}"` of a known action
abbrev override_rule : String → String
override_rule action =
    if action == "force_persist" then "OVERRIDE-FORCE_PERSIST" else "OVERRIDE-FORCE_DISCARD"

unfoldable pub override_fields :
    AuthContext → String → OverrideRequest → String → String → EventFields
override_fields auth c payload previous_tier new_tier = record {
  content_id = c;
  workspace_id = some auth.workspace_id;
  previous_tier = some previous_tier;
  new_tier = new_tier;
  transition_reason =
      "human_override:"
      +++ payload.override_action
      +++ ":by="
      +++ payload.override_by
      +++ ":reason="
      +++ prefix 200 payload.override_reason;
  transition_rule = override_rule payload.override_action;
  trigger_type = "human_override";
  trigger_source = "admin";
}

unfoldable pub override_to :
    Stamp → AuthContext → String → OverrideRequest → String → World → Outcome
override_to stamp auth c payload new_tier w = elim (fetch_tier c w.contents) [
  | none ↦ refused content_not_found
  | some previous_tier ↦ elim (validate_transition (some previous_tier) new_tier "human_override") [
    | some e ↦ refused (forbidden_transition e)
    | none ↦ committed_or invalid_event (
        move_tier stamp "governance_override:human"
          (override_fields auth c payload previous_tier new_tier) w)
  ]
]

unfoldable pub tier_override : Stamp → AuthContext → String → OverrideRequest → World → Outcome
tier_override stamp auth c payload w = elim (override_tier_map payload.override_action) [
  | none ↦ refused unknown_action
  | some new_tier ↦ override_to stamp auth c payload new_tier w
]

abbrev pub terminal_states : List String
terminal_states = "archived" ∷ "decayed" ∷ "superseded" ∷ []

abbrev is_some : Option String → Bool
is_some none = false
is_some (some t) = true

unfoldable pub is_cleanup_archive_rollback : String → TierTransitionEvent → Bool
is_cleanup_archive_rollback current_tier e =
    current_tier == "archived"
    && e.new_tier == "archived"
    && e.trigger_source == "cleanup"
    && is_some e.previous_tier

unfoldable pub rollback_fields :
    AuthContext → String → RollbackRequest → String → String → TierTransitionEvent → EventFields
rollback_fields auth c payload current_tier prior_tier reverted = record {
  content_id = c;
  workspace_id = some auth.workspace_id;
  previous_tier = some current_tier;
  new_tier = prior_tier;
  transition_reason =
      "rollback:by="
      +++ payload.rollback_by
      +++ ":reason="
      +++ prefix 200 payload.rollback_reason
      +++ ":reverts_event="
      +++ reverted.event_id;
  transition_rule = "ROLLBACK";
  trigger_type = "human_override";
  trigger_source = "admin";
}

unfoldable pub rollback_to :
    Stamp
    → AuthContext
    → String
    → RollbackRequest
    → String
    → TierTransitionEvent
    → String
    → World
    → Outcome
rollback_to stamp auth c payload current_tier e prior_tier w =
    let done = committed_or invalid_event (
      move_tier stamp "governance_override:rollback"
        (rollback_fields auth c payload current_tier prior_tier e) w) in
    if is_cleanup_archive_rollback current_tier e
    then done
    else elim (validate_transition (some current_tier) prior_tier "human_override") [
      | some error ↦ refused (forbidden_transition error)
      | none ↦ done
    ]

unfoldable pub rollback_event :
    Stamp → AuthContext → String → RollbackRequest → String → TierTransitionEvent → World → Outcome
rollback_event stamp auth c payload current_tier e w =
    if contains current_tier terminal_states && not (is_cleanup_archive_rollback current_tier e)
    then refused (terminal_tier current_tier)
    else elim e.previous_tier [
      | none ↦ refused no_prior_tier
      | some prior_tier ↦ rollback_to stamp auth c payload current_tier e prior_tier w
    ]

unfoldable pub tier_rollback : Stamp → AuthContext → String → RollbackRequest → World → Outcome
tier_rollback stamp auth c payload w = elim (fetch_tier c w.contents) [
  | none ↦ refused content_not_found
  | some current_tier ↦ elim (latest c w.events) [
    | none ↦ refused no_event_history
    | some e ↦ rollback_event stamp auth c payload current_tier e w
  ]
]
