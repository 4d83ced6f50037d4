-- ===== src/Governance/Events.antt =====
-- memory_lab/governance/events.py. No caller that is modelled gives `scores` or `lineage_ref`, so they
-- are left out. The uuid and the clock are given by a `Stamp`; a raised ValueError is `none`, without
-- its text.
use context_brain_memory_lab.Prelude.{
  String, Bool, ◌&&◌, ◌||◌, Option, none, some, List, [], ◌∷◌, if◌then◌else◌,
}
use text.Mathlib.Text.{◌==◌}
use context_brain_memory_lab.Prelude.Str.{truthy}
use context_brain_memory_lab.Prelude.Names.{contains}

-- What the environment draws for one event.
pub record Stamp : Type 0 where
  pub event_id : String
  pub trace_id : String
  pub timestamp : String

pub record TierTransitionEvent : Type 0 where
  pub event_id : String
  pub event_type : String
  pub content_id : String
  pub workspace_id : Option String
  pub previous_tier : Option String
  pub new_tier : String
  pub transition_reason : String
  pub transition_rule : String
  pub trigger_type : String
  pub trigger_source : String
  pub trace_id : String
  pub timestamp : String

abbrev pub governance_event_type : String
governance_event_type = "tier_transition_v1"

abbrev pub trigger_types : List String
trigger_types = "system" ∷ "human_override" ∷ "policy_engine" ∷ []

abbrev pub trigger_sources : List String
trigger_sources = "save" ∷ "classify" ∷ "cleanup" ∷ "admin" ∷ "mcp" ∷ []

-- No error is collected.
unfoldable pub validate_event : TierTransitionEvent → Bool
validate_event e =
    e.event_type == governance_event_type
    && truthy e.event_id
    && (truthy e.content_id || e.new_tier == "discard")
    && truthy e.new_tier
    && truthy e.transition_reason
    && truthy e.transition_rule
    && contains e.trigger_type trigger_types
    && contains e.trigger_source trigger_sources
    && truthy e.trace_id
    && truthy e.timestamp

-- The arguments of `build_event` beside what the stamp gives.
pub record EventFields : Type 0 where
  pub content_id : String
  pub workspace_id : Option String
  pub previous_tier : Option String
  pub new_tier : String
  pub transition_reason : String
  pub transition_rule : String
  pub trigger_type : String
  pub trigger_source : String

unfoldable pub event_of : Stamp → EventFields → TierTransitionEvent
event_of stamp f = record {
  event_id = stamp.event_id;
  event_type = governance_event_type;
  content_id = f.content_id;
  workspace_id = f.workspace_id;
  previous_tier = f.previous_tier;
  new_tier = f.new_tier;
  transition_reason = f.transition_reason;
  transition_rule = f.transition_rule;
  trigger_type = f.trigger_type;
  trigger_source = f.trigger_source;
  trace_id = stamp.trace_id;
  timestamp = stamp.timestamp;
}

unfoldable pub build_event : Stamp → EventFields → Option TierTransitionEvent
build_event stamp f = if validate_event (event_of stamp f) then some (event_of stamp f) else none

-- The INSERT-only writer: the log holds the latest event first.
unfoldable pub emit_event :
    TierTransitionEvent → List TierTransitionEvent → Option (List TierTransitionEvent)
emit_event e events = if validate_event e then some (e ∷ events) else none
