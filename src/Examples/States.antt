-- ===== src/Examples/States.antt =====
-- The governance states, the workspaces, the events and the tiers.
use context_brain_memory_lab.Prelude.{
  ◌+◌, ◌≤◌, ◌≡◌, refl, ◌⊎◌, ◌↔◌, String, true, Option, none, some, List, [], ◌∷◌, arith, All, any,
}
use context_brain_memory_lab.Prelude.Str.{strip}
use context_brain_memory_lab.Prelude.Text.{is_space}
use context_brain_memory_lab.Governance.State.{
  RecordRef, Provenance, GovernanceState, validate_status, check_transition, validation_pass,
  validation_fail, validate_record_ref, ref_errors, validate_provenance, provenance_errors,
  has_text, validate_status_transition, validate_governance_state,
}
use context_brain_memory_lab.Governance.State.Lifecycle.{stage, here, next, History-bounded}
use context_brain_memory_lab.Governance.State.Validity.{IsWellFormed, validate_governance_state_lem}
use context_brain_memory_lab.Governance.Transition.{validate_transition}
use context_brain_memory_lab.Governance.Transition.Lives.{
  Request, apply, replay, opens_gate, replay_gate, IsSystemTier, replay_system,
}
use context_brain_memory_lab.Governance.Workspace.{
  validate_workspace_boundary, validate_workspace_id, all_boundary_errors, boundary_errors,
  found_workspaces,
}
use context_brain_memory_lab.Governance.Workspace.Boundary.{
  InWorkspace, validate_workspace_boundary_lem,
}
use context_brain_memory_lab.Governance.StateEvents.{
  StateEvent, record_checks, event_checks, type_errors, validate_governance_state_event_contract,
}
use context_brain_memory_lab.Governance.StateEvents.Contract.{
  IsAddressed, validate_governance_state_event_contract-IsAddressed,
}
use context_brain_memory_lab.Prelude.{◌<◌, false}
use context_brain_memory_lab.Governance.TierRoutingPlan.{
  TierRoutingPlanInput, TierRoutingPlan, thresholds, is_stopped, is_weakened, circuit_of,
  plan_tier_route,
}
use context_brain_memory_lab.Governance.TierRoutingPlan.Guards.{plan_tier_route_guards}

abbrev two_requests : List Request
two_requests =
    record { new_tier = "persistent"; trigger_type = "human_override" }
    ∷ record { new_tier = "decision_artifact"; trigger_type = "human_override" }
    ∷ []

gate_reached : replay (some "probationary") two_requests ≡ some "decision_artifact"
unfolding replay apply validate_transition
gate_reached = refl

replay_gate_example :
    (◌≡◌ {A = Option String} (some "probationary") (some "decision_artifact"))
    ⊎ (any opens_gate two_requests ≡ true)
replay_gate_example = replay_gate (some "probationary") two_requests gate_reached

abbrev system_requests : List Request
system_requests =
    record { new_tier = "persistent"; trigger_type = "auto_classify" }
    ∷ record { new_tier = "decision_artifact"; trigger_type = "auto_classify" }
    ∷ []

replay_system_example : IsSystemTier (replay (some "transient") system_requests)
replay_system_example = replay_system (some "transient") system_requests refl (refl, (refl, tt))

accepted_archive : (validate_status_transition (some "active") "archived").valid ≡ true
unfolding validate_status_transition validate_status check_transition validation_pass strip is_space
accepted_archive = refl

active_stage : 1 ≤ stage (strip "active")
unfolding strip is_space
active_stage = omega arith

History-bounded_example : (1 + stage (strip "active") ≤ stage (strip "archived")) × (1 ≤ 2)
History-bounded_example =
    History-bounded "active" active_stage (next "archived" here accepted_archive)

abbrev pub ref : RecordRef
ref = record {
  record_id = "r1";
  record_type = "note";
  workspace_id = " w1 ";
  content_id = none;
  source_ref = none;
}

abbrev pub provenance : Provenance
provenance = record {
  source_type = "import";
  source_id = "s1";
  source_label = "label";
  created_by = "someone";
  trace_id = "t1";
  created_at = "2026-01-01";
}

abbrev pub state : GovernanceState
state = record {
  record_ref = ref;
  status = "active";
  tier = "persistent";
  provenance = provenance;
  supersedes = none;
  superseded_by = none;
  state_reason = none;
}

validate_governance_state_lem_example :
    ((validate_governance_state state).valid ≡ true) ↔ IsWellFormed state
validate_governance_state_lem_example = validate_governance_state_lem state

validate_workspace_boundary_lem_example :
    ((validate_workspace_boundary (some " w1" ∷ some "w2" ∷ []) (some "w1")).valid ≡ true)
    ↔ ((has_text "w1" ≡ true) × All (InWorkspace "w1") (some " w1" ∷ some "w2" ∷ []))
validate_workspace_boundary_lem_example =
    validate_workspace_boundary_lem (some " w1" ∷ some "w2" ∷ []) "w1"

abbrev pub event : StateEvent
event = record {
  event_type = "b25_data_only_governance_state_event_v1";
  workspace_id = "w1";
  record_ref = ref;
  provenance = provenance;
  previous_status = none;
  next_status = none;
  previous_tier = none;
  next_tier = none;
  event_reason = none;
}

-- The validators of the event compute.
pub event_valid : (validate_governance_state_event_contract event).valid ≡ true
unfolding validate_governance_state_event_contract record_checks event_checks type_errors
    validate_record_ref ref_errors validate_provenance provenance_errors validate_workspace_boundary
    validate_workspace_id all_boundary_errors boundary_errors found_workspaces validation_pass
    validation_fail strip is_space
event_valid = refl

validate_governance_state_event_contract-IsAddressed_example : IsAddressed event
validate_governance_state_event_contract-IsAddressed_example =
    validate_governance_state_event_contract-IsAddressed event event_valid

abbrev plan_input : TierRoutingPlanInput
plan_input = record {
  score = record { composite = 800_000; risk = 100_000; confidence = 900_000 };
  circuit_state = "closed";
  policy_config = [];
  safety_flags = [];
}

plan_tier_route_guards_example :
    (p : TierRoutingPlan) × (plan_tier_route (λ s. s) plan_input ≡ some p)
    × (p.should_persist ≡ true
        → (plan_input.safety_flags ≡ [])
          × (is_stopped (circuit_of (λ s. s) plan_input) ≡ false)
          × (is_weakened (circuit_of (λ s. s) plan_input) ≡ false)
          × (100_000 < (thresholds []).high_risk)
          × ((thresholds []).min_confidence ≤ 900_000)
          × ((thresholds []).discard_max < 800_000)
          × ((thresholds []).transient_max < 800_000))
plan_tier_route_guards_example = plan_tier_route_guards (λ s. s) plan_input
