-- ===== src/Governance/StateEvents.antt =====
-- memory_lab/governance/state_events.py: the contract of an event. Its constant fields are left out,
-- as in the states.
pub mod Contract
use context_brain_memory_lab.Prelude.{
  String, Bool, Option, none, some, List, [], ◌∷◌, ◌++◌, map, is_empty, if◌then◌else◌,
}
use text.Mathlib.Text.{◌==◌}
use context_brain_memory_lab.Prelude.Str.{◌+++◌}
use context_brain_memory_lab.Prelude.Names.{dedupe}
use context_brain_memory_lab.Governance.State.{
  ValidationResult, RecordRef, Provenance, validation_pass, validation_fail, validate_status,
  validate_tier, validate_record_ref, validate_provenance, all_errors, all_warnings, all_rules,
}
use context_brain_memory_lab.Governance.Workspace.{validate_workspace_boundary}

abbrev pub state_event_type : String
state_event_type = "b25_data_only_governance_state_event_v1"

pub record StateEvent : Type 0 where
  pub event_type : String
  pub workspace_id : String
  pub record_ref : RecordRef
  pub provenance : Provenance
  pub previous_status : Option String
  pub next_status : Option String
  pub previous_tier : Option String
  pub next_tier : Option String
  pub event_reason : Option String

unfoldable pub build_governance_state_event_contract :
    RecordRef
    → Provenance
    → Option String
    → Option String
    → Option String
    → Option String
    → Option String
    → StateEvent
build_governance_state_event_contract ref provenance previous_status next_status previous_tier
      next_tier reason =
    record {
      event_type = state_event_type;
      workspace_id = ref.workspace_id;
      record_ref = ref;
      provenance = provenance;
      previous_status = previous_status;
      next_status = next_status;
      previous_tier = previous_tier;
      next_tier = next_tier;
      event_reason = reason;
    }

-- A result with the label put before each error.
abbrev pub labelled : String → ValidationResult → ValidationResult
labelled label r = record r { errors = map (λ error. label +++ ": " +++ error) r.errors }

-- The check of a status or a tier that the event gives; nothing for `None`.
abbrev pub check_given :
    String → (Option String → ValidationResult) → Option String → List ValidationResult
check_given label validator none = []
check_given label validator (some value) = labelled label (validator (some value)) ∷ []

unfoldable pub event_checks : StateEvent → List ValidationResult
event_checks e =
    check_given "previous_status" validate_status e.previous_status
    ++ (check_given "next_status" validate_status e.next_status
        ++ (check_given "previous_tier" validate_tier e.previous_tier
            ++ check_given "next_tier" validate_tier e.next_tier))

unfoldable pub record_checks : StateEvent → List ValidationResult
record_checks e =
    validate_record_ref e.record_ref
    ∷ validate_provenance e.provenance
    ∷ validate_workspace_boundary (some e.record_ref.workspace_id ∷ []) (some e.workspace_id)
    ∷ []

unfoldable pub type_errors : StateEvent → List String
type_errors e =
    if e.event_type == state_event_type
    then []
    else ("event_type must be " +++ state_event_type) ∷ []

unfoldable pub validate_governance_state_event_contract : StateEvent → ValidationResult
validate_governance_state_event_contract e =
    let checks = record_checks e ++ event_checks e in
    let errors = all_errors (record_checks e) ++ (type_errors e ++ all_errors (event_checks e)) in
    let rules = dedupe ("B25-STATE-EVENT-DATA-ONLY" ∷ all_rules checks) in
    if is_empty errors
    then validation_pass rules
    else validation_fail (dedupe errors) rules (dedupe (all_warnings checks))
