-- ===== src/Governance/StateEvents/Contract.antt =====
-- What an accepted event says.
use context_brain_memory_lab.Prelude.{
  ◌≡◌, true, some, [], ◌∷◌, ◌++◌, is_empty, Bool-cases, inl, inr, arith,
}
use text.Mathlib.Text.{◌==◌}
use text.Mathlib.TextEquality.{eq_iff}
use context_brain_memory_lab.Prelude.Str.{strip}
use context_brain_memory_lab.Governance.State.{
  has_text, validation_fail, all_errors, validate_record_ref, validate_provenance,
}
use context_brain_memory_lab.Governance.State.Validity.{
  is_empty-append, ref_valid, validate_record_ref-IsCoherent,
}
use context_brain_memory_lab.Governance.Workspace.{validate_workspace_boundary}
use context_brain_memory_lab.Governance.Workspace.Boundary.{
  validate_workspace_boundary-IsCoherent, validate_workspace_boundary_lem,
}
use context_brain_memory_lab.Governance.StateEvents.{
  StateEvent, state_event_type, event_checks, record_checks, type_errors,
  validate_governance_state_event_contract,
}

-- An event that names its record, and the record's own workspace.
pub record IsAddressed (e : StateEvent) : Type 0 where
  pub event_type : e.event_type ≡ state_event_type
  pub record_id : has_text e.record_ref.record_id ≡ true
  pub workspace_id : has_text e.workspace_id ≡ true
  pub same_workspace : strip e.record_ref.workspace_id ≡ strip e.workspace_id

no_errors :
    (e : StateEvent)
    → (validate_governance_state_event_contract e).valid ≡ true
    → (is_empty (validate_record_ref e.record_ref).errors ≡ true)
      × (is_empty
            (validate_workspace_boundary
              (some e.record_ref.workspace_id ∷ [])
              (some e.workspace_id)).errors
          ≡ true)
      × (is_empty (type_errors e) ≡ true)
unfolding validate_governance_state_event_contract validation_fail record_checks
no_errors e h =
    let boundary =
      (validate_workspace_boundary (some e.record_ref.workspace_id ∷ [])
        (some e.workspace_id)).errors in
    let clean : is_empty
          (all_errors (record_checks e) ++ (type_errors e ++ all_errors (event_checks e)))
        ≡ true =
      ground arith in
    let outer =
      is_empty-append (all_errors (record_checks e))
        (type_errors e ++ all_errors (event_checks e)) in
    let types = is_empty-append (type_errors e) (all_errors (event_checks e)) in
    let refs =
      is_empty-append (validate_record_ref e.record_ref).errors
        ((validate_provenance e.provenance).errors ++ (boundary ++ [])) in
    let inner = is_empty-append (validate_provenance e.provenance).errors (boundary ++ []) in
    let last = is_empty-append boundary [] in (ground arith, ground arith, ground arith)

is_state_event :
    (e : StateEvent) → is_empty (type_errors e) ≡ true → e.event_type ≡ state_event_type
unfolding type_errors
is_state_event e h = elim (Bool-cases (e.event_type == state_event_type)) [
  | inl same ↦ (eq_iff e.event_type state_event_type).0 same
  | inr other ↦ ground arith
]

-- An accepted event lies inside its workspace.
pub validate_governance_state_event_contract-boundary :
    (e : StateEvent)
    → (validate_governance_state_event_contract e).valid ≡ true
    → (validate_workspace_boundary
        (some e.record_ref.workspace_id ∷ [])
        (some e.workspace_id)).valid
      ≡ true
validate_governance_state_event_contract-boundary e h =
    let clean = no_errors e h in
    let same =
      validate_workspace_boundary-IsCoherent (some e.record_ref.workspace_id ∷ []) e.workspace_id in
    ground arith

-- An event that is accepted has the event type of the module, names its record, and carries the
-- record's own workspace.
pub validate_governance_state_event_contract-IsAddressed :
    (e : StateEvent) → (validate_governance_state_event_contract e).valid ≡ true → IsAddressed e
validate_governance_state_event_contract-IsAddressed e h =
    let clean = no_errors e h in
    let ref_ok = validate_record_ref-IsCoherent e.record_ref in
    let boundary_ok =
      validate_workspace_boundary-IsCoherent (some e.record_ref.workspace_id ∷ []) e.workspace_id in
    let ref : (validate_record_ref e.record_ref).valid ≡ true = ground arith in
    let boundary : (validate_workspace_boundary (some e.record_ref.workspace_id ∷ [])
          (some e.workspace_id)).valid
        ≡ true =
      ground arith in
    let named = (ref_valid e.record_ref).0 ref in
    let inside = (validate_workspace_boundary_lem _ e.workspace_id).0 boundary in
    record {
      event_type = is_state_event e clean.2;
      record_id = named.0;
      workspace_id = inside.0;
      same_workspace = inside.1.0.1;
    }
