-- ===== src/Governance/State.antt =====
-- memory_lab/governance/state.py. The constant fields `limitations`, `non_claims` and `mode` of its
-- records always hold the module's constants and are left out.
pub mod Lifecycle
pub mod Validity
use context_brain_memory_lab.Prelude.{
  ℕ, String, ◌≡◌, refl, Bool, true, false, not, Option, none, some, List, [], ◌∷◌, ◌++◌, map,
  is_empty, if◌then◌else◌, select,
}
use context_brain_memory_lab.Prelude.Str.{strip, truthy, ◌+++◌}
use context_brain_memory_lab.Prelude.Names.{contains, dedupe}

abbrev pub governance_statuses : List String
governance_statuses =
    "draft" ∷ "needs_review" ∷ "active" ∷ "archived" ∷ "superseded" ∷ "rejected" ∷ []

abbrev pub governance_tiers : List String
governance_tiers =
    "discard" ∷ "transient" ∷ "probationary" ∷ "persistent" ∷ "decision_artifact" ∷ "archived"
    ∷ "conflicted" ∷ "superseded" ∷ "decayed" ∷ []

-- `STATUS_TRANSITIONS.get(previous, ())`
abbrev pub status_transitions : Option String → List String
status_transitions none = "draft" ∷ "needs_review" ∷ "active" ∷ "rejected" ∷ []
status_transitions (some s) =
    if contains s ("draft" ∷ [])
    then "needs_review" ∷ "active" ∷ "rejected" ∷ "archived" ∷ []
    else if contains s ("needs_review" ∷ [])
    then "draft" ∷ "active" ∷ "rejected" ∷ "archived" ∷ []
    else if contains s ("active" ∷ [])
    then "superseded" ∷ "archived" ∷ "rejected" ∷ []
    else if contains s ("rejected" ∷ [])
    then "archived" ∷ []
    else if contains s ("superseded" ∷ [])
    then "archived" ∷ []
    else []

pub record ValidationResult : Type 0 where
  pub valid : Bool
  pub errors : List String
  pub warnings : List String
  pub rule_ids : List String

pub record RecordRef : Type 0 where
  pub record_id : String
  pub record_type : String
  pub workspace_id : String
  pub content_id : Option String
  pub source_ref : Option String

pub record Provenance : Type 0 where
  pub source_type : String
  pub source_id : String
  pub source_label : String
  pub created_by : String
  pub trace_id : String
  pub created_at : String

pub record GovernanceState : Type 0 where
  pub record_ref : RecordRef
  pub status : String
  pub tier : String
  pub provenance : Provenance
  pub supersedes : Option String
  pub superseded_by : Option String
  pub state_reason : Option String

abbrev pub has_text : String → Bool
has_text s = truthy (strip s)

unfoldable pub clean_tuple : List String → List String
clean_tuple values = select has_text values

unfoldable pub validation_pass : List String → ValidationResult
validation_pass rule_ids = record {
  valid = true;
  errors = [];
  warnings = [];
  rule_ids = clean_tuple rule_ids;
}

unfoldable pub validation_fail : List String → List String → List String → ValidationResult
validation_fail errors rule_ids warnings = record {
  valid = false;
  errors = clean_tuple errors;
  warnings = clean_tuple warnings;
  rule_ids = clean_tuple rule_ids;
}

abbrev text_or_empty : Option String → String
text_or_empty none = ""
text_or_empty (some s) = s

unfoldable pub validate_status : Option String → ValidationResult
validate_status status =
    let normalized = strip (text_or_empty status) in
    if not (has_text (text_or_empty status))
    then validation_fail ("status is required" ∷ []) ("B25-STATUS-REQUIRED" ∷ []) []
    else if not (contains normalized governance_statuses)
    then validation_fail (("invalid governance status: " +++ normalized) ∷ [])
        ("B25-STATUS-ALLOWED" ∷ []) []
    else validation_pass ("B25-STATUS-ALLOWED" ∷ [])

unfoldable pub validate_tier : Option String → ValidationResult
validate_tier tier =
    let normalized = strip (text_or_empty tier) in
    if not (has_text (text_or_empty tier))
    then validation_fail ("tier is required" ∷ []) ("B25-TIER-REQUIRED" ∷ []) []
    else if not (contains normalized governance_tiers)
    then validation_fail (("invalid governance tier: " +++ normalized) ∷ [])
        ("B25-TIER-ALLOWED" ∷ []) []
    else validation_pass ("B25-TIER-ALLOWED" ∷ [])

abbrev pub required : String → String → List String
required value message = if has_text value then [] else message ∷ []

unfoldable pub ref_errors : RecordRef → List String
ref_errors r =
    required r.record_id "record_id is required"
    ++ (required r.record_type "record_type is required"
        ++ required r.workspace_id "workspace_id is required")

unfoldable pub validate_record_ref : RecordRef → ValidationResult
validate_record_ref r =
    let rules =
      "B25-RECORD-REF" ∷ (if has_text r.workspace_id then [] else "B25-WORKSPACE-REQUIRED" ∷ []) in
    if is_empty (ref_errors r)
    then validation_pass rules
    else validation_fail (ref_errors r) rules []

unfoldable pub provenance_errors : Provenance → List String
provenance_errors p =
    required p.source_type "source_type is required"
    ++ (required p.source_id "source_id is required"
        ++ (required p.source_label "source_label is required"
            ++ (required p.created_by "created_by is required"
                ++ (required p.trace_id "trace_id is required"
                    ++ required p.created_at "created_at is required"))))

unfoldable pub validate_provenance : Provenance → ValidationResult
validate_provenance p =
    let rules = "B25-PROVENANCE-DATA-ONLY" ∷ [] in
    if is_empty (provenance_errors p)
    then validation_pass rules
    else validation_fail (provenance_errors p) rules []

abbrev pub all_errors : List ValidationResult → List String
all_errors [] = []
all_errors (r ∷ rs) = r.errors ++ all_errors rs

abbrev pub all_warnings : List ValidationResult → List String
all_warnings [] = []
all_warnings (r ∷ rs) = r.warnings ++ all_warnings rs

abbrev pub all_rules : List ValidationResult → List String
all_rules [] = []
all_rules (r ∷ rs) = r.rule_ids ++ all_rules rs

unfoldable pub merge_results : List ValidationResult → List String → ValidationResult
merge_results results default_rule_ids =
    let errors = all_errors results in
    let warnings = dedupe (all_warnings results) in
    let rules = dedupe (default_rule_ids ++ all_rules results) in
    if is_empty errors
    then record { valid = true; errors = []; warnings = warnings; rule_ids = rules }
    else validation_fail (dedupe errors) rules warnings

unfoldable pub validate_governance_state : GovernanceState → ValidationResult
validate_governance_state s =
    merge_results
      (validate_record_ref s.record_ref
        ∷ validate_status (some s.status)
        ∷ validate_tier (some s.tier)
        ∷ validate_provenance s.provenance
        ∷ [])
      ("B25-GOVERNANCE-STATE" ∷ [])

-- `repr` of a status that passed `validate_status`, or of `None`.
abbrev shown : Option String → String
shown none = "None"
shown (some s) = "'" +++ s +++ "'"

abbrev pub stripped : Option String → Option String
stripped none = none
stripped (some s) = some (strip s)

-- What follows when both statuses are known ones.
unfoldable pub check_transition : Option String → String → ValidationResult
check_transition previous next =
    if contains next (status_transitions previous)
    then validation_pass ("B25-STATUS-TRANSITION" ∷ [])
    else validation_fail
        (("status transition not allowed: " +++ shown previous +++ " -> " +++ shown (some next))
          ∷ [])
        ("B25-STATUS-TRANSITION" ∷ []) []

abbrev previous_check : Option String → ValidationResult
previous_check none = validation_pass []
previous_check (some s) = validate_status (some s)

unfoldable pub validate_status_transition : Option String → String → ValidationResult
validate_status_transition previous next =
    if not (validate_status (some next)).valid
    then validate_status (some next)
    else if not (previous_check previous).valid
    then previous_check previous
    else check_transition (stripped previous) (strip next)

-- `ensure_state_valid`: the joined errors of the `ValueError`, or the state.
pub data Ensured : Type 0 where
  value_error : List String → Ensured
  ensured : GovernanceState → Ensured

unfoldable pub ensure_state_valid : GovernanceState → Ensured
ensure_state_valid s =
    if (validate_governance_state s).valid
    then ensured s
    else value_error (validate_governance_state s).errors
