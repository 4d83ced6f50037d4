-- ===== src/TierAdmin/Escalations.antt =====
-- `plan_escalation_for_content` and `persist_escalation` of memory_lab/conflicts/escalation.py. The
-- foreign keys of cb_escalations are those of migrations/014_add_conflict_escalation.sql. The summary's
-- confidence comes as the text of its two digits.
use context_brain_memory_lab.Prelude.{
  ℕ, ◌+◌, ◌*◌, max, String, Bool, true, not, ◌&&◌, ◌||◌, Option, none, some, List, [], ◌∷◌, ◌++◌,
  if◌then◌else◌,
}
use text.Mathlib.Text.{◌==◌}
use context_brain_memory_lab.Prelude.Str.{◌+++◌}
use context_brain_memory_lab.Prelude.Names.{contains}
use context_brain_memory_lab.Governance.Events.{Stamp, EventFields}
use context_brain_memory_lab.TierAdmin.Tables.{
  ContentRow, EscalationRow, World, invalid_event, missing_reference, Outcome, refused, committed,
  fetch_tier, has_content, move_tier, committed_or,
}
use context_brain_memory_lab.TierAdmin.Override.{prefix}

-- What the planner reads of a ConflictCandidate.
pub record ConflictCandidate : Type 0 where
  pub candidate_id : String
  pub conflict_type : String
  pub status : String
  pub severity : String
  pub confidence : String
  pub supporting_content_ids : List String
  pub contradicting_content_ids : List String
  pub reason_codes : List String
  pub detection_rule : String

pub record EscalationPlan : Type 0 where
  pub workspace_id : String
  pub content_id : String
  pub conflict_content_id : Option String
  pub conflict_type : String
  pub severity : String
  pub conflict_summary : String
  pub ttl_days : ℕ
  pub candidate_id : String
  pub detection_rule : String

abbrev pub escalation_conflict_type : String → Option String
escalation_conflict_type t =
    if t == "explicit_contradiction"
    then some "direct_contradiction"
    else if t == "same_scope_opposing_claim"
    then some "direct_contradiction"
    else if t == "explicit_counterfinding"
    then some "incompatible_assumption"
    else if t == "stale_current_tension"
    then some "outdated_assumption"
    else none

-- `SEVERITY_TO_ESCALATION.get(severity)`: low and unknown severities give `None`.
abbrev pub severity_to_escalation : String → Option String
severity_to_escalation s =
    if s == "high" then some "requires_review" else if s == "medium" then some "warning" else none

-- The whole number that the environment variable of a severity holds, if any, with a negative one
-- read as 0.
abbrev pub TtlEnvironment : Type 0
TtlEnvironment = String → Option ℕ

-- The configured days, one at least, or the default.
abbrev pub days_or : Option ℕ → ℕ → ℕ
days_or none default = default
days_or (some days) default = max 1 days

-- `_ttl_days`
abbrev pub ttl_days : TtlEnvironment → String → ℕ
ttl_days env severity = days_or (env severity) (if severity == "requires_review" then 30 else 7)

abbrev pub first_other : String → List String → Option String
first_other c [] = none
first_other c (d ∷ ids) = if not (d == c) then some d else first_other c ids

unfoldable pub counterpart_id : ConflictCandidate → String → Option String
counterpart_id candidate c =
    first_other c (candidate.contradicting_content_ids ++ candidate.supporting_content_ids)

-- `sep.join(parts)`
unfoldable pub join_codes : List String → String
join_codes [] = ""
join_codes (r ∷ []) = r
join_codes (r ∷ s ∷ rs) = r +++ "," +++ join_codes (s ∷ rs)

abbrev or_unknown : Option String → String
or_unknown none = "unknown"
or_unknown (some c) = if c == "" then "unknown" else c

unfoldable pub summary_of : ConflictCandidate → Option String → String
summary_of candidate counterpart = prefix 500 (
    "candidate_id="
    +++ candidate.candidate_id
    +++ " rule="
    +++ candidate.detection_rule
    +++ " b11_type="
    +++ candidate.conflict_type
    +++ " b11_severity="
    +++ candidate.severity
    +++ " confidence="
    +++ candidate.confidence
    +++ " reasons="
    +++ join_codes candidate.reason_codes
    +++ " counterpart_content_id="
    +++ or_unknown counterpart)

abbrev pub involves : ConflictCandidate → String → Bool
involves candidate c =
    contains c candidate.supporting_content_ids || contains c candidate.contradicting_content_ids

-- The plan for one candidate, or `none` where the loop goes on.
unfoldable pub plan_for :
    TtlEnvironment → ConflictCandidate → String → String → Option EscalationPlan
plan_for env candidate workspace_id c =
    if not (candidate.status == "unresolved") || not (involves candidate c)
    then none
    else elim (severity_to_escalation candidate.severity) [
      | none ↦ none
      | some severity ↦ elim (escalation_conflict_type candidate.conflict_type) [
        | none ↦ none
        | some conflict_type ↦ some (record {
          workspace_id = workspace_id;
          content_id = c;
          conflict_content_id = counterpart_id candidate c;
          conflict_type = conflict_type;
          severity = severity;
          conflict_summary = summary_of candidate (counterpart_id candidate c);
          ttl_days = ttl_days env severity;
          candidate_id = candidate.candidate_id;
          detection_rule = candidate.detection_rule;
        })
      ]
    ]

unfoldable pub plan_escalation_for_content :
    TtlEnvironment → List ConflictCandidate → String → String → Option EscalationPlan
plan_escalation_for_content env [] workspace_id c = none
plan_escalation_for_content env (candidate ∷ candidates) workspace_id c =
    elim (plan_for env candidate workspace_id c) [
      | none ↦ plan_escalation_for_content env candidates workspace_id c
      | some plan ↦ some plan
    ]

-- The UPDATE that links the escalation.
unfoldable pub link_escalation : String → String → List ContentRow → List ContentRow
link_escalation c escalation_id [] = []
link_escalation c escalation_id (r ∷ rows) =
    (if r.content_id == c then record r { conflict_escalation_id = some escalation_id } else r)
    ∷ link_escalation c escalation_id rows

unfoldable pub escalation_row : String → ℕ → EscalationPlan → EscalationRow
escalation_row id now plan = record {
  id = id;
  workspace_id = plan.workspace_id;
  content_id = some plan.content_id;
  conflict_content_id = plan.conflict_content_id;
  conflict_type = plan.conflict_type;
  severity = plan.severity;
  conflict_summary = plan.conflict_summary;
  status = "pending";
  created_at = now;
  expires_at = now + plan.ttl_days * 86400;
  resolved_by = none;
}

abbrev pub references : Option String → List ContentRow → Bool
references none contents = true
references (some c) contents = has_content c contents

unfoldable pub quarantine_fields : EscalationPlan → Option String → EventFields
quarantine_fields plan previous_tier = record {
  content_id = plan.content_id;
  workspace_id = some plan.workspace_id;
  previous_tier = previous_tier;
  new_tier = "conflicted";
  transition_reason = "conflict:requires_review";
  transition_rule = "CONFLICT_REQUIRES_REVIEW_V1";
  trigger_type = "system";
  trigger_source = "save";
}

-- The row of the escalation and its link to the content.
unfoldable pub with_escalation : String → ℕ → EscalationPlan → World → World
with_escalation id now plan w = record w {
  contents = link_escalation plan.content_id id w.contents;
  escalations = escalation_row id now plan ∷ w.escalations;
}

-- `id` is the key that the database draws, `now` its clock.
unfoldable pub persist_escalation : Stamp → String → ℕ → EscalationPlan → World → Outcome
persist_escalation stamp id now plan w =
    if not
      (has_content plan.content_id w.contents && references plan.conflict_content_id w.contents)
    then refused missing_reference
    else if plan.severity == "requires_review"
    then committed_or invalid_event (
        move_tier stamp "conflict:requires_review"
          (quarantine_fields plan (fetch_tier plan.content_id w.contents))
          (with_escalation id now plan w))
    else committed (with_escalation id now plan w)
