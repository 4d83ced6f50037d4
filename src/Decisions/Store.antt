-- ===== src/Decisions/Store.antt =====
-- memory_lab/decisions/store.py: `create_decision`, `explain_decision` and `update_status`, over the
-- rows of cb_decision_nodes with the latest first. A KeyError, and an exception of a constraint of the
-- table, is `none`; the table is then as it was. `alternatives_considered` holds the JSON texts.
use context_brain_memory_lab.Prelude.{
  String, Bool, true, false, not, ◌&&◌, Option, none, some, List, [], ◌∷◌, if◌then◌else◌,
}
use text.Mathlib.Text.{◌==◌}
use context_brain_memory_lab.Prelude.Names.{contains}

pub record DecisionCreate : Type 0 where
  pub title : String
  pub decision_reason : String
  pub decision_context : Option String
  pub why_this_matters : Option String
  pub decision_status : String
  pub reversible : Bool
  pub source_content_ids : List String
  pub linked_hub_ids : List String
  pub supersedes_decision_id : Option String
  pub alternatives_considered : List String
  pub contradicting_evidence : Option String
  pub confidence_level : String
  pub decision_tags : List String

-- The row keeps what was given, but for the status.
pub record DecisionRow : Type 0 where
  pub decision_id : String
  pub workspace_id : Option String
  pub payload : DecisionCreate
  pub decision_status : String
  pub supersedes_decision_id : Option String
  pub superseded_by_decision_id : Option String
  pub created_by_subject : Option String

-- `VALID_STATUSES` and `VALID_CONFIDENCE`, the constraints of the table
abbrev pub valid_statuses : List String
valid_statuses = "active" ∷ "superseded" ∷ "reversed" ∷ "draft" ∷ []

abbrev pub valid_confidence : List String
valid_confidence = "low" ∷ "medium" ∷ "high" ∷ []

abbrev pub is_same : Option String → String → Bool
is_same none w = false
is_same (some v) w = v == w

-- `%s::uuid IS NULL OR workspace_id = %s::uuid`
abbrev pub in_workspace : Option String → DecisionRow → Bool
in_workspace none r = true
in_workspace (some w) r = is_same r.workspace_id w

-- The row of an id in the workspace.
unfoldable pub explain_decision : Option String → String → List DecisionRow → Option DecisionRow
explain_decision ws id [] = none
explain_decision ws id (r ∷ rows) =
    if r.decision_id == id && in_workspace ws r then some r else explain_decision ws id rows

unfoldable pub set_decision_status :
    Option String → String → String → List DecisionRow → List DecisionRow
set_decision_status ws id status [] = []
set_decision_status ws id status (r ∷ rows) =
    (if r.decision_id == id && in_workspace ws r then record r { decision_status = status } else r)
    ∷ set_decision_status ws id status rows

-- `update_status`, without the row that it returns
unfoldable pub update_status :
    Option String → String → String → List DecisionRow → Option (List DecisionRow)
update_status ws id status rows = elim (explain_decision ws id rows) [
  | none ↦ none
  | some r ↦
      if contains status valid_statuses then some (set_decision_status ws id status rows) else none
]

-- The UPDATE of the decision that is superseded.
unfoldable pub mark_superseded :
    Option String → String → String → List DecisionRow → List DecisionRow
mark_superseded ws new_id id [] = []
mark_superseded ws new_id id (r ∷ rows) =
    (if r.decision_id == id && in_workspace ws r
      then record r { superseded_by_decision_id = some new_id; decision_status = "superseded" }
      else r)
    ∷ mark_superseded ws new_id id rows

unfoldable pub decision_row : String → Option String → Option String → DecisionCreate → DecisionRow
decision_row new_id ws subject payload = record {
  decision_id = new_id;
  workspace_id = ws;
  payload = payload;
  decision_status = payload.decision_status;
  supersedes_decision_id = payload.supersedes_decision_id;
  superseded_by_decision_id = none;
  created_by_subject = subject;
}

-- The INSERT and the UPDATE behind it.
unfoldable pub insert_decision :
    String → Option String → Option String → DecisionCreate → List DecisionRow → List DecisionRow
insert_decision new_id ws subject payload rows =
    decision_row new_id ws subject payload ∷ (elim payload.supersedes_decision_id [
      | none ↦ rows
      | some id ↦ mark_superseded ws new_id id rows
    ])

-- The SELECT before the INSERT.
abbrev pub superseded_exists : Option String → Option String → List DecisionRow → Bool
superseded_exists ws none rows = true
superseded_exists ws (some id) rows = elim (explain_decision ws id rows) [
  | none ↦ false
  | some r ↦ true
]

-- `new_id` is the id that the database draws.
unfoldable pub create_decision :
    String
    → Option String
    → Option String
    → DecisionCreate
    → List DecisionRow
    → Option (List DecisionRow)
create_decision new_id ws subject payload rows =
    if not (superseded_exists ws payload.supersedes_decision_id rows)
    then none
    else if contains payload.decision_status valid_statuses
        && contains payload.confidence_level valid_confidence
    then some (insert_decision new_id ws subject payload rows)
    else none
