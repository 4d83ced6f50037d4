-- ===== src/Examples/Lineages.antt =====
-- The decisions and their lineage.
use context_brain_memory_lab.Prelude.{◌≡◌, refl, true, false, none, some, List, [], ◌∷◌, take, All}
use context_brain_memory_lab.Decisions.Store.{
  DecisionCreate, DecisionRow, explain_decision, mark_superseded, decision_row, insert_decision,
  create_decision,
}
use context_brain_memory_lab.Decisions.Lineage.{
  DecisionLineageResponse, node_of, walk, lineage_of, get_lineage,
}
use context_brain_memory_lab.Decisions.Chains.{has_decision, is_backed}
use context_brain_memory_lab.Decisions.Links.{Decided, nothing, created}
use context_brain_memory_lab.Decisions.Falls.{age_of, IsFalling, get_lineage_falls}
use context_brain_memory_lab.Decisions.Creation.{get_lineage-create_decision}

abbrev first : DecisionCreate
first = record {
  title = "Use SQLite";
  decision_reason = "simple";
  decision_context = none;
  why_this_matters = none;
  decision_status = "active";
  reversible = true;
  source_content_ids = [];
  linked_hub_ids = [];
  supersedes_decision_id = none;
  alternatives_considered = [];
  contradicting_evidence = none;
  confidence_level = "medium";
  decision_tags = [];
}

abbrev second : DecisionCreate
second = record first { title = "Use PostgreSQL"; supersedes_decision_id = some "d1" }

abbrev first_row : DecisionRow
first_row = record {
  decision_id = "d1";
  workspace_id = some "w1";
  payload = first;
  decision_status = "active";
  supersedes_decision_id = none;
  superseded_by_decision_id = none;
  created_by_subject = some "ann";
}

abbrev second_row : DecisionRow
second_row = record {
  decision_id = "d2";
  workspace_id = some "w1";
  payload = second;
  decision_status = "active";
  supersedes_decision_id = some "d1";
  superseded_by_decision_id = none;
  created_by_subject = some "ann";
}

abbrev two_rows : List DecisionRow
two_rows =
    second_row
    ∷ record first_row { superseded_by_decision_id = some "d2"; decision_status = "superseded" }
    ∷ []

two_rows-Decided : Decided two_rows
unfolding create_decision insert_decision decision_row mark_superseded explain_decision has_decision
two_rows-Decided =
    created {rows = first_row ∷ []} "d2" (some "w1") (some "ann") second
      (created {rows = []} "d1" (some "w1") (some "ann") first nothing refl refl) refl refl

abbrev lineage : DecisionLineageResponse
lineage = record {
  decision_id = "d2";
  title = "Use PostgreSQL";
  ancestors =
      record {
        decision_id = "d1";
        title = "Use SQLite";
        decision_status = "superseded";
        created_by_subject = some "ann";
      }
      ∷ [];
  descendants = [];
  depth = 1;
  depth_limit_reached = false;
}

two_rows-lineage : get_lineage (some "w1") "d2" two_rows ≡ some lineage
unfolding get_lineage lineage_of walk explain_decision
two_rows-lineage = refl

get_lineage_falls_example :
    IsFalling two_rows (age_of "d2" two_rows) lineage.ancestors
    × All (λ (x : DecisionRow). is_backed two_rows x ≡ true) two_rows
get_lineage_falls_example =
    get_lineage_falls (some "w1") "d2" two_rows lineage two_rows-Decided two_rows-lineage

one_row :
    (has_decision "d2" (first_row ∷ []) ≡ false)
    × (explain_decision (some "w1") "d1" (first_row ∷ []) ≡ some first_row)
unfolding has_decision explain_decision
one_row = (refl, refl)

get_lineage-create_decision_example :
    (later : List DecisionRow) × (mine theirs : DecisionLineageResponse) × (create_decision "d2"
        (some "w1")
        (some "ann")
        second
        (first_row ∷ [])
      ≡ some later)
    × (get_lineage (some "w1") "d2" later ≡ some mine)
    × (get_lineage (some "w1") "d1" later ≡ some theirs)
    × (take 1 mine.ancestors ≡ record (node_of first_row) { decision_status = "superseded" } ∷ [])
    × (mine.descendants ≡ [])
    × (theirs.descendants ≡ node_of (decision_row "d2" (some "w1") (some "ann") second) ∷ [])
get_lineage-create_decision_example =
    get_lineage-create_decision "d2" "d1" (some "w1") (some "ann") second (first_row ∷ []) first_row
      one_row.0 one_row.1 refl refl refl
