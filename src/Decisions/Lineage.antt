-- ===== src/Decisions/Lineage.antt =====
-- `get_lineage` of memory_lab/decisions/store.py. The recursive query walks from row to row, ten rows
-- at most each way; as the ids are a key, each step has one row at most.
use context_brain_memory_lab.Prelude.{
  ℕ, zero, suc, max, String, Bool, Option, none, some, List, [], ◌∷◌, map, leb, length,
}
use context_brain_memory_lab.Decisions.Store.{DecisionRow, explain_decision}

pub record LineageNode : Type 0 where
  pub decision_id : String
  pub title : String
  pub decision_status : String
  pub created_by_subject : Option String

pub record DecisionLineageResponse : Type 0 where
  pub decision_id : String
  pub title : String
  pub ancestors : List LineageNode
  pub descendants : List LineageNode
  pub depth : ℕ
  pub depth_limit_reached : Bool

abbrev pub node_of : DecisionRow → LineageNode
node_of r = record {
  decision_id = r.decision_id;
  title = r.payload.title;
  decision_status = r.decision_status;
  created_by_subject = r.created_by_subject;
}

abbrev pub max_depth : ℕ
max_depth = 10

-- The rows that `next` leads to from a reference, `depth` at most.
unfoldable pub walk :
    (DecisionRow → Option String)
    → Option String
    → List DecisionRow
    → ℕ
    → Option String
    → List DecisionRow
walk next ws rows zero start = []
walk next ws rows (suc depth) none = []
walk next ws rows (suc depth) (some id) = elim (explain_decision ws id rows) [
  | none ↦ []
  | some r ↦ r ∷ walk next ws rows depth (next r)
]

abbrev pub supersedes_of : DecisionRow → Option String
supersedes_of r = r.supersedes_decision_id

abbrev pub superseded_by_of : DecisionRow → Option String
superseded_by_of r = r.superseded_by_decision_id

unfoldable pub lineage_of : Option String → List DecisionRow → DecisionRow → DecisionLineageResponse
lineage_of ws rows r =
    let ancestors = walk supersedes_of ws rows max_depth r.supersedes_decision_id in
    let descendants = walk superseded_by_of ws rows max_depth r.superseded_by_decision_id in
    let depth = max (length ancestors) (length descendants) in
    record {
      decision_id = r.decision_id;
      title = r.payload.title;
      ancestors = map node_of ancestors;
      descendants = map node_of descendants;
      depth = depth;
      depth_limit_reached = leb max_depth depth;
    }

unfoldable pub get_lineage :
    Option String → String → List DecisionRow → Option DecisionLineageResponse
get_lineage ws id rows = elim (explain_decision ws id rows) [
  | none ↦ none
  | some r ↦ some (lineage_of ws rows r)
]
