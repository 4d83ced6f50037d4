-- ===== src/Graph/Store.antt =====
-- memory_lab/graph/edge.py, store.py and `resolve_terms` of alias_store.py, over the rows of cb_edges
-- and cb_aliases. `lower` is `str.lower` and `sql_lower` the database's LOWER; a confidence is given in
-- ten-thousandths. Sets are lists of which only the members count.
use context_brain_memory_lab.Prelude.{
  ℕ, String, Bool, true, not, ◌&&◌, ◌||◌, Option, none, some, List, [], ◌∷◌, leb, any,
  if◌then◌else◌,
}
use text.Mathlib.Text.{◌==◌}
use context_brain_memory_lab.Prelude.Str.{truthy}

pub record Edge : Type 0 where
  pub from_node : String
  pub relation : String
  pub to_node : String
  pub source_id : String
  pub confidence : ℕ

pub record EdgeRow : Type 0 where
  pub edge : Edge
  pub workspace_id : Option String

-- `Edge.__post_init__`: the edge is refused otherwise.
abbrev pub is_edge : Edge → Bool
is_edge e = leb e.confidence 10000

abbrev pub same_edge : Edge → Edge → Bool
same_edge e f =
    e.from_node == f.from_node
    && e.relation == f.relation
    && e.to_node == f.to_node
    && e.source_id == f.source_id

-- `COALESCE(EXCLUDED.workspace_id, cb_edges.workspace_id)`
abbrev pub coalesce : Option String → Option String → Option String
coalesce none old = old
coalesce (some w) old = some w

-- The INSERT with its ON CONFLICT: an edge that is there gets the new confidence.
unfoldable pub add_edge : Edge → Option String → List EdgeRow → List EdgeRow
add_edge e ws [] = record { edge = e; workspace_id = ws } ∷ []
add_edge e ws (r ∷ rows) =
    let rest = add_edge e ws rows in
    if same_edge r.edge e
    then record { edge = e; workspace_id = coalesce ws r.workspace_id } ∷ rows
    else r ∷ rest

abbrev pub in_scope : Option String → EdgeRow → Bool
in_scope none r = true
in_scope (some w) r = elim r.workspace_id [
  | none ↦ not (truthy w)
  | some owner ↦ not (truthy w) || owner == w
]

abbrev pub touches : (String → String) → String → ℕ → Option String → EdgeRow → Bool
touches sql_lower node min_confidence ws r =
    (sql_lower r.edge.from_node == sql_lower node || sql_lower r.edge.to_node == sql_lower node)
    && leb min_confidence r.edge.confidence
    && in_scope ws r

unfoldable pub get_neighbors :
    (lower sql_lower : String → String) → String → ℕ → Option String → List EdgeRow → List String
get_neighbors lower sql_lower node min_confidence ws [] = []
get_neighbors lower sql_lower node min_confidence ws (r ∷ rows) =
    let rest = get_neighbors lower sql_lower node min_confidence ws rows in
    if touches sql_lower node min_confidence ws r
    then (if lower r.edge.from_node == lower node then r.edge.to_node else r.edge.from_node) ∷ rest
    else rest

pub record AliasRow : Type 0 where
  pub term : String
  pub canonical : String
  pub status : String

abbrev pub is_alias_of : (lower sql_lower : String → String) → AliasRow → String → Bool
is_alias_of lower sql_lower a t = sql_lower a.term == lower t

-- `resolve_terms`: the terms and the canonical nodes of their approved aliases.
unfoldable pub resolve_terms :
    (lower sql_lower : String → String) → List String → List AliasRow → List String
resolve_terms lower sql_lower terms [] = terms
resolve_terms lower sql_lower terms (a ∷ aliases) =
    let rest = resolve_terms lower sql_lower terms aliases in
    if any (is_alias_of lower sql_lower a) terms && a.status == "approved"
    then a.canonical ∷ rest
    else rest
