-- ===== src/Graph/Expansion.antt =====
-- `expand_query` of memory_lab/graph/expansion.py.
use context_brain_memory_lab.Prelude.{
  ℕ, zero, suc, String, Option, none, some, List, [], ◌∷◌, map, is_empty, if◌then◌else◌,
}
use context_brain_memory_lab.Prelude.Str.{strip}
use context_brain_memory_lab.Prelude.Names.{contains}
use context_brain_memory_lab.Graph.Store.{EdgeRow, AliasRow, get_neighbors, resolve_terms}

-- `s.lower().strip()`
abbrev pub normal : (String → String) → String → String
normal lower s = strip (lower s)

-- The innermost loop, over the normal forms of one term's neighbours: what is expanded, and the next
-- layer.
unfoldable pub add_neighbors : List String → List String × List String → List String × List String
add_neighbors [] (expanded, next_layer) = (expanded, next_layer)
add_neighbors (n ∷ ns) (expanded, next_layer) =
    add_neighbors ns
      (if contains n expanded then (expanded, next_layer) else (n ∷ expanded, n ∷ next_layer))

-- The loop over the current layer.
unfoldable pub visit :
    (String → List String) → List String → List String × List String → List String × List String
visit neighbors [] state = state
visit neighbors (t ∷ layer) state = visit neighbors layer (add_neighbors (neighbors t) state)

-- The loop over the hops, which ends early on an empty layer.
unfoldable pub expand_layers : (String → List String) → ℕ → List String → List String → List String
expand_layers neighbors zero expanded layer = expanded
expand_layers neighbors (suc hops) expanded layer =
    let (more, next_layer) = visit neighbors layer (expanded, []) in
    let rest = expand_layers neighbors hops more next_layer in
    if is_empty next_layer then more else rest

-- The terms that the expansion starts from.
unfoldable pub start_terms :
    (lower sql_lower : String → String) → List String → Option (List AliasRow) → List String
start_terms lower sql_lower query_terms none = map (normal lower) query_terms
start_terms lower sql_lower query_terms (some aliases) =
    map (normal lower) (resolve_terms lower sql_lower (map (normal lower) query_terms) aliases)

-- The neighbours of a term in their normal form.
unfoldable pub neighbors_of :
    (lower sql_lower : String → String) → ℕ → Option String → List EdgeRow → String → List String
neighbors_of lower sql_lower min_confidence workspace_id graph term =
    map (normal lower) (get_neighbors lower sql_lower term min_confidence workspace_id graph)

unfoldable pub expand_query :
    (lower sql_lower : String → String)
    → List String
    → List EdgeRow
    → ℕ
    → ℕ
    → Option (List AliasRow)
    → Option String
    → List String
expand_query lower sql_lower query_terms graph max_hops min_confidence alias_store workspace_id =
    let start = start_terms lower sql_lower query_terms alias_store in
    expand_layers (neighbors_of lower sql_lower min_confidence workspace_id graph) max_hops start
      start
