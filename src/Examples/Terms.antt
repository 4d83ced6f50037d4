-- ===== src/Examples/Terms.antt =====
-- The expansion of a query.
use context_brain_memory_lab.Prelude.{◌≡◌, refl, String, true, some, List, [], ◌∷◌, ◌↔◌}
use context_brain_memory_lab.Prelude.Str.{strip}
use context_brain_memory_lab.Prelude.Text.{is_space}
use context_brain_memory_lab.Prelude.Names.{contains}
use context_brain_memory_lab.Graph.Store.{EdgeRow, AliasRow, get_neighbors, resolve_terms}
use context_brain_memory_lab.Graph.Expansion.{
  add_neighbors, visit, expand_layers, start_terms, neighbors_of, expand_query,
}
use context_brain_memory_lab.Graph.Within.{IsWithin, expand_query-IsWithin}

-- The lower case of texts that are in lower case.
abbrev plain : String → String
plain s = s

abbrev edge : String → String → EdgeRow
edge a b = record {
  edge = record {
    from_node = a;
    relation = "uses";
    to_node = b;
    source_id = "c1";
    confidence = 9000;
  };
  workspace_id = some "w1";
}

abbrev graph : List EdgeRow
graph = edge "api" "store" ∷ edge "store" "disk" ∷ edge "disk" "api" ∷ edge "disk" "rack" ∷ []

abbrev aliases : List AliasRow
aliases = record { term = "rest"; canonical = "api"; status = "approved" } ∷ []

expand_query-IsWithin_example :
    (contains "disk"
        (expand_query plain plain ("rest" ∷ []) graph 2 7000 (some aliases) (some "w1"))
      ≡ true)
    ↔ IsWithin
        (neighbors_of plain plain 7000 (some "w1") graph)
        (start_terms plain plain ("rest" ∷ []) (some aliases))
        2
        "disk"
expand_query-IsWithin_example =
    expand_query-IsWithin plain plain ("rest" ∷ []) graph 2 7000 (some aliases) (some "w1") "disk"

found_terms :
    expand_query plain plain ("rest" ∷ []) graph 1 7000 (some aliases) (some "w1")
    ≡ "disk" ∷ "store" ∷ "api" ∷ "rest" ∷ []
unfolding expand_query expand_layers start_terms neighbors_of resolve_terms get_neighbors visit
    add_neighbors strip is_space
found_terms = refl
