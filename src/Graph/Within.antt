-- ===== src/Graph/Within.antt =====
-- The expansion finds the terms within the hops, and no others.
use context_brain_memory_lab.Prelude.{
  ℕ, zero, suc, ◌+◌, ◌≡◌, refl, subst, String, true, Option, List, [], ◌∷◌, is_empty, arith,
  Bool-cases, inl, inr, ◌⊎◌, ◌↔◌,
}
use context_brain_memory_lab.Prelude.Names.{contains}
use context_brain_memory_lab.Graph.Store.{EdgeRow, AliasRow}
use context_brain_memory_lab.Graph.Expansion.{
  visit, expand_layers, start_terms, neighbors_of, expand_query,
}
use context_brain_memory_lab.Graph.Layers.{visit-IsGrown, visit-adds, visit-only}

-- `x` is reached from the start in so many hops at most.
pub data IsWithin (neighbors : String → List String) (start : List String)
    : ℕ → String → Type 0 where
  at_start : {hops : ℕ} (x : String) → contains x start ≡ true → IsWithin neighbors start hops x
  one_more :
      {hops : ℕ} (t x : String)
      → IsWithin neighbors start hops t
      → contains x (neighbors t) ≡ true
      → IsWithin neighbors start (suc hops) x

module _ (neighbors : String → List String) (start : List String) where
  later :
      (hops : ℕ) (x : String)
      → IsWithin neighbors start hops x
      → IsWithin neighbors start (suc hops) x
  later hops _ (at_start x h) = at_start x h
  later _ _ (one_more {hops = n} t x h near) = one_more t x (later n t h) near

  -- Behind so many hops, the set is what is within them, and only the layer has neighbours outside.
  record IsExact (hops : ℕ) (expanded layer : List String) : Type 0 where
    sound : (x : String) → contains x expanded ≡ true → IsWithin neighbors start hops x
    complete : (x : String) → IsWithin neighbors start hops x → contains x expanded ≡ true
    inside : (x : String) → contains x layer ≡ true → contains x expanded ≡ true
    closed :
        (t x : String)
        → contains t expanded ≡ true
        → contains x (neighbors t) ≡ true
        → (contains t layer ≡ true) ⊎ (contains x expanded ≡ true)

  complete_next :
      (hops : ℕ) (expanded layer : List String)
      → IsExact hops expanded layer
      → (x : String) → IsWithin neighbors start (suc hops) x
      → contains x (visit neighbors layer (expanded, [])).0 ≡ true
  complete_next hops expanded layer e _ (at_start x h) =
      (visit-IsGrown neighbors layer (expanded, [])).kept x (e.complete x (at_start x h))
  complete_next hops expanded layer e _ (one_more t x h near) =
      elim (e.closed t x (e.complete t h) near) [
        | inl current ↦ visit-adds neighbors layer (expanded, []) t x current near
        | inr old ↦ (visit-IsGrown neighbors layer (expanded, [])).kept x old
      ]

  sound_next :
      (hops : ℕ) (expanded layer : List String)
      → IsExact hops expanded layer
      → (x : String) → contains x (visit neighbors layer (expanded, [])).0 ≡ true
      → IsWithin neighbors start (suc hops) x
  sound_next hops expanded layer e x h = elim (visit-only neighbors layer (expanded, []) x h) [
    | inl (t, current, near) ↦ one_more t x (e.sound t (e.inside t current)) near
    | inr old ↦ later hops x (e.sound x old)
  ]

  closed_next :
      (hops : ℕ) (expanded layer : List String)
      → IsExact hops expanded layer
      → (t x : String) → contains t (visit neighbors layer (expanded, [])).0 ≡ true
      → contains x (neighbors t) ≡ true
      → (contains t (visit neighbors layer (expanded, [])).1 ≡ true)
        ⊎ (contains x (visit neighbors layer (expanded, [])).0 ≡ true)
  closed_next hops expanded layer e t x h near =
      let grown = visit-IsGrown neighbors layer (expanded, []) in
      elim (grown.fresh t h) [
        | inl new ↦ inl new
        | inr old ↦ elim (e.closed t x old near) [
          | inl current ↦ inr (visit-adds neighbors layer (expanded, []) t x current near)
          | inr there ↦ inr (grown.kept x there)
        ]
      ]

  visit-IsExact :
      (hops : ℕ) (expanded layer : List String)
      → IsExact hops expanded layer
      → IsExact
          (suc hops)
          (visit neighbors layer (expanded, [])).0
          (visit neighbors layer (expanded, [])).1
  visit-IsExact hops expanded layer e = record {
    sound = sound_next hops expanded layer e;
    complete = complete_next hops expanded layer e;
    inside = (visit-IsGrown neighbors layer (expanded, [])).within (λ x h. cc);
    closed = closed_next hops expanded layer e;
  }

  -- A set that no layer is left of is what is within any number of hops.
  full :
      (hops more : ℕ) (expanded : List String)
      → IsExact hops expanded []
      → (x : String) → IsWithin neighbors start more x
      → contains x expanded ≡ true
  full hops more expanded e _ (at_start x h) = e.complete x (at_start x h)
  full hops more expanded e _ (one_more {hops = n} t x h near) =
      elim (e.closed t x (full hops n expanded e t h) near) [ inl current ↦ cc | inr there ↦ there ]

  within_more :
      (hops more total : ℕ) (x : String)
      → total ≡ more + hops
      → IsWithin neighbors start hops x
      → IsWithin neighbors start total x
  within_more hops zero total x sum h =
      let same : hops ≡ total = omega (arith, sum) in
      subst (λ (n : ℕ). IsWithin neighbors start n x) same h
  within_more hops (suc more) total x sum h =
      let same : suc (more + hops) ≡ total = omega (arith, sum) in
      subst (λ (n : ℕ). IsWithin neighbors start n x) same
        (later (more + hops) x (within_more hops more (more + hops) x refl h))

  no_layer : (layer : List String) → is_empty layer ≡ true → layer ≡ []
  no_layer [] h = refl
  no_layer (t ∷ layer) h = cc

  -- The loop that ends early has found all there is.
  ended :
      (hops more total : ℕ) (expanded layer : List String)
      → total ≡ more + hops
      → IsExact hops expanded layer
      → is_empty layer ≡ true
      → (x : String) → (contains x expanded ≡ true) ↔ IsWithin neighbors start total x
  ended hops more total expanded layer sum e last x = (
    λ h. within_more hops more total x sum (e.sound x h),
    full hops total expanded
        (subst (λ (l : List String). IsExact hops expanded l) (no_layer layer last) e) x,
  )

  expand_layers_lem :
      (more hops total : ℕ) (expanded layer : List String)
      → total ≡ more + hops
      → IsExact hops expanded layer
      → (x : String)
      → (contains x (expand_layers neighbors more expanded layer) ≡ true)
        ↔ IsWithin neighbors start total x
  unfolding expand_layers
  expand_layers_lem zero hops total expanded layer sum e x =
      let same : hops ≡ total = omega (arith, sum) in
      subst (λ (n : ℕ). (contains x expanded ≡ true) ↔ IsWithin neighbors start n x) same
        (e.sound x, e.complete x)
  expand_layers_lem (suc more) hops total expanded layer sum e x =
      let next = visit-IsExact hops expanded layer e in
      let rest : total ≡ more + suc hops = omega (arith, sum) in
      elim (Bool-cases (is_empty (visit neighbors layer (expanded, [])).1)) [
        | inl last ↦ rw last (
            ended (suc hops) more total (visit neighbors layer (expanded, [])).0
              (visit neighbors layer (expanded, [])).1 rest next last x)
        | inr further ↦ rw further (
            expand_layers_lem more (suc hops) total (visit neighbors layer (expanded, [])).0
              (visit neighbors layer (expanded, [])).1 rest next x)
      ]

  begun : IsExact 0 start start
  begun = record {
    sound = λ x h. at_start x h;
    complete = begun_complete;
    inside = λ x h. h;
    closed = λ t x h near. inl h;
  }
    where
      begun_complete : (x : String) → IsWithin neighbors start 0 x → contains x start ≡ true
      begun_complete _ (at_start x h) = h

-- The expansion of a query has exactly the terms that lead from the query's terms and their approved
-- aliases in `max_hops` hops at most along the workspace's edges of the confidence asked for; so the
-- early end of the loop loses none, whatever the edges and however they run in circles.
pub expand_query-IsWithin :
    (lower sql_lower : String → String) (query_terms : List String) (graph : List EdgeRow)
    (max_hops min_confidence : ℕ) (alias_store : Option (List AliasRow))
    (workspace_id : Option String) (x : String)
    → (contains x (
          expand_query lower sql_lower query_terms graph max_hops min_confidence alias_store
            workspace_id)
        ≡ true)
      ↔ IsWithin
          (neighbors_of lower sql_lower min_confidence workspace_id graph)
          (start_terms lower sql_lower query_terms alias_store)
          max_hops
          x
unfolding expand_query
expand_query-IsWithin lower sql_lower query_terms graph max_hops min_confidence alias_store
      workspace_id x =
    let start = start_terms lower sql_lower query_terms alias_store in
    let neighbors = neighbors_of lower sql_lower min_confidence workspace_id graph in
    expand_layers_lem neighbors start max_hops 0 max_hops start start (omega arith)
      (begun neighbors start) x
