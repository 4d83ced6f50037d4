-- ===== src/Examples/Anchors.antt =====
-- The current-state resolver.
use context_brain_memory_lab.Prelude.{
  ◌≡◌, refl, String, true, false, none, some, [], ◌∷◌, map, arith,
}
use context_brain_memory_lab.CurrentState.Tables.{
  ItemRow, StateTables, find_same, previous_anchor, supersede, has_item, promote_item,
}
use context_brain_memory_lab.CurrentState.Resolver.{
  ScopeResolution, ScopePipeline, ResolveRequest, CurrentStateResolution, check_request, active,
  new_anchor, replace_anchor, resolve_identity, key_of, resolve_current_state_after_ingest,
}
use context_brain_memory_lab.CurrentState.Single.{IsSingle}
use context_brain_memory_lab.CurrentState.View.{current_in, run_calls}
use context_brain_memory_lab.CurrentState.Refines.{IsRefined, run_calls_refines}
use context_brain_memory_lab.CurrentState.Effects.{
  standing, rescoped, resolve-unnamed, resolve-again,
}

abbrev item : String → ItemRow
item c = record {
  content_id = c;
  is_current = none;
  current_state_scope = none;
  state_identity = none;
  cs_supersedes_content_id = none;
}

abbrev tables : StateTables
tables = record { anchors = []; items = item "c1" ∷ item "c2" ∷ [] }

abbrev scope : ScopeResolution
scope = record { scope = "ship"; source = "marker" }

abbrev marked : ScopePipeline
marked anchors = scope

-- By the second call the anchors tell another scope.
abbrev linked : ScopePipeline
linked anchors = record { scope = "harbour"; source = "lineage" }

abbrev request : String → ResolveRequest
request c = record {
  workspace_id = some "w1";
  content_id = some c;
  memory_type = some "decision";
  classify_confidence = some 9000;
  set_by = "api";
  state_identity = some "port";
}

abbrev unnamed : ResolveRequest
unnamed = record (request "c1") { state_identity = none }

tables-IsSingle : IsSingle tables
tables-IsSingle k = omega arith

run_calls_refines_example :
    IsRefined tables
      (run_calls (("a1", 1, marked, request "c1") ∷ ("a2", 2, marked, request "c2") ∷ []) tables)
run_calls_refines_example =
    run_calls_refines (("a1", 1, marked, request "c1") ∷ ("a2", 2, marked, request "c2") ∷ [])
      tables tables-IsSingle

second_is_current :
    current_in
      (run_calls
        (("a1", 1, marked, request "c1") ∷ ("a2", 2, marked, request "c2") ∷ [])
        tables).0.anchors
      (key_of (request "c1"))
    ≡ some "c2"
unfolding run_calls resolve_current_state_after_ingest check_request resolve_identity find_same
    previous_anchor replace_anchor new_anchor supersede has_item promote_item active
second_is_current = refl

resolve-unnamed_example :
    (t' : StateTables) × (response : CurrentStateResolution) × (resolve_current_state_after_ingest
        "a1" 1 marked unnamed tables
      ≡ some (t', response))
    × (t'.anchors ≡ tables.anchors)
    × (map standing t'.items ≡ map standing tables.items)
    × (response.supersedes_content_id ≡ none)
resolve-unnamed_example = resolve-unnamed "a1" 1 marked unnamed tables refl

abbrev current_tables : StateTables
current_tables = record {
  anchors =
      record {
        anchor_id = "a1";
        workspace_id = "w1";
        memory_type = "decision";
        scope = "ship";
        state_identity = some "port";
        content_id = some "c1";
        supersedes_content_id = none;
        valid_from = 1;
        canonical_rank = 1;
        state_status = "active";
        set_by = "api";
      }
      ∷ [];
  items =
      record {
        content_id = "c1";
        is_current = some true;
        current_state_scope = some "ship";
        state_identity = some "port";
        cs_supersedes_content_id = none;
      }
      ∷ item "c2"
      ∷ [];
}

abbrev response : CurrentStateResolution
response = record {
  status = "active";
  reason = "resolved_current_state";
  content_id = some "c1";
  workspace_id = some "w1";
  memory_type = some "decision";
  current_state_scope = some "ship";
  scope_source = some "marker";
  state_identity = some "port";
  anchor_id = some "a1";
  supersedes_content_id = none;
  wrote = true;
  idempotent = false;
}

first_call :
    resolve_current_state_after_ingest "a1" 1 marked (request "c1") tables
    ≡ some (current_tables, response)
unfolding resolve_current_state_after_ingest check_request resolve_identity find_same
    previous_anchor replace_anchor new_anchor supersede has_item promote_item active
first_call = refl

resolve-again_example :
    resolve_current_state_after_ingest "a9" 5 linked (request "c1") current_tables
    ≡ some (
      rescoped (linked current_tables.anchors) "c1" current_tables,
      record response {
        reason = "idempotent_active_anchor";
        idempotent = true;
        current_state_scope = some "harbour";
        scope_source = some "lineage";
      },
    )
resolve-again_example =
    resolve-again "a1" "a9" 1 5 marked linked (request "c1") tables current_tables response
      first_call refl
