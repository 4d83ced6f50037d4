-- ===== src/CurrentState/Resolver.antt =====
-- `resolve_current_state_after_ingest` of memory_lab/current_state/resolver.py. The scope pipeline,
-- `resolve_scope`, is called behind the checks, on the anchors as they are then. A confidence is given
-- in ten-thousandths. `none` is an exception of the database, with which the tables stay as they were.
use context_brain_memory_lab.Prelude.{
  ℕ, String, Bool, true, false, not, Option, none, some, List, [], ◌∷◌, ltb, if◌then◌else◌,
}
use context_brain_memory_lab.Prelude.Str.{truthy}
use context_brain_memory_lab.Prelude.Names.{contains}
use context_brain_memory_lab.CurrentState.Tables.{
  AnchorRow, ItemRow, StateTables, StateKey, find_same, previous_anchor, supersede, group_item,
  retire_item, promote_item, can_insert,
}

-- Scope plus the pipeline tier that produced it.
pub record ScopeResolution : Type 0 where
  pub scope : String
  pub source : String

-- `resolve_scope` on the workspace, the texts and the hubs of one call: its lineage tier reads the
-- anchors.
abbrev pub ScopePipeline : Type 0
ScopePipeline = List AnchorRow → ScopeResolution

pub record ResolveRequest : Type 0 where
  pub workspace_id : Option String
  pub content_id : Option String
  pub memory_type : Option String
  pub classify_confidence : Option ℕ
  pub set_by : String
  pub state_identity : Option String

pub record CurrentStateResolution : Type 0 where
  pub status : String
  pub reason : String
  pub content_id : Option String
  pub workspace_id : Option String
  pub memory_type : Option String
  pub current_state_scope : Option String
  pub scope_source : Option String
  pub state_identity : Option String
  pub anchor_id : Option String
  pub supersedes_content_id : Option String
  pub wrote : Bool
  pub idempotent : Bool

abbrev pub min_confidence : ℕ
min_confidence = 7000

abbrev pub allowed_set_by : List String
allowed_set_by = "auto_classify" ∷ "human_override" ∷ "mcp_tool" ∷ "api" ∷ "reconcile_job" ∷ []

-- `bool(value)` of a text or `None`
abbrev pub present : Option String → Bool
present none = false
present (some t) = truthy t

abbrev is_low : Option ℕ → Bool
is_low none = true
is_low (some n) = ltb n min_confidence

unfoldable pub noop :
    String → Option String → Option String → Option String → CurrentStateResolution
noop reason content_id workspace_id memory_type = record {
  status = "noop";
  reason = reason;
  content_id = content_id;
  workspace_id = workspace_id;
  memory_type = memory_type;
  current_state_scope = none;
  scope_source = none;
  state_identity = none;
  anchor_id = none;
  supersedes_content_id = none;
  wrote = false;
  idempotent = false;
}

-- The checks that end in an explicit no-op, in their order.
unfoldable pub check_request : ResolveRequest → Option CurrentStateResolution
check_request r =
    if is_low r.classify_confidence
    then some (noop "low_confidence" r.content_id r.workspace_id r.memory_type)
    else if not (present r.workspace_id)
    then some (noop "missing_workspace" r.content_id none r.memory_type)
    else if not (present r.content_id)
    then some (noop "missing_content_id" none r.workspace_id r.memory_type)
    else if not (present r.memory_type)
    then some (noop "missing_memory_type" r.content_id r.workspace_id none)
    else if not (contains r.set_by allowed_set_by)
    then some (noop "invalid_set_by" r.content_id r.workspace_id r.memory_type)
    else none

abbrev pub text_of : Option String → String
text_of none = ""
text_of (some t) = t

unfoldable pub grouped : ScopeResolution → StateKey → String → CurrentStateResolution
grouped scope k c = record {
  status = "grouped";
  reason = "scope_only_no_state_identity";
  content_id = some c;
  workspace_id = some k.workspace_id;
  memory_type = some k.memory_type;
  current_state_scope = some scope.scope;
  scope_source = some scope.source;
  state_identity = none;
  anchor_id = none;
  supersedes_content_id = none;
  wrote = true;
  idempotent = false;
}

unfoldable pub active :
    String
    → ScopeResolution
    → StateKey
    → String
    → String
    → Option String
    → Bool
    → CurrentStateResolution
active reason scope k c anchor_id supersedes_id idempotent = record {
  status = "active";
  reason = reason;
  content_id = some c;
  workspace_id = some k.workspace_id;
  memory_type = some k.memory_type;
  current_state_scope = some scope.scope;
  scope_source = some scope.source;
  state_identity = some k.state_identity;
  anchor_id = some anchor_id;
  supersedes_content_id = supersedes_id;
  wrote = true;
  idempotent = idempotent;
}

unfoldable pub new_anchor :
    String → ℕ → ScopeResolution → StateKey → String → Option String → String → AnchorRow
new_anchor anchor_id now scope k c supersedes_id set_by = record {
  anchor_id = anchor_id;
  workspace_id = k.workspace_id;
  memory_type = k.memory_type;
  scope = scope.scope;
  state_identity = some k.state_identity;
  content_id = some c;
  supersedes_content_id = supersedes_id;
  valid_from = now;
  canonical_rank = 1;
  state_status = "active";
  set_by = set_by;
}

abbrev pub content_of : Option AnchorRow → Option String
content_of none = none
content_of (some a) = a.content_id

abbrev pub retire : String → Option String → List ItemRow → List ItemRow
retire scope none items = items
retire scope (some p) items = retire_item scope p items

-- The content gets a new anchor in place of the previous one's.
unfoldable pub replace_anchor :
    String
    → ℕ
    → ScopeResolution
    → StateKey
    → String
    → String
    → StateTables
    → StateTables × CurrentStateResolution
replace_anchor anchor_id now scope k c set_by t =
    let supersedes_id = content_of (previous_anchor k t.anchors) in
    (
      record {
        anchors = new_anchor anchor_id now scope k c supersedes_id set_by ∷ supersede k c t.anchors;
        items =
            promote_item scope.scope k.state_identity supersedes_id c
              (retire scope.scope supersedes_id t.items);
      },
      active "resolved_current_state" scope k c anchor_id supersedes_id false,
    )

unfoldable pub resolve_identity :
    String
    → ℕ
    → ScopeResolution
    → StateKey
    → String
    → String
    → StateTables
    → Option (StateTables × CurrentStateResolution)
resolve_identity anchor_id now scope k c set_by t = elim (find_same k c t.anchors) [
  | some a ↦ some (
    record t {
      items = promote_item scope.scope k.state_identity a.supersedes_content_id c t.items;
    },
    active "idempotent_active_anchor" scope k c a.anchor_id a.supersedes_content_id true,
  )
  | none ↦
      if can_insert k c t.items
      then some (replace_anchor anchor_id now scope k c set_by t)
      else none
]

abbrev pub key_of : ResolveRequest → StateKey
key_of r = record {
  workspace_id = text_of r.workspace_id;
  memory_type = text_of r.memory_type;
  state_identity = text_of r.state_identity;
}

-- `anchor_id` and `now` are what the database would draw for a new anchor.
unfoldable pub resolve_current_state_after_ingest :
    String
    → ℕ
    → ScopePipeline
    → ResolveRequest
    → StateTables
    → Option (StateTables × CurrentStateResolution)
resolve_current_state_after_ingest anchor_id now resolve_scope r t =
    let c = text_of r.content_id in
    elim (check_request r) [
      | some refusal ↦ some (t, refusal)
      | none ↦
          if not (present r.state_identity)
          then some (
            record t { items = group_item (resolve_scope t.anchors).scope c t.items },
            grouped (resolve_scope t.anchors) (key_of r) c,
          )
          else resolve_identity anchor_id now (resolve_scope t.anchors) (key_of r) c r.set_by t
    ]
