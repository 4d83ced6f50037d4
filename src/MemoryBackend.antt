-- ===== src/MemoryBackend.antt =====
-- memory_lab/persistence/memory_backend.py, with the results of results.py, whose constant metadata
-- and empty warnings are left out. A record is a ContentPersistenceRecord; `metadata` is opaque.
-- Ids come as str. Each operation returns the backend after it with its result.
pub mod Records
pub mod Events
use context_brain_memory_lab.Prelude.{
  ℕ, String, Bool, true, false, not, ◌&&◌, ◌||◌, Option, none, some, List, [], ◌∷◌, ◌++◌, map, ltb,
  nat_eqb, if◌then◌else◌, select,
}
use text.Mathlib.Text.{◌==◌}
use context_brain_memory_lab.Prelude.Str.{strip, truthy, ◌+++◌}
use context_brain_memory_lab.Prelude.Text.{Text, codes}
use context_brain_memory_lab.Prelude.Dict.{Dict, lookup, insert, pair_eq}
use context_brain_memory_lab.Governance.State.{GovernanceState, has_text, validate_governance_state}
use context_brain_memory_lab.Governance.Workspace.{
  validate_workspace_id, validate_workspace_boundary,
}
use context_brain_memory_lab.Governance.StateEvents.{
  StateEvent, validate_governance_state_event_contract,
}

pub record ContentPersistenceRecord : Type 0 where
  pub content_id : String
  pub workspace_id : String
  pub text : String
  pub title : Option String
  pub metadata : Dict String String
  pub governance_state_id : Option String

pub record PersistenceError : Type 0 where
  pub code : String
  pub message : String
  pub field : Option String

-- `ok` is the constructor.
pub data PersistenceResult {ℓ} (V : Type ℓ) : Type ℓ where
  success : String → V → PersistenceResult V
  failure : String → PersistenceError → PersistenceResult V

abbrev pub fail_with {ℓ} :
    {V : Type ℓ} → String → String → String → Option String → PersistenceResult V
fail_with operation code message field =
    failure operation (record { code = code; message = message; field = field })

pub record InMemoryBackend : Type 0 where
  pub content_records : Dict (String × String) ContentPersistenceRecord
  pub governance_states : Dict (String × String) GovernanceState
  pub governance_events : Dict (String × String) (List StateEvent)

abbrev pub new_backend : InMemoryBackend
new_backend = record { content_records = []; governance_states = []; governance_events = [] }

-- `sep.join(parts)`
unfoldable pub join_errors : List String → String
join_errors [] = ""
join_errors (e ∷ []) = e
join_errors (e ∷ f ∷ es) = e +++ "; " +++ join_errors (f ∷ es)

-- `_validate_required_id`, which names the id's field
unfoldable pub validate_required_id {ℓ} :
    {V : Type ℓ} → String → String → String → Option (PersistenceResult V)
validate_required_id value field operation =
    if has_text value
    then none
    else some (fail_with operation ("invalid_" +++ field) (field +++ " is required") (some field))

-- The order of two texts by code points, and of two keys.
unfoldable pub text_ltb : Text → Text → Bool
text_ltb s [] = false
text_ltb [] (d ∷ t) = true
text_ltb (c ∷ s) (d ∷ t) = ltb c d || (nat_eqb c d && text_ltb s t)

unfoldable pub key_ltb : String × String → String × String → Bool
key_ltb (a, b) (c, d) = text_ltb (codes a) (codes c) || (a == c && text_ltb (codes b) (codes d))

module _ {ℓ} {V : Type ℓ} where
  unfoldable pub insert_item :
      (String × String) × V → Dict (String × String) V → Dict (String × String) V
  insert_item i [] = i ∷ []
  insert_item i (j ∷ d) = if key_ltb j.0 i.0 then j ∷ insert_item i d else i ∷ j ∷ d

  -- `sorted(d.items())`, whose keys are distinct
  unfoldable pub sort_items : Dict (String × String) V → Dict (String × String) V
  sort_items [] = []
  sort_items (i ∷ d) = insert_item i (sort_items d)

  abbrev pub values_in : String → Dict (String × String) V → List V
  values_in ws d =
      map (λ (i : (String × String) × V). i.1)
        (select (λ (i : (String × String) × V). i.0.0 == ws) d)

abbrev pub concat : List (List StateEvent) → List StateEvent
concat [] = []
concat (es ∷ ess) = es ++ concat ess

unfoldable pub put_content_record :
    ContentPersistenceRecord
    → InMemoryBackend
    → InMemoryBackend × PersistenceResult ContentPersistenceRecord
put_content_record r b =
    elim (validate_required_id {V = ContentPersistenceRecord} r.workspace_id "workspace_id"
      "put_content_record") [
        | some refused ↦ (b, refused)
        | none ↦
            elim (validate_required_id {V = ContentPersistenceRecord} r.content_id "content_id"
              "put_content_record") [
                | some refused ↦ (b, refused)
                | none ↦ (
                  record b {
                    content_records =
                        insert (strip r.workspace_id, strip r.content_id) r b.content_records;
                  },
                  success "put_content_record" r,
                )
              ]
      ]

-- `get_content_record` and `get_governance_state` differ in the table and the names.
unfoldable pub get_checked {ℓ} :
    {V : Type ℓ}
    → String
    → String
    → String
    → Dict (String × String) V
    → String
    → String
    → PersistenceResult V
get_checked {V = V} operation field missing table workspace_id id =
    elim (validate_required_id {V = V} workspace_id "workspace_id" operation) [
      | some refused ↦ refused
      | none ↦ elim (validate_required_id {V = V} id field operation) [
        | some refused ↦ refused
        | none ↦ elim (lookup (strip workspace_id, strip id) table) [
          | none ↦ fail_with operation "not_found" missing (some field)
          | some value ↦ success operation value
        ]
      ]
    ]

unfoldable pub get_content_record :
    InMemoryBackend → String → String → PersistenceResult ContentPersistenceRecord
get_content_record b =
    get_checked "get_content_record" "content_id" "content record not found" b.content_records

unfoldable pub list_content_records :
    InMemoryBackend → String → PersistenceResult (List ContentPersistenceRecord)
list_content_records b workspace_id =
    let check = validate_workspace_id (some workspace_id) in
    if not check.valid
    then fail_with "list_content_records" "invalid_workspace" (join_errors check.errors)
        (some "workspace_id")
    else success "list_content_records"
        (values_in (strip workspace_id) (sort_items b.content_records))

unfoldable pub put_governance_state :
    GovernanceState → InMemoryBackend → InMemoryBackend × PersistenceResult GovernanceState
put_governance_state s b =
    let result = validate_governance_state s in
    if not result.valid
    then (
      b,
      fail_with "put_governance_state" "invalid_governance_state" (join_errors result.errors) none,
    )
    else (
      record b {
        governance_states =
            insert (strip s.record_ref.workspace_id, strip s.record_ref.record_id) s
              b.governance_states;
      },
      success "put_governance_state" s,
    )

unfoldable pub get_governance_state :
    InMemoryBackend → String → String → PersistenceResult GovernanceState
get_governance_state b =
    get_checked "get_governance_state" "record_id" "governance state not found" b.governance_states

-- `d.get(key, ())`
abbrev pub events_at : String × String → Dict (String × String) (List StateEvent) → List StateEvent
events_at key d = elim (lookup key d) [ none ↦ [] | some es ↦ es ]

unfoldable pub append_governance_event :
    StateEvent → InMemoryBackend → InMemoryBackend × PersistenceResult StateEvent
append_governance_event e b =
    let result = validate_governance_state_event_contract e in
    let boundary =
      validate_workspace_boundary (some e.record_ref.workspace_id ∷ []) (some e.workspace_id) in
    let key : String × String = (strip e.workspace_id, strip e.record_ref.record_id) in
    if not result.valid
    then (
      b,
      fail_with "append_governance_event" "invalid_governance_event" (join_errors result.errors)
          none,
    )
    else if not boundary.valid
    then (
      b,
      fail_with "append_governance_event" "workspace_boundary_violation"
          (join_errors boundary.errors) (some "workspace_id"),
    )
    else (
      record b {
        governance_events =
            insert key (events_at key b.governance_events ++ e ∷ []) b.governance_events;
      },
      success "append_governance_event" e,
    )

unfoldable pub list_governance_events :
    InMemoryBackend → String → Option String → PersistenceResult (List StateEvent)
list_governance_events b workspace_id record_id =
    let check = validate_workspace_id (some workspace_id) in
    if not check.valid
    then fail_with "list_governance_events" "invalid_workspace" (join_errors check.errors)
        (some "workspace_id")
    else elim record_id [
      | none ↦
          success "list_governance_events"
            (concat (values_in (strip workspace_id) (sort_items b.governance_events)))
      | some id ↦
          if has_text id
          then success "list_governance_events"
              (events_at (strip workspace_id, strip id) b.governance_events)
          else fail_with "list_governance_events" "invalid_record_id" "record_id is required"
              (some "record_id")
    ]
