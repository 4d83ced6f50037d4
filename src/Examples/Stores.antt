-- ===== src/Examples/Stores.antt =====
-- The in-memory backend.
use context_brain_memory_lab.Prelude.{
  ◌≡◌, refl, true, ◌&&◌, none, some, [], ◌∷◌, ◌++◌, if◌then◌else◌, ◌⊎◌,
}
use context_brain_memory_lab.Prelude.Str.{strip}
use context_brain_memory_lab.Prelude.Text.{is_space}
use context_brain_memory_lab.Prelude.Dict.{pair_eqb, lookup}
use context_brain_memory_lab.Governance.State.{has_text}
use context_brain_memory_lab.Governance.State.Validity.{IsWellFormed}
use context_brain_memory_lab.Governance.StateEvents.{validate_governance_state_event_contract}
use context_brain_memory_lab.MemoryBackend.{
  ContentPersistenceRecord, new_backend, success, put_content_record, get_content_record,
  put_governance_state, get_governance_state, append_governance_event, list_governance_events,
  events_at,
}
use context_brain_memory_lab.MemoryBackend.Records.{
  key, IsSoundStore, get_content_record-put_content_record, put_governance_state-IsSoundStore,
  get_governance_state-put_governance_state,
}
use context_brain_memory_lab.MemoryBackend.Events.{list_governance_events-append}
use context_brain_memory_lab.Examples.States.{state, event}

abbrev content_record : ContentPersistenceRecord
content_record = record {
  content_id = "c1";
  workspace_id = " w1";
  text = "body";
  title = none;
  metadata = [];
  governance_state_id = none;
}

texts :
    (has_text " w1" ≡ true)
    × (has_text "c1" ≡ true)
    × (has_text "w1" ≡ true)
    × (has_text "r1" ≡ true)
unfolding strip is_space
texts = (refl, refl, refl, refl)

get_content_record-put_content_record_example :
    get_content_record (put_content_record content_record new_backend).0 "w1" "c1" ≡ (
      if pair_eqb (key " w1" "c1") (key "w1" "c1")
      then success "get_content_record" content_record
      else get_content_record new_backend "w1" "c1")
get_content_record-put_content_record_example =
    get_content_record-put_content_record content_record new_backend "w1" "c1" texts.0 texts.1
      texts.2 texts.1

empty-IsSoundStore : IsSoundStore new_backend
unfolding IsSoundStore lookup
empty-IsSoundStore k s found = cc

put_governance_state-IsSoundStore_example : IsSoundStore (put_governance_state state new_backend).0
put_governance_state-IsSoundStore_example =
    put_governance_state-IsSoundStore state new_backend empty-IsSoundStore

state-IsWellFormed : IsWellFormed state
unfolding strip is_space
state-IsWellFormed = record {
  record_id = refl;
  record_type = refl;
  workspace_id = refl;
  status = refl;
  tier = refl;
  source_type = refl;
  source_id = refl;
  source_label = refl;
  created_by = refl;
  trace_id = refl;
  created_at = refl;
}

get_governance_state-put_governance_state_example :
    get_governance_state (put_governance_state state new_backend).0 "w1" "r1" ≡ (
      if pair_eqb (key " w1 " "r1") (key "w1" "r1")
      then success "get_governance_state" state
      else get_governance_state new_backend "w1" "r1")
get_governance_state-put_governance_state_example =
    get_governance_state-put_governance_state state new_backend "w1" "r1" state-IsWellFormed texts.2
      texts.3

list_governance_events-append_example :
    (list_governance_events (append_governance_event event new_backend).0 "w1" (some "r1")
      ≡ success "list_governance_events" (
          events_at (key "w1" "r1") []
          ++ (if (validate_governance_state_event_contract event).valid
                && pair_eqb (key "w1" "r1") (key "w1" "r1")
              then event ∷ []
              else [])))
    × ((append_governance_event event new_backend).0.content_records ≡ [])
    × ((append_governance_event event new_backend).0.governance_states ≡ [])
    × (((validate_governance_state_event_contract event).valid ≡ true)
        ⊎ ((append_governance_event event new_backend).0 ≡ new_backend))
list_governance_events-append_example =
    list_governance_events-append event new_backend "w1" "r1" texts.2 texts.3
