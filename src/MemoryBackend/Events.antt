-- ===== src/MemoryBackend/Events.antt =====
-- The events of a record: they are only ever appended to.
use context_brain_memory_lab.Prelude.{
  ◌≡◌, refl, ◌∙◌, ap, String, true, some, List, [], ◌∷◌, ◌++◌, ◌&&◌, append-nil, arith,
  if◌then◌else◌, Bool-cases, inl, inr, ◌⊎◌,
}
use context_brain_memory_lab.Prelude.Dict.{
  Dict, insert, pair_eq, pair_eqb, pair_eqb_iff, lookup-insert,
}
use context_brain_memory_lab.Governance.State.{has_text, validation_pass}
use context_brain_memory_lab.Governance.Workspace.{validate_workspace_id}
use context_brain_memory_lab.Governance.StateEvents.{
  StateEvent, validate_governance_state_event_contract,
}
use context_brain_memory_lab.Governance.StateEvents.Contract.{
  validate_governance_state_event_contract-boundary,
}
use context_brain_memory_lab.MemoryBackend.{
  success, InMemoryBackend, events_at, append_governance_event, list_governance_events,
}
use context_brain_memory_lab.MemoryBackend.Records.{key}

listed :
    (b : InMemoryBackend) (w i : String)
    → has_text w ≡ true
    → has_text i ≡ true
    → list_governance_events b w (some i)
      ≡ success "list_governance_events" (events_at (key w i) b.governance_events)
unfolding list_governance_events validate_workspace_id validation_pass
listed b w i hw hi = rw (hw, hi) refl

events_at-insert :
    (j k : String × String) (new : List StateEvent) (d : Dict (String × String) (List StateEvent))
    → events_at k (insert j new d) ≡ (if pair_eqb j k then new else events_at k d)
events_at-insert j k new d = ground (arith, lookup-insert j k new d)

appended :
    (e : StateEvent) (b : InMemoryBackend)
    → (validate_governance_state_event_contract e).valid ≡ true
    → (append_governance_event e b).0.governance_events
      ≡ insert
          (key e.workspace_id e.record_ref.record_id)
          (events_at (key e.workspace_id e.record_ref.record_id) b.governance_events ++ e ∷ [])
          b.governance_events
unfolding append_governance_event
appended e b valid = rw (valid, validate_governance_state_event_contract-boundary e valid) refl

events_at-append :
    (e : StateEvent) (b : InMemoryBackend) (k : String × String)
    → events_at k (append_governance_event e b).0.governance_events
      ≡ events_at k b.governance_events
        ++ (if (validate_governance_state_event_contract e).valid
              && pair_eqb (key e.workspace_id e.record_ref.record_id) k
            then e ∷ []
            else [])
unfolding append_governance_event
events_at-append e b k =
    let own : String × String = key e.workspace_id e.record_ref.record_id in
    let new : List StateEvent = events_at own b.governance_events ++ e ∷ [] in
    elim (Bool-cases (validate_governance_state_event_contract e).valid) [
      | inr invalid ↦ rw (invalid, append-nil (events_at k b.governance_events)) refl
      | inl valid ↦
          ap (events_at k) (appended e b valid)
          ∙ (events_at-insert own k new b.governance_events
              ∙ (rw valid (elim (Bool-cases (pair_eqb own k)) [
                | inl same ↦ rw same (
                    ap (λ j. events_at j b.governance_events ++ e ∷ [])
                      ((pair_eqb_iff own k).0 same))
                | inr other ↦ rw (other, append-nil (events_at k b.governance_events)) refl
              ])))
    ]

-- An append touches the event lists alone, and a refused one nothing at all.
append_governance_event_frame :
    (e : StateEvent) (b : InMemoryBackend)
    → ((append_governance_event e b).0.content_records ≡ b.content_records)
      × ((append_governance_event e b).0.governance_states ≡ b.governance_states)
      × (((validate_governance_state_event_contract e).valid ≡ true)
          ⊎ ((append_governance_event e b).0 ≡ b))
unfolding append_governance_event
append_governance_event_frame e b =
    elim (Bool-cases (validate_governance_state_event_contract e).valid) [
      | inr invalid ↦ rw (invalid, append_governance_event) (refl, refl, inr refl)
      | inl valid ↦
          rw
            (
              valid,
              validate_governance_state_event_contract-boundary e valid,
              append_governance_event,
            )
            (refl, refl, inl refl)
    ]

-- The backend after an event was put forward. The events of each record are those that were there,
-- with an accepted event behind them where it is the record's, by workspace and record id; the
-- content records and the governance states are as they were; and unless the event was accepted, the
-- whole backend is. The workspace and the record that are read are not blank.
pub list_governance_events-append :
    (e : StateEvent) (b : InMemoryBackend) (w i : String)
    → has_text w ≡ true
    → has_text i ≡ true
    → (list_governance_events (append_governance_event e b).0 w (some i)
        ≡ success "list_governance_events" (
            events_at (key w i) b.governance_events
            ++ (if (validate_governance_state_event_contract e).valid
                  && pair_eqb (key e.workspace_id e.record_ref.record_id) (key w i)
                then e ∷ []
                else [])))
      × ((append_governance_event e b).0.content_records ≡ b.content_records)
      × ((append_governance_event e b).0.governance_states ≡ b.governance_states)
      × (((validate_governance_state_event_contract e).valid ≡ true)
          ⊎ ((append_governance_event e b).0 ≡ b))
list_governance_events-append e b w i hw hi =
    let (records, states, accepted) = append_governance_event_frame e b in
    (
      listed (append_governance_event e b).0 w i hw hi
          ∙ ap (success "list_governance_events") (events_at-append e b (key w i)),
      records,
      states,
      accepted,
    )
