-- ===== src/MemoryBackend/Records.antt =====
-- Content records and governance states, by workspace and id.
use context_brain_memory_lab.Prelude.{
  ◌≡◌, sym, ◌∙◌, ap, subst, String, true, some, arith, if◌then◌else◌, Bool-cases, inl, inr,
}
use context_brain_memory_lab.Prelude.Str.{strip}
use context_brain_memory_lab.Prelude.Dict.{
  Dict, lookup, insert, pair_eq, pair_eqb, pair_eqb_iff, lookup-insert,
}
use context_brain_memory_lab.Governance.State.{GovernanceState, has_text, validate_governance_state}
use context_brain_memory_lab.Governance.State.Validity.{IsWellFormed, validate_governance_state_lem}
use context_brain_memory_lab.MemoryBackend.{
  ContentPersistenceRecord, success, InMemoryBackend, validate_required_id, put_content_record,
  get_checked, get_content_record, put_governance_state, get_governance_state,
}

-- The key under which a workspace and an id are stored.
abbrev pub key : String → String → String × String
key workspace_id id = (strip workspace_id, strip id)

get_checked-insert {ℓ} :
    {V : Type ℓ} (op field missing : String) (table : Dict (String × String) V)
    (k : String × String) (v : V) (w i : String)
    → has_text w ≡ true
    → has_text i ≡ true
    → get_checked op field missing (insert k v table) w i
      ≡ (if pair_eqb k (key w i) then success op v else get_checked op field missing table w i)
unfolding get_checked validate_required_id
get_checked-insert op field missing table k v w i hw hi =
    rw (hw, hi, lookup-insert k (key w i) v table, get_checked) (ground arith)

-- After a record whose workspace and content id are not blank is put: its key reads that record,
-- and every other key of ids that are not blank reads what it read before.
pub get_content_record-put_content_record :
    (r : ContentPersistenceRecord) (b : InMemoryBackend) (w i : String)
    → has_text r.workspace_id ≡ true
    → has_text r.content_id ≡ true
    → has_text w ≡ true
    → has_text i ≡ true
    → get_content_record (put_content_record r b).0 w i ≡ (
        if pair_eqb (key r.workspace_id r.content_id) (key w i)
        then success "get_content_record" r
        else get_content_record b w i)
unfolding get_content_record put_content_record validate_required_id
get_content_record-put_content_record r b w i hr hc hw hi =
    rw (hr, hc, put_content_record) (get_checked-insert _ _ _ b.content_records _ r w i hw hi)

-- A stored state is well formed, and stands under the key of its own reference.
unfoldable pub IsSoundStore : InMemoryBackend → Type 0
IsSoundStore b =
    (k : String × String) (s : GovernanceState)
    → lookup k b.governance_states ≡ some s
    → IsWellFormed s × (k ≡ key s.record_ref.workspace_id s.record_ref.record_id)

-- Putting a governance state keeps the store sound, whether the state is accepted or refused: a
-- stored state is well formed and stands under the key of its own reference.
pub put_governance_state-IsSoundStore :
    (s : GovernanceState) (b : InMemoryBackend)
    → IsSoundStore b
    → IsSoundStore (put_governance_state s b).0
unfolding put_governance_state IsSoundStore
put_governance_state-IsSoundStore s b sound k t found =
    elim (Bool-cases (validate_governance_state s).valid) [
      | inr invalid ↦ sound k t (rw invalid at found)
      | inl valid ↦
          let own = key s.record_ref.workspace_id s.record_ref.record_id in
          let split = lookup-insert own k s b.governance_states in
          elim (Bool-cases (pair_eqb own k)) [
            | inl same ↦
                let self : s ≡ t = ground (arith, split, same, valid, found) in
                (
                  subst IsWellFormed self ((validate_governance_state_lem s).0 valid),
                  sym ((pair_eqb_iff own k).0 same)
                      ∙ ap
                          (λ (u : GovernanceState).
                            key u.record_ref.workspace_id u.record_ref.record_id)
                          self,
                )
            | inr other ↦ sound k t (ground (arith, split, other, valid, found))
          ]
    ]

-- A state that is well formed can be read back under its key after it is put, and every other key of
-- ids that are not blank reads what it read before.
pub get_governance_state-put_governance_state :
    (s : GovernanceState) (b : InMemoryBackend) (w i : String)
    → IsWellFormed s
    → has_text w ≡ true
    → has_text i ≡ true
    → get_governance_state (put_governance_state s b).0 w i ≡ (
        if pair_eqb (key s.record_ref.workspace_id s.record_ref.record_id) (key w i)
        then success "get_governance_state" s
        else get_governance_state b w i)
unfolding get_governance_state put_governance_state
get_governance_state-put_governance_state s b w i good hw hi =
    rw ((validate_governance_state_lem s).1 good)
      (get_checked-insert _ _ _ b.governance_states _ s w i hw hi)
