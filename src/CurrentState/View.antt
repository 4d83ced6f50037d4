-- ===== src/CurrentState/View.antt =====
-- The abstract view of the anchors: a map from keys to the content that is current. The resolver
-- implements its updates, and the responses alone tell them.
use context_brain_memory_lab.Prelude.{
  ℕ, ◌≤◌, ◌≡◌, ◌≢◌, refl, ap, subst, String, Bool, true, false, ◌&&◌, Option, none, some, List, [],
  ◌∷◌, arith, if◌then◌else◌, tally, Bool-cases, inl, inr,
}
use text.Mathlib.Text.{◌==◌}
use text.Mathlib.TextEquality.{eq_iff}
use text.Mathlib.TextPositions.{eq_refl}
use context_brain_memory_lab.CurrentState.Tables.{
  AnchorRow, StateTables, StateKey, column_is, is_active, find_same, supersede,
}
use context_brain_memory_lab.CurrentState.Resolver.{
  ScopeResolution, ScopePipeline, ResolveRequest, CurrentStateResolution, active,
  resolve_current_state_after_ingest,
}
use context_brain_memory_lab.CurrentState.Single.{is_active_other, is_active-superseded}

-- The current content of each key.
abbrev pub CurrentView : Type 0
CurrentView = StateKey → Option String

abbrev pub current_in : List AnchorRow → CurrentView
current_in [] k = none
current_in (a ∷ anchors) k = if is_active k a then a.content_id else current_in anchors k

abbrev pub key_eqb : StateKey → StateKey → Bool
key_eqb k j =
    k.workspace_id == j.workspace_id
    && k.memory_type == j.memory_type
    && k.state_identity == j.state_identity

-- What a response says of a map: an active content takes the place of the key's.
abbrev pub note : CurrentStateResolution → CurrentView → CurrentView
note r v j =
    if r.status == "active"
      && column_is j.workspace_id r.workspace_id
      && column_is j.memory_type r.memory_type
      && column_is j.state_identity r.state_identity
    then r.content_id
    else v j

abbrev pub ResolveCall : Type 0
ResolveCall = String × ℕ × ScopePipeline × ResolveRequest

-- The requests one after the other; one that raises changes nothing and has no response.
unfoldable pub run_calls :
    List ResolveCall → StateTables → StateTables × List CurrentStateResolution
run_calls [] t = (t, [])
run_calls ((anchor_id, now, resolve_scope, r) ∷ calls) t =
    elim (resolve_current_state_after_ingest anchor_id now resolve_scope r t) [
      | none ↦ run_calls calls t
      | some (t', response) ↦
          let (last, responses) = run_calls calls t' in (last, response ∷ responses)
    ]

unfoldable pub note_all : List CurrentStateResolution → CurrentView → CurrentView
note_all [] v = v
note_all (r ∷ responses) v = note_all responses (note r v)

pub key_eqb→eq : (k j : StateKey) → key_eqb k j ≡ true → k ≡ j
key_eqb→eq k j h =
    let ws : k.workspace_id ≡ j.workspace_id =
      ground (arith, eq_iff k.workspace_id j.workspace_id, h) in
    let mt : k.memory_type ≡ j.memory_type =
      ground (arith, eq_iff k.memory_type j.memory_type, h) in
    let si : k.state_identity ≡ j.state_identity =
      ground (arith, eq_iff k.state_identity j.state_identity, h) in
    cc

pub key_eqb_refl : (k : StateKey) → key_eqb k k ≡ true
key_eqb_refl k = rw (eq_refl k.workspace_id, eq_refl k.memory_type, eq_refl k.state_identity) refl

pub key_differs : (k j : StateKey) → key_eqb k j ≡ false → k ≢ j
key_differs k j differ e =
    let same = subst (λ (q : StateKey). key_eqb k q ≡ true) e (key_eqb_refl k) in cc

pub note-active :
    (reason : String) (scope : ScopeResolution) (k j : StateKey) (c anchor_id : String)
    (supersedes_id : Option String) (idempotent : Bool) (v : CurrentView)
    → note (active reason scope k c anchor_id supersedes_id idempotent) v j
      ≡ (if key_eqb k j then some c else v j)
unfolding active
note-active reason scope k j c anchor_id supersedes_id idempotent v = ground arith

pub current_in-supersede :
    (k j : StateKey) (c : String) (anchors : List AnchorRow)
    → k ≢ j
    → current_in (supersede k c anchors) j ≡ current_in anchors j
unfolding supersede
current_in-supersede k j c [] differ = refl
current_in-supersede k j c (a ∷ anchors) differ = elim (Bool-cases (is_active k a)) [
  | inr other ↦ rw other (rw (current_in-supersede k j c anchors differ) refl)
  | inl own ↦ elim (Bool-cases (column_is c a.content_id)) [
    | inl same ↦ rw (own, same) (rw (current_in-supersede k j c anchors differ) refl)
    | inr differs ↦
        rw (own, differs, is_active-superseded k j a, is_active_other k j a differ own)
          (current_in-supersede k j c anchors differ)
  ]
]

pub no_active :
    (k : StateKey) (c : String) (anchors : List AnchorRow)
    → tally (is_active k) anchors ≡ 0
    → find_same k c anchors ≡ none
unfolding find_same
no_active k c [] h = refl
no_active k c (a ∷ anchors) h = ground (arith, h, no_active k c anchors)

pub column_is-eq : (c : String) (o : Option String) → column_is c o ≡ true → o ≡ some c
column_is-eq c none h = cc
column_is-eq c (some d) h = ap (λ (q : String). some q) (ground (arith, eq_iff d c, h))

pub current_in-find_same :
    (k : StateKey) (c : String) (anchors : List AnchorRow) (a : AnchorRow)
    → tally (is_active k) anchors ≤ 1
    → find_same k c anchors ≡ some a
    → current_in anchors k ≡ some c
unfolding find_same
current_in-find_same k c [] a single h = cc
current_in-find_same k c (x ∷ anchors) a single h = elim (Bool-cases (is_active k x)) [
  | inr other ↦ rw other (
      current_in-find_same k c anchors a (ground (arith, other, single)) (ground (arith, other, h)))
  | inl own ↦ elim (Bool-cases (column_is c x.content_id)) [
    | inl same ↦ rw own (column_is-eq c x.content_id same)
    | inr differs ↦
        let missing = no_active k c anchors (ground (arith, own, single)) in
        ground (arith, own, differs, h, missing)
  ]
]
