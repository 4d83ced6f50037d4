-- ===== src/CurrentState/Single.antt =====
-- A state has one active anchor at most: what `supersede` and the new anchor do to the anchors of each key.
use context_brain_memory_lab.Prelude.{
  ◌≤◌, ◌≡◌, ◌≢◌, refl, String, true, false, Option, none, some, List, [], ◌∷◌, arith, tally,
  Bool-cases, inl, inr,
}
use text.Mathlib.TextEquality.{eq_iff}
use context_brain_memory_lab.CurrentState.Tables.{
  AnchorRow, StateTables, StateKey, column_is, has_key, is_active, find_same, supersede,
}

-- At most one active anchor for each key.
abbrev pub IsSingle : StateTables → Type 0
IsSingle t = (k : StateKey) → tally (is_active k) t.anchors ≤ 1

column_is-some :
    (s t : String) (o : Option String) → column_is s o ≡ true → column_is t o ≡ true → s ≡ t
column_is-some s t none h g = cc
column_is-some s t (some u) h g = ground (arith, eq_iff u s, eq_iff u t, h, g)

has_key_same : (k j : StateKey) (a : AnchorRow) → has_key k a ≡ true → has_key j a ≡ true → k ≡ j
has_key_same k j a h g =
    let ws : k.workspace_id ≡ j.workspace_id =
      ground
        (arith, eq_iff a.workspace_id k.workspace_id, eq_iff a.workspace_id j.workspace_id, h, g) in
    let mt : k.memory_type ≡ j.memory_type =
      ground
        (arith, eq_iff a.memory_type k.memory_type, eq_iff a.memory_type j.memory_type, h, g) in
    let si : k.state_identity ≡ j.state_identity =
      column_is-some k.state_identity j.state_identity a.state_identity (ground (arith, h))
        (ground (arith, g)) in
    cc

pub is_active_other :
    (k j : StateKey) (a : AnchorRow) → k ≢ j → is_active k a ≡ true → is_active j a ≡ false
is_active_other k j a differ h = elim (Bool-cases (is_active j a)) [
  | inl both ↦ absurd (differ (has_key_same k j a (ground (arith, h)) (ground (arith, both))))
  | inr other ↦ other
]

pub is_active-superseded :
    (k j : StateKey) (a : AnchorRow)
    → is_active j (record a { state_status = "superseded" }) ≡ false
is_active-superseded k j a = ground arith

pub tally-supersede :
    (k : StateKey) (c : String) (anchors : List AnchorRow)
    → find_same k c anchors ≡ none
    → tally (is_active k) (supersede k c anchors) ≡ 0
unfolding find_same supersede
tally-supersede k c [] h = refl
tally-supersede k c (a ∷ anchors) h = elim (Bool-cases (is_active k a)) [
  | inr other ↦ rw (other, other) (tally-supersede k c anchors (ground (arith, other, h)))
  | inl own ↦ elim (Bool-cases (column_is c a.content_id)) [
    | inl same ↦ ground (arith, own, same, h)
    | inr differs ↦
        rw (own, differs)
          (ground (
            arith,
            is_active-superseded k k a,
            tally-supersede k c anchors (ground (arith, own, differs, h)),
          ))
  ]
]

pub tally-supersede_other :
    (k j : StateKey) (c : String) (anchors : List AnchorRow)
    → k ≢ j
    → tally (is_active j) (supersede k c anchors) ≡ tally (is_active j) anchors
unfolding supersede
tally-supersede_other k j c [] differ = refl
tally-supersede_other k j c (a ∷ anchors) differ = ground (
  arith,
  tally-supersede_other k j c anchors differ,
  is_active-superseded k j a,
  is_active_other k j a differ,
)
