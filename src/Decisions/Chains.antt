-- ===== src/Decisions/Chains.antt =====
-- The order of the decisions: a decision supersedes an older one, and is marked as superseded by one
-- that names it. What each operation keeps of this.
use context_brain_memory_lab.Prelude.{
  ◌≡◌, ◌≢◌, refl, ap, subst, ◌∙◌, String, Bool, true, false, ◌&&◌, Option, none, some, List, [],
  ◌∷◌, map, arith, if◌then◌else◌, All, Option-cases, Bool-cases, inl, inr,
}
use text.Mathlib.Text.{◌==◌}
use text.Mathlib.TextEquality.{eq_iff}
use text.Mathlib.TextPositions.{eq_refl}
use context_brain_memory_lab.Prelude.Names.{Distinct}
use context_brain_memory_lab.Decisions.Store.{
  DecisionCreate, DecisionRow, is_same, in_workspace, explain_decision, mark_superseded,
  decision_row, insert_decision, create_decision, superseded_exists,
}

abbrev pub id_of : DecisionRow → String
id_of r = r.decision_id

unfoldable pub has_decision : String → List DecisionRow → Bool
has_decision id [] = false
has_decision id (r ∷ rows) = if r.decision_id == id then true else has_decision id rows

abbrev pub known : Option String → List DecisionRow → Bool
known none rows = true
known (some id) rows = has_decision id rows

-- Each decision supersedes an older one, if any.
abbrev pub IsOlder : List DecisionRow → Type 0
IsOlder [] = Unit
IsOlder (r ∷ rows) = (known r.supersedes_decision_id rows ≡ true) × IsOlder rows

-- A decision `d` is there that supersedes `id`.
unfoldable pub names : String → String → List DecisionRow → Bool
names d id [] = false
names d id (r ∷ rows) =
    if r.decision_id == d && is_same r.supersedes_decision_id id then true else names d id rows

abbrev pub backed_by : List DecisionRow → String → Option String → Bool
backed_by rows id none = true
backed_by rows id (some d) = names d id rows

abbrev pub is_backed : List DecisionRow → DecisionRow → Bool
is_backed rows r = backed_by rows r.decision_id r.superseded_by_decision_id

pub record IsLinked (rows : List DecisionRow) : Type 0 where
  pub distinct : Distinct (map id_of rows)
  pub older : IsOlder rows
  pub backed : All (λ (r : DecisionRow). is_backed rows r ≡ true) rows

pub explained :
    (ws : Option String) (id : String) (rows : List DecisionRow) (r : DecisionRow)
    → explain_decision ws id rows ≡ some r
    → (r.decision_id ≡ id) × (has_decision id rows ≡ true)
unfolding explain_decision has_decision
explained ws id [] r h = cc
explained ws id (x ∷ rows) r h = ground (arith, eq_iff x.decision_id id, h, explained ws id rows r)

backed_by-kept :
    (old later : List DecisionRow) (id : String) (o : Option String)
    → ((d i : String) → names d i old ≡ true → names d i later ≡ true)
    → backed_by old id o ≡ true
    → backed_by later id o ≡ true
backed_by-kept old later id none keep h = refl
backed_by-kept old later id (some d) keep h = keep d id h

module _ (ws : Option String) (new_id id : String) where
  ids-mark_superseded :
      (rows : List DecisionRow) → map id_of (mark_superseded ws new_id id rows) ≡ map id_of rows
  unfolding mark_superseded
  ids-mark_superseded [] = refl
  ids-mark_superseded (r ∷ rows) = ground (arith, ids-mark_superseded rows)

  known-mark_superseded :
      (o : Option String) (rows : List DecisionRow)
      → known o (mark_superseded ws new_id id rows) ≡ known o rows
  unfolding mark_superseded has_decision
  known-mark_superseded none rows = refl
  known-mark_superseded (some d) [] = refl
  known-mark_superseded (some d) (r ∷ rows) = ground (arith, known-mark_superseded (some d) rows)

  IsOlder-mark_superseded :
      (rows : List DecisionRow) → IsOlder rows → IsOlder (mark_superseded ws new_id id rows)
  unfolding mark_superseded
  IsOlder-mark_superseded [] h = tt
  IsOlder-mark_superseded (r ∷ rows) (hr, h) =
      elim (Bool-cases (r.decision_id == id && in_workspace ws r)) [
        | inl own ↦ rw own (
          known-mark_superseded r.supersedes_decision_id rows ∙ hr,
          IsOlder-mark_superseded rows h,
        )
        | inr other ↦ rw other (
          known-mark_superseded r.supersedes_decision_id rows ∙ hr,
          IsOlder-mark_superseded rows h,
        )
      ]

  names-mark_superseded :
      (d i : String) (rows : List DecisionRow)
      → names d i (mark_superseded ws new_id id rows) ≡ names d i rows
  unfolding mark_superseded names
  names-mark_superseded d i [] = refl
  names-mark_superseded d i (r ∷ rows) = ground (arith, names-mark_superseded d i rows)

  -- The rows that are marked name the new decision, which is in the later table.
  backed-mark_superseded :
      (rows old later : List DecisionRow)
      → ((d i : String) → names d i old ≡ true → names d i later ≡ true)
      → names new_id id later ≡ true
      → All (λ (r : DecisionRow). is_backed old r ≡ true) rows
      → All (λ (r : DecisionRow). is_backed later r ≡ true) (mark_superseded ws new_id id rows)
  unfolding mark_superseded
  backed-mark_superseded [] old later keep new h = tt
  backed-mark_superseded (r ∷ rows) old later keep new (hr, h) =
      elim (Bool-cases (r.decision_id == id && in_workspace ws r)) [
        | inl own ↦
            let same : r.decision_id ≡ id = ground (arith, eq_iff r.decision_id id, own) in
            rw own (rw same new, backed-mark_superseded rows old later keep new h)
        | inr other ↦ rw other (
          backed_by-kept old later r.decision_id r.superseded_by_decision_id keep hr,
          backed-mark_superseded rows old later keep new h,
        )
      ]

names-later :
    (d i : String) (r : DecisionRow) (rows : List DecisionRow)
    → names d i rows ≡ true
    → names d i (r ∷ rows) ≡ true
unfolding names
names-later d i r rows h = ground (arith, h)

fresh-Distinct :
    (id : String) (rows : List DecisionRow)
    → has_decision id rows ≡ false
    → All (λ m. id ≢ m) (map id_of rows)
unfolding has_decision
fresh-Distinct id [] h = tt
fresh-Distinct id (r ∷ rows) h =
    let other = eq_iff r.decision_id id in
    (ground (arith, other, h), fresh-Distinct id rows (ground (arith, h)))

all_backed-later :
    (old later rows : List DecisionRow)
    → ((d i : String) → names d i old ≡ true → names d i later ≡ true)
    → All (λ (r : DecisionRow). is_backed old r ≡ true) rows
    → All (λ (r : DecisionRow). is_backed later r ≡ true) rows
all_backed-later old later [] keep h = tt
all_backed-later old later (r ∷ rows) keep (hr, h) = (
  backed_by-kept old later r.decision_id r.superseded_by_decision_id keep hr,
  all_backed-later old later rows keep h,
)

superseded_exists-known :
    (ws o : Option String) (rows : List DecisionRow)
    → superseded_exists ws o rows ≡ true
    → known o rows ≡ true
superseded_exists-known ws none rows h = refl
superseded_exists-known ws (some id) rows h = elim (Option-cases (explain_decision ws id rows)) [
  | inl missing ↦ ground (arith, missing, h)
  | inr (r, found) ↦ (explained ws id rows r found).1
]

-- A new decision, with or without one that it supersedes.
inserted-IsLinked :
    (r : DecisionRow) (ws o : Option String) (rows : List DecisionRow)
    → r.supersedes_decision_id ≡ o
    → r.superseded_by_decision_id ≡ none
    → has_decision r.decision_id rows ≡ false
    → known o rows ≡ true
    → IsLinked rows
    → IsLinked (r ∷ (elim o [ none ↦ rows | some id ↦ mark_superseded ws r.decision_id id rows ]))
unfolding names
inserted-IsLinked r ws none rows from free fresh there l = record {
  distinct = (fresh-Distinct r.decision_id rows fresh, l.distinct);
  older = (rw from refl, l.older);
  backed = (
    rw free refl,
    all_backed-later rows (r ∷ rows) rows (λ d i. names-later d i r rows) l.backed,
  );
}
inserted-IsLinked r ws (some id) rows from free fresh there l =
    let marked = mark_superseded ws r.decision_id id rows in
    record {
      distinct = (
        rw (ids-mark_superseded ws r.decision_id id rows) (fresh-Distinct r.decision_id rows fresh),
        rw (ids-mark_superseded ws r.decision_id id rows) l.distinct,
      );
      older = (
        ap (λ (o : Option String). known o marked) from
            ∙ (known-mark_superseded ws r.decision_id id (some id) rows ∙ there),
        IsOlder-mark_superseded ws r.decision_id id rows l.older,
      );
      backed = (
        rw free refl,
        backed-mark_superseded ws r.decision_id id rows rows (r ∷ marked)
            (λ d i h.
              names-later d i r marked (names-mark_superseded ws r.decision_id id d i rows ∙ h))
            (rw (from, eq_refl r.decision_id, eq_refl id) refl) l.backed,
      );
    }

pub create_decision-IsLinked :
    (new_id : String) (ws subject : Option String) (payload : DecisionCreate)
    (rows later : List DecisionRow)
    → has_decision new_id rows ≡ false
    → IsLinked rows
    → create_decision new_id ws subject payload rows ≡ some later
    → IsLinked later
unfolding create_decision insert_decision decision_row
create_decision-IsLinked new_id ws subject payload rows later fresh l h =
    elim (Bool-cases (superseded_exists ws payload.supersedes_decision_id rows)) [
      | inr missing ↦ ground (arith, missing, h)
      | inl there ↦
          let done : insert_decision new_id ws subject payload rows ≡ later =
            ground (arith, there, h) in
          subst (λ (q : List DecisionRow). IsLinked q) done
            (inserted-IsLinked (decision_row new_id ws subject payload) ws
              payload.supersedes_decision_id rows refl refl fresh
              (superseded_exists-known ws payload.supersedes_decision_id rows there) l)
    ]
