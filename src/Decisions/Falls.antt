-- ===== src/Decisions/Falls.antt =====
-- The chains of the lineage run back in time.
use context_brain_memory_lab.Prelude.{
  ◌≡◌, ◌≢◌, refl, sym, ap, subst, ◌∙◌, ℕ, zero, suc, ◌≤◌, ◌<◌, length, String, true, false, ◌&&◌,
  Option, none, some, List, [], ◌∷◌, map, arith, if◌then◌else◌, All, Option-cases, Bool-cases, inl,
  inr,
}
use text.Mathlib.Text.{◌==◌}
use text.Mathlib.TextEquality.{eq_iff}
use context_brain_memory_lab.Prelude.Names.{Distinct}
use context_brain_memory_lab.Decisions.Store.{DecisionRow, in_workspace, explain_decision}
use context_brain_memory_lab.Decisions.Lineage.{
  LineageNode, DecisionLineageResponse, node_of, max_depth, walk, supersedes_of, lineage_of,
  get_lineage,
}
use context_brain_memory_lab.Decisions.Chains.{
  id_of, has_decision, known, IsOlder, is_backed, IsLinked, explained,
}
use context_brain_memory_lab.Decisions.Links.{Decided, Decided-IsLinked}

-- The number of the decision in the order of creation.
unfoldable pub age_of : String → List DecisionRow → ℕ
age_of id [] = 0
age_of id (r ∷ rows) = if r.decision_id == id then suc (length rows) else age_of id rows

-- Each decision is older than the one before, and than `n`.
abbrev pub IsFalling : List DecisionRow → ℕ → List LineageNode → Type 0
IsFalling table n [] = Unit
IsFalling table n (r ∷ rs) =
    (age_of r.decision_id table < n) × IsFalling table (age_of r.decision_id table) rs

age_of_known :
    (id : String) (rows : List DecisionRow)
    → has_decision id rows ≡ true
    → age_of id rows ≤ length rows
unfolding age_of has_decision
age_of_known id [] h = cc
age_of_known id (r ∷ rows) h = ground (arith, h, age_of_known id rows)

not_head :
    (r : DecisionRow) (id : String) (rows : List DecisionRow)
    → All (λ m. r.decision_id ≢ m) (map id_of rows)
    → has_decision id rows ≡ true
    → (r.decision_id == id) ≡ false
unfolding has_decision
not_head r id [] d h = cc
not_head r id (x ∷ rows) (dx, d) h =
    let same = eq_iff r.decision_id id in
    let there = eq_iff x.decision_id id in
    elim (Bool-cases (x.decision_id == id)) [
      | inr other ↦ not_head r id rows d (ground (arith, other, h))
      | inl own ↦ elim (Bool-cases (r.decision_id == id)) [
        | inr differ ↦ differ
        | inl clash ↦
            let mine : r.decision_id ≡ id = ground (arith, same, clash) in
            let its : x.decision_id ≡ id = ground (arith, there, own) in
            absurd (dx (mine ∙ sym its))
      ]
    ]

older_falls :
    (ws : Option String) (id s : String) (rows : List DecisionRow) (r : DecisionRow)
    → Distinct (map id_of rows)
    → IsOlder rows
    → explain_decision ws id rows ≡ some r
    → r.supersedes_decision_id ≡ some s
    → (has_decision s rows ≡ true) × (age_of s rows < age_of id rows)
unfolding explain_decision age_of has_decision
older_falls ws id s [] r d o h from = cc
older_falls ws id s (x ∷ rows) r (dx, d) (ox, o) h from =
    elim (Bool-cases (x.decision_id == id && in_workspace ws x)) [
      | inl own ↦
          let same : x ≡ r = ground (arith, own, h) in
          let first : x.supersedes_decision_id ≡ some s =
            ap (λ (q : DecisionRow). q.supersedes_decision_id) same ∙ from in
          let there = subst (λ (q : Option String). known q rows ≡ true) first ox in
          let mine : (x.decision_id == id) ≡ true = ground (arith, own) in
          let differ = not_head x s rows dx there in
          let low = age_of_known s rows there in rw (mine, differ) (there, omega (arith, low))
      | inr other ↦
          let later = rw (other, explain_decision) at h in
          let (there, falls) = older_falls ws id s rows r d o later from in
          let differ = not_head x s rows dx there in
          let mine = not_head x id rows dx (explained ws id rows r later).1 in
          rw (mine, differ) (there, falls)
    ]

-- The reference, if any, is to a decision created before the `n`th.
abbrev IsBelow : List DecisionRow → ℕ → Option String → Type 0
IsBelow rows n none = Unit
IsBelow rows n (some s) = age_of s rows < n

parent-IsBelow :
    (ws : Option String) (id : String) (rows : List DecisionRow) (r : DecisionRow)
    (o : Option String)
    → IsLinked rows
    → explain_decision ws id rows ≡ some r
    → r.supersedes_decision_id ≡ o
    → IsBelow rows (age_of id rows) o
parent-IsBelow ws id rows r none l found from = tt
parent-IsBelow ws id rows r (some s) l found from =
    (older_falls ws id s rows r l.distinct l.older found from).1

pub walk-missing :
    (next : DecisionRow → Option String) (ws : Option String) (rows : List DecisionRow) (depth : ℕ)
    (id : String)
    → explain_decision ws id rows ≡ none
    → walk next ws rows (suc depth) (some id) ≡ []
unfolding walk
walk-missing next ws rows depth id missing = rw (missing, walk) refl

pub walk-found :
    (next : DecisionRow → Option String) (ws : Option String) (rows : List DecisionRow) (depth : ℕ)
    (id : String) (r : DecisionRow)
    → explain_decision ws id rows ≡ some r
    → walk next ws rows (suc depth) (some id) ≡ r ∷ walk next ws rows depth (next r)
unfolding walk
walk-found next ws rows depth id r found = rw (found, walk) refl

walk_falls :
    (ws : Option String) (rows : List DecisionRow) (depth n : ℕ) (o : Option String)
    → IsLinked rows
    → IsBelow rows n o
    → IsFalling rows n (map node_of (walk supersedes_of ws rows depth o))
unfolding walk
walk_falls ws rows zero n o l low = tt
walk_falls ws rows (suc depth) n none l low = tt
walk_falls ws rows (suc depth) n (some id) l low =
    elim (Option-cases (explain_decision ws id rows)) [
      | inl missing ↦
          subst (λ (q : List DecisionRow). IsFalling rows n (map node_of q))
            (sym (walk-missing supersedes_of ws rows depth id missing)) tt
      | inr (r, found) ↦
          let same = sym (explained ws id rows r found).0 in
          subst (λ (q : List DecisionRow). IsFalling rows n (map node_of q))
            (sym (walk-found supersedes_of ws rows depth id r found))
            (
              subst (λ (q : String). age_of q rows < n) same low,
              subst
                  (λ (q : String).
                    IsFalling rows (age_of q rows)
                      (map node_of (walk supersedes_of ws rows depth r.supersedes_decision_id)))
                  same
                  (walk_falls ws rows depth (age_of id rows) r.supersedes_decision_id l
                    (parent-IsBelow ws id rows r r.supersedes_decision_id l found refl)),
            )
    ]

-- In every table that creations and status changes lead to, in any workspaces: the ancestors in a
-- decision's lineage were each created before the one before it, and all before the decision, so that
-- none comes twice; and a decision that is marked as superseded by another is one that the other
-- names as superseded.
pub get_lineage_falls :
    (ws : Option String) (id : String) (rows : List DecisionRow) (l : DecisionLineageResponse)
    → Decided rows
    → get_lineage ws id rows ≡ some l
    → IsFalling rows (age_of id rows) l.ancestors
      × All (λ (x : DecisionRow). is_backed rows x ≡ true) rows
unfolding get_lineage lineage_of
get_lineage_falls ws id rows l decided h =
    let linked = Decided-IsLinked rows decided in
    elim (Option-cases (explain_decision ws id rows)) [
      | inl missing ↦ ground (arith, missing, h)
      | inr (r, found) ↦
          let same : lineage_of ws rows r ≡ l = ground (arith, found, h) in
          (
            subst (λ (q : DecisionLineageResponse). IsFalling rows (age_of id rows) q.ancestors)
                same
                (walk_falls ws rows max_depth (age_of id rows) r.supersedes_decision_id linked
                  (parent-IsBelow ws id rows r r.supersedes_decision_id linked found refl)),
            linked.backed,
          )
    ]
