-- ===== src/Decisions/Creation.antt =====
-- What a creation that supersedes a decision does to both lineages.
use context_brain_memory_lab.Prelude.{
  ◌≡◌, refl, ap, subst, ◌∙◌, ℕ, zero, suc, take, String, true, false, Option, none, some, List, [],
  ◌∷◌, map, arith, Bool-cases, inl, inr,
}
use text.Mathlib.Text.{◌==◌}
use text.Mathlib.TextEquality.{eq_iff}
use text.Mathlib.TextPositions.{eq_refl}
use context_brain_memory_lab.Prelude.Names.{contains}
use context_brain_memory_lab.Decisions.Store.{
  DecisionCreate, DecisionRow, valid_statuses, valid_confidence, in_workspace, explain_decision,
  mark_superseded, decision_row, insert_decision, create_decision, superseded_exists,
}
use context_brain_memory_lab.Decisions.Lineage.{
  DecisionLineageResponse, node_of, max_depth, walk, supersedes_of, superseded_by_of, lineage_of,
  get_lineage,
}
use context_brain_memory_lab.Decisions.Chains.{has_decision, explained}
use context_brain_memory_lab.Decisions.Falls.{walk-found}

own_workspace :
    (new_id : String) (ws subject : Option String) (payload : DecisionCreate)
    → in_workspace ws (decision_row new_id ws subject payload) ≡ true
unfolding decision_row
own_workspace new_id none subject payload = refl
own_workspace new_id (some w) subject payload = eq_refl w

explain-new :
    (new_id : String) (ws subject : Option String) (payload : DecisionCreate)
    (rows : List DecisionRow)
    → explain_decision ws new_id (decision_row new_id ws subject payload ∷ rows)
      ≡ some (decision_row new_id ws subject payload)
unfolding explain_decision decision_row
explain-new new_id ws subject payload rows =
    ground (arith, eq_refl new_id, own_workspace new_id ws subject payload)

-- The row of a decision that was superseded.
marked : String → DecisionRow → DecisionRow
marked new_id r = record r {
  superseded_by_decision_id = some new_id;
  decision_status = "superseded";
}

in_workspace-marked :
    (ws : Option String) (new_id : String) (r : DecisionRow)
    → in_workspace ws (marked new_id r) ≡ in_workspace ws r
unfolding marked
in_workspace-marked none new_id r = refl
in_workspace-marked (some w) new_id r = refl

explain-mark_superseded :
    (ws : Option String) (new_id id : String) (rows : List DecisionRow) (r : DecisionRow)
    → explain_decision ws id rows ≡ some r
    → explain_decision ws id (mark_superseded ws new_id id rows) ≡ some (marked new_id r)
unfolding explain_decision mark_superseded marked
explain-mark_superseded ws new_id id [] r h = cc
explain-mark_superseded ws new_id id (x ∷ rows) r h =
    ground (arith, h, in_workspace-marked ws new_id x, explain-mark_superseded ws new_id id rows r)

insert_decision-supersedes :
    (new_id id : String) (ws subject : Option String) (payload : DecisionCreate)
    (rows : List DecisionRow)
    → payload.supersedes_decision_id ≡ some id
    → insert_decision new_id ws subject payload rows
      ≡ decision_row new_id ws subject payload ∷ mark_superseded ws new_id id rows
unfolding insert_decision
insert_decision-supersedes new_id id ws subject payload rows target =
    rw (target, insert_decision) refl

create_decision-goes :
    (new_id id : String) (ws subject : Option String) (payload : DecisionCreate)
    (rows : List DecisionRow) (old : DecisionRow)
    → explain_decision ws id rows ≡ some old
    → payload.supersedes_decision_id ≡ some id
    → contains payload.decision_status valid_statuses ≡ true
    → contains payload.confidence_level valid_confidence ≡ true
    → create_decision new_id ws subject payload rows
      ≡ some (insert_decision new_id ws subject payload rows)
unfolding create_decision
create_decision-goes new_id id ws subject payload rows old found target status confidence =
    let there : superseded_exists ws payload.supersedes_decision_id rows ≡ true =
      ap (λ (o : Option String). superseded_exists ws o rows) target
      ∙ rw (found, superseded_exists) refl in
    rw (there, status, confidence) refl

get_lineage-found :
    (ws : Option String) (id : String) (rows : List DecisionRow) (r : DecisionRow)
    → explain_decision ws id rows ≡ some r
    → get_lineage ws id rows ≡ some (lineage_of ws rows r)
unfolding get_lineage
get_lineage-found ws id rows r found = rw (found, get_lineage) refl

two_ids :
    (new_id id : String) (rows : List DecisionRow)
    → has_decision new_id rows ≡ false
    → has_decision id rows ≡ true
    → (new_id == id) ≡ false
two_ids new_id id rows fresh there = elim (Bool-cases (new_id == id)) [
  | inr differ ↦ differ
  | inl same ↦
      let equal : new_id ≡ id = ground (arith, eq_iff new_id id, same) in
      let clash = subst (λ (q : String). has_decision q rows ≡ false) equal fresh in cc
]

explain-other :
    (ws : Option String) (new_id id : String) (subject : Option String) (payload : DecisionCreate)
    (rows : List DecisionRow) (old : DecisionRow)
    → (new_id == id) ≡ false
    → explain_decision ws id rows ≡ some old
    → explain_decision ws id
        (decision_row new_id ws subject payload ∷ mark_superseded ws new_id id rows)
      ≡ some (marked new_id old)
unfolding explain_decision decision_row
explain-other ws new_id id subject payload rows old differ found =
    rw differ (explain-mark_superseded ws new_id id rows old found)

walk-none :
    (next : DecisionRow → Option String) (ws : Option String) (rows : List DecisionRow) (depth : ℕ)
    → walk next ws rows depth none ≡ []
unfolding walk
walk-none next ws rows zero = refl
walk-none next ws rows (suc depth) = refl

-- A creation that supersedes a decision of the workspace goes through, and both lineages say so at
-- once: the new decision has the other as its nearest ancestor and no descendant, the other has the
-- new one as its only descendant and is superseded. The id is new, the status and the confidence are
-- known.
pub get_lineage-create_decision :
    (new_id id : String) (ws subject : Option String) (payload : DecisionCreate)
    (rows : List DecisionRow) (old : DecisionRow)
    → has_decision new_id rows ≡ false
    → explain_decision ws id rows ≡ some old
    → payload.supersedes_decision_id ≡ some id
    → contains payload.decision_status valid_statuses ≡ true
    → contains payload.confidence_level valid_confidence ≡ true
    → (later : List DecisionRow) × (mine theirs : DecisionLineageResponse) × (create_decision new_id
          ws subject payload rows
        ≡ some later)
      × (get_lineage ws new_id later ≡ some mine)
      × (get_lineage ws id later ≡ some theirs)
      × (take 1 mine.ancestors ≡ record (node_of old) { decision_status = "superseded" } ∷ [])
      × (mine.descendants ≡ [])
      × (theirs.descendants ≡ node_of (decision_row new_id ws subject payload) ∷ [])
unfolding lineage_of marked decision_row
get_lineage-create_decision new_id id ws subject payload rows old fresh found target status
      confidence =
    let r = decision_row new_id ws subject payload in
    let later = r ∷ mark_superseded ws new_id id rows in
    let there = (explained ws id rows old found).1 in
    let mine = explain-new new_id ws subject payload (mark_superseded ws new_id id rows) in
    let theirs : explain_decision ws id later ≡ some (marked new_id old) =
      explain-other ws new_id id subject payload rows old (two_ids new_id id rows fresh there)
        found in
    (
      later,
      lineage_of ws later r,
      lineage_of ws later (marked new_id old),
      create_decision-goes new_id id ws subject payload rows old found target status confidence
          ∙ ap (λ (q : List DecisionRow). some q)
              (insert_decision-supersedes new_id id ws subject payload rows target),
      get_lineage-found ws new_id later r mine,
      get_lineage-found ws id later (marked new_id old) theirs,
      ap (λ (o : Option String). take 1 (map node_of (walk supersedes_of ws later max_depth o)))
            target
          ∙ ap (λ (l : List DecisionRow). take 1 (map node_of l))
              (walk-found supersedes_of ws later 9 id (marked new_id old) theirs),
      ap (λ (l : List DecisionRow). map node_of l) (walk-none superseded_by_of ws later max_depth),
      ap (λ (l : List DecisionRow). map node_of l)
          (walk-found superseded_by_of ws later 9 new_id r mine
            ∙ ap (λ (l : List DecisionRow). r ∷ l) (walk-none superseded_by_of ws later 9)),
    )
