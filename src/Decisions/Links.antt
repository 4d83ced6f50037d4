-- ===== src/Decisions/Links.antt =====
-- A status change keeps the links, and so does every sequence of operations.
use context_brain_memory_lab.Prelude.{
  ◌≡◌, refl, subst, ◌∙◌, String, true, false, ◌&&◌, Option, none, some, List, [], ◌∷◌, map, arith,
  All, Option-cases, Bool-cases, inl, inr,
}
use text.Mathlib.Text.{◌==◌}
use context_brain_memory_lab.Decisions.Store.{
  DecisionCreate, DecisionRow, in_workspace, explain_decision, set_decision_status, update_status,
  create_decision,
}
use context_brain_memory_lab.Decisions.Chains.{
  id_of, has_decision, known, IsOlder, names, backed_by, is_backed, IsLinked,
  create_decision-IsLinked,
}

module _ (ws : Option String) (id status : String) where
  ids-set_decision_status :
      (rows : List DecisionRow) → map id_of (set_decision_status ws id status rows) ≡ map id_of rows
  unfolding set_decision_status
  ids-set_decision_status [] = refl
  ids-set_decision_status (r ∷ rows) = ground (arith, ids-set_decision_status rows)

  known-set_decision_status :
      (o : Option String) (rows : List DecisionRow)
      → known o (set_decision_status ws id status rows) ≡ known o rows
  unfolding set_decision_status has_decision
  known-set_decision_status none rows = refl
  known-set_decision_status (some d) [] = refl
  known-set_decision_status (some d) (r ∷ rows) =
      ground (arith, known-set_decision_status (some d) rows)

  IsOlder-set_decision_status :
      (rows : List DecisionRow) → IsOlder rows → IsOlder (set_decision_status ws id status rows)
  unfolding set_decision_status
  IsOlder-set_decision_status [] h = tt
  IsOlder-set_decision_status (r ∷ rows) (hr, h) =
      let still = known-set_decision_status r.supersedes_decision_id rows ∙ hr in
      elim (Bool-cases (r.decision_id == id && in_workspace ws r)) [
        | inl own ↦ rw own (still, IsOlder-set_decision_status rows h)
        | inr other ↦ rw other (still, IsOlder-set_decision_status rows h)
      ]

  names-set_decision_status :
      (d i : String) (rows : List DecisionRow)
      → names d i (set_decision_status ws id status rows) ≡ names d i rows
  unfolding set_decision_status names
  names-set_decision_status d i [] = refl
  names-set_decision_status d i (r ∷ rows) = ground (arith, names-set_decision_status d i rows)

  backed_by-set_decision_status :
      (rows : List DecisionRow) (i : String) (o : Option String)
      → backed_by (set_decision_status ws id status rows) i o ≡ backed_by rows i o
  backed_by-set_decision_status rows i none = refl
  backed_by-set_decision_status rows i (some d) = names-set_decision_status d i rows

  backed-set_decision_status :
      (table rows : List DecisionRow)
      → All (λ (r : DecisionRow). is_backed table r ≡ true) rows
      → All
          (λ (r : DecisionRow). is_backed (set_decision_status ws id status table) r ≡ true)
          (set_decision_status ws id status rows)
  unfolding set_decision_status
  backed-set_decision_status table [] h = tt
  backed-set_decision_status table (r ∷ rows) (hr, h) =
      let still =
        backed_by-set_decision_status table r.decision_id r.superseded_by_decision_id ∙ hr in
      elim (Bool-cases (r.decision_id == id && in_workspace ws r)) [
        | inl own ↦ rw own (still, backed-set_decision_status table rows h)
        | inr other ↦ rw other (still, backed-set_decision_status table rows h)
      ]

pub update_status-IsLinked :
    (ws : Option String) (id status : String) (rows later : List DecisionRow)
    → IsLinked rows
    → update_status ws id status rows ≡ some later
    → IsLinked later
unfolding update_status
update_status-IsLinked ws id status rows later l h =
    elim (Option-cases (explain_decision ws id rows)) [
      | inl missing ↦ ground (arith, missing, h)
      | inr (r, found) ↦
          let done : set_decision_status ws id status rows ≡ later = ground (arith, found, h) in
          subst (λ (q : List DecisionRow). IsLinked q) done
            (record {
              distinct = rw (ids-set_decision_status ws id status rows) l.distinct;
              older = IsOlder-set_decision_status ws id status rows l.older;
              backed = backed-set_decision_status ws id status rows rows l.backed;
            })
    ]

-- Any sequence of creations, each under an id that is new, and status changes, in any workspaces.
pub data Decided : List DecisionRow → Type 0 where
  nothing : Decided []
  created :
      {rows later : List DecisionRow} (new_id : String) (ws subject : Option String)
      (payload : DecisionCreate)
      → Decided rows
      → has_decision new_id rows ≡ false
      → create_decision new_id ws subject payload rows ≡ some later
      → Decided later
  updated :
      {rows later : List DecisionRow} (ws : Option String) (id status : String)
      → Decided rows
      → update_status ws id status rows ≡ some later
      → Decided later

pub Decided-IsLinked : (rows : List DecisionRow) → Decided rows → IsLinked rows
Decided-IsLinked rows nothing = record { distinct = tt; older = tt; backed = tt }
Decided-IsLinked rows (created {rows = old} new_id ws subject payload before fresh h) =
    create_decision-IsLinked new_id ws subject payload old rows fresh (Decided-IsLinked old before)
      h
Decided-IsLinked rows (updated {rows = old} ws id status before h) =
    update_status-IsLinked ws id status old rows (Decided-IsLinked old before) h
