-- ===== src/TierAdmin/Reviews.antt =====
-- What the resolution of an escalation does to the tables.
use context_brain_memory_lab.Prelude.{
  ℕ, ◌≡◌, ◌≢◌, refl, sym, ap, subst, ◌∙◌, String, Bool, true, ◌&&◌, Option, none, some, List, [],
  ◌∷◌, arith, Option-cases, Bool-cases, inl, inr,
}
use text.Mathlib.Text.{◌==◌}
use text.Mathlib.TextEquality.{eq_iff}
use context_brain_memory_lab.Prelude.Names.{contains}
use context_brain_memory_lab.Governance.Transition.{validate_transition}
use context_brain_memory_lab.Governance.Events.{Stamp}
use context_brain_memory_lab.TierAdmin.Tables.{
  ContentRow, EscalationRow, World, AuthContext, invalid_event, already_resolved, refused,
  committed, fetch_tier,
}
use context_brain_memory_lab.Governance.Transition.{terminal_tiers}
use context_brain_memory_lab.TierAdmin.Resolution.{
  find_escalation, set_status, Decision, approve, reject, new_status, resolve, resolve_row,
  resolve_content, resolution_fields, close_escalation,
}
use context_brain_memory_lab.TierAdmin.Logged.{move_tier_lem}
use context_brain_memory_lab.TierAdmin.Keeps.{committed_or_lem}
use context_brain_memory_lab.Prelude.Str.{◌+++◌}
use context_brain_memory_lab.TierAdmin.KeepsReviews.{closed}
use context_brain_memory_lab.TierAdmin.Rollbacks.{fetch_tier-moved}

pub id_of_found :
    (id workspace_id : String) (rows : List EscalationRow) (r : EscalationRow)
    → find_escalation id workspace_id rows ≡ some r
    → r.id ≡ id
unfolding find_escalation
id_of_found id workspace_id [] r found = cc
id_of_found id workspace_id (x ∷ rows) r found =
    elim (Bool-cases (x.id == id && x.workspace_id == workspace_id)) [
      | inl own ↦ ground (arith, own, found, eq_iff x.id id)
      | inr later ↦ id_of_found id workspace_id rows r (rw (later, find_escalation) at found)
    ]

find_escalation-set_status :
    (id workspace_id status : String) (by : Option String) (rows : List EscalationRow)
    (r : EscalationRow)
    → find_escalation id workspace_id rows ≡ some r
    → find_escalation id workspace_id (set_status id status by rows)
      ≡ some (record r { status = status; resolved_by = by })
unfolding find_escalation set_status
find_escalation-set_status id workspace_id status by [] r found = cc
find_escalation-set_status id workspace_id status by (x ∷ rows) r found =
    ground (arith, found, find_escalation-set_status id workspace_id status by rows r)

-- The tables behind the tier write of a resolution.
escalations-resolve_content :
    (stamp : Stamp) (auth : AuthContext) (decision : Decision) (o : Option String) (w w' : World)
    → resolve_content stamp auth decision o w ≡ some w'
    → w'.escalations ≡ w.escalations
unfolding resolve_content
escalations-resolve_content stamp auth decision none w w' h = cc
escalations-resolve_content stamp auth decision (some c) w w' h =
    ap (λ (q : World). q.escalations)
      (move_tier_lem stamp ("escalation_" +++ new_status decision)
        (resolution_fields auth decision c (fetch_tier c w.contents)) w w' h)

-- What a committed resolution has done.
pub record IsResolved (stamp : Stamp) (auth : AuthContext) (decision : Decision) (r : EscalationRow)
    (w w' : World) : Type 0 where
  middle : World
  written : resolve_content stamp auth decision r.content_id w ≡ some middle
  contents_lem : w'.contents ≡ middle.contents
  pub escalations_lem :
      w'.escalations
      ≡ set_status r.id (new_status decision) (some auth.auth_subject_id) w.escalations

close_escalation_lem :
    (stamp : Stamp) (auth : AuthContext) (decision : Decision) (r : EscalationRow) (w w' : World)
    → close_escalation auth decision r.id (resolve_content stamp auth decision r.content_id w)
      ≡ some w'
    → IsResolved stamp auth decision r w w'
close_escalation_lem stamp auth decision r w w' h =
    elim (Option-cases (resolve_content stamp auth decision r.content_id w)) [
      | inl unsent ↦ ground (arith, unsent, h)
      | inr (m, went) ↦
          let closing : close_escalation auth decision r.id (some m) ≡ some w' = rw went at h in
          let same : closed auth decision r.id m ≡ w' = cc in
          let kept = escalations-resolve_content stamp auth decision r.content_id w m went in
          record {
            middle = m;
            written = went;
            contents_lem = sym (ap (λ (q : World). q.contents) same);
            escalations_lem = sym (ap (λ (q : World). q.escalations) same) ∙ rw kept refl;
          }
    ]

resolve_row_lem :
    (stamp : Stamp) (now : ℕ) (auth : AuthContext) (decision : Decision) (r : EscalationRow)
    (w w' : World)
    → resolve_row stamp now auth decision r w ≡ committed w'
    → IsResolved stamp auth decision r w w'
unfolding resolve_row
resolve_row_lem stamp now auth decision r w w' h = close_escalation_lem stamp auth decision r w w' (
    committed_or_lem invalid_event
      (close_escalation auth decision r.id (resolve_content stamp auth decision r.content_id w)) w'
      (ground (arith, h)))

pub resolve_cases :
    (is_uuid : String → Bool) (stamp : Stamp) (now : ℕ) (auth : AuthContext) (decision : Decision)
    (id : String) (w w' : World)
    → resolve is_uuid stamp now auth decision id w ≡ committed w'
    → (is_uuid id ≡ true)
      × (r : EscalationRow) × (find_escalation id auth.workspace_id w.escalations ≡ some r)
      × IsResolved stamp auth decision r w w'
unfolding resolve
resolve_cases is_uuid stamp now auth decision id w w' h = elim (Bool-cases (is_uuid id)) [
  | inr bad ↦ ground (arith, bad, h)
  | inl good ↦ elim (Option-cases (find_escalation id auth.workspace_id w.escalations)) [
    | inl missing ↦ ground (arith, good, missing, h)
    | inr (r, found) ↦ (
      good,
      r,
      found,
      resolve_row_lem stamp now auth decision r w w' (rw (good, found, resolve) at h),
    )
  ]
]

pub resolve_again :
    (is_uuid : String → Bool) (stamp : Stamp) (now : ℕ) (again : AuthContext)
    (other decision : Decision) (id : String) (r : EscalationRow) (w : World)
    → is_uuid id ≡ true
    → find_escalation id again.workspace_id w.escalations ≡ some r
    → r.status ≡ new_status decision
    → resolve is_uuid stamp now again other id w ≡ refused (already_resolved (new_status decision))
unfolding resolve resolve_row
resolve_again is_uuid stamp now again other approve id r w good found status =
    rw (good, found, status, resolve, resolve_row) refl
resolve_again is_uuid stamp now again other reject id r w good found status =
    rw (good, found, status, resolve, resolve_row) refl

pub found_closed :
    (stamp : Stamp) (auth again : AuthContext) (decision : Decision) (id : String)
    (r : EscalationRow) (w w' : World)
    → again.workspace_id ≡ auth.workspace_id
    → find_escalation id auth.workspace_id w.escalations ≡ some r
    → IsResolved stamp auth decision r w w'
    → find_escalation id again.workspace_id w'.escalations
      ≡ some (record r { status = new_status decision; resolved_by = some auth.auth_subject_id })
found_closed stamp auth again decision id r w w' same found done =
    ap (λ (q : String). find_escalation id q w'.escalations) same
    ∙ (ap (λ (q : List EscalationRow). find_escalation id auth.workspace_id q)
          (done.escalations_lem
            ∙ ap
                (λ (q : String).
                  set_status q (new_status decision) (some auth.auth_subject_id) w.escalations)
                (id_of_found id auth.workspace_id w.escalations r found))
        ∙ find_escalation-set_status id auth.workspace_id (new_status decision)
            (some auth.auth_subject_id) w.escalations r found)

terminal_gate :
    (p trigger : String)
    → contains p terminal_tiers ≡ true
    → validate_transition (some p) "persistent" trigger ≢ none
unfolding validate_transition
terminal_gate p trigger terminal h = ground (arith, terminal, h)

-- An approval does not ask for the tier that the content has by then: content that became archived,
-- decayed or superseded after its escalation is persistent again, although the transition matrix
-- refuses that transition for every trigger.
pub resolve-approve_revives :
    (is_uuid : String → Bool) (stamp : Stamp) (now : ℕ) (auth : AuthContext) (id c p : String)
    (r : EscalationRow) (w w' : World)
    → find_escalation id auth.workspace_id w.escalations ≡ some r
    → r.content_id ≡ some c
    → fetch_tier c w.contents ≡ some p
    → contains p terminal_tiers ≡ true
    → resolve is_uuid stamp now auth approve id w ≡ committed w'
    → (fetch_tier c w'.contents ≡ some "persistent")
      × ((trigger : String) → validate_transition (some p) "persistent" trigger ≢ none)
unfolding resolve_content resolution_fields
resolve-approve_revives is_uuid stamp now auth id c p r w w' found target was terminal h =
    let (good, q, here, done) = resolve_cases is_uuid stamp now auth approve id w w' h in
    let same : q ≡ r = cc in
    let fields = resolution_fields auth approve c (fetch_tier c w.contents) in
    let reason : String = "escalation_" +++ new_status approve in
    let written : resolve_content stamp auth approve (some c) w ≡ some done.middle =
      subst (λ (o : Option String). resolve_content stamp auth approve o w ≡ some done.middle)
        (ap (λ (x : EscalationRow). x.content_id) same ∙ target) done.written in
    (
      ap (λ (l : List ContentRow). fetch_tier c l) done.contents_lem
          ∙ (ap (λ (m : World). fetch_tier c m.contents)
                (move_tier_lem stamp reason fields w done.middle written)
              ∙ fetch_tier-moved stamp reason fields w p was),
      λ trigger. terminal_gate p trigger terminal,
    )
