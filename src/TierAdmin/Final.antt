-- ===== src/TierAdmin/Final.antt =====
-- The resolution of an escalation is final, whatever commits behind it.
use context_brain_memory_lab.Prelude.{
  ℕ, ◌≡◌, ◌≢◌, refl, sym, subst, ◌∙◌, String, Bool, true, false, ◌&&◌, some, List, [], ◌∷◌, map,
  arith, All, Bool-cases, inl, inr,
}
use text.Mathlib.Text.{◌==◌}
use text.Mathlib.TextEquality.{eq_iff}
use context_brain_memory_lab.Prelude.Names.{Distinct}
use context_brain_memory_lab.Governance.Events.{Stamp}
use context_brain_memory_lab.TierAdmin.Tables.{
  EscalationRow, World, AuthContext, already_resolved, refused, committed, save_content,
}
use context_brain_memory_lab.TierAdmin.Escalations.{
  EscalationPlan, persist_escalation, escalation_row,
}
use context_brain_memory_lab.TierAdmin.Resolution.{
  find_escalation, Decision, approve, reject, new_status, resolve, resolve_row,
}
use context_brain_memory_lab.TierAdmin.KeepsReviews.{All-mem}
use context_brain_memory_lab.TierAdmin.History.{
  Step, overridden, rolled_back, resolved, escalated, cleaned, saved,
}
use context_brain_memory_lab.TierAdmin.Reviews.{
  IsResolved, id_of_found, resolve_cases, resolve_again, found_closed,
}
use context_brain_memory_lab.TierAdmin.Untouched.{
  escalations-tier_override, escalations-tier_rollback, escalations-persist_escalation,
}
use context_brain_memory_lab.TierAdmin.Settled.{
  agrees, IsFinal, moved-IsFinal, find_escalation-set_status_other, set_status-settled_other,
  set_status-settled, pending_other, cleanup_ttl-IsFinal,
}

abbrev escalation_id : EscalationRow → String
escalation_id r = r.id

-- Requests and jobs that commit, one after the other, on tables whose escalation ids are a key.
pub data Onward : World → World → Type 0 where
  here : {w : World} → Onward w w
  after :
      {a b c : World}
      → Onward a b
      → Step b c
      → Distinct (map escalation_id c.escalations)
      → Onward a c

-- Only a pending escalation is resolved.
resolve_row_pending :
    (stamp : Stamp) (now : ℕ) (auth : AuthContext) (decision : Decision) (r : EscalationRow)
    (w w' : World)
    → resolve_row stamp now auth decision r w ≡ committed w'
    → (r.status == "pending") ≡ true
unfolding resolve_row
resolve_row_pending stamp now auth decision r w w' h = ground (arith, h)

resolve_pending :
    (is_uuid : String → Bool) (stamp : Stamp) (now : ℕ) (auth : AuthContext) (decision : Decision)
    (id : String) (w w' : World) (r : EscalationRow)
    → is_uuid id ≡ true
    → find_escalation id auth.workspace_id w.escalations ≡ some r
    → resolve is_uuid stamp now auth decision id w ≡ committed w'
    → (r.status == "pending") ≡ true
unfolding resolve
resolve_pending is_uuid stamp now auth decision id w w' r good found h =
    resolve_row_pending stamp now auth decision r w w' (rw (good, found, resolve) at h)

-- The resolution of any escalation but a settled one.
resolve-IsFinal :
    (is_uuid : String → Bool) (stamp : Stamp) (now : ℕ) (auth : AuthContext) (decision : Decision)
    (other id workspace_id status : String) (w w' : World)
    → (status == "pending") ≡ false
    → resolve is_uuid stamp now auth decision other w ≡ committed w'
    → IsFinal id workspace_id status w
    → IsFinal id workspace_id status w'
resolve-IsFinal is_uuid stamp now auth decision other id workspace_id status w w' final h f =
    let (good, r, found, done) = resolve_cases is_uuid stamp now auth decision other w w' h in
    let differs =
      pending_other id status r final
        (All-mem (agrees id status) other auth.workspace_id w.escalations r f.settled found)
        (resolve_pending is_uuid stamp now auth decision other w w' r good found h) in
    record {
      row = f.row;
      found = rw done.escalations_lem (
          find_escalation-set_status_other id workspace_id r.id (new_status decision)
            (some auth.auth_subject_id) w.escalations differs
          ∙ f.found);
      settled = rw done.escalations_lem (
          set_status-settled_other id status r.id (new_status decision) (some auth.auth_subject_id)
            w.escalations differs f.settled);
    }

-- An id that is not among the rows is not that of a row that is found.
new_other :
    (j id workspace_id : String) (rows : List EscalationRow) (r : EscalationRow)
    → All (λ m. j ≢ m) (map escalation_id rows)
    → find_escalation id workspace_id rows ≡ some r
    → (j == id) ≡ false
unfolding find_escalation
new_other j id workspace_id [] r d found = cc
new_other j id workspace_id (x ∷ rows) r (dx, d) found =
    elim (Bool-cases (x.id == id && x.workspace_id == workspace_id)) [
      | inl own ↦ ground (arith, own, dx, eq_iff x.id id, eq_iff j id)
      | inr later ↦ new_other j id workspace_id rows r d (rw (later, find_escalation) at found)
    ]

persist_escalation-IsFinal :
    (stamp : Stamp) (new : String) (now : ℕ) (plan : EscalationPlan)
    (id workspace_id status : String) (w w' : World)
    → persist_escalation stamp new now plan w ≡ committed w'
    → Distinct (map escalation_id w'.escalations)
    → IsFinal id workspace_id status w
    → IsFinal id workspace_id status w'
unfolding escalation_row find_escalation
persist_escalation-IsFinal stamp new now plan id workspace_id status w w' h d f =
    let put = escalations-persist_escalation stamp new now plan w w' h in
    let keys = subst (λ (l : List EscalationRow). Distinct (map escalation_id l)) put d in
    let differs = new_other new id workspace_id w.escalations f.row keys.0 f.found in
    record {
      row = f.row;
      found = rw (put, differs, find_escalation) f.found;
      settled = rw (put, differs) (refl, f.settled);
    }

Step-IsFinal :
    (id workspace_id status : String) (w w' : World)
    → (status == "pending") ≡ false
    → Step w w'
    → Distinct (map escalation_id w'.escalations)
    → IsFinal id workspace_id status w
    → IsFinal id workspace_id status w'
unfolding save_content
Step-IsFinal id workspace_id status w w' final (overridden stamp auth c payload h) d f =
    moved-IsFinal id workspace_id status w w'
      (escalations-tier_override stamp auth c payload w w' h) f
Step-IsFinal id workspace_id status w w' final (rolled_back stamp auth c payload h) d f =
    moved-IsFinal id workspace_id status w w'
      (escalations-tier_rollback stamp auth c payload w w' h) f
Step-IsFinal id workspace_id status w w' final (resolved is_uuid stamp now auth decision other h) d
      f =
    resolve-IsFinal is_uuid stamp now auth decision other id workspace_id status w w' final h f
Step-IsFinal id workspace_id status w w' final (escalated stamp new now plan h) d f =
    persist_escalation-IsFinal stamp new now plan id workspace_id status w w' h d f
Step-IsFinal id workspace_id status w w' final (cleaned stamps now asked dry_run result h) d f =
    cleanup_ttl-IsFinal stamps now asked dry_run result id workspace_id status w w' final h f
Step-IsFinal id workspace_id status w w' final (saved r absent fresh) d f =
    moved-IsFinal id workspace_id status w w' refl f

Onward-IsFinal :
    (id workspace_id status : String) (w w' : World)
    → (status == "pending") ≡ false
    → Onward w w'
    → IsFinal id workspace_id status w
    → IsFinal id workspace_id status w'
Onward-IsFinal id workspace_id status w w' final here f = f
Onward-IsFinal id workspace_id status w w' final (after {b = b} before step keys) f =
    Step-IsFinal id workspace_id status b w' final step keys
      (Onward-IsFinal id workspace_id status w b final before f)

decided : (decision : Decision) → (new_status decision == "pending") ≡ false
decided approve = refl
decided reject = refl

resolved-IsFinal :
    (stamp : Stamp) (auth : AuthContext) (decision : Decision) (id : String) (r : EscalationRow)
    (w w' : World)
    → find_escalation id auth.workspace_id w.escalations ≡ some r
    → IsResolved stamp auth decision r w w'
    → IsFinal id auth.workspace_id (new_status decision) w'
resolved-IsFinal stamp auth decision id r w w' found done = record {
  row = record r { status = new_status decision; resolved_by = some auth.auth_subject_id };
  found = found_closed stamp auth auth decision id r w w' refl found done;
  settled =
      rw (done.escalations_lem, id_of_found id auth.workspace_id w.escalations r found)
        (set_status-settled id (new_status decision) (some auth.auth_subject_id) w.escalations);
}

resolve_final :
    (is_uuid : String → Bool) (stamp : Stamp) (now : ℕ) (again : AuthContext)
    (other decision : Decision) (id : String) (w : World)
    → is_uuid id ≡ true
    → IsFinal id again.workspace_id (new_status decision) w
    → resolve is_uuid stamp now again other id w ≡ refused (already_resolved (new_status decision))
resolve_final is_uuid stamp now again other decision id w good f =
    let same = id_of_found id again.workspace_id w.escalations f.row f.found in
    let settled =
      All-mem (agrees id (new_status decision)) id again.workspace_id w.escalations f.row f.settled
        f.found in
    resolve_again is_uuid stamp now again other decision id f.row w good f.found
      (ground (arith, eq_iff f.row.id id, same, settled, eq_iff f.row.status (new_status decision)))

-- A resolution is final: once an escalation was approved or rejected, and whatever overrides,
-- rollbacks, resolutions, new escalations, clean-ups and saves commit behind it, on tables whose
-- escalation ids are a key, every further request of the workspace on it, at any time and for either
-- decision, is refused with the status that it got first.
pub resolve-resolve :
    (is_uuid : String → Bool) (first second : Stamp) (now later : ℕ) (auth again : AuthContext)
    (decision other : Decision) (id : String) (w w' last : World)
    → again.workspace_id ≡ auth.workspace_id
    → resolve is_uuid first now auth decision id w ≡ committed w'
    → Onward w' last
    → resolve is_uuid second later again other id last
      ≡ refused (already_resolved (new_status decision))
resolve-resolve is_uuid first second now later auth again decision other id w w' last same h on =
    let (good, r, found, done) = resolve_cases is_uuid first now auth decision id w w' h in
    let closed = resolved-IsFinal first auth decision id r w w' found done in
    resolve_final is_uuid second later again other decision id last good (
      subst (λ (q : String). IsFinal id q (new_status decision) last) (sym same)
        (Onward-IsFinal id auth.workspace_id (new_status decision) w' last (decided decision) on
          closed))
