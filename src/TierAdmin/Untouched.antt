-- ===== src/TierAdmin/Untouched.antt =====
-- What the operations other than the resolution do to the table of escalations.
use context_brain_memory_lab.Prelude.{
  ℕ, ◌≡◌, sym, ap, ◌∙◌, String, Bool, not, ◌&&◌, some, List, [], ◌∷◌, arith, Option-cases,
  Bool-cases, inl, inr,
}
use text.Mathlib.Text.{◌==◌}
use context_brain_memory_lab.Prelude.Names.{contains}
use context_brain_memory_lab.Governance.Events.{Stamp, EventFields, TierTransitionEvent}
use context_brain_memory_lab.Governance.Transition.{validate_transition}
use context_brain_memory_lab.TierAdmin.Tables.{
  ContentRow, World, AuthContext, invalid_event, committed, fetch_tier, latest, move_tier,
}
use context_brain_memory_lab.TierAdmin.Override.{
  OverrideRequest, RollbackRequest, tier_override, override_to, override_fields, override_tier_map,
  tier_rollback, rollback_event, rollback_fields, is_cleanup_archive_rollback, terminal_states,
}
use context_brain_memory_lab.TierAdmin.Escalations.{
  EscalationPlan, persist_escalation, with_escalation, escalation_row, quarantine_fields,
  references,
}
use context_brain_memory_lab.TierAdmin.Tables.{has_content}
use context_brain_memory_lab.TierAdmin.Cleanup.{CleanupResult, clean_rows, clean_row}
use context_brain_memory_lab.TierAdmin.Logged.{move_tier_lem}
use context_brain_memory_lab.TierAdmin.Keeps.{committed_or_lem, rollback_to-done}
use context_brain_memory_lab.TierAdmin.Spares.{clean_row_open, archive_row_open}

escalations-move_tier :
    (stamp : Stamp) (reason : String) (f : EventFields) (w w' : World)
    → move_tier stamp reason f w ≡ some w'
    → w'.escalations ≡ w.escalations
escalations-move_tier stamp reason f w w' h =
    ap (λ (q : World). q.escalations) (move_tier_lem stamp reason f w w' h)

escalations-override_to :
    (stamp : Stamp) (auth : AuthContext) (c : String) (payload : OverrideRequest)
    (new_tier : String) (w w' : World)
    → override_to stamp auth c payload new_tier w ≡ committed w'
    → w'.escalations ≡ w.escalations
unfolding override_to
escalations-override_to stamp auth c payload new_tier w w' h =
    elim (Option-cases (fetch_tier c w.contents)) [
      | inl missing ↦ ground (arith, missing, h)
      | inr (previous, found) ↦
          elim (Option-cases (validate_transition (some previous) new_tier "human_override")) [
            | inr (error, forbidden) ↦ ground (arith, found, forbidden, h)
            | inl allowed ↦
                escalations-move_tier stamp "governance_override:human"
                  (override_fields auth c payload previous new_tier) w w'
                  (committed_or_lem _ _ w' (rw (found, allowed, override_to) at h))
          ]
    ]

pub escalations-tier_override :
    (stamp : Stamp) (auth : AuthContext) (c : String) (payload : OverrideRequest) (w w' : World)
    → tier_override stamp auth c payload w ≡ committed w'
    → w'.escalations ≡ w.escalations
unfolding tier_override
escalations-tier_override stamp auth c payload w w' h =
    elim (Option-cases (override_tier_map payload.override_action)) [
      | inl unknown ↦ ground (arith, unknown, h)
      | inr (new_tier, known) ↦
          escalations-override_to stamp auth c payload new_tier w w'
            (rw (known, tier_override) at h)
    ]

escalations-rollback_event :
    (stamp : Stamp) (auth : AuthContext) (c : String) (payload : RollbackRequest)
    (current_tier : String) (e : TierTransitionEvent) (w w' : World)
    → rollback_event stamp auth c payload current_tier e w ≡ committed w'
    → w'.escalations ≡ w.escalations
unfolding rollback_event
escalations-rollback_event stamp auth c payload current_tier e w w' h =
    elim (Bool-cases
      (contains current_tier terminal_states && not (is_cleanup_archive_rollback current_tier e))) [
        | inl terminal ↦ ground (arith, terminal, h)
        | inr alive ↦ elim (Option-cases e.previous_tier) [
          | inl missing ↦ ground (arith, missing, alive, h)
          | inr (prior, known) ↦
              escalations-move_tier stamp "governance_override:rollback"
                (rollback_fields auth c payload current_tier prior e) w w'
                (rollback_to-done stamp auth c payload current_tier e prior w w'
                  (rw (alive, known) at h))
        ]
      ]

pub escalations-tier_rollback :
    (stamp : Stamp) (auth : AuthContext) (c : String) (payload : RollbackRequest) (w w' : World)
    → tier_rollback stamp auth c payload w ≡ committed w'
    → w'.escalations ≡ w.escalations
unfolding tier_rollback
escalations-tier_rollback stamp auth c payload w w' h =
    elim (Option-cases (fetch_tier c w.contents)) [
      | inl missing ↦ ground (arith, missing, h)
      | inr (current_tier, found) ↦ elim (Option-cases (latest c w.events)) [
        | inl untouched ↦ ground (arith, found, untouched, h)
        | inr (e, last) ↦
            escalations-rollback_event stamp auth c payload current_tier e w w'
              (rw (found, last, tier_rollback) at h)
      ]
    ]

-- A new escalation stands in front of those that were there.
pub escalations-persist_escalation :
    (stamp : Stamp) (id : String) (now : ℕ) (plan : EscalationPlan) (w w' : World)
    → persist_escalation stamp id now plan w ≡ committed w'
    → w'.escalations ≡ escalation_row id now plan ∷ w.escalations
unfolding persist_escalation with_escalation
escalations-persist_escalation stamp id now plan w w' h =
    elim (Bool-cases
      (has_content plan.content_id w.contents && references plan.conflict_content_id w.contents)) [
        | inr missing ↦ ground (arith, missing, h)
        | inl there ↦ elim (Bool-cases (plan.severity == "requires_review")) [
          | inl review ↦
              escalations-move_tier stamp "conflict:requires_review"
                (quarantine_fields plan (fetch_tier plan.content_id w.contents))
                (with_escalation id now plan w) w'
                (committed_or_lem invalid_event
                  (move_tier stamp "conflict:requires_review"
                    (quarantine_fields plan (fetch_tier plan.content_id w.contents))
                    (with_escalation id now plan w))
                  w' (rw (there, review, persist_escalation) at h))
          | inr warning ↦
              let same : with_escalation id now plan w ≡ w' = ground (arith, there, warning, h) in
              sym (ap (λ (q : World). q.escalations) same)
        ]
      ]

escalations-clean_row :
    (stamps : String → Stamp) (dry_run : Bool) (r : ContentRow) (w w' : World)
    (result result' : CleanupResult)
    → clean_row stamps dry_run r (w, result) ≡ some (w', result')
    → w'.escalations ≡ w.escalations
escalations-clean_row stamps dry_run r w w' result result' h =
    elim (clean_row_open stamps dry_run r w w' result result' h) [
      | inl same ↦ sym (ap (λ (q : World). q.escalations) same)
      | inr (conflicted, unshielded, archived) ↦
          elim (archive_row_open stamps dry_run r w w' result result' archived) [
            | inl same ↦ sym (ap (λ (q : World). q.escalations) same)
            | inr written ↦ ap (λ (q : World). q.escalations) written
          ]
    ]

-- The clean-up touches escalations only where it expires them.
pub escalations-clean_rows :
    (stamps : String → Stamp) (dry_run : Bool) (rows : List ContentRow) (w w' : World)
    (result result' : CleanupResult)
    → clean_rows stamps dry_run rows (w, result) ≡ some (w', result')
    → w'.escalations ≡ w.escalations
unfolding clean_rows
escalations-clean_rows stamps dry_run [] w w' result result' h =
    let same : w ≡ w' = cc in sym (ap (λ (q : World). q.escalations) same)
escalations-clean_rows stamps dry_run (r ∷ rows) w w' result result' h =
    elim (Option-cases (clean_row stamps dry_run r (w, result))) [
      | inl unsent ↦ ground (arith, unsent, h)
      | inr ((w1, result1), went) ↦
          escalations-clean_rows stamps dry_run rows w1 w' result1 result'
            (rw (went, clean_rows) at h)
          ∙ escalations-clean_row stamps dry_run r w w1 result result1 went
    ]
