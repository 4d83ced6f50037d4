-- ===== src/TierAdmin/Rollbacks.antt =====
-- When a write of a tier and a rollback go through, and what they write.
use context_brain_memory_lab.Prelude.{
  ◌≡◌, refl, sym, ap, subst, ◌∙◌, String, true, false, not, ◌&&◌, Option, none, some, List, arith,
  Bool-cases, inl, inr, ◌⊎◌,
}
use text.Mathlib.Text.{◌==◌}
use text.Mathlib.TextEquality.{eq_iff}
use text.Mathlib.TextPositions.{eq_refl}
use context_brain_memory_lab.Prelude.Names.{contains}
use context_brain_memory_lab.Prelude.Str.{truthy}
use context_brain_memory_lab.Governance.Transition.{validate_transition}
use context_brain_memory_lab.Governance.Events.{
  Stamp, TierTransitionEvent, EventFields, event_of, build_event, emit_event, validate_event,
}
use context_brain_memory_lab.TierAdmin.Tables.{
  ContentRow, World, AuthContext, no_prior_tier, refused, committed, fetch_tier, update_tier,
  latest, move_tier,
}
use context_brain_memory_lab.TierAdmin.Override.{
  RollbackRequest, tier_rollback, rollback_event, rollback_to, rollback_fields,
  is_cleanup_archive_rollback, terminal_states,
}
use context_brain_memory_lab.TierAdmin.Logged.{
  moved, fetch_tier-update_tier, has_content-update_tier,
}
use context_brain_memory_lab.TierAdmin.Keeps.{has_content_of_fetch}

-- What the environment draws is never empty.
abbrev pub IsStamp : Stamp → Type 0
IsStamp s = (truthy s.event_id ≡ true) × (truthy s.trace_id ≡ true) × (truthy s.timestamp ≡ true)

pub move_tier_valid :
    (stamp : Stamp) (reason : String) (f : EventFields) (w : World)
    → validate_event (event_of stamp f) ≡ true
    → move_tier stamp reason f w ≡ some (moved stamp reason f w)
unfolding move_tier build_event emit_event
move_tier_valid stamp reason f w valid = ground (arith, valid)

pub latest-moved :
    (stamp : Stamp) (reason : String) (f : EventFields) (w : World)
    → latest f.content_id (moved stamp reason f w).events ≡ some (event_of stamp f)
unfolding latest event_of
latest-moved stamp reason f w = ground (arith, eq_refl f.content_id)

pub fetch_tier-moved :
    (stamp : Stamp) (reason : String) (f : EventFields) (w : World) (tier : String)
    → fetch_tier f.content_id w.contents ≡ some tier
    → fetch_tier f.content_id (moved stamp reason f w).contents ≡ some f.new_tier
fetch_tier-moved stamp reason f w tier found =
    let there = has_content_of_fetch f.content_id tier w.contents found in
    fetch_tier-update_tier f.content_id f.new_tier reason f.content_id w.contents
    ∙ rw (eq_refl f.content_id, there) refl

-- A write and a write back of the tier that was there leave every tier as it was.
pub update_tier-back :
    (c tier tier' reason why : String) (rows : List ContentRow)
    → fetch_tier c rows ≡ some tier
    → (d : String)
    → fetch_tier d (update_tier c tier why (update_tier c tier' reason rows)) ≡ fetch_tier d rows
update_tier-back c tier tier' reason why rows found d =
    let there = has_content_of_fetch c tier rows found in
    let written = update_tier c tier' reason rows in
    let still = has_content-update_tier c tier' reason c rows ∙ there in
    fetch_tier-update_tier c tier why d written ∙ elim (Bool-cases (c == d)) [
      | inl own ↦
          let id : c ≡ d = ground (arith, eq_iff c d, own) in
          rw (own, still) (sym (subst (λ (q : String). fetch_tier q rows ≡ some tier) id found))
      | inr other ↦ rw other (fetch_tier-update_tier c tier' reason d rows ∙ rw other refl)
    ]

rollback_fields_valid :
    (stamp : Stamp) (auth : AuthContext) (c : String) (payload : RollbackRequest)
    (current_tier prior : String) (e : TierTransitionEvent)
    → IsStamp stamp
    → truthy c ≡ true
    → truthy prior ≡ true
    → validate_event (event_of stamp (rollback_fields auth c payload current_tier prior e)) ≡ true
unfolding validate_event event_of rollback_fields
rollback_fields_valid stamp auth c payload current_tier prior e (id, trace, time) hc hp =
    rw (id, trace, time, hc, hp) refl

rollback_event_reads :
    (stamp : Stamp) (auth : AuthContext) (c : String) (payload : RollbackRequest)
    (current_tier prior : String) (e : TierTransitionEvent) (w : World)
    → e.previous_tier ≡ some prior
    → (contains current_tier terminal_states && not (is_cleanup_archive_rollback current_tier e))
      ≡ false
    → rollback_event stamp auth c payload current_tier e w
      ≡ rollback_to stamp auth c payload current_tier e prior w
unfolding rollback_event
rollback_event_reads stamp auth c payload current_tier prior e w from alive = rw alive (
    ap
      (λ (o : Option String). elim o [
        | none ↦ refused no_prior_tier
        | some q ↦ rollback_to stamp auth c payload current_tier e q w
      ])
      from)

rollback_to_writes :
    (stamp : Stamp) (auth : AuthContext) (c : String) (payload : RollbackRequest)
    (current_tier prior : String) (e : TierTransitionEvent) (w w' : World)
    → (is_cleanup_archive_rollback current_tier e ≡ true)
      ⊎ (validate_transition (some current_tier) prior "human_override" ≡ none)
    → move_tier stamp "governance_override:rollback"
        (rollback_fields auth c payload current_tier prior e)
        w
      ≡ some w'
    → rollback_to stamp auth c payload current_tier e prior w ≡ committed w'
unfolding rollback_to
rollback_to_writes stamp auth c payload current_tier prior e w w' (inl cleanup) went =
    ground (arith, cleanup, went)
rollback_to_writes stamp auth c payload current_tier prior e w w' (inr permitted) went =
    ground (arith, permitted, went)

-- A rollback that nothing refuses writes the prior tier of the latest event.
pub rollback_lem :
    (stamp : Stamp) (auth : AuthContext) (c : String) (payload : RollbackRequest)
    (current_tier prior : String) (e : TierTransitionEvent) (w : World)
    → IsStamp stamp
    → truthy c ≡ true
    → truthy prior ≡ true
    → fetch_tier c w.contents ≡ some current_tier
    → latest c w.events ≡ some e
    → e.previous_tier ≡ some prior
    → (contains current_tier terminal_states && not (is_cleanup_archive_rollback current_tier e))
      ≡ false
    → (is_cleanup_archive_rollback current_tier e ≡ true)
      ⊎ (validate_transition (some current_tier) prior "human_override" ≡ none)
    → tier_rollback stamp auth c payload w
      ≡ committed (
          moved stamp "governance_override:rollback"
            (rollback_fields auth c payload current_tier prior e)
            w)
unfolding tier_rollback
rollback_lem stamp auth c payload current_tier prior e w hs hc hp found last from alive free =
    rw (found, last, tier_rollback)
      (rollback_event_reads stamp auth c payload current_tier prior e w from alive
        ∙ rollback_to_writes stamp auth c payload current_tier prior e w _ free (
            move_tier_valid stamp "governance_override:rollback"
              (rollback_fields auth c payload current_tier prior e) w
              (rollback_fields_valid stamp auth c payload current_tier prior e hs hc hp)))
