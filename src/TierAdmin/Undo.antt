-- ===== src/TierAdmin/Undo.antt =====
-- What a rollback undoes: an override to persistent and an archiving by the clean-up, but not an
-- override to archived.
use context_brain_memory_lab.Prelude.{
  ◌≡◌, refl, sym, ap, subst, String, true, none, some, [], ◌∷◌, arith, Bool-cases, inl, inr,
}
use context_brain_memory_lab.Prelude.Names.{contains}
use context_brain_memory_lab.Prelude.Str.{truthy}
use context_brain_memory_lab.Governance.Transition.{validate_transition}
use context_brain_memory_lab.Governance.Events.{Stamp, event_of}
use context_brain_memory_lab.TierAdmin.Tables.{
  World, AuthContext, invalid_event, terminal_tier, refused, committed, fetch_tier, move_tier,
}
use context_brain_memory_lab.TierAdmin.Override.{
  OverrideRequest, RollbackRequest, tier_override, override_to, override_fields, override_tier_map,
  tier_rollback, rollback_event, rollback_fields, is_cleanup_archive_rollback,
}
use context_brain_memory_lab.TierAdmin.Logged.{moved, move_tier_lem}
use context_brain_memory_lab.TierAdmin.Keeps.{committed_or_lem}
use context_brain_memory_lab.TierAdmin.Rollbacks.{
  IsStamp, latest-moved, fetch_tier-moved, update_tier-back, rollback_lem,
}

override_persist_moved :
    (stamp : Stamp) (auth : AuthContext) (c p : String) (payload : OverrideRequest) (w w' : World)
    → fetch_tier c w.contents ≡ some p
    → payload.override_action ≡ "force_persist"
    → tier_override stamp auth c payload w ≡ committed w'
    → w' ≡ moved stamp "governance_override:human" (override_fields auth c payload p "persistent") w
unfolding override_to tier_override
override_persist_moved stamp auth c p payload w w' found action h =
    let opened : override_to stamp auth c payload "persistent" w ≡ committed w' =
      rw (ap override_tier_map action, tier_override) at h in
    move_tier_lem stamp "governance_override:human" (override_fields auth c payload p "persistent")
      w w'
      (committed_or_lem invalid_event
        (move_tier stamp "governance_override:human" (override_fields auth c payload p "persistent")
          w)
        w' (ground (arith, opened, found)))

persistent_free : (p : String) → validate_transition (some "persistent") p "human_override" ≡ none
unfolding validate_transition
persistent_free p = elim (Bool-cases (contains p ("decision_artifact" ∷ []))) [
  | inl gate ↦ rw gate refl
  | inr other ↦ rw other refl
]

-- An override to persistent can be rolled back by anyone who may: the rollback goes through, and
-- every content has the tier that it had.
pub rollback-force_persist :
    (first second : Stamp) (auth again : AuthContext) (c p : String) (payload : OverrideRequest)
    (undo : RollbackRequest) (w w' : World)
    → IsStamp second
    → truthy c ≡ true
    → truthy p ≡ true
    → fetch_tier c w.contents ≡ some p
    → payload.override_action ≡ "force_persist"
    → tier_override first auth c payload w ≡ committed w'
    → (w'' : World) × (tier_rollback second again c undo w' ≡ committed w'')
      × ((d : String) → fetch_tier d w''.contents ≡ fetch_tier d w.contents)
unfolding override_fields rollback_fields event_of
rollback-force_persist first second auth again c p payload undo w w' hs hc hp found action h =
    let f = override_fields auth c payload p "persistent" in
    let reason : String = "governance_override:human" in
    let e = event_of first f in
    let same = override_persist_moved first auth c p payload w w' found action h in
    (
      moved second "governance_override:rollback" (rollback_fields again c undo "persistent" p e)
          (moved first reason f w),
      subst
          (λ (q : World).
            tier_rollback second again c undo q
            ≡ committed (
                moved second "governance_override:rollback"
                  (rollback_fields again c undo "persistent" p e) (moved first reason f w)))
          (sym same)
          (rollback_lem second again c undo "persistent" p e (moved first reason f w) hs hc hp
            (fetch_tier-moved first reason f w p found) (latest-moved first reason f w) refl refl
            (inr (persistent_free p))),
      update_tier-back c p "persistent" reason "governance_override:rollback" w.contents found,
    )

override_discard_moved :
    (stamp : Stamp) (auth : AuthContext) (c p : String) (payload : OverrideRequest) (w w' : World)
    → fetch_tier c w.contents ≡ some p
    → payload.override_action ≡ "force_discard"
    → tier_override stamp auth c payload w ≡ committed w'
    → w' ≡ moved stamp "governance_override:human" (override_fields auth c payload p "archived") w
unfolding override_to tier_override
override_discard_moved stamp auth c p payload w w' found action h =
    let opened : override_to stamp auth c payload "archived" w ≡ committed w' =
      rw (ap override_tier_map action, tier_override) at h in
    move_tier_lem stamp "governance_override:human" (override_fields auth c payload p "archived") w
      w'
      (committed_or_lem invalid_event
        (move_tier stamp "governance_override:human" (override_fields auth c payload p "archived")
          w)
        w' (ground (arith, opened, found)))

-- An override to archived stands: a rollback that follows it is refused as a terminal tier, whoever
-- asks for it.
pub rollback-force_discard :
    (first second : Stamp) (auth again : AuthContext) (c p : String) (payload : OverrideRequest)
    (undo : RollbackRequest) (w w' : World)
    → fetch_tier c w.contents ≡ some p
    → payload.override_action ≡ "force_discard"
    → tier_override first auth c payload w ≡ committed w'
    → tier_rollback second again c undo w' ≡ refused (terminal_tier "archived")
unfolding tier_rollback rollback_event override_fields event_of is_cleanup_archive_rollback
rollback-force_discard first second auth again c p payload undo w w' found action h =
    let f = override_fields auth c payload p "archived" in
    let reason : String = "governance_override:human" in
    subst (λ (q : World). tier_rollback second again c undo q ≡ refused (terminal_tier "archived"))
      (sym (override_discard_moved first auth c p payload w w' found action h))
      (rw (fetch_tier-moved first reason f w p found, latest-moved first reason f w, tier_rollback)
        refl)
