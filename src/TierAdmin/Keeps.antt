-- ===== src/TierAdmin/Keeps.antt =====
-- What an operation on the tables keeps, and that the override and the rollback keep it.
use context_brain_memory_lab.Prelude.{
  ◌≡◌, refl, sym, ap, subst, ◌∙◌, String, true, not, ◌&&◌, Option, none, some, List, [], ◌∷◌, ◌++◌,
  arith, append_assoc, Option-cases, Bool-cases, inl, inr,
}
use context_brain_memory_lab.Prelude.Names.{contains}
use context_brain_memory_lab.Governance.Transition.{validate_transition}
use context_brain_memory_lab.Governance.Events.{Stamp, TierTransitionEvent, EventFields, event_of}
use context_brain_memory_lab.TierAdmin.Tables.{
  ContentRow, World, AuthContext, Refusal, invalid_event, committed, fetch_tier, has_content,
  latest, move_tier, committed_or,
}
use context_brain_memory_lab.TierAdmin.Override.{
  OverrideRequest, RollbackRequest, tier_override, override_to, override_fields, override_tier_map,
  tier_rollback, rollback_event, rollback_to, rollback_fields, is_cleanup_archive_rollback,
  terminal_states,
}
use context_brain_memory_lab.TierAdmin.Logged.{IsLogged, move_tier_lem, moved-IsLogged}

-- The tables stay in order, and the log only grows at its front.
pub record Keeps (w w' : World) : Type 0 where
  pub logged : IsLogged w'
  pub appended : (new : List TierTransitionEvent) × (w'.events ≡ new ++ w.events)

pub Keeps-trans : (a b c : World) → Keeps a b → Keeps b c → Keeps a c
Keeps-trans a b c f g =
    let (new, e) = f.appended in
    let (newer, d) = g.appended in
    record {
      logged = g.logged;
      appended =
          (newer ++ new, d ∙ (ap (λ l. newer ++ l) e ∙ sym (append_assoc newer new a.events)));
    }

pub has_content_of_fetch :
    (c tier : String) (rows : List ContentRow)
    → fetch_tier c rows ≡ some tier
    → has_content c rows ≡ true
unfolding fetch_tier has_content
has_content_of_fetch c tier [] h = cc
has_content_of_fetch c tier (r ∷ rows) h = ground (arith, has_content_of_fetch c tier rows)

pub move_tier-Keeps :
    (stamp : Stamp) (reason : String) (f : EventFields) (w w' : World)
    → has_content f.content_id w.contents ≡ true
    → f.previous_tier ≡ fetch_tier f.content_id w.contents
    → IsLogged w
    → move_tier stamp reason f w ≡ some w'
    → Keeps w w'
move_tier-Keeps stamp reason f w w' there from l h =
    subst (λ (q : World). Keeps w q) (sym (move_tier_lem stamp reason f w w' h))
      (record {
        logged = moved-IsLogged stamp reason f w there from l;
        appended = (event_of stamp f ∷ [], refl);
      })

pub committed_or_lem :
    (why : Refusal) (o : Option World) (w' : World)
    → committed_or why o ≡ committed w'
    → o ≡ some w'
committed_or_lem why none w' h = cc
committed_or_lem why (some w) w' h = cc

override_to-Keeps :
    (stamp : Stamp) (auth : AuthContext) (c : String) (payload : OverrideRequest)
    (new_tier : String) (w w' : World)
    → IsLogged w
    → override_to stamp auth c payload new_tier w ≡ committed w'
    → Keeps w w'
unfolding override_to override_fields
override_to-Keeps stamp auth c payload new_tier w w' l h =
    elim (Option-cases (fetch_tier c w.contents)) [
      | inl missing ↦ ground (arith, missing, h)
      | inr (previous, found) ↦
          elim (Option-cases (validate_transition (some previous) new_tier "human_override")) [
            | inr (error, forbidden) ↦ ground (arith, found, forbidden, h)
            | inl allowed ↦
                move_tier-Keeps stamp "governance_override:human"
                  (override_fields auth c payload previous new_tier) w w'
                  (has_content_of_fetch c previous w.contents found) (sym found) l
                  (committed_or_lem _ _ w' (rw (found, allowed, override_to) at h))
          ]
    ]

pub tier_override-Keeps :
    (stamp : Stamp) (auth : AuthContext) (c : String) (payload : OverrideRequest) (w w' : World)
    → IsLogged w
    → tier_override stamp auth c payload w ≡ committed w'
    → Keeps w w'
unfolding tier_override
tier_override-Keeps stamp auth c payload w w' l h =
    elim (Option-cases (override_tier_map payload.override_action)) [
      | inl unknown ↦ ground (arith, unknown, h)
      | inr (new_tier, known) ↦
          override_to-Keeps stamp auth c payload new_tier w w' l (rw (known, tier_override) at h)
    ]

-- A rollback that goes through is a write of the prior tier.
pub rollback_to-done :
    (stamp : Stamp) (auth : AuthContext) (c : String) (payload : RollbackRequest)
    (current_tier : String) (e : TierTransitionEvent) (prior : String) (w w' : World)
    → rollback_to stamp auth c payload current_tier e prior w ≡ committed w'
    → move_tier stamp "governance_override:rollback"
        (rollback_fields auth c payload current_tier prior e)
        w
      ≡ some w'
unfolding rollback_to
rollback_to-done stamp auth c payload current_tier e prior w w' h =
    committed_or_lem invalid_event
      (move_tier stamp "governance_override:rollback"
        (rollback_fields auth c payload current_tier prior e) w)
      w' (ground (arith, h))

rollback_event-Keeps :
    (stamp : Stamp) (auth : AuthContext) (c : String) (payload : RollbackRequest)
    (current_tier : String) (e : TierTransitionEvent) (w w' : World)
    → IsLogged w
    → fetch_tier c w.contents ≡ some current_tier
    → rollback_event stamp auth c payload current_tier e w ≡ committed w'
    → Keeps w w'
unfolding rollback_event rollback_fields
rollback_event-Keeps stamp auth c payload current_tier e w w' l found h =
    elim (Bool-cases
      (contains current_tier terminal_states && not (is_cleanup_archive_rollback current_tier e))) [
        | inl terminal ↦ ground (arith, terminal, h)
        | inr alive ↦ elim (Option-cases e.previous_tier) [
          | inl missing ↦ ground (arith, missing, alive, h)
          | inr (prior, known) ↦
              move_tier-Keeps stamp "governance_override:rollback"
                (rollback_fields auth c payload current_tier prior e) w w'
                (has_content_of_fetch c current_tier w.contents found) (sym found) l
                (rollback_to-done stamp auth c payload current_tier e prior w w'
                  (rw (alive, known) at h))
        ]
      ]

pub tier_rollback-Keeps :
    (stamp : Stamp) (auth : AuthContext) (c : String) (payload : RollbackRequest) (w w' : World)
    → IsLogged w
    → tier_rollback stamp auth c payload w ≡ committed w'
    → Keeps w w'
unfolding tier_rollback
tier_rollback-Keeps stamp auth c payload w w' l h = elim (Option-cases (fetch_tier c w.contents)) [
  | inl missing ↦ ground (arith, missing, h)
  | inr (current_tier, found) ↦ elim (Option-cases (latest c w.events)) [
    | inl untouched ↦ ground (arith, found, untouched, h)
    | inr (e, last) ↦
        rollback_event-Keeps stamp auth c payload current_tier e w w' l found
          (rw (found, last, tier_rollback) at h)
  ]
]
