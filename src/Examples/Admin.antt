-- ===== src/Examples/Admin.antt =====
-- Overrides and rollbacks of the tiers of saved content.
use context_brain_memory_lab.Prelude.{◌≡◌, refl, String, none, some, List, [], ◌∷◌, ◌++◌}
use context_brain_memory_lab.Governance.Transition.{validate_transition}
use context_brain_memory_lab.Governance.Events.{
  Stamp, TierTransitionEvent, EventFields, event_of, build_event, emit_event, validate_event,
}
use context_brain_memory_lab.TierAdmin.Tables.{
  ContentRow, World, AuthContext, refused, committed, terminal_tier, fetch_tier, has_content,
  update_tier, latest, move_tier, save_content,
}
use context_brain_memory_lab.TierAdmin.Override.{
  OverrideRequest, RollbackRequest, prefix, tier_override, override_to, override_fields,
  tier_rollback,
}
use context_brain_memory_lab.TierAdmin.Logged.{IsLogged, moved}
use context_brain_memory_lab.TierAdmin.History.{
  overridden, saved, Reach, here, after, empty_world, reached_log,
}
use context_brain_memory_lab.TierAdmin.Undo.{rollback-force_persist, rollback-force_discard}

abbrev pub stamp : Stamp
stamp = record { event_id = "e1"; trace_id = "t1"; timestamp = "2026-01-01T00:00:00Z" }

abbrev pub again : Stamp
again = record { event_id = "e2"; trace_id = "t2"; timestamp = "2026-01-02T00:00:00Z" }

abbrev pub admin : AuthContext
admin = record { workspace_id = "w1"; auth_subject_id = "admin" }

abbrev pub row : ContentRow
row = record {
  content_id = "c1";
  workspace_id = some "w1";
  tier = some "transient";
  tier_reason = some "low";
  conflict_escalation_id = none;
  created_at = 0;
}

abbrev pub saved_world : World
saved_world = record empty_world { contents = row ∷ [] }

abbrev persist : OverrideRequest
persist = record {
  override_action = "force_persist";
  override_by = "ann";
  override_reason = "needed";
}

abbrev discard : OverrideRequest
discard = record {
  override_action = "force_discard";
  override_by = "ann";
  override_reason = "noise";
}

abbrev pub undo : RollbackRequest
undo = record { rollback_by = "bob"; rollback_reason = "mistake" }

abbrev persist_fields : EventFields
persist_fields = record {
  content_id = "c1";
  workspace_id = some "w1";
  previous_tier = some "transient";
  new_tier = "persistent";
  transition_reason = "human_override:force_persist:by=ann:reason=needed";
  transition_rule = "OVERRIDE-FORCE_PERSIST";
  trigger_type = "human_override";
  trigger_source = "admin";
}

abbrev discard_fields : EventFields
discard_fields = record persist_fields {
  new_tier = "archived";
  transition_reason = "human_override:force_discard:by=ann:reason=noise";
  transition_rule = "OVERRIDE-FORCE_DISCARD";
}

abbrev persisted : World
persisted = moved stamp "governance_override:human" persist_fields saved_world

abbrev discarded : World
discarded = moved stamp "governance_override:human" discard_fields saved_world

persist_commits : tier_override stamp admin "c1" persist saved_world ≡ committed persisted
unfolding tier_override override_to override_fields prefix fetch_tier validate_transition move_tier
    build_event emit_event validate_event event_of update_tier
persist_commits = refl

discard_commits : tier_override stamp admin "c1" discard saved_world ≡ committed discarded
unfolding tier_override override_to override_fields prefix fetch_tier validate_transition move_tier
    build_event emit_event validate_event event_of update_tier
discard_commits = refl

pub row_tier : fetch_tier "c1" saved_world.contents ≡ some "transient"
unfolding fetch_tier
row_tier = refl

pub saved-Reach : Reach empty_world saved_world
unfolding save_content has_content latest
saved-Reach = after here (saved {w = empty_world} row refl refl)

persisted-Reach : Reach saved_world persisted
persisted-Reach = after here (overridden stamp admin "c1" persist persist_commits)

reached_log_example :
    IsLogged persisted
    × (new : List TierTransitionEvent) × (persisted.events ≡ new ++ saved_world.events)
reached_log_example = reached_log saved_world persisted saved-Reach persisted-Reach

rollback-force_persist_example :
    (w'' : World) × (tier_rollback again admin "c1" undo persisted ≡ committed w'')
    × ((d : String) → fetch_tier d w''.contents ≡ fetch_tier d saved_world.contents)
rollback-force_persist_example =
    rollback-force_persist stamp again admin admin "c1" "transient" persist undo saved_world
      persisted (refl, refl, refl) refl refl row_tier refl persist_commits

rollback-force_discard_example :
    tier_rollback again admin "c1" undo discarded ≡ refused (terminal_tier "archived")
rollback-force_discard_example =
    rollback-force_discard stamp again admin admin "c1" "transient" discard undo saved_world
      discarded row_tier refl discard_commits
