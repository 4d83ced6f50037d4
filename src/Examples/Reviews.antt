-- ===== src/Examples/Reviews.antt =====
-- Escalations, their resolution, and the clean-up.
use context_brain_memory_lab.Prelude.{
  ◌≡◌, ◌≢◌, refl, String, Bool, true, false, none, some, [], ◌∷◌, All, ◌⊎◌,
}
use context_brain_memory_lab.Governance.Transition.{validate_transition}
use context_brain_memory_lab.Governance.Events.{
  Stamp, EventFields, event_of, build_event, emit_event, validate_event,
}
use context_brain_memory_lab.TierAdmin.Tables.{
  EscalationRow, World, refused, committed, already_resolved, fetch_tier, update_tier, move_tier,
}
use context_brain_memory_lab.TierAdmin.Escalations.{
  ConflictCandidate, EscalationPlan, TtlEnvironment, plan_escalation_for_content,
}
use context_brain_memory_lab.TierAdmin.Resolution.{
  find_escalation, set_status, approve, reject, resolve, resolve_row, resolve_content,
  resolution_fields,
}
use context_brain_memory_lab.TierAdmin.Cleanup.{
  CleanupResult, empty_result, archive_row, archive_fields, clean_row, clean_rows, cleanup_ttl,
  expire_stale, expire_all, set_expired,
}
use context_brain_memory_lab.TierAdmin.Logged.{moved}
use context_brain_memory_lab.TierAdmin.History.{here as start, cleaned, reached_log}
use context_brain_memory_lab.TierAdmin.Planning.{asks, IsChosen, plan_escalation_for_content_first}
use context_brain_memory_lab.TierAdmin.Reviews.{resolve-approve_revives}
use context_brain_memory_lab.TierAdmin.Final.{here, after, resolve-resolve}
use context_brain_memory_lab.TierAdmin.Spares.{IsSpared, cleanup_ttl-IsSpared}
use context_brain_memory_lab.Examples.Admin.{stamp, again, admin, row, saved_world, saved-Reach}

abbrev uuids : String → Bool
uuids id = true

abbrev escalation : EscalationRow
escalation = record {
  id = "x1";
  workspace_id = "w1";
  content_id = some "c1";
  conflict_content_id = none;
  conflict_type = "direct_contradiction";
  severity = "requires_review";
  conflict_summary = "opposed";
  status = "pending";
  created_at = 0;
  expires_at = 2592000;
  resolved_by = none;
}

-- The content was archived while its escalation waited.
abbrev archived_world : World
archived_world = record saved_world {
  contents = record row { tier = some "archived" } ∷ [];
  escalations = escalation ∷ [];
}

abbrev approval : EventFields
approval = record {
  content_id = "c1";
  workspace_id = some "w1";
  previous_tier = some "archived";
  new_tier = "persistent";
  transition_reason = "escalation_approved";
  transition_rule = "ESCALATION_APPROVED_V1";
  trigger_type = "human_override";
  trigger_source = "admin";
}

abbrev approved_world : World
approved_world = record (moved stamp "escalation_approved" approval archived_world) {
  escalations = record escalation { status = "approved"; resolved_by = some "admin" } ∷ [];
}

approval_commits :
    resolve uuids stamp 1000 admin approve "x1" archived_world ≡ committed approved_world
unfolding resolve resolve_row resolve_content resolution_fields find_escalation set_status
    fetch_tier move_tier build_event emit_event validate_event event_of update_tier
approval_commits = refl

open_escalation :
    (find_escalation "x1" "w1" archived_world.escalations ≡ some escalation)
    × (fetch_tier "c1" archived_world.contents ≡ some "archived")
unfolding find_escalation fetch_tier
open_escalation = (refl, refl)

resolve-approve_revives_example :
    (fetch_tier "c1" approved_world.contents ≡ some "persistent")
    × ((trigger : String) → validate_transition (some "archived") "persistent" trigger ≢ none)
resolve-approve_revives_example =
    resolve-approve_revives uuids stamp 1000 admin "x1" "c1" "archived" escalation archived_world
      approved_world open_escalation.0 refl open_escalation.1 refl approval_commits

abbrev stamps : String → Stamp
stamps c = stamp

abbrev cleanup_fields : EventFields
cleanup_fields = record {
  content_id = "c1";
  workspace_id = some "w1";
  previous_tier = some "transient";
  new_tier = "archived";
  transition_reason = "ttl_expired:transient_7d";
  transition_rule = "TTL_TRANSIENT_7D";
  trigger_type = "system";
  trigger_source = "cleanup";
}

abbrev cleaned_world : World
cleaned_world = moved stamp "ttl_expired:transient_7d" cleanup_fields saved_world

abbrev cleaned_result : CleanupResult
cleaned_result = record empty_result {
  content_archived = 1;
  details = record { item_id = "c1"; item_type = "content"; action = "archived" } ∷ [];
}

cleanup_commits :
    cleanup_ttl stamps 700000 (some "w1") false saved_world ≡ some (cleaned_world, cleaned_result)
unfolding cleanup_ttl expire_stale expire_all set_expired clean_rows clean_row archive_row
    archive_fields move_tier build_event emit_event validate_event event_of update_tier
cleanup_commits = refl

-- A clean-up behind the expiry time leaves the approved escalation alone.
late_cleanup :
    cleanup_ttl stamps 3000000 (some "w1") false approved_world
    ≡ some (approved_world, empty_result)
unfolding cleanup_ttl expire_stale expire_all clean_rows update_tier
late_cleanup = refl

resolve-resolve_example :
    resolve uuids again 3000001 admin reject "x1" approved_world
    ≡ refused (already_resolved "approved")
resolve-resolve_example =
    resolve-resolve uuids stamp again 1000 3000001 admin admin approve reject "x1" archived_world
      approved_world approved_world refl approval_commits
      (after here (cleaned stamps 3000000 (some "w1") false empty_result late_cleanup) (tt, tt))

cleanup_ttl-IsSpared_example : IsSpared "c1" (expire_stale false 700000 saved_world).0 cleaned_world
cleanup_ttl-IsSpared_example =
    cleanup_ttl-IsSpared stamps 700000 (some "w1") false saved_world cleaned_world cleaned_result
      "c1" (reached_log saved_world saved_world saved-Reach start).0.distinct cleanup_commits

abbrev conflict : ConflictCandidate
conflict = record {
  candidate_id = "k1";
  conflict_type = "explicit_contradiction";
  status = "unresolved";
  severity = "high";
  confidence = "0.90";
  supporting_content_ids = "c1" ∷ [];
  contradicting_content_ids = "c2" ∷ [];
  reason_codes = "opposed" ∷ [];
  detection_rule = "d1";
}

abbrev mild : ConflictCandidate
mild = record conflict { severity = "low" }

abbrev unset : TtlEnvironment
unset severity = none

plan_escalation_for_content_first_example :
    ((plan_escalation_for_content unset (mild ∷ conflict ∷ []) "w1" "c1" ≡ none)
      × All (λ (x : ConflictCandidate). asks "c1" x ≡ false) (mild ∷ conflict ∷ []))
    ⊎ ((plan : EscalationPlan) × (plan_escalation_for_content unset (mild ∷ conflict ∷ []) "w1" "c1"
          ≡ some plan)
        × IsChosen unset (mild ∷ conflict ∷ []) "w1" "c1" plan)
plan_escalation_for_content_first_example =
    plan_escalation_for_content_first unset (mild ∷ conflict ∷ []) "w1" "c1"
