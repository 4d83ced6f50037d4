-- ===== src/TierAdmin/Resolution.antt =====
-- `_resolve` of memory_lab/api/routers/escalations.py. `is_uuid` tells whether `uuid.UUID` accepts an id.
use context_brain_memory_lab.Prelude.{
  ℕ, String, Bool, not, ◌&&◌, Option, none, some, List, [], ◌∷◌, ltb, if◌then◌else◌,
}
use text.Mathlib.Text.{◌==◌}
use context_brain_memory_lab.Prelude.Str.{◌+++◌}
use context_brain_memory_lab.Governance.Events.{Stamp, EventFields}
use context_brain_memory_lab.TierAdmin.Tables.{
  EscalationRow, World, AuthContext, invalid_escalation_id, escalation_not_found,
  escalation_expired, invalid_event, already_resolved, Outcome, refused, fetch_tier, move_tier,
  committed_or,
}

-- `_fetch_workspace_escalation` for an id that is a uuid
unfoldable pub find_escalation : String → String → List EscalationRow → Option EscalationRow
find_escalation id workspace_id [] = none
find_escalation id workspace_id (r ∷ rows) =
    if r.id == id && r.workspace_id == workspace_id
    then some r
    else find_escalation id workspace_id rows

unfoldable pub set_status :
    String → String → Option String → List EscalationRow → List EscalationRow
set_status id status resolved_by [] = []
set_status id status resolved_by (r ∷ rows) =
    (if r.id == id then record r { status = status; resolved_by = resolved_by } else r)
    ∷ set_status id status resolved_by rows

pub data Decision : Type 0 where
  approve reject : Decision

abbrev pub new_status : Decision → String
new_status approve = "approved"
new_status reject = "rejected"

abbrev pub resolved_tier : Decision → String
resolved_tier approve = "persistent"
resolved_tier reject = "archived"

abbrev resolution_rule : Decision → String
resolution_rule approve = "ESCALATION_APPROVED_V1"
resolution_rule reject = "ESCALATION_REJECTED_V1"

unfoldable pub resolution_fields : AuthContext → Decision → String → Option String → EventFields
resolution_fields auth decision c previous_tier = record {
  content_id = c;
  workspace_id = some auth.workspace_id;
  previous_tier = previous_tier;
  new_tier = resolved_tier decision;
  transition_reason = "escalation_" +++ new_status decision;
  transition_rule = resolution_rule decision;
  trigger_type = "human_override";
  trigger_source = "admin";
}

-- The tier of the escalated content, if the escalation has one.
unfoldable pub resolve_content :
    Stamp → AuthContext → Decision → Option String → World → Option World
resolve_content stamp auth decision none w = some w
resolve_content stamp auth decision (some c) w =
    move_tier stamp ("escalation_" +++ new_status decision)
      (resolution_fields auth decision c (fetch_tier c w.contents)) w

abbrev pub close_escalation : AuthContext → Decision → String → Option World → Option World
close_escalation auth decision id none = none
close_escalation auth decision id (some w) = some (record w {
  escalations = set_status id (new_status decision) (some auth.auth_subject_id) w.escalations;
})

unfoldable pub resolve_row : Stamp → ℕ → AuthContext → Decision → EscalationRow → World → Outcome
resolve_row stamp now auth decision r w =
    if not (r.status == "pending")
    then refused (already_resolved r.status)
    else if ltb r.expires_at now
    then refused escalation_expired
    else committed_or invalid_event
        (close_escalation auth decision r.id (resolve_content stamp auth decision r.content_id w))

unfoldable pub resolve :
    (String → Bool) → Stamp → ℕ → AuthContext → Decision → String → World → Outcome
resolve is_uuid stamp now auth decision id w =
    if not (is_uuid id)
    then refused invalid_escalation_id
    else elim (find_escalation id auth.workspace_id w.escalations) [
      | none ↦ refused escalation_not_found
      | some r ↦ resolve_row stamp now auth decision r w
    ]
