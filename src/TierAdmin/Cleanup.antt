-- ===== src/TierAdmin/Cleanup.antt =====
-- `cleanup_ttl` of memory_lab/api/routers/cleanup.py, on a schema whose content_items have a
-- workspace_id. `effective_workspace_id` is that of the auth context, `none` or empty for all
-- workspaces. The uuid of each event is drawn per content item.
use context_brain_memory_lab.Prelude.{
  ℕ, suc, ◌+◌, String, Bool, true, false, not, ◌&&◌, ◌||◌, Option, none, some, List, [], ◌∷◌, ◌++◌,
  map, ltb, length, select, any, if◌then◌else◌,
}
use text.Mathlib.Text.{◌==◌}
use context_brain_memory_lab.Prelude.Str.{truthy}
use context_brain_memory_lab.Prelude.Names.{contains}
use context_brain_memory_lab.Governance.Events.{Stamp, EventFields}
use context_brain_memory_lab.TierAdmin.Tables.{ContentRow, EscalationRow, World, move_tier}

pub record CleanupDetail : Type 0 where
  pub item_id : String
  pub item_type : String
  pub action : String

pub record CleanupResult : Type 0 where
  pub escalations_expired : ℕ
  pub content_archived : ℕ
  pub skipped_conflicted : ℕ
  pub skipped_pending_escalation : ℕ
  pub details : List CleanupDetail

abbrev pub is_stale : ℕ → EscalationRow → Bool
is_stale now r = r.status == "pending" && ltb r.expires_at now

abbrev pub rule_transient_ttl : String
rule_transient_ttl = "ttl_expired:transient_7d"

abbrev is_text : String → Option String → Bool
is_text c none = false
is_text c (some d) = d == c

-- `UPDATE cb_escalations SET status = 'expired' WHERE id = …`
unfoldable pub set_expired : String → List EscalationRow → List EscalationRow
set_expired id [] = []
set_expired id (r ∷ rows) =
    (if r.id == id then record r { status = "expired" } else r) ∷ set_expired id rows

-- The loop of UPDATEs over the ids that were selected.
unfoldable pub expire_all : List EscalationRow → List EscalationRow → List EscalationRow
expire_all [] rows = rows
expire_all (r ∷ stale) rows = expire_all stale (set_expired r.id rows)

abbrev pub has_tier : List String → Option String → Bool
has_tier tiers none = false
has_tier tiers (some t) = contains t tiers

abbrev owned : Option String → Option String → Bool
owned none w = true
owned (some asked) none = not (truthy asked)
owned (some asked) (some w) = not (truthy asked) || w == asked

-- The SELECT of the candidates: transient or conflicted, and older than seven days.
abbrev pub is_candidate : ℕ → Option String → ContentRow → Bool
is_candidate now workspace_id r =
    has_tier ("transient" ∷ "conflicted" ∷ []) r.tier
    && ltb (r.created_at + 604800) now
    && owned workspace_id r.workspace_id

abbrev pub is_pending_for : String → EscalationRow → Bool
is_pending_for c r = is_text c r.content_id && r.status == "pending"

abbrev pub empty_result : CleanupResult
empty_result = record {
  escalations_expired = 0;
  content_archived = 0;
  skipped_conflicted = 0;
  skipped_pending_escalation = 0;
  details = [];
}

unfoldable pub archive_fields : ContentRow → EventFields
archive_fields r = record {
  content_id = r.content_id;
  workspace_id = r.workspace_id;
  previous_tier = r.tier;
  new_tier = "archived";
  transition_reason = rule_transient_ttl;
  transition_rule = "TTL_TRANSIENT_7D";
  trigger_type = "system";
  trigger_source = "cleanup";
}

-- The branch that archives: the write is left out on a dry run.
unfoldable pub archive_row :
    (String → Stamp) → Bool → ContentRow → World × CleanupResult → Option (World × CleanupResult)
archive_row stamps dry_run r (w, result) =
    let counted = record result {
      content_archived = suc result.content_archived;
      details =
          result.details
          ++ record { item_id = r.content_id; item_type = "content"; action = "archived" } ∷ [];
    } in
    if dry_run
    then some (w, counted)
    else elim (move_tier (stamps r.content_id) rule_transient_ttl (archive_fields r) w) [
      | none ↦ none
      | some w' ↦ some (w', counted)
    ]

-- One round of the loop over the candidates.
unfoldable pub clean_row :
    (String → Stamp) → Bool → ContentRow → World × CleanupResult → Option (World × CleanupResult)
clean_row stamps dry_run r (w, result) =
    if has_tier ("conflicted" ∷ []) r.tier
    then some (w, record result { skipped_conflicted = suc result.skipped_conflicted })
    else if any (is_pending_for r.content_id) w.escalations
    then some
        (w, record result { skipped_pending_escalation = suc result.skipped_pending_escalation })
    else if contains r.content_id w.hub_contents
    then some (w, result)
    else if contains r.content_id w.decision_sources
    then some (w, result)
    else archive_row stamps dry_run r (w, result)

unfoldable pub clean_rows :
    (String → Stamp)
    → Bool
    → List ContentRow
    → World × CleanupResult
    → Option (World × CleanupResult)
clean_rows stamps dry_run [] state = some state
clean_rows stamps dry_run (r ∷ rows) state = elim (clean_row stamps dry_run r state) [
  | none ↦ none
  | some state' ↦ clean_rows stamps dry_run rows state'
]

abbrev expired_detail : EscalationRow → CleanupDetail
expired_detail r = record { item_id = r.id; item_type = "escalation"; action = "expired" }

-- The state behind the expiry of the stale escalations.
unfoldable pub expire_stale : Bool → ℕ → World → World × CleanupResult
expire_stale dry_run now w =
    let stale = select (is_stale now) w.escalations in
    (
      if dry_run then w else record w { escalations = expire_all stale w.escalations },
      record empty_result {
        escalations_expired = length stale;
        details = map expired_detail stale;
      },
    )

-- `none` where an event is refused, and the transaction with it.
unfoldable pub cleanup_ttl :
    (String → Stamp) → ℕ → Option String → Bool → World → Option (World × CleanupResult)
cleanup_ttl stamps now workspace_id dry_run w =
    clean_rows stamps dry_run (select (is_candidate now workspace_id) w.contents)
      (expire_stale dry_run now w)
