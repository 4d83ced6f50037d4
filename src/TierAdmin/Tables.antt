-- ===== src/TierAdmin/Tables.antt =====
-- The tables content_items, cb_escalations and cb_governance_events as far as the tier operations read
-- and write them, and what these share. Times are seconds of the database's clock. The log holds the
-- latest event first, which is the order of `created_at DESC`.
use context_brain_memory_lab.Prelude.{
  ℕ, String, Bool, true, false, Option, none, some, List, [], ◌∷◌, if◌then◌else◌,
}
use text.Mathlib.Text.{◌==◌}
use context_brain_memory_lab.Governance.Transition.{GovernanceTransitionError}
use context_brain_memory_lab.Governance.Events.{
  Stamp, TierTransitionEvent, EventFields, build_event, emit_event,
}

pub record ContentRow : Type 0 where
  pub content_id : String
  pub workspace_id : Option String
  pub tier : Option String
  pub tier_reason : Option String
  pub conflict_escalation_id : Option String
  pub created_at : ℕ

pub record EscalationRow : Type 0 where
  pub id : String
  pub workspace_id : String
  pub content_id : Option String
  pub conflict_content_id : Option String
  pub conflict_type : String
  pub severity : String
  pub conflict_summary : String
  pub status : String
  pub created_at : ℕ
  pub expires_at : ℕ
  pub resolved_by : Option String

-- `hub_contents` and `decision_sources` are the content ids of cb_hub_content and of the
-- source_content_ids of cb_decision_nodes.
pub record World : Type 0 where
  pub contents : List ContentRow
  pub escalations : List EscalationRow
  pub events : List TierTransitionEvent
  pub hub_contents : List String
  pub decision_sources : List String

pub record AuthContext : Type 0 where
  pub workspace_id : String
  pub auth_subject_id : String

-- Why a request is refused.
pub data Refusal : Type 0 where
  unknown_action content_not_found no_event_history no_prior_tier invalid_escalation_id
        escalation_not_found escalation_expired invalid_event missing_reference :
      Refusal
  forbidden_transition : GovernanceTransitionError → Refusal
  terminal_tier already_resolved : String → Refusal

-- The HTTP status; an exception that the router does not map is a 500.
unfoldable pub status_code : Refusal → ℕ
status_code unknown_action = 400
status_code content_not_found = 404
status_code no_event_history = 422
status_code no_prior_tier = 422
status_code invalid_escalation_id = 422
status_code escalation_not_found = 404
status_code escalation_expired = 409
status_code invalid_event = 500
status_code missing_reference = 500
status_code (forbidden_transition e) = 422
status_code (terminal_tier t) = 422
status_code (already_resolved s) = 409

-- The end of a transaction; the events are those that it emitted.
pub data Outcome : Type 0 where
  refused : Refusal → Outcome
  committed : World → Outcome

-- `_fetch_content_tier`: a missing row and a row without a tier read alike.
unfoldable pub fetch_tier : String → List ContentRow → Option String
fetch_tier c [] = none
fetch_tier c (r ∷ rows) = if r.content_id == c then r.tier else fetch_tier c rows

unfoldable pub has_content : String → List ContentRow → Bool
has_content c [] = false
has_content c (r ∷ rows) = if r.content_id == c then true else has_content c rows

-- `_update_content_tier`, and the other UPDATEs of the tier
unfoldable pub update_tier : String → String → String → List ContentRow → List ContentRow
update_tier c tier reason [] = []
update_tier c tier reason (r ∷ rows) =
    (if r.content_id == c then record r { tier = some tier; tier_reason = some reason } else r)
    ∷ update_tier c tier reason rows

-- The latest event of a content item.
unfoldable pub latest : String → List TierTransitionEvent → Option TierTransitionEvent
latest c [] = none
latest c (e ∷ events) = if e.content_id == c then some e else latest c events

-- What the handlers do last: the tier is written, the event built and emitted.
unfoldable pub move_tier : Stamp → String → EventFields → World → Option World
move_tier stamp tier_reason f w = elim (build_event stamp f) [
  | none ↦ none
  | some e ↦ elim (emit_event e w.events) [
    | none ↦ none
    | some events ↦ some (record w {
      contents = update_tier f.content_id f.new_tier tier_reason w.contents;
      events = events;
    })
  ]
]

-- `raise` in place of a result that is not there
abbrev pub committed_or : Refusal → Option World → Outcome
committed_or why none = refused why
committed_or why (some w) = committed w

-- The INSERT of `create_content_minimal` with the tier that its UPDATE gives.
unfoldable pub save_content : ContentRow → World → World
save_content r w = record w { contents = r ∷ w.contents }
