-- ===== src/TierAdmin/KeepsReviews.antt =====
-- The escalations keep the tables in order: `persist_escalation` and `resolve`.
use context_brain_memory_lab.Prelude.{
  ℕ, ◌≡◌, refl, sym, subst, ◌∙◌, String, Bool, true, ◌&&◌, Option, none, some, List, [], ◌∷◌, map,
  arith, All, Option-cases, Bool-cases, inl, inr,
}
use text.Mathlib.Text.{◌==◌}
use context_brain_memory_lab.Prelude.Str.{◌+++◌}
use context_brain_memory_lab.Governance.Events.{Stamp}
use context_brain_memory_lab.TierAdmin.Tables.{
  ContentRow, EscalationRow, World, AuthContext, invalid_event, committed, fetch_tier, has_content,
  move_tier,
}
use context_brain_memory_lab.TierAdmin.Escalations.{
  EscalationPlan, persist_escalation, with_escalation, escalation_row, link_escalation,
  quarantine_fields, references,
}
use context_brain_memory_lab.TierAdmin.Resolution.{
  find_escalation, set_status, Decision, new_status, resolve, resolve_row, resolve_content,
  resolution_fields, close_escalation,
}
use context_brain_memory_lab.TierAdmin.Logged.{id_of, IsLogged, All-imp}
use context_brain_memory_lab.TierAdmin.Keeps.{Keeps, Keeps-trans, move_tier-Keeps, committed_or_lem}

pub All-mem :
    (P : EscalationRow → Bool) (id workspace_id : String) (rows : List EscalationRow)
    (r : EscalationRow)
    → All (λ x. P x ≡ true) rows
    → find_escalation id workspace_id rows ≡ some r
    → P r ≡ true
unfolding find_escalation
All-mem P id workspace_id [] r h found = cc
All-mem P id workspace_id (x ∷ rows) r (hx, h) found =
    elim (Bool-cases (x.id == id && x.workspace_id == workspace_id)) [
      | inl here ↦ ground (arith, here, found, hx)
      | inr later ↦ All-mem P id workspace_id rows r h (rw (later, find_escalation) at found)
    ]

fetch_tier-link_escalation :
    (c id d : String) (rows : List ContentRow)
    → fetch_tier d (link_escalation c id rows) ≡ fetch_tier d rows
unfolding fetch_tier link_escalation
fetch_tier-link_escalation c id d [] = refl
fetch_tier-link_escalation c id d (r ∷ rows) =
    ground (arith, fetch_tier-link_escalation c id d rows)

has_content-link_escalation :
    (c id d : String) (rows : List ContentRow)
    → has_content d (link_escalation c id rows) ≡ has_content d rows
unfolding has_content link_escalation
has_content-link_escalation c id d [] = refl
has_content-link_escalation c id d (r ∷ rows) =
    ground (arith, has_content-link_escalation c id d rows)

id_of-link_escalation :
    (c id : String) (rows : List ContentRow)
    → map id_of (link_escalation c id rows) ≡ map id_of rows
unfolding link_escalation
id_of-link_escalation c id [] = refl
id_of-link_escalation c id (r ∷ rows) = ground (arith, id_of-link_escalation c id rows)

references-link_escalation :
    (c id : String) (rows : List ContentRow) (o : Option String)
    → references o (link_escalation c id rows) ≡ references o rows
references-link_escalation c id rows none = refl
references-link_escalation c id rows (some d) = has_content-link_escalation c id d rows

with_escalation-IsLogged :
    (id : String) (now : ℕ) (plan : EscalationPlan) (w : World)
    → has_content plan.content_id w.contents ≡ true
    → IsLogged w
    → IsLogged (with_escalation id now plan w)
unfolding with_escalation escalation_row
with_escalation-IsLogged id now plan w there l = record {
  distinct = rw (id_of-link_escalation plan.content_id id w.contents) l.distinct;
  referential = (
    has_content-link_escalation plan.content_id id plan.content_id w.contents ∙ there,
    All-imp _ _ w.escalations
        (λ (r : EscalationRow) h.
          references-link_escalation plan.content_id id w.contents r.content_id ∙ h)
        l.referential,
  );
  current = λ c e h. fetch_tier-link_escalation plan.content_id id c w.contents ∙ l.current c e h;
  chained = l.chained;
}

set_status-All :
    (P : Option String → Bool) (id status : String) (by : Option String) (rows : List EscalationRow)
    → All (λ (r : EscalationRow). P r.content_id ≡ true) rows
    → All (λ (r : EscalationRow). P r.content_id ≡ true) (set_status id status by rows)
unfolding set_status
set_status-All P id status by [] h = tt
set_status-All P id status by (r ∷ rows) (hr, h) =
    (ground (arith, hr), set_status-All P id status by rows h)

-- The tables with the escalation closed.
abbrev pub closed : AuthContext → Decision → String → World → World
closed auth decision id a = record a {
  escalations = set_status id (new_status decision) (some auth.auth_subject_id) a.escalations;
}

closed-Keeps :
    (auth : AuthContext) (decision : Decision) (id : String) (w a : World)
    → Keeps w a
    → Keeps w (closed auth decision id a)
closed-Keeps auth decision id w a k = record {
  logged = record {
    distinct = k.logged.distinct;
    referential =
        set_status-All (λ o. references o a.contents) id (new_status decision)
          (some auth.auth_subject_id) a.escalations k.logged.referential;
    current = k.logged.current;
    chained = k.logged.chained;
  };
  appended = k.appended;
}

close_escalation-Keeps :
    (auth : AuthContext) (decision : Decision) (id : String) (w w' : World) (o : Option World)
    → ((a : World) → o ≡ some a → Keeps w a)
    → close_escalation auth decision id o ≡ some w'
    → Keeps w w'
close_escalation-Keeps auth decision id w w' none k h = cc
close_escalation-Keeps auth decision id w w' (some a) k h =
    let same : closed auth decision id a ≡ w' = cc in
    subst (λ (q : World). Keeps w q) same (closed-Keeps auth decision id w a (k a refl))

resolve_content-Keeps :
    (stamp : Stamp) (auth : AuthContext) (decision : Decision) (o : Option String) (w w' : World)
    → IsLogged w
    → references o w.contents ≡ true
    → resolve_content stamp auth decision o w ≡ some w'
    → Keeps w w'
unfolding resolve_content resolution_fields
resolve_content-Keeps stamp auth decision none w w' l there h =
    let same : w ≡ w' = cc in
    subst (λ (q : World). Keeps w q) same (record { logged = l; appended = ([], refl) })
resolve_content-Keeps stamp auth decision (some c) w w' l there h =
    move_tier-Keeps stamp ("escalation_" +++ new_status decision)
      (resolution_fields auth decision c (fetch_tier c w.contents)) w w' there refl l h

resolve_row-Keeps :
    (stamp : Stamp) (now : ℕ) (auth : AuthContext) (decision : Decision) (r : EscalationRow)
    (w w' : World)
    → IsLogged w
    → references r.content_id w.contents ≡ true
    → resolve_row stamp now auth decision r w ≡ committed w'
    → Keeps w w'
unfolding resolve_row
resolve_row-Keeps stamp now auth decision r w w' l there h =
    close_escalation-Keeps auth decision r.id w w'
      (resolve_content stamp auth decision r.content_id w)
      (λ a got. resolve_content-Keeps stamp auth decision r.content_id w a l there got)
      (committed_or_lem invalid_event
        (close_escalation auth decision r.id (resolve_content stamp auth decision r.content_id w))
        w' (ground (arith, h)))

pub resolve-Keeps :
    (is_uuid : String → Bool) (stamp : Stamp) (now : ℕ) (auth : AuthContext) (decision : Decision)
    (id : String) (w w' : World)
    → IsLogged w
    → resolve is_uuid stamp now auth decision id w ≡ committed w'
    → Keeps w w'
unfolding resolve
resolve-Keeps is_uuid stamp now auth decision id w w' l h = elim (Bool-cases (is_uuid id)) [
  | inr bad ↦ ground (arith, bad, h)
  | inl good ↦ elim (Option-cases (find_escalation id auth.workspace_id w.escalations)) [
    | inl missing ↦ ground (arith, good, missing, h)
    | inr (r, found) ↦
        resolve_row-Keeps stamp now auth decision r w w' l
          (All-mem (λ (x : EscalationRow). references x.content_id w.contents) id auth.workspace_id
            w.escalations r l.referential found)
          (rw (good, found, resolve) at h)
  ]
]

persisted-Keeps :
    (id : String) (now : ℕ) (plan : EscalationPlan) (w : World)
    → has_content plan.content_id w.contents ≡ true
    → IsLogged w
    → Keeps w (with_escalation id now plan w)
unfolding with_escalation
persisted-Keeps id now plan w there l = record {
  logged = with_escalation-IsLogged id now plan w there l;
  appended = ([], refl);
}

quarantined-Keeps :
    (stamp : Stamp) (id : String) (now : ℕ) (plan : EscalationPlan) (w w' : World)
    → has_content plan.content_id w.contents ≡ true
    → IsLogged w
    → move_tier stamp "conflict:requires_review"
        (quarantine_fields plan (fetch_tier plan.content_id w.contents))
        (with_escalation id now plan w)
      ≡ some w'
    → Keeps w w'
unfolding with_escalation quarantine_fields
quarantined-Keeps stamp id now plan w w' there l h =
    let first = persisted-Keeps id now plan w there l in
    Keeps-trans w (with_escalation id now plan w) w' first (
      move_tier-Keeps stamp "conflict:requires_review"
        (quarantine_fields plan (fetch_tier plan.content_id w.contents))
        (with_escalation id now plan w) w'
        (has_content-link_escalation plan.content_id id plan.content_id w.contents ∙ there)
        (sym (fetch_tier-link_escalation plan.content_id id plan.content_id w.contents))
        first.logged h)

pub persist_escalation-Keeps :
    (stamp : Stamp) (id : String) (now : ℕ) (plan : EscalationPlan) (w w' : World)
    → IsLogged w
    → persist_escalation stamp id now plan w ≡ committed w'
    → Keeps w w'
unfolding persist_escalation
persist_escalation-Keeps stamp id now plan w w' l h =
    elim (Bool-cases (has_content plan.content_id w.contents)) [
      | inr missing ↦ ground (arith, missing, h)
      | inl there ↦ elim (Bool-cases (references plan.conflict_content_id w.contents)) [
        | inr missing ↦ ground (arith, there, missing, h)
        | inl other ↦ elim (Bool-cases (plan.severity == "requires_review")) [
          | inl review ↦ quarantined-Keeps stamp id now plan w w' there l (
              committed_or_lem invalid_event
                (move_tier stamp "conflict:requires_review"
                  (quarantine_fields plan (fetch_tier plan.content_id w.contents))
                  (with_escalation id now plan w))
                w' (rw (there, other, review, persist_escalation) at h))
          | inr warning ↦
              let same : with_escalation id now plan w ≡ w' =
                ground (arith, there, other, warning, h) in
              subst (λ (q : World). Keeps w q) same (persisted-Keeps id now plan w there l)
        ]
      ]
    ]
