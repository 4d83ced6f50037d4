-- ===== src/TierAdmin/History.antt =====
-- The operations on the tables as the steps of one relation, and the state that every sequence of
-- them keeps.
use context_brain_memory_lab.Prelude.{
  ℕ, ◌≡◌, ◌≢◌, refl, subst, String, Bool, true, false, Option, none, some, List, [], ◌∷◌, ◌++◌, map,
  arith, All, Bool-cases, inl, inr,
}
use text.Mathlib.Text.{◌==◌}
use text.Mathlib.TextEquality.{eq_iff}
use context_brain_memory_lab.Governance.Events.{Stamp, TierTransitionEvent}
use context_brain_memory_lab.TierAdmin.Tables.{
  ContentRow, EscalationRow, World, AuthContext, committed, fetch_tier, has_content, latest,
  save_content,
}
use context_brain_memory_lab.TierAdmin.Override.{
  OverrideRequest, RollbackRequest, tier_override, tier_rollback,
}
use context_brain_memory_lab.TierAdmin.Escalations.{EscalationPlan, persist_escalation, references}
use context_brain_memory_lab.TierAdmin.Resolution.{Decision, resolve}
use context_brain_memory_lab.TierAdmin.Cleanup.{CleanupResult, cleanup_ttl}
use context_brain_memory_lab.TierAdmin.Logged.{id_of, IsLogged, All-imp}
use context_brain_memory_lab.TierAdmin.Keeps.{
  Keeps, Keeps-trans, tier_override-Keeps, tier_rollback-Keeps,
}
use context_brain_memory_lab.TierAdmin.KeepsReviews.{resolve-Keeps, persist_escalation-Keeps}
use context_brain_memory_lab.TierAdmin.KeepsCleanup.{cleanup_ttl-Keeps}

-- One request or job that commits. A save gives a content id that is new to the tables.
pub data Step : World → World → Type 0 where
  overridden :
      {w w' : World} (stamp : Stamp) (auth : AuthContext) (c : String) (payload : OverrideRequest)
      → tier_override stamp auth c payload w ≡ committed w'
      → Step w w'
  rolled_back :
      {w w' : World} (stamp : Stamp) (auth : AuthContext) (c : String) (payload : RollbackRequest)
      → tier_rollback stamp auth c payload w ≡ committed w'
      → Step w w'
  resolved :
      {w w' : World} (is_uuid : String → Bool) (stamp : Stamp) (now : ℕ) (auth : AuthContext)
      (decision : Decision) (id : String)
      → resolve is_uuid stamp now auth decision id w ≡ committed w'
      → Step w w'
  escalated :
      {w w' : World} (stamp : Stamp) (id : String) (now : ℕ) (plan : EscalationPlan)
      → persist_escalation stamp id now plan w ≡ committed w'
      → Step w w'
  cleaned :
      {w w' : World} (stamps : String → Stamp) (now : ℕ) (workspace_id : Option String)
      (dry_run : Bool) (result : CleanupResult)
      → cleanup_ttl stamps now workspace_id dry_run w ≡ some (w', result)
      → Step w w'
  saved :
      {w : World} (r : ContentRow)
      → has_content r.content_id w.contents ≡ false
      → latest r.content_id w.events ≡ none
      → Step w (save_content r w)

pub data Reach : World → World → Type 0 where
  here : {w : World} → Reach w w
  after : {a b c : World} → Reach a b → Step b c → Reach a c

abbrev pub empty_world : World
empty_world = record {
  contents = [];
  escalations = [];
  events = [];
  hub_contents = [];
  decision_sources = [];
}

new-Distinct :
    (c : String) (rows : List ContentRow)
    → has_content c rows ≡ false
    → All (λ m. c ≢ m) (map id_of rows)
unfolding has_content
new-Distinct c [] h = tt
new-Distinct c (r ∷ rows) h =
    let other = eq_iff r.content_id c in
    (ground (arith, other, h), new-Distinct c rows (ground (arith, h)))

-- A saved item has no event, so its tier is not read through the log.
saved-current :
    (r : ContentRow) (w : World) (c : String) (e : TierTransitionEvent)
    → latest r.content_id w.events ≡ none
    → latest c w.events ≡ some e
    → fetch_tier c w.contents ≡ some e.new_tier
    → fetch_tier c (r ∷ w.contents) ≡ some e.new_tier
unfolding fetch_tier
saved-current r w c e fresh h current = elim (Bool-cases (r.content_id == c)) [
  | inl own ↦
      let same = eq_iff r.content_id c in
      let id : r.content_id ≡ c = ground (arith, same, own) in
      let absent = subst (λ (q : String). latest q w.events ≡ none) id fresh in cc
  | inr other ↦ rw other current
]

references-saved :
    (r : ContentRow) (w : World) (o : Option String)
    → references o w.contents ≡ true
    → references o (r ∷ w.contents) ≡ true
unfolding has_content
references-saved r w none h = refl
references-saved r w (some c) h = ground (arith, h)

saved-Keeps :
    (r : ContentRow) (w : World)
    → IsLogged w
    → has_content r.content_id w.contents ≡ false
    → latest r.content_id w.events ≡ none
    → Keeps w (save_content r w)
unfolding save_content
saved-Keeps r w l absent fresh = record {
  logged = record {
    distinct = (new-Distinct r.content_id w.contents absent, l.distinct);
    referential =
        All-imp _ _ w.escalations (λ (x : EscalationRow). references-saved r w x.content_id)
          l.referential;
    current = λ c e h. saved-current r w c e fresh h (l.current c e h);
    chained = l.chained;
  };
  appended = ([], refl);
}

pub Step-Keeps : (w w' : World) → IsLogged w → Step w w' → Keeps w w'
Step-Keeps w w' l (overridden stamp auth c payload h) =
    tier_override-Keeps stamp auth c payload w w' l h
Step-Keeps w w' l (rolled_back stamp auth c payload h) =
    tier_rollback-Keeps stamp auth c payload w w' l h
Step-Keeps w w' l (resolved is_uuid stamp now auth decision id h) =
    resolve-Keeps is_uuid stamp now auth decision id w w' l h
Step-Keeps w w' l (escalated stamp id now plan h) =
    persist_escalation-Keeps stamp id now plan w w' l h
Step-Keeps w w' l (cleaned stamps now workspace_id dry_run result h) =
    cleanup_ttl-Keeps stamps now workspace_id dry_run w w' result l h
Step-Keeps w w' l (saved r absent fresh) = saved-Keeps r w l absent fresh

Reach-Keeps : (w w' : World) → IsLogged w → Reach w w' → Keeps w w'
Reach-Keeps w w' l here = record { logged = l; appended = ([], refl) }
Reach-Keeps w w' l (after {b = b} before step) =
    let k = Reach-Keeps w b l before in Keeps-trans w b w' k (Step-Keeps b w' k.logged step)

empty_world-IsLogged : IsLogged empty_world
unfolding latest
empty_world-IsLogged = record {
  distinct = tt;
  referential = tt;
  current = λ c e h. cc;
  chained = tt;
}

-- In every state that requests and jobs lead to from empty tables, content ids are a key, escalations
-- refer to content that is there, content with an event has the tier that its latest event names, and
-- each event takes up the tier that the item's event before it left; and from there on no step takes
-- an event out of the log or changes one, but new events come in front.
pub reached_log :
    (a b : World)
    → Reach empty_world a
    → Reach a b
    → IsLogged b × (new : List TierTransitionEvent) × (b.events ≡ new ++ a.events)
reached_log a b before later =
    let first = Reach-Keeps empty_world a empty_world-IsLogged before in
    let k = Reach-Keeps a b first.logged later in (k.logged, k.appended.0, k.appended.1)
