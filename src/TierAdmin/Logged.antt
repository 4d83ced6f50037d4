-- ===== src/TierAdmin/Logged.antt =====
-- The log and the tiers agree: what one write of a tier keeps.
use context_brain_memory_lab.Prelude.{
  ◌≡◌, refl, ◌∙◌, String, true, Option, none, some, List, [], ◌∷◌, map, arith, if◌then◌else◌, All,
  Bool-cases, inl, inr,
}
use text.Mathlib.Text.{◌==◌}
use context_brain_memory_lab.Prelude.Names.{Distinct}
use text.Mathlib.TextEquality.{eq_iff}
use context_brain_memory_lab.Governance.Events.{
  Stamp, TierTransitionEvent, EventFields, event_of, build_event, emit_event,
}
use context_brain_memory_lab.TierAdmin.Tables.{
  ContentRow, EscalationRow, World, fetch_tier, has_content, update_tier, latest, move_tier,
}
use context_brain_memory_lab.TierAdmin.Escalations.{references}

abbrev pub id_of : ContentRow → String
id_of r = r.content_id

-- Each event takes up the tier that the item's event before it left.
abbrev pub IsChained : List TierTransitionEvent → Type 0
IsChained [] = Unit
IsChained (e ∷ events) =
    ((p : TierTransitionEvent)
      → latest e.content_id events ≡ some p
      → e.previous_tier ≡ some p.new_tier)
    × IsChained events

-- The tables agree: content ids are a key, escalations refer to content that is there, an item whose
-- tier was moved has the tier of its latest event, and each event takes up where the one before left.
pub record IsLogged (w : World) : Type 0 where
  pub distinct : Distinct (map id_of w.contents)
  pub referential :
      All (λ (r : EscalationRow). references r.content_id w.contents ≡ true) w.escalations
  pub current :
      (c : String) (e : TierTransitionEvent)
      → latest c w.events ≡ some e
      → fetch_tier c w.contents ≡ some e.new_tier
  pub chained : IsChained w.events

pub All-imp {ℓ κ μ} :
    {A : Type ℓ} (P : A → Type κ) (Q : A → Type μ) (xs : List A)
    → ((x : A) → P x → Q x)
    → All P xs
    → All Q xs
All-imp P Q [] imp h = tt
All-imp P Q (x ∷ xs) imp h = (imp x h.0, All-imp P Q xs imp h.1)

pub fetch_tier-update_tier :
    (c tier reason d : String) (rows : List ContentRow)
    → fetch_tier d (update_tier c tier reason rows)
      ≡ (if c == d then (if has_content c rows then some tier else none) else fetch_tier d rows)
unfolding fetch_tier update_tier has_content
fetch_tier-update_tier c tier reason d [] = ground arith
fetch_tier-update_tier c tier reason d (r ∷ rows) = ground (
  arith,
  eq_iff r.content_id c,
  eq_iff r.content_id d,
  eq_iff c d,
  fetch_tier-update_tier c tier reason d rows,
)

pub has_content-update_tier :
    (c tier reason d : String) (rows : List ContentRow)
    → has_content d (update_tier c tier reason rows) ≡ has_content d rows
unfolding update_tier has_content
has_content-update_tier c tier reason d [] = refl
has_content-update_tier c tier reason d (r ∷ rows) =
    ground (arith, has_content-update_tier c tier reason d rows)

pub id_of-update_tier :
    (c tier reason : String) (rows : List ContentRow)
    → map id_of (update_tier c tier reason rows) ≡ map id_of rows
unfolding update_tier
id_of-update_tier c tier reason [] = refl
id_of-update_tier c tier reason (r ∷ rows) = ground (arith, id_of-update_tier c tier reason rows)

-- The tables behind a write of a tier.
abbrev pub moved : Stamp → String → EventFields → World → World
moved stamp reason f w = record w {
  contents = update_tier f.content_id f.new_tier reason w.contents;
  events = event_of stamp f ∷ w.events;
}

pub move_tier_lem :
    (stamp : Stamp) (reason : String) (f : EventFields) (w w' : World)
    → move_tier stamp reason f w ≡ some w'
    → w' ≡ moved stamp reason f w
unfolding move_tier build_event emit_event
move_tier_lem stamp reason f w w' h = ground arith

references-moved :
    (stamp : Stamp) (reason : String) (f : EventFields) (w : World) (o : Option String)
    → references o w.contents ≡ true
    → references o (moved stamp reason f w).contents ≡ true
references-moved stamp reason f w none h = refl
references-moved stamp reason f w (some c) h =
    has_content-update_tier f.content_id f.new_tier reason c w.contents ∙ h

module _ (stamp : Stamp) (reason : String) (f : EventFields) (w : World)
    (there : has_content f.content_id w.contents ≡ true)
    (from : f.previous_tier ≡ fetch_tier f.content_id w.contents) (l : IsLogged w) where
  moved-current :
      (c : String) (e : TierTransitionEvent)
      → latest c (moved stamp reason f w).events ≡ some e
      → fetch_tier c (moved stamp reason f w).contents ≡ some e.new_tier
  unfolding latest event_of
  moved-current c e h =
      let split = fetch_tier-update_tier f.content_id f.new_tier reason c w.contents in
      elim (Bool-cases (f.content_id == c)) [
        | inl own ↦ ground (arith, own, there, split, h)
        | inr other ↦ rw (split, other) (l.current c e (rw other at h))
      ]

  pub moved-IsLogged : IsLogged (moved stamp reason f w)
  unfolding event_of
  moved-IsLogged = record {
    distinct = rw (id_of-update_tier f.content_id f.new_tier reason w.contents) l.distinct;
    referential =
        All-imp _ _ w.escalations
          (λ (r : EscalationRow). references-moved stamp reason f w r.content_id) l.referential;
    current = moved-current;
    chained = (λ p h. from ∙ l.current f.content_id p h, l.chained);
  }
