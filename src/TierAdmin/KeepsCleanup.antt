-- ===== src/TierAdmin/KeepsCleanup.antt =====
-- The clean-up keeps the tables in order: its rounds leave the later candidates as they were selected.
use context_brain_memory_lab.Prelude.{
  ℕ, ◌≡◌, ◌≢◌, refl, sym, subst, ◌∙◌, String, Bool, true, false, Option, some, List, [], ◌∷◌, map,
  arith, All, All-select, select, Option-cases, Bool-cases, inl, inr, ◌⊎◌,
}
use text.Mathlib.TextEquality.{eq_iff}
use text.Mathlib.TextPositions.{eq_refl}
use context_brain_memory_lab.Governance.Events.{Stamp}
use context_brain_memory_lab.TierAdmin.Tables.{
  ContentRow, EscalationRow, World, fetch_tier, has_content, update_tier, move_tier,
}
use context_brain_memory_lab.TierAdmin.Escalations.{references}
use context_brain_memory_lab.TierAdmin.Cleanup.{
  CleanupResult, cleanup_ttl, clean_rows, clean_row, archive_row, archive_fields, expire_stale,
  expire_all, set_expired, is_candidate, is_stale, rule_transient_ttl,
}
use context_brain_memory_lab.TierAdmin.Logged.{
  id_of, IsLogged, move_tier_lem, fetch_tier-update_tier, has_content-update_tier,
}
use context_brain_memory_lab.Prelude.Names.{Distinct}
use context_brain_memory_lab.TierAdmin.Keeps.{Keeps, Keeps-trans, move_tier-Keeps}

-- The row that was selected is still the content's row.
unfoldable pub IsFresh : List ContentRow → ContentRow → Type 0
IsFresh contents r =
    (fetch_tier r.content_id contents ≡ r.tier) × (has_content r.content_id contents ≡ true)

IsFresh-later :
    (x : ContentRow) (contents rows : List ContentRow)
    → All (λ m. x.content_id ≢ m) (map id_of rows)
    → All (IsFresh contents) rows
    → All (IsFresh (x ∷ contents)) rows
unfolding IsFresh fetch_tier has_content
IsFresh-later x contents [] d h = tt
IsFresh-later x contents (r ∷ rows) (dr, d) ((tier, there), h) =
    let other = eq_iff x.content_id r.content_id in
    ((ground (arith, other, dr, tier), ground (arith, there)), IsFresh-later x contents rows d h)

pub contents-IsFresh :
    (contents : List ContentRow) → Distinct (map id_of contents) → All (IsFresh contents) contents
unfolding IsFresh fetch_tier has_content
contents-IsFresh [] d = tt
contents-IsFresh (x ∷ contents) (dx, d) = (
  (ground (arith, eq_refl x.content_id), ground (arith, eq_refl x.content_id)),
  IsFresh-later x contents contents dx (contents-IsFresh contents d),
)

All-ids-select :
    (P : String → Type 0) (p : ContentRow → Bool) (rows : List ContentRow)
    → All P (map id_of rows)
    → All P (map id_of (select p rows))
All-ids-select P p [] h = tt
All-ids-select P p (r ∷ rows) (hr, h) = elim (Bool-cases (p r)) [
  | inl kept ↦ rw kept (hr, All-ids-select P p rows h)
  | inr left ↦ rw left (All-ids-select P p rows h)
]

pub Distinct-select :
    (p : ContentRow → Bool) (rows : List ContentRow)
    → Distinct (map id_of rows)
    → Distinct (map id_of (select p rows))
Distinct-select p [] d = tt
Distinct-select p (r ∷ rows) (dr, d) = elim (Bool-cases (p r)) [
  | inl kept ↦ rw kept (All-ids-select (λ m. r.content_id ≢ m) p rows dr, Distinct-select p rows d)
  | inr left ↦ rw left (Distinct-select p rows d)
]

-- A write to one item leaves the rows of the others fresh.
pub IsFresh-update_tier :
    (c tier reason : String) (contents rows : List ContentRow)
    → All (λ m. c ≢ m) (map id_of rows)
    → All (IsFresh contents) rows
    → All (IsFresh (update_tier c tier reason contents)) rows
unfolding IsFresh
IsFresh-update_tier c tier reason contents [] d h = tt
IsFresh-update_tier c tier reason contents (r ∷ rows) (dr, d) ((was, there), h) =
    let split = fetch_tier-update_tier c tier reason r.content_id contents in
    let other = eq_iff c r.content_id in
    (
      (
        ground (arith, split, other, dr, was),
        has_content-update_tier c tier reason r.content_id contents ∙ there,
      ),
      IsFresh-update_tier c tier reason contents rows d h,
    )

-- What the loop keeps: the tables behind it are in order, and the rows ahead of it are fresh.
pub record Loops (w : World) (rows : List ContentRow) (w' : World) : Type 0 where
  pub kept : Keeps w w'
  pub fresh : All (IsFresh w'.contents) rows

archive_row-Loops :
    (stamps : String → Stamp) (dry_run : Bool) (r : ContentRow) (rows : List ContentRow)
    (w w' : World) (result result' : CleanupResult)
    → All (λ m. r.content_id ≢ m) (map id_of rows)
    → IsLogged w
    → All (IsFresh w.contents) (r ∷ rows)
    → archive_row stamps dry_run r (w, result) ≡ some (w', result')
    → Loops w rows w'
unfolding archive_row archive_fields IsFresh
archive_row-Loops stamps dry_run r rows w w' result result' d l ((was, there), fresh) h =
    elim (Bool-cases dry_run) [
      | inl dry ↦
          let same : w ≡ w' = ground (arith, dry, h) in
          subst (λ (q : World). Loops w rows q) same
            (record { kept = record { logged = l; appended = ([], refl) }; fresh = fresh })
      | inr wet ↦
          elim (Option-cases
            (move_tier (stamps r.content_id) rule_transient_ttl (archive_fields r) w)) [
              | inl unsent ↦ ground (arith, wet, unsent, h)
              | inr (moved_w, went) ↦
                  let same : moved_w ≡ w' = ground (arith, wet, went, h) in
                  subst (λ (q : World). Loops w rows q) same
                    (record {
                      kept =
                          move_tier-Keeps (stamps r.content_id) rule_transient_ttl
                            (archive_fields r) w moved_w there (sym was) l went;
                      fresh =
                          subst (λ (q : World). All (IsFresh q.contents) rows)
                            (sym (
                              move_tier_lem (stamps r.content_id) rule_transient_ttl
                                (archive_fields r) w moved_w went))
                            (IsFresh-update_tier r.content_id "archived" rule_transient_ttl
                              w.contents rows d fresh);
                    })
            ]
    ]

-- A round leaves the tables alone or archives.
clean_row_cases :
    (stamps : String → Stamp) (dry_run : Bool) (r : ContentRow) (w w' : World)
    (result result' : CleanupResult)
    → clean_row stamps dry_run r (w, result) ≡ some (w', result')
    → (w ≡ w') ⊎ (archive_row stamps dry_run r (w, result) ≡ some (w', result'))
unfolding clean_row
clean_row_cases stamps dry_run r w w' result result' h = ground (arith, h)

pub clean_row-Loops :
    (stamps : String → Stamp) (dry_run : Bool) (r : ContentRow) (rows : List ContentRow)
    (w w' : World) (result result' : CleanupResult)
    → All (λ m. r.content_id ≢ m) (map id_of rows)
    → IsLogged w
    → All (IsFresh w.contents) (r ∷ rows)
    → clean_row stamps dry_run r (w, result) ≡ some (w', result')
    → Loops w rows w'
clean_row-Loops stamps dry_run r rows w w' result result' d l fresh h =
    elim (clean_row_cases stamps dry_run r w w' result result' h) [
      | inl same ↦
          subst (λ (q : World). Loops w rows q) same
            (record { kept = record { logged = l; appended = ([], refl) }; fresh = fresh.1 })
      | inr archived ↦
          archive_row-Loops stamps dry_run r rows w w' result result' d l fresh archived
    ]

clean_rows-Keeps :
    (stamps : String → Stamp) (dry_run : Bool) (rows : List ContentRow) (w w' : World)
    (result result' : CleanupResult)
    → Distinct (map id_of rows)
    → IsLogged w
    → All (IsFresh w.contents) rows
    → clean_rows stamps dry_run rows (w, result) ≡ some (w', result')
    → Keeps w w'
unfolding clean_rows
clean_rows-Keeps stamps dry_run [] w w' result result' d l fresh h =
    let same : w ≡ w' = cc in
    subst (λ (q : World). Keeps w q) same (record { logged = l; appended = ([], refl) })
clean_rows-Keeps stamps dry_run (r ∷ rows) w w' result result' (dr, d) l fresh h =
    elim (Option-cases (clean_row stamps dry_run r (w, result))) [
      | inl unsent ↦ ground (arith, unsent, h)
      | inr ((w1, result1), went) ↦
          let round = clean_row-Loops stamps dry_run r rows w w1 result result1 dr l fresh went in
          Keeps-trans w w1 w' round.kept (
            clean_rows-Keeps stamps dry_run rows w1 w' result1 result' d round.kept.logged
              round.fresh (rw (went, clean_rows) at h))
    ]

set_expired-All :
    (P : Option String → Bool) (id : String) (rows : List EscalationRow)
    → All (λ (r : EscalationRow). P r.content_id ≡ true) rows
    → All (λ (r : EscalationRow). P r.content_id ≡ true) (set_expired id rows)
unfolding set_expired
set_expired-All P id [] h = tt
set_expired-All P id (r ∷ rows) (hr, h) = (ground (arith, hr), set_expired-All P id rows h)

expire_all-All :
    (P : Option String → Bool) (stale rows : List EscalationRow)
    → All (λ (r : EscalationRow). P r.content_id ≡ true) rows
    → All (λ (r : EscalationRow). P r.content_id ≡ true) (expire_all stale rows)
unfolding expire_all
expire_all-All P [] rows h = h
expire_all-All P (r ∷ stale) rows h =
    expire_all-All P stale (set_expired r.id rows) (set_expired-All P r.id rows h)

pub expired-IsLogged :
    (stale : List EscalationRow) (w : World)
    → IsLogged w
    → IsLogged (record w { escalations = expire_all stale w.escalations })
expired-IsLogged stale w l = record {
  distinct = l.distinct;
  referential = expire_all-All (λ o. references o w.contents) stale w.escalations l.referential;
  current = l.current;
  chained = l.chained;
}

candidates-Keeps :
    (stamps : String → Stamp) (now : ℕ) (workspace_id : Option String) (dry_run : Bool)
    (w w' : World) (result result' : CleanupResult)
    → IsLogged w
    → clean_rows stamps dry_run (select (is_candidate now workspace_id) w.contents) (w, result)
      ≡ some (w', result')
    → Keeps w w'
candidates-Keeps stamps now workspace_id dry_run w w' result result' l h =
    clean_rows-Keeps stamps dry_run (select (is_candidate now workspace_id) w.contents) w w' result
      result' (Distinct-select (is_candidate now workspace_id) w.contents l.distinct) l
      (All-select (IsFresh w.contents) (is_candidate now workspace_id) w.contents
        (contents-IsFresh w.contents l.distinct))
      h

pub cleanup_ttl-Keeps :
    (stamps : String → Stamp) (now : ℕ) (workspace_id : Option String) (dry_run : Bool)
    (w w' : World) (result : CleanupResult)
    → IsLogged w
    → cleanup_ttl stamps now workspace_id dry_run w ≡ some (w', result)
    → Keeps w w'
unfolding cleanup_ttl expire_stale
cleanup_ttl-Keeps stamps now workspace_id true w w' result l h =
    candidates-Keeps stamps now workspace_id true w w' _ result l h
cleanup_ttl-Keeps stamps now workspace_id false w w' result l h =
    let stale = select (is_stale now) w.escalations in
    let k =
      candidates-Keeps stamps now workspace_id false
        (record w { escalations = expire_all stale w.escalations }) w' _ result
        (expired-IsLogged stale w l) h in
    record { logged = k.logged; appended = k.appended }
