-- ===== src/TierAdmin/Spares.antt =====
-- Which content the clean-up archives.
use context_brain_memory_lab.Prelude.{
  ℕ, ◌≡◌, ◌≢◌, refl, sym, ap, subst, ◌∙◌, String, Bool, true, false, ◌||◌, Option, none, some, List,
  [], ◌∷◌, map, arith, All, All-select, select, any, Option-cases, Bool-cases, inl, inr, ◌⊎◌,
}
use text.Mathlib.Text.{◌==◌}
use text.Mathlib.TextEquality.{eq_iff}
use context_brain_memory_lab.Prelude.Names.{contains}
use context_brain_memory_lab.Governance.Events.{Stamp}
use context_brain_memory_lab.TierAdmin.Tables.{ContentRow, World, fetch_tier, move_tier}
use context_brain_memory_lab.TierAdmin.Cleanup.{
  CleanupResult, cleanup_ttl, clean_rows, clean_row, archive_row, archive_fields, expire_stale,
  expire_all, has_tier, is_pending_for, is_candidate, is_stale, rule_transient_ttl,
}
use context_brain_memory_lab.TierAdmin.Logged.{id_of, moved, move_tier_lem, fetch_tier-update_tier}
use context_brain_memory_lab.Prelude.Names.{Distinct}
use context_brain_memory_lab.TierAdmin.Keeps.{has_content_of_fetch}
use context_brain_memory_lab.TierAdmin.KeepsCleanup.{
  IsFresh, contents-IsFresh, Distinct-select, IsFresh-update_tier,
}

-- Content that a hub or a decision uses, or that has a pending escalation.
abbrev pub shielded : String → World → Bool
shielded c w =
    any (is_pending_for c) w.escalations
    || contains c w.hub_contents
    || contains c w.decision_sources

-- The clean-up's effect on the tier of `c`.
abbrev pub IsSpared : String → World → World → Type 0
IsSpared c w w' =
    (fetch_tier c w'.contents ≡ fetch_tier c w.contents)
    ⊎ ((shielded c w ≡ false)
        × (fetch_tier c w.contents ≡ some "transient")
        × (fetch_tier c w'.contents ≡ some "archived"))

pub clean_row_open :
    (stamps : String → Stamp) (dry_run : Bool) (r : ContentRow) (w w' : World)
    (result result' : CleanupResult)
    → clean_row stamps dry_run r (w, result) ≡ some (w', result')
    → (w ≡ w')
      ⊎ ((has_tier ("conflicted" ∷ []) r.tier ≡ false)
          × (shielded r.content_id w ≡ false)
          × (archive_row stamps dry_run r (w, result) ≡ some (w', result')))
unfolding clean_row
clean_row_open stamps dry_run r w w' result result' h = ground (arith, h)

pub archive_row_open :
    (stamps : String → Stamp) (dry_run : Bool) (r : ContentRow) (w w' : World)
    (result result' : CleanupResult)
    → archive_row stamps dry_run r (w, result) ≡ some (w', result')
    → (w ≡ w') ⊎ (w' ≡ moved (stamps r.content_id) rule_transient_ttl (archive_fields r) w)
unfolding archive_row
archive_row_open stamps dry_run r w w' result result' h =
    elim (Option-cases (move_tier (stamps r.content_id) rule_transient_ttl (archive_fields r) w)) [
      | inl unsent ↦ ground (arith, unsent, h)
      | inr (q, went) ↦
          let written =
            move_tier_lem (stamps r.content_id) rule_transient_ttl (archive_fields r) w q went in
          ground (arith, went, h, written)
    ]

transient_of :
    (o : Option String)
    → has_tier ("transient" ∷ "conflicted" ∷ []) o ≡ true
    → has_tier ("conflicted" ∷ []) o ≡ false
    → o ≡ some "transient"
transient_of none h conflicted = cc
transient_of (some t) h conflicted = ground (arith, eq_iff t "transient", h, conflicted)

candidate_transient :
    (now : ℕ) (workspace_id : Option String) (r : ContentRow)
    → is_candidate now workspace_id r ≡ true
    → has_tier ("conflicted" ∷ []) r.tier ≡ false
    → r.tier ≡ some "transient"
candidate_transient now workspace_id r picked conflicted =
    transient_of r.tier (ground (arith, picked)) conflicted

-- The write of the archiving spares every other content.
moved-IsSpared :
    (stamp : Stamp) (r : ContentRow) (w : World) (c : String)
    → shielded r.content_id w ≡ false
    → fetch_tier r.content_id w.contents ≡ some "transient"
    → IsSpared c w (moved stamp rule_transient_ttl (archive_fields r) w)
unfolding archive_fields
moved-IsSpared stamp r w c unshielded was =
    let split = fetch_tier-update_tier r.content_id "archived" rule_transient_ttl c w.contents in
    elim (Bool-cases (r.content_id == c)) [
      | inr other ↦ inl (rw (split, other) refl)
      | inl own ↦
          let id : r.content_id ≡ c = ground (arith, eq_iff r.content_id c, own) in
          let there = has_content_of_fetch r.content_id "transient" w.contents was in
          inr (
            subst (λ (q : String). shielded q w ≡ false) id unshielded,
            subst (λ (q : String). fetch_tier q w.contents ≡ some "transient") id was,
            rw (split, own, there) refl,
          )
    ]

clean_row-IsSpared :
    (stamps : String → Stamp) (now : ℕ) (workspace_id : Option String) (dry_run : Bool)
    (r : ContentRow) (w w' : World) (result result' : CleanupResult) (c : String)
    → is_candidate now workspace_id r ≡ true
    → IsFresh w.contents r
    → clean_row stamps dry_run r (w, result) ≡ some (w', result')
    → IsSpared c w w' × (shielded c w' ≡ shielded c w)
unfolding IsFresh archive_fields
clean_row-IsSpared stamps now workspace_id dry_run r w w' result result' c picked (was, there) h =
    elim (clean_row_open stamps dry_run r w w' result result' h) [
      | inl same ↦ (
        inl (sym (ap (λ (q : World). fetch_tier c q.contents) same)),
        sym (ap (λ (q : World). shielded c q) same),
      )
      | inr (conflicted, unshielded, archived) ↦
          elim (archive_row_open stamps dry_run r w w' result result' archived) [
            | inl same ↦ (
              inl (sym (ap (λ (q : World). fetch_tier c q.contents) same)),
              sym (ap (λ (q : World). shielded c q) same),
            )
            | inr written ↦ (
              subst (λ (q : World). IsSpared c w q) (sym written)
                  (moved-IsSpared (stamps r.content_id) r w c unshielded
                    (was ∙ candidate_transient now workspace_id r picked conflicted)),
              ap (λ (q : World). shielded c q) written,
            )
          ]
    ]

IsSpared-trans :
    (c : String) (w a w' : World)
    → IsSpared c w a
    → shielded c a ≡ shielded c w
    → IsSpared c a w'
    → IsSpared c w w'
IsSpared-trans c w a w' (inl same) kept (inl still) = inl (still ∙ same)
IsSpared-trans c w a w' (inl same) kept (inr (free, was, now)) =
    inr (sym kept ∙ free, sym same ∙ was, now)
IsSpared-trans c w a w' (inr (free, was, now)) kept (inl still) = inr (free, was, still ∙ now)
IsSpared-trans c w a w' (inr (free, was, now)) kept (inr (open_now, other, later)) =
    inr (free, was, later)

-- A round leaves the rows of the other items fresh.
clean_row-IsFresh :
    (stamps : String → Stamp) (dry_run : Bool) (r : ContentRow) (rows : List ContentRow)
    (w w' : World) (result result' : CleanupResult)
    → All (λ m. r.content_id ≢ m) (map id_of rows)
    → All (IsFresh w.contents) rows
    → clean_row stamps dry_run r (w, result) ≡ some (w', result')
    → All (IsFresh w'.contents) rows
unfolding archive_fields
clean_row-IsFresh stamps dry_run r rows w w' result result' d fresh h =
    elim (clean_row_open stamps dry_run r w w' result result' h) [
      | inl same ↦ subst (λ (q : World). All (IsFresh q.contents) rows) same fresh
      | inr (conflicted, unshielded, archived) ↦
          elim (archive_row_open stamps dry_run r w w' result result' archived) [
            | inl same ↦ subst (λ (q : World). All (IsFresh q.contents) rows) same fresh
            | inr written ↦
                subst (λ (q : World). All (IsFresh q.contents) rows) (sym written)
                  (IsFresh-update_tier r.content_id "archived" rule_transient_ttl w.contents rows d
                    fresh)
          ]
    ]

clean_rows-IsSpared :
    (stamps : String → Stamp) (now : ℕ) (workspace_id : Option String) (dry_run : Bool)
    (rows : List ContentRow) (w w' : World) (result result' : CleanupResult) (c : String)
    → All (λ (r : ContentRow). is_candidate now workspace_id r ≡ true) rows
    → Distinct (map id_of rows)
    → All (IsFresh w.contents) rows
    → clean_rows stamps dry_run rows (w, result) ≡ some (w', result')
    → IsSpared c w w'
unfolding clean_rows
clean_rows-IsSpared stamps now workspace_id dry_run [] w w' result result' c picked d fresh h =
    let same : w ≡ w' = cc in inl (sym (ap (λ (q : World). fetch_tier c q.contents) same))
clean_rows-IsSpared stamps now workspace_id dry_run (r ∷ rows) w w' result result' c (p, picked)
      (dr, d) fresh h =
    elim (Option-cases (clean_row stamps dry_run r (w, result))) [
      | inl unsent ↦ ground (arith, unsent, h)
      | inr ((w1, result1), went) ↦
          let later = clean_row-IsFresh stamps dry_run r rows w w1 result result1 dr fresh.1 went in
          let (first, kept) =
            clean_row-IsSpared stamps now workspace_id dry_run r w w1 result result1 c p fresh.0
              went in
          IsSpared-trans c w w1 w' first kept (
            clean_rows-IsSpared stamps now workspace_id dry_run rows w1 w' result1 result' c picked
              d later (rw (went, clean_rows) at h))
    ]

select_picked :
    (p : ContentRow → Bool) (rows : List ContentRow)
    → All (λ (r : ContentRow). p r ≡ true) (select p rows)
select_picked p [] = tt
select_picked p (r ∷ rows) = elim (Bool-cases (p r)) [
  | inl kept ↦ rw kept (kept, select_picked p rows)
  | inr left ↦ rw left (select_picked p rows)
]

candidates-IsSpared :
    (stamps : String → Stamp) (now : ℕ) (workspace_id : Option String) (dry_run : Bool)
    (w w' : World) (result result' : CleanupResult) (c : String)
    → Distinct (map id_of w.contents)
    → clean_rows stamps dry_run (select (is_candidate now workspace_id) w.contents) (w, result)
      ≡ some (w', result')
    → IsSpared c w w'
candidates-IsSpared stamps now workspace_id dry_run w w' result result' c d h =
    clean_rows-IsSpared stamps now workspace_id dry_run
      (select (is_candidate now workspace_id) w.contents) w w' result result' c
      (select_picked (is_candidate now workspace_id) w.contents)
      (Distinct-select (is_candidate now workspace_id) w.contents d)
      (All-select (IsFresh w.contents) (is_candidate now workspace_id) w.contents
        (contents-IsFresh w.contents d))
      h

-- On tables whose content ids are a key, a clean-up that ends leaves the tier of every content as it
-- is, but for transient content that it archives and that no hub, no decision and no escalation still
-- pending behind the expiry refers to.
pub cleanup_ttl-IsSpared :
    (stamps : String → Stamp) (now : ℕ) (workspace_id : Option String) (dry_run : Bool)
    (w w' : World) (result : CleanupResult) (c : String)
    → Distinct (map id_of w.contents)
    → cleanup_ttl stamps now workspace_id dry_run w ≡ some (w', result)
    → IsSpared c (expire_stale dry_run now w).0 w'
unfolding cleanup_ttl expire_stale
cleanup_ttl-IsSpared stamps now workspace_id true w w' result c d h =
    candidates-IsSpared stamps now workspace_id true w w' _ result c d h
cleanup_ttl-IsSpared stamps now workspace_id false w w' result c d h =
    let stale = select (is_stale now) w.escalations in
    candidates-IsSpared stamps now workspace_id false
      (record w { escalations = expire_all stale w.escalations }) w' _ result c d h
