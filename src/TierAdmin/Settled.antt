-- ===== src/TierAdmin/Settled.antt =====
-- An escalation whose status is settled, and what cannot change that: expiry, writes to escalations of
-- other ids, and writes to other tables.
use context_brain_memory_lab.Prelude.{
  ℕ, ◌≡◌, refl, ◌∙◌, String, Bool, true, false, not, ◌||◌, Option, some, List, [], ◌∷◌, arith, All,
  select, Bool-cases, inl, inr,
}
use text.Mathlib.Text.{◌==◌}
use text.Mathlib.TextEquality.{eq_iff}
use text.Mathlib.TextPositions.{eq_refl}
use context_brain_memory_lab.Governance.Events.{Stamp}
use context_brain_memory_lab.TierAdmin.Tables.{EscalationRow, World}
use context_brain_memory_lab.TierAdmin.Resolution.{find_escalation, set_status}
use context_brain_memory_lab.TierAdmin.Cleanup.{
  CleanupResult, cleanup_ttl, expire_stale, expire_all, set_expired, is_stale, is_candidate,
}
use context_brain_memory_lab.TierAdmin.Untouched.{escalations-clean_rows}

-- A row of that id has that status.
abbrev pub agrees : String → String → EscalationRow → Bool
agrees id status r = not (r.id == id) || r.status == status

-- The escalation is there, and its status is settled.
pub record IsFinal (id workspace_id status : String) (w : World) : Type 0 where
  pub row : EscalationRow
  pub found : find_escalation id workspace_id w.escalations ≡ some row
  pub settled : All (λ (r : EscalationRow). agrees id status r ≡ true) w.escalations

pub moved-IsFinal :
    (id workspace_id status : String) (w w' : World)
    → w'.escalations ≡ w.escalations
    → IsFinal id workspace_id status w
    → IsFinal id workspace_id status w'
moved-IsFinal id workspace_id status w w' same f = record {
  row = f.row;
  found = rw same f.found;
  settled = rw same f.settled;
}

-- Writes to escalations of other ids.
pub find_escalation-set_status_other :
    (id workspace_id j status : String) (by : Option String) (rows : List EscalationRow)
    → (j == id) ≡ false
    → find_escalation id workspace_id (set_status j status by rows)
      ≡ find_escalation id workspace_id rows
unfolding find_escalation set_status
find_escalation-set_status_other id workspace_id j status by [] other = refl
find_escalation-set_status_other id workspace_id j status by (r ∷ rows) other = ground (
  arith,
  eq_iff r.id j,
  other,
  find_escalation-set_status_other id workspace_id j status by rows other,
)

pub set_status-settled_other :
    (id s j status : String) (by : Option String) (rows : List EscalationRow)
    → (j == id) ≡ false
    → All (λ (r : EscalationRow). agrees id s r ≡ true) rows
    → All (λ (r : EscalationRow). agrees id s r ≡ true) (set_status j status by rows)
unfolding set_status
set_status-settled_other id s j status by [] other h = tt
set_status-settled_other id s j status by (r ∷ rows) other (hr, h) = (
  ground (arith, eq_iff r.id j, other, hr),
  set_status-settled_other id s j status by rows other h,
)

pub set_status-settled :
    (id status : String) (by : Option String) (rows : List EscalationRow)
    → All (λ (r : EscalationRow). agrees id status r ≡ true) (set_status id status by rows)
unfolding set_status
set_status-settled id status by [] = tt
set_status-settled id status by (r ∷ rows) =
    (ground (arith, eq_refl status), set_status-settled id status by rows)

find_escalation-set_expired :
    (id workspace_id j : String) (rows : List EscalationRow)
    → (j == id) ≡ false
    → find_escalation id workspace_id (set_expired j rows) ≡ find_escalation id workspace_id rows
unfolding find_escalation set_expired
find_escalation-set_expired id workspace_id j [] other = refl
find_escalation-set_expired id workspace_id j (r ∷ rows) other =
    ground (arith, eq_iff r.id j, other, find_escalation-set_expired id workspace_id j rows other)

set_expired-settled :
    (id s j : String) (rows : List EscalationRow)
    → (j == id) ≡ false
    → All (λ (r : EscalationRow). agrees id s r ≡ true) rows
    → All (λ (r : EscalationRow). agrees id s r ≡ true) (set_expired j rows)
unfolding set_expired
set_expired-settled id s j [] other h = tt
set_expired-settled id s j (r ∷ rows) other (hr, h) =
    (ground (arith, eq_iff r.id j, other, hr), set_expired-settled id s j rows other h)

-- A pending row is not one whose status is settled otherwise.
pub pending_other :
    (id status : String) (r : EscalationRow)
    → (status == "pending") ≡ false
    → agrees id status r ≡ true
    → (r.status == "pending") ≡ true
    → (r.id == id) ≡ false
pending_other id status r final h pending =
    ground (
      arith,
      eq_iff r.status status,
      eq_iff r.status "pending",
      eq_refl "pending",
      final,
      h,
      pending,
    )

stale_other :
    (now : ℕ) (id status : String) (rows : List EscalationRow)
    → (status == "pending") ≡ false
    → All (λ (r : EscalationRow). agrees id status r ≡ true) rows
    → All (λ (r : EscalationRow). (r.id == id) ≡ false) (select (is_stale now) rows)
stale_other now id status [] final h = tt
stale_other now id status (r ∷ rows) final (hr, h) = elim (Bool-cases (is_stale now r)) [
  | inl stale ↦ rw stale (
    pending_other id status r final hr (ground (arith, stale)),
    stale_other now id status rows final h,
  )
  | inr kept ↦ rw kept (stale_other now id status rows final h)
]

expired-IsFinal :
    (stale : List EscalationRow) (id workspace_id status : String) (w : World)
    → All (λ (r : EscalationRow). (r.id == id) ≡ false) stale
    → IsFinal id workspace_id status w
    → IsFinal id workspace_id status (record w { escalations = expire_all stale w.escalations })
unfolding expire_all
expired-IsFinal [] id workspace_id status w others f = record {
  row = f.row;
  found = f.found;
  settled = f.settled;
}
expired-IsFinal (r ∷ stale) id workspace_id status w (other, others) f =
    let g =
      expired-IsFinal stale id workspace_id status
        (record w { escalations = set_expired r.id w.escalations }) others
        (record {
          row = f.row;
          found = find_escalation-set_expired id workspace_id r.id w.escalations other ∙ f.found;
          settled = set_expired-settled id status r.id w.escalations other f.settled;
        }) in
    record { row = g.row; found = g.found; settled = g.settled }

pub cleanup_ttl-IsFinal :
    (stamps : String → Stamp) (now : ℕ) (asked : Option String) (dry_run : Bool)
    (result : CleanupResult) (id workspace_id status : String) (w w' : World)
    → (status == "pending") ≡ false
    → cleanup_ttl stamps now asked dry_run w ≡ some (w', result)
    → IsFinal id workspace_id status w
    → IsFinal id workspace_id status w'
unfolding cleanup_ttl expire_stale
cleanup_ttl-IsFinal stamps now asked true result id workspace_id status w w' final h f =
    moved-IsFinal id workspace_id status w w'
      (escalations-clean_rows stamps true (select (is_candidate now asked) w.contents) w w' _ result
        h)
      f
cleanup_ttl-IsFinal stamps now asked false result id workspace_id status w w' final h f =
    let stale = select (is_stale now) w.escalations in
    let expired = record w { escalations = expire_all stale w.escalations } in
    moved-IsFinal id workspace_id status expired w'
      (escalations-clean_rows stamps false (select (is_candidate now asked) w.contents) expired w' _
        result h)
      (expired-IsFinal stale id workspace_id status w
        (stale_other now id status w.escalations final f.settled) f)
