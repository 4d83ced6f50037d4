-- ===== src/Governance/Workspace/Boundary.antt =====
-- What the workspace boundary accepts.
use context_brain_memory_lab.Prelude.{
  ℕ, suc, ◌≡◌, refl, ◌↔◌, inl, inr, String, Bool, true, false, ◌&&◌, Option, none, some, List, [],
  ◌∷◌, is_empty, length, All, All-append, if◌then◌else◌, ltb, arith, Bool-cases,
}
use text.Mathlib.Text.{◌==◌}
use text.Mathlib.TextEquality.{eq_iff}
use context_brain_memory_lab.Prelude.Str.{strip, truthy-strip, ◌+++◌}
use context_brain_memory_lab.Prelude.Text.{is_space}
use context_brain_memory_lab.Prelude.Names.{dedupe, fresh_names}
use context_brain_memory_lab.Governance.State.{has_text, validation_pass, validation_fail}
use context_brain_memory_lab.Governance.State.Validity.{
  IsCoherent, IsText, reported-IsCoherent, fail-IsCoherent,
}
use context_brain_memory_lab.Governance.Workspace.{
  at_index, decimal, validate_workspace_id, boundary_errors, found_workspaces, all_boundary_errors,
  validate_workspace_boundary,
}

-- A record that names the workspace `w`, up to white space around it.
abbrev pub InWorkspace : String → Option String → Type 0
InWorkspace w none = ⊥
InWorkspace w (some v) = (has_text v ≡ true) × (strip v ≡ strip w)

no_errors :
    (w : String) (index : ℕ) (records : List (Option String))
    → (is_empty (boundary_errors (some w) index records) ≡ true) ↔ All (InWorkspace w) records
unfolding boundary_errors
no_errors w index [] = (λ h. tt, λ h. refl)
no_errors w index (none ∷ records) = (λ h. ground arith, λ h. absurd h.0)
no_errors w index (some v ∷ records) =
    let rest = no_errors w (suc index) records in
    let same = eq_iff (strip v) (strip w) in
    (λ h. (ground (arith, same), ground (arith, same)), λ h. ground (arith, same))

fresh_names_same :
    (w : String) (records : List (Option String))
    → All (InWorkspace w) records
    → fresh_names (strip w ∷ []) (found_workspaces records) ≡ []
unfolding found_workspaces
fresh_names_same w [] h = refl
fresh_names_same w (none ∷ records) h = absurd h.0
fresh_names_same w (some v ∷ records) h =
    let rest = fresh_names_same w records h.1 in
    rw (h.0.0, h.0.1, (eq_iff (strip w) (strip w)).1 refl) rest

few_found :
    (w : String) (records : List (Option String))
    → All (InWorkspace w) records
    → ltb 1 (length (dedupe (found_workspaces records))) ≡ false
unfolding found_workspaces
few_found w [] h = ground arith
few_found w (none ∷ records) h = absurd h.0
few_found w (some v ∷ records) h = rw (h.0.0, h.0.1, fresh_names_same w records h.1) (ground arith)

at_index-IsText : (index : ℕ) (message : String) → IsText (at_index index message)
unfolding strip is_space
at_index-IsText index message =
    truthy-strip "r" ("ecord[" +++ decimal index +++ "] " +++ message) refl

boundary_errors-All :
    (w : String) (index : ℕ) (records : List (Option String))
    → All IsText (boundary_errors (some w) index records)
unfolding boundary_errors
boundary_errors-All w index [] = tt
boundary_errors-All w index (none ∷ records) =
    (at_index-IsText index _, boundary_errors-All w (suc index) records)
boundary_errors-All w index (some v ∷ records) =
    let rest = boundary_errors-All w (suc index) records in
    elim (Bool-cases (has_text v)) [
      | inr blank ↦ rw blank (at_index-IsText index _, rest)
      | inl there ↦ elim (Bool-cases (strip v == strip w)) [
        | inl same ↦ rw (there, same) rest
        | inr other ↦ rw (there, other) (at_index-IsText index _, rest)
      ]
    ]

one_if-All : (b : Bool) (m : String) → IsText m → All IsText (if b then m ∷ [] else [])
one_if-All true m h = (h, tt)
one_if-All false m h = tt

all_boundary_errors-All :
    (w : String) (records : List (Option String))
    → All IsText (all_boundary_errors (some w) records)
unfolding all_boundary_errors strip is_space
all_boundary_errors-All w records =
    All-append IsText (boundary_errors (some w) 0 records) _ (boundary_errors-All w 0 records) (
      All-append IsText
        (if ltb 1 (length (dedupe (found_workspaces records)))
          then "mixed workspace_ids are not allowed" ∷ []
          else [])
        _ (one_if-All _ _ refl) (one_if-All (is_empty records && false) _ refl))

required-IsText : IsText "workspace_id is required"
unfolding strip is_space
required-IsText = refl

-- The result of a boundary check says that it is valid exactly when it has no errors.
pub validate_workspace_boundary-IsCoherent :
    (records : List (Option String)) (w : String)
    → IsCoherent (validate_workspace_boundary records (some w))
unfolding validate_workspace_boundary validate_workspace_id validation_pass validation_fail
validate_workspace_boundary-IsCoherent records w = elim (Bool-cases (has_text w)) [
  | inr blank ↦
      rw blank
        (fail-IsCoherent "workspace_id is required" ("B25-WORKSPACE-REQUIRED" ∷ []) required-IsText)
  | inl there ↦ rw there (
      reported-IsCoherent (all_boundary_errors (some w) records)
        ("B25-WORKSPACE-BOUNDARY" ∷ "B25-NO-LIVE-TENANT-LOOKUP" ∷ [])
        (all_boundary_errors-All w records))
]

-- Records lie inside an explicit workspace exactly when the workspace's name is not blank and every
-- record names it, white space around the names aside.
pub validate_workspace_boundary_lem :
    (records : List (Option String)) (w : String)
    → ((validate_workspace_boundary records (some w)).valid ≡ true)
      ↔ ((has_text w ≡ true) × All (InWorkspace w) records)
unfolding validate_workspace_boundary validate_workspace_id validation_pass validation_fail
    all_boundary_errors
validate_workspace_boundary_lem records w =
    let errors = no_errors w 0 records in
    (
      λ h. (ground arith, errors.0 (ground arith)),
      λ h. let few = few_found w records h.1 in let clean = errors.1 h.1 in ground arith,
    )
