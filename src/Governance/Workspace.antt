-- ===== src/Governance/Workspace.antt =====
-- memory_lab/governance/workspace.py. A record is taken as `_workspace_from_record` reads it: its
-- workspace_id when that is a str, else `none`.
pub mod Boundary
use context_brain_memory_lab.Prelude.{
  ℕ, zero, suc, ◌+◌, ◌/◌, ◌≡◌, refl, String, Bool, true, false, not, ◌&&◌, Option, none, some, List,
  [], ◌∷◌, ◌++◌, is_empty, length, if◌then◌else◌, ltb,
}
use Prim.Native.Nat.{◌%◌}
use text.Mathlib.Text.{◌==◌}
use context_brain_memory_lab.Prelude.Str.{strip, ◌+++◌}
use context_brain_memory_lab.Prelude.Names.{dedupe}
use context_brain_memory_lab.Governance.State.{
  ValidationResult, has_text, validation_pass, validation_fail,
}

unfoldable pub validate_workspace_id : Option String → ValidationResult
validate_workspace_id none =
    validation_fail ("workspace_id is required" ∷ []) ("B25-WORKSPACE-REQUIRED" ∷ []) []
validate_workspace_id (some workspace_id) =
    if has_text workspace_id
    then validation_pass ("B25-WORKSPACE-REQUIRED" ∷ "B25-WORKSPACE-CALLER-SUPPLIED" ∷ [])
    else validation_fail ("workspace_id is required" ∷ []) ("B25-WORKSPACE-REQUIRED" ∷ []) []

abbrev pub pick : ℕ → List String → String
pick n [] = ""
pick zero (d ∷ ds) = d
pick (suc n) (d ∷ ds) = pick n ds

unfoldable pub digit : ℕ → String
digit n = pick n ("0" ∷ "1" ∷ "2" ∷ "3" ∷ "4" ∷ "5" ∷ "6" ∷ "7" ∷ "8" ∷ "9" ∷ [])

-- The decimal digits of a number in front of `acc`; `n + 1` is fuel enough.
unfoldable pub decimal_from : ℕ → ℕ → String → String
decimal_from zero n acc = acc
decimal_from (suc fuel) n acc =
    let digits = digit (n % 10) +++ acc in
    let more = decimal_from fuel (n / 10) digits in if ltb n 10 then digits else more

unfoldable pub decimal : ℕ → String
decimal n = decimal_from (suc n) n ""

two_digits : decimal 42 ≡ "42"
unfolding decimal decimal_from digit
two_digits = refl

abbrev pub at_index : ℕ → String → String
at_index index message = "record[" +++ decimal index +++ "] " +++ message

abbrev pub mismatch : Option String → ℕ → String → List String
mismatch none index normalized = []
mismatch (some context) index normalized =
    if normalized == strip context
    then []
    else at_index index "workspace_id does not match explicit workspace context" ∷ []

-- The errors and the workspaces that the loop collects, from record number `index` on.
unfoldable pub boundary_errors : Option String → ℕ → List (Option String) → List String
boundary_errors context index [] = []
boundary_errors context index (none ∷ records) =
    at_index index "workspace_id is required" ∷ boundary_errors context (suc index) records
boundary_errors context index (some w ∷ records) =
    let rest = boundary_errors context (suc index) records in
    if has_text w
    then mismatch context index (strip w) ++ rest
    else at_index index "workspace_id is required" ∷ rest

unfoldable pub found_workspaces : List (Option String) → List String
found_workspaces [] = []
found_workspaces (none ∷ records) = found_workspaces records
found_workspaces (some w ∷ records) =
    let rest = found_workspaces records in if has_text w then strip w ∷ rest else rest

abbrev is_none : Option String → Bool
is_none none = true
is_none (some w) = false

unfoldable pub all_boundary_errors : Option String → List (Option String) → List String
all_boundary_errors context records =
    boundary_errors context 0 records
    ++ ((if ltb 1 (length (dedupe (found_workspaces records)))
          then "mixed workspace_ids are not allowed" ∷ []
          else [])
        ++ (if is_empty records && is_none context
            then "at least one record or explicit workspace_id is required" ∷ []
            else []))

abbrev context_check : Option String → ValidationResult
context_check none = validation_pass []
context_check (some w) = validate_workspace_id (some w)

unfoldable pub validate_workspace_boundary : List (Option String) → Option String → ValidationResult
validate_workspace_boundary records context =
    let rules = "B25-WORKSPACE-BOUNDARY" ∷ "B25-NO-LIVE-TENANT-LOOKUP" ∷ [] in
    if not (context_check context).valid
    then context_check context
    else if is_empty (all_boundary_errors context records)
    then validation_pass rules
    else validation_fail (all_boundary_errors context records) rules []

unfoldable pub assert_same_workspace : List (Option String) → ValidationResult
assert_same_workspace records = validate_workspace_boundary records none
