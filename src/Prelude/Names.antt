-- ===== src/Prelude/Names.antt =====
-- Sets and lists of names (Python strings that a program compares): membership, `_dedupe`.
use Prim.Native.String.{String}
use mathlib.Core.Path.{◌≡◌, subst, sym}
use mathlib.Core.Logic.{◌≢◌, inl, inr}
use mathlib.Core.Bool.{Bool, true, false}
use mathlib.Core.List.{List, [], ◌∷◌}
use text.Mathlib.Text.{◌==◌}
use text.Mathlib.TextEquality.{eq_iff}
use context_brain_memory_lab.Prelude.Tests.{if◌then◌else◌, Bool-cases}
use context_brain_memory_lab.Prelude.Lists.{All}

-- `name in names`
abbrev pub contains : String → List String → Bool
contains name [] = false
contains name (n ∷ names) = if name == n then true else contains name names

-- No name twice.
abbrev pub Distinct : List String → Type 0
Distinct [] = Unit
Distinct (n ∷ names) = All (λ m. n ≢ m) names × Distinct names

-- What holds of each listed name holds of a name in the list.
pub All-contains {κ} :
    (P : String → Type κ) (name : String) (names : List String)
    → All P names
    → contains name names ≡ true
    → P name
All-contains P name [] h c = absurd (no_way c)
  where
    no_way : false ≡ true → ⊥
    no_way e = cc
All-contains P name (n ∷ names) h c = elim (Bool-cases (name == n)) [
  | inl same ↦ subst P (sym ((eq_iff name n).0 same)) h.0
  | inr other ↦ All-contains P name names h.1 (rw other at c)
]

-- The names of the second list that are not in the first, once each, in order.
abbrev pub fresh_names : List String → List String → List String
fresh_names seen [] = []
fresh_names seen (n ∷ names) =
    let skip = fresh_names seen names in
    let keep = n ∷ fresh_names (n ∷ seen) names in if contains n seen then skip else keep

-- `_dedupe`, and `tuple(dict.fromkeys(names))`
abbrev pub dedupe : List String → List String
dedupe = fresh_names []
