-- ===== src/Chunking/Choice.antt =====
-- `_choose_end`: by priority, the last boundary at or before the target, else the first behind it,
-- else the hard limit.
use context_brain_memory_lab.Prelude.{
  ℕ, ◌+◌, ◌-◌, ◌≤◌, ◌<◌, min, ◌≡◌, String, Bool, ◌&&◌, Option, none, some, List, [], ◌∷◌, arith,
  ltb, leb, nat_eqb, if◌then◌else◌, length, select, All, ◌⊎◌, All-select,
}
use context_brain_memory_lab.Prelude.Text.{Text}
use context_brain_memory_lab.Chunking.Config.{ChunkerConfig, IsValid}
use context_brain_memory_lab.Chunking.Boundaries.{Boundary, boundary_candidates}

-- `max(cs, key=position)` and `min(cs, key=position)`, the first of the best, on a list that
-- follows `best`.
unfoldable pub max_position : Boundary → List Boundary → Boundary
max_position best [] = best
max_position best (c ∷ cs) = max_position (if ltb best.position c.position then c else best) cs

unfoldable pub min_position : Boundary → List Boundary → Boundary
min_position best [] = best
min_position best (c ∷ cs) = min_position (if ltb c.position best.position then c else best) cs

abbrev best_of : (Boundary → List Boundary → Boundary) → List Boundary → Option Boundary
best_of pick [] = none
best_of pick (c ∷ cs) = some (pick c cs)

-- One round of the loop over the priorities.
unfoldable pub choose_at : ℕ → ℕ → List Boundary → Option Boundary
choose_at target_pos priority candidates =
    let here = select (λ c. nat_eqb c.priority priority) candidates in
    elim (best_of max_position (select (λ c. leb c.position target_pos) here)) [
      | some c ↦ some c
      | none ↦ best_of min_position (select (λ c. ltb target_pos c.position) here)
    ]

-- `for priority in range(1, 6)`, over the priorities that are left.
unfoldable pub choose_from : ℕ → List ℕ → List Boundary → Option Boundary
choose_from target_pos [] candidates = none
choose_from target_pos (p ∷ ps) candidates =
    let later = choose_from target_pos ps candidates in
    elim (choose_at target_pos p candidates) [ some c ↦ some c | none ↦ later ]

abbrev priorities : List ℕ
priorities = 1 ∷ 2 ∷ 3 ∷ 4 ∷ 5 ∷ []

-- The boundary positions from the minimum to the maximum length of a chunk.
unfoldable pub end_candidates : (ℕ → Bool) → Text → ℕ → ℕ → ℕ → List Boundary
end_candidates is_decimal text start min_pos max_pos =
    select (λ b. leb min_pos b.position && leb b.position max_pos)
      (boundary_candidates is_decimal text start max_pos)

abbrev end_at : ℕ → Option Boundary → ℕ × String
end_at max_pos none = (max_pos, "hard_character_boundary")
end_at max_pos (some c) = (c.position, c.reason)

unfoldable pub choose_end : (ℕ → Bool) → ChunkerConfig → Text → ℕ → ℕ × String
choose_end is_decimal config text start =
    let text_length = length text in
    let min_pos = min text_length (start + config.min_chunk_chars) in
    let target_pos = min text_length (start + config.target_chunk_chars) in
    let max_pos = min text_length (start + config.max_chunk_chars) in
    if leb (text_length - start) config.max_chunk_chars
    then (text_length, "final_chunk")
    else end_at max_pos
        (choose_from target_pos priorities (end_candidates is_decimal text start min_pos max_pos))

module _ (lo hi : ℕ) where
  abbrev Within : Boundary → Type 0
  Within b = (lo ≤ b.position) × (b.position ≤ hi)

  abbrev OnSome : Option Boundary → Type 0
  OnSome none = Unit
  OnSome (some b) = Within b

  max_position-Within :
      (best : Boundary) (cs : List Boundary)
      → Within best
      → All Within cs
      → Within (max_position best cs)
  unfolding max_position
  max_position-Within best [] h hs = h
  max_position-Within best (c ∷ cs) h hs =
      max_position-Within (if ltb best.position c.position then c else best) cs (ground arith) hs.1

  min_position-Within :
      (best : Boundary) (cs : List Boundary)
      → Within best
      → All Within cs
      → Within (min_position best cs)
  unfolding min_position
  min_position-Within best [] h hs = h
  min_position-Within best (c ∷ cs) h hs =
      min_position-Within (if ltb c.position best.position then c else best) cs (ground arith) hs.1

  best_of-max : (cs : List Boundary) → All Within cs → OnSome (best_of max_position cs)
  best_of-max [] h = tt
  best_of-max (c ∷ cs) h = max_position-Within c cs h.0 h.1

  best_of-min : (cs : List Boundary) → All Within cs → OnSome (best_of min_position cs)
  best_of-min [] h = tt
  best_of-min (c ∷ cs) h = min_position-Within c cs h.0 h.1

  or_else-Within :
      (a b : Option Boundary) → OnSome a → OnSome b → OnSome (elim a [ some c ↦ some c | none ↦ b ])
  or_else-Within none b ha hb = hb
  or_else-Within (some c) b ha hb = ha

  choose_at-Within :
      (target_pos priority : ℕ) (cs : List Boundary)
      → All Within cs
      → OnSome (choose_at target_pos priority cs)
  unfolding choose_at
  choose_at-Within target_pos priority cs h =
      let here = select (λ c. nat_eqb c.priority priority) cs in
      let hs : All Within here = All-select Within (λ c. nat_eqb c.priority priority) cs h in
      or_else-Within (best_of max_position (select (λ c. leb c.position target_pos) here))
        (best_of min_position (select (λ c. ltb target_pos c.position) here))
        (best_of-max _ (All-select Within (λ c. leb c.position target_pos) here hs))
        (best_of-min _ (All-select Within (λ c. ltb target_pos c.position) here hs))

  choose_from-Within :
      (target_pos : ℕ) (ps : List ℕ) (cs : List Boundary)
      → All Within cs
      → OnSome (choose_from target_pos ps cs)
  unfolding choose_from
  choose_from-Within target_pos [] cs h = tt
  choose_from-Within target_pos (p ∷ ps) cs h =
      or_else-Within (choose_at target_pos p cs) (choose_from target_pos ps cs)
        (choose_at-Within target_pos p cs h) (choose_from-Within target_pos ps cs h)

  select-Within :
      (cs : List Boundary) → All Within (select (λ b. leb lo b.position && leb b.position hi) cs)
  select-Within [] = tt
  select-Within (c ∷ cs) = ground (arith, select-Within cs)

  end_candidates-Within :
      (is_decimal : ℕ → Bool) (text : Text) (start : ℕ)
      → All Within (end_candidates is_decimal text start lo hi)
  unfolding end_candidates
  end_candidates-Within is_decimal text start =
      select-Within (boundary_candidates is_decimal text start hi)

  end_at_bounds :
      (o : Option Boundary) → lo ≤ hi → OnSome o → (lo ≤ (end_at hi o).0) × ((end_at hi o).0 ≤ hi)
  end_at_bounds none le h = (le, omega arith)
  end_at_bounds (some c) le h = h

-- Under a valid configuration the chosen end lies behind the start, within the text and at most
-- `max_chunk_chars` on; it is the end of the text or leaves at least `min_chunk_chars`.
pub choose_end_bounds :
    (is_decimal : ℕ → Bool) (config : ChunkerConfig) (text : Text) (start : ℕ)
    → IsValid config
    → start < length text
    → let e = (choose_end is_decimal config text start).0 in
      (start < e)
      × (e ≤ length text)
      × (e ≤ start + config.max_chunk_chars)
      × ((e ≡ length text) ⊎ (start + config.min_chunk_chars ≤ e))
unfolding choose_end
choose_end_bounds is_decimal config text start v h =
    let lo = min (length text) (start + config.min_chunk_chars) in
    let hi = min (length text) (start + config.max_chunk_chars) in
    let target_pos = min (length text) (start + config.target_chunk_chars) in
    let cs = end_candidates is_decimal text start lo hi in
    let w = end_at_bounds lo hi (choose_from target_pos priorities cs) (omega arith) (
      choose_from-Within lo hi target_pos priorities cs
        (end_candidates-Within lo hi is_decimal text start)) in
    ground (arith, w)
