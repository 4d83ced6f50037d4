-- ===== src/CanonicalBody/Stitching.antt =====
-- One round of `_stitch` on two neighbouring slices of a text.
pub mod Loop
use context_brain_memory_lab.Prelude.{
  ℕ, zero, suc, ◌+◌, ◌-◌, min, ◌≤◌, ◌<◌, ◌≡◌, refl, ◌∙◌, sym, ap, subst, ◌⊎◌, inl, inr, Bool, true,
  false, Option, none, some, List, [], ◌∷◌, ◌++◌, map, arith, ltb, leb, nat_eqb, if◌then◌else◌,
  length, take, drop, Bool-cases, length-take, length-drop, append_assoc, leb→le, ltb→lt, ◌&&◌,
}
use context_brain_memory_lab.Prelude.Slices.{
  take-append-slice, drop-take, take_le, drop-drop, take_all,
}
use context_brain_memory_lab.Prelude.Text.{Text, text_eqb, text_eqb_refl}
use context_brain_memory_lab.Chunking.Config.{
  ChunkerConfig, IsValid, IngestionTextInput, ContentChunk, Platform,
}
use context_brain_memory_lab.Chunking.Choice.{choose_end, choose_end_bounds}
use context_brain_memory_lab.Chunking.Loop.{chunk_end, make_chunk, next_start, chunk_loop, slice}
use context_brain_memory_lab.CanonicalBody.{stitch_step, stitch_from, stitch}

-- The `overlap` characters before a position are repeated behind it.
abbrev pub echoes : ℕ → Text → ℕ → Bool
echoes overlap text e = text_eqb (drop (e - overlap) (take e text)) (take overlap (drop e text))

stitch_step_hit :
    (overlap : ℕ) (acc t : Text)
    → overlap ≤ length acc
    → overlap ≤ length t
    → drop (length acc - overlap) acc ≡ take overlap t
    → 0 < overlap
    → stitch_step overlap acc t ≡ acc ++ drop overlap t
unfolding stitch_step
stitch_step_hit overlap acc t ha ht same pos =
    let hit : text_eqb (drop (length acc - overlap) acc) (take overlap t) ≡ true =
      subst (λ u. text_eqb u (take overlap t) ≡ true) (sym same) (text_eqb_refl (take overlap t)) in
    ground arith

stitch_step_miss :
    (overlap : ℕ) (acc t : Text)
    → (overlap ≤ length t → text_eqb (drop (length acc - overlap) acc) (take overlap t) ≡ false)
    → stitch_step overlap acc t ≡ acc ++ t
unfolding stitch_step
stitch_step_miss overlap acc t differ = elim (Bool-cases (leb overlap (length t))) [
  | inl long ↦ ground (arith, differ (leb→le _ _ long))
  | inr short ↦ ground arith
]

module _ (overlap : ℕ) (text : Text) where
  tail_of_prefix :
      (s : ℕ)
      → s + overlap ≤ length text
      → drop (length (take (s + overlap) text) - overlap) (take (s + overlap) text)
        ≡ take overlap (drop s text)
  tail_of_prefix s h =
      ap (λ j. drop j (take (s + overlap) text)) (omega (arith, length-take (s + overlap) text))
      ∙ drop-take s overlap text

  rest_of_slice :
      (s f : ℕ)
      → s + overlap ≤ f
      → drop overlap (slice text s f) ≡ take (f - (s + overlap)) (drop (s + overlap) text)
  rest_of_slice s f h =
      ap (λ j. drop overlap (take j (drop s text)))
        (let e : f - s ≡ overlap + (f - (s + overlap)) = omega arith in e)
      ∙ (drop-take overlap (f - (s + overlap)) (drop s text)
          ∙ ap (take (f - (s + overlap))) (drop-drop overlap s text))

  length-slice : (s f : ℕ) → f ≤ length text → length (slice text s f) ≡ f - s
  length-slice s f h = omega (arith, length-take (f - s) (drop s text), length-drop s text)

  -- A chunk that starts `overlap` before the end of the last one.
  pub stitch_step_overlapping :
      (s f : ℕ)
      → s + overlap ≤ f
      → f ≤ length text
      → stitch_step overlap (take (s + overlap) text) (slice text s f) ≡ take f text
  unfolding stitch_step
  stitch_step_overlapping s f h k = elim (Bool-cases (ltb 0 overlap)) [
    | inr zero_overlap ↦
        let none_overlaps : s + overlap ≡ s = ground arith in
        rw zero_overlap (
          ap (λ j. take j text ++ slice text s f) none_overlaps
          ∙ take-append-slice s f text (omega arith))
    | inl positive ↦
        stitch_step_hit overlap (take (s + overlap) text) (slice text s f)
          (omega (arith, length-take (s + overlap) text)) (omega (arith, length-slice s f k))
          (tail_of_prefix s (omega arith)
            ∙ sym (take_le overlap (f - s) (drop s text) (omega arith)))
          (ltb→lt 0 overlap positive)
        ∙ (ap (λ t. take (s + overlap) text ++ t) (rest_of_slice s f h)
            ∙ take-append-slice (s + overlap) f text h)
  ]

  -- A chunk that starts at the end of the last one, where the text does not echo.
  pub stitch_step_adjacent :
      (e f : ℕ)
      → e ≤ f
      → f ≤ length text
      → echoes overlap text e ≡ false
      → stitch_step overlap (take e text) (slice text e f) ≡ take f text
  unfolding stitch_step
  stitch_step_adjacent e f h k quiet =
      stitch_step_miss overlap (take e text) (slice text e f) (λ long.
        ap (λ j. text_eqb (drop (j - overlap) (take e text)) (take overlap (slice text e f)))
          (let whole : length (take e text) ≡ e = omega (arith, length-take e text) in whole)
        ∙ (ap (text_eqb (drop (e - overlap) (take e text)))
              (take_le overlap (f - e) (drop e text) (omega (arith, long, length-slice e f k)))
            ∙ quiet))
      ∙ take-append-slice e f text h
