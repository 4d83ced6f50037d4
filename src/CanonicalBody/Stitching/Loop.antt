-- ===== src/CanonicalBody/Stitching/Loop.antt =====
-- Stitching undoes the chunker: from any point of the loop, the chunks that it still adds are put
-- back to the rest of the text.
use context_brain_memory_lab.Prelude.{
  ℕ, zero, suc, ◌+◌, ◌≤◌, ◌<◌, ◌≡◌, refl, ◌∙◌, sym, ap, subst, ◌⊎◌, inl, inr, false, map, arith,
  leb, length, take, Bool-cases, leb→le,
}
use context_brain_memory_lab.Prelude.Slices.{take_all}
use context_brain_memory_lab.Prelude.Text.{Text}
use context_brain_memory_lab.Chunking.Config.{
  ChunkerConfig, IsValid, IngestionTextInput, ContentChunk, Platform,
}
use context_brain_memory_lab.Chunking.Loop.{chunk_end, make_chunk, next_start, chunk_loop, slice}
use context_brain_memory_lab.Chunking.Positions.{
  chunk_end_bounds, chunk_loop_round, chunk_loop_no_room,
}
use context_brain_memory_lab.CanonicalBody.{stitch_step, stitch_from, stitch}
use context_brain_memory_lab.CanonicalBody.Stitching.{
  echoes, stitch_step_overlapping, stitch_step_adjacent,
}

abbrev pub chunk_body : ContentChunk → Text
chunk_body c = c.text

-- Where the loop can fall back to no overlap, the text does not echo behind its first chunk.
abbrev pub NeverEchoes : ChunkerConfig → Text → Type 0
NeverEchoes config text =
    (config.overlap_chars < config.min_chunk_chars)
    ⊎ ((e : ℕ)
        → config.min_chunk_chars ≤ e
        → e < length text
        → echoes config.overlap_chars text e ≡ false)

module _ (platform : Platform) (config : ChunkerConfig) (v : IsValid config) where
  pub text-make_chunk :
      (item : IngestionTextInput) (text : Text) (index start : ℕ)
      → (make_chunk platform config item text index start).text
        ≡ slice text start (chunk_end platform config text start).0
  unfolding make_chunk
  text-make_chunk item text index start = refl

  module _ (item : IngestionTextInput) (text : Text)
      (fits : config.overlap_chars ≤ config.min_chunk_chars) (quiet : NeverEchoes config text) where
    -- Where the loop may stand behind a chunk that ended at `e`.
    abbrev Enters : ℕ → ℕ → Type 0
    Enters s e =
        (s + config.overlap_chars ≡ e) ⊎ (s ≡ e) × (echoes config.overlap_chars text e ≡ false)

    next_start-Enters :
        (s e : ℕ)
        → s < e
        → e < length text
        → s + config.min_chunk_chars ≤ e
        → Enters (next_start config.overlap_chars s e) e
    unfolding next_start
    next_start-Enters s e h k m = elim quiet [
      | inl narrow ↦ ground arith
      | inr silent ↦ ground (arith, silent e (omega arith) k)
    ]

    stitch_step_entering :
        (s e f : ℕ)
        → Enters s e
        → e ≤ f
        → f ≤ length text
        → stitch_step config.overlap_chars (take e text) (slice text s f) ≡ take f text
    stitch_step_entering s e f (inl back) h k =
        subst (λ j. stitch_step config.overlap_chars (take j text) (slice text s f) ≡ take f text)
          back (stitch_step_overlapping config.overlap_chars text s f (omega arith) k)
    stitch_step_entering s e f (inr (at, silent)) h k =
        subst (λ j. stitch_step config.overlap_chars (take e text) (slice text j f) ≡ take f text)
          (sym at) (stitch_step_adjacent config.overlap_chars text e f (omega arith) k silent)

    Enters-le : (s e : ℕ) → Enters s e → s ≤ e
    Enters-le s e (inl back) = omega arith
    Enters-le s e (inr (at, silent)) = omega arith

    Enters-reach :
        (s e f : ℕ)
        → Enters s e
        → e < length text
        → s < f
        → (f ≡ length text) ⊎ (s + config.min_chunk_chars ≤ f)
        → e ≤ f
    Enters-reach s e f (inl back) h lt far = omega arith
    Enters-reach s e f (inr (at, silent)) h lt far = omega arith

    stitch_from-chunk_loop :
        (room index s e : ℕ)
        → Enters s e
        → e < length text
        → (chunk_loop platform config item text room index s).1 ≡ false
        → stitch_from config.overlap_chars
            (take e text)
            (map chunk_body (chunk_loop platform config item text room index s).0)
          ≡ text
    unfolding stitch_from
    stitch_from-chunk_loop zero index s e enters inside done =
        let le = Enters-le s e enters in
        cc (chunk_loop_no_room platform config v item text index s (omega arith))
    stitch_from-chunk_loop (suc room) index s e enters inside done =
        let le = Enters-le s e enters in
        let b = chunk_end_bounds platform config v text s (omega arith) in
        let f = (chunk_end platform config text s).0 in
        let acc = take e text in
        let step : stitch_step config.overlap_chars acc
              (make_chunk platform config item text index s).text
            ≡ take f text =
          ap (stitch_step config.overlap_chars acc) (text-make_chunk item text index s)
          ∙ stitch_step_entering s e f enters (Enters-reach s e f enters inside b.0 b.3) b.1 in
        let round = chunk_loop_round platform config v item text room index s (omega arith) in
        elim (Bool-cases (leb (length text) f)) [
          | inl last ↦ rw round (rw last (step ∙ take_all f text (leb→le _ _ last)))
          | inr more ↦
              let inside' : f < length text = ground arith in
              let s' = next_start config.overlap_chars s f in
              let rest = chunk_loop platform config item text room (index + 1) s' in
              let d1 = rw round at done in
              let d2 = rw more at d1 in
              rw round (
                rw more (
                  ap (λ a. stitch_from config.overlap_chars a (map chunk_body rest.0)) step
                  ∙ stitch_from-chunk_loop room (index + 1) s' f
                      (next_start-Enters s f b.0 inside' (omega arith)) inside' d2))
        ]

    -- Under a valid configuration whose overlap is at most the minimal chunk, and where the overlap is
    -- shorter than it or the text, at no position from the minimal chunk on, repeats the overlap before
    -- the position right behind it: from the start of a text that is not empty, the chunks of a loop
    -- that the limit does not stop stitch to the text.
    pub stitch-chunk_loop :
        (room : ℕ)
        → 0 < length text
        → (chunk_loop platform config item text room 0 0).1 ≡ false
        → stitch config.overlap_chars
            (map chunk_body (chunk_loop platform config item text room 0 0).0)
          ≡ text
    unfolding stitch
    stitch-chunk_loop zero h done = cc (chunk_loop_no_room platform config v item text 0 0 h)
    stitch-chunk_loop (suc room) h done =
        let b = chunk_end_bounds platform config v text 0 h in
        let f = (chunk_end platform config text 0).0 in
        let first : (make_chunk platform config item text 0 0).text ≡ take f text =
          text-make_chunk item text 0 0 ∙ ap (λ j. take j text) (omega arith) in
        let round = chunk_loop_round platform config v item text room 0 0 h in
        elim (Bool-cases (leb (length text) f)) [
          | inl last ↦
              rw round (rw last (unfold stitch_from in first ∙ take_all f text (leb→le _ _ last)))
          | inr more ↦
              let inside : f < length text = ground arith in
              let s' = next_start config.overlap_chars 0 f in
              let rest = chunk_loop platform config item text room (0 + 1) s' in
              let d1 = rw round at done in
              let d2 = rw more at d1 in
              rw round (
                rw more (
                  ap (λ a. stitch_from config.overlap_chars a (map chunk_body rest.0)) first
                  ∙ stitch_from-chunk_loop room (0 + 1) s' f
                      (next_start-Enters 0 f b.0 inside (omega arith)) inside d2))
        ]
