-- ===== src/Chunking/Positions.antt =====
-- Where the chunks stand: what one pass of the loop yields, whatever the text.
use context_brain_memory_lab.Prelude.{
  ℕ, zero, suc, ◌+◌, ◌-◌, ◌≤◌, ◌<◌, ◌≡◌, refl, ◌⊎◌, inl, inr, true, false, List, [], ◌∷◌, arith,
  leb, ltb, if◌then◌else◌, length, drop, Bool-cases, ltb→lt, length-take, length-drop,
}
use context_brain_memory_lab.Prelude.Text.{Text}
use context_brain_memory_lab.Chunking.Config.{
  ChunkerConfig, IsValid, IngestionTextInput, ContentChunk, Platform,
}
use context_brain_memory_lab.Chunking.Choice.{choose_end_bounds}
use context_brain_memory_lab.Chunking.Loop.{chunk_end, make_chunk, next_start, chunk_loop, slice}

-- A chunk that is the slice of the text between its positions, not empty and within the limit.
pub record IsSlice (config : ChunkerConfig) (text : Text) (c : ContentChunk) : Type 0 where
  pub exact : c.text ≡ slice text c.char_start c.char_end
  pub grows : c.char_start < c.char_end
  pub inside : c.char_end ≤ length text
  pub bounded : c.char_count ≤ config.max_chunk_chars
  pub counted : c.char_count + c.char_start ≡ c.char_end
  pub sized : c.char_count ≡ length c.text

-- Chunks that cover the text from `reached` on: each starts at or before the end of the one before
-- and behind its start, with the next index, and the last one ends the text.
abbrev pub Covers : ChunkerConfig → Text → ℕ → ℕ → ℕ → List ContentChunk → Type 0
Covers config text index start reached [] = reached ≡ length text
Covers config text index start reached (c ∷ cs) =
    IsSlice config text c
    × (c.index ≡ index)
    × (start ≤ c.char_start)
    × (c.char_start ≤ reached)
    × Covers config text (index + 1) (c.char_start + 1) c.char_end cs

module _ (platform : Platform) (config : ChunkerConfig) (v : IsValid config) where
  -- The end that the loop takes, with its guard: the guard is never needed.
  pub chunk_end_bounds :
      (text : Text) (start : ℕ)
      → start < length text
      → let e = (chunk_end platform config text start).0 in
        (start < e)
        × (e ≤ length text)
        × (e ≤ start + config.max_chunk_chars)
        × ((e ≡ length text) ⊎ (start + config.min_chunk_chars ≤ e))
  unfolding chunk_end
  chunk_end_bounds text start h =
      ground (arith, choose_end_bounds platform.is_decimal config text start v h)

  module _ (item : IngestionTextInput) (text : Text) where
    pub make_chunk-IsSlice :
        (index start : ℕ)
        → start < length text
        → IsSlice config text (make_chunk platform config item text index start)
    unfolding make_chunk
    make_chunk-IsSlice index start h =
        let b = chunk_end_bounds text start h in
        let e = (chunk_end platform config text start).0 in
        let size = length-take (e - start) (drop start text) in
        let rest = length-drop start text in
        record {
          exact = refl;
          grows = b.0;
          inside = b.1;
          bounded = omega (arith, size, rest, b);
          counted = omega (arith, size, rest, b);
          sized = refl;
        }

    -- One round of the loop, inside the text.
    pub chunk_loop_round :
        (room index s : ℕ)
        → s < length text
        → let f = (chunk_end platform config text s).0 in
          let chunk = make_chunk platform config item text index s in
          let rest =
            chunk_loop platform config item text room
              (index + 1)
              (next_start config.overlap_chars s f) in
          chunk_loop platform config item text (suc room) index s
          ≡ (if leb (length text) f then (chunk ∷ [], false) else (chunk ∷ rest.0, rest.1))
    unfolding chunk_loop
    chunk_loop_round room index s h = ground arith

    pub chunk_loop_no_room :
        (index s : ℕ)
        → s < length text
        → (chunk_loop platform config item text zero index s).1 ≡ true
    unfolding chunk_loop
    chunk_loop_no_room index s h = ground arith

    next_start_between :
        (s e : ℕ)
        → s < e
        → (s < next_start config.overlap_chars s e) × (next_start config.overlap_chars s e ≤ e)
    unfolding next_start
    next_start_between s e h = ground arith

    -- Under a valid configuration, a loop that the limit does not stop, started at a place inside the
    -- text that lies from `from` to `reached`, covers the text from `reached` on: its chunks are exact
    -- slices within the maximal size, in order, without a gap, numbered on, up to the text's end.
    pub chunk_loop-Covers :
        (room index from s reached : ℕ)
        → from ≤ s
        → s ≤ reached
        → s < length text
        → (chunk_loop platform config item text room index s).1 ≡ false
        → Covers config text index from reached
            (chunk_loop platform config item text room index s).0
    unfolding make_chunk
    chunk_loop-Covers zero index from s reached h k inside done =
        cc (chunk_loop_no_room index s inside)
    chunk_loop-Covers (suc room) index from s reached h k inside done =
        let b = chunk_end_bounds text s inside in
        let f = (chunk_end platform config text s).0 in
        let s' = next_start config.overlap_chars s f in
        let n = next_start_between s f b.0 in
        let slice_ok = make_chunk-IsSlice index s inside in
        let round = chunk_loop_round room index s inside in
        elim (Bool-cases (leb (length text) f)) [
          | inl last ↦ rw round (rw last (slice_ok, refl, h, k, ground arith))
          | inr more ↦
              let inside' : s' < length text = ground (arith, n) in
              let d1 = rw round at done in
              let d2 = rw more at d1 in
              rw round (
                rw more (
                  slice_ok,
                  refl,
                  h,
                  k,
                  chunk_loop-Covers room (index + 1) (s + 1) s' f (omega (arith, n)) n.1 inside' d2,
                ))
        ]

    -- Under a valid configuration, the limit stops no loop that has at most as many characters before
    -- it as chunks are allowed.
    pub chunk_loop_ends :
        (room index s : ℕ)
        → length text ≤ s + room
        → (chunk_loop platform config item text room index s).1 ≡ false
    unfolding chunk_loop
    chunk_loop_ends zero index s h = ground arith
    chunk_loop_ends (suc room) index s h = elim (Bool-cases (ltb s (length text))) [
      | inl inside ↦
          let f = (chunk_end platform config text s).0 in
          let b = chunk_end_bounds text s (ltb→lt _ _ inside) in
          let n = next_start_between s f b.0 in
          let ih =
            chunk_loop_ends room (index + 1) (next_start config.overlap_chars s f)
              (omega (arith, n)) in
          ground arith
      | inr outside ↦ ground arith
    ]
