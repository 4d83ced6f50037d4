-- ===== src/Chunking/Loop.antt =====
-- `chunk_content` and `chunk_text`: the loop over the text and the result. The loop recurs on the
-- number of chunks that `max_chunks_per_item` still allows, so it has no outcome of its own.
use context_brain_memory_lab.Prelude.{
  ℕ, zero, suc, ◌+◌, ◌-◌, min, String, Bool, true, false, ◌&&◌, not, List, [], ◌∷◌, ◌++◌, leb, ltb,
  if◌then◌else◌, length, is_empty, take, drop,
}
use context_brain_memory_lab.Prelude.Text.{Text, strip}
use context_brain_memory_lab.Prelude.Str.{truthy}
use context_brain_memory_lab.Chunking.Config.{
  ChunkerConfig, IngestionTextInput, ContentChunk, ContentChunkingResult, Platform,
}
use context_brain_memory_lab.Chunking.Boundaries.{normalize_line_endings}
use context_brain_memory_lab.Chunking.Choice.{choose_end}
use context_brain_memory_lab.Chunking.Identity.{chunk_id, quality_flags}

abbrev synthetic_data_source : String
synthetic_data_source = "synthetic_or_caller_supplied_text"

abbrev chunker_mode : String
chunker_mode = "deterministic_chunker_v1"

-- `text[start:end]`
abbrev pub slice : Text → ℕ → ℕ → Text
slice text start end = take (end - start) (drop start text)

-- `max(0, end - overlap_chars)`, or the end where that would not go on.
unfoldable pub next_start : ℕ → ℕ → ℕ → ℕ
next_start overlap_chars start end =
    if leb (end - overlap_chars) start then end else end - overlap_chars

module _ (platform : Platform) (config : ChunkerConfig) where
  -- The end of the next chunk, with the guard behind `_choose_end`.
  unfoldable pub chunk_end : Text → ℕ → ℕ × String
  chunk_end text start =
      let chosen = choose_end platform.is_decimal config text start in
      if leb chosen.0 start
      then (min (length text) (start + config.max_chunk_chars), "hard_boundary_guard")
      else chosen

  unfoldable pub reason_of : Text → Text → String → String
  reason_of text chunk_text chosen =
      if leb (length text) config.max_chunk_chars
      then (if ltb (length chunk_text) config.min_chunk_chars
          then "short_content_single_chunk"
          else "single_chunk_within_max")
      else chosen

  unfoldable pub make_chunk : IngestionTextInput → Text → ℕ → ℕ → ContentChunk
  make_chunk item text index start =
      let (end, chosen) = chunk_end text start in
      let chunk_text = slice text start end in
      record {
        chunk_id = chunk_id platform item.item_id index start end chunk_text;
        text = chunk_text;
        order = index;
        index = index;
        char_start = start;
        char_end = end;
        char_count = length chunk_text;
        source_id = item.item_id;
        source_case_id = item.source_case_id;
        quality_flags = quality_flags platform config chunk_text (length text);
        boundary_reason = reason_of text chunk_text chosen;
        mode = chunker_mode;
        data_source = if truthy item.data_source then item.data_source else synthetic_data_source;
        degraded = false;
        limitations = "deterministic character chunk" ∷ [];
      }

  -- The `while` loop at `len(chunks) = index`, with `room` chunks to go; the chunks that it adds, and
  -- `guard_hit`.
  unfoldable pub chunk_loop : IngestionTextInput → Text → ℕ → ℕ → ℕ → List ContentChunk × Bool
  chunk_loop item text zero index start = ([], ltb start (length text))
  chunk_loop item text (suc room) index start =
      let end = (chunk_end text start).0 in
      let chunk = make_chunk item text index start in
      let rest =
        chunk_loop item text room (index + 1) (next_start config.overlap_chars start end) in
      if ltb start (length text)
      then (if leb (length text) end then (chunk ∷ [], false) else (chunk ∷ rest.0, rest.1))
      else ([], false)

  unfoldable pub result :
      IngestionTextInput → List ContentChunk → Bool → List String → String → ContentChunkingResult
  result item chunks degraded extra rationale = record {
    chunks = chunks;
    full_confidence = not (is_empty chunks) && not degraded;
    rationale = rationale;
    mode = chunker_mode;
    data_source = if truthy item.data_source then item.data_source else synthetic_data_source;
    degraded = degraded;
    limitations =
        ("deterministic character chunker" ∷ "no provider calls" ∷ "no stored-record access"
          ∷ "no vector operation" ∷ "no mutation methods" ∷ [])
        ++ extra;
  }

  unfoldable pub chunk_content : IngestionTextInput → ContentChunkingResult
  unfolding result
  chunk_content item =
      let text = normalize_line_endings item.text in
      let (chunks, guard_hit) = chunk_loop item text config.max_chunks_per_item 0 0 in
      if is_empty text
      then result item [] true ("empty_content" ∷ []) "empty content produced zero chunks"
      else if is_empty (strip text)
      then result item [] true ("whitespace_only_content" ∷ [])
          "whitespace-only content produced zero chunks"
      else result item chunks guard_hit (if guard_hit then "max_chunk_count_reached" ∷ [] else [])
          "deterministic character chunking completed"

  unfoldable pub chunk_text : Text → Text → Text → String → ContentChunkingResult
  chunk_text text source_id source_case_id data_source = chunk_content (record {
    text = text;
    item_id = source_id;
    source_case_id = source_case_id;
    data_source = data_source;
  })
