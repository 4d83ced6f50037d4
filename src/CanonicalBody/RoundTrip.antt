-- ===== src/CanonicalBody/RoundTrip.antt =====
-- A body that was saved is read back: the chunks of a save are a sound set, and they stitch to the
-- content.
use context_brain_memory_lab.Prelude.{
  ℕ, ◌+◌, ◌<◌, ◌≡◌, ◌≢◌, refl, sym, ap, subst, ◌∙◌, String, true, false, Option, none, some, List,
  [], ◌∷◌, map, arith, if◌then◌else◌, length, is_empty, select, All, inl, inr, ◌⊎◌,
}
use context_brain_memory_lab.Prelude.Text.{Text, codes, text_eqb_refl}
use context_brain_memory_lab.Chunking.Config.{
  ChunkerConfig, IsValid, IngestionTextInput, ContentChunk, Platform, default_config,
}
use context_brain_memory_lab.Chunking.Loop.{chunk_loop, chunk_content, chunk_text}
use context_brain_memory_lab.Chunking.Boundaries.{
  normalize_line_endings, normalize_id, replace_crlf,
}
use context_brain_memory_lab.Chunking.Positions.{Covers, IsSlice, chunk_loop-Covers}
use context_brain_memory_lab.ChunkStore.{ChunkTable, EmbeddingBackend}
use context_brain_memory_lab.ChunkStore.Rows.{nonempty, chunks_of-persist_multi_chunks}
use context_brain_memory_lab.CanonicalBody.{
  PersistedChunk, hash_verified, ReconstructionResult, sort_chunks, is_range_from, stitch_from,
  index_of, text_of, stitch, reconstruct_canonical_body, check_expected_version, blocks,
}
use context_brain_memory_lab.CanonicalBody.Stitching.Loop.{
  chunk_body, NeverEchoes, stitch-chunk_loop,
}
use context_brain_memory_lab.CanonicalBody.Read.{
  submitted_chunks, save_body, ContentItem, find_item, BodyResponse, body_read, respond, persisted,
  get_canonical_body, read_found, is_ready, indexed,
}
use context_brain_memory_lab.CanonicalBody.Ranges.{sort_of_range, reconstruct_of_range}

module _ (config : ChunkerConfig) (text : Text) where
  nonempty_of_slice : (c : ContentChunk) → IsSlice config text c → is_empty c.text ≡ false
  nonempty_of_slice c s = go c.text (omega (arith, s.grows, s.counted, s.sized))
    where
      go : (t : Text) → 0 < length t → is_empty t ≡ false
      go [] h = absurd (omega arith)
      go (x ∷ t) h = refl

  Covers-nonempty :
      (index from reached : ℕ) (cs : List ContentChunk)
      → Covers config text index from reached cs
      → select nonempty (map indexed cs) ≡ map indexed cs
  Covers-nonempty index from reached [] h = refl
  Covers-nonempty index from reached (c ∷ cs) h =
      let ih = Covers-nonempty (index + 1) (c.char_start + 1) c.char_end cs h.4 in
      ground (arith, nonempty_of_slice c h.0)

  Covers-is_range_from :
      (index from reached : ℕ) (cs : List ContentChunk)
      → Covers config text index from reached cs
      → is_range_from index (map index_of (map persisted (map indexed cs))) ≡ true
  unfolding is_range_from
  Covers-is_range_from index from reached [] h = refl
  Covers-is_range_from index from reached (c ∷ cs) h =
      let ih = Covers-is_range_from (index + 1) (c.char_start + 1) c.char_end cs h.4 in
      ground (arith, h.1)

texts_of_persisted :
    (cs : List ContentChunk) → map text_of (map persisted (map indexed cs)) ≡ map chunk_body cs
texts_of_persisted [] = refl
texts_of_persisted (c ∷ cs) = ap (λ l. c.text ∷ l) (texts_of_persisted cs)

default_config-IsValid : IsValid default_config
default_config-IsValid = omega arith

-- The input that `chunk_text` makes of a content.
abbrev pub submission : Text → IngestionTextInput
submission content = record {
  text = content;
  item_id = codes "syn-b17-input";
  source_case_id = [];
  data_source = "synthetic_or_caller_supplied_text";
}

-- Chunks in order, from index 0, that stitch to the content.
abbrev Stitches : Text → List (ℕ × Text) → Type 0
Stitches content chunks =
    (is_range_from 0 (map index_of (map persisted chunks)) ≡ true)
    × (stitch 80 (map text_of (map persisted chunks)) ≡ content)

module _ (platform : Platform) (content : Text) (no_cr : All (λ c. c ≢ b'\r') content)
    (within_limit : (chunk_loop platform default_config (submission content) content 1000 0 0).1
      ≡ false)
    (quiet : NeverEchoes default_config content) (some_text : 0 < length content) where
  loop_chunks : List ContentChunk
  loop_chunks = (chunk_loop platform default_config (submission content) content 1000 0 0).0

  loop_chunks-Stitches : Stitches content (select nonempty (map indexed loop_chunks))
  unfolding loop_chunks
  loop_chunks-Stitches =
      let covers =
        chunk_loop-Covers platform default_config default_config-IsValid (submission content)
          content 1000 0 0 0 0 (omega arith) (omega arith) some_text within_limit in
      rw (Covers-nonempty default_config content 0 0 0 loop_chunks covers) (
        Covers-is_range_from default_config content 0 0 0 loop_chunks covers,
        ap (stitch 80) (texts_of_persisted loop_chunks)
            ∙ stitch-chunk_loop platform default_config default_config-IsValid (submission content)
                content (omega arith) quiet 1000 some_text within_limit,
      )

  whole-Stitches : Stitches content (select nonempty ((0, content) ∷ []))
  whole-Stitches = go content some_text
    where
      go : (t : Text) → 0 < length t → Stitches t (select nonempty ((0, t) ∷ []))
      go [] h = absurd (omega arith)
      go (x ∷ t) h = unfold is_range_from stitch stitch_from in (refl, refl)

  submitted-Stitches :
      (chunks : List ContentChunk)
      → (chunks ≡ []) ⊎ (chunks ≡ loop_chunks)
      → Stitches content
          (select nonempty (if is_empty chunks then (0, content) ∷ [] else map indexed chunks))
  submitted-Stitches [] h = whole-Stitches
  submitted-Stitches (c ∷ cs) (inl h) = cc
  submitted-Stitches (c ∷ cs) (inr h) =
      subst (λ l. Stitches content (select nonempty (map indexed l))) (sym h) loop_chunks-Stitches

  chunks_cases :
      let chunks = (chunk_content platform default_config (submission content)).chunks in
      (chunks ≡ []) ⊎ (chunks ≡ loop_chunks)
  unfolding chunk_content loop_chunks
  chunks_cases = rw (normalize_id content no_cr) (ground arith)

  saved-Stitches : Stitches content (
      select nonempty (
        submitted_chunks
          (chunk_text platform default_config content
            (codes "syn-b17-input")
            []
            "synthetic_or_caller_supplied_text")
          content))
  unfolding submitted_chunks chunk_text
  saved-Stitches =
      submitted-Stitches (chunk_content platform default_config (submission content)).chunks
        chunks_cases

reconstruct_of_Stitches :
    (sha256_hex : Text → Text) (content : Text) (chunks : List (ℕ × Text))
    → 0 < length content
    → Stitches content chunks
    → reconstruct_canonical_body sha256_hex 80 1000
        (sort_chunks (map persisted chunks))
        (some (sha256_hex content))
      ≡ record {
        candidate = some content;
        fidelity = hash_verified;
        reason = "verified_reconstruction";
        computed_hash = some (sha256_hex content);
      }
unfolding stitch
reconstruct_of_Stitches sha256_hex content [] h s = absurd (omega (arith, ap length s.1))
reconstruct_of_Stitches sha256_hex content (c ∷ cs) h s =
    rw (sort_of_range 0 (map persisted (c ∷ cs)) s.0)
      (reconstruct_of_range sha256_hex 80 1000 (persisted c) (map persisted cs) content s.0 s.1)

-- What a read of a verified body answers.
abbrev pub verified_response : (Text → Text) → ContentItem → Text → BodyResponse
verified_response sha256_hex item content = record {
  content_id = item.content_id;
  workspace_id = item.workspace_id;
  updated_at = item.updated_at;
  body = some content;
  body_sha256 = some (sha256_hex content);
  fidelity = hash_verified;
}

respond_of_verified :
    (sha256_hex : Text → Text) (item : ContentItem) (content : Text) (r : ReconstructionResult)
    → r.candidate ≡ some content
    → r.fidelity ≡ hash_verified
    → r.computed_hash ≡ some (sha256_hex content)
    → respond item r ≡ verified_response sha256_hex item content
unfolding respond
respond_of_verified sha256_hex item content r c f h = ground arith

-- Reading chunks that reconstruct to the content, with no expected version or the stored hash.
read_found_of_reconstruct :
    (sha256_hex : Text → Text) (item : ContentItem) (content : Text) (chunks : List PersistedChunk)
    (expected : Option Text)
    → (expected ≡ none) ⊎ (expected ≡ some (sha256_hex content))
    → (let r = reconstruct_canonical_body sha256_hex 80 1000 chunks (some (sha256_hex content)) in
        (r.candidate ≡ some content)
        × (r.fidelity ≡ hash_verified)
        × (r.computed_hash ≡ some (sha256_hex content)))
    → read_found sha256_hex item (some (sha256_hex content)) chunks expected
      ≡ body_read (verified_response sha256_hex item content)
unfolding read_found check_expected_version blocks
read_found_of_reconstruct sha256_hex item content chunks expected version r =
    let answer = ap body_read (respond_of_verified sha256_hex item content _ r.0 r.1 r.2) in
    elim version [
      | inl absent ↦ rw absent answer
      | inr same ↦ rw same (rw (text_eqb_refl (sha256_hex content)) answer)
    ]

-- The chunks that a save leaves in the table for its item.
saved_chunks : Platform → Text → List (ℕ × Text)
saved_chunks platform content = select nonempty (
    submitted_chunks
      (chunk_text platform default_config content (codes "syn-b17-input") []
        "synthetic_or_caller_supplied_text")
      content)

reconstruct_saved :
    (platform : Platform) (content : Text)
    → All (λ c. c ≢ b'\r') content
    → (chunk_loop platform default_config (submission content) content 1000 0 0).1 ≡ false
    → NeverEchoes default_config content
    → let r =
        reconstruct_canonical_body platform.sha256_hex 80 1000
          (sort_chunks (map persisted (saved_chunks platform content)))
          (some (platform.sha256_hex content)) in
      (r.candidate ≡ some content)
      × (r.fidelity ≡ hash_verified)
      × (r.computed_hash ≡ some (platform.sha256_hex content))
unfolding saved_chunks
reconstruct_saved platform [] no_cr within quiet =
    unfold chunk_text chunk_content submitted_chunks normalize_line_endings replace_crlf sort_chunks
      reconstruct_canonical_body in
    rw (text_eqb_refl (platform.sha256_hex [])) (refl, refl, refl)
reconstruct_saved platform (c ∷ s) no_cr within quiet =
    let content = c ∷ s in
    rw
      (reconstruct_of_Stitches platform.sha256_hex content (saved_chunks platform content)
        (omega arith) (saved-Stitches platform content no_cr within quiet (omega arith)))
      (refl, refl, refl)

-- A body that was saved is read back exactly, whatever the table held before and whatever the
-- embedding provider answers: the response shows the body and its hash as verified. The content item
-- is found in its workspace and holds the hash of the body; the expected version is absent or is that
-- hash; and the body has no carriage return, is not cut off by the chunk limit, and nowhere has 80
-- characters that the same 80 follow at once.
pub get_canonical_body-save_body :
    (platform : Platform) (backend : Option EmbeddingBackend) (items : List ContentItem)
    (t : ChunkTable) (content_id : String) (owner workspace_id : Option String)
    (expected : Option Text) (item : ContentItem) (content : Text)
    → find_item content_id workspace_id items ≡ some item
    → item.content_hash ≡ some (platform.sha256_hex content)
    → (expected ≡ none) ⊎ (expected ≡ some (platform.sha256_hex content))
    → All (λ c. c ≢ b'\r') content
    → (chunk_loop platform default_config (submission content) content 1000 0 0).1 ≡ false
    → NeverEchoes default_config content
    → get_canonical_body platform.sha256_hex items
        (save_body platform backend content_id owner content t).1
        content_id
        workspace_id
        expected
      ≡ body_read (verified_response platform.sha256_hex item content)
unfolding get_canonical_body save_body saved_chunks
get_canonical_body-save_body platform backend items t content_id owner workspace_id expected item
      content found hash version no_cr within quiet =
    rw (found, get_canonical_body)
      (subst
        (λ l.
          read_found platform.sha256_hex item item.content_hash (sort_chunks (map persisted l))
            expected
          ≡ body_read (verified_response platform.sha256_hex item content))
        (sym (chunks_of-persist_multi_chunks backend (is_ready backend) content_id owner _ t).0)
        (subst
          (λ h.
            read_found platform.sha256_hex item h
              (sort_chunks (map persisted (saved_chunks platform content))) expected
            ≡ body_read (verified_response platform.sha256_hex item content))
          (sym hash)
          (read_found_of_reconstruct platform.sha256_hex item content _ expected version
            (reconstruct_saved platform content no_cr within quiet))))
