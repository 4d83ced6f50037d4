-- ===== src/Examples/Bodies.antt =====
-- The chunker, the reconstruction of a body and the chunk table, on small texts.
use context_brain_memory_lab.Prelude.{
  ◌+◌, ◌≤◌, ◌<◌, ◌≡◌, ◌≢◌, refl, ◌⊎◌, inl, inr, ◌↔◌, String, true, false, none, some, List, [], ◌∷◌,
  map, arith, length, select,
}
use context_brain_memory_lab.Prelude.Text.{Text, codes, text_eqb}
use context_brain_memory_lab.Chunking.Config.{ChunkerConfig, default_config, IsValid, Platform}
use context_brain_memory_lab.Chunking.Choice.{choose_end, choose_end_bounds}
use context_brain_memory_lab.Chunking.Loop.{chunk_loop}
use context_brain_memory_lab.Chunking.Positions.{Covers, chunk_loop-Covers, chunk_loop_ends}
use context_brain_memory_lab.CanonicalBody.{
  PersistedChunk, stitch, reconstruct_canonical_body, check_expected_version, blocks,
}
use context_brain_memory_lab.CanonicalBody.Soundness.{
  IsSound, reconstruct_canonical_body-IsSound, check_expected_version-blocks,
}
use context_brain_memory_lab.CanonicalBody.Stitching.Loop.{
  NeverEchoes, chunk_body, stitch-chunk_loop,
}
use context_brain_memory_lab.CanonicalBody.Read.{
  ContentItem, find_item, save_body, get_canonical_body, body_read,
}
use context_brain_memory_lab.CanonicalBody.RoundTrip.{
  submission, verified_response, get_canonical_body-save_body,
}
use context_brain_memory_lab.ChunkStore.{ChunkTable, persist_multi_chunks}
use context_brain_memory_lab.ChunkStore.Rows.{chunks_of, nonempty, chunks_of-persist_multi_chunks}

abbrev platform : Platform
platform = record { is_decimal = λ c. false; is_alnum = λ c. true; sha256_hex = λ s. s }

abbrev small_config : ChunkerConfig
small_config = record {
  target_chunk_chars = 4;
  max_chunk_chars = 5;
  min_chunk_chars = 2;
  overlap_chars = 1;
  max_chunks_per_item = 20;
}

small_config-IsValid : IsValid small_config
small_config-IsValid = record {
  min_pos = omega arith;
  min-le-target = omega arith;
  target-le-max = omega arith;
  overlap-lt-max = omega arith;
  room = omega arith;
}

abbrev note : Text
note = codes "ab cd. ef gh"

note-length : length note ≡ 12
unfolding codes
note-length = refl

choose_end_bounds_example :
    let e = (choose_end platform.is_decimal small_config note 0).0 in
    (0 < e) × (e ≤ length note) × (e ≤ 0 + 5) × ((e ≡ length note) ⊎ (0 + 2 ≤ e))
choose_end_bounds_example =
    choose_end_bounds platform.is_decimal small_config note 0 small_config-IsValid
      (omega (arith, note-length))

chunk_loop_ends_example : (chunk_loop platform small_config (submission note) note 20 0 0).1 ≡ false
chunk_loop_ends_example =
    chunk_loop_ends platform small_config small_config-IsValid (submission note) note 20 0 0
      (omega (arith, note-length))

chunk_loop-Covers_example :
    Covers small_config note 0 0 0
      (chunk_loop platform small_config (submission note) note 20 0 0).0
chunk_loop-Covers_example =
    chunk_loop-Covers platform small_config small_config-IsValid (submission note) note 20 0 0 0 0
      (omega arith) (omega arith) (omega (arith, note-length))
      (chunk_loop_ends platform small_config small_config-IsValid (submission note) note 20 0 0
        (omega (arith, note-length)))

stitch-chunk_loop_example :
    stitch 1 (map chunk_body (chunk_loop platform small_config (submission note) note 20 0 0).0)
    ≡ note
stitch-chunk_loop_example =
    stitch-chunk_loop platform small_config small_config-IsValid (submission note) note
      (omega arith) (inl (omega arith)) 20 (omega (arith, note-length))
      (chunk_loop_ends platform small_config small_config-IsValid (submission note) note 20 0 0
        (omega (arith, note-length)))

abbrev two_chunks : List PersistedChunk
two_chunks = record { index = 0; text = codes "ab" } ∷ record { index = 1; text = codes "cd" } ∷ []

reconstruct_canonical_body-IsSound_example :
    IsSound
      (λ s. s)
      (some (codes "abcd"))
      (reconstruct_canonical_body (λ s. s) 80 1000 two_chunks (some (codes "abcd")))
reconstruct_canonical_body-IsSound_example =
    reconstruct_canonical_body-IsSound (λ s. s) 80 1000 two_chunks (some (codes "abcd"))

check_expected_version-blocks_example :
    (blocks (check_expected_version (some (codes "v1")) (some (codes "v2"))).status ≡ false) ↔ (
      (some (codes "v2") ≡ none)
      ⊎ ((e : Text) × (some (codes "v2") ≡ some e) × (some (codes "v1") ≡ some e)))
check_expected_version-blocks_example =
    check_expected_version-blocks (some (codes "v1")) (some (codes "v2"))

abbrev content : Text
content = b'a' ∷ b'b' ∷ []

abbrev item : ContentItem
item = record {
  content_id = "c1";
  workspace_id = some "w1";
  content_hash = some content;
  updated_at = none;
}

-- A table that holds an old chunk of the item.
abbrev old_table : ChunkTable
old_table = record {
  rows =
      record {
        chunk_id = 1;
        content_id = "c1";
        workspace_id = none;
        chunk_index = 7;
        chunk_text = b'z' ∷ [];
        word_count = 1;
        embedding = none;
      }
      ∷ [];
  next_id = 2;
}

content_quiet : NeverEchoes default_config content
unfolding text_eqb
content_quiet = inr (λ e far near. absurd (omega arith))

default_config-IsValid : IsValid default_config
default_config-IsValid = record {
  min_pos = omega arith;
  min-le-target = omega arith;
  target-le-max = omega arith;
  overlap-lt-max = omega arith;
  room = omega arith;
}

found_item : find_item "c1" (some "w1") (item ∷ []) ≡ some item
unfolding find_item
found_item = refl

get_canonical_body-save_body_example :
    get_canonical_body
      (λ s. s)
      (item ∷ [])
      (save_body platform none "c1" (some "w1") content old_table).1
      "c1"
      (some "w1")
      (some content)
    ≡ body_read (verified_response (λ s. s) item content)
get_canonical_body-save_body_example =
    get_canonical_body-save_body platform none (item ∷ []) old_table "c1" (some "w1") (some "w1")
      (some content) item content found_item refl (inr refl) (ground arith)
      (chunk_loop_ends platform default_config default_config-IsValid (submission content) content
        1000 0 0 (omega arith))
      content_quiet

chunks_of-persist_multi_chunks_example :
    let t' =
      (persist_multi_chunks none false "c1"
        (some "w1")
        ((0, b'a' ∷ []) ∷ (1, []) ∷ [])
        old_table).1 in
    (chunks_of "c1" t'.rows ≡ select nonempty ((0, b'a' ∷ []) ∷ (1, []) ∷ []))
    × ((d : String) → "c1" ≢ d → chunks_of d t'.rows ≡ chunks_of d old_table.rows)
chunks_of-persist_multi_chunks_example =
    chunks_of-persist_multi_chunks none false "c1" (some "w1") ((0, b'a' ∷ []) ∷ (1, []) ∷ [])
      old_table
