-- ===== src/CanonicalBody/Read.antt =====
-- The two ends of a body's life in memory_lab/api/services/api_adapter.py: the chunks that
-- `create_content_minimal` persists, and `get_canonical_body`. A row of `content_items` has the
-- columns that the read selects.
use context_brain_memory_lab.Prelude.{
  ℕ, String, Bool, true, false, ◌&&◌, Option, none, some, List, [], ◌∷◌, map, if◌then◌else◌,
  is_empty,
}
use text.Mathlib.Text.{◌==◌ as str_eqb}
use context_brain_memory_lab.Prelude.Text.{Text, codes}
use context_brain_memory_lab.Prelude.Str.{truthy}
use context_brain_memory_lab.Chunking.Config.{
  ContentChunk, ContentChunkingResult, Platform, default_config,
}
use context_brain_memory_lab.Chunking.Loop.{chunk_text}
use context_brain_memory_lab.ChunkStore.{
  ChunkTable, EmbeddingBackend, MultiChunkWriteResult, persist_multi_chunks,
}
use context_brain_memory_lab.ChunkStore.Rows.{chunks_of}
use context_brain_memory_lab.CanonicalBody.{
  PersistedChunk, Fidelity, hash_verified, ReconstructionResult, sort_chunks,
  reconstruct_canonical_body, VersionCheckResult, check_expected_version, blocks,
}

abbrev pub indexed : ContentChunk → ℕ × Text
indexed c = (c.index, c.text)

-- The chunks of the chunker, or the whole content as chunk 0 if there are none.
unfoldable pub submitted_chunks : ContentChunkingResult → Text → List (ℕ × Text)
submitted_chunks chunking content =
    if is_empty chunking.chunks then (0, content) ∷ [] else map indexed chunking.chunks

abbrev pub is_ready : Option EmbeddingBackend → Bool
is_ready none = false
is_ready (some backend) = backend.is_configured

-- The write of the body, with the chunker's default settings and arguments.
unfoldable pub save_body :
    Platform
    → Option EmbeddingBackend
    → String
    → Option String
    → Text
    → ChunkTable
    → MultiChunkWriteResult × ChunkTable
save_body platform backend content_id workspace_id content t =
    let chunking =
      chunk_text platform default_config content (codes "syn-b17-input") []
        "synthetic_or_caller_supplied_text" in
    persist_multi_chunks backend (is_ready backend) content_id workspace_id
      (submitted_chunks chunking content) t

pub record ContentItem : Type 0 where
  pub content_id : String
  pub workspace_id : Option String
  pub content_hash : Option Text
  pub updated_at : Option String

abbrev in_workspace : Option String → Option String → Bool
in_workspace (some asked) none = if truthy asked then false else true
in_workspace (some asked) (some owner) = if truthy asked then str_eqb owner asked else true
in_workspace none owner = true

-- The SELECT on `content_items`; an absent or empty workspace sets no condition.
unfoldable pub find_item : String → Option String → List ContentItem → Option ContentItem
find_item content_id workspace_id [] = none
find_item content_id workspace_id (item ∷ items) =
    if str_eqb item.content_id content_id && in_workspace workspace_id item.workspace_id
    then some item
    else find_item content_id workspace_id items

pub record BodyResponse : Type 0 where
  pub content_id : String
  pub workspace_id : Option String
  pub updated_at : Option String
  pub body : Option Text
  pub body_sha256 : Option Text
  pub fidelity : Fidelity

-- `None`, the `version_conflict` envelope, or the body response.
pub data BodyRead : Type 0 where
  missing : BodyRead
  version_conflict : VersionCheckResult → BodyRead
  body_read : BodyResponse → BodyRead

abbrev pub persisted : ℕ × Text → PersistedChunk
persisted (i, t) = record { index = i; text = t }

abbrev if_verified : Fidelity → Option Text → Option Text
if_verified hash_verified x = x
if_verified _ x = none

unfoldable pub respond : ContentItem → ReconstructionResult → BodyResponse
respond item result = record {
  content_id = item.content_id;
  workspace_id = item.workspace_id;
  updated_at = item.updated_at;
  body = if_verified result.fidelity result.candidate;
  body_sha256 = if_verified result.fidelity result.computed_hash;
  fidelity = result.fidelity;
}

-- What follows when the item is found: the version check, then the reconstruction from its chunks
-- with the default overlap and guard.
unfoldable pub read_found :
    (Text → Text) → ContentItem → Option Text → List PersistedChunk → Option Text → BodyRead
read_found sha256_hex item stored chunks expected_version =
    let version = check_expected_version stored expected_version in
    let result = reconstruct_canonical_body sha256_hex 80 1000 chunks stored in
    if blocks version.status then version_conflict version else body_read (respond item result)

unfoldable pub get_canonical_body :
    (Text → Text) → List ContentItem → ChunkTable → String → Option String → Option Text → BodyRead
get_canonical_body sha256_hex items t content_id workspace_id expected_version =
    let chunks = sort_chunks (map persisted (chunks_of content_id t.rows)) in
    elim (find_item content_id workspace_id items) [
      | none ↦ missing
      | some item ↦ read_found sha256_hex item item.content_hash chunks expected_version
    ]
