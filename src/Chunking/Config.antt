-- ===== src/Chunking/Config.antt =====
-- `ChunkerConfig` with its `validate`, and the result records of memory_lab/ingestion/interfaces.py.
-- The five settings are Python ints; a negative one is refused by `validate`, so they are numbers
-- here and the test `overlap_chars < 0` has no counterpart.
use context_brain_memory_lab.Prelude.{
  ℕ, String, List, Option, none, some, ◌≡◌, Bool, ◌≤◌, ◌<◌, arith, ltb, leb, if◌then◌else◌,
}
use context_brain_memory_lab.Prelude.Text.{Text}

pub record ChunkerConfig : Type 0 where
  pub target_chunk_chars : ℕ
  pub max_chunk_chars : ℕ
  pub min_chunk_chars : ℕ
  pub overlap_chars : ℕ
  pub max_chunks_per_item : ℕ

abbrev pub default_config : ChunkerConfig
default_config = record {
  target_chunk_chars = 640;
  max_chunk_chars = 900;
  min_chunk_chars = 80;
  overlap_chars = 80;
  max_chunks_per_item = 1000;
}

-- The message of the `ValueError` that `validate` raises, or `none`.
unfoldable pub validate : ChunkerConfig → Option String
validate c =
    if ltb c.min_chunk_chars 1
    then some "min_chunk_chars must be positive"
    else if ltb c.target_chunk_chars c.min_chunk_chars
    then some "target_chunk_chars must be >= min_chunk_chars"
    else if ltb c.max_chunk_chars c.target_chunk_chars
    then some "max_chunk_chars must be >= target_chunk_chars"
    else if leb c.max_chunk_chars c.overlap_chars
    then some "overlap_chars must be smaller than max_chunk_chars"
    else if ltb c.max_chunks_per_item 1
    then some "max_chunks_per_item must be positive"
    else none

pub record IsValid (c : ChunkerConfig) : Type 0 where
  pub min_pos : 1 ≤ c.min_chunk_chars
  pub min-le-target : c.min_chunk_chars ≤ c.target_chunk_chars
  pub target-le-max : c.target_chunk_chars ≤ c.max_chunk_chars
  pub overlap-lt-max : c.overlap_chars < c.max_chunk_chars
  pub room : 1 ≤ c.max_chunks_per_item

pub validate-IsValid : (c : ChunkerConfig) → validate c ≡ none → IsValid c
unfolding validate
validate-IsValid c h = ground arith

-- `IngestionTextInput`; of the metadata only `source_case_id` is read.
pub record IngestionTextInput : Type 0 where
  pub text : Text
  pub item_id : Text
  pub source_case_id : Text
  pub data_source : String

pub record ContentChunk : Type 0 where
  pub chunk_id : Text
  pub text : Text
  pub order : ℕ
  pub index : ℕ
  pub char_start : ℕ
  pub char_end : ℕ
  pub char_count : ℕ
  pub source_id : Text
  pub source_case_id : Text
  pub quality_flags : List String
  pub boundary_reason : String
  pub mode : String
  pub data_source : String
  pub degraded : Bool
  pub limitations : List String

-- `confidence` is 1.0 or 0.0: `full_confidence` tells which.
pub record ContentChunkingResult : Type 0 where
  pub chunks : List ContentChunk
  pub full_confidence : Bool
  pub rationale : String
  pub mode : String
  pub data_source : String
  pub degraded : Bool
  pub limitations : List String

-- What the chunker takes from Python's libraries: two character classes of Unicode, and
-- `hashlib.sha256(s.encode("utf-8")).hexdigest()`.
pub record Platform : Type 0 where
  pub is_decimal : ℕ → Bool
  pub is_alnum : ℕ → Bool
  pub sha256_hex : Text → Text
