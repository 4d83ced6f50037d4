-- ===== src/ChunkStore.antt =====
-- memory_lab/persistence/body_chunks.py over the table `content_chunks`. A row has the columns that
-- the code reads or writes; `chunk_id` is the key that the database draws.
pub mod Rows
use context_brain_memory_lab.Prelude.{
  ℕ, zero, suc, ◌+◌, ◌≡◌, refl, String, Bool, true, false, ◌&&◌, ◌||◌, not, Option, none, some,
  List, [], ◌∷◌, ◌++◌, map, nat_eqb, if◌then◌else◌, length, is_empty, select,
}
use text.Mathlib.Text.{◌==◌ as str_eqb}
use context_brain_memory_lab.Prelude.Text.{Text, codes, is_space}
use context_brain_memory_lab.Chunking.Identity.{decimal}

-- What an `EmbeddingBackend` answers; `vector` stands for the literal that is stored.
pub record EmbeddingResponse : Type 0 where
  pub is_ok : Bool
  pub dimensions : ℕ
  pub failure_reason : Option String
  pub vector : Text

-- `embed_text` is `none` where the backend raises.
pub record EmbeddingBackend : Type 0 where
  pub is_configured : Bool
  pub provider_name : String
  pub model_label : String
  pub embed_text : Text → Option EmbeddingResponse

pub record StoredEmbedding : Type 0 where
  pub vector : Text
  pub provider : String
  pub model : String
  pub dimensions : ℕ

pub record ChunkRow : Type 0 where
  pub chunk_id : ℕ
  pub content_id : String
  pub workspace_id : Option String
  pub chunk_index : ℕ
  pub chunk_text : Text
  pub word_count : ℕ
  pub embedding : Option StoredEmbedding

pub record ChunkTable : Type 0 where
  pub rows : List ChunkRow
  pub next_id : ℕ

-- `len(text.split())`; `inside` tells whether the character before belongs to a word.
unfoldable pub count_words : Bool → Text → ℕ
unfolding is_space
count_words inside [] = 0
count_words inside (c ∷ s) =
    let rest = count_words (not (is_space c)) s in if is_space c || inside then rest else suc rest

-- The outcome of `_maybe_store_chunk_embedding`: a warning, or the embedding to store.
pub data EmbedOutcome : Type 0 where
  warned : String → EmbedOutcome
  stored : StoredEmbedding → EmbedOutcome

unfoldable pub embed_response : EmbeddingBackend → Option EmbeddingResponse → EmbedOutcome
embed_response backend none = warned "embedding_exception"
embed_response backend (some r) =
    if not r.is_ok || not (nat_eqb r.dimensions 1536)
    then elim r.failure_reason [ some reason ↦ warned reason | none ↦ warned "embedding_degraded" ]
    else stored (record {
      vector = r.vector;
      provider = backend.provider_name;
      model = backend.model_label;
      dimensions = r.dimensions;
    })

unfoldable pub embed_chunk : Bool → Option EmbeddingBackend → Text → EmbedOutcome
embed_chunk vector_enabled none text = warned "provider_disabled"
embed_chunk vector_enabled (some backend) text =
    if not vector_enabled || not backend.is_configured
    then warned "provider_disabled"
    else embed_response backend (backend.embed_text text)

abbrev set_embedding : ℕ → StoredEmbedding → ChunkRow → ChunkRow
set_embedding chunk_id e r = record r {
  embedding = if nat_eqb r.chunk_id chunk_id then some e else r.embedding;
}

-- The UPDATE by `chunk_id`.
unfoldable pub store_embedding : ℕ → EmbedOutcome → ChunkTable → ChunkTable
store_embedding chunk_id (warned w) t = t
store_embedding chunk_id (stored e) t = record t { rows = map (set_embedding chunk_id e) t.rows }

-- The INSERT of one chunk.
unfoldable pub insert_row : String → Option String → ℕ → Text → ChunkTable → ChunkTable
insert_row content_id workspace_id index text t = record {
  rows =
      t.rows
      ++ record {
        chunk_id = t.next_id;
        content_id = content_id;
        workspace_id = workspace_id;
        chunk_index = index;
        chunk_text = text;
        word_count = count_words false text;
        embedding = none;
      }
        ∷ [];
  next_id = t.next_id + 1;
}

pub record MultiChunkWriteResult : Type 0 where
  pub chunks_written : ℕ
  pub embeddings_attempted : ℕ
  pub embeddings_stored : ℕ
  pub warnings : List Text

abbrev is_some : Option EmbeddingBackend → Bool
is_some none = false
is_some (some _) = true

-- What one chunk's embedding adds to the counters and the warnings.
unfoldable pub count_embedding : ℕ → EmbedOutcome → MultiChunkWriteResult → MultiChunkWriteResult
count_embedding index (stored e) r = record r {
  embeddings_attempted = r.embeddings_attempted + 1;
  embeddings_stored = r.embeddings_stored + 1;
}
count_embedding index (warned w) r = record r {
  embeddings_attempted = r.embeddings_attempted + 1;
  warnings =
      if str_eqb w "provider_disabled"
      then r.warnings
      else r.warnings ++ (codes "chunk[" ++ (decimal index ++ (codes "]: " ++ codes w))) ∷ [];
}

module _ (backend : Option EmbeddingBackend) (vector_enabled : Bool) where
  -- One round of the `for` loop, on a text that is not empty.
  unfoldable pub write_chunk :
      String
      → Option String
      → ℕ
      → Text
      → MultiChunkWriteResult × ChunkTable
      → MultiChunkWriteResult × ChunkTable
  write_chunk content_id workspace_id index text (r, t) =
      let outcome = embed_chunk vector_enabled backend text in
      let inserted = insert_row content_id workspace_id index text t in
      let counted = record r { chunks_written = r.chunks_written + 1 } in
      if vector_enabled && is_some backend
      then (count_embedding index outcome counted, store_embedding t.next_id outcome inserted)
      else (counted, inserted)

  unfoldable pub write_chunks :
      String
      → Option String
      → List (ℕ × Text)
      → MultiChunkWriteResult × ChunkTable
      → MultiChunkWriteResult × ChunkTable
  write_chunks content_id workspace_id [] state = state
  write_chunks content_id workspace_id ((index, text) ∷ rest) state =
      write_chunks content_id workspace_id rest
        (if is_empty text then state else write_chunk content_id workspace_id index text state)

  -- The DELETE, then the loop.
  unfoldable pub persist_multi_chunks :
      String → Option String → List (ℕ × Text) → ChunkTable → MultiChunkWriteResult × ChunkTable
  persist_multi_chunks content_id workspace_id chunks t =
      write_chunks content_id workspace_id chunks (
        record {
          chunks_written = 0;
          embeddings_attempted = 0;
          embeddings_stored = 0;
          warnings = [];
        },
        record t { rows = select (λ r. not (str_eqb r.content_id content_id)) t.rows },
      )

pub record ChunkWriteResult : Type 0 where
  pub chunk_written : Bool
  pub chunk_id : Option ℕ
  pub word_count : ℕ
  pub uses_embeddings : Bool
  pub uses_vector_db : Bool
  pub warnings : List String

abbrev nothing_written : ChunkWriteResult
nothing_written = record {
  chunk_written = false;
  chunk_id = none;
  word_count = 0;
  uses_embeddings = false;
  uses_vector_db = false;
  warnings = [];
}

abbrev uses_embeddings_of : Bool → EmbedOutcome → Bool
uses_embeddings_of vector_enabled (stored e) = vector_enabled
uses_embeddings_of vector_enabled (warned w) = false

abbrev warnings_of : EmbedOutcome → List String
warnings_of (stored e) = []
warnings_of (warned w) = if str_eqb w "provider_disabled" then [] else w ∷ []

-- `persist_body_chunks`: replaces the chunk of index 0.
unfoldable pub persist_body_chunks :
    Option EmbeddingBackend
    → Bool
    → String
    → Option String
    → Text
    → ChunkTable
    → ChunkWriteResult × ChunkTable
persist_body_chunks backend vector_enabled content_id workspace_id text t =
    let kept =
      select (λ r. not (str_eqb r.content_id content_id && nat_eqb r.chunk_index 0)) t.rows in
    let outcome = embed_chunk vector_enabled backend text in
    let uses = uses_embeddings_of vector_enabled outcome in
    let inserted = insert_row content_id workspace_id 0 text (record t { rows = kept }) in
    if is_empty text then (nothing_written, record t { rows = kept }) else (
      record {
        chunk_written = true;
        chunk_id = some t.next_id;
        word_count = count_words false text;
        uses_embeddings = uses;
        uses_vector_db = uses;
        warnings = warnings_of outcome;
      },
      store_embedding t.next_id outcome inserted,
    )
