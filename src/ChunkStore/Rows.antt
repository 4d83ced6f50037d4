-- ===== src/ChunkStore/Rows.antt =====
-- The chunks of one content item in the table, and what the writes do to them.
use context_brain_memory_lab.Prelude.{
  ℕ, ◌≡◌, refl, sym, ◌∙◌, ap, ◌≢◌, String, Bool, true, false, not, Option, List, [], ◌∷◌, ◌++◌, map,
  if◌then◌else◌, is_empty, select, arith, append_assoc, append-nil,
}
use text.Mathlib.Text.{◌==◌ as str_eqb}
use text.Mathlib.TextEquality.{eq_iff}
use text.Mathlib.TextPositions.{eq_refl}
use context_brain_memory_lab.Prelude.Text.{Text}
use context_brain_memory_lab.ChunkStore.{
  ChunkRow, ChunkTable, EmbeddingBackend, EmbedOutcome, warned, stored, set_embedding,
  StoredEmbedding, store_embedding, insert_row, embed_chunk, write_chunk, write_chunks,
  persist_multi_chunks, MultiChunkWriteResult,
}

-- The index and text of the rows of a content item, in the order of the table.
unfoldable pub chunks_of : String → List ChunkRow → List (ℕ × Text)
chunks_of content_id [] = []
chunks_of content_id (r ∷ rs) =
    if str_eqb r.content_id content_id
    then (r.chunk_index, r.chunk_text) ∷ chunks_of content_id rs
    else chunks_of content_id rs

chunks_of-append :
    (d : String) (rs qs : List ChunkRow) → chunks_of d (rs ++ qs) ≡ chunks_of d rs ++ chunks_of d qs
unfolding chunks_of
chunks_of-append d [] qs = refl
chunks_of-append d (r ∷ rs) qs = ground (arith, chunks_of-append d rs qs)

chunks_of-set_embedding :
    (d : String) (k : ℕ) (e : StoredEmbedding) (rs : List ChunkRow)
    → chunks_of d (map (set_embedding k e) rs) ≡ chunks_of d rs
unfolding chunks_of
chunks_of-set_embedding d k e [] = refl
chunks_of-set_embedding d k e (r ∷ rs) = ground (arith, chunks_of-set_embedding d k e rs)

chunks_of-store_embedding :
    (d : String) (k : ℕ) (o : EmbedOutcome) (t : ChunkTable)
    → chunks_of d (store_embedding k o t).rows ≡ chunks_of d t.rows
unfolding store_embedding
chunks_of-store_embedding d k (warned w) t = refl
chunks_of-store_embedding d k (stored e) t = chunks_of-set_embedding d k e t.rows

-- The rows of the item are gone, the others stay.
chunks_of-delete_self :
    (c : String) (rs : List ChunkRow)
    → chunks_of c (select (λ r. not (str_eqb r.content_id c)) rs) ≡ []
unfolding chunks_of
chunks_of-delete_self c [] = refl
chunks_of-delete_self c (r ∷ rs) = ground (arith, chunks_of-delete_self c rs)

chunks_of-delete_ne :
    (c d : String) (rs : List ChunkRow)
    → c ≢ d
    → chunks_of d (select (λ r. not (str_eqb r.content_id c)) rs) ≡ chunks_of d rs
unfolding chunks_of
chunks_of-delete_ne c d [] h = refl
chunks_of-delete_ne c d (r ∷ rs) h =
    ground (arith, chunks_of-delete_ne c d rs h, eq_iff r.content_id c, eq_iff r.content_id d)

eqb_of_ne : (c d : String) → c ≢ d → str_eqb c d ≡ false
eqb_of_ne c d ne = ground (arith, eq_iff c d)

append_if :
    (b : Bool) (l : List (ℕ × Text)) (x : ℕ × Text) (ys : List (ℕ × Text))
    → (l ++ (if b then x ∷ [] else [])) ++ (if b then ys else []) ≡ l ++ (if b then x ∷ ys else [])
append_if true l x ys = append_assoc l (x ∷ []) ys
append_if false l x ys = append-nil (l ++ []) ∙ refl

append_if-nil : (b : Bool) (l : List (ℕ × Text)) → l ≡ l ++ (if b then [] else [])
append_if-nil true l = sym (append-nil l)
append_if-nil false l = sym (append-nil l)

abbrev pub nonempty : ℕ × Text → Bool
nonempty (i, t) = not (is_empty t)

module _ (backend : Option EmbeddingBackend) (vector_enabled : Bool) (c : String)
    (workspace_id : Option String) where
  chunks_of-insert_row :
      (d : String) (i : ℕ) (x : Text) (t : ChunkTable)
      → chunks_of d (insert_row c workspace_id i x t).rows
        ≡ chunks_of d t.rows ++ (if str_eqb c d then (i, x) ∷ [] else [])
  unfolding insert_row
  chunks_of-insert_row d i x t = chunks_of-append d t.rows _ ∙ (unfold chunks_of in refl)

  chunks_of-write_chunk :
      (d : String) (i : ℕ) (x : Text) (state : MultiChunkWriteResult × ChunkTable)
      → chunks_of d (write_chunk backend vector_enabled c workspace_id i x state).1.rows
        ≡ chunks_of d state.1.rows ++ (if str_eqb c d then (i, x) ∷ [] else [])
  unfolding write_chunk
  chunks_of-write_chunk d i x (r, t) = ground (
    arith,
    chunks_of-insert_row d i x t,
    chunks_of-store_embedding d t.next_id (embed_chunk vector_enabled backend x)
        (insert_row c workspace_id i x t),
  )

  chunks_of-write_chunks :
      (d : String) (chunks : List (ℕ × Text)) (state : MultiChunkWriteResult × ChunkTable)
      → chunks_of d (write_chunks backend vector_enabled c workspace_id chunks state).1.rows
        ≡ chunks_of d state.1.rows ++ (if str_eqb c d then select nonempty chunks else [])
  unfolding write_chunks
  chunks_of-write_chunks d [] state = append_if-nil (str_eqb c d) (chunks_of d state.1.rows)
  chunks_of-write_chunks d ((i, []) ∷ rest) state = chunks_of-write_chunks d rest state
  chunks_of-write_chunks d ((i, x ∷ xs) ∷ rest) state =
      chunks_of-write_chunks d rest
        (write_chunk backend vector_enabled c workspace_id i (x ∷ xs) state)
      ∙ (ap (λ l. l ++ (if str_eqb c d then select nonempty rest else []))
            (chunks_of-write_chunk d i (x ∷ xs) state)
          ∙ append_if (str_eqb c d) (chunks_of d state.1.rows) (i, x ∷ xs) (select nonempty rest))

  -- After `persist_multi_chunks` the item has exactly the given chunks that are not empty, in their
  -- order, whatever the embedding provider answers; every other item keeps its chunks.
  pub chunks_of-persist_multi_chunks :
      (chunks : List (ℕ × Text)) (t : ChunkTable)
      → let t' = (persist_multi_chunks backend vector_enabled c workspace_id chunks t).1 in
        (chunks_of c t'.rows ≡ select nonempty chunks)
        × ((d : String) → c ≢ d → chunks_of d t'.rows ≡ chunks_of d t.rows)
  unfolding persist_multi_chunks
  chunks_of-persist_multi_chunks chunks t = (
    chunks_of-write_chunks c chunks _ ∙ (rw (eq_refl c, chunks_of-delete_self c t.rows) refl),
    λ d ne.
        chunks_of-write_chunks d chunks _
        ∙ (rw (eqb_of_ne c d ne, append-nil) (chunks_of-delete_ne c d t.rows ne)),
  )
