-- ===== src/CanonicalBody/Ranges.antt =====
-- Chunks whose indices are a range in order are put together as they stand.
use context_brain_memory_lab.Prelude.{
  ℕ, ◌+◌, ◌<◌, ◌≡◌, refl, true, false, none, some, List, [], ◌∷◌, map, arith, nat_eqb, any,
}
use context_brain_memory_lab.Prelude.Text.{Text, text_eqb_refl}
use context_brain_memory_lab.CanonicalBody.{
  PersistedChunk, hash_verified, insert_chunk, sort_chunks, has_duplicate, is_range_from,
  validate_index_set, index_of, text_of, stitch, verify_candidate, reconstruct_canonical_body,
}

pub sort_of_range :
    (k : ℕ) (cs : List PersistedChunk)
    → is_range_from k (map index_of cs) ≡ true
    → sort_chunks cs ≡ cs
unfolding is_range_from sort_chunks insert_chunk
sort_of_range k [] h = refl
sort_of_range k (c ∷ []) h = refl
sort_of_range k (c ∷ d ∷ cs) h =
    let ih = sort_of_range (k + 1) (d ∷ cs) (ground arith) in rw ih (ground arith)

fresh_below :
    (j k : ℕ) (is : List ℕ) → j < k → is_range_from k is ≡ true → any (nat_eqb j) is ≡ false
unfolding is_range_from
fresh_below j k [] h r = refl
fresh_below j k (i ∷ is) h r = ground (arith, fresh_below j (k + 1) is (omega arith))

no_duplicate_of_range : (k : ℕ) (is : List ℕ) → is_range_from k is ≡ true → has_duplicate is ≡ false
unfolding is_range_from has_duplicate
no_duplicate_of_range k [] h = refl
no_duplicate_of_range k (i ∷ is) h =
    ground (arith, no_duplicate_of_range (k + 1) is, fresh_below i (k + 1) is)

validate_of_range :
    (cs : List PersistedChunk)
    → is_range_from 0 (map index_of cs) ≡ true
    → validate_index_set cs ≡ none
unfolding validate_index_set
validate_of_range cs h =
    rw (no_duplicate_of_range 0 (map index_of cs) h, sort_of_range 0 cs h, h) refl

-- Chunks in order that stitch to a body are verified against its hash.
pub reconstruct_of_range :
    (sha256_hex : Text → Text) (overlap_chars guard : ℕ) (c : PersistedChunk)
    (cs : List PersistedChunk) (body : Text)
    → is_range_from 0 (map index_of (c ∷ cs)) ≡ true
    → stitch overlap_chars (map text_of (c ∷ cs)) ≡ body
    → reconstruct_canonical_body sha256_hex overlap_chars guard (c ∷ cs) (some (sha256_hex body))
      ≡ record {
        candidate = some body;
        fidelity = hash_verified;
        reason = "verified_reconstruction";
        computed_hash = some (sha256_hex body);
      }
unfolding reconstruct_canonical_body verify_candidate
reconstruct_of_range sha256_hex overlap_chars guard c cs body h s =
    rw (validate_of_range (c ∷ cs) h)
      (rw (sort_of_range 0 (c ∷ cs) h) (rw s (rw (text_eqb_refl (sha256_hex body)))))
