-- ===== src/CanonicalBody.antt =====
-- memory_lab/content/canonical_body.py: a body rebuilt from its persisted chunks, and the check of
-- the expected version.
pub mod Soundness
pub mod Stitching
pub mod Read
pub mod Ranges
pub mod RoundTrip
use context_brain_memory_lab.Prelude.{
  ℕ, zero, suc, ◌+◌, ◌-◌, ◌≡◌, refl, String, Bool, true, false, ◌&&◌, ◌||◌, not, Option, none, some,
  List, [], ◌∷◌, ◌++◌, map, ltb, leb, nat_eqb, if◌then◌else◌, length, is_empty, take, drop, any,
}
use context_brain_memory_lab.Prelude.Text.{Text, text_eqb}

pub record PersistedChunk : Type 0 where
  pub index : ℕ
  pub text : Text

pub data Fidelity : Type 0 where
  hash_verified unverifiable unavailable : Fidelity

pub record ReconstructionResult : Type 0 where
  pub candidate : Option Text
  pub fidelity : Fidelity
  pub reason : String
  pub computed_hash : Option Text

-- `sorted(chunks, key=lambda c: c.index)`: a stable insertion sort.
unfoldable pub insert_chunk : PersistedChunk → List PersistedChunk → List PersistedChunk
insert_chunk c [] = c ∷ []
insert_chunk c (d ∷ ds) = if leb c.index d.index then c ∷ d ∷ ds else d ∷ insert_chunk c ds

unfoldable pub sort_chunks : List PersistedChunk → List PersistedChunk
sort_chunks [] = []
sort_chunks (c ∷ cs) = insert_chunk c (sort_chunks cs)

unfoldable pub has_duplicate : List ℕ → Bool
has_duplicate [] = false
has_duplicate (i ∷ is) = any (nat_eqb i) is || has_duplicate is

-- `indices == list(range(start, start + len(indices)))`
unfoldable pub is_range_from : ℕ → List ℕ → Bool
is_range_from start [] = true
is_range_from start (i ∷ is) = nat_eqb i start && is_range_from (start + 1) is

abbrev index_of : PersistedChunk → ℕ
index_of c = c.index

abbrev text_of : PersistedChunk → Text
text_of c = c.text

-- `_validate_index_set`. The sorted indices are the indices of the sorted chunks.
unfoldable pub validate_index_set : List PersistedChunk → Option String
validate_index_set chunks =
    if has_duplicate (map index_of chunks)
    then some "duplicate_chunk_index"
    else if not (is_range_from 0 (map index_of (sort_chunks chunks)))
    then some "chunk_index_gap"
    else none

-- One round of `_stitch`. `result[-overlap_chars:]` is what stands behind the first
-- `len(result) - overlap_chars` characters, as the lengths are tested before.
unfoldable pub stitch_step : ℕ → Text → Text → Text
stitch_step overlap_chars acc text =
    if ltb 0 overlap_chars
      && (leb overlap_chars (length acc)
          && (leb overlap_chars (length text)
              && text_eqb (drop (length acc - overlap_chars) acc) (take overlap_chars text)))
    then acc ++ drop overlap_chars text
    else acc ++ text

unfoldable pub stitch_from : ℕ → Text → List Text → Text
stitch_from overlap_chars acc [] = acc
stitch_from overlap_chars acc (text ∷ rest) =
    stitch_from overlap_chars (stitch_step overlap_chars acc text) rest

unfoldable pub stitch : ℕ → List Text → Text
stitch overlap_chars [] = []
stitch overlap_chars (text ∷ rest) = stitch_from overlap_chars text rest

abbrev unavailable_because : String → ReconstructionResult
unavailable_because reason = record {
  candidate = none;
  fidelity = unavailable;
  reason = reason;
  computed_hash = none;
}

module _ (sha256_hex : Text → Text) (overlap_chars max_chunks_guard : ℕ) where
  -- The candidate of a sound set of chunks, against the stored hash.
  unfoldable pub verify_candidate : List PersistedChunk → Text → ReconstructionResult
  verify_candidate chunks stored =
      let candidate = stitch overlap_chars (map text_of (sort_chunks chunks)) in
      let computed = sha256_hex candidate in
      if text_eqb computed stored
      then record {
        candidate = some candidate;
        fidelity = hash_verified;
        reason = "verified_reconstruction";
        computed_hash = some computed;
      }
      else record {
        candidate = none;
        fidelity = unverifiable;
        reason =
            if leb max_chunks_guard (length chunks)
            then "hash_mismatch_possible_max_chunk_truncation"
            else "hash_mismatch";
        computed_hash = some computed;
      }

  abbrev checked_candidate : Option String → List PersistedChunk → Text → ReconstructionResult
  checked_candidate (some reason) chunks stored = record {
    candidate = none;
    fidelity = unverifiable;
    reason = reason;
    computed_hash = none;
  }
  checked_candidate none chunks stored = verify_candidate chunks stored

  unfoldable pub reconstruct_canonical_body :
      List PersistedChunk → Option Text → ReconstructionResult
  reconstruct_canonical_body chunks none = unavailable_because "missing_stored_content_hash"
  reconstruct_canonical_body [] (some stored) =
      if text_eqb stored (sha256_hex [])
      then record {
        candidate = some [];
        fidelity = hash_verified;
        reason = "empty_body_hash_match";
        computed_hash = some (sha256_hex []);
      }
      else unavailable_because "no_persisted_chunks"
  reconstruct_canonical_body (c ∷ cs) (some stored) =
      checked_candidate (validate_index_set (c ∷ cs)) (c ∷ cs) stored

pub data VersionStatus : Type 0 where
  not_checked match mismatch version_unknown : VersionStatus

pub record VersionCheckResult : Type 0 where
  pub status : VersionStatus
  pub expected_version : Option Text
  pub current_version : Option Text

-- The property `blocks`.
unfoldable pub blocks : VersionStatus → Bool
blocks mismatch = true
blocks version_unknown = true
blocks _ = false

unfoldable pub check_expected_version : Option Text → Option Text → VersionCheckResult
check_expected_version stored none = record {
  status = not_checked;
  expected_version = none;
  current_version = stored;
}
check_expected_version none (some expected) = record {
  status = version_unknown;
  expected_version = some expected;
  current_version = none;
}
check_expected_version (some stored) (some expected) =
    if text_eqb expected stored
    then record { status = match; expected_version = some expected; current_version = some stored }
    else record {
      status = mismatch;
      expected_version = some expected;
      current_version = some stored;
    }

pub record ReconstructionDiagnostics : Type 0 where
  pub fidelity : Fidelity
  pub reason : String
  pub candidate : Option Text
  pub computed_hash : Option Text
  pub possible_line_ending_normalization : Bool

-- `s.replace("\n", new)`
unfoldable pub replace_newlines : Text → Text → Text
replace_newlines new [] = []
replace_newlines new (c ∷ s) = (if nat_eqb c b'\n' then new else c ∷ []) ++ replace_newlines new s

module _ (sha256_hex : Text → Text) (overlap_chars max_chunks_guard : ℕ) where
  -- The probe's view of a sound set of chunks whose hash did not match.
  unfoldable pub diagnose_candidate :
      List PersistedChunk → Text → ReconstructionResult → ReconstructionDiagnostics
  diagnose_candidate chunks stored result =
      let candidate = stitch overlap_chars (map text_of (sort_chunks chunks)) in
      let crlf = replace_newlines (b'\r' ∷ b'\n' ∷ []) candidate in
      let cr = replace_newlines (b'\r' ∷ []) candidate in
      record {
        fidelity = result.fidelity;
        reason = result.reason;
        candidate = some candidate;
        computed_hash = some (sha256_hex candidate);
        possible_line_ending_normalization =
            text_eqb (sha256_hex crlf) stored || text_eqb (sha256_hex cr) stored;
      }

  abbrev diagnosed :
      Fidelity
      → Option String
      → List PersistedChunk
      → Option Text
      → ReconstructionResult
      → ReconstructionDiagnostics
  diagnosed hash_verified invalid chunks stored result = record {
    fidelity = result.fidelity;
    reason = result.reason;
    candidate = result.candidate;
    computed_hash = result.computed_hash;
    possible_line_ending_normalization = false;
  }
  diagnosed _ none (c ∷ cs) (some stored) result = diagnose_candidate (c ∷ cs) stored result
  diagnosed _ _ chunks stored result = record {
    fidelity = result.fidelity;
    reason = result.reason;
    candidate = none;
    computed_hash = none;
    possible_line_ending_normalization = false;
  }

  unfoldable pub diagnose_reconstruction :
      List PersistedChunk → Option Text → ReconstructionDiagnostics
  diagnose_reconstruction chunks stored =
      let result =
        reconstruct_canonical_body sha256_hex overlap_chars max_chunks_guard chunks stored in
      diagnosed result.fidelity (validate_index_set chunks) chunks stored result
