-- ===== src/CanonicalBody/Soundness.antt =====
-- What a reconstruction may claim: a body is shown exactly when its hash is the stored one.
use context_brain_memory_lab.Prelude.{
  ℕ, ◌≡◌, ◌↔◌, String, refl, false, Option, none, some, List, [], ◌∷◌, arith, ◌≢◌, ◌⊎◌, inl, inr,
  map, Bool-cases, Option-cases,
}
use context_brain_memory_lab.Prelude.Text.{Text, text_eqb, text_eqb→eq, text_eqb_refl}
use context_brain_memory_lab.CanonicalBody.{
  PersistedChunk, Fidelity, hash_verified, unverifiable, ReconstructionResult, validate_index_set,
  verify_candidate, reconstruct_canonical_body, stitch, sort_chunks, text_of, blocks,
  check_expected_version,
}

module _ (sha256_hex : Text → Text) where
  -- A shown body hashes to the stored value and is labelled verified; else no body is shown.
  pub record IsSound (stored : Option Text) (r : ReconstructionResult) : Type 0 where
    pub shown :
        (c : Text)
        → r.candidate ≡ some c
        → (r.fidelity ≡ hash_verified) × (stored ≡ some (sha256_hex c))
    pub labelled : r.fidelity ≡ hash_verified → r.candidate ≢ none
    pub hashed :
        (h : Text) → r.computed_hash ≡ some h → (r.fidelity ≡ hash_verified) ⊎ (stored ≢ some h)

  module _ (overlap_chars max_chunks_guard : ℕ) where
    verify_candidate-IsSound :
        (chunks : List PersistedChunk) (stored : Text)
        → IsSound
            (some stored)
            (verify_candidate sha256_hex overlap_chars max_chunks_guard chunks stored)
    unfolding verify_candidate
    verify_candidate-IsSound chunks stored =
        let c = stitch overlap_chars (map text_of (sort_chunks chunks)) in
        elim (Bool-cases (text_eqb (sha256_hex c) stored)) [
          | inl same ↦ rw same (record {
            shown = λ d e. ground (arith, text_eqb→eq (sha256_hex c) stored same);
            labelled = λ e. ground arith;
            hashed = λ h e. inl refl;
          })
          | inr other ↦ rw other (record {
            shown = λ d e. ground arith;
            labelled = λ e. ground arith;
            hashed = λ h e. inr (λ p. ground (arith, text_eqb_refl (sha256_hex c)));
          })
        ]

    unshown-IsSound :
        (stored : Option Text) (fidelity : Fidelity) (reason : String)
        → fidelity ≢ hash_verified
        → IsSound stored (record {
          candidate = none;
          fidelity = fidelity;
          reason = reason;
          computed_hash = none;
        })
    unshown-IsSound stored fidelity reason ne = record {
      shown = λ d e. cc;
      labelled = λ e. absurd (ne e);
      hashed = λ h e. cc;
    }

    -- Whatever the chunks and the stored hash: a body that the reconstruction shows has the stored
    -- hash and the result says so; a result that says verified shows a body; a computed hash that
    -- is reported without verification differs from the stored one.
    pub reconstruct_canonical_body-IsSound :
        (chunks : List PersistedChunk) (stored : Option Text)
        → IsSound stored
            (reconstruct_canonical_body sha256_hex overlap_chars max_chunks_guard chunks stored)
    unfolding reconstruct_canonical_body
    reconstruct_canonical_body-IsSound chunks none = unshown-IsSound none _ _ (λ e. cc)
    reconstruct_canonical_body-IsSound [] (some stored) =
        elim (Bool-cases (text_eqb stored (sha256_hex []))) [
          | inl same ↦ rw same (record {
            shown = λ d e. ground (arith, text_eqb→eq stored (sha256_hex []) same);
            labelled = λ e. ground arith;
            hashed = λ h e. inl refl;
          })
          | inr other ↦ rw other (unshown-IsSound (some stored) _ _ (λ e. cc))
        ]
    reconstruct_canonical_body-IsSound (c ∷ cs) (some stored) =
        elim (Option-cases (validate_index_set (c ∷ cs))) [
          | inl sound ↦ rw sound (verify_candidate-IsSound (c ∷ cs) stored)
          | inr (reason, e) ↦ rw e (unshown-IsSound (some stored) unverifiable reason (λ e. cc))
        ]

-- An expected version lets a read go on exactly when none was given or it is the stored hash.
pub check_expected_version-blocks :
    (stored expected : Option Text)
    → (blocks (check_expected_version stored expected).status ≡ false)
      ↔ ((expected ≡ none) ⊎ ((e : Text) × (expected ≡ some e) × (stored ≡ some e)))
unfolding check_expected_version blocks
check_expected_version-blocks stored none = (λ h. inl refl, λ h. refl)
check_expected_version-blocks none (some e) = (λ h. cc, elim [ inl p ↦ cc | inr (d, p, q) ↦ cc ])
check_expected_version-blocks (some s) (some e) = elim (Bool-cases (text_eqb e s)) [
  | inl same ↦ rw same (λ h. inr (e, refl, ground (arith, text_eqb→eq e s same)), λ h. refl)
  | inr other ↦
      rw other (λ h. cc, elim [ inl p ↦ cc | inr (d, p, q) ↦ ground (arith, text_eqb_refl e) ])
]
