-- ===== src/Governance/State/Validity.antt =====
-- When a governance state is valid, and that invalid means at least one error.
use context_brain_memory_lab.Prelude.{
  String, ◌≡◌, refl, sym, ◌↔◌, Bool, true, false, not, some, List, [], ◌∷◌, ◌++◌, is_empty, ◌&&◌,
  ap, ◌∙◌, All, All-append, if◌then◌else◌, arith, Bool-cases, inl, inr,
}
use context_brain_memory_lab.Prelude.Str.{strip, truthy, ◌+++◌, truthy-strip}
use context_brain_memory_lab.Prelude.Names.{contains, All-contains}
use context_brain_memory_lab.Prelude.Text.{is_space}
use context_brain_memory_lab.Governance.State.{
  ValidationResult, RecordRef, Provenance, GovernanceState, has_text, governance_statuses,
  governance_tiers, clean_tuple, validation_pass, validation_fail, validate_status, validate_tier,
  ref_errors, validate_record_ref, provenance_errors, validate_provenance, merge_results,
  validate_governance_state, required, all_errors,
}

-- A result is valid exactly when it has no errors.
abbrev pub IsCoherent : ValidationResult → Type 0
IsCoherent r = is_empty r.errors ≡ r.valid

pub fail-IsCoherent :
    (message : String) (rules : List String)
    → has_text message ≡ true
    → IsCoherent (validation_fail (message ∷ []) rules [])
unfolding validation_fail clean_tuple
fail-IsCoherent message rules h = ground arith

pub pass-IsCoherent : (rules : List String) → IsCoherent (validation_pass rules)
unfolding validation_pass
pass-IsCoherent rules = refl

two_failures-IsCoherent :
    (blank unknown : Bool) (m n : String) (q r u : List String)
    → has_text m ≡ true
    → has_text n ≡ true
    → IsCoherent (
        if blank
        then validation_fail (m ∷ []) q []
        else if unknown
        then validation_fail (n ∷ []) r []
        else validation_pass u)
two_failures-IsCoherent true unknown m n q r u hm hn = fail-IsCoherent m q hm
two_failures-IsCoherent false true m n q r u hm hn = fail-IsCoherent n r hn
two_failures-IsCoherent false false m n q r u hm hn = pass-IsCoherent u

validate_status-IsCoherent : (s : String) → IsCoherent (validate_status (some s))
unfolding validate_status strip is_space
validate_status-IsCoherent s =
    two_failures-IsCoherent (not (has_text s)) (not (contains (strip s) governance_statuses)) _ _ _
      _ _ refl (truthy-strip "i" ("nvalid governance status: " +++ strip s) refl)

validate_tier-IsCoherent : (s : String) → IsCoherent (validate_tier (some s))
unfolding validate_tier strip is_space
validate_tier-IsCoherent s =
    two_failures-IsCoherent (not (has_text s)) (not (contains (strip s) governance_tiers)) _ _ _ _ _
      refl (truthy-strip "i" ("nvalid governance tier: " +++ strip s) refl)

abbrev pub IsText : String → Type 0
IsText m = has_text m ≡ true

clean_tuple_id : (ms : List String) → All IsText ms → clean_tuple ms ≡ ms
unfolding clean_tuple
clean_tuple_id [] h = refl
clean_tuple_id (m ∷ ms) h = ground (arith, clean_tuple_id ms h.1)

required-All : (v m : String) → IsText m → All IsText (required v m)
required-All v m h = elim (Bool-cases (has_text v)) [
  | inl there ↦ rw there tt
  | inr blank ↦ rw blank (h, tt)
]

-- A list of checked errors, reported when it is not empty.
pub reported-IsCoherent :
    (errors rules : List String)
    → All IsText errors
    → IsCoherent
        (if is_empty errors then validation_pass rules else validation_fail errors rules [])
unfolding validation_pass validation_fail
reported-IsCoherent [] rules h = refl
reported-IsCoherent (m ∷ ms) rules h = ap is_empty (clean_tuple_id (m ∷ ms) h)

pub validate_record_ref-IsCoherent : (r : RecordRef) → IsCoherent (validate_record_ref r)
unfolding validate_record_ref ref_errors strip is_space
validate_record_ref-IsCoherent r = reported-IsCoherent (ref_errors r) _ (
    All-append IsText (required r.record_id _) _ (required-All r.record_id _ refl) (
      All-append IsText (required r.record_type _) _ (required-All r.record_type _ refl)
        (required-All r.workspace_id _ refl)))

validate_provenance-IsCoherent : (p : Provenance) → IsCoherent (validate_provenance p)
unfolding validate_provenance provenance_errors strip is_space
validate_provenance-IsCoherent p = reported-IsCoherent (provenance_errors p) _ (
    All-append IsText (required p.source_type _) _ (required-All p.source_type _ refl) (
      All-append IsText (required p.source_id _) _ (required-All p.source_id _ refl) (
        All-append IsText (required p.source_label _) _ (required-All p.source_label _ refl) (
          All-append IsText (required p.created_by _) _ (required-All p.created_by _ refl) (
            All-append IsText (required p.trace_id _) _ (required-All p.trace_id _ refl)
              (required-All p.created_at _ refl))))))

pub is_empty-append : (xs ys : List String) → is_empty (xs ++ ys) ≡ is_empty xs && is_empty ys
is_empty-append [] ys = refl
is_empty-append (x ∷ xs) ys = refl

-- A merge is valid when none of the results has an error.
pub merge_results-valid :
    (rs : List ValidationResult) (rules : List String)
    → (merge_results rs rules).valid ≡ is_empty (all_errors rs)
unfolding merge_results validation_fail
merge_results-valid rs rules = ground arith

-- What a valid governance state has: texts in all required fields, a known status and a known tier.
pub record IsWellFormed (s : GovernanceState) : Type 0 where
  pub record_id : IsText s.record_ref.record_id
  pub record_type : IsText s.record_ref.record_type
  pub workspace_id : IsText s.record_ref.workspace_id
  pub status : contains (strip s.status) governance_statuses ≡ true
  pub tier : contains (strip s.tier) governance_tiers ≡ true
  pub source_type : IsText s.provenance.source_type
  pub source_id : IsText s.provenance.source_id
  pub source_label : IsText s.provenance.source_label
  pub created_by : IsText s.provenance.created_by
  pub trace_id : IsText s.provenance.trace_id
  pub created_at : IsText s.provenance.created_at

valid_parts :
    (s : GovernanceState)
    → (validate_governance_state s).valid
      ≡ (validate_record_ref s.record_ref).valid
        && ((validate_status (some s.status)).valid
            && ((validate_tier (some s.tier)).valid && (validate_provenance s.provenance).valid))
unfolding validate_governance_state
valid_parts s =
    merge_results-valid _ _
    ∙ ground (
      arith,
      is_empty-append (validate_record_ref s.record_ref).errors (
          (validate_status (some s.status)).errors
          ++ ((validate_tier (some s.tier)).errors
              ++ ((validate_provenance s.provenance).errors ++ []))),
      is_empty-append (validate_status (some s.status)).errors (
          (validate_tier (some s.tier)).errors
          ++ ((validate_provenance s.provenance).errors ++ [])),
      is_empty-append (validate_tier (some s.tier)).errors
          ((validate_provenance s.provenance).errors ++ []),
      is_empty-append (validate_provenance s.provenance).errors [],
      validate_record_ref-IsCoherent s.record_ref,
      validate_status-IsCoherent s.status,
      validate_tier-IsCoherent s.tier,
      validate_provenance-IsCoherent s.provenance,
    )

known_has_text :
    (s : String) (names : List String)
    → All (λ n. truthy n ≡ true) names
    → contains (strip s) names ≡ true
    → has_text s ≡ true
known_has_text s names h c = All-contains (λ n. truthy n ≡ true) (strip s) names h c

status_valid :
    (s : String) → (validate_status (some s)).valid ≡ contains (strip s) governance_statuses
unfolding validate_status validation_pass validation_fail
status_valid s = elim (Bool-cases (contains (strip s) governance_statuses)) [
  | inl known ↦ rw (known, known_has_text s governance_statuses (ground arith) known) refl
  | inr unknown ↦ ground arith
]

tier_valid : (s : String) → (validate_tier (some s)).valid ≡ contains (strip s) governance_tiers
unfolding validate_tier validation_pass validation_fail
tier_valid s = elim (Bool-cases (contains (strip s) governance_tiers)) [
  | inl known ↦ rw (known, known_has_text s governance_tiers (ground arith) known) refl
  | inr unknown ↦ ground arith
]

pub ref_valid :
    (r : RecordRef)
    → ((validate_record_ref r).valid ≡ true)
      ↔ (IsText r.record_id × IsText r.record_type × IsText r.workspace_id)
unfolding validate_record_ref ref_errors validation_pass validation_fail
ref_valid r = (λ h. ground arith, λ h. ground arith)

provenance_valid :
    (p : Provenance)
    → ((validate_provenance p).valid ≡ true) ↔ (
        IsText p.source_type
        × IsText p.source_id
        × IsText p.source_label
        × IsText p.created_by
        × IsText p.trace_id
        × IsText p.created_at)
unfolding validate_provenance provenance_errors validation_pass validation_fail
provenance_valid p = (λ h. ground arith, λ h. ground arith)

-- A governance state is valid exactly when all its required texts are there and its status and its
-- tier, white space around them aside, are known ones.
pub validate_governance_state_lem :
    (s : GovernanceState) → ((validate_governance_state s).valid ≡ true) ↔ IsWellFormed s
validate_governance_state_lem s = (
  λ h.
      let parts = sym (valid_parts s) ∙ h in
      let r = (ref_valid s.record_ref).0 (ground arith) in
      let p = (provenance_valid s.provenance).0 (ground arith) in
      record {
        record_id = r.0;
        record_type = r.1;
        workspace_id = r.2;
        status = ground (arith, status_valid s.status);
        tier = ground (arith, tier_valid s.tier);
        source_type = p.0;
        source_id = p.1;
        source_label = p.2;
        created_by = p.3;
        trace_id = p.4;
        created_at = p.5;
      },
  λ w.
      valid_parts s
      ∙ (rw
          (
            status_valid s.status,
            tier_valid s.tier,
            w.status,
            w.tier,
            (ref_valid s.record_ref).1 (w.record_id, w.record_type, w.workspace_id),
            (provenance_valid s.provenance).1 (
              w.source_type, w.source_id, w.source_label, w.created_by, w.trace_id, w.created_at,
            ),
          )
          refl),
)
