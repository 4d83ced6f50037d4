-- ===== src/AnswerGate/Gating.antt =====
-- What the gate lets through, and what it keeps back.
use context_brain_memory_lab.Prelude.{
  ℕ, ◌≡◌, refl, Bool, true, false, ◌&&◌, Option, none, List, [], ◌∷◌, arith, if◌then◌else◌, any,
  ◌↔◌, All, is_empty,
}
use context_brain_memory_lab.Prelude.Text.{Text, strip, text_eqb}
use context_brain_memory_lab.AnswerGate.{
  LlmRequest, LlmResponse, LlmBackend, provider_backed, degraded, ProviderGateResult,
  find_evidence_ids, provider_text_allowed, provider_citations_allowed, judge_response,
  gate_provider_answer, all_among, forbidden_provider_terms, occurs_in, or_noop,
}

-- The fields of a result agree with its mode, and its text is the deterministic one unless the
-- provider is behind it.
pub record IsTyped (text : Text) (r : ProviderGateResult) : Type 0 where
  pub kept : ¬ (r.mode ≡ provider_backed) → r.text ≡ text
  pub flagged : (r.mode ≡ degraded) ↔ (r.degraded ≡ true)
  pub reasoned : (r.degraded ≡ true) ↔ ¬ (r.failure_reason ≡ none)
  pub unattempted :
      r.attempted ≡ false → (r.provider_name ≡ "none") × (r.configured ≡ false) × (r.model ≡ none)

module _ (lower : Text → Text) (is_word : ℕ → Bool) where
  judge_response-IsTyped :
      (text : Text) (allowed : List Text) (llm : LlmBackend) (response : LlmResponse)
      → IsTyped text (judge_response lower is_word text allowed llm response)
  unfolding judge_response
  judge_response-IsTyped text allowed llm response = record {
    kept = λ other. ground arith;
    flagged = ground arith;
    reasoned = ground arith;
    unattempted = λ e. ground arith;
  }

  judge_response-attempted :
      (text : Text) (allowed : List Text) (llm : LlmBackend) (response : LlmResponse)
      → (judge_response lower is_word text allowed llm response).attempted ≡ true
  unfolding judge_response
  judge_response-attempted text allowed llm response = ground arith

  -- For every backend, the result is typed: outside the mode provider_backed the text is the
  -- deterministic one, the mode is degraded exactly when the flag is set and exactly when there is
  -- a failure reason, and a result that was not attempted names no provider. At most one request
  -- is made, and none unless both gates are open; the result says whether one was made.
  pub gate_provider_answer-IsTyped :
      (enable enabled : Bool) (text : Text) (allowed : List Text) (backend : Option LlmBackend)
      (request : LlmRequest)
      → IsTyped text
          (gate_provider_answer lower is_word enable enabled text allowed backend request).0
        × ((gate_provider_answer lower is_word enable enabled text allowed backend request).1
            ≡ (if enable && enabled then request ∷ [] else []))
        × ((gate_provider_answer lower is_word enable enabled text allowed backend
              request).0.attempted
            ≡ enable && enabled)
  unfolding gate_provider_answer
  gate_provider_answer-IsTyped false enabled text allowed backend request = (
    record {
      kept = λ o. refl;
      flagged = ground arith;
      reasoned = ground arith;
      unattempted = λ e. ground arith;
    },
    refl,
    refl,
  )
  gate_provider_answer-IsTyped true false text allowed backend request = (
    record {
      kept = λ o. refl;
      flagged = ground arith;
      reasoned = ground arith;
      unattempted = λ e. ground arith;
    },
    refl,
    refl,
  )
  gate_provider_answer-IsTyped true true text allowed backend request = (
    judge_response-IsTyped text allowed (or_noop lower is_word backend) _,
    refl,
    judge_response-attempted text allowed (or_noop lower is_word backend) _,
  )

  -- Wording that may be shown: it is not empty, no forbidden term occurs in it, and whatever
  -- evidence it cites was supplied.
  pub record IsCleared (allowed : List Text) (text : Text) : Type 0 where
    pub wording : is_empty (strip text) ≡ false
    pub neutral : All (λ term. occurs_in term (lower text) ≡ false) forbidden_provider_terms
    pub supplied :
        All (λ id. any (text_eqb id) allowed ≡ true) (find_evidence_ids lower is_word false 0 text)

  All-of-all_among :
      (ids allowed : List Text)
      → all_among lower is_word ids allowed ≡ true
      → All (λ id. any (text_eqb id) allowed ≡ true) ids
  All-of-all_among [] allowed h = tt
  All-of-all_among (id ∷ ids) allowed h =
      (ground arith, All-of-all_among ids allowed (ground arith))

  All-of-none :
      (text : Text) (terms : List Text)
      → any (λ term. occurs_in term text) terms ≡ false
      → All (λ term. occurs_in term text ≡ false) terms
  All-of-none text [] h = tt
  All-of-none text (term ∷ terms) h = (ground arith, All-of-none text terms (ground arith))

  cleared :
      (allowed : List Text) (text : Text)
      → provider_text_allowed lower is_word text ≡ true
      → provider_citations_allowed lower is_word text allowed ≡ true
      → IsCleared allowed text
  unfolding provider_text_allowed provider_citations_allowed
  cleared allowed text h g = record {
    wording = ground arith;
    neutral = All-of-none (lower text) forbidden_provider_terms (ground arith);
    supplied = All-of-all_among _ allowed g;
  }

  judge_response-IsCleared :
      (text : Text) (allowed : List Text) (llm : LlmBackend) (response : LlmResponse)
      → (judge_response lower is_word text allowed llm response).mode ≡ provider_backed
      → (response.degraded ≡ false)
        × ((judge_response lower is_word text allowed llm response).text ≡ strip response.text)
        × IsCleared allowed (strip response.text)
  unfolding judge_response
  judge_response-IsCleared text allowed llm response h = (
    ground arith,
    ground arith,
    cleared allowed (strip response.text) (ground arith) (ground arith),
  )

  -- A result in the mode provider_backed needs both gates open and an answer of the backend that
  -- is not degraded; its text is that answer, stripped, and is cleared: not empty, without a
  -- forbidden term, and citing supplied evidence only.
  pub gate_provider_answer-IsCleared :
      (enable enabled : Bool) (text : Text) (allowed : List Text) (backend : Option LlmBackend)
      (request : LlmRequest)
      → (gate_provider_answer lower is_word enable enabled text allowed backend request).0.mode
        ≡ provider_backed
      → (enable ≡ true)
        × (enabled ≡ true)
        × (((or_noop lower is_word backend).summarize request).degraded ≡ false)
        × ((gate_provider_answer lower is_word enable enabled text allowed backend request).0.text
            ≡ strip ((or_noop lower is_word backend).summarize request).text)
        × IsCleared allowed (strip ((or_noop lower is_word backend).summarize request).text)
  unfolding gate_provider_answer
  gate_provider_answer-IsCleared false enabled text allowed backend request h = ground arith
  gate_provider_answer-IsCleared true false text allowed backend request h = ground arith
  gate_provider_answer-IsCleared true true text allowed backend request h =
      let (sound, kept, clear) =
        judge_response-IsCleared text allowed (or_noop lower is_word backend) _ h in
      (refl, refl, sound, kept, clear)
