-- ===== src/AnswerGate.antt =====
-- memory_lab/providers/answer_gate.py, with the request and the answer of llm_backend.py and the
-- stub of noop.py. Texts are lists of code points. `lower` is Python's `str.lower` and `is_word` is
-- `\w` of its `re` module on one character.
pub mod Gating
use context_brain_memory_lab.Prelude.{
  ℕ, zero, suc, ◌+◌, String, Bool, true, false, not, ◌&&◌, ◌||◌, Option, none, some, List, [], ◌∷◌,
  ◌++◌, map, leb, nat_eqb, if◌then◌else◌, is_empty, drop, take, any, length,
}
use context_brain_memory_lab.Prelude.Text.{Text, codes, strip, text_eqb}
use context_brain_memory_lab.Prelude.Str.{truthy}

pub data FailureCode : Type 0 where
  not_configured missing_api_key provider_import_missing provider_http_error rate_limited timeout
        invalid_json schema_validation_failed circuit_open dimension_mismatch partial_batch_failure
        unknown_error :
      FailureCode

-- The fields that the gate sets; the temperature is 0 in every request.
pub record LlmRequest : Type 0 where
  pub prompt : Text
  pub system : Text
  pub max_tokens : ℕ

pub record LlmResponse : Type 0 where
  pub text : Text
  pub model : String
  pub degraded : Bool
  pub failure_reason : Option FailureCode

pub record LlmBackend : Type 0 where
  pub provider_name : String
  pub is_configured : Bool
  pub summarize : LlmRequest → LlmResponse

abbrev pub noop_llm_backend : LlmBackend
noop_llm_backend = record {
  provider_name = "none";
  is_configured = false;
  summarize = λ request. record {
    text = [];
    model = "";
    degraded = true;
    failure_reason = some not_configured;
  };
}

pub data Mode : Type 0 where
  deterministic provider_backed degraded : Mode

-- The typed reasons of a degraded answer; the first is a failure code's value.
pub data GateFailure : Type 0 where
  provider_failure : FailureCode → GateFailure
  provider_degraded provider_disabled provider_output_rejected : GateFailure

pub record ProviderGateResult : Type 0 where
  pub text : Text
  pub mode : Mode
  pub provider_name : String
  pub attempted : Bool
  pub configured : Bool
  pub degraded : Bool
  pub failure_reason : Option GateFailure
  pub model : Option String

abbrev pub forbidden_provider_terms : List Text
forbidden_provider_terms =
    codes "verdict"
    ∷ codes "truth decision"
    ∷ codes "resolution"
    ∷ codes "winner"
    ∷ codes "canonical truth"
    ∷ []

unfoldable pub starts_with : Text → Text → Bool
unfolding text_eqb
starts_with t s = text_eqb t (take (length t) s)

-- `term in text`
unfoldable pub occurs_in : Text → Text → Bool
occurs_in t [] = is_empty t
occurs_in t (c ∷ s) = starts_with t (c ∷ s) || occurs_in t s

-- `[A-Za-z0-9_-]`
unfoldable pub is_id_char : ℕ → Bool
is_id_char c =
    (leb 65 c && leb c 90)
    || (leb 97 c && leb c 122)
    || (leb 48 c && leb c 57)
    || nat_eqb c 95
    || nat_eqb c 45

module _ (lower : Text → Text) (is_word : ℕ → Bool) where
  abbrev word_first : Text → Bool
  word_first [] = false
  word_first (c ∷ s) = is_word c

  -- `\b` between a character and the text behind it
  abbrev boundary : ℕ → Text → Bool
  boundary before rest = if is_word before then not (word_first rest) else word_first rest

  -- `[A-Za-z0-9_-]+\b`, the longest match first: what it takes behind the character `before`
  -- that it has.
  unfoldable pub id_tail : ℕ → Text → Option Text
  unfolding is_id_char
  id_tail before [] = if boundary before [] then some [] else none
  id_tail before (c ∷ s) =
      let further = id_tail c s in
      let stop = if boundary before (c ∷ s) then some [] else none in
      if is_id_char c then elim further [ none ↦ stop | some t ↦ some (c ∷ t) ] else stop

  abbrev id_run : Text → Option Text
  id_run [] = none
  id_run (c ∷ s) =
      if is_id_char c then elim (id_tail c s) [ none ↦ none | some t ↦ some (c ∷ t) ] else none

  -- `EVIDENCE_ID_PATTERN` at one place, `wordy` when the character before it is a word character.
  unfoldable pub match_evidence_id : Bool → Text → Option Text
  match_evidence_id wordy s =
      if not wordy && starts_with (codes "ev_") s
      then elim (id_run (drop 3 s)) [ none ↦ none | some t ↦ some (codes "ev_" ++ t) ]
      else none

  -- `EVIDENCE_ID_PATTERN.findall(text)`: the characters of a match are passed over.
  unfoldable pub find_evidence_ids : Bool → ℕ → Text → List Text
  find_evidence_ids wordy skip [] = []
  find_evidence_ids wordy (suc n) (c ∷ s) = find_evidence_ids (is_word c) n s
  find_evidence_ids wordy zero (c ∷ s) = elim (match_evidence_id wordy (c ∷ s)) [
    | none ↦ find_evidence_ids (is_word c) 0 s
    | some id ↦ id ∷ find_evidence_ids (is_word c) (length (drop 1 id)) s
  ]

  unfoldable pub provider_text_allowed : Text → Bool
  provider_text_allowed text =
      not (is_empty (strip text))
      && not (any (λ term. occurs_in term (lower text)) forbidden_provider_terms)

  abbrev pub all_among : List Text → List Text → Bool
  all_among [] allowed = true
  all_among (id ∷ ids) allowed = any (text_eqb id) allowed && all_among ids allowed

  unfoldable pub provider_citations_allowed : Text → List Text → Bool
  provider_citations_allowed text allowed_evidence_ids =
      all_among (find_evidence_ids false 0 text) allowed_evidence_ids

  abbrev failure_reason_of : LlmResponse → GateFailure
  failure_reason_of response = elim response.failure_reason [
    | none ↦ provider_degraded
    | some code ↦ provider_failure code
  ]

  -- Gate 1 and gate 2: nothing was attempted.
  abbrev untried : Text → Mode → Bool → Option GateFailure → ProviderGateResult
  untried text mode flag reason = record {
    text = text;
    mode = mode;
    provider_name = "none";
    attempted = false;
    configured = false;
    degraded = flag;
    failure_reason = reason;
    model = none;
  }

  abbrev tried :
      LlmBackend → Option String → Text → Mode → Bool → Option GateFailure → ProviderGateResult
  tried llm model text mode flag reason = record {
    text = text;
    mode = mode;
    provider_name = llm.provider_name;
    attempted = true;
    configured = llm.is_configured;
    degraded = flag;
    failure_reason = reason;
    model = model;
  }

  -- What the gate makes of the backend's answer.
  unfoldable pub judge_response : Text → List Text → LlmBackend → LlmResponse → ProviderGateResult
  judge_response deterministic_text allowed llm response =
      let model = if truthy response.model then some response.model else none in
      let text = strip response.text in
      if response.degraded
      then tried llm model deterministic_text degraded true (some (failure_reason_of response))
      else if not (provider_text_allowed text) || not (provider_citations_allowed text allowed)
      then tried llm model deterministic_text degraded true (some provider_output_rejected)
      else tried llm model text provider_backed false none

  abbrev pub or_noop : Option LlmBackend → LlmBackend
  or_noop none = noop_llm_backend
  or_noop (some llm) = llm

  -- The gate's answer, and the requests that it made of the backend.
  unfoldable pub gate_provider_answer :
      Bool
      → Bool
      → Text
      → List Text
      → Option LlmBackend
      → LlmRequest
      → ProviderGateResult × List LlmRequest
  gate_provider_answer enable enabled deterministic_text allowed backend request =
      if not enable
      then (untried deterministic_text deterministic false none, [])
      else if not enabled
      then (untried deterministic_text degraded true (some provider_disabled), [])
      else (
        judge_response deterministic_text allowed (or_noop backend)
            ((or_noop backend).summarize request),
        request ∷ [],
      )
