-- ===== src/Examples/Answers.antt =====
-- The provider-answer gate.
use context_brain_memory_lab.Prelude.{
  ℕ, ◌≡◌, refl, Bool, true, false, ◌&&◌, none, some, [], ◌∷◌, if◌then◌else◌,
}
use context_brain_memory_lab.Prelude.Text.{Text, codes, strip, lstrip, rstrip, is_space, text_eqb}
use context_brain_memory_lab.AnswerGate.{
  LlmRequest, LlmBackend, provider_backed, gate_provider_answer, judge_response,
  provider_text_allowed, provider_citations_allowed, find_evidence_ids, match_evidence_id, id_tail,
  is_id_char, starts_with, occurs_in, or_noop,
}
use context_brain_memory_lab.AnswerGate.Gating.{
  IsTyped, IsCleared, gate_provider_answer-IsTyped, gate_provider_answer-IsCleared,
}

abbrev lower : Text → Text
lower s = s

abbrev is_word : ℕ → Bool
is_word c = is_id_char c

abbrev request : LlmRequest
request = record { prompt = codes "question"; system = []; max_tokens = 400 }

abbrev backend : LlmBackend
backend = record {
  provider_name = "p";
  is_configured = true;
  summarize = λ r. record {
    text = codes "see ev_1 ";
    model = "m";
    degraded = false;
    failure_reason = none;
  };
}

gate_provider_answer-IsTyped_example :
    IsTyped
      (codes "plain")
      (gate_provider_answer lower is_word true true
        (codes "plain")
        (codes "ev_1" ∷ [])
        (some backend)
        request).0
    × ((gate_provider_answer lower is_word true true
          (codes "plain")
          (codes "ev_1" ∷ [])
          (some backend)
          request).1
        ≡ (if true && true then request ∷ [] else []))
    × ((gate_provider_answer lower is_word true true
          (codes "plain")
          (codes "ev_1" ∷ [])
          (some backend)
          request).0.attempted
        ≡ true && true)
gate_provider_answer-IsTyped_example =
    gate_provider_answer-IsTyped lower is_word true true (codes "plain") (codes "ev_1" ∷ [])
      (some backend) request

-- The backend's answer cites the one evidence that was supplied.
backed :
    (gate_provider_answer lower is_word true true
      (codes "plain")
      (codes "ev_1" ∷ [])
      (some backend)
      request).0.mode
    ≡ provider_backed
unfolding gate_provider_answer judge_response provider_text_allowed provider_citations_allowed
    find_evidence_ids match_evidence_id id_tail is_id_char starts_with occurs_in codes strip lstrip
    rstrip is_space text_eqb
backed = refl

gate_provider_answer-IsCleared_example :
    (true ≡ true)
    × (true ≡ true)
    × (((or_noop lower is_word (some backend)).summarize request).degraded ≡ false)
    × ((gate_provider_answer lower is_word true true
          (codes "plain")
          (codes "ev_1" ∷ [])
          (some backend)
          request).0.text
        ≡ strip (codes "see ev_1 "))
    × IsCleared lower is_word (codes "ev_1" ∷ []) (strip (codes "see ev_1 "))
gate_provider_answer-IsCleared_example =
    gate_provider_answer-IsCleared lower is_word true true (codes "plain") (codes "ev_1" ∷ [])
      (some backend) request backed
