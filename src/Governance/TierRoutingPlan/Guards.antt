-- ===== src/Governance/TierRoutingPlan/Guards.antt =====
-- What a plan that recommends to persist has passed.
use context_brain_memory_lab.Prelude.{
  ℕ, ◌≤◌, ◌<◌, ◌≡◌, refl, String, true, false, ◌&&◌, some, List, [], ◌∷◌, ◌++◌, ltb, leb, arith,
  is_empty, Bool-cases, inl, inr, ap, subst, ◌∙◌,
}
use context_brain_memory_lab.Governance.TierRoutingPlan.{
  Score, TierRoutingPlanInput, TierRoutingPlan, Thresholds, thresholds, tier_for, is_stopped,
  is_weakened, Draft, check_circuit, check_risk, check_confidence, finish_plan, circuit_of,
  draft_of, plan_tier_route,
}

tier_for-allowed :
    (score : ℕ) (t : Thresholds) (d : Draft)
    → (p : TierRoutingPlan) × (finish_plan (tier_for score t) d ≡ some p)
      × (p.recommended_tier ≡ tier_for score t)
      × (p.should_persist
          ≡ ltb t.discard_max score && (ltb t.transient_max score && is_empty d.safety_flags))
unfolding tier_for finish_plan
tier_for-allowed score t d = elim (Bool-cases (leb score t.discard_max)) [
  | inl low ↦ rw low (_, refl, refl, ground arith)
  | inr above ↦ elim (Bool-cases (leb score t.transient_max)) [
    | inl fleeting ↦ rw (above, fleeting) (_, refl, refl, ground arith)
    | inr higher ↦ elim (Bool-cases (ltb score t.persistent_min)) [
      | inl middle ↦ rw (above, higher, middle) (_, refl, refl, ground arith)
      | inr top ↦ rw (above, higher, top) (_, refl, refl, ground arith)
    ]
  ]
]

is_empty-snoc : (xs : List String) (x : String) → is_empty (xs ++ x ∷ []) ≡ false
is_empty-snoc [] x = refl
is_empty-snoc (y ∷ ys) x = refl

check_circuit-silent :
    (t : Thresholds) (circuit : String) (d : Draft)
    → is_empty (check_circuit t circuit d).safety_flags ≡ true
    → (is_stopped circuit ≡ false) × (is_weakened circuit ≡ false) × (check_circuit t circuit d ≡ d)
unfolding check_circuit
check_circuit-silent t circuit d h = elim (Bool-cases (is_stopped circuit)) [
  | inl raised ↦
      let loud = is_empty-snoc d.safety_flags "circuit_not_closed" in
      let quiet = rw raised at h in cc
  | inr calm ↦ elim (Bool-cases (is_weakened circuit)) [
    | inl raised ↦
        let loud = is_empty-snoc d.safety_flags "circuit_degraded_or_half_open" in
        let quiet = rw (calm, raised) at h in cc
    | inr neither ↦ (calm, neither, rw (calm, neither) refl)
  ]
]

check_risk-silent :
    (t : Thresholds) (s : Score) (d : Draft)
    → is_empty (check_risk t s d).safety_flags ≡ true
    → (s.risk < t.high_risk) × (check_risk t s d ≡ d)
unfolding check_risk
check_risk-silent t s d h = elim (Bool-cases (leb t.high_risk s.risk)) [
  | inl raised ↦
      let loud = is_empty-snoc d.safety_flags "high_risk_score" in let quiet = rw raised at h in cc
  | inr calm ↦ (ground arith, rw calm refl)
]

check_confidence-silent :
    (t : Thresholds) (s : Score) (d : Draft)
    → is_empty (check_confidence t s d).safety_flags ≡ true
    → (t.min_confidence ≤ s.confidence) × (check_confidence t s d ≡ d)
unfolding check_confidence
check_confidence-silent t s d h = elim (Bool-cases (ltb s.confidence t.min_confidence)) [
  | inl raised ↦
      let loud = is_empty-snoc d.safety_flags "low_confidence" in let quiet = rw raised at h in cc
  | inr calm ↦ (ground arith, rw calm refl)
]

-- No flag is left only if no guard spoke, and then the draft is the first one.
draft-clean :
    (t : Thresholds) (s : Score) (circuit : String) (d : Draft)
    → is_empty (check_confidence t s (check_risk t s (check_circuit t circuit d))).safety_flags
      ≡ true
    → (is_stopped circuit ≡ false)
      × (is_weakened circuit ≡ false)
      × (s.risk < t.high_risk)
      × (t.min_confidence ≤ s.confidence)
      × (check_confidence t s (check_risk t s (check_circuit t circuit d)) ≡ d)
draft-clean t s circuit d h =
    let third = check_confidence-silent t s (check_risk t s (check_circuit t circuit d)) h in
    let h2 = subst (λ (q : Draft). is_empty q.safety_flags ≡ true) third.1 h in
    let second = check_risk-silent t s (check_circuit t circuit d) h2 in
    let h1 = subst (λ (q : Draft). is_empty q.safety_flags ≡ true) second.1 h2 in
    let first = check_circuit-silent t circuit d h1 in
    (first.0, first.1, second.0, third.0, third.1 ∙ (second.1 ∙ first.2))

-- The planner never refuses: for every input there is a plan. Where it recommends to persist, the
-- caller gave no flag, the circuit is neither stopped nor weakened, the risk is below its threshold,
-- the confidence reaches its own, and the composite score lies above the two lower tiers.
pub plan_tier_route_guards :
    (lower : String → String) (input : TierRoutingPlanInput)
    → let t = thresholds input.policy_config in
      (p : TierRoutingPlan) × (plan_tier_route lower input ≡ some p)
      × (p.should_persist ≡ true
          → (input.safety_flags ≡ [])
            × (is_stopped (circuit_of lower input) ≡ false)
            × (is_weakened (circuit_of lower input) ≡ false)
            × (input.score.risk < t.high_risk)
            × (t.min_confidence ≤ input.score.confidence)
            × (t.discard_max < input.score.composite)
            × (t.transient_max < input.score.composite))
unfolding plan_tier_route
plan_tier_route_guards lower input =
    let t = thresholds input.policy_config in
    let d = draft_of lower input in
    let (p, found, named, persists) = tier_for-allowed d.adjusted t d in
    (
      p,
      found,
      λ raised.
          let flags : is_empty d.safety_flags ≡ true = ground (arith, persists, raised) in
          let clean = draft-clean t input.score (circuit_of lower input) _ flags in
          let same : d.adjusted ≡ input.score.composite = ap (λ (q : Draft). q.adjusted) clean.4 in
          let silent : is_empty input.safety_flags ≡ true =
            subst (λ (q : Draft). is_empty q.safety_flags ≡ true) clean.4 flags in
          (
            ground arith,
            clean.0,
            clean.1,
            clean.2,
            clean.3,
            ground (arith, persists, raised, same),
            ground (arith, persists, raised, same),
          ),
    )
