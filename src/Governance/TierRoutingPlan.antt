-- ===== src/Governance/TierRoutingPlan.antt =====
-- memory_lab/governance/tier_routing_plan.py. Scores and thresholds are whole millionths from 0 on, so
-- the source's 0.000001 is 1; NaN and negative values are left out. Of the scoring summary the three
-- scores are read. `lower` is Python's `str.lower`; a raised ValueError is `none`. The constant
-- rationale, limitations and mode of a plan are left out.
pub mod Guards
use context_brain_memory_lab.Prelude.{
  ℕ, ◌-◌, min, String, Bool, true, false, not, ◌&&◌, ◌||◌, Option, none, some, List, [], ◌∷◌, ◌++◌,
  ltb, leb, if◌then◌else◌, is_empty, select,
}
use text.Mathlib.Text.{◌==◌}
use context_brain_memory_lab.Prelude.Str.{truthy}
use context_brain_memory_lab.Prelude.Names.{contains, dedupe}
use context_brain_memory_lab.Prelude.Dict.{Dict, lookup, string_eq}

pub record Score : Type 0 where
  pub composite : ℕ
  pub risk : ℕ
  pub confidence : ℕ

pub record TierRoutingPlanInput : Type 0 where
  pub score : Score
  pub circuit_state : String
  -- `none` is a value that `float` does not convert
  pub policy_config : Dict String (Option ℕ)
  pub safety_flags : List String

pub record TierRoutingPlan : Type 0 where
  pub recommended_tier : String
  pub should_persist : Bool
  pub rule_ids : List String
  pub safety_flags : List String

pub record Thresholds : Type 0 where
  pub discard_max : ℕ
  pub transient_max : ℕ
  pub probationary_min : ℕ
  pub persistent_min : ℕ
  pub high_risk : ℕ
  pub min_confidence : ℕ

abbrev pub allowed_tiers : List String
allowed_tiers = "discard" ∷ "transient" ∷ "probationary" ∷ "persistent" ∷ []

abbrev pub forbidden_tiers : List String
forbidden_tiers = "decision_artifact" ∷ "archived" ∷ "conflicted" ∷ "superseded" ∷ "decayed" ∷ []

-- `_get`
unfoldable pub get : Dict String (Option ℕ) → String → ℕ → ℕ
get config key default = elim (lookup key config) [
  | none ↦ default
  | some value ↦ elim value [ none ↦ default | some v ↦ v ]
]

unfoldable pub thresholds : Dict String (Option ℕ) → Thresholds
thresholds config = record {
  discard_max = get config "discard_max" 300_000;
  transient_max = get config "transient_max" 550_000;
  probationary_min = get config "probationary_min" 550_000;
  persistent_min = get config "persistent_min" 780_000;
  high_risk = get config "high_risk" 700_000;
  min_confidence = get config "min_confidence" 450_000;
}

unfoldable pub tier_for : ℕ → Thresholds → String
tier_for score t =
    if leb score t.discard_max
    then "discard"
    else if leb score t.transient_max
    then "transient"
    else if ltb score t.persistent_min
    then "probationary"
    else "persistent"

abbrev boundary_rule : String → String
boundary_rule tier =
    if tier == "discard"
    then "B21-C2-DISCARD-BOUNDARY"
    else if tier == "transient"
    then "B21-C2-TRANSIENT-BOUNDARY"
    else if tier == "probationary"
    then "B21-C2-PROBATIONARY-BOUNDARY"
    else "B21-C2-PERSISTENT-BOUNDARY"

abbrev pub is_stopped : String → Bool
is_stopped circuit = contains circuit ("open" ∷ "unavailable" ∷ [])

abbrev pub is_weakened : String → Bool
is_weakened circuit = contains circuit ("degraded" ∷ "half_open" ∷ [])

-- The variables of the method: the score that is left, the rules and the flags.
pub record Draft : Type 0 where
  pub adjusted : ℕ
  pub rule_ids : List String
  pub safety_flags : List String

-- One guard: it caps the score, and adds a rule and a flag.
abbrev pub cap : ℕ → String → String → Draft → Draft
cap bound rule flag d = record {
  adjusted = min d.adjusted bound;
  rule_ids = d.rule_ids ++ rule ∷ [];
  safety_flags = d.safety_flags ++ flag ∷ [];
}

unfoldable pub check_circuit : Thresholds → String → Draft → Draft
check_circuit t circuit d =
    if is_stopped circuit
    then cap t.transient_max "B21-C2-CIRCUIT-BLOCKS-PERSISTENCE" "circuit_not_closed" d
    else if is_weakened circuit
    then cap (t.probationary_min - 1) "B21-C2-CIRCUIT-DEGRADES-PLAN" "circuit_degraded_or_half_open"
        d
    else d

unfoldable pub check_risk : Thresholds → Score → Draft → Draft
check_risk t s d =
    if leb t.high_risk s.risk
    then cap t.transient_max "B21-C2-HIGH-RISK-LIMITS-TIER" "high_risk_score" d
    else d

unfoldable pub check_confidence : Thresholds → Score → Draft → Draft
check_confidence t s d =
    if ltb s.confidence t.min_confidence
    then cap (t.probationary_min - 1) "B21-C2-LOW-CONFIDENCE-LIMITS-TIER" "low_confidence" d
    else d

unfoldable pub finish_plan : String → Draft → Option TierRoutingPlan
finish_plan tier d =
    if not (contains tier allowed_tiers) || contains tier forbidden_tiers
    then none
    else some (record {
      recommended_tier = tier;
      should_persist =
          contains tier ("probationary" ∷ "persistent" ∷ []) && is_empty d.safety_flags;
      rule_ids = dedupe (select truthy (d.rule_ids ++ boundary_rule tier ∷ []));
      safety_flags = dedupe (select truthy d.safety_flags);
    })

module _ (lower : String → String) where
  abbrev pub circuit_of : TierRoutingPlanInput → String
  circuit_of input = lower (if truthy input.circuit_state then input.circuit_state else "closed")

  abbrev pub draft_of : TierRoutingPlanInput → Draft
  draft_of input =
      let t = thresholds input.policy_config in
      check_confidence t input.score (
        check_risk t input.score (
          check_circuit t (circuit_of input) (record {
            adjusted = input.score.composite;
            rule_ids = "B21-C2-PLAN-ONLY" ∷ [];
            safety_flags = input.safety_flags;
          })))

  unfoldable pub plan_tier_route : TierRoutingPlanInput → Option TierRoutingPlan
  plan_tier_route input =
      finish_plan (tier_for (draft_of input).adjusted (thresholds input.policy_config))
        (draft_of input)
