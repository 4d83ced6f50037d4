-- ===== src/Governance/Transition/Lives.antt =====
-- The lives that the matrix allows: a content's tier under any sequence of requests, where a refused
-- request changes nothing.
use context_brain_memory_lab.Prelude.{
  String, ◌≡◌, refl, Bool, true, false, ◌&&◌, Option, none, some, List, [], ◌∷◌, arith, any, All,
  Bool-cases, inl, inr, ◌⊎◌, subst, Option-cases,
}
use text.Mathlib.Text.{◌==◌ as str_eqb}
use text.Mathlib.TextEquality.{eq_iff}
use context_brain_memory_lab.Prelude.Names.{contains, All-contains}
use context_brain_memory_lab.Governance.Transition.{
  validate_transition, allowed_system, GovernanceTransitionError,
}

pub record Request : Type 0 where
  pub new_tier : String
  pub trigger_type : String

abbrev outcome : Option String → Request → Option GovernanceTransitionError → Option String
outcome tier r none = some r.new_tier
outcome tier r (some refused) = tier

unfoldable pub apply : Option String → Request → Option String
apply tier r = outcome tier r (validate_transition tier r.new_tier r.trigger_type)

unfoldable pub replay : Option String → List Request → Option String
replay tier [] = tier
replay tier (r ∷ rs) = replay (apply tier r) rs

-- The tiers that nothing leaves.
abbrev pub frozen_tiers : List String
frozen_tiers = "archived" ∷ "decayed" ∷ "superseded" ∷ "discard" ∷ []

-- A request for the human gate by a human.
abbrev pub opens_gate : Request → Bool
opens_gate r = str_eqb r.new_tier "decision_artifact" && str_eqb r.trigger_type "human_override"

accepted_gate :
    (tier : Option String) (trigger_type : String)
    → validate_transition tier "decision_artifact" trigger_type ≡ none
    → str_eqb trigger_type "human_override" ≡ true
unfolding validate_transition
accepted_gate tier trigger_type h = ground arith

apply_gate :
    (tier : Option String) (r : Request)
    → apply tier r ≡ some "decision_artifact"
    → (tier ≡ some "decision_artifact") ⊎ (opens_gate r ≡ true)
unfolding apply
apply_gate tier r h = elim (Option-cases (validate_transition tier r.new_tier r.trigger_type)) [
  | inr (refused, e) ↦ inl (ground arith)
  | inl accepted ↦
      let gate : r.new_tier ≡ "decision_artifact" = ground arith in
      inr (
        ground (
          arith,
          eq_iff r.new_tier "decision_artifact",
          accepted_gate tier r.trigger_type
              (subst (λ t. validate_transition tier t r.trigger_type ≡ none) gate accepted),
        ))
]

-- Content that is a decision artifact after a sequence of requests was one before, or one of the
-- requests asked for that tier with a human override.
pub replay_gate :
    (tier : Option String) (rs : List Request)
    → replay tier rs ≡ some "decision_artifact"
    → (tier ≡ some "decision_artifact") ⊎ (any opens_gate rs ≡ true)
unfolding replay
replay_gate tier [] h = inl h
replay_gate tier (r ∷ rs) h = elim (replay_gate (apply tier r) rs h) [
  | inl gated ↦ elim (apply_gate tier r gated) [
    | inl before ↦ inl before
    | inr now ↦ inr (rw now refl)
  ]
  | inr later ↦
      inr (elim (Bool-cases (opens_gate r)) [ inl now ↦ rw now refl | inr other ↦ rw other later ])
]

-- The tiers that requests of the system can reach.
abbrev pub system_tiers : List String
system_tiers =
    "discard" ∷ "transient" ∷ "probationary" ∷ "persistent" ∷ "conflicted" ∷ "superseded"
    ∷ "decayed" ∷ "archived" ∷ []

abbrev pub IsSystemTier : Option String → Type 0
IsSystemTier none = Unit
IsSystemTier (some t) = contains t system_tiers ≡ true

allowed_system-All :
    (tier : Option String) → All (λ n. contains n system_tiers ≡ true) (allowed_system tier)
allowed_system-All none = ground arith
allowed_system-All (some t) = ground arith

accepted_system :
    (tier : Option String) (new_tier trigger_type : String)
    → str_eqb trigger_type "human_override" ≡ false
    → validate_transition tier new_tier trigger_type ≡ none
    → contains new_tier (allowed_system tier) ≡ true
unfolding validate_transition
accepted_system tier new_tier trigger_type system h = ground arith

apply_system :
    (tier : Option String) (r : Request)
    → IsSystemTier tier
    → str_eqb r.trigger_type "human_override" ≡ false
    → IsSystemTier (apply tier r)
unfolding apply
apply_system tier r h system =
    elim (Option-cases (validate_transition tier r.new_tier r.trigger_type)) [
      | inr (refused, e) ↦ rw e h
      | inl accepted ↦ rw accepted (
          All-contains (λ n. contains n system_tiers ≡ true) r.new_tier (allowed_system tier)
            (allowed_system-All tier)
            (accepted_system tier r.new_tier r.trigger_type system accepted))
    ]

-- Without a human override, content never gets a tier beside the eight of the system, whatever
-- names are asked for: so never the human gate.
pub replay_system :
    (tier : Option String) (rs : List Request)
    → IsSystemTier tier
    → All (λ r. str_eqb r.trigger_type "human_override" ≡ false) rs
    → IsSystemTier (replay tier rs)
unfolding replay
replay_system tier [] h system = h
replay_system tier (r ∷ rs) h system =
    replay_system (apply tier r) rs (apply_system tier r h system.0) system.1
