-- ===== src/TierAdmin/Planning.antt =====
-- Which conflict an escalation is planned for, and what the plan says.
use context_brain_memory_lab.Prelude.{
  ◌≡◌, ◌≢◌, refl, ap, subst, String, Bool, true, false, not, ◌&&◌, ◌||◌, none, some, List, [], ◌∷◌,
  ◌++◌, arith, All, Option-cases, Bool-cases, inl, inr, ◌⊎◌,
}
use text.Mathlib.Text.{◌==◌}
use text.Mathlib.TextEquality.{eq_iff}
use text.Mathlib.TextPositions.{eq_refl}
use context_brain_memory_lab.Prelude.Names.{contains}
use context_brain_memory_lab.TierAdmin.Escalations.{
  plan_escalation_for_content, plan_for, summary_of, ConflictCandidate, counterpart_id, first_other,
  involves, severity_to_escalation, escalation_conflict_type, ttl_days, TtlEnvironment, days_or,
  EscalationPlan,
}

-- The candidate asks for a review of `c`, and the plan repeats what it found.
pub record IsPlanned (env : TtlEnvironment) (candidate : ConflictCandidate)
    (workspace_id c : String) (plan : EscalationPlan) : Type 0 where
  pub is_open : candidate.status ≡ "unresolved"
  pub concerned : involves candidate c ≡ true
  pub graded :
      ((candidate.severity ≡ "high")
        × (plan.severity ≡ "requires_review")
        × (plan.ttl_days ≡ days_or (env "requires_review") 30))
      ⊎ ((candidate.severity ≡ "medium")
          × (plan.severity ≡ "warning")
          × (plan.ttl_days ≡ days_or (env "warning") 7))
  pub typed : escalation_conflict_type candidate.conflict_type ≡ some plan.conflict_type
  pub traced :
      (plan.candidate_id ≡ candidate.candidate_id)
      × (plan.workspace_id ≡ workspace_id)
      × (plan.content_id ≡ c)
  pub counterpart : plan.conflict_content_id ≢ some c

first_other_lem : (c : String) (ids : List String) → first_other c ids ≢ some c
first_other_lem c [] h = cc
first_other_lem c (d ∷ ids) h = ground (arith, first_other_lem c ids, eq_refl c, h)

counterpart_id_lem :
    (candidate : ConflictCandidate) (c : String) → counterpart_id candidate c ≢ some c
unfolding counterpart_id
counterpart_id_lem candidate c =
    first_other_lem c (candidate.contradicting_content_ids ++ candidate.supporting_content_ids)

severity_cases :
    (env : TtlEnvironment) (s t : String)
    → severity_to_escalation s ≡ some t
    → ((s ≡ "high")
        × (t ≡ "requires_review")
        × (ttl_days env t ≡ days_or (env "requires_review") 30))
      ⊎ ((s ≡ "medium") × (t ≡ "warning") × (ttl_days env t ≡ days_or (env "warning") 7))
severity_cases env s t h = elim (Bool-cases (s == "high")) [
  | inl high ↦
      let graded : t ≡ "requires_review" = ground (arith, high, h) in
      inl
        (ground (arith, eq_iff s "high", high), graded, ap (λ (q : String). ttl_days env q) graded)
  | inr lower ↦
      let graded : t ≡ "warning" = ground (arith, lower, h) in
      inr (
        ground (arith, eq_iff s "medium", lower, h),
        graded,
        ap (λ (q : String). ttl_days env q) graded,
      )
]

made : TtlEnvironment → ConflictCandidate → String → String → String → String → EscalationPlan
made env candidate workspace_id c severity conflict_type = record {
  workspace_id = workspace_id;
  content_id = c;
  conflict_content_id = counterpart_id candidate c;
  conflict_type = conflict_type;
  severity = severity;
  conflict_summary = summary_of candidate (counterpart_id candidate c);
  ttl_days = ttl_days env severity;
  candidate_id = candidate.candidate_id;
  detection_rule = candidate.detection_rule;
}

made-IsPlanned :
    (env : TtlEnvironment) (candidate : ConflictCandidate)
    (workspace_id c severity conflict_type : String)
    → candidate.status ≡ "unresolved"
    → involves candidate c ≡ true
    → severity_to_escalation candidate.severity ≡ some severity
    → escalation_conflict_type candidate.conflict_type ≡ some conflict_type
    → IsPlanned env candidate workspace_id c
        (made env candidate workspace_id c severity conflict_type)
unfolding made
made-IsPlanned env candidate workspace_id c severity conflict_type unresolved there graded typed =
    record {
      is_open = unresolved;
      concerned = there;
      graded = severity_cases env candidate.severity severity graded;
      typed = typed;
      traced = (refl, refl, refl);
      counterpart = counterpart_id_lem candidate c;
    }

plan_for-IsPlanned :
    (env : TtlEnvironment) (candidate : ConflictCandidate) (workspace_id c : String)
    (plan : EscalationPlan)
    → plan_for env candidate workspace_id c ≡ some plan
    → IsPlanned env candidate workspace_id c plan
unfolding plan_for made
plan_for-IsPlanned env candidate workspace_id c plan h =
    elim (Bool-cases (not (candidate.status == "unresolved") || not (involves candidate c))) [
      | inl passed ↦ ground (arith, passed, h)
      | inr concerned ↦ elim (Option-cases (severity_to_escalation candidate.severity)) [
        | inl low ↦ ground (arith, concerned, low, h)
        | inr (severity, graded) ↦
            elim (Option-cases (escalation_conflict_type candidate.conflict_type)) [
              | inl other ↦ ground (arith, concerned, graded, other, h)
              | inr (conflict_type, typed) ↦
                  let same : made env candidate workspace_id c severity conflict_type ≡ plan =
                    ground (arith, concerned, graded, typed, h) in
                  subst (λ (q : EscalationPlan). IsPlanned env candidate workspace_id c q) same
                    (made-IsPlanned env candidate workspace_id c severity conflict_type
                      (ground (arith, eq_iff candidate.status "unresolved", concerned))
                      (ground (arith, concerned)) graded typed)
            ]
      ]
    ]

-- A candidate that is a reason to review `c`.
abbrev pub asks : String → ConflictCandidate → Bool
asks c x =
    x.status == "unresolved"
    && involves x c
    && contains x.severity ("high" ∷ "medium" ∷ [])
    && contains x.conflict_type (
        "explicit_contradiction" ∷ "same_scope_opposing_claim" ∷ "explicit_counterfinding"
        ∷ "stale_current_tension" ∷ [])

ungraded :
    (s : String) → severity_to_escalation s ≡ none → contains s ("high" ∷ "medium" ∷ []) ≡ false
ungraded s h = ground (arith, h)

untyped :
    (t : String)
    → escalation_conflict_type t ≡ none
    → contains t (
        "explicit_contradiction" ∷ "same_scope_opposing_claim" ∷ "explicit_counterfinding"
        ∷ "stale_current_tension" ∷ [])
      ≡ false
untyped t h = ground (arith, h)

plan_for-asks :
    (env : TtlEnvironment) (x : ConflictCandidate) (workspace_id c : String)
    → plan_for env x workspace_id c ≡ none
    → asks c x ≡ false
unfolding plan_for
plan_for-asks env x workspace_id c h = elim (Option-cases (severity_to_escalation x.severity)) [
  | inl low ↦ let no = ungraded x.severity low in ground (arith, no)
  | inr (severity, graded) ↦ elim (Option-cases (escalation_conflict_type x.conflict_type)) [
    | inl other ↦ let no = untyped x.conflict_type other in ground (arith, no)
    | inr (conflict_type, typed) ↦
        elim (Bool-cases (not (x.status == "unresolved") || not (involves x c))) [
          | inl passed ↦ ground (arith, passed)
          | inr concerned ↦ ground (arith, concerned, graded, typed, h)
        ]
  ]
]

-- The plan of a candidate, the first in its list that asks for a review of `c`.
abbrev pub IsChosen :
    TtlEnvironment → List ConflictCandidate → String → String → EscalationPlan → Type 0
IsChosen env candidates workspace_id c plan =
    (before after : List ConflictCandidate) × (candidate : ConflictCandidate) × (candidates
      ≡ before ++ candidate ∷ after)
    × All (λ (x : ConflictCandidate). asks c x ≡ false) before
    × IsPlanned env candidate workspace_id c plan

-- Either no candidate is unresolved, concerns the content and has a high or medium severity and one of
-- the four types that are escalated, and there is no plan; or there is a plan, and it is that of the
-- first such candidate in the order given: it names its candidate, gives a high severity thirty days
-- and a medium one seven, or what the environment says, and never names the content itself as the
-- counterpart.
pub plan_escalation_for_content_first :
    (env : TtlEnvironment) (candidates : List ConflictCandidate) (workspace_id c : String)
    → ((plan_escalation_for_content env candidates workspace_id c ≡ none)
        × All (λ (x : ConflictCandidate). asks c x ≡ false) candidates)
      ⊎ ((plan : EscalationPlan) × (plan_escalation_for_content env candidates workspace_id c
            ≡ some plan)
          × IsChosen env candidates workspace_id c plan)
unfolding plan_escalation_for_content
plan_escalation_for_content_first env [] workspace_id c = inl (refl, tt)
plan_escalation_for_content_first env (x ∷ candidates) workspace_id c =
    elim (Option-cases (plan_for env x workspace_id c)) [
      | inr (plan, found) ↦ inr (
        plan,
        rw (found, plan_escalation_for_content) refl,
        ([], candidates, x, refl, tt, plan_for-IsPlanned env x workspace_id c plan found),
      )
      | inl passed ↦
          let no = plan_for-asks env x workspace_id c passed in
          elim (plan_escalation_for_content_first env candidates workspace_id c) [
            | inl (empty, all) ↦ inl (rw (passed, plan_escalation_for_content) empty, (no, all))
            | inr (plan, planned, first) ↦
                let (before, after, y, split, all, is_planned) = first in
                inr (
                  plan,
                  rw (passed, plan_escalation_for_content) planned,
                  (
                    x ∷ before,
                    after,
                    y,
                    ap (λ (l : List ConflictCandidate). x ∷ l) split,
                    (no, all),
                    is_planned,
                  ),
                )
          ]
    ]
