-- ===== src/CurrentState/Refines.antt =====
-- The resolver refines a map from keys to current content.
use context_brain_memory_lab.Prelude.{
  ℕ, ◌≡◌, refl, sym, subst, ◌∙◌, String, none, some, List, [], ◌∷◌, Option-cases, inl, inr,
}
use context_brain_memory_lab.CurrentState.Tables.{StateTables, StateKey}
use context_brain_memory_lab.CurrentState.Resolver.{
  ScopePipeline, ResolveRequest, CurrentStateResolution, resolve_current_state_after_ingest,
}
use context_brain_memory_lab.CurrentState.Single.{IsSingle}
use context_brain_memory_lab.CurrentState.View.{
  CurrentView, current_in, note, ResolveCall, run_calls, note_all,
}
use context_brain_memory_lab.CurrentState.Updates.{resolve-IsUpdated}

note_all_ext :
    (responses : List CurrentStateResolution) (v u : CurrentView)
    → ((j : StateKey) → v j ≡ u j)
    → (j : StateKey) → note_all responses v j ≡ note_all responses u j
unfolding note_all
note_all_ext [] v u same j = same j
note_all_ext (r ∷ responses) v u same j =
    note_all_ext responses (note r v) (note r u) (λ i. rw (same i) refl) j

-- The tables of a run have one active anchor per key at most, and its responses tell the map.
abbrev pub IsRefined : StateTables → StateTables × List CurrentStateResolution → Type 0
IsRefined t run =
    IsSingle run.0
    × ((j : StateKey) → current_in run.0.anchors j ≡ note_all run.1 (current_in t.anchors) j)

run_calls-raised :
    (anchor_id : String) (now : ℕ) (resolve_scope : ScopePipeline) (r : ResolveRequest)
    (calls : List ResolveCall) (t : StateTables)
    → resolve_current_state_after_ingest anchor_id now resolve_scope r t ≡ none
    → run_calls ((anchor_id, now, resolve_scope, r) ∷ calls) t ≡ run_calls calls t
unfolding run_calls
run_calls-raised anchor_id now resolve_scope r calls t raised = rw (raised, run_calls) refl

run_calls-went :
    (anchor_id : String) (now : ℕ) (resolve_scope : ScopePipeline) (r : ResolveRequest)
    (calls : List ResolveCall) (t t' : StateTables) (response : CurrentStateResolution)
    → resolve_current_state_after_ingest anchor_id now resolve_scope r t ≡ some (t', response)
    → run_calls ((anchor_id, now, resolve_scope, r) ∷ calls) t
      ≡ ((run_calls calls t').0, response ∷ (run_calls calls t').1)
unfolding run_calls
run_calls-went anchor_id now resolve_scope r calls t t' response went = rw (went, run_calls) refl

-- The resolver implements a map from keys to current content. From tables with one active anchor per
-- key at most, after any sequence of requests there is still one per key at most, and the content of
-- each key's active anchor is what the responses alone tell, read as updates of the map one after the
-- other.
pub run_calls_refines :
    (calls : List ResolveCall) (t : StateTables) → IsSingle t → IsRefined t (run_calls calls t)
unfolding run_calls note_all
run_calls_refines [] t single = (single, λ j. refl)
run_calls_refines ((anchor_id, now, resolve_scope, r) ∷ calls) t single =
    elim (Option-cases (resolve_current_state_after_ingest anchor_id now resolve_scope r t)) [
      | inl raised ↦
          subst (IsRefined t) (sym (run_calls-raised anchor_id now resolve_scope r calls t raised))
            (run_calls_refines calls t single)
      | inr ((t', response), went) ↦
          let step = resolve-IsUpdated anchor_id now resolve_scope r t t' response single went in
          let rest = run_calls_refines calls t' step.single in
          subst (IsRefined t)
            (sym (run_calls-went anchor_id now resolve_scope r calls t t' response went))
            (
              rest.0,
              λ j.
                  rest.1 j
                  ∙ note_all_ext (run_calls calls t').1 (current_in t'.anchors)
                      (note response (current_in t.anchors)) step.view j,
            )
    ]
