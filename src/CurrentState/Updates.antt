-- ===== src/CurrentState/Updates.antt =====
-- One request to the resolver is one update of the map from keys to current content, or none.
use context_brain_memory_lab.Prelude.{
  ℕ, ◌≡◌, refl, sym, ap, subst, ◌∙◌, String, true, false, Option, none, some, arith, if◌then◌else◌,
  tally, Option-cases, Bool-cases, inl, inr,
}
use text.Mathlib.Text.{◌==◌}
use context_brain_memory_lab.CurrentState.Tables.{
  AnchorRow, StateTables, StateKey, is_active, find_same, previous_anchor, supersede, group_item,
  promote_item,
}
use context_brain_memory_lab.CurrentState.Resolver.{
  ScopeResolution, ScopePipeline, ResolveRequest, CurrentStateResolution, check_request, noop,
  grouped, active, new_anchor, content_of, replace_anchor, resolve_identity, key_of, text_of,
  present, resolve_current_state_after_ingest,
}
use context_brain_memory_lab.CurrentState.Single.{IsSingle, tally-supersede, tally-supersede_other}
use context_brain_memory_lab.CurrentState.View.{
  current_in, key_eqb, note, key_eqb→eq, key_differs, note-active, current_in-supersede,
  current_in-find_same,
}

-- One request is one update of the map, or none.
pub record IsUpdated (t t' : StateTables) (r : CurrentStateResolution) : Type 0 where
  pub single : IsSingle t'
  pub view : (j : StateKey) → current_in t'.anchors j ≡ note r (current_in t.anchors) j

unchanged :
    (t t' : StateTables) (r : CurrentStateResolution)
    → IsSingle t
    → t'.anchors ≡ t.anchors
    → (r.status == "active") ≡ false
    → IsUpdated t t' r
unchanged t t' r single same quiet = record {
  single = λ k. rw same (single k);
  view = λ j. rw (same, quiet) refl;
}

pub check_request-noop :
    (r : ResolveRequest) (x : CurrentStateResolution)
    → check_request r ≡ some x
    → (x.status == "active") ≡ false
unfolding check_request noop
check_request-noop r x h = let status : x.status ≡ "noop" = ground (arith, h) in rw status refl

same-IsUpdated :
    (scope : ScopeResolution) (k : StateKey) (c : String) (t t' : StateTables) (a : AnchorRow)
    → IsSingle t
    → t'.anchors ≡ t.anchors
    → find_same k c t.anchors ≡ some a
    → IsUpdated t t'
        (active "idempotent_active_anchor" scope k c a.anchor_id a.supersedes_content_id true)
same-IsUpdated scope k c t t' a single same found = record {
  single = λ j. rw same (single j);
  view = λ j. rw same (elim (Bool-cases (key_eqb k j)) [
    | inl own ↦
        subst (λ (q : StateKey). current_in t.anchors q ≡ some c) (key_eqb→eq k j own)
          (current_in-find_same k c t.anchors a (single k) found)
        ∙ sym (
            note-active "idempotent_active_anchor" scope k j c a.anchor_id a.supersedes_content_id
              true (current_in t.anchors)
            ∙ rw own refl)
    | inr other ↦ sym (
        note-active "idempotent_active_anchor" scope k j c a.anchor_id a.supersedes_content_id true
          (current_in t.anchors)
        ∙ rw other refl)
  ]);
}

new_anchor-active :
    (anchor_id : String) (now : ℕ) (scope : ScopeResolution) (k j : StateKey) (c : String)
    (supersedes_id : Option String) (set_by : String)
    → is_active j (new_anchor anchor_id now scope k c supersedes_id set_by) ≡ key_eqb k j
unfolding new_anchor
new_anchor-active anchor_id now scope k j c supersedes_id set_by = ground arith

module _ (anchor_id : String) (now : ℕ) (scope : ScopeResolution) (k : StateKey) (c set_by : String)
    (t : StateTables) (single : IsSingle t) (fresh : find_same k c t.anchors ≡ none) where
  replaced-IsSingle : IsSingle (replace_anchor anchor_id now scope k c set_by t).0
  unfolding replace_anchor
  replaced-IsSingle j =
      let a =
        new_anchor-active anchor_id now scope k j c (content_of (previous_anchor k t.anchors))
          set_by in
      elim (Bool-cases (key_eqb k j)) [
        | inl own ↦
            let id = key_eqb→eq k j own in
            let rest =
              subst (λ (q : StateKey). tally (is_active q) (supersede k c t.anchors) ≡ 0) id
                (tally-supersede k c t.anchors fresh) in
            ground (arith, a, own, rest)
        | inr other ↦
            let rest = tally-supersede_other k j c t.anchors (key_differs k j other) in
            let old = single j in ground (arith, a, other, rest, old)
      ]

  replaced-view :
      (j : StateKey)
      → current_in (replace_anchor anchor_id now scope k c set_by t).0.anchors j
        ≡ (if key_eqb k j then some c else current_in t.anchors j)
  unfolding replace_anchor new_anchor
  replaced-view j =
      let a =
        new_anchor-active anchor_id now scope k j c (content_of (previous_anchor k t.anchors))
          set_by in
      elim (Bool-cases (key_eqb k j)) [
        | inl own ↦ ground (arith, a, own)
        | inr other ↦
            let rest = current_in-supersede k j c t.anchors (key_differs k j other) in
            ground (arith, a, other, rest)
      ]

replace-IsUpdated :
    (anchor_id : String) (now : ℕ) (scope : ScopeResolution) (k : StateKey) (c set_by : String)
    (t : StateTables)
    → IsSingle t
    → find_same k c t.anchors ≡ none
    → IsUpdated t
        (replace_anchor anchor_id now scope k c set_by t).0
        (replace_anchor anchor_id now scope k c set_by t).1
unfolding replace_anchor
replace-IsUpdated anchor_id now scope k c set_by t single fresh = record {
  single = replaced-IsSingle anchor_id now scope k c set_by t single fresh;
  view = λ j.
      replaced-view anchor_id now scope k c set_by t single fresh j
      ∙ sym (
          note-active "resolved_current_state" scope k j c anchor_id
            (content_of (previous_anchor k t.anchors)) false (current_in t.anchors));
}

resolve_identity-IsUpdated :
    (anchor_id : String) (now : ℕ) (scope : ScopeResolution) (k : StateKey) (c set_by : String)
    (t t' : StateTables) (response : CurrentStateResolution)
    → IsSingle t
    → resolve_identity anchor_id now scope k c set_by t ≡ some (t', response)
    → IsUpdated t t' response
unfolding resolve_identity
resolve_identity-IsUpdated anchor_id now scope k c set_by t t' response single h =
    elim (Option-cases (find_same k c t.anchors)) [
      | inr (a, found) ↦
          let tables : record t {
            items = promote_item scope.scope k.state_identity a.supersedes_content_id c t.items;
          }
              ≡ t' =
            ground (arith, found, h) in
          let said : active "idempotent_active_anchor" scope k c a.anchor_id a.supersedes_content_id
                true
              ≡ response =
            ground (arith, found, h) in
          subst (λ (q : CurrentStateResolution). IsUpdated t t' q) said
            (same-IsUpdated scope k c t t' a single
              (sym (ap (λ (q : StateTables). q.anchors) tables)) found)
      | inl fresh ↦
          let done : replace_anchor anchor_id now scope k c set_by t ≡ (t', response) =
            ground (arith, fresh, h) in
          subst (λ (q : StateTables × CurrentStateResolution). IsUpdated t q.0 q.1) done
            (replace-IsUpdated anchor_id now scope k c set_by t single fresh)
    ]

pub resolve-IsUpdated :
    (anchor_id : String) (now : ℕ) (resolve_scope : ScopePipeline) (r : ResolveRequest)
    (t t' : StateTables) (response : CurrentStateResolution)
    → IsSingle t
    → resolve_current_state_after_ingest anchor_id now resolve_scope r t ≡ some (t', response)
    → IsUpdated t t' response
unfolding resolve_current_state_after_ingest grouped
resolve-IsUpdated anchor_id now resolve_scope r t t' response single h =
    elim (Option-cases (check_request r)) [
      | inr (refusal, refused) ↦
          let same : t ≡ t' = ground (arith, refused, h) in
          let said : refusal ≡ response = ground (arith, refused, h) in
          unchanged t t' response single (sym (ap (λ (q : StateTables). q.anchors) same)) (
            ap (λ (q : CurrentStateResolution). q.status == "active") (sym said)
            ∙ check_request-noop r refusal refused)
      | inl accepted ↦ elim (Bool-cases (present r.state_identity)) [
        | inl named ↦
            resolve_identity-IsUpdated anchor_id now (resolve_scope t.anchors) (key_of r)
              (text_of r.content_id) r.set_by t t' response single
              (rw (accepted, named, resolve_current_state_after_ingest) at h)
        | inr bare ↦
            let tables : record t {
              items = group_item (resolve_scope t.anchors).scope (text_of r.content_id) t.items;
            }
                ≡ t' =
              ground (arith, accepted, bare, h) in
            let said : grouped (resolve_scope t.anchors) (key_of r) (text_of r.content_id)
                ≡ response =
              ground (arith, accepted, bare, h) in
            unchanged t t' response single (sym (ap (λ (q : StateTables). q.anchors) tables))
              (ap (λ (q : CurrentStateResolution). q.status == "active") (sym said))
      ]
    ]
