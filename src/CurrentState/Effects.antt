-- ===== src/CurrentState/Effects.antt =====
-- What a request leaves alone: a request without an identity, and a request made twice.
use context_brain_memory_lab.Prelude.{
  ℕ, ◌≡◌, refl, sym, ap, subst, ◌∙◌, String, Bool, true, false, Option, none, some, List, [], ◌∷◌,
  map, arith, Option-cases, Bool-cases, inl, inr,
}
use text.Mathlib.Text.{◌==◌}
use text.Mathlib.TextPositions.{eq_refl}
use context_brain_memory_lab.CurrentState.Tables.{
  AnchorRow, ItemRow, StateTables, StateKey, find_same, previous_anchor, supersede, group_item,
  promote_item,
}
use context_brain_memory_lab.CurrentState.Resolver.{
  ScopeResolution, ScopePipeline, ResolveRequest, CurrentStateResolution, check_request, noop,
  grouped, active, new_anchor, content_of, retire, replace_anchor, resolve_identity, key_of,
  text_of, present, resolve_current_state_after_ingest,
}
use context_brain_memory_lab.CurrentState.Updates.{check_request-noop}

-- The columns of an item that say what is current.
abbrev pub standing : ItemRow → Option Bool × Option String × Option String
standing i = (i.is_current, i.state_identity, i.cs_supersedes_content_id)

standing-group_item :
    (scope c : String) (items : List ItemRow)
    → map standing (group_item scope c items) ≡ map standing items
unfolding group_item
standing-group_item scope c [] = refl
standing-group_item scope c (i ∷ items) = elim (Bool-cases (i.content_id == c)) [
  | inl own ↦ rw own (ap (λ l. standing i ∷ l) (standing-group_item scope c items))
  | inr other ↦ rw other (ap (λ l. standing i ∷ l) (standing-group_item scope c items))
]

check_request-none :
    (r : ResolveRequest) (x : CurrentStateResolution)
    → check_request r ≡ some x
    → x.supersedes_content_id ≡ none
unfolding check_request noop
check_request-none r x h = ground (arith, h)

-- A request without an identity never makes content current nor supersedes any: it always ends, and
-- leaves all anchors, and for every content whether it is current, its identity and what it
-- supersedes, as they were.
pub resolve-unnamed :
    (anchor_id : String) (now : ℕ) (resolve_scope : ScopePipeline) (r : ResolveRequest)
    (t : StateTables)
    → present r.state_identity ≡ false
    → (t' : StateTables) × (response : CurrentStateResolution) × (resolve_current_state_after_ingest
          anchor_id now resolve_scope r t
        ≡ some (t', response))
      × (t'.anchors ≡ t.anchors)
      × (map standing t'.items ≡ map standing t.items)
      × (response.supersedes_content_id ≡ none)
unfolding resolve_current_state_after_ingest grouped
resolve-unnamed anchor_id now resolve_scope r t bare = elim (Option-cases (check_request r)) [
  | inr (refusal, refused) ↦ (
    t,
    refusal,
    rw (refused, resolve_current_state_after_ingest) refl,
    refl,
    refl,
    check_request-none r refusal refused,
  )
  | inl accepted ↦ (
    record t { items = group_item (resolve_scope t.anchors).scope (text_of r.content_id) t.items },
    grouped (resolve_scope t.anchors) (key_of r) (text_of r.content_id),
    rw (accepted, bare, resolve_current_state_after_ingest) refl,
    refl,
    standing-group_item (resolve_scope t.anchors).scope (text_of r.content_id) t.items,
    refl,
  )
]

-- A write of the content over another one of the same key only sets the scope.
promote_item-promote_item :
    (scope other identity : String) (supersedes_id : Option String) (c : String)
    (items : List ItemRow)
    → promote_item other identity supersedes_id c
        (promote_item scope identity supersedes_id c items)
      ≡ group_item other c (promote_item scope identity supersedes_id c items)
unfolding promote_item group_item
promote_item-promote_item scope other identity supersedes_id c [] = refl
promote_item-promote_item scope other identity supersedes_id c (i ∷ items) =
    let rest = promote_item-promote_item scope other identity supersedes_id c items in
    elim (Bool-cases (i.content_id == c)) [
      | inl own ↦ rw (own, own, rest) refl
      | inr differs ↦ rw (differs, differs, rest) refl
    ]

find_same-new_anchor :
    (anchor_id : String) (now : ℕ) (scope : ScopeResolution) (k : StateKey) (c set_by : String)
    (supersedes_id : Option String) (anchors : List AnchorRow)
    → find_same k c (new_anchor anchor_id now scope k c supersedes_id set_by ∷ anchors)
      ≡ some (new_anchor anchor_id now scope k c supersedes_id set_by)
unfolding find_same new_anchor
find_same-new_anchor anchor_id now scope k c set_by supersedes_id anchors =
    rw (eq_refl k.workspace_id, eq_refl k.memory_type, eq_refl k.state_identity, eq_refl c) refl

-- The answer to a request that finds its anchor there, under the scope that it has by then.
abbrev pub repeated : ScopeResolution → CurrentStateResolution → CurrentStateResolution
repeated scope r = record r {
  reason = "idempotent_active_anchor";
  idempotent = true;
  current_state_scope = some scope.scope;
  scope_source = some scope.source;
}

-- The tables with the scope of one content set.
abbrev pub rescoped : ScopeResolution → String → StateTables → StateTables
rescoped scope c t = record t { items = group_item scope.scope c t.items }

found_again :
    ScopeResolution
    → StateKey
    → String
    → AnchorRow
    → StateTables
    → StateTables × CurrentStateResolution
found_again scope k c a t = (
  record t { items = promote_item scope.scope k.state_identity a.supersedes_content_id c t.items },
  active "idempotent_active_anchor" scope k c a.anchor_id a.supersedes_content_id true,
)

resolve_identity-found :
    (anchor_id : String) (now : ℕ) (scope : ScopeResolution) (k : StateKey) (c set_by : String)
    (t : StateTables) (a : AnchorRow)
    → find_same k c t.anchors ≡ some a
    → resolve_identity anchor_id now scope k c set_by t ≡ some (found_again scope k c a t)
unfolding resolve_identity found_again
resolve_identity-found anchor_id now scope k c set_by t a found = rw (found, resolve_identity) refl

resolve_identity-fresh :
    (anchor_id : String) (now : ℕ) (scope : ScopeResolution) (k : StateKey) (c set_by : String)
    (t t' : StateTables) (response : CurrentStateResolution)
    → find_same k c t.anchors ≡ none
    → resolve_identity anchor_id now scope k c set_by t ≡ some (t', response)
    → replace_anchor anchor_id now scope k c set_by t ≡ (t', response)
unfolding resolve_identity
resolve_identity-fresh anchor_id now scope k c set_by t t' response fresh h =
    ground (arith, fresh, h)

-- A write of the content that repeats the last one sets its scope, and nothing else.
found_again-again :
    (scope other : ScopeResolution) (k : StateKey) (c : String) (a : AnchorRow)
    (anchors : List AnchorRow) (items : List ItemRow) (response : CurrentStateResolution)
    → repeated other response
      ≡ active "idempotent_active_anchor" other k c a.anchor_id a.supersedes_content_id true
    → let t : StateTables = record {
      anchors = anchors;
      items = promote_item scope.scope k.state_identity a.supersedes_content_id c items;
    } in
      found_again other k c a t ≡ (rescoped other c t, repeated other response)
unfolding found_again
found_again-again scope other k c a anchors items response said =
    rw
      (
        promote_item-promote_item scope.scope other.scope k.state_identity a.supersedes_content_id c
            items,
        said,
      )
      refl

-- The second answer, of the tables and the response that the first one left.
Repeats :
    String
    → ℕ
    → ScopeResolution
    → StateKey
    → String
    → String
    → StateTables × CurrentStateResolution
    → Type 0
Repeats other_id later other k c set_by q =
    resolve_identity other_id later other k c set_by q.0
    ≡ some (rescoped other c q.0, repeated other q.1)

resolve_identity-again :
    (anchor_id other_id : String) (now later : ℕ) (scope other : ScopeResolution) (k : StateKey)
    (c set_by : String) (t t' : StateTables) (response : CurrentStateResolution)
    → resolve_identity anchor_id now scope k c set_by t ≡ some (t', response)
    → resolve_identity other_id later other k c set_by t'
      ≡ some (rescoped other c t', repeated other response)
unfolding found_again replace_anchor active new_anchor Repeats
resolve_identity-again anchor_id other_id now later scope other k c set_by t t' response h =
    elim (Option-cases (find_same k c t.anchors)) [
      | inr (a, found) ↦
          let first = resolve_identity-found anchor_id now scope k c set_by t a found in
          let pair : found_again scope k c a t ≡ (t', response) = cc in
          subst (Repeats other_id later other k c set_by) pair (
            resolve_identity-found other_id later other k c set_by (found_again scope k c a t).0 a
              found
            ∙ ap (λ (q : StateTables × CurrentStateResolution). some q)
                (found_again-again scope other k c a t.anchors t.items (found_again scope k c a t).1
                  refl))
      | inl fresh ↦
          let pair = resolve_identity-fresh anchor_id now scope k c set_by t t' response fresh h in
          let supersedes_id = content_of (previous_anchor k t.anchors) in
          let a = new_anchor anchor_id now scope k c supersedes_id set_by in
          let done = replace_anchor anchor_id now scope k c set_by t in
          subst (Repeats other_id later other k c set_by) pair (
            resolve_identity-found other_id later other k c set_by done.0 a (
              find_same-new_anchor anchor_id now scope k c set_by supersedes_id
                (supersede k c t.anchors))
            ∙ ap (λ (q : StateTables × CurrentStateResolution). some q)
                (found_again-again scope other k c a done.0.anchors
                  (retire scope.scope supersedes_id t.items) done.1 refl))
    ]

-- The resolver is idempotent for the content that is current. A request with an identity that made its
-- content current, made once more on the tables it left, at any later time and whatever the scope
-- pipeline finds by then, writes no anchor and supersedes nothing: it sets the scope column of the
-- content, if that changed, and leaves all else as it is; and it repeats the response, with the scope
-- and its source as they are found then, marked as idempotent.
pub resolve-again :
    (anchor_id other_id : String) (now later : ℕ) (first second : ScopePipeline)
    (r : ResolveRequest) (t t' : StateTables) (response : CurrentStateResolution)
    → resolve_current_state_after_ingest anchor_id now first r t ≡ some (t', response)
    → response.status ≡ "active"
    → resolve_current_state_after_ingest other_id later second r t'
      ≡ some (
        rescoped (second t'.anchors) (text_of r.content_id) t',
        record response {
          reason = "idempotent_active_anchor";
          idempotent = true;
          current_state_scope = some (second t'.anchors).scope;
          scope_source = some (second t'.anchors).source;
        },
      )
unfolding resolve_current_state_after_ingest grouped
resolve-again anchor_id other_id now later first second r t t' response h is_active_now =
    elim (Option-cases (check_request r)) [
      | inr (refusal, refused) ↦
          let same : refusal ≡ response = ground (arith, refused, h) in
          let loud : (response.status == "active") ≡ true = rw is_active_now refl in
          let quiet : (response.status == "active") ≡ false =
            ap (λ (q : CurrentStateResolution). q.status == "active") (sym same)
            ∙ check_request-noop r refusal refused in
          cc
      | inl accepted ↦ elim (Bool-cases (present r.state_identity)) [
        | inl named ↦
            rw (accepted, named, resolve_current_state_after_ingest)
              (resolve_identity-again anchor_id other_id now later (first t.anchors)
                (second t'.anchors) (key_of r) (text_of r.content_id) r.set_by t t' response
                (rw (accepted, named, resolve_current_state_after_ingest) at h))
        | inr bare ↦
            let same : grouped (first t.anchors) (key_of r) (text_of r.content_id) ≡ response =
              ground (arith, accepted, bare, h) in
            let loud : (response.status == "active") ≡ true = rw is_active_now refl in
            let quiet : (response.status == "active") ≡ false =
              ap (λ (q : CurrentStateResolution). q.status == "active") (sym same) in
            cc
      ]
    ]
