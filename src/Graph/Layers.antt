-- ===== src/Graph/Layers.antt =====
-- What the loops of the expansion add to the set and to the next layer.
use context_brain_memory_lab.Prelude.{
  ◌≡◌, refl, subst, String, true, List, [], ◌∷◌, arith, if◌then◌else◌, Bool-cases, inl, inr, ◌⊎◌,
}
use text.Mathlib.Text.{◌==◌}
use text.Mathlib.TextEquality.{eq_iff}
use text.Mathlib.TextPositions.{eq_refl}
use context_brain_memory_lab.Prelude.Names.{contains}
use context_brain_memory_lab.Graph.Expansion.{add_neighbors, visit}

abbrev pub State : Type 0
State = List String × List String

-- From one state to a later one: nothing is lost, what is new stands in the next layer, and the next
-- layer is part of the set.
pub record IsGrown (s t : State) : Type 0 where
  pub kept : (x : String) → contains x s.0 ≡ true → contains x t.0 ≡ true
  pub queued : (x : String) → contains x s.1 ≡ true → contains x t.1 ≡ true
  pub fresh :
      (x : String) → contains x t.0 ≡ true → (contains x t.1 ≡ true) ⊎ (contains x s.0 ≡ true)
  pub within :
      ((x : String) → contains x s.1 ≡ true → contains x s.0 ≡ true)
      → (x : String) → contains x t.1 ≡ true
      → contains x t.0 ≡ true

IsGrown-refl : (s : State) → IsGrown s s
IsGrown-refl s = record {
  kept = λ x h. h;
  queued = λ x h. h;
  fresh = λ x h. inr h;
  within = λ sub x h. sub x h;
}

IsGrown-trans : (s t u : State) → IsGrown s t → IsGrown t u → IsGrown s u
IsGrown-trans s t u f g = record {
  kept = λ x h. g.kept x (f.kept x h);
  queued = λ x h. g.queued x (f.queued x h);
  fresh = λ x h. elim (g.fresh x h) [
    | inl new ↦ inl new
    | inr old ↦ elim (f.fresh x old) [
      | inl queued ↦ inl (g.queued x queued)
      | inr older ↦ inr older
    ]
  ];
  within = λ sub. g.within (f.within sub);
}

IsGrown-by_one : (n : String) (e l : List String) → IsGrown (e, l) (n ∷ e, n ∷ l)
IsGrown-by_one n e l = record {
  kept = λ x h. ground (arith, h);
  queued = λ x h. ground (arith, h);
  fresh = λ x h. ground (arith, h);
  within = λ sub x h. elim (Bool-cases (x == n)) [
    | inl own ↦ ground (arith, own)
    | inr other ↦ let old = sub x (ground (arith, other, h)) in ground (arith, old)
  ];
}

add_one : (n : String) (s : State) → State
add_one n (e, l) = if contains n e then (e, l) else (n ∷ e, n ∷ l)

add_one-IsGrown : (n : String) (s : State) → IsGrown s (add_one n s)
unfolding add_one
add_one-IsGrown n (e, l) = elim (Bool-cases (contains n e)) [
  | inl old ↦ rw old (IsGrown-refl (e, l))
  | inr new ↦ rw new (IsGrown-by_one n e l)
]

add_neighbors-IsGrown : (ns : List String) (s : State) → IsGrown s (add_neighbors ns s)
unfolding add_neighbors add_one
add_neighbors-IsGrown [] (e, l) = IsGrown-refl (e, l)
add_neighbors-IsGrown (n ∷ ns) (e, l) =
    IsGrown-trans (e, l) (add_one n (e, l)) (add_neighbors ns (add_one n (e, l)))
      (add_one-IsGrown n (e, l)) (add_neighbors-IsGrown ns (add_one n (e, l)))

pub visit-IsGrown :
    (neighbors : String → List String) (layer : List String) (s : State)
    → IsGrown s (visit neighbors layer s)
unfolding visit
visit-IsGrown neighbors [] s = IsGrown-refl s
visit-IsGrown neighbors (t ∷ layer) s =
    IsGrown-trans s (add_neighbors (neighbors t) s)
      (visit neighbors layer (add_neighbors (neighbors t) s))
      (add_neighbors-IsGrown (neighbors t) s)
      (visit-IsGrown neighbors layer (add_neighbors (neighbors t) s))

-- All neighbours are added, and nothing else.
add_one-adds : (n : String) (s : State) → contains n (add_one n s).0 ≡ true
unfolding add_one
add_one-adds n (e, l) = ground (arith, eq_refl n)

add_one-only :
    (n x : String) (s : State)
    → contains x (add_one n s).0 ≡ true
    → (x ≡ n) ⊎ (contains x s.0 ≡ true)
unfolding add_one
add_one-only n x (e, l) h = ground (arith, h, eq_iff x n)

add_neighbors-adds :
    (x : String) (ns : List String) (s : State)
    → contains x ns ≡ true
    → contains x (add_neighbors ns s).0 ≡ true
unfolding add_neighbors add_one
add_neighbors-adds x [] s h = cc
add_neighbors-adds x (n ∷ ns) (e, l) h = elim (Bool-cases (x == n)) [
  | inl same ↦
      let equal : n ≡ x = ground (arith, eq_iff x n, same) in
      (add_neighbors-IsGrown ns (add_one n (e, l))).kept x (
        subst (λ (q : String). contains q (add_one n (e, l)).0 ≡ true) equal
          (add_one-adds n (e, l)))
  | inr other ↦ add_neighbors-adds x ns (add_one n (e, l)) (ground (arith, other, h))
]

add_neighbors-only :
    (x : String) (ns : List String) (s : State)
    → contains x (add_neighbors ns s).0 ≡ true
    → (contains x ns ≡ true) ⊎ (contains x s.0 ≡ true)
unfolding add_neighbors add_one
add_neighbors-only x [] (e, l) h = inr h
add_neighbors-only x (n ∷ ns) (e, l) h =
    let step = add_neighbors-only x ns (add_one n (e, l)) h in
    let one = add_one-only n x (e, l) in
    elim step [
      | inl later ↦ inl (ground (arith, later))
      | inr added ↦ elim (one added) [
        | inl own ↦ inl (rw (own, eq_refl n) refl)
        | inr old ↦ inr old
      ]
    ]

pub visit-adds :
    (neighbors : String → List String) (layer : List String) (s : State) (t x : String)
    → contains t layer ≡ true
    → contains x (neighbors t) ≡ true
    → contains x (visit neighbors layer s).0 ≡ true
unfolding visit
visit-adds neighbors [] s t x h near = cc
visit-adds neighbors (u ∷ layer) s t x h near = elim (Bool-cases (t == u)) [
  | inl same ↦
      let equal : t ≡ u = ground (arith, eq_iff t u, same) in
      let at = subst (λ (q : String). contains x (neighbors q) ≡ true) equal near in
      (visit-IsGrown neighbors layer (add_neighbors (neighbors u) s)).kept x
        (add_neighbors-adds x (neighbors u) s at)
  | inr other ↦
      visit-adds neighbors layer (add_neighbors (neighbors u) s) t x (ground (arith, other, h)) near
]

pub visit-only :
    (neighbors : String → List String) (layer : List String) (s : State) (x : String)
    → contains x (visit neighbors layer s).0 ≡ true
    → ((t : String) × (contains t layer ≡ true) × (contains x (neighbors t) ≡ true))
      ⊎ (contains x s.0 ≡ true)
unfolding visit
visit-only neighbors [] s x h = inr h
visit-only neighbors (u ∷ layer) s x h =
    elim (visit-only neighbors layer (add_neighbors (neighbors u) s) x h) [
      | inl (t, there, near) ↦ inl (t, ground (arith, there), near)
      | inr added ↦ elim (add_neighbors-only x (neighbors u) s added) [
        | inl near ↦ inl (u, rw (eq_refl u) refl, near)
        | inr old ↦ inr old
      ]
    ]
