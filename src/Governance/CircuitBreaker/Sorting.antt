-- ===== src/Governance/CircuitBreaker/Sorting.antt =====
-- Sorting the events changes neither how many pass a test nor what holds of all.
use context_brain_memory_lab.Prelude.{
  ◌≡◌, refl, ◌∙◌, Bool, List, [], ◌∷◌, arith, leb, tally, All, Bool-cases, inl, inr,
}
use context_brain_memory_lab.Governance.CircuitBreaker.{
  CircuitBreakerEvent, insert_event, sort_events,
}

tally-insert_event :
    (p : CircuitBreakerEvent → Bool) (e : CircuitBreakerEvent) (es : List CircuitBreakerEvent)
    → tally p (insert_event e es) ≡ tally p (e ∷ es)
unfolding insert_event
tally-insert_event p e [] = refl
tally-insert_event p e (f ∷ fs) = ground (arith, tally-insert_event p e fs)

pub tally-sort_events :
    (p : CircuitBreakerEvent → Bool) (es : List CircuitBreakerEvent)
    → tally p (sort_events es) ≡ tally p es
unfolding sort_events
tally-sort_events p [] = refl
tally-sort_events p (e ∷ es) =
    tally-insert_event p e (sort_events es) ∙ (ground (arith, tally-sort_events p es))

module _ (P : CircuitBreakerEvent → Type 0) where
  All-insert_event :
      (e : CircuitBreakerEvent) (es : List CircuitBreakerEvent)
      → P e
      → All P es
      → All P (insert_event e es)
  unfolding insert_event
  All-insert_event e [] h hs = (h, tt)
  All-insert_event e (f ∷ fs) h hs = elim (Bool-cases (leb e.timestamp f.timestamp)) [
    | inl first ↦ rw first (h, hs)
    | inr later ↦ rw later (hs.0, All-insert_event e fs h hs.1)
  ]

  pub All-sort_events : (es : List CircuitBreakerEvent) → All P es → All P (sort_events es)
  unfolding sort_events
  All-sort_events [] h = tt
  All-sort_events (e ∷ es) h = All-insert_event e (sort_events es) h.0 (All-sort_events es h.1)
