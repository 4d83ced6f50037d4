-- ===== src/Prelude/Slices.antt =====
-- Prefixes and suffixes of a list.
use Prim.Native.Nat.{ℕ, zero, suc, ◌+◌, ◌-◌, ◌≤◌}
use mathlib.Core.Path.{◌≡◌, refl, ap, ◌∙◌}
use mathlib.Core.List.{List, [], ◌∷◌, ◌++◌}
use native.Mathlib.Nat.{suc-add}
use native.Mathlib.Omega.{arith}
use context_brain_memory_lab.Prelude.Lists.{length, take, drop}

module _ {ℓ} {A : Type ℓ} where
  pub take-nil : (m : ℕ) → take {A = A} m [] ≡ []
  take-nil zero = refl
  take-nil (suc m) = refl

  pub drop-nil : (m : ℕ) → drop {A = A} m [] ≡ []
  drop-nil zero = refl
  drop-nil (suc m) = refl

  pub take-add-drop : (k m : ℕ) (xs : List A) → take (k + m) xs ≡ take k xs ++ take m (drop k xs)
  take-add-drop zero m xs = ap (λ j. take j xs) (omega arith)
  take-add-drop (suc k) m [] = take-nil (suc k + m) ∙ (rw (take-nil m) refl)
  take-add-drop (suc k) m (x ∷ xs) = rw suc-add (ap (λ l. x ∷ l) (take-add-drop k m xs))

  pub drop-take : (k m : ℕ) (xs : List A) → drop k (take (k + m) xs) ≡ take m (drop k xs)
  drop-take zero m xs = ap (λ j. take j xs) (omega arith)
  drop-take (suc k) m [] = rw (take-nil (suc k + m), take-nil m) refl
  drop-take (suc k) m (x ∷ xs) = rw suc-add (drop-take k m xs)

  pub take_le : (m p : ℕ) (xs : List A) → m ≤ p → take m (take p xs) ≡ take m xs
  take_le zero p xs h = refl
  take_le (suc m) zero xs h = absurd (omega arith)
  take_le (suc m) (suc p) [] h = refl
  take_le (suc m) (suc p) (x ∷ xs) h = ap (λ l. x ∷ l) (take_le m p xs (omega arith))

  pub take_all : (n : ℕ) (xs : List A) → length xs ≤ n → take n xs ≡ xs
  take_all zero [] h = refl
  take_all zero (x ∷ xs) h = absurd (omega arith)
  take_all (suc n) [] h = refl
  take_all (suc n) (x ∷ xs) h = ap (λ l. x ∷ l) (take_all n xs (omega arith))

  pub drop-drop : (k m : ℕ) (xs : List A) → drop k (drop m xs) ≡ drop (m + k) xs
  drop-drop k zero xs = ap (λ j. drop j xs) (omega arith)
  drop-drop k (suc m) [] = drop-nil k ∙ (rw (drop-nil (suc m + k)) refl)
  drop-drop k (suc m) (x ∷ xs) = rw suc-add (drop-drop k m xs)

  -- A prefix, extended by the slice that follows it.
  pub take-append-slice :
      (e f : ℕ) (xs : List A) → e ≤ f → take e xs ++ take (f - e) (drop e xs) ≡ take f xs
  take-append-slice e f xs h =
      let split : f ≡ e + (f - e) = omega arith in
      rw (← take-add-drop e (f - e) xs) (ap (λ j. take j xs) (omega arith))
