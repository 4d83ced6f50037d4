-- ===== src/Prelude/Text.antt =====
-- Python's str as the code points that a program walks: white space and `strip`.
use Prim.Native.Char.{code}
use Prim.Native.String.{String}
use Prim.Native.Nat.{ℕ}
use mathlib.Core.Path.{◌≡◌, refl}
use mathlib.Core.Bool.{Bool, true, false, ◌&&◌, ◌||◌}
use native.Mathlib.Omega.{arith}
use mathlib.Core.List.{List, [], ◌∷◌}
use context_brain_memory_lab.Prelude.Tests.{leb, nat_eqb, if◌then◌else◌}

-- A text that the program walks: its code points.
abbrev pub Text : Type 0
Text = List ℕ

unfoldable pub codes : String → List ℕ
codes String.[] = []
codes (String.◌∷◌ c s) = code c ∷ codes s

-- `str.isspace` of one character: the code points that Unicode counts as white space, with the
-- separators 28 to 31. `\s` of a regular expression on `str` is the same test.
unfoldable pub is_space : ℕ → Bool
is_space c =
    (leb 9 c && leb c 13)
    || (leb 28 c && leb c 32)
    || nat_eqb c 133
    || nat_eqb c 160
    || nat_eqb c 5760
    || (leb 8192 c && leb c 8202)
    || nat_eqb c 8232
    || nat_eqb c 8233
    || nat_eqb c 8239
    || nat_eqb c 8287
    || nat_eqb c 12288

unfoldable pub lstrip : Text → Text
unfolding is_space
lstrip [] = []
lstrip (c ∷ s) = let rest = lstrip s in if is_space c then rest else c ∷ s

snoc_stripped : ℕ → Text → Text
unfolding is_space
snoc_stripped c [] = if is_space c then [] else c ∷ []
snoc_stripped c (d ∷ s) = c ∷ d ∷ s

unfoldable pub rstrip : Text → Text
unfolding snoc_stripped
rstrip [] = []
rstrip (c ∷ s) = snoc_stripped c (rstrip s)

-- `text.strip()`
unfoldable pub strip : Text → Text
unfolding lstrip rstrip
strip s = rstrip (lstrip s)

-- Equality of texts.
unfoldable pub text_eqb : Text → Text → Bool
text_eqb [] [] = true
text_eqb (c ∷ s) (d ∷ t) = nat_eqb c d && text_eqb s t
text_eqb _ _ = false

pub text_eqb_refl : (s : Text) → text_eqb s s ≡ true
unfolding text_eqb
text_eqb_refl [] = refl
text_eqb_refl (c ∷ s) = ground (arith, text_eqb_refl s)

pub text_eqb→eq : (s t : Text) → text_eqb s t ≡ true → s ≡ t
unfolding text_eqb
text_eqb→eq [] [] h = refl
text_eqb→eq [] (d ∷ t) h = cc
text_eqb→eq (c ∷ s) [] h = cc
text_eqb→eq (c ∷ s) (d ∷ t) h = ground (arith, text_eqb→eq s t)
