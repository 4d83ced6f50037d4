-- ===== src/Prelude/Str.antt =====
-- Python's str as a whole: `strip` and truth of the native texts.
use Prim.Native.Char.{Char, code}
use Prim.Native.String.{String}
use mathlib.Core.Path.{◌≡◌, refl}
use mathlib.Core.Bool.{Bool, true, false}
use context_brain_memory_lab.Prelude.Tests.{if◌then◌else◌}
use context_brain_memory_lab.Prelude.Text.{is_space}

unfoldable pub lstrip : String → String
unfolding is_space
lstrip String.[] = String.[]
lstrip (String.◌∷◌ c s) = let rest = lstrip s in if is_space (code c) then rest else String.◌∷◌ c s

snoc_stripped : Char → String → String
unfolding is_space
snoc_stripped c String.[] = if is_space (code c) then String.[] else String.◌∷◌ c String.[]
snoc_stripped c (String.◌∷◌ d s) = String.◌∷◌ c (String.◌∷◌ d s)

unfoldable pub rstrip : String → String
unfolding snoc_stripped
rstrip String.[] = String.[]
rstrip (String.◌∷◌ c s) = snoc_stripped c (rstrip s)

unfoldable pub strip : String → String
unfolding lstrip rstrip
strip s = rstrip (lstrip s)

-- `bool(s)`
abbrev pub truthy : String → Bool
truthy String.[] = false
truthy (String.◌∷◌ c s) = true

strip_both_ends : strip "  a b \n" ≡ "a b"
unfolding strip
strip_both_ends = refl

-- `s + t`
infixr 65 ◌+++◌
abbrev pub ◌+++◌ : String → String → String
String.[] +++ t = t
String.◌∷◌ c s +++ t = String.◌∷◌ c (s +++ t)

-- A text that begins with no white space is not blank.
pub truthy-strip :
    (c : Char) (s : String) → is_space (code c) ≡ false → truthy (strip (String.◌∷◌ c s)) ≡ true
unfolding strip
truthy-strip c s h = rw h (go (rstrip s))
  where
    go : (t : String) → truthy (snoc_stripped c t) ≡ true
    go String.[] = rw h refl
    go (String.◌∷◌ d t) = refl
