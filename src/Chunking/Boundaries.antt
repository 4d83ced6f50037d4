-- ===== src/Chunking/Boundaries.antt =====
-- `_boundary_candidates`: the five regular expressions, each as the length of its match at the
-- head of a text (0 for no match), and `re.finditer` over them.
use context_brain_memory_lab.Prelude.{
  ℕ, zero, suc, ◌+◌, ◌-◌, ◌≡◌, refl, String, Bool, ◌||◌, List, [], ◌∷◌, ◌++◌, map, take, drop,
  nat_eqb, if◌then◌else◌, All, ◌≢◌, arith, false,
}
use context_brain_memory_lab.Prelude.Text.{Text, codes, is_space}

-- The length of the longest prefix that passes the test.
unfoldable pub span : (ℕ → Bool) → Text → ℕ
span p [] = 0
span p (c ∷ s) = let rest = span p s in if p c then suc rest else 0

-- The end of the last newline of a text, 0 if it has none.
unfoldable pub last_newline_end : Text → ℕ
last_newline_end [] = 0
last_newline_end (c ∷ s) =
    let later = last_newline_end s in
    if nat_eqb later 0 then (if nat_eqb c b'\n' then 1 else 0) else suc later

-- `re.finditer`: the spans of the matches, from the left, each search going on behind the last.
-- `skip` counts the characters that the last match still covers.
unfoldable pub find_iter : (Text → ℕ) → ℕ → ℕ → Text → List (ℕ × ℕ)
find_iter match_at skip pos [] = []
find_iter match_at (suc skip) pos (c ∷ s) = find_iter match_at skip (pos + 1) s
find_iter match_at zero pos (c ∷ s) =
    let len = match_at (c ∷ s) in
    let rest = find_iter match_at (len - 1) (pos + 1) s in
    if nat_eqb len 0 then rest else (pos, pos + len) ∷ rest

-- \n
unfoldable pub match_newline : Text → ℕ
match_newline [] = 0
match_newline (c ∷ s) = if nat_eqb c b'\n' then 1 else 0

-- \s+
unfoldable pub match_spaces : Text → ℕ
unfolding span is_space
match_spaces s = span is_space s

-- \n\s*\n+ : `\s*` takes the whole run of white space and gives back what stands from its last
-- newline on.
unfoldable pub match_paragraph : Text → ℕ
unfolding span is_space last_newline_end
match_paragraph [] = 0
match_paragraph (c ∷ s) =
    let inner = last_newline_end (take (span is_space s) s) in
    if nat_eqb c b'\n' then (if nat_eqb inner 0 then 0 else suc inner) else 0

-- (?:[.!?]\s+|[。！？])
unfoldable pub match_sentence : Text → ℕ
unfolding span is_space
match_sentence [] = 0
match_sentence (c ∷ s) =
    let blanks = span is_space s in
    if nat_eqb c b'.' || nat_eqb c b'!' || nat_eqb c b'?'
    then (if nat_eqb blanks 0 then 0 else suc blanks)
    else if nat_eqb c 0x3002 || nat_eqb c 0xff01 || nat_eqb c 0xff1f
    then 1
    else 0

-- [-*]|\d+[.]
unfoldable pub match_marker : (ℕ → Bool) → Text → ℕ
unfolding span
match_marker is_decimal [] = 0
match_marker is_decimal (c ∷ s) =
    let digits = span is_decimal (c ∷ s) in
    if nat_eqb c b'-' || nat_eqb c b'*'
    then 1
    else if nat_eqb digits 0
    then 0
    else elim (drop digits (c ∷ s)) [ [] ↦ 0 | d ∷ _ ↦ if nat_eqb d b'.' then suc digits else 0 ]

-- \n\s*(?:[-*]|\d+[.])\s+
unfoldable pub match_list : (ℕ → Bool) → Text → ℕ
unfolding span is_space match_marker
match_list is_decimal [] = 0
match_list is_decimal (c ∷ s) =
    let blanks = span is_space s in
    let marker = match_marker is_decimal (drop blanks s) in
    let after = span is_space (drop marker (drop blanks s)) in
    if nat_eqb c b'\n'
    then (if nat_eqb marker 0 || nat_eqb after 0 then 0 else suc (blanks + marker + after))
    else 0

pub record Boundary : Type 0 where
  pub position : ℕ
  pub reason : String
  pub priority : ℕ

abbrev at_end : ℕ → String → ℕ → ℕ × ℕ → Boundary
at_end start reason priority (from, to) = record {
  position = start + to;
  reason = reason;
  priority = priority;
}

abbrev at_start : ℕ → String → ℕ → ℕ × ℕ → Boundary
at_start start reason priority (from, to) = record {
  position = start + from;
  reason = reason;
  priority = priority;
}

unfoldable pub boundary_candidates : (ℕ → Bool) → Text → ℕ → ℕ → List Boundary
unfolding find_iter match_paragraph match_newline match_sentence match_list match_spaces
boundary_candidates is_decimal text start max_pos =
    let window = take (max_pos - start) (drop start text) in
    map (at_end start "paragraph_boundary" 1) (find_iter match_paragraph 0 0 window)
    ++ (map (at_end start "newline_boundary" 2) (find_iter match_newline 0 0 window)
        ++ (map (at_end start "sentence_boundary" 3) (find_iter match_sentence 0 0 window)
            ++ (map (at_start start "list_boundary" 4)
                  (find_iter (match_list is_decimal) 0 0 window)
                ++ map (at_end start "whitespace_boundary" 5) (find_iter match_spaces 0 0 window))))

-- `text.replace("\r\n", "\n")`
unfoldable pub replace_crlf : Text → Text
replace_crlf [] = []
replace_crlf (c ∷ []) = c ∷ []
replace_crlf (c ∷ d ∷ s) =
    let joined = b'\n' ∷ replace_crlf s in
    let kept = c ∷ replace_crlf (d ∷ s) in
    if nat_eqb c b'\r' then (if nat_eqb d b'\n' then joined else kept) else kept

abbrev cr_to_lf : ℕ → ℕ
cr_to_lf c = if nat_eqb c b'\r' then b'\n' else c

unfoldable pub normalize_line_endings : Text → Text
unfolding replace_crlf
normalize_line_endings text = map cr_to_lf (replace_crlf text)

normalize_mixed : normalize_line_endings (codes "a\r\nb\rc\n") ≡ codes "a\nb\nc\n"
unfolding normalize_line_endings codes
normalize_mixed = refl

paragraph_spans : find_iter match_paragraph 0 0 (codes "a\n \n\nb\nc\n\nd") ≡ (1, 5) ∷ (8, 10) ∷ []
unfolding find_iter match_paragraph codes
paragraph_spans = refl

list_spans :
    find_iter (match_list (λ c. false)) 0 0 (codes "a\n - x\n- \ny") ≡ (1, 5) ∷ (6, 10) ∷ []
unfolding find_iter match_list codes
list_spans = refl

-- The text without carriage returns is normal already.
pub normalize_id : (s : Text) → All (λ c. c ≢ b'\r') s → normalize_line_endings s ≡ s
unfolding normalize_line_endings
normalize_id [] h = refl
normalize_id (c ∷ []) h = ground arith
normalize_id (c ∷ d ∷ s) h = ground (arith, normalize_id (d ∷ s) h.1)
