-- ===== src/Chunking/Identity.antt =====
-- `_chunk_id` and `_quality_flags`: what a chunk says of itself beside its text.
use context_brain_memory_lab.Prelude.{
  ℕ, zero, suc, ◌+◌, ◌-◌, ◌/◌, max, ◌≡◌, refl, String, ◌&&◌, not, List, [], ◌∷◌, ◌++◌, ltb,
  if◌then◌else◌, length, is_empty, take, tally,
}
use Prim.Native.Nat.{◌%◌}
use context_brain_memory_lab.Prelude.Text.{Text, codes, strip}
use context_brain_memory_lab.Chunking.Config.{ChunkerConfig, Platform}

-- The decimal digits of a number, in front of `acc`. A number has fewer digits than `n + 1`, so
-- that fuel is never used up.
unfoldable pub decimal_from : ℕ → ℕ → Text → Text
decimal_from zero n acc = acc
decimal_from (suc fuel) n acc =
    let digits = (b'0' + n % 10) ∷ acc in
    let more = decimal_from fuel (n / 10) digits in if ltb n 10 then digits else more

-- `str(n)`
unfoldable pub decimal : ℕ → Text
decimal n = decimal_from (suc n) n []

unfoldable pub zeros : ℕ → Text → Text
zeros zero s = s
zeros (suc n) s = b'0' ∷ zeros n s

-- `f"{n:0<width>d}"`
unfoldable pub padded : ℕ → ℕ → Text
padded width n = zeros (width - length (decimal n)) (decimal n)

-- `sep.join(parts)`
unfoldable pub join : Text → List Text → Text
join sep [] = []
join sep (p ∷ []) = p
join sep (p ∷ q ∷ ps) = p ++ (sep ++ join sep (q ∷ ps))

unfoldable pub chunk_id : Platform → Text → ℕ → ℕ → ℕ → Text → Text
chunk_id platform source_id index char_start char_end text =
    let digest_source = join (0x241f ∷ []) (
      source_id
      ∷ decimal (length text)
      ∷ decimal index
      ∷ decimal char_start
      ∷ decimal char_end
      ∷ text
      ∷ []) in
    let digest12 = take 12 (platform.sha256_hex digest_source) in
    source_id
    ++ (codes ":det-chunk-v1:"
        ++ (padded 4 index
            ++ (codes ":"
                ++ (padded 6 char_start
                    ++ (codes "-" ++ (padded 6 char_end ++ (codes ":" ++ digest12)))))))

unfoldable pub quality_flags : Platform → ChunkerConfig → Text → ℕ → List String
quality_flags platform config chunk_text source_length =
    let stripped = strip chunk_text in
    let alnum_count = tally platform.is_alnum stripped in
    (if ltb (length stripped) config.min_chunk_chars then "short_content" ∷ [] else [])
    ++ ((if not (is_empty stripped) && ltb alnum_count (max 12 (length stripped / 5))
          then "low_information_density_candidate" ∷ []
          else [])
        ++ ((if ltb config.max_chunk_chars source_length
              then "split_from_long_content" ∷ []
              else [])
            ++ ("quality_not_scored_by_chunker" ∷ "duplicate_detection_not_performed" ∷ [])))

padded_index : padded 4 37 ≡ codes "0037"
unfolding padded decimal decimal_from zeros codes
padded_index = refl
