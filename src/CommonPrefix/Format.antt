-- ===== src/CommonPrefix/Format.antt =====
-- frontend/common-prefix.js, `formatValue`: from the bits of an address to its text.
use revealnetworktrouble.Prelude.{
  ℕ, zero, suc, ◌+◌, ◌/◌, ◌^◌, bit_and, ◌&&◌, Option, none, some, List, [], ◌∷◌, ◌++◌, map, leb,
  ltb, ◌==◌, if◌then◌else◌, length, take, drop, Text, codes, join, to_radix, to_radix_from,
}
use revealnetworktrouble.CommonPrefix.Parse.{Family, v4, v6}

-- `(value >> shift) & mask` for each shift.
abbrev pub fields : ℕ → List ℕ → ℕ → List ℕ
fields mask shifts value = map (λ shift. bit_and (value / 2 ^ shift) mask) shifts

abbrev pub octets : ℕ → List ℕ
octets value = fields 0xff (24 ∷ 16 ∷ 8 ∷ 0 ∷ []) value

abbrev pub words16 : ℕ → List ℕ
words16 value = fields 0xffff (112 ∷ 96 ∷ 80 ∷ 64 ∷ 48 ∷ 32 ∷ 16 ∷ 0 ∷ []) value

-- The zero words at the front, which the inner `while` passes over.
unfoldable pub zero_run : List ℕ → ℕ
zero_run [] = 0
zero_run (w ∷ ws) = let run = suc (zero_run ws) in if w == 0 then run else 0

-- The loop for the longest run of at least two zero words: its start (`none` for -1) and length.
-- A round passes at least one word, so the number of words is enough fuel.
unfoldable pub longest_zeros : ℕ → ℕ → List ℕ → Option ℕ × ℕ → Option ℕ × ℕ
unfolding zero_run
longest_zeros zero i ws best = best
longest_zeros (suc fuel) i [] best = best
longest_zeros (suc fuel) i (w ∷ ws) (start, len) =
    let run = zero_run (w ∷ ws) in
    let longer = ltb len run && leb 2 run in
    let skip = longest_zeros fuel (i + 1) ws (start, len) in
    let pass =
      longest_zeros fuel (i + run) (drop run (w ∷ ws))
        (if longer then (some i, run) else (start, len)) in
    if w == 0 then pass else skip

abbrev pub hex_words : List ℕ → Text
hex_words ws = join b':' (map (to_radix 16) ws)

unfoldable pub compress : List ℕ → Option ℕ × ℕ → Text
unfolding join to_radix_from
compress words (none, len) = hex_words words
compress words (some start, len) =
    hex_words (take start words) ++ (codes "::" ++ hex_words (drop (start + len) words))

unfoldable pub format_value : ℕ → Family → Text
unfolding join to_radix_from compress longest_zeros
format_value value v4 = join b'.' (map (to_radix 10) (octets value))
format_value value v6 =
    let words = words16 value in compress words (longest_zeros (length words) 0 words (none, 0))
