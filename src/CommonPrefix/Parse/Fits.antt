-- ===== src/CommonPrefix/Parse/Fits.antt =====
-- What the parsers return fits the width of its family.
use revealnetworktrouble.Prelude.{
  ℕ, zero, suc, ◌+◌, ◌-◌, ◌*◌, ◌/◌, ◌^◌, ◌≤◌, ◌<◌, bit_and, ◌≡◌, refl, inl, inr, Bool, true, false,
  not, ◌&&◌, Option, none, some, List, [], ◌∷◌, ltb, ◌==◌, ==_iff, if◌then◌else◌, ◌>>◌, guard,
  >>=-eq-some, guard_then, is_nil, Bool-cases, Option-cases, length, get_or, replicate, All,
  All-append, Text, includes, split, split_pairs, count_pairs, hex_digit, decimal, hexadecimal,
  hexadecimal_from, trim, arith,
}
use revealnetworktrouble.Prelude.Bits.{bit_or-shifted, bit_and-mask}
use revealnetworktrouble.CommonPrefix.Parse.{
  Family, v4, v6, AddressBits, push_byte, ipv4_bits, is_word_text, tail_words, half_words,
  parse_half, expand_words, is_mapped, push_word, words_bits, strip_zone, ipv6_words,
  parse_address_bits,
}
use mathlib.Core.List.{foldl}
use mathlib.Core.Path.{subst}
use mathlib.Core.Option.{some-injective}
use native.Mathlib.Nat.{mod-lt}

abbrev pub width_of : Family → ℕ
width_of v4 = 32
width_of v6 = 128

-- The width is that of the family, and the value has at most that many digits.
pub record Fits (b : AddressBits) : Type 0 where
  pub width : b.width ≡ width_of b.family
  pub bound : b.value < 2 ^ b.width

-- `b` times `base`, `n` times over.
abbrev grow : ℕ → ℕ → ℕ → ℕ
grow base b zero = b
grow base b (suc n) = grow base (b * base) n

push_byte_bound : (part : Text) (v b r : ℕ) → v < b → push_byte (some v) part ≡ some r → r < b * 256
unfolding push_byte
push_byte_bound part v b r lt e = ground (arith, bit_or-shifted 8 v (decimal part))

push_bytes-none : (parts : List Text) {r : ℕ} → foldl push_byte none parts ≡ some r → ⊥
unfolding push_byte
push_bytes-none [] e = cc
push_bytes-none (p ∷ ps) e = push_bytes-none ps e

push_bytes_step :
    (parts : List Text) (o : Option ℕ) (b r : ℕ)
    → ((v : ℕ) → o ≡ some v → v < b)
    → foldl push_byte o parts ≡ some r
    → r < grow 256 b (length parts)
push_bytes_step [] o b r lt e = lt r e
push_bytes_step (p ∷ ps) none b r lt e = absurd (push_bytes-none (p ∷ ps) e)
push_bytes_step (p ∷ ps) (some v) b r lt e =
    push_bytes_step ps (push_byte (some v) p) (b * 256) r
      (λ w h. push_byte_bound p v b w (lt v refl) h) e

ipv4_bits-Fits :
    (text : Text) (b : AddressBits) → ipv4_bits text ≡ some b → Fits b × (b.family ≡ v4)
unfolding ipv4_bits
ipv4_bits-Fits text b e =
    let (four, e1) = guard_then (length (split b'.' text) == 4) _ e in
    let (v, folded, same) = >>=-eq-some (foldl push_byte (some 0) (split b'.' text)) _ e1 in
    let len : length (split b'.' text) ≡ 4 = ground arith in
    let bound = push_bytes_step (split b'.' text) (some 0) 1 v (λ w h. ground arith) folded in
    let bound' : v < 2 ^ 32 = subst (λ n. v < grow 256 1 n) len bound in
    subst (λ x. Fits x × (x.family ≡ v4)) (some-injective _ _ same)
      (record { width = refl; bound = bound' }, refl)

abbrev IsWord : ℕ → Type 0
IsWord w = w < 2 ^ 16

hex_digit_bound : (c d : ℕ) → hex_digit c ≡ some d → d < 16
unfolding hex_digit
hex_digit_bound c d e = ground arith

digit_value_bound : (c : ℕ) → elim (hex_digit c) [ none ↦ 0 | some d ↦ d ] < 16
digit_value_bound c = elim (Option-cases (hex_digit c)) [
  | inl e ↦ rw e (omega arith)
  | inr (d, e) ↦ rw e (hex_digit_bound c d e)
]

hexadecimal_bound : (t : Text) (acc b : ℕ) → acc < b → hexadecimal_from acc t < grow 16 b (length t)
unfolding hexadecimal_from
hexadecimal_bound [] acc b h = h
hexadecimal_bound (c ∷ t) acc b h =
    hexadecimal_bound t _ (b * 16) (omega (arith, digit_value_bound c))

grow_four : (n : ℕ) → n ≤ 4 → grow 16 1 n ≤ 2 ^ 16
grow_four zero h = omega arith
grow_four (suc zero) h = omega arith
grow_four (suc (suc zero)) h = omega arith
grow_four (suc (suc (suc zero))) h = omega arith
grow_four (suc (suc (suc (suc zero)))) h = omega arith
grow_four (suc (suc (suc (suc (suc n))))) h = absurd (omega arith)

IsWord-text_bound : (t : Text) → is_word_text t ≡ true → IsWord (hexadecimal t)
unfolding is_word_text
IsWord-text_bound t h =
    let short : length t ≤ 4 = ground arith in
    omega (arith, hexadecimal_bound t 0 1 (omega arith), grow_four (length t) short)

tail_words-All : (part : Text) (ws : List ℕ) → tail_words part ≡ some ws → All IsWord ws
unfolding tail_words
tail_words-All part ws e =
    let (b, _, same) = >>=-eq-some (ipv4_bits part) _ e in
    subst (All IsWord) (some-injective _ _ same) (word (b.value / 2 ^ 16), (word b.value, tt))
  where
    word : (a : ℕ) → IsWord (bit_and a 0xffff)
    word a = rw (bit_and-mask 16 a) (mod-lt a {m = 2 ^ 16} (omega arith))

half_words-All :
    (allow : Bool) (parts : List Text) (ws : List ℕ)
    → half_words allow parts ≡ some ws
    → All IsWord ws
unfolding half_words
half_words-All allow [] ws e = subst (All IsWord) (some-injective _ _ e) tt
half_words-All allow (part ∷ rest) ws e =
    let (here, got, e1) = >>=-eq-some _ _ e in
    let (more, later, same) = >>=-eq-some (half_words allow rest) _ e1 in
    subst (All IsWord) (some-injective _ _ same) (
      All-append IsWord here more (first (includes b'.' part) here got)
        (half_words-All allow rest more later))
  where
    first :
        (dot : Bool) (here : List ℕ)
        → (if dot
            then (guard (allow && is_nil rest) >> tail_words part)
            else (guard (is_word_text part) >> some (hexadecimal part ∷ [])))
          ≡ some here
        → All IsWord here
    first true here h =
        tail_words-All part here (guard_then (allow && is_nil rest) (tail_words part) h).1
    first false here h =
        let (ok, same) = guard_then (is_word_text part) _ h in
        subst (All IsWord) (some-injective _ _ same) (IsWord-text_bound part ok, tt)

parse_half-All :
    (half : Text) (allow : Bool) (ws : List ℕ) → parse_half half allow ≡ some ws → All IsWord ws
unfolding parse_half
parse_half-All [] allow ws e = subst (All IsWord) (some-injective _ _ e) tt
parse_half-All (c ∷ t) allow ws e = half_words-All allow (split b':' (c ∷ t)) ws e

replicate-All : (n : ℕ) → All IsWord (replicate n 0)
replicate-All zero = tt
replicate-All (suc n) = (omega arith, replicate-All n)

expand_words-All :
    (halves : List Text) (ws : List ℕ) → expand_words halves ≡ some ws → All IsWord ws
unfolding expand_words
expand_words-All [] ws e = cc
expand_words-All (whole ∷ []) ws e =
    let (left, got, e1) = >>=-eq-some (parse_half whole true) _ e in
    let (_, same) = guard_then (length left == 8) _ e1 in
    subst (All IsWord) (some-injective _ _ same) (parse_half-All whole true left got)
expand_words-All (before ∷ behind ∷ []) ws e =
    let (left, got, e1) = >>=-eq-some (parse_half before false) _ e in
    let (right, got', e2) = >>=-eq-some (parse_half behind true) _ e1 in
    let (_, same) = guard_then (not (ltb (8 - length left) (length right + 1))) _ e2 in
    subst (All IsWord) (some-injective _ _ same) (
      All-append IsWord left _ (parse_half-All before false left got) (
        All-append IsWord (replicate (8 - length left - length right) 0) right
          (replicate-All (8 - length left - length right)) (parse_half-All behind true right got')))
expand_words-All (_ ∷ _ ∷ _ ∷ _) ws e = cc

get_or-IsWord : (ws : List ℕ) (i : ℕ) → All IsWord ws → IsWord (get_or ws i 0)
get_or-IsWord [] i _ = omega arith
get_or-IsWord (w ∷ ws) zero h = h.0
get_or-IsWord (w ∷ ws) (suc i) h = get_or-IsWord ws i h.1

push_words_bound :
    (ws : List ℕ) (acc b : ℕ)
    → acc < b
    → All IsWord ws
    → foldl push_word acc ws < grow (2 ^ 16) b (length ws)
push_words_bound [] acc b h _ = h
push_words_bound (w ∷ ws) acc b h (p, ps) =
    push_words_bound ws (push_word acc w) (b * 2 ^ 16) (omega (arith, bit_or-shifted 16 acc w p)) ps

words_bits-Fits : (ws : List ℕ) → length ws ≡ 8 → All IsWord ws → Fits (words_bits ws)
unfolding words_bits
words_bits-Fits ws len h = elim (Bool-cases (is_mapped ws)) [
  | inl m ↦ rw m (record {
    width = refl;
    bound = omega (
      arith,
      bit_or-shifted 16 (get_or ws 6 0) (get_or ws 7 0) (get_or-IsWord ws 7 h),
      get_or-IsWord ws 6 h,
      get_or-IsWord ws 7 h,
    );
  })
  | inr m ↦ rw m (record {
    width = refl;
    bound =
        subst (λ n. foldl push_word 0 ws < grow (2 ^ 16) 1 n) len
          (push_words_bound ws 0 1 (omega arith) h);
  })
]

ipv6_words-Fits : (text : Text) (b : AddressBits) → ipv6_words text ≡ some b → Fits b
unfolding ipv6_words
ipv6_words-Fits text b e =
    let (address, _, e1) = >>=-eq-some (strip_zone text) _ e in
    let (_, e2) =
      guard_then (includes b':' address && not (ltb 1 (count_pairs b':' address))) _ e1 in
    let (ws, got, e3) = >>=-eq-some (expand_words (split_pairs b':' address)) _ e2 in
    let (eight, same) = guard_then (length ws == 8) _ e3 in
    subst Fits (some-injective _ _ same) (
      words_bits-Fits ws ((==_iff (length ws) 8).0 eight)
        (expand_words-All (split_pairs b':' address) ws got))

-- Whatever text is read as an address, its bits fit the width of the family.
pub parse_address_bits-Fits :
    (raw : Text) (b : AddressBits) → parse_address_bits raw ≡ some b → Fits b
unfolding parse_address_bits
parse_address_bits-Fits raw b e = elim (Option-cases (ipv4_bits (trim raw))) [
  | inr (v, four) ↦ (ipv4_bits-Fits (trim raw) b (ground arith)).0
  | inl other ↦ ipv6_words-Fits (trim raw) b (ground arith)
]
