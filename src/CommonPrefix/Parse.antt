-- ===== src/CommonPrefix/Parse.antt =====
-- frontend/common-prefix.js: from text to the bits of an address.
pub mod Fits
use revealnetworktrouble.Prelude.{
  ℕ, ◌+◌, ◌-◌, ◌*◌, ◌/◌, ◌^◌, bit_or, bit_and, Bool, true, false, not, ◌&&◌, ◌||◌, Option, none,
  some, List, [], ◌∷◌, ◌++◌, leb, ltb, ◌==◌, if◌then◌else◌, ◌>>=◌, ◌>>◌, guard, or_else, is_nil,
  length, get_or, take, replicate, all, Text, text_eq, includes, split, split_pairs, count_pairs,
  cut_at, is_digit, hex_digit, decimal, decimal_from, hexadecimal, hexadecimal_from, trim,
}
use mathlib.Core.List.{foldl}

pub data Family : Type 0 where
  v4 v6 : Family

-- The object that both parsers return.
pub record AddressBits : Type 0 where
  pub family : Family
  pub width : ℕ
  pub value : ℕ

abbrev pub v4_width : ℕ
v4_width = 32

abbrev pub v6_width : ℕ
v6_width = 128

-- `/^(0|[1-9]\d{0,2})$/`
unfoldable pub is_byte_text : Text → Bool
is_byte_text [] = false
is_byte_text (c ∷ []) = is_digit c
is_byte_text (c ∷ t) = leb 49 c && leb c 57 && all is_digit t && leb (length t) 2

-- One round of the loop over the parts: `value << 8 | byte`.
unfoldable pub push_byte : Option ℕ → Text → Option ℕ
unfolding is_byte_text decimal_from
push_byte acc part = do
  value ← acc
  guard (is_byte_text part)
  let byte = decimal part
  guard (not (ltb 255 byte))
  some (bit_or (value * 2 ^ 8) byte)

unfoldable pub ipv4_bits : Text → Option AddressBits
unfolding push_byte split
ipv4_bits text = do
  let parts = split b'.' text
  guard (length parts == 4)
  value ← foldl push_byte (some 0) parts
  some (record { family = v4; width = v4_width; value = value })

-- `/^[0-9a-fA-F]{1,4}$/`
unfoldable pub is_word_text : Text → Bool
unfolding hex_digit
is_word_text t =
    leb 1 (length t)
    && leb (length t) 4
    && all (λ c. elim (hex_digit c) [ none ↦ false | some _ ↦ true ]) t

-- The two words of a dotted tail.
unfoldable pub tail_words : Text → Option (List ℕ)
unfolding ipv4_bits
tail_words part = do
  tail ← ipv4_bits part
  some (bit_and (tail.value / 2 ^ 16) 0xffff ∷ bit_and tail.value 0xffff ∷ [])

-- The loop of `parseHalf`: a dotted part may stand last only, and where it is allowed.
unfoldable pub half_words : Bool → List Text → Option (List ℕ)
unfolding tail_words is_word_text hexadecimal_from
half_words allow_v4_tail [] = some []
half_words allow_v4_tail (part ∷ rest) = do
  let last = is_nil rest
  let dotted = do guard (allow_v4_tail && last); tail_words part
  let plain = do guard (is_word_text part); some (hexadecimal part ∷ [])
  words ← if includes b'.' part then dotted else plain
  more ← half_words allow_v4_tail rest
  some (words ++ more)

unfoldable pub parse_half : Text → Bool → Option (List ℕ)
unfolding half_words split
parse_half [] allow_v4_tail = some []
parse_half half allow_v4_tail = half_words allow_v4_tail (split b':' half)

-- The eight words from the parts before and behind `::`.
unfoldable pub expand_words : List Text → Option (List ℕ)
unfolding parse_half
expand_words [] = none
expand_words (whole ∷ []) = do left ← parse_half whole true; guard (length left == 8); some left
expand_words (before ∷ behind ∷ []) = do
  left ← parse_half before false
  right ← parse_half behind true
  guard (not (ltb (8 - length left) (length right + 1)))
  some (left ++ (replicate (8 - length left - length right) 0 ++ right))
expand_words (_ ∷ _ ∷ _ ∷ _) = none

-- `::ffff:a.b.c.d`
abbrev pub is_mapped : List ℕ → Bool
is_mapped words = all (λ w. w == 0) (take 5 words) && get_or words 5 0 == 0xffff

abbrev pub push_word : ℕ → ℕ → ℕ
push_word acc w = bit_or (acc * 2 ^ 16) w

unfoldable pub words_bits : List ℕ → AddressBits
words_bits words =
    if is_mapped words
    then record {
      family = v4;
      width = v4_width;
      value = bit_or (get_or words 6 0 * 2 ^ 16) (get_or words 7 0);
    }
    else record { family = v6; width = v6_width; value = foldl push_word 0 words }

-- The address without its zone; an empty zone is refused.
unfoldable pub strip_zone : Text → Option Text
unfolding cut_at
strip_zone text =
    let (address, zone) = cut_at b'%' text in
    elim zone [ none ↦ some address | some [] ↦ none | some (_ ∷ _) ↦ some address ]

unfoldable pub ipv6_words : Text → Option AddressBits
unfolding strip_zone expand_words words_bits split_pairs count_pairs
ipv6_words text = do
  address ← strip_zone text
  guard (includes b':' address && not (ltb 1 (count_pairs b':' address)))
  words ← expand_words (split_pairs b':' address)
  guard (length words == 8)
  some (words_bits words)

unfoldable pub parse_address_bits : Text → Option AddressBits
unfolding ipv4_bits ipv6_words trim
parse_address_bits raw =
    let text = trim raw in
    let parsed = or_else (ipv4_bits text) (ipv6_words text) in
    if text_eq text [] || includes 32 text then none else parsed
