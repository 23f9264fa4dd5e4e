-- ===== src/Topology/Legacy/Address.antt =====
-- frontend/topology-model.js, `parseIPv4`, `parseIPv6` and `canonicalIP`: one text for each address of a node.
use revealnetworktrouble.Prelude.{
  split_pairs, hexadecimal_from, count_pairs, decimal_from, to_radix_from, ℕ, ◌-◌, ◌*◌, ◌/◌, ◌%◌,
  ◌^◌, bit_or, Bool, true, false, not, ◌&&◌, Option, none, some, List, [], ◌∷◌, ◌++◌, map, ltb, leb,
  ◌==◌, if◌then◌else◌, ◌>>=◌, ◌>>◌, or_else, guard, length, is_nil, get_or, replicate, Text,
  includes, split, join, cut_at, decimal, hexadecimal, to_radix,
}
use revealnetworktrouble.CommonPrefix.Parse.{is_byte_text, is_word_text, is_mapped}
use revealnetworktrouble.CommonPrefix.Format.{compress, longest_zeros}

unfoldable pub bytes_of : List Text → Option (List ℕ)
unfolding is_byte_text decimal_from
bytes_of [] = some []
bytes_of (part ∷ parts) = do
  guard (is_byte_text part && leb (decimal part) 255)
  bytes ← bytes_of parts
  some (decimal part ∷ bytes)

unfoldable pub parse_ipv4 : Text → Option (List ℕ)
unfolding split bytes_of
parse_ipv4 t = do guard (length (split b'.' t) == 4); bytes_of (split b'.' t)

-- The text that goes with the bytes.
unfoldable pub ipv4_text : List ℕ → Text
unfolding join to_radix_from
ipv4_text bytes = join b'.' (map (to_radix 10) bytes)

abbrev pub tail_words : List ℕ → List ℕ
tail_words (a ∷ b ∷ c ∷ d ∷ []) = bit_or (a * 2 ^ 8) b ∷ bit_or (c * 2 ^ 8) d ∷ []
tail_words _ = []

abbrev pub dotted_words : Text → Option (List ℕ)
unfolding parse_ipv4
dotted_words part = do bytes ← parse_ipv4 part; some (tail_words bytes)

-- The loop of `parseHalf`.
unfoldable pub half_words : Bool → List Text → Option (List ℕ)
unfolding is_word_text hexadecimal_from dotted_words
half_words allow [] = some []
half_words allow (part ∷ rest) = do
  let dotted = do guard (allow && is_nil rest); dotted_words part
  let plain = do guard (is_word_text part); some (hexadecimal part ∷ [])
  words ← if includes b'.' part then dotted else plain
  more ← half_words allow rest
  some (words ++ more)

unfoldable pub parse_half : Text → Bool → Option (List ℕ)
unfolding half_words split
parse_half [] allow = some []
parse_half (c ∷ t) allow = half_words allow (split b':' (c ∷ t))

-- The words from the halves.
unfoldable pub fill_words : List Text → Option (List ℕ)
unfolding parse_half
fill_words (whole ∷ []) = do left ← parse_half whole true; guard (length left == 8); some left
fill_words (before ∷ behind ∷ []) = do
  left ← parse_half before false
  right ← parse_half behind true
  guard (leb 1 (8 - length left - length right))
  some (left ++ (replicate (8 - length left - length right) 0 ++ right))
fill_words _ = none

abbrev pub mapped_bytes : List ℕ → List ℕ
mapped_bytes words =
    let high = get_or words 6 0 in
    let low = get_or words 7 0 in high / 2 ^ 8 ∷ high % 2 ^ 8 ∷ low / 2 ^ 8 ∷ low % 2 ^ 8 ∷ []

abbrev pub zone_text : Option Text → Text
zone_text none = []
zone_text (some zone) = b'%' ∷ zone

abbrev pub is_empty_zone : Option Text → Bool
is_empty_zone none = false
is_empty_zone (some zone) = is_nil zone

unfoldable pub words_text : List ℕ → Option Text → Option Text
unfolding compress longest_zeros parse_ipv4 ipv4_text
words_text words zone =
    let mapped : Option Text = (do
      bytes ← parse_ipv4 (ipv4_text (mapped_bytes words))
      some (ipv4_text bytes)) in
    let written = compress words (longest_zeros (length words) 0 words (none, 0)) in
    if is_mapped words then mapped else some (written ++ zone_text zone)

unfoldable pub parse_ipv6 : Text → Option Text
unfolding cut_at count_pairs split_pairs fill_words words_text
parse_ipv6 t = do
  let (address, zone) = cut_at b'%' t
  guard (not (is_empty_zone zone))
  guard (includes b':' address && not (ltb 1 (count_pairs b':' address)))
  words ← fill_words (split_pairs b':' address)
  guard (length words == 8)
  words_text words zone

unfoldable pub canonical_ip : Text → Option Text
unfolding parse_ipv4 ipv4_text parse_ipv6
canonical_ip t =
    let v4 : Option Text = (do bytes ← parse_ipv4 t; some (ipv4_text bytes)) in
    or_else v4 (parse_ipv6 t)
