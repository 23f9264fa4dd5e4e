-- ===== src/IpContext/Address.antt =====
-- frontend/state.js, `contextIP`: the addresses that a context is asked for, in their canonical text only.
use revealnetworktrouble.Prelude.{
  hexadecimal_from, split_pairs, ◌-◌, ◌*◌, ◌/◌, ◌^◌, bit_or, Bool, false, not, ◌&&◌, ◌||◌, Option,
  none, some, List, [], ◌∷◌, ◌++◌, ltb, leb, ◌==◌, if◌then◌else◌, length, is_nil, replicate, all,
  Text, text_eq, includes, split, is_digit, hex_digit, hexadecimal,
}
use mathlib.Core.List.{foldl}
use revealnetworktrouble.Addresses.{Bits, dotted_bits, parts_of}

-- `/^[a-f0-9:]+$/`
unfoldable pub is_plain_literal : Text → Bool
unfolding hex_digit
is_plain_literal t =
    not (is_nil t) && all (λ c. c == b':' || leb b'a' c && leb c b'f' || is_digit c) t

-- The words on both sides of the first `::`, if there is one.
abbrev pub context_words : List Text → List Text
context_words [] = []
context_words (left ∷ []) = parts_of left
context_words (left ∷ right ∷ _) =
    let l = parts_of left in
    let r = parts_of right in l ++ (replicate (8 - length l - length r) (48 ∷ []) ++ r)

-- The bits of a canonical IPv6 text; one that stands for an IPv4 address is refused.
abbrev pub wide_bits : Text → Option Bits
unfolding split split_pairs hexadecimal_from
wide_bits t =
    let words = context_words (split_pairs b':' t) in
    let value = foldl (λ n word. bit_or (n * 2 ^ 16) (hexadecimal word)) 0 words in
    if value / 2 ^ 32 == 65535 then none else some (record { width = 128; value = value })

module _ (url_host : Text → Option Text) where
  abbrev pub is_canonical_host : Text → Bool
  is_canonical_host t = elim (url_host t) [ none ↦ false | some host ↦ text_eq host t ]

  unfoldable pub context_ip : Text → Option Bits
  unfolding dotted_bits is_plain_literal wide_bits
  context_ip t =
      if ltb 39 (length t)
      then none
      else if not (includes b':' t)
      then dotted_bits t
      else if is_plain_literal t && is_canonical_host t
      then wide_bits t
      else none
