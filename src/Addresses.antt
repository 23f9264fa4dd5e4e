-- ===== src/Addresses.antt =====
-- frontend/topology-presentation.js, `addressBits` to `canonicalPublicIP`: which addresses are public. The
-- URL parser of the platform is a parameter: the host of `http://[address]/` without its brackets, if
-- there is one.
pub mod Class
mod Tests
use revealnetworktrouble.Prelude.{
  ℕ, ◌+◌, ◌-◌, ◌*◌, ◌/◌, ◌%◌, ◌^◌, bit_or, Bool, true, false, not, ◌&&◌, ◌||◌, Option, none, some,
  List, [], ◌∷◌, ◌>>=◌, ◌++◌, map, String, ltb, leb, ◌==◌, if◌then◌else◌, length, is_nil, replicate,
  all, any, Text, codes, includes, split, split_pairs, decimal_from, hexadecimal_from, join, cut_at,
  is_digit, hex_digit, decimal, hexadecimal, to_radix, to_radix_from,
}
use mathlib.Core.List.{foldl}

pub record Bits : Type 0 where
  pub width : ℕ
  pub value : ℕ

pub record Network : Type 0 where
  pub width : ℕ
  pub value : ℕ
  pub shift : ℕ

pub data AddressClass : Type 0 where
  private_address public_address other_address : AddressClass

-- `/^(0|[1-9]\d{0,2})$/` and at most 255.
abbrev pub is_octet : Text → Bool
is_octet [] = false
is_octet (c ∷ t) =
    (c == 48 && is_nil t || leb 49 c && leb c 57 && all is_digit t && leb (length t) 2)
    && leb (decimal (c ∷ t)) 255

abbrev pub join_octets : List Text → ℕ
join_octets parts = foldl (λ n p. bit_or (n * 2 ^ 8) (decimal p)) 0 parts

unfoldable pub dotted_bits : Text → Option Bits
unfolding split decimal_from
dotted_bits address =
    let parts = split b'.' address in
    if length parts == 4 && all is_octet parts
    then some (record { width = 32; value = join_octets parts })
    else none

-- `/^[a-fA-F0-9:.]+$/`
unfoldable pub is_literal : Text → Bool
unfolding hex_digit
is_literal t =
    not (is_nil t)
    && all (λ c. elim (hex_digit c) [ none ↦ c == b':' || c == b'.' | some d ↦ true ]) t

abbrev pub parts_of : Text → List Text
parts_of [] = []
parts_of (c ∷ t) = split b':' (c ∷ t)

-- The words of the canonical text of an IPv6 address.
abbrev pub spread_words : List Text → List Text
spread_words [] = []
spread_words (left ∷ right ∷ []) =
    let l = parts_of left in
    let r = parts_of right in l ++ (replicate (8 - length l - length r) (48 ∷ []) ++ r)
spread_words (left ∷ _) = parts_of left

unfoldable pub host_bits : Text → Bits
unfolding split_pairs split hexadecimal_from
host_bits text =
    let words = spread_words (split_pairs b':' text) in
    let value = foldl (λ n p. bit_or (n * 2 ^ 16) (hexadecimal p)) 0 words in
    if value / 2 ^ 32 == 65535
    then record { width = 32; value = value % 2 ^ 32 }
    else record { width = 128; value = value }

abbrev pub same_network : Bits → Network → Bool
same_network b n = n.width == b.width && b.value / 2 ^ n.shift == n.value / 2 ^ n.shift

abbrev pub in_networks : Bits → List Network → Bool
in_networks b ns = any (same_network b) ns

abbrev pub class_of : List Network → List Network → Option Bits → AddressClass
class_of inner nonpublic none = other_address
class_of inner nonpublic (some bits) =
    if in_networks bits inner
    then private_address
    else if in_networks bits nonpublic
    then other_address
    else public_address

-- `PRIVATE_NETWORKS` and `NONPUBLIC_NETWORKS`, as they are written.
abbrev pub private_ranges : List String
private_ranges = "10.0.0.0/8" ∷ "172.16.0.0/12" ∷ "192.168.0.0/16" ∷ "fc00::/7" ∷ []

abbrev pub nonpublic_ranges : List String
nonpublic_ranges =
    "0.0.0.0/8" ∷ "10.0.0.0/8" ∷ "100.64.0.0/10" ∷ "127.0.0.0/8" ∷ "169.254.0.0/16"
    ∷ "172.16.0.0/12" ∷ "192.0.0.0/24" ∷ "192.0.2.0/24" ∷ "192.31.196.0/24" ∷ "192.52.193.0/24"
    ∷ "192.88.99.0/24" ∷ "192.168.0.0/16" ∷ "192.175.48.0/24" ∷ "198.18.0.0/15" ∷ "198.51.100.0/24"
    ∷ "203.0.113.0/24" ∷ "224.0.0.0/4" ∷ "240.0.0.0/4" ∷ "100.100.100.200/32" ∷ "::/128" ∷ "::1/128"
    ∷ "64:ff9b::/96" ∷ "64:ff9b:1::/48" ∷ "100::/64" ∷ "100:0:0:1::/64" ∷ "2001::/23" ∷ "fc00::/7"
    ∷ "fe80::/10" ∷ "ff00::/8" ∷ "2001:db8::/32" ∷ "2002::/16" ∷ "2620:4f:8000::/48" ∷ "3fff::/20"
    ∷ "5f00::/16" ∷ []

-- The four octets of a value of 32 bits.
abbrev pub dotted_text : ℕ → Text
dotted_text value =
    join b'.' (map (λ shift. to_radix 10 (value / 2 ^ shift % 2 ^ 8)) (24 ∷ 16 ∷ 8 ∷ 0 ∷ []))

abbrev pub is_public_address : AddressClass → Bool
is_public_address public_address = true
is_public_address _ = false

-- The canonical text of bits that are public.
abbrev pub canonical_text : Option Text → Option Bits → Option Text
canonical_text host none = none
canonical_text host (some bits) = if bits.width == 32 then some (dotted_text bits.value) else host

module _ (url_host : Text → Option Text) where
  unfoldable pub address_bits : Text → Option Bits
  unfolding dotted_bits host_bits is_literal
  address_bits address =
      let host = elim (url_host address) as (λ x. Option Bits) [
        | none ↦ none
        | some t ↦ some (host_bits t)
      ] in
      if ltb 45 (length address)
      then none
      else if not (includes b':' address)
      then dotted_bits address
      else if is_literal address
      then host
      else none

  -- A range that is not read makes the module fail to load.
  unfoldable pub networks : List String → Option (List Network)
  unfolding address_bits cut_at decimal_from
  networks [] = some []
  networks (cidr ∷ cidrs) = do
    let (address, prefix) = cut_at b'/' (codes cidr)
    bits ← address_bits address
    length_text ← prefix
    others ← networks cidrs
    some (
        record { width = bits.width; value = bits.value; shift = bits.width - decimal length_text }
        ∷ others)

  -- `addressClass`, for the two lists of networks.
  unfoldable pub address_class : List Network → List Network → Text → AddressClass
  unfolding address_bits
  address_class inner nonpublic address = class_of inner nonpublic (address_bits address)

  unfoldable pub canonical_public_ip : List Network → List Network → Text → Option Text
  unfolding address_class address_bits join to_radix_from
  canonical_public_ip inner nonpublic address =
      if is_public_address (address_class inner nonpublic address)
      then canonical_text (url_host address) (address_bits address)
      else none
