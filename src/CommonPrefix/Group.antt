-- ===== src/CommonPrefix/Group.antt =====
-- frontend/common-prefix.js, `computeGroup`: the common prefix of the members of one family.
pub mod Length
pub mod Longest
pub mod Block
use revealnetworktrouble.Prelude.{
  ℕ, zero, suc, ◌+◌, ◌-◌, ◌/◌, ◌^◌, bit_and, bit_or, bit_xor, Bool, false, Option, none, some, List,
  [], ◌∷◌, ◌++◌, map, ltb, ◌==◌, if◌then◌else◌, length, Text, codes, to_radix, to_radix_from,
}
use revealnetworktrouble.CommonPrefix.Parse.{Family, AddressBits}
use revealnetworktrouble.CommonPrefix.Format.{format_value}

-- The loop over `members.slice(1)`.
unfoldable pub extremes : ℕ → ℕ → List AddressBits → ℕ × ℕ
extremes lo hi [] = (lo, hi)
extremes lo hi (m ∷ ms) =
    extremes (if ltb m.value lo then m.value else lo) (if ltb hi m.value then m.value else hi) ms

-- `while (cursor !== 0n) { cursor >>= 1n; bitLen++; }`; a round halves the cursor, so the number
-- itself is enough fuel.
unfoldable pub bit_length_from : ℕ → ℕ → ℕ → ℕ
bit_length_from zero cursor len = len
bit_length_from (suc fuel) cursor len =
    let more = bit_length_from fuel (cursor / 2) (len + 1) in if cursor == 0 then len else more

unfoldable pub bit_length : ℕ → ℕ
unfolding bit_length_from
bit_length n = bit_length_from n n 0

unfoldable pub shared_bits : ℕ → ℕ → ℕ → ℕ
unfolding bit_length
shared_bits lo hi width = if lo == hi then width else width - bit_length (bit_xor lo hi)

-- `(1n << freeBits) - 1n` if there are free bits.
unfoldable pub low_mask : ℕ → ℕ
low_mask free = if ltb 0 free then 2 ^ free - 1 else 0

-- `min & ~lowMask`: on non-negative numbers `a & ~m` takes from `a` the bits that `m` has.
unfoldable pub range_first : ℕ → ℕ → ℕ
unfolding low_mask
range_first lo free = lo - bit_and lo (low_mask free)

-- `min | lowMask`
unfoldable pub range_last : ℕ → ℕ → ℕ
unfolding low_mask
range_last lo free = bit_or lo (low_mask free)

pub record Group : Type 0 where
  pub family : Family
  pub count : ℕ
  pub shared : Option ℕ
  pub cidr : Option Text
  pub first : Text
  pub last : Option Text
  pub first_diff_bit : Option ℕ
  pub members : List Text
  pub alone : Bool

-- The arguments are the first member and the others; there is at least one member.
unfoldable pub compute_group : AddressBits → List AddressBits → Group
unfolding extremes shared_bits range_first range_last format_value to_radix_from
compute_group m ms =
    let (lo, hi) = extremes m.value m.value ms in
    let shared = shared_bits lo hi m.width in
    let free = m.width - shared in
    let first = range_first lo free in
    let last = range_last lo free in
    record {
      family = m.family;
      count = length (m ∷ ms);
      shared = some shared;
      cidr = some (format_value first m.family ++ (codes "/" ++ to_radix 10 shared));
      first = format_value first m.family;
      last = some (format_value last m.family);
      first_diff_bit = if shared == m.width then none else some (shared + 1);
      members = map (λ b. format_value b.value m.family) (m ∷ ms);
      alone = false;
    }
