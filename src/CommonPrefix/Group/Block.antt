-- ===== src/CommonPrefix/Group/Block.antt =====
-- The range that `computeGroup` reports is the smallest aligned block that holds the members.
use revealnetworktrouble.Prelude.{
  ℕ, ◌+◌, ◌-◌, ◌*◌, ◌/◌, ◌%◌, ◌^◌, ◌≤◌, ◌<◌, ◌≡◌, refl, ap, some, List, ◌∷◌, All, arith,
}
use revealnetworktrouble.Prelude.Bits.{bit_and-mask, bit_or-mask}
use revealnetworktrouble.CommonPrefix.Parse.{AddressBits}
use revealnetworktrouble.CommonPrefix.Format.{format_value}
use revealnetworktrouble.CommonPrefix.Group.{
  shared_bits, low_mask, range_first, range_last, compute_group,
}
use revealnetworktrouble.CommonPrefix.Group.Longest.{
  values, lo, hi, two_pow_pos, All-mono, agree_with_lo, lo-hi-Agree, shared_bits-IsLongest,
}
use native.Mathlib.Nat.{div-add-mod', div-mul-le_self, lt-div-mul-add, mul-mod_left}

-- The block of numbers that `first` and `last` bound.
pub record IsBlock (width n : ℕ) (vs : List ℕ) (first last : ℕ) : Type 0 where
  pub aligned : first % 2 ^ (width - n) ≡ 0
  pub full : first + 2 ^ (width - n) ≡ last + 1
  pub holds : All (λ v. (first ≤ v) × (v ≤ last)) vs

low_mask_lem : (k : ℕ) → low_mask k ≡ 2 ^ k - 1
unfolding low_mask
low_mask_lem k = ground arith

module _ (a k : ℕ) where
  range_first_lem : range_first a k ≡ a / 2 ^ k * 2 ^ k
  unfolding range_first
  range_first_lem = rw (low_mask_lem k, bit_and-mask k a) (omega (arith, div-add-mod' a (2 ^ k)))

  range_last_lem : range_last a k ≡ a / 2 ^ k * 2 ^ k + (2 ^ k - 1)
  unfolding range_last
  range_last_lem = rw (low_mask_lem k) (bit_or-mask k a)

  in_block : (v : ℕ) → v / 2 ^ k ≡ a / 2 ^ k → (range_first a k ≤ v) × (v ≤ range_last a k)
  in_block v e =
      let low = div-mul-le_self v (2 ^ k) in
      let high = lt-div-mul-add {a = v} (two_pow_pos k) in
      let same = ap (λ (t : ℕ). t * 2 ^ k) e in
      (omega (arith, range_first_lem), omega (arith, range_last_lem))

module _ (m : AddressBits) (ms : List AddressBits)
    (fits : All (λ v. v < 2 ^ m.width) (values (m ∷ ms))) where
  abbrev shared : ℕ
  shared = shared_bits (lo m ms) (hi m ms) m.width

  abbrev free : ℕ
  free = m.width - shared

  range-IsBlock :
      IsBlock m.width shared
        (values (m ∷ ms))
        (range_first (lo m ms) free)
        (range_last (lo m ms) free)
  range-IsBlock = record {
    aligned = rw (range_first_lem (lo m ms) free) (mul-mod_left _ _);
    full =
        omega
          (arith, range_first_lem (lo m ms) free, range_last_lem (lo m ms) free, two_pow_pos free);
    holds =
        All-mono (values (m ∷ ms)) (in_block (lo m ms) free) (
          agree_with_lo m ms free
            (lo-hi-Agree m ms shared (shared_bits-IsLongest m ms fits).agree));
  }

  -- For members that fit the width, the two ends that are reported print the ends of a block of
  -- 2 ^ (width - sharedBits) numbers, which starts at a multiple of its size and holds every member.
  pub compute_group-IsBlock :
      (n first last : ℕ) × ((compute_group m ms).shared ≡ some n)
      × ((compute_group m ms).first ≡ format_value first m.family)
      × ((compute_group m ms).last ≡ some (format_value last m.family))
      × IsBlock m.width n (values (m ∷ ms)) first last
  unfolding compute_group
  compute_group-IsBlock = (
    shared,
    range_first (lo m ms) free,
    range_last (lo m ms) free,
    refl,
    refl,
    refl,
    range-IsBlock,
  )
