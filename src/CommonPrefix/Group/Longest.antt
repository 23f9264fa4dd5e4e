-- ===== src/CommonPrefix/Group/Longest.antt =====
-- `computeGroup` finds the longest common prefix, and the smallest block that holds the members.
use revealnetworktrouble.Prelude.{
  ℕ, ◌-◌, ◌*◌, ◌/◌, ◌^◌, ◌≤◌, ◌<◌, bit_xor, ◌≡◌, refl, sym, ◌∙◌, ap, inl, inr, some, List, [], ◌∷◌,
  map, All, Bool, true, false, Bool-cases, ◌==◌, ==_iff, ltb, if◌then◌else◌, arith,
}
use revealnetworktrouble.CommonPrefix.Parse.{AddressBits}
use revealnetworktrouble.CommonPrefix.Group.{extremes, bit_length, shared_bits, compute_group}
use revealnetworktrouble.CommonPrefix.Group.Length.{agree_above, differ_below, bit_length-le}
use native.Mathlib.Nat.{div-eq_of_lt-le, one-le-pow, div-mul-le_self, lt-div-mul-add}

abbrev pub values : List AddressBits → List ℕ
values bs = map (λ b. b.value) bs

-- All values have the same leading `n` of `width` digits.
abbrev pub Agree : ℕ → List ℕ → ℕ → Type 0
Agree width vs n = (base : ℕ) × All (λ v. v / 2 ^ (width - n) ≡ base) vs

-- `n` is the length of the longest common prefix.
pub record IsLongest (width : ℕ) (vs : List ℕ) (n : ℕ) : Type 0 where
  pub within : n ≤ width
  pub agree : Agree width vs n
  pub longest : (k : ℕ) → n < k → k ≤ width → ¬ Agree width vs k

pick {ℓ} : (P : ℕ → Type ℓ) (t : Bool) {x y : ℕ} → P x → P y → P (if t then x else y)
pick P true p q = p
pick P false p q = q

-- What holds of every value holds of the least and of the greatest.
extremes-all {ℓ} :
    (P : ℕ → Type ℓ) (lo hi : ℕ) (ms : List AddressBits)
    → P lo
    → P hi
    → All P (values ms)
    → P (extremes lo hi ms).0 × P (extremes lo hi ms).1
unfolding extremes
extremes-all P lo hi [] p q _ = (p, q)
extremes-all P lo hi (m ∷ ms) p q (r, rs) =
    extremes-all P (if ltb m.value lo then m.value else lo) (if ltb hi m.value then m.value else hi)
      ms (pick P (ltb m.value lo) r p) (pick P (ltb hi m.value) r q) rs

extremes_bounds :
    (lo hi : ℕ) (ms : List AddressBits)
    → ((extremes lo hi ms).0 ≤ lo)
      × (hi ≤ (extremes lo hi ms).1)
      × All (λ v. ((extremes lo hi ms).0 ≤ v) × (v ≤ (extremes lo hi ms).1)) (values ms)
unfolding extremes
extremes_bounds lo hi [] = (omega arith, omega arith, tt)
extremes_bounds lo hi (m ∷ ms) =
    let lo' = if ltb m.value lo then m.value else lo in
    let hi' = if ltb hi m.value then m.value else hi in
    let (a, b, c) = extremes_bounds lo' hi' ms in
    let below : (lo' ≤ lo) × (lo' ≤ m.value) × (hi ≤ hi') × (m.value ≤ hi') = ground arith in
    (omega arith, omega arith, ((omega arith, omega arith), c))

between : (d lo v hi : ℕ) → 0 < d → lo ≤ v → v ≤ hi → lo / d ≡ hi / d → v / d ≡ lo / d
between d lo v hi pos p q e =
    div-eq_of_lt-le {k = lo / d} d (omega (arith, div-mul-le_self lo d))
      (omega (arith, lt-div-mul-add {a = hi} pos, ap (λ (t : ℕ). t * d) e))

pub All-mono {ℓ κ} :
    {P : ℕ → Type ℓ} {Q : ℕ → Type κ} (vs : List ℕ) → ((v : ℕ) → P v → Q v) → All P vs → All Q vs
All-mono [] f _ = tt
All-mono (v ∷ vs) f (p, ps) = (f v p, All-mono vs f ps)

pub two_pow_pos : (k : ℕ) → 0 < 2 ^ k
two_pow_pos k = omega (arith, one-le-pow k 2)

module _ (m : AddressBits) (ms : List AddressBits) where
  abbrev pub lo : ℕ
  lo = (extremes m.value m.value ms).0

  abbrev pub hi : ℕ
  hi = (extremes m.value m.value ms).1

  abbrev members_between : All (λ v. (lo ≤ v) × (v ≤ hi)) (values (m ∷ ms))
  members_between = let (a, b, c) = extremes_bounds m.value m.value ms in ((a, b), c)

  -- If the two extremes agree, so do all members.
  pub agree_with_lo :
      (k : ℕ) → lo / 2 ^ k ≡ hi / 2 ^ k → All (λ v. v / 2 ^ k ≡ lo / 2 ^ k) (values (m ∷ ms))
  agree_with_lo k e =
      All-mono (values (m ∷ ms)) (λ v h. between (2 ^ k) lo v hi (two_pow_pos k) h.0 h.1 e)
        members_between

  pub lo-hi-Agree :
      (n : ℕ) → Agree m.width (values (m ∷ ms)) n → lo / 2 ^ (m.width - n) ≡ hi / 2 ^ (m.width - n)
  lo-hi-Agree n (base, (p, ps)) =
      let (a, b) = extremes-all (λ v. v / 2 ^ (m.width - n) ≡ base) m.value m.value ms p p ps in
      a ∙ sym b

  Agree-of_lo-hi :
      (n : ℕ) → lo / 2 ^ (m.width - n) ≡ hi / 2 ^ (m.width - n) → Agree m.width (values (m ∷ ms)) n
  Agree-of_lo-hi n e = (lo / 2 ^ (m.width - n), agree_with_lo (m.width - n) e)

  module _ (fits : All (λ v. v < 2 ^ m.width) (values (m ∷ ms))) where
    lo-hi_fit : (lo < 2 ^ m.width) × (hi < 2 ^ m.width)
    lo-hi_fit = extremes-all (λ v. v < 2 ^ m.width) m.value m.value ms fits.0 fits.0 fits.1

    free_digits : m.width - (m.width - bit_length (bit_xor lo hi)) ≡ bit_length (bit_xor lo hi)
    free_digits = omega (arith, bit_length-le lo hi m.width lo-hi_fit.0 lo-hi_fit.1)

    IsLongest-differ : IsLongest m.width (values (m ∷ ms)) (m.width - bit_length (bit_xor lo hi))
    IsLongest-differ = record {
      within = omega arith;
      agree =
          Agree-of_lo-hi (m.width - bit_length (bit_xor lo hi))
            (rw free_digits (agree_above lo hi));
      longest = λ k p q h.
          differ_below lo hi (m.width - k) (omega (arith, free_digits)) (lo-hi-Agree k h);
    }

    IsLongest-same : lo ≡ hi → IsLongest m.width (values (m ∷ ms)) m.width
    IsLongest-same same = record {
      within = omega arith;
      agree = Agree-of_lo-hi m.width (ap (λ (t : ℕ). t / 2 ^ (m.width - m.width)) same);
      longest = λ k p q. absurd (omega arith);
    }

    pub shared_bits-IsLongest : IsLongest m.width (values (m ∷ ms)) (shared_bits lo hi m.width)
    unfolding shared_bits
    shared_bits-IsLongest = elim (Bool-cases (lo == hi)) [
      | inl same ↦ rw same (IsLongest-same ((==_iff lo hi).0 same))
      | inr other ↦ rw other IsLongest-differ
    ]

    -- For members that fit the width, `sharedBits` is the length of the longest common prefix of
    -- their binary digits: all agree on that many leading digits, and on no more.
    pub compute_group-IsLongest :
        (n : ℕ) × ((compute_group m ms).shared ≡ some n) × IsLongest m.width (values (m ∷ ms)) n
    unfolding compute_group
    compute_group-IsLongest = (shared_bits lo hi m.width, refl, shared_bits-IsLongest)
