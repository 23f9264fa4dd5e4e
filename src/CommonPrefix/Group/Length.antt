-- ===== src/CommonPrefix/Group/Length.antt =====
-- The loop that counts binary digits, and what the exclusive or of two numbers says about them.
use revealnetworktrouble.Prelude.{
  ℕ, zero, suc, ◌+◌, ◌/◌, ◌^◌, ◌≤◌, ◌<◌, bit_xor, ◌≡◌, ◌≢◌, sym, ◌∙◌, ap, inl, inr, dec_le,
  Bool-cases, ◌==◌, ==_iff, arith,
}
use revealnetworktrouble.Prelude.Bits.{div-two_pow-suc, bit_xor-shift, eq_of_bit_xor, bit_xor_self}
use revealnetworktrouble.CommonPrefix.Group.{bit_length_from, bit_length}
use native.Mathlib.Nat.{div-one, div-eq_of_lt}

-- `k` is the number of binary digits of `c`.
pub record IsLength (c k : ℕ) : Type 0 where
  pub enough : c / 2 ^ k ≡ 0
  pub least : (j : ℕ) → j < k → c / 2 ^ j ≢ 0

IsLength-suc : (c k : ℕ) → c ≢ 0 → IsLength (c / 2) k → IsLength c (suc k)
IsLength-suc c k pos h = record { enough = div-two_pow-suc c k ∙ h.enough; least = below }
  where
    below : (j : ℕ) → j < suc k → c / 2 ^ j ≢ 0
    below zero lt e = pos (sym (div-one c) ∙ e)
    below (suc j) lt e = h.least j (omega arith) (sym (div-two_pow-suc c j) ∙ e)

bit_length_from-IsLength :
    (fuel c len : ℕ) → c ≤ fuel → (k : ℕ) × (bit_length_from fuel c len ≡ len + k) × IsLength c k
unfolding bit_length_from
bit_length_from-IsLength zero c len h =
    (0, omega arith, record { enough = rw div-one (omega arith); least = λ j lt. elim lt [ ] })
bit_length_from-IsLength (suc fuel) c len h = elim (Bool-cases (c == 0)) [
  | inl done ↦ (
    0,
    rw done (omega arith),
    record { enough = rw div-one ((==_iff c 0).0 done); least = λ j lt. elim lt [ ] },
  )
  | inr more ↦
      let (k, e, l) = bit_length_from-IsLength fuel (c / 2) (len + 1) (ground arith) in
      (suc k, rw more (omega arith), IsLength-suc c k (ground arith) l)
]

pub bit_length-IsLength : (n : ℕ) → IsLength n (bit_length n)
unfolding bit_length
bit_length-IsLength n =
    let (k, e, l) = bit_length_from-IsLength n n 0 (omega arith) in
    let same : bit_length_from n n 0 ≡ k = omega arith in rw same l

module _ (a b : ℕ) where
  -- Above the digits of the exclusive or the two numbers agree, and at its top digit they differ.
  pub agree_above : a / 2 ^ bit_length (bit_xor a b) ≡ b / 2 ^ bit_length (bit_xor a b)
  agree_above = eq_of_bit_xor _ _ (
      sym (bit_xor-shift (bit_length (bit_xor a b)) a b)
      ∙ (bit_length-IsLength (bit_xor a b)).enough)

  pub differ_below : (j : ℕ) → j < bit_length (bit_xor a b) → a / 2 ^ j ≢ b / 2 ^ j
  differ_below j lt e = (bit_length-IsLength (bit_xor a b)).least j lt (
      bit_xor-shift j a b
      ∙ (ap (λ (t : ℕ). bit_xor (a / 2 ^ j) t) (sym e) ∙ bit_xor_self (a / 2 ^ j)))

  -- Two numbers of at most `w` digits have an exclusive or of at most `w` digits.
  pub bit_length-le : (w : ℕ) → a < 2 ^ w → b < 2 ^ w → bit_length (bit_xor a b) ≤ w
  bit_length-le w p q = elim (dec_le (bit_length (bit_xor a b)) w) [
    | yes le ↦ le
    | no nle ↦ absurd (differ_below w (omega arith) (div-eq_of_lt p ∙ sym (div-eq_of_lt q)))
  ]
