-- ===== src/Prelude/Bits.antt =====
-- Laws of `|`, `&` and `^` on unbounded integers: the code uses them on `BigInt` values, which are
-- never negative here. All go by the lowest digit.
use Prim.Native.Nat.{
  ℕ, zero, suc, ◌+◌, ◌-◌, ◌*◌, ◌/◌, ◌%◌, ◌^◌, ◌≤◌, ◌<◌, min, max, bit_and, bit_or, bit_xor, digits,
  bitwise, differ, bit_and-bitwise, bit_or-bitwise, bit_xor-bitwise,
}
use mathlib.Core.Path.{◌≡◌, refl, ap, sym, ◌∙◌}
use native.Mathlib.Nat.{le_refl, pow-suc, one-le-pow, div-div-eq-div-mul, div-one, mul_comm}
use native.Mathlib.Omega.{arith}

-- From the half of a number to the number.
halving {ℓ} : (P : ℕ → Type ℓ) → P 0 → ((a : ℕ) → P (a / 2) → P a) → (a : ℕ) → P a
halving P base next a = below a a (le_refl a)
  where
    below : (bound n : ℕ) → n ≤ bound → P n
    below bound zero h = base
    below zero (suc n) h = absurd (omega (arith, h))
    below (suc bound) (suc n) h = next (suc n) (below bound (suc n / 2) (omega (arith, h)))

-- Rounds that are not needed change nothing.
module _ (alone : ℕ → ℕ) (op : ℕ → ℕ → ℕ) where
  one_more :
      (rounds x y : ℕ) → x ≤ rounds → digits alone op (suc rounds) x y ≡ digits alone op rounds x y
  one_more rounds zero y h = at_zero rounds
    where
      at_zero : (n : ℕ) → digits alone op (suc n) 0 y ≡ digits alone op n 0 y
      at_zero zero = refl
      at_zero (suc n) = refl
  one_more zero (suc x) y h = absurd (omega (arith, h))
  one_more (suc rounds) (suc x) y h =
      ap (λ d. d * 2 + op (suc x % 2) (y % 2))
        (one_more rounds (suc x / 2) (y / 2) (omega (arith, h)))

  any_more : (spare x y : ℕ) → digits alone op (spare + x) x y ≡ digits alone op x x y
  any_more zero x y = let same : 0 + x ≡ x = omega arith in ap (λ n. digits alone op n x y) same
  any_more (suc spare) x y =
      let same : suc spare + x ≡ suc (spare + x) = omega arith in
      ap (λ n. digits alone op n x y) same
      ∙ one_more (spare + x) x y (omega arith)
      ∙ any_more spare x y

  low_digit :
      (x y : ℕ)
      → bitwise alone op (suc x) y
        ≡ bitwise alone op (suc x / 2) (y / 2) * 2 + op (suc x % 2) (y % 2)
  low_digit x y =
      let half = suc x / 2 in
      let spare : x ≡ x - half + half = omega arith in
      ap (λ d. d * 2 + op (suc x % 2) (y % 2))
        (ap (λ n. digits alone op n half (y / 2)) spare ∙ any_more (x - half) half (y / 2))

pub bit_or_step : (a b : ℕ) → bit_or a b ≡ bit_or (a / 2) (b / 2) * 2 + max (a % 2) (b % 2)
bit_or_step a b = of a
  where
    of : (x : ℕ) → bit_or x b ≡ bit_or (x / 2) (b / 2) * 2 + max (x % 2) (b % 2)
    of zero = simp bit_or-bitwise (omega arith)
    of (suc x) = simp bit_or-bitwise (low_digit (λ y. y) max x b)

pub bit_and_step : (a b : ℕ) → bit_and a b ≡ bit_and (a / 2) (b / 2) * 2 + min (a % 2) (b % 2)
bit_and_step a b = of a
  where
    of : (x : ℕ) → bit_and x b ≡ bit_and (x / 2) (b / 2) * 2 + min (x % 2) (b % 2)
    of zero = simp bit_and-bitwise (omega arith)
    of (suc x) = simp bit_and-bitwise (low_digit (λ y. 0) min x b)

pub bit_xor_step : (a b : ℕ) → bit_xor a b ≡ bit_xor (a / 2) (b / 2) * 2 + differ (a % 2) (b % 2)
bit_xor_step a b = of a
  where
    of : (x : ℕ) → bit_xor x b ≡ bit_xor (x / 2) (b / 2) * 2 + differ (x % 2) (b % 2)
    of zero = simp bit_xor-bitwise (omega arith)
    of (suc x) = simp bit_xor-bitwise (low_digit (λ y. y) differ x b)

with_zero : (a : ℕ) → (bit_or a 0 ≡ a) × (bit_and a 0 ≡ 0)
with_zero =
    halving (λ a. (bit_or a 0 ≡ a) × (bit_and a 0 ≡ 0)) (refl, refl)
      (λ a (o, n). (omega (arith, bit_or_step a 0, o), omega (arith, bit_and_step a 0, n)))

pub mul-two_pow-suc : (q k : ℕ) → q * 2 ^ suc k ≡ 2 * (q * 2 ^ k)
mul-two_pow-suc q k = let twice = pow-suc 2 k in rw twice (ground arith)

-- `(q << k) | r` is a sum when `r` has at most `k` digits.
pub bit_or-shifted : (k q r : ℕ) → r < 2 ^ k → bit_or (q * 2 ^ k) r ≡ q * 2 ^ k + r
bit_or-shifted zero q r fits = let none = with_zero q in ground (arith, none.0)
bit_or-shifted (suc k) q r fits =
    let high = mul-two_pow-suc q k in
    let rest = bit_or-shifted k q (r / 2) (omega arith) in
    ground (arith, high, rest, bit_or_step (q * 2 ^ suc k) r)

-- What the mask of `k` low digits does to a number that is given by its digits above and below.
masked :
    (k q r : ℕ)
    → r < 2 ^ k
    → (bit_and (q * 2 ^ k + r) (2 ^ k - 1) ≡ r)
      × (bit_or (q * 2 ^ k + r) (2 ^ k - 1) ≡ q * 2 ^ k + (2 ^ k - 1))
masked zero q r fits =
    let (o, n) = with_zero (q * 2 ^ 0 + r) in (ground (arith, n), ground (arith, o))
masked (suc k) q r fits =
    let high = mul-two_pow-suc q k in
    let (n, o) = masked k q (r / 2) (omega arith) in
    let some = one-le-pow k 2 in
    let twice = pow-suc 2 k in
    (
      ground (arith, n, high, twice, bit_and_step (q * 2 ^ suc k + r) (2 ^ suc k - 1)),
      ground (arith, o, high, twice, some, bit_or_step (q * 2 ^ suc k + r) (2 ^ suc k - 1)),
    )

-- `a & ((1 << k) - 1)` is the remainder by `2 ^ k`.
pub bit_and-mask : (k a : ℕ) → bit_and a (2 ^ k - 1) ≡ a % 2 ^ k
bit_and-mask k a =
    let some = one-le-pow k 2 in
    ground (arith, some, (masked k (a / 2 ^ k) (a % 2 ^ k) (ground (arith, some))).0)

-- `a | ((1 << k) - 1)` sets the low `k` digits.
pub bit_or-mask : (k a : ℕ) → bit_or a (2 ^ k - 1) ≡ a / 2 ^ k * 2 ^ k + (2 ^ k - 1)
bit_or-mask k a =
    let some = one-le-pow k 2 in
    ground (arith, some, (masked k (a / 2 ^ k) (a % 2 ^ k) (ground (arith, some))).1)

differ-le-one : (a b : ℕ) → a < 2 → b < 2 → differ a b < 2
differ-le-one zero b p q = q
differ-le-one (suc zero) zero p q = omega arith
differ-le-one (suc zero) (suc b) p q = omega arith
differ-le-one (suc (suc a)) b p q = absurd (omega arith)

pub bit_xor-half : (a b : ℕ) → bit_xor a b / 2 ≡ bit_xor (a / 2) (b / 2)
bit_xor-half a b =
    omega (arith, bit_xor_step a b, differ-le-one (a % 2) (b % 2) (omega arith) (omega arith))

eq_of_differ : (a b : ℕ) → a < 2 → b < 2 → differ a b ≡ 0 → a ≡ b
eq_of_differ zero b p q e = sym e
eq_of_differ (suc zero) zero p q e = absurd (omega arith)
eq_of_differ (suc zero) (suc b) p q e = omega arith
eq_of_differ (suc (suc a)) b p q e = absurd (omega arith)

-- Numbers with no differing digit are equal.
pub eq_of_bit_xor : (a b : ℕ) → bit_xor a b ≡ 0 → a ≡ b
eq_of_bit_xor = halving (λ n. (m : ℕ) → bit_xor n m ≡ 0 → n ≡ m) from_zero of_half
  where
    from_zero : (m : ℕ) → bit_xor 0 m ≡ 0 → 0 ≡ m
    from_zero m e = rw bit_xor-bitwise at (sym e)

    of_half :
        (n : ℕ) → ((m : ℕ) → bit_xor (n / 2) m ≡ 0 → n / 2 ≡ m) → (m : ℕ) → bit_xor n m ≡ 0 → n ≡ m
    of_half n ih m e =
        let half = ih (m / 2) (omega (arith, e, bit_xor-half n m)) in
        let low =
          eq_of_differ (n % 2) (m % 2) (omega arith) (omega arith)
            (omega (arith, e, bit_xor_step n m)) in
        omega (arith, half, low)

pub div-two_pow-suc : (a k : ℕ) → a / 2 ^ suc k ≡ a / 2 / 2 ^ k
div-two_pow-suc a k = rw (pow-suc 2 k, mul_comm (2 ^ k) 2) (sym (div-div-eq-div-mul a 2 (2 ^ k)))

-- Shifting commutes with the exclusive or.
pub bit_xor-shift : (k a b : ℕ) → bit_xor a b / 2 ^ k ≡ bit_xor (a / 2 ^ k) (b / 2 ^ k)
bit_xor-shift zero a b = rw (div-one (bit_xor a b), div-one a, div-one b)
bit_xor-shift (suc k) a b =
    rw (div-two_pow-suc (bit_xor a b) k, div-two_pow-suc a k, div-two_pow-suc b k, bit_xor-half a b)
      (bit_xor-shift k (a / 2) (b / 2))

pub bit_xor_self : (a : ℕ) → bit_xor a a ≡ 0
bit_xor_self =
    halving (λ n. bit_xor n n ≡ 0) refl
      (λ n half. omega (arith, half, bit_xor_step n n, same (n % 2) (omega arith)))
  where
    same : (d : ℕ) → d < 2 → differ d d ≡ 0
    same zero p = refl
    same (suc zero) p = refl
    same (suc (suc d)) p = absurd (omega arith)
