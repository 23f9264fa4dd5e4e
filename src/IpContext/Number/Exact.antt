-- ===== src/IpContext/Number/Exact.antt =====
-- frontend/state.js, `contextNumber`: no rounding.
use revealnetworktrouble.Prelude.{
  decimal_from, ℕ, zero, suc, ◌+◌, ◌-◌, ◌*◌, ◌^◌, ◌≤◌, ◌<◌, ◌≡◌, ◌⊎◌, refl, sym, ◌∙◌, ap, ap₂, inl,
  inr, Bool, true, false, not, ◌&&◌, ◌||◌, some, List, [], ◌∷◌, ◌++◌, arith, dec_le, ltb, leb, ◌==◌,
  if◌then◌else◌, leb→le, Bool-cases, >>=-eq-some, guard_then, length, is_nil, take, drop, replicate,
  all, length-replicate, Text, if_holds, is_digit, decimal,
}
use mathlib.Core.Option.{some-injective}
use native.Mathlib.Nat.{mul_assoc, pow-suc}
use revealnetworktrouble.IpContext.Number.{
  Parts, sign_length, strip_zeros, are_zeros, scaled, raw_exponent, raw_or_zero, is_minus,
  exponent_size, scale_up, scale_down, context_number, exact_from,
}

pow_add : (a b : ℕ) → 10 ^ (a + b) ≡ 10 ^ a * 10 ^ b
pow_add a zero = let sum : a + 0 ≡ a = omega arith in rw sum (omega arith)
pow_add a (suc b) =
    let sum : a + suc b ≡ suc (a + b) = omega arith in
    rw (sum, pow-suc 10 (a + b), pow-suc 10 b)
      (ap (λ (n : ℕ). n * 10) (pow_add a b) ∙ mul_assoc (10 ^ a) (10 ^ b) 10)

regroup : (a x p d : ℕ) → (a * 10 + x) * p + d ≡ a * (p * 10) + (x * p + d)
regroup a x p d = grind arith

decimal_from_shift : (a : ℕ) (t : Text) → decimal_from a t ≡ a * 10 ^ length t + decimal t
unfolding decimal_from
decimal_from_shift a [] = omega arith
decimal_from_shift a (c ∷ t) =
    let first : 0 * 10 + (c - 48) ≡ c - 48 = omega arith in
    let there =
      decimal_from_shift (0 * 10 + (c - 48)) t
      ∙ ap (λ (n : ℕ). n * 10 ^ length t + decimal t) first in
    decimal_from_shift (a * 10 + (c - 48)) t
    ∙ regroup a (c - 48) (10 ^ length t) (decimal t)
    ∙ ap₂ (λ (n k : ℕ). a * n + k) (sym (pow-suc 10 (length t))) (sym there)

decimal-append : (s t : Text) → decimal (s ++ t) ≡ decimal s * 10 ^ length t + decimal t
unfolding decimal_from
decimal-append s t = from 0 s
  where
    from :
        (a : ℕ) (u : Text) → decimal_from a (u ++ t) ≡ decimal_from a u * 10 ^ length t + decimal t
    from a [] = decimal_from_shift a t
    from a (c ∷ u) = from (a * 10 + (c - 48)) u

decimal-strip_zeros : (t : Text) → decimal (strip_zeros t) ≡ decimal t
unfolding decimal_from
decimal-strip_zeros [] = refl
decimal-strip_zeros (c ∷ t) =
    if_holds (λ u. decimal u ≡ decimal (c ∷ t)) (c == b'0') (strip_zeros t) (c ∷ t)
      (λ z. decimal-strip_zeros t ∙ ap (λ (n : ℕ). decimal_from n t) (ground (arith, z)))
      (λ _. refl)

decimal-zeros : (t : Text) → are_zeros t ≡ true → decimal t ≡ 0
unfolding decimal_from
decimal-zeros [] h = refl
decimal-zeros (c ∷ t) h = elim (Bool-cases (c == b'0')) [
  | inl z ↦
      let n : 0 * 10 + (c - 48) ≡ 0 = ground (arith, z) in
      ap (λ (k : ℕ). decimal_from k t) n ∙ decimal-zeros t (ground (arith, h))
  | inr z ↦ absurd (ground (arith, h, z))
]

zeros-are_zeros : (k : ℕ) → are_zeros (replicate k b'0') ≡ true
zeros-are_zeros zero = refl
zeros-are_zeros (suc k) = zeros-are_zeros k

take-drop : {A : Type 0} (n : ℕ) (xs : List A) → take n xs ++ drop n xs ≡ xs
take-drop zero xs = refl
take-drop (suc n) [] = refl
take-drop (suc n) (x ∷ xs) = ap (λ ys. x ∷ ys) (take-drop n xs)

length-drop {ℓ} : {A : Type ℓ} (n : ℕ) (xs : List A) → length (drop n xs) ≡ length xs - n
length-drop zero xs = omega arith
length-drop (suc n) [] = omega arith
length-drop (suc n) (x ∷ xs) = omega (arith, length-drop n xs)

lt_of_both : (a b : ℕ) (c : Bool) → ltb a b && c ≡ true → a < b
lt_of_both a b c h = ground (arith, h)

-- What is scaled is the digits' value, by the power of ten that is added or taken away.
scaled_value :
    (digits ds : Text) (down up : ℕ)
    → scaled digits down up ≡ some ds
    → (down ≡ 0) ⊎ (up ≡ 0)
    → decimal ds * 10 ^ down ≡ decimal digits * 10 ^ up
scaled_value digits ds zero up h o = elim (Bool-cases (leb (length digits + up) 10)) [
  | inl t ↦
      let made : digits ++ replicate up b'0' ≡ ds = ground (arith, h, t) in
      let zeros = decimal-zeros (replicate up b'0') (zeros-are_zeros up) in
      let value = decimal-append digits (replicate up b'0') in
      omega (
        arith,
        ap decimal made,
        value,
        zeros,
        ap (λ (k : ℕ). decimal digits * 10 ^ k) (length-replicate {A = ℕ} up b'0'),
      )
  | inr f ↦ absurd (ground (arith, h, f))
]
scaled_value digits ds (suc down) up h o =
    let kept = length digits - suc down in
    elim (Bool-cases (ltb (suc down) (length digits) && are_zeros (drop kept digits))) [
      | inl t ↦
          let made : take kept digits ≡ ds = ground (arith, h, t) in
          let zeros = decimal-zeros (drop kept digits) (ground (arith, t)) in
          let size : length (drop kept digits) ≡ suc down = omega (
            arith,
            length-drop kept digits,
            lt_of_both (suc down) (length digits) (are_zeros (drop kept digits)) t,
          ) in
          let none_up : up ≡ 0 = ground (arith, o) in
          let parts = ap decimal (take-drop kept digits) in
          let value = decimal-append (take kept digits) (drop kept digits) in
          let whole : decimal digits ≡ decimal ds * 10 ^ suc down = omega (
            arith,
            parts,
            value,
            zeros,
            ap decimal made,
            ap₂ (λ (n k : ℕ). n * 10 ^ k) (ap decimal made) size,
          ) in
          rw none_up (omega (arith, whole))
      | inr f ↦ absurd (ground (arith, h, f))
    ]

digits-strip_zeros : (t : Text) → all is_digit t ≡ true → all is_digit (strip_zeros t) ≡ true
digits-strip_zeros [] h = refl
digits-strip_zeros (c ∷ t) h =
    if_holds (λ u. all is_digit u ≡ true) (c == b'0') (strip_zeros t) (c ∷ t)
      (λ _. digits-strip_zeros t (ground (arith, h))) (λ _. h)

digits_unsigned : (t : Text) → all is_digit t ≡ true → (sign_length t ≡ 0) × (is_minus t ≡ false)
digits_unsigned [] h = (refl, refl)
digits_unsigned (c ∷ t) h = ground (arith, h)

nil-cases : (t : Text) → (t ≡ []) ⊎ (is_nil t ≡ false)
nil-cases [] = inl refl
nil-cases (c ∷ t) = inr refl

-- The exponent, as it is written, without the zeros that it begins with.
raw_digits :
    (t : Text)
    → all is_digit t ≡ true
    → (exponent_size (raw_or_zero (strip_zeros t)) ≡ decimal t)
      × (is_minus (raw_or_zero (strip_zeros t)) ≡ false)
unfolding decimal_from
raw_digits t h =
    let u = strip_zeros t in
    let (unsigned, plus) = digits_unsigned u (digits-strip_zeros t h) in
    elim (nil-cases u) [
      | inl nothing ↦
          let value : decimal t ≡ 0 = sym (decimal-strip_zeros t) ∙ ap decimal nothing in
          rw nothing (sym value, refl)
      | inr some_digit ↦
          rw some_digit (ap (λ (k : ℕ). decimal (drop k u)) unsigned ∙ decimal-strip_zeros t, plus)
    ]

exponent-raw :
    (t : Text)
    → all is_digit (drop (sign_length t) t) ≡ true
    → (exponent_size (raw_exponent t) ≡ exponent_size t) × (is_minus (raw_exponent t) ≡ is_minus t)
unfolding decimal_from
exponent-raw [] h = (refl, refl)
exponent-raw (c ∷ t) h = elim (Bool-cases (c == b'+' || c == b'-')) [
  | inl s ↦
      let size =
        ap (λ (b : Bool). decimal (drop (if b then 1 else 0) (c ∷ strip_zeros t))) s
        ∙ decimal-strip_zeros t in
      rw s (size, refl)
  | inr u ↦
      let plain = sym (ap (λ (b : Bool). all is_digit (drop (if b then 1 else 0) (c ∷ t))) u) ∙ h in
      let (size, plus) = raw_digits (c ∷ t) plain in
      rw u (size, plus ∙ sym (digits_unsigned (c ∷ t) plain).1)
]

fraction_balance :
    (minus : Bool) (size fraction m n : ℕ)
    → n * 10 ^ scale_down minus size fraction ≡ m * 10 ^ scale_up minus size fraction
    → n * 10 ^ (fraction + (if minus then size else 0)) ≡ m * 10 ^ (if minus then 0 else size)
fraction_balance true size fraction m n h = ap (λ (k : ℕ). n * 10 ^ k) (omega arith) ∙ h
fraction_balance false size fraction m n h = elim (dec_le fraction size) [
  | yes le ↦
      let up = size - fraction in
      let none_down : fraction - size ≡ 0 = omega arith in
      let flat : n * 10 ^ (fraction - size) ≡ n * 10 ^ 0 = ap (λ (k : ℕ). n * 10 ^ k) none_down in
      let value : n ≡ m * 10 ^ up = omega (arith, h, flat) in
      ap (λ (k : ℕ). n * 10 ^ k) (omega arith)
      ∙ ap (λ (k : ℕ). k * 10 ^ fraction) value
      ∙ mul_assoc m (10 ^ up) (10 ^ fraction)
      ∙ ap (λ (k : ℕ). m * k) (sym (pow_add up fraction))
      ∙ ap (λ (k : ℕ). m * 10 ^ k) (omega arith)
  | no gt ↦
      let down = fraction - size in
      let none_up : size - fraction ≡ 0 = omega arith in
      let flat : m * 10 ^ (size - fraction) ≡ m * 10 ^ 0 = ap (λ (k : ℕ). m * 10 ^ k) none_up in
      let value : n * 10 ^ down ≡ m = omega (arith, h, flat) in
      ap (λ (k : ℕ). n * 10 ^ k) (omega arith)
      ∙ ap (λ (k : ℕ). n * k) (pow_add down size)
      ∙ sym (mul_assoc n (10 ^ down) (10 ^ size))
      ∙ ap (λ (k : ℕ). k * 10 ^ size) value
]

one_is_zero :
    (minus : Bool) (size fraction : ℕ)
    → (scale_down minus size fraction ≡ 0) ⊎ (scale_up minus size fraction ≡ 0)
one_is_zero true size fraction = inr refl
one_is_zero false size fraction = elim (dec_le fraction size) [
  | yes le ↦ inl (omega arith)
  | no gt ↦ inr (omega arith)
]

exact_from_value :
    (negative : Bool) (raw_length : ℕ) (minus : Bool) (size fraction : ℕ) (digits : Text) (n : ℕ)
    → exact_from negative raw_length minus size fraction digits ≡ some n
    → (n ≤ 4294967295)
      × (negative ≡ false)
      × (n * 10 ^ (fraction + (if minus then size else 0))
          ≡ decimal digits * 10 ^ (if minus then 0 else size))
unfolding exact_from
exact_from_value negative raw_length minus size fraction digits n h =
    let (plus, h1) = guard_then (not negative) _ h in
    let (_, h2) = guard_then (leb raw_length 6) _ h1 in
    let (ds, made, h3) =
      >>=-eq-some (scaled digits (scale_down minus size fraction) (scale_up minus size fraction)) _
        h2 in
    let (_, h4) = guard_then (leb (length ds) 10) _ h3 in
    let (small, h5) = guard_then (leb (decimal ds) 4294967295) _ h4 in
    let value = some-injective (decimal ds) n h5 in
    (
      rw (← value) (leb→le (decimal ds) 4294967295 small),
      ground (arith, plus),
      fraction_balance minus size fraction (decimal digits) n (
          rw (← value) (
            scaled_value digits ds (scale_down minus size fraction) (scale_up minus size fraction)
              made (one_is_zero minus size fraction))),
    )

both_zero : (n m x y : ℕ) → n ≡ 0 → m ≡ 0 → n * x ≡ m * y
both_zero n m x y h k = omega (arith, ap (λ (a : ℕ). a * x) h, ap (λ (a : ℕ). a * y) k)

clash : {b : Bool} → b ≡ true → b ≡ false → ⊥
clash {b} t f = cc

-- When contextNumber returns a number, it is at most 4294967295, it is 0 after a minus sign, and it is exactly
-- the number that is written: the digits of the whole and the fraction, scaled by ten to the exponent.
pub context_number-exact :
    (p : Parts) (n : ℕ)
    → all is_digit (drop (sign_length p.exponent) p.exponent) ≡ true
    → context_number p ≡ some n
    → (n ≤ 4294967295)
      × (p.negative ≡ true → n ≡ 0)
      × (n
            * 10
              ^ (length p.fraction + (if is_minus p.exponent then exponent_size p.exponent else 0))
          ≡ decimal (p.whole ++ p.fraction)
            * 10 ^ (if is_minus p.exponent then 0 else exponent_size p.exponent))
unfolding context_number decimal_from
context_number-exact p n written h =
    let digits = strip_zeros (p.whole ++ p.fraction) in
    let (size, minus) = exponent-raw p.exponent written in
    elim (nil-cases digits) [
      | inl nothing ↦
          let zero_value : n ≡ 0 = sym (some-injective 0 n (rw nothing at h)) in
          let zero_digits : decimal (p.whole ++ p.fraction) ≡ 0 =
            sym (decimal-strip_zeros (p.whole ++ p.fraction)) ∙ ap decimal nothing in
          (
            omega (arith, zero_value),
            (λ _. zero_value),
            both_zero n (decimal (p.whole ++ p.fraction)) _ _ zero_value zero_digits,
          )
      | inr more ↦
          let (small, plus, value) = exact_from_value p.negative _ _ _ _ digits n (rw more at h) in
          (
            small,
            (λ minus_sign. absurd (clash minus_sign plus)),
            rw (← size, ← minus, ← decimal-strip_zeros (p.whole ++ p.fraction)) value,
          )
    ]

pub context_number-le : (p : Parts) (n : ℕ) → context_number p ≡ some n → n ≤ 4294967295
unfolding context_number
context_number-le p n h =
    let digits = strip_zeros (p.whole ++ p.fraction) in
    elim (nil-cases digits) [
      | inl nothing ↦ omega (arith, sym (some-injective 0 n (rw nothing at h)))
      | inr more ↦
          let raw = raw_exponent p.exponent in
          (exact_from_value p.negative (length raw) (is_minus raw) (exponent_size raw)
            (length p.fraction) digits n (rw more at h)).0
    ]
