-- ===== src/IpContext/Number.antt =====
-- frontend/state.js, `contextNumber`: the exact value of a number in JSON text, which is a whole number of at
use revealnetworktrouble.Prelude.{
  ◌>>=◌, ◌>>◌, [], decimal_from, ℕ, zero, suc, ◌+◌, ◌-◌, Bool, true, false, not, ◌&&◌, ◌||◌, Option,
  none, some, ◌∷◌, ◌++◌, ltb, leb, ◌==◌, if◌then◌else◌, guard, length, is_nil, take, drop,
  replicate, all, Text, is_digit, decimal,
}
-- most 32 bits.
pub mod Exact

-- The groups of `/^(-?)(0|[1-9]\d*)(?:\.(\d+))?(?:[eE]([+-]?\d+))?$/`.
pub record Parts : Type 0 where
  pub negative : Bool
  pub whole : Text
  pub fraction : Text
  pub exponent : Text

abbrev pub digits_of : Text → Text
digits_of [] = []
digits_of (c ∷ t) = let rest = digits_of t in if is_digit c then c ∷ rest else []

abbrev pub strip_zeros : Text → Text
strip_zeros [] = []
strip_zeros (c ∷ t) = let rest = strip_zeros t in if c == b'0' then rest else c ∷ t

-- `(-?)`
abbrev pub split_sign : Text → Bool × Text
split_sign [] = (false, [])
split_sign (c ∷ t) = if c == b'-' then (true, t) else (false, c ∷ t)

-- `(0|[1-9]\d*)`
abbrev pub whole_of : Text → Text
whole_of [] = []
whole_of (c ∷ t) = let ds = digits_of (c ∷ t) in if c == b'0' then c ∷ [] else ds

-- `(?:\.(\d+))?`
abbrev pub fraction_of : Text → Text
fraction_of [] = []
fraction_of (c ∷ t) = let ds = digits_of t in if c == b'.' then ds else []

abbrev pub behind_fraction : Text → Text
behind_fraction [] = []
behind_fraction (c ∷ t) =
    let ds = digits_of t in if c == b'.' && not (is_nil ds) then drop (length ds) t else c ∷ t

-- `(?:[eE]([+-]?\d+))?`
abbrev pub sign_length : Text → ℕ
sign_length [] = 0
sign_length (c ∷ t) = if c == b'+' || c == b'-' then 1 else 0

abbrev pub exponent_of : Text → Text
exponent_of [] = []
exponent_of (c ∷ t) =
    let n = sign_length t in
    let ds = digits_of (drop n t) in
    if (c == b'e' || c == b'E') && not (is_nil ds) then take n t ++ ds else []

abbrev pub behind_exponent : Text → Text
behind_exponent [] = []
behind_exponent (c ∷ t) =
    let n = sign_length t in
    let ds = digits_of (drop n t) in
    if (c == b'e' || c == b'E') && not (is_nil ds) then drop (n + length ds) t else c ∷ t

-- The longest number that a text begins with, and what follows it.
unfoldable pub number_prefix : Text → Option (Parts × Text)
number_prefix t =
    let (negative, unsigned) = split_sign t in
    let whole = whole_of unsigned in
    let behind = drop (length whole) unsigned in
    let fraction = fraction_of behind in
    let tail = behind_fraction behind in
    if is_nil whole
    then none
    else some (
      record {
        negative = negative;
        whole = whole;
        fraction = fraction;
        exponent = exponent_of tail;
      },
      behind_exponent tail,
    )

abbrev pub raw_or_zero : Text → Text
raw_or_zero t = if is_nil t then b'0' ∷ [] else t

-- `rawExponent`: the exponent without the zeros that it begins with, and its sign.
abbrev pub raw_exponent : Text → Text
raw_exponent t = let n = sign_length t in raw_or_zero (take n t ++ strip_zeros (drop n t))

-- `Number(rawExponent)` as a sign and a size; a sign alone is 0.
abbrev pub is_minus : Text → Bool
is_minus [] = false
is_minus (c ∷ t) = c == b'-'

abbrev pub exponent_size : Text → ℕ
exponent_size raw = decimal (drop (sign_length raw) raw)

-- `scale`, as what it adds and what it takes away.
abbrev pub scale_up : Bool → ℕ → ℕ → ℕ
scale_up minus size fraction = if minus then 0 else size - fraction

abbrev pub scale_down : Bool → ℕ → ℕ → ℕ
scale_down minus size fraction = if minus then size + fraction else fraction - size

abbrev pub are_zeros : Text → Bool
are_zeros t = all (λ c. c == b'0') t

-- `digits` without its last `down` zeros, or with `up` zeros more.
abbrev pub scaled : Text → ℕ → ℕ → Option Text
scaled digits zero up =
    if leb (length digits + up) 10 then some (digits ++ replicate up b'0') else none
scaled digits (suc down) up =
    let kept = length digits - suc down in
    if ltb (suc down) (length digits) && are_zeros (drop kept digits)
    then some (take kept digits)
    else none

-- The value of digits that are scaled; the fraction is given by its length.
unfoldable pub exact_from : Bool → ℕ → Bool → ℕ → ℕ → Text → Option ℕ
unfolding decimal_from
exact_from negative raw_length minus size fraction digits = do
  guard (not negative)
  guard (leb raw_length 6)
  ds ← scaled digits (scale_down minus size fraction) (scale_up minus size fraction)
  guard (leb (length ds) 10)
  guard (leb (decimal ds) 4294967295)
  some (decimal ds)

unfoldable pub context_number : Parts → Option ℕ
unfolding exact_from
context_number p =
    let digits = strip_zeros (p.whole ++ p.fraction) in
    let raw = raw_exponent p.exponent in
    if is_nil digits
    then some 0
    else exact_from p.negative (length raw) (is_minus raw) (exponent_size raw) (length p.fraction)
        digits
