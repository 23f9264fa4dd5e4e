-- ===== src/Prelude/Texts.antt =====
-- Text as the code works on it: a list of UTF-16 units. `split`, `join` and number conversions.
use Prim.Native.Nat.{ℕ, zero, suc, ◌+◌, ◌-◌, ◌*◌, ◌/◌, ◌%◌}
use Prim.Native.Char.{code}
use Prim.Native.String.{String}
use mathlib.Core.Path.{◌≡◌, refl}
use native.Mathlib.Omega.{arith}
use mathlib.Core.Bool.{Bool, true, false, ◌&&◌, ◌||◌}
use mathlib.Core.Option.{Option, none, some}
use mathlib.Core.List.{List, [], ◌∷◌, ◌++◌, reverse}
use revealnetworktrouble.Prelude.Tests.{ltb, leb, ◌==◌, if◌then◌else◌}
use revealnetworktrouble.Prelude.Lists.{any}

abbrev pub Text : Type 0
Text = List ℕ

-- A literal of the source, all of whose characters are ASCII.
abbrev pub codes : String → Text
codes String.[] = []
codes (String.◌∷◌ c s) = code c ∷ codes s

abbrev pub text_eq : Text → Text → Bool
text_eq [] [] = true
text_eq [] (b ∷ t) = false
text_eq (a ∷ s) [] = false
text_eq (a ∷ s) (b ∷ t) = a == b && text_eq s t

pub eq_of_text_eq : (s t : Text) → text_eq s t ≡ true → s ≡ t
eq_of_text_eq [] [] h = refl
eq_of_text_eq [] (b ∷ t) h = cc
eq_of_text_eq (a ∷ s) [] h = cc
eq_of_text_eq (a ∷ s) (b ∷ t) h = ground (arith, eq_of_text_eq s t)

pub text_eq_self : (s : Text) → text_eq s s ≡ true
text_eq_self [] = refl
text_eq_self (a ∷ s) = ground (arith, text_eq_self s)

-- `text.includes(c)` for one character.
abbrev pub includes : ℕ → Text → Bool
includes c t = any (λ d. d == c) t

-- Put a unit on the first part.
abbrev pub glue : ℕ → List Text → List Text
glue c [] = (c ∷ []) ∷ []
glue c (p ∷ ps) = (c ∷ p) ∷ ps

-- `text.split(sep)` for a separator of one character.
unfoldable pub split : ℕ → Text → List Text
split sep [] = [] ∷ []
split sep (c ∷ t) = let rest = split sep t in if c == sep then [] ∷ rest else glue c rest

-- `parts.join(sep)`.
unfoldable pub join : ℕ → List Text → Text
join sep [] = []
join sep (p ∷ []) = p
join sep (p ∷ q ∷ ps) = p ++ sep ∷ join sep (q ∷ ps)

-- `text.split('::')`: the leftmost pairs, which do not overlap.
unfoldable pub split_pairs : ℕ → Text → List Text
split_pairs sep [] = [] ∷ []
split_pairs sep (c ∷ []) = (c ∷ []) ∷ []
split_pairs sep (c ∷ d ∷ t) =
    let after = split_pairs sep t in
    let later = split_pairs sep (d ∷ t) in if c == sep && d == sep then [] ∷ after else glue c later

-- `text.match(/::/g)?.length ?? 0`.
unfoldable pub count_pairs : ℕ → Text → ℕ
count_pairs sep [] = 0
count_pairs sep (c ∷ []) = 0
count_pairs sep (c ∷ d ∷ t) =
    let after = count_pairs sep t in
    let later = count_pairs sep (d ∷ t) in if c == sep && d == sep then suc after else later

-- `indexOf` and the two `slice` calls: the text before the first `c`, and the text behind it if
-- there is one.
unfoldable pub cut_at : ℕ → Text → Text × Option Text
cut_at c [] = ([], none)
cut_at c (d ∷ t) =
    let (before, behind) = cut_at c t in if d == c then ([], some t) else (d ∷ before, behind)

abbrev pub is_digit : ℕ → Bool
is_digit c = leb 48 c && leb c 57

-- The value of a hexadecimal digit.
unfoldable pub hex_digit : ℕ → Option ℕ
hex_digit c =
    if is_digit c
    then some (c - 48)
    else if leb 65 c && leb c 70
    then some (c - 55)
    else if leb 97 c && leb c 102
    then some (c - 87)
    else none

-- `Number(text)` for a text of digits.
unfoldable pub decimal_from : ℕ → Text → ℕ
decimal_from acc [] = acc
decimal_from acc (c ∷ t) = decimal_from (acc * 10 + (c - 48)) t

abbrev pub decimal : Text → ℕ
decimal t = decimal_from 0 t

-- `Number.parseInt(text, 16)` for a text of hexadecimal digits.
unfoldable pub hexadecimal_from : ℕ → Text → ℕ
hexadecimal_from acc [] = acc
hexadecimal_from acc (c ∷ t) =
    hexadecimal_from (acc * 16 + elim (hex_digit c) [ none ↦ 0 | some d ↦ d ]) t

abbrev pub hexadecimal : Text → ℕ
hexadecimal t = hexadecimal_from 0 t

abbrev pub digit_code : ℕ → ℕ
digit_code d = if ltb d 10 then 48 + d else 87 + d

-- `number.toString(base)`, with as many rounds as the number is large.
unfoldable pub to_radix_from : ℕ → ℕ → ℕ → Text → Text
to_radix_from base zero n out = out
to_radix_from base (suc fuel) n out =
    let more = to_radix_from base fuel (n / base) (digit_code (n % base) ∷ out) in
    if n / base == 0 then digit_code (n % base) ∷ out else more

abbrev pub to_radix : ℕ → ℕ → Text
to_radix base n = to_radix_from base (suc n) n []

-- The characters that `trim` removes.
abbrev pub is_space : ℕ → Bool
is_space c =
    (leb 9 c && leb c 13)
    || c == 32
    || c == 160
    || c == 0x1680
    || (leb 0x2000 c && leb c 0x200a)
    || c == 0x2028
    || c == 0x2029
    || c == 0x202f
    || c == 0x205f
    || c == 0x3000
    || c == 0xfeff

unfoldable pub trim_start : Text → Text
trim_start [] = []
trim_start (c ∷ t) = let rest = trim_start t in if is_space c then rest else c ∷ t

-- `text.trim()`.
unfoldable pub trim : Text → Text
unfolding trim_start
trim t = reverse (trim_start (reverse (trim_start t)))
