-- ===== src/Requests/ApiError/Unicode.antt =====
-- frontend/state.js, `parseStrictAPIErrorJSON`: what can be said of the strings that it hands on.
use revealnetworktrouble.Prelude.{
  ℕ, zero, suc, ◌+◌, ◌≤◌, ◌≡◌, refl, inl, inr, true, false, ◌&&◌, Option, none, some, List, [], ◌∷◌,
  ◌++◌, arith, ltb, ◌==◌, Bool-cases, length, length-append, Text,
}
use revealnetworktrouble.Requests.ApiError.{
  unicode_escape, raw_pair, low_escape, after_unit, pair_escape, string_limit, read_unit,
  read_escape, hex_unit, escaped, simple_escape, string_from, round_string, is_high, is_low,
}

-- Text in which surrogates stand in pairs only.
pub data IsUnicode : Text → Type 0 where
  ended : IsUnicode []
  plain :
      {u : ℕ} {t : Text} → is_high u ≡ false → is_low u ≡ false → IsUnicode t → IsUnicode (u ∷ t)
  pair :
      {high low : ℕ} {t : Text}
      → is_high high ≡ true
      → is_low low ≡ true
      → IsUnicode t
      → IsUnicode (high ∷ low ∷ t)

-- What one round appends.
data IsPiece : List ℕ → Type 0 where
  one : {u : ℕ} → is_high u ≡ false → is_low u ≡ false → IsPiece (u ∷ [])
  two : {high low : ℕ} → is_high high ≡ true → is_low low ≡ true → IsPiece (high ∷ low ∷ [])

piece-append : {us t : List ℕ} → IsPiece us → IsUnicode t → IsUnicode (us ++ t)
piece-append (one h l) k = plain h l k
piece-append (two h l) k = pair h l k

abbrev Piece : Option (List ℕ × Text) → Type 0
Piece none = Unit {0}
Piece (some (us, t)) = IsPiece us

low_escape-Piece :
    (high : ℕ) (o : Option (ℕ × Text)) → is_high high ≡ true → Piece (low_escape high o)
low_escape-Piece high none h = tt
low_escape-Piece high (some (low, t)) h = elim (Bool-cases (is_low low)) [
  | inl e ↦ rw e (two h e)
  | inr e ↦ rw e tt
]

pair_escape-Piece : (high : ℕ) (t : Text) → is_high high ≡ true → Piece (pair_escape high t)
pair_escape-Piece high [] h = tt
pair_escape-Piece high (a ∷ []) h = tt
pair_escape-Piece high (a ∷ b ∷ t) h = elim (Bool-cases (a == 0x5c && b == b'u')) [
  | inl e ↦ rw e (low_escape-Piece high (hex_unit t) h)
  | inr e ↦ rw e tt
]

unicode_escape-Piece : (o : Option (ℕ × Text)) → Piece (unicode_escape o)
unicode_escape-Piece none = tt
unicode_escape-Piece (some (u, t)) = elim (Bool-cases (is_high u)) [
  | inl h ↦ rw h (pair_escape-Piece u t h)
  | inr h ↦ elim (Bool-cases (is_low u)) [ inl l ↦ rw (h, l) tt | inr l ↦ rw (h, l) (one h l) ]
]

raw_pair-Piece : (high : ℕ) (t : Text) → is_high high ≡ true → Piece (raw_pair high t)
raw_pair-Piece high [] h = tt
raw_pair-Piece high (low ∷ t) h = elim (Bool-cases (is_low low)) [
  | inl e ↦ rw e (two h e)
  | inr e ↦ rw e tt
]

-- An escape that stands for one unit.
simple_escape-plain :
    (e u : ℕ) → simple_escape e ≡ some u → (is_high u ≡ false) × (is_low u ≡ false)
unfolding simple_escape
simple_escape-plain e u h = ground arith

escaped-Piece : (e : ℕ) (t : Text) (o : Option ℕ) → simple_escape e ≡ o → Piece (escaped e t o)
escaped-Piece e t (some u) s = let (h, l) = simple_escape-plain e u s in one h l
escaped-Piece e t none s = elim (Bool-cases (e == b'u')) [
  | inl v ↦ rw v (unicode_escape-Piece (hex_unit t))
  | inr v ↦ rw v tt
]

read_escape-Piece : (t : Text) → Piece (read_escape t)
unfolding read_escape
read_escape-Piece [] = tt
read_escape-Piece (e ∷ t) = escaped-Piece e t (simple_escape e) refl

read_unit-Piece : (u : ℕ) (t : Text) → Piece (read_unit u t)
unfolding read_unit
read_unit-Piece u t = elim (Bool-cases (ltb u 0x20)) [
  | inl a ↦ rw a tt
  | inr a ↦ elim (Bool-cases (u == 0x5c)) [
    | inl b ↦ rw (a, b) (read_escape-Piece t)
    | inr b ↦ elim (Bool-cases (is_high u)) [
      | inl h ↦ rw (a, b, h) (raw_pair-Piece u t h)
      | inr h ↦ elim (Bool-cases (is_low u)) [
        | inl l ↦ rw (a, b, h, l) tt
        | inr l ↦ rw (a, b, h, l) (one h l)
      ]
    ]
  ]
]

-- A string that the parser may hand on.
pub record IsAccepted (s : Text) : Type 0 where
  pub unicode : IsUnicode s
  pub short : length s ≤ string_limit

pub record IsTail (units : ℕ) (s : Text) : Type 0 where
  pub unicode : IsUnicode s
  pub short : units + length s ≤ string_limit

abbrev pub Tail : ℕ → Option (List ℕ × Text) → Type 0
Tail units none = Unit {0}
Tail units (some (s, t)) = IsTail units s

after_unit-Tail :
    (units : ℕ) (us : List ℕ) (o : Option (List ℕ × Text))
    → IsPiece us
    → Tail (units + length us) o
    → Tail units (after_unit us o)
after_unit-Tail units us none p h = tt
after_unit-Tail units us (some (more, t)) p h = record {
  unicode = piece-append p h.unicode;
  short = omega (arith, length-append us more, h.short);
}

round-Tail :
    (later : ℕ → Text → Option (List ℕ × Text)) (units : ℕ) (o : Option (List ℕ × Text))
    → ((n : ℕ) (t : Text) → n ≤ string_limit → Tail n (later n t))
    → Piece o
    → Tail units (round_string later units o)
round-Tail later units none k p = tt
round-Tail later units (some (us, t)) k p =
    elim (Bool-cases (ltb string_limit (units + length us))) [
      | inl e ↦ rw e tt
      | inr e ↦ rw e (
          after_unit-Tail units us (later (units + length us) t) p
            (k (units + length us) t (ground arith)))
    ]

pub string_from-Tail :
    (fuel units : ℕ) (t : Text) → units ≤ string_limit → Tail units (string_from fuel units t)
unfolding string_from
string_from-Tail zero units t h = tt
string_from-Tail (suc fuel) units [] h = tt
string_from-Tail (suc fuel) units (u ∷ t) h = elim (Bool-cases (u == 0x22)) [
  | inl e ↦ rw e (record { unicode = ended; short = omega arith })
  | inr e ↦ rw e (
      round-Tail (string_from fuel) units (read_unit u t) (string_from-Tail fuel)
        (read_unit-Piece u t))
]
