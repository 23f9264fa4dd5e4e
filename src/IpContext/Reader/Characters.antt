-- ===== src/IpContext/Reader/Characters.antt =====
-- frontend/state.js, `parseIPContext`: what `TextDecoder` reads from the bytes of a character.
use revealnetworktrouble.Prelude.{
  ℕ, ◌+◌, ◌-◌, ◌*◌, ◌/◌, ◌%◌, ◌<◌, ◌≤◌, ◌≡◌, refl, ◌∙◌, ap, ap₂, inl, inr, Bool, true, false, ◌&&◌,
  Option, none, some, List, [], ◌∷◌, ◌++◌, arith, ltb, leb, ◌==◌, if◌then◌else◌, Bool-cases, Text,
}
use revealnetworktrouble.Requests.ApiError.{is_high, is_low}
use revealnetworktrouble.IpContext.Reader.{
  Decoder, between_characters, lead_byte, units_of, before, after_lead, decode_from,
}

-- The bytes of a character up to U+FFFF, and of one above.
abbrev pub unit_utf8 : ℕ → List ℕ
unit_utf8 u =
    if ltb u 0x80
    then u ∷ []
    else if ltb u 0x800
    then (0xc0 + u / 64) ∷ (0x80 + u % 64) ∷ []
    else (0xe0 + u / 4096) ∷ (0x80 + u / 64 % 64) ∷ (0x80 + u % 64) ∷ []

abbrev pub pair_utf8 : ℕ → List ℕ
pair_utf8 p =
    (0xf0 + p / 262144) ∷ (0x80 + p / 4096 % 64) ∷ (0x80 + p / 64 % 64) ∷ (0x80 + p % 64) ∷ []

decode_plain :
    (b : ℕ) (bs : List ℕ)
    → ltb b 0x80 ≡ true
    → decode_from between_characters (b ∷ bs) ≡ before (b ∷ []) (decode_from between_characters bs)
unfolding decode_from
decode_plain b bs h = rw h refl

decode_lead :
    (b : ℕ) (bs : List ℕ) (d : Decoder)
    → ltb b 0x80 ≡ false
    → lead_byte b ≡ some d
    → decode_from between_characters (b ∷ bs) ≡ decode_from d bs
unfolding decode_from
decode_lead b bs d h k =
    ap
      (λ x.
        if x
        then before (b ∷ []) (decode_from between_characters bs)
        else after_lead (λ e. decode_from e bs) (lead_byte b))
      h
    ∙ ap (after_lead (λ e. decode_from e bs)) k

module _ (needed lower upper point b : ℕ) (bs : List ℕ) where
  abbrev inside : Decoder
  inside = record { needed = needed; lower = lower; upper = upper; point = point }

  abbrev bits : ℕ
  bits = point * 64 + (b - 0x80)

  abbrev choice : Bool → Bool → Bool → Option Text
  choice fresh within last =
      if fresh
      then if ltb b 0x80
        then before (b ∷ []) (decode_from between_characters bs)
        else after_lead (λ e. decode_from e bs) (lead_byte b)
      else if within
      then if last
        then before (units_of bits) (decode_from between_characters bs)
        else decode_from (record between_characters { needed = needed - 1; point = bits }) bs
      else none

  decode_more :
      (needed == 0) ≡ false
      → (leb lower b && leb b upper) ≡ true
      → (needed == 1) ≡ false
      → decode_from inside (b ∷ bs)
        ≡ decode_from (record between_characters { needed = needed - 1; point = bits }) bs
  unfolding decode_from
  decode_more h k l =
      ap (λ x. choice x (leb lower b && leb b upper) (needed == 1)) h
      ∙ ap (λ x. choice false x (needed == 1)) k
      ∙ ap (choice false true) l

  decode_last :
      (needed == 0) ≡ false
      → (leb lower b && leb b upper) ≡ true
      → (needed == 1) ≡ true
      → decode_from inside (b ∷ bs) ≡ before (units_of bits) (decode_from between_characters bs)
  unfolding decode_from
  decode_last h k l =
      ap (λ x. choice x (leb lower b && leb b upper) (needed == 1)) h
      ∙ ap (λ x. choice false x (needed == 1)) k
      ∙ ap (choice false true) l

-- The bytes behind the first.
in_range : (n : ℕ) → (leb 0x80 (0x80 + n % 64) && leb (0x80 + n % 64) 0xbf) ≡ true
in_range n = ground arith

lead_two :
    (b : ℕ)
    → (leb 0xc2 b && leb b 0xdf) ≡ true
    → lead_byte b ≡ some (record between_characters { needed = 1; point = b % 32 })
lead_two b h = rw h refl

lead_three :
    (b : ℕ)
    → (leb 0xc2 b && leb b 0xdf) ≡ false
    → (leb 0xe0 b && leb b 0xef) ≡ true
    → lead_byte b
      ≡ some (record {
        needed = 2;
        lower = if b == 0xe0 then 0xa0 else 0x80;
        upper = if b == 0xed then 0x9f else 0xbf;
        point = b % 16;
      })
lead_three b h k = rw (h, k) refl

lead_four :
    (b : ℕ)
    → (leb 0xc2 b && leb b 0xdf) ≡ false
    → (leb 0xe0 b && leb b 0xef) ≡ false
    → (leb 0xf0 b && leb b 0xf4) ≡ true
    → lead_byte b
      ≡ some (record {
        needed = 3;
        lower = if b == 0xf0 then 0x90 else 0x80;
        upper = if b == 0xf4 then 0x8f else 0xbf;
        point = b % 8;
      })
lead_four b h k l = rw (h, k, l) refl

-- Characters of two, three and four bytes.
decode_two :
    (u : ℕ) (bs : List ℕ)
    → 0x80 ≤ u
    → u < 0x800
    → decode_from between_characters ((0xc0 + u / 64) ∷ (0x80 + u % 64) ∷ bs)
      ≡ before (units_of u) (decode_from between_characters bs)
decode_two u bs h k =
    let b = 0xc0 + u / 64 in
    let c = 0x80 + u % 64 in
    let value : b % 32 * 64 + (c - 0x80) ≡ u = omega arith in
    decode_lead b (c ∷ bs) _ (ground arith) (lead_two b (ground arith))
    ∙ decode_last 1 0x80 0xbf (b % 32) c bs refl (in_range u) refl
    ∙ ap (λ n. before (units_of n) (decode_from between_characters bs)) value

three_range :
    (u : ℕ)
    → 0x800 ≤ u
    → u < 0x10000
    → is_high u ≡ false
    → is_low u ≡ false
    → (leb (if 0xe0 + u / 4096 == 0xe0 then 0xa0 else 0x80) (0x80 + u / 64 % 64)
        && leb (0x80 + u / 64 % 64) (if 0xe0 + u / 4096 == 0xed then 0x9f else 0xbf))
      ≡ true
three_range u h k high low = ground (arith, high, low)

decode_three :
    (u : ℕ) (bs : List ℕ)
    → 0x800 ≤ u
    → u < 0x10000
    → is_high u ≡ false
    → is_low u ≡ false
    → decode_from between_characters
        ((0xe0 + u / 4096) ∷ (0x80 + u / 64 % 64) ∷ (0x80 + u % 64) ∷ bs)
      ≡ before (units_of u) (decode_from between_characters bs)
decode_three u bs h k high low =
    let b = 0xe0 + u / 4096 in
    let c = 0x80 + u / 64 % 64 in
    let d = 0x80 + u % 64 in
    let point = b % 16 * 64 + (c - 0x80) in
    let value : point * 64 + (d - 0x80) ≡ u = omega arith in
    decode_lead b (c ∷ d ∷ bs) _ (ground arith) (lead_three b (ground arith) (ground arith))
    ∙ decode_more 2 _ _ (b % 16) c (d ∷ bs) refl (three_range u h k high low) refl
    ∙ decode_last 1 0x80 0xbf point d bs refl (in_range u) refl
    ∙ ap (λ n. before (units_of n) (decode_from between_characters bs)) value

four_range :
    (p : ℕ)
    → 0x10000 ≤ p
    → p < 0x110000
    → (leb (if 0xf0 + p / 262144 == 0xf0 then 0x90 else 0x80) (0x80 + p / 4096 % 64)
        && leb (0x80 + p / 4096 % 64) (if 0xf0 + p / 262144 == 0xf4 then 0x8f else 0xbf))
      ≡ true
four_range p h k = ground arith

pub decode_four :
    (p : ℕ) (bs : List ℕ)
    → 0x10000 ≤ p
    → p < 0x110000
    → decode_from between_characters (pair_utf8 p ++ bs)
      ≡ before (units_of p) (decode_from between_characters bs)
decode_four p bs h k =
    let b = 0xf0 + p / 262144 in
    let c = 0x80 + p / 4096 % 64 in
    let d = 0x80 + p / 64 % 64 in
    let e = 0x80 + p % 64 in
    let first = b % 8 * 64 + (c - 0x80) in
    let second = first * 64 + (d - 0x80) in
    let value : second * 64 + (e - 0x80) ≡ p = omega arith in
    decode_lead b (c ∷ d ∷ e ∷ bs) _ (ground arith)
      (lead_four b (ground arith) (ground arith) (ground arith))
    ∙ decode_more 3 _ _ (b % 8) c (d ∷ e ∷ bs) refl (four_range p h k) refl
    ∙ decode_more 2 0x80 0xbf first d (e ∷ bs) refl (in_range (p / 64)) refl
    ∙ decode_last 1 0x80 0xbf second e bs refl (in_range p) refl
    ∙ ap (λ n. before (units_of n) (decode_from between_characters bs)) value

is_below : (u : ℕ) → u < 0x10000 → ltb u 0x10000 ≡ true
is_below u k = ground (arith, k)

pub decode_unit :
    (u : ℕ) (bs : List ℕ)
    → u < 0x10000
    → is_high u ≡ false
    → is_low u ≡ false
    → decode_from between_characters (unit_utf8 u ++ bs)
      ≡ before (u ∷ []) (decode_from between_characters bs)
decode_unit u bs k high low = elim (Bool-cases (ltb u 0x80)) [
  | inl e ↦ rw e (decode_plain u bs e)
  | inr e ↦ elim (Bool-cases (ltb u 0x800)) [
    | inl f ↦ rw (e, f) (decode_two u bs (ground (arith, e)) (ground (arith, f)) ∙ alone)
    | inr f ↦ rw (e, f) (decode_three u bs (ground (arith, f)) k high low ∙ alone)
  ]
]
  where
    alone :
        before (units_of u) (decode_from between_characters bs)
        ≡ before (u ∷ []) (decode_from between_characters bs)
    alone =
        ap
          (λ x.
            before
              (if x
                then u ∷ []
                else (0xd800 + (u - 0x10000) / 0x400) ∷ (0xdc00 + (u - 0x10000) % 0x400) ∷ [])
              (decode_from between_characters bs))
          (is_below u k)

pub units_of-pair :
    (high low : ℕ)
    → is_high high ≡ true
    → is_low low ≡ true
    → units_of (0x10000 + (high - 0xd800) * 1024 + (low - 0xdc00)) ≡ high ∷ low ∷ []
units_of-pair high low h l =
    let p = 0x10000 + (high - 0xd800) * 1024 + (low - 0xdc00) in
    let above : ltb p 0x10000 ≡ false = ground arith in
    let first : 0xd800 + (p - 0x10000) / 0x400 ≡ high = ground (arith, h, l) in
    let second : 0xdc00 + (p - 0x10000) % 0x400 ≡ low = ground (arith, h, l) in
    ap
      (λ x.
        if x
        then p ∷ []
        else (0xd800 + (p - 0x10000) / 0x400) ∷ (0xdc00 + (p - 0x10000) % 0x400) ∷ [])
      above
    ∙ ap₂ (λ x y. x ∷ y ∷ []) first second
