-- ===== src/CommonPrefix/RoundTrip.antt =====
-- Reading the text that `formatValue` prints for an IPv4 value gives the value back.
use revealnetworktrouble.Prelude.{
  is_space, decimal_from, to_radix_from, ℕ, ◌+◌, ◌*◌, ◌/◌, ◌%◌, ◌^◌, ◌<◌, ◌≡◌, refl, ◌∙◌, ap, Bool,
  true, false, ◌&&◌, some, List, [], ◌∷◌, map, arith, leb, ◌==◌, length, all, All, All-append, Text,
  text_eq, includes, split, join, is_digit, decimal, to_radix,
}
use mathlib.Core.List.{foldl}
use revealnetworktrouble.Prelude.Bits.{bit_or-shifted, bit_and-mask}
use revealnetworktrouble.Prelude.Splitting.{
  Free, split-join, NoSpace, trim-NoSpace, tested, tested_at,
}
use revealnetworktrouble.CommonPrefix.Parse.{
  v4, AddressBits, is_byte_text, push_byte, ipv4_bits, parse_address_bits,
}
use revealnetworktrouble.CommonPrefix.Format.{octets, format_value}

-- What the table says of a byte: its decimal text is accepted, is read back, and has only digits.
abbrev byte_test : ℕ → Bool
byte_test b =
    is_byte_text (to_radix 10 b)
    && decimal (to_radix 10 b) == b
    && all is_digit (to_radix 10 b)
    && leb 1 (length (to_radix 10 b))

byte_table : tested 256 byte_test ≡ true
unfolding tested is_byte_text to_radix_from decimal_from
byte_table = refl

record IsByteText (t : Text) (b : ℕ) : Type 0 where
  accepted : is_byte_text t ≡ true
  value : decimal t ≡ b
  digits : all is_digit t ≡ true
  nonempty : leb 1 (length t) ≡ true

byte_text : (b : ℕ) → b < 256 → IsByteText (to_radix 10 b) b
byte_text b h =
    let t = tested_at 256 b byte_test h byte_table in
    record {
      accepted = ground arith;
      value = ground arith;
      digits = ground arith;
      nonempty = ground arith;
    }

digits-Free : (t : Text) → all is_digit t ≡ true → Free b'.' t
digits-Free [] h = tt
digits-Free (c ∷ t) h = (ground arith, digits-Free t (ground arith))

push_byte_text :
    (t : Text) (v b : ℕ) → b < 256 → IsByteText t b → push_byte (some v) t ≡ some (v * 256 + b)
unfolding push_byte
push_byte_text t v b lt h = ground (arith, bit_or-shifted 8 v b)

octets_sum :
    (v : ℕ)
    → v < 2 ^ 32
    → ((v / 2 ^ 24 % 256 * 256 + v / 2 ^ 16 % 256) * 256 + v / 2 ^ 8 % 256) * 256 + v / 2 ^ 0 % 256
      ≡ v
octets_sum v h = omega arith

octets_lem :
    (v : ℕ)
    → octets v ≡ v / 2 ^ 24 % 256 ∷ v / 2 ^ 16 % 256 ∷ v / 2 ^ 8 % 256 ∷ v / 2 ^ 0 % 256 ∷ []
octets_lem v = simp (
  bit_and-mask 8 (v / 2 ^ 24),
  bit_and-mask 8 (v / 2 ^ 16),
  bit_and-mask 8 (v / 2 ^ 8),
  bit_and-mask 8 (v / 2 ^ 0),
)

module _ (a b c d : ℕ) (p : a < 256) (q : b < 256) (r : c < 256) (s : d < 256) where
  abbrev texts : List Text
  texts = to_radix 10 a ∷ to_radix 10 b ∷ to_radix 10 c ∷ to_radix 10 d ∷ []

  split-texts : split b'.' (join b'.' texts) ≡ texts
  split-texts = split-join b'.' _ _ (
    digits-Free _ (byte_text a p).digits,
    (
      digits-Free _ (byte_text b q).digits,
      (digits-Free _ (byte_text c r).digits, (digits-Free _ (byte_text d s).digits, tt)),
    ),
  )

  fold_texts : foldl push_byte (some 0) texts ≡ some (((a * 256 + b) * 256 + c) * 256 + d)
  fold_texts =
      rw
        (
          push_byte_text (to_radix 10 a) 0 a p (byte_text a p),
          push_byte_text (to_radix 10 b) (0 * 256 + a) b q (byte_text b q),
          push_byte_text (to_radix 10 c) ((0 * 256 + a) * 256 + b) c r (byte_text c r),
          push_byte_text (to_radix 10 d) (((0 * 256 + a) * 256 + b) * 256 + c) d s (byte_text d s),
        )
        (ap some (omega arith))

  ipv4_bits-join :
      ipv4_bits (join b'.' texts)
      ≡ some (record { family = v4; width = 32; value = ((a * 256 + b) * 256 + c) * 256 + d })
  unfolding ipv4_bits
  ipv4_bits-join = rw (split-texts, fold_texts)

digits-NoSpace : (t : Text) → all is_digit t ≡ true → NoSpace t
digits-NoSpace [] h = tt
digits-NoSpace (c ∷ t) h = (ground arith, digits-NoSpace t (ground arith))

join-NoSpace : (ps : List Text) → All NoSpace ps → NoSpace (join b'.' ps)
unfolding join
join-NoSpace [] h = tt
join-NoSpace (p ∷ []) h = h.0
join-NoSpace (p ∷ q ∷ ps) (h, hs) =
    All-append (λ c. is_space c ≡ false) p (b'.' ∷ join b'.' (q ∷ ps)) h
      (refl, join-NoSpace (q ∷ ps) hs)

no_blank : (t : Text) → NoSpace t → includes 32 t ≡ false
no_blank [] h = refl
no_blank (c ∷ t) (p, h) = ground (arith, no_blank t h)

ne_nil : (t : Text) (b : AddressBits) → ipv4_bits t ≡ some b → text_eq t [] ≡ false
unfolding ipv4_bits split
ne_nil [] b e = cc
ne_nil (c ∷ t) b e = refl

parse_of_ipv4 :
    (t : Text) (b : AddressBits) → NoSpace t → ipv4_bits t ≡ some b → parse_address_bits t ≡ some b
unfolding parse_address_bits
parse_of_ipv4 t b h e = rw (trim-NoSpace t h, no_blank t h, ne_nil t b e, e)

octet_texts-NoSpace :
    (a b c d : ℕ) (p : a < 256) (q : b < 256) (r : c < 256) (s : d < 256)
    → NoSpace (join b'.' (texts a b c d p q r s))
octet_texts-NoSpace a b c d p q r s = join-NoSpace _ (
  digits-NoSpace _ (byte_text a p).digits,
  (
    digits-NoSpace _ (byte_text b q).digits,
    (digits-NoSpace _ (byte_text c r).digits, (digits-NoSpace _ (byte_text d s).digits, tt)),
  ),
)

-- The text that is printed for a value of 32 digits is read back as an IPv4 address of that value.
pub parse-format_value :
    (v : ℕ)
    → v < 2 ^ 32
    → parse_address_bits (format_value v v4) ≡ some (record { family = v4; width = 32; value = v })
unfolding format_value
parse-format_value v h =
    ap (λ os. parse_address_bits (join b'.' (map (to_radix 10) os))) (octets_lem v)
    ∙ (parse_of_ipv4 _ _ (octet_texts-NoSpace a b c d p q r s) (ipv4_bits-join a b c d p q r s)
        ∙ ap (λ (n : ℕ). some (record { family = v4; width = 32; value = n })) (octets_sum v h))
  where
    a : ℕ
    a = v / 2 ^ 24 % 256

    b : ℕ
    b = v / 2 ^ 16 % 256

    c : ℕ
    c = v / 2 ^ 8 % 256

    d : ℕ
    d = v / 2 ^ 0 % 256

    p : a < 256
    p = omega arith

    q : b < 256
    q = omega arith

    r : c < 256
    r = omega arith

    s : d < 256
    s = omega arith
