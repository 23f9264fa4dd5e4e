-- ===== src/Requests/ApiError/RoundTrip.antt =====
-- frontend/state.js, `parseStrictAPIErrorJSON`: it reads what a JSON printer writes.
use revealnetworktrouble.Prelude.{
  digit_code, ℕ, zero, suc, ◌+◌, ◌*◌, ◌/◌, ◌%◌, ◌≤◌, ◌<◌, ◌≡◌, refl, ◌∙◌, ap, inl, inr, Bool, true,
  false, not, ◌&&◌, ◌||◌, Option, none, some, List, [], ◌∷◌, ◌++◌, arith, ltb, leb, ◌==◌,
  if◌then◌else◌, ltb→lt, leb→le, Bool-cases, length, drop, all, length-append, Text, codes, text_eq,
}
use revealnetworktrouble.Requests.ApiError.{
  Cursor, Reader, give, require, body_limit, string_limit, string_from, skip_whitespace,
  count_token, string_body, ErrorBody, Fields, read_string, read_name, read_field, read_fields,
  read_error, read_root, parse_api_error, ◌>>=◌, ◌>>◌, count_property, expect, put_field, no_fields,
  read_members, both_fields, begin_object, end_object, read_root_members, at_end, result,
  next_field, next_error, is_high, is_low, hex_unit, read_escape, read_unit, round_string,
  after_unit, seen_in,
}
use mathlib.Core.List.{append_assoc}
use revealnetworktrouble.Requests.ApiError.Unicode.{IsUnicode, ended, plain, pair, IsAccepted}

-- A unit as JSON writes it between quotes.
abbrev pub escape : ℕ → Text
escape u =
    if u == 0x22 || u == 0x5c
    then 0x5c ∷ u ∷ []
    else if ltb u 0x20
    then 0x5c ∷ b'u' ∷ 0x30 ∷ 0x30 ∷ digit_code (u / 16) ∷ digit_code (u % 16) ∷ []
    else u ∷ []

escape_long : (u : ℕ) → 1 ≤ length (escape u)
escape_long u = ground arith

escape_short : (u : ℕ) → length (escape u) ≤ 6
escape_short u = ground arith

unfoldable pub write : Text → Text
write [] = []
write (u ∷ t) = escape u ++ write t

abbrev pub quoted : Text → Text → Text
quoted s rest = 0x22 ∷ write s ++ 0x22 ∷ rest

-- `JSON.stringify({error: {code, message}})`
unfoldable pub print : ErrorBody → Text
unfolding write
print b =
    b'{'
    ∷ quoted (codes "error") (
        b':'
        ∷ b'{'
        ∷ quoted (codes "code") (
            b':'
            ∷ quoted b.code
                (b',' ∷ quoted (codes "message") (b':' ∷ quoted b.message (b'}' ∷ b'}' ∷ [])))))

control_escape :
    (u : ℕ) (t : Text)
    → u < 0x20
    → read_escape (b'u' ∷ 0x30 ∷ 0x30 ∷ digit_code (u / 16) ∷ digit_code (u % 16) ∷ t)
      ≡ some (u ∷ [], t)
unfolding read_escape hex_unit
control_escape u t h = ground arith

simple_read :
    (u : ℕ) (t : Text) → (u == 0x22 || u == 0x5c) ≡ true → read_escape (u ∷ t) ≡ some (u ∷ [], t)
unfolding read_escape
simple_read u t h = ground arith

plain_read :
    (u : ℕ) (t : Text)
    → (u == 0x22 || u == 0x5c) ≡ false
    → ltb u 0x20 ≡ false
    → is_high u ≡ false
    → is_low u ≡ false
    → (read_unit u t ≡ some (u ∷ [], t)) × ((u == 0x22) ≡ false)
unfolding read_unit
plain_read u t q c h l = (ground arith, ground arith)

pair_read :
    (high low : ℕ) (t : Text)
    → is_high high ≡ true
    → is_low low ≡ true
    → (read_unit high (low ∷ t) ≡ some (high ∷ low ∷ [], t))
      × ((high == 0x22) ≡ false)
      × (escape high ≡ high ∷ [])
      × (escape low ≡ low ∷ [])
unfolding read_unit
pair_read high low t h l = (ground arith, ground arith, ground arith, ground arith)

round_read :
    (fuel units u : ℕ) (us t rest : Text)
    → (u == 0x22) ≡ false
    → read_unit u t ≡ some (us, rest)
    → string_from (suc fuel) units (u ∷ t) ≡ round_string (string_from fuel) units (some (us, rest))
unfolding string_from
round_read fuel units u us t rest q h = rw q (ap (round_string (string_from fuel) units) h)

-- One round takes one written unit.
string_from-escape :
    (fuel units u : ℕ) (t : Text)
    → is_high u ≡ false
    → is_low u ≡ false
    → string_from (suc fuel) units (escape u ++ t)
      ≡ round_string (string_from fuel) units (some (u ∷ [], t))
unfolding read_unit
string_from-escape fuel units u t h l = elim (Bool-cases (u == 0x22 || u == 0x5c)) [
  | inl q ↦ rw q (round_read fuel units 0x5c (u ∷ []) (u ∷ t) t refl (simple_read u t q))
  | inr q ↦ elim (Bool-cases (ltb u 0x20)) [
    | inl c ↦
        rw (q, c) (round_read fuel units 0x5c (u ∷ []) _ t refl (control_escape u t (ltb→lt _ _ c)))
    | inr c ↦
        let (r, n) = plain_read u t q c h l in rw (q, c) (round_read fuel units u (u ∷ []) t t n r)
  ]
]

string_from-pair :
    (fuel units high low : ℕ) (t : Text)
    → is_high high ≡ true
    → is_low low ≡ true
    → string_from (suc fuel) units (escape high ++ (escape low ++ t))
      ≡ round_string (string_from fuel) units (some (high ∷ low ∷ [], t))
string_from-pair fuel units high low t h l =
    let (r, n, eh, el) = pair_read high low t h l in
    rw (eh, el) (round_read fuel units high (high ∷ low ∷ []) (low ∷ t) t n r)

round_string-next :
    (later : ℕ → Text → Option (List ℕ × Text)) (units : ℕ) (us t s rest : Text)
    → units + length us ≤ string_limit
    → later (units + length us) t ≡ some (s, rest)
    → round_string later units (some (us, t)) ≡ some (us ++ s, rest)
round_string-next later units us t s rest h k =
    let short : ltb string_limit (units + length us) ≡ false = ground arith in
    rw short (ap (after_unit us) k)

written_longer : (s rest : Text) → length s < length (write s ++ 0x22 ∷ rest)
unfolding write
written_longer [] rest = omega arith
written_longer (u ∷ t) rest =
    rw
      (
        append_assoc (escape u) (write t) (0x22 ∷ rest),
        length-append (escape u) (write t ++ 0x22 ∷ rest),
      )
      (omega (arith, escape_long u, written_longer t rest))

-- With a round for each unit and one for the closing quote.
string_from-write :
    (s rest : Text) (fuel units : ℕ)
    → IsUnicode s
    → length s < fuel
    → units + length s ≤ string_limit
    → string_from fuel units (write s ++ 0x22 ∷ rest) ≡ some (s, rest)
unfolding write string_from
string_from-write s rest zero units v f k = let absurd : ⊥ = omega (arith, f) in elim absurd [ ]
string_from-write [] rest (suc fuel) units ended f k = refl
string_from-write (u ∷ t) rest (suc fuel) units (plain h l v) f k =
    ap (string_from (suc fuel) units) (append_assoc (escape u) (write t) (0x22 ∷ rest))
    ∙ string_from-escape fuel units u (write t ++ 0x22 ∷ rest) h l
    ∙ round_string-next (string_from fuel) units (u ∷ []) _ t rest (omega (arith, k))
        (string_from-write t rest fuel (units + 1) v (omega (arith, f)) (omega (arith, k)))
string_from-write (u ∷ w ∷ t) rest (suc fuel) units (pair h l v) f k =
    ap (string_from (suc fuel) units) (
      append_assoc (escape u) (escape w ++ write t) (0x22 ∷ rest)
      ∙ ap (λ x. escape u ++ x) (append_assoc (escape w) (write t) (0x22 ∷ rest)))
    ∙ string_from-pair fuel units u w (write t ++ 0x22 ∷ rest) h l
    ∙ round_string-next (string_from fuel) units (u ∷ w ∷ []) _ t rest (omega (arith, k))
        (string_from-write t rest fuel (units + 2) v (omega (arith, f)) (omega (arith, k)))

read_back :
    (s rest : Text)
    → IsAccepted s
    → string_from (length (write s ++ 0x22 ∷ rest)) 0 (write s ++ 0x22 ∷ rest) ≡ some (s, rest)
read_back s rest h =
    string_from-write s rest (length (write s ++ 0x22 ∷ rest)) 0 h.unicode (written_longer s rest)
      (omega (arith, h.short))

written_short : (s rest : Text) → length (write s ++ 0x22 ∷ rest) ≤ length s * 6 + 1 + length rest
unfolding write
written_short [] rest = omega arith
written_short (u ∷ t) rest =
    rw
      (
        append_assoc (escape u) (write t) (0x22 ∷ rest),
        length-append (escape u) (write t ++ 0x22 ∷ rest),
      )
      (omega (arith, escape_short u, written_short t rest))

then_step :
    {A B : Type 0} (m : Reader A) (f : A → Reader B) (c d : Cursor) (a : A)
    {r : Option (B × Cursor)}
    → m c ≡ some (a, d)
    → f a d ≡ r
    → (m >>= f) c ≡ r
then_step {A = A} m f c d a h k =
    ap (λ (o : Option (A × Cursor)). elim o [ none ↦ none | some (a', d') ↦ f a' d' ]) h ∙ k

abbrev at : Text → ℕ → ℕ → ℕ → Cursor
at rest depth tokens properties = record {
  rest = rest;
  depth = depth;
  tokens = tokens;
  properties = properties;
}

string_body-write :
    (s rest : Text) (d n p : ℕ)
    → IsAccepted s
    → string_body (at (write s ++ 0x22 ∷ rest) d n p) ≡ some (s, at rest d n p)
string_body-write s rest d n p h =
    ap
      (λ (o : Option (Text × Text)). elim o [
        | none ↦ none
        | some (s', t') ↦ some (s', at t' d n p)
      ])
      (read_back s rest h)

counted :
    (rest : Text) (d n p : ℕ)
    → n < 10
    → count_token (at rest d n p) ≡ some (tt, at rest d (n + 1) p)
unfolding count_token
counted rest d n p h = ground arith

read_string-quoted :
    (s rest : Text) (d n p : ℕ)
    → IsAccepted s
    → n < 10
    → read_string (at (quoted s rest) d n p) ≡ some (s, at rest d (n + 1) p)
unfolding read_string
read_string-quoted s rest d n p h k =
    then_step count_token _ _ _ tt (counted (quoted s rest) d n p k)
      (string_body-write s rest d (n + 1) p h)

property_counted :
    (seen : List Text) (s rest : Text) (d n p : ℕ)
    → p < 3
    → seen_in seen s ≡ false
    → count_property seen s (at rest d n p) ≡ some (tt, at rest d n (p + 1))
property_counted seen s rest d n p h x = rw x (ground arith)

read_name-quoted :
    (seen : List Text) (s rest : Text) (d n p : ℕ)
    → IsAccepted s
    → n < 10
    → p < 3
    → seen_in seen s ≡ false
    → read_name seen (at (quoted s (b':' ∷ rest)) d n p) ≡ some (s, at rest d (n + 1) (p + 1))
unfolding read_name
read_name-quoted seen s rest d n p h k q x =
    then_step read_string (λ name. count_property seen name >> (expect b':' >> give name))
      (at (quoted s (b':' ∷ rest)) d n p) (at (b':' ∷ rest) d (n + 1) p) s
      (read_string-quoted s (b':' ∷ rest) d n p h k)
      (then_step (count_property seen s) (λ _. expect b':' >> give s) _ _ tt
        (property_counted seen s (b':' ∷ rest) d (n + 1) p q x) refl)

read_field-quoted :
    (seen : List Text) (f : Fields) (name value rest : Text) (d n p : ℕ)
    → IsAccepted name
    → IsAccepted value
    → n < 9
    → p < 3
    → seen_in seen name ≡ false
    → (text_eq name (codes "code") || text_eq name (codes "message")) ≡ true
    → read_field seen f (at (quoted name (b':' ∷ quoted value rest)) d n p)
      ≡ some ((name, put_field name value f), at rest d (n + 1 + 1) (p + 1))
unfolding read_field
read_field-quoted seen f name value rest d n p h v k q x y =
    then_step (read_name seen)
      (λ name.
        require (text_eq name (codes "code") || text_eq name (codes "message"))
        >> (read_string >>= λ value. give (name, put_field name value f)))
      (at (quoted name (b':' ∷ quoted value rest)) d n p) (at (quoted value rest) d (n + 1) (p + 1))
      name (read_name-quoted seen name (quoted value rest) d n p h (omega (arith, k)) q x)
      (then_step (require (text_eq name (codes "code") || text_eq name (codes "message"))) _ _
        (at (quoted value rest) d (n + 1) (p + 1)) tt (rw y refl)
        (then_step read_string (λ value. give (name, put_field name value f))
          (at (quoted value rest) d (n + 1) (p + 1)) (at rest d (n + 1 + 1) (p + 1)) value
          (read_string-quoted value rest d (n + 1) (p + 1) v (omega (arith, k))) refl))

abbrev pub is_plain : ℕ → Bool
is_plain u = not (is_high u) && not (is_low u)

-- A name of the format.
pub word : (s : Text) → all is_plain s ≡ true → leb (length s) string_limit ≡ true → IsAccepted s
word s h k = record { unicode = go s h; short = leb→le _ _ k }
  where
    go : (s : Text) → all is_plain s ≡ true → IsUnicode s
    go [] _ = ended
    go (u ∷ s) h = plain (ground (arith, h)) (ground (arith, h)) (go s (ground (arith, h)))

-- What follows the code, and what follows the message.
abbrev after_message : Text
after_message = b'}' ∷ b'}' ∷ []

abbrev after_code : Text → Text
after_code message = b',' ∷ quoted (codes "message") (b':' ∷ quoted message after_message)

print-short :
    (b : ErrorBody)
    → IsAccepted b.code
    → IsAccepted b.message
    → ltb body_limit (length (print b)) ≡ false
unfolding print
print-short b h k =
    let code = written_short b.code (after_code b.message) in
    let message = written_short b.message after_message in
    ground (arith, code, message, h.short, k.short)

-- The members of the inner object.
read_members-print :
    (b : ErrorBody)
    → IsAccepted b.code
    → IsAccepted b.message
    → read_members (at (quoted (codes "code") (b':' ∷ quoted b.code (after_code b.message))) 2 3 1)
      ≡ some (record { code = some b.code; message = some b.message }, at after_message 2 7 3)
unfolding read_fields write
read_members-print b h k =
    ap (next_field (read_fields 3) []) (
      read_field-quoted [] no_fields (codes "code") b.code (after_code b.message) 2 3 1
        (word (codes "code") refl refl) h (omega arith) (omega arith) refl refl)
    ∙ ap (next_field (read_fields 2) (codes "code" ∷ [])) (
        read_field-quoted (codes "code" ∷ []) (record no_fields { code = some b.code })
          (codes "message") b.message after_message 2 5 2 (word (codes "message") refl refl) k
          (omega arith) (omega arith) refl refl)

read_error-print :
    (b : ErrorBody)
    → IsAccepted b.code
    → IsAccepted b.message
    → read_error [] (at (drop 1 (print b)) 1 1 0) ≡ some (b, at (b'}' ∷ []) 1 8 3)
unfolding read_error print
read_error-print b h k =
    let inner = quoted (codes "code") (b':' ∷ quoted b.code (after_code b.message)) in
    then_step (read_name [])
      (λ name.
        require (text_eq name (codes "error"))
        >> (begin_object >> (read_members >>= λ f. end_object >> both_fields f)))
      (at (drop 1 (print b)) 1 1 0) (at (b'{' ∷ inner) 1 2 1) (codes "error")
      (read_name-quoted [] (codes "error") (b'{' ∷ inner) 1 1 0 (word (codes "error") refl refl)
        (omega arith) (omega arith) refl)
      (then_step read_members (λ f. end_object >> both_fields f) (at inner 2 3 1)
        (at after_message 2 7 3) (record { code = some b.code; message = some b.message })
        (read_members-print b h k) refl)

-- Whatever code and message of at most 128 units a server writes, with surrogates in pairs only,
-- the parser reads both back from the body that a JSON printer makes of them.
pub parse_api_error-print :
    (b : ErrorBody) → IsAccepted b.code → IsAccepted b.message → parse_api_error (print b) ≡ some b
unfolding parse_api_error print
parse_api_error-print b h k = rw (print-short b h k) (
    ap result (
      then_step read_root_members
        (λ b. end_object >> (skip_whitespace >> (count_token >> at_end b)))
        (at (drop 1 (print b)) 1 1 0) (at (b'}' ∷ []) 1 8 3) b
        (ap (next_error (read_root 1) []) (read_error-print b h k)) refl))
