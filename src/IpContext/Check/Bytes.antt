-- ===== src/IpContext/Check/Bytes.antt =====
-- frontend/state.js, `normalizeIPContext`: the size that it allows is that of the bytes written.
use revealnetworktrouble.Prelude.{
  ℕ, ◌+◌, ◌-◌, ◌*◌, max, ◌≡◌, refl, ◌∙◌, ap₂, Bool, true, false, ◌&&◌, List, [], ◌∷◌, ◌++◌, arith,
  length, length-append, Text,
}
use revealnetworktrouble.Requests.ApiError.{is_high, is_low}
use revealnetworktrouble.IpContext.Json.{
  Value, Items, Fields, null, truth, num, str, arr, obj, nil, cons, end, field,
}
use revealnetworktrouble.IpContext.Check.{
  written_size, text_size, string_size, json_size, items_size, fields_size,
}
use revealnetworktrouble.IpContext.Check.Reading.{
  unit_bytes, utf8_pair, text_bytes, quoted, json_bytes, items_bytes, fields_bytes,
}

unit_bytes-length : (u : ℕ) → length (unit_bytes u) ≡ written_size u
unit_bytes-length u = ground arith

text_bytes-length : (t : Text) → length (text_bytes t) ≡ text_size t
unfolding text_bytes text_size
text_bytes-length [] = refl
text_bytes-length (u ∷ []) = unit_bytes-length u
text_bytes-length (u ∷ v ∷ t) =
    pair (is_high u && is_low v) _ _ _ _ (text_bytes-length t) (text_bytes-length (v ∷ t))
  where
    pair :
        (b : Bool) (ms ns : List ℕ) (m n : ℕ)
        → length ms ≡ m
        → length ns ≡ n
        → length (elim b as (λ _. List ℕ) [
          | true ↦ utf8_pair (0x10000 + (u - 0xd800) * 1024 + (v - 0xdc00)) ++ ms
          | false ↦ unit_bytes u ++ ns
        ])
          ≡ (elim b as (λ _. ℕ) [ true ↦ 4 + m | false ↦ written_size u + n ])
    pair true ms ns m n h k = omega (arith, h)
    pair false ms ns m n h k =
        length-append (unit_bytes u) ns ∙ ap₂ (λ x y. x + y) (unit_bytes-length u) k

quoted-length : (t : Text) → length (quoted t) ≡ string_size t
quoted-length t = omega (arith, text_bytes-length t, length-append (text_bytes t) (0x22 ∷ []))

joined :
    (a b c : List ℕ)
    → length (a ++ b':' ∷ b ++ b',' ∷ c) ≡ length a + (1 + (length b + (1 + length c)))
joined a b c = omega (arith, length-append (a ++ b':' ∷ b) (b',' ∷ c), length-append a (b':' ∷ b))

mutual
  unfolding json_bytes json_size

  pub json_bytes-length : (v : Value) → length (json_bytes v) ≡ json_size v
  json_bytes-length null = refl
  json_bytes-length (truth true) = refl
  json_bytes-length (truth false) = refl
  json_bytes-length (num n) = refl
  json_bytes-length (str t) = quoted-length t
  json_bytes-length (arr vs) =
      omega (arith, length-append (items_bytes vs) (b']' ∷ []), items_bytes-length vs)
  json_bytes-length (obj fs) =
      omega (arith, length-append (fields_bytes fs) (b'}' ∷ []), fields_bytes-length fs)

  items_bytes-length : (vs : Items) → length (items_bytes vs) + 1 ≡ max 1 (items_size vs)
  items_bytes-length nil = refl
  items_bytes-length (cons v nil) = omega (arith, json_bytes-length v)
  items_bytes-length (cons v (cons w ws)) = omega (
    arith,
    json_bytes-length v,
    items_bytes-length (cons w ws),
    length-append (json_bytes v) (b',' ∷ items_bytes (cons w ws)),
  )

  fields_bytes-length : (fs : Fields) → length (fields_bytes fs) + 1 ≡ max 1 (fields_size fs)
  fields_bytes-length end = refl
  fields_bytes-length (field k v end) =
      omega (
        arith,
        quoted-length k,
        json_bytes-length v,
        length-append (quoted k) (b':' ∷ json_bytes v),
      )
  fields_bytes-length (field k v (field j w fs)) =
      let rest = fields_bytes (field j w fs) in
      let split_up = joined (quoted k) (json_bytes v) rest in
      let key = quoted-length k in
      let value = json_bytes-length v in
      let later = fields_bytes-length (field j w fs) in omega (arith, split_up, key, value, later)
