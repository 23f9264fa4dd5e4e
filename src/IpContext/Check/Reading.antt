-- ===== src/IpContext/Check/Reading.antt =====
-- frontend/state.js, `normalizeIPContext`: how the value that it gives is read, field by field, and written.
use revealnetworktrouble.Prelude.{
  ◌>>=◌, to_radix_from, ℕ, ◌+◌, ◌-◌, ◌*◌, ◌/◌, ◌%◌, Bool, false, true, ◌&&◌, ◌||◌, Option, none,
  some, List, [], ◌∷◌, ◌++◌, String, ltb, ◌==◌, if◌then◌else◌, Text, codes, to_radix,
}
use revealnetworktrouble.Requests.ApiError.{is_high, is_low}
use revealnetworktrouble.IpContext.Json.{
  Value, Items, Fields, null, truth, num, str, arr, obj, nil, cons, end, field,
}
use revealnetworktrouble.IpContext.Schema.{as_object, as_list, as_number, at, text_at, is_member}

abbrev pub part_in : String → Fields → Option Fields
part_in k fs = at k fs >>= as_object

abbrev pub list_in : String → Fields → Option (List Value)
list_in k fs = at k fs >>= as_list

abbrev pub number_in : String → Fields → Option ℕ
number_in k fs = at k fs >>= as_number

abbrev pub is_one_of : String → Option Text → Bool
is_one_of members none = false
is_one_of members (some t) = is_member t members

abbrev pub each {ℓ} : {A : Type ℓ} → (Value → Option A) → List Value → Option (List A)
each f [] = some []
each f (v ∷ vs) = f v >>= λ x. each f vs >>= λ xs. some (x ∷ xs)

abbrev pub name_of : Value → Option Text
name_of v = as_object v >>= text_at "name"

abbrev pub asn_of : Value → Option ℕ
asn_of v = as_object v >>= number_in "asn"

-- A name whose check has an answer, and an origin whose validation has one.
abbrev pub is_steady_name : Value → Bool
is_steady_name v =
    is_one_of "confirmed mismatch not_found limited" (as_object v >>= text_at "forward_status")

abbrev pub is_steady_origin : Value → Bool
is_steady_origin v = is_one_of "ok" (as_object v >>= part_in "rpki" >>= text_at "status")

-- A digit of a hexadecimal number.
abbrev hex_digit : ℕ → ℕ
hex_digit n = if ltb n 10 then b'0' + n else b'a' + (n - 10)

abbrev escaped : ℕ → List ℕ
escaped u =
    0x5c
    ∷ b'u'
    ∷ hex_digit (u / 4096 % 16)
    ∷ hex_digit (u / 256 % 16)
    ∷ hex_digit (u / 16 % 16)
    ∷ hex_digit (u % 16)
    ∷ []

abbrev short_escape : ℕ → Option ℕ
short_escape u =
    if u == 0x22 || u == 0x5c
    then some u
    else if u == 8
    then some b'b'
    else if u == 9
    then some b't'
    else if u == 10
    then some b'n'
    else if u == 12
    then some b'f'
    else if u == 13
    then some b'r'
    else none

abbrev utf8_unit : ℕ → List ℕ
utf8_unit p =
    if ltb p 0x80
    then p ∷ []
    else if ltb p 0x800
    then (0xc0 + p / 64) ∷ (0x80 + p % 64) ∷ []
    else (0xe0 + p / 4096) ∷ (0x80 + p / 64 % 64) ∷ (0x80 + p % 64) ∷ []

-- A character above U+FFFF.
abbrev pub utf8_pair : ℕ → List ℕ
utf8_pair p =
    (0xf0 + p / 262144) ∷ (0x80 + p / 4096 % 64) ∷ (0x80 + p / 64 % 64) ∷ (0x80 + p % 64) ∷ []

-- A unit outside a pair: the characters that JSON and the service escape, and half a pair alone.
abbrev pub is_escaped : ℕ → Bool
is_escaped u =
    ltb u 0x20
    || u == b'<'
    || u == b'>'
    || u == b'&'
    || u == 0x2028
    || u == 0x2029
    || is_high u
    || is_low u

abbrev pub unit_bytes : ℕ → List ℕ
unit_bytes u = elim (short_escape u) [
  | some c ↦ 0x5c ∷ c ∷ []
  | none ↦ if is_escaped u then escaped u else utf8_unit u
]

unfoldable pub text_bytes : Text → List ℕ
text_bytes [] = []
text_bytes (u ∷ []) = unit_bytes u
text_bytes (u ∷ v ∷ t) = elim (is_high u && is_low v) [
  | true ↦ utf8_pair (0x10000 + (u - 0xd800) * 1024 + (v - 0xdc00)) ++ text_bytes t
  | false ↦ unit_bytes u ++ text_bytes (v ∷ t)
]

abbrev pub quoted : Text → List ℕ
quoted t = 0x22 ∷ text_bytes t ++ 0x22 ∷ []

-- The bytes of a value, as JSON without spaces, with `<`, `>`, `&` and the line separators escaped.
unfoldable mutual
  unfolding to_radix_from text_bytes

  pub json_bytes : Value → List ℕ
  json_bytes null = codes "null"
  json_bytes (truth b) = if b then codes "true" else codes "false"
  json_bytes (num n) = to_radix 10 n
  json_bytes (str t) = quoted t
  json_bytes (arr vs) = b'[' ∷ items_bytes vs ++ b']' ∷ []
  json_bytes (obj fs) = b'{' ∷ fields_bytes fs ++ b'}' ∷ []

  pub items_bytes : Items → List ℕ
  items_bytes nil = []
  items_bytes (cons v nil) = json_bytes v
  items_bytes (cons v (cons w ws)) = json_bytes v ++ b',' ∷ items_bytes (cons w ws)

  pub fields_bytes : Fields → List ℕ
  fields_bytes end = []
  fields_bytes (field k v end) = quoted k ++ b':' ∷ json_bytes v
  fields_bytes (field k v (field j w fs)) =
      quoted k ++ b':' ∷ json_bytes v ++ b',' ∷ fields_bytes (field j w fs)
