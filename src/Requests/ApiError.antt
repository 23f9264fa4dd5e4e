-- ===== src/Requests/ApiError.antt =====
-- frontend/state.js, `parseStrictAPIErrorJSON`: the reader of `{"error":{"code":…,"message":…}}`.
-- The body is a list of UTF-16 units; what is left of it stands for the code's `index`.
use revealnetworktrouble.Prelude.{
  [], ℕ, zero, suc, ◌+◌, ◌-◌, ◌*◌, ◌/◌, Bool, false, ◌&&◌, ◌||◌, Option, none, some, List, ◌∷◌,
  ◌++◌, ltb, leb, ◌==◌, if◌then◌else◌, length, is_nil, drop, any, Text, codes, text_eq, hex_digit,
}
pub mod Accepted
pub mod Unicode
pub mod RoundTrip

pub record Cursor : Type 0 where
  pub rest : Text
  pub depth : ℕ
  pub tokens : ℕ
  pub properties : ℕ

-- A reader that may find the body malformed.
abbrev pub Reader : Type 0 → Type 0
Reader A = Cursor → Option (A × Cursor)

infixl 5 ◌>>=◌ ◌>>◌
abbrev pub ◌>>=◌ : {A B : Type 0} → Reader A → (A → Reader B) → Reader B
◌>>=◌ m f c = elim (m c) [ none ↦ none | some (a, d) ↦ f a d ]

abbrev pub ◌>>◌ : {B : Type 0} → Reader (Unit {0}) → Reader B → Reader B
m >> k = m >>= λ _. k

abbrev pub give : {A : Type 0} → A → Reader A
give a c = some (a, c)

abbrev pub malformed : {A : Type 0} → Reader A
malformed c = none

abbrev pub require : Bool → Reader (Unit {0})
require t c = if t then some (tt, c) else none

-- `API_ERROR_WIRE_LIMITS`
abbrev pub body_limit : ℕ
body_limit = 64 * 1024

abbrev pub depth_limit : ℕ
depth_limit = 2

abbrev pub token_limit : ℕ
token_limit = 10

abbrev pub property_limit : ℕ
property_limit = 3

abbrev pub string_limit : ℕ
string_limit = 128

unfoldable pub count_token : Reader (Unit {0})
count_token c =
    if ltb token_limit (c.tokens + 1) then none else some (tt, record c { tokens = c.tokens + 1 })

abbrev pub is_white : ℕ → Bool
is_white u = u == 0x20 || u == 0x09 || u == 0x0a || u == 0x0d

unfoldable pub drop_white : Text → Text
drop_white [] = []
drop_white (u ∷ t) = let rest = drop_white t in if is_white u then rest else u ∷ t

unfoldable pub skip_whitespace : Reader (Unit {0})
unfolding drop_white
skip_whitespace c = some (tt, record c { rest = drop_white c.rest })

-- `body[index++] !== u`
unfoldable pub take_unit : ℕ → Reader (Unit {0})
take_unit u c = elim c.rest [
  | [] ↦ none
  | v ∷ t ↦ if v == u then some (tt, record c { rest = t }) else none
]

abbrev pub next_is : ℕ → Text → Bool
next_is u [] = false
next_is u (v ∷ t) = v == u

unfoldable pub expect : ℕ → Reader (Unit {0})
unfolding skip_whitespace take_unit
expect u = do skip_whitespace; take_unit u

abbrev pub four_digits : Option ℕ → Option ℕ → Option ℕ → Option ℕ → Text → Option (ℕ × Text)
four_digits (some a) (some b) (some c) (some d) t = some (((a * 16 + b) * 16 + c) * 16 + d, t)
four_digits _ _ _ _ t = none

-- Four hexadecimal digits.
unfoldable pub hex_unit : Text → Option (ℕ × Text)
unfolding hex_digit
hex_unit (a ∷ b ∷ c ∷ d ∷ t) = four_digits (hex_digit a) (hex_digit b) (hex_digit c) (hex_digit d) t
hex_unit _ = none

abbrev pub is_high : ℕ → Bool
is_high u = leb 0xd800 u && leb u 0xdbff

abbrev pub is_low : ℕ → Bool
is_low u = leb 0xdc00 u && leb u 0xdfff

-- `simple[escape]`
unfoldable pub simple_escape : ℕ → Option ℕ
simple_escape e =
    if e == 0x22
    then some 0x22
    else if e == 0x5c
    then some 0x5c
    else if e == b'/'
    then some 0x2f
    else if e == b'b'
    then some 0x08
    else if e == b'f'
    then some 0x0c
    else if e == b'n'
    then some 0x0a
    else if e == b'r'
    then some 0x0d
    else if e == b't'
    then some 0x09
    else none

-- The second half of an escaped pair.
abbrev pub low_escape : ℕ → Option (ℕ × Text) → Option (List ℕ × Text)
low_escape high none = none
low_escape high (some (low, t)) = if is_low low then some (high ∷ low ∷ [], t) else none

abbrev pub pair_escape : ℕ → Text → Option (List ℕ × Text)
pair_escape high (a ∷ b ∷ t) = if a == 0x5c && b == b'u' then low_escape high (hex_unit t) else none
pair_escape high _ = none

abbrev pub unicode_escape : Option (ℕ × Text) → Option (List ℕ × Text)
unicode_escape none = none
unicode_escape (some (u, t)) =
    if is_high u then pair_escape u t else if is_low u then none else some (u ∷ [], t)

abbrev pub escaped : ℕ → Text → Option ℕ → Option (List ℕ × Text)
escaped e t (some u) = some (u ∷ [], t)
escaped e t none = if e == b'u' then unicode_escape (hex_unit t) else none

-- What follows a backslash.
unfoldable pub read_escape : Text → Option (List ℕ × Text)
unfolding simple_escape
read_escape [] = none
read_escape (e ∷ t) = escaped e t (simple_escape e)

abbrev pub raw_pair : ℕ → Text → Option (List ℕ × Text)
raw_pair high [] = none
raw_pair high (low ∷ t) = if is_low low then some (high ∷ low ∷ [], t) else none

-- One round of the loop of `readString`, behind the test for the closing quote: the units that it
-- appends.
unfoldable pub read_unit : ℕ → Text → Option (List ℕ × Text)
unfolding read_escape
read_unit u t =
    if ltb u 0x20
    then none
    else if u == 0x5c
    then read_escape t
    else if is_high u
    then raw_pair u t
    else if is_low u
    then none
    else some (u ∷ [], t)

abbrev pub after_unit : List ℕ → Option (List ℕ × Text) → Option (List ℕ × Text)
after_unit us none = none
after_unit us (some (more, t)) = some (us ++ more, t)

-- One round, with the rounds that follow it.
abbrev pub round_string :
    (ℕ → Text → Option (List ℕ × Text)) → ℕ → Option (List ℕ × Text) → Option (List ℕ × Text)
round_string later units none = none
round_string later units (some (us, t)) =
    let more = later (units + length us) t in
    if ltb string_limit (units + length us) then none else after_unit us more

-- The loop; a round passes at least one unit, so the length of the text is enough fuel.
unfoldable pub string_from : ℕ → ℕ → Text → Option (List ℕ × Text)
unfolding read_unit
string_from zero units t = none
string_from (suc fuel) units [] = none
string_from (suc fuel) units (u ∷ t) =
    let more = round_string (string_from fuel) units (read_unit u t) in
    if u == 0x22 then some ([], t) else more

abbrev pub string_body : Reader Text
string_body c = elim (string_from (length c.rest) 0 c.rest) [
  | none ↦ none
  | some (s, t) ↦ some (s, record c { rest = t })
]

unfoldable pub read_string : Reader Text
unfolding skip_whitespace count_token take_unit string_from
read_string = do skip_whitespace; count_token; take_unit 0x22; string_body

abbrev pub deeper : Reader (Unit {0})
deeper c =
    if ltb depth_limit (c.depth + 1) then none else some (tt, record c { depth = c.depth + 1 })

unfoldable pub begin_object : Reader (Unit {0})
unfolding skip_whitespace count_token take_unit
begin_object = do skip_whitespace; count_token; take_unit b'{'; deeper

abbrev pub shallower : Reader (Unit {0})
shallower c = if c.depth == 0 then none else some (tt, record c { depth = c.depth - 1 })

unfoldable pub end_object : Reader (Unit {0})
unfolding skip_whitespace count_token take_unit
end_object = do skip_whitespace; count_token; take_unit b'}'; shallower

abbrev pub seen_in : List Text → Text → Bool
seen_in seen t = any (text_eq t) seen

abbrev pub count_property : List Text → Text → Reader (Unit {0})
count_property seen name c =
    if ltb property_limit (c.properties + 1) || seen_in seen name
    then none
    else some (tt, record c { properties = c.properties + 1 })

unfoldable pub read_name : List Text → Reader Text
unfolding read_string expect
read_name seen = do name ← read_string; count_property seen name; expect b':'; give name

pub record ErrorBody : Type 0 where
  pub code : Text
  pub message : Text

-- The fields that the inner loop has read.
pub record Fields : Type 0 where
  pub code : Option Text
  pub message : Option Text

abbrev pub put_field : Text → Text → Fields → Fields
put_field name value f =
    if text_eq name (codes "code")
    then record f { code = some value }
    else record f { message = some value }

-- One round of the inner loop.
unfoldable pub read_field : List Text → Fields → Reader (Text × Fields)
unfolding read_name
read_field seen f = do
  name ← read_name seen
  require (text_eq name (codes "code") || text_eq name (codes "message"))
  value ← read_string
  give (name, put_field name value f)

-- The end of a round of the inner loop.
abbrev pub next_field :
    (List Text → Fields → Reader Fields)
    → List Text
    → Option ((Text × Fields) × Cursor)
    → Option (Fields × Cursor)
next_field later seen none = none
next_field later seen (some ((name, f), d)) =
    let e = record d { rest = drop_white d.rest } in
    let more = later (name ∷ seen) f (record e { rest = drop 1 e.rest }) in
    if next_is b',' e.rest then more else some (f, e)

-- A name may not come twice and only two are allowed, so four rounds are more than a body can take.
unfoldable pub read_fields : ℕ → List Text → Fields → Reader Fields
unfolding read_field drop_white
read_fields zero seen f c = none
read_fields (suc rounds) seen f c = next_field (read_fields rounds) seen (read_field seen f c)

abbrev pub no_fields : Fields
no_fields = record { code = none; message = none }

-- `if (body[index] !== '}')` before the inner loop.
abbrev pub read_members : Reader Fields
read_members c =
    let d = record c { rest = drop_white c.rest } in
    if next_is b'}' d.rest then some (no_fields, d) else read_fields 4 [] no_fields d

abbrev pub both_fields : Fields → Reader ErrorBody
both_fields f c = elim f.code [
  | none ↦ none
  | some code ↦ elim f.message [
    | none ↦ none
    | some message ↦ some (record { code = code; message = message }, c)
  ]
]

-- One round of the outer loop.
unfoldable pub read_error : List Text → Reader ErrorBody
unfolding read_name begin_object read_fields end_object
read_error seen = do
  name ← read_name seen
  require (text_eq name (codes "error"))
  begin_object
  fields ← read_members
  end_object
  both_fields fields

-- The end of a round of the outer loop.
abbrev pub next_error :
    (List Text → Reader ErrorBody)
    → List Text
    → Option (ErrorBody × Cursor)
    → Option (ErrorBody × Cursor)
next_error later seen none = none
next_error later seen (some (b, d)) =
    let e = record d { rest = drop_white d.rest } in
    let more = later (codes "error" ∷ seen) (record e { rest = drop 1 e.rest }) in
    if next_is b',' e.rest then more else some (b, e)

-- The only name that is allowed may not come twice, so a second round always fails.
unfoldable pub read_root : ℕ → List Text → Reader ErrorBody
unfolding read_error drop_white
read_root zero seen c = none
read_root (suc rounds) seen c = next_error (read_root rounds) seen (read_error seen c)

-- An empty root object leaves nothing parsed.
abbrev pub read_root_members : Reader ErrorBody
read_root_members c =
    let d = record c { rest = drop_white c.rest } in
    if next_is b'}' d.rest then none else read_root 2 [] d

abbrev pub at_end : ErrorBody → Reader ErrorBody
at_end b c = if is_nil c.rest && c.depth == 0 then some (b, c) else none

unfoldable pub read_body : Reader ErrorBody
unfolding begin_object read_root end_object skip_whitespace count_token
read_body = do
  begin_object
  b ← read_root_members
  end_object
  skip_whitespace
  count_token
  at_end b

abbrev pub start : Text → Cursor
start body = record { rest = body; depth = 0; tokens = 0; properties = 0 }

abbrev pub result : Option (ErrorBody × Cursor) → Option ErrorBody
result none = none
result (some (b, c)) = some b

unfoldable pub parse_api_error : Text → Option ErrorBody
unfolding read_body
parse_api_error body =
    let parsed = result (read_body (start body)) in
    if ltb body_limit (length body) then none else parsed
