-- ===== src/IpContext/Json.antt =====
-- frontend/state.js, `contextJSON`: a reader of JSON text that refuses doubled keys, numbers that are not whole,
-- lone surrogates, deep nesting and too many tokens.
pub mod Strict
pub mod Form
use revealnetworktrouble.Prelude.{
  ◌>>=◌, ◌>>◌, [], ℕ, zero, suc, ◌+◌, Bool, true, false, not, ◌&&◌, ◌||◌, Option, none, some, ◌∷◌,
  ltb, leb, ◌==◌, if◌then◌else◌, guard, length, is_nil, drop, Text, codes, text_eq,
}
use revealnetworktrouble.Requests.ApiError.{hex_unit, is_high, is_low, simple_escape, drop_white}
use revealnetworktrouble.IpContext.Number.{number_prefix, context_number}

mutual
  pub data Value : Type 0 where
    null : Value
    truth : Bool → Value
    num : ℕ → Value
    str : Text → Value
    arr : Items → Value
    obj : Fields → Value

  pub data Items : Type 0 where
    nil : Items
    cons : Value → Items → Items

  pub data Fields : Type 0 where
    end : Fields
    field : Text → Value → Fields → Fields

-- `contextScalar`: no surrogate without its other half.
abbrev pub is_scalar : Text → Bool
is_scalar [] = true
is_scalar (u ∷ []) = not (is_high u) && not (is_low u)
is_scalar (u ∷ v ∷ t) =
    let pair = is_low v && is_scalar t in
    let single = not (is_low u) && is_scalar (v ∷ t) in if is_high u then pair else single

-- The text up to the closing quote, and what follows it.
abbrev pub keep_unit : ℕ → Option (Text × Text) → Option (Text × Text)
keep_unit u none = none
keep_unit u (some (raw, rest)) = some (u ∷ raw, rest)

abbrev pub to_quote : Text → Option (Text × Text)
to_quote [] = none
to_quote (u ∷ []) = if u == 0x22 then some ([], []) else none
to_quote (u ∷ v ∷ t) =
    let skipped = keep_unit u (keep_unit v (to_quote t)) in
    let later = keep_unit u (to_quote (v ∷ t)) in
    if u == 0x5c then skipped else if u == 0x22 then some ([], v ∷ t) else later

abbrev pub unit_before : ℕ → Option Text → Option Text
unit_before u none = none
unit_before u (some t) = some (u ∷ t)

abbrev pub from_hex : (Text → Option Text) → Option (ℕ × Text) → Option Text
from_hex more none = none
from_hex more (some (u, t)) = unit_before u (more t)

-- The escape `e`, and the units behind it.
abbrev pub unescape : (Text → Option Text) → ℕ → Text → Option ℕ → Option Text
unescape more e t (some u) = unit_before u (more t)
unescape more e t none = if e == b'u' then from_hex more (hex_unit t) else none

-- `JSON.parse` of a string, given what stands between the quotes; a round takes at least one unit.
unfoldable pub unquote : ℕ → Text → Option Text
unfolding hex_unit simple_escape
unquote fuel [] = some []
unquote zero (u ∷ t) = none
unquote (suc fuel) (u ∷ []) = if ltb u 0x20 || u == 0x5c then none else some (u ∷ [])
unquote (suc fuel) (u ∷ e ∷ t) =
    let escaped = unescape (unquote fuel) e t (simple_escape e) in
    let plain = unit_before u (unquote fuel (e ∷ t)) in
    if ltb u 0x20 then none else if u == 0x5c then escaped else plain

-- What is left of the text, and the tokens so far.
pub record Cursor : Type 0 where
  pub rest : Text
  pub tokens : ℕ

abbrev pub token_limit : ℕ
token_limit = 16384

abbrev pub depth_limit : ℕ
depth_limit = 16

unfoldable pub count_token : Cursor → Option Cursor
count_token c =
    if leb (c.tokens + 1) token_limit then some (record c { tokens = c.tokens + 1 }) else none

abbrev pub skip_white : Cursor → Cursor
unfolding drop_white
skip_white c = record c { rest = drop_white c.rest }

abbrev pub next_is : ℕ → Text → Bool
next_is u [] = false
next_is u (v ∷ t) = v == u

abbrev pub step_over : Cursor → Cursor
step_over c = record c { rest = drop 1 c.rest }

-- `contextRequire(text[at++] === u)`
unfoldable pub pass : ℕ → Cursor → Option Cursor
pass u c = if next_is u c.rest then some (step_over c) else none

unfoldable pub read_string : Cursor → Option (Text × Cursor)
unfolding count_token unquote
read_string c = do
  d ← count_token c
  (raw, rest) ← to_quote (drop 1 d.rest)
  t ← unquote (length raw) raw
  guard (is_scalar t)
  some (t, record d { rest = rest })

abbrev pub has_key : Text → Fields → Bool
has_key k end = false
has_key k (field j v fs) = text_eq k j || has_key k fs

abbrev pub starts_with : Text → Text → Bool
starts_with [] t = true
starts_with (u ∷ us) [] = false
starts_with (u ∷ us) (v ∷ t) = u == v && starts_with us t

-- `true`, `false`, `null` or a number.
unfoldable pub read_plain : Cursor → Option (Value × Cursor)
unfolding number_prefix context_number
read_plain c =
    let number = do
      (parts, rest) ← number_prefix c.rest
      n ← context_number parts
      some (num n, record c { rest = rest })
    in if starts_with (codes "true") c.rest
      then some (truth true, record c { rest = drop 4 c.rest })
      else if starts_with (codes "false") c.rest
      then some (truth false, record c { rest = drop 5 c.rest })
      else if starts_with (codes "null") c.rest
      then some (null, record c { rest = drop 4 c.rest })
      else number

abbrev pub Reader : Type 0 → Type 0
Reader A = Cursor → Option (A × Cursor)

abbrev pub string_value : Option (Text × Cursor) → Option (Value × Cursor)
string_value none = none
string_value (some (t, c)) = some (str t, c)

-- The end of an object or of a list.
unfoldable pub close : {A : Type 0} → (A → Value) → A → Cursor → Option (Value × Cursor)
unfolding count_token
close make a c = do d ← count_token (step_over c); some (make a, d)

-- Behind the opening brace or bracket.
unfoldable pub object_from : Reader Fields → Reader Value
unfolding close
object_from members c =
    let more : Option (Value × Cursor) = (do (fs, d) ← members c; close obj fs d) in
    if next_is b'}' c.rest then close obj end c else more

unfoldable pub list_from : Reader Items → Reader Value
unfolding close
list_from items c =
    let more : Option (Value × Cursor) = (do (vs, d) ← items c; close arr vs d) in
    if next_is b']' c.rest then close arr nil c else more

-- The loops of `read`. Every call but the first comes behind a unit that is passed, so a fuel above the length
-- of the text is enough. The keys that were read stand in `seen`.
unfoldable mutual
  unfolding count_token skip_white read_string pass read_plain object_from list_from

  pub read : ℕ → ℕ → Reader Value
  read zero depth c = none
  read (suc fuel) depth c =
      let d = skip_white c in
      let object : Option (Value × Cursor) = (do
        e ← count_token d
        object_from (read_members fuel depth end) (skip_white (step_over e))) in
      let list : Option (Value × Cursor) = (do
        e ← count_token d
        list_from (read_items fuel depth) (skip_white (step_over e))) in
      let plain : Option (Value × Cursor) = (do e ← count_token d; read_plain e) in
      if not (leb depth depth_limit)
      then none
      else if next_is 0x22 d.rest
      then string_value (read_string d)
      else if next_is b'{' d.rest
      then object
      else if next_is b'[' d.rest
      then list
      else plain

  pub read_members : ℕ → ℕ → Fields → Reader Fields
  read_members zero depth seen c = none
  read_members (suc fuel) depth seen c = do
    guard (next_is 0x22 (skip_white c).rest)
    (key, c1) ← read_string (skip_white c)
    guard (not (has_key key seen))
    c2 ← pass b':' (skip_white c1)
    (v, c3) ← read fuel (depth + 1) c2
    let rest = do
      c4 ← pass b',' (skip_white c3)
      (more, c5) ← read_members fuel depth (field key v seen) c4
      some (field key v more, c5)
    if next_is b'}' (skip_white c3).rest then some (field key v end, skip_white c3) else rest

  pub read_items : ℕ → ℕ → Reader Items
  read_items zero depth c = none
  read_items (suc fuel) depth c = do
    (v, c1) ← read fuel (depth + 1) c
    let rest = do
      c2 ← pass b',' (skip_white c1)
      (more, c3) ← read_items fuel depth c2
      some (cons v more, c3)
    if next_is b']' (skip_white c1).rest then some (cons v nil, skip_white c1) else rest

unfoldable pub context_json : Text → Option Value
unfolding read
context_json t = do
  (v, c) ← read (length t + 1) 1 (record { rest = t; tokens = 0 })
  guard (is_nil (skip_white c).rest)
  some v
