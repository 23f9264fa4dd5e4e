-- ===== src/IpContext/Json/Strict.antt =====
-- frontend/state.js, `contextJSON`: what an accepted text can hold.
use revealnetworktrouble.Prelude.{
  if_holds, ℕ, zero, suc, ◌+◌, ◌≤◌, ◌≡◌, refl, true, false, not, Option, none, some, [], ◌∷◌, arith,
  leb, >>=-eq-some, guard_then, length, is_nil, Text, text_eq,
}
use revealnetworktrouble.IpContext.Json.Form.{
  tokens_of, tokens_of_items, tokens_of_fields, HasStrict, AreStrict, IsStrict, count_token-lem,
  pass-lem, read_string-lem, IsPlain, makes, read_plain-lem, close-lem,
}
use mathlib.Core.Path.{subst}
use mathlib.Core.Option.{some-injective}
use revealnetworktrouble.IpContext.Json.{
  Value, Items, Fields, arr, obj, nil, end, field, is_scalar, Cursor, depth_limit, count_token,
  skip_white, next_is, step_over, pass, read_string, has_key, read_plain, Reader, string_value,
  object_from, list_from, read, read_members, read_items, context_json,
}

-- No key is one of those seen before.
abbrev AreNew : Fields → Fields → Type 0
AreNew seen end = Unit {0}
AreNew seen (field k v fs) = (has_key k seen ≡ false) × AreNew seen fs

AreNew-fewer :
    (key : Text) (v : Value) (seen fs : Fields) → AreNew (field key v seen) fs → AreNew seen fs
AreNew-fewer key v seen end h = tt
AreNew-fewer key v seen (field k w fs) (h, hs) = (ground (arith, h), AreNew-fewer key v seen fs hs)

text_eq_sym : (s t : Text) → text_eq s t ≡ text_eq t s
text_eq_sym [] [] = refl
text_eq_sym [] (b ∷ t) = refl
text_eq_sym (a ∷ s) [] = refl
text_eq_sym (a ∷ s) (b ∷ t) = ground (arith, text_eq_sym s t)

new_key :
    (key : Text) (v : Value) (seen fs : Fields)
    → AreNew (field key v seen) fs
    → has_key key fs ≡ false
new_key key v seen end h = refl
new_key key v seen (field k w fs) (h, hs) =
    ground (arith, h, new_key key v seen fs hs, text_eq_sym key k)

-- A value that is read: its form, and the tokens that it took.
abbrev Read : ℕ → Cursor → Value → Cursor → Type 0
Read depth c v d = IsStrict depth v × (d.tokens ≡ c.tokens + tokens_of v) × (d.tokens ≤ 16384)

abbrev ReadFields : ℕ → Fields → Cursor → Fields → Cursor → Type 0
ReadFields depth seen c fs d =
    HasStrict depth fs × (d.tokens ≡ c.tokens + tokens_of_fields fs) × AreNew seen fs

abbrev ReadItems : ℕ → Cursor → Items → Cursor → Type 0
ReadItems depth c vs d = AreStrict depth vs × (d.tokens ≡ c.tokens + tokens_of_items vs)

object_from-lem :
    (members : Reader Fields) (depth : ℕ) (b c : Cursor)
    → depth ≤ 16
    → c.tokens ≡ b.tokens + 1
    → ((fs : Fields) (d : Cursor) → members c ≡ some (fs, d) → ReadFields depth end c fs d)
    → (v : Value) (d : Cursor) → object_from members c ≡ some (v, d)
    → Read depth b v d
unfolding object_from IsStrict tokens_of
object_from-lem members depth b c le opened reads v d =
    if_holds (λ (o : Option (Value × Cursor)). o ≡ some (v, d) → Read depth b v d)
      (next_is b'}' c.rest) _ _
      (λ _ h.
        let (made, one, small) = close-lem obj end c v d h in
        subst (λ (w : Value). Read depth b w d) made ((le, tt), omega (arith, opened, one), small))
      (λ _ h.
        let ((fs, e), found, h1) = >>=-eq-some (members c) _ h in
        let (strict, taken, _) = reads fs e found in
        let (made, one, small) = close-lem obj fs e v d h1 in
        subst (λ (w : Value). Read depth b w d) made
          ((le, strict), omega (arith, opened, one, taken), small))

list_from-lem :
    (items : Reader Items) (depth : ℕ) (b c : Cursor)
    → depth ≤ 16
    → c.tokens ≡ b.tokens + 1
    → ((vs : Items) (d : Cursor) → items c ≡ some (vs, d) → ReadItems depth c vs d)
    → (v : Value) (d : Cursor) → list_from items c ≡ some (v, d)
    → Read depth b v d
unfolding list_from IsStrict tokens_of
list_from-lem items depth b c le opened reads v d =
    if_holds (λ (o : Option (Value × Cursor)). o ≡ some (v, d) → Read depth b v d)
      (next_is b']' c.rest) _ _
      (λ _ h.
        let (made, one, small) = close-lem arr nil c v d h in
        subst (λ (w : Value). Read depth b w d) made ((le, tt), omega (arith, opened, one), small))
      (λ _ h.
        let ((vs, e), found, h1) = >>=-eq-some (items c) _ h in
        let (strict, taken) = reads vs e found in
        let (made, one, small) = close-lem arr vs e v d h1 in
        subst (λ (w : Value). Read depth b w d) made
          ((le, strict), omega (arith, opened, one, taken), small))

string_value-lem :
    (depth : ℕ) (c : Cursor)
    → depth ≤ 16
    → (v : Value) (d : Cursor) → string_value (read_string c) ≡ some (v, d)
    → Read depth c v d
unfolding IsStrict tokens_of
string_value-lem depth c le v d h = at (read_string c) (λ t e q. read_string-lem c t e q) h
  where
    at :
        (o : Option (Text × Cursor))
        → ((t : Text) (e : Cursor)
            → o ≡ some (t, e)
            → (is_scalar t ≡ true) × (e.tokens ≡ c.tokens + 1) × (e.tokens ≤ 16384))
        → string_value o ≡ some (v, d)
        → Read depth c v d
    at none k q = cc
    at (some (t, e)) k q =
        let (scalar, one, small) = k t e refl in
        subst (λ (x : Value × Cursor). Read depth c x.0 x.1) (some-injective _ _ q)
          ((le, scalar), one, small)

mutual
  unfolding read IsStrict tokens_of IsPlain

  read-Strict :
      (fuel depth : ℕ) (c : Cursor) (v : Value) (d : Cursor)
      → read fuel depth c ≡ some (v, d)
      → Read depth c v d
  read-Strict zero depth c v d = λ h. cc
  read-Strict (suc fuel) depth c v d =
      let P = λ (o : Option (Value × Cursor)). o ≡ some (v, d) → Read depth c v d in
      let start = skip_white c in
      if_holds P (not (leb depth depth_limit)) _ _ (λ _ h. cc)
        (λ low.
          let le : depth ≤ 16 = ground (arith, low) in
          if_holds P (next_is 0x22 start.rest) _ _ (λ _ h. string_value-lem depth start le v d h)
            (λ _.
              if_holds P (next_is b'{' start.rest) _ _
                (λ _ h.
                  let (e, counted, h1) = >>=-eq-some (count_token start) _ h in
                  object_from-lem (read_members fuel depth end) depth start
                    (skip_white (step_over e)) le (count_token-lem start e counted).0
                    (λ fs w q. read_members-Strict fuel depth end (skip_white (step_over e)) fs w q)
                    v d h1)
                (λ _.
                  if_holds P (next_is b'[' start.rest) _ _
                    (λ _ h.
                      let (e, counted, h1) = >>=-eq-some (count_token start) _ h in
                      list_from-lem (read_items fuel depth) depth start (skip_white (step_over e))
                        le (count_token-lem start e counted).0
                        (λ vs w q. read_items-Strict fuel depth (skip_white (step_over e)) vs w q) v
                        d h1)
                    (λ _ h.
                      let (e, counted, h1) = >>=-eq-some (count_token start) _ h in
                      let (one, small) = count_token-lem start e counted in
                      let (plain, same) = makes _ (read_plain e) h1 (read_plain-lem e) in
                      (
                        plain.0 depth le,
                        omega (arith, plain.1, same, one),
                        omega (arith, same, small),
                      )))))

  read_members-Strict :
      (fuel depth : ℕ) (seen : Fields) (c : Cursor) (fs : Fields) (d : Cursor)
      → read_members fuel depth seen c ≡ some (fs, d)
      → ReadFields depth seen c fs d
  read_members-Strict zero depth seen c fs d h = cc
  read_members-Strict (suc fuel) depth seen c fs d h =
      let (_, h1) = guard_then (next_is 0x22 (skip_white c).rest) _ h in
      let ((key, c1), keyed, h2) = >>=-eq-some (read_string (skip_white c)) _ h1 in
      let (new, h3) = guard_then (not (has_key key seen)) _ h2 in
      let (c2, passed, h4) = >>=-eq-some (pass b':' (skip_white c1)) _ h3 in
      let ((v, c3), found, h5) = >>=-eq-some (read fuel (depth + 1) c2) _ h4 in
      let (scalar, one, _) = read_string-lem (skip_white c) key c1 keyed in
      let colon = pass-lem b':' (skip_white c1) c2 passed in
      let (strict, taken, _) = read-Strict fuel (depth + 1) c2 v c3 found in
      if_holds (λ (o : Option (Fields × Cursor)). o ≡ some (fs, d) → ReadFields depth seen c fs d)
        (next_is b'}' (skip_white c3).rest) _ _
        (λ _ q.
          subst (λ (x : Fields × Cursor). ReadFields depth seen c x.0 x.1) (some-injective _ _ q)
            (
              (scalar, refl, strict, tt),
              omega (arith, one, colon, taken),
              (ground (arith, new), tt),
            ))
        (λ _ q.
          let (c4, comma, q1) = >>=-eq-some (pass b',' (skip_white c3)) _ q in
          let ((more, c5), rest, q2) =
            >>=-eq-some (read_members fuel depth (field key v seen) c4) _ q1 in
          let (others, took, fresh) =
            read_members-Strict fuel depth (field key v seen) c4 more c5 rest in
          let passed_comma = pass-lem b',' (skip_white c3) c4 comma in
          subst (λ (x : Fields × Cursor). ReadFields depth seen c x.0 x.1) (some-injective _ _ q2)
            (
              (scalar, new_key key v seen more fresh, strict, others),
              omega (arith, one, colon, taken, took, passed_comma),
              (ground (arith, new), AreNew-fewer key v seen more fresh),
            ))
        h5

  read_items-Strict :
      (fuel depth : ℕ) (c : Cursor) (vs : Items) (d : Cursor)
      → read_items fuel depth c ≡ some (vs, d)
      → ReadItems depth c vs d
  read_items-Strict zero depth c vs d h = cc
  read_items-Strict (suc fuel) depth c vs d h =
      let ((v, c1), found, h1) = >>=-eq-some (read fuel (depth + 1) c) _ h in
      let (strict, taken, _) = read-Strict fuel (depth + 1) c v c1 found in
      if_holds (λ (o : Option (Items × Cursor)). o ≡ some (vs, d) → ReadItems depth c vs d)
        (next_is b']' (skip_white c1).rest) _ _
        (λ _ q.
          subst (λ (x : Items × Cursor). ReadItems depth c x.0 x.1) (some-injective _ _ q)
            ((strict, tt), omega (arith, taken)))
        (λ _ q.
          let (c2, comma, q1) = >>=-eq-some (pass b',' (skip_white c1)) _ q in
          let ((more, c3), rest, q2) = >>=-eq-some (read_items fuel depth c2) _ q1 in
          let (others, took) = read_items-Strict fuel depth c2 more c3 rest in
          let passed_comma = pass-lem b',' (skip_white c1) c2 comma in
          subst (λ (x : Items × Cursor). ReadItems depth c x.0 x.1) (some-injective _ _ q2)
            ((strict, others), omega (arith, taken, took, passed_comma)))
        h1

-- When contextJSON returns a value, it is nested at most 16 deep and has at most 16384 tokens; its numbers are
-- at most 4294967295, its texts and keys have surrogates in pairs only, and no object has a key twice.
pub context_json-IsStrict :
    (t : Text) (v : Value) → context_json t ≡ some v → IsStrict 1 v × (tokens_of v ≤ 16384)
unfolding context_json
context_json-IsStrict t v h =
    let start : Cursor = record { rest = t; tokens = 0 } in
    let ((w, c), found, h1) = >>=-eq-some (read (length t + 1) 1 start) _ h in
    let (strict, taken, small) = read-Strict (length t + 1) 1 start w c found in
    let (_, h2) = guard_then (is_nil (skip_white c).rest) _ h1 in
    subst (λ (x : Value). IsStrict 1 x × (tokens_of x ≤ 16384)) (some-injective _ _ h2)
      (strict, omega (arith, taken, small))
