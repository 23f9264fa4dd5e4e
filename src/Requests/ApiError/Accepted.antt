-- ===== src/Requests/ApiError/Accepted.antt =====
-- frontend/state.js, `parseStrictAPIErrorJSON`: the limits hold for all that it returns.
use revealnetworktrouble.Prelude.{
  ℕ, zero, suc, ◌≤◌, ◌≡◌, sym, ◌∙◌, ap, inl, inr, ◌&&◌, ◌||◌, Option, none, some, List, [], ◌∷◌,
  arith, ltb, ◌==◌, if◌then◌else◌, Bool-cases, length, is_nil, Text, codes, text_eq,
}
use revealnetworktrouble.Requests.ApiError.{
  Cursor, Reader, require, body_limit, string_from, skip_whitespace, count_token, take_unit,
  string_body, ErrorBody, Fields, read_string, read_name, read_field, read_fields, read_error,
  read_root, read_body, parse_api_error, ◌>>=◌, put_field, no_fields, read_members, next_field,
  next_error, both_fields, begin_object, end_object, read_root_members, at_end, start, result,
  next_is, drop_white,
}
use mathlib.Core.Path.{subst}
use mathlib.Core.Option.{some-injective}
use revealnetworktrouble.Requests.ApiError.Unicode.{IsAccepted, Tail, string_from-Tail}

-- What a reader gives, when it gives something.
abbrev Gives : {A : Type 0} → (A → Type 0) → Option (A × Cursor) → Type 0
Gives P none = Unit {0}
Gives P (some (a, c)) = P a

abbrev Always : {A : Type 0} → (A → Type 0) → Reader A → Type 0
Always P r = (c : Cursor) → Gives P (r c)

>>=-Always :
    {A B : Type 0} (Q : A → Type 0) (P : B → Type 0) (m : Reader A) (f : A → Reader B)
    → Always Q m
    → ((a : A) → Q a → Always P (f a))
    → Always P (m >>= f)
>>=-Always {A = A} {B = B} Q P m f h k c = go (m c) (h c)
  where
    go :
        (o : Option (A × Cursor))
        → Gives Q o
        → Gives P (elim o [ none ↦ none | some (a, d) ↦ f a d ])
    go none q = tt
    go (some (a, d)) q = k a q d

always : {A : Type 0} (r : Reader A) → Always (λ _. Unit {0}) r
always {A = A} r c = go (r c)
  where
    go : (o : Option (A × Cursor)) → Gives (λ _. Unit {0}) o
    go none = tt
    go (some (a, d)) = tt

-- What stands before does not matter.
then-Always :
    {A B : Type 0} (P : B → Type 0) (m : Reader A) (f : A → Reader B)
    → ((a : A) → Always P (f a))
    → Always P (m >>= f)
then-Always P m f k = >>=-Always (λ _. Unit {0}) P m f (always m) (λ a _. k a)

string_body-IsAccepted : Always IsAccepted string_body
string_body-IsAccepted c =
    go (string_from (length c.rest) 0 c.rest)
      (string_from-Tail (length c.rest) 0 c.rest (omega arith))
  where
    go :
        (o : Option (Text × Text))
        → Tail 0 o
        → Gives IsAccepted (elim o [ none ↦ none | some (s, t) ↦ some (s, record c { rest = t }) ])
    go none h = tt
    go (some (s, t)) h = record { unicode = h.unicode; short = omega (arith, h.short) }

read_string-IsAccepted : Always IsAccepted read_string
unfolding read_string
read_string-IsAccepted = then-Always IsAccepted skip_whitespace _ (λ _.
    then-Always IsAccepted count_token _
      (λ _. then-Always IsAccepted (take_unit 0x22) _ (λ _. string_body-IsAccepted)))

abbrev Holds : Option Text → Type 0
Holds none = Unit {0}
Holds (some s) = IsAccepted s

record IsGood (f : Fields) : Type 0 where
  code : Holds f.code
  message : Holds f.message

put_field-IsGood :
    (name value : Text) (f : Fields) → IsAccepted value → IsGood f → IsGood (put_field name value f)
put_field-IsGood name value f v g = elim (Bool-cases (text_eq name (codes "code"))) [
  | inl e ↦ rw e (record { code = v; message = g.message })
  | inr e ↦ rw e (record { code = g.code; message = v })
]

abbrev IsGoodField : Text × Fields → Type 0
IsGoodField (name, f) = IsGood f

read_field-IsGood :
    (seen : List Text) (f : Fields) → IsGood f → Always IsGoodField (read_field seen f)
unfolding read_field
read_field-IsGood seen f g = then-Always {B = Text × Fields} IsGoodField (read_name seen) _ (λ name.
    then-Always {B = Text × Fields} IsGoodField
      (require (text_eq name (codes "code") || text_eq name (codes "message"))) _
      (λ _.
        >>=-Always {B = Text × Fields} IsAccepted IsGoodField read_string _ read_string-IsAccepted
          (λ value v c. put_field-IsGood name value f v g)))

next_field-IsGood :
    (later : List Text → Fields → Reader Fields) (seen : List Text)
    (o : Option ((Text × Fields) × Cursor))
    → ((seen : List Text) (f : Fields) → IsGood f → Always IsGood (later seen f))
    → Gives IsGoodField o
    → Gives IsGood (next_field later seen o)
next_field-IsGood later seen none k g = tt
next_field-IsGood later seen (some ((name, f), d)) k g =
    elim (Bool-cases (next_is b',' (drop_white d.rest))) [
      | inl e ↦ rw e (k (name ∷ seen) f g _)
      | inr e ↦ rw e g
    ]

read_fields-IsGood :
    (rounds : ℕ) (seen : List Text) (f : Fields)
    → IsGood f
    → Always IsGood (read_fields rounds seen f)
unfolding read_fields
read_fields-IsGood zero seen f g c = tt
read_fields-IsGood (suc rounds) seen f g c =
    next_field-IsGood (read_fields rounds) seen (read_field seen f c) (read_fields-IsGood rounds)
      (read_field-IsGood seen f g c)

read_members-IsGood : Always IsGood read_members
read_members-IsGood c = elim (Bool-cases (next_is b'}' (drop_white c.rest))) [
  | inl e ↦ rw e (record { code = tt; message = tt })
  | inr e ↦ rw e (read_fields-IsGood 4 [] no_fields (record { code = tt; message = tt }) _)
]

-- Both strings are accepted ones.
pub record IsWithin (b : ErrorBody) : Type 0 where
  pub code : IsAccepted b.code
  pub message : IsAccepted b.message

both_fields-IsWithin : (f : Fields) → IsGood f → Always IsWithin (both_fields f)
both_fields-IsWithin f g c = go f.code f.message g.code g.message
  where
    go :
        (x y : Option Text)
        → Holds x
        → Holds y
        → Gives IsWithin (both_fields (record { code = x; message = y }) c)
    go none y h k = tt
    go (some x) none h k = tt
    go (some x) (some y) h k = record { code = h; message = k }

read_error-IsWithin : (seen : List Text) → Always IsWithin (read_error seen)
unfolding read_error
read_error-IsWithin seen = then-Always IsWithin (read_name seen) _ (λ name.
    then-Always IsWithin (require _) _ (λ _. then-Always IsWithin begin_object _ (λ _.
      >>=-Always IsGood IsWithin read_members _ read_members-IsGood
        (λ f g. then-Always IsWithin end_object _ (λ _. both_fields-IsWithin f g)))))

next_error-IsWithin :
    (later : List Text → Reader ErrorBody) (seen : List Text) (o : Option (ErrorBody × Cursor))
    → ((seen : List Text) → Always IsWithin (later seen))
    → Gives IsWithin o
    → Gives IsWithin (next_error later seen o)
next_error-IsWithin later seen none k g = tt
next_error-IsWithin later seen (some (b, d)) k g =
    elim (Bool-cases (next_is b',' (drop_white d.rest))) [
      | inl e ↦ rw e (k (codes "error" ∷ seen) _)
      | inr e ↦ rw e g
    ]

read_root-IsWithin : (rounds : ℕ) (seen : List Text) → Always IsWithin (read_root rounds seen)
unfolding read_root
read_root-IsWithin zero seen c = tt
read_root-IsWithin (suc rounds) seen c =
    next_error-IsWithin (read_root rounds) seen (read_error seen c) (read_root-IsWithin rounds)
      (read_error-IsWithin seen c)

read_root_members-IsWithin : Always IsWithin read_root_members
read_root_members-IsWithin c = elim (Bool-cases (next_is b'}' (drop_white c.rest))) [
  | inl e ↦ rw e tt
  | inr e ↦ rw e (read_root-IsWithin 2 [] _)
]

at_end-IsWithin : (b : ErrorBody) → IsWithin b → Always IsWithin (at_end b)
at_end-IsWithin b h c = elim (Bool-cases (is_nil c.rest && c.depth == 0)) [
  | inl e ↦ rw e h
  | inr e ↦ rw e tt
]

read_body-IsWithin : Always IsWithin read_body
unfolding read_body
read_body-IsWithin = then-Always IsWithin begin_object _ (λ _.
    >>=-Always IsWithin IsWithin read_root_members _ read_root_members-IsWithin (λ b h.
      then-Always IsWithin end_object _ (λ _.
        then-Always IsWithin skip_whitespace _
          (λ _. then-Always IsWithin count_token _ (λ _. at_end-IsWithin b h)))))

result-IsWithin :
    (o : Option (ErrorBody × Cursor)) (b : ErrorBody)
    → Gives IsWithin o
    → result o ≡ some b
    → IsWithin b
result-IsWithin none b h e = cc
result-IsWithin (some (b', d)) b h e = subst IsWithin (some-injective _ _ e) h

-- Whenever the parser returns, the body is within its limit, and the code and the message have at
-- most 128 units each, with surrogates in pairs only.
pub parse_api_error-IsWithin :
    (body : Text) (b : ErrorBody)
    → parse_api_error body ≡ some b
    → (length body ≤ body_limit) × IsWithin b
unfolding parse_api_error
parse_api_error-IsWithin body b h = elim (Bool-cases (ltb body_limit (length body))) [
  | inl e ↦
      let absurd = sym (ap (λ t. if t then none else result (read_body (start body))) e) ∙ h in cc
  | inr e ↦ (
    ground arith,
    result-IsWithin (read_body (start body)) b (read_body-IsWithin (start body))
        (sym (ap (λ t. if t then none else result (read_body (start body))) e) ∙ h),
  )
]
