-- ===== src/IpContext/Json/Form.antt =====
-- frontend/state.js, `contextJSON`: the form of a value that is read, and what its small readers give.
use revealnetworktrouble.Prelude.{
  if_holds, ℕ, ◌+◌, ◌≤◌, ◌≡◌, refl, sym, ◌∙◌, ap, true, false, Option, none, some, arith, ◌>>=◌,
  >>=-eq-some, guard_then, length, drop, Text, codes,
}
use mathlib.Core.Path.{subst}
use mathlib.Core.Option.{some-injective}
use revealnetworktrouble.IpContext.Number.{Parts, number_prefix, context_number}
use revealnetworktrouble.IpContext.Number.Exact.{context_number-le}
use revealnetworktrouble.IpContext.Json.{
  Value, Items, Fields, null, truth, num, str, arr, obj, nil, cons, end, field, is_scalar, Cursor,
  count_token, step_over, pass, read_string, has_key, starts_with, read_plain, close, to_quote,
  unquote,
}

-- A value at a depth, its numbers, its texts and its keys.
unfoldable mutual
  pub IsStrict : ℕ → Value → Type 0
  IsStrict depth null = depth ≤ 16
  IsStrict depth (truth b) = depth ≤ 16
  IsStrict depth (num n) = (depth ≤ 16) × (n ≤ 4294967295)
  IsStrict depth (str t) = (depth ≤ 16) × (is_scalar t ≡ true)
  IsStrict depth (arr vs) = (depth ≤ 16) × AreStrict depth vs
  IsStrict depth (obj fs) = (depth ≤ 16) × HasStrict depth fs

  pub AreStrict : ℕ → Items → Type 0
  AreStrict depth nil = Unit {0}
  AreStrict depth (cons v vs) = IsStrict (depth + 1) v × AreStrict depth vs

  pub HasStrict : ℕ → Fields → Type 0
  HasStrict depth end = Unit {0}
  HasStrict depth (field k v fs) =
      (is_scalar k ≡ true) × (has_key k fs ≡ false) × IsStrict (depth + 1) v × HasStrict depth fs

-- The tokens of a value: its texts, keys, numbers and words, and both ends of each list and object.
unfoldable mutual
  pub tokens_of : Value → ℕ
  tokens_of null = 1
  tokens_of (truth b) = 1
  tokens_of (num n) = 1
  tokens_of (str t) = 1
  tokens_of (arr vs) = 2 + tokens_of_items vs
  tokens_of (obj fs) = 2 + tokens_of_fields fs

  pub tokens_of_items : Items → ℕ
  tokens_of_items nil = 0
  tokens_of_items (cons v vs) = tokens_of v + tokens_of_items vs

  pub tokens_of_fields : Fields → ℕ
  tokens_of_fields end = 0
  tokens_of_fields (field k v fs) = 1 + tokens_of v + tokens_of_fields fs

pub count_token-lem :
    (c d : Cursor) → count_token c ≡ some d → (d.tokens ≡ c.tokens + 1) × (d.tokens ≤ 16384)
unfolding count_token
count_token-lem c d h = ground (arith, h)

pub pass-lem : (u : ℕ) (c d : Cursor) → pass u c ≡ some d → d.tokens ≡ c.tokens
unfolding pass
pass-lem u c d h = ground (arith, h)

pub read_string-lem :
    (c : Cursor) (t : Text) (d : Cursor)
    → read_string c ≡ some (t, d)
    → (is_scalar t ≡ true) × (d.tokens ≡ c.tokens + 1) × (d.tokens ≤ 16384)
unfolding read_string
read_string-lem c t d h =
    let (e, counted, h1) = >>=-eq-some (count_token c) _ h in
    let ((raw, rest), quoted, h2) = >>=-eq-some (to_quote (drop 1 e.rest)) _ h1 in
    let (u, parsed, h3) = >>=-eq-some (unquote (length raw) raw) _ h2 in
    let (scalar, h4) = guard_then (is_scalar u) _ h3 in
    let (one, small) = count_token-lem c e counted in
    let same = some-injective _ _ h4 in
    (
      subst (λ (w : Text). is_scalar w ≡ true) (ap (λ (x : Text × Cursor). x.0) same) scalar,
      sym (ap (λ (x : Text × Cursor). x.1.tokens) same) ∙ one,
      omega (arith, ap (λ (x : Text × Cursor). x.1.tokens) same, small),
    )

-- A word or a number at a depth that is allowed.
unfoldable pub IsPlain : Value → Type 0
IsPlain v = ((depth : ℕ) → depth ≤ 16 → IsStrict depth v) × (tokens_of v ≡ 1)

-- What a reader makes, if it makes something.
abbrev Makes : {A : Type 0} → (A → Cursor → Type 0) → Option (A × Cursor) → Type 0
Makes P none = Unit {0}
Makes P (some (a, c)) = P a c

pub makes :
    {A : Type 0} (P : A → Cursor → Type 0) (o : Option (A × Cursor)) {a : A} {c : Cursor}
    → o ≡ some (a, c)
    → Makes P o
    → P a c
makes P o {a} {c} h m = subst (Makes P) h m

pub read_plain-lem : (c : Cursor) → Makes (λ v d. IsPlain v × (d.tokens ≡ c.tokens)) (read_plain c)
unfolding read_plain IsPlain IsStrict tokens_of
read_plain-lem c =
    if_holds (Makes _) (starts_with (codes "true") c.rest) _ _ (λ _. (((λ depth h. h), refl), refl))
      (λ _.
        if_holds (Makes _) (starts_with (codes "false") c.rest) _ _
          (λ _. (((λ depth h. h), refl), refl))
          (λ _.
            if_holds (Makes _) (starts_with (codes "null") c.rest) _ _
              (λ _. (((λ depth h. h), refl), refl)) (λ _. number (number_prefix c.rest))))
  where
    number :
        (o : Option (Parts × Text))
        → Makes
            (λ v d. IsPlain v × (d.tokens ≡ c.tokens))
            (o >>= λ x. context_number x.0 >>= λ n. some (num n, record c { rest = x.1 }))
    number none = tt
    number (some (parts, rest)) = value (context_number parts) (λ n e. context_number-le parts n e)
      where
        value :
            (o : Option ℕ)
            → ((n : ℕ) → o ≡ some n → n ≤ 4294967295)
            → Makes
                (λ v d. IsPlain v × (d.tokens ≡ c.tokens))
                (o >>= λ n. some (num n, record c { rest = rest }))
        value none le = tt
        value (some n) le = (((λ depth h. (h, le n refl)), refl), refl)

pub close-lem :
    {A : Type 0} (make : A → Value) (a : A) (c : Cursor) (v : Value) (d : Cursor)
    → close make a c ≡ some (v, d)
    → (make a ≡ v) × (d.tokens ≡ c.tokens + 1) × (d.tokens ≤ 16384)
unfolding close
close-lem make a c v d h =
    let (e, counted, h1) = >>=-eq-some (count_token (step_over c)) _ h in
    let same = some-injective _ _ h1 in
    let (one, small) = count_token-lem (step_over c) e counted in
    let tokens = ap (λ (x : Value × Cursor). x.1.tokens) same in
    (
      ap (λ (x : Value × Cursor). x.0) same,
      omega (arith, tokens, one),
      omega (arith, tokens, small),
    )
