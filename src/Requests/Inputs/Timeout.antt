-- ===== src/Requests/Inputs/Timeout.antt =====
-- frontend/state.js, `clientTimeoutMS`: the client waits longer than any target may take.
use mathlib.Core.Option.{some-injective}
use revealnetworktrouble.Prelude.{
  ◌⊎◌, inl, inr, refl, Bool-cases, dec_le, ℕ, zero, suc, ◌+◌, ◌*◌, ◌≤◌, min, max, ◌≡◌, sym, ◌∙◌, ap,
  true, some, List, [], ◌∷◌, arith, if◌then◌else◌, ◌>>=◌, get_elem?, take, Text,
}
use revealnetworktrouble.Requests.Inputs.{
  Given, absent, integer, negative, unusable, Payload, clamp, attempts_of, is_traceroute,
  longest_from, client_timeout_ms, numeric_integer,
}

longest_from-ge :
    (timeout longest : ℕ) (ts : List (Text × Given)) → longest ≤ longest_from timeout longest ts
unfolding longest_from
longest_from-ge timeout longest [] = omega arith
longest_from-ge timeout longest ((kind, attempts) ∷ ts) =
    let next =
      if is_traceroute kind then max longest (timeout * attempts_of attempts) else longest in
    let here : longest ≤ next = ground arith in omega (arith, here, longest_from-ge timeout next ts)

longest_from-target :
    (timeout longest i : ℕ) (ts : List (Text × Given)) (kind : Text) (attempts : Given)
    → get_elem? ts i ≡ some (kind, attempts)
    → is_traceroute kind ≡ true
    → timeout * attempts_of attempts ≤ longest_from timeout longest ts
unfolding longest_from
longest_from-target timeout longest i [] kind attempts h t = cc
longest_from-target timeout longest zero ((k, a) ∷ ts) kind attempts h t =
    let same = some-injective _ _ h in
    let next = if is_traceroute k then max longest (timeout * attempts_of a) else longest in
    let is = ap (λ p. is_traceroute p.0) same ∙ t in
    let count = ap (λ p. timeout * attempts_of p.1) same in
    let here : timeout * attempts_of a ≤ next = rw is (omega arith) in
    omega (arith, here, count, longest_from-ge timeout next ts)
longest_from-target timeout longest (suc i) ((k, a) ∷ ts) kind attempts h t =
    longest_from-target timeout
      (if is_traceroute k then max longest (timeout * attempts_of a) else longest) i ts kind
      attempts h t

attempts_of-le : (g : Given) → attempts_of g ≤ 10
attempts_of-le absent = omega arith
attempts_of-le (integer n) = omega arith
attempts_of-le negative = omega arith
attempts_of-le unusable = omega arith

product-le : (a b : ℕ) → a ≤ 30000 → b ≤ 10 → a * b ≤ 300000
product-le a b h k = grind arith

longest_from-le :
    (timeout longest : ℕ) (ts : List (Text × Given))
    → timeout ≤ 30000
    → longest ≤ 300000
    → longest_from timeout longest ts ≤ 300000
unfolding longest_from
longest_from-le timeout longest [] h k = k
longest_from-le timeout longest ((kind, attempts) ∷ ts) h k =
    let most = product-le timeout (attempts_of attempts) h (attempts_of-le attempts) in
    longest_from-le timeout
      (if is_traceroute kind then max longest (timeout * attempts_of attempts) else longest) ts h
      (ground (arith, most, k))

-- The longest time is the first one, or that of a target.
longest_from-reached :
    (timeout longest : ℕ) (ts : List (Text × Given))
    → (longest_from timeout longest ts ≡ longest)
      ⊎ ((i : ℕ) × (kind : Text) × (attempts : Given) × (get_elem? ts i ≡ some (kind, attempts))
          × (is_traceroute kind ≡ true)
          × (longest_from timeout longest ts ≡ timeout * attempts_of attempts))
unfolding longest_from
longest_from-reached timeout longest [] = inl refl
longest_from-reached timeout longest ((kind, attempts) ∷ ts) =
    let next =
      if is_traceroute kind then max longest (timeout * attempts_of attempts) else longest in
    elim (longest_from-reached timeout next ts) [
      | inr (i, k, a, e, t, same) ↦ inr (suc i, k, a, e, t, same)
      | inl same ↦ elim (Bool-cases (is_traceroute kind)) [
        | inr f ↦ inl (same ∙ (let kept : next ≡ longest = rw f refl in kept))
        | inl t ↦
            let most : next ≡ max longest (timeout * attempts_of attempts) = rw t refl in
            elim (dec_le longest (timeout * attempts_of attempts)) [
              | yes le ↦ inr (0, kind, attempts, refl, t, omega (arith, same, most, le))
              | no gt ↦ inl (omega (arith, same, most, gt))
            ]
      ]
    ]

-- The attempts of a target, as the code reads them: 5 where they are no integer, at least 1 and at most 10.
abbrev pub AttemptsOf : Given → ℕ → Type 0
AttemptsOf absent n = n ≡ 5
AttemptsOf unusable n = n ≡ 5
AttemptsOf negative n = n ≡ 1
AttemptsOf (integer m) n = (1 ≤ n) × (n ≤ 10) × ((m ≤ n) ⊎ (n ≡ 10)) × ((n ≤ m) ⊎ (n ≡ 1))

attempts_of-AttemptsOf : (g : Given) → AttemptsOf g (attempts_of g)
attempts_of-AttemptsOf absent = refl
attempts_of-AttemptsOf unusable = refl
attempts_of-AttemptsOf negative = refl
attempts_of-AttemptsOf (integer n) = (omega arith, omega arith, omega arith, omega arith)

-- The wait for a time limit: 15 seconds more than the longest of the limit itself and of the limit times the
-- attempts of each traceroute.
pub record IsWait (limit : ℕ) (ts : List (Text × Given)) (wait : ℕ) : Type 0 where
  pub reached :
      (wait ≡ limit + 15000)
      ⊎ ((i : ℕ) × (kind : Text) × (attempts : Given) × (n : ℕ) × (get_elem? ts i
            ≡ some (kind, attempts))
          × (is_traceroute kind ≡ true)
          × AttemptsOf attempts n
          × (wait ≡ limit * n + 15000))
  pub base : limit + 15000 ≤ wait
  pub targets :
      (i : ℕ) (kind : Text) (attempts : Given)
      → get_elem? ts i ≡ some (kind, attempts)
      → is_traceroute kind ≡ true
      → (n : ℕ) × AttemptsOf attempts n × (limit * n + 15000 ≤ wait)

-- When clientTimeoutMS gives a wait, and the time limit that is given is a number that it accepts, the wait is 15
-- seconds more than the longest of the limit, brought between 100 and 30000 milliseconds, and of this limit times
-- the attempts of each of the first 20 targets that is a traceroute; and it is at most 315 seconds.
pub client_timeout_ms-covers :
    (p : Payload) (given wait : ℕ)
    → numeric_integer p.timeout_ms 0 9007199254740991 5000 ≡ some given
    → client_timeout_ms p ≡ some wait
    → IsWait (min 30000 (max 100 given)) (take 20 p.targets) wait × (wait ≤ 315000)
unfolding client_timeout_ms
client_timeout_ms-covers p given wait g h =
    let timeout = clamp 100 30000 given in
    let ts = take 20 p.targets in
    let same = some-injective _ _ (
      sym (
        ap
          (λ o. o >>= λ given. some (
            min 315000 (
              longest_from (clamp 100 30000 given) (clamp 100 30000 given) (take 20 p.targets)
              + 15000)))
          g)
      ∙ h) in
    let most = longest_from-le timeout timeout ts (omega arith) (omega arith) in
    let exact : wait ≡ longest_from timeout timeout ts + 15000 = omega (arith, same, most) in
    (
      record {
        reached = elim (longest_from-reached timeout timeout ts) [
          | inl e ↦ inl (omega (arith, exact, e))
          | inr (i, kind, attempts, e, t, l) ↦ inr (
            i,
            kind,
            attempts,
            attempts_of attempts,
            e,
            t,
            attempts_of-AttemptsOf attempts,
            omega (arith, exact, l),
          )
        ];
        base = omega (arith, exact, longest_from-ge timeout timeout ts);
        targets = λ i kind attempts e t. (
          attempts_of attempts,
          attempts_of-AttemptsOf attempts,
          omega (arith, exact, longest_from-target timeout timeout i ts kind attempts e t),
        );
      },
      omega (arith, exact, most),
    )
