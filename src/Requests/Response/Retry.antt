-- ===== src/Requests/Response/Retry.antt =====
-- frontend/state.js, `parseRetryAfter` as `parseResponse` uses it: when a client may be told to retry.
use revealnetworktrouble.Prelude.{
  sym, Bool, decimal_from, false, ◌∙◌, if◌then◌else◌, ℕ, ◌+◌, ◌-◌, ◌*◌, ◌≤◌, ◌≡◌, true, Option,
  none, some, [], ◌∷◌, arith, leb, leb→le, guard_then, Text, decimal,
}
use mathlib.Core.Option.{some-injective}
use revealnetworktrouble.Requests.Errors.{NormalizedError, parse_retry_after, is_seconds_text}
use revealnetworktrouble.Requests.Response.{parse_error_response}
use revealnetworktrouble.Requests.Response.Registry.{
  Reported, unreadable, registered, parse_error_response-Reported,
}

decimal_from-le : (acc : ℕ) (t : Text) → acc ≤ decimal_from acc t
unfolding decimal_from
decimal_from-le acc [] = omega arith
decimal_from-le acc (c ∷ t) = omega (arith, decimal_from-le (acc * 10 + (c - 48)) t)

decimal-pos : (t : Text) → is_seconds_text t ≡ true → 1 ≤ decimal t
unfolding decimal_from
decimal-pos [] h = cc
decimal-pos (c ∷ t) h =
    let first : leb 49 c ≡ true = ground (arith, h) in
    omega (arith, decimal_from-le (0 * 10 + (c - 48)) t, leb→le 49 c first)

abbrev IsSoon : ℕ → Option ℕ → Type 0
IsSoon now r = (at : ℕ) → r ≡ some at → (now + 1000 ≤ at) × (at ≤ now + 3600000)

parse_retry_after-IsSoon :
    (header : Option Text) (now : ℕ) → IsSoon now (parse_retry_after header now)
unfolding parse_retry_after
parse_retry_after-IsSoon none now at h = cc
parse_retry_after-IsSoon (some t) now at h =
    let (seconds, rest) = guard_then (is_seconds_text t) _ h in
    let (short, same) = guard_then (leb (decimal t) 3600) _ rest in
    let at_eq = some-injective _ _ same in
    let long = decimal-pos t seconds in
    let bound = leb→le _ _ short in (omega (arith, at_eq, long), omega (arith, at_eq, bound))

if-IsSoon :
    (b : Bool) (header : Option Text) (now : ℕ)
    → IsSoon now (if b then parse_retry_after header now else none)
if-IsSoon true header now = parse_retry_after-IsSoon header now
if-IsSoon false header now = λ at h. cc

-- A time to retry at lies between one second and one hour after the clock, whatever the header says.
pub parse_error_response-retry_at :
    (status : ℕ) (body : Text) (header : Option Text) (now at : ℕ)
    → (parse_error_response status body header now).retry_at ≡ some at
    → (now + 1000 ≤ at) × (at ≤ now + 3600000)
parse_error_response-retry_at status body header now at h =
    reported (parse_error_response-Reported status body header now) at h
  where
    reported : {e : NormalizedError} → Reported status body header now e → IsSoon now e.retry_at
    reported (unreadable _ _ _ _ _ _ never) at h = cc
    reported (registered d row (_, _, _, _, _, retry)) at h =
        if-IsSoon d.retry_after header now at (sym retry ∙ h)
