-- ===== src/Requests/Errors.antt =====
-- frontend/state.js, `normalizeRequestError` and what it calls: any thrown value becomes one of five
-- kinds of error. A thrown value is given by the properties that the code reads.
use revealnetworktrouble.Prelude.{
  decimal_from, ℕ, ◌+◌, ◌*◌, Bool, true, false, ◌&&◌, ◌||◌, Option, none, some, [], ◌∷◌, leb,
  if◌then◌else◌, ◌>>=◌, ◌>>◌, or_else, guard, length, take, all, Text, codes, text_eq, is_digit,
  decimal,
}

pub data ErrorKind : Type 0 where
  http network timeout invalid_response cancelled : ErrorKind

-- `ERROR_KINDS.includes`
unfoldable pub error_kind : Text → Option ErrorKind
error_kind t =
    if text_eq t (codes "http")
    then some http
    else if text_eq t (codes "network")
    then some network
    else if text_eq t (codes "timeout")
    then some timeout
    else if text_eq t (codes "invalid-response")
    then some invalid_response
    else if text_eq t (codes "cancelled")
    then some cancelled
    else none

-- A thrown object; `none` is a property that is absent, or not of the type that the code tests for.
pub record Thrown : Type 0 where
  pub is_type_error : Bool
  pub name : Option Text
  pub reason : Option Text
  pub cause : Option Text
  pub kind : Option Text
  pub code : Option Text
  pub message : Option Text
  pub status : Option ℕ
  pub retry_at : Option ℕ
  pub retryable : Bool

-- `wrapped` is an object with a truthy `error`, and the reasons that stand beside it.
pub data ErrorInput : Type 0 where
  nothing : ErrorInput
  bare : Thrown → ErrorInput
  wrapped : (reason abort_reason : Option Text) → Thrown → ErrorInput

pub record NormalizedError : Type 0 where
  pub kind : ErrorKind
  pub code : Text
  pub status : Option ℕ
  pub message : Text
  pub retryable : Bool
  pub retry_at : Option ℕ

abbrev pub max_string : ℕ
max_string = 4096

abbrev pub timed_out : NormalizedError
timed_out = record {
  kind = timeout;
  code = codes "timeout";
  status = none;
  message = codes "The request timed out.";
  retryable = true;
  retry_at = none;
}

abbrev pub was_cancelled : NormalizedError
was_cancelled = record {
  kind = cancelled;
  code = codes "cancelled";
  status = none;
  message = codes "The request was cancelled.";
  retryable = false;
  retry_at = none;
}

abbrev pub network_error : NormalizedError
network_error = record {
  kind = network;
  code = codes "network_error";
  status = none;
  message = codes "The network request could not be completed.";
  retryable = true;
  retry_at = none;
}

abbrev pub is_text : Option Text → Text → Bool
is_text none t = false
is_text (some s) t = text_eq s t

-- An error that carries a known kind and a code keeps them.
abbrev pub typed_error : Option ErrorKind → Option Text → Thrown → NormalizedError
typed_error none code e = network_error
typed_error (some k) none e = network_error
typed_error (some k) (some code) e = record {
  kind = k;
  code = code;
  status = e.status;
  message = elim e.message [ none ↦ codes "The request failed." | some m ↦ take max_string m ];
  retryable = e.retryable;
  retry_at = e.retry_at;
}

unfoldable pub normalize_thrown : Option Text → Thrown → NormalizedError
unfolding error_kind
normalize_thrown reason e =
    if is_text reason (codes "timeout") || is_text e.name (codes "TimeoutError")
    then timed_out
    else if is_text e.name (codes "AbortError")
    then was_cancelled
    else if e.is_type_error || is_text e.name (codes "TypeError")
    then network_error
    else typed_error (e.kind >>= error_kind) e.code e

-- `reason` is the first that is given of four.
unfoldable pub normalize_request_error : ErrorInput → NormalizedError
unfolding normalize_thrown
normalize_request_error nothing = network_error
normalize_request_error (bare e) = normalize_thrown (or_else e.reason e.cause) e
normalize_request_error (wrapped reason abort_reason e) =
    normalize_thrown (or_else reason (or_else abort_reason (or_else e.reason e.cause))) e

-- `/^[1-9]\d{0,3}$/`
abbrev pub is_seconds_text : Text → Bool
is_seconds_text [] = false
is_seconds_text (c ∷ t) = leb 49 c && leb c 57 && all is_digit t && leb (length t) 3

-- `parseRetryAfter`, for a header that may be absent and a clock that reads a finite time.
unfoldable pub parse_retry_after : Option Text → ℕ → Option ℕ
unfolding decimal_from
parse_retry_after none now = none
parse_retry_after (some t) now = do
  guard (is_seconds_text t)
  let seconds = decimal t
  guard (leb seconds 3600)
  some (now + seconds * 1000)
