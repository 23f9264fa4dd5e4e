-- ===== src/Requests/Response.antt =====
-- frontend/state.js, `API_ERROR_REGISTRY` and the error branch of `parseResponse`.
pub mod Registry
pub mod Retry
use revealnetworktrouble.Prelude.{
  [], ℕ, ◌-◌, Bool, true, false, not, ◌&&◌, Option, none, some, List, ◌∷◌, String, ◌==◌,
  if◌then◌else◌, Text, codes, text_eq,
}
use revealnetworktrouble.Requests.Errors.{
  http, invalid_response, NormalizedError, parse_retry_after,
}
use revealnetworktrouble.Requests.ApiError.{ErrorBody, parse_api_error}

-- A row of the registry.
pub record Definition : Type 0 where
  pub status : ℕ
  pub code : Text
  pub retryable : Bool
  pub retry_after : Bool
  pub message : Text

abbrev row : ℕ → String → Bool → Bool → String → Definition
row s c r a m = record {
  status = s;
  code = codes c;
  retryable = r;
  retry_after = a;
  message = codes m;
}

abbrev pub registry : List Definition
registry =
    row 503 "body_decode_capacity_unavailable" true true
      "request body decode capacity is temporarily unavailable"
    ∷ row 500 "compact_response_too_large" true false
        "compact report response exceeds the size limit"
    ∷ row 500 "full_response_too_large" true false "full report response exceeds the size limit"
    ∷ row 500 "internal_error" true false "report could not be generated"
    ∷ row 400 "invalid_json" false false "request body must be a valid JSON report request"
    ∷ row 422 "invalid_request" false false "request is invalid"
    ∷ row 405 "unmatched" false false "route not found"
    ∷ row 422 "network_policy_blocked" false false "target is not allowed in public mode"
    ∷ row 429 "rate_limited" true true "per-client request limit exceeded"
    ∷ row 413 "request_too_large" false false "request body exceeds the size limit"
    ∷ row 500 "response_serialization_failed" true false "report response could not be serialized"
    ∷ row 404 "unmatched" false false "route not found"
    ∷ row 503 "server_busy" true true "report capacity is temporarily unavailable"
    ∷ row 503 "server_draining" true true "server is draining and temporarily unavailable"
    ∷ row 401 "unauthorized" false false "valid API credentials are required"
    ∷ row 503 "write_capacity_unavailable" true false
        "report response write capacity is temporarily unavailable"
    ∷ []

-- The keys of the map, `status` and `code`, are those of one row each.
unfoldable pub find_definition : ℕ → Text → List Definition → Option Definition
find_definition status code [] = none
find_definition status code (d ∷ ds) =
    let later = find_definition status code ds in
    if d.status == status && text_eq d.code code then some d else later

-- `parseResponse` when the response is not `ok`: its status, its body, the header `Retry-After` and
-- the clock.
abbrev pub invalid_server_error : ℕ → NormalizedError
invalid_server_error status = record {
  kind = invalid_response;
  code = codes "invalid_server_response";
  status = some status;
  message = codes "The server returned an invalid error response.";
  retryable = false;
  retry_at = none;
}

abbrev pub defined_error : ℕ → Option Text → ℕ → Definition → NormalizedError
defined_error status header now d = record {
  kind = http;
  code = d.code;
  status = some status;
  message = d.message;
  retryable = d.retryable;
  retry_at = if d.retry_after then parse_retry_after header now else none;
}

abbrev pub matched_error : ℕ → Option Text → ℕ → Text → Option Definition → NormalizedError
matched_error status header now message none = invalid_server_error status
matched_error status header now message (some d) =
    if text_eq message d.message
    then defined_error status header now d
    else invalid_server_error status

abbrev pub structured_error : ℕ → Option Text → ℕ → Option ErrorBody → NormalizedError
structured_error status header now none = invalid_server_error status
structured_error status header now (some b) =
    matched_error status header now b.message (find_definition status b.code registry)

unfoldable pub parse_error_response : ℕ → Text → Option Text → ℕ → NormalizedError
parse_error_response status body header now =
    structured_error status header now (parse_api_error body)
