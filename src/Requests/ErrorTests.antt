-- ===== src/Requests/ErrorTests.antt =====
-- frontend/state.js: runs of the reader of error bodies, and its theorems at concrete inputs.
use revealnetworktrouble.Prelude.{
  ◌+◌, ◌≤◌, ◌≡◌, refl, true, none, some, [], ◌∷◌, ◌++◌, map, arith, String, length, Text, codes,
}
use revealnetworktrouble.Requests.Errors.{http, parse_retry_after}
use revealnetworktrouble.Requests.ApiError.{ErrorBody, hex_unit, parse_api_error, body_limit}
use revealnetworktrouble.Requests.ApiError.Unicode.{plain, pair, ended}
use revealnetworktrouble.Requests.ApiError.Accepted.{IsWithin, parse_api_error-IsWithin}
use revealnetworktrouble.Requests.ApiError.RoundTrip.{print, parse_api_error-print}
use revealnetworktrouble.Requests.Response.{Definition, parse_error_response, find_definition}
use revealnetworktrouble.Requests.Response.Registry.{
  Reported, parse_error_response-Reported, parse_error_response-print,
}
use revealnetworktrouble.Requests.Response.Retry.{parse_error_response-retry_at}

abbrev body_of : String → String → Text
body_of code message =
    b'{' ∷ 0x22 ∷ codes "error"
    ++ 0x22 ∷ b':' ∷ b'{' ∷ 0x22 ∷ codes "code"
    ++ 0x22 ∷ b':' ∷ 0x22 ∷ codes code
    ++ 0x22 ∷ b',' ∷ 32 ∷ 0x22 ∷ codes "message"
    ++ 0x22 ∷ b':' ∷ 0x22 ∷ codes message
    ++ 0x22 ∷ b'}' ∷ 10 ∷ b'}' ∷ []

-- An escape, a pair of escapes, a lone half.
reads_escapes :
    map parse_api_error
      (body_of "a\\n\\u0041" "\\ud83d\\ude00" ∷ body_of "a" "\\ud83d" ∷ body_of "a" "\\x" ∷ [])
    ≡ some (record { code = codes "a" ++ 10 ∷ 65 ∷ []; message = 0xd83d ∷ 0xde00 ∷ [] })
      ∷ none
      ∷ none
      ∷ []
unfolding parse_api_error hex_unit
reads_escapes = refl

-- Nothing may follow, and no name may come twice.
refuses :
    map parse_api_error (
      (body_of "a" "b" ++ b'x' ∷ [])
      ∷ codes "{}"
      ∷ codes ""
      ∷ codes "{\"error\":{\"code\":\"a\",\"code\":\"b\"}}"
      ∷ codes "{\"error\":{\"code\":\"a\"}}"
      ∷ codes "{\"error\":null}"
      ∷ [])
    ≡ none ∷ none ∷ none ∷ none ∷ none ∷ none ∷ []
unfolding parse_api_error
refuses = refl

abbrev busy : ErrorBody
busy = record {
  code = codes "server_busy";
  message = codes "report capacity is temporarily unavailable";
}

abbrev busy_body : Text
busy_body = body_of "server_busy" "report capacity is temporarily unavailable"

busy_read : parse_api_error busy_body ≡ some busy
unfolding parse_api_error
busy_read = refl

parse_api_error-IsWithin_example : (length busy_body ≤ body_limit) × IsWithin busy
parse_api_error-IsWithin_example = parse_api_error-IsWithin busy_body busy busy_read

abbrev odd : ErrorBody
odd = record { code = 0x22 ∷ 0x5c ∷ 10 ∷ []; message = 0xd83d ∷ 0xde00 ∷ [] }

parse_api_error-print_example : parse_api_error (print odd) ≡ some odd
parse_api_error-print_example =
    parse_api_error-print odd
      (record {
        unicode = plain refl refl (plain refl refl (plain refl refl ended));
        short = omega arith;
      })
      (record { unicode = pair refl refl ended; short = omega arith })

parse_error_response-Reported_example :
    Reported 503 busy_body
      (some (codes "7"))
      100
      (parse_error_response 503 busy_body (some (codes "7")) 100)
parse_error_response-Reported_example =
    parse_error_response-Reported 503 busy_body (some (codes "7")) 100

abbrev busy_row : Definition
busy_row = record {
  status = 503;
  code = codes "server_busy";
  retryable = true;
  retry_after = true;
  message = codes "report capacity is temporarily unavailable";
}

parse_error_response-print_example :
    parse_error_response 503 (print busy) (some (codes "7")) 100 ≡ record {
      kind = http;
      code = codes "server_busy";
      status = some 503;
      message = codes "report capacity is temporarily unavailable";
      retryable = true;
      retry_at = some 7100;
    }
unfolding parse_retry_after
parse_error_response-print_example =
    parse_error_response-print 12 busy_row (some (codes "7")) 100 refl

retry_known : (parse_error_response 503 busy_body (some (codes "7")) 100).retry_at ≡ some 7100
unfolding parse_error_response parse_api_error parse_retry_after find_definition
retry_known = refl

parse_error_response-retry_at_example : (100 + 1000 ≤ 7100) × (7100 ≤ 100 + 3600000)
parse_error_response-retry_at_example =
    parse_error_response-retry_at 503 busy_body (some (codes "7")) 100 7100 retry_known
