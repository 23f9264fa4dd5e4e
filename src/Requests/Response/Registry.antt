-- ===== src/Requests/Response/Registry.antt =====
-- frontend/state.js, `API_ERROR_REGISTRY` as `parseResponse` uses it.
use revealnetworktrouble.Prelude.{
  codes, false, text_eq_self, eq_of_text_eq, ℕ, zero, suc, ◌≡◌, refl, sym, ◌∙◌, ap, ap₂, inl, inr,
  Bool, true, ◌&&◌, Option, none, some, List, [], ◌∷◌, arith, leb, ◌==◌, if◌then◌else◌, Bool-cases,
  length, get_elem?, all, All, Text, text_eq,
}
use mathlib.Core.Path.{subst}
use mathlib.Core.Option.{some-injective}
use revealnetworktrouble.Requests.Errors.{
  http, invalid_response, NormalizedError, parse_retry_after,
}
use revealnetworktrouble.Requests.ApiError.{ErrorBody, parse_api_error, string_limit}
use revealnetworktrouble.Requests.ApiError.Unicode.{IsAccepted}
use revealnetworktrouble.Requests.ApiError.RoundTrip.{print, parse_api_error-print, word, is_plain}
use revealnetworktrouble.Requests.Response.{
  Definition, registry, find_definition, invalid_server_error, defined_error, matched_error,
  structured_error, parse_error_response,
}

All-get {ℓ κ} :
    {A : Type ℓ} (P : A → Type κ) (xs : List A) (i : ℕ) {x : A}
    → All P xs
    → get_elem? xs i ≡ some x
    → P x
All-get P [] i h e = cc
All-get P (y ∷ ys) zero (p, h) e = subst P (some-injective _ _ e) p
All-get P (y ∷ ys) (suc i) (p, h) e = All-get P ys i h e

-- The row for a status and a code.
record IsRow (status : ℕ) (code : Text) (ds : List Definition) (d : Definition) : Type 0 where
  index : ℕ
  here : get_elem? ds index ≡ some d
  status_eq : d.status ≡ status
  code_eq : d.code ≡ code

find_definition-IsRow :
    (status : ℕ) (code : Text) (ds : List Definition) (d : Definition)
    → find_definition status code ds ≡ some d
    → IsRow status code ds d
unfolding find_definition
find_definition-IsRow status code [] d h = cc
find_definition-IsRow status code (e ∷ ds) d h =
    elim (Bool-cases (e.status == status && text_eq e.code code)) [
      | inl t ↦
          let same =
            some-injective _ _
              (sym (ap (λ b. if b then some e else find_definition status code ds) t) ∙ h) in
          subst (IsRow status code (e ∷ ds)) same (record {
            index = 0;
            here = refl;
            status_eq = ground (arith, t);
            code_eq = eq_of_text_eq e.code code (ground (arith, t));
          })
      | inr f ↦
          let later =
            find_definition-IsRow status code ds d
              (sym (ap (λ b. if b then some e else find_definition status code ds) f) ∙ h) in
          record {
            index = suc later.index;
            here = later.here;
            status_eq = later.status_eq;
            code_eq = later.code_eq;
          }
    ]

abbrev fits : Definition → Bool
fits d =
    all is_plain d.code
    && leb (length d.code) string_limit
    && (all is_plain d.message && leb (length d.message) string_limit)

abbrev IsFound : Definition → Type 0
IsFound d = (fits d ≡ true) × (find_definition d.status d.code registry ≡ some d)

registry-IsFound : All IsFound registry
unfolding find_definition
registry-IsFound = (
  (refl, refl),
  (
    (refl, refl),
    (
      (refl, refl),
      (
        (refl, refl),
        (
          (refl, refl),
          (
            (refl, refl),
            (
              (refl, refl),
              (
                (refl, refl),
                (
                  (refl, refl),
                  (
                    (refl, refl),
                    (
                      (refl, refl),
                      (
                        (refl, refl),
                        ((refl, refl), ((refl, refl), ((refl, refl), ((refl, refl), tt)))),
                      ),
                    ),
                  ),
                ),
              ),
            ),
          ),
        ),
      ),
    ),
  ),
)

found-IsAccepted : (d : Definition) → fits d ≡ true → IsAccepted d.code × IsAccepted d.message
found-IsAccepted d h = (
  word d.code (ground (arith, h)) (ground (arith, h)),
  word d.message (ground (arith, h)) (ground (arith, h)),
)

-- A row of the registry for a status whose code and message are those of a body.
abbrev pub IsRowOf : ℕ → Text → Definition → Type 0
IsRowOf status body d =
    ((i : ℕ) × (get_elem? registry i ≡ some d))
    × (d.status ≡ status)
    × (parse_api_error body ≡ some (record { code = d.code; message = d.message }))

-- What is reported for a row.
abbrev pub RowError : Option Text → ℕ → Definition → NormalizedError → Type 0
RowError header now d e =
    (e.kind ≡ http)
    × (e.code ≡ d.code)
    × (e.status ≡ some d.status)
    × (e.message ≡ d.message)
    × (e.retryable ≡ d.retryable)
    × (e.retry_at ≡ (if d.retry_after then parse_retry_after header now else none))

-- The report of a response: that of its row, exactly if there is one.
pub data Reported (status : ℕ) (body : Text) (header : Option Text) (now : ℕ) (e : NormalizedError)
    : Type 0 where
  unreadable :
      ((d : Definition) → ¬ IsRowOf status body d)
      → e.kind ≡ invalid_response
      → e.code ≡ codes "invalid_server_response"
      → e.status ≡ some status
      → e.message ≡ codes "The server returned an invalid error response."
      → e.retryable ≡ false
      → e.retry_at ≡ none
      → Reported status body header now e
  registered :
      (d : Definition)
      → IsRowOf status body d
      → RowError header now d e
      → Reported status body header now e

row-found :
    (status : ℕ) (body : Text) (b : ErrorBody) (d : Definition)
    → parse_api_error body ≡ some b
    → IsRowOf status body d
    → (find_definition status b.code registry ≡ some d) × (b.message ≡ d.message)
row-found status body b d h ((i, here), status_eq, body_eq) =
    let (_, found) = All-get IsFound registry i registry-IsFound here in
    let same : b ≡ record { code = d.code; message = d.message } =
      some-injective _ _ (sym h ∙ body_eq) in
    let code : b.code ≡ d.code = ap (λ (x : ErrorBody). x.code) same in
    (
      ap₂ (λ s c. find_definition s c registry) (sym status_eq) code ∙ found,
      ap (λ (x : ErrorBody). x.message) same,
    )

unreadable-Reported :
    (status : ℕ) (body : Text) (header : Option Text) (now : ℕ)
    → ((d : Definition) → ¬ IsRowOf status body d)
    → Reported status body header now (invalid_server_error status)
unreadable-Reported status body header now none_fits =
    unreadable none_fits refl refl refl refl refl refl

matched_error-Reported :
    (status : ℕ) (body : Text) (header : Option Text) (now : ℕ) (b : ErrorBody)
    (o : Option Definition)
    → parse_api_error body ≡ some b
    → find_definition status b.code registry ≡ o
    → Reported status body header now (matched_error status header now b.message o)
matched_error-Reported status body header now b none h k =
    unreadable-Reported status body header now (λ d r.
      (let (found, _) = row-found status body b d h r in
        let both : none ≡ some d = sym k ∙ found in cc))
matched_error-Reported status body header now b (some d) h k =
    elim (Bool-cases (text_eq b.message d.message)) [
      | inl e ↦
          let r = find_definition-IsRow status b.code registry d k in
          let body_eq : b ≡ record { code = d.code; message = d.message } =
            ap₂ (λ c m. record { code = c; message = m }) (sym r.code_eq)
              (eq_of_text_eq b.message d.message e) in
          rw e (
            registered d ((r.index, r.here), r.status_eq, h ∙ ap some body_eq)
              (refl, refl, ap some (sym r.status_eq), refl, refl, refl))
      | inr e ↦ rw e (
          unreadable-Reported status body header now (λ c r.
            (let (found, message) = row-found status body b c h r in
              let same : d ≡ c = some-injective _ _ (sym k ∙ found) in
              let equal : b.message ≡ d.message =
                message ∙ ap (λ (x : Definition). x.message) (sym same) in
              let yes_eq : text_eq b.message d.message ≡ true =
                ap (text_eq b.message) (sym equal) ∙ text_eq_self b.message in
              cc)))
    ]

structured_error-Reported :
    (status : ℕ) (body : Text) (header : Option Text) (now : ℕ) (o : Option ErrorBody)
    → parse_api_error body ≡ o
    → Reported status body header now (structured_error status header now o)
structured_error-Reported status body header now none h =
    unreadable-Reported status body header now (λ d r. (let both = sym h ∙ r.2 in cc))
structured_error-Reported status body header now (some b) h =
    matched_error-Reported status body header now b (find_definition status b.code registry) h refl

-- Every error response, whatever its status, body and header are, is reported as follows. If a row of the registry
-- has its status, and its code and message are exactly those of the body, the report has the status, the code, the
-- message and the retryability of the row, and the time to retry at of the header exactly if the row allows one. If
-- there is no such row, it is reported as an invalid server response with its status, which may not be retried.
pub parse_error_response-Reported :
    (status : ℕ) (body : Text) (header : Option Text) (now : ℕ)
    → Reported status body header now (parse_error_response status body header now)
unfolding parse_error_response
parse_error_response-Reported status body header now =
    structured_error-Reported status body header now (parse_api_error body) refl

-- Each row of the registry, printed as JSON and sent with its status, is reported with its code, status, message
-- and retryability, and with the time to retry at of the header exactly if the row allows one.
pub parse_error_response-print :
    (i : ℕ) (d : Definition) (header : Option Text) (now : ℕ)
    → get_elem? registry i ≡ some d
    → parse_error_response d.status
        (print (record { code = d.code; message = d.message }))
        header
        now
      ≡ record {
        kind = http;
        code = d.code;
        status = some d.status;
        message = d.message;
        retryable = d.retryable;
        retry_at = if d.retry_after then parse_retry_after header now else none;
      }
unfolding parse_error_response
parse_error_response-print i d header now h =
    let (f, found) = All-get IsFound registry i registry-IsFound h in
    let (code, message) = found-IsAccepted d f in
    ap (structured_error d.status header now)
      (parse_api_error-print (record { code = d.code; message = d.message }) code message)
    ∙ ap (matched_error d.status header now d.message) found
    ∙ ap (λ b. if b then defined_error d.status header now d else invalid_server_error d.status)
        (text_eq_self d.message)
