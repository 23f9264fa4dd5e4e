-- ===== src/Requests/Tests.antt =====
-- Runs of the request lane of frontend/state.js, and its theorems at concrete inputs. Reports are
-- numbers here.
use revealnetworktrouble.Prelude.{ℕ, ◌≡◌, refl, none, some, List, [], ◌∷◌, map, String, codes}
use revealnetworktrouble.Requests.Errors.{nothing, parse_retry_after}
use revealnetworktrouble.Requests.Lane.{
  diagnostics, loading, Answer, Lane, Event, moved, create_request_lane, transition_request,
}
use revealnetworktrouble.Requests.Lane.Invariant.{IsValid, run, run-create-IsValid}
use revealnetworktrouble.Requests.Lane.Ownership.{current, transition_request_stale, answer-run}

abbrev event : String → String → ℕ → Event ℕ
event type owner report = record {
  type = codes type;
  owner_id = some (codes owner);
  input_signature = some (codes "sig");
  signature = none;
  started_at = none;
  completed_at = none;
  report = report;
  error = nothing;
  reason = none;
}

-- The second request replaces the first, whose answer comes late.
abbrev session : List (Event ℕ × ℕ)
session =
    (event "start" "d:1" 0, 10)
    ∷ (event "request-started" "d:2" 0, 20)
    ∷ (event "SUCCESS" "d:1" 1, 30)
    ∷ (event " success " "d:2" 2, 40)
    ∷ (event "FINALIZE" "d:2" 0, 41)
    ∷ []

abbrev final_answer : Answer ℕ
final_answer = record {
  owner_id = codes "d:2";
  signature = codes "sig";
  report = 2;
  completed_at = 40;
}

session_result : (run (create_request_lane diagnostics) session).result ≡ some final_answer
unfolding run transition_request
session_result = refl

run-create-IsValid_example : IsValid (run (create_request_lane diagnostics) session)
run-create-IsValid_example = run-create-IsValid diagnostics session

answer-run_example : current none session ≡ some (codes "d:2", codes "sig")
answer-run_example = answer-run diagnostics session final_answer session_result

abbrev running : Lane ℕ
running = record (create_request_lane diagnostics) {
  phase = loading;
  input_signature = codes "sig";
  active = some (record { owner_id = codes "d:2"; signature = codes "sig"; started_at = 20 });
}

transition_request_stale_example :
    transition_request running (event "SUCCESS" "d:1" 1) 30 ≡ moved running
unfolding transition_request
transition_request_stale_example =
    transition_request_stale running (event "SUCCESS" "d:1" 1) 30 (λ e. cc) (λ e. cc) refl

retry_after :
    map
      (λ (t : String). parse_retry_after (some (codes t)) 7)
      ("1" ∷ "3600" ∷ "3601" ∷ "0" ∷ "01" ∷ "1, 2" ∷ [])
    ≡ some 1007 ∷ some 3600007 ∷ none ∷ none ∷ none ∷ none ∷ []
unfolding parse_retry_after
retry_after = refl
