-- ===== src/Requests/Lane/Invariant.antt =====
-- What holds of a request lane after any events.
use revealnetworktrouble.Prelude.{
  eq_of_text_eq, ℕ, ◌≡◌, Option, none, some, List, [], ◌∷◌, arith, Text,
}
use revealnetworktrouble.Requests.Lane.{
  Purpose, Phase, idle, loading, ready, error, cancelled, Active, Answer, Lane, Event, Outcome,
  moved, threw, Kind, changed, started, finalized, succeeded, failed, cancels, other, kind_of,
  event_type, create_request_lane, signature_of, finalize_request, transition_kind,
  transition_request,
}

abbrev pub Absent : {A : Type 0} → Option A → Type 0
Absent none = Unit
Absent (some a) = ⊥

abbrev pub Present : {A : Type 0} → Option A → Type 0
Present none = ⊥
Present (some a) = Unit

abbrev ActiveFor : Text → Option Active → Type 0
ActiveFor t none = Unit
ActiveFor t (some a) = a.signature ≡ t

module _ {R : Type 0} where
  abbrev AnswerFor : Text → Option (Answer R) → Type 0
  AnswerFor t none = ⊥
  AnswerFor t (some a) = a.signature ≡ t

  -- What the phase says of the three outcomes.
  abbrev pub Outcomes : Phase → Lane R → Type 0
  Outcomes idle s = Absent s.result × Absent s.failure × Absent s.cancellation × Absent s.active
  Outcomes loading s = Absent s.result × Absent s.failure × Absent s.cancellation × Unit {0}
  Outcomes ready s =
      AnswerFor s.input_signature s.result × Absent s.failure × Absent s.cancellation × Unit {0}
  Outcomes error s = Absent s.result × Present s.failure × Absent s.cancellation × Unit {0}
  Outcomes cancelled s = Absent s.result × Absent s.failure × Present s.cancellation × Unit {0}

  pub record IsValid (s : Lane R) : Type 0 where
    pub outcomes : Outcomes s.phase s
    pub active : ActiveFor s.input_signature s.active

  -- A throw leaves the lane as it was.
  abbrev pub after : Lane R → Outcome R → Lane R
  after s (moved t) = t
  after s (threw f) = s

  pub create-IsValid : (p : Purpose) → IsValid (create_request_lane p)
  create-IsValid p = record { outcomes = (tt, tt, tt, tt); active = tt }

  finalize-IsValid : (s : Lane R) (e : Event R) → IsValid s → IsValid (finalize_request s e)
  unfolding finalize_request
  finalize-IsValid s e v = ground arith

  transition_kind-IsValid :
      (k : Kind) (s : Lane R) (e : Event R) (now : ℕ)
      → IsValid s
      → IsValid (after s (transition_kind k s e now))
  unfolding transition_kind
  transition_kind-IsValid changed s e now v = record { outcomes = (tt, tt, tt, tt); active = tt }
  transition_kind-IsValid started s e now v = ground arith
  transition_kind-IsValid finalized s e now v = finalize-IsValid s e v
  transition_kind-IsValid succeeded s e now v =
      ground (arith, eq_of_text_eq s.input_signature (signature_of e))
  transition_kind-IsValid failed s e now v = ground arith
  transition_kind-IsValid cancels s e now v = ground arith
  transition_kind-IsValid other s e now v = ground arith

  -- Every event leaves a valid lane valid: each phase has its own outcome and no other, an answer is
  -- for the current input, and so is the running request.
  pub transition_request-IsValid :
      (s : Lane R) (e : Event R) (now : ℕ)
      → IsValid s
      → IsValid (after s (transition_request s e now))
  unfolding transition_request
  transition_request-IsValid s e now v =
      transition_kind-IsValid (kind_of (event_type e.type)) s e now v

  -- A session: each event comes with the time at which it is handled.
  unfoldable pub run : Lane R → List (Event R × ℕ) → Lane R
  run s [] = s
  run s ((e, now) ∷ es) = run (after s (transition_request s e now)) es

  run-IsValid : (s : Lane R) (es : List (Event R × ℕ)) → IsValid s → IsValid (run s es)
  unfolding run
  run-IsValid s [] v = v
  run-IsValid s ((e, now) ∷ es) v =
      run-IsValid (after s (transition_request s e now)) es (transition_request-IsValid s e now v)

  -- After any events from a fresh lane, a report, an error and a cancellation are there exactly in the
  -- phases ready, error and cancelled; a report and an active request have the signature of the input;
  -- and an idle lane has no active request.
  pub run-create-IsValid :
      (p : Purpose) (es : List (Event R × ℕ)) → IsValid (run (create_request_lane p) es)
  run-create-IsValid p es = run-IsValid (create_request_lane p) es (create-IsValid p)
