-- ===== src/Requests/Lane/Ownership.antt =====
-- Who may change a request lane: late events of earlier requests do nothing, and an answer is always
-- that of the request that was started last.
use revealnetworktrouble.Prelude.{
  eq_of_text_eq, ℕ, ◌≡◌, ◌≢◌, refl, inl, inr, true, false, Option, none, some, List, [], ◌∷◌, arith,
  Bool-cases, Option-cases, or_else, Text,
}
use revealnetworktrouble.Requests.Errors.{is_text}
use revealnetworktrouble.Requests.Lane.{
  Purpose, Active, Answer, Lane, Event, moved, Kind, changed, started, finalized, succeeded, failed,
  cancels, other, kind_of, event_type, or_empty, stamp_or, create_request_lane, signature_of,
  owns_active, owns_request, start_with, settle_request, transition_kind, transition_request,
}
use mathlib.Core.Path.{subst}
use revealnetworktrouble.Requests.Lane.Invariant.{after, run}

-- The text is not the owner of the running request.
abbrev pub IsForeign : Option Text → Option Active → Type 0
IsForeign owner none = Unit
IsForeign owner (some a) = is_text owner a.owner_id ≡ false

-- The request that an event starts: a start needs an owner, a signature and a usable time.
abbrev started_by : Text → Text → Option ℕ → Option (Text × Text)
started_by [] signature t = none
started_by (c ∷ owner) [] t = none
started_by (c ∷ owner) (d ∷ signature) none = none
started_by (c ∷ owner) (d ∷ signature) (some t) = some (c ∷ owner, d ∷ signature)

abbrev ActiveIs : Option (Text × Text) → Option Active → Type 0
ActiveIs c none = Unit
ActiveIs c (some a) = c ≡ some (a.owner_id, a.signature)

owner_is_current :
    (c : Option (Text × Text)) (active : Option Active) (owner : Option Text) (signature : Text)
    → ActiveIs c active
    → owns_active active owner signature ≡ true
    → c ≡ some (or_empty owner, signature)
unfolding owns_active
owner_is_current c none owner signature t h = cc
owner_is_current c (some a) none signature t h = cc
owner_is_current c (some a) (some o) signature t h =
    ground (arith, eq_of_text_eq o a.owner_id, eq_of_text_eq a.signature signature)

module _ {R : Type 0} where
  abbrev pub kind : Event R → Kind
  kind e = kind_of (event_type e.type)

  stale_kind :
      (k : Kind) (s : Lane R) (e : Event R) (now : ℕ)
      → k ≢ changed
      → k ≢ started
      → IsForeign e.owner_id s.active
      → transition_kind k s e now ≡ moved s
  unfolding transition_kind
  stale_kind changed s e now p q h = absurd (p refl)
  stale_kind started s e now p q h = absurd (q refl)
  stale_kind finalized s e now p q h = ground arith
  stale_kind succeeded s e now p q h = ground arith
  stale_kind failed s e now p q h = ground arith
  stale_kind cancels s e now p q h = ground arith
  stale_kind other s e now p q h = ground arith

  -- An event that is neither a new input nor a start, and that does not name the owner of the
  -- running request, changes nothing, whatever its type.
  pub transition_request_stale :
      (s : Lane R) (e : Event R) (now : ℕ)
      → kind e ≢ changed
      → kind e ≢ started
      → IsForeign e.owner_id s.active
      → transition_request s e now ≡ moved s
  unfolding transition_request
  transition_request_stale s e now = stale_kind (kind e) s e now

  -- The request that is current after an event, by its owner and signature.
  abbrev pub current_step : Kind → Option (Text × Text) → Event R → ℕ → Option (Text × Text)
  current_step changed c e now = none
  current_step started c e now =
      or_else (started_by (or_empty e.owner_id) (signature_of e) (stamp_or now e.started_at)) c
  current_step _ c e now = c

  abbrev pub current : Option (Text × Text) → List (Event R × ℕ) → Option (Text × Text)
  current c [] = c
  current c ((e, now) ∷ es) = current (current_step (kind e) c e now) es

  abbrev AnswerIs : Option (Text × Text) → Option (Answer R) → Type 0
  AnswerIs c none = Unit
  AnswerIs c (some a) = c ≡ some (a.owner_id, a.signature)

  record Tracks (c : Option (Text × Text)) (s : Lane R) : Type 0 where
    active : ActiveIs c s.active
    answer : AnswerIs c s.result

  start_with-Tracks :
      (o g : Text) (t : Option ℕ) (c : Option (Text × Text)) (s : Lane R)
      → Tracks c s
      → Tracks (or_else (started_by o g t) c) (after s (start_with o g t s))
  unfolding start_with
  start_with-Tracks [] g t c s h = h
  start_with-Tracks (x ∷ o) [] t c s h = h
  start_with-Tracks (x ∷ o) (y ∷ g) none c s h = h
  start_with-Tracks (x ∷ o) (y ∷ g) (some t) c s h = record { active = refl; answer = tt }

  answer-Tracks :
      (c : Option (Text × Text)) (s : Lane R) (e : Event R) (now : ℕ)
      → Tracks c s
      → owns_active s.active e.owner_id (signature_of e) ≡ true
      → Tracks c (after s (settle_request succeeded s e now))
  unfolding settle_request
  answer-Tracks c s e now t own = elim (Option-cases (stamp_or now e.completed_at)) [
    | inl bad ↦ rw (bad, settle_request) t
    | inr (at, ok) ↦
        rw (ok, settle_request)
          (record {
            active = t.active;
            answer = owner_is_current c s.active e.owner_id (signature_of e) t.active own;
          })
  ]

  transition_kind-Tracks :
      (k : Kind) (c : Option (Text × Text)) (s : Lane R) (e : Event R) (now : ℕ)
      → Tracks c s
      → Tracks (current_step k c e now) (after s (transition_kind k s e now))
  unfolding transition_kind
  transition_kind-Tracks changed c s e now t = record { active = tt; answer = tt }
  transition_kind-Tracks started c s e now t =
      start_with-Tracks (or_empty e.owner_id) (signature_of e) (stamp_or now e.started_at) c s t
  transition_kind-Tracks finalized c s e now t = ground arith
  transition_kind-Tracks succeeded c s e now t =
      elim (Bool-cases (owns_request s e.owner_id (signature_of e))) [
        | inl own ↦ rw own (answer-Tracks c s e now t (ground arith))
        | inr stale ↦ rw stale t
      ]
  transition_kind-Tracks failed c s e now t = ground arith
  transition_kind-Tracks cancels c s e now t = ground arith
  transition_kind-Tracks other c s e now t = ground arith

  run-Tracks :
      (c : Option (Text × Text)) (s : Lane R) (es : List (Event R × ℕ))
      → Tracks c s
      → Tracks (current c es) (run s es)
  unfolding run transition_request
  run-Tracks c s [] t = t
  run-Tracks c s ((e, now) ∷ es) t =
      run-Tracks (current_step (kind e) c e now) (after s (transition_request s e now)) es
        (transition_kind-Tracks (kind e) c s e now t)

  -- After any events from a fresh lane, an answer that is held was given to the request that was
  -- started last, with no new input since: it has that owner and that signature.
  pub answer-run :
      (p : Purpose) (es : List (Event R × ℕ)) (a : Answer R)
      → (run (create_request_lane p) es).result ≡ some a
      → current none es ≡ some (a.owner_id, a.signature)
  answer-run p es a h =
      subst (AnswerIs (current none es)) h
        (run-Tracks none (create_request_lane p) es (record { active = tt; answer = tt })).answer
