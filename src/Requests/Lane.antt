-- ===== src/Requests/Lane.antt =====
-- frontend/state.js, `createRequestLane`, `ownsRequest` and `transitionRequest`: one request at a
-- time, known by its owner and by the signature of the input that it was started with.
-- The report is any type; times that the code refuses are `unusable`.
pub mod Invariant
pub mod Ownership
use revealnetworktrouble.Prelude.{
  [], ℕ, ◌-◌, Bool, true, false, not, ◌&&◌, ◌||◌, Option, none, some, map, String, leb, ◌==◌,
  if◌then◌else◌, or_else, is_nil, Text, codes, text_eq, trim,
}
use revealnetworktrouble.Requests.Errors.{
  ErrorInput, NormalizedError, is_text, normalize_request_error,
}

pub data Purpose : Type 0 where
  diagnostics topology : Purpose

pub data Phase : Type 0 where
  idle loading ready error cancelled : Phase

pub data Reason : Type 0 where
  user navigation input_change : Reason

pub data Stamp : Type 0 where
  at : ℕ → Stamp
  unusable : Stamp

pub record Active : Type 0 where
  pub owner_id : Text
  pub signature : Text
  pub started_at : ℕ

pub record Answer (R : Type 0) : Type 0 where
  pub owner_id : Text
  pub signature : Text
  pub report : R
  pub completed_at : ℕ

pub record Lane (R : Type 0) : Type 0 where
  pub purpose : Purpose
  pub phase : Phase
  pub input_signature : Text
  pub active : Option Active
  pub result : Option (Answer R)
  pub failure : Option NormalizedError
  pub cancellation : Option Reason

-- The fields that the code reads; an absent one is `none`. `report` is what a success brings.
pub record Event (R : Type 0) : Type 0 where
  pub type : Text
  pub owner_id : Option Text
  pub input_signature : Option Text
  pub signature : Option Text
  pub started_at : Option Stamp
  pub completed_at : Option Stamp
  pub report : R
  pub error : ErrorInput
  pub reason : Option Text

pub data Failure : Type 0 where
  start_requires_owner bad_stamp unsupported_reason unsupported_event : Failure

pub data Outcome (R : Type 0) : Type 0 where
  moved : Lane R → Outcome R
  threw : Failure → Outcome R

pub data Kind : Type 0 where
  changed started finalized succeeded failed cancels other : Kind

abbrev upper : ℕ → ℕ
upper c = if leb 97 c && leb c 122 then c - 32 else if c == b'-' then b'_' else c

-- `String(value).trim().toUpperCase().replaceAll('-', '_')`, for the letters a to z.
unfoldable pub event_type : Text → Text
unfolding trim
event_type t = map upper (trim t)

abbrev either_text : Text → String → String → Bool
either_text t a b = text_eq t (codes a) || text_eq t (codes b)

unfoldable pub kind_of : Text → Kind
kind_of t =
    if either_text t "INPUT_CHANGED" "INPUT_INVALIDATED"
    then changed
    else if either_text t "REQUEST_STARTED" "START"
    then started
    else if either_text t "REQUEST_FINALIZED" "FINALIZE"
    then finalized
    else if either_text t "REQUEST_SUCCEEDED" "SUCCESS"
    then succeeded
    else if either_text t "REQUEST_FAILED" "FAILURE" || text_eq t (codes "ERROR")
    then failed
    else if either_text t "REQUEST_CANCELLED" "CANCEL"
    then cancels
    else other

unfoldable pub reason_of : Option Text → Option Reason
reason_of none = some user
reason_of (some t) =
    if text_eq t (codes "user")
    then some user
    else if text_eq t (codes "navigation")
    then some navigation
    else if text_eq t (codes "input-change")
    then some input_change
    else none

-- `value ?? ''`
abbrev pub or_empty : Option Text → Text
or_empty none = []
or_empty (some t) = t

abbrev pub stamp_or : ℕ → Option Stamp → Option ℕ
stamp_or now none = some now
stamp_or now (some (at t)) = some t
stamp_or now (some unusable) = none

abbrev pub is_loading : Phase → Bool
is_loading loading = true
is_loading _ = false

unfoldable pub owns_active : Option Active → Option Text → Text → Bool
owns_active none owner signature = false
owns_active (some a) owner signature = is_text owner a.owner_id && text_eq a.signature signature

abbrev active_record : Text → Text → ℕ → Active
active_record owner signature t = record { owner_id = owner; signature = signature; started_at = t }

abbrev wrong_signature : Option Text → Text → Bool
wrong_signature none active_signature = false
wrong_signature (some t) active_signature = not (text_eq active_signature t)

module _ {R : Type 0} where
  abbrev pub create_request_lane : Purpose → Lane R
  create_request_lane p = record {
    purpose = p;
    phase = idle;
    input_signature = [];
    active = none;
    result = none;
    failure = none;
    cancellation = none;
  }

  abbrev pub signature_of : Event R → Text
  signature_of e = or_empty (or_else e.input_signature e.signature)

  unfoldable pub owns_request : Lane R → Option Text → Text → Bool
  unfolding owns_active
  owns_request s owner signature =
      is_loading s.phase
      && owns_active s.active owner signature
      && text_eq s.input_signature signature

  abbrev reset : Lane R → Phase → Text → Option Active → Lane R
  reset s phase signature active = record s {
    phase = phase;
    input_signature = signature;
    active = active;
    result = none;
    failure = none;
    cancellation = none;
  }

  unfoldable pub start_with : Text → Text → Option ℕ → Lane R → Outcome R
  start_with owner signature started_at s =
      if is_nil owner || is_nil signature then threw start_requires_owner else elim started_at [
        | none ↦ threw bad_stamp
        | some t ↦ moved (reset s loading signature (some (active_record owner signature t)))
      ]

  unfoldable pub start_request : Lane R → Event R → ℕ → Outcome R
  unfolding start_with
  start_request s e now =
      start_with (or_empty e.owner_id) (signature_of e) (stamp_or now e.started_at) s

  unfoldable pub finalize_request : Lane R → Event R → Lane R
  finalize_request s e = elim s.active [
    | none ↦ s
    | some a ↦
        if not (is_text e.owner_id a.owner_id) || wrong_signature e.input_signature a.signature
        then s
        else record s { active = none }
  ]

  abbrev answer : Event R → Text → ℕ → Answer R
  answer e signature t = record {
    owner_id = or_empty e.owner_id;
    signature = signature;
    report = e.report;
    completed_at = t;
  }

  -- The events that only the owner of the running request may cause.
  unfoldable pub settle_request : Kind → Lane R → Event R → ℕ → Outcome R
  unfolding reason_of
  settle_request succeeded s e now = elim (stamp_or now e.completed_at) [
    | none ↦ threw bad_stamp
    | some t ↦ moved (record s {
      phase = ready;
      result = some (answer e (signature_of e) t);
      failure = none;
      cancellation = none;
    })
  ]
  settle_request failed s e now = moved (record s {
    phase = error;
    result = none;
    failure = some (normalize_request_error e.error);
    cancellation = none;
  })
  settle_request cancels s e now = elim (reason_of e.reason) [
    | none ↦ threw unsupported_reason
    | some r ↦
        moved (record s { phase = cancelled; result = none; failure = none; cancellation = some r })
  ]
  settle_request _ s e now = threw unsupported_event

  abbrev settle_if_owner : Kind → Lane R → Event R → ℕ → Outcome R
  settle_if_owner k s e now =
      if owns_request s e.owner_id (signature_of e) then settle_request k s e now else moved s

  unfoldable pub transition_kind : Kind → Lane R → Event R → ℕ → Outcome R
  unfolding start_request finalize_request settle_request owns_request
  transition_kind changed s e now = moved (reset s idle (signature_of e) none)
  transition_kind started s e now = start_request s e now
  transition_kind finalized s e now = moved (finalize_request s e)
  transition_kind k s e now = settle_if_owner k s e now

  -- `now` is what `Date.now()` reads.
  unfoldable pub transition_request : Lane R → Event R → ℕ → Outcome R
  unfolding transition_kind event_type kind_of
  transition_request s e now = transition_kind (kind_of (event_type e.type)) s e now
