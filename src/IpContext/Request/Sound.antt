-- ===== src/IpContext/Request/Sound.antt =====
-- frontend/state.js, `createIPContextController`: what holds of a controller between two events, and the steps
-- of a request.
use revealnetworktrouble.Prelude.{
  if_holds, ℕ, ◌+◌, ◌≤◌, ◌≡◌, inl, inr, Bool, true, false, not, ◌&&◌, ◌||◌, Option, none, some, [],
  ◌++◌, arith, leb, ◌==◌, Bool-cases, Option-cases, length, All, Text,
}
use mathlib.Core.Path.{subst}
use revealnetworktrouble.IpContext.Controller.{
  Owner, Phase, invalid_response, ready, reading, Flight, Controller, Env, publish, stop_body, owns,
  live,
}
use revealnetworktrouble.IpContext.Controller.Cache.{IsKeyed}
use revealnetworktrouble.IpContext.Request.{
  Response, finish, fail_with, time_out, wind_up, wind_up_flight, answered, read_bytes, read_chunk,
  bad_length, byte_limit, phase_of_error, phase_of_status,
}

-- What is shown is about the address of the owner.
abbrev pub IsAbout : Phase → Option Owner → Type 0
IsAbout (ready v b) none = ⊥
IsAbout (ready v b) (some o) = v.address ≡ o.address
IsAbout _ o = Unit {0}

-- A request is of a generation that has been, and of the present one only if its owner is the present one.
abbrev pub IsOf : Controller → Flight → Type 0
IsOf c f = (f.generation ≤ c.generation) × (f.generation ≡ c.generation → c.owner ≡ some f.owner)

abbrev pub IsFlown : Controller → Option Flight → Type 0
IsFlown c none = Unit {0}
IsFlown c (some f) = IsOf c f

pub record IsSound (c : Controller) : Type 0 where
  pub small : length c.cache ≤ 64
  pub keyed : All IsKeyed c.cache
  pub about : IsAbout c.state c.owner
  pub flown : IsFlown c c.flight

pub time_out-IsSound :
    (e : Env) (f : Flight) (c : Controller) → IsOf c f → IsSound c → IsSound (time_out e f c)
time_out-IsSound e f c o h = elim (Option-cases f.settled) [
  | inl open_yet ↦ elim (Bool-cases (owns e c f && not f.aborted)) [
    | inl own ↦
        rw (open_yet, own) (record { small = h.small; keyed = h.keyed; about = tt; flown = o })
    | inr other ↦
        rw (open_yet, other)
          (record { small = h.small; keyed = h.keyed; about = h.about; flown = o })
  ]
  | inr (b, done) ↦ rw done h
]

pub wind_up-IsSound : (f : Flight) (c : Controller) → IsOf c f → IsSound c → IsSound (wind_up f c)
wind_up-IsSound f c o h = elim (Bool-cases f.body_cancelled) [
  | inl b ↦ rw b (record { small = h.small; keyed = h.keyed; about = h.about; flown = o })
  | inr b ↦ rw b (record { small = h.small; keyed = h.keyed; about = h.about; flown = tt })
]

pub flown_at : (c : Controller) (f : Flight) → c.flight ≡ some f → IsSound c → IsOf c f
flown_at c f e h = subst (IsFlown c) e h.flown

pub wind_up_flight-IsSound : (c : Controller) → IsSound c → IsSound (wind_up_flight c)
wind_up_flight-IsSound c h = elim (Option-cases c.flight) [
  | inl nothing ↦ rw (nothing, wind_up_flight) h
  | inr (f, flying) ↦ rw (flying, wind_up_flight) (wind_up-IsSound f c (flown_at c f flying h) h)
]

pub in_air-IsSound :
    (f : Flight) (c : Controller) → IsOf c f → IsSound c → IsSound (record c { flight = some f })
in_air-IsSound f c o h = record { small = h.small; keyed = h.keyed; about = h.about; flown = o }

pub finish-IsSound :
    (e : Env) (f : Flight) (c : Controller) → IsOf c f → IsSound c → IsSound (finish e f c)
finish-IsSound e f c o h =
    let stopped = time_out-IsSound e f (record c { flight = some f }) o (in_air-IsSound f c o h) in
    if_holds IsSound (owns e c f && not f.aborted && leb f.deadline e.monotonic) _ _
      (λ _. wind_up_flight-IsSound (time_out e f (record c { flight = some f })) stopped)
      (λ _. wind_up-IsSound f c o h)

-- A phase that shows no answer.
abbrev pub IsQuiet : Phase → Type 0
IsQuiet p = (o : Option Owner) → IsAbout p o

pub publish-IsSound : (p : Phase) (c : Controller) → IsQuiet p → IsSound c → IsSound (publish p c)
publish-IsSound p c q h = record {
  small = h.small;
  keyed = h.keyed;
  about = q c.owner;
  flown = h.flown;
}

pub fail_with-IsSound :
    (e : Env) (p : Phase) (f : Flight) (c : Controller)
    → IsQuiet p
    → IsOf c f
    → IsSound c
    → IsSound (fail_with e p f c)
fail_with-IsSound e p f c q o h = elim (Bool-cases (live e c f)) [
  | inl l ↦ rw l (finish-IsSound e (stop_body f) (publish p c) o (publish-IsSound p c q h))
  | inr l ↦ rw l (finish-IsSound e (stop_body f) c o h)
]

pub status-IsQuiet : (n : ℕ) → IsQuiet (phase_of_status n)
status-IsQuiet n o = ground arith

pub error-IsQuiet : (b : Bool) → IsQuiet (phase_of_error b)
error-IsQuiet true o = tt
error-IsQuiet false o = tt

pub invalid-IsQuiet : IsQuiet invalid_response
invalid-IsQuiet o = tt

pub answered-IsSound :
    (e : Env) (r : Response) (f : Flight) (c : Controller)
    → IsOf c f
    → IsSound c
    → IsSound (answered e r f c)
unfolding answered
answered-IsSound e r f c o h =
    let g = record f { has_body = r.has_body } in
    let told = publish-IsSound (phase_of_status r.status) c (status-IsQuiet r.status) h in
    if_holds IsSound (not (live e c g)) _ _ (λ _. finish-IsSound e (stop_body g) c o h)
      (λ _.
        if_holds IsSound (r.redirected || not (r.status == 200)) _ _
          (λ _. finish-IsSound e (stop_body g) (publish (phase_of_status r.status) c) o told)
          (λ _.
            if_holds IsSound (bad_length r.declared || not r.has_body) _ _
              (λ _. fail_with-IsSound e invalid_response g c invalid-IsQuiet o h)
              (λ _. in_air-IsSound (record g { stage = reading [] }) c o h)))

pub read_bytes-IsSound :
    (e : Env) (chunk : Option Text) (got : Text) (f : Flight) (c : Controller)
    → IsOf c f
    → IsSound c
    → IsSound (read_bytes e chunk got f c)
read_bytes-IsSound e none got f c o h = fail_with-IsSound e invalid_response f c invalid-IsQuiet o h
read_bytes-IsSound e (some bytes) got f c o h =
    if_holds IsSound (leb (length got + length bytes) byte_limit) _ _
      (λ _. in_air-IsSound (record f { stage = reading (got ++ bytes) }) c o h)
      (λ _. fail_with-IsSound e invalid_response f c invalid-IsQuiet o h)

pub read_chunk-IsSound :
    (e : Env) (chunk : Option Text) (got : Text) (f : Flight) (c : Controller)
    → IsOf c f
    → IsSound c
    → IsSound (read_chunk e chunk got f c)
unfolding read_chunk
read_chunk-IsSound e chunk got f c o h =
    if_holds IsSound (not (live e c f)) _ _ (λ _. finish-IsSound e (stop_body f) c o h)
      (λ _. read_bytes-IsSound e chunk got f c o h)
