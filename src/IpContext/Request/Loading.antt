-- ===== src/IpContext/Request/Loading.antt =====
-- frontend/state.js, `createIPContextController`: a request that is waited for, and how its wait ends.
use revealnetworktrouble.Prelude.{
  if_holds, ℕ, ◌+◌, ◌≡◌, refl, ◌∙◌, ap, inl, inr, Bool, true, false, not, ◌&&◌, ◌||◌, Option, none,
  some, [], ◌++◌, arith, ltb, leb, ◌==◌, if◌then◌else◌, Bool-cases, Option-cases, length, Text,
}
use revealnetworktrouble.IpContext.Controller.{
  Snapshot, Owner, Phase, loading, timeout, invalid_response, ready, Stage, fetching, reading,
  cleaning, Flight, Controller, Env, publish, settle, stop_body, remember, owns, live,
}
use revealnetworktrouble.IpContext.Request.{
  false, true, Option, Bool, Services, Response, finish, fail_with, time_out, wind_up_flight,
  answered, read_bytes, read_chunk, bad_length, byte_limit, read_end, accept, conclude,
  phase_of_error, phase_of_status,
}

abbrev pub is_loading : Phase → Bool
is_loading loading = true
is_loading _ = false

abbrev pub IsOut : Stage → Type 0
IsOut fetching = Unit {0}
IsOut (reading t) = Unit {0}
IsOut cleaning = ⊥

-- A request that can still be answered, or timed out.
pub record IsAwaited (c : Controller) (f : Flight) : Type 0 where
  pub alive : c.alive ≡ true
  pub kept : f.aborted ≡ false
  pub unsettled : f.settled ≡ none
  pub timed : f.timer ≡ true
  pub present : c.generation ≡ f.generation
  pub out : IsOut f.stage

abbrev pub HasAwaited : Controller → Option Flight → Type 0
HasAwaited c none = ⊥
HasAwaited c (some f) = IsAwaited c f

-- A controller that says that it loads waits for a request.
abbrev pub IsServed : Controller → Type 0
IsServed c = is_loading c.state ≡ true → HasAwaited c c.flight

pub ended-IsServed : (c : Controller) → is_loading c.state ≡ false → IsServed c
ended-IsServed c h l = cc

pub clash : {b : Bool} → b ≡ true → b ≡ false → ⊥
clash {b} t f = cc

pub wind_up_flight-state : (c : Controller) → (wind_up_flight c).state ≡ c.state
wind_up_flight-state c = elim (Option-cases c.flight) [
  | inl none_here ↦ rw (none_here, wind_up_flight) refl
  | inr (f, flying) ↦ rw (flying, wind_up_flight) refl
]

-- Every owner is current at the time of an event.
abbrev pub IsAttended : Env → Type 0
IsAttended e = (o : Owner) → e.is_current o ≡ true

pub owned :
    (e : Env) (c : Controller) (f : Flight)
    → IsAttended e
    → IsAwaited c f
    → owns e c f && not f.aborted ≡ true
owned e c f att w = ground (arith, att f.owner, w.alive, w.kept, w.present)

pub time_out-ended :
    (e : Env) (f : Flight) (c : Controller)
    → is_loading c.state ≡ false
    → is_loading (time_out e f c).state ≡ false
time_out-ended e f c h = elim (Option-cases f.settled) [
  | inl n ↦ elim (Bool-cases (owns e c f && not f.aborted)) [
    | inl o ↦ rw (n, o) refl
    | inr o ↦ rw (n, o) h
  ]
  | inr (b, d) ↦ rw d h
]

pub time_out-state :
    (e : Env) (f : Flight) (c : Controller)
    → owns e c f && not f.aborted ≡ true
    → f.settled ≡ none
    → (time_out e f c).state ≡ timeout
time_out-state e f c o n = rw (n, o) refl

pub finish-ended :
    (e : Env) (f : Flight) (c : Controller)
    → is_loading c.state ≡ false
    → is_loading (finish e f c).state ≡ false
finish-ended e f c h =
    let d = record c { flight = some f } in
    if_holds (λ (k : Controller). is_loading k.state ≡ false)
      (owns e c f && not f.aborted && leb f.deadline e.monotonic) _ _
      (λ _. ap is_loading (wind_up_flight-state (time_out e f d)) ∙ time_out-ended e f d h) (λ _. h)

pub finish-late :
    (e : Env) (f : Flight) (c : Controller)
    → owns e c f && not f.aborted ≡ true
    → leb f.deadline e.monotonic ≡ true
    → f.settled ≡ none
    → is_loading (finish e f c).state ≡ false
finish-late e f c o late n =
    let d = record c { flight = some f } in
    let late_both : owns e c f && not f.aborted && leb f.deadline e.monotonic ≡ true =
      ground (arith, o, late) in
    if_holds (λ (k : Controller). is_loading k.state ≡ false)
      (owns e c f && not f.aborted && leb f.deadline e.monotonic) _ _
      (λ _. ap is_loading (wind_up_flight-state (time_out e f d) ∙ time_out-state e f d o n))
      (λ soon. absurd (clash late_both soon))

-- A controller that loads, if it does, for this request.
abbrev pub Fits : Controller → Flight → Type 0
Fits c f = is_loading c.state ≡ true → IsAwaited c f

pub status_ended : (n : ℕ) → is_loading (phase_of_status n) ≡ false
status_ended n = ground arith

pub error_ended : (b : Bool) → is_loading (phase_of_error b) ≡ false
error_ended true = refl
error_ended false = refl

pub still_out :
    {c : Controller} {f : Flight} (body : Bool) (stage : Stage)
    → IsOut stage
    → IsAwaited c f
    → IsAwaited
        (record c { flight = some (record f { has_body = body; stage = stage }) })
        (record f { has_body = body; stage = stage })
still_out body stage out w = record {
  alive = w.alive;
  kept = w.kept;
  unsettled = w.unsettled;
  timed = w.timed;
  present = w.present;
  out = out;
}

module _ (e : Env) (att : IsAttended e) (f : Flight) (c : Controller) (fits : Fits c f) where
  pub late_if_dead : IsAwaited c f → not (live e c f) ≡ true → leb f.deadline e.monotonic ≡ true
  late_if_dead w dead = ground (arith, dead, owned e c f att w)

  -- A request that is no longer live ends the wait.
  pub gives_up :
      (body : Bool)
      → not (live e c f) ≡ true
      → is_loading (finish e (stop_body (record f { has_body = body })) c).state ≡ false
  gives_up body dead = elim (Bool-cases (is_loading c.state)) [
    | inl l ↦
        let w = fits l in
        finish-late e (stop_body (record f { has_body = body })) c (owned e c f att w)
          (late_if_dead w dead) w.unsettled
    | inr l ↦ finish-ended e (stop_body (record f { has_body = body })) c l
  ]

  pub fail_with-ended :
      (p : Phase) (body : Bool)
      → is_loading p ≡ false
      → is_loading (fail_with e p (record f { has_body = body }) c).state ≡ false
  fail_with-ended p body q = elim (Bool-cases (live e c f)) [
    | inl l ↦ rw l (finish-ended e (stop_body (record f { has_body = body })) (publish p c) q)
    | inr l ↦ rw l (gives_up body (ap not l))
  ]

  pub answered-IsServed : (r : Response) → IsServed (answered e r f c)
  unfolding answered
  answered-IsServed r =
      let g = record f { has_body = r.has_body } in
      if_holds IsServed (not (live e c g)) _ _
        (λ dead. ended-IsServed (finish e (stop_body g) c) (gives_up r.has_body dead))
        (λ _.
          if_holds IsServed (r.redirected || not (r.status == 200)) _ _
            (λ _. ended-IsServed (finish e (stop_body g) (publish (phase_of_status r.status) c)) (
              finish-ended e (stop_body g) (publish (phase_of_status r.status) c)
                (status_ended r.status)))
            (λ _.
              if_holds IsServed (bad_length r.declared || not r.has_body) _ _
                (λ _.
                  ended-IsServed (fail_with e invalid_response g c)
                    (fail_with-ended invalid_response r.has_body refl))
                (λ _ l. still_out r.has_body (reading []) tt (fits l))))

  pub read_bytes-IsServed :
      (chunk : Option Text) (got : Text) → IsServed (read_bytes e chunk got f c)
  read_bytes-IsServed none got =
      ended-IsServed (fail_with e invalid_response f c)
        (fail_with-ended invalid_response f.has_body refl)
  read_bytes-IsServed (some bytes) got =
      if_holds IsServed (leb (length got + length bytes) byte_limit) _ _
        (λ _ l. still_out f.has_body (reading (got ++ bytes)) tt (fits l))
        (λ _.
          ended-IsServed (fail_with e invalid_response f c)
            (fail_with-ended invalid_response f.has_body refl))

  pub read_chunk-IsServed :
      (chunk : Option Text) (got : Text) → IsServed (read_chunk e chunk got f c)
  unfolding read_chunk
  read_chunk-IsServed chunk got =
      if_holds IsServed (not (live e c f)) _ _
        (λ dead. ended-IsServed (finish e (stop_body f) c) (gives_up f.has_body dead))
        (λ _. read_bytes-IsServed chunk got)

  pub time_out-IsServed : IsServed (time_out e f c)
  time_out-IsServed = elim (Bool-cases (is_loading c.state)) [
    | inl l ↦
        let w = fits l in
        ended-IsServed (time_out e f c)
          (ap is_loading (time_out-state e f c (owned e c f att w) w.unsettled))
    | inr l ↦ ended-IsServed (time_out e f c) (time_out-ended e f c l)
  ]

  pub read_end-IsServed : (s : Services) (got : Text) → IsServed (read_end s e got f c)
  unfolding read_end
  read_end-IsServed s got =
      if_holds IsServed (not (live e c f)) _ _
        (λ dead. ended-IsServed (finish e (stop_body f) c) (gives_up f.has_body dead))
        (λ _. concluded (s.parse got f.owner.address))
    where
      concluded : (v : Option Snapshot) → IsServed (conclude e v f c)
      concluded none =
          ended-IsServed (fail_with e invalid_response f c)
            (fail_with-ended invalid_response f.has_body refl)
      concluded (some v) = ended-IsServed (accept e v f c) (
          finish-ended e (settle true f)
            (publish (ready v false)
              (if ltb e.now v.expires_at then record c { cache = remember v c.cache } else c))
            refl)
