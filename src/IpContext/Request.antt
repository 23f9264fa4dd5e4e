-- ===== src/IpContext/Request.antt =====
-- frontend/state.js, `createIPContextController`: a request of the controller, from `query` to its cleanup, and
-- the events of a controller.
pub mod Sound
pub mod Owners
pub mod Runs
pub mod Loading
pub mod Waiting
use revealnetworktrouble.Prelude.{
  [], decimal_from, ℕ, ◌+◌, Bool, true, false, not, ◌&&◌, ◌||◌, Option, none, some, List, ◌∷◌, ◌++◌,
  ltb, leb, ◌==◌, if◌then◌else◌, length, is_nil, all, Text, codes, text_eq, is_digit, decimal,
}
use revealnetworktrouble.Addresses.{Network, canonical_public_ip}
use revealnetworktrouble.IpContext.Address.{context_ip}
use revealnetworktrouble.IpContext.Controller.{
  Snapshot, Owner, Phase, loading, ineligible, unavailable, insecure_auth, timeout, unsupported,
  unauthorized, rate_limited, busy, invalid_response, ready, Stage, fetching, reading, cleaning,
  Flight, Controller, Env, publish, settle, stop_body, clear_deadline, abort, remember, cached,
  after_cached, owns, live, set_owner, cancel, destroy,
}

-- `timeout`, for the request that is in flight.
abbrev pub time_out : Env → Flight → Controller → Controller
time_out e f c =
    let stopped = settle false (clear_deadline (stop_body (abort f))) in
    let told = if owns e c f && not f.aborted then publish timeout c else c in
    elim f.settled [ none ↦ record told { flight = some stopped } | some b ↦ c ]

-- The `finally` part, up to the wait for the cleanup.
abbrev pub wind_up : Flight → Controller → Controller
wind_up f c =
    let closed = settle false (clear_deadline f) in
    record c {
      flight = if f.body_cancelled then some (record closed { stage = cleaning }) else none;
    }

abbrev pub wind_up_flight : Controller → Controller
wind_up_flight c = elim c.flight [ none ↦ c | some f ↦ wind_up f c ]

abbrev pub finish : Env → Flight → Controller → Controller
finish e f c =
    let late = time_out e f (record c { flight = some f }) in
    if owns e c f && not f.aborted && leb f.deadline e.monotonic
    then wind_up_flight late
    else wind_up f c

-- The `catch` part.
abbrev pub fail_with : Env → Phase → Flight → Controller → Controller
fail_with e p f c = finish e (stop_body f) (if live e c f then publish p c else c)

-- The answer of the server. A declared length that is not a number or is too large is refused.
pub record Response : Type 0 where
  pub has_body : Bool
  pub redirected : Bool
  pub status : ℕ
  pub declared : Option Text

abbrev pub byte_limit : ℕ
byte_limit = 16384

abbrev pub bad_length : Option Text → Bool
unfolding decimal_from
bad_length none = false
bad_length (some t) = is_nil t || not (all is_digit t) || ltb byte_limit (decimal t)

abbrev pub phase_of_status : ℕ → Phase
phase_of_status n =
    if n == 404
    then unsupported
    else if n == 401
    then unauthorized
    else if n == 429
    then rate_limited
    else if n == 503
    then busy
    else unavailable

unfoldable pub answered : Env → Response → Flight → Controller → Controller
unfolding bad_length
answered e r flying c =
    let f = record flying { has_body = r.has_body } in
    if not (live e c f)
    then finish e (stop_body f) c
    else if r.redirected || not (r.status == 200)
    then finish e (stop_body f) (publish (phase_of_status r.status) c)
    else if bad_length r.declared || not r.has_body
    then fail_with e invalid_response f c
    else record c { flight = some (record f { stage = reading [] }) }

-- A chunk of the body; `none` is one that is not an array of bytes.
abbrev pub read_bytes : Env → Option Text → Text → Flight → Controller → Controller
read_bytes e none got f c = fail_with e invalid_response f c
read_bytes e (some bytes) got f c =
    if leb (length got + length bytes) byte_limit
    then record c { flight = some (record f { stage = reading (got ++ bytes) }) }
    else fail_with e invalid_response f c

unfoldable pub read_chunk : Env → Option Text → Text → Flight → Controller → Controller
read_chunk e chunk got f c =
    if not (live e c f) then finish e (stop_body f) c else read_bytes e chunk got f c

abbrev pub accept : Env → Snapshot → Flight → Controller → Controller
accept e v f c =
    let kept = if ltb e.now v.expires_at then record c { cache = remember v c.cache } else c in
    finish e (settle true f) (publish (ready v false) kept)

abbrev pub conclude : Env → Option Snapshot → Flight → Controller → Controller
conclude e none f c = fail_with e invalid_response f c
conclude e (some v) f c = accept e v f c

-- A location as the platform's parser gives it.
pub record Url : Type 0 where
  pub protocol : Text
  pub has_login : Bool
  pub has_search : Bool
  pub has_hash : Bool
  pub hostname : Text

abbrev pub is_secure : Url → Bool
is_secure u = text_eq u.protocol (codes "https:")

abbrev pub is_service : Option Url → Bool
is_service none = false
is_service (some u) =
    (is_secure u || text_eq u.protocol (codes "http:"))
    && not (u.has_login || u.has_search || u.has_hash)

abbrev pub is_loopback : Text → Bool
is_loopback host =
    text_eq host (codes "localhost")
    || text_eq host (codes "127.0.0.1")
    || text_eq host (codes "[::1]")

abbrev pub exposes_token : Owner → Option Url → Bool
exposes_token o none = false
exposes_token o (some u) = not (is_nil o.token) && not (is_secure u) && not (is_loopback u.hostname)

abbrev pub flight_of : Env → Owner → Controller → Flight
flight_of e o c = record {
  owner = o;
  generation = c.generation;
  deadline = e.monotonic + 10000;
  stage = fetching;
  aborted = false;
  has_body = false;
  body_cancelled = false;
  timer = true;
  settled = none;
}

-- The request starts: its timer is set, and the call of `fetchImpl` is made.
abbrev pub take_off : Env → Owner → Controller → Controller
take_off e o c =
    let f = flight_of e o c in
    let started = publish loading (record c { flight = some f }) in
    if live e started f then started else finish e f started

abbrev pub is_some : {A : Type 0} → Option A → Bool
is_some none = false
is_some (some a) = true

-- An answer is read by `parseIPContext`, for the address that was asked.
pub record Services : Type 0 where
  pub url_host : Text → Option Text
  pub parse_url : Text → Option Url
  pub inner_networks : List Network
  pub nonpublic_networks : List Network
  pub parse : Text → Text → Option Snapshot

module _ (s : Services) where
  abbrev pub is_eligible : Text → Bool
  is_eligible t =
      is_some (context_ip s.url_host t)
      && elim (canonical_public_ip s.url_host s.inner_networks s.nonpublic_networks t) [
        | none ↦ false
        | some canonical ↦ text_eq canonical t
      ]

  -- `query`, behind its test of the cache.
  abbrev pub ask : Env → Bool → Owner → Controller → Controller
  ask e timer o c =
      let url = s.parse_url o.api_base_url in
      if not (is_service url)
      then publish unavailable c
      else if exposes_token o url
      then publish insecure_auth c
      else if not timer
      then publish unavailable c
      else take_off e o c

  abbrev pub ask_or_show : Env → Bool → Owner → Option Snapshot → Controller → Controller
  ask_or_show e timer o none c = ask e timer o c
  ask_or_show e timer o (some v) c = publish (ready v true) c

  -- A flag tells whether a timer can be set.
  abbrev pub query_owner : Env → Bool → Owner → Controller → Controller
  query_owner e timer o c =
      let searched = record c { cache = after_cached e.now o.address c.cache } in
      if not c.alive || not (e.is_current o)
      then c
      else if not (is_eligible o.address)
      then publish ineligible c
      else if is_some c.flight
      then c
      else ask_or_show e timer o (cached e.now o.address c.cache) searched

  abbrev pub query_by : Env → Bool → Controller → Option Owner → Controller
  query_by e timer c none = c
  query_by e timer c (some o) = query_owner e timer o c

  unfoldable pub query : Env → Bool → Controller → Controller
  unfolding context_ip canonical_public_ip
  query e timer c = query_by e timer c c.owner

  unfoldable pub read_end : Env → Text → Flight → Controller → Controller
  read_end e got f c =
      if not (live e c f)
      then finish e (stop_body f) c
      else conclude e (s.parse got f.owner.address) f c

-- The calls of the page, and what the platform reports to a request that waits.
pub data Event : Type 0 where
  owner_set : Option Owner → Event
  cancel_called destroy_called : Event
  queried : Bool → Event
  timer_fired : Event
  response_came : Response → Event
  fetch_failed read_failed : Bool → Event
  chunk_came : Option Text → Event
  body_ended : Event
  cleaned : Event

-- A `TypeError` and a `SyntaxError` are told from other errors.
abbrev pub phase_of_error : Bool → Phase
phase_of_error true = invalid_response
phase_of_error false = unavailable

abbrev pub in_flight_at :
    (Flight → Controller → Controller) → Controller → Option Flight → Controller
in_flight_at f c none = c
in_flight_at f c (some r) = f r c

abbrev pub in_flight : (Flight → Controller → Controller) → Controller → Controller
in_flight f c = in_flight_at f c c.flight

-- What a request does with a report, if it is the one that it waits for.
abbrev pub when_fetching : Stage → Controller → Controller → Controller
when_fetching fetching done c = done
when_fetching (reading t) done c = c
when_fetching cleaning done c = c

abbrev pub when_reading : Stage → (Text → Controller) → Controller → Controller
when_reading fetching done c = c
when_reading (reading t) done c = done t
when_reading cleaning done c = c

abbrev pub when_cleaning : Stage → Controller → Controller → Controller
when_cleaning fetching done c = c
when_cleaning (reading t) done c = c
when_cleaning cleaning done c = done

module _ (s : Services) where
  unfoldable pub step : Env → Event → Controller → Controller
  unfolding set_owner cancel destroy query answered read_chunk read_end
  step e (owner_set next) c = set_owner e next c
  step e cancel_called c = cancel c
  step e destroy_called c = destroy c
  step e (queried timer) c = query s e timer c
  step e timer_fired c = in_flight (λ f d. if f.timer then time_out e f d else d) c
  step e (response_came r) c = in_flight (λ f d. when_fetching f.stage (answered e r f d) d) c
  step e (fetch_failed typed) c =
      in_flight (λ f d. when_fetching f.stage (fail_with e (phase_of_error typed) f d) d) c
  step e (chunk_came chunk) c =
      in_flight (λ f d. when_reading f.stage (λ got. read_chunk e chunk got f d) d) c
  step e body_ended c = in_flight (λ f d. when_reading f.stage (λ got. read_end s e got f d) d) c
  step e (read_failed typed) c =
      in_flight (λ f d. when_reading f.stage (λ got. fail_with e (phase_of_error typed) f d) d) c
  step e cleaned c = in_flight (λ f d. when_cleaning f.stage (record d { flight = none }) d) c

  unfoldable pub run : List (Env × Event) → Controller → Controller
  unfolding step
  run [] c = c
  run ((e, x) ∷ more) c = run more (step e x c)
