-- ===== src/IpContext/Request/Runs.antt =====
-- frontend/state.js, `createIPContextController`: `query`, accepted answers, and any sequence of events.
use revealnetworktrouble.Prelude.{
  if_holds, ℕ, ◌≡◌, refl, sym, Bool, true, false, not, ◌||◌, Option, none, some, List, [], ◌∷◌,
  arith, ltb, if◌then◌else◌, Text,
}
use mathlib.Core.Path.{subst}
use revealnetworktrouble.IpContext.Controller.{
  Snapshot, Owner, loading, ineligible, unavailable, insecure_auth, invalid_response, ready, Stage,
  fetching, reading, cleaning, Flight, Controller, Env, publish, settle, stop_body, remember,
  cached, after_cached, live, create_controller,
}
use revealnetworktrouble.IpContext.Controller.Cache.{
  cached-address, after_cached-small, after_cached-IsKeyed, remember-small, remember-IsKeyed,
}
use revealnetworktrouble.IpContext.Request.{
  Services, Event, owner_set, cancel_called, destroy_called, queried, timer_fired, response_came,
  fetch_failed, read_failed, chunk_came, body_ended, cleaned, step, run, finish, fail_with,
  time_out, answered, read_chunk, read_end, accept, conclude, take_off, flight_of, is_service,
  exposes_token, ask, ask_or_show, query_by, in_flight_at, query_owner, query, is_some, is_eligible,
  in_flight, when_fetching, when_reading, when_cleaning, phase_of_error,
}
use revealnetworktrouble.IpContext.Request.Sound.{
  IsAbout, IsOf, IsFlown, IsSound, time_out-IsSound, finish-IsSound, publish-IsSound,
  fail_with-IsSound, error-IsQuiet, invalid-IsQuiet, answered-IsSound, read_chunk-IsSound,
}
use revealnetworktrouble.IpContext.Request.Owners.{
  set_owner-IsSound, cancel-IsSound, destroy-IsSound,
}

take_off-IsSound :
    (e : Env) (o : Owner) (c : Controller) → c.owner ≡ some o → IsSound c → IsSound (take_off e o c)
take_off-IsSound e o c w h =
    let f = flight_of e o c in
    let started = publish loading (record c { flight = some f }) in
    let sound : IsSound started = record {
      small = h.small;
      keyed = h.keyed;
      about = tt;
      flown = (omega arith, λ _. w);
    } in
    if_holds IsSound (live e started f) _ _ (λ _. sound)
      (λ _. finish-IsSound e f started sound.flown sound)

accept-IsSound :
    (e : Env) (v : Snapshot) (f : Flight) (c : Controller)
    → v.address ≡ f.owner.address
    → c.owner ≡ some f.owner
    → IsOf c f
    → IsSound c
    → IsSound (accept e v f c)
accept-IsSound e v f c a w o h =
    let about_it : IsAbout (ready v false) c.owner = subst (IsAbout (ready v false)) (sym w) a in
    if_holds (λ d. IsSound (finish e (settle true f) (publish (ready v false) d)))
      (ltb e.now v.expires_at) (record c { cache = remember v c.cache }) c
      (λ _.
        finish-IsSound e (settle true f)
          (publish (ready v false) (record c { cache = remember v c.cache })) o
          (record {
            small = remember-small v c.cache;
            keyed = remember-IsKeyed v c.cache h.keyed;
            about = about_it;
            flown = flown_alike c.flight h.flown;
          }))
      (λ _.
        finish-IsSound e (settle true f) (publish (ready v false) c) o
          (record { small = h.small; keyed = h.keyed; about = about_it; flown = h.flown }))
  where
    flown_alike :
        (fl : Option Flight)
        → IsFlown c fl
        → IsFlown (publish (ready v false) (record c { cache = remember v c.cache })) fl
    flown_alike none q = tt
    flown_alike (some g) q = q

live-owner :
    (e : Env) (c : Controller) (f : Flight)
    → not (live e c f) ≡ false
    → IsOf c f
    → c.owner ≡ some f.owner
live-owner e c f l o = o.1 (ground (arith, l))

-- An answer that is read is about the address that was asked.
abbrev pub IsFaithful : Services → Type 0
IsFaithful s = (got a : Text) (v : Snapshot) → s.parse got a ≡ some v → v.address ≡ a

conclude-IsSound :
    (e : Env) (v : Option Snapshot) (f : Flight) (c : Controller)
    → ((w : Snapshot) → v ≡ some w → w.address ≡ f.owner.address)
    → c.owner ≡ some f.owner
    → IsOf c f
    → IsSound c
    → IsSound (conclude e v f c)
conclude-IsSound e none f c a w o h = fail_with-IsSound e invalid_response f c invalid-IsQuiet o h
conclude-IsSound e (some v) f c a w o h = accept-IsSound e v f c (a v refl) w o h

when_fetching-IsSound :
    (st : Stage) (d c : Controller) → IsSound d → IsSound c → IsSound (when_fetching st d c)
when_fetching-IsSound fetching d c k h = k
when_fetching-IsSound (reading t) d c k h = h
when_fetching-IsSound cleaning d c k h = h

when_reading-IsSound :
    (st : Stage) (d : Text → Controller) (c : Controller)
    → ((t : Text) → IsSound (d t))
    → IsSound c
    → IsSound (when_reading st d c)
when_reading-IsSound fetching d c k h = h
when_reading-IsSound (reading t) d c k h = k t
when_reading-IsSound cleaning d c k h = h

when_cleaning-IsSound :
    (st : Stage) (d c : Controller) → IsSound d → IsSound c → IsSound (when_cleaning st d c)
when_cleaning-IsSound fetching d c k h = h
when_cleaning-IsSound (reading t) d c k h = h
when_cleaning-IsSound cleaning d c k h = k

new-IsSound : IsSound create_controller
unfolding create_controller
new-IsSound = record { small = omega arith; keyed = tt; about = tt; flown = tt }

run_from-IsSound :
    (s : Services)
    → ((e : Env) (x : Event) (c : Controller) → IsSound c → IsSound (step s e x c))
    → (xs : List (Env × Event)) (c : Controller) → IsSound c
    → IsSound (run s xs c)
unfolding run
run_from-IsSound s k [] c h = h
run_from-IsSound s k ((e, x) ∷ xs) c h = run_from-IsSound s k xs (step s e x c) (k e x c h)

module _ (s : Services) (faithful : IsFaithful s) where
  read_end-IsSound :
      (e : Env) (got : Text) (f : Flight) (c : Controller)
      → IsOf c f
      → IsSound c
      → IsSound (read_end s e got f c)
  unfolding read_end
  read_end-IsSound e got f c o h =
      if_holds IsSound (not (live e c f)) _ _ (λ _. finish-IsSound e (stop_body f) c o h)
        (λ l.
          conclude-IsSound e (s.parse got f.owner.address) f c (faithful got f.owner.address)
            (live-owner e c f l o) o h)

  ask-IsSound :
      (e : Env) (timer : Bool) (o : Owner) (c : Controller)
      → c.owner ≡ some o
      → IsSound c
      → IsSound (ask s e timer o c)
  ask-IsSound e timer o c w h =
      let url = s.parse_url o.api_base_url in
      if_holds IsSound (not (is_service url)) _ _ (λ _. publish-IsSound unavailable c (λ _. tt) h)
        (λ _.
          if_holds IsSound (exposes_token o url) _ _
            (λ _. publish-IsSound insecure_auth c (λ _. tt) h)
            (λ _.
              if_holds IsSound (not timer) _ _ (λ _. publish-IsSound unavailable c (λ _. tt) h)
                (λ _. take_off-IsSound e o c w h)))

  ask_or_show-IsSound :
      (e : Env) (timer : Bool) (o : Owner) (v : Option Snapshot) (c : Controller)
      → c.owner ≡ some o
      → ((w : Snapshot) → v ≡ some w → w.address ≡ o.address)
      → IsSound c
      → IsSound (ask_or_show s e timer o v c)
  ask_or_show-IsSound e timer o none c w a h = ask-IsSound e timer o c w h
  ask_or_show-IsSound e timer o (some v) c w a h = record {
    small = h.small;
    keyed = h.keyed;
    about = subst (IsAbout (ready v true)) (sym w) (a v refl);
    flown = h.flown;
  }

  searched-IsSound :
      (now : ℕ) (t : Text) (c : Controller)
      → IsSound c
      → IsSound (record c { cache = after_cached now t c.cache })
  searched-IsSound now t c h = record {
    small = omega (arith, h.small, after_cached-small now t c.cache);
    keyed = after_cached-IsKeyed now t c.cache h.keyed;
    about = h.about;
    flown = flown_alike c.flight h.flown;
  }
    where
      flown_alike :
          (fl : Option Flight)
          → IsFlown c fl
          → IsFlown (record c { cache = after_cached now t c.cache }) fl
      flown_alike none q = tt
      flown_alike (some g) q = q

  query_owner-IsSound :
      (e : Env) (timer : Bool) (o : Owner) (c : Controller)
      → c.owner ≡ some o
      → IsSound c
      → IsSound (query_owner s e timer o c)
  query_owner-IsSound e timer o c w h =
      let searched = record c { cache = after_cached e.now o.address c.cache } in
      if_holds IsSound (not c.alive || not (e.is_current o)) _ _ (λ _. h)
        (λ _.
          if_holds IsSound (not (is_eligible s o.address)) _ _
            (λ _. publish-IsSound ineligible c (λ _. tt) h)
            (λ _.
              if_holds IsSound (is_some c.flight) _ _ (λ _. h)
                (λ _.
                  ask_or_show-IsSound e timer o (cached e.now o.address c.cache) searched w
                    (λ v found. cached-address e.now o.address c.cache v h.keyed found)
                    (searched-IsSound e.now o.address c h))))

  query-IsSound :
      (e : Env) (timer : Bool) (c : Controller) → IsSound c → IsSound (query s e timer c)
  unfolding query
  query-IsSound e timer c h = go c.owner refl
    where
      go : (w : Option Owner) → c.owner ≡ w → IsSound (query_by s e timer c w)
      go none q = h
      go (some o) q = query_owner-IsSound e timer o c q h

  in_flight-IsSound :
      (g : Flight → Controller → Controller) (c : Controller)
      → ((f : Flight) → IsOf c f → IsSound (g f c))
      → IsSound c
      → IsSound (in_flight g c)
  in_flight-IsSound g c k h = go c.flight h.flown
    where
      go : (fl : Option Flight) → IsFlown c fl → IsSound (in_flight_at g c fl)
      go none q = h
      go (some f) q = k f q

  -- Every event keeps a controller sound.
  step-IsSound : (e : Env) (x : Event) (c : Controller) → IsSound c → IsSound (step s e x c)
  unfolding step
  step-IsSound e (owner_set next) c h = set_owner-IsSound e next c h
  step-IsSound e cancel_called c h = cancel-IsSound c h
  step-IsSound e destroy_called c h = destroy-IsSound c h
  step-IsSound e (queried timer) c h = query-IsSound e timer c h
  step-IsSound e timer_fired c h =
      in_flight-IsSound (λ f d. if f.timer then time_out e f d else d) c
        (λ f o. if_holds IsSound f.timer _ _ (λ _. time_out-IsSound e f c o h) (λ _. h)) h
  step-IsSound e (response_came r) c h =
      in_flight-IsSound (λ f d. when_fetching f.stage (answered e r f d) d) c
        (λ f o. when_fetching-IsSound f.stage (answered e r f c) c (answered-IsSound e r f c o h) h)
        h
  step-IsSound e (fetch_failed typed) c h =
      in_flight-IsSound (λ f d. when_fetching f.stage (fail_with e (phase_of_error typed) f d) d) c
        (λ f o.
          when_fetching-IsSound f.stage (fail_with e (phase_of_error typed) f c) c
            (fail_with-IsSound e (phase_of_error typed) f c (error-IsQuiet typed) o h) h)
        h
  step-IsSound e (chunk_came chunk) c h =
      in_flight-IsSound (λ f d. when_reading f.stage (λ got. read_chunk e chunk got f d) d) c
        (λ f o.
          when_reading-IsSound f.stage (λ got. read_chunk e chunk got f c) c
            (λ got. read_chunk-IsSound e chunk got f c o h) h)
        h
  step-IsSound e body_ended c h =
      in_flight-IsSound (λ f d. when_reading f.stage (λ got. read_end s e got f d) d) c
        (λ f o.
          when_reading-IsSound f.stage (λ got. read_end s e got f c) c
            (λ got. read_end-IsSound e got f c o h) h)
        h
  step-IsSound e (read_failed typed) c h =
      in_flight-IsSound
        (λ f d. when_reading f.stage (λ got. fail_with e (phase_of_error typed) f d) d) c
        (λ f o.
          when_reading-IsSound f.stage (λ got. fail_with e (phase_of_error typed) f c) c
            (λ got. fail_with-IsSound e (phase_of_error typed) f c (error-IsQuiet typed) o h) h)
        h
  step-IsSound e cleaned c h =
      in_flight-IsSound (λ f d. when_cleaning f.stage (record d { flight = none }) d) c
        (λ f o.
          when_cleaning-IsSound f.stage (record c { flight = none }) c
            (record { small = h.small; keyed = h.keyed; about = h.about; flown = tt }) h)
        h

  -- After any events of a new controller whose answers are read for the address that was asked, the cache
  -- holds at most 64 answers, each under its own address; an answer that is shown is about the address of the
  -- present owner; and a request in flight is of a generation that has been, the present one only if its
  -- owner is the present owner.
  pub run-IsSound : (xs : List (Env × Event)) → IsSound (run s xs create_controller)
  run-IsSound xs = from xs create_controller new-IsSound
    where
      from : (ys : List (Env × Event)) (c : Controller) → IsSound c → IsSound (run s ys c)
      from ys c h = run_from-IsSound s (λ e x d. step-IsSound e x d) ys c h
