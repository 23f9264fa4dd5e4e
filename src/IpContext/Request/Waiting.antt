-- ===== src/IpContext/Request/Waiting.antt =====
-- frontend/state.js, `createIPContextController`: a controller that says that it loads does not do so for ever.
use revealnetworktrouble.Prelude.{
  if_holds, ℕ, ◌≡◌, refl, ap, Bool, true, false, not, ◌&&◌, ◌||◌, Option, none, some, List, [], ◌∷◌,
  arith, if◌then◌else◌, All, Text,
}
use mathlib.Core.Path.{subst}
use revealnetworktrouble.IpContext.Controller.{
  Snapshot, Owner, loading, timeout, Stage, fetching, reading, cleaning, Flight, Controller, Env,
  publish, cached, after_cached, live, set_owner, cancel, destroy, open_owner, show_cached,
  create_controller, same_scope, same_address,
}
use revealnetworktrouble.IpContext.Request.{
  false, true, Option, Bool, Services, Event, owner_set, cancel_called, destroy_called, queried,
  timer_fired, response_came, fetch_failed, read_failed, chunk_came, body_ended, cleaned, step, run,
  fail_with, time_out, answered, read_chunk, read_end, take_off, flight_of, is_service,
  exposes_token, ask, ask_or_show, query_by, in_flight_at, query_owner, query, is_some, is_eligible,
  in_flight, when_fetching, when_reading, when_cleaning, phase_of_error,
}
use revealnetworktrouble.IpContext.Request.Loading.{
  is_loading, IsOut, IsAwaited, HasAwaited, IsServed, ended-IsServed, clash, IsAttended, owned,
  Fits, error_ended, fail_with-ended, answered-IsServed, read_chunk-IsServed, time_out-IsServed,
  read_end-IsServed,
}

show_cached-ended : (v : Option Snapshot) → is_loading (show_cached v) ≡ false
show_cached-ended none = refl
show_cached-ended (some v) = refl

open_owner-ended :
    (now : ℕ) (next : Option Owner) (c : Controller)
    → is_loading (open_owner now next c).state ≡ false
open_owner-ended now none c = refl
open_owner-ended now (some o) c = show_cached-ended (cached now o.address c.cache)

set_owner-IsServed :
    (e : Env) (next : Option Owner) (c : Controller) → IsServed c → IsServed (set_owner e next c)
unfolding set_owner
set_owner-IsServed e next c h =
    if_holds IsServed (not c.alive || same_scope c.owner next && same_address c.owner next) _ _
      (λ _. h) (λ _. ended-IsServed (open_owner e.now next _) (open_owner-ended e.now next _))

cancel-IsServed : (c : Controller) → IsServed c → IsServed (cancel c)
unfolding cancel
cancel-IsServed c h = if_holds IsServed c.alive _ _ (λ _ l. cc) (λ _. h)

destroy-IsServed : (c : Controller) → IsServed c → IsServed (destroy c)
unfolding destroy
destroy-IsServed c h = if_holds IsServed c.alive _ _ (λ _ l. cc) (λ _. h)

take_off-IsServed :
    (e : Env) (o : Owner) (c : Controller)
    → IsAttended e
    → c.alive ≡ true
    → IsServed (take_off e o c)
take_off-IsServed e o c att a =
    let started = publish loading (record c { flight = some (flight_of e o c) }) in
    let w : IsAwaited started (flight_of e o c) = record {
      alive = a;
      kept = refl;
      unsettled = refl;
      timed = refl;
      present = refl;
      out = tt;
    } in
    let flying : live e started (flight_of e o c) ≡ true = ground (arith, att o, a) in
    if_holds IsServed (live e started (flight_of e o c)) _ _ (λ _ _. w)
      (λ dead. absurd (clash flying dead))

module _ (s : Services) (e : Env) (att : IsAttended e) (timer : Bool) where
  ask-IsServed : (o : Owner) (c : Controller) → c.alive ≡ true → IsServed (ask s e timer o c)
  ask-IsServed o c a =
      let url = s.parse_url o.api_base_url in
      if_holds IsServed (not (is_service url)) _ _ (λ _ l. cc)
        (λ _.
          if_holds IsServed (exposes_token o url) _ _ (λ _ l. cc)
            (λ _.
              if_holds IsServed (not timer) _ _ (λ _ l. cc) (λ _. take_off-IsServed e o c att a)))

  ask_or_show-IsServed :
      (o : Owner) (v : Option Snapshot) (c : Controller)
      → c.alive ≡ true
      → IsServed (ask_or_show s e timer o v c)
  ask_or_show-IsServed o none c a = ask-IsServed o c a
  ask_or_show-IsServed o (some v) c a = λ l. cc

  query_owner-IsServed :
      (o : Owner) (c : Controller) → IsServed c → IsServed (query_owner s e timer o c)
  query_owner-IsServed o c h =
      if_holds IsServed (not c.alive || not (e.is_current o)) _ _ (λ _. h)
        (λ a.
          if_holds IsServed (not (is_eligible s o.address)) _ _ (λ _ l. cc)
            (λ _.
              if_holds IsServed (is_some c.flight) _ _ (λ _. h)
                (λ _.
                  ask_or_show-IsServed o (cached e.now o.address c.cache)
                    (record c { cache = after_cached e.now o.address c.cache })
                    (ground (arith, a)))))

  query-IsServed : (c : Controller) → IsServed c → IsServed (query s e timer c)
  unfolding query
  query-IsServed c h = by c.owner
    where
      by : (w : Option Owner) → IsServed (query_by s e timer c w)
      by none = h
      by (some o) = query_owner-IsServed o c h

-- What the promise of the request is settled with.
abbrev pub outcome : Option Flight → Option Bool
outcome none = none
outcome (some f) = f.settled

module _ (s : Services) (e : Env) (att : IsAttended e) where
  in_flight-IsServed :
      (g : Flight → Controller → Controller) (c : Controller)
      → ((f : Flight) → Fits c f → IsServed (g f c))
      → IsServed c
      → IsServed (in_flight g c)
  in_flight-IsServed g c k h = at c.flight h
    where
      at :
          (fl : Option Flight)
          → (is_loading c.state ≡ true → HasAwaited c fl)
          → IsServed (in_flight_at g c fl)
      at none q = λ l. absurd (q l)
      at (some f) q = k f q

  when_fetching-IsServed :
      (st : Stage) (d c : Controller) → IsServed d → IsServed c → IsServed (when_fetching st d c)
  when_fetching-IsServed fetching d c k h = k
  when_fetching-IsServed (reading t) d c k h = h
  when_fetching-IsServed cleaning d c k h = h

  when_reading-IsServed :
      (st : Stage) (d : Text → Controller) (c : Controller)
      → ((t : Text) → IsServed (d t))
      → IsServed c
      → IsServed (when_reading st d c)
  when_reading-IsServed fetching d c k h = h
  when_reading-IsServed (reading t) d c k h = k t
  when_reading-IsServed cleaning d c k h = h

  cleaned-IsServed :
      (f : Flight) (c : Controller) (st : Stage)
      → f.stage ≡ st
      → Fits c f
      → IsServed c
      → IsServed (when_cleaning st (record c { flight = none }) c)
  cleaned-IsServed f c fetching q fits h = h
  cleaned-IsServed f c (reading t) q fits h = h
  cleaned-IsServed f c cleaning q fits h = λ l. subst IsOut q (fits l).out

  step-IsServed : (x : Event) (c : Controller) → IsServed c → IsServed (step s e x c)
  unfolding step
  step-IsServed (owner_set next) c h = set_owner-IsServed e next c h
  step-IsServed cancel_called c h = cancel-IsServed c h
  step-IsServed destroy_called c h = destroy-IsServed c h
  step-IsServed (queried timer) c h = query-IsServed s e att timer c h
  step-IsServed timer_fired c h =
      in_flight-IsServed (λ f d. if f.timer then time_out e f d else d) c
        (λ f fits. if_holds IsServed f.timer _ _ (λ _. time_out-IsServed e att f c fits) (λ _. h)) h
  step-IsServed (response_came r) c h =
      in_flight-IsServed (λ f d. when_fetching f.stage (answered e r f d) d) c
        (λ f fits. when_fetching-IsServed f.stage _ c (answered-IsServed e att f c fits r) h) h
  step-IsServed (fetch_failed typed) c h =
      in_flight-IsServed (λ f d. when_fetching f.stage (fail_with e (phase_of_error typed) f d) d) c
        (λ f fits.
          when_fetching-IsServed f.stage _ c
            (ended-IsServed (fail_with e (phase_of_error typed) f c) (
              fail_with-ended e att f c fits (phase_of_error typed) f.has_body (error_ended typed)))
            h)
        h
  step-IsServed (chunk_came chunk) c h =
      in_flight-IsServed (λ f d. when_reading f.stage (λ got. read_chunk e chunk got f d) d) c
        (λ f fits.
          when_reading-IsServed f.stage (λ got. read_chunk e chunk got f c) c
            (λ got. read_chunk-IsServed e att f c fits chunk got) h)
        h
  step-IsServed body_ended c h =
      in_flight-IsServed (λ f d. when_reading f.stage (λ got. read_end s e got f d) d) c
        (λ f fits.
          when_reading-IsServed f.stage (λ got. read_end s e got f c) c
            (λ got. read_end-IsServed e att f c fits s got) h)
        h
  step-IsServed (read_failed typed) c h =
      in_flight-IsServed
        (λ f d. when_reading f.stage (λ got. fail_with e (phase_of_error typed) f d) d) c
        (λ f fits.
          when_reading-IsServed f.stage (λ got. fail_with e (phase_of_error typed) f c) c
            (λ got. ended-IsServed (fail_with e (phase_of_error typed) f c) (
              fail_with-ended e att f c fits (phase_of_error typed) f.has_body (error_ended typed)))
            h)
        h
  step-IsServed cleaned c h =
      in_flight-IsServed (λ f d. when_cleaning f.stage (record d { flight = none }) d) c
        (λ f fits. cleaned-IsServed f c f.stage refl fits h) h

  -- The timer ends the wait, and the promise of `query` is settled with false.
  timer-ends :
      (c : Controller)
      → IsServed c
      → c.state ≡ loading
      → ((step s e timer_fired c).state ≡ timeout)
        × (outcome (step s e timer_fired c).flight ≡ some false)
  unfolding step
  timer-ends c h l = at c.flight (h (ap is_loading l))
    where
      at :
          (fl : Option Flight)
          → HasAwaited c fl
          → ((in_flight_at (λ f d. if f.timer then time_out e f d else d) c fl).state ≡ timeout)
            × (outcome (in_flight_at (λ f d. if f.timer then time_out e f d else d) c fl).flight
                ≡ some false)
      at none q = absurd q
      at (some f) q = rw (q.timed, q.unsettled, owned e c f att q) (refl, refl)

-- Events while every owner is current.
abbrev pub AllAttended : List (Env × Event) → Type 0
AllAttended xs = All (λ x. IsAttended x.0) xs

run-IsServed :
    (s : Services) (xs : List (Env × Event)) (c : Controller)
    → AllAttended xs
    → IsServed c
    → IsServed (run s xs c)
unfolding run
run-IsServed s [] c att h = h
run-IsServed s ((e, x) ∷ xs) c (a, att) h =
    run-IsServed s xs (step s e x c) att (step-IsServed s e a x c h)

-- After any events of a new controller, each of them while the page takes every owner for the current one: if
-- it says that it loads, the timer of its request is set, and when it fires the controller says that the time
-- is out, and the promise of the query is settled with false.
pub run-timer :
    (s : Services) (xs : List (Env × Event)) (e : Env)
    → AllAttended xs
    → IsAttended e
    → (run s xs create_controller).state ≡ loading
    → ((step s e timer_fired (run s xs create_controller)).state ≡ timeout)
      × (outcome (step s e timer_fired (run s xs create_controller)).flight ≡ some false)
unfolding create_controller
run-timer s xs e att a l =
    timer-ends s e a (run s xs create_controller)
      (run-IsServed s xs create_controller att (λ q. cc)) l
