-- ===== src/IpContext/Tests.antt =====
-- Runs of frontend/state.js, `createIPContextController`, and its theorems at concrete inputs. The answers are
-- read as `parseIPContext` reads them.
use revealnetworktrouble.Prelude.{
  ◌↔◌, ◌<◌, ℕ, ◌≤◌, ◌⊎◌, none, length, Text, take, drop, ◌≡◌, refl, true, false, some, List, [],
  ◌∷◌, codes,
}
use revealnetworktrouble.IpContext.Controller.{
  cached, Snapshot, Owner, Env, loading, timeout, ready, create_controller, after_cached, remember,
  delete,
}
use revealnetworktrouble.IpContext.Controller.Map.{view, with_key, cache-IsMap}
use revealnetworktrouble.IpContext.Json.{str}
use revealnetworktrouble.IpContext.Request.{
  Services, Response, Event, owner_set, queried, timer_fired, response_came, chunk_came, body_ended,
  step, run,
}
use revealnetworktrouble.IpContext.Request.Sound.{IsSound}
use revealnetworktrouble.IpContext.Request.Runs.{IsFaithful, run-IsSound}
use revealnetworktrouble.IpContext.Request.Waiting.{outcome, AllAttended, run-timer}
use revealnetworktrouble.IpContext.Reader.{read_snapshot}
use revealnetworktrouble.IpContext.Reader.Accepted.{read_snapshot-address}
use revealnetworktrouble.IpContext.ReaderTests.{answer, value}

abbrev services : Services
services = record {
  url_host = λ t. some t;
  parse_url = λ t. some (record {
    protocol = codes "https:";
    has_login = false;
    has_search = false;
    has_hash = false;
    hostname = codes "api.example";
  });
  inner_networks = [];
  nonpublic_networks = [];
  parse = read_snapshot (λ t. some t) [] [];
}

services-IsFaithful : IsFaithful services
services-IsFaithful = read_snapshot-address (λ t. some t) [] []

abbrev owner : Owner
owner = record {
  report = 1;
  api_base_url = codes "https://api.example";
  auth_revision = 0;
  token = codes "t";
  address = codes "8.8.8.8";
}

abbrev at : ℕ → Env
at t = record { now = t; monotonic = t; is_current = λ o. true }

abbrev page : Response
page = record { has_body = true; redirected = false; status = 200; declared = some (codes "900") }

abbrev asked : List (Env × Event)
asked = (at 1, owner_set (some owner)) ∷ (at 2, queried true) ∷ (at 5, response_came page) ∷ []

abbrev answered_run : List (Env × Event)
answered_run =
    (at 1, owner_set (some owner))
    ∷ (at 2, queried true)
    ∷ (at 5, response_came page)
    ∷ (at 6, chunk_came (some (take 300 answer)))
    ∷ (at 7, chunk_came (some (drop 300 answer)))
    ∷ (at 8, body_ended)
    ∷ []

shown :
    (run services answered_run create_controller).state
    ≡ ready
        (record { address = codes "8.8.8.8"; expires_at = 1704164945006; content = value })
        false
unfolding run create_controller value read_snapshot
shown = refl

waits : (run services asked create_controller).state ≡ loading
unfolding run create_controller
waits = refl

run-IsSound_example : IsSound (run services answered_run create_controller)
run-IsSound_example = run-IsSound services services-IsFaithful answered_run

asked-AllAttended : AllAttended asked
asked-AllAttended = ((λ o. refl), ((λ o. refl), ((λ o. refl), tt)))

run-timer_example :
    ((step services (at 10002) timer_fired (run services asked create_controller)).state ≡ timeout)
    × (outcome (step services (at 10002) timer_fired (run services asked create_controller)).flight
        ≡ some false)
run-timer_example = run-timer services asked (at 10002) asked-AllAttended (λ o. refl) waits

abbrev other_answer : Snapshot
other_answer = record { address = codes "1.1.1.1"; expires_at = 9; content = str [] }

abbrev stored : List (Text × Snapshot)
stored = (codes "1.1.1.1", other_answer) ∷ []

cache-IsMap_example :
    ((cached 9 (codes "1.1.1.1") stored ≡ some other_answer)
      ↔ ((view stored (codes "1.1.1.1") ≡ some other_answer) × (9 < 9)))
    × (view (after_cached 9 (codes "1.1.1.1") stored) (codes "1.1.1.1")
        ≡ with_key (codes "1.1.1.1") none (view stored) (codes "1.1.1.1"))
    × (view (remember other_answer stored) (codes "1.1.1.1") ≡ some other_answer)
    × (length (remember other_answer stored) ≤ 64)
    × ((view (remember other_answer stored) (codes "1.1.1.1")
          ≡ with_key (codes "1.1.1.1") (some other_answer) (view stored) (codes "1.1.1.1"))
        ⊎ (64 ≤ length (delete (codes "1.1.1.1") stored)))
cache-IsMap_example =
    cache-IsMap 9 (codes "1.1.1.1") (codes "1.1.1.1") other_answer other_answer stored
