-- ===== src/IpContext/Controller.antt =====
-- frontend/state.js, `createIPContextController`: the controller of one address's context. Each function is
-- what the code does between two waits; the events are the calls of the page and what the platform reports.
-- Time stands still within an event.
pub mod Cache
pub mod Map
use revealnetworktrouble.IpContext.Json.{Value}
use revealnetworktrouble.Prelude.{
  [], ℕ, ◌+◌, ◌-◌, Bool, true, false, not, ◌&&◌, ◌||◌, Option, none, some, List, ◌∷◌, ◌++◌, ltb,
  leb, ◌==◌, if◌then◌else◌, length, drop, Text, text_eq,
}

-- An accepted answer, with its address and its time of expiry; the rest of it is only shown.
pub record Snapshot : Type 0 where
  pub address : Text
  pub expires_at : ℕ
  pub content : Value

-- The owner that the page sets. The report is an object, known by its identity.
pub record Owner : Type 0 where
  pub report : ℕ
  pub api_base_url : Text
  pub auth_revision : ℕ
  pub token : Text
  pub address : Text

pub data Phase : Type 0 where
  idle loading cancelled ineligible unavailable insecure_auth timeout : Phase
  unsupported unauthorized rate_limited busy invalid_response : Phase
  ready : Snapshot → Bool → Phase

-- Where the asynchronous part of a request waits.
pub data Stage : Type 0 where
  fetching : Stage
  reading : Text → Stage
  cleaning : Stage

-- `request`: the generation stands for the identity of the owner's copy too, since every new owner has a new
-- generation.
pub record Flight : Type 0 where
  pub owner : Owner
  pub generation : ℕ
  pub deadline : ℕ
  pub stage : Stage
  pub aborted : Bool
  pub has_body : Bool
  pub body_cancelled : Bool
  pub timer : Bool
  pub settled : Option Bool

pub record Controller : Type 0 where
  pub owner : Option Owner
  pub generation : ℕ
  pub alive : Bool
  pub flight : Option Flight
  pub state : Phase
  pub cache : List (Text × Snapshot)

-- What an event finds: the two clocks, and what `isCurrentOwner` says.
pub record Env : Type 0 where
  pub now : ℕ
  pub monotonic : ℕ
  pub is_current : Owner → Bool

unfoldable pub create_controller : Controller
create_controller = record {
  owner = none;
  generation = 0;
  alive = true;
  flight = none;
  state = idle;
  cache = [];
}

abbrev pub publish : Phase → Controller → Controller
publish p c = record c { state = p }

-- A promise keeps what it is settled with first.
abbrev pub once : Option Bool → Bool → Option Bool
once none b = some b
once (some a) b = some a

abbrev pub settle : Bool → Flight → Flight
settle b f = record f { settled = once f.settled b }

-- `stopBody`; the cleanup that it starts is pending from then on.
abbrev pub stop_body : Flight → Flight
stop_body f = record f { body_cancelled = f.body_cancelled || f.has_body }

abbrev pub clear_deadline : Flight → Flight
clear_deadline f = record f { timer = false }

abbrev pub abort : Flight → Flight
abort f = record f { aborted = true }

abbrev pub revoked : Option Flight → Option Flight
revoked none = none
revoked (some f) = some (settle false (stop_body (abort (clear_deadline f))))

abbrev pub revoke : Controller → Controller
revoke c = record c { generation = c.generation + 1; flight = revoked c.flight }

abbrev pub same_scope : Option Owner → Option Owner → Bool
same_scope (some a) (some b) =
    a.report == b.report
    && text_eq a.api_base_url b.api_base_url
    && a.auth_revision == b.auth_revision
    && text_eq a.token b.token
same_scope _ _ = false

abbrev pub same_address : Option Owner → Option Owner → Bool
same_address (some a) (some b) = text_eq a.address b.address
same_address _ _ = false

-- `cache.get`, `cache.delete` and `cache.set`, which appends.
abbrev pub find_cached : Text → List (Text × Snapshot) → Option Snapshot
find_cached t [] = none
find_cached t ((k, v) ∷ kvs) =
    let later = find_cached t kvs in if text_eq t k then some v else later

abbrev pub delete : Text → List (Text × Snapshot) → List (Text × Snapshot)
delete t [] = []
delete t ((k, v) ∷ kvs) = let rest = delete t kvs in if text_eq t k then rest else (k, v) ∷ rest

abbrev pub fresh : ℕ → Option Snapshot → Option Snapshot
fresh now none = none
fresh now (some v) = if leb v.expires_at now then none else some v

abbrev pub put_back : Text → Option Snapshot → List (Text × Snapshot) → List (Text × Snapshot)
put_back t none kvs = delete t kvs
put_back t (some v) kvs = delete t kvs ++ (t, v) ∷ []

-- `cached`: the value if it has not expired, which becomes the one used last.
abbrev pub cached : ℕ → Text → List (Text × Snapshot) → Option Snapshot
cached now t kvs = fresh now (find_cached t kvs)

abbrev pub after_cached : ℕ → Text → List (Text × Snapshot) → List (Text × Snapshot)
after_cached now t kvs = put_back t (cached now t kvs) kvs

-- The cache keeps the 64 that were used last.
abbrev pub remember : Snapshot → List (Text × Snapshot) → List (Text × Snapshot)
remember v kvs =
    let added = delete v.address kvs ++ (v.address, v) ∷ [] in drop (length added - 64) added

abbrev pub is_current : Env → Option Owner → Bool
is_current e none = false
is_current e (some o) = e.is_current o

abbrev pub owns : Env → Controller → Flight → Bool
owns e c f = c.alive && c.generation == f.generation && e.is_current f.owner

abbrev pub live : Env → Controller → Flight → Bool
live e c f = owns e c f && not f.aborted && ltb e.monotonic f.deadline

abbrev pub show_cached : Option Snapshot → Phase
show_cached none = idle
show_cached (some v) = ready v true

-- The new owner is in place: what the cache has for it is shown.
abbrev pub open_owner : ℕ → Option Owner → Controller → Controller
open_owner now none c = record c { owner = none; state = idle }
open_owner now (some o) c = record c {
  owner = some o;
  state = show_cached (cached now o.address c.cache);
  cache = after_cached now o.address c.cache;
}

unfoldable pub set_owner : Env → Option Owner → Controller → Controller
set_owner e next c =
    let cleared = if same_scope c.owner next then c else record c { cache = [] } in
    if not c.alive || same_scope c.owner next && same_address c.owner next
    then c
    else open_owner e.now next (revoke cleared)

unfoldable pub cancel : Controller → Controller
cancel c = if c.alive then publish cancelled (revoke c) else c

unfoldable pub destroy : Controller → Controller
destroy c =
    if c.alive
    then record (revoke c) { alive = false; owner = none; cache = []; state = idle }
    else c
