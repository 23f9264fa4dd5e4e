-- ===== src/Requests/Inputs.antt =====
-- frontend/state.js: the canonical form of the two kinds of input, and the time that a client waits.
-- The URL objects of the platform are a parameter.
use revealnetworktrouble.Prelude.{
  [], ℕ, ◌+◌, ◌*◌, min, max, Bool, true, false, not, ◌&&◌, Option, none, some, List, ◌∷◌, String,
  leb, if◌then◌else◌, ◌>>=◌, ◌>>◌, guard, length, is_nil, take, any, Text, codes, text_eq, trim,
}
use revealnetworktrouble.Requests.ApiBase.{UrlPlatform, canonical_api_base}
pub mod Trimmed
pub mod Idempotent
pub mod Timeout

-- A number of a form or a payload: not given, an integer, or anything else.
pub data Given : Type 0 where
  absent : Given
  integer : ℕ → Given
  negative : Given
  unusable : Given

-- `numericInteger` with a fallback
abbrev pub numeric_integer : Given → ℕ → ℕ → ℕ → Option ℕ
numeric_integer absent low high fallback = some fallback
numeric_integer (integer n) low high fallback = if leb low n && leb n high then some n else none
numeric_integer negative low high fallback = none
numeric_integer unusable low high fallback = none

pub record RawTarget : Type 0 where
  pub kind : Text
  pub address : Text
  pub expected_status : Given
  pub attempts : Given

-- A target has attempts exactly when it is a traceroute.
pub record Target : Type 0 where
  pub kind : Text
  pub address : Text
  pub expected_status : ℕ
  pub attempts : Option ℕ

pub record RawDiagnostics : Type 0 where
  pub api_base : Text
  pub targets : List RawTarget
  pub timeout_ms : Given
  pub auth_enabled : Option Bool
  pub bearer : Option Text

pub record Diagnostics : Type 0 where
  pub api_base : Text
  pub targets : List Target
  pub timeout_ms : ℕ
  pub auth_enabled : Bool

pub record RawTopology : Type 0 where
  pub api_base : Text
  pub addresses : List Text
  pub attempts : Given
  pub timeout_ms : Given
  pub auth_enabled : Bool

pub record TopologyInput : Type 0 where
  pub api_base : Text
  pub addresses : List Text
  pub attempts : ℕ
  pub timeout_ms : ℕ
  pub auth_enabled : Bool

abbrev pub kinds : List String
kinds =
    "dns" ∷ "tcp" ∷ "http" ∷ "https" ∷ "traceroute" ∷ "ssh" ∷ "smtp" ∷ "submission" ∷ "smtps"
    ∷ "imap" ∷ "imaps" ∷ "pop3" ∷ "pop3s" ∷ []

abbrev pub is_kind : Text → Bool
is_kind t = any (λ (s : String). text_eq t (codes s)) kinds

abbrev pub is_traceroute : Text → Bool
is_traceroute kind = text_eq kind (codes "traceroute")

abbrev pub address_ok : Text → Bool
address_ok t = not (is_nil t) && leb (length t) 4096

abbrev pub target_attempts : Text → Given → Option (Option ℕ)
target_attempts kind attempts =
    if is_traceroute kind
    then (numeric_integer attempts 1 10 5 >>= λ n. some (some n))
    else some none

unfoldable pub canonical_target : RawTarget → Option Target
canonical_target r = do
  let kind = trim r.kind
  let address = trim r.address
  guard (is_kind kind && address_ok address)
  expected ← numeric_integer r.expected_status 0 599 0
  attempts ← target_attempts kind r.attempts
  some (record { kind = kind; address = address; expected_status = expected; attempts = attempts })

unfoldable pub canonical_targets : List RawTarget → Option (List Target)
canonical_targets [] = some []
canonical_targets (r ∷ rs) = do t ← canonical_target r; ts ← canonical_targets rs; some (t ∷ ts)

abbrev pub wants_auth : Option Bool → Option Text → Bool
wants_auth (some b) bearer = b
wants_auth none none = false
wants_auth none (some t) = not (is_nil t)

-- `seen` is what has been added.
unfoldable pub canonical_addresses : List Text → List Text → Option (List Text)
canonical_addresses seen [] = some []
canonical_addresses seen (raw ∷ raws) = do
  let address = trim raw
  guard (address_ok address)
  elim (any (text_eq address) seen) [
    | true ↦ canonical_addresses seen raws
    | false ↦ canonical_addresses (address ∷ seen) raws >>= λ more. some (address ∷ more)
  ]

module _ {U : Type 0} (platform : UrlPlatform U) where
  unfoldable pub canonical_diagnostics_input : RawDiagnostics → Option Diagnostics
  unfolding canonical_targets canonical_api_base
  canonical_diagnostics_input r = do
    guard (leb (length r.targets) 20)
    targets ← canonical_targets r.targets
    base ← canonical_api_base platform r.api_base
    timeout ← numeric_integer r.timeout_ms 100 30000 5000
    some (record {
      api_base = base;
      targets = targets;
      timeout_ms = timeout;
      auth_enabled = wants_auth r.auth_enabled r.bearer;
    })

  unfoldable pub canonical_topology_input : RawTopology → Option TopologyInput
  unfolding canonical_addresses canonical_api_base
  canonical_topology_input r = do
    guard (leb (length r.addresses) 20)
    addresses ← canonical_addresses [] r.addresses
    base ← canonical_api_base platform r.api_base
    attempts ← numeric_integer r.attempts 1 10 5
    timeout ← numeric_integer r.timeout_ms 100 30000 5000
    some (record {
      api_base = base;
      addresses = addresses;
      attempts = attempts;
      timeout_ms = timeout;
      auth_enabled = r.auth_enabled;
    })

-- What `clientTimeoutMS` reads of a payload: the attempts of a target are those of a traceroute.
pub record Payload : Type 0 where
  pub timeout_ms : Given
  pub targets : List (Text × Given)

abbrev pub clamp : ℕ → ℕ → ℕ → ℕ
clamp low high n = min high (max low n)

abbrev pub attempts_of : Given → ℕ
attempts_of absent = 5
attempts_of (integer n) = clamp 1 10 n
attempts_of negative = 1
attempts_of unusable = 5

unfoldable pub longest_from : ℕ → ℕ → List (Text × Given) → ℕ
longest_from timeout longest [] = longest
longest_from timeout longest ((kind, attempts) ∷ ts) =
    longest_from timeout
      (if is_traceroute kind then max longest (timeout * attempts_of attempts) else longest) ts

-- A time that is no integer, or above the safe ones, throws.
unfoldable pub client_timeout_ms : Payload → Option ℕ
unfolding longest_from
client_timeout_ms p = do
  given ← numeric_integer p.timeout_ms 0 9007199254740991 5000
  let timeout = clamp 100 30000 given
  some (min 315000 (longest_from timeout timeout (take 20 p.targets) + 15000))
