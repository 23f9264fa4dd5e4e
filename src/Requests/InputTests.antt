-- ===== src/Requests/InputTests.antt =====
-- frontend/state.js: runs of the canonical forms and of the time to wait, and their theorems at concrete
-- inputs. The platform has the URLs of one host.
use mathlib.Core.Path.{sym, ap}
use revealnetworktrouble.Prelude.{
  ◌||◌, ◌∙◌, sym, ℕ, arith, length, text_eq, ◌++◌, if◌then◌else◌, min, max, ◌≤◌, ◌≡◌, refl, true,
  false, Option, none, some, List, [], ◌∷◌, map, take, Text, codes, trim,
}
use revealnetworktrouble.Requests.ApiBase.{UrlPlatform, strip_slash}
use revealnetworktrouble.Requests.ApiBase.Stable.{strip_slash-slash}
use revealnetworktrouble.Requests.Inputs.{
  absent, integer, RawTarget, RawTopology, TopologyInput, Payload, canonical_target,
  client_timeout_ms, RawDiagnostics, canonical_targets, canonical_diagnostics_input,
}
use revealnetworktrouble.Requests.Inputs.Timeout.{IsWait, client_timeout_ms-covers}

-- A platform on which one host has three URLs.
data Place : Type 0 where
  top api api_slash : Place

abbrev path : Place → Text
path top = codes "/"
path api = codes "/api"
path api_slash = codes "/api/"

abbrev written : Place → Text
written u = codes "https://a" ++ path u

abbrev parse_place : Text → Option Place
parse_place t =
    if text_eq t (codes "https://a") || text_eq t (codes "https://a/")
    then some top
    else if text_eq t (codes "https://a/api")
    then some api
    else if text_eq t (codes "https://a/api/")
    then some api_slash
    else none

abbrev go_to : Text → Place → Place
go_to t u =
    if text_eq t (codes "/")
    then top
    else if text_eq t (codes "/api")
    then api
    else if text_eq t (codes "/api/")
    then api_slash
    else u

abbrev platform : UrlPlatform Place
platform = record {
  parse = parse_place;
  protocol = λ u. codes "https:";
  username = λ u. [];
  password = λ u. [];
  pathname = path;
  search = λ u. [];
  hash = λ u. [];
  with_pathname = go_to;
  to_string = written;
}

read : (u : Place) → parse_place (written u) ≡ some u
read top = refl
read api = refl
read api_slash = refl

ends_in_slash : (front : Text) → written top ≡ front ++ b'/' ∷ [] → parse_place front ≡ some top
ends_in_slash front e = ap parse_place (sym (strip_slash-slash front) ∙ sym (ap strip_slash e))

longer : {c d e : ℕ} {t : Text} → c ∷ d ∷ t ≡ e ∷ [] → ⊥
longer e = (let absurd = ap length e in omega (arith, absurd))

read_root :
    (u : Place) (front : Text)
    → path u ≡ codes "/"
    → written u ≡ front ++ b'/' ∷ []
    → parse_place front ≡ some u
read_root top front e w = ends_in_slash front w
read_root api front e w = elim (longer e) [ ]
read_root api_slash front e w = elim (longer e) [ ]

abbrev raw : RawTopology
raw = record {
  api_base = codes " https://a/api/";
  addresses = codes " 1.1.1.1" ∷ codes "b" ∷ codes "1.1.1.1 " ∷ [];
  attempts = absent;
  timeout_ms = integer 200;
  auth_enabled = false;
}

abbrev canonical : TopologyInput
canonical = record {
  api_base = codes "https://a/api";
  addresses = codes "1.1.1.1" ∷ codes "b" ∷ [];
  attempts = 5;
  timeout_ms = 200;
  auth_enabled = false;
}

abbrev targets : List RawTarget
targets =
    record {
      kind = codes "tcp ";
      address = codes " h:1";
      expected_status = absent;
      attempts = integer 99;
    }
    ∷ record {
      kind = codes "traceroute";
      address = codes "h";
      expected_status = integer 0;
      attempts = absent;
    }
    ∷ []

abbrev diagnostics : List RawTarget → RawDiagnostics
diagnostics ts = record {
  api_base = codes "https://a";
  targets = ts;
  timeout_ms = absent;
  auth_enabled = none;
  bearer = some (codes "t");
}

diagnostics_run :
    map (canonical_diagnostics_input platform) (
      diagnostics targets
      ∷ diagnostics (
          record {
            kind = codes "ftp";
            address = codes "h";
            expected_status = absent;
            attempts = absent;
          }
          ∷ [])
      ∷ [])
    ≡ some (record {
      api_base = codes "https://a";
      targets =
          record { kind = codes "tcp"; address = codes "h:1"; expected_status = 0; attempts = none }
          ∷ record {
            kind = codes "traceroute";
            address = codes "h";
            expected_status = 0;
            attempts = some 5;
          }
          ∷ [];
      timeout_ms = 5000;
      auth_enabled = true;
    })
      ∷ none
      ∷ []
unfolding canonical_diagnostics_input canonical_targets canonical_target trim
diagnostics_run = refl

abbrev payload : Payload
payload = record {
  timeout_ms = integer 50;
  targets = (codes "traceroute", integer 12) ∷ (codes "tcp", integer 3) ∷ [];
}

payload_run : client_timeout_ms payload ≡ some 16000
unfolding client_timeout_ms
payload_run = refl

client_timeout_ms-covers_example :
    IsWait (min 30000 (max 100 50)) (take 20 payload.targets) 16000 × (16000 ≤ 315000)
client_timeout_ms-covers_example = client_timeout_ms-covers payload 50 16000 refl payload_run
