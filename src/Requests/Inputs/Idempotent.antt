-- ===== src/Requests/Inputs/Idempotent.antt =====
-- frontend/state.js, `canonicalTopologyInput`: the canonical form of a canonical input is the input itself,
-- as `inputSignature` needs, which makes it again.
use revealnetworktrouble.Prelude.{◌≤◌, ◌≡◌, Option, some, List, length, Text}
use revealnetworktrouble.Requests.Inputs.{integer, RawTopology, TopologyInput, canonical_addresses}

-- A canonical input, handed in as a raw one.
abbrev pub as_raw : TopologyInput → RawTopology
as_raw c = record {
  api_base = c.api_base;
  addresses = c.addresses;
  attempts = integer c.attempts;
  timeout_ms = integer c.timeout_ms;
  auth_enabled = c.auth_enabled;
}

record IsAgain (seen raws out : List Text) : Type 0 where
  again : canonical_addresses seen out ≡ some out
  shorter : length out ≤ length raws
