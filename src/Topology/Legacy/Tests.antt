-- ===== src/Topology/Legacy/Tests.antt =====
-- Runs of frontend/topology-model.js, `adaptLegacyTopology`, and its theorems at a small report: two attempts of
-- one result, the second of which lacks the middle hop.
use revealnetworktrouble.Prelude.{
  ℕ, ◌≡◌, refl, true, false, none, some, List, [], ◌∷◌, map, String, codes,
}
use revealnetworktrouble.Topology.Legacy.Address.{canonical_ip}
use revealnetworktrouble.Topology.Legacy.Routes.{
  RawNode, RawLink, RawTopology, RawAttempt, RawResult, legacy_routes,
}
use revealnetworktrouble.Topology.Legacy.Routes.{Entry, ordered_entries}
use revealnetworktrouble.Topology.Legacy.Choice.{choose_routes}
use revealnetworktrouble.Topology.Legacy.Choice.Ended.{IsChosen, choose_routes-IsChosen}
use revealnetworktrouble.Topology.Legacy.Model.{LegacyNode, ModelRoute, adapt_legacy_topology}
use revealnetworktrouble.Topology.Legacy.Model.Closed.{IsModel, adapt_legacy_topology-IsModel}

mapped : canonical_ip (codes "::ffff:8.8.4.4") ≡ some (codes "8.8.4.4")
unfolding canonical_ip
mapped = refl

shortened :
    canonical_ip (codes "2001:0DB8:0:0:1:0:0:1%eth0") ≡ some (codes "2001:db8::1:0:0:1%eth0")
unfolding canonical_ip
shortened = refl

abbrev hop : String → ℕ → String → RawNode
hop id n address = record {
  id = codes id;
  hop = n;
  address = codes address;
  status = codes "healthy";
  latency = some n;
  public_ip = false;
  geolocation = none;
  asn = none;
}

abbrev edge : String → String → RawLink
edge from to = record { from = codes from; to = codes to; status = none }

abbrev first_try : RawTopology
first_try = record {
  nodes = hop "c" 2 "8.8.8.8" ∷ hop "a" 0 "" ∷ hop "b" 1 "" ∷ [];
  links = edge "a" "b" ∷ edge "b" "c" ∷ edge "a" "b" ∷ [];
  reached = true;
}

abbrev second_try : RawTopology
second_try = record {
  nodes = hop "a" 0 "" ∷ hop "c" 2 "Example.ORG." ∷ [];
  links = edge "a" "c" ∷ [];
  reached = true;
}

abbrev try_of : ℕ → RawTopology → RawAttempt
try_of n t = record { attempt = n; status = codes "ok"; topology = some t }

abbrev report : List RawResult
report =
    record {
      kind = codes "traceroute";
      address = codes "8.8.8.8";
      status = codes "ok";
      details =
          some
            (record { attempts = try_of 2 second_try ∷ try_of 1 first_try ∷ []; topology = none });
    }
    ∷ []

node_keys :
    map (λ (n : LegacyNode). n.node.address) (adapt_legacy_topology report).nodes
    ≡ codes "local" ∷ [] ∷ codes "example.org" ∷ codes "8.8.8.8" ∷ []
unfolding adapt_legacy_topology
node_keys = refl

route_ids :
    map (λ (r : ModelRoute). r.node_ids) (adapt_legacy_topology report).routes
    ≡ (some (codes "l000001") ∷ some (codes "l000002") ∷ some (codes "l000004") ∷ [])
      ∷ (some (codes "l000001") ∷ some (codes "l000003") ∷ [])
      ∷ []
unfolding adapt_legacy_topology
route_ids = refl

choose_routes-IsChosen_example :
    IsChosen (legacy_routes report) (choose_routes (legacy_routes report))
choose_routes-IsChosen_example = choose_routes-IsChosen (legacy_routes report)

adapt_legacy_topology-IsModel_example : IsModel (adapt_legacy_topology report)
adapt_legacy_topology-IsModel_example = adapt_legacy_topology-IsModel report

abbrev entries : List Entry
entries = ordered_entries first_try.nodes

abbrev start : Entry
start = (hop "a" 0 "", 1)
