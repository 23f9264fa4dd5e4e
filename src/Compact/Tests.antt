-- ===== src/Compact/Tests.antt =====
-- frontend/state.js, `normalizeCompactTopology` on small topologies: one that agrees, and what spoils it.
use revealnetworktrouble.Prelude.{
  ℕ, ◌+◌, ◌≡◌, refl, true, false, none, some, [], ◌∷◌, map, String, codes,
}
use revealnetworktrouble.Compact.{
  Count, RouteCount, CompactNode, CompactTopology, node_ok, all_distinct, link_ok, steps_ok,
  count_ok, route_count_ok,
}
use revealnetworktrouble.Compact.Checks.{
  accepts, normalize_compact_topology, route_ok, stats_ok, result_stats_ok, indexes_distinct,
  sums_ok, result_counts_ok, geo_ok, reasons_from,
}
use revealnetworktrouble.Compact.Consistent.{IsCounted, normalize_compact_topology-IsCounted}

abbrev node : String → CompactNode
node id = record {
  id = codes id;
  kind = codes "ip";
  status = codes "healthy";
  hop_min = 1;
  hop_max = 2;
  observations = 1;
  address = none;
  public_ip = none;
  has_geolocation = false;
  has_asn = false;
}

abbrev shown : ℕ → Count
shown n = record { total = n + 1; displayed = n; omitted = 1 }

abbrev shown_routes : RouteCount
shown_routes = record { total = 2; displayed = 1; complete = 1; partial = 0; omitted = 1 }

abbrev small : CompactTopology
small = record {
  nodes = node "a" ∷ node "b" ∷ [];
  links =
      record { from = codes "a"; to = codes "b"; status = codes "healthy"; observations = 1 } ∷ [];
  routes =
      record {
        result_index = 3;
        attempt = 2;
        status = codes "healthy";
        reached = true;
        complete = true;
        node_ids = codes "a" ∷ codes "b" ∷ [];
      }
      ∷ [];
  stats = record {
    nodes = shown 2;
    links = shown 1;
    routes = shown_routes;
    node_observations = shown 2;
    link_observations = shown 1;
  };
  result_stats =
      record {
        result_index = 3;
        routes = shown_routes;
        node_observations = shown 2;
        link_observations = shown 1;
      }
      ∷ [];
  geo = record { eligible = 0; available = 0; included = 0; omitted = 0; unavailable = 0 };
  truncated = true;
  truncation_reasons = some (codes "node_limit" ∷ codes "response_size" ∷ []);
}

-- The last ones: a wrong sum, reasons out of order, a step back without a link, a result twice.
verdicts :
    map (accepts none) (
      small
      ∷ record small { result_stats = [] }
      ∷ record small { truncation_reasons = some (codes "response_size" ∷ codes "node_limit" ∷ []) }
      ∷ record small { links = [] }
      ∷ record small { nodes = node "a" ∷ node "a" ∷ [] }
      ∷ [])
    ≡ true ∷ false ∷ false ∷ false ∷ false ∷ []
unfolding accepts node_ok all_distinct link_ok steps_ok route_ok stats_ok result_stats_ok count_ok
    route_count_ok indexes_distinct sums_ok result_counts_ok geo_ok reasons_from
verdicts = refl

accepted : normalize_compact_topology none small ≡ some small
unfolding accepts node_ok all_distinct link_ok steps_ok route_ok stats_ok result_stats_ok count_ok
    route_count_ok indexes_distinct sums_ok result_counts_ok geo_ok reasons_from
accepted = refl

normalize_compact_topology-IsCounted_example : IsCounted small
normalize_compact_topology-IsCounted_example =
    normalize_compact_topology-IsCounted none small small accepted
