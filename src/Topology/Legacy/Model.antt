-- ===== src/Topology/Legacy/Model.antt =====
-- frontend/topology-model.js, the rest of `adaptLegacyTopology`: the model that is made of the accepted parts of
-- the routes.
pub mod Sums
pub mod Links
pub mod Identities
pub mod Closed
use revealnetworktrouble.Prelude.{
  [], to_radix_from, ℕ, ◌+◌, ◌-◌, Bool, ◌&&◌, ◌||◌, Option, none, some, List, ◌∷◌, ◌++◌, map,
  String, ltb, ◌==◌, if◌then◌else◌, length, is_nil, replicate, keep, Text, codes, text_eq, to_radix,
}
use revealnetworktrouble.Topology.Legacy.Sums.{
  NodeSum, LinkSum, accepted_observations, node_sums, link_sums,
}
use revealnetworktrouble.Topology.Data.{Node, has, pair_key}
use revealnetworktrouble.Topology.Legacy.Routes.{RawResult, LegacyRoute, legacy_routes}
use revealnetworktrouble.Topology.Legacy.Choice.{
  Progress, Group, Chosen, keys_of, step_keys, put_key, choose_routes,
}

-- A route is shown with an accepted step, or with its only node.
abbrev pub is_chosen : List Text → Progress → Bool
is_chosen keys p = ltb 0 p.accepted || is_nil p.route.steps && has p.route.first.key keys

abbrev pub all_routes : List Group → List Progress
all_routes [] = []
all_routes (g ∷ gs) = g.routes ++ all_routes gs

abbrev pub find_sum : Text → List NodeSum → Option NodeSum
find_sum key [] = none
find_sum key (a ∷ sums) =
    let later = find_sum key sums in if text_eq key a.key then some a else later

abbrev pub pad_start : ℕ → Text → Text
pad_start width t = replicate (width - length t) b'0' ++ t

unfoldable pub legacy_id : ℕ → Text
unfolding to_radix_from
legacy_id index = b'l' ∷ pad_start 6 (to_radix 10 (index + 1))

pub record LegacyNode : Type 0 where
  pub node : Node
  pub observations : ℕ
  pub latency : Option (ℕ × ℕ)

-- An identity that is not there is `none`.
pub record LegacyLink : Type 0 where
  pub from : Option Text
  pub to : Option Text
  pub status : Text
  pub observations : ℕ

pub record ModelRoute : Type 0 where
  pub result_index : ℕ
  pub attempt : ℕ
  pub address : Text
  pub status : Text
  pub reached : Bool
  pub complete : Bool
  pub node_ids : List (Option Text)

pub record Count : Type 0 where
  pub total : ℕ
  pub displayed : ℕ
  pub omitted : ℕ

pub record LegacyModel : Type 0 where
  pub nodes : List LegacyNode
  pub links : List LegacyLink
  pub routes : List ModelRoute
  pub truncated : Bool
  pub reasons : List Text
  pub node_count : Count
  pub link_count : Count
  pub route_count : Count

-- `aggregate.status || 'unknown'`
abbrev pub or_unknown : Text → Text
or_unknown [] = codes "unknown"
or_unknown (c ∷ t) = c ∷ t

abbrev pub node_of : ℕ → NodeSum → LegacyNode
unfolding legacy_id
node_of index a = record {
  node = record {
    id = legacy_id index;
    kind = a.kind;
    address = a.address;
    status = or_unknown a.status;
    public_ip = a.public_ip;
    place = a.geolocation;
    asn = a.asn;
    hop_min = some a.hop_min;
    hop_max = some a.hop_max;
  };
  observations = a.observations;
  latency = if a.latency_count == 0 then none else some (a.latency_total, a.latency_count);
}

-- The nodes in the order in which they were chosen; a key that no shown route has is left out.
unfoldable pub nodes_from : ℕ → List Text → List NodeSum → List LegacyNode
unfolding node_of
nodes_from index [] sums = []
nodes_from index (k ∷ ks) sums =
    let skipped = nodes_from index ks sums in
    elim (find_sum k sums) [
      | none ↦ skipped
      | some a ↦ node_of index a ∷ nodes_from (index + 1) ks sums
    ]

-- `ids.get(key)`
unfoldable pub id_of : ℕ → Text → List Text → List NodeSum → Option Text
unfolding legacy_id
id_of index key [] sums = none
id_of index key (k ∷ ks) sums =
    let skipped = id_of index key ks sums in
    let later = id_of (index + 1) key ks sums in
    elim (find_sum k sums) [
      | none ↦ skipped
      | some a ↦ if text_eq key k then some (legacy_id index) else later
    ]

abbrev pub link_of : List Text → List NodeSum → LinkSum → LegacyLink
unfolding id_of
link_of keys sums l = record {
  from = id_of 0 l.from keys sums;
  to = id_of 0 l.to keys sums;
  status = or_unknown l.status;
  observations = l.observations;
}

abbrev pub route_of : List Text → List NodeSum → Progress → ModelRoute
unfolding id_of
route_of keys sums p = record {
  result_index = p.route.result_index;
  attempt = p.route.attempt;
  address = p.route.address;
  status = p.route.status;
  reached = p.route.reached;
  complete = p.route.complete && p.accepted == length p.route.steps;
  node_ids = map (λ o. id_of 0 o.key keys sums) (accepted_observations p);
}

-- The keys of all nodes and links, each once.
abbrev pub put_keys : List Text → List Text → List Text
put_keys [] keys = keys
put_keys (k ∷ ks) keys = put_keys ks (put_key k keys)

abbrev pub put_pairs : Text → List Text → List Text → List Text
put_pairs from [] keys = keys
put_pairs from (to ∷ ks) keys =
    put_pairs to ks (if text_eq from to then keys else put_key (pair_key from to) keys)

unfoldable pub all_node_keys : List LegacyRoute → List Text → List Text
all_node_keys [] keys = keys
all_node_keys (r ∷ rs) keys = all_node_keys rs (put_keys (keys_of r) keys)

unfoldable pub all_link_keys : List LegacyRoute → List Text → List Text
all_link_keys [] keys = keys
all_link_keys (r ∷ rs) keys = all_link_keys rs (put_pairs r.first.key (step_keys r.steps) keys)

-- What is omitted is a difference, which stops at 0 here.
abbrev pub count_of : ℕ → ℕ → Count
count_of total displayed = record {
  total = total;
  displayed = displayed;
  omitted = total - displayed;
}

abbrev pub reason : Bool → String → List Text
reason b s = if b then codes s ∷ [] else []

unfoldable pub model_of : List LegacyRoute → Chosen → List Progress → LegacyModel
unfolding nodes_from node_sums link_sums all_node_keys all_link_keys link_of route_of
model_of raw c chosen =
    let sums = node_sums chosen [] in
    let nodes = nodes_from 0 c.nodes sums in
    let links = map (link_of c.nodes sums) (link_sums chosen []) in
    let routes = map (route_of c.nodes sums) chosen in
    record {
      nodes = nodes;
      links = links;
      routes = routes;
      truncated = c.node_limited || c.link_limited;
      reasons = reason c.node_limited "node_limit" ++ reason c.link_limited "link_limit";
      node_count = count_of (length (all_node_keys raw [])) (length nodes);
      link_count = count_of (length (all_link_keys raw [])) (length links);
      route_count = count_of (length raw) (length routes);
    }

-- The routes of a report come in the order of their results, as the groups do.
unfoldable pub adapt_legacy_topology : List RawResult → LegacyModel
unfolding legacy_routes choose_routes model_of
adapt_legacy_topology report =
    let raw = legacy_routes report in
    let (c, gs) = choose_routes raw in model_of raw c (keep (is_chosen c.nodes) (all_routes gs))
