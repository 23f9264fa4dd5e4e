-- ===== src/Topology/Legacy/Sums.antt =====
-- frontend/topology-model.js, `worstStatus` and the sums of `adaptLegacyTopology`: the accepted observations and edges, put together.
use revealnetworktrouble.Prelude.{
  ℕ, ◌+◌, min, max, Bool, false, ◌&&◌, ◌||◌, Option, none, some, List, [], ◌∷◌, map, ltb,
  if◌then◌else◌, or_else, is_nil, take, any, Text, codes, text_eq,
}
use revealnetworktrouble.Topology.Data.{Place, NodeKind, pair_key}
use revealnetworktrouble.Topology.Legacy.Routes.{RawNode, Observation}
use revealnetworktrouble.Topology.Legacy.Choice.{Progress}

-- `STATUS_RANK`, for a status that is normalized.
abbrev pub rank : Text → ℕ
rank s =
    if text_eq s (codes "healthy")
    then 0
    else if text_eq s (codes "degraded")
    then 1
    else if text_eq s (codes "unknown")
    then 2
    else 3

abbrev pub normal_status : Text → Text
normal_status s =
    if text_eq s (codes "unreachable")
    then codes "failure"
    else if any (text_eq s)
        (codes "healthy" ∷ codes "degraded" ∷ codes "unknown" ∷ codes "failure" ∷ [])
    then s
    else codes "unknown"

unfoldable pub worst_status : Text → Text → Text
worst_status left right =
    if is_nil left || ltb (rank left) (rank (normal_status right))
    then normal_status right
    else left

-- The observations of a key together; the latencies are a sum and a count.
pub record NodeSum : Type 0 where
  pub key : Text
  pub kind : NodeKind
  pub address : Text
  pub status : Text
  pub hop_min : ℕ
  pub hop_max : ℕ
  pub observations : ℕ
  pub latency_total : ℕ
  pub latency_count : ℕ
  pub public_ip : Bool
  pub geolocation : Option Place
  pub asn : Option ℕ

pub record LinkSum : Type 0 where
  pub key : Text
  pub from : Text
  pub to : Text
  pub status : Text
  pub observations : ℕ

-- The latency of an observation that counts.
abbrev pub counted_latency : RawNode → Option ℕ
counted_latency n =
    if ltb 0 n.hop && (text_eq n.status (codes "healthy") || text_eq n.status (codes "degraded"))
    then n.latency
    else none

abbrev pub latency_or : Option ℕ → ℕ
latency_or none = 0
latency_or (some l) = l

abbrev pub one_if : Option ℕ → ℕ
one_if none = 0
one_if (some l) = 1

unfoldable pub sum_with : Observation → NodeSum → NodeSum
unfolding worst_status
sum_with o a = record a {
  status = worst_status a.status o.node.status;
  hop_min = min a.hop_min o.node.hop;
  hop_max = max a.hop_max o.node.hop;
  observations = a.observations + 1;
  latency_total = a.latency_total + latency_or (counted_latency o.node);
  latency_count = a.latency_count + one_if (counted_latency o.node);
  public_ip = a.public_ip || o.node.public_ip;
  geolocation = or_else a.geolocation o.node.geolocation;
  asn = or_else a.asn o.node.asn;
}

abbrev pub empty_sum : Observation → NodeSum
empty_sum o = record {
  key = o.key;
  kind = o.kind;
  address = o.address;
  status = [];
  hop_min = o.node.hop;
  hop_max = o.node.hop;
  observations = 0;
  latency_total = 0;
  latency_count = 0;
  public_ip = false;
  geolocation = none;
  asn = none;
}

unfoldable pub put_observation : Observation → List NodeSum → List NodeSum
unfolding sum_with
put_observation o [] = sum_with o (empty_sum o) ∷ []
put_observation o (a ∷ sums) =
    let later = put_observation o sums in
    if text_eq o.key a.key then sum_with o a ∷ sums else a ∷ later

unfoldable pub sum_link : Text → LinkSum → LinkSum
unfolding worst_status
sum_link status a = record a {
  status = worst_status a.status status;
  observations = a.observations + 1;
}

unfoldable pub put_edge : Text → Text → Text → List LinkSum → List LinkSum
unfolding sum_link
put_edge from to status [] =
    let empty : LinkSum = record {
      key = pair_key from to;
      from = from;
      to = to;
      status = [];
      observations = 0;
    } in
    sum_link status empty ∷ []
put_edge from to status (a ∷ sums) =
    let later = put_edge from to status sums in
    if text_eq (pair_key from to) a.key then sum_link status a ∷ sums else a ∷ later

-- The observations of the accepted part.
abbrev pub accepted_observations : Progress → List Observation
accepted_observations p = p.route.first ∷ map (λ s. s.1) (take p.accepted p.route.steps)

unfoldable pub put_observations : List Observation → List NodeSum → List NodeSum
unfolding put_observation
put_observations [] sums = sums
put_observations (o ∷ os) sums = put_observations os (put_observation o sums)

unfoldable pub put_edges : Text → List (Text × Observation) → List LinkSum → List LinkSum
unfolding put_edge
put_edges from [] sums = sums
put_edges from ((status, o) ∷ ss) sums =
    put_edges o.key ss (if text_eq from o.key then sums else put_edge from o.key status sums)

unfoldable pub node_sums : List Progress → List NodeSum → List NodeSum
unfolding put_observations
node_sums [] sums = sums
node_sums (p ∷ ps) sums = node_sums ps (put_observations (accepted_observations p) sums)

unfoldable pub link_sums : List Progress → List LinkSum → List LinkSum
unfolding put_edges
link_sums [] sums = sums
link_sums (p ∷ ps) sums =
    link_sums ps (put_edges p.route.first.key (take p.accepted p.route.steps) sums)
