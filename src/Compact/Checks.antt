-- ===== src/Compact/Checks.antt =====
-- frontend/state.js, `normalizeCompactTopology`: the checks on routes, counts and reasons, and the whole.
use revealnetworktrouble.Prelude.{
  ℕ, ◌+◌, ◌-◌, Bool, true, false, not, ◌&&◌, ◌||◌, Option, none, some, List, ◌∷◌, map, leb, ◌==◌,
  if◌then◌else◌, length, is_nil, get_elem?, all, any, keep, Text, codes, text_eq,
}
use revealnetworktrouble.Topology.Data.{has}
use revealnetworktrouble.Compact.{
  [], Count, RouteCount, CompactNode, CompactRoute, Stats, ResultStats, GeoCounts, CompactTopology,
  ResultInfo, between, is_one_of, count_ok, route_count_ok, max_routes, is_public, node_ok,
  all_distinct, link_ok, link_keys, steps_ok, reference_ok, is_text,
}

abbrev pub known_ids : List Text → List Text → Bool
known_ids ids ts = all (λ t. has t ids) ts

abbrev pub same_bool : Bool → Bool → Bool
same_bool true b = b
same_bool false b = not b

unfoldable pub route_ok : Option (List ResultInfo) → List Text → List Text → CompactRoute → Bool
unfolding steps_ok
route_ok results ids keys r =
    between 1 32 (length r.node_ids)
    && all is_text r.node_ids
    && known_ids ids r.node_ids
    && steps_ok keys r.node_ids
    && leb r.result_index 19
    && reference_ok results r
    && between 1 10 r.attempt
    && is_one_of ("healthy" ∷ "degraded" ∷ "unreachable" ∷ []) r.status
    && same_bool r.reached (not (text_eq r.status (codes "unreachable")))

-- `list.filter(…).length` and `list.reduce((total, item) => total + …, 0)`
abbrev pub count_if {ℓ} : {A : Type ℓ} → (A → Bool) → List A → ℕ
count_if p xs = length (keep p xs)

abbrev pub sum_of {ℓ} : {A : Type ℓ} → (A → ℕ) → List A → ℕ
sum_of f [] = 0
sum_of f (x ∷ xs) = f x + sum_of f xs

abbrev pub is_partial : CompactRoute → Bool
is_partial r = not r.complete

unfoldable pub stats_ok : CompactTopology → Bool
unfolding count_ok route_count_ok
stats_ok t =
    count_ok 8192 t.stats.nodes
    && count_ok 16384 t.stats.links
    && route_count_ok t.stats.routes
    && count_ok 8192 t.stats.node_observations
    && count_ok 16384 t.stats.link_observations
    && t.stats.nodes.displayed == length t.nodes
    && t.stats.links.displayed == length t.links
    && t.stats.routes.displayed == length t.routes
    && t.stats.routes.complete == count_if (λ r. r.complete) t.routes
    && t.stats.routes.partial == count_if is_partial t.routes
    && t.stats.link_observations.displayed == sum_of (λ l. l.observations) t.links

unfoldable pub result_stats_ok : ResultStats → Bool
unfolding count_ok route_count_ok
result_stats_ok s =
    leb s.result_index 19
    && route_count_ok s.routes
    && count_ok 8192 s.node_observations
    && count_ok 16384 s.link_observations

abbrev pub has_index : ℕ → List ResultStats → Bool
has_index i ss = any (λ s. i == s.result_index) ss

unfoldable pub indexes_distinct : List ResultStats → Bool
indexes_distinct [] = true
indexes_distinct (s ∷ ss) = not (has_index s.result_index ss) && indexes_distinct ss

abbrev pub is_zero_count : Count → Bool
is_zero_count c = c.total == 0 && c.displayed == 0 && c.omitted == 0

abbrev pub is_zero_route_count : RouteCount → Bool
is_zero_route_count c =
    c.total == 0 && c.displayed == 0 && c.complete == 0 && c.partial == 0 && c.omitted == 0

abbrev pub is_zero_stats : ResultStats → Bool
is_zero_stats s =
    is_zero_route_count s.routes
    && is_zero_count s.node_observations
    && is_zero_count s.link_observations

abbrev pub result_known : Option (List ResultInfo) → ResultStats → Bool
result_known none s = true
result_known (some results) s = elim (get_elem? results s.result_index) [
  | none ↦ false
  | some info ↦ info.is_traceroute || is_zero_stats s
]

abbrev pub sums_to : (ResultStats → Count) → List ResultStats → Count → Bool
sums_to f ss c =
    sum_of (λ s. (f s).total) ss == c.total
    && sum_of (λ s. (f s).displayed) ss == c.displayed
    && sum_of (λ s. (f s).omitted) ss == c.omitted

unfoldable pub sums_ok : List ResultStats → Stats → Bool
sums_ok ss stats =
    sum_of (λ s. s.routes.total) ss == stats.routes.total
    && sum_of (λ s. s.routes.displayed) ss == stats.routes.displayed
    && sum_of (λ s. s.routes.complete) ss == stats.routes.complete
    && sum_of (λ s. s.routes.partial) ss == stats.routes.partial
    && sum_of (λ s. s.routes.omitted) ss == stats.routes.omitted
    && sums_to (λ s. s.node_observations) ss stats.node_observations
    && sums_to (λ s. s.link_observations) ss stats.link_observations

-- The routes of one result.
abbrev pub routes_of : ℕ → List CompactRoute → List CompactRoute
routes_of i rs = keep (λ r. r.result_index == i) rs

unfoldable pub result_counts_ok : List CompactRoute → ResultStats → Bool
result_counts_ok routes s =
    let own = routes_of s.result_index routes in
    s.routes.displayed == length own
    && s.routes.complete == count_if (λ r. r.complete) own
    && s.routes.partial == count_if is_partial own
    && s.node_observations.displayed == sum_of (λ r. length r.node_ids) own
    && s.link_observations.displayed == sum_of (λ r. length r.node_ids - 1) own

abbrev pub has_metadata : CompactNode → Bool
has_metadata n = is_public n && (n.has_geolocation || n.has_asn)

unfoldable pub geo_ok : List CompactNode → GeoCounts → Bool
geo_ok nodes g =
    leb g.eligible 500
    && leb g.available 500
    && leb g.included 500
    && leb g.omitted 500
    && leb g.unavailable 500
    && g.eligible == count_if is_public nodes
    && g.eligible == g.available + g.unavailable
    && g.available == g.included + g.omitted
    && g.included == count_if has_metadata nodes

-- `COMPACT_TRUNCATION_REASONS.indexOf`
abbrev pub reason_rank : Text → Option ℕ
reason_rank t =
    if text_eq t (codes "node_limit")
    then some 0
    else if text_eq t (codes "link_limit")
    then some 1
    else if text_eq t (codes "response_size")
    then some 2
    else if text_eq t (codes "geo_metadata_limit")
    then some 3
    else none

-- Known reasons, once each and in their order.
unfoldable pub reasons_from : ℕ → List Text → Bool
reasons_from low [] = true
reasons_from low (t ∷ ts) = elim (reason_rank t) [
  | none ↦ false
  | some n ↦ leb low n && reasons_from (n + 1) ts
]

abbrev pub reasons_ok : Bool → Option (List Text) → Bool
reasons_ok truncated none = not truncated
reasons_ok truncated (some ts) = not (is_nil ts) && reasons_from 0 ts && truncated

unfoldable pub accepts : Option (List ResultInfo) → CompactTopology → Bool
accepts results t =
    let ids = map (λ n. n.id) t.nodes in
    let keys = link_keys t.links in
    leb (length t.nodes) 500
    && all node_ok t.nodes
    && all_distinct ids
    && leb (length t.links) 1000
    && all (link_ok ids) t.links
    && all_distinct keys
    && leb (length t.routes) max_routes
    && all (route_ok results ids keys) t.routes
    && stats_ok t
    && leb (length t.result_stats) 20
    && all result_stats_ok t.result_stats
    && indexes_distinct t.result_stats
    && all (result_known results) t.result_stats
    && sums_ok t.result_stats t.stats
    && all (result_counts_ok t.routes) t.result_stats
    && geo_ok t.nodes t.geo
    && reasons_ok t.truncated t.truncation_reasons

-- The values are handed on as they are.
abbrev pub normalize_compact_topology :
    Option (List ResultInfo) → CompactTopology → Option CompactTopology
normalize_compact_topology results t = if accepts results t then some t else none
