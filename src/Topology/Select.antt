-- ===== src/Topology/Select.antt =====
-- frontend/topology-model.js, `planTopologyDOM`: which nodes, links and routes are selected.
use revealnetworktrouble.Prelude.{
  [], ℕ, zero, suc, ◌+◌, ◌-◌, Bool, true, false, ◌&&◌, ◌||◌, Option, none, some, List, ◌∷◌, ◌++◌,
  ltb, leb, ◌==◌, if◌then◌else◌, length, is_nil, get_elem?, Text,
}
pub mod Invariant
pub mod Correct
pub mod Prefixes
pub mod Extend
pub mod Steps
use revealnetworktrouble.Topology.Data.{
  Node, Link, Route, Place, pair_key, has, find_node, find_link, has_geo, data_node_limit,
  data_link_limit,
}

-- The data of the plan; `budget` is `none` when the view is not the topology (an infinite budget).
pub record Input : Type 0 where
  pub nodes : List Node
  pub links : List Link
  pub routes : List Route
  pub budget : Option ℕ

pub record Marker : Type 0 where
  pub node_id : Text
  pub place : Place

-- A route as far as it has been planned, with `cursor` and `blocked`.
pub record RouteState : Type 0 where
  pub route : Route
  pub node_ids : List Text
  pub complete : Bool
  pub cursor : ℕ
  pub blocked : Bool

-- What the loops change.
pub record Plan : Type 0 where
  pub node_ids : List Text
  pub link_keys : List Text
  pub nodes : List (Option Node)
  pub links : List Link
  pub markers : List Marker
  pub segments : List (Text × Text)
  pub route_count : ℕ
  pub cost : ℕ
  pub missing_link : Bool

abbrev pub empty_plan : Plan
empty_plan = record {
  node_ids = [];
  link_keys = [];
  nodes = [];
  links = [];
  markers = [];
  segments = [];
  route_count = 0;
  cost = 0;
  missing_link = false;
}

abbrev pub can_add : Input → ℕ → Plan → Bool
can_add input cost p = elim input.budget [ none ↦ true | some b ↦ leb (p.cost + cost) b ]

abbrev pub marker_of : Text → Option Node → Option Marker
marker_of id none = none
marker_of id (some n) = elim n.place [
  | none ↦ none
  | some at ↦ if n.public_ip then some (record { node_id = id; place = at }) else none
]

abbrev pub put_marker : Option Marker → List Marker → List Marker
put_marker none ms = ms
put_marker (some m) ms = if ltb (length ms) data_node_limit then ms ++ m ∷ [] else ms

-- `DOM_COSTS.topology.node`, `.link` and `.route` are 1 each.
unfoldable pub add_node : Input → Text → Plan → Plan
add_node input id p =
    let node = find_node id input.nodes in
    if has id p.node_ids then p else record p {
      node_ids = id ∷ p.node_ids;
      nodes = p.nodes ++ node ∷ [];
      cost = p.cost + 1;
      markers = put_marker (marker_of id node) p.markers;
    }

abbrev pub put_link : Text → Plan → Option Link → Plan
put_link key p none = p
put_link key p (some l) = record p {
  link_keys = key ∷ p.link_keys;
  links = p.links ++ l ∷ [];
  cost = p.cost + 1;
}

unfoldable pub add_link : Input → Text → Text → Plan → Plan
add_link input from to p =
    let key = pair_key from to in
    if has key p.link_keys then p else put_link key p (find_link key input.links)

abbrev pub one_unless : Bool → ℕ
one_unless b = if b then 0 else 1

-- The first loop, for a route whose first node is `id`.
unfoldable pub open_route : Input → Route → Text → Plan → Plan × List RouteState
unfolding add_node
open_route input r id p =
    let cost = 1 + one_unless (has id p.node_ids) in
    let q = add_node input id p in
    if can_add input cost p
    then (
      record q { route_count = q.route_count + 1; cost = q.cost + 1 },
      record {
        route = r;
        node_ids = id ∷ [];
        complete = r.complete && length r.node_ids == 1;
        cursor = 1;
        blocked = false;
      }
          ∷ [],
    )
    else (p, [])

-- A route without nodes does not reach this loop.
abbrev pub open_first : Input → Route → List Text → Plan → Plan × List RouteState
open_first input r [] p = (p, [])
open_first input r (id ∷ ids) p = open_route input r id p

unfoldable pub open_routes : Input → List Route → Plan → Plan × List RouteState
unfolding open_route
open_routes input [] p = (p, [])
open_routes input (r ∷ rs) p =
    let (q, here) = open_first input r r.node_ids p in
    let (s, later) = open_routes input rs q in (s, here ++ later)

abbrev pub put_segment : Bool → Text → Text → Plan → Plan
put_segment true from to p = record p { segments = p.segments ++ (from, to) ∷ [] }
put_segment false from to p = p

-- The step of one route from `from` to `to`: whether it progressed.
unfoldable pub extend : Input → Text → Text → Plan → RouteState → Plan × RouteState × Bool
unfolding add_node add_link
extend input from to p s =
    let key = pair_key from to in
    let geo_edge =
      has_geo (find_node from input.nodes)
      && has_geo (find_node to input.nodes)
      && ltb (length p.segments) data_link_limit in
    let cost = one_unless (has to p.node_ids) + one_unless (has key p.link_keys) in
    let q = add_link input from to (add_node input to p) in
    let blocked = record s { blocked = true } in
    elim (find_link key input.links) [
      | none ↦ (record p { missing_link = true }, blocked, false)
      | some l ↦
          if can_add input cost p
          then (
            put_segment (geo_edge && has key q.link_keys) from to q,
            record s {
              node_ids = s.node_ids ++ to ∷ [];
              cursor = s.cursor + 1;
              complete = s.route.complete && s.cursor + 1 == length s.route.node_ids;
            },
            true,
          )
          else (p, blocked, false)
    ]

abbrev pub extend_between :
    Input → Option Text → Option Text → Plan → RouteState → Plan × RouteState × Bool
extend_between input (some from) (some to) p s = extend input from to p s
extend_between input _ _ p s = (p, s, false)

-- The body of the second loop for one route; behind the last node there is no `to`.
unfoldable pub step_route : Input → Plan → RouteState → Plan × RouteState × Bool
unfolding extend
step_route input p s =
    let moved =
      extend_between input (get_elem? s.route.node_ids (s.cursor - 1))
        (get_elem? s.route.node_ids s.cursor) p s in
    if s.blocked then (p, s, false) else moved

-- One round over all routes.
unfoldable pub pass : Input → Plan → List RouteState → Plan × List RouteState × Bool
unfolding step_route
pass input p [] = (p, [], false)
pass input p (s ∷ ss) =
    let (q, t, here) = step_route input p s in
    let (r, ts, later) = pass input q ss in (r, t ∷ ts, here || later)

-- Rounds until one does not progress.
unfoldable pub extend_routes : ℕ → Input → Plan → List RouteState → Plan × List RouteState
unfolding pass
extend_routes zero input p ss = (p, ss)
extend_routes (suc fuel) input p ss =
    let (q, ts, progressed) = pass input p ss in
    let later = extend_routes fuel input q ts in if progressed then later else (q, ts)

-- The steps that are left, so that one round more is enough.
abbrev pub steps_left : List RouteState → ℕ
steps_left [] = 0
steps_left (s ∷ ss) = (length s.route.node_ids - s.cursor) + steps_left ss

-- Without routes: nodes until one does not fit, then every link that joins two of them and fits.
unfoldable pub add_nodes : Input → List Node → Plan → Plan
unfolding add_node
add_nodes input [] p = p
add_nodes input (n ∷ ns) p =
    let later = add_nodes input ns (add_node input n.id p) in if can_add input 1 p then later else p

unfoldable pub add_links : Input → List Link → Plan → Plan
unfolding add_link
add_links input [] p = p
add_links input (l ∷ ls) p =
    let fits = has l.from p.node_ids && has l.to p.node_ids && can_add input 1 p in
    add_links input ls (if fits then add_link input l.from l.to p else p)

unfoldable pub select : Input → List Route → Plan × List RouteState
unfolding open_routes extend_routes add_nodes add_links
select input ordered =
    let (p, opened) = open_routes input ordered empty_plan in
    let (q, states) = extend_routes (steps_left opened + 1) input p opened in
    if is_nil input.routes
    then (add_links input input.links (add_nodes input input.nodes q), states)
    else (q, states)
