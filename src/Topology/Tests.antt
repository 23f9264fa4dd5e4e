-- ===== src/Topology/Tests.antt =====
-- Runs of frontend/topology-model.js and frontend/topology-presentation.js, and their theorems at concrete
-- inputs: two routes that share their first hop, one of them with a hop that does not answer.
use revealnetworktrouble.Prelude.{
  ℕ, ◌+◌, ◌≤◌, ◌≡◌, refl, true, false, none, some, List, [], ◌∷◌, map, arith, String, length, All,
  codes, ◌==◌,
}
use revealnetworktrouble.Topology.Data.{
  Node, NodeKind, ip, unknown, Link, Route, data_nodes, data_links,
}
use revealnetworktrouble.Topology.RouteOrder.{fair_route_order}
use revealnetworktrouble.Topology.View.{Model, filter_topology_model}
use revealnetworktrouble.Topology.RouteOrder.Fair.{count_if, fair_route_order-count}
use revealnetworktrouble.Topology.Select.{Input, RouteState, select}
use revealnetworktrouble.Topology.Select.Correct.{IsSelected, select-IsSelected}
use revealnetworktrouble.Topology.Present.Cut.{Presented, Kept, present}
use revealnetworktrouble.Topology.Present.Bounded.{element_count}
use revealnetworktrouble.Topology.Present.Kept.{IsKept, present-IsKept}
use revealnetworktrouble.Topology.Mount.{Options, topology, DomPlan, Content, plan_dom, chunks_from}
use revealnetworktrouble.Topology.Mount.Chunks.{flatten, IsChunk, chunks_from-IsChunked}
use revealnetworktrouble.Topology.Mount.Within.{IsWithin, plan_dom-IsWithin}
use revealnetworktrouble.Topology.Plan.Result.{IsPlanOf, plan_topology-IsWithin}
use revealnetworktrouble.Topology.Plan.{plan_topology, plan_input}

abbrev node : String → NodeKind → Node
node id kind = record {
  id = codes id;
  kind = kind;
  address = codes id;
  status = codes "healthy";
  public_ip = false;
  place = none;
  asn = none;
  hop_min = none;
  hop_max = none;
}

abbrev link : String → String → Link
link from to = record {
  from = codes from;
  to = codes to;
  status = codes "healthy";
  observations = 1;
}

abbrev route : ℕ → ℕ → List String → Route
route result attempt ids = record {
  result_index = result;
  attempt = attempt;
  order = 0;
  address = codes "t";
  status = codes "healthy";
  reached = true;
  complete = true;
  node_ids = map (λ (s : String). codes s) ids;
}

abbrev nodes : List Node
nodes = node "a" ip ∷ node "u" unknown ∷ node "b" ip ∷ node "c" ip ∷ node "a" ip ∷ []

abbrev links : List Link
links = link "a" "u" ∷ link "u" "b" ∷ link "a" "c" ∷ link "x" "a" ∷ []

abbrev routes : List Route
routes =
    route 1 2 ("a" ∷ "c" ∷ [])
    ∷ route 0 1 ("a" ∷ "u" ∷ "b" ∷ [])
    ∷ route 1 1 ("a" ∷ "c" ∷ [])
    ∷ route 0 2 ("z" ∷ [])
    ∷ []

abbrev options : Options
options = record {
  view = topology;
  existing_elements = some 10;
  available_elements = some 189;
  chunk_elements = some 5;
}

abbrev input : Input
input = plan_input options nodes links routes

in_turn :
    map (λ (r : Route). r.result_index ∷ r.attempt ∷ []) (fair_route_order input.routes)
    ≡ (0 ∷ 1 ∷ []) ∷ (1 ∷ 1 ∷ []) ∷ (1 ∷ 2 ∷ []) ∷ []
unfolding fair_route_order data_nodes
in_turn = refl

-- The budget of six elements has room for the three routes, their first node and one hop.
selected :
    map (λ (s : RouteState). s.cursor) (select input (fair_route_order input.routes)).1
    ≡ 2 ∷ 1 ∷ 1 ∷ []
unfolding fair_route_order data_nodes select data_links
selected = refl

select-IsSelected_example : IsSelected input (select input (fair_route_order input.routes))
select-IsSelected_example = select-IsSelected input (fair_route_order input.routes)

abbrev shown_plan : DomPlan
shown_plan = elim (plan_topology options true [] nodes links routes) [
  | none ↦ record {
    items = [];
    chunks = [];
    planned_elements = 0;
    estimated_elements = 0;
    is_renderable = false;
  }
  | some p ↦ p
]

planned :
    shown_plan.planned_elements
      ∷ shown_plan.estimated_elements
      ∷ map (λ c. length c) shown_plan.chunks
    ≡ 9 ∷ 199 ∷ 4 ∷ 4 ∷ []
unfolding plan_topology data_nodes data_links fair_route_order select present plan_dom
planned = refl

abbrev empty_presented : Presented
empty_presented = record {
  nodes = [];
  links = [];
  connectors = [];
  routes = [];
  total_nodes = 0;
  total_links = 0;
}

-- The route of `a`, `u` and `b` with the hop that does not answer folded.
abbrev first_route : List Route
first_route = route 0 1 ("a" ∷ "u" ∷ "b" ∷ []) ∷ []

abbrev presented : Presented
presented = elim (present true (some 10) nodes links first_route) [
  | none ↦ empty_presented
  | some p ↦ p
]

folds : present true (some 10) nodes links first_route ≡ some presented
unfolding present
folds = refl

counts :
    length presented.nodes
      ∷ length presented.links
      ∷ length presented.connectors
      ∷ map (λ (k : Kept). length k.node_ids) presented.routes
    ≡ 3 ∷ 0 ∷ 2 ∷ 3 ∷ []
unfolding present
counts = refl

present-IsKept_example :
    (length presented.nodes ≤ 500)
    × (length presented.links + length presented.connectors ≤ 1000)
    × ((b : ℕ) → some 10 ≡ some b → length presented.routes ≤ b → element_count presented ≤ b)
    × All (IsKept presented) presented.routes
present-IsKept_example = present-IsKept true (some 10) nodes links first_route presented folds

abbrev content : Content
content = record { presented = presented; routes = []; markers = []; labels = [] }

abbrev dom_plan : DomPlan
dom_plan = elim (plan_dom options content) [ none ↦ shown_plan | some p ↦ p ]

plans : plan_dom options content ≡ some dom_plan
unfolding plan_dom
plans = refl

plan_dom-IsWithin_example : IsWithin options dom_plan
plan_dom-IsWithin_example = plan_dom-IsWithin options content dom_plan plans

chunks_from-IsChunked_example :
    (flatten (chunks_from 5 [] 0 dom_plan.items) ≡ dom_plan.items)
    × All (IsChunk 5) (chunks_from 5 [] 0 dom_plan.items)
chunks_from-IsChunked_example = chunks_from-IsChunked 5 dom_plan.items (omega arith)

plan_topology-IsWithin_example :
    (p : DomPlan) × (plan_topology options true [] nodes links routes ≡ some p)
    × IsPlanOf options [] (plan_input options nodes links routes) 5 p
plan_topology-IsWithin_example = plan_topology-IsWithin options true [] nodes links routes 5 refl

fair_route_order-count_example :
    count_if (λ r. r.result_index == 0) (fair_route_order routes)
    ≡ count_if (λ r. r.result_index == 0) routes
fair_route_order-count_example = fair_route_order-count (λ r. r.result_index == 0) routes

abbrev model : Model
model = record { nodes = nodes; links = links; routes = routes }

shows :
    map (λ (n : Node). n.id) (filter_topology_model model (1 ∷ []) true).model.nodes
    ≡ codes "a" ∷ codes "c" ∷ codes "a" ∷ []
unfolding filter_topology_model
shows = refl
