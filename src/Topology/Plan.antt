-- ===== src/Topology/Plan.antt =====
-- frontend/topology-model.js, `planTopologyDOM`: the plan of a view, from the model to the mounted items.
pub mod Known
pub mod Total
pub mod Result
use revealnetworktrouble.Prelude.{◌>>=◌, [], Bool, Option, some, List, ◌∷◌, map}
use revealnetworktrouble.Topology.Data.{
  Node, Link, Route, data_nodes, data_links, data_routes, data_node_limit, data_link_limit,
}
use revealnetworktrouble.Topology.RouteOrder.{fair_route_order}
use revealnetworktrouble.Topology.Select.{Input, RouteState, select}
use revealnetworktrouble.Topology.Present.Cut.{present}
use revealnetworktrouble.Topology.Mount.{Options, LabelRecord, DomPlan, topology_budget, plan_dom}

-- The input of the selection.
abbrev pub plan_input : Options → List Node → List Link → List Route → Input
plan_input o nodes links routes =
    let known = data_nodes data_node_limit [] nodes in
    let ids = map (λ n. n.id) known in
    record {
      nodes = known;
      links = data_links data_link_limit ids links;
      routes = data_routes ids routes;
      budget = topology_budget o;
    }

-- A route as it is handed to the presentation.
abbrev pub planned_route : RouteState → Route
planned_route s = record s.route { complete = s.complete; node_ids = s.node_ids }

abbrev pub all_some : List (Option Node) → Option (List Node)
all_some [] = some []
all_some (n ∷ ns) = do first ← n; others ← all_some ns; some (first ∷ others)

unfoldable pub plan_topology :
    Options → Bool → List LabelRecord → List Node → List Link → List Route → Option DomPlan
plan_topology o show labels nodes links routes = do
  let input = plan_input o nodes links routes
  let (plan, states) = select input (fair_route_order input.routes)
  chosen ← all_some plan.nodes
  presented ← present show (topology_budget o) chosen plan.links (map planned_route states)
  plan_dom o
      (record { presented = presented; routes = states; markers = plan.markers; labels = labels })
