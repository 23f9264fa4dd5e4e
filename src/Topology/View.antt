-- ===== src/Topology/View.antt =====
-- frontend/topology-model.js, `filterTopologyModel`: the part of a model that the chosen results show.
pub mod Closed
use revealnetworktrouble.Prelude.{
  ℕ, ◌+◌, Bool, ◌&&◌, List, [], ◌∷◌, ◌++◌, ◌==◌, if◌then◌else◌, length, is_nil, any, keep, Text,
}
use revealnetworktrouble.Topology.Data.{Node, Link, Route, pair_key, has}

pub record Model : Type 0 where
  pub nodes : List Node
  pub links : List Link
  pub routes : List Route

pub record ViewTotals : Type 0 where
  pub nodes : ℕ
  pub links : ℕ
  pub routes : ℕ

pub record View : Type 0 where
  pub model : Model
  pub show_unresponsive : Bool
  pub totals : ViewTotals

-- The identities that routes name, and the keys of their steps.
abbrev pub route_ids : List Route → List Text
route_ids [] = []
route_ids (r ∷ rs) = r.node_ids ++ route_ids rs

abbrev pub step_keys : List Text → List Text
step_keys [] = []
step_keys (from ∷ []) = []
step_keys (from ∷ to ∷ ids) = pair_key from to ∷ step_keys (to ∷ ids)

abbrev pub route_keys : List Route → List Text
route_keys [] = []
route_keys (r ∷ rs) = step_keys r.node_ids ++ route_keys rs

-- The size of a `Set` of these texts.
abbrev pub set_size : List Text → ℕ
set_size [] = 0
set_size (t ∷ ts) = let rest = set_size ts in if has t ts then rest else rest + 1

abbrev pub chosen_routes : List ℕ → List Route → List Route
chosen_routes selected rs = keep (λ r. any (λ i. r.result_index == i) selected) rs

-- The routes of the view: a route without nodes is left out, any other one is copied.
abbrev pub copied : Route → Route
copied r = record r { complete = r.complete && length r.node_ids == length r.node_ids }

abbrev pub view_routes : List Route → List Route
view_routes [] = []
view_routes (r ∷ rs) =
    let rest = view_routes rs in if is_nil r.node_ids then rest else copied r ∷ rest

abbrev pub named_nodes : List Text → List Node → List Node
named_nodes ids ns = keep (λ n. has n.id ids) ns

abbrev pub keyed_links : List Text → List Link → List Link
keyed_links keys ls = keep (λ l. has (pair_key l.from l.to) keys) ls

unfoldable pub filter_topology_model : Model → List ℕ → Bool → View
filter_topology_model m selected show =
    let chosen = chosen_routes selected m.routes in
    let routes = view_routes chosen in
    record {
      model = record {
        nodes = named_nodes (route_ids routes) m.nodes;
        links = keyed_links (route_keys routes) m.links;
        routes = routes;
      };
      show_unresponsive = show;
      totals = record {
        nodes = set_size (route_ids chosen);
        links = length (keyed_links (route_keys chosen) m.links);
        routes = length chosen;
      };
    }
