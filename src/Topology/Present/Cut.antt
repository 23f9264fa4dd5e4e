-- ===== src/Topology/Present/Cut.antt =====
-- frontend/topology-presentation.js, `presentTopology`: the cut to the budget, and the whole.
use revealnetworktrouble.Prelude.{
  ℕ, ◌+◌, ◌-◌, min, Bool, ◌&&◌, Option, none, some, List, [], ◌∷◌, map, ◌==◌, if◌then◌else◌, ◌>>=◌,
  length, is_nil, take, keep, Text,
}
use revealnetworktrouble.Topology.Data.{Node, Link, Route, pair_key, has}
use revealnetworktrouble.Topology.Present.{
  Shown, shown_id, Connector, Scene, put_node, link_key, put_observed, draw_routes, Drawn,
  whole_scene,
}

-- The routes that are kept, up to the first node or step that is not.
abbrev pub keeps_step : List Text → List Text → Text → Text → Option Text → Bool
keeps_step pairs spans from to none = has (pair_key from to) pairs
keeps_step pairs spans from to (some span) = has span spans

unfoldable pub keep_steps :
    List Text → List Text → List Text → Text → List Text → List (Option Text) → List Text
keep_steps ids pairs spans last (id ∷ more) (step ∷ steps) =
    let rest = keep_steps ids pairs spans id more steps in
    if has id ids && keeps_step pairs spans last id step then id ∷ rest else []
keep_steps ids pairs spans last _ _ = []

abbrev pub keep_route :
    List Text → List Text → List Text → List Text → List (Option Text) → List Text
keep_route ids pairs spans [] steps = []
keep_route ids pairs spans (id ∷ more) steps =
    let rest = keep_steps ids pairs spans id more steps in if has id ids then id ∷ rest else []

pub record Kept : Type 0 where
  pub drawn : Drawn
  pub node_ids : List Text
  pub complete : Bool

abbrev pub kept_route : List Text → List Text → List Text → Drawn → Kept
kept_route ids pairs spans d =
    let node_ids = keep_route ids pairs spans d.node_ids d.spans in
    record {
      drawn = d;
      node_ids = node_ids;
      complete = d.route.complete && length node_ids == length d.node_ids;
    }

pub record Presented : Type 0 where
  pub nodes : List Shown
  pub links : List Link
  pub connectors : List Connector
  pub routes : List Kept
  pub total_nodes : ℕ
  pub total_links : ℕ

-- The cut to the budget. An infinite budget is `none`.
abbrev pub cap : ℕ → Option ℕ → ℕ → ℕ
cap limit none used = limit
cap limit (some budget) used = min limit (budget - used)

unfoldable pub cut : Option ℕ → Scene → List Drawn → Presented
unfolding keep_steps
cut budget scene drawn =
    let retained = take (cap 500 budget (length drawn)) scene.nodes in
    let ids = map shown_id retained in
    let room = cap 1000 budget (length drawn + length retained) in
    let links = take room (keep (λ l. has l.from ids && has l.to ids) scene.observed) in
    let connectors =
      take (room - length links) (keep (λ c. has c.from ids && has c.to ids) scene.connectors) in
    record {
      nodes = retained;
      links = links;
      connectors = connectors;
      routes = map (kept_route ids (map link_key links) (map (λ c. c.id) connectors)) drawn;
      total_nodes = length scene.nodes;
      total_links = length scene.observed + length scene.connectors;
    }

abbrev pub first_scene : List Node → Scene
first_scene nodes = record {
  nodes = [];
  observed = [];
  connectors = [];
  used_ids = map (λ n. n.id) nodes;
}

-- What is shown of nodes, links and routes, before the nodes are annotated and sorted.
unfoldable pub present : Bool → Option ℕ → List Node → List Link → List Route → Option Presented
unfolding draw_routes cut put_node put_observed
present show budget nodes links routes = do
  (scene, drawn) ← draw_routes show nodes links 0 routes (first_scene nodes)
  some (cut budget (whole_scene (is_nil routes) nodes links scene) drawn)
