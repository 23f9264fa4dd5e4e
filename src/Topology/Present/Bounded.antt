-- ===== src/Topology/Present/Bounded.antt =====
-- frontend/topology-presentation.js, `presentTopology`: what is shown is within the limits and the budget.
use revealnetworktrouble.Prelude.{
  ℕ, ◌+◌, ◌-◌, ◌≤◌, ◌≡◌, Option, none, some, List, arith, length, take, keep, length-take,
  length-map,
}
use mathlib.Core.Option.{some-injective}
use revealnetworktrouble.Topology.Present.{Drawn, Scene}
use revealnetworktrouble.Topology.Present.Cut.{Presented, cap, cut}

-- The number of elements that a presentation mounts.
abbrev pub element_count : Presented → ℕ
element_count p = length p.nodes + length p.links + length p.connectors + length p.routes

cap-le : (limit : ℕ) (budget : Option ℕ) (used : ℕ) → cap limit budget used ≤ limit
cap-le limit none used = omega arith
cap-le limit (some b) used = omega arith

length-take-le {ℓ} : {A : Type ℓ} (n : ℕ) (xs : List A) → length (take n xs) ≤ n
length-take-le n xs = omega (arith, length-take n xs)

two-take-le {ℓ κ} :
    {A : Type ℓ} {B : Type κ} (n : ℕ) (xs : List A) (ys : List B)
    → length (take n xs) + length (take (n - length (take n xs)) ys) ≤ n
two-take-le n xs ys = omega (arith, length-take-le n xs, length-take-le (n - length (take n xs)) ys)

-- The sizes of the parts of a cut.
record IsCut (budget : Option ℕ) (drawn : List Drawn) (p : Presented) : Type 0 where
  nodes_le : length p.nodes ≤ cap 500 budget (length drawn)
  links_le : length p.links + length p.connectors ≤ cap 1000 budget (length drawn + length p.nodes)
  routes_eq : length p.routes ≡ length drawn

cut-IsCut :
    (budget : Option ℕ) (scene : Scene) (drawn : List Drawn)
    → IsCut budget drawn (cut budget scene drawn)
unfolding cut
cut-IsCut budget scene drawn = record {
  nodes_le = length-take-le (cap 500 budget (length drawn)) scene.nodes;
  links_le = two-take-le (cap 1000 budget _) (keep _ scene.observed) (keep _ scene.connectors);
  routes_eq = length-map drawn _;
}

abbrev IsBounded : Option ℕ → Presented → Type 0
IsBounded budget p =
    (length p.nodes ≤ 500)
    × (length p.links + length p.connectors ≤ 1000)
    × ((b : ℕ) → budget ≡ some b → length p.routes ≤ b → element_count p ≤ b)

pub cut-IsBounded :
    (budget : Option ℕ) (scene : Scene) (drawn : List Drawn)
    → IsBounded budget (cut budget scene drawn)
cut-IsBounded none scene drawn =
    let c = cut-IsCut none scene drawn in
    (omega (arith, c.nodes_le), omega (arith, c.links_le), λ b e h. cc)
cut-IsBounded (some budget) scene drawn =
    let c = cut-IsCut (some budget) scene drawn in
    let nodes = c.nodes_le in
    let links = c.links_le in
    let routes = c.routes_eq in
    (
      omega (arith, nodes),
      omega (arith, links),
      λ b e h. (let same = some-injective _ _ e in omega (arith, nodes, links, routes, same, h)),
    )
