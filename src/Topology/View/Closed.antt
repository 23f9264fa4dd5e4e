-- ===== src/Topology/View/Closed.antt =====
-- frontend/topology-model.js, `filterTopologyModel`: what the view of a model knows and counts.
use revealnetworktrouble.Prelude.{
  ℕ, ◌≡◌, Bool, not, ◌&&◌, Option, none, some, List, [], ◌∷◌, ◌==◌, if◌then◌else◌, length, is_nil,
  any, keep, Text, text_eq,
}
use revealnetworktrouble.Topology.Data.{Route, has, find_node, find_link}
use revealnetworktrouble.Topology.View.{Model, View, route_ids, route_keys, set_size}

-- A lookup by key in what is kept because its key is in a set.
module _ {ℓ} {A : Type ℓ} (key : A → Text) (find : Text → List A → Option A)
    (find_nil : (t : Text) → find t [] ≡ none)
    (find_cons : (t : Text) (x : A) (xs : List A)
      → find t (x ∷ xs) ≡ (if text_eq t (key x) then some x else find t xs)) where
  abbrev seen : Text → List Text → List A → Option A
  seen t ts xs = if has t ts then find t xs else none

-- The routes of the view are those of the model that are of a chosen result and have a node.
abbrev pub shown_route : List ℕ → Route → Bool
shown_route selected r = any (λ i. r.result_index == i) selected && not (is_nil r.node_ids)

-- A view with the routes of the chosen results that have a node: a lookup finds what the model has for
-- the nodes and the steps that these routes name, and nothing else.
abbrev pub IsView : Model → List ℕ → View → Type 0
IsView m selected v =
    (v.model.routes ≡ keep (shown_route selected) m.routes)
    × ((id : Text)
        → find_node id v.model.nodes
          ≡ (if has id (route_ids v.model.routes) then find_node id m.nodes else none))
    × ((key : Text)
        → find_link key v.model.links
          ≡ (if has key (route_keys v.model.routes) then find_link key m.links else none))
    × (v.totals.nodes ≡ set_size (route_ids v.model.routes))
    × (v.totals.links ≡ length v.model.links)
