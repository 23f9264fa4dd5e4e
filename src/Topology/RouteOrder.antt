-- ===== src/Topology/RouteOrder.antt =====
-- frontend/topology-model.js, `fairRouteOrder`: the routes of all results in turn.
pub mod Members
pub mod Fair
use revealnetworktrouble.Prelude.{
  [], ℕ, zero, suc, ◌+◌, Bool, ◌&&◌, ◌||◌, none, some, List, ◌∷◌, ◌++◌, map, ltb, ◌==◌,
  if◌then◌else◌, length, is_nil, get_elem?, keep,
}
use revealnetworktrouble.Topology.Data.{Route}

-- The results in the order of their numbers, each once.
unfoldable pub insert_index : ℕ → List ℕ → List ℕ
insert_index i [] = i ∷ []
insert_index i (j ∷ js) =
    let later = insert_index i js in
    if i == j then j ∷ js else if ltb i j then i ∷ j ∷ js else j ∷ later

unfoldable pub result_indexes : List Route → List ℕ
unfolding insert_index
result_indexes [] = []
result_indexes (r ∷ rs) = insert_index r.result_index (result_indexes rs)

-- `(left.attempt - right.attempt) || (left.order - right.order)` is positive.
abbrev pub comes_after : Route → Route → Bool
comes_after r s = ltb s.attempt r.attempt || (s.attempt == r.attempt && ltb s.order r.order)

-- Array sort, which is stable.
unfoldable pub insert_route : Route → List Route → List Route
insert_route r [] = r ∷ []
insert_route r (s ∷ ss) =
    let later = insert_route r ss in if comes_after r s then s ∷ later else r ∷ s ∷ ss

unfoldable pub sort_routes : List Route → List Route
unfolding insert_route
sort_routes [] = []
sort_routes (r ∷ rs) = insert_route r (sort_routes rs)

abbrev pub group_of : ℕ → List Route → List Route
group_of i routes = keep (λ r. r.result_index == i) routes

abbrev pub sorted_groups : List Route → List (List Route)
sorted_groups routes = map (λ i. sort_routes (group_of i routes)) (result_indexes routes)

-- One round: the route at `offset` of each group that has one.
unfoldable pub column : ℕ → List (List Route) → List Route
column offset [] = []
column offset (g ∷ gs) = elim (get_elem? g offset) [
  | none ↦ column offset gs
  | some r ↦ r ∷ column offset gs
]

-- The rounds, until one adds nothing.
unfoldable pub rounds : ℕ → ℕ → List (List Route) → List Route
unfolding column
rounds zero offset gs = []
rounds (suc fuel) offset gs =
    let later = rounds fuel (offset + 1) gs in
    if is_nil (column offset gs) then [] else column offset gs ++ later

-- No group is longer than the list of all routes.
unfoldable pub fair_route_order : List Route → List Route
unfolding rounds result_indexes sort_routes
fair_route_order routes = rounds (length routes + 1) 0 (sorted_groups routes)
