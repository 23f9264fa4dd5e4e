-- ===== src/Topology/RouteOrder/Members.antt =====
-- frontend/topology-model.js, `fairRouteOrder`: it makes no route up.
use mathlib.Core.Path.{subst}
use mathlib.Core.Option.{some-injective}
use revealnetworktrouble.Prelude.{
  ℕ, zero, suc, ◌+◌, ◌≡◌, inl, inr, Bool, some, List, [], ◌∷◌, Bool-cases, Option-cases, length,
  is_nil, get_elem?, keep, All, All-append, All-map,
}
use revealnetworktrouble.Topology.Data.{Route}
use revealnetworktrouble.Topology.RouteOrder.{
  insert_route, sort_routes, group_of, sorted_groups, result_indexes, column, rounds,
  fair_route_order, comes_after,
}

module _ (P : Route → Type 0) where
  All-get : (rs : List Route) (i : ℕ) (r : Route) → All P rs → get_elem? rs i ≡ some r → P r
  All-get [] i r h e = cc
  All-get (s ∷ rs) zero r (p, h) e = subst P (some-injective _ _ e) p
  All-get (s ∷ rs) (suc i) r (p, h) e = All-get rs i r h e

  All-keep : (t : Route → Bool) (rs : List Route) → All P rs → All P (keep t rs)
  All-keep t [] h = tt
  All-keep t (r ∷ rs) (p, h) = elim (Bool-cases (t r)) [
    | inl e ↦ rw (keep, e) (p, All-keep t rs h)
    | inr e ↦ rw (keep, e) (All-keep t rs h)
  ]

  insert_route-All : (r : Route) (rs : List Route) → P r → All P rs → All P (insert_route r rs)
  unfolding insert_route
  insert_route-All r [] p h = (p, tt)
  insert_route-All r (s ∷ rs) p (q, h) = elim (Bool-cases (comes_after r s)) [
    | inl e ↦ rw e (q, insert_route-All r rs p h)
    | inr e ↦ rw e (p, (q, h))
  ]

  sort_routes-All : (rs : List Route) → All P rs → All P (sort_routes rs)
  unfolding sort_routes
  sort_routes-All [] h = tt
  sort_routes-All (r ∷ rs) (p, h) = insert_route-All r (sort_routes rs) p (sort_routes-All rs h)

  column-All : (offset : ℕ) (gs : List (List Route)) → All (All P) gs → All P (column offset gs)
  unfolding column
  column-All offset [] h = tt
  column-All offset (g ∷ gs) (p, h) = elim (Option-cases (get_elem? g offset)) [
    | inl e ↦ rw (column, e) (column-All offset gs h)
    | inr (r, e) ↦ rw (column, e) (All-get g offset r p e, column-All offset gs h)
  ]

  rounds-All :
      (fuel offset : ℕ) (gs : List (List Route)) → All (All P) gs → All P (rounds fuel offset gs)
  unfolding rounds
  rounds-All zero offset gs h = tt
  rounds-All (suc fuel) offset gs h = elim (Bool-cases (is_nil (column offset gs))) [
    | inl e ↦ rw e tt
    | inr e ↦ rw e (
        All-append P (column offset gs) (rounds fuel (offset + 1) gs) (column-All offset gs h)
          (rounds-All fuel (offset + 1) gs h))
  ]

  -- What holds of every route holds of every route in turn.
  pub fair_route_order-All : (rs : List Route) → All P rs → All P (fair_route_order rs)
  unfolding fair_route_order
  fair_route_order-All rs h = rounds-All (length rs + 1) 0 (sorted_groups rs) (
      All-map (All P) _ (result_indexes rs)
        (λ i. sort_routes-All (group_of i rs) (All-keep _ rs h)))
