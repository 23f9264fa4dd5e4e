-- ===== src/Topology/Plan/Total.antt =====
-- frontend/topology-model.js, `planTopologyDOM`: a plan is always made.
use mathlib.Core.Path.{subst}
use mathlib.Core.List.{append_assoc}
use revealnetworktrouble.Topology.Plan.{plan_input}
use revealnetworktrouble.Topology.Mount.{Options}
use mathlib.Core.Option.{some-injective}
use revealnetworktrouble.Prelude.{
  ℕ, zero, suc, ◌+◌, ◌-◌, ◌≡◌, refl, sym, ◌∙◌, inl, inr, Bool, true, false, ◌&&◌, Option, none,
  some, List, [], ◌∷◌, ◌++◌, arith, ltb, if◌then◌else◌, Bool-cases, Option-cases, length, is_nil,
  get_elem?, take, all, keep, All, All-append, Text,
}
use revealnetworktrouble.Topology.Data.{
  Node, Link, Route, pair_key, has, find_node, find_link, has_geo, data_link_limit, is_known,
  numbered,
}
use revealnetworktrouble.Topology.RouteOrder.{fair_route_order}
use revealnetworktrouble.Topology.RouteOrder.Members.{fair_route_order-All}
use revealnetworktrouble.Topology.Select.{
  Input, RouteState, Plan, empty_plan, can_add, add_node, add_link, one_unless, open_route,
  open_first, open_routes, put_segment, extend, extend_between, step_route, pass, extend_routes,
  steps_left, add_nodes, add_links, select,
}
use revealnetworktrouble.Topology.Select.Invariant.{has_self}
use revealnetworktrouble.Topology.Plan.Known.{
  ids_of, IsKnown, add_node-IsKnown, same-IsKnown, add_link_nodes, put_segment_nodes,
}

module _ (input : Input) where
  abbrev KnowsRoute : Route → Type 0
  KnowsRoute r = All (λ id. has id (ids_of input.nodes) ≡ true) r.node_ids

  get-known :
      (ids : List Text) (i : ℕ) (id : Text)
      → All (λ id. has id (ids_of input.nodes) ≡ true) ids
      → get_elem? ids i ≡ some id
      → has id (ids_of input.nodes) ≡ true
  get-known [] i id h e = cc
  get-known (t ∷ ts) zero id (p, h) e =
      subst (λ x. has x (ids_of input.nodes) ≡ true) (some-injective _ _ e) p
  get-known (t ∷ ts) (suc i) id (p, h) e = get-known ts i id h e

  -- A step of a route keeps the route and the knowledge of the plan.
  record IsStep (s : RouteState) (r : Plan × RouteState × Bool) : Type 0 where
    known : IsKnown r.0
    route_eq : r.1.route ≡ s.route

  extend-IsStep :
      (from to : Text) (p : Plan) (s : RouteState)
      → has to (ids_of input.nodes) ≡ true
      → IsKnown p
      → IsStep s (extend input from to p s)
  unfolding extend
  extend-IsStep from to p s h k = elim (Option-cases (find_link (pair_key from to) input.links)) [
    | inl e ↦ rw (extend, e) (record { known = same-IsKnown p _ refl refl k; route_eq = refl })
    | inr (l, e) ↦
        let cost =
          one_unless (has to p.node_ids) + one_unless (has (pair_key from to) p.link_keys) in
        let node = add_node input to p in
        let q = add_link input from to node in
        let seg : Bool =
          has_geo (find_node from input.nodes)
          && has_geo (find_node to input.nodes)
          && ltb (length p.segments) data_link_limit
          && has (pair_key from to) q.link_keys in
        let (n, i) = add_link_nodes input from to node in
        let (m, j) = put_segment_nodes seg from to q in
        elim (Bool-cases (can_add input cost p)) [
          | inl c ↦
              rw (extend, e, c)
                (record {
                  known =
                      same-IsKnown node (put_segment seg from to q) (m ∙ n) (j ∙ i)
                        (add_node-IsKnown input to p h k);
                  route_eq = refl;
                })
          | inr c ↦ rw (extend, e, c) (record { known = k; route_eq = refl })
        ]
  ]

  between-IsStep :
      (from to : Option Text) (p : Plan) (s : RouteState)
      → KnowsRoute s.route
      → get_elem? s.route.node_ids s.cursor ≡ to
      → IsKnown p
      → IsStep s (extend_between input from to p s)
  between-IsStep (some from) (some to) p s h t k =
      extend-IsStep from to p s (get-known s.route.node_ids s.cursor to h t) k
  between-IsStep (some from) none p s h t k = record { known = k; route_eq = refl }
  between-IsStep none to p s h t k = record { known = k; route_eq = refl }

  step_route-IsStep :
      (p : Plan) (s : RouteState) → KnowsRoute s.route → IsKnown p → IsStep s (step_route input p s)
  unfolding step_route
  step_route-IsStep p s h k =
      let moved = between-IsStep (get_elem? s.route.node_ids (s.cursor - 1)) _ p s h refl k in
      elim (Bool-cases s.blocked) [
        | inl e ↦
            subst
              (λ b. IsStep s (
                if b
                then (p, s, false)
                else extend_between input (get_elem? s.route.node_ids (s.cursor - 1))
                    (get_elem? s.route.node_ids s.cursor) p s))
              (sym e) (record { known = k; route_eq = refl })
        | inr e ↦
            subst
              (λ b. IsStep s (
                if b
                then (p, s, false)
                else extend_between input (get_elem? s.route.node_ids (s.cursor - 1))
                    (get_elem? s.route.node_ids s.cursor) p s))
              (sym e) moved
      ]

  abbrev KnowsState : RouteState → Type 0
  KnowsState s = KnowsRoute s.route

  record IsPass (r : Plan × List RouteState × Bool) : Type 0 where
    known : IsKnown r.0
    states : All KnowsState r.1

  pass-IsPass :
      (p : Plan) (ss : List RouteState) → All KnowsState ss → IsKnown p → IsPass (pass input p ss)
  unfolding pass
  pass-IsPass p [] h k = record { known = k; states = tt }
  pass-IsPass p (s ∷ ss) (h, hs) k =
      let here = step_route-IsStep p s h k in
      let (q, t, moved) = step_route input p s in
      let later = pass-IsPass q ss hs here.known in
      record {
        known = later.known;
        states = (subst KnowsRoute (sym here.route_eq) h, later.states);
      }

  extend_routes-IsKnown :
      (fuel : ℕ) (p : Plan) (ss : List RouteState)
      → All KnowsState ss
      → IsKnown p
      → IsKnown (extend_routes fuel input p ss).0
  unfolding extend_routes
  extend_routes-IsKnown zero p ss h k = k
  extend_routes-IsKnown (suc fuel) p ss h k =
      let round = pass-IsPass p ss h k in
      let (q, ts, progressed) = pass input p ss in
      elim (Bool-cases progressed) [
        | inl e ↦ rw e (extend_routes-IsKnown fuel q ts round.states round.known)
        | inr e ↦ rw e round.known
      ]

  open_route-IsPass :
      (r : Route) (id : Text) (p : Plan)
      → KnowsRoute r
      → has id (ids_of input.nodes) ≡ true
      → IsKnown p
      → (IsKnown (open_route input r id p).0 × All KnowsState (open_route input r id p).1)
  unfolding open_route
  open_route-IsPass r id p h i k =
      elim (Bool-cases (can_add input (1 + one_unless (has id p.node_ids)) p)) [
        | inr c ↦ rw (open_route, c) (k, tt)
        | inl c ↦
            rw (open_route, c)
              (
                same-IsKnown (add_node input id p) _ refl refl (add_node-IsKnown input id p i k),
                (h, tt),
              )
      ]

  open_first-IsPass :
      (r : Route) (ids : List Text) (p : Plan)
      → KnowsRoute r
      → All (λ id. has id (ids_of input.nodes) ≡ true) ids
      → IsKnown p
      → (IsKnown (open_first input r ids p).0 × All KnowsState (open_first input r ids p).1)
  open_first-IsPass r [] p h i k = (k, tt)
  open_first-IsPass r (id ∷ ids) p h (i, _) k = open_route-IsPass r id p h i k

  open_routes-IsPass :
      (rs : List Route) (p : Plan)
      → All KnowsRoute rs
      → IsKnown p
      → (IsKnown (open_routes input rs p).0 × All KnowsState (open_routes input rs p).1)
  unfolding open_routes
  open_routes-IsPass [] p h k = (k, tt)
  open_routes-IsPass (r ∷ rs) p (h, hs) k =
      let (known, states) = open_first-IsPass r r.node_ids p h h k in
      let (q, opened) = open_first input r r.node_ids p in
      let (later, more) = open_routes-IsPass rs q hs known in
      (later, All-append KnowsState opened (open_routes input rs q).1 states more)

  add_nodes-IsKnown :
      (ns : List Node) (p : Plan)
      → All (λ n. has n.id (ids_of input.nodes) ≡ true) ns
      → IsKnown p
      → IsKnown (add_nodes input ns p)
  unfolding add_nodes
  add_nodes-IsKnown [] p h k = k
  add_nodes-IsKnown (n ∷ ns) p (h, hs) k = elim (Bool-cases (can_add input 1 p)) [
    | inr c ↦ rw c k
    | inl c ↦
        rw c (add_nodes-IsKnown ns (add_node input n.id p) hs (add_node-IsKnown input n.id p h k))
  ]

  add_links-IsKnown : (ls : List Link) (p : Plan) → IsKnown p → IsKnown (add_links input ls p)
  unfolding add_links
  add_links-IsKnown [] p k = k
  add_links-IsKnown (l ∷ ls) p k =
      elim (Bool-cases (has l.from p.node_ids && has l.to p.node_ids && can_add input 1 p)) [
        | inr c ↦ rw c (add_links-IsKnown ls p k)
        | inl c ↦
            let (n, i) = add_link_nodes input l.from l.to p in
            rw c (
              add_links-IsKnown ls (add_link input l.from l.to p)
                (same-IsKnown p (add_link input l.from l.to p) n i k))
      ]

  select-IsKnown :
      (ordered : List Route)
      → All KnowsRoute ordered
      → All (λ n. has n.id (ids_of input.nodes) ≡ true) input.nodes
      → IsKnown (select input ordered).0
  unfolding select
  select-IsKnown ordered h own =
      let (first, states) =
        open_routes-IsPass ordered empty_plan h
          (record { chosen = []; nodes_eq = refl; ids = λ id e. cc }) in
      let (p, opened) = open_routes input ordered empty_plan in
      let second = extend_routes-IsKnown (steps_left opened + 1) p opened states first in
      let (q, _) = extend_routes (steps_left opened + 1) input p opened in
      elim (Bool-cases (is_nil input.routes)) [
        | inl e ↦ rw e (
            add_links-IsKnown input.links (add_nodes input input.nodes q)
              (add_nodes-IsKnown input.nodes q own second))
        | inr e ↦ rw e second
      ]

in_middle :
    (before : List Node) (n : Node) (after : List Node)
    → has n.id (ids_of (before ++ n ∷ after)) ≡ true
in_middle [] n after = has_self n.id (ids_of after)
in_middle (m ∷ before) n after = ground (arith, in_middle before n after)

own_ids_from :
    (before after : List Node) → All (λ n. has n.id (ids_of (before ++ after)) ≡ true) after
own_ids_from before [] = tt
own_ids_from before (n ∷ after) = (
  in_middle before n after,
  subst (λ all. All (λ m. has m.id (ids_of all) ≡ true) after) (append_assoc before (n ∷ []) after)
      (own_ids_from (before ++ n ∷ []) after),
)

all→All : (t : Text → Bool) (ts : List Text) → all t ts ≡ true → All (λ x. t x ≡ true) ts
all→All t [] h = tt
all→All t (x ∷ ts) h = (ground (arith, h), all→All t ts (ground (arith, h)))

data_routes-known :
    (ids : List Text) (n : ℕ) (rs : List Route)
    → All (λ r. All (λ id. has id ids ≡ true) r.node_ids) (keep (is_known ids) (numbered n rs))
data_routes-known ids n [] = tt
data_routes-known ids n (r ∷ rs) = elim (Bool-cases (is_known ids (record r { order = n }))) [
  | inl e ↦
      rw (keep, e)
        (
          all→All (λ id. has id ids) r.node_ids (ground (arith, e)),
          data_routes-known ids (n + 1) rs,
        )
  | inr e ↦ rw (keep, e) (data_routes-known ids (n + 1) rs)
]

-- The plan of any model names nodes of the model only.
pub plan_input-IsKnown :
    (o : Options) (nodes : List Node) (links : List Link) (routes : List Route)
    → (let input = plan_input o nodes links routes in
        IsKnown (select input (fair_route_order input.routes)).0)
plan_input-IsKnown o nodes links routes =
    let input = plan_input o nodes links routes in
    select-IsKnown input (fair_route_order input.routes)
      (fair_route_order-All (KnowsRoute input) input.routes
        (data_routes-known (ids_of input.nodes) 0 (take 200 routes)))
      (own_ids_from [] input.nodes)
