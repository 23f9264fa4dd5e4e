-- ===== src/Topology/Select/Correct.antt =====
-- frontend/topology-model.js, `planTopologyDOM`: the whole selection.
use revealnetworktrouble.Prelude.{
  ℕ, zero, suc, ◌+◌, ◌-◌, ◌≤◌, ◌<◌, ◌≡◌, refl, sym, inl, inr, Bool, true, false, ◌&&◌, Option, none,
  some, List, [], ◌∷◌, arith, if◌then◌else◌, Bool-cases, Option-cases, is_nil, get_elem?, All,
  All-append, Text,
}
use mathlib.Core.Path.{subst}
use revealnetworktrouble.Topology.Data.{Node, Link, Route, pair_key, has, find_link}
use revealnetworktrouble.Topology.Select.{
  Input, RouteState, Plan, empty_plan, can_add, add_node, add_link, one_unless, open_route,
  open_first, open_routes, extend_between, step_route, pass, extend_routes, steps_left, add_nodes,
  add_links, select,
}
use revealnetworktrouble.Topology.Select.Invariant.{
  IsGood, Grows, Grows-refl, Grows-trans, IsPlanned, IsPlanned-Grows, empty_plan-IsGood, can_add→le,
}
use revealnetworktrouble.Topology.Select.Prefixes.{get_elem?-none}
use revealnetworktrouble.Topology.Select.Steps.{
  Added, IsDone, one_if, Outcome, stay-Outcome, add_node-Added, add_link-Added,
}
use revealnetworktrouble.Topology.Select.Extend.{extend-Outcome}

between-Outcome :
    (input : Input) (p : Plan) (s : RouteState) (from to : Option Text)
    → IsGood input p
    → IsPlanned p s
    → get_elem? s.route.node_ids (s.cursor - 1) ≡ from
    → get_elem? s.route.node_ids s.cursor ≡ to
    → Outcome input p s (extend_between input from to p s)
between-Outcome input p s (some from) (some to) g h f t = extend-Outcome input from to p s g h f t
between-Outcome input p s (some from) none g h f t =
    stay-Outcome input p s g h (inr (get_elem?-none s.route.node_ids s.cursor t))
between-Outcome input p s none to g h f t =
    let long = get_elem?-none s.route.node_ids (s.cursor - 1) f in
    let absurd : ⊥ = omega (arith, long, h.started, h.inside) in elim absurd [ ]

abbrev Choice : Input → Plan → RouteState → Bool → Type 0
Choice input p s b = Outcome input p s (
    if b
    then (p, s, false)
    else extend_between input (get_elem? s.route.node_ids (s.cursor - 1))
        (get_elem? s.route.node_ids s.cursor) p s)

step_route-Outcome :
    (input : Input) (p : Plan) (s : RouteState)
    → IsGood input p
    → IsPlanned p s
    → Outcome input p s (step_route input p s)
unfolding step_route
step_route-Outcome input p s g h =
    let moved = between-Outcome input p s _ _ g h refl refl in
    elim (Bool-cases s.blocked) [
      | inl e ↦ subst (Choice input p s) (sym e) (stay-Outcome input p s g h (inl e))
      | inr e ↦ subst (Choice input p s) (sym e) moved
    ]

-- A round over all routes, and all rounds.
record Round (input : Input) (p : Plan) (ss : List RouteState) (r : Plan × List RouteState × Bool)
    : Type 0 where
  good : IsGood input r.0
  grows : Grows p r.0
  planned : All (IsPlanned r.0) r.1
  nearer : steps_left r.1 + one_if r.2 ≤ steps_left ss
  still : r.2 ≡ false → All IsDone r.1

All-Grows :
    (p q : Plan) (ss : List RouteState) → Grows p q → All (IsPlanned p) ss → All (IsPlanned q) ss
All-Grows p q [] g _ = tt
All-Grows p q (s ∷ ss) g (h, k) = (IsPlanned-Grows p q s g h, All-Grows p q ss g k)

pass-Round :
    (input : Input) (p : Plan) (ss : List RouteState)
    → IsGood input p
    → All (IsPlanned p) ss
    → Round input p ss (pass input p ss)
unfolding pass
pass-Round input p [] g _ = record {
  good = g;
  grows = Grows-refl p;
  planned = tt;
  nearer = omega arith;
  still = λ _. tt;
}
pass-Round input p (s ∷ ss) g (h, k) =
    let here = step_route-Outcome input p s g h in
    let (q, t, moved) = step_route input p s in
    let later = pass-Round input q ss here.good (All-Grows p q ss here.grows k) in
    let (r, ts, more) = pass input q ss in
    record {
      good = later.good;
      grows = Grows-trans p q r here.grows later.grows;
      planned = (IsPlanned-Grows q r t later.grows here.planned, later.planned);
      nearer = ground (arith, here.nearer, later.nearer);
      still = λ e. (here.still (ground (arith, e)), later.still (ground (arith, e)));
    }

-- A plan that no route can go on in.
pub record IsSelected (input : Input) (r : Plan × List RouteState) : Type 0 where
  pub good : IsGood input r.0
  pub planned : All (IsPlanned r.0) r.1
  pub finished : All IsDone r.1

extend_routes-IsSelected :
    (fuel : ℕ) (input : Input) (p : Plan) (ss : List RouteState)
    → steps_left ss < fuel
    → IsGood input p
    → All (IsPlanned p) ss
    → IsSelected input (extend_routes fuel input p ss)
unfolding extend_routes
extend_routes-IsSelected zero input p ss f g h =
    let absurd : ⊥ = omega (arith, f) in elim absurd [ ]
extend_routes-IsSelected (suc fuel) input p ss f g h =
    let round = pass-Round input p ss g h in
    let (q, ts, progressed) = pass input p ss in
    elim (Bool-cases progressed) [
      | inl e ↦ rw e (
          extend_routes-IsSelected fuel input q ts (ground (arith, e, round.nearer, f)) round.good
            round.planned)
      | inr e ↦
          rw e (record { good = round.good; planned = round.planned; finished = round.still e })
    ]

-- The first loop.
record Opened (input : Input) (p : Plan) (r : Plan × List RouteState) : Type 0 where
  good : IsGood input r.0
  grows : Grows p r.0
  planned : All (IsPlanned r.0) r.1

none-Opened : (input : Input) (p : Plan) → IsGood input p → Opened input p (p, [])
none-Opened input p g = record { good = g; grows = Grows-refl p; planned = tt }

open_route-Opened :
    (input : Input) (r : Route) (id : Text) (ids : List Text) (p : Plan)
    → IsGood input p
    → r.node_ids ≡ id ∷ ids
    → Opened input p (open_route input r id p)
unfolding open_route
open_route-Opened input r id ids p g e =
    let (a, h) = add_node-Added input id p g.counted in
    let q = add_node input id p in
    elim (Bool-cases (can_add input (1 + one_unless (has id p.node_ids)) p)) [
      | inr c ↦ rw (open_route, c) (none-Opened input p g)
      | inl c ↦
          rw (open_route, c)
            (record {
              good = record {
                counted = record {
                  cost_eq = omega (arith, a.counted.cost_eq);
                  ids_distinct = a.counted.ids_distinct;
                  keys_distinct = a.counted.keys_distinct;
                  ids_length = a.counted.ids_length;
                  keys_length = a.counted.keys_length;
                };
                within = λ b k. omega (
                  arith,
                  a.cost_le,
                  can_add→le input (1 + one_unless (has id p.node_ids)) p b c k,
                );
              };
              grows = record { ids = a.grows.ids; keys = a.grows.keys };
              planned = (
                record {
                  started = omega arith;
                  inside = rw e (omega arith);
                  prefix = rw e refl;
                  joined = h;
                  complete_eq = ground arith;
                },
                tt,
              );
            })
    ]

open_first-Opened :
    (input : Input) (r : Route) (ids : List Text) (p : Plan)
    → IsGood input p
    → r.node_ids ≡ ids
    → Opened input p (open_first input r ids p)
open_first-Opened input r [] p g e = none-Opened input p g
open_first-Opened input r (id ∷ ids) p g e = open_route-Opened input r id ids p g e

open_routes-Opened :
    (input : Input) (rs : List Route) (p : Plan)
    → IsGood input p
    → Opened input p (open_routes input rs p)
unfolding open_routes
open_routes-Opened input [] p g = none-Opened input p g
open_routes-Opened input (r ∷ rs) p g =
    let here = open_first-Opened input r r.node_ids p g refl in
    let (q, opened) = open_first input r r.node_ids p in
    let later = open_routes-Opened input rs q here.good in
    let (s, more) = open_routes input rs q in
    record {
      good = later.good;
      grows = Grows-trans p q s here.grows later.grows;
      planned =
          All-append (IsPlanned s) opened more (All-Grows q s opened later.grows here.planned)
            later.planned;
    }

-- Nodes and links on their own, when there are no routes.
record Filled (input : Input) (p q : Plan) : Type 0 where
  good : IsGood input q
  grows : Grows p q

Filled-refl : (input : Input) (p : Plan) → IsGood input p → Filled input p p
Filled-refl input p g = record { good = g; grows = Grows-refl p }

Filled-trans :
    (input : Input) (p q r : Plan) → Filled input p q → Filled input q r → Filled input p r
Filled-trans input p q r f h = record { good = h.good; grows = Grows-trans p q r f.grows h.grows }

one-Filled :
    (input : Input) (p q : Plan) (extra : ℕ)
    → Added p q extra
    → extra ≤ 1
    → can_add input 1 p ≡ true
    → Filled input p q
one-Filled input p q extra a e c = record {
  good = record {
    counted = a.counted;
    within = λ b k. omega (arith, a.cost_le, e, can_add→le input 1 p b c k);
  };
  grows = a.grows;
}

one_unless-le : (b : Bool) → one_unless b ≤ 1
one_unless-le b = ground arith

add_nodes-Filled :
    (input : Input) (ns : List Node) (p : Plan)
    → IsGood input p
    → Filled input p (add_nodes input ns p)
unfolding add_nodes
add_nodes-Filled input [] p g = Filled-refl input p g
add_nodes-Filled input (n ∷ ns) p g = elim (Bool-cases (can_add input 1 p)) [
  | inr c ↦ rw c (Filled-refl input p g)
  | inl c ↦
      let here =
        one-Filled input p (add_node input n.id p) _ (add_node-Added input n.id p g.counted).0
          (one_unless-le (has n.id p.node_ids)) c in
      rw c (
        Filled-trans input p (add_node input n.id p) _ here
          (add_nodes-Filled input ns (add_node input n.id p) here.good))
]

add_link-Filled :
    (input : Input) (l : Link) (p : Plan)
    → IsGood input p
    → can_add input 1 p ≡ true
    → Filled input p (add_link input l.from l.to p)
unfolding add_link
add_link-Filled input l p g c = elim (Option-cases (find_link (pair_key l.from l.to) input.links)) [
  | inr (m, e) ↦
      one-Filled input p (add_link input l.from l.to p) _
        (add_link-Added input l.from l.to p m g.counted e).0
        (one_unless-le (has (pair_key l.from l.to) p.link_keys)) c
  | inl e ↦ elim (Bool-cases (has (pair_key l.from l.to) p.link_keys)) [
    | inl k ↦ rw (add_link, k) (Filled-refl input p g)
    | inr k ↦ rw (add_link, k, e) (Filled-refl input p g)
  ]
]

add_links-Filled :
    (input : Input) (ls : List Link) (p : Plan)
    → IsGood input p
    → Filled input p (add_links input ls p)
unfolding add_links
add_links-Filled input [] p g = Filled-refl input p g
add_links-Filled input (l ∷ ls) p g =
    elim (Bool-cases (has l.from p.node_ids && has l.to p.node_ids && can_add input 1 p)) [
      | inr c ↦ rw c (add_links-Filled input ls p g)
      | inl c ↦
          let here = add_link-Filled input l p g (ground (arith, c)) in
          rw c (
            Filled-trans input p (add_link input l.from l.to p) _ here
              (add_links-Filled input ls (add_link input l.from l.to p) here.good))
    ]

-- The selection, whatever the data and the order of the routes are: each node and link counts once and
-- the cost is the number of nodes, links and routes and within the budget; each route selected is a
-- non-empty first part of the route of the report, every node and every step of it is selected, and it
-- is complete exactly if it is the whole of a complete route; and each route selected is blocked or at its
-- end.
pub select-IsSelected :
    (input : Input) (ordered : List Route) → IsSelected input (select input ordered)
unfolding select
select-IsSelected input ordered =
    let first = open_routes-Opened input ordered empty_plan (empty_plan-IsGood input) in
    let (p, opened) = open_routes input ordered empty_plan in
    let second =
      extend_routes-IsSelected (steps_left opened + 1) input p opened (omega arith) first.good
        first.planned in
    let (q, states) = extend_routes (steps_left opened + 1) input p opened in
    let nodes = add_nodes-Filled input input.nodes q second.good in
    let third =
      Filled-trans input q _ _ nodes
        (add_links-Filled input input.links (add_nodes input input.nodes q) nodes.good) in
    elim (Bool-cases (is_nil input.routes)) [
      | inl e ↦ rw e (record {
        good = third.good;
        planned = All-Grows q _ states third.grows second.planned;
        finished = second.finished;
      })
      | inr e ↦ rw e second
    ]
