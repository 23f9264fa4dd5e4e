-- ===== src/Topology/Select/Invariant.antt =====
-- frontend/topology-model.js, `planTopologyDOM`: what holds of the plan while routes are selected.
use revealnetworktrouble.Prelude.{
  text_eq_self, ℕ, ◌+◌, ◌≤◌, ◌≡◌, refl, sym, ◌∙◌, ap, true, false, ◌&&◌, none, some, List, [], ◌∷◌,
  ◌++◌, arith, leb, ◌==◌, leb→le, length, take, last?, Text,
}
use mathlib.Core.Path.{subst}
use mathlib.Core.Option.{some-injective}
use revealnetworktrouble.Topology.Data.{pair_key, has}
use revealnetworktrouble.Topology.Select.{Input, RouteState, Plan, empty_plan, can_add}

abbrev pub Distinct : List Text → Type 0
Distinct [] = Unit {0}
Distinct (t ∷ ts) = (has t ts ≡ false) × Distinct ts

-- The cost is the number of elements, none of which is counted twice.
pub record IsCounted (p : Plan) : Type 0 where
  pub cost_eq : p.cost ≡ length p.nodes + length p.links + p.route_count
  pub ids_distinct : Distinct p.node_ids
  pub keys_distinct : Distinct p.link_keys
  pub ids_length : length p.node_ids ≡ length p.nodes
  pub keys_length : length p.link_keys ≡ length p.links

-- The cost is within the budget, too.
pub record IsGood (input : Input) (p : Plan) : Type 0 where
  pub counted : IsCounted p
  pub within : (b : ℕ) → input.budget ≡ some b → p.cost ≤ b

-- Nothing is taken out of the plan.
pub record Grows (p q : Plan) : Type 0 where
  pub ids : (id : Text) → has id p.node_ids ≡ true → has id q.node_ids ≡ true
  pub keys : (key : Text) → has key p.link_keys ≡ true → has key q.link_keys ≡ true

pub Grows-refl : (p : Plan) → Grows p p
Grows-refl p = record { ids = λ id h. h; keys = λ key h. h }

pub Grows-trans : (p q r : Plan) → Grows p q → Grows q r → Grows p r
Grows-trans p q r g h = record {
  ids = λ id k. h.ids id (g.ids id k);
  keys = λ key k. h.keys key (g.keys key k);
}

-- Every node of the list and every step of it is in the plan.
abbrev pub Joined : Plan → List Text → Type 0
Joined p [] = Unit {0}
Joined p (a ∷ []) = has a p.node_ids ≡ true
Joined p (a ∷ b ∷ t) =
    (has a p.node_ids ≡ true) × (has (pair_key a b) p.link_keys ≡ true) × Joined p (b ∷ t)

pub Joined-Grows : (p q : Plan) (ids : List Text) → Grows p q → Joined p ids → Joined q ids
Joined-Grows p q [] g h = tt
Joined-Grows p q (a ∷ []) g h = g.ids a h
Joined-Grows p q (a ∷ b ∷ t) g (h, k, j) =
    (g.ids a h, g.keys (pair_key a b) k, Joined-Grows p q (b ∷ t) g j)

pub Joined-snoc :
    (p : Plan) (ids : List Text) (from to : Text)
    → Joined p ids
    → last? ids ≡ some from
    → has (pair_key from to) p.link_keys ≡ true
    → has to p.node_ids ≡ true
    → Joined p (ids ++ to ∷ [])
Joined-snoc p [] from to j l k h = cc
Joined-snoc p (a ∷ []) from to j l k h =
    (j, subst (λ x. has (pair_key x to) p.link_keys ≡ true) (sym (some-injective _ _ l)) k, h)
Joined-snoc p (a ∷ b ∷ t) from to (i, m, j) l k h = (i, m, Joined-snoc p (b ∷ t) from to j l k h)

-- A route as far as it is planned: its first `cursor` nodes.
pub record IsPlanned (p : Plan) (s : RouteState) : Type 0 where
  pub started : 1 ≤ s.cursor
  pub inside : s.cursor ≤ length s.route.node_ids
  pub prefix : s.node_ids ≡ take s.cursor s.route.node_ids
  pub joined : Joined p s.node_ids
  pub complete_eq : s.complete ≡ (s.route.complete && s.cursor == length s.route.node_ids)

pub IsPlanned-Grows : (p q : Plan) (s : RouteState) → Grows p q → IsPlanned p s → IsPlanned q s
IsPlanned-Grows p q s g h = record {
  started = h.started;
  inside = h.inside;
  prefix = h.prefix;
  joined = Joined-Grows p q s.node_ids g h.joined;
  complete_eq = h.complete_eq;
}

pub empty_plan-IsGood : (input : Input) → IsGood input empty_plan
empty_plan-IsGood input = record {
  counted = record {
    cost_eq = refl;
    ids_distinct = tt;
    keys_distinct = tt;
    ids_length = refl;
    keys_length = refl;
  };
  within = λ b _. omega arith;
}

pub has_self : (t : Text) (ts : List Text) → has t (t ∷ ts) ≡ true
has_self t ts = ground (arith, text_eq_self t)

pub has_later : (t u : Text) (ts : List Text) → has t ts ≡ true → has t (u ∷ ts) ≡ true
has_later t u ts h = ground (arith, h)

pub can_add→le :
    (input : Input) (cost : ℕ) (p : Plan) (b : ℕ)
    → can_add input cost p ≡ true
    → input.budget ≡ some b
    → p.cost + cost ≤ b
can_add→le input cost p b h e =
    leb→le _ _ (sym (ap (λ o. elim o [ none ↦ true | some b ↦ leb (p.cost + cost) b ]) e) ∙ h)
