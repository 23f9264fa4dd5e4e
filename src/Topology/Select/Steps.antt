-- ===== src/Topology/Select/Steps.antt =====
-- frontend/topology-model.js, `planTopologyDOM`: one step of a route keeps the plan in order.
use revealnetworktrouble.Prelude.{
  ℕ, ◌+◌, ◌-◌, ◌≤◌, ◌≡◌, ◌⊎◌, refl, ap, inl, inr, Bool, true, false, some, [], ◌∷◌, arith,
  if◌then◌else◌, Bool-cases, length, length-append, Text,
}
use revealnetworktrouble.Topology.Data.{Link, pair_key, has, find_node, find_link}
use revealnetworktrouble.Topology.Select.{
  Input, RouteState, Plan, add_node, add_link, one_unless, put_segment,
}
use revealnetworktrouble.Topology.Select.Invariant.{
  IsCounted, IsGood, Grows, Grows-refl, Grows-trans, IsPlanned, has_self, has_later,
}

-- What adding a node or a link does to a plan, for `extra` elements at most.
pub record Added (p q : Plan) (extra : ℕ) : Type 0 where
  pub counted : IsCounted q
  pub grows : Grows p q
  pub cost_le : q.cost ≤ p.cost + extra

same-Added : (p : Plan) (extra : ℕ) → IsCounted p → Added p p extra
same-Added p extra c = record { counted = c; grows = Grows-refl p; cost_le = omega arith }

pub add_node-Added :
    (input : Input) (id : Text) (p : Plan)
    → IsCounted p
    → Added p (add_node input id p) (one_unless (has id p.node_ids))
      × (has id (add_node input id p).node_ids ≡ true)
unfolding add_node
add_node-Added input id p c = elim (Bool-cases (has id p.node_ids)) [
  | inl h ↦ rw h (same-Added p 0 c, h)
  | inr h ↦ rw h (
    record {
      counted = record {
        cost_eq = omega (arith, c.cost_eq, length-append p.nodes (find_node id input.nodes ∷ []));
        ids_distinct = (h, c.ids_distinct);
        keys_distinct = c.keys_distinct;
        ids_length =
            omega (arith, c.ids_length, length-append p.nodes (find_node id input.nodes ∷ []));
        keys_length = c.keys_length;
      };
      grows = record { ids = λ t k. has_later t id p.node_ids k; keys = λ key k. k };
      cost_le = omega arith;
    },
    has_self id p.node_ids,
  )
]

pub add_node_keys :
    (input : Input) (id : Text) (p : Plan) → (add_node input id p).link_keys ≡ p.link_keys
unfolding add_node
add_node_keys input id p = elim (Bool-cases (has id p.node_ids)) [
  | inl h ↦ rw h refl
  | inr h ↦ rw h refl
]

pub add_link-Added :
    (input : Input) (from to : Text) (p : Plan) (l : Link)
    → IsCounted p
    → find_link (pair_key from to) input.links ≡ some l
    → Added p (add_link input from to p) (one_unless (has (pair_key from to) p.link_keys))
      × (has (pair_key from to) (add_link input from to p).link_keys ≡ true)
unfolding add_link
add_link-Added input from to p l c f = elim (Bool-cases (has (pair_key from to) p.link_keys)) [
  | inl h ↦ rw h (same-Added p 0 c, h)
  | inr h ↦
      rw (h, f)
        (
          record {
            counted = record {
              cost_eq = omega (arith, c.cost_eq, length-append p.links (l ∷ []));
              ids_distinct = c.ids_distinct;
              keys_distinct = (h, c.keys_distinct);
              ids_length = c.ids_length;
              keys_length = omega (arith, c.keys_length, length-append p.links (l ∷ []));
            };
            grows = record {
              ids = λ t k. k;
              keys = λ key k. has_later key (pair_key from to) p.link_keys k;
            };
            cost_le = omega arith;
          },
          has_self (pair_key from to) p.link_keys,
        )
]

abbrev pub IsDone : RouteState → Type 0
IsDone s = (s.blocked ≡ true) ⊎ (length s.route.node_ids ≤ s.cursor)

abbrev pub left : RouteState → ℕ
left s = length s.route.node_ids - s.cursor

abbrev pub one_if : Bool → ℕ
one_if b = if b then 1 else 0

-- The step of a route: what it keeps, and that it progresses or is done.
pub record Outcome (input : Input) (p : Plan) (s : RouteState) (r : Plan × RouteState × Bool)
    : Type 0 where
  pub good : IsGood input r.0
  pub grows : Grows p r.0
  pub planned : IsPlanned r.0 r.1
  pub nearer : left r.1 + one_if r.2 ≤ left s
  pub still : r.2 ≡ false → IsDone r.1

pub stay-Outcome :
    (input : Input) (p : Plan) (s : RouteState)
    → IsGood input p
    → IsPlanned p s
    → IsDone s
    → Outcome input p s (p, s, false)
stay-Outcome input p s g h d = record {
  good = g;
  grows = Grows-refl p;
  planned = h;
  nearer = omega arith;
  still = λ _. d;
}

-- The markers, the segments and the note on missing links do not matter.
pub put_segment-Added :
    (b : Bool) (from to : Text) (p q : Plan) (extra : ℕ)
    → Added p q extra
    → Added p (put_segment b from to q) extra
put_segment-Added true from to p q extra a = record {
  counted = record {
    cost_eq = a.counted.cost_eq;
    ids_distinct = a.counted.ids_distinct;
    keys_distinct = a.counted.keys_distinct;
    ids_length = a.counted.ids_length;
    keys_length = a.counted.keys_length;
  };
  grows = record { ids = a.grows.ids; keys = a.grows.keys };
  cost_le = a.cost_le;
}
put_segment-Added false from to p q extra a = a

pub put_segment-has :
    (b : Bool) (from to id key : Text) (q : Plan)
    → has id q.node_ids ≡ true
    → has key q.link_keys ≡ true
    → (has id (put_segment b from to q).node_ids ≡ true)
      × (has key (put_segment b from to q).link_keys ≡ true)
put_segment-has true from to id key q h k = (h, k)
put_segment-has false from to id key q h k = (h, k)

-- One hop of a route, with the node and the link of it added.
pub both-Added :
    (input : Input) (from to : Text) (p : Plan) (l : Link)
    → IsCounted p
    → find_link (pair_key from to) input.links ≡ some l
    → (let q = add_link input from to (add_node input to p) in
        Added p q (one_unless (has to p.node_ids) + one_unless (has (pair_key from to) p.link_keys))
        × (has to q.node_ids ≡ true)
        × (has (pair_key from to) q.link_keys ≡ true))
both-Added input from to p l c f =
    let (a, h) = add_node-Added input to p c in
    let (b, k) = add_link-Added input from to (add_node input to p) l a.counted f in
    let keys = ap (λ ks. one_unless (has (pair_key from to) ks)) (add_node_keys input to p) in
    (
      record {
        counted = b.counted;
        grows =
            Grows-trans p (add_node input to p) (add_link input from to (add_node input to p))
              a.grows b.grows;
        cost_le = omega (arith, a.cost_le, b.cost_le, keys);
      },
      b.grows.ids to h,
      k,
    )
