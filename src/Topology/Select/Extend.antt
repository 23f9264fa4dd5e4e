-- ===== src/Topology/Select/Extend.antt =====
-- frontend/topology-model.js, `planTopologyDOM`: the second loop, one route at a time.
use revealnetworktrouble.Prelude.{
  ℕ, ◌+◌, ◌-◌, ◌≡◌, refl, sym, ◌∙◌, ap, inl, inr, Bool, true, false, ◌&&◌, some, [], ◌∷◌, ◌++◌,
  arith, ltb, ◌==◌, Bool-cases, Option-cases, length, get_elem?, last?, Text,
}
use revealnetworktrouble.Topology.Data.{
  pair_key, has, find_node, find_link, has_geo, data_link_limit,
}
use revealnetworktrouble.Topology.Select.{
  Input, RouteState, Plan, can_add, add_node, add_link, one_unless, put_segment, extend,
}
use revealnetworktrouble.Topology.Select.Invariant.{
  IsGood, Grows-refl, Joined-Grows, Joined-snoc, IsPlanned, can_add→le,
}
use revealnetworktrouble.Topology.Select.Prefixes.{get_elem?-lt, take_next, last-take}
use revealnetworktrouble.Topology.Select.Steps.{
  Added, Outcome, put_segment-Added, put_segment-has, both-Added,
}

-- A route that meets no link.
blocked-Outcome :
    (input : Input) (p : Plan) (s : RouteState)
    → IsGood input p
    → IsPlanned p s
    → Outcome input p s (record p { missing_link = true }, record s { blocked = true }, false)
blocked-Outcome input p s g h = record {
  good = record {
    counted = record {
      cost_eq = g.counted.cost_eq;
      ids_distinct = g.counted.ids_distinct;
      keys_distinct = g.counted.keys_distinct;
      ids_length = g.counted.ids_length;
      keys_length = g.counted.keys_length;
    };
    within = g.within;
  };
  grows = record { ids = λ id k. k; keys = λ key k. k };
  planned = record {
    started = h.started;
    inside = h.inside;
    prefix = h.prefix;
    joined =
        Joined-Grows p (record p { missing_link = true }) s.node_ids
          (record { ids = λ id k. k; keys = λ key k. k }) h.joined;
    complete_eq = h.complete_eq;
  };
  nearer = omega arith;
  still = λ _. inl refl;
}

-- A route that does not fit.
full-Outcome :
    (input : Input) (p : Plan) (s : RouteState)
    → IsGood input p
    → IsPlanned p s
    → Outcome input p s (p, record s { blocked = true }, false)
full-Outcome input p s g h = record {
  good = g;
  grows = Grows-refl p;
  planned = record {
    started = h.started;
    inside = h.inside;
    prefix = h.prefix;
    joined = h.joined;
    complete_eq = h.complete_eq;
  };
  nearer = omega arith;
  still = λ _. inl refl;
}

-- A route that goes on.
longer-Outcome :
    (input : Input) (from to : Text) (p q : Plan) (s : RouteState) (extra : ℕ)
    → IsGood input p
    → IsPlanned p s
    → get_elem? s.route.node_ids (s.cursor - 1) ≡ some from
    → get_elem? s.route.node_ids s.cursor ≡ some to
    → Added p q extra
    → can_add input extra p ≡ true
    → has to q.node_ids ≡ true
    → has (pair_key from to) q.link_keys ≡ true
    → Outcome input p s (
      q,
      record s {
        node_ids = s.node_ids ++ to ∷ [];
        cursor = s.cursor + 1;
        complete = s.route.complete && s.cursor + 1 == length s.route.node_ids;
      },
      true,
    )
longer-Outcome input from to p q s extra g h f t a c i k = record {
  good = record {
    counted = a.counted;
    within = λ b e. omega (arith, a.cost_le, can_add→le input extra p b c e);
  };
  grows = a.grows;
  planned = record {
    started = omega arith;
    inside = omega (arith, get_elem?-lt s.route.node_ids s.cursor t);
    prefix = ap (λ ids. ids ++ to ∷ []) h.prefix ∙ sym (take_next s.route.node_ids s.cursor t);
    joined =
        Joined-snoc q s.node_ids from to (Joined-Grows p q s.node_ids a.grows h.joined)
          (ap last? h.prefix ∙ last-take s.route.node_ids s.cursor h.started f) k i;
    complete_eq = refl;
  };
  nearer = omega (arith, get_elem?-lt s.route.node_ids s.cursor t);
  still = λ e. cc;
}

pub extend-Outcome :
    (input : Input) (from to : Text) (p : Plan) (s : RouteState)
    → IsGood input p
    → IsPlanned p s
    → get_elem? s.route.node_ids (s.cursor - 1) ≡ some from
    → get_elem? s.route.node_ids s.cursor ≡ some to
    → Outcome input p s (extend input from to p s)
unfolding extend
extend-Outcome input from to p s g h f t =
    elim (Option-cases (find_link (pair_key from to) input.links)) [
      | inl e ↦ rw (extend, e) (blocked-Outcome input p s g h)
      | inr (l, e) ↦
          let cost =
            one_unless (has to p.node_ids) + one_unless (has (pair_key from to) p.link_keys) in
          let q = add_link input from to (add_node input to p) in
          elim (Bool-cases (can_add input cost p)) [
            | inl c ↦
                let (a, i, k) = both-Added input from to p l g.counted e in
                let seg : Bool =
                  has_geo (find_node from input.nodes)
                  && has_geo (find_node to input.nodes)
                  && ltb (length p.segments) data_link_limit
                  && has (pair_key from to) q.link_keys in
                let (i', k') = put_segment-has seg from to to (pair_key from to) q i k in
                rw (extend, e, c)
                  (longer-Outcome input from to p (put_segment seg from to q) s cost g h f t
                    (put_segment-Added seg from to p q cost a) c i' k')
            | inr c ↦ rw (extend, e, c) (full-Outcome input p s g h)
          ]
    ]
