-- ===== src/Topology/Legacy/Choice/Covered.antt =====
-- frontend/topology-model.js, `adaptLegacyTopology`: what is accepted of a route is chosen.
use revealnetworktrouble.Prelude.{
  text_eq_self, if_holds, ℕ, zero, suc, ◌+◌, ◌<◌, ◌≡◌, refl, inl, inr, Bool, true, false, ◌||◌,
  List, [], ◌∷◌, ◌++◌, arith, ltb, Option-cases, length, get_or, Text, text_eq,
}
use revealnetworktrouble.Topology.Data.{has, pair_key, data_node_limit, data_link_limit}
use revealnetworktrouble.Topology.Legacy.Routes.{Observation}
use revealnetworktrouble.Topology.Legacy.Choice.{
  refuse_link, refuse_node, accept, Progress, Group, Chosen, keys_of, step_keys, put_key,
  one_unless, accept_between, accept_step, can_go, can_go_at, scan, accept_at, group_step, round,
  choose,
}
use revealnetworktrouble.Topology.Legacy.Choice.Total.{has-put_key, scan-can_go}

-- The first steps of a route are chosen, with both their nodes.
unfoldable pub Covers : Chosen → ℕ → Text → List (Text × Observation) → Type 0
Covers c zero from steps = Unit {0}
Covers c (suc n) from [] = ⊥
Covers c (suc n) from (s ∷ ss) =
    (has from c.nodes ≡ true)
    × (has s.1.key c.nodes ≡ true)
    × (has (pair_key from s.1.key) c.links ≡ true)
    × Covers c n s.1.key ss

abbrev pub IsCovered : Chosen → Progress → Type 0
IsCovered c p = Covers c p.accepted p.route.first.key p.route.steps

unfoldable pub AreCovered : Chosen → List Progress → Type 0
AreCovered c [] = Unit {0}
AreCovered c (p ∷ ps) = IsCovered c p × AreCovered c ps

unfoldable pub GroupsCovered : Chosen → List Group → Type 0
GroupsCovered c [] = Unit {0}
GroupsCovered c (g ∷ gs) = AreCovered c g.routes × GroupsCovered c gs

-- Nothing is taken back.
abbrev Grows : Chosen → Chosen → Type 0
Grows c d =
    ((t : Text) → has t c.nodes ≡ true → has t d.nodes ≡ true)
    × ((t : Text) → has t c.links ≡ true → has t d.links ≡ true)

Covers-grow :
    (c d : Chosen) (n : ℕ) (from : Text) (ss : List (Text × Observation))
    → Grows c d
    → Covers c n from ss
    → Covers d n from ss
unfolding Covers
Covers-grow c d zero from ss g h = tt
Covers-grow c d (suc n) from [] g h = h
Covers-grow c d (suc n) from (s ∷ ss) g (one, two, edge, rest) = (
  g.0 from one,
  g.0 s.1.key two,
  g.1 (pair_key from s.1.key) edge,
  Covers-grow c d n s.1.key ss g rest,
)

AreCovered-grow :
    (c d : Chosen) (ps : List Progress) → Grows c d → AreCovered c ps → AreCovered d ps
unfolding AreCovered
AreCovered-grow c d [] g h = tt
AreCovered-grow c d (p ∷ ps) g (here, rest) = (
  Covers-grow c d p.accepted p.route.first.key p.route.steps g here,
  AreCovered-grow c d ps g rest,
)

GroupsCovered-grow :
    (c d : Chosen) (gs : List Group) → Grows c d → GroupsCovered c gs → GroupsCovered d gs
unfolding GroupsCovered
GroupsCovered-grow c d [] g h = tt
GroupsCovered-grow c d (x ∷ xs) g (here, rest) =
    (AreCovered-grow c d x.routes g here, GroupsCovered-grow c d xs g rest)

-- One step more, when its nodes and its link are chosen.
Covers-more :
    (c : Chosen) (n : ℕ) (from : Text) (ss : List (Text × Observation))
    → n < length ss
    → has (get_or (from ∷ step_keys ss) n []) c.nodes ≡ true
    → has (get_or (from ∷ step_keys ss) (suc n) []) c.nodes ≡ true
    → has
        (pair_key (get_or (from ∷ step_keys ss) n []) (get_or (from ∷ step_keys ss) (suc n) []))
        c.links
      ≡ true
    → Covers c n from ss
    → Covers c (suc n) from ss
unfolding Covers
Covers-more c n from [] lt one two edge h = absurd (omega (arith, lt))
Covers-more c zero from (s ∷ ss) lt one two edge h = (one, two, edge, tt)
Covers-more c (suc n) from (s ∷ ss) lt one two edge (a, b, e, rest) =
    (a, b, e, Covers-more c n s.1.key ss (omega (arith, lt)) one two edge rest)

or_true : (b : Bool) → (b || true) ≡ true
or_true true = refl
or_true false = refl

has_self : (t : Text) (ks : List Text) → has t (ks ++ t ∷ []) ≡ true
has_self t [] = rw (text_eq_self t) refl
has_self t (k ∷ ks) = rw (has_self t ks) (or_true (text_eq t k))

has-put_key_self : (t : Text) (ks : List Text) → has t (put_key t ks) ≡ true
has-put_key_self t ks =
    if_holds (λ (xs : List Text). has t xs ≡ true) (has t ks) ks (ks ++ t ∷ []) (λ h. h)
      (λ _. has_self t ks)

-- What a try does to its route.
abbrev Kept : Chosen → Progress → Chosen × Progress → Type 0
Kept c p x = Grows c x.0 × IsCovered x.0 x.1

same-Kept :
    (c d : Chosen) (p q : Progress)
    → Grows c d
    → Covers c q.accepted q.route.first.key q.route.steps
    → Kept c p (d, q)
same-Kept c d p q g h = (g, Covers-grow c d q.accepted q.route.first.key q.route.steps g h)

accept-Grows : (from to : Text) (c : Chosen) (p : Progress) → Grows c (accept from to c p).0
accept-Grows from to c p = (
  (λ t q. has-put_key t to (put_key from c.nodes) (has-put_key t from c.nodes q)),
  (λ t q. has-put_key t (pair_key from to) c.links q),
)

-- The step of a route that can go on.
accept-Kept :
    (c : Chosen) (p : Progress)
    → p.accepted < length p.route.steps
    → IsCovered c p
    → Kept c p (
        accept
          (get_or (keys_of p.route) p.accepted [])
          (get_or (keys_of p.route) (suc p.accepted) [])
          c
          p)
accept-Kept c p lt h =
    let from = get_or (keys_of p.route) p.accepted [] in
    let to = get_or (keys_of p.route) (suc p.accepted) [] in
    let d = (accept from to c p).0 in
    let grows = accept-Grows from to c p in
    (
      grows,
      Covers-more d p.accepted p.route.first.key p.route.steps lt
          (has-put_key from to (put_key from c.nodes) (has-put_key_self from c.nodes))
          (has-put_key_self to (put_key from c.nodes)) (has-put_key_self (pair_key from to) c.links)
          (Covers-grow c d p.accepted p.route.first.key p.route.steps grows h),
    )

can_go-lt : (p : Progress) → can_go p ≡ true → p.accepted < length p.route.steps
can_go-lt p g = ground (arith, g)

accept_step-Kept :
    (c : Chosen) (p : Progress) → can_go p ≡ true → IsCovered c p → Kept c p (accept_step c p)
unfolding accept_step accept_between
accept_step-Kept c p g h =
    let from = get_or (keys_of p.route) p.accepted [] in
    let to = get_or (keys_of p.route) (suc p.accepted) [] in
    if_holds (Kept c p)
      (ltb data_node_limit
        (length c.nodes + (one_unless (has from c.nodes) + one_unless (has to c.nodes))))
      (refuse_node c p) _
      (λ _. same-Kept c (refuse_node c p).0 p (refuse_node c p).1 ((λ t q. q), (λ t q. q)) h)
      (λ _.
        if_holds (Kept c p)
          (ltb data_link_limit (length c.links + one_unless (has (pair_key from to) c.links)))
          (refuse_link c p) (accept from to c p)
          (λ _. same-Kept c (refuse_link c p).0 p (refuse_link c p).1 ((λ t q. q), (λ t q. q)) h)
          (λ _. accept-Kept c p (can_go-lt p g) h))

accept_at-AreCovered :
    (i : ℕ) (c : Chosen) (ps : List Progress)
    → can_go_at i ps ≡ true
    → AreCovered c ps
    → Grows c (accept_at i c ps).0 × AreCovered (accept_at i c ps).0 (accept_at i c ps).1
unfolding accept_at AreCovered
accept_at-AreCovered i c [] g h = cc
accept_at-AreCovered zero c (p ∷ ps) g (here, rest) =
    let (grows, kept) = accept_step-Kept c p g here in
    (grows, (kept, AreCovered-grow c (accept_step c p).0 ps grows rest))
accept_at-AreCovered (suc i) c (p ∷ ps) g (here, rest) =
    let (grows, kept) = accept_at-AreCovered i c ps g rest in
    (
      grows,
      (
        Covers-grow c (accept_at i c ps).0 p.accepted p.route.first.key p.route.steps grows here,
        kept,
      ),
    )

abbrev KeptGroup : Chosen → Chosen × Group × Bool → Type 0
KeptGroup c x = Grows c x.0 × AreCovered x.0 x.1.routes

group_step-KeptGroup :
    (c : Chosen) (g : Group) → AreCovered c g.routes → KeptGroup c (group_step c g)
unfolding group_step
group_step-KeptGroup c g h =
    elim (Option-cases (scan (length g.routes) g.cursor g.routes))
      as (λ _. KeptGroup c (group_step c g)) [
        | inl n ↦ rw (group_step, n) (((λ t q. q), (λ t q. q)), h)
        | inr (i, s) ↦
            rw (group_step, s)
              (accept_at-AreCovered i c g.routes
                (scan-can_go (length g.routes) g.cursor g.routes i s) h)
      ]

abbrev KeptGroups : Chosen → Chosen × List Group × Bool → Type 0
KeptGroups c x = Grows c x.0 × GroupsCovered x.0 x.1

round-KeptGroups : (c : Chosen) (gs : List Group) → GroupsCovered c gs → KeptGroups c (round c gs)
unfolding round GroupsCovered
round-KeptGroups c [] h = (((λ t q. q), (λ t q. q)), tt)
round-KeptGroups c (g ∷ gs) (here, rest) =
    let d = (group_step c g).0 in
    let (one, kept) = group_step-KeptGroup c g here in
    let (two, others) = round-KeptGroups d gs (GroupsCovered-grow c d gs one rest) in
    (
      ((λ t q. two.0 t (one.0 t q)), (λ t q. two.1 t (one.1 t q))),
      (AreCovered-grow d (round d gs).0 (group_step c g).1.routes two kept, others),
    )

pub choose-GroupsCovered :
    (fuel : ℕ) (c : Chosen) (gs : List Group)
    → GroupsCovered c gs
    → GroupsCovered (choose fuel c gs).0 (choose fuel c gs).1
unfolding choose
choose-GroupsCovered zero c gs h = h
choose-GroupsCovered (suc fuel) c gs h =
    let (_, kept) = round-KeptGroups c gs h in
    if_holds (λ (x : Chosen × List Group). GroupsCovered x.0 x.1) (round c gs).2 _ _
      (λ _. choose-GroupsCovered fuel (round c gs).0 (round c gs).1 kept) (λ _. kept)
