-- ===== src/Topology/Legacy/Model/Closed.antt =====
-- frontend/topology-model.js, `adaptLegacyTopology`: the model is within its limits and names its own nodes only.
use revealnetworktrouble.Prelude.{
  ℕ, zero, suc, ◌+◌, ◌≤◌, ◌<◌, ◌≡◌, inl, inr, true, ◌&&◌, Option, List, [], ◌∷◌, ◌++◌, map, arith,
  ltb, ltb→lt, Bool-cases, Option-cases, length, is_nil, take, keep, length-map, All, Text,
}
use revealnetworktrouble.Topology.Legacy.Model.Identities.{
  nodes_some, nodes_none, is_node_id, keep_yes, keep_no, id_of-is_node_id,
}
use revealnetworktrouble.Topology.Data.{has}
use revealnetworktrouble.Topology.Legacy.Routes.{Observation, LegacyRoute, RawResult, legacy_routes}
use revealnetworktrouble.Topology.Legacy.Choice.{Progress, Group, Chosen, choose_routes}
use revealnetworktrouble.Topology.Legacy.Choice.Covered.{
  Covers, IsCovered, AreCovered, GroupsCovered,
}
use revealnetworktrouble.Topology.Legacy.Choice.Ended.{IsChosen, choose_routes-IsChosen}
use revealnetworktrouble.Topology.Legacy.Model.{
  LegacyNode, LegacyLink, ModelRoute, LegacyModel, find_sum, nodes_from, id_of, link_of, route_of,
  is_chosen, all_routes, model_of, adapt_legacy_topology,
}
use revealnetworktrouble.Topology.Legacy.Sums.{
  NodeSum, LinkSum, accepted_observations, node_sums, link_sums,
}
use revealnetworktrouble.Topology.Legacy.Model.Sums.{AreSummed, node_sums-AreSummed, or_cases}
use revealnetworktrouble.Topology.Legacy.Model.Links.{
  IsJoined, link_sums-AreDistinct, link_sums-AreJoined, links-le,
}

-- The nodes of the accepted part of a route are chosen.
Covers-nodes :
    (c : Chosen) (n : ℕ) (from : Text) (ss : List (Text × Observation))
    → Covers c n from ss
    → All (λ (o : Observation). has o.key c.nodes ≡ true) (map (λ s. s.1) (take n ss))
unfolding Covers
Covers-nodes c zero from ss h = tt
Covers-nodes c (suc n) from [] h = tt
Covers-nodes c (suc n) from (s ∷ ss) (one, two, edge, rest) =
    (two, Covers-nodes c n s.1.key ss rest)

Covers-first :
    (c : Chosen) (n : ℕ) (from : Text) (ss : List (Text × Observation))
    → 0 < n
    → Covers c n from ss
    → has from c.nodes ≡ true
unfolding Covers
Covers-first c zero from ss lt h = absurd (omega (arith, lt))
Covers-first c (suc n) from [] lt h = absurd h
Covers-first c (suc n) from (s ∷ ss) lt h = h.0

abbrev AreChosen : Chosen → Progress → Type 0
AreChosen c p = All (λ (o : Observation). has o.key c.nodes ≡ true) (accepted_observations p)

is_chosen-AreChosen :
    (c : Chosen) (p : Progress) → is_chosen c.nodes p ≡ true → IsCovered c p → AreChosen c p
is_chosen-AreChosen c p h v = (
  elim (or_cases (ltb 0 p.accepted) (is_nil p.route.steps && has p.route.first.key c.nodes) h) [
    | inl some_step ↦
        Covers-first c p.accepted p.route.first.key p.route.steps (ltb→lt _ _ some_step) v
    | inr alone ↦ ground (arith, alone)
  ],
  Covers-nodes c p.accepted p.route.first.key p.route.steps v,
)

AreCovered-append :
    (c : Chosen) (ps qs : List Progress)
    → AreCovered c ps
    → All (IsCovered c) qs
    → All (IsCovered c) (ps ++ qs)
unfolding AreCovered
AreCovered-append c [] qs h k = k
AreCovered-append c (p ∷ ps) qs (here, rest) k = (here, AreCovered-append c ps qs rest k)

all_routes-AreCovered :
    (c : Chosen) (gs : List Group) → GroupsCovered c gs → All (IsCovered c) (all_routes gs)
unfolding GroupsCovered
all_routes-AreCovered c [] h = tt
all_routes-AreCovered c (g ∷ gs) (here, rest) =
    AreCovered-append c g.routes (all_routes gs) here (all_routes-AreCovered c gs rest)

-- The routes that are shown, with what is known of all.
keep-Chosen :
    (c : Chosen) (ps : List Progress)
    → All (IsCovered c) ps
    → All (λ (p : Progress). IsCovered c p × AreChosen c p) (keep (is_chosen c.nodes) ps)
keep-Chosen c [] h = tt
keep-Chosen c (p ∷ ps) (here, rest) = elim (Bool-cases (is_chosen c.nodes p)) [
  | inl y ↦
      rw (keep_yes (is_chosen c.nodes) p ps y)
        ((here, is_chosen-AreChosen c p y here), keep-Chosen c ps rest)
  | inr n ↦ rw (keep_no (is_chosen c.nodes) p ps n) (keep-Chosen c ps rest)
]

length-nodes_from :
    (index : ℕ) (keys : List Text) (sums : List NodeSum)
    → length (nodes_from index keys sums) ≤ length keys
unfolding nodes_from
length-nodes_from index [] sums = omega arith
length-nodes_from index (k ∷ ks) sums = elim (Option-cases (find_sum k sums)) [
  | inl none_found ↦
      rw (nodes_none index k ks sums none_found) (omega (arith, length-nodes_from index ks sums))
  | inr (a, found) ↦
      rw (nodes_some index k ks sums a found) (omega (arith, length-nodes_from (index + 1) ks sums))
]

abbrev KnowsLink : List LegacyNode → LegacyLink → Type 0
KnowsLink nodes l = (is_node_id nodes l.from ≡ true) × (is_node_id nodes l.to ≡ true)

abbrev KnowsRoute : List LegacyNode → ModelRoute → Type 0
KnowsRoute nodes r = All (λ (id : Option Text). is_node_id nodes id ≡ true) r.node_ids

-- A model within the limits whose links and routes name nodes of the model.
unfoldable pub IsModel : LegacyModel → Type 0
IsModel m =
    (length m.nodes ≤ 500)
    × (length m.links ≤ 1000)
    × All (KnowsLink m.nodes) m.links
    × All (KnowsRoute m.nodes) m.routes

module _ (c : Chosen) (sums : List NodeSum) where
  knows_links :
      (ls : List LinkSum)
      → All (IsJoined c sums) ls
      → All (KnowsLink (nodes_from 0 c.nodes sums)) (map (link_of c.nodes sums) ls)
  unfolding link_of
  knows_links [] h = tt
  knows_links (l ∷ ls) ((_, (from, to, _, one, two)), rest) = (
    (id_of-is_node_id 0 l.from c.nodes sums from one, id_of-is_node_id 0 l.to c.nodes sums to two),
    knows_links ls rest,
  )

  knows_ids :
      (os : List Observation)
      → All (λ (o : Observation). has o.key c.nodes ≡ true) os
      → AreSummed sums os
      → All
          (λ (id : Option Text). is_node_id (nodes_from 0 c.nodes sums) id ≡ true)
          (map (λ o. id_of 0 o.key c.nodes sums) os)
  knows_ids [] h s = tt
  knows_ids (o ∷ os) (h, hs) (s, ss) =
      (id_of-is_node_id 0 o.key c.nodes sums h s, knows_ids os hs ss)

  knows_routes :
      (ps : List Progress)
      → All (λ (p : Progress). IsCovered c p × AreChosen c p) ps
      → All (λ (p : Progress). AreSummed sums (accepted_observations p)) ps
      → All (KnowsRoute (nodes_from 0 c.nodes sums)) (map (route_of c.nodes sums) ps)
  unfolding route_of
  knows_routes [] h s = tt
  knows_routes (p ∷ ps) ((_, h), hs) (s, ss) =
      (knows_ids (accepted_observations p) h s, knows_routes ps hs ss)

all-IsCovered :
    (c : Chosen) (ps : List Progress)
    → All (λ (p : Progress). IsCovered c p × AreChosen c p) ps
    → All (IsCovered c) ps
all-IsCovered c [] h = tt
all-IsCovered c (p ∷ ps) ((v, _), rest) = (v, all-IsCovered c ps rest)

model_of-IsModel :
    (raw : List LegacyRoute) (c : Chosen) (ps : List Progress)
    → length c.nodes ≤ 500
    → length c.links ≤ 1000
    → All (λ (p : Progress). IsCovered c p × AreChosen c p) ps
    → IsModel (model_of raw c ps)
unfolding model_of IsModel
model_of-IsModel raw c ps few_nodes few_links h =
    let sums = node_sums ps [] in
    let summed = node_sums-AreSummed ps [] in
    let links = link_sums ps [] in
    let joined = link_sums-AreJoined c sums ps [] (all-IsCovered c ps h) summed tt in
    let some_links = links-le c sums links (link_sums-AreDistinct ps [] tt) joined in
    let some_nodes = length-nodes_from 0 c.nodes sums in
    (
      omega (arith, some_nodes, few_nodes),
      rw (length-map links (link_of c.nodes sums)) (omega (arith, some_links, few_links)),
      knows_links c sums links joined,
      knows_routes c sums ps h summed,
    )

-- For any results of a report, the model of adaptLegacyTopology has at most 500 nodes and 1000 links, both ends of
-- every link are nodes of the model, and so is every node that a route names.
pub adapt_legacy_topology-IsModel :
    (report : List RawResult) → IsModel (adapt_legacy_topology report)
unfolding adapt_legacy_topology IsChosen
adapt_legacy_topology-IsModel report =
    let raw = legacy_routes report in
    let c = (choose_routes raw).0 in
    let gs = (choose_routes raw).1 in
    let ((nodes, links), covered, _, _) = choose_routes-IsChosen raw in
    model_of-IsModel raw c (keep (is_chosen c.nodes) (all_routes gs)) nodes links
      (keep-Chosen c (all_routes gs) (all_routes-AreCovered c gs covered))
