-- ===== src/Topology/Legacy/Choice.antt =====
-- frontend/topology-model.js, `adaptLegacyTopology`: which part of each route is accepted within the limits.
pub mod Total
pub mod Covered
pub mod Ended
use revealnetworktrouble.Prelude.{
  [], ℕ, zero, suc, ◌+◌, ◌-◌, ◌%◌, Bool, true, false, not, ◌&&◌, ◌||◌, Option, none, some, List,
  ◌∷◌, ◌++◌, map, ltb, ◌==◌, if◌then◌else◌, length, get_elem?, get_or, keep, Text,
}
use revealnetworktrouble.Topology.Data.{
  ip, hostname, unknown, has, pair_key, data_node_limit, data_link_limit, local,
}
use revealnetworktrouble.Topology.Legacy.Routes.{LegacyRoute, Observation}

-- A route with how many of its steps are accepted.
pub record Progress : Type 0 where
  pub route : LegacyRoute
  pub accepted : ℕ
  pub blocked : Bool

-- The routes of a result, and where the next round starts.
pub record Group : Type 0 where
  pub cursor : ℕ
  pub routes : List Progress

-- The keys of nodes in their order, the keys of links, and which limit was met.
pub record Chosen : Type 0 where
  pub nodes : List Text
  pub links : List Text
  pub node_limited : Bool
  pub link_limited : Bool

abbrev pub step_keys : List (Text × Observation) → List Text
step_keys [] = []
step_keys (s ∷ ss) = s.1.key ∷ step_keys ss

abbrev pub keys_of : LegacyRoute → List Text
keys_of r = r.first.key ∷ step_keys r.steps

abbrev pub put_key : Text → List Text → List Text
put_key key keys = if has key keys then keys else keys ++ key ∷ []

abbrev pub one_unless : Bool → ℕ
one_unless b = if b then 0 else 1

abbrev pub refuse_node : Chosen → Progress → Chosen × Progress
refuse_node c p = (record c { node_limited = true }, record p { blocked = true })

abbrev pub refuse_link : Chosen → Progress → Chosen × Progress
refuse_link c p = (record c { link_limited = true }, record p { blocked = true })

abbrev pub accept : Text → Text → Chosen → Progress → Chosen × Progress
accept from to c p = (
  record c {
    nodes = put_key to (put_key from c.nodes);
    links = put_key (pair_key from to) c.links;
  },
  record p { accepted = suc p.accepted },
)

-- One step more of a route, from one key to the next.
unfoldable pub accept_between : Text → Text → Chosen → Progress → Chosen × Progress
accept_between from to c p =
    let node_cost = one_unless (has from c.nodes) + one_unless (has to c.nodes) in
    let link_cost = one_unless (has (pair_key from to) c.links) in
    if ltb data_node_limit (length c.nodes + node_cost)
    then refuse_node c p
    else if ltb data_link_limit (length c.links + link_cost)
    then refuse_link c p
    else accept from to c p

unfoldable pub accept_step : Chosen → Progress → Chosen × Progress
unfolding accept_between
accept_step c p =
    accept_between (get_or (keys_of p.route) p.accepted [])
      (get_or (keys_of p.route) (suc p.accepted) []) c p

abbrev pub can_go : Progress → Bool
can_go p = not p.blocked && ltb p.accepted (length p.route.steps)

abbrev pub can_go_at : ℕ → List Progress → Bool
can_go_at i ps = elim (get_elem? ps i) [ none ↦ false | some p ↦ can_go p ]

-- The first route that can go on, from a position around the group.
unfoldable pub scan : ℕ → ℕ → List Progress → Option ℕ
scan zero position ps = none
scan (suc left) position ps =
    let later = scan left (position + 1) ps in
    if can_go_at (position % length ps) ps then some (position % length ps) else later

-- One step of the route at a position.
unfoldable pub accept_at : ℕ → Chosen → List Progress → Chosen × List Progress
unfolding accept_step
accept_at i c [] = (c, [])
accept_at zero c (p ∷ ps) = let (d, q) = accept_step c p in (d, q ∷ ps)
accept_at (suc i) c (p ∷ ps) = let (d, qs) = accept_at i c ps in (d, p ∷ qs)

-- A group in a round: whether one of its routes was tried.
unfoldable pub group_step : Chosen → Group → Chosen × Group × Bool
unfolding scan accept_at
group_step c g = elim (scan (length g.routes) g.cursor g.routes) [
  | none ↦ (c, g, false)
  | some i ↦
      let (d, ps) = accept_at i c g.routes in
      (d, record { cursor = (i + 1) % length g.routes; routes = ps }, true)
]

unfoldable pub round : Chosen → List Group → Chosen × List Group × Bool
unfolding group_step
round c [] = (c, [], false)
round c (g ∷ gs) =
    let (d, h, here) = group_step c g in
    let (e, hs, later) = round d gs in (e, h ∷ hs, here || later)

-- Rounds until nothing is tried.
unfoldable pub choose : ℕ → Chosen → List Group → Chosen × List Group
unfolding round
choose zero c gs = (c, gs)
choose (suc fuel) c gs =
    let (d, hs, active) = round c gs in
    let later = choose fuel d hs in if active then later else (d, hs)

-- What is left to try: every try accepts a step or blocks a route.
abbrev pub tries_left : Progress → ℕ
tries_left p = if p.blocked then 0 else length p.route.steps - p.accepted

abbrev pub tries_of : List Progress → ℕ
tries_of [] = 0
tries_of (p ∷ ps) = tries_left p + tries_of ps

abbrev pub all_tries : List Group → ℕ
all_tries [] = 0
all_tries (g ∷ gs) = tries_of g.routes + all_tries gs

-- The results in the order of their numbers, each once.
unfoldable pub insert_number : ℕ → List ℕ → List ℕ
insert_number i [] = i ∷ []
insert_number i (j ∷ js) =
    let later = insert_number i js in
    if i == j then j ∷ js else if ltb i j then i ∷ j ∷ js else j ∷ later

unfoldable pub numbers : List LegacyRoute → List ℕ
unfolding insert_number
numbers [] = []
numbers (r ∷ rs) = insert_number r.result_index (numbers rs)

abbrev pub fresh : LegacyRoute → Progress
fresh r = record { route = r; accepted = 0; blocked = false }

abbrev pub groups : List LegacyRoute → List Group
unfolding numbers
groups rs =
    map (λ i. record { cursor = 0; routes = map fresh (keep (λ r. r.result_index == i) rs) })
      (numbers rs)

abbrev pub is_local : LegacyRoute → Bool
is_local r = elim r.first.kind [ local ↦ true | ip ↦ false | hostname ↦ false | unknown ↦ false ]

-- The local node comes first, if a route starts at it.
abbrev pub local_keys : List LegacyRoute → List Text
local_keys [] = []
local_keys (r ∷ rs) = let later = local_keys rs in if is_local r then r.first.key ∷ [] else later

unfoldable pub choose_routes : List LegacyRoute → Chosen × List Group
unfolding choose numbers
choose_routes rs =
    let start : Chosen = record {
      nodes = local_keys rs;
      links = [];
      node_limited = false;
      link_limited = false;
    } in
    choose (all_tries (groups rs) + 1) start (groups rs)
