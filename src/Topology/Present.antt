-- ===== src/Topology/Present.antt =====
-- frontend/topology-presentation.js, `presentTopology`: unresponsive hops are folded or left out, and the
-- result is cut to a budget of elements.
pub mod Cut
pub mod Bounded
pub mod Spans
pub mod Kept
use revealnetworktrouble.Prelude.{
  ◌>>=◌, [], to_radix_from, ℕ, zero, suc, ◌+◌, ◌-◌, min, max, Bool, true, false, not, ◌&&◌, Option,
  none, some, List, ◌∷◌, ◌++◌, map, reverse, String, ltb, if◌then◌else◌, length, Text, codes,
  text_eq, to_radix,
}
use revealnetworktrouble.Topology.Data.{
  find_link, Node, is_unknown, Link, Route, pair_key, has, find_node,
}

-- A run of hops that do not answer, as one element.
pub record Group : Type 0 where
  pub id : Text
  pub member_ids : List Text
  pub folded_count : ℕ
  pub hop_min : ℕ
  pub hop_max : ℕ

pub data Shown : Type 0 where
  single : Node → Shown
  folded : Group → Shown

abbrev pub shown_id : Shown → Text
shown_id (single n) = n.id
shown_id (folded g) = g.id

-- A bypass says how many hops it leaves out.
pub data ConnectorKind : Type 0 where
  bypass : ℕ → ConnectorKind
  fold : ConnectorKind

pub record Connector : Type 0 where
  pub id : Text
  pub from : Text
  pub to : Text
  pub kind : ConnectorKind
  pub route_occurrence : ℕ

pub record Token : Type 0 where
  pub id : Text
  pub start : ℕ
  pub end : ℕ
  pub group : Bool

-- `nodes`, `observed`, `connectors` and `usedIDs`; the maps keep the order of first insertion.
pub record Scene : Type 0 where
  pub nodes : List Shown
  pub observed : List Link
  pub connectors : List Connector
  pub used_ids : List Text

unfoldable pub put_node : Shown → List Shown → List Shown
put_node n [] = n ∷ []
put_node n (m ∷ ms) =
    let later = put_node n ms in if text_eq (shown_id n) (shown_id m) then n ∷ ms else m ∷ later

abbrev pub link_key : Link → Text
link_key l = pair_key l.from l.to

unfoldable pub put_observed : Link → List Link → List Link
put_observed l [] = l ∷ []
put_observed l (m ∷ ms) =
    let later = put_observed l ms in if text_eq (link_key l) (link_key m) then l ∷ ms else m ∷ later

-- `unique`; among one name more than are used, one is free.
unfoldable pub unique_from : ℕ → List Text → Text → Text
unique_from zero used id = id
unique_from (suc fuel) used id =
    let later = unique_from fuel used (id ++ b':' ∷ []) in if has id used then later else id

abbrev pub unique : List Text → Text → Text
unique used base = unique_from (length used + 1) used base

abbrev pub number : ℕ → Text
number n = to_radix 10 n

-- `presentation:<name>:<n>:<m>` and so on.
abbrev pub presentation_id : String → List ℕ → Text
presentation_id name ns = codes "presentation:" ++ codes name ++ tail ns
  where
    tail : List ℕ → Text
    tail [] = []
    tail (n ∷ ns) = b':' ∷ number n ++ tail ns

abbrev pub smallest : ℕ → List Node → ℕ → ℕ
smallest start [] m = m
smallest start (n ∷ ns) m = smallest start ns (min m (elim n.hop_min [ none ↦ start | some h ↦ h ]))

abbrev pub largest : ℕ → List Node → ℕ → ℕ
largest end [] m = m
largest end (n ∷ ns) m = largest end ns (max m (elim n.hop_max [ none ↦ end | some h ↦ h ]))

abbrev pub hop_or : ℕ → Option ℕ → ℕ
hop_or d none = d
hop_or d (some h) = h

-- The group for a run of nodes, the first of which stands at `start`.
unfoldable pub group_of : Route → ℕ → ℕ → Node → List Node → List Text → Group
unfolding unique_from to_radix_from
group_of route occurrence start first others used =
    let count = suc (length others) in
    let end = start + count - 1 in
    record {
      id = unique used (
          presentation_id "unknown" (route.result_index ∷ route.attempt ∷ occurrence ∷ start ∷ []));
      member_ids = map (λ n. n.id) (first ∷ others);
      folded_count = count;
      hop_min = smallest start others (hop_or start first.hop_min);
      hop_max = largest end others (hop_or end first.hop_max);
    }

-- Put a run, if there is one and it is shown.
abbrev pub put_run : Bool → Route → ℕ → ℕ → List Node → Scene → Scene × List Token
put_run show route occurrence start [] scene = (scene, [])
put_run false route occurrence start (n ∷ ns) scene = (scene, [])
put_run true route occurrence start (n ∷ ns) scene =
    let g = group_of route occurrence start n ns scene.used_ids in
    (
      record scene { nodes = put_node (folded g) scene.nodes; used_ids = g.id ∷ scene.used_ids },
      record { id = g.id; start = start; end = start + length ns; group = true } ∷ [],
    )

-- The tokens of a route, from hop `i` on behind the run `run`, which started at `start`.
unfoldable pub tokens_from :
    Bool → Route → ℕ → ℕ → ℕ → List Node → List Node → Scene → Scene × List Token
unfolding put_node group_of
tokens_from show route occurrence i start run [] scene =
    put_run show route occurrence start run scene
tokens_from show route occurrence i start run (n ∷ ns) scene = elim (is_unknown n.kind) [
  | false ↦
      let (put, before) = put_run show route occurrence start run scene in
      let (done, later) =
        tokens_from show route occurrence (i + 1) (i + 1) [] ns
          (record put { nodes = put_node (single n) put.nodes }) in
      (done, before ++ record { id = n.id; start = i; end = i; group = false } ∷ later)
  | true ↦ tokens_from show route occurrence (i + 1) start (run ++ n ∷ []) ns scene
]

abbrev pub put_connector : Connector → Scene → Scene × Option Text
put_connector c scene = (
  record scene { connectors = scene.connectors ++ c ∷ []; used_ids = c.id ∷ scene.used_ids },
  some c.id,
)

abbrev pub put_link : Option Link → Scene → Scene × Option Text
put_link none scene = (scene, none)
put_link (some l) scene = (record scene { observed = put_observed l scene.observed }, none)

-- What joins two tokens that follow each other: the `i`-th step of a route. Of two links with one key
-- the later one counts.
unfoldable pub join_tokens : List Link → ℕ → ℕ → Token → Token → Scene → Scene × Option Text
unfolding put_observed unique_from to_radix_from
join_tokens links occurrence i from to scene =
    let skipped = to.start - from.end - 1 in
    let connector : ConnectorKind → String → Connector = λ kind name. record {
      id = unique scene.used_ids (presentation_id name (occurrence ∷ i ∷ []));
      from = from.id;
      to = to.id;
      kind = kind;
      route_occurrence = occurrence;
    } in
    if ltb 0 skipped
    then put_connector (connector (bypass skipped) "bypass") scene
    else if not from.group && not to.group
    then put_link (find_link (pair_key from.id to.id) (reverse links)) scene
    else put_connector (connector fold "fold") scene

-- The steps of a route, each with the identity of its connector, if it has one.
unfoldable pub join_all : List Link → ℕ → ℕ → List Token → Scene → Scene × List (Option Text)
unfolding join_tokens
join_all links occurrence i [] scene = (scene, [])
join_all links occurrence i (t ∷ []) scene = (scene, [])
join_all links occurrence i (t ∷ u ∷ ts) scene =
    let (next, span) = join_tokens links occurrence i t u scene in
    let (done, spans) = join_all links occurrence (i + 1) (u ∷ ts) next in (done, span ∷ spans)

-- A route with the identities of its tokens and the spans between them (`spanPositions`).
pub record Drawn : Type 0 where
  pub route : Route
  pub node_ids : List Text
  pub spans : List (Option Text)

-- `nodes` are those of the route, which all are known.
unfoldable pub draw_route : Bool → List Link → ℕ → Route → List Node → Scene → Scene × Drawn
unfolding tokens_from join_all
draw_route show links occurrence route nodes scene =
    let (put, tokens) = tokens_from show route occurrence 0 0 [] nodes scene in
    let (done, spans) = join_all links occurrence 1 tokens put in
    (done, record { route = route; node_ids = map (λ t. t.id) tokens; spans = spans })

-- `byID.get`: of the nodes with one id, the last, which is the first from behind.
abbrev pub last_node : Text → List Node → Option Node
last_node id nodes = find_node id (reverse nodes)

-- The nodes of a route: an unknown one throws.
unfoldable pub resolve : List Node → List Text → Option (List Node)
resolve nodes [] = some []
resolve nodes (id ∷ ids) = do n ← last_node id nodes; ns ← resolve nodes ids; some (n ∷ ns)

unfoldable pub draw_routes :
    Bool → List Node → List Link → ℕ → List Route → Scene → Option (Scene × List Drawn)
unfolding draw_route resolve
draw_routes show nodes links occurrence [] scene = some (scene, [])
draw_routes show nodes links occurrence (r ∷ rs) scene = do
  ns ← resolve nodes r.node_ids
  let (next, drawn) = draw_route show links occurrence r ns scene
  (done, more) ← draw_routes show nodes links (occurrence + 1) rs next
  some (done, drawn ∷ more)

-- Without routes, every node and link.
abbrev pub all_nodes : List Node → List Shown → List Shown
all_nodes [] shown = shown
all_nodes (n ∷ ns) shown = all_nodes ns (put_node (single n) shown)

abbrev pub all_links : List Link → List Link → List Link
all_links [] shown = shown
all_links (l ∷ ls) shown = all_links ls (put_observed l shown)

abbrev pub whole_scene : Bool → List Node → List Link → Scene → Scene
whole_scene true nodes links scene = record scene {
  nodes = all_nodes nodes scene.nodes;
  observed = all_links links scene.observed;
}
whole_scene false nodes links scene = scene
