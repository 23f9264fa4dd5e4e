-- ===== src/Topology/Legacy/Routes.antt =====
-- frontend/topology-model.js, `legacyNodeKey` and `legacyRoutes`: the routes that a report holds.
pub mod Ends
use revealnetworktrouble.Prelude.{
  [], to_radix_from, ℕ, zero, suc, ◌+◌, max, Bool, not, ◌&&◌, ◌||◌, Option, none, some, List, ◌∷◌,
  ◌++◌, map, ltb, leb, ◌==◌, if◌then◌else◌, is_nil, Text, codes, text_eq, join, to_radix, trim,
}
use revealnetworktrouble.Topology.Data.{Place, NodeKind, local, ip, hostname, unknown, has}
use revealnetworktrouble.Topology.Legacy.Address.{canonical_ip}

-- The nodes, links and attempts of a report, as its normalizer leaves them. A latency that is not finite is
-- absent, and counts in some unit.
pub record RawNode : Type 0 where
  pub id : Text
  pub hop : ℕ
  pub address : Text
  pub status : Text
  pub latency : Option ℕ
  pub public_ip : Bool
  pub geolocation : Option Place
  pub asn : Option ℕ

pub record RawLink : Type 0 where
  pub from : Text
  pub to : Text
  pub status : Option Text

pub record RawTopology : Type 0 where
  pub nodes : List RawNode
  pub links : List RawLink
  pub reached : Bool

pub record RawAttempt : Type 0 where
  pub attempt : ℕ
  pub status : Text
  pub topology : Option RawTopology

pub record RawDetails : Type 0 where
  pub attempts : List RawAttempt
  pub topology : Option RawTopology

pub record RawResult : Type 0 where
  pub kind : Text
  pub address : Text
  pub status : Text
  pub details : Option RawDetails

pub record Observation : Type 0 where
  pub key : Text
  pub kind : NodeKind
  pub address : Text
  pub node : RawNode

-- A route with its first observation, and each later one with the status of the edge to it.
pub record LegacyRoute : Type 0 where
  pub result_index : ℕ
  pub address : Text
  pub attempt : ℕ
  pub occurrence : ℕ
  pub status : Text
  pub reached : Bool
  pub complete : Bool
  pub first : Observation
  pub steps : List (Text × Observation)

-- Array sort, which is stable; the test says that the left one comes after.
abbrev pub insert_by : {A : Type 0} → (A → A → Bool) → A → List A → List A
insert_by after x [] = x ∷ []
insert_by after x (y ∷ ys) =
    let later = insert_by after x ys in if after x y then y ∷ later else x ∷ y ∷ ys

abbrev pub sort_by : {A : Type 0} → (A → A → Bool) → List A → List A
sort_by after [] = []
sort_by after (x ∷ xs) = insert_by after x (sort_by after xs)

abbrev pub with_index : {A : Type 0} → ℕ → List A → List (A × ℕ)
with_index i [] = []
with_index i (x ∷ xs) = (x, i) ∷ with_index (i + 1) xs

abbrev pub lower : ℕ → ℕ
lower c = if leb b'A' c && leb c b'Z' then c + 32 else c

-- `.replace(/\.$/, '')`
abbrev pub drop_last_dot : Text → Text
drop_last_dot [] = []
drop_last_dot (c ∷ []) = if c == b'.' then [] else c ∷ []
drop_last_dot (c ∷ d ∷ t) = c ∷ drop_last_dot (d ∷ t)

abbrev pub or_local : Text → Text
or_local [] = codes "local"
or_local (c ∷ t) = c ∷ t

unfoldable pub unknown_key : ℕ → ℕ → ℕ → ℕ → ℕ → Text
unfolding join to_radix_from
unknown_key result attempt occurrence hop index =
    codes "unknown:"
    ++ join b':' (map (to_radix 10) (result ∷ attempt ∷ occurrence ∷ hop ∷ index ∷ []))

abbrev pub named_key : Text → Text × NodeKind × Text
unfolding canonical_ip
named_key address =
    let name = drop_last_dot (map lower address) in
    elim (canonical_ip address) [
      | none ↦ (codes "host:" ++ name, hostname, name)
      | some text ↦ (codes "ip:" ++ text, ip, text)
    ]

-- The key, the kind and the address of a node.
unfoldable pub legacy_node_key : RawNode → ℕ → ℕ → ℕ → ℕ → Text × NodeKind × Text
unfolding named_key unknown_key trim
legacy_node_key n result attempt occurrence index =
    let address = trim n.address in
    if index == 0 && n.hop == 0
    then (codes "local", local, or_local n.address)
    else if is_nil address
    then (unknown_key result attempt occurrence n.hop index, unknown, [])
    else named_key address

abbrev pub Entry : Type 0
Entry = RawNode × ℕ

-- By the hop, then by the place in the list.
abbrev pub entry_after : Entry → Entry → Bool
entry_after (m, i) (n, j) = ltb n.hop m.hop || n.hop == m.hop && ltb j i

abbrev pub ordered_entries : List RawNode → List Entry
ordered_entries nodes = sort_by entry_after (with_index 0 nodes)

-- `byID.get`: the last entry with an identity.
abbrev pub entry_of : Text → List Entry → Option Entry
entry_of id [] = none
entry_of id (e ∷ es) = elim (entry_of id es) [
  | none ↦ if text_eq e.0.id id then some e else none
  | some f ↦ some f
]

abbrev pub edge_to : RawLink → Option Entry → Option Entry → List (RawLink × Entry)
edge_to l (some source) (some target) = (l, target) ∷ []
edge_to l _ _ = []

-- The edges out of a node; an edge that is given again is left out.
abbrev pub edges_from : Text → List Entry → List Text → List RawLink → List (RawLink × Entry)
edges_from id es seen [] = []
edges_from id es seen (l ∷ ls) =
    let edge = edge_to l (entry_of l.from es) (entry_of l.to es) in
    let later = edges_from id es (l.to ∷ seen) ls in
    let skipped = edges_from id es seen ls in
    if text_eq l.from id && not (text_eq l.from l.to) && not (has l.to seen) && not (is_nil edge)
    then edge ++ later
    else skipped

unfoldable pub outgoing : Text → List Entry → List RawLink → List (RawLink × Entry)
outgoing id es links = sort_by (λ x y. entry_after x.1 y.1) (edges_from id es [] links)

-- The first edge to a node that is not visited and lies behind the current one.
abbrev pub next_edge : List Text → ℕ → List (RawLink × Entry) → Option (RawLink × Entry)
next_edge visited hop [] = none
next_edge visited hop (e ∷ es) =
    let later = next_edge visited hop es in
    if not (has e.1.0.id visited) && ltb hop e.1.0.hop then some e else later

abbrev pub follow :
    (Entry → List (RawLink × Entry)) → Option (RawLink × Entry) → List (RawLink × Entry)
follow more none = []
follow more (some (l, e)) = (l, e) ∷ more e

-- The path behind the current entry. A step goes to a higher hop, so that the highest one is enough fuel.
unfoldable pub path_from :
    ℕ → List Entry → List RawLink → List Text → Entry → List (RawLink × Entry)
unfolding outgoing
path_from zero es links visited current = []
path_from (suc fuel) es links visited current =
    follow (λ e. path_from fuel es links (e.0.id ∷ visited) e)
      (next_edge visited current.0.hop (outgoing current.0.id es links))

abbrev pub highest_hop : List Entry → ℕ
highest_hop [] = 0
highest_hop (e ∷ es) = max e.0.hop (highest_hop es)

abbrev pub last_entry : Entry → List (RawLink × Entry) → Entry
last_entry e [] = e
last_entry e (step ∷ steps) = last_entry step.1 steps

-- Where an attempt stands in the report.
pub record Spot : Type 0 where
  pub result_index : ℕ
  pub attempt : ℕ
  pub occurrence : ℕ

abbrev pub observed : Spot → ℕ → RawNode → Observation
unfolding legacy_node_key
observed s index n =
    let (key, kind, address) = legacy_node_key n s.result_index s.attempt s.occurrence index in
    record { key = key; kind = kind; address = address; node = n }

abbrev pub or_status : Option Text → Text → Text
or_status none other = other
or_status (some status) other = status

-- The observations of a path behind its first one; one with the key before it is left out.
unfoldable pub merge_steps : Spot → ℕ → Text → List (RawLink × Entry) → List (Text × Observation)
unfolding observed
merge_steps s index key [] = []
merge_steps s index key ((l, e) ∷ rest) =
    let o = observed s index e.0 in
    let skipped = merge_steps s (index + 1) key rest in
    let kept = (or_status l.status e.0.status, o) ∷ merge_steps s (index + 1) o.key rest in
    if text_eq key o.key then skipped else kept

abbrev pub route_from : RawResult → Spot → RawAttempt → RawTopology → List Entry → List LegacyRoute
unfolding path_from merge_steps observed
route_from r s a t [] = []
route_from r s a t (e ∷ es) =
    let path = path_from (suc (highest_hop (e ∷ es))) (e ∷ es) t.links (e.0.id ∷ []) e in
    let first = observed s 0 e.0 in
    record {
      result_index = s.result_index;
      address = r.address;
      attempt = a.attempt;
      occurrence = s.occurrence;
      status = a.status;
      reached = t.reached;
      complete = (last_entry e path).0.hop == highest_hop (e ∷ es);
      first = first;
      steps = merge_steps s 1 first.key path;
    }
    ∷ []

abbrev pub attempt_after : RawAttempt × ℕ → RawAttempt × ℕ → Bool
attempt_after (a, i) (b, j) = ltb b.attempt a.attempt || b.attempt == a.attempt && ltb j i

-- A result without attempts has its topology as the first one.
abbrev pub attempts_of : RawResult → RawDetails → List (RawAttempt × ℕ)
attempts_of r d =
    let only = elim d.topology as (λ x. List (RawAttempt × ℕ)) [
      | none ↦ []
      | some t ↦ (record { attempt = 1; status = r.status; topology = some t }, 0) ∷ []
    ] in
    if is_nil d.attempts then only else sort_by attempt_after (with_index 0 d.attempts)

unfoldable pub attempt_routes : RawResult → ℕ → List (RawAttempt × ℕ) → List LegacyRoute
unfolding route_from
attempt_routes r index [] = []
attempt_routes r index ((a, occurrence) ∷ rest) =
    let s : Spot = record { result_index = index; attempt = a.attempt; occurrence = occurrence } in
    let here = elim a.topology as (λ x. List LegacyRoute) [
      | none ↦ []
      | some t ↦ route_from r s a t (ordered_entries t.nodes)
    ] in
    here ++ attempt_routes r index rest

unfoldable pub legacy_routes_from : ℕ → List RawResult → List LegacyRoute
unfolding attempt_routes
legacy_routes_from index [] = []
legacy_routes_from index (r ∷ rs) =
    let here = elim r.details as (λ x. List LegacyRoute) [
      | none ↦ []
      | some d ↦ attempt_routes r index (attempts_of r d)
    ] in
    let rest = legacy_routes_from (index + 1) rs in
    if text_eq r.kind (codes "traceroute") then here ++ rest else rest

unfoldable pub legacy_routes : List RawResult → List LegacyRoute
unfolding legacy_routes_from
legacy_routes results = legacy_routes_from 0 results
