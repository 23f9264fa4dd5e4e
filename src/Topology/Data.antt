-- ===== src/Topology/Data.antt =====
-- frontend/topology-model.js: the nodes, links and routes of a model, and the limits of the plans.
use revealnetworktrouble.Prelude.{
  ℕ, zero, suc, ◌+◌, Bool, true, false, not, ◌&&◌, Option, none, some, List, [], ◌∷◌, ◌++◌,
  if◌then◌else◌, is_nil, take, all, any, keep, Text, text_eq,
}

-- A place is only handed on, so the two finite numbers stand for themselves.
pub record Place : Type 0 where
  pub latitude : ℕ
  pub longitude : ℕ

pub data NodeKind : Type 0 where
  local ip hostname unknown : NodeKind

abbrev pub is_unknown : NodeKind → Bool
is_unknown unknown = true
is_unknown _ = false

-- A property that is absent is `none`.
pub record Node : Type 0 where
  pub id : Text
  pub kind : NodeKind
  pub address : Text
  pub status : Text
  pub public_ip : Bool
  pub place : Option Place
  pub asn : Option ℕ
  pub hop_min : Option ℕ
  pub hop_max : Option ℕ

pub record Link : Type 0 where
  pub from : Text
  pub to : Text
  pub status : Text
  pub observations : ℕ

pub record Route : Type 0 where
  pub result_index : ℕ
  pub attempt : ℕ
  pub order : ℕ
  pub address : Text
  pub status : Text
  pub reached : Bool
  pub complete : Bool
  pub node_ids : List Text

-- The key of a pair of nodes, `${from}\u0000${to}`.
abbrev pub pair_key : Text → Text → Text
pair_key from to = from ++ 0 ∷ to

-- `Set.has`
abbrev pub has : Text → List Text → Bool
has t ts = any (text_eq t) ts

-- `nodeByID.get(id)`
abbrev pub find_node : Text → List Node → Option Node
find_node id [] = none
find_node id (n ∷ ns) = let later = find_node id ns in if text_eq id n.id then some n else later

-- `linkByPair.get(key)`
abbrev pub find_link : Text → List Link → Option Link
find_link key [] = none
find_link key (l ∷ ls) =
    let later = find_link key ls in if text_eq key (pair_key l.from l.to) then some l else later

abbrev pub has_geo : Option Node → Bool
has_geo none = false
has_geo (some n) = n.public_ip && elim n.place [ none ↦ false | some p ↦ true ]

abbrev pub data_node_limit : ℕ
data_node_limit = 500

abbrev pub data_link_limit : ℕ
data_link_limit = 1000

abbrev pub document_limit : ℕ
document_limit = 1200

abbrev pub chunk_limit : ℕ
chunk_limit = 100

-- The data that a plan works on: `dataNodes`, `dataLinks` and `dataRoutes`.
unfoldable pub data_nodes : ℕ → List Text → List Node → List Node
data_nodes room seen [] = []
data_nodes zero seen (n ∷ ns) = []
data_nodes (suc room) seen (n ∷ ns) =
    let without = data_nodes (suc room) seen ns in
    let with_it = n ∷ data_nodes room (n.id ∷ seen) ns in if has n.id seen then without else with_it

unfoldable pub data_links : ℕ → List Text → List Link → List Link
data_links room ids [] = []
data_links zero ids (l ∷ ls) = []
data_links (suc room) ids (l ∷ ls) =
    let without = data_links (suc room) ids ls in
    let with_it = l ∷ data_links room ids ls in
    if has l.from ids && has l.to ids then with_it else without

-- The first 200 routes, numbered.
abbrev pub numbered : ℕ → List Route → List Route
numbered n [] = []
numbered n (r ∷ rs) = record r { order = n } ∷ numbered (n + 1) rs

abbrev pub is_known : List Text → Route → Bool
is_known ids r = not (is_nil r.node_ids) && all (λ id. has id ids) r.node_ids

abbrev pub data_routes : List Text → List Route → List Route
data_routes ids rs = keep (is_known ids) (numbered 0 (take 200 rs))
