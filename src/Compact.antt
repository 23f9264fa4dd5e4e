-- ===== src/Compact.antt =====
-- frontend/state.js, `normalizeCompactTopology`: the checks on a compact topology whose fields have the
-- names and the types of the schema. The checks on the texts, the coordinates and the size of a Geo bundle
-- are left out; of it only the presence counts here.
use revealnetworktrouble.Prelude.{
  [], ◌>>=◌, ◌>>◌, guard, ℕ, ◌+◌, Bool, true, false, not, ◌&&◌, ◌||◌, Option, none, some, List, ◌∷◌,
  map, String, leb, ◌==◌, length, get_elem?, any, Text, codes, text_eq,
}
pub mod Checks
pub mod Consistent
mod Tests
use revealnetworktrouble.Topology.Data.{pair_key, has}

pub record Count : Type 0 where
  pub total : ℕ
  pub displayed : ℕ
  pub omitted : ℕ

pub record RouteCount : Type 0 where
  pub total : ℕ
  pub displayed : ℕ
  pub complete : ℕ
  pub partial : ℕ
  pub omitted : ℕ

pub record CompactNode : Type 0 where
  pub id : Text
  pub kind : Text
  pub status : Text
  pub hop_min : ℕ
  pub hop_max : ℕ
  pub observations : ℕ
  pub address : Option Text
  pub public_ip : Option Bool
  pub has_geolocation : Bool
  pub has_asn : Bool

pub record CompactLink : Type 0 where
  pub from : Text
  pub to : Text
  pub status : Text
  pub observations : ℕ

pub record CompactRoute : Type 0 where
  pub result_index : ℕ
  pub attempt : ℕ
  pub status : Text
  pub reached : Bool
  pub complete : Bool
  pub node_ids : List Text

pub record Stats : Type 0 where
  pub nodes : Count
  pub links : Count
  pub routes : RouteCount
  pub node_observations : Count
  pub link_observations : Count

pub record ResultStats : Type 0 where
  pub result_index : ℕ
  pub routes : RouteCount
  pub node_observations : Count
  pub link_observations : Count

pub record GeoCounts : Type 0 where
  pub eligible : ℕ
  pub available : ℕ
  pub included : ℕ
  pub omitted : ℕ
  pub unavailable : ℕ

pub record CompactTopology : Type 0 where
  pub nodes : List CompactNode
  pub links : List CompactLink
  pub routes : List CompactRoute
  pub stats : Stats
  pub result_stats : List ResultStats
  pub geo : GeoCounts
  pub truncated : Bool
  pub truncation_reasons : Option (List Text)

-- What the checks read of the results of the report.
pub record ResultInfo : Type 0 where
  pub is_traceroute : Bool
  pub attempts : Option (List ℕ)
  pub attempts_total : Option ℕ

abbrev pub between : ℕ → ℕ → ℕ → Bool
between low high n = leb low n && leb n high

-- `text`
abbrev pub is_text : Text → Bool
is_text t = between 1 4096 (length t)

-- `enumValue`
abbrev pub is_one_of : List String → Text → Bool
is_one_of names t = any (λ (s : String). text_eq t (codes s)) names

abbrev pub is_status : Text → Bool
is_status t = is_one_of ("healthy" ∷ "degraded" ∷ "unknown" ∷ "failure" ∷ []) t

-- `normalizeCompactCount`
unfoldable pub count_ok : ℕ → Count → Bool
count_ok most c =
    leb c.total most
    && leb c.displayed most
    && leb c.omitted most
    && c.total == c.displayed + c.omitted

abbrev pub max_routes : ℕ
max_routes = 200

-- `normalizeCompactRouteCount`
unfoldable pub route_count_ok : RouteCount → Bool
route_count_ok c =
    leb c.total max_routes
    && leb c.displayed max_routes
    && leb c.complete max_routes
    && leb c.partial max_routes
    && leb c.omitted max_routes
    && c.total == c.displayed + c.omitted
    && c.displayed == c.complete + c.partial

abbrev pub text_or_none : Option Text → Bool
text_or_none none = true
text_or_none (some t) = is_text t

abbrev pub only_true : Option Bool → Bool
only_true none = true
only_true (some b) = b

abbrev pub is_public : CompactNode → Bool
is_public n = elim n.public_ip [ none ↦ false | some b ↦ b ]

unfoldable pub node_ok : CompactNode → Bool
node_ok n =
    is_text n.id
    && is_one_of ("local" ∷ "ip" ∷ "hostname" ∷ "unknown" ∷ []) n.kind
    && is_status n.status
    && leb n.hop_min 255
    && leb n.hop_max 255
    && between 1 8192 n.observations
    && text_or_none n.address
    && only_true n.public_ip
    && leb n.hop_min n.hop_max
    && (not (n.has_geolocation || n.has_asn) || is_public n)

-- A set as large as the list that it was made of.
unfoldable pub all_distinct : List Text → Bool
all_distinct [] = true
all_distinct (t ∷ ts) = not (has t ts) && all_distinct ts

unfoldable pub link_ok : List Text → CompactLink → Bool
link_ok ids l =
    is_text l.from
    && is_text l.to
    && is_status l.status
    && between 1 16384 l.observations
    && has l.from ids
    && has l.to ids
    && not (text_eq l.from l.to)

abbrev pub link_keys : List CompactLink → List Text
link_keys ls = map (λ l. pair_key l.from l.to) ls

-- The two loops over neighbours: they differ and a link joins them.
unfoldable pub steps_ok : List Text → List Text → Bool
steps_ok keys [] = true
steps_ok keys (a ∷ []) = true
steps_ok keys (a ∷ b ∷ t) = not (text_eq b a) && has (pair_key a b) keys && steps_ok keys (b ∷ t)

-- `validateResultAttemptReference`
abbrev pub attempt_in : ℕ → Option (List ℕ) → Option ℕ → Bool
attempt_in attempt (some attempts) total = any (λ a. a == attempt) attempts
attempt_in attempt none none = false
attempt_in attempt none (some total) = between 1 10 total && leb attempt total

abbrev pub reference_ok : Option (List ResultInfo) → CompactRoute → Bool
reference_ok none r = true
reference_ok (some results) r = elim (get_elem? results r.result_index) [
  | none ↦ false
  | some info ↦ info.is_traceroute && attempt_in r.attempt info.attempts info.attempts_total
]
