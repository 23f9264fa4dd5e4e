-- ===== src/Topology/Mount.antt =====
-- frontend/topology-model.js, `planTopologyDOM`: what is mounted within the budget of DOM elements, and
-- the chunks it is mounted in.
pub mod Chunks
pub mod Within
use revealnetworktrouble.Prelude.{
  ◌>>=◌, [], ℕ, ◌+◌, ◌-◌, min, Bool, true, false, not, ◌&&◌, ◌||◌, Option, none, some, List, ◌∷◌,
  ◌++◌, map, ltb, leb, ◌==◌, if◌then◌else◌, length, is_nil, take, Text,
}
use revealnetworktrouble.Topology.Data.{Link, document_limit, chunk_limit}
use revealnetworktrouble.Topology.Select.{Marker, RouteState}
use revealnetworktrouble.Topology.Present.{Shown, Connector}
use revealnetworktrouble.Topology.Present.Cut.{Presented, Kept}

pub data View : Type 0 where
  topology geo labels : View

-- A normalized record of a label file.
pub record LabelRecord : Type 0 where
  pub node_id : Text
  pub label : Text
  pub note : Text

-- The limits of the options, after `Math.floor`; `none` is one that is not given.
pub record Options : Type 0 where
  pub view : View
  pub existing_elements : Option ℕ
  pub available_elements : Option ℕ
  pub chunk_elements : Option ℕ

-- `boundedInteger` with 0 as its minimum.
abbrev pub bounded : Option ℕ → ℕ → ℕ → ℕ
bounded none fallback maximum = fallback
bounded (some n) fallback maximum = min maximum n

abbrev pub existing : Options → ℕ
existing o = bounded o.existing_elements 0 document_limit

abbrev pub document_remaining : Options → ℕ
document_remaining o = document_limit - existing o

abbrev pub available : Options → ℕ
available o =
    min (bounded o.available_elements (document_remaining o) document_limit) (document_remaining o)

abbrev pub reserve : View → ℕ
reserve topology = 180
reserve geo = 300
reserve labels = 80

abbrev pub dynamic_budget : Options → ℕ
dynamic_budget o = available o - reserve o.view

abbrev pub fits_document : Options → Bool
fits_document o = leb (reserve o.view) (document_remaining o)

-- `topologyBudget`; the canvas costs 1 and the inspector 2.
abbrev pub topology_budget : Options → Option ℕ
topology_budget o = elim o.view [
  | topology ↦ some (dynamic_budget o - 3)
  | geo ↦ none
  | labels ↦ none
]

-- A chunk of fewer than five elements is refused.
abbrev pub chunk_size : Option ℕ → Option ℕ
chunk_size none = some chunk_limit
chunk_size (some n) = if ltb n 5 then none else some (min chunk_limit n)

pub data Item : Type 0 where
  topology_canvas topology_inspector geo_canvas geo_target_legend geo_accessible_list label_shell :
      Item
  topology_node : Shown → Item
  topology_link : Link → Item
  topology_connector : Connector → Item
  topology_route : Kept → Item
  geo_target_entry : RouteState → Item
  geo_accessible_item : Marker → Item
  label_row : LabelRecord → Item

-- `DOM_COSTS`
abbrev pub dom_cost : Item → ℕ
dom_cost topology_canvas = 1
dom_cost topology_inspector = 2
dom_cost (topology_node n) = 1
dom_cost (topology_link l) = 1
dom_cost (topology_connector c) = 1
dom_cost (topology_route r) = 1
dom_cost geo_canvas = 1
dom_cost geo_target_legend = 2
dom_cost (geo_target_entry t) = 1
dom_cost geo_accessible_list = 1
dom_cost (geo_accessible_item m) = 1
dom_cost label_shell = 4
dom_cost (label_row r) = 5

abbrev pub total_cost : List Item → ℕ
total_cost [] = 0
total_cost (i ∷ is) = dom_cost i + total_cost is

-- `mountItems` and `mountCost`, with what `mount` reads.
pub record Mounting : Type 0 where
  pub renderable : Bool
  pub budget : ℕ
  pub items : List Item
  pub cost : ℕ

unfoldable pub mount : Item → Mounting → Mounting × Bool
mount i m =
    if not m.renderable || ltb m.budget (m.cost + dom_cost i)
    then (m, false)
    else (record m { items = m.items ++ i ∷ []; cost = m.cost + dom_cost i }, true)

-- One call for each item, whatever becomes of the others.
unfoldable pub mount_each : List Item → Mounting → Mounting
unfolding mount
mount_each [] m = m
mount_each (i ∷ is) m = mount_each is (mount i m).0

-- Up to the first item that does not fit.
unfoldable pub mount_while : List Item → Mounting → Mounting
unfolding mount
mount_while [] m = m
mount_while (i ∷ is) m =
    let (next, mounted) = mount i m in
    let later = mount_while is next in if mounted then later else next

-- `if (mount(first)) …` for what belongs to `first`.
unfoldable pub mount_under : Item → (Mounting → Mounting) → Mounting → Mounting
unfolding mount
mount_under first others m =
    let (next, mounted) = mount first m in if mounted then others next else next

-- One route for each result, the last of them, by the number of the result.
unfoldable pub put_target : RouteState → List RouteState → List RouteState
put_target s [] = s ∷ []
put_target s (t ∷ ts) =
    let later = put_target s ts in
    if s.route.result_index == t.route.result_index
    then s ∷ ts
    else if ltb s.route.result_index t.route.result_index
    then s ∷ t ∷ ts
    else t ∷ later

abbrev pub targets_of : List RouteState → List RouteState → List RouteState
targets_of [] targets = targets
targets_of (s ∷ ss) targets = targets_of ss (put_target s targets)

-- What the plan has to show.
pub record Content : Type 0 where
  pub presented : Presented
  pub routes : List RouteState
  pub markers : List Marker
  pub labels : List LabelRecord

abbrev pub targets : Content → List RouteState
targets c = targets_of c.routes []

abbrev pub topology_items : Presented → List Item
topology_items p =
    topology_canvas ∷ topology_inspector ∷ map topology_node p.nodes
    ++ map topology_link p.links
    ++ map topology_connector p.connectors
    ++ map topology_route p.routes

-- `renderable`: the legend of the map is shown as a whole or the view is not shown.
abbrev pub renderable : Options → Content → Bool
renderable o c = fits_document o && elim o.view [
  | geo ↦ is_nil (targets c) || leb (1 + 2 + length (targets c)) (dynamic_budget o)
  | topology ↦ true
  | labels ↦ true
]

abbrev pub geo_legend : List RouteState → Mounting → Mounting
geo_legend [] m = m
geo_legend (t ∷ ts) m = mount_under geo_target_legend (mount_each (map geo_target_entry (t ∷ ts))) m

unfoldable pub mount_view : View → Content → Mounting → Mounting
unfolding mount_each mount_while mount_under put_target
mount_view topology c m = mount_each (topology_items c.presented) m
mount_view geo c m =
    mount_under geo_accessible_list (mount_while (map geo_accessible_item (take 100 c.markers)))
      (geo_legend (targets c) (mount_each (geo_canvas ∷ []) m))
mount_view labels c m = mount_under label_shell (mount_while (map label_row (take 100 c.labels))) m

-- `chunks`: a chunk ends before the item that would make it too large.
unfoldable pub chunks_from : ℕ → List Item → ℕ → List Item → List (List Item)
chunks_from size chunk cost [] = if is_nil chunk then [] else chunk ∷ []
chunks_from size chunk cost (i ∷ is) = elim (not (is_nil chunk) && ltb size (cost + dom_cost i)) [
  | true ↦ chunk ∷ chunks_from size (i ∷ []) (dom_cost i) is
  | false ↦ chunks_from size (chunk ++ i ∷ []) (cost + dom_cost i) is
]

pub record DomPlan : Type 0 where
  pub items : List Item
  pub chunks : List (List Item)
  pub planned_elements : ℕ
  pub estimated_elements : ℕ
  pub is_renderable : Bool

-- `none` is the thrown error for a chunk that is too small.
unfoldable pub plan_dom : Options → Content → Option DomPlan
unfolding mount_view chunks_from
plan_dom o c = do
  size ← chunk_size o.chunk_elements
  let shown = renderable o c
  let m =
      mount_view o.view c
        (record { renderable = shown; budget = dynamic_budget o; items = []; cost = 0 })
  some (record {
    items = m.items;
    chunks = chunks_from size [] 0 m.items;
    planned_elements = m.cost;
    estimated_elements = if shown then existing o + reserve o.view + m.cost else existing o;
    is_renderable = shown;
  })
