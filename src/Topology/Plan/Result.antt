-- ===== src/Topology/Plan/Result.antt =====
-- frontend/topology-model.js, `planTopologyDOM`: the whole plan, for any model.
use revealnetworktrouble.Prelude.{
  arith, ◌||◌, ℕ, ◌+◌, ◌≡◌, refl, ◌∙◌, ap, Bool, true, Option, some, List, [], ◌∷◌, map, ◌>>=◌,
  is_nil, All, Text,
}
use mathlib.Core.List.{reverse, reverse_aux}
use revealnetworktrouble.Topology.Data.{Node, Link, Route, has}
use revealnetworktrouble.Topology.RouteOrder.{fair_route_order}
use revealnetworktrouble.Topology.Select.{Input, RouteState, Plan, select}
use revealnetworktrouble.Topology.Select.Invariant.{Joined, IsPlanned}
use revealnetworktrouble.Topology.Select.Correct.{IsSelected, select-IsSelected}
use revealnetworktrouble.Topology.Present.{
  Scene, Drawn, draw_route, draw_routes, last_node, resolve, whole_scene,
}
use revealnetworktrouble.Topology.Present.Cut.{Presented, Kept, present, cut, first_scene}
use revealnetworktrouble.Topology.Mount.{
  Options, LabelRecord, DomPlan, Content, topology_budget, plan_dom, chunk_size,
}
use revealnetworktrouble.Topology.Mount.Within.{IsWithin, plan_dom-IsWithin, plan_dom-chunks}
use revealnetworktrouble.Topology.Mount.Chunks.{IsChunk}
use revealnetworktrouble.Topology.Present.Kept.{IsKept, present-IsKept, present-routes}
use revealnetworktrouble.Topology.RouteOrder.Fair.{count_if, fair_route_order-count}
use revealnetworktrouble.Topology.Plan.{plan_input, planned_route, all_some, plan_topology}
use revealnetworktrouble.Topology.Plan.Known.{ids_of, find_node-has}
use revealnetworktrouble.Topology.Plan.Total.{plan_input-IsKnown}

-- A computation that gives something.
abbrev pub Succeeds {ℓ} : {A : Type ℓ} → Option A → Type ℓ
Succeeds {A = A} o = (a : A) × (o ≡ some a)

>>=-Succeeds {ℓ κ} :
    {A : Type ℓ} {B : Type κ} (m : Option A) (f : A → Option B)
    → Succeeds m
    → ((a : A) → Succeeds (f a))
    → Succeeds (m >>= f)
>>=-Succeeds m f (a, e) k = let (b, g) = k a in (b, ap (λ o. o >>= f) e ∙ g)

all_some-map : (ns : List Node) → all_some (map (λ n. some n) ns) ≡ some ns
all_some-map [] = refl
all_some-map (n ∷ ns) = ap (λ o. o >>= λ others. some (n ∷ others)) (all_some-map ns)

has-reverse_aux :
    (id : Text) (ns ms : List Node)
    → has id (ids_of (reverse_aux ns ms)) ≡ (has id (ids_of ns) || has id (ids_of ms))
has-reverse_aux id [] ms = refl
has-reverse_aux id (n ∷ ns) ms = let later = has-reverse_aux id ns (n ∷ ms) in ground (arith, later)

last_node-Succeeds :
    (id : Text) (nodes : List Node) → has id (ids_of nodes) ≡ true → Succeeds (last_node id nodes)
last_node-Succeeds id nodes h =
    let behind = has-reverse_aux id nodes [] in
    let (n, e, _) = find_node-has id (reverse nodes) (ground (arith, behind, h)) in (n, e)

resolve-Succeeds :
    (nodes : List Node) (ids : List Text)
    → All (λ id. has id (ids_of nodes) ≡ true) ids
    → Succeeds (resolve nodes ids)
unfolding resolve
resolve-Succeeds nodes [] h = ([], refl)
resolve-Succeeds nodes (id ∷ ids) (h, hs) =
    >>=-Succeeds (last_node id nodes) _ (last_node-Succeeds id nodes h) (λ n.
      >>=-Succeeds (resolve nodes ids) _ (resolve-Succeeds nodes ids hs) (λ ns. (n ∷ ns, refl)))

abbrev KnownRoutes : List Node → List Route → Type 0
KnownRoutes nodes rs = All (λ r. All (λ id. has id (ids_of nodes) ≡ true) r.node_ids) rs

draw_routes-Succeeds :
    (show : Bool) (nodes : List Node) (links : List Link) (n : ℕ) (rs : List Route) (scene : Scene)
    → KnownRoutes nodes rs
    → Succeeds (draw_routes show nodes links n rs scene)
unfolding draw_routes
draw_routes-Succeeds show nodes links n [] scene h = ((scene, []), refl)
draw_routes-Succeeds show nodes links n (r ∷ rs) scene (h, hs) =
    >>=-Succeeds (resolve nodes r.node_ids) _ (resolve-Succeeds nodes r.node_ids h) (λ ns.
      (let (next, drawn) = draw_route show links n r ns scene in
        >>=-Succeeds (draw_routes show nodes links (n + 1) rs next) _
          (draw_routes-Succeeds show nodes links (n + 1) rs next hs)
          (λ (p : Scene × List Drawn). ((p.0, drawn ∷ p.1), refl))))

present-Succeeds :
    (show : Bool) (budget : Option ℕ) (nodes : List Node) (links : List Link) (rs : List Route)
    → KnownRoutes nodes rs
    → Succeeds (present show budget nodes links rs)
unfolding present
present-Succeeds show budget nodes links rs h =
    >>=-Succeeds (draw_routes show nodes links 0 rs (first_scene nodes)) _
      (draw_routes-Succeeds show nodes links 0 rs (first_scene nodes) h)
      (λ (p : Scene × List Drawn). (cut budget (whole_scene (is_nil rs) nodes links p.0) p.1, refl))

Joined-All :
    (p : Plan) (nodes : List Node)
    → ((id : Text) → has id p.node_ids ≡ true → has id (ids_of nodes) ≡ true)
    → (ids : List Text) → Joined p ids
    → All (λ id. has id (ids_of nodes) ≡ true) ids
Joined-All p nodes k [] j = tt
Joined-All p nodes k (a ∷ []) j = (k a j, tt)
Joined-All p nodes k (a ∷ b ∷ t) (i, _, j) = (k a i, Joined-All p nodes k (b ∷ t) j)

planned-known :
    (p : Plan) (nodes : List Node)
    → ((id : Text) → has id p.node_ids ≡ true → has id (ids_of nodes) ≡ true)
    → (ss : List RouteState) → All (IsPlanned p) ss
    → KnownRoutes nodes (map planned_route ss)
planned-known p nodes k [] h = tt
planned-known p nodes k (s ∷ ss) (h, hs) =
    (Joined-All p nodes k s.node_ids h.joined, planned-known p nodes k ss hs)

plan_dom-Succeeds :
    (o : Options) (c : Content) → Succeeds (chunk_size o.chunk_elements) → Succeeds (plan_dom o c)
unfolding plan_dom
plan_dom-Succeeds o c h = >>=-Succeeds (chunk_size o.chunk_elements) _ h (λ size. (_, refl))

-- What a plan is made of: the routes of the data in some order, the selection from them, what is presented
-- of it, and the items for it, in chunks.
pub record IsPlanOf (o : Options) (labels : List LabelRecord) (input : Input) (size : ℕ)
    (p : DomPlan) : Type 0 where
  pub ordered : List Route
  pub all_ordered : (test : Route → Bool) → count_if test ordered ≡ count_if test input.routes
  pub selected : IsSelected input (select input ordered)
  pub presented : Presented
  pub routes_eq :
      map (λ (k : Kept). k.drawn.route) presented.routes
      ≡ map planned_route (select input ordered).1
  pub kept : All (IsKept presented) presented.routes
  pub mounted :
      plan_dom o (record {
        presented = presented;
        routes = (select input ordered).1;
        markers = (select input ordered).0.markers;
        labels = labels;
      })
      ≡ some p
  pub within : IsWithin o p
  pub in_chunks : All (IsChunk size) p.chunks

-- For any model, with a chunk size of at least five elements or none given, a plan is made. It orders the
-- routes of the data so that each stands there as often as in the data; the selection from them is within its
-- limits and goes on until each route is at its end or blocked; the presentation has the selected routes in order, each kept
-- as far as it is shown; and the items mounted for it are within the budget of the document, in chunks that
-- hold them in order, none empty and none above the chunk size.
pub plan_topology-IsWithin :
    (o : Options) (show : Bool) (labels : List LabelRecord) (nodes : List Node) (links : List Link)
    (routes : List Route) (size : ℕ)
    → chunk_size o.chunk_elements ≡ some size
    → (p : DomPlan) × (plan_topology o show labels nodes links routes ≡ some p)
      × IsPlanOf o labels (plan_input o nodes links routes) size p
unfolding plan_topology
plan_topology-IsWithin o show labels nodes links routes size h =
    let input = plan_input o nodes links routes in
    let ordered = fair_route_order input.routes in
    let selected = select-IsSelected input ordered in
    let (plan, states) = select input ordered in
    let known = plan_input-IsKnown o nodes links routes in
    let chosen_eq = ap all_some known.nodes_eq ∙ all_some-map known.chosen in
    let content : Presented → Content =
      λ q. record { presented = q; routes = states; markers = plan.markers; labels = labels } in
    let (presented, presented_eq) =
      present-Succeeds show (topology_budget o) known.chosen plan.links (map planned_route states)
        (planned-known plan known.chosen known.ids states selected.planned) in
    let (p, plan_eq) = plan_dom-Succeeds o (content presented) (size, h) in
    let (_, _, _, kept) =
      present-IsKept show (topology_budget o) known.chosen plan.links (map planned_route states)
        presented presented_eq in
    (
      p,
      ap
            (λ m. m >>= λ chosen.
              present show (topology_budget o) chosen plan.links (map planned_route states) >>= λ q.
              plan_dom o (content q))
            chosen_eq
          ∙ ap (λ m. m >>= λ q. plan_dom o (content q)) presented_eq
          ∙ plan_eq,
      record {
        ordered = ordered;
        all_ordered = λ test. fair_route_order-count test input.routes;
        selected = selected;
        presented = presented;
        routes_eq =
            present-routes show (topology_budget o) known.chosen plan.links
              (map planned_route states) presented presented_eq;
        kept = kept;
        mounted = plan_eq;
        within = plan_dom-IsWithin o (content presented) p plan_eq;
        in_chunks = plan_dom-chunks o (content presented) p size h plan_eq;
      },
    )
