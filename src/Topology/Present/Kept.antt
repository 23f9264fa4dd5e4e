-- ===== src/Topology/Present/Kept.antt =====
-- frontend/topology-presentation.js, `presentTopology`: a route is kept as far as it is shown.
use revealnetworktrouble.Prelude.{
  false, ℕ, ◌+◌, ◌-◌, ◌≤◌, ◌∙◌, ◌≡◌, refl, ap, inl, inr, Bool, true, ◌&&◌, Option, none, some, List,
  [], ◌∷◌, map, arith, ◌==◌, Bool-cases, >>=-eq-some, length, is_nil, take, All, Text,
}
use mathlib.Core.Path.{subst}
use mathlib.Core.Option.{some-injective}
use revealnetworktrouble.Topology.Data.{pair_key, Node, Link, Route, has}
use revealnetworktrouble.Topology.Present.{
  shown_id, Scene, link_key, draw_routes, Drawn, whole_scene,
}
use revealnetworktrouble.Topology.Present.Spans.{
  IsSpanned, draw_routes-IsSpanned, draw_routes-routes,
}
use revealnetworktrouble.Topology.Present.Bounded.{element_count, cut-IsBounded}
use revealnetworktrouble.Topology.Present.Cut.{
  keeps_step, keep_steps, keep_route, Kept, Presented, cut, present, first_scene,
}

-- What joins two nodes is shown: an observed link between them, or the connector of this very step.
abbrev pub IsLinked : List Text → List Text → Text → Text → Option Text → Type 0
IsLinked pairs spans from to none = has (pair_key from to) pairs ≡ true
IsLinked pairs spans from to (some span) = has span spans ≡ true

-- Every node of a kept route is shown, and so is what joins it to the one before.
abbrev Follows : List Text → List Text → List Text → Text → List Text → List (Option Text) → Type 0
Follows ids pairs spans last [] steps = Unit {0}
Follows ids pairs spans last (id ∷ more) [] = ⊥
Follows ids pairs spans last (id ∷ more) (step ∷ steps) =
    (has id ids ≡ true) × IsLinked pairs spans last id step × Follows ids pairs spans id more steps

abbrev IsJoined : List Text → List Text → List Text → List Text → List (Option Text) → Type 0
IsJoined ids pairs spans [] steps = Unit {0}
IsJoined ids pairs spans (id ∷ more) steps =
    (has id ids ≡ true) × Follows ids pairs spans id more steps

step-IsLinked :
    (pairs spans : List Text) (last id : Text) (step : Option Text)
    → keeps_step pairs spans last id step ≡ true
    → IsLinked pairs spans last id step
step-IsLinked pairs spans last id none h = h
step-IsLinked pairs spans last id (some span) h = h

step-unlinked :
    (pairs spans : List Text) (last id : Text) (step : Option Text)
    → keeps_step pairs spans last id step ≡ false
    → IsLinked pairs spans last id step
    → ⊥
step-unlinked pairs spans last id none h k = cc
step-unlinked pairs spans last id (some span) h k = cc

-- Where a kept route ends: the drawn one ends there too, or its next node is not shown, or its next step.
abbrev EndsAt :
    List Text → List Text → List Text → Text → List Text → List Text → List (Option Text) → Type 0
EndsAt ids pairs spans last (id ∷ kept) (drawn ∷ more) (step ∷ steps) =
    EndsAt ids pairs spans id kept more steps
EndsAt ids pairs spans last (id ∷ kept) _ _ = ⊥
EndsAt ids pairs spans last [] [] steps = Unit {0}
EndsAt ids pairs spans last [] (id ∷ more) [] = ⊥
EndsAt ids pairs spans last [] (id ∷ more) (step ∷ steps) =
    ¬ ((has id ids ≡ true) × IsLinked pairs spans last id step)

abbrev IsLongest :
    List Text → List Text → List Text → List Text → List Text → List (Option Text) → Type 0
IsLongest ids pairs spans (id ∷ kept) (drawn ∷ more) steps =
    EndsAt ids pairs spans id kept more steps
IsLongest ids pairs spans (id ∷ kept) [] steps = ⊥
IsLongest ids pairs spans [] [] steps = Unit {0}
IsLongest ids pairs spans [] (id ∷ more) steps = has id ids ≡ false

keep_steps-EndsAt :
    (ids pairs spans : List Text) (last : Text) (more : List Text) (steps : List (Option Text))
    → length more ≡ length steps
    → EndsAt ids pairs spans last (keep_steps ids pairs spans last more steps) more steps
unfolding keep_steps
keep_steps-EndsAt ids pairs spans last [] steps l = tt
keep_steps-EndsAt ids pairs spans last (id ∷ more) [] l = omega (arith, l)
keep_steps-EndsAt ids pairs spans last (id ∷ more) (step ∷ steps) l =
    let later = keep_steps-EndsAt ids pairs spans id more steps (omega (arith, l)) in
    elim (Bool-cases (has id ids)) [
      | inr e ↦ rw e (λ (h, _). cc)
      | inl e ↦ elim (Bool-cases (keeps_step pairs spans last id step)) [
        | inl k ↦ rw (e, k) later
        | inr k ↦ rw (e, k) (λ (_, h). step-unlinked pairs spans last id step k h)
      ]
    ]

keep_steps-Follows :
    (ids pairs spans : List Text) (last : Text) (more : List Text) (steps : List (Option Text))
    → Follows ids pairs spans last (keep_steps ids pairs spans last more steps) steps
unfolding keep_steps
keep_steps-Follows ids pairs spans last [] steps = tt
keep_steps-Follows ids pairs spans last (id ∷ more) [] = tt
keep_steps-Follows ids pairs spans last (id ∷ more) (step ∷ steps) =
    let later = keep_steps-Follows ids pairs spans id more steps in
    elim (Bool-cases (has id ids && keeps_step pairs spans last id step)) [
      | inl e ↦
          rw e
            (ground (arith, e), step-IsLinked pairs spans last id step (ground (arith, e)), later)
      | inr e ↦ rw e tt
    ]

keep_steps-prefix :
    (ids pairs spans : List Text) (last : Text) (more : List Text) (steps : List (Option Text))
    → let kept = keep_steps ids pairs spans last more steps in kept ≡ take (length kept) more
unfolding keep_steps
keep_steps-prefix ids pairs spans last [] steps = refl
keep_steps-prefix ids pairs spans last (id ∷ more) [] = refl
keep_steps-prefix ids pairs spans last (id ∷ more) (step ∷ steps) =
    let later = keep_steps-prefix ids pairs spans id more steps in
    elim (Bool-cases (has id ids && keeps_step pairs spans last id step)) [
      | inl e ↦ rw e (ap (λ t. id ∷ t) later)
      | inr e ↦ rw e refl
    ]

-- A route that is kept, with the nodes, links and connectors that are shown.
pub record IsKept (p : Presented) (k : Kept) : Type 0 where
  pub prefix : k.node_ids ≡ take (length k.node_ids) k.drawn.node_ids
  pub joined :
      IsJoined
        (map shown_id p.nodes)
        (map link_key p.links)
        (map (λ c. c.id) p.connectors)
        k.node_ids
        k.drawn.spans
  pub longest :
      IsLongest
        (map shown_id p.nodes)
        (map link_key p.links)
        (map (λ c. c.id) p.connectors)
        k.node_ids
        k.drawn.node_ids
        k.drawn.spans
  pub complete_eq :
      k.complete ≡ (k.drawn.route.complete && length k.node_ids == length k.drawn.node_ids)

keep_route-prefix :
    (ids pairs spans nodes : List Text) (steps : List (Option Text))
    → let kept = keep_route ids pairs spans nodes steps in kept ≡ take (length kept) nodes
keep_route-prefix ids pairs spans [] steps = refl
keep_route-prefix ids pairs spans (id ∷ more) steps = elim (Bool-cases (has id ids)) [
  | inl e ↦ rw e (ap (λ t. id ∷ t) (keep_steps-prefix ids pairs spans id more steps))
  | inr e ↦ rw e refl
]

keep_route-IsJoined :
    (ids pairs spans nodes : List Text) (steps : List (Option Text))
    → IsJoined ids pairs spans (keep_route ids pairs spans nodes steps) steps
keep_route-IsJoined ids pairs spans [] steps = tt
keep_route-IsJoined ids pairs spans (id ∷ more) steps = elim (Bool-cases (has id ids)) [
  | inl e ↦ rw e (e, keep_steps-Follows ids pairs spans id more steps)
  | inr e ↦ rw e tt
]

keep_route-IsLongest :
    (ids pairs spans nodes : List Text) (steps : List (Option Text))
    → length steps ≡ length nodes - 1
    → IsLongest ids pairs spans (keep_route ids pairs spans nodes steps) nodes steps
keep_route-IsLongest ids pairs spans [] steps l = tt
keep_route-IsLongest ids pairs spans (id ∷ more) steps l = elim (Bool-cases (has id ids)) [
  | inl e ↦ rw e (keep_steps-EndsAt ids pairs spans id more steps (omega (arith, l)))
  | inr e ↦ rw e e
]

All-map-from {ℓ κ ι μ} :
    {A : Type ℓ} {B : Type κ} (P : A → Type ι) (Q : B → Type μ) (f : B → A) (xs : List B)
    → ((b : B) → Q b → P (f b))
    → All Q xs
    → All P (map f xs)
All-map-from P Q f [] k h = tt
All-map-from P Q f (x ∷ xs) k (h, hs) = (k x h, All-map-from P Q f xs k hs)

cut-IsKept :
    (budget : Option ℕ) (scene : Scene) (drawn : List Drawn)
    → All IsSpanned drawn
    → All (IsKept (cut budget scene drawn)) (cut budget scene drawn).routes
unfolding cut
cut-IsKept budget scene drawn =
    All-map-from (IsKept (cut budget scene drawn)) IsSpanned _ drawn (λ d h. record {
      prefix = keep_route-prefix _ _ _ d.node_ids d.spans;
      joined = keep_route-IsJoined _ _ _ d.node_ids d.spans;
      longest = keep_route-IsLongest _ _ _ d.node_ids d.spans h;
      complete_eq = refl;
    })

-- What is presented has at most 500 nodes and 1000 links and connectors, and within a budget that has
-- room for the routes, at most as many elements as the budget says; each route is kept up to the first node
-- that is not shown, or the first step whose link or connector is not shown, and not further; and a route is
-- called complete exactly if the data calls it complete and it is kept as a whole.
pub present-IsKept :
    (show : Bool) (budget : Option ℕ) (nodes : List Node) (links : List Link) (routes : List Route)
    (p : Presented)
    → present show budget nodes links routes ≡ some p
    → (length p.nodes ≤ 500)
      × (length p.links + length p.connectors ≤ 1000)
      × ((b : ℕ) → budget ≡ some b → length p.routes ≤ b → element_count p ≤ b)
      × All (IsKept p) p.routes
unfolding present
present-IsKept show budget nodes links routes p h =
    let ((scene, drawn), drawn_eq, same) =
      >>=-eq-some (draw_routes show nodes links 0 routes (first_scene nodes)) _ h in
    let whole = whole_scene (is_nil routes) nodes links scene in
    let (n, l, b) = cut-IsBounded budget whole drawn in
    subst
      (λ q.
        (length q.nodes ≤ 500)
        × (length q.links + length q.connectors ≤ 1000)
        × ((b : ℕ) → budget ≡ some b → length q.routes ≤ b → element_count q ≤ b)
        × All (IsKept q) q.routes)
      (some-injective _ _ same)
      (
        n,
        l,
        b,
        cut-IsKept budget whole drawn (
            draw_routes-IsSpanned show nodes links 0 routes (first_scene nodes) (scene, drawn)
              drawn_eq),
      )

map-map {ℓ κ ι} :
    {A : Type ℓ} {B : Type κ} {C : Type ι} (f : B → C) (g : A → B) (xs : List A)
    → map f (map g xs) ≡ map (λ x. f (g x)) xs
map-map f g [] = refl
map-map f g (x ∷ xs) = ap (λ ys. f (g x) ∷ ys) (map-map f g xs)

pub present-routes :
    (show : Bool) (budget : Option ℕ) (nodes : List Node) (links : List Link) (routes : List Route)
    (p : Presented)
    → present show budget nodes links routes ≡ some p
    → map (λ (k : Kept). k.drawn.route) p.routes ≡ routes
unfolding present cut
present-routes show budget nodes links routes p h =
    let ((scene, drawn), drawn_eq, same) =
      >>=-eq-some (draw_routes show nodes links 0 routes (first_scene nodes)) _ h in
    subst (λ (q : Presented). map (λ (k : Kept). k.drawn.route) q.routes ≡ routes)
      (some-injective _ _ same)
      (map-map _ _ drawn
        ∙ draw_routes-routes show nodes links 0 routes (first_scene nodes) (scene, drawn) drawn_eq)
