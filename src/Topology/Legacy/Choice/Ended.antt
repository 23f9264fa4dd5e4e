-- ===== src/Topology/Legacy/Choice/Ended.antt =====
-- frontend/topology-model.js, `adaptLegacyTopology`: where the rounds end.
use revealnetworktrouble.Prelude.{
  if_holds, ℕ, zero, suc, ◌+◌, ◌-◌, ◌%◌, ◌≤◌, ◌<◌, ◌≡◌, ◌⊎◌, refl, sym, ◌∙◌, ap, ap₂, inl, inr,
  true, false, Option, none, some, List, [], ◌∷◌, map, arith, dec_le, ltb, ◌==◌, if◌then◌else◌,
  Bool-cases, Option-cases, length, get_or, keep, All, Text,
}
use mathlib.Core.Path.{subst}
use native.Mathlib.Nat.{mod-lt, mod-add-mod, add-mod_right, mod-eq_of_lt}
use revealnetworktrouble.Topology.Data.{has, pair_key, data_node_limit, data_link_limit}
use revealnetworktrouble.Topology.Legacy.Routes.{LegacyRoute}
use revealnetworktrouble.Topology.Legacy.Choice.{
  one_unless, keys_of, refuse_node, refuse_link, accept, Progress, Group, Chosen, can_go, can_go_at,
  scan, accept_at, accept_step, accept_between, group_step, round, choose, all_tries, groups, fresh,
  local_keys, choose_routes, all_tries, numbers, is_local,
}
use revealnetworktrouble.Topology.Legacy.Choice.Total.{IsWithin, choose-IsDone, both_false}
use revealnetworktrouble.Topology.Legacy.Choice.Covered.{
  GroupsCovered, AreCovered, Covers, choose-GroupsCovered,
}

-- Every position of a group comes up around the cursor.
turn : (n start i : ℕ) → i < n → (k : ℕ) × (k < n) × ((start + k) % n ≡ i)
turn n start i lt =
    let r = start % n in
    let small : r < n = mod-lt start (omega (arith, lt)) in
    elim (dec_le r i) [
      | yes le ↦ (
        i - r,
        omega (arith, lt),
        sym (mod-add-mod start n (i - r))
            ∙ ap (λ (m : ℕ). m % n) (let sum : r + (i - r) ≡ i = omega (arith, le) in sum)
            ∙ mod-eq_of_lt lt,
      )
      | no more ↦ (
        i + n - r,
        omega (arith, lt, small, more),
        sym (mod-add-mod start n (i + n - r))
            ∙ ap (λ (m : ℕ). m % n)
                (let sum : r + (i + n - r) ≡ i + n = omega (arith, small) in sum)
            ∙ add-mod_right i n
            ∙ mod-eq_of_lt lt,
      )
    ]

scan_behind :
    (left position : ℕ) (ps : List Progress) (k : ℕ)
    → ((j : ℕ)
        → scan left (position + 1) ps ≡ none
        → j < left
        → can_go_at ((position + 1 + j) % length ps) ps ≡ false)
    → can_go_at (position % length ps) ps ≡ false
    → scan left (position + 1) ps ≡ none
    → k < suc left
    → can_go_at ((position + k) % length ps) ps ≡ false
scan_behind left position ps zero later g q lt =
    subst (λ (n : ℕ). can_go_at (n % length ps) ps ≡ false)
      (let same : position ≡ position + 0 = omega arith in same) g
scan_behind left position ps (suc j) later g q lt =
    subst (λ (n : ℕ). can_go_at (n % length ps) ps ≡ false)
      (let same : position + 1 + j ≡ position + suc j = omega arith in same)
      (later j q (omega (arith, lt)))

scan-none :
    (left position : ℕ) (ps : List Progress) (k : ℕ)
    → scan left position ps ≡ none
    → k < left
    → can_go_at ((position + k) % length ps) ps ≡ false
unfolding scan
scan-none zero position ps k h lt = absurd (omega (arith, lt))
scan-none (suc left) position ps k h lt =
    if_holds (λ (x : Option ℕ). x ≡ none → can_go_at ((position + k) % length ps) ps ≡ false)
      (can_go_at (position % length ps) ps) (some (position % length ps))
      (scan left (position + 1) ps) (λ _ q. cc)
      (λ g q. scan_behind left position ps k (scan-none left (position + 1) ps) g q lt) h

-- A route at its end: it is blocked, or all its steps are accepted.
abbrev pub HasEnded : Progress → Type 0
HasEnded p = (p.blocked ≡ true) ⊎ (length p.route.steps ≤ p.accepted)

ended : (p : Progress) → can_go p ≡ false → HasEnded p
ended p h = elim (Bool-cases p.blocked) [ inl b ↦ inl b | inr b ↦ inr (ground (arith, h, b)) ]

all-ended :
    (ps : List Progress) → ((i : ℕ) → i < length ps → can_go_at i ps ≡ false) → All HasEnded ps
all-ended [] h = tt
all-ended (p ∷ ps) h =
    (ended p (h 0 (omega arith)), all-ended ps (λ i lt. h (suc i) (omega (arith, lt))))

abbrev GroupEnded : Group → Type 0
GroupEnded g = All HasEnded g.routes

group_step-GroupEnded : (c : Chosen) (g : Group) → (group_step c g).2 ≡ false → GroupEnded g
unfolding group_step
group_step-GroupEnded c g h = elim (Option-cases (scan (length g.routes) g.cursor g.routes)) [
  | inl n ↦ all-ended g.routes (λ i lt.
      let (k, fits, at) = turn (length g.routes) g.cursor i lt in
      subst (λ (j : ℕ). can_go_at j g.routes ≡ false) at
        (scan-none (length g.routes) g.cursor g.routes k n fits))
  | inr (i, s) ↦ let tries : (group_step c g).2 ≡ true = rw (group_step, s) refl in cc
]

round-AllEnded : (c : Chosen) (gs : List Group) → (round c gs).2 ≡ false → All GroupEnded gs
unfolding round
round-AllEnded c [] h = tt
round-AllEnded c (g ∷ gs) h =
    let (first, rest) = both_false (group_step c g).2 (round (group_step c g).0 gs).2 h in
    (group_step-GroupEnded c g first, round-AllEnded (group_step c g).0 gs rest)

-- No step changes which routes there are.
abbrev pub routes_in : List Group → List (List LegacyRoute)
routes_in gs = map (λ g. map (λ (p : Progress). p.route) g.routes) gs

abbrev routes_at : List Progress → List LegacyRoute
routes_at ps = map (λ (p : Progress). p.route) ps

accept_step-route : (c : Chosen) (p : Progress) → (accept_step c p).1.route ≡ p.route
unfolding accept_step accept_between
accept_step-route c p =
    let from = get_or (keys_of p.route) p.accepted [] in
    let to = get_or (keys_of p.route) (suc p.accepted) [] in
    let nodes = length c.nodes + (one_unless (has from c.nodes) + one_unless (has to c.nodes)) in
    let links = length c.links + one_unless (has (pair_key from to) c.links) in
    if_holds (λ (x : Chosen × Progress). x.1.route ≡ p.route) (ltb data_node_limit nodes)
      (refuse_node c p) (if ltb data_link_limit links then refuse_link c p else accept from to c p)
      (λ _. refl)
      (λ _.
        if_holds (λ (x : Chosen × Progress). x.1.route ≡ p.route) (ltb data_link_limit links)
          (refuse_link c p) (accept from to c p) (λ _. refl) (λ _. refl))

accept_at-routes :
    (i : ℕ) (c : Chosen) (ps : List Progress) → routes_at (accept_at i c ps).1 ≡ routes_at ps
unfolding accept_at
accept_at-routes i c [] = refl
accept_at-routes zero c (p ∷ ps) =
    ap (λ (r : LegacyRoute). r ∷ routes_at ps) (accept_step-route c p)
accept_at-routes (suc i) c (p ∷ ps) =
    ap (λ (rs : List LegacyRoute). p.route ∷ rs) (accept_at-routes i c ps)

group_step-routes :
    (c : Chosen) (g : Group) → routes_at (group_step c g).1.routes ≡ routes_at g.routes
unfolding group_step
group_step-routes c g =
    elim (Option-cases (scan (length g.routes) g.cursor g.routes))
      as (λ _. routes_at (group_step c g).1.routes ≡ routes_at g.routes) [
        | inl n ↦ rw (group_step, n) refl
        | inr (i, s) ↦ rw (group_step, s) (accept_at-routes i c g.routes)
      ]

round-routes : (c : Chosen) (gs : List Group) → routes_in (round c gs).1 ≡ routes_in gs
unfolding round
round-routes c [] = refl
round-routes c (g ∷ gs) =
    ap₂ (λ x y. x ∷ y) (group_step-routes c g) (round-routes (group_step c g).0 gs)

choose-routes :
    (fuel : ℕ) (c : Chosen) (gs : List Group) → routes_in (choose fuel c gs).1 ≡ routes_in gs
unfolding choose
choose-routes zero c gs = refl
choose-routes (suc fuel) c gs =
    if_holds (λ (x : Chosen × List Group). routes_in x.1 ≡ routes_in gs) (round c gs).2 _ _
      (λ _. choose-routes fuel (round c gs).0 (round c gs).1 ∙ round-routes c gs)
      (λ _. round-routes c gs)

-- What the choice gives: the sets of nodes and links, and the routes with their accepted parts.
unfoldable pub IsChosen : List LegacyRoute → Chosen × List Group → Type 0
IsChosen rs (c, gs) =
    IsWithin c × GroupsCovered c gs × All GroupEnded gs × (routes_in gs ≡ routes_in (groups rs))

fresh-AreCovered : (c : Chosen) (rs : List LegacyRoute) → AreCovered c (map fresh rs)
unfolding AreCovered Covers
fresh-AreCovered c [] = tt
fresh-AreCovered c (r ∷ rs) = (tt, fresh-AreCovered c rs)

fresh-GroupsCovered :
    (c : Chosen) (rs : List LegacyRoute) (is : List ℕ)
    → GroupsCovered c (
        map
          (λ i. record { cursor = 0; routes = map fresh (keep (λ r. r.result_index == i) rs) })
          is)
unfolding GroupsCovered
fresh-GroupsCovered c rs [] = tt
fresh-GroupsCovered c rs (i ∷ is) =
    (fresh-AreCovered c (keep (λ r. r.result_index == i) rs), fresh-GroupsCovered c rs is)

length-local_keys : (rs : List LegacyRoute) → length (local_keys rs) ≤ 1
length-local_keys [] = omega arith
length-local_keys (r ∷ rs) =
    if_holds (λ (ks : List Text). length ks ≤ 1) (is_local r) (r.first.key ∷ []) (local_keys rs)
      (λ _. omega arith) (λ _. length-local_keys rs)

-- For any routes of a report, the rounds of adaptLegacyTopology choose at most 500 nodes and 1000 links; they keep
-- the routes and their groups; the accepted steps of every route have both their nodes and their link chosen; and
-- they go on until every route is blocked or wholly accepted.
pub choose_routes-IsChosen : (rs : List LegacyRoute) → IsChosen rs (choose_routes rs)
unfolding choose_routes IsChosen numbers
choose_routes-IsChosen rs =
    let start : Chosen = record {
      nodes = local_keys rs;
      links = [];
      node_limited = false;
      link_limited = false;
    } in
    let few = length-local_keys rs in
    let (within, done) =
      choose-IsDone (all_tries (groups rs) + 1) start (groups rs) (omega (arith, few), omega arith)
        (omega arith) in
    (
      within,
      choose-GroupsCovered (all_tries (groups rs) + 1) start (groups rs)
          (fresh-GroupsCovered start rs (numbers rs)),
      round-AllEnded _ _ done,
      choose-routes (all_tries (groups rs) + 1) start (groups rs),
    )
