-- ===== src/Topology/RouteOrder/Fair.antt =====
-- frontend/topology-model.js, `fairRouteOrder`: how often each route comes.
use mathlib.Core.Path.{subst}
use mathlib.Core.Option.{some-injective}
use revealnetworktrouble.Prelude.{
  ℕ, zero, suc, ◌+◌, ◌≤◌, ◌<◌, ◌≡◌, refl, sym, ◌∙◌, ap, inl, inr, Bool, true, false, ◌&&◌, none,
  some, List, [], ◌∷◌, ◌++◌, map, arith, ltb, ◌==◌, if◌then◌else◌, ==_iff, Bool-cases, Option-cases,
  length, is_nil, get_elem?, drop, keep, length-keep-le, All, All-map,
}
use revealnetworktrouble.Topology.Data.{Route}
use revealnetworktrouble.Topology.RouteOrder.{
  insert_index, insert_route, sort_routes, group_of, sorted_groups, result_indexes, column, rounds,
  fair_route_order, comes_after,
}

abbrev pub count_if : (Route → Bool) → List Route → ℕ
count_if p rs = length (keep p rs)

abbrev one_if : Bool → ℕ
one_if b = if b then 1 else 0

-- The indexes rise.
abbrev Rises : ℕ → List ℕ → Type 0
Rises low [] = Unit {0}
Rises low (j ∷ js) = (low ≤ j) × Rises (j + 1) js

abbrev times : ℕ → List ℕ → ℕ
times i [] = 0
times i (j ∷ js) = one_if (i == j) + times i js

times-Rises : (i low : ℕ) (js : List ℕ) → i < low → Rises low js → times i js ≡ 0
times-Rises i low [] h r = refl
times-Rises i low (j ∷ js) h (l, r) =
    ground (arith, times-Rises i (j + 1) js (omega (arith, h, l)) r)

insert_index-Rises :
    (i low : ℕ) (js : List ℕ) → low ≤ i → Rises low js → Rises low (insert_index i js)
unfolding insert_index
insert_index-Rises i low [] h r = (h, tt)
insert_index-Rises i low (j ∷ js) h (l, r) = elim (Bool-cases (i == j)) [
  | inl e ↦ rw e (l, r)
  | inr e ↦ elim (Bool-cases (ltb i j)) [
    | inl f ↦ rw (e, f) (h, (ground (arith, f), r))
    | inr f ↦ rw (e, f) (l, insert_index-Rises i (j + 1) js (ground (arith, e, f)) r)
  ]
]

insert_index-times : (i low : ℕ) (js : List ℕ) → Rises low js → times i (insert_index i js) ≡ 1
unfolding insert_index
insert_index-times i low [] r = ground arith
insert_index-times i low (j ∷ js) (l, r) = elim (Bool-cases (i == j)) [
  | inl e ↦
      let none = times-Rises i (j + 1) js (ground (arith, e)) r in rw e (ground (arith, e, none))
  | inr e ↦ elim (Bool-cases (ltb i j)) [
    | inl f ↦
        let none = times-Rises i (j + 1) js (ground (arith, f)) r in
        rw (e, f) (ground (arith, e, none))
    | inr f ↦ let later = insert_index-times i (j + 1) js r in rw (e, f) (ground (arith, e, later))
  ]
]

insert_index-others :
    (i k : ℕ) (js : List ℕ) → (k == i) ≡ false → times k (insert_index i js) ≡ times k js
unfolding insert_index
insert_index-others i k [] h = ground (arith, h)
insert_index-others i k (j ∷ js) h = elim (Bool-cases (i == j)) [
  | inl e ↦ rw e refl
  | inr e ↦ elim (Bool-cases (ltb i j)) [
    | inl f ↦ rw (e, f) (ground (arith, h))
    | inr f ↦ let later = insert_index-others i k js h in rw (e, f) (omega (arith, later))
  ]
]

result_indexes-Rises : (rs : List Route) → Rises 0 (result_indexes rs)
unfolding result_indexes
result_indexes-Rises [] = tt
result_indexes-Rises (r ∷ rs) =
    insert_index-Rises r.result_index 0 (result_indexes rs) (omega arith) (result_indexes-Rises rs)

abbrev Once : List ℕ → Route → Type 0
Once js r = times r.result_index js ≡ 1

insert_index-Once :
    (i : ℕ) (js : List ℕ) (rs : List Route)
    → Rises 0 js
    → All (Once js) rs
    → All (Once (insert_index i js)) rs
insert_index-Once i js [] r _ = tt
insert_index-Once i js (s ∷ rs) r (o, h) = (
  elim (Bool-cases (s.result_index == i)) [
    | inl e ↦
        subst (λ k. times k (insert_index i js) ≡ 1) (sym ((==_iff s.result_index i).0 e))
          (insert_index-times i 0 js r)
    | inr e ↦ insert_index-others i s.result_index js e ∙ o
  ],
  insert_index-Once i js rs r h,
)

result_indexes-Once : (rs : List Route) → All (Once (result_indexes rs)) rs
unfolding result_indexes
result_indexes-Once [] = tt
result_indexes-Once (r ∷ rs) =
    let rises = result_indexes-Rises rs in
    (
      insert_index-times r.result_index 0 (result_indexes rs) rises,
      insert_index-Once r.result_index (result_indexes rs) rs rises (result_indexes-Once rs),
    )

drop-suc-none :
    (g : List Route) (offset : ℕ)
    → get_elem? g offset ≡ none
    → (drop offset g ≡ []) × (drop (suc offset) g ≡ [])
drop-suc-none [] zero h = (refl, refl)
drop-suc-none [] (suc offset) h = (refl, refl)
drop-suc-none (r ∷ g) zero h = cc
drop-suc-none (r ∷ g) (suc offset) h = drop-suc-none g offset h

drop-suc-some :
    (g : List Route) (offset : ℕ) (r : Route)
    → get_elem? g offset ≡ some r
    → drop offset g ≡ r ∷ drop (suc offset) g
drop-suc-some [] offset r h = cc
drop-suc-some (s ∷ g) zero r h = ap (λ x. x ∷ g) (some-injective _ _ h)
drop-suc-some (s ∷ g) (suc offset) r h = drop-suc-some g offset r h

All-mono :
    (P Q : List Route → Type 0) (gs : List (List Route))
    → ((g : List Route) → P g → Q g)
    → All P gs
    → All Q gs
All-mono P Q [] k h = tt
All-mono P Q (g ∷ gs) k (p, h) = (k g p, All-mono P Q gs k h)

add_one : (n : ℕ) → n + 1 ≡ suc n
add_one n = omega arith

drop-none :
    (g : List Route) (offset : ℕ)
    → get_elem? g offset ≡ none
    → (drop offset g ≡ []) × (drop (offset + 1) g ≡ [])
drop-none g offset h =
    let (here, next) = drop-suc-none g offset h in
    (here, ap (λ n. drop n g) (add_one offset) ∙ next)

drop-some :
    (g : List Route) (offset : ℕ) (r : Route)
    → get_elem? g offset ≡ some r
    → drop offset g ≡ r ∷ drop (offset + 1) g
drop-some g offset r h = drop-suc-some g offset r h ∙ ap (λ n. r ∷ drop n g) (sym (add_one offset))

column-nil :
    (offset : ℕ) (gs : List (List Route))
    → is_nil (column offset gs) ≡ true
    → All (λ g. get_elem? g offset ≡ none) gs
unfolding column
column-nil offset [] h = tt
column-nil offset (g ∷ gs) h = elim (Option-cases (get_elem? g offset)) [
  | inl e ↦ (
    e,
    column-nil offset gs (
        sym
          (ap (λ o. is_nil (elim o [ none ↦ column offset gs | some r ↦ r ∷ column offset gs ])) e)
        ∙ h),
  )
  | inr (r, e) ↦
      (let absurd =
          sym (
            ap (λ o. is_nil (elim o [ none ↦ column offset gs | some r ↦ r ∷ column offset gs ])) e)
          ∙ h in
        cc)
]

short-none : (g : List Route) (offset : ℕ) → length g ≤ offset → get_elem? g offset ≡ none
short-none [] offset h = refl
short-none (r ∷ g) zero h = let absurd : ⊥ = omega (arith, h) in elim absurd [ ]
short-none (r ∷ g) (suc offset) h = short-none g offset (omega (arith, h))

-- The groups of the results, one after the other.
module _ (p : Route → Bool) where
  abbrev in_groups : List ℕ → List Route → ℕ
  in_groups [] rs = 0
  in_groups (i ∷ is) rs = count_if p (group_of i rs) + in_groups is rs

  count_if-cons : (r : Route) (rs : List Route) → count_if p (r ∷ rs) ≡ one_if (p r) + count_if p rs
  count_if-cons r rs = ground arith

  count_if-append : (xs ys : List Route) → count_if p (xs ++ ys) ≡ count_if p xs + count_if p ys
  count_if-append [] ys = omega arith
  count_if-append (x ∷ xs) ys =
      omega (arith, count_if-cons x (xs ++ ys), count_if-cons x xs, count_if-append xs ys)

  group-cons :
      (i : ℕ) (r : Route) (rs : List Route)
      → count_if p (group_of i (r ∷ rs))
        ≡ one_if (r.result_index == i && p r) + count_if p (group_of i rs)
  group-cons i r rs = elim (Bool-cases (r.result_index == i)) [
    | inl e ↦ rw (keep, e) (count_if-cons r (group_of i rs))
    | inr e ↦ rw (keep, e) (omega arith)
  ]

  in_groups-nil : (is : List ℕ) → in_groups is [] ≡ 0
  in_groups-nil [] = refl
  in_groups-nil (i ∷ is) = omega (arith, in_groups-nil is)

  in_groups-cons :
      (is : List ℕ) (r : Route) (rs : List Route)
      → in_groups is (r ∷ rs) ≡ (if p r then times r.result_index is else 0) + in_groups is rs
  in_groups-cons [] r rs = ground arith
  in_groups-cons (i ∷ is) r rs = ground (arith, group-cons i r rs, in_groups-cons is r rs)

  in_groups-count :
      (is : List ℕ) (rs : List Route) → All (Once is) rs → in_groups is rs ≡ count_if p rs
  in_groups-count is [] h = in_groups-nil is
  in_groups-count is (r ∷ rs) (o, h) =
      ground (arith, o, in_groups-cons is r rs, count_if-cons r rs, in_groups-count is rs h)

  insert_route-count :
      (r : Route) (rs : List Route) → count_if p (insert_route r rs) ≡ one_if (p r) + count_if p rs
  unfolding insert_route
  insert_route-count r [] = ground arith
  insert_route-count r (s ∷ rs) = elim (Bool-cases (comes_after r s)) [
    | inl e ↦ rw e (
        omega
          (arith, count_if-cons s (insert_route r rs), count_if-cons s rs, insert_route-count r rs))
    | inr e ↦ rw e (count_if-cons r (s ∷ rs))
  ]

  sort_routes-count : (rs : List Route) → count_if p (sort_routes rs) ≡ count_if p rs
  unfolding sort_routes
  sort_routes-count [] = refl
  sort_routes-count (r ∷ rs) =
      omega (arith, insert_route-count r (sort_routes rs), count_if-cons r rs, sort_routes-count rs)

  -- What the rounds have still to bring.
  abbrev remaining : ℕ → List (List Route) → ℕ
  remaining offset [] = 0
  remaining offset (g ∷ gs) = count_if p (drop offset g) + remaining offset gs

  column-remaining :
      (offset : ℕ) (gs : List (List Route))
      → count_if p (column offset gs) + remaining (offset + 1) gs ≡ remaining offset gs
  unfolding column
  column-remaining offset [] = refl
  column-remaining offset (g ∷ gs) = elim (Option-cases (get_elem? g offset)) [
    | inl e ↦
        let (here, next) = drop-none g offset e in
        rw (column, e, here, next) (omega (arith, column-remaining offset gs))
    | inr (r, e) ↦
        rw (column, e, drop-some g offset r e)
          (omega (
            arith,
            count_if-cons r (column offset gs),
            count_if-cons r (drop (offset + 1) g),
            column-remaining offset gs,
          ))
  ]

  remaining-none :
      (offset : ℕ) (gs : List (List Route))
      → All (λ g. get_elem? g offset ≡ none) gs
      → remaining offset gs ≡ 0
  remaining-none offset [] h = refl
  remaining-none offset (g ∷ gs) (e, h) =
      let (here, _) = drop-none g offset e in rw here (omega (arith, remaining-none offset gs h))

  rounds-count :
      (fuel offset : ℕ) (gs : List (List Route))
      → All (λ g. length g ≤ offset + fuel) gs
      → count_if p (rounds fuel offset gs) ≡ remaining offset gs
  unfolding rounds
  rounds-count zero offset gs h =
      sym (
        remaining-none offset gs
          (All-mono _ _ gs (λ g k. short-none g offset (omega (arith, k))) h))
  rounds-count (suc fuel) offset gs h = elim (Bool-cases (is_nil (column offset gs))) [
    | inl e ↦ rw e (sym (remaining-none offset gs (column-nil offset gs e)))
    | inr e ↦
        let later =
          rounds-count fuel (offset + 1) gs (All-mono _ _ gs (λ g k. omega (arith, k)) h) in
        rw e (
          omega (
            arith,
            count_if-append (column offset gs) (rounds fuel (offset + 1) gs),
            later,
            column-remaining offset gs,
          ))
  ]

  groups-remaining :
      (is : List ℕ) (rs : List Route)
      → remaining 0 (map (λ i. sort_routes (group_of i rs)) is) ≡ in_groups is rs
  groups-remaining [] rs = refl
  groups-remaining (i ∷ is) rs =
      omega (arith, sort_routes-count (group_of i rs), groups-remaining is rs)

length-count : (rs : List Route) → count_if (λ _. true) rs ≡ length rs
length-count [] = refl
length-count (r ∷ rs) = ap suc (length-count rs)

group-short : (i : ℕ) (rs : List Route) → length (sort_routes (group_of i rs)) ≤ length rs
group-short i rs =
    let sorted = sort_routes-count (λ _. true) (group_of i rs) in
    omega (
      arith,
      sorted,
      length-count (sort_routes (group_of i rs)),
      length-count (group_of i rs),
      length-keep-le (λ r. r.result_index == i) rs,
    )

-- Whatever is asked of a route, as many routes in turn have it as among the routes given: none is lost,
-- repeated or made up, and the rounds never end too early.
pub fair_route_order-count :
    (p : Route → Bool) (rs : List Route) → count_if p (fair_route_order rs) ≡ count_if p rs
unfolding fair_route_order
fair_route_order-count p rs =
    rounds-count p (length rs + 1) 0 (sorted_groups rs) (
      All-map (λ g. length g ≤ 0 + (length rs + 1)) _ (result_indexes rs)
        (λ i. omega (arith, group-short i rs)))
    ∙ groups-remaining p (result_indexes rs) rs
    ∙ in_groups-count p (result_indexes rs) rs (result_indexes-Once rs)
