-- ===== src/Compact/Consistent.antt =====
-- frontend/state.js, `normalizeCompactTopology`: what follows from its checks together.
use mathlib.Core.Path.{subst}
use mathlib.Core.Option.{some-injective}
use revealnetworktrouble.Prelude.{
  ℕ, suc, ◌+◌, ◌-◌, ◌≡◌, refl, sym, ◌∙◌, ap, inl, inr, Bool, true, false, ◌||◌, Option, none, some,
  List, [], ◌∷◌, arith, ◌==◌, if◌then◌else◌, ==_iff, Bool-cases, length, all, keep, length-keep-le,
  All,
}
use revealnetworktrouble.Compact.{CompactRoute, ResultStats, CompactTopology, ResultInfo}
use revealnetworktrouble.Compact.Checks.{
  sum_of, stats_ok, has_index, indexes_distinct, sums_ok, routes_of, result_counts_ok, accepts,
  normalize_compact_topology,
}

-- The routes whose result has counts.
abbrev pub covered : List ResultStats → CompactRoute → Bool
covered ss r = has_index r.result_index ss

sum_of-keep :
    (f : CompactRoute → ℕ) (p q : CompactRoute → Bool) (rs : List CompactRoute)
    → ((r : CompactRoute) → p r ≡ true → q r ≡ false)
    → sum_of f (keep p rs) + sum_of f (keep q rs) ≡ sum_of f (keep (λ r. p r || q r) rs)
sum_of-keep f p q [] h = refl
sum_of-keep f p q (r ∷ rs) h =
    let later = sum_of-keep f p q rs h in
    elim (Bool-cases (p r)) [
      | inl e ↦ let other = h r e in rw (keep, e, other) (omega (arith, later))
      | inr e ↦ elim (Bool-cases (q r)) [
        | inl d ↦ rw (keep, e, d) (omega (arith, later))
        | inr d ↦ rw (keep, e, d) later
      ]
    ]

sum_of-nothing :
    (f : CompactRoute → ℕ) (rs : List CompactRoute) → sum_of f (keep (covered []) rs) ≡ 0
sum_of-nothing f [] = refl
sum_of-nothing f (r ∷ rs) = sum_of-nothing f rs

not_later :
    (s : ResultStats) (ss : List ResultStats)
    → has_index s.result_index ss ≡ false
    → (r : CompactRoute) → (r.result_index == s.result_index) ≡ true
    → covered ss r ≡ false
not_later s ss h r e = ap (λ i. has_index i ss) ((==_iff r.result_index s.result_index).0 e) ∙ h

-- With each result once, the sums over the results are the sum over their routes.
sum_of-routes_of :
    (f : CompactRoute → ℕ) (rs : List CompactRoute) (ss : List ResultStats)
    → indexes_distinct ss ≡ true
    → sum_of (λ s. sum_of f (routes_of s.result_index rs)) ss ≡ sum_of f (keep (covered ss) rs)
unfolding indexes_distinct
sum_of-routes_of f rs [] h = sym (sum_of-nothing f rs)
sum_of-routes_of f rs (s ∷ ss) h =
    let later = sum_of-routes_of f rs ss (ground (arith, h)) in
    let both =
      sum_of-keep f (λ r. r.result_index == s.result_index) (covered ss) rs
        (not_later s ss (ground (arith, h))) in
    omega (arith, later, both)

-- Every route is covered when as many are covered as there are.
keep-all :
    (p : CompactRoute → Bool) (rs : List CompactRoute)
    → length (keep p rs) ≡ length rs
    → (keep p rs ≡ rs) × (all p rs ≡ true)
keep-all p [] h = (refl, refl)
keep-all p (r ∷ rs) h = elim (Bool-cases (p r)) [
  | inl e ↦
      let (same, every) = keep-all p rs (
        shorter (
          ap length (sym (ap (λ b. elim b [ true ↦ r ∷ keep p rs | false ↦ keep p rs ]) e)) ∙ h)) in
      rw (keep, all, e) (ap (λ t. r ∷ t) same, every)
  | inr e ↦
      let short =
        sym (ap (λ b. length (elim b [ true ↦ r ∷ keep p rs | false ↦ keep p rs ])) e) ∙ h in
      let absurd : ⊥ = omega (arith, short, length-keep-le p rs) in elim absurd [ ]
]
  where
    shorter : {n m : ℕ} → suc n ≡ suc m → n ≡ m
    shorter {n} {m} e = omega (arith, e)

length-sum_of : {A : Type 0} (xs : List A) → length xs ≡ sum_of (λ _. 1) xs
length-sum_of [] = refl
length-sum_of (x ∷ xs) = omega (arith, length-sum_of xs)

-- The counts of each result, added up.
sum_of-same :
    (f g : ResultStats → ℕ) (ss : List ResultStats)
    → All (λ s. f s ≡ g s) ss
    → sum_of f ss ≡ sum_of g ss
sum_of-same f g [] h = refl
sum_of-same f g (s ∷ ss) (e, h) = omega (arith, e, sum_of-same f g ss h)

all-All :
    (t : ResultStats → Bool) (ss : List ResultStats) (P : ResultStats → Type 0)
    → all t ss ≡ true
    → ((s : ResultStats) → t s ≡ true → P s)
    → All P ss
all-All t [] P h k = tt
all-All t (s ∷ ss) P h k = (k s (ground (arith, h)), all-All t ss P (ground (arith, h)) k)

record HasOwnCounts (routes : List CompactRoute) (s : ResultStats) : Type 0 where
  displayed : s.routes.displayed ≡ length (routes_of s.result_index routes)
  nodes :
      s.node_observations.displayed
      ≡ sum_of (λ r. length r.node_ids) (routes_of s.result_index routes)
  links :
      s.link_observations.displayed
      ≡ sum_of (λ r. length r.node_ids - 1) (routes_of s.result_index routes)

own_counts :
    (routes : List CompactRoute) (s : ResultStats)
    → result_counts_ok routes s ≡ true
    → HasOwnCounts routes s
unfolding result_counts_ok
own_counts routes s h = record {
  displayed = ground (arith, h);
  nodes = ground (arith, h);
  links = ground (arith, h);
}

-- What an accepted topology counts.
pub record IsCounted (t : CompactTopology) : Type 0 where
  pub nodes : t.stats.node_observations.displayed ≡ sum_of (λ r. length r.node_ids) t.routes
  pub links : t.stats.link_observations.displayed ≡ sum_of (λ r. length r.node_ids - 1) t.routes
  pub every : all (covered t.result_stats) t.routes ≡ true

record HasSums (t : CompactTopology) : Type 0 where
  routes : sum_of (λ s. s.routes.displayed) t.result_stats ≡ length t.routes
  nodes :
      sum_of (λ s. s.node_observations.displayed) t.result_stats
      ≡ t.stats.node_observations.displayed
  links :
      sum_of (λ s. s.link_observations.displayed) t.result_stats
      ≡ t.stats.link_observations.displayed

has_sums :
    (t : CompactTopology) → stats_ok t ≡ true → sums_ok t.result_stats t.stats ≡ true → HasSums t
unfolding stats_ok sums_ok
has_sums t a c = record {
  routes = ground (arith, a, c);
  nodes = ground (arith, c);
  links = ground (arith, c);
}

-- One of the counts, for all results and for all routes.
module _ (t : CompactTopology) (distinct : indexes_distinct t.result_stats ≡ true) where
  total :
      (f : CompactRoute → ℕ) (g : ResultStats → ℕ)
      → All (λ s. g s ≡ sum_of f (routes_of s.result_index t.routes)) t.result_stats
      → sum_of g t.result_stats ≡ sum_of f (keep (covered t.result_stats) t.routes)
  total f g h =
      sum_of-same g (λ s. sum_of f (routes_of s.result_index t.routes)) t.result_stats h
      ∙ sum_of-routes_of f t.routes t.result_stats distinct

  counted :
      stats_ok t ≡ true
      → sums_ok t.result_stats t.stats ≡ true
      → all (result_counts_ok t.routes) t.result_stats ≡ true
      → IsCounted t
  counted a c d =
      let sums = has_sums t a c in
      let own : (P : ResultStats → Type 0)
          → ((s : ResultStats) → HasOwnCounts t.routes s → P s)
          → All P t.result_stats =
        λ P k.
          all-All (result_counts_ok t.routes) t.result_stats P d
            (λ s e. k s (own_counts t.routes s e)) in
      let shown =
        total (λ _. 1) (λ s. s.routes.displayed)
          (own _ (λ s o. o.displayed ∙ length-sum_of (routes_of s.result_index t.routes))) in
      let (same, every) =
        keep-all (covered t.result_stats) t.routes
          (length-sum_of (keep (covered t.result_stats) t.routes) ∙ sym shown ∙ sums.routes) in
      record {
        nodes =
            sym sums.nodes
            ∙ total (λ r. length r.node_ids) (λ s. s.node_observations.displayed)
                (own _ (λ s o. o.nodes))
            ∙ ap (sum_of (λ r. length r.node_ids)) same;
        links =
            sym sums.links
            ∙ total (λ r. length r.node_ids - 1) (λ s. s.link_observations.displayed)
                (own _ (λ s o. o.links))
            ∙ ap (sum_of (λ r. length r.node_ids - 1)) same;
        every = every;
      }

record HasChecks (t : CompactTopology) : Type 0 where
  stats : stats_ok t ≡ true
  distinct : indexes_distinct t.result_stats ≡ true
  sums : sums_ok t.result_stats t.stats ≡ true
  counts : all (result_counts_ok t.routes) t.result_stats ≡ true

has_checks :
    (results : Option (List ResultInfo)) (t : CompactTopology)
    → accepts results t ≡ true
    → HasChecks t
unfolding accepts
has_checks results t h = record {
  stats = ground (arith, h);
  distinct = ground (arith, h);
  sums = ground (arith, h);
  counts = ground (arith, h);
}

-- Whatever topology is accepted: every route belongs to a result that has counts, the displayed node
-- observations are the hops of all routes together, and the displayed link observations their steps.
pub normalize_compact_topology-IsCounted :
    (results : Option (List ResultInfo)) (t u : CompactTopology)
    → normalize_compact_topology results t ≡ some u
    → IsCounted u
normalize_compact_topology-IsCounted results t u h = elim (Bool-cases (accepts results t)) [
  | inl e ↦
      let same = some-injective _ _ (sym (ap (λ b. if b then some t else none) e) ∙ h) in
      let c = has_checks results t e in
      subst IsCounted same (counted t c.distinct c.stats c.sums c.counts)
  | inr e ↦ (let absurd = sym (ap (λ b. if b then some t else none) e) ∙ h in cc)
]
