-- ===== src/Topology/Legacy/Model/Links.antt =====
-- frontend/topology-model.js, `adaptLegacyTopology`: the links that are summed up are chosen, each once.
use revealnetworktrouble.Prelude.{
  if_holds, text_eq_self, eq_of_text_eq, ℕ, zero, suc, ◌≤◌, ◌≡◌, ◌⊎◌, refl, sym, ◌∙◌, ap, inl, inr,
  true, false, List, [], ◌∷◌, map, arith, if◌then◌else◌, Bool-cases, length, take, All, Text,
  text_eq,
}
use mathlib.Core.Path.{subst}
use revealnetworktrouble.Topology.Data.{has, pair_key}
use revealnetworktrouble.Topology.Legacy.Routes.{Observation}
use revealnetworktrouble.Topology.Legacy.Choice.{Progress, Chosen}
use revealnetworktrouble.Topology.Legacy.Choice.Covered.{Covers, IsCovered}
use revealnetworktrouble.Topology.Legacy.Sums.{
  NodeSum, accepted_observations, LinkSum, put_edge, put_edges, link_sums, sum_link,
}
use revealnetworktrouble.Topology.Legacy.Model.Sums.{
  node_keys, AreSummed, link_keys, or_left, or_right, or_cases,
}

-- No key twice.
abbrev pub AreDistinct : List Text → Type 0
AreDistinct [] = Unit {0}
AreDistinct (k ∷ ks) = (has k ks ≡ false) × AreDistinct ks

without : Text → List Text → List Text
without t [] = []
without t (k ∷ ks) = if text_eq t k then ks else k ∷ without t ks

length-without :
    (t : Text) (ks : List Text) → has t ks ≡ true → suc (length (without t ks)) ≡ length ks
unfolding without
length-without t [] h = cc
length-without t (k ∷ ks) h =
    if_holds (λ (x : List Text). suc (length x) ≡ suc (length ks)) (text_eq t k) ks
      (k ∷ without t ks) (λ _. refl) (λ n. ap suc (length-without t ks (rw n at h)))

has-without :
    (s t : Text) (ks : List Text)
    → has s ks ≡ true
    → text_eq s t ≡ false
    → has s (without t ks) ≡ true
unfolding without
has-without s t [] h n = cc
has-without s t (k ∷ ks) h n =
    if_holds (λ (x : List Text). has s x ≡ true) (text_eq t k) ks (k ∷ without t ks)
      (λ e.
        let same : t ≡ k = eq_of_text_eq t k e in
        let other : text_eq s k ≡ false = rw (← same) n in rw other at h)
      (λ _. elim (or_cases (text_eq s k) (has s ks) h) [
        | inl e ↦ or_left (text_eq s k) _ e
        | inr e ↦ or_right (text_eq s k) _ (has-without s t ks e n)
      ])

differs :
    (k : Text) (ks : List Text) (t : Text)
    → has k ks ≡ false
    → has t ks ≡ true
    → text_eq t k ≡ false
differs k ks t fresh h = elim (Bool-cases (text_eq t k)) [
  | inl e ↦
      let same : t ≡ k = eq_of_text_eq t k e in let twice : has k ks ≡ true = rw (← same) h in cc
  | inr n ↦ n
]

-- Distinct keys that all stand in a list are no more than its length.
pub distinct-le :
    (ks ls : List Text)
    → AreDistinct ks
    → ((t : Text) → has t ks ≡ true → has t ls ≡ true)
    → length ks ≤ length ls
distinct-le [] ls d h = omega arith
distinct-le (k ∷ ks) ls (fresh, d) h =
    let shorter = length-without k ls (h k (or_left (text_eq k k) _ (text_eq_self k))) in
    let rest =
      distinct-le ks (without k ls) d
        (λ t q. has-without t k ls (h t (or_right (text_eq t k) _ q)) (differs k ks t fresh q)) in
    omega (arith, shorter, rest)

has-put_edge :
    (t from to status : Text) (sums : List LinkSum)
    → has t (link_keys (put_edge from to status sums)) ≡ true
    → (text_eq t (pair_key from to) ≡ true) ⊎ (has t (link_keys sums) ≡ true)
unfolding put_edge sum_link
has-put_edge t from to status [] h = or_cases _ _ h
has-put_edge t from to status (a ∷ sums) h =
    if_holds
      (λ (x : List LinkSum).
        has t (link_keys x) ≡ true
        → (text_eq t (pair_key from to) ≡ true) ⊎ (has t (a.key ∷ link_keys sums) ≡ true))
      (text_eq (pair_key from to) a.key) (sum_link status a ∷ sums)
      (a ∷ put_edge from to status sums) (λ _ q. inr q)
      (λ _ q. elim (or_cases (text_eq t a.key) _ q) [
        | inl e ↦ inr (or_left (text_eq t a.key) _ e)
        | inr e ↦ elim (has-put_edge t from to status sums e) [
          | inl new ↦ inl new
          | inr old ↦ inr (or_right (text_eq t a.key) _ old)
        ]
      ])
      h

still_fresh :
    (from to status : Text) (a : LinkSum) (sums : List LinkSum)
    → text_eq (pair_key from to) a.key ≡ false
    → has a.key (link_keys sums) ≡ false
    → has a.key (link_keys (put_edge from to status sums)) ≡ false
still_fresh from to status a sums n fresh =
    elim (Bool-cases (has a.key (link_keys (put_edge from to status sums)))) [
      | inl h ↦ elim (has-put_edge a.key from to status sums h) [
        | inl e ↦
            let same : a.key ≡ pair_key from to = eq_of_text_eq a.key (pair_key from to) e in
            let itself : text_eq (pair_key from to) a.key ≡ true =
              rw same (text_eq_self (pair_key from to)) in
            cc
        | inr e ↦ cc
      ]
      | inr h ↦ h
    ]

put_edge-AreDistinct :
    (from to status : Text) (sums : List LinkSum)
    → AreDistinct (link_keys sums)
    → AreDistinct (link_keys (put_edge from to status sums))
unfolding put_edge sum_link
put_edge-AreDistinct from to status [] d = (refl, tt)
put_edge-AreDistinct from to status (a ∷ sums) (fresh, d) =
    if_holds (λ (x : List LinkSum). AreDistinct (link_keys x)) (text_eq (pair_key from to) a.key)
      (sum_link status a ∷ sums) (a ∷ put_edge from to status sums) (λ _. (fresh, d))
      (λ n. (still_fresh from to status a sums n fresh, put_edge-AreDistinct from to status sums d))

put_edges-AreDistinct :
    (from : Text) (ss : List (Text × Observation)) (sums : List LinkSum)
    → AreDistinct (link_keys sums)
    → AreDistinct (link_keys (put_edges from ss sums))
unfolding put_edges
put_edges-AreDistinct from [] sums d = d
put_edges-AreDistinct from ((status, o) ∷ ss) sums d = put_edges-AreDistinct o.key ss _ (
    if_holds (λ (x : List LinkSum). AreDistinct (link_keys x)) (text_eq from o.key) sums
      (put_edge from o.key status sums) (λ _. d)
      (λ _. put_edge-AreDistinct from o.key status sums d))

pub link_sums-AreDistinct :
    (ps : List Progress) (sums : List LinkSum)
    → AreDistinct (link_keys sums)
    → AreDistinct (link_keys (link_sums ps sums))
unfolding link_sums
link_sums-AreDistinct [] sums d = d
link_sums-AreDistinct (p ∷ ps) sums d =
    link_sums-AreDistinct ps _
      (put_edges-AreDistinct p.route.first.key (take p.accepted p.route.steps) sums d)

module _ (c : Chosen) (nodes : List NodeSum) where
  -- A link between nodes that are chosen and summed up, and that is chosen itself.
  abbrev pub Joins : Text → Text → Type 0
  Joins from to =
      (has from c.nodes ≡ true)
      × (has to c.nodes ≡ true)
      × (has (pair_key from to) c.links ≡ true)
      × (has from (node_keys nodes) ≡ true)
      × (has to (node_keys nodes) ≡ true)

  abbrev pub IsJoined : LinkSum → Type 0
  IsJoined l = (l.key ≡ pair_key l.from l.to) × Joins l.from l.to

  put_edge-AreJoined :
      (from to status : Text) (sums : List LinkSum)
      → Joins from to
      → All IsJoined sums
      → All IsJoined (put_edge from to status sums)
  unfolding put_edge sum_link
  put_edge-AreJoined from to status [] j h = ((refl, j), tt)
  put_edge-AreJoined from to status (a ∷ sums) j (here, rest) =
      if_holds (All IsJoined) (text_eq (pair_key from to) a.key) (sum_link status a ∷ sums)
        (a ∷ put_edge from to status sums) (λ _. (here, rest))
        (λ _. (here, put_edge-AreJoined from to status sums j rest))

  put_edges-AreJoined :
      (n : ℕ) (from : Text) (ss : List (Text × Observation)) (sums : List LinkSum)
      → Covers c n from ss
      → has from (node_keys nodes) ≡ true
      → AreSummed nodes (map (λ s. s.1) (take n ss))
      → All IsJoined sums
      → All IsJoined (put_edges from (take n ss) sums)
  unfolding put_edges Covers
  put_edges-AreJoined zero from ss sums v f o h = h
  put_edges-AreJoined (suc n) from [] sums v f o h = h
  put_edges-AreJoined (suc n) from (s ∷ ss) sums (one, two, edge, rest) f (here, others) h =
      put_edges-AreJoined n s.1.key ss _ rest here others (
        if_holds (All IsJoined) (text_eq from s.1.key) sums (put_edge from s.1.key s.0 sums)
          (λ _. h) (λ _. put_edge-AreJoined from s.1.key s.0 sums (one, two, edge, f, here) h))

  pub link_sums-AreJoined :
      (ps : List Progress) (sums : List LinkSum)
      → All (IsCovered c) ps
      → All (λ (p : Progress). AreSummed nodes (accepted_observations p)) ps
      → All IsJoined sums
      → All IsJoined (link_sums ps sums)
  unfolding link_sums
  link_sums-AreJoined [] sums v o h = h
  link_sums-AreJoined (p ∷ ps) sums (here, rest) ((first, more), others) h =
      link_sums-AreJoined ps _ rest others
        (put_edges-AreJoined p.accepted p.route.first.key p.route.steps sums here first more h)

  -- Links that are chosen, each once, are no more than the chosen ones.
  has-links :
      (t : Text) (sums : List LinkSum)
      → All IsJoined sums
      → has t (link_keys sums) ≡ true
      → has t c.links ≡ true
  has-links t [] h q = cc
  has-links t (l ∷ sums) ((key, (_, _, edge, _, _)), rest) q =
      elim (or_cases (text_eq t l.key) _ q) [
        | inl e ↦
            subst (λ (k : Text). has k c.links ≡ true) (sym (eq_of_text_eq t l.key e ∙ key)) edge
        | inr e ↦ has-links t sums rest e
      ]

  length-link_keys : (sums : List LinkSum) → length (link_keys sums) ≡ length sums
  length-link_keys [] = refl
  length-link_keys (l ∷ sums) = ap suc (length-link_keys sums)

  pub links-le :
      (sums : List LinkSum)
      → AreDistinct (link_keys sums)
      → All IsJoined sums
      → length sums ≤ length c.links
  links-le sums d h =
      rw (← length-link_keys sums)
        (distinct-le (link_keys sums) c.links d (λ t q. has-links t sums h q))
