-- ===== src/Topology/Legacy/Choice/Total.antt =====
-- frontend/topology-model.js, `adaptLegacyTopology`: the rounds end, and keep the limits.
use revealnetworktrouble.Prelude.{
  if_holds, ℕ, zero, suc, ◌+◌, ◌%◌, ◌≤◌, ◌<◌, ◌≡◌, refl, ap, inl, inr, Bool, true, false, ◌||◌,
  Option, some, List, [], ◌∷◌, ◌++◌, arith, ltb, if◌then◌else◌, Bool-cases, Option-cases, length,
  get_or, length-append, Text, text_eq,
}
use mathlib.Core.Option.{some-injective}
use mathlib.Core.Path.{subst}
use revealnetworktrouble.Topology.Data.{has, pair_key, data_node_limit, data_link_limit}
use revealnetworktrouble.Topology.Legacy.Choice.{
  Progress, Group, Chosen, keys_of, put_key, one_unless, accept_between, accept_step, can_go,
  can_go_at, scan, accept_at, group_step, round, choose, tries_left, tries_of, all_tries,
}

abbrev pub IsWithin : Chosen → Type 0
IsWithin c = (length c.nodes ≤ 500) × (length c.links ≤ 1000)

length-put_key :
    (k : Text) (ks : List Text) → length (put_key k ks) ≡ length ks + one_unless (has k ks)
length-put_key k ks = elim (Bool-cases (has k ks)) [
  | inl h ↦ rw h (omega arith)
  | inr h ↦ rw (h, length-append ks (k ∷ [])) refl
]

pub has-append : (t : Text) (ks ls : List Text) → has t ks ≡ true → has t (ks ++ ls) ≡ true
has-append t [] ls h = cc
has-append t (k ∷ ks) ls h = elim (Bool-cases (text_eq t k)) [
  | inl e ↦ rw e refl
  | inr e ↦ rw e (has-append t ks ls (rw e at h))
]

pub has-put_key : (t k : Text) (ks : List Text) → has t ks ≡ true → has t (put_key k ks) ≡ true
has-put_key t k ks h =
    if_holds (λ (xs : List Text). has t xs ≡ true) (has k ks) ks (ks ++ k ∷ []) (λ _. h)
      (λ _. has-append t ks (k ∷ []) h)

one_unless-le : (b : Bool) → one_unless b ≤ 1
one_unless-le true = omega arith
one_unless-le false = omega arith

put_key-once :
    (t k : Text) (ks : List Text) → one_unless (has t (put_key k ks)) ≤ one_unless (has t ks)
put_key-once t k ks = elim (Bool-cases (has t ks)) [
  | inl h ↦ rw (has-put_key t k ks h) (omega arith)
  | inr h ↦ rw h (one_unless-le (has t (put_key k ks)))
]

most : (a b : ℕ) → ltb a b ≡ false → b ≤ a
most a b h = ground (arith, h)

blocked-tries : (p : Progress) → can_go p ≡ true → 1 ≤ tries_left p
blocked-tries p g = ground (arith, g)

accepted-tries :
    (p : Progress)
    → can_go p ≡ true
    → tries_left (record p { accepted = suc p.accepted }) + 1 ≤ tries_left p
accepted-tries p g = ground (arith, g)

-- A try keeps the limits, and leaves less to try.
abbrev After : Progress → Chosen × Progress → Type 0
After p x = IsWithin x.0 × (can_go p ≡ true → tries_left x.1 + 1 ≤ tries_left p)

accept_between-After :
    (from to : Text) (c : Chosen) (p : Progress) → IsWithin c → After p (accept_between from to c p)
unfolding accept_between
accept_between-After from to c p (nodes, links) =
    if_holds (After p)
      (ltb data_node_limit
        (length c.nodes + (one_unless (has from c.nodes) + one_unless (has to c.nodes))))
      _ _ (λ _. ((nodes, links), λ g. blocked-tries p g))
      (λ few.
        if_holds (After p)
          (ltb data_link_limit (length c.links + one_unless (has (pair_key from to) c.links))) _ _
          (λ _. ((nodes, links), λ g. blocked-tries p g))
          (λ fits.
            let one = length-put_key from c.nodes in
            let two = length-put_key to (put_key from c.nodes) in
            let once = put_key-once to from c.nodes in
            let edge = length-put_key (pair_key from to) c.links in
            (
              (omega (arith, one, two, once, most _ _ few), omega (arith, edge, most _ _ fits)),
              λ g. accepted-tries p g,
            )))

-- A step at a position of a group.
abbrev AfterAll : List Progress → Chosen × List Progress → Type 0
AfterAll ps x = IsWithin x.0 × (tries_of x.1 + 1 ≤ tries_of ps)

accept_at-AfterAll :
    (i : ℕ) (c : Chosen) (ps : List Progress)
    → IsWithin c
    → can_go_at i ps ≡ true
    → AfterAll ps (accept_at i c ps)
unfolding accept_at accept_step
accept_at-AfterAll i c [] w g = cc
accept_at-AfterAll zero c (p ∷ ps) w g =
    let (within, fewer) =
      accept_between-After (get_or (keys_of p.route) p.accepted [])
        (get_or (keys_of p.route) (suc p.accepted) []) c p w in
    (within, omega (arith, fewer g))
accept_at-AfterAll (suc i) c (p ∷ ps) w g =
    let (within, fewer) = accept_at-AfterAll i c ps w g in (within, omega (arith, fewer))

pub scan-can_go :
    (left position : ℕ) (ps : List Progress) (i : ℕ)
    → scan left position ps ≡ some i
    → can_go_at i ps ≡ true
unfolding scan
scan-can_go zero position ps i h = cc
scan-can_go (suc left) position ps i h =
    if_holds (λ (x : Option ℕ). x ≡ some i → can_go_at i ps ≡ true)
      (can_go_at (position % length ps) ps) _ _
      (λ g q.
        subst (λ (j : ℕ). can_go_at j ps ≡ true) (some-injective (position % length ps) i q) g)
      (λ _ q. scan-can_go left (position + 1) ps i q) h

-- A try of a group or of a round, with the tries before it.
abbrev tried : Bool → ℕ
tried b = if b then 1 else 0

either_tried : (a b : Bool) → tried (a || b) ≤ tried a + tried b
either_tried true b = omega arith
either_tried false b = omega arith

abbrev AfterGroup : Group → Chosen × Group × Bool → Type 0
AfterGroup g x = IsWithin x.0 × (tries_of x.1.routes + tried x.2 ≤ tries_of g.routes)

group_step-AfterGroup : (c : Chosen) (g : Group) → IsWithin c → AfterGroup g (group_step c g)
unfolding group_step
group_step-AfterGroup c g w =
    elim (Option-cases (scan (length g.routes) g.cursor g.routes))
      as (λ _. AfterGroup g (group_step c g)) [
        | inl h ↦ rw (group_step, h) (w, omega arith)
        | inr (i, h) ↦
            rw (group_step, h)
              (accept_at-AfterAll i c g.routes w
                (scan-can_go (length g.routes) g.cursor g.routes i h))
      ]

abbrev AfterRound : List Group → Chosen × List Group × Bool → Type 0
AfterRound gs x = IsWithin x.0 × (all_tries x.1 + tried x.2 ≤ all_tries gs)

round-AfterRound : (c : Chosen) (gs : List Group) → IsWithin c → AfterRound gs (round c gs)
unfolding round
round-AfterRound c [] w = (w, omega arith)
round-AfterRound c (g ∷ gs) w =
    let (within, here) = group_step-AfterGroup c g w in
    let (end, later) = round-AfterRound (group_step c g).0 gs within in
    (
      end,
      omega (arith, here, later, either_tried (group_step c g).2 (round (group_step c g).0 gs).2),
    )

-- A round that tries nothing changes nothing.
group_step-still :
    (c : Chosen) (g : Group) → (group_step c g).2 ≡ false → group_step c g ≡ (c, g, false)
unfolding group_step
group_step-still c g h = elim (Option-cases (scan (length g.routes) g.cursor g.routes)) [
  | inl n ↦ rw (group_step, n) refl
  | inr (i, s) ↦ let tries : (group_step c g).2 ≡ true = rw (group_step, s) refl in cc
]

pub both_false : (a b : Bool) → (a || b) ≡ false → (a ≡ false) × (b ≡ false)
both_false a b h = (ground (arith, h), ground (arith, h))

round-still : (c : Chosen) (gs : List Group) → (round c gs).2 ≡ false → round c gs ≡ (c, gs, false)
unfolding round
round-still c [] h = refl
round-still c (g ∷ gs) h =
    let (first, rest) = both_false (group_step c g).2 (round (group_step c g).0 gs).2 h in
    let here = group_step-still c g first in
    let later : round c gs ≡ (c, gs, false) = round-still c gs (rw here at rest) in
    rw (here, later) refl

-- Nothing is tried any more.
abbrev pub IsDone : Chosen × List Group → Type 0
IsDone x = IsWithin x.0 × ((round x.0 x.1).2 ≡ false)

pub choose-IsDone :
    (fuel : ℕ) (c : Chosen) (gs : List Group)
    → IsWithin c
    → all_tries gs < fuel
    → IsDone (choose fuel c gs)
unfolding choose
choose-IsDone zero c gs w h = absurd (omega (arith, h))
choose-IsDone (suc fuel) c gs w h =
    let (within, fewer) = round-AfterRound c gs w in
    let (d, hs, active) = round c gs in
    if_holds IsDone (round c gs).2 _ _
      (λ a. choose-IsDone fuel _ _ within (omega (arith, h, fewer, ap tried a)))
      (λ a. rw (round-still c gs a) (w, a))
