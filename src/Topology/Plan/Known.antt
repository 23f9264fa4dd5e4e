-- ===== src/Topology/Plan/Known.antt =====
-- frontend/topology-model.js, `planTopologyDOM`: every node that is selected is one of the data.
use revealnetworktrouble.Prelude.{
  eq_of_text_eq, ◌≡◌, refl, sym, ◌∙◌, ap, ap₂, inl, inr, Bool, true, false, ◌||◌, Option, none,
  some, List, [], ◌∷◌, ◌++◌, map, arith, Bool-cases, Text, text_eq,
}
use revealnetworktrouble.Topology.Data.{Node, Link, pair_key, has, find_node, find_link}
use revealnetworktrouble.Topology.Select.{Input, Plan, add_node, put_link, add_link, put_segment}

abbrev pub ids_of : List Node → List Text
ids_of ns = map (λ n. n.id) ns

pub find_node-has :
    (id : Text) (ns : List Node)
    → has id (ids_of ns) ≡ true
    → (n : Node) × (find_node id ns ≡ some n) × (n.id ≡ id)
find_node-has id [] h = cc
find_node-has id (n ∷ ns) h = elim (Bool-cases (text_eq id n.id)) [
  | inl e ↦ rw e (n, refl, sym (eq_of_text_eq id n.id e))
  | inr e ↦ rw e (find_node-has id ns (ground (arith, e, h)))
]

has-snoc :
    (id : Text) (ts : List Text) (t : Text) → has id (ts ++ t ∷ []) ≡ (has id ts || text_eq id t)
has-snoc id [] t = ground arith
has-snoc id (u ∷ ts) t = ground (arith, has-snoc id ts t)

map-snoc {ℓ κ} :
    {A : Type ℓ} {B : Type κ} (f : A → B) (xs : List A) (x : A)
    → map f (xs ++ x ∷ []) ≡ map f xs ++ f x ∷ []
map-snoc f [] x = refl
map-snoc f (y ∷ xs) x = ap (λ zs. f y ∷ zs) (map-snoc f xs x)

-- The nodes of a plan are nodes, and those that it names.
pub record IsKnown (p : Plan) : Type 0 where
  pub chosen : List Node
  pub nodes_eq : p.nodes ≡ map (λ n. some n) chosen
  pub ids : (id : Text) → has id p.node_ids ≡ true → has id (ids_of chosen) ≡ true

pub add_node-IsKnown :
    (input : Input) (id : Text) (p : Plan)
    → has id (ids_of input.nodes) ≡ true
    → IsKnown p
    → IsKnown (add_node input id p)
unfolding add_node
add_node-IsKnown input id p h k = elim (Bool-cases (has id p.node_ids)) [
  | inl e ↦ simp (add_node, e) k
  | inr e ↦
      let (n, found, same) = find_node-has id input.nodes h in
      simp (add_node, e)
        (record {
          chosen = k.chosen ++ n ∷ [];
          nodes_eq =
              ap₂ (λ ns m. ns ++ m ∷ []) k.nodes_eq found ∙ sym (map-snoc (λ m. some m) k.chosen n);
          ids = λ t i.
              ap (has t) (map-snoc (λ m. m.id) k.chosen n)
              ∙ has-snoc t (ids_of k.chosen) n.id
              ∙ named k n same t i;
        })
]
  where
    named :
        (k : IsKnown p) (n : Node)
        → n.id ≡ id
        → (t : Text) → has t (id ∷ p.node_ids) ≡ true
        → (has t (ids_of k.chosen) || text_eq t n.id) ≡ true
    named k n same t i = elim (Bool-cases (text_eq t id)) [
      | inl e ↦ let also = ap (text_eq t) same ∙ e in ground (arith, also)
      | inr e ↦ let later = k.ids t (ground (arith, e, i)) in ground (arith, later)
    ]

-- The rest of a plan does not matter.
pub same-IsKnown :
    (p q : Plan) → q.nodes ≡ p.nodes → q.node_ids ≡ p.node_ids → IsKnown p → IsKnown q
same-IsKnown p q n i k = record {
  chosen = k.chosen;
  nodes_eq = n ∙ k.nodes_eq;
  ids = λ t h. k.ids t (sym (ap (has t) i) ∙ h);
}

pub add_link_nodes :
    (input : Input) (from to : Text) (p : Plan)
    → ((add_link input from to p).nodes ≡ p.nodes)
      × ((add_link input from to p).node_ids ≡ p.node_ids)
unfolding add_link
add_link_nodes input from to p = elim (Bool-cases (has (pair_key from to) p.link_keys)) [
  | inl e ↦ simp (add_link, e) (refl, refl)
  | inr e ↦ simp (add_link, e) (put (find_link (pair_key from to) input.links))
]
  where
    put :
        (o : Option Link)
        → ((put_link (pair_key from to) p o).nodes ≡ p.nodes)
          × ((put_link (pair_key from to) p o).node_ids ≡ p.node_ids)
    put none = (refl, refl)
    put (some l) = (refl, refl)

pub put_segment_nodes :
    (b : Bool) (from to : Text) (p : Plan)
    → ((put_segment b from to p).nodes ≡ p.nodes)
      × ((put_segment b from to p).node_ids ≡ p.node_ids)
put_segment_nodes true from to p = (refl, refl)
put_segment_nodes false from to p = (refl, refl)
