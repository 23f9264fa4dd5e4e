-- ===== src/Topology/Mount/Chunks.antt =====
-- frontend/topology-model.js, `planTopologyDOM`: the chunks hold all items in order, each within the size.
use revealnetworktrouble.Prelude.{
  ℕ, ◌+◌, ◌≤◌, ◌≡◌, ◌⊎◌, refl, ◌∙◌, ap, inl, inr, true, false, not, ◌&&◌, List, [], ◌∷◌, ◌++◌,
  arith, ltb, Bool-cases, is_nil, All,
}
use mathlib.Core.List.{append_assoc}
use revealnetworktrouble.Topology.Mount.{Item, dom_cost, total_cost, chunks_from}

abbrev pub flatten : List (List Item) → List Item
flatten [] = []
flatten (c ∷ cs) = c ++ flatten cs

pub record IsChunk (size : ℕ) (chunk : List Item) : Type 0 where
  pub some_items : is_nil chunk ≡ false
  pub small : total_cost chunk ≤ size

pub dom_cost-le : (i : Item) → (1 ≤ dom_cost i) × (dom_cost i ≤ 5)
dom_cost-le Item.topology_canvas = (omega arith, omega arith)
dom_cost-le Item.topology_inspector = (omega arith, omega arith)
dom_cost-le Item.geo_canvas = (omega arith, omega arith)
dom_cost-le Item.geo_target_legend = (omega arith, omega arith)
dom_cost-le Item.geo_accessible_list = (omega arith, omega arith)
dom_cost-le Item.label_shell = (omega arith, omega arith)
dom_cost-le (Item.topology_node n) = (omega arith, omega arith)
dom_cost-le (Item.topology_link l) = (omega arith, omega arith)
dom_cost-le (Item.topology_connector c) = (omega arith, omega arith)
dom_cost-le (Item.topology_route r) = (omega arith, omega arith)
dom_cost-le (Item.geo_target_entry t) = (omega arith, omega arith)
dom_cost-le (Item.geo_accessible_item m) = (omega arith, omega arith)
dom_cost-le (Item.label_row r) = (omega arith, omega arith)

pub total_cost-append : (is js : List Item) → total_cost (is ++ js) ≡ total_cost is + total_cost js
total_cost-append [] js = omega arith
total_cost-append (i ∷ is) js = omega (arith, total_cost-append is js)

chunks_from-flatten :
    (size : ℕ) (chunk : List Item) (cost : ℕ) (is : List Item)
    → flatten (chunks_from size chunk cost is) ≡ chunk ++ is
unfolding chunks_from
chunks_from-flatten size [] cost [] = refl
chunks_from-flatten size (c ∷ cs) cost [] = refl
chunks_from-flatten size chunk cost (i ∷ is) =
    elim (Bool-cases (not (is_nil chunk) && ltb size (cost + dom_cost i))) [
      | inl e ↦
          simp (chunks_from, e)
            (ap (λ t. chunk ++ t) (chunks_from-flatten size (i ∷ []) (dom_cost i) is))
      | inr e ↦
          simp (chunks_from, e)
            (chunks_from-flatten size (chunk ++ i ∷ []) (cost + dom_cost i) is
              ∙ append_assoc chunk (i ∷ []) is)
    ]

is_nil-snoc : (is : List Item) (i : Item) → is_nil (is ++ i ∷ []) ≡ false
is_nil-snoc [] i = refl
is_nil-snoc (j ∷ js) i = refl

chunks_from-IsChunk :
    (size : ℕ) (chunk : List Item) (cost : ℕ) (is : List Item)
    → 5 ≤ size
    → cost ≡ total_cost chunk
    → cost ≤ size
    → All (IsChunk size) (chunks_from size chunk cost is)
unfolding chunks_from
chunks_from-IsChunk size [] cost [] h c k = tt
chunks_from-IsChunk size (i ∷ is) cost [] h c k =
    (record { some_items = refl; small = omega (arith, c, k) }, tt)
chunks_from-IsChunk size chunk cost (i ∷ is) h c k =
    let (_, small) = dom_cost-le i in
    elim (Bool-cases (not (is_nil chunk) && ltb size (cost + dom_cost i))) [
      | inl e ↦
          simp (chunks_from, e)
            (
              record { some_items = ground (arith, e); small = omega (arith, c, k) },
              chunks_from-IsChunk size (i ∷ []) (dom_cost i) is h (omega arith)
                  (omega (arith, small, h)),
            )
      | inr e ↦
          simp (chunks_from, e)
            (chunks_from-IsChunk size (chunk ++ i ∷ []) (cost + dom_cost i) is h
              (omega (arith, c, total_cost-append chunk (i ∷ [])))
              (room chunk c (ground (arith, e))))
    ]
  where
    room :
        (chunk : List Item)
        → cost ≡ total_cost chunk
        → (is_nil chunk ≡ true) ⊎ (cost + dom_cost i ≤ size)
        → cost + dom_cost i ≤ size
    room [] c r = omega (arith, c, dom_cost-le i, h)
    room (j ∷ js) c (inl e) = cc
    room (j ∷ js) c (inr e) = e

-- The chunks hold every item once and in order, no chunk is empty, and none costs more than its size.
pub chunks_from-IsChunked :
    (size : ℕ) (is : List Item)
    → 5 ≤ size
    → (flatten (chunks_from size [] 0 is) ≡ is) × All (IsChunk size) (chunks_from size [] 0 is)
chunks_from-IsChunked size is h =
    (chunks_from-flatten size [] 0 is, chunks_from-IsChunk size [] 0 is h refl (omega arith))
