-- ===== src/Topology/Mount/Within.antt =====
-- frontend/topology-model.js, `planTopologyDOM`: a plan never exceeds the budget of the document.
use mathlib.Core.Path.{subst}
use mathlib.Core.Option.{some-injective}
use revealnetworktrouble.Prelude.{
  ℕ, ◌+◌, ◌≤◌, min, ◌≡◌, refl, sym, ◌∙◌, ap, inl, inr, Bool, true, false, not, ◌||◌, Option, none,
  some, List, [], ◌∷◌, map, arith, ltb, if◌then◌else◌, leb→le, Bool-cases, >>=-eq-some, take, All,
}
use revealnetworktrouble.Topology.Data.{document_limit, chunk_limit}
use revealnetworktrouble.Topology.Select.{RouteState}
use revealnetworktrouble.Topology.Mount.{
  View, topology, geo, labels, Options, Content, Item, Mounting, DomPlan, dom_cost, total_cost,
  existing, reserve, dynamic_budget, fits_document, chunk_size, renderable, mount, mount_each,
  mount_while, mount_under, geo_legend, mount_view, targets, topology_items, chunks_from, plan_dom,
  bounded,
}
use revealnetworktrouble.Topology.Mount.Chunks.{
  flatten, IsChunk, total_cost-append, chunks_from-IsChunked,
}

-- What `mount` keeps, for the limits that it reads.
record IsMounting (shown : Bool) (budget : ℕ) (m : Mounting) : Type 0 where
  shown_eq : m.renderable ≡ shown
  budget_eq : m.budget ≡ budget
  cost_eq : m.cost ≡ total_cost m.items
  within : m.cost ≤ budget
  hidden : shown ≡ false → m.items ≡ []

module _ (shown : Bool) (budget : ℕ) where
  mount-IsMounting :
      (i : Item) (m : Mounting) → IsMounting shown budget m → IsMounting shown budget (mount i m).0
  unfolding mount
  mount-IsMounting i m h =
      elim (Bool-cases (not m.renderable || ltb m.budget (m.cost + dom_cost i))) [
        | inl e ↦ simp (mount, e) h
        | inr e ↦
            simp (mount, e)
              (record {
                shown_eq = h.shown_eq;
                budget_eq = h.budget_eq;
                cost_eq = omega (arith, h.cost_eq, total_cost-append m.items (i ∷ []));
                within = ground (arith, e, h.budget_eq);
                hidden =
                    λ f. (let absurd : ⊥ = ground (arith, e, h.shown_eq, f) in elim absurd [ ]);
              })
      ]

  mount_each-IsMounting :
      (is : List Item) (m : Mounting)
      → IsMounting shown budget m
      → IsMounting shown budget (mount_each is m)
  unfolding mount_each
  mount_each-IsMounting [] m h = h
  mount_each-IsMounting (i ∷ is) m h =
      mount_each-IsMounting is (mount i m).0 (mount-IsMounting i m h)

  mount_while-IsMounting :
      (is : List Item) (m : Mounting)
      → IsMounting shown budget m
      → IsMounting shown budget (mount_while is m)
  unfolding mount_while
  mount_while-IsMounting [] m h = h
  mount_while-IsMounting (i ∷ is) m h =
      let here = mount-IsMounting i m h in
      let (next, mounted) = mount i m in
      elim (Bool-cases mounted) [
        | inl e ↦ rw e (mount_while-IsMounting is next here)
        | inr e ↦ rw e here
      ]

  mount_under-IsMounting :
      (i : Item) (others : Mounting → Mounting) (m : Mounting)
      → ((n : Mounting) → IsMounting shown budget n → IsMounting shown budget (others n))
      → IsMounting shown budget m
      → IsMounting shown budget (mount_under i others m)
  unfolding mount_under
  mount_under-IsMounting i others m k h =
      let here = mount-IsMounting i m h in
      let (next, mounted) = mount i m in
      elim (Bool-cases mounted) [ inl e ↦ rw e (k next here) | inr e ↦ rw e here ]

  geo_legend-IsMounting :
      (ts : List RouteState) (m : Mounting)
      → IsMounting shown budget m
      → IsMounting shown budget (geo_legend ts m)
  geo_legend-IsMounting [] m h = h
  geo_legend-IsMounting (t ∷ ts) m h =
      mount_under-IsMounting Item.geo_target_legend _ m
        (mount_each-IsMounting (map Item.geo_target_entry (t ∷ ts))) h

  mount_view-IsMounting :
      (v : View) (c : Content) (m : Mounting)
      → IsMounting shown budget m
      → IsMounting shown budget (mount_view v c m)
  unfolding mount_view
  mount_view-IsMounting topology c m h = mount_each-IsMounting (topology_items c.presented) m h
  mount_view-IsMounting geo c m h =
      mount_under-IsMounting Item.geo_accessible_list _ _
        (mount_while-IsMounting (map Item.geo_accessible_item (take 100 c.markers)))
        (geo_legend-IsMounting (targets c) _ (mount_each-IsMounting (Item.geo_canvas ∷ []) m h))
  mount_view-IsMounting labels c m h =
      mount_under-IsMounting Item.label_shell _ m
        (mount_while-IsMounting (map Item.label_row (take 100 c.labels))) h

-- A plan that may be carried out.
pub record IsWithin (o : Options) (p : DomPlan) : Type 0 where
  pub planned_eq : p.planned_elements ≡ total_cost p.items
  pub planned_le : p.planned_elements ≤ dynamic_budget o
  pub estimated_le : p.estimated_elements ≤ document_limit
  pub hidden : p.is_renderable ≡ false → p.items ≡ []
  pub in_order : flatten p.chunks ≡ p.items
  pub in_chunks : All (IsChunk chunk_limit) p.chunks

chunk_size-bounds :
    (c : Option ℕ) (size : ℕ) → chunk_size c ≡ some size → (5 ≤ size) × (size ≤ chunk_limit)
chunk_size-bounds none size h =
    (omega (arith, some-injective _ _ h), omega (arith, some-injective _ _ h))
chunk_size-bounds (some n) size h = elim (Bool-cases (ltb n 5)) [
  | inl e ↦ (let absurd = sym (ap (λ b. if b then none else some (min chunk_limit n)) e) ∙ h in cc)
  | inr e ↦
      let same =
        some-injective _ _ (sym (ap (λ b. if b then none else some (min chunk_limit n)) e) ∙ h) in
      (ground (arith, e, same), omega (arith, same))
]

shorter :
    (size limit : ℕ) (cs : List (List Item))
    → size ≤ limit
    → All (IsChunk size) cs
    → All (IsChunk limit) cs
shorter size limit [] h _ = tt
shorter size limit (c ∷ cs) h (k, ks) = (
  record { some_items = k.some_items; small = omega (arith, h, k.small) },
  shorter size limit cs h ks,
)

estimated-le :
    (o : Options) (c : Content) (cost : ℕ)
    → cost ≤ dynamic_budget o
    → (if renderable o c then existing o + reserve o.view + cost else existing o) ≤ document_limit
estimated-le o c cost h = elim (Bool-cases (renderable o c)) [
  | inr e ↦ rw e (existing-le o)
  | inl e ↦
      let fits : fits_document o ≡ true = ground (arith, e) in
      rw e (omega (arith, h, leb→le _ _ fits, existing-le o))
]
  where
    existing-le : (o : Options) → existing o ≤ document_limit
    existing-le o = go o.existing_elements
      where
        go : (e : Option ℕ) → bounded e 0 document_limit ≤ document_limit
        go none = omega arith
        go (some n) = omega arith

pub plan_dom-chunks :
    (o : Options) (c : Content) (p : DomPlan) (size : ℕ)
    → chunk_size o.chunk_elements ≡ some size
    → plan_dom o c ≡ some p
    → All (IsChunk size) p.chunks
unfolding plan_dom
plan_dom-chunks o c p size size_eq h =
    let (used, used_eq, same) = >>=-eq-some (chunk_size o.chunk_elements) _ h in
    let (five, _) = chunk_size-bounds o.chunk_elements used used_eq in
    let m =
      mount_view o.view c
        (record { renderable = renderable o c; budget = dynamic_budget o; items = []; cost = 0 }) in
    let (_, chunks) = chunks_from-IsChunked used m.items five in
    subst (λ n. All (IsChunk n) p.chunks) (some-injective _ _ (sym used_eq ∙ size_eq))
      (subst (λ (q : DomPlan). All (IsChunk used) q.chunks) (some-injective _ _ same) chunks)

-- Whatever the view, the data and the options are: the elements planned are those of the items, within
-- the budget, and with those that exist and are reserved never more than 1200; a view that is not rendered
-- mounts nothing; and the chunks hold all items in order, none empty and none above 100 elements.
pub plan_dom-IsWithin :
    (o : Options) (c : Content) (p : DomPlan) → plan_dom o c ≡ some p → IsWithin o p
unfolding plan_dom
plan_dom-IsWithin o c p h =
    let (size, size_eq, same) = >>=-eq-some (chunk_size o.chunk_elements) _ h in
    let (five, most) = chunk_size-bounds o.chunk_elements size size_eq in
    let m =
      mount_view o.view c
        (record { renderable = renderable o c; budget = dynamic_budget o; items = []; cost = 0 }) in
    let k = mount_view-IsMounting (renderable o c) (dynamic_budget o) o.view c _ (record {
      shown_eq = refl;
      budget_eq = refl;
      cost_eq = refl;
      within = omega arith;
      hidden = λ _. refl;
    }) in
    let (order, chunks) = chunks_from-IsChunked size m.items five in
    subst (IsWithin o) (some-injective _ _ same) (record {
      planned_eq = k.cost_eq;
      planned_le = k.within;
      estimated_le = estimated-le o c m.cost k.within;
      hidden = k.hidden;
      in_order = order;
      in_chunks = shorter size chunk_limit (chunks_from size [] 0 m.items) most chunks;
    })
