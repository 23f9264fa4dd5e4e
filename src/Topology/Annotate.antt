-- ===== src/Topology/Annotate.antt =====
-- frontend/topology-presentation.js, `annotateASN`: nodes with a private address between two public ones of
-- the same autonomous system get a context. The class of an address is a parameter.
pub mod Counts
use revealnetworktrouble.Prelude.{
  ℕ, zero, suc, ◌+◌, ◌-◌, Bool, true, false, ◌&&◌, Option, none, some, List, [], ◌∷◌, ◌>>=◌, ◌>>◌,
  ◌++◌, map, ltb, leb, ◌==◌, if◌then◌else◌, guard, length, get_elem?, drop, keep, Text, codes,
  text_eq,
}
use revealnetworktrouble.Addresses.{AddressClass, private_address, public_address}
use revealnetworktrouble.Topology.Data.{Node, NodeKind, ip, Link, Route, pair_key, has, find_node}
use revealnetworktrouble.Topology.Present.{Shown, shown_id, link_key}
use revealnetworktrouble.Topology.Present.Cut.{Kept}

pub record Context : Type 0 where
  pub asn : ℕ
  pub route_occurrence : ℕ
  pub result_index : ℕ
  pub attempt : ℕ
  pub start : ℕ
  pub end : ℕ

-- A copy of a retained node, with its contexts.
pub record Copy : Type 0 where
  pub node : Shown
  pub contexts : List Context
  pub omitted : ℕ

-- `copies` and `stats`
pub record Notes : Type 0 where
  pub copies : List Copy
  pub total : ℕ
  pub displayed : ℕ
  pub omitted : ℕ

-- A run of private hops of a route: the node before it, its members, and what is behind it.
pub record Span : Type 0 where
  pub start : ℕ
  pub left : Text
  pub members : List Text
  pub behind : List Text

abbrev pub is_private : AddressClass → Bool
is_private private_address = true
is_private _ = false

abbrev pub is_public : AddressClass → Bool
is_public public_address = true
is_public _ = false

abbrev pub is_ip : NodeKind → Bool
is_ip ip = true
is_ip _ = false

abbrev pub responds : Text → Bool
responds status = has status (codes "healthy" ∷ codes "degraded" ∷ [])

-- `evidencePairs`
abbrev pub evidence_pairs : List Link → List Text
evidence_pairs links = map link_key (keep (λ l. ltb 0 l.observations && responds l.status) links)

abbrev pub take_while : (Text → Bool) → List Text → List Text
take_while p [] = []
take_while p (t ∷ ts) = let rest = take_while p ts in if p t then t ∷ rest else []

abbrev pub last_or : Text → List Text → Text
last_or t [] = t
last_or t (u ∷ us) = last_or u us

-- The runs of private hops, from the place `i` on; a round passes at least one hop.
unfoldable pub spans_from : (Text → Bool) → ℕ → ℕ → Text → List Text → List Span
spans_from hop zero i left ids = []
spans_from hop (suc fuel) i left [] = []
spans_from hop (suc fuel) i left (id ∷ []) = []
spans_from hop (suc fuel) i left (id ∷ next ∷ rest) =
    let ids = id ∷ next ∷ rest in
    let members = take_while hop ids in
    let behind = drop (length members) ids in
    let skipped = spans_from hop fuel (i + 1) id (next ∷ rest) in
    let later = spans_from hop fuel (i + length members) (last_or id members) behind in
    if hop id
    then record { start = i; left = left; members = members; behind = behind } ∷ later
    else skipped

-- Every step from one text to the next.
abbrev pub all_steps : (Text → Bool) → List Text → Bool
all_steps p [] = true
all_steps p (from ∷ []) = true
all_steps p (from ∷ to ∷ ids) = p (pair_key from to) && all_steps p (to ∷ ids)

-- `new Set(ids)`, in the order of first insertion.
abbrev pub set_of : List Text → List Text → List Text
set_of seen [] = []
set_of seen (t ∷ ts) =
    let without = set_of seen ts in
    let with_it = t ∷ set_of (t ∷ seen) ts in if has t seen then without else with_it

abbrev pub find_copy : Text → List Copy → Option Copy
find_copy id [] = none
find_copy id (c ∷ cs) =
    let later = find_copy id cs in if text_eq id (shown_id c.node) then some c else later

abbrev pub change_copy : Text → (Copy → Copy) → List Copy → List Copy
change_copy id f [] = []
change_copy id f (c ∷ cs) =
    let later = change_copy id f cs in if text_eq id (shown_id c.node) then f c ∷ cs else c ∷ later

abbrev pub fresh_notes : List Shown → Notes
fresh_notes retained = record {
  copies = map (λ n. record { node = n; contexts = []; omitted = 0 }) retained;
  total = 0;
  displayed = 0;
  omitted = 0;
}

-- One node of a run: its context is kept, or counted as left out.
abbrev pub with_context : Context → Copy → Copy
with_context x c = record c { contexts = c.contexts ++ x ∷ [] }

abbrev pub without_context : Copy → Copy
without_context c = record c { omitted = c.omitted + 1 }

abbrev pub note_copy : Context → Text → Notes → Option Copy → Notes
note_copy x id n none = n
note_copy x id n (some c) =
    if ltb (length c.contexts) 4 && ltb n.displayed 500
    then record n {
      copies = change_copy id (with_context x) n.copies;
      total = n.total + 1;
      displayed = n.displayed + 1;
    }
    else record n {
      copies = change_copy id without_context n.copies;
      total = n.total + 1;
      omitted = n.omitted + 1;
    }

abbrev pub note_context : Context → Text → Notes → Notes
note_context x id n = note_copy x id n (find_copy id n.copies)

abbrev pub note_all : Context → List Text → Notes → Notes
note_all x [] n = n
note_all x (id ∷ ids) n = note_all x ids (note_context x id n)

module _ (class_at : Text → AddressClass) where
  -- `privateHop(byID.get(id))`
  abbrev pub private_hop : Option Node → Bool
  private_hop none = false
  private_hop (some n) = is_ip n.kind && is_private (class_at n.address) && responds n.status

  -- The number of the autonomous system of an `endpoint`.
  abbrev pub endpoint : Option Node → Option ℕ
  endpoint none = none
  endpoint (some n) = do
    guard (is_ip n.kind && n.public_ip && is_public (class_at n.address) && responds n.status)
    number ← n.asn
    guard (ltb 0 number && leb number 4294967295)
    some number

  unfoldable pub span_context :
      List Node → List Text → List Text → ℕ → Route → Span → Option Context
  span_context nodes kept evidence occurrence route s = do
    right ← get_elem? s.behind 0
    asn ← endpoint (find_node s.left nodes)
    other ← endpoint (find_node right nodes)
    guard (asn == other)
    guard
        (all_steps (λ pair. has pair kept && has pair evidence) (s.left ∷ s.members ++ right ∷ []))
    some (record {
      asn = asn;
      route_occurrence = occurrence;
      result_index = route.result_index;
      attempt = route.attempt;
      start = s.start;
      end = s.start + length s.members - 1;
    })

  -- The nodes of a run, each once, if the run has a context.
  abbrev pub note_span : Option Context → Span → Notes → Notes
  note_span none s n = n
  note_span (some x) s n = note_all x (set_of [] s.members) n

  abbrev pub note_spans : (Span → Option Context) → List Span → Notes → Notes
  note_spans context [] n = n
  note_spans context (s ∷ ss) n = note_spans context ss (note_span (context s) s n)

  unfoldable pub route_spans : List Node → List Text → List Span
  unfolding spans_from
  route_spans nodes [] = []
  route_spans nodes (first ∷ ids) =
      spans_from (λ id. private_hop (find_node id nodes)) (length ids) 1 first ids

  unfoldable pub note_routes :
      List Node → List Text → List Text → ℕ → List Route → List Kept → Notes → Notes
  unfolding span_context route_spans
  note_routes nodes kept evidence occurrence (r ∷ rs) (k ∷ ks) n =
      let noted =
        note_spans (span_context nodes kept evidence occurrence r) (route_spans nodes r.node_ids)
          n in
      if r.complete && k.complete && responds r.status
      then note_routes nodes kept evidence (occurrence + 1) rs ks noted
      else note_routes nodes kept evidence (occurrence + 1) rs ks n
  note_routes nodes kept evidence occurrence _ _ n = n

  unfoldable pub annotate_asn :
      List Node → List Link → List Route → List Shown → List Kept → List Text → Notes
  unfolding note_routes
  annotate_asn nodes links routes retained kept_routes kept_pairs =
      note_routes nodes kept_pairs (evidence_pairs links) 0 routes kept_routes
        (fresh_notes retained)
