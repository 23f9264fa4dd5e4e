-- ===== src/Topology/Annotate/Counts.antt =====
-- frontend/topology-presentation.js, `annotateASN`: the counts of its contexts.
use mathlib.Core.Option.{some-injective}
use revealnetworktrouble.Prelude.{
  ℕ, ◌+◌, ◌≤◌, ◌<◌, ◌≡◌, refl, sym, ◌∙◌, ap, inl, inr, Bool, true, false, ◌&&◌, Option, none, some,
  List, [], ◌∷◌, arith, ltb, if◌then◌else◌, Bool-cases, length, length-append, All, Text, text_eq,
}
use revealnetworktrouble.Addresses.{AddressClass}
use revealnetworktrouble.Topology.Data.{Node, Link, Route}
use revealnetworktrouble.Topology.Present.{Shown, shown_id}
use revealnetworktrouble.Topology.Present.Cut.{Kept}
use revealnetworktrouble.Topology.Annotate.{
  Context, Copy, Notes, Span, set_of, find_copy, change_copy, with_context, without_context,
  note_copy, note_context, fresh_notes, note_all, note_span, note_spans, note_routes, span_context,
  route_spans, annotate_asn, evidence_pairs, responds,
}

-- The contexts that the copies hold, and those that they left out.
abbrev pub held : List Copy → ℕ
held [] = 0
held (c ∷ cs) = length c.contexts + held cs

abbrev pub left_out : List Copy → ℕ
left_out [] = 0
left_out (c ∷ cs) = c.omitted + left_out cs

abbrev pub AtMostFour : Copy → Type 0
AtMostFour c = length c.contexts ≤ 4

-- Counts that are those of the copies, and within the limits.
pub record IsCounted (n : Notes) : Type 0 where
  pub sum : n.total ≡ n.displayed + n.omitted
  pub limit : n.displayed ≤ 500
  pub shown : n.displayed ≡ held n.copies
  pub hidden : n.omitted ≡ left_out n.copies
  pub each : All AtMostFour n.copies

same_length :
    (b : Bool) (d c : Copy) (later : Option Copy)
    → b ≡ true
    → (if b then some d else later) ≡ some c
    → length d.contexts ≡ length c.contexts
same_length true d c later h e = ap (λ (k : Copy). length k.contexts) (some-injective d c e)
same_length false d c later h e = cc

later_found :
    (b : Bool) (d c : Copy) (later : Option Copy)
    → b ≡ false
    → (if b then some d else later) ≡ some c
    → later ≡ some c
later_found true d c later h e = cc
later_found false d c later h e = e

with_context-AtMostFour :
    (x : Context) (id : Text) (c : Copy) (cs : List Copy)
    → find_copy id cs ≡ some c
    → length c.contexts < 4
    → All AtMostFour cs
    → All AtMostFour (change_copy id (with_context x) cs)
with_context-AtMostFour x id c [] e lt h = tt
with_context-AtMostFour x id c (d ∷ ds) e lt (h, hs) =
    elim (Bool-cases (text_eq id (shown_id d.node))) [
      | inl same ↦
          rw same
            (omega (arith, length-append d.contexts (x ∷ []), same_length _ d c _ same e, lt), hs)
      | inr other ↦
          rw other (h, with_context-AtMostFour x id c ds (later_found _ d c _ other e) lt hs)
    ]

without_context-AtMostFour :
    (id : Text) (cs : List Copy)
    → All AtMostFour cs
    → All AtMostFour (change_copy id without_context cs)
without_context-AtMostFour id [] h = tt
without_context-AtMostFour id (d ∷ ds) (h, hs) = elim (Bool-cases (text_eq id (shown_id d.node))) [
  | inl same ↦ rw same (h, hs)
  | inr other ↦ rw other (h, without_context-AtMostFour id ds hs)
]

held-with :
    (x : Context) (id : Text) (c : Copy) (cs : List Copy)
    → find_copy id cs ≡ some c
    → held (change_copy id (with_context x) cs) ≡ held cs + 1
held-with x id c [] e = cc
held-with x id c (d ∷ ds) e = ground (arith, held-with x id c ds, length-append d.contexts (x ∷ []))

left_out-with :
    (x : Context) (id : Text) (cs : List Copy)
    → left_out (change_copy id (with_context x) cs) ≡ left_out cs
left_out-with x id [] = refl
left_out-with x id (d ∷ ds) = ground (arith, left_out-with x id ds)

held-without : (id : Text) (cs : List Copy) → held (change_copy id without_context cs) ≡ held cs
held-without id [] = refl
held-without id (d ∷ ds) = ground (arith, held-without id ds)

left_out-without :
    (id : Text) (c : Copy) (cs : List Copy)
    → find_copy id cs ≡ some c
    → left_out (change_copy id without_context cs) ≡ left_out cs + 1
left_out-without id c [] e = cc
left_out-without id c (d ∷ ds) e = ground (arith, left_out-without id c ds)

held-fresh : (ns : List Shown) → 0 ≡ held (fresh_notes ns).copies
held-fresh [] = refl
held-fresh (n ∷ ns) = omega (arith, held-fresh ns)

left_out-fresh : (ns : List Shown) → 0 ≡ left_out (fresh_notes ns).copies
left_out-fresh [] = refl
left_out-fresh (n ∷ ns) = omega (arith, left_out-fresh ns)

fresh-AtMostFour : (ns : List Shown) → All AtMostFour (fresh_notes ns).copies
fresh-AtMostFour [] = tt
fresh-AtMostFour (n ∷ ns) = (omega arith, fresh-AtMostFour ns)

note_copy-IsCounted :
    (x : Context) (id : Text) (n : Notes) (o : Option Copy)
    → find_copy id n.copies ≡ o
    → IsCounted n
    → IsCounted (note_copy x id n o)
note_copy-IsCounted x id n none found i = i
note_copy-IsCounted x id n (some c) found i =
    elim (Bool-cases (ltb (length c.contexts) 4 && ltb n.displayed 500)) [
      | inl room ↦ rw room (record {
        sum = omega (arith, i.sum);
        limit = ground (arith, room);
        shown = omega (arith, i.shown, held-with x id c n.copies found);
        hidden = i.hidden ∙ sym (left_out-with x id n.copies);
        each = with_context-AtMostFour x id c n.copies found (ground (arith, room)) i.each;
      })
      | inr full ↦ rw full (record {
        sum = omega (arith, i.sum);
        limit = i.limit;
        shown = i.shown ∙ sym (held-without id n.copies);
        hidden = omega (arith, i.hidden, left_out-without id c n.copies found);
        each = without_context-AtMostFour id n.copies i.each;
      })
    ]

note_all-IsCounted :
    (x : Context) (ids : List Text) (n : Notes) → IsCounted n → IsCounted (note_all x ids n)
note_all-IsCounted x [] n i = i
note_all-IsCounted x (id ∷ ids) n i =
    note_all-IsCounted x ids (note_context x id n)
      (note_copy-IsCounted x id n (find_copy id n.copies) refl i)

module _ (class_at : Text → AddressClass) where
  note_spans-IsCounted :
      (context : Span → Option Context) (ss : List Span) (n : Notes)
      → IsCounted n
      → IsCounted (note_spans class_at context ss n)
  note_spans-IsCounted context [] n i = i
  note_spans-IsCounted context (s ∷ ss) n i = note_spans-IsCounted context ss _ (one (context s))
    where
      one : (x : Option Context) → IsCounted (note_span class_at x s n)
      one none = i
      one (some x) = note_all-IsCounted x (set_of [] s.members) n i

  note_routes-IsCounted :
      (nodes : List Node) (kept evidence : List Text) (occurrence : ℕ) (rs : List Route)
      (ks : List Kept) (n : Notes)
      → IsCounted n
      → IsCounted (note_routes class_at nodes kept evidence occurrence rs ks n)
  unfolding note_routes
  note_routes-IsCounted nodes kept evidence o [] ks n i = i
  note_routes-IsCounted nodes kept evidence o (r ∷ rs) [] n i = i
  note_routes-IsCounted nodes kept evidence o (r ∷ rs) (k ∷ ks) n i =
      let context = span_context class_at nodes kept evidence o r in
      elim (Bool-cases (r.complete && k.complete && responds r.status)) [
        | inl c ↦ rw c (
            note_routes-IsCounted nodes kept evidence (o + 1) rs ks _
              (note_spans-IsCounted context (route_spans class_at nodes r.node_ids) n i))
        | inr c ↦ rw c (note_routes-IsCounted nodes kept evidence (o + 1) rs ks n i)
      ]

fresh_notes-IsCounted : (ns : List Shown) → IsCounted (fresh_notes ns)
fresh_notes-IsCounted ns = record {
  sum = refl;
  limit = omega arith;
  shown = held-fresh ns;
  hidden = left_out-fresh ns;
  each = fresh-AtMostFour ns;
}

-- For any classes of addresses, model and presented nodes and routes, the total that annotateASN reports is
-- the number of contexts that its nodes hold together with the number that they left out, which are the two
-- other numbers that it reports; no node holds more than 4 contexts, and all of them hold at most 500.
pub annotate_asn-IsCounted :
    (class_at : Text → AddressClass) (nodes : List Node) (links : List Link) (routes : List Route)
    (retained : List Shown) (kept_routes : List Kept) (kept_pairs : List Text)
    → IsCounted (annotate_asn class_at nodes links routes retained kept_routes kept_pairs)
unfolding annotate_asn
annotate_asn-IsCounted class_at nodes links routes retained kept_routes kept_pairs =
    note_routes-IsCounted class_at nodes kept_pairs (evidence_pairs links) 0 routes kept_routes
      (fresh_notes retained) (fresh_notes-IsCounted retained)
