-- ===== src/IpContext/Check/Ranges.antt =====
-- frontend/state.js, `normalizeIPContext`: what its checks of the registration and the routing give.
use revealnetworktrouble.Prelude.{
  ==_iff, ◌||◌, refl, sym, inl, inr, false, true, none, String, if_holds, ℕ, ◌-◌, ◌*◌, ◌/◌, ◌^◌,
  ◌≤◌, ◌≡◌, ◌∙◌, ap, Bool, not, ◌&&◌, Option, some, List, [], ◌∷◌, map, arith, leb, ◌==◌,
  if◌then◌else◌, ◌>>=◌, guard, >>=-eq-some, guard_then, length, all, Text, codes, text_eq, split,
  decimal, Bool-cases,
}
use mathlib.Core.Option.{some-injective}
use revealnetworktrouble.Addresses.{Bits, Network}
use revealnetworktrouble.IpContext.Address.{context_ip}
use revealnetworktrouble.IpContext.Json.{Value, Fields, field, end, has_key}
use revealnetworktrouble.IpContext.Schema.{
  words, as_text, context_object, context_array, context_int, context_count, timed, at, has,
  find_field, text_at, word_at, is_member,
}
use revealnetworktrouble.IpContext.Parts.{
  facts, is_stamp, is_country, when_given, fact_texts, texts_size, check_origins, holds_address,
  is_mask,
}
use revealnetworktrouble.IpContext.Check.{
  Registration, Route, check_range, check_registration, prefix_of, check_prefix, check_routing,
}
use revealnetworktrouble.IpContext.Check.Reading.{is_one_of}
use revealnetworktrouble.IpContext.Check.Forms.{RangeHolds, PrefixHolds, HoldsRange, HoldsRoute}
use revealnetworktrouble.IpContext.Check.Parts.{
  context_object-is, word_at-is, list_in-is, unsteady, first-test, second-test, last-test,
  check_origins-AreOrigins,
}

find_field-none : (k : Text) (fs : Fields) → has_key k fs ≡ false → find_field k fs ≡ none
find_field-none k end h = refl
find_field-none k (field j v fs) h = elim (Bool-cases (text_eq k j)) [
  | inl e ↦ (let absurd : true ≡ false = sym (ap (λ b. b || has_key k fs) e) ∙ h in cc)
  | inr e ↦ rw e (find_field-none k fs (sym (ap (λ b. b || has_key k fs) e) ∙ h))
]

-- A key that is not there has no text.
not-given :
    (k : String) (fs : Fields) (t : Text) → not (has k fs) ≡ true → text_at k fs ≡ some t → ⊥
not-given k fs t h e =
    let missing : has k fs ≡ false = ground (arith, h) in
    let nothing : text_at k fs ≡ none =
      ap (λ o. o >>= as_text) (find_field-none (codes k) fs missing) in
    (let absurd = sym nothing ∙ e in cc)

holds_address-parts :
    (query first last : Bits)
    → holds_address query first last ≡ true
    → (first.width ≡ query.width)
      × (last.width ≡ query.width)
      × (first.value ≤ query.value)
      × (query.value ≤ last.value)
holds_address-parts query first last h =
    (ground (arith, h), ground (arith, h), ground (arith, h), ground (arith, h))

fits-parts :
    (query network : Bits) (size : ℕ)
    → (leb size query.width && network.width == query.width) ≡ true
    → (network.width ≡ query.width) × (size ≤ query.width)
fits-parts query network size h = (ground (arith, h), ground (arith, h))

zeros-eq : (q n m : ℕ) → (n / m * m == n && q / m == n / m) ≡ true → q / m * m ≡ n
zeros-eq q n m h =
    let inside : q / m ≡ n / m = (==_iff _ _).0 (second-test (n / m * m == n) (q / m == n / m) h) in
    let whole : n / m * m ≡ n = (==_iff _ _).0 (first-test (n / m * m == n) (q / m == n / m) h) in
    ap (λ x. x * m) inside ∙ whole

all-head :
    {A : Type 0} (f : A → Bool) (x : A) (xs ys : List A)
    → ys ≡ x ∷ xs
    → all f ys ≡ true
    → f x ≡ true
all-head f x xs ys e h = first-test (f x) (all f xs) (sym (ap (all f) e) ∙ h)

facts_eq :
    words facts
    ≡ codes "start_address"
      ∷ words "end_address handle name type country organization registered_at updated_at"
unfolding split
facts_eq = refl

settled : (t : Text) → text_eq t (codes "ok") ≡ true → is_member t "ok not_found" ≡ true
unfolding split
settled t e = ground (arith, e)

unsettled :
    (t : Text)
    → text_eq t (codes "ok") ≡ false
    → is_member t "ok not_found" ≡ text_eq t (codes "not_found")
unfolding split
unsettled t e = ground (arith, e)

module _ (url_host : Text → Option Text) (inner nonpublic : List Network) (query : Bits) where
  check_range-RangeHolds :
      (reg : Fields) (r : Registration)
      → check_range url_host inner nonpublic query reg ≡ some r
      → RangeHolds url_host query reg
  unfolding check_range RangeHolds
  check_range-RangeHolds reg r h t given =
      let (first, start, h1) =
        >>=-eq-some (text_at "start_address" reg >>= context_ip url_host) _ h in
      let (last, finish, h2) =
        >>=-eq-some (text_at "end_address" reg >>= context_ip url_host) _ h1 in
      let (holds, h3) = guard_then (holds_address query first last) _ h2 in
      let (first_width, last_width, low, high) = holds_address-parts query first last holds in
      (
        first,
        last,
        sym (ap (λ o. o >>= context_ip url_host) given) ∙ start,
        finish,
        first_width,
        last_width,
        low,
        high,
      )

  no_facts :
      (reg : Fields)
      → all (λ k. not (has_key k reg)) (words facts) ≡ true
      → RangeHolds url_host query reg
  unfolding RangeHolds
  no_facts reg h t given =
      elim (not-given "start_address" reg t
        (all-head (λ k. not (has_key k reg)) _ _ (words facts) facts_eq h) given) [ ]

  pub check_registration-HoldsRange :
      (fetched : ℕ) (v : Value) (r : Option Registration) (b : Bool)
      → check_registration url_host inner nonpublic query fetched v ≡ some (r, b)
      → HoldsRange url_host query v b
  unfolding check_registration
  check_registration-HoldsRange fetched v r b h =
      let (reg, object, h1) =
        >>=-eq-some
          (context_object "status source fetched_at"
            ("registry start_address end_address handle name type country organization registered_at updated_at")
            v)
          _ h in
      let (_, _, h2) = >>=-eq-some (timed "rdap" "fetched_at" fetched reg) _ h1 in
      let (status, stated, h3) =
        >>=-eq-some
          (word_at "status" "ok not_found timeout unavailable rate_limited invalid_response" reg) _
          h2 in
      let (_, _, h4) =
        >>=-eq-some
          (when_given "registry" (λ t. guard (is_member t "arin apnic ripe lacnic afrinic")) reg) _
          h3 in
      let read =
        word_at-is "status" "ok not_found timeout unavailable rate_limited invalid_response" reg
          status stated in
      let (range, transient) =
        if_holds
          (λ (x : Option (Option Registration × Bool)).
            x ≡ some (r, b)
            → RangeHolds url_host query reg
              × (b ≡ not (is_one_of "ok not_found" (text_at "status" reg))))
          (text_eq status (codes "ok")) _ _
          (λ e q.
            let (found_range, found, q1) =
              >>=-eq-some (check_range url_host inner nonpublic query reg) _ q in
            let (size, _, q2) = >>=-eq-some (texts_size fact_texts reg) _ q1 in
            let (_, _, q3) =
              >>=-eq-some (when_given "country" (λ t. guard (is_country t)) reg) _ q2 in
            let (_, q4) = guard_then (leb size 1536) _ q3 in
            let (_, _, q5) = >>=-eq-some (when_given "registered_at" is_stamp reg) _ q4 in
            let (_, _, q6) = >>=-eq-some (when_given "updated_at" is_stamp reg) _ q5 in
            (
              check_range-RangeHolds reg found_range found,
              sym (ap (λ (p : Option Registration × Bool). p.1) (some-injective _ _ q6))
                  ∙ sym (ap not (ap (is_one_of "ok not_found") read ∙ settled status e)),
            ))
          (λ e q.
            let (none_given, q1) = guard_then (all (λ k. not (has_key k reg)) (words facts)) _ q in
            (
              no_facts reg none_given,
              sym (ap (λ (p : Option Registration × Bool). p.1) (some-injective _ _ q1))
                  ∙ sym (ap not (ap (is_one_of "ok not_found") read ∙ unsettled status e)),
            ))
          h4 in
      record {
        fields = reg;
        fields_eq =
            context_object-is "status source fetched_at"
              ("registry start_address end_address handle name type country organization registered_at updated_at")
              v reg object;
        range = range;
        transient_eq = transient;
      }

  prefix_of-PrefixHolds :
      (t : Text) (ts : List Text) (r : Route)
      → split b'/' t ≡ ts
      → prefix_of url_host inner nonpublic query ts ≡ some r
      → (ip : Text) × (mask : Text) × (network : Bits) × (split b'/' t ≡ ip ∷ mask ∷ [])
        × (context_ip url_host ip ≡ some network)
        × (network.width ≡ query.width)
        × (decimal mask ≤ query.width)
        × (query.value / 2 ^ (query.width - decimal mask) * 2 ^ (query.width - decimal mask)
            ≡ network.value)
  unfolding prefix_of
  prefix_of-PrefixHolds t [] r e h = cc
  prefix_of-PrefixHolds t (_ ∷ []) r e h = cc
  prefix_of-PrefixHolds t (_ ∷ _ ∷ _ ∷ _) r e h = cc
  prefix_of-PrefixHolds t (ip ∷ mask ∷ []) r e h =
      let (network, found, h1) = >>=-eq-some (context_ip url_host ip) _ h in
      let (fits, h2) =
        guard_then (is_mask mask && leb (decimal mask) query.width && network.width == query.width)
          _ h1 in
      let shift = query.width - decimal mask in
      let (zeros, h3) =
        guard_then
          (network.value / 2 ^ shift * 2 ^ shift == network.value
            && query.value / 2 ^ shift == network.value / 2 ^ shift)
          _ h2 in
      let (width, small) = fits-parts query network (decimal mask) (
        last-test (is_mask mask) (leb (decimal mask) query.width) (network.width == query.width)
          fits) in
      (
        ip,
        mask,
        network,
        e,
        found,
        width,
        small,
        zeros-eq query.value network.value (2 ^ shift) zeros,
      )

  pub check_routing-HoldsRoute :
      (fetched : ℕ) (v : Value) (r : Option Route × List ℕ) (b : Bool)
      → check_routing url_host inner nonpublic query fetched v ≡ some (r, b)
      → HoldsRoute url_host query v b
  unfolding check_routing check_prefix PrefixHolds
  check_routing-HoldsRoute fetched v r b h =
      let (routing, object, h1) =
        >>=-eq-some (context_object "status source fetched_at origins omitted" "prefix" v) _ h in
      let (_, _, h2) = >>=-eq-some (timed "ripe_ris" "fetched_at" fetched routing) _ h1 in
      let (status, stated, h3) =
        >>=-eq-some
          (word_at "status" "ok limited not_found timeout unavailable rate_limited invalid_response"
            routing)
          _ h2 in
      let (vs, listed, h4) = >>=-eq-some (at "origins" routing >>= context_array 4) _ h3 in
      let (omitted, _, h5) = >>=-eq-some (at "omitted" routing >>= context_int 60) _ h4 in
      let (_, h6) = guard_then (context_count status omitted (length vs) 4) _ h5 in
      let (route, routed, h7) = >>=-eq-some (if is_member status "ok limited" then _ else _) _ h6 in
      let (checked, found, h8) = >>=-eq-some (check_origins fetched 0 vs) _ h7 in
      let (ordered, read, steady) = check_origins-AreOrigins fetched 0 vs checked found in
      let (items_eq, few) = list_in-is "origins" routing 4 vs listed in
      let holds : PrefixHolds url_host query routing =
        if_holds
          (λ (x : Option (Option Route)). x ≡ some route → PrefixHolds url_host query routing)
          (is_member status "ok limited") _ _
          (λ _ q t given.
            let (found_route, made, _) =
              >>=-eq-some (text_at "prefix" routing >>= check_prefix url_host inner nonpublic query)
                _ q in
            prefix_of-PrefixHolds t (split b'/' t) found_route refl
              (sym (ap (λ o. o >>= check_prefix url_host inner nonpublic query) given) ∙ made))
          (λ _ q t given.
            let (missing, _) = guard_then (not (has "prefix" routing)) _ q in
            elim (not-given "prefix" routing t missing given) [ ])
          routed in
      record {
        fields = routing;
        fields_eq =
            context_object-is "status source fetched_at origins omitted" "prefix" v routing object;
        items = vs;
        items_eq = items_eq;
        origins = map (λ (o : ℕ × Bool). o.0) checked;
        origins_eq = read;
        ascending = ordered;
        few = few;
        prefix = holds;
        transient_eq =
            sym (ap (λ (p : (Option Route × List ℕ) × Bool). p.1) (some-injective _ _ h8))
            ∙ unsteady _ _ _ _
                (ap (is_one_of "ok limited not_found") (
                  word_at-is "status"
                    "ok limited not_found timeout unavailable rate_limited invalid_response" routing
                    status stated))
                steady;
      }
