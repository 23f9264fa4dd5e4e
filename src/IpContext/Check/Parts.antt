-- ===== src/IpContext/Check/Parts.antt =====
-- frontend/state.js, `normalizeIPContext`: what its checks of the names and the origins give.
use revealnetworktrouble.Prelude.{
  ℕ, ◌++◌, ◌≤◌, ◌≡◌, refl, sym, ◌∙◌, ap, ap₂, Bool, true, false, not, ◌&&◌, ◌||◌, Option, some,
  String, List, [], ◌∷◌, map, arith, ltb, leb, ltb→lt, leb→le, ◌>>=◌, >>=-eq-some, guard_then,
  length, all, any, Text, codes, text_eq, split, if_holds,
}
use mathlib.Core.Path.{subst}
use mathlib.Core.Option.{some-injective}
use revealnetworktrouble.IpContext.Json.{Value, Fields, has_key}
use revealnetworktrouble.IpContext.Schema.{
  as_object, as_list, as_number, context_object, context_array, context_int, context_count, timed,
  at, has, text_at, word_at, is_member, key_words, keys_allowed,
}
use revealnetworktrouble.IpContext.Parts.{
  is_label, precedes, check_names, check_reverse, check_rpki, check_origins,
}
use revealnetworktrouble.IpContext.Check.Reading.{
  part_in, list_in, number_in, is_one_of, each, name_of, asn_of, is_steady_name, is_steady_origin,
}
use revealnetworktrouble.IpContext.Check.Forms.{AreOrdered, AreAscending, HoldsNames}

pub context_array-le :
    (k : ℕ) (v : Value) (vs : List Value) → context_array k v ≡ some vs → length vs ≤ k
unfolding context_array
context_array-le k v vs h =
    let (ws, _, h1) = >>=-eq-some (as_list v) _ h in
    let (small, h2) = guard_then (leb (length ws) k) _ h1 in
    subst (λ (x : List Value). length x ≤ k) (some-injective _ _ h2) (leb→le _ _ small)

context_int-le : (k : ℕ) (v : Value) (n : ℕ) → context_int k v ≡ some n → n ≤ k
unfolding context_int
context_int-le k v n h =
    let (m, _, h1) = >>=-eq-some (as_number v) _ h in
    let (small, h2) = guard_then (leb m k) _ h1 in
    subst (λ (x : ℕ). x ≤ k) (some-injective _ _ h2) (leb→le _ _ small)

pub context_object-is :
    (required optional : String) (v : Value) (fs : Fields)
    → context_object required optional v ≡ some fs
    → as_object v ≡ some fs
unfolding context_object
context_object-is required optional v fs h =
    let (gs, e, h1) = >>=-eq-some (as_object v) _ h in
    let (_, h2) = guard_then (keys_allowed (key_words required ++ key_words optional) gs) _ h1 in
    let (_, h3) = guard_then (all (λ k. has_key k gs) (key_words required)) _ h2 in e ∙ h3

pub context_array-is :
    (k : ℕ) (v : Value) (vs : List Value) → context_array k v ≡ some vs → as_list v ≡ some vs
unfolding context_array
context_array-is k v vs h =
    let (ws, e, h1) = >>=-eq-some (as_list v) _ h in
    let (_, h2) = guard_then (leb (length ws) k) _ h1 in e ∙ h2

context_int-is : (k : ℕ) (v : Value) (n : ℕ) → context_int k v ≡ some n → as_number v ≡ some n
unfolding context_int
context_int-is k v n h =
    let (m, e, h1) = >>=-eq-some (as_number v) _ h in
    let (_, h2) = guard_then (leb m k) _ h1 in e ∙ h2

pub word_at-is :
    (k members : String) (fs : Fields) (t : Text)
    → word_at k members fs ≡ some t
    → text_at k fs ≡ some t
word_at-is k members fs t h =
    let (u, e, h1) = >>=-eq-some (text_at k fs) _ h in
    let (_, h2) = guard_then (is_member u members) _ h1 in e ∙ h2

-- A field that is there, read as a list.
pub list_in-is :
    (k : String) (fs : Fields) (n : ℕ) (vs : List Value)
    → (at k fs >>= context_array n) ≡ some vs
    → (list_in k fs ≡ some vs) × (length vs ≤ n)
list_in-is k fs n vs h =
    let (w, found, read) = >>=-eq-some (at k fs) _ h in
    (ap (λ o. o >>= as_list) found ∙ context_array-is n w vs read, context_array-le n w vs read)

not-and : (a b : Bool) → (not a || not b) ≡ not (a && b)
not-and true b = refl
not-and false b = refl

-- What a check says of an item, and of all.
pub unsteady : (a b c d : Bool) → a ≡ c → b ≡ not d → (not c || b) ≡ not (a && d)
unsteady a b c d e f = ap₂ (λ x y. not x || y) (sym e) f ∙ not-and a d

each-cons {ℓ} :
    {A : Type ℓ} (f : Value → Option A) (v : Value) (vs : List Value) (x : A) (xs : List A)
    → f v ≡ some x
    → each f vs ≡ some xs
    → each f (v ∷ vs) ≡ some (x ∷ xs)
each-cons f v vs x xs e h =
    ap (λ o. o >>= λ y. each f vs >>= λ ys. some (y ∷ ys)) e ∙ ap (λ o. o >>= λ ys. some (x ∷ ys)) h

second-of-three : (a b c : Bool) → (a && b && c) ≡ true → b ≡ true
second-of-three a b c h = ground (arith, h)

abbrev names_in : List (Text × Bool) → List Text
names_in ns = map (λ (n : Text × Bool). n.0) ns

abbrev asns_in : List (ℕ × Bool) → List ℕ
asns_in os = map (λ (o : ℕ × Bool). o.0) os

abbrev AreNames : Text → List Value → List (Text × Bool) → Type 0
AreNames previous vs out =
    AreOrdered previous (names_in out)
    × (each name_of vs ≡ some (names_in out))
    × (any (λ (n : Text × Bool). n.1) out ≡ not (all is_steady_name vs))

check_names-AreNames :
    (previous : Text) (vs : List Value) (out : List (Text × Bool))
    → check_names previous vs ≡ some out
    → AreNames previous vs out
unfolding check_names AreOrdered
check_names-AreNames previous [] out h =
    subst (λ (x : List (Text × Bool)). AreNames previous [] x) (some-injective _ _ h)
      (tt, refl, refl)
check_names-AreNames previous (v ∷ vs) out h =
    let (n, object, h1) = >>=-eq-some (context_object "name forward_status" "" v) _ h in
    let (name, named, h2) = >>=-eq-some (text_at "name" n) _ h1 in
    let (fits, h3) =
      guard_then (leb (length name) 253 && precedes previous name && all is_label (split b'.' name))
        _ h2 in
    let (status, forward, h4) =
      >>=-eq-some
        (word_at "forward_status"
          "confirmed mismatch not_found timeout unavailable invalid_response limited" n)
        _ h3 in
    let (others, rest, h5) = >>=-eq-some (check_names name vs) _ h4 in
    let (ordered, read, steady) = check_names-AreNames name vs others rest in
    let is_object = context_object-is "name forward_status" "" v n object in
    let here : name_of v ≡ some name = ap (λ o. o >>= text_at "name") is_object ∙ named in
    let stated : is_steady_name v ≡ is_member status "confirmed mismatch not_found limited" =
      ap (is_one_of "confirmed mismatch not_found limited") (
        ap (λ o. o >>= text_at "forward_status") is_object
        ∙ word_at-is "forward_status"
            "confirmed mismatch not_found timeout unavailable invalid_response limited" n status
            forward) in
    subst (λ (x : List (Text × Bool)). AreNames previous (v ∷ vs) x) (some-injective _ _ h5)
      (
        (second-of-three _ _ _ fits, ordered),
        each-cons name_of v vs name (names_in others) here read,
        unsteady _ _ _ _ stated steady,
      )

pub check_reverse-HoldsNames :
    (fetched : ℕ) (v : Value) (names : List Text) (b : Bool)
    → check_reverse fetched v ≡ some (names, b)
    → HoldsNames v b
unfolding check_reverse
check_reverse-HoldsNames fetched v names b h =
    let (rev, object, h1) =
      >>=-eq-some (context_object "status source fetched_at names omitted" "" v) _ h in
    let (_, _, h2) = >>=-eq-some (timed "system_resolver" "fetched_at" fetched rev) _ h1 in
    let (status, stated, h3) =
      >>=-eq-some (word_at "status" "ok limited not_found timeout unavailable invalid_response" rev)
        _ h2 in
    let (vs, listed, h4) = >>=-eq-some (at "names" rev >>= context_array 8) _ h3 in
    let (omitted, _, h5) = >>=-eq-some (at "omitted" rev >>= context_int 56) _ h4 in
    let (_, h6) = guard_then (context_count status omitted (length vs) 8) _ h5 in
    let (checked, found, h7) = >>=-eq-some (check_names [] vs) _ h6 in
    let (ordered, read, steady) = check_names-AreNames [] vs checked found in
    let (items_eq, few) = list_in-is "names" rev 8 vs listed in
    record {
      fields = rev;
      fields_eq = context_object-is "status source fetched_at names omitted" "" v rev object;
      items = vs;
      items_eq = items_eq;
      names = names_in checked;
      names_eq = read;
      ordered = ordered;
      few = few;
      transient_eq =
          sym (ap (λ (p : List Text × Bool). p.1) (some-injective _ _ h7))
          ∙ unsteady _ _ _ _
              (ap (is_one_of "ok limited not_found") (
                word_at-is "status" "ok limited not_found timeout unavailable invalid_response" rev
                  status stated))
              steady;
    }

pub second-test : (a b : Bool) → (a && b) ≡ true → b ≡ true
second-test a b h = ground (arith, h)

pub first-test : (a b : Bool) → (a && b) ≡ true → a ≡ true
first-test a b h = ground (arith, h)

pub last-test : (a b c : Bool) → (a && b && c) ≡ true → (b && c) ≡ true
last-test a b c h = ground (arith, h)

alone : (t : Text) → is_member t "ok" ≡ text_eq t (codes "ok")
unfolding split
alone t = ground arith

check_rpki-is :
    (fetched : ℕ) (v : Value) (b : Bool)
    → check_rpki fetched v ≡ some b
    → (fields : Fields) × (as_object v ≡ some fields)
      × (b ≡ not (is_one_of "ok" (text_at "status" fields)))
unfolding check_rpki
check_rpki-is fetched v b h =
    let (rpki, object, h1) =
      >>=-eq-some (context_object "status source checked_at" "validity" v) _ h in
    let (_, _, h2) = >>=-eq-some (timed "ripe_rpki" "checked_at" fetched rpki) _ h1 in
    let (status, stated, h3) =
      >>=-eq-some (word_at "status" "ok timeout unavailable rate_limited invalid_response" rpki) _
        h2 in
    let read =
      word_at-is "status" "ok timeout unavailable rate_limited invalid_response" rpki status
        stated in
    (
      rpki,
      context_object-is "status source checked_at" "validity" v rpki object,
      if_holds (λ (x : Option Bool). x ≡ some b → b ≡ not (is_one_of "ok" (text_at "status" rpki)))
          (text_eq status (codes "ok")) _ _
          (λ e q.
            let (validity, _, q1) =
              >>=-eq-some (word_at "validity" "valid invalid_asn invalid_length unknown" rpki) _
                q in
            sym (some-injective _ _ q1)
            ∙ sym (ap not (ap (is_one_of "ok") read ∙ alone status ∙ e)))
          (λ e q.
            let (_, q1) = guard_then (not (has "validity" rpki)) _ q in
            sym (some-injective _ _ q1)
            ∙ sym (ap not (ap (is_one_of "ok") read ∙ alone status ∙ e)))
          h3,
    )

abbrev AreOrigins : ℕ → List Value → List (ℕ × Bool) → Type 0
AreOrigins previous vs out =
    AreAscending previous (asns_in out)
    × (each asn_of vs ≡ some (asns_in out))
    × (any (λ (n : ℕ × Bool). n.1) out ≡ not (all is_steady_origin vs))

pub check_origins-AreOrigins :
    (fetched previous : ℕ) (vs : List Value) (out : List (ℕ × Bool))
    → check_origins fetched previous vs ≡ some out
    → AreOrigins previous vs out
unfolding check_origins AreAscending
check_origins-AreOrigins fetched previous [] out h =
    subst (λ (x : List (ℕ × Bool)). AreOrigins previous [] x) (some-injective _ _ h)
      (tt, refl, refl)
check_origins-AreOrigins fetched previous (v ∷ vs) out h =
    let (origin, object, h1) = >>=-eq-some (context_object "asn rpki" "" v) _ h in
    let (asn, number, h2) = >>=-eq-some (at "asn" origin >>= context_int 4294967295) _ h1 in
    let (above, h3) = guard_then (ltb previous asn) _ h2 in
    let (missing, checked, h4) = >>=-eq-some (at "rpki" origin >>= check_rpki fetched) _ h3 in
    let (others, rest, h5) = >>=-eq-some (check_origins fetched asn vs) _ h4 in
    let (ordered, read, steady) = check_origins-AreOrigins fetched asn vs others rest in
    let (value, there, small) = >>=-eq-some (at "asn" origin) _ number in
    let (part, given, valid) = >>=-eq-some (at "rpki" origin) _ checked in
    let (fields, fields_eq, missing_eq) = check_rpki-is fetched part missing valid in
    let is_object = context_object-is "asn rpki" "" v origin object in
    let here : asn_of v ≡ some asn =
      ap (λ o. o >>= number_in "asn") is_object
      ∙ ap (λ o. o >>= as_number) there
      ∙ context_int-is 4294967295 value asn small in
    let inside : (as_object v >>= part_in "rpki" >>= text_at "status") ≡ text_at "status" fields =
      ap (λ o. o >>= part_in "rpki" >>= text_at "status") is_object
      ∙ ap (λ o. o >>= as_object >>= text_at "status") given
      ∙ ap (λ o. o >>= text_at "status") fields_eq in
    subst (λ (x : List (ℕ × Bool)). AreOrigins previous (v ∷ vs) x) (some-injective _ _ h5)
      (
        (ltb→lt _ _ above, context_int-le 4294967295 value asn small, ordered),
        each-cons asn_of v vs asn (asns_in others) here read,
        ap₂ (λ x y. x || y) (missing_eq ∙ ap not (sym (ap (is_one_of "ok") inside))) steady
            ∙ not-and _ _,
      )
