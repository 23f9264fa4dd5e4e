-- ===== src/CommonPrefix/Report/Members.antt =====
-- The first loop of `commonPrefix` sorts its inputs: what it files, skips and passes over.
use revealnetworktrouble.Prelude.{
  ◌+◌, ◌≤◌, ◌≡◌, refl, sym, ◌∙◌, ap, ap₂, ◌<◌, ◌↔◌, ltb→lt, inl, inr, true, Option, none, some,
  List, [], ◌∷◌, ◌++◌, min, ltb, if◌then◌else◌, length, length-append, length-take, take,
  Bool-cases, Text, trim, arith,
}
use revealnetworktrouble.CommonPrefix.Parse.{Family, v4, v6, AddressBits, parse_address_bits}
use revealnetworktrouble.CommonPrefix.Report.{
  Sorted, file_bits, file_result, file_text, classify, classify_all, max_addresses, common_prefix,
  family_groups,
}
use mathlib.Core.List.{append_assoc, append-nil}

-- What one input is: a blank, a text that is no address, or an address.
pub data Input : Type 0 where
  blank : Input
  invalid : Text → Input
  address : AddressBits → Input

abbrev pub read_text : Text → Option AddressBits → Input
read_text t none = invalid t
read_text t (some b) = address b

abbrev pub read_trimmed : Text → Input
read_trimmed [] = blank
read_trimmed (c ∷ t) = read_text (c ∷ t) (parse_address_bits (c ∷ t))

unfoldable pub read : Text → Input
read raw = read_trimmed (trim raw)

abbrev pub of_family : Family → Family → AddressBits → List AddressBits
of_family v4 v4 b = b ∷ []
of_family v6 v6 b = b ∷ []
of_family _ _ b = []

-- What an input gives to a family, to the skipped texts and to the blanks.
abbrev pub addresses : Family → Input → List AddressBits
addresses f blank = []
addresses f (invalid t) = []
addresses f (address b) = of_family f b.family b

abbrev pub invalids : Input → List Text
invalids (invalid t) = t ∷ []
invalids _ = []

abbrev pub blanks : Input → List (Unit {0})
blanks blank = tt ∷ []
blanks _ = []

-- All that the inputs give, in their order.
abbrev pub collect {ℓ} : {A : Type ℓ} → (Input → List A) → List Text → List A
collect g [] = []
collect g (raw ∷ raws) = g (read raw) ++ collect g raws

-- `s` with more behind it.
record Extends (s t : Sorted) (four six : List AddressBits) (skipped : List Text) : Type 0 where
  four_eq : t.four ≡ s.four ++ four
  six_eq : t.six ≡ s.six ++ six
  skipped_eq : t.skipped ≡ s.skipped ++ skipped

file_bits-Extends :
    (f : Family) (b : AddressBits) (s : Sorted)
    → f ≡ b.family
    → Extends s (file_bits b s) (of_family v4 f b) (of_family v6 f b) []
file_bits-Extends v4 b s e =
    rw (← e)
      (record { four_eq = refl; six_eq = sym (append-nil _); skipped_eq = sym (append-nil _) })
file_bits-Extends v6 b s e =
    rw (← e)
      (record { four_eq = sym (append-nil _); six_eq = refl; skipped_eq = sym (append-nil _) })

file_result-Extends :
    (text : Text) (o : Option AddressBits) (s : Sorted)
    → Extends s
        (file_result text o s)
        (addresses v4 (read_text text o))
        (addresses v6 (read_text text o))
        (invalids (read_text text o))
file_result-Extends text none s = record {
  four_eq = sym (append-nil _);
  six_eq = sym (append-nil _);
  skipped_eq = refl;
}
file_result-Extends text (some b) s = file_bits-Extends b.family b s refl

file_text-Extends :
    (text : Text) (s : Sorted)
    → Extends s
        (file_text s text)
        (addresses v4 (read_trimmed text))
        (addresses v6 (read_trimmed text))
        (invalids (read_trimmed text))
file_text-Extends [] s = record {
  four_eq = sym (append-nil _);
  six_eq = sym (append-nil _);
  skipped_eq = sym (append-nil _);
}
file_text-Extends (c ∷ t) s = file_result-Extends (c ∷ t) (parse_address_bits (c ∷ t)) s

classify-Extends :
    (s : Sorted) (raw : Text)
    → Extends s
        (classify s raw)
        (addresses v4 (read raw))
        (addresses v6 (read raw))
        (invalids (read raw))
unfolding classify read
classify-Extends s raw = file_text-Extends (trim raw) s

classify_all-Extends :
    (raws : List Text) (s : Sorted)
    → Extends s
        (classify_all s raws)
        (collect (addresses v4) raws)
        (collect (addresses v6) raws)
        (collect invalids raws)
unfolding classify_all
classify_all-Extends [] s = record {
  four_eq = sym (append-nil _);
  six_eq = sym (append-nil _);
  skipped_eq = sym (append-nil _);
}
classify_all-Extends (raw ∷ raws) s =
    let here = classify-Extends s raw in
    let later = classify_all-Extends raws (classify s raw) in
    record {
      four_eq = later.four_eq ∙ simp (here.four_eq, append_assoc);
      six_eq = later.six_eq ∙ simp (here.six_eq, append_assoc);
      skipped_eq = later.skipped_eq ∙ simp (here.skipped_eq, append_assoc);
    }

-- The inputs that are looked at.
abbrev pub working : List Text → List Text
working raws = if ltb max_addresses (length raws) then take max_addresses raws else raws

-- The groups are those of the v4 addresses and of the v6 addresses among the first 64 inputs, each
-- in the order of the inputs, and the skipped texts are those inputs that are neither blank nor an
-- address.
pub common_prefix_groups :
    (raws : List Text)
    → ((common_prefix raws).groups
        ≡ family_groups (collect (addresses v4) (working raws))
          ++ family_groups (collect (addresses v6) (working raws)))
      × ((common_prefix raws).skipped ≡ collect invalids (working raws))
unfolding common_prefix
common_prefix_groups raws =
    let e = classify_all-Extends (working raws) (record { four = []; six = []; skipped = [] }) in
    (ap₂ (λ a b. family_groups a ++ family_groups b) e.four_eq e.six_eq, e.skipped_eq)

input_count :
    (i : Input)
    → length (addresses v4 i) + length (addresses v6 i) + length (invalids i) + length (blanks i)
      ≡ 1
input_count blank = refl
input_count (invalid t) = refl
input_count (address b) = family_count b.family b
  where
    family_count :
        (f : Family) (b : AddressBits)
        → length (of_family v4 f b) + length (of_family v6 f b) + 0 + 0 ≡ 1
    family_count v4 b = refl
    family_count v6 b = refl

collect_count :
    (raws : List Text)
    → length (collect (addresses v4) raws)
        + length (collect (addresses v6) raws)
        + length (collect invalids raws)
        + length (collect blanks raws)
      ≡ length raws
collect_count [] = refl
collect_count (raw ∷ raws) = omega (
  arith,
  input_count (read raw),
  collect_count raws,
  length-append (addresses v4 (read raw)) (collect (addresses v4) raws),
  length-append (addresses v6 (read raw)) (collect (addresses v6) raws),
  length-append (invalids (read raw)) (collect invalids raws),
  length-append (blanks (read raw)) (collect blanks raws),
)

length-working : (raws : List Text) → length (working raws) ≡ min (length raws) max_addresses
length-working raws = elim (Bool-cases (ltb max_addresses (length raws))) [
  | inl more ↦ rw more (omega (arith, length-take max_addresses raws, ltb→lt 64 (length raws) more))
  | inr all ↦ rw all (ground arith)
]

-- Every input is accounted for: of the analyzed ones (at most 64) each is parsed, skipped or blank,
-- and the report says that it was truncated exactly when inputs were left out.
pub common_prefix_accounts :
    (raws : List Text)
    → ((common_prefix raws).parsed
          + length (common_prefix raws).skipped
          + length (collect blanks (working raws))
        ≡ (common_prefix raws).analyzed)
      × ((common_prefix raws).analyzed ≤ 64)
      × (((common_prefix raws).truncated ≡ true)
          ↔ ((common_prefix raws).analyzed < (common_prefix raws).total_input))
unfolding common_prefix
common_prefix_accounts raws =
    let e = classify_all-Extends (working raws) (record { four = []; six = []; skipped = [] }) in
    (
      omega (
        arith,
        ap length e.four_eq,
        ap length e.six_eq,
        ap length e.skipped_eq,
        collect_count (working raws),
        length-working raws,
      ),
      omega arith,
      ground arith,
    )
