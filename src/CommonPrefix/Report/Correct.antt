-- ===== src/CommonPrefix/Report/Correct.antt =====
-- Every group of the report is the common prefix of the addresses of its family.
use revealnetworktrouble.Prelude.{
  ℕ, ◌^◌, ◌<◌, ◌≡◌, refl, sym, ◌∙◌, ap, true, false, Option, none, some, List, [], ◌∷◌, ◌++◌, map,
  length, All, All-append, Text, trim,
}
use mathlib.Core.Path.{subst}
use mathlib.Core.Option.{some-injective}
use revealnetworktrouble.CommonPrefix.Parse.{Family, v4, v6, AddressBits, parse_address_bits}
use revealnetworktrouble.CommonPrefix.Parse.Fits.{Fits, parse_address_bits-Fits, width_of}
use revealnetworktrouble.CommonPrefix.Format.{format_value}
use revealnetworktrouble.CommonPrefix.Group.{Group, compute_group}
use revealnetworktrouble.CommonPrefix.Group.Longest.{values, IsLongest, compute_group-IsLongest}
use revealnetworktrouble.CommonPrefix.Group.Block.{IsBlock, compute_group-IsBlock}
use revealnetworktrouble.CommonPrefix.Report.{Option, List, Text, common_prefix, family_groups}
use revealnetworktrouble.CommonPrefix.Report.Members.{
  read, read_text, read_trimmed, of_family, addresses, collect, working, common_prefix_groups,
}

-- An address of the family, whose bits fit its width.
abbrev InFamily : Family → AddressBits → Type 0
InFamily f b = (b.family ≡ f) × Fits b

of_family-InFamily :
    (f g : Family) (b : AddressBits) → b.family ≡ g → Fits b → All (InFamily f) (of_family f g b)
of_family-InFamily v4 v4 b e h = ((e, h), tt)
of_family-InFamily v4 v6 b e h = tt
of_family-InFamily v6 v4 b e h = tt
of_family-InFamily v6 v6 b e h = ((e, h), tt)

-- What the report says of the members of one family.
pub record IsGroupOf (f : Family) (b : AddressBits) (bs : List AddressBits) (g : Group)
    : Type 0 where
  pub n : ℕ
  pub first : ℕ
  pub last : ℕ
  pub family : g.family ≡ f
  pub count : g.count ≡ length (b ∷ bs)
  pub members : g.members ≡ map (λ m. format_value m.value f) (b ∷ bs)
  pub shared : g.shared ≡ some n
  pub first_text : g.first ≡ format_value first f
  pub last_text : g.last ≡ some (format_value last f)
  pub longest : IsLongest (width_of f) (values (b ∷ bs)) n
  pub block : IsBlock (width_of f) n (values (b ∷ bs)) first last

abbrev pub Describes : Family → List AddressBits → List Group → Type 0
Describes f [] gs = gs ≡ []
Describes f (b ∷ []) [] = ⊥
Describes f (b ∷ []) (g ∷ gs) =
    (gs ≡ []) × (g.alone ≡ true) × (g.shared ≡ none) × (g.first ≡ format_value b.value f)
Describes f (b ∷ c ∷ bs) [] = ⊥
Describes f (b ∷ c ∷ bs) (g ∷ gs) = (gs ≡ []) × (g.alone ≡ false) × IsGroupOf f b (c ∷ bs) g

all_fit :
    (w : ℕ) (f : Family) (bs : List AddressBits)
    → w ≡ width_of f
    → All (InFamily f) bs
    → All (λ v. v < 2 ^ w) (values bs)
all_fit w f [] e _ = tt
all_fit w f (b ∷ bs) e ((same, fits), h) = (
  subst (λ k. b.value < 2 ^ k) (fits.width ∙ (ap width_of same ∙ sym e)) fits.bound,
  all_fit w f bs e h,
)

compute_group-IsGroupOf :
    (f : Family) (b : AddressBits) (bs : List AddressBits)
    → All (InFamily f) (b ∷ bs)
    → IsGroupOf f b bs (compute_group b bs)
unfolding compute_group
compute_group-IsGroupOf f b bs h =
    let width : b.width ≡ width_of f = h.0.1.width ∙ ap width_of h.0.0 in
    let fits = all_fit b.width f (b ∷ bs) width h in
    let (n, shared, longest) = compute_group-IsLongest b bs fits in
    let (n', first, last, shared', first_text, last_text, block) =
      compute_group-IsBlock b bs fits in
    let same : n' ≡ n = some-injective _ _ (sym shared' ∙ shared) in
    record {
      n = n;
      first = first;
      last = last;
      family = h.0.0;
      count = refl;
      members = ap (λ g. map (λ (m : AddressBits). format_value m.value g) (b ∷ bs)) h.0.0;
      shared = shared;
      first_text = first_text ∙ ap (format_value first) h.0.0;
      last_text = last_text ∙ ap (λ g. some (format_value last g)) h.0.0;
      longest = subst (λ w. IsLongest w (values (b ∷ bs)) n) width longest;
      block =
          subst (λ w. IsBlock w n (values (b ∷ bs)) first last) width
            (subst (λ k. IsBlock b.width k (values (b ∷ bs)) first last) same block);
    }

family_groups-Describes :
    (f : Family) (bs : List AddressBits) → All (InFamily f) bs → Describes f bs (family_groups bs)
unfolding family_groups compute_group
family_groups-Describes f [] h = refl
family_groups-Describes f (b ∷ []) h = (refl, refl, refl, ap (format_value b.value) h.0.0)
family_groups-Describes f (b ∷ c ∷ bs) h = (refl, refl, compute_group-IsGroupOf f b (c ∷ bs) h)

addresses-InFamily : (f : Family) (raw : Text) → All (InFamily f) (addresses f (read raw))
unfolding read
addresses-InFamily f raw = trimmed (trim raw)
  where
    result :
        (t : Text) (o : Option AddressBits)
        → parse_address_bits t ≡ o
        → All (InFamily f) (addresses f (read_text t o))
    result t none e = tt
    result t (some b) e = of_family-InFamily f b.family b refl (parse_address_bits-Fits t b e)

    trimmed : (t : Text) → All (InFamily f) (addresses f (read_trimmed t))
    trimmed [] = tt
    trimmed (c ∷ t) = result (c ∷ t) (parse_address_bits (c ∷ t)) refl

collect-InFamily : (f : Family) (raws : List Text) → All (InFamily f) (collect (addresses f) raws)
collect-InFamily f [] = tt
collect-InFamily f (raw ∷ raws) =
    All-append (InFamily f) (addresses f (read raw)) (collect (addresses f) raws)
      (addresses-InFamily f raw) (collect-InFamily f raws)

-- For any inputs the report holds the group of the v4 addresses, then that of the v6 addresses,
-- among the first 64 inputs. No address: no group. One: a group that stands alone, with no common
-- prefix. Two or more: the longest common prefix, and the smallest aligned block around them.
pub common_prefix-Describes :
    (raws : List Text)
    → (four six : List Group) × ((common_prefix raws).groups ≡ four ++ six)
      × Describes v4 (collect (addresses v4) (working raws)) four
      × Describes v6 (collect (addresses v6) (working raws)) six
common_prefix-Describes raws = (
  family_groups (collect (addresses v4) (working raws)),
  family_groups (collect (addresses v6) (working raws)),
  (common_prefix_groups raws).0,
  family_groups-Describes v4 _ (collect-InFamily v4 (working raws)),
  family_groups-Describes v6 _ (collect-InFamily v6 (working raws)),
)
