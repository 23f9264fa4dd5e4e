-- ===== src/CommonPrefix/Report.antt =====
-- frontend/common-prefix.js, `commonPrefix`: the groups of an input list, with what was left out.
-- The list holds texts; the code also turns other values into text (`String(raw ?? '')`).
pub mod Members
pub mod Correct
use revealnetworktrouble.Prelude.{
  Option, ℕ, ◌+◌, Bool, true, none, some, List, [], ◌∷◌, ◌++◌, min, ltb, if◌then◌else◌, length,
  take, Text, trim,
}
use revealnetworktrouble.CommonPrefix.Parse.{v4, v6, AddressBits, parse_address_bits}
use revealnetworktrouble.CommonPrefix.Format.{format_value}
use revealnetworktrouble.CommonPrefix.Group.{Group, compute_group}

abbrev pub max_addresses : ℕ
max_addresses = 64

-- `groups` (a map from the two families) and `skipped` of the first loop.
pub record Sorted : Type 0 where
  pub four : List AddressBits
  pub six : List AddressBits
  pub skipped : List Text

abbrev pub file_bits : AddressBits → Sorted → Sorted
file_bits b s = elim b.family [
  | v4 ↦ record s { four = s.four ++ b ∷ [] }
  | v6 ↦ record s { six = s.six ++ b ∷ [] }
]

abbrev pub file_result : Text → Option AddressBits → Sorted → Sorted
file_result text none s = record s { skipped = s.skipped ++ text ∷ [] }
file_result text (some b) s = file_bits b s

abbrev pub file_text : Sorted → Text → Sorted
file_text s [] = s
file_text s (c ∷ t) = file_result (c ∷ t) (parse_address_bits (c ∷ t)) s

-- One round of the loop over the inputs.
unfoldable pub classify : Sorted → Text → Sorted
unfolding trim parse_address_bits
classify s raw = file_text s (trim raw)

unfoldable pub classify_all : Sorted → List Text → Sorted
unfolding classify
classify_all s [] = s
classify_all s (raw ∷ raws) = classify_all (classify s raw) raws

-- A family with no member has no entry in the map.
unfoldable pub family_groups : List AddressBits → List Group
unfolding compute_group format_value
family_groups [] = []
family_groups (b ∷ []) =
    record {
      family = b.family;
      count = 1;
      shared = none;
      cidr = none;
      first = format_value b.value b.family;
      last = none;
      first_diff_bit = none;
      members = format_value b.value b.family ∷ [];
      alone = true;
    }
    ∷ []
family_groups (b ∷ c ∷ bs) = compute_group b (c ∷ bs) ∷ []

pub record Report : Type 0 where
  pub total_input : ℕ
  pub analyzed : ℕ
  pub truncated : Bool
  pub parsed : ℕ
  pub skipped : List Text
  pub groups : List Group

-- `sort` by the family's name puts v4 before v6.
unfoldable pub common_prefix : List Text → Report
unfolding classify_all family_groups
common_prefix raws =
    let truncated = ltb max_addresses (length raws) in
    let working = if truncated then take max_addresses raws else raws in
    let s = classify_all (record { four = []; six = []; skipped = [] }) working in
    record {
      total_input = length raws;
      analyzed = min (length raws) max_addresses;
      truncated = truncated;
      parsed = length s.four + length s.six;
      skipped = s.skipped;
      groups = family_groups s.four ++ family_groups s.six;
    }
