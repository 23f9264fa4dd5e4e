-- ===== src/CommonPrefix/Tests.antt =====
-- Runs of the code in frontend/common-prefix.js, and its theorems at concrete inputs.
use revealnetworktrouble.Prelude.{
  ℕ, ◌+◌, ◌≤◌, ◌<◌, ◌≡◌, ◌↔◌, refl, true, none, some, List, [], ◌∷◌, ◌++◌, map, arith, length, Text,
  codes,
}
use revealnetworktrouble.CommonPrefix.Parse.{v4, v6, AddressBits, parse_address_bits}
use revealnetworktrouble.CommonPrefix.Parse.Fits.{Fits, parse_address_bits-Fits}
use revealnetworktrouble.CommonPrefix.Format.{format_value}
use revealnetworktrouble.CommonPrefix.Group.{Group, compute_group}
use revealnetworktrouble.CommonPrefix.Group.Longest.{IsLongest, compute_group-IsLongest}
use revealnetworktrouble.CommonPrefix.Group.Block.{IsBlock, compute_group-IsBlock}
use revealnetworktrouble.CommonPrefix.Report.{common_prefix, family_groups}
use revealnetworktrouble.CommonPrefix.Report.Members.{
  addresses, invalids, blanks, collect, working, common_prefix_groups, common_prefix_accounts,
}
use revealnetworktrouble.CommonPrefix.Report.Correct.{Describes, common_prefix-Describes}
use revealnetworktrouble.CommonPrefix.RoundTrip.{parse-format_value}

parse_v4 :
    parse_address_bits (codes " 10.0.1.255 ")
    ≡ some (record { family = v4; width = 32; value = 0x0a0001ff })
unfolding parse_address_bits
parse_v4 = refl

parse_v6 :
    parse_address_bits (codes "2001:db8::1:0.0.0.9%eth0")
    ≡ some (record { family = v6; width = 128; value = 0x20010db8000000000000000100000009 })
unfolding parse_address_bits
parse_v6 = refl

parse_mapped :
    parse_address_bits (codes "::FFFF:10.0.0.1")
    ≡ some (record { family = v4; width = 32; value = 0x0a000001 })
unfolding parse_address_bits
parse_mapped = refl

parse_refused :
    map parse_address_bits
      (codes "010.0.0.1" ∷ codes "1.2.3" ∷ codes "1::2::3" ∷ codes "fe80::1%" ∷ codes "a b" ∷ [])
    ≡ none ∷ none ∷ none ∷ none ∷ none ∷ []
unfolding parse_address_bits
parse_refused = refl

format_v6 : format_value 0x20010db8000000000000000100000009 v6 ≡ codes "2001:db8::1:0:9"
unfolding format_value
format_v6 = refl

abbrev inputs : List Text
inputs = codes "192.168.1.10" ∷ codes "nope" ∷ codes "192.168.1.77" ∷ codes "::1" ∷ codes " " ∷ []

report_lines :
    map (λ (g : Group). g.cidr) (common_prefix inputs).groups
    ≡ some (codes "192.168.1.0/25") ∷ none ∷ []
unfolding common_prefix
report_lines = refl

-- Three neighbours: 192.168.1.10, 192.168.1.77 and 192.168.1.64.
abbrev one : AddressBits
one = record { family = v4; width = 32; value = 0xc0a8010a }

abbrev others : List AddressBits
others =
    record { family = v4; width = 32; value = 0xc0a8014d }
    ∷ record { family = v4; width = 32; value = 0xc0a80140 }
    ∷ []

compute_group-IsLongest_example :
    (n : ℕ) × ((compute_group one others).shared ≡ some n)
    × IsLongest 32 (0xc0a8010a ∷ 0xc0a8014d ∷ 0xc0a80140 ∷ []) n
compute_group-IsLongest_example = compute_group-IsLongest one others (omega arith)

compute_group-IsBlock_example :
    (n first last : ℕ) × ((compute_group one others).shared ≡ some n)
    × ((compute_group one others).first ≡ format_value first v4)
    × ((compute_group one others).last ≡ some (format_value last v4))
    × IsBlock 32 n (0xc0a8010a ∷ 0xc0a8014d ∷ 0xc0a80140 ∷ []) first last
compute_group-IsBlock_example = compute_group-IsBlock one others (omega arith)

parse-format_value_example :
    parse_address_bits (format_value 0x0a0001ff v4)
    ≡ some (record { family = v4; width = 32; value = 0x0a0001ff })
parse-format_value_example = parse-format_value 0x0a0001ff (omega arith)

parse_address_bits-Fits_example :
    Fits (record { family = v6; width = 128; value = 0x20010db8000000000000000100000009 })
parse_address_bits-Fits_example =
    parse_address_bits-Fits (codes "2001:db8::1:0.0.0.9%eth0")
      (record { family = v6; width = 128; value = 0x20010db8000000000000000100000009 }) parse_v6

common_prefix-Describes_example :
    (four six : List Group) × ((common_prefix inputs).groups ≡ four ++ six)
    × Describes v4 (collect (addresses v4) (working inputs)) four
    × Describes v6 (collect (addresses v6) (working inputs)) six
common_prefix-Describes_example = common_prefix-Describes inputs

common_prefix_groups_example :
    ((common_prefix inputs).groups
      ≡ family_groups (collect (addresses v4) (working inputs))
        ++ family_groups (collect (addresses v6) (working inputs)))
    × ((common_prefix inputs).skipped ≡ collect invalids (working inputs))
common_prefix_groups_example = common_prefix_groups inputs

common_prefix_accounts_example :
    ((common_prefix inputs).parsed
        + length (common_prefix inputs).skipped
        + length (collect blanks (working inputs))
      ≡ (common_prefix inputs).analyzed)
    × ((common_prefix inputs).analyzed ≤ 64)
    × (((common_prefix inputs).truncated ≡ true)
        ↔ ((common_prefix inputs).analyzed < (common_prefix inputs).total_input))
common_prefix_accounts_example = common_prefix_accounts inputs
