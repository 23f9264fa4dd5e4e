-- ===== src/Addresses/Tests.antt =====
-- Runs of frontend/topology-presentation.js, `addressClass` and `canonicalPublicIP`, with a parser of URLs
-- that hands back a host that is canonical already.
use revealnetworktrouble.Prelude.{
  ◌≡◌, ◌↔◌, refl, Option, none, some, List, [], ◌∷◌, String, length, Text, codes,
}
use revealnetworktrouble.Addresses.{
  Network, AddressClass, private_address, public_address, other_address, private_ranges,
  nonpublic_ranges, networks, address_bits, address_class, canonical_public_ip,
}
use revealnetworktrouble.Addresses.Class.{IsPublic, address_class-IsPublic}

abbrev same_host : Text → Option Text
same_host t = some t

abbrev all_read : Option (List Network) → List Network
all_read none = []
all_read (some ns) = ns

abbrev inner : List Network
inner = all_read (networks same_host private_ranges)

abbrev nonpublic : List Network
nonpublic = all_read (networks same_host nonpublic_ranges)

all_ranges : length inner ∷ length nonpublic ∷ [] ≡ 4 ∷ 34 ∷ []
unfolding networks
all_ranges = refl

abbrev class_at : String → AddressClass
class_at a = address_class same_host inner nonpublic (codes a)

classes :
    class_at "8.8.8.8"
      ∷ class_at "172.31.0.1"
      ∷ class_at "172.32.0.1"
      ∷ class_at "100.64.0.1"
      ∷ class_at "fd00::1"
      ∷ class_at "2606:4700::1111"
      ∷ class_at "01.2.3.4"
      ∷ []
    ≡ public_address ∷ private_address ∷ public_address ∷ other_address ∷ private_address
      ∷ public_address ∷ other_address ∷ []
unfolding networks address_class
classes = refl

canonical : canonical_public_ip same_host inner nonpublic (codes "8.8.4.4") ≡ some (codes "8.8.4.4")
unfolding networks canonical_public_ip
canonical = refl

address_class-IsPublic_example :
    (address_class same_host inner nonpublic (codes "8.8.8.8") ≡ public_address)
    ↔ IsPublic inner nonpublic (address_bits same_host (codes "8.8.8.8"))
address_class-IsPublic_example = address_class-IsPublic same_host inner nonpublic (codes "8.8.8.8")
