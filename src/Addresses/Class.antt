-- ===== src/Addresses/Class.antt =====
-- frontend/topology-presentation.js, `addressClass`: an address and the ranges of the lists.
use revealnetworktrouble.Prelude.{
  ℕ, ◌+◌, ◌*◌, ◌/◌, ◌^◌, ◌≤◌, ◌<◌, ◌≡◌, ◌≢◌, ◌↔◌, ◌⊎◌, refl, sym, ◌∙◌, ap, ap₂, inl, inr, Bool,
  true, false, ◌||◌, Option, none, some, List, [], ◌∷◌, arith, dec_le, ◌==◌, ==_iff, Bool-cases,
  All, Text,
}
use native.Mathlib.Nat.{div-eq_of_lt-le, one-le-pow, div-mul-le_self, lt-div-mul-add}
use revealnetworktrouble.Addresses.{
  Bits, Network, private_address, public_address, other_address, same_network, in_networks,
  class_of, address_bits, address_class,
}

-- The first address of the range that a network stands for.
abbrev pub first_address : Network → ℕ
first_address n = n.value / 2 ^ n.shift * 2 ^ n.shift

-- An address of another family or outside of the range.
abbrev pub IsOutside : Bits → Network → Type 0
IsOutside b n =
    n.width ≡ b.width → first_address n ≤ b.value → first_address n + 2 ^ n.shift ≤ b.value

other_not_public : other_address ≢ public_address
other_not_public e = cc

private_not_public : private_address ≢ public_address
private_not_public e = cc

clash : {b : Bool} → b ≡ true → b ≡ false → ⊥
clash {b} t f = cc

quotient-range : (d v w : ℕ) → 0 < d → w / d * d ≤ v → v < w / d * d + d → v / d ≡ w / d
quotient-range d v w pos low high =
    div-eq_of_lt-le {k = w / d} d (omega (arith, low)) (omega (arith, high))

pow_pos : (k : ℕ) → 0 < 2 ^ k
pow_pos k = omega (arith, one-le-pow k 2)

-- The last address of the range, and one more.
high-bound :
    (b : Bits) (n : Network)
    → b.value / 2 ^ n.shift ≡ n.value / 2 ^ n.shift
    → b.value < first_address n + 2 ^ n.shift
high-bound b n e =
    omega (arith, lt-div-mul-add {a = b.value} (pow_pos n.shift), ap (λ (q : ℕ). q * 2 ^ n.shift) e)

low-bound :
    (b : Bits) (n : Network)
    → b.value / 2 ^ n.shift ≡ n.value / 2 ^ n.shift
    → first_address n ≤ b.value
low-bound b n e =
    omega (arith, div-mul-le_self b.value (2 ^ n.shift), ap (λ (q : ℕ). q * 2 ^ n.shift) e)

same-cases :
    (b : Bits) (n : Network)
    → ((same_network b n ≡ true)
        × (n.width ≡ b.width)
        × (b.value / 2 ^ n.shift ≡ n.value / 2 ^ n.shift))
      ⊎ ((same_network b n ≡ false)
          × ((n.width ≡ b.width) → b.value / 2 ^ n.shift ≢ n.value / 2 ^ n.shift))
same-cases b n =
    let widths = ==_iff n.width b.width in
    let quotients = ==_iff (b.value / 2 ^ n.shift) (n.value / 2 ^ n.shift) in
    elim (Bool-cases (n.width == b.width)) [
      | inl w ↦ elim (Bool-cases (b.value / 2 ^ n.shift == n.value / 2 ^ n.shift)) [
        | inl q ↦ inl (ground (arith, w, q), widths.0 w, quotients.0 q)
        | inr q ↦ inr (ground (arith, w, q), λ _ e. clash (quotients.1 e) q)
      ]
      | inr w ↦ inr (ground (arith, w), λ e. absurd (clash (widths.1 e) w))
    ]

outside→no : (b : Bits) (n : Network) → IsOutside b n → same_network b n ≡ false
outside→no b n out = elim (same-cases b n) [
  | inl (_, w, e) ↦ absurd (omega (arith, out w (low-bound b n e), high-bound b n e))
  | inr (unlike, _) ↦ unlike
]

no→outside : (b : Bits) (n : Network) → same_network b n ≡ false → IsOutside b n
no→outside b n h w low = elim (same-cases b n) [
  | inl (yes_same, _, _) ↦ absurd (clash yes_same h)
  | inr (_, differs) ↦ elim (dec_le (first_address n + 2 ^ n.shift) b.value) [
    | yes le ↦ le
    | no nle ↦ absurd (
        differs w
          (quotient-range (2 ^ n.shift) b.value n.value (pow_pos n.shift) low (omega (arith, nle))))
  ]
]

in_networks-cons :
    (b : Bits) (n : Network) (ns : List Network)
    → in_networks b (n ∷ ns) ≡ (same_network b n || in_networks b ns)
in_networks-cons b n ns = refl

IsOutside-in_networks :
    (b : Bits) (ns : List Network) → All (IsOutside b) ns → in_networks b ns ≡ false
IsOutside-in_networks b [] h = refl
IsOutside-in_networks b (n ∷ ns) h =
    ap₂ (λ p q. p || q) (outside→no b n h.0) (IsOutside-in_networks b ns h.1)

in_networks-IsOutside :
    (b : Bits) (ns : List Network) → in_networks b ns ≡ false → All (IsOutside b) ns
in_networks-IsOutside b [] h = tt
in_networks-IsOutside b (n ∷ ns) h = elim (Bool-cases (same_network b n)) [
  | inl s ↦ absurd (clash (ap (λ p. p || in_networks b ns) s) h)
  | inr s ↦
      (no→outside b n s, in_networks-IsOutside b ns (sym (ap (λ p. p || in_networks b ns) s) ∙ h))
]

-- Bits that are read and are outside of all these networks.
abbrev pub IsPublic : List Network → List Network → Option Bits → Type 0
IsPublic inner nonpublic o =
    (b : Bits) × (o ≡ some b) × All (IsOutside b) inner × All (IsOutside b) nonpublic

class_of-IsPublic :
    (inner nonpublic : List Network) (o : Option Bits)
    → class_of inner nonpublic o ≡ public_address
    → IsPublic inner nonpublic o
class_of-IsPublic inner nonpublic none h = cc
class_of-IsPublic inner nonpublic (some b) h = elim (Bool-cases (in_networks b inner)) [
  | inl i ↦ absurd (private_not_public (sym (rw i refl) ∙ h))
  | inr i ↦ elim (Bool-cases (in_networks b nonpublic)) [
    | inl n ↦ absurd (other_not_public (sym (rw (i, n) refl) ∙ h))
    | inr n ↦ (b, refl, in_networks-IsOutside b inner i, in_networks-IsOutside b nonpublic n)
  ]
]

IsPublic-class_of :
    (inner nonpublic : List Network) (o : Option Bits)
    → IsPublic inner nonpublic o
    → class_of inner nonpublic o ≡ public_address
IsPublic-class_of inner nonpublic o (b, e, i, n) =
    ap (class_of inner nonpublic) e
    ∙ rw (IsOutside-in_networks b inner i, IsOutside-in_networks b nonpublic n) refl

-- For any URL parser and lists of networks, addressClass calls an address public exactly if its bits are
-- read and lie outside of the range of addresses of each network of their width, in both lists.
pub address_class-IsPublic :
    (url_host : Text → Option Text) (inner nonpublic : List Network) (a : Text)
    → (address_class url_host inner nonpublic a ≡ public_address)
      ↔ IsPublic inner nonpublic (address_bits url_host a)
unfolding address_class
address_class-IsPublic url_host inner nonpublic a =
    let bits = address_bits url_host a in
    (class_of-IsPublic inner nonpublic bits, IsPublic-class_of inner nonpublic bits)
