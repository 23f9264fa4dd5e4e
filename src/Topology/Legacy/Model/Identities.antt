-- ===== src/Topology/Legacy/Model/Identities.antt =====
-- frontend/topology-model.js, `adaptLegacyTopology`: every chosen and summed key has the identity of a node.
use revealnetworktrouble.Prelude.{
  text_eq_self, eq_of_text_eq, if_holds, ℕ, ◌+◌, ◌≡◌, refl, inl, inr, Bool, true, false, Option,
  none, some, List, [], ◌∷◌, if◌then◌else◌, Bool-cases, Option-cases, any, keep, Text, text_eq,
}
use revealnetworktrouble.Topology.Data.{has}
use revealnetworktrouble.Topology.Legacy.Model.{
  LegacyNode, find_sum, legacy_id, node_of, nodes_from, id_of,
}
use revealnetworktrouble.Topology.Legacy.Sums.{NodeSum}
use revealnetworktrouble.Topology.Legacy.Model.Sums.{node_keys, or_left, or_right, or_cases}

-- An identity that is there and is that of a node.
abbrev pub is_node_id : List LegacyNode → Option Text → Bool
is_node_id nodes none = false
is_node_id nodes (some id) = any (λ n. text_eq id n.node.id) nodes

find_sum-some :
    (key : Text) (sums : List NodeSum)
    → has key (node_keys sums) ≡ true
    → (a : NodeSum) × (find_sum key sums ≡ some a)
find_sum-some key [] h = cc
find_sum-some key (a ∷ sums) h = elim (Bool-cases (text_eq key a.key)) [
  | inl e ↦ (a, rw e refl)
  | inr n ↦ let (b, found) = find_sum-some key sums (rw n at h) in (b, rw n found)
]

skip_node :
    (n : LegacyNode) (nodes : List LegacyNode) (id : Option Text)
    → is_node_id nodes id ≡ true
    → is_node_id (n ∷ nodes) id ≡ true
skip_node n nodes none h = cc
skip_node n nodes (some id) h = or_right (text_eq id n.node.id) _ h

only_later :
    (key k : Text) (ks : List Text) (sums : List NodeSum)
    → find_sum k sums ≡ none
    → has key (k ∷ ks) ≡ true
    → has key (node_keys sums) ≡ true
    → has key ks ≡ true
only_later key k ks sums none_found h s = elim (or_cases (text_eq key k) (has key ks) h) [
  | inl e ↦
      let (a, found) = find_sum-some key sums s in
      let same : key ≡ k = eq_of_text_eq key k e in
      let both : find_sum k sums ≡ some a = rw (← same) found in cc
  | inr e ↦ e
]

-- The clauses of the two loops over the keys.
module _ (index : ℕ) (k : Text) (ks : List Text) (sums : List NodeSum) where
  pub nodes_none :
      find_sum k sums ≡ none → nodes_from index (k ∷ ks) sums ≡ nodes_from index ks sums
  unfolding nodes_from
  nodes_none h = rw (nodes_from, h) refl

  pub nodes_some :
      (a : NodeSum)
      → find_sum k sums ≡ some a
      → nodes_from index (k ∷ ks) sums ≡ node_of index a ∷ nodes_from (index + 1) ks sums
  unfolding nodes_from
  nodes_some a h = rw (nodes_from, h) refl

id_none :
    (index : ℕ) (key k : Text) (ks : List Text) (sums : List NodeSum)
    → find_sum k sums ≡ none
    → id_of index key (k ∷ ks) sums ≡ id_of index key ks sums
unfolding id_of
id_none index key k ks sums h = rw (id_of, h) refl

id_some :
    (index : ℕ) (key k : Text) (ks : List Text) (sums : List NodeSum) (a : NodeSum)
    → find_sum k sums ≡ some a
    → id_of index key (k ∷ ks) sums
      ≡ (if text_eq key k then some (legacy_id index) else id_of (index + 1) key ks sums)
unfolding id_of
id_some index key k ks sums a h = rw (id_of, h) refl

pub keep_yes :
    {A : Type 0} (p : A → Bool) (x : A) (xs : List A) → p x ≡ true → keep p (x ∷ xs) ≡ x ∷ keep p xs
keep_yes p x xs h = rw (keep, h) refl

pub keep_no :
    {A : Type 0} (p : A → Bool) (x : A) (xs : List A) → p x ≡ false → keep p (x ∷ xs) ≡ keep p xs
keep_no p x xs h = rw (keep, h) refl

pub id_of-is_node_id :
    (index : ℕ) (key : Text) (keys : List Text) (sums : List NodeSum)
    → has key keys ≡ true
    → has key (node_keys sums) ≡ true
    → is_node_id (nodes_from index keys sums) (id_of index key keys sums) ≡ true
unfolding nodes_from id_of node_of
id_of-is_node_id index key [] sums h s = cc
id_of-is_node_id index key (k ∷ ks) sums h s = elim (Option-cases (find_sum k sums)) [
  | inl none_found ↦
      rw (nodes_none index k ks sums none_found, id_none index key k ks sums none_found)
        (id_of-is_node_id index key ks sums (only_later key k ks sums none_found h s) s)
  | inr (a, found) ↦
      rw (nodes_some index k ks sums a found, id_some index key k ks sums a found)
        (if_holds
          (λ (x : Option Text).
            is_node_id (node_of index a ∷ nodes_from (index + 1) ks sums) x ≡ true)
          (text_eq key k) (some (legacy_id index)) (id_of (index + 1) key ks sums)
          (λ _.
            or_left (text_eq (legacy_id index) (legacy_id index)) _
              (text_eq_self (legacy_id index)))
          (λ n.
            skip_node (node_of index a) (nodes_from (index + 1) ks sums)
              (id_of (index + 1) key ks sums)
              (id_of-is_node_id (index + 1) key ks sums (rw n at h) s)))
]
