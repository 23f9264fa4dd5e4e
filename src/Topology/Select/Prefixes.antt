-- ===== src/Topology/Select/Prefixes.antt =====
-- First parts of a list, one element longer each time.
use mathlib.Core.Option.{some-injective}
use revealnetworktrouble.Prelude.{
  ℕ, zero, suc, ◌+◌, ◌-◌, ◌≤◌, ◌<◌, ◌≡◌, refl, sym, ◌∙◌, ap, none, some, List, [], ◌∷◌, ◌++◌, arith,
  length, get_elem?, take, last?,
}

pub get_elem?-lt {ℓ} :
    {A : Type ℓ} (xs : List A) (i : ℕ) {x : A} → get_elem? xs i ≡ some x → i < length xs
get_elem?-lt [] i h = cc
get_elem?-lt (y ∷ ys) zero h = omega arith
get_elem?-lt (y ∷ ys) (suc i) h = omega (arith, get_elem?-lt ys i h)

pub get_elem?-none {ℓ} : {A : Type ℓ} (xs : List A) (i : ℕ) → get_elem? xs i ≡ none → length xs ≤ i
get_elem?-none [] i h = omega arith
get_elem?-none (y ∷ ys) zero h = cc
get_elem?-none (y ∷ ys) (suc i) h = omega (arith, get_elem?-none ys i h)

take-suc {ℓ} :
    {A : Type ℓ} (xs : List A) (i : ℕ) {x : A}
    → get_elem? xs i ≡ some x
    → take (suc i) xs ≡ take i xs ++ x ∷ []
take-suc [] i h = cc
take-suc (y ∷ ys) zero h = ap (λ z. z ∷ []) (some-injective _ _ h)
take-suc (y ∷ ys) (suc i) h = ap (λ zs. y ∷ zs) (take-suc ys i h)

pub take_next {ℓ} :
    {A : Type ℓ} (xs : List A) (i : ℕ) {x : A}
    → get_elem? xs i ≡ some x
    → take (i + 1) xs ≡ take i xs ++ x ∷ []
take_next xs i h = let e : i + 1 ≡ suc i = omega arith in ap (λ n. take n xs) e ∙ take-suc xs i h

last-snoc {ℓ} : {A : Type ℓ} (xs : List A) (x : A) → last? (xs ++ x ∷ []) ≡ some x
last-snoc [] x = refl
last-snoc (y ∷ []) x = refl
last-snoc (y ∷ z ∷ xs) x = last-snoc (z ∷ xs) x

pub last-take {ℓ} :
    {A : Type ℓ} (xs : List A) (i : ℕ) {x : A}
    → 1 ≤ i
    → get_elem? xs (i - 1) ≡ some x
    → last? (take i xs) ≡ some x
last-take xs i {x} h g =
    let e : i - 1 + 1 ≡ i = omega (arith, h) in
    ap (λ n. last? (take n xs)) (sym e)
    ∙ ap last? (take_next xs (i - 1) g)
    ∙ last-snoc (take (i - 1) xs) x
