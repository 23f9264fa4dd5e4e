-- ===== src/IpContext/Controller/Cache.antt =====
-- frontend/state.js, `createIPContextController`: the cache of answers, its keys and its size.
use revealnetworktrouble.Prelude.{
  ℕ, zero, suc, ◌+◌, ◌-◌, ◌≤◌, ◌<◌, ◌≡◌, refl, inl, inr, Option, none, some, List, [], ◌∷◌, ◌++◌,
  arith, Option-cases, length, drop, length-append, All, All-append, Text, text_eq, eq_of_text_eq,
  if_holds,
}
use revealnetworktrouble.IpContext.Controller.{
  Snapshot, find_cached, delete, fresh, cached, after_cached, remember,
}

abbrev pub Entries : Type 0
Entries = List (Text × Snapshot)

-- An answer is stored under its address.
abbrev pub IsKeyed : Text × Snapshot → Type 0
IsKeyed (k, v) = v.address ≡ k

length-delete-le : (t : Text) (kvs : Entries) → length (delete t kvs) ≤ length kvs
length-delete-le t [] = omega arith
length-delete-le t ((k, v) ∷ kvs) = ground (arith, length-delete-le t kvs)

length-delete-found :
    (t : Text) (kvs : Entries) (v : Snapshot)
    → find_cached t kvs ≡ some v
    → length (delete t kvs) + 1 ≤ length kvs
length-delete-found t [] v e = cc
length-delete-found t ((k, w) ∷ kvs) v e =
    ground (arith, length-delete-found t kvs v, length-delete-le t kvs)

delete-IsKeyed : (t : Text) (kvs : Entries) → All IsKeyed kvs → All IsKeyed (delete t kvs)
delete-IsKeyed t [] h = tt
delete-IsKeyed t ((k, v) ∷ kvs) (h, hs) =
    if_holds (All IsKeyed) (text_eq t k) _ _ (λ _. delete-IsKeyed t kvs hs)
      (λ _. (h, delete-IsKeyed t kvs hs))

find_cached-address :
    (t : Text) (kvs : Entries) (v : Snapshot)
    → All IsKeyed kvs
    → find_cached t kvs ≡ some v
    → v.address ≡ t
find_cached-address t [] v h e = cc
find_cached-address t ((k, w) ∷ kvs) v (h, hs) e =
    ground (arith, eq_of_text_eq t k, find_cached-address t kvs v hs)

fresh-found : (now : ℕ) (o : Option Snapshot) (v : Snapshot) → fresh now o ≡ some v → o ≡ some v
fresh-found now none v e = cc
fresh-found now (some w) v e = ground (arith, e)

pub cached-address :
    (now : ℕ) (t : Text) (kvs : Entries) (v : Snapshot)
    → All IsKeyed kvs
    → cached now t kvs ≡ some v
    → v.address ≡ t
cached-address now t kvs v h e =
    find_cached-address t kvs v h (fresh-found now (find_cached t kvs) v e)

-- An answer that the cache gives has not expired.
pub cached-fresh :
    (now : ℕ) (t : Text) (kvs : Entries) (v : Snapshot)
    → cached now t kvs ≡ some v
    → now < v.expires_at
cached-fresh now t kvs v e = go (find_cached t kvs) e
  where
    go : (o : Option Snapshot) → fresh now o ≡ some v → now < v.expires_at
    go none f = cc
    go (some w) f = ground (arith, f)

pub after_cached-small :
    (now : ℕ) (t : Text) (kvs : Entries) → length (after_cached now t kvs) ≤ length kvs
after_cached-small now t kvs = elim (Option-cases (cached now t kvs)) [
  | inl missing ↦ rw missing (length-delete-le t kvs)
  | inr (v, found) ↦ rw found (
      omega (
        arith,
        length-append (delete t kvs) ((t, v) ∷ []),
        length-delete-found t kvs v (fresh-found now (find_cached t kvs) v found),
      ))
]

pub after_cached-IsKeyed :
    (now : ℕ) (t : Text) (kvs : Entries) → All IsKeyed kvs → All IsKeyed (after_cached now t kvs)
after_cached-IsKeyed now t kvs h = elim (Option-cases (cached now t kvs)) [
  | inl missing ↦ rw missing (delete-IsKeyed t kvs h)
  | inr (v, found) ↦ rw found (
      All-append IsKeyed (delete t kvs) ((t, v) ∷ []) (delete-IsKeyed t kvs h)
        (cached-address now t kvs v h found, tt))
]

length-drop {ℓ} : {A : Type ℓ} (n : ℕ) (xs : List A) → length (drop n xs) ≡ length xs - n
length-drop zero xs = omega arith
length-drop (suc n) [] = omega arith
length-drop (suc n) (x ∷ xs) = omega (arith, length-drop n xs)

All-drop {ℓ κ} : {A : Type ℓ} (P : A → Type κ) (n : ℕ) (xs : List A) → All P xs → All P (drop n xs)
All-drop P zero xs h = h
All-drop P (suc n) [] h = tt
All-drop P (suc n) (x ∷ xs) (_, h) = All-drop P n xs h

pub remember-small : (v : Snapshot) (kvs : Entries) → length (remember v kvs) ≤ 64
remember-small v kvs =
    let added = delete v.address kvs ++ (v.address, v) ∷ [] in
    omega (arith, length-drop (length added - 64) added)

pub remember-IsKeyed :
    (v : Snapshot) (kvs : Entries) → All IsKeyed kvs → All IsKeyed (remember v kvs)
remember-IsKeyed v kvs h = All-drop IsKeyed _ _ (
    All-append IsKeyed (delete v.address kvs) ((v.address, v) ∷ []) (delete-IsKeyed v.address kvs h)
      (refl, tt))
