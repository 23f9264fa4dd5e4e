-- ===== src/IpContext/Controller/Map.antt =====
-- frontend/state.js, `createIPContextController`: the cache as a map from addresses to answers.
use revealnetworktrouble.Prelude.{
  ◌↔◌, leb, ◌<◌, text_eq_self, eq_of_text_eq, if_holds, ℕ, zero, suc, ◌-◌, ◌≤◌, ◌≡◌, ◌⊎◌, refl, sym,
  ◌∙◌, ap, inl, inr, Bool, true, false, Option, none, some, List, [], ◌∷◌, ◌++◌, arith, dec_lt,
  if◌then◌else◌, Bool-cases, Option-cases, or_else, length, drop, length-append, Text, text_eq,
}
use mathlib.Core.Path.{subst}
use mathlib.Core.Option.{some-injective}
use revealnetworktrouble.IpContext.Controller.Cache.{remember-small}
use revealnetworktrouble.IpContext.Controller.{
  Snapshot, find_cached, delete, fresh, cached, after_cached, remember,
}

abbrev Entries : Type 0
Entries = List (Text × Snapshot)

same_text : (s t k : Text) → text_eq s t ≡ true → text_eq s k ≡ text_eq t k
same_text s t k h = ap (λ (x : Text). text_eq x k) (eq_of_text_eq s t h)

same_key : (t s k : Text) → text_eq s k ≡ true → text_eq t s ≡ text_eq t k
same_key t s k h = ap (λ (x : Text). text_eq t x) (eq_of_text_eq s k h)

-- The map without a key, and with a value at a key.
abbrev pub without_key : Text → (Text → Option Snapshot) → Text → Option Snapshot
without_key s m t = if text_eq t s then none else m t

abbrev pub with_key : Text → Option Snapshot → (Text → Option Snapshot) → Text → Option Snapshot
with_key s o m t = if text_eq t s then o else m t

abbrev pub view : Entries → Text → Option Snapshot
view kvs t = find_cached t kvs

view-delete : (t s : Text) (kvs : Entries) → view (delete s kvs) t ≡ without_key s (view kvs) t
view-delete t s [] =
    if_holds (λ (x : Option Snapshot). none ≡ x) (text_eq t s) none none (λ _. refl) (λ _. refl)
view-delete t s ((k, v) ∷ kvs) = elim (Bool-cases (text_eq s k)) [
  | inl e ↦
      let same = same_key t s k e in
      let later = view-delete t s kvs in
      elim (Bool-cases (text_eq t s)) [
        | inl h ↦ rw (e, h) (rw h at later)
        | inr h ↦ let other : text_eq t k ≡ false = sym same ∙ h in rw (e, h, other) (rw h at later)
      ]
  | inr e ↦
      let later = view-delete t s kvs in
      elim (Bool-cases (text_eq t s)) [
        | inl h ↦
            let other : text_eq t k ≡ false = same_text t s k h ∙ e in
            rw (e, h, other) (rw h at later)
        | inr h ↦ rw (e, h, rw h at later) refl
      ]
]

view-append :
    (t s : Text) (v : Snapshot) (kvs : Entries)
    → view (kvs ++ (s, v) ∷ []) t ≡ or_else (view kvs t) (if text_eq t s then some v else none)
view-append t s v [] = refl
view-append t s v ((k, w) ∷ kvs) = elim (Bool-cases (text_eq t k)) [
  | inl h ↦ rw h refl
  | inr h ↦ rw h (view-append t s v kvs)
]

or_none : (o : Option Snapshot) → or_else o none ≡ o
or_none none = refl
or_none (some v) = refl

-- A look-up forgets an answer that has expired, and changes nothing else.
pub view-after_cached :
    (now : ℕ) (a t : Text) (kvs : Entries)
    → view (after_cached now a kvs) t ≡ with_key a (cached now a kvs) (view kvs) t
view-after_cached now a t kvs =
    let gone = view-delete t a kvs in
    elim (Option-cases (cached now a kvs)) [
      | inl missing ↦ rw missing gone
      | inr (v, found) ↦ rw found (
          view-append t a v (delete a kvs)
          ∙ elim (Bool-cases (text_eq t a))
              as (λ _.
                or_else (view (delete a kvs) t) (if text_eq t a then some v else none)
                ≡ with_key a (some v) (view kvs) t) [
                  | inl h ↦ rw (h, rw h at gone) refl
                  | inr h ↦ rw (h, rw h at gone) (or_none (view kvs t))
                ])
    ]

view-added :
    (t : Text) (v : Snapshot) (kvs : Entries)
    → view (delete v.address kvs ++ (v.address, v) ∷ []) t
      ≡ with_key v.address (some v) (view kvs) t
view-added t v kvs =
    let gone = view-delete t v.address kvs in
    view-append t v.address v (delete v.address kvs)
    ∙ elim (Bool-cases (text_eq t v.address))
        as (λ _.
          or_else (view (delete v.address kvs) t) (if text_eq t v.address then some v else none)
          ≡ with_key v.address (some v) (view kvs) t) [
            | inl h ↦ rw (h, rw h at gone) refl
            | inr h ↦ rw (h, rw h at gone) (or_none (view kvs t))
          ]

drop-append : (n : ℕ) (xs ys : Entries) → n ≤ length xs → drop n (xs ++ ys) ≡ drop n xs ++ ys
drop-append zero xs ys le = refl
drop-append (suc n) [] ys le = absurd (omega (arith, le))
drop-append (suc n) (x ∷ xs) ys le = drop-append n xs ys (omega (arith, le))

view-drop : (n : ℕ) (t : Text) (kvs : Entries) → view kvs t ≡ none → view (drop n kvs) t ≡ none
view-drop zero t kvs h = h
view-drop (suc n) t [] h = refl
view-drop (suc n) t ((k, v) ∷ kvs) h = elim (Bool-cases (text_eq t k)) [
  | inl e ↦ let found : some v ≡ none = rw e at h in cc
  | inr e ↦ view-drop n t kvs (rw e at h)
]

none_if : (b : Bool) (o : Option Snapshot) → b ≡ true → (if b then none else o) ≡ none
none_if b o h = rw h refl

view-deleted : (a : Text) (kvs : Entries) → view (delete a kvs) a ≡ none
view-deleted a kvs = view-delete a a kvs ∙ none_if (text_eq a a) (view kvs a) (text_eq_self a)

view-remember_self : (v : Snapshot) (kvs : Entries) → view (remember v kvs) v.address ≡ some v
view-remember_self v kvs =
    let a = v.address in
    let xs = delete a kvs in
    let n = length (xs ++ (a, v) ∷ []) - 64 in
    let size = length-append xs ((a, v) ∷ []) in
    let itself : text_eq a a ≡ true = text_eq_self a in
    let gone : view xs a ≡ none = view-deleted a kvs in
    ap (λ (x : Entries). view x a) (drop-append n xs ((a, v) ∷ []) (omega (arith, size)))
    ∙ view-append a a v (drop n xs)
    ∙ rw (view-drop n a xs gone, itself) refl

view-remember :
    (t : Text) (v : Snapshot) (kvs : Entries)
    → length (delete v.address kvs) < 64
    → view (remember v kvs) t ≡ with_key v.address (some v) (view kvs) t
view-remember t v kvs lt =
    let added = delete v.address kvs ++ (v.address, v) ∷ [] in
    let size = length-append (delete v.address kvs) ((v.address, v) ∷ []) in
    let whole : length added - 64 ≡ 0 = omega (arith, size, lt) in
    ap (λ (n : ℕ). view (drop n added) t) whole ∙ view-added t v kvs

-- An answer that has not expired is kept by `fresh`, and no other.
fresh-alive :
    (now : ℕ) (o : Option Snapshot) (w : Snapshot)
    → fresh now o ≡ some w
    → (o ≡ some w) × (now < w.expires_at)
fresh-alive now none w h = cc
fresh-alive now (some v) w h =
    if_holds (λ (x : Option Snapshot). x ≡ some w → (some v ≡ some w) × (now < w.expires_at))
      (leb v.expires_at now) none (some v) (λ _ q. cc)
      (λ late q.
        subst (λ (x : Snapshot). (some v ≡ some x) × (now < x.expires_at)) (some-injective v w q)
          (refl, ground (arith, late)))
      h

alive-fresh :
    (now : ℕ) (o : Option Snapshot) (w : Snapshot)
    → o ≡ some w
    → now < w.expires_at
    → fresh now o ≡ some w
alive-fresh now o w e lt =
    let early : leb w.expires_at now ≡ false = ground (arith, lt) in
    ap (fresh now) e ∙ (let kept : fresh now (some w) ≡ some w = rw early refl in kept)

-- The cache is a map from addresses to answers. A look-up of an address gives an answer exactly if it is stored and
-- expires after the time now; it leaves at the address what it gives, and changes nothing else. An answer that is
-- stored is found, in at most 64 entries; and storing it changes no other address, unless 64 others are stored.
pub cache-IsMap :
    (now : ℕ) (a t : Text) (v w : Snapshot) (kvs : Entries)
    → ((cached now a kvs ≡ some w) ↔ ((view kvs a ≡ some w) × (now < w.expires_at)))
      × (view (after_cached now a kvs) t ≡ with_key a (cached now a kvs) (view kvs) t)
      × (view (remember v kvs) v.address ≡ some v)
      × (length (remember v kvs) ≤ 64)
      × ((view (remember v kvs) t ≡ with_key v.address (some v) (view kvs) t)
          ⊎ (64 ≤ length (delete v.address kvs)))
cache-IsMap now a t v w kvs = (
  (fresh-alive now (view kvs a) w, λ h. alive-fresh now (view kvs a) w h.0 h.1),
  view-after_cached now a t kvs,
  view-remember_self v kvs,
  remember-small v kvs,
  elim (dec_lt (length (delete v.address kvs)) 64) [
    | yes few ↦ inl (view-remember t v kvs few)
    | no many ↦ inr (omega (arith, many))
  ],
)
