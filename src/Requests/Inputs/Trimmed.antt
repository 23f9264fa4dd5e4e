-- ===== src/Requests/Inputs/Trimmed.antt =====
-- `trim` takes nothing more from what it has trimmed.
use mathlib.Core.Path.{subst}
use revealnetworktrouble.Prelude.{
  trim_start, is_space, ℕ, ◌≡◌, refl, sym, ◌∙◌, ap, inl, inr, false, [], ◌∷◌, ◌++◌, reverse,
  Bool-cases, Text, trim,
}
use mathlib.Core.List.{reverse-cons, reverse-append, reverse-reverse}

trim_start-trim_start : (t : Text) → trim_start (trim_start t) ≡ trim_start t
unfolding trim_start
trim_start-trim_start [] = refl
trim_start-trim_start (c ∷ t) = elim (Bool-cases (is_space c)) [
  | inl e ↦ rw e (trim_start-trim_start t)
  | inr e ↦ rw (e, e) refl
]

trim_start-snoc :
    (t : Text) (c : ℕ) → is_space c ≡ false → trim_start (t ++ c ∷ []) ≡ trim_start t ++ c ∷ []
unfolding trim_start
trim_start-snoc [] c h = rw h refl
trim_start-snoc (d ∷ t) c h = elim (Bool-cases (is_space d)) [
  | inl e ↦ rw e (trim_start-snoc t c h)
  | inr e ↦ rw e refl
]

-- A text is empty or starts with a character that stays.
data Starts : Text → Type 0 where
  nothing : Starts []
  with : {c : ℕ} {t : Text} → is_space c ≡ false → Starts (c ∷ t)

trim_start-Starts : (t : Text) → Starts (trim_start t)
unfolding trim_start
trim_start-Starts [] = nothing
trim_start-Starts (c ∷ t) = elim (Bool-cases (is_space c)) [
  | inl e ↦ rw e (trim_start-Starts t)
  | inr e ↦ rw e (with e)
]

Starts-stays : (t : Text) → Starts t → trim_start t ≡ t
unfolding trim_start
Starts-stays [] nothing = refl
Starts-stays (c ∷ t) (with e) = rw e refl

-- The start stays when the end is trimmed.
end-Starts : (t : Text) → Starts t → Starts (reverse (trim_start (reverse t)))
unfolding trim_start
end-Starts [] nothing = nothing
end-Starts (c ∷ t) (with e) =
    subst Starts
      (sym (
        ap (λ s. reverse (trim_start s)) (reverse-cons c t)
        ∙ ap reverse (trim_start-snoc (reverse t) c e)
        ∙ reverse-append (trim_start (reverse t)) (c ∷ [])))
      (with e)

pub trim-trim : (t : Text) → trim (trim t) ≡ trim t
unfolding trim
trim-trim t =
    let end = trim_start (reverse (trim_start t)) in
    let stays = Starts-stays (reverse end) (end-Starts (trim_start t) (trim_start-Starts t)) in
    ap (λ s. reverse (trim_start (reverse s))) stays
    ∙ ap (λ s. reverse (trim_start s)) (reverse-reverse end)
    ∙ ap reverse (trim_start-trim_start (reverse (trim_start t)))
