-- ===== src/Prelude/Splitting.antt =====
-- `split` takes apart what `join` put together; `trim` leaves a text without spaces alone.
use Prim.Native.Nat.{ℕ, zero, suc, ◌<◌}
use mathlib.Core.Path.{◌≡◌, refl, ◌∙◌, ap}
use mathlib.Core.Bool.{Bool, true, false, ◌&&◌}
use mathlib.Core.List.{List, [], ◌∷◌, ◌++◌, reverse, reverse-reverse, reverse_aux}
use native.Mathlib.Omega.{arith}
use revealnetworktrouble.Prelude.Tests.{◌==◌}
use revealnetworktrouble.Prelude.Lists.{All}
use revealnetworktrouble.Prelude.Texts.{Text, split, join, is_space, trim_start, trim}

-- No unit of the text is the separator.
abbrev pub Free : ℕ → Text → Type 0
Free sep t = All (λ c. (c == sep) ≡ false) t

pub split-Free : (sep : ℕ) (t : Text) → Free sep t → split sep t ≡ t ∷ []
unfolding split
split-Free sep [] h = refl
split-Free sep (c ∷ t) (p, h) = rw (p, split-Free sep t h)

pub split-append :
    (sep : ℕ) (p rest : Text) → Free sep p → split sep (p ++ sep ∷ rest) ≡ p ∷ split sep rest
unfolding split
split-append sep [] rest h = ground arith
split-append sep (c ∷ p) rest (q, h) = rw (q, split-append sep p rest h)

-- Splitting gives back the parts, if no part holds the separator.
pub split-join :
    (sep : ℕ) (p : Text) (ps : List Text)
    → All (Free sep) (p ∷ ps)
    → split sep (join sep (p ∷ ps)) ≡ p ∷ ps
unfolding join
split-join sep p [] h = split-Free sep p h.0
split-join sep p (q ∷ ps) (h, hs) =
    split-append sep p (join sep (q ∷ ps)) h ∙ ap (p ∷◌) (split-join sep q ps hs)

abbrev pub NoSpace : Text → Type 0
NoSpace t = All (λ c. is_space c ≡ false) t

trim_start-NoSpace : (t : Text) → NoSpace t → trim_start t ≡ t
unfolding trim_start
trim_start-NoSpace [] h = refl
trim_start-NoSpace (c ∷ t) (p, h) = rw p

NoSpace-reverse_aux : (s t : Text) → NoSpace s → NoSpace t → NoSpace (reverse_aux s t)
NoSpace-reverse_aux [] t _ k = k
NoSpace-reverse_aux (c ∷ s) t (p, h) k = NoSpace-reverse_aux s (c ∷ t) h (p, k)

pub trim-NoSpace : (t : Text) → NoSpace t → trim t ≡ t
unfolding trim
trim-NoSpace t h =
    rw (trim_start-NoSpace t h, trim_start-NoSpace (reverse t) (NoSpace-reverse_aux t [] h tt))
      (reverse-reverse t)

-- A test that holds at every number below a bound, found by running it at each.
unfoldable pub tested : ℕ → (ℕ → Bool) → Bool
tested zero test = true
tested (suc k) test = test k && tested k test

pub tested_at :
    (bound i : ℕ) (test : ℕ → Bool) → i < bound → tested bound test ≡ true → test i ≡ true
unfolding tested
tested_at zero i test lt t = elim lt [ ]
tested_at (suc k) i test lt t = ground (arith, tested_at k i test)
