-- ===== src/Requests/ApiBase/Stable.antt =====
-- frontend/state.js, `canonicalAPIBase`: a canonical base is its own canonical form, on a platform whose URL
-- objects follow the URL standard.
use revealnetworktrouble.Prelude.{
  ℕ, ◌≡◌, ◌⊎◌, refl, sym, ◌∙◌, ap, inl, inr, true, false, some, [], ◌∷◌, ◌++◌, reverse, ◌==◌,
  if◌then◌else◌, guard, Bool-cases, ◌>>=◌, >>=-eq-some, guard_then, Text, trim,
}
use mathlib.Core.Path.{subst}
use mathlib.Core.Option.{some-injective}
use mathlib.Core.List.{append_assoc, reverse-cons, reverse-append, reverse-reverse}
use revealnetworktrouble.Prelude.Splitting.{NoSpace, trim-NoSpace}
use revealnetworktrouble.Requests.ApiBase.{
  UrlPlatform, drop_slashes, strip_slashes, drop_slash, strip_slash, or_root, has_http, is_bare,
  canonical_api_base,
}

reverse-snoc : (s : Text) (c : ℕ) → reverse (s ++ c ∷ []) ≡ c ∷ reverse s
reverse-snoc s c = reverse-append s (c ∷ [])

drop_slashes-cases :
    (t : Text)
    → (drop_slashes t ≡ [])
      ⊎ ((c : ℕ) × (u : Text) × (drop_slashes t ≡ c ∷ u) × ((c == b'/') ≡ false))
drop_slashes-cases [] = inl refl
drop_slashes-cases (c ∷ t) = elim (Bool-cases (c == b'/')) [
  | inl e ↦ rw e (drop_slashes-cases t)
  | inr e ↦ inr (c, t, ap (λ b. if b then drop_slashes t else c ∷ t) e, e)
]

strip_slashes-other :
    (s : Text) (c : ℕ) → (c == b'/') ≡ false → strip_slashes (s ++ c ∷ []) ≡ s ++ c ∷ []
strip_slashes-other s c e =
    ap (λ t. reverse (drop_slashes t)) (reverse-snoc s c)
    ∙ ap (λ b. reverse (if b then drop_slashes (reverse s) else c ∷ reverse s)) e
    ∙ reverse-cons c (reverse s)
    ∙ ap (λ t. t ++ c ∷ []) (reverse-reverse s)

strip_slash-other :
    (s : Text) (c : ℕ) → (c == b'/') ≡ false → strip_slash (s ++ c ∷ []) ≡ s ++ c ∷ []
strip_slash-other s c e =
    ap (λ t. reverse (drop_slash t)) (reverse-snoc s c)
    ∙ ap (λ b. reverse (if b then reverse s else c ∷ reverse s)) e
    ∙ reverse-cons c (reverse s)
    ∙ ap (λ t. t ++ c ∷ []) (reverse-reverse s)

pub strip_slash-slash : (s : Text) → strip_slash (s ++ b'/' ∷ []) ≡ s
strip_slash-slash s = ap (λ t. reverse (drop_slash t)) (reverse-snoc s b'/') ∙ reverse-reverse s

or_root-snoc : (s : Text) (c : ℕ) → or_root (s ++ c ∷ []) ≡ s ++ c ∷ []
or_root-snoc [] c = refl
or_root-snoc (d ∷ s) c = refl

-- A path without the slashes at its end.
abbrev path_of : Text → Text
path_of t = or_root (strip_slashes t)

path_of-cases :
    (t : Text)
    → (path_of t ≡ b'/' ∷ [])
      ⊎ ((s : Text) × (c : ℕ) × (path_of t ≡ s ++ c ∷ []) × ((c == b'/') ≡ false))
path_of-cases t = elim (drop_slashes-cases (reverse t)) [
  | inl e ↦ inl (ap (λ r. or_root (reverse r)) e)
  | inr (c, u, e, other) ↦ inr (
    reverse u,
    c,
    ap (λ r. or_root (reverse r)) e ∙ ap or_root (reverse-cons c u) ∙ or_root-snoc (reverse u) c,
    other,
  )
]

path_of-again : (t : Text) → path_of (path_of t) ≡ path_of t
path_of-again t = elim (path_of-cases t) [
  | inl e ↦ ap path_of e ∙ sym e
  | inr (s, c, e, other) ↦
      ap path_of e ∙ ap or_root (strip_slashes-other s c other) ∙ or_root-snoc s c ∙ sym e
]

NoSpace-front : (s t : Text) → NoSpace (s ++ t) → NoSpace s
NoSpace-front [] t h = tt
NoSpace-front (c ∷ s) t (p, h) = (p, NoSpace-front s t h)

module _ {U : Type 0} (platform : UrlPlatform U) where
  -- A URL that a base may have.
  abbrev pub IsPlain : U → Type 0
  IsPlain url = (has_http platform url ≡ true) × (is_bare platform url ≡ true)

  -- What the URL standard says of the URL objects that are used here. The setter of the path changes nothing
  -- else, sets the own path without slashes at its end as it is, and with the own path changes nothing; without a
  -- query and a fragment a URL is written with its path at the end, without spaces, and read back; and without a
  -- path it is read with the path `/`.
  pub record IsStandard : Type 0 where
    pub kept : (path : Text) (url : U) → IsPlain url → IsPlain (platform.with_pathname path url)
    pub shortened :
        (url : U)
        → IsPlain url
        → platform.pathname (platform.with_pathname (path_of (platform.pathname url)) url)
          ≡ path_of (platform.pathname url)
    pub same : (url : U) → IsPlain url → platform.with_pathname (platform.pathname url) url ≡ url
    pub written :
        (url : U)
        → IsPlain url
        → (front : Text) × (platform.to_string url ≡ front ++ platform.pathname url)
    pub clean : (url : U) → IsPlain url → NoSpace (platform.to_string url)
    pub read : (url : U) → IsPlain url → platform.parse (platform.to_string url) ≡ some url
    pub read_root :
        (url : U) (front : Text)
        → IsPlain url
        → platform.pathname url ≡ b'/' ∷ []
        → platform.to_string url ≡ front ++ b'/' ∷ []
        → platform.parse front ≡ some url

  read_back :
      IsStandard
      → (url : U) (path : Text) → IsPlain url
      → platform.pathname url ≡ path_of path
      → platform.parse (trim (strip_slash (platform.to_string url))) ≡ some url
  read_back laws url path plain own =
      let (front, text) = laws.written url plain in
      let clean = laws.clean url plain in
      elim (path_of-cases path) [
        | inl root ↦
            let short = text ∙ ap (λ p. front ++ p) (own ∙ root) in
            let no_space = NoSpace-front front (b'/' ∷ []) (subst NoSpace short clean) in
            ap (λ t. platform.parse (trim (strip_slash t))) short
            ∙ ap (λ t. platform.parse (trim t)) (strip_slash-slash front)
            ∙ ap platform.parse (trim-NoSpace front no_space)
            ∙ laws.read_root url front plain (own ∙ root) short
        | inr (s, c, e, other) ↦
            let long : platform.to_string url ≡ (front ++ s) ++ c ∷ [] =
              text ∙ ap (λ p. front ++ p) (own ∙ e) ∙ sym (append_assoc front s (c ∷ [])) in
            ap (λ t. platform.parse (trim t))
              (ap strip_slash long ∙ strip_slash-other (front ++ s) c other ∙ sym long)
            ∙ ap platform.parse (trim-NoSpace (platform.to_string url) clean)
            ∙ laws.read url plain
      ]

  pub canonical_api_base-again :
      IsStandard
      → (t b : Text) → canonical_api_base platform t ≡ some b
      → canonical_api_base platform b ≡ some b
  unfolding canonical_api_base
  canonical_api_base-again laws t b h =
      let (url, _, h1) = >>=-eq-some (platform.parse (trim t)) _ h in
      let (http, h2) = guard_then (has_http platform url) _ h1 in
      let (bare, h3) = guard_then (is_bare platform url) _ h2 in
      let path = path_of (platform.pathname url) in
      let set = platform.with_pathname path url in
      let plain = laws.kept path url (http, bare) in
      let own = laws.shortened url (http, bare) in
      let (set_http, set_bare) = plain in
      let again : platform.with_pathname (path_of (platform.pathname set)) set ≡ set =
        ap (λ p. platform.with_pathname p set)
          (ap path_of own ∙ path_of-again (platform.pathname url) ∙ sym own)
        ∙ laws.same set plain in
      let back = read_back laws set (platform.pathname url) plain own in
      subst (λ x. canonical_api_base platform x ≡ some x) (some-injective _ _ h3)
        (ap
            (λ o. o >>= λ u. guard (has_http platform u) >>= λ _.
              guard (is_bare platform u) >>= λ _. some (
                strip_slash
                  (platform.to_string (platform.with_pathname (path_of (platform.pathname u)) u))))
            back
          ∙ ap
              (λ x. guard x >>= λ _. guard (is_bare platform set) >>= λ _. some (
                strip_slash (
                  platform.to_string
                    (platform.with_pathname (path_of (platform.pathname set)) set))))
              set_http
          ∙ ap
              (λ x. guard x >>= λ _. some (
                strip_slash (
                  platform.to_string
                    (platform.with_pathname (path_of (platform.pathname set)) set))))
              set_bare
          ∙ ap (λ u. some (strip_slash (platform.to_string u))) again)
