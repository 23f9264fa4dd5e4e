-- ===== src/Requests/ApiBase.antt =====
-- frontend/state.js, `canonicalAPIBase`. The URL objects of the platform are a parameter.
pub mod Stable
use revealnetworktrouble.Prelude.{
  ◌>>=◌, ◌>>◌, [], Option, some, ◌∷◌, reverse, ◌==◌, if◌then◌else◌, ◌&&◌, ◌||◌, Bool, guard, is_nil,
  Text, codes, text_eq, trim,
}

-- `new URL`, its parts, the setter of its path and its `toString`.
pub record UrlPlatform (U : Type 0) : Type 0 where
  pub parse : Text → Option U
  pub protocol : U → Text
  pub username : U → Text
  pub password : U → Text
  pub pathname : U → Text
  pub search : U → Text
  pub hash : U → Text
  pub with_pathname : Text → U → U
  pub to_string : U → Text

abbrev pub drop_slashes : Text → Text
drop_slashes [] = []
drop_slashes (c ∷ t) = let rest = drop_slashes t in if c == b'/' then rest else c ∷ t

-- `.replace(/\/+$/, '')`
abbrev pub strip_slashes : Text → Text
strip_slashes t = reverse (drop_slashes (reverse t))

abbrev pub drop_slash : Text → Text
drop_slash [] = []
drop_slash (c ∷ t) = if c == b'/' then t else c ∷ t

-- `.replace(/\/$/, '')`
abbrev pub strip_slash : Text → Text
strip_slash t = reverse (drop_slash (reverse t))

-- `|| '/'`
abbrev pub or_root : Text → Text
or_root [] = b'/' ∷ []
or_root (c ∷ t) = c ∷ t

module _ {U : Type 0} (platform : UrlPlatform U) where
  abbrev pub has_http : U → Bool
  has_http url =
      text_eq (platform.protocol url) (codes "http:")
      || text_eq (platform.protocol url) (codes "https:")

  abbrev pub is_bare : U → Bool
  is_bare url =
      is_nil (platform.username url)
      && is_nil (platform.password url)
      && is_nil (platform.search url)
      && is_nil (platform.hash url)

  -- `none` is a base that is refused.
  unfoldable pub canonical_api_base : Text → Option Text
  canonical_api_base value = do
    url ← platform.parse (trim value)
    guard (has_http url)
    guard (is_bare url)
    let path = or_root (strip_slashes (platform.pathname url))
    some (strip_slash (platform.to_string (platform.with_pathname path url)))
