-- ===== src/IpContext/Reader/Utf8.antt =====
-- frontend/state.js, `parseIPContext`: what `TextDecoder` reads from the bytes of a text.
use revealnetworktrouble.Prelude.{
  ℕ, ◌+◌, ◌-◌, ◌*◌, ◌<◌, Bool, true, false, ◌&&◌, List, [], ◌∷◌, ◌++◌, All, Text,
}
use revealnetworktrouble.Requests.ApiError.{is_high, is_low}
use revealnetworktrouble.IpContext.Reader.Characters.{unit_utf8, pair_utf8}

-- The bytes of a text whose halves stand in pairs.
unfoldable pub text_utf8 : Text → List ℕ
text_utf8 [] = []
text_utf8 (u ∷ []) = unit_utf8 u
text_utf8 (u ∷ v ∷ t) = elim (is_high u && is_low v) [
  | true ↦ pair_utf8 (0x10000 + (u - 0xd800) * 1024 + (v - 0xdc00)) ++ text_utf8 t
  | false ↦ unit_utf8 u ++ text_utf8 (v ∷ t)
]

-- Units of 16 bits.
abbrev pub AreUnits : Text → Type 0
AreUnits t = All (λ u. u < 0x10000) t

abbrev bytes_at : ℕ → ℕ → Text → Bool → List ℕ
bytes_at u v t together = elim together [
  | true ↦ pair_utf8 (0x10000 + (u - 0xd800) * 1024 + (v - 0xdc00)) ++ text_utf8 t
  | false ↦ unit_utf8 u ++ text_utf8 (v ∷ t)
]
