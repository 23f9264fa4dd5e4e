-- ===== src/IpContext/Parts.antt =====
-- frontend/state.js, `normalizeIPContext`: the checks of the names, the facts and the origins of a context.
use revealnetworktrouble.Prelude.{
  ℕ, ◌+◌, ◌-◌, Bool, true, false, not, ◌&&◌, ◌||◌, Option, some, List, [], ◌∷◌, map, String, ltb,
  leb, ◌==◌, if◌then◌else◌, ◌>>=◌, ◌>>◌, guard, length, is_nil, get_or, all, any, Text, codes,
  text_eq, split, is_digit,
}
use revealnetworktrouble.Addresses.{Bits}
use revealnetworktrouble.IpContext.Json.{Value, Fields, is_scalar}
use revealnetworktrouble.IpContext.Schema.{
  is_member, context_object, context_array, context_int, context_stamp, context_count, timed, at,
  has, text_at, word_at, utf8_length,
}

-- The code's comparison of texts, unit by unit.
abbrev pub precedes : Text → Text → Bool
precedes t [] = false
precedes [] (v ∷ u) = true
precedes (c ∷ t) (d ∷ u) = let later = precedes t u in if c == d then later else ltb c d

abbrev pub is_label_unit : ℕ → Bool
is_label_unit c = leb b'a' c && leb c b'z' || is_digit c || c == b'_'

-- `/^[a-z0-9_](?:[a-z0-9_-]*[a-z0-9_])?$/` of at most 63 units.
abbrev pub is_label : Text → Bool
is_label t =
    leb 1 (length t)
    && leb (length t) 63
    && is_label_unit (get_or t 0 0)
    && all (λ c. is_label_unit c || c == b'-') t
    && is_label_unit (get_or t (length t - 1) 0)

-- A name, and whether the answer about it may change soon.
unfoldable pub check_names : Text → List Value → Option (List (Text × Bool))
unfolding context_object split
check_names previous [] = some []
check_names previous (v ∷ vs) = do
  n ← context_object "name forward_status" "" v
  name ← text_at "name" n
  guard (leb (length name) 253 && precedes previous name && all is_label (split b'.' name))
  status ←
      word_at "forward_status"
        "confirmed mismatch not_found timeout unavailable invalid_response limited" n
  others ← check_names name vs
  some ((name, not (is_member status "confirmed mismatch not_found limited")) ∷ others)

-- A part of a context: what it says, and whether it is transient.
unfoldable pub check_reverse : ℕ → Value → Option (List Text × Bool)
unfolding context_object context_array context_int context_count timed split check_names
check_reverse fetched v = do
  rev ← context_object "status source fetched_at names omitted" "" v
  timed "system_resolver" "fetched_at" fetched rev
  status ← word_at "status" "ok limited not_found timeout unavailable invalid_response" rev
  names ← at "names" rev >>= context_array 8
  omitted ← at "omitted" rev >>= context_int 56
  guard (context_count status omitted (length names) 8)
  checked ← check_names [] names
  some (
    map (λ n. n.0) checked,
    not (is_member status "ok limited not_found") || any (λ n. n.1) checked,
  )

abbrev pub fact_texts : List String
fact_texts = "handle" ∷ "name" ∷ "type" ∷ "country" ∷ "organization" ∷ []

abbrev pub facts : String
facts = "start_address end_address handle name type country organization registered_at updated_at"

-- The bytes of a fact, if it is given.
abbrev pub text_size : Text → Option ℕ
text_size t = do
  guard (is_scalar t && not (is_nil t) && leb (utf8_length t) 256)
  some (utf8_length t)

abbrev pub texts_size : List String → Fields → Option ℕ
texts_size [] fs = some 0
texts_size (k ∷ ks) fs = do
  others ← texts_size ks fs
  size ← if has k fs then text_at k fs >>= text_size else some 0
  some (size + others)

-- `/^[A-Z]{2}$/`
abbrev pub is_country : Text → Bool
is_country t = length t == 2 && all (λ c. leb b'A' c && leb c b'Z') t

abbrev pub when_given : String → (Text → Option (Unit {0})) → Fields → Option (Unit {0})
when_given k check fs = if has k fs then text_at k fs >>= check else some tt

abbrev pub is_stamp : Text → Option (Unit {0})
unfolding context_stamp
is_stamp t = do time ← context_stamp t; some tt

-- The first and the last address of a registration.
abbrev pub holds_address : Bits → Bits → Bits → Bool
holds_address query first last =
    first.width == query.width
    && last.width == query.width
    && leb first.value query.value
    && leb query.value last.value

-- `/^(0|[1-9]\d{0,2})$/`
abbrev pub is_mask : Text → Bool
is_mask [] = false
is_mask (c ∷ t) =
    c == b'0' && is_nil t || leb b'1' c && leb c b'9' && all is_digit t && leb (length t) 2

-- An origin of a route, and whether its validation is missing.
unfoldable pub check_rpki : ℕ → Value → Option Bool
unfolding context_object timed split
check_rpki fetched v = do
  rpki ← context_object "status source checked_at" "validity" v
  timed "ripe_rpki" "checked_at" fetched rpki
  status ← word_at "status" "ok timeout unavailable rate_limited invalid_response" rpki
  if text_eq status (codes "ok")
      then (do
        validity ← word_at "validity" "valid invalid_asn invalid_length unknown" rpki
        some false)
      else (do guard (not (has "validity" rpki)); some true)

unfoldable pub check_origins : ℕ → ℕ → List Value → Option (List (ℕ × Bool))
unfolding context_object context_int check_rpki
check_origins fetched previous [] = some []
check_origins fetched previous (v ∷ vs) = do
  origin ← context_object "asn rpki" "" v
  asn ← at "asn" origin >>= context_int 4294967295
  guard (ltb previous asn)
  missing ← at "rpki" origin >>= check_rpki fetched
  others ← check_origins fetched asn vs
  some ((asn, missing) ∷ others)
