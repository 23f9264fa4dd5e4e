-- ===== src/IpContext/Check.antt =====
-- frontend/state.js, `normalizeIPContext`: what a context must hold to be accepted for an address.
pub mod Reading
pub mod Forms
pub mod Parts
pub mod Ranges
pub mod Bytes
pub mod Sound
use revealnetworktrouble.Prelude.{
  [], ◌>>=◌, ◌>>◌, to_radix_from, decimal_from, ℕ, ◌+◌, ◌-◌, ◌*◌, ◌/◌, ◌^◌, ◌<◌, max, Bool, true,
  false, not, ◌&&◌, ◌||◌, Option, none, some, List, ◌∷◌, map, ltb, leb, ◌==◌, if◌then◌else◌, ◌>>=◌,
  ◌>>◌, guard, length, all, any, Text, codes, text_eq, split, decimal, to_radix,
}
use revealnetworktrouble.IpContext.Parts.{
  check_reverse, fact_texts, facts, texts_size, is_country, when_given, is_stamp, holds_address,
  is_mask, check_origins,
}
use revealnetworktrouble.Addresses.{Bits, Network, canonical_public_ip}
use revealnetworktrouble.IpContext.Address.{context_ip}
use revealnetworktrouble.IpContext.Json.{
  has_key, Value, Items, Fields, null, truth, num, str, arr, obj, nil, cons, end, field,
}
use revealnetworktrouble.Requests.ApiError.{is_high, is_low}
use revealnetworktrouble.IpContext.Schema.{
  is_member, words, context_object, context_array, context_int, context_stamp, context_count, timed,
  at, has, text_at, word_at, utf8_size,
}

-- `JSON.stringify`, and the characters that the service escapes besides.
abbrev pub written_size : ℕ → ℕ
written_size u =
    if any (λ c. u == c) (0x22 ∷ 0x5c ∷ 8 ∷ 9 ∷ 10 ∷ 12 ∷ 13 ∷ [])
    then 2
    else if ltb u 0x20
        || any (λ c. u == c) (b'<' ∷ b'>' ∷ b'&' ∷ 0x2028 ∷ 0x2029 ∷ [])
        || is_high u
        || is_low u
    then 6
    else utf8_size u

-- A pair of halves has four bytes, and half a pair alone is escaped.
unfoldable pub text_size : Text → ℕ
text_size [] = 0
text_size (u ∷ []) = written_size u
text_size (u ∷ v ∷ t) = elim (is_high u && is_low v) [
  | true ↦ 4 + text_size t
  | false ↦ written_size u + text_size (v ∷ t)
]

abbrev pub string_size : Text → ℕ
string_size t = 2 + text_size t

-- The bytes of a value as it is written; every item and every field has a delimiter behind it, and an empty list
-- or object the closing one alone.
unfoldable mutual
  unfolding to_radix_from text_size

  pub json_size : Value → ℕ
  json_size null = 4
  json_size (truth b) = if b then 4 else 5
  json_size (num n) = length (to_radix 10 n)
  json_size (str t) = string_size t
  json_size (arr vs) = 1 + max 1 (items_size vs)
  json_size (obj fs) = 1 + max 1 (fields_size fs)

  pub items_size : Items → ℕ
  items_size nil = 0
  items_size (cons v vs) = json_size v + 1 + items_size vs

  pub fields_size : Fields → ℕ
  fields_size end = 0
  fields_size (field k v fs) = string_size k + 1 + json_size v + 1 + fields_size fs

-- What the checks read.
pub record Registration : Type 0 where
  pub first : Bits
  pub last : Bits

pub record Route : Type 0 where
  pub network : Bits
  pub shift : ℕ

-- How long a context lasts, in milliseconds.
abbrev pub lifetime : Bool → ℕ
lifetime transient = if transient then 30000 else 300000

abbrev pub size_limit : ℕ
size_limit = 16384

module _ (url_host : Text → Option Text) (inner nonpublic : List Network) where
  abbrev pub check_range : Bits → Fields → Option Registration
  unfolding context_ip
  check_range query reg = do
    first ← text_at "start_address" reg >>= context_ip url_host
    last ← text_at "end_address" reg >>= context_ip url_host
    guard (holds_address query first last)
    some (record { first = first; last = last })

  unfoldable pub check_registration : Bits → ℕ → Value → Option (Option Registration × Bool)
  unfolding context_object timed split check_range
  check_registration query fetched v = do
    reg ←
        context_object "status source fetched_at"
          "registry start_address end_address handle name type country organization registered_at updated_at"
          v
    timed "rdap" "fetched_at" fetched reg
    status ← word_at "status" "ok not_found timeout unavailable rate_limited invalid_response" reg
    when_given "registry" (λ t. guard (is_member t "arin apnic ripe lacnic afrinic")) reg
    let known = do
      range ← check_range query reg
      size ← texts_size fact_texts reg
      when_given "country" (λ t. guard (is_country t)) reg
      guard (leb size 1536)
      when_given "registered_at" is_stamp reg
      when_given "updated_at" is_stamp reg
      some (some range, false)
    let unknown = do
      guard (all (λ k. not (has_key k reg)) (words facts))
      some (none, not (text_eq status (codes "not_found")))
    if text_eq status (codes "ok") then known else unknown

  -- The parts of a prefix, split at the slashes.
  unfoldable pub prefix_of : Bits → List Text → Option Route
  unfolding context_ip decimal_from
  prefix_of query (ip ∷ mask ∷ []) = do
    network ← context_ip url_host ip
    guard (is_mask mask && leb (decimal mask) query.width && network.width == query.width)
    let shift = query.width - decimal mask
    guard (
        network.value / 2 ^ shift * 2 ^ shift == network.value
        && query.value / 2 ^ shift == network.value / 2 ^ shift)
    some (record { network = network; shift = shift })
  prefix_of query _ = none

  unfoldable pub check_prefix : Bits → Text → Option Route
  unfolding split prefix_of
  check_prefix query t = prefix_of query (split b'/' t)

  unfoldable pub check_routing : Bits → ℕ → Value → Option ((Option Route × List ℕ) × Bool)
  unfolding context_object context_array context_int context_count timed split check_prefix
      check_origins
  check_routing query fetched v = do
    routing ← context_object "status source fetched_at origins omitted" "prefix" v
    timed "ripe_ris" "fetched_at" fetched routing
    status ←
        word_at "status" "ok limited not_found timeout unavailable rate_limited invalid_response"
          routing
    origins ← at "origins" routing >>= context_array 4
    omitted ← at "omitted" routing >>= context_int 60
    guard (context_count status omitted (length origins) 4)
    let known : Option (Option Route) = (do
      r ← text_at "prefix" routing >>= check_prefix query
      some (some r))
    let unknown : Option (Option Route) = (do guard (not (has "prefix" routing)); some none)
    route ← if is_member status "ok limited" then known else unknown
    checked ← check_origins fetched 0 origins
    some (
      (route, map (λ o. o.0) checked),
      not (is_member status "ok limited not_found") || any (λ o. o.1) checked,
    )

  -- The three parts of a context, its lifetime and its size.
  unfoldable pub check_parts : Bits → ℕ → ℕ → Fields → Value → Option Value
  unfolding check_reverse check_registration check_routing json_size
  check_parts query fetched expires root v = do
    (names, dns_transient) ← at "reverse_dns" root >>= check_reverse fetched
    (registration, facts_transient) ← at "registration" root >>= check_registration query fetched
    (route, route_transient) ← at "routing" root >>= check_routing query fetched
    guard (expires == fetched + lifetime (dns_transient || facts_transient || route_transient))
    guard (leb (json_size v + 1) size_limit)
    some v

  -- The value itself is given back: what is printed is read again.
  unfoldable pub normalize_ip_context : Value → Text → Option Value
  unfolding context_ip canonical_public_ip context_object context_int context_stamp split
      check_parts
  normalize_ip_context v requested = do
    query ← context_ip url_host requested
    canonical ← canonical_public_ip url_host inner nonpublic requested
    guard (text_eq canonical requested)
    root ←
        context_object
          "schema_version address source fetched_at expires_at reverse_dns registration routing" ""
          v
    version ← at "schema_version" root >>= context_int 1
    address ← text_at "address" root
    guard (version == 1 && text_eq address requested)
    source ← word_at "source" "upstream cache" root
    fetched ← text_at "fetched_at" root >>= context_stamp
    expires ← text_at "expires_at" root >>= context_stamp
    check_parts query fetched expires root v
