-- ===== src/IpContext/ReaderTests.antt =====
-- Runs of frontend/state.js, `contextNumber`, `contextJSON`, `normalizeIPContext` and `parseIPContext`, and
-- their theorems at a whole answer.
use revealnetworktrouble.Prelude.{
  ◌∷◌, decimal_from, ℕ, ◌+◌, ◌*◌, ◌^◌, ◌≤◌, ◌≡◌, refl, true, false, Option, none, some, [], ◌++◌,
  Text, codes, decimal,
}
use revealnetworktrouble.IpContext.Number.{Parts, context_number}
use revealnetworktrouble.IpContext.Number.Exact.{context_number-exact}
use revealnetworktrouble.IpContext.Json.{null, Value, context_json}
use revealnetworktrouble.IpContext.Json.Form.{IsStrict, tokens_of}
use revealnetworktrouble.IpContext.Json.Strict.{context_json-IsStrict}
use revealnetworktrouble.Addresses.{Bits, canonical_public_ip}
use revealnetworktrouble.IpContext.Address.{context_ip}
use revealnetworktrouble.IpContext.Check.{normalize_ip_context}
use revealnetworktrouble.IpContext.Check.Sound.{normalize_ip_context-IsAccepted}
use revealnetworktrouble.IpContext.Reader.{parse_ip_context}
use revealnetworktrouble.IpContext.Check.Forms.{IsContext}

abbrev pub no_host : Text → Option Text
no_host t = none

abbrev pub answer : Text
answer =
    codes "{\"schema_version\":1,\"address\":\"8.8.8.8\",\"source\":\"cache\","
    ++ codes
        "\"fetched_at\":\"2024-01-02T03:04:05.006Z\",\"expires_at\":\"2024-01-02T03:09:05.006Z\","
    ++ codes "\"reverse_dns\":{\"status\":\"ok\",\"source\":\"system_resolver\","
    ++ codes "\"fetched_at\":\"2024-01-02T03:04:05.000Z\",\"names\":[{\"name\":\"dns.google\","
    ++ codes "\"forward_status\":\"confirmed\"}],\"omitted\":0},"
    ++ codes
        "\"registration\":{\"status\":\"ok\",\"source\":\"rdap\",\"fetched_at\":\"2024-01-02T03:04:05.001Z\","
    ++ codes "\"start_address\":\"8.8.8.0\",\"end_address\":\"8.8.8.255\",\"country\":\"US\"},"
    ++ codes
        "\"routing\":{\"status\":\"ok\",\"source\":\"ripe_ris\",\"fetched_at\":\"2024-01-02T03:04:05.002Z\","
    ++ codes "\"origins\":[{\"asn\":15169,\"rpki\":{\"status\":\"ok\",\"source\":\"ripe_rpki\","
    ++ codes "\"checked_at\":\"2024-01-02T03:04:05.003Z\",\"validity\":\"valid\"}}],\"omitted\":0,"
    ++ codes "\"prefix\":\"8.8.8.0/24\"}}"

abbrev or_null : Option Value → Value
or_null none = null
or_null (some v) = v

unfoldable pub value : Value
unfolding context_json
value = or_null (context_json answer)

reads : context_json answer ≡ some value
unfolding context_json value
reads = refl

accepts : normalize_ip_context no_host [] [] value (codes "8.8.8.8") ≡ some value
unfolding normalize_ip_context value
accepts = refl

parses : parse_ip_context no_host [] [] answer (codes "8.8.8.8") ≡ some value
unfolding parse_ip_context value
parses = refl

context_json-IsStrict_example : IsStrict 1 value × (tokens_of value ≤ 16384)
context_json-IsStrict_example = context_json-IsStrict answer value reads

normalize_ip_context-IsAccepted_example :
    (value ≡ value)
    × ((query : Bits) × (context_ip no_host (codes "8.8.8.8") ≡ some query)
        × (canonical_public_ip no_host [] [] (codes "8.8.8.8") ≡ some (codes "8.8.8.8"))
        × IsContext no_host query (codes "8.8.8.8") value)
normalize_ip_context-IsAccepted_example =
    normalize_ip_context-IsAccepted no_host [] [] value (codes "8.8.8.8") value accepts

-- Characters of two, three, four bytes and one.
abbrev emoji : Text
emoji = 0xe9 ∷ 0x20ac ∷ 0xd83d ∷ 0xde00 ∷ 0x61 ∷ []

-- 12.50e1
abbrev written : Parts
written = record {
  negative = false;
  whole = codes "12";
  fraction = codes "50";
  exponent = codes "1";
}

abbrev number : ℕ
number = 125

reads_number : context_number written ≡ some 125
unfolding context_number
reads_number = refl

context_number-exact_example :
    (125 ≤ 4294967295)
    × (false ≡ true → number ≡ 0)
    × (number * 10 ^ (2 + 0) ≡ decimal (codes "1250") * 10 ^ 1)
unfolding context_number decimal_from
context_number-exact_example = context_number-exact written 125 refl reads_number
