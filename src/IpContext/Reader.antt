-- ===== src/IpContext/Reader.antt =====
-- frontend/state.js, `parseIPContext`: from the bytes of an answer to the context that it holds.
pub mod Accepted
pub mod Characters
pub mod Utf8
use revealnetworktrouble.Prelude.{
  ◌>>=◌, ◌>>◌, [], ℕ, ◌+◌, ◌-◌, ◌*◌, ◌/◌, ◌%◌, ◌&&◌, Option, none, some, List, ◌∷◌, ◌++◌, ltb, leb,
  ◌==◌, if◌then◌else◌, guard, length, Text,
}
use revealnetworktrouble.Addresses.{Network}
use revealnetworktrouble.IpContext.Json.{Value, context_json}
use revealnetworktrouble.IpContext.Schema.{as_object, text_at, context_stamp}
use revealnetworktrouble.IpContext.Check.{normalize_ip_context, size_limit}
use revealnetworktrouble.IpContext.Controller.{Snapshot}

-- `TextDecoder`, fatal: how many bytes of a character are still to come, between which bounds the next one is,
-- and the bits so far.
pub record Decoder : Type 0 where
  pub needed : ℕ
  pub lower : ℕ
  pub upper : ℕ
  pub point : ℕ

abbrev pub between_characters : Decoder
between_characters = record { needed = 0; lower = 0x80; upper = 0xbf; point = 0 }

-- The first byte of a character of several bytes.
abbrev pub lead_byte : ℕ → Option Decoder
lead_byte b =
    if leb 0xc2 b && leb b 0xdf
    then some (record between_characters { needed = 1; point = b % 32 })
    else if leb 0xe0 b && leb b 0xef
    then some (record {
      needed = 2;
      lower = if b == 0xe0 then 0xa0 else 0x80;
      upper = if b == 0xed then 0x9f else 0xbf;
      point = b % 16;
    })
    else if leb 0xf0 b && leb b 0xf4
    then some (record {
      needed = 3;
      lower = if b == 0xf0 then 0x90 else 0x80;
      upper = if b == 0xf4 then 0x8f else 0xbf;
      point = b % 8;
    })
    else none

-- A character as UTF-16 units.
abbrev pub units_of : ℕ → Text
units_of p =
    if ltb p 0x10000
    then p ∷ []
    else (0xd800 + (p - 0x10000) / 0x400) ∷ (0xdc00 + (p - 0x10000) % 0x400) ∷ []

abbrev pub before : Text → Option Text → Option Text
before t rest = do u ← rest; some (t ++ u)

abbrev pub after_lead : (Decoder → Option Text) → Option Decoder → Option Text
after_lead more none = none
after_lead more (some d) = more d

abbrev pub next_bits : Decoder → ℕ → ℕ
next_bits d b = d.point * 64 + (b - 0x80)

unfoldable pub decode_from : Decoder → List ℕ → Option Text
decode_from d [] = if d.needed == 0 then some [] else none
decode_from d (b ∷ bs) =
    let plain = before (b ∷ []) (decode_from between_characters bs) in
    let started = after_lead (λ e. decode_from e bs) (lead_byte b) in
    let ended = before (units_of (next_bits d b)) (decode_from between_characters bs) in
    let continued =
      decode_from (record between_characters { needed = d.needed - 1; point = next_bits d b }) bs in
    if d.needed == 0
    then if ltb b 0x80 then plain else started
    else if leb d.lower b && leb b d.upper
    then if d.needed == 1 then ended else continued
    else none

-- The days from the year 0 to 1970, in milliseconds.
abbrev pub epoch : ℕ
epoch = 62167219200000

module _ (url_host : Text → Option Text) (inner nonpublic : List Network) where
  unfoldable pub parse_ip_context : List ℕ → Text → Option Value
  unfolding decode_from context_json normalize_ip_context
  parse_ip_context bytes requested = do
    guard (leb (length bytes) size_limit)
    t ← decode_from between_characters bytes
    v ← context_json t
    normalize_ip_context url_host inner nonpublic v requested

  -- What the controller keeps of it: `value.address`, and `Date.parse` of `value.expires_at`. Its clock counts
  -- from 1970, and an earlier time has passed.
  unfoldable pub read_snapshot : Text → Text → Option Snapshot
  unfolding parse_ip_context context_stamp
  read_snapshot bytes requested = do
    v ← parse_ip_context bytes requested
    root ← as_object v
    address ← text_at "address" root
    expires ← text_at "expires_at" root >>= context_stamp
    some (record { address = address; expires_at = expires - epoch; content = v })
