-- ===== src/IpContext/Check/Forms.antt =====
-- frontend/state.js, `normalizeIPContext`: what the parts of an accepted context say, read off its value.
use revealnetworktrouble.Prelude.{
  ℕ, true, Bool, List, Option, some, not, if◌then◌else◌, ◌≡◌, ◌≤◌, ◌<◌, ◌+◌, ◌-◌, ◌*◌, ◌/◌, ◌^◌, [],
  ◌∷◌, length, all, ◌&&◌, ◌||◌, ◌>>=◌, Text, split, decimal,
}
use revealnetworktrouble.Addresses.{Bits}
use revealnetworktrouble.IpContext.Address.{context_ip}
use revealnetworktrouble.IpContext.Json.{Value, Fields}
use revealnetworktrouble.IpContext.Schema.{as_object, at, text_at, context_stamp}
use revealnetworktrouble.IpContext.Parts.{precedes}
use revealnetworktrouble.IpContext.Check.Reading.{
  list_in, is_one_of, each, name_of, asn_of, is_steady_name, is_steady_origin, json_bytes,
}

unfoldable pub AreOrdered : Text → List Text → Type 0
AreOrdered previous [] = Unit {0}
AreOrdered previous (t ∷ ts) = (precedes previous t ≡ true) × AreOrdered t ts

unfoldable pub AreAscending : ℕ → List ℕ → Type 0
AreAscending previous [] = Unit {0}
AreAscending previous (n ∷ ns) = (previous < n) × (n ≤ 4294967295) × AreAscending n ns

-- The part about names.
pub record HoldsNames (v : Value) (transient : Bool) : Type 0 where
  pub fields : Fields
  pub fields_eq : as_object v ≡ some fields
  pub items : List Value
  pub items_eq : list_in "names" fields ≡ some items
  pub names : List Text
  pub names_eq : each name_of items ≡ some names
  pub ordered : AreOrdered [] names
  pub few : length items ≤ 8
  pub transient_eq :
      transient
      ≡ not (is_one_of "ok limited not_found" (text_at "status" fields) && all is_steady_name items)

module _ (url_host : Text → Option Text) (query : Bits) where
  -- A range of addresses, from the start that is given to an end.
  unfoldable pub RangeHolds : Fields → Type 0
  unfolding context_ip
  RangeHolds fields =
      (t : Text)
      → text_at "start_address" fields ≡ some t
      → (first : Bits) × (last : Bits) × (context_ip url_host t ≡ some first)
        × ((text_at "end_address" fields >>= context_ip url_host) ≡ some last)
        × (first.width ≡ query.width)
        × (last.width ≡ query.width)
        × (first.value ≤ query.value)
        × (query.value ≤ last.value)

  -- A prefix that is given: an address with zeros behind the prefix, and the number of its bits.
  unfoldable pub PrefixHolds : Fields → Type 0
  unfolding context_ip split
  PrefixHolds fields =
      (t : Text)
      → text_at "prefix" fields ≡ some t
      → (ip : Text) × (mask : Text) × (network : Bits) × (split b'/' t ≡ ip ∷ mask ∷ [])
        × (context_ip url_host ip ≡ some network)
        × (network.width ≡ query.width)
        × (decimal mask ≤ query.width)
        × (query.value / 2 ^ (query.width - decimal mask) * 2 ^ (query.width - decimal mask)
            ≡ network.value)

  -- The part about the registration.
  pub record HoldsRange (v : Value) (transient : Bool) : Type 0 where
    pub fields : Fields
    pub fields_eq : as_object v ≡ some fields
    pub range : RangeHolds fields
    pub transient_eq : transient ≡ not (is_one_of "ok not_found" (text_at "status" fields))

  -- The part about routing.
  pub record HoldsRoute (v : Value) (transient : Bool) : Type 0 where
    pub fields : Fields
    pub fields_eq : as_object v ≡ some fields
    pub items : List Value
    pub items_eq : list_in "origins" fields ≡ some items
    pub origins : List ℕ
    pub origins_eq : each asn_of items ≡ some origins
    pub ascending : AreAscending 0 origins
    pub few : length items ≤ 4
    pub prefix : PrefixHolds fields
    pub transient_eq :
        transient
        ≡ not (
            is_one_of "ok limited not_found" (text_at "status" fields)
            && all is_steady_origin items)

  -- A context about an address.
  pub record IsContext (requested : Text) (v : Value) : Type 0 where
    pub root : Fields
    pub root_eq : as_object v ≡ some root
    pub address_eq : text_at "address" root ≡ some requested
    pub reverse_dns : Value
    pub registration : Value
    pub routing : Value
    pub reverse_dns_eq : at "reverse_dns" root ≡ some reverse_dns
    pub registration_eq : at "registration" root ≡ some registration
    pub routing_eq : at "routing" root ≡ some routing
    pub names_transient : Bool
    pub facts_transient : Bool
    pub route_transient : Bool
    pub names : HoldsNames reverse_dns names_transient
    pub range : HoldsRange registration facts_transient
    pub route : HoldsRoute routing route_transient
    pub fetched : ℕ
    pub expires : ℕ
    pub fetched_eq : (text_at "fetched_at" root >>= context_stamp) ≡ some fetched
    pub expires_eq : (text_at "expires_at" root >>= context_stamp) ≡ some expires
    pub lasts :
        expires
        ≡ fetched
          + (if names_transient || facts_transient || route_transient then 30000 else 300000)
    pub small : length (json_bytes v) + 1 ≤ 16384
