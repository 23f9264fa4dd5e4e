-- ===== src/IpContext/Check/Sound.antt =====
-- frontend/state.js, `normalizeIPContext`: what an accepted context says about its address.
use revealnetworktrouble.Prelude.{
  eq_of_text_eq, ℕ, ◌+◌, ◌≤◌, ◌≡◌, sym, ◌∙◌, ap, ◌&&◌, ◌||◌, Option, some, List, leb, ◌==◌, leb→le,
  ==_iff, ◌>>=◌, >>=-eq-some, guard_then, Text, text_eq,
}
use mathlib.Core.Path.{subst}
use mathlib.Core.Option.{some-injective}
use revealnetworktrouble.Addresses.{Bits, Network, canonical_public_ip}
use revealnetworktrouble.IpContext.Address.{context_ip}
use revealnetworktrouble.IpContext.Json.{Value, Fields}
use revealnetworktrouble.IpContext.Schema.{
  as_object, context_object, context_int, context_stamp, at, text_at, word_at,
}
use revealnetworktrouble.IpContext.Parts.{check_reverse}
use revealnetworktrouble.IpContext.Check.{
  lifetime, size_limit, check_registration, check_routing, check_parts, json_size,
  normalize_ip_context,
}
use revealnetworktrouble.IpContext.Check.Bytes.{json_bytes-length}
use revealnetworktrouble.IpContext.Check.Forms.{IsContext}
use revealnetworktrouble.IpContext.Check.Parts.{
  context_object-is, check_reverse-HoldsNames, second-test,
}
use revealnetworktrouble.IpContext.Check.Ranges.{
  check_registration-HoldsRange, check_routing-HoldsRoute,
}

module _ (url_host : Text → Option Text) (inner nonpublic : List Network) where
  check_parts-IsContext :
      (query : Bits) (requested : Text) (fetched expires : ℕ) (root : Fields) (v w : Value)
      → as_object v ≡ some root
      → text_at "address" root ≡ some requested
      → (text_at "fetched_at" root >>= context_stamp) ≡ some fetched
      → (text_at "expires_at" root >>= context_stamp) ≡ some expires
      → check_parts url_host inner nonpublic query fetched expires root v ≡ some w
      → IsContext url_host query requested v × (w ≡ v)
  unfolding check_parts
  check_parts-IsContext query requested fetched expires root v w object named f e h =
      let ((names, dns), reversed, h1) =
        >>=-eq-some (at "reverse_dns" root >>= check_reverse fetched) _ h in
      let ((range, changing), registered, h2) =
        >>=-eq-some
          (at "registration" root >>= check_registration url_host inner nonpublic query fetched) _
          h1 in
      let ((route, moving), routed, h3) =
        >>=-eq-some (at "routing" root >>= check_routing url_host inner nonpublic query fetched) _
          h2 in
      let (lasts, h4) =
        guard_then (expires == fetched + lifetime (dns || changing || moving)) _ h3 in
      let (short, h5) = guard_then (leb (json_size v + 1) size_limit) _ h4 in
      let (w1, at1, part1) = >>=-eq-some (at "reverse_dns" root) _ reversed in
      let (w2, at2, part2) = >>=-eq-some (at "registration" root) _ registered in
      let (w3, at3, part3) = >>=-eq-some (at "routing" root) _ routed in
      (
        record {
          root = root;
          root_eq = object;
          address_eq = named;
          reverse_dns = w1;
          registration = w2;
          routing = w3;
          reverse_dns_eq = at1;
          registration_eq = at2;
          routing_eq = at3;
          names_transient = dns;
          facts_transient = changing;
          route_transient = moving;
          names = check_reverse-HoldsNames fetched w1 names dns part1;
          range =
              check_registration-HoldsRange url_host inner nonpublic query fetched w2 range changing
                part2;
          route =
              check_routing-HoldsRoute url_host inner nonpublic query fetched w3 route moving part3;
          fetched = fetched;
          expires = expires;
          fetched_eq = f;
          expires_eq = e;
          lasts = (==_iff _ _).0 lasts;
          small = subst (λ n. n + 1 ≤ 16384) (sym (json_bytes-length v)) (leb→le _ _ short);
        },
        sym (some-injective _ _ h5),
      )

  -- When normalizeIPContext accepts a value for an address, it gives the value back, and the address reads as
  -- bits and is its own canonical public address. Read off the value: it is about that address; its names are
  -- at most 8 and strictly increasing; its origins are at most 4, strictly increasing, above 0 and below 2 ^ 32;
  -- a start address of the registration has an end address, and the two enclose the address; a prefix of the
  -- routing is that of the address, with zeros behind it; its times read as times, and it expires 30 seconds
  -- after it was fetched if a status of a part, of a name or of a validation says that the answer is missing,
  -- and 300 seconds after it if none does; and the bytes of its JSON and a newline are at most 16384.
  pub normalize_ip_context-IsAccepted :
      (v : Value) (requested : Text) (w : Value)
      → normalize_ip_context url_host inner nonpublic v requested ≡ some w
      → (w ≡ v)
        × ((query : Bits) × (context_ip url_host requested ≡ some query)
            × (canonical_public_ip url_host inner nonpublic requested ≡ some requested)
            × IsContext url_host query requested w)
  unfolding normalize_ip_context
  normalize_ip_context-IsAccepted v requested w h =
      let (query, asked, h1) = >>=-eq-some (context_ip url_host requested) _ h in
      let (canonical, public, h2) =
        >>=-eq-some (canonical_public_ip url_host inner nonpublic requested) _ h1 in
      let (itself, h3) = guard_then (text_eq canonical requested) _ h2 in
      let (root, object, h4) =
        >>=-eq-some
          (context_object
            "schema_version address source fetched_at expires_at reverse_dns registration routing"
            "" v)
          _ h3 in
      let (version, _, h5) = >>=-eq-some (at "schema_version" root >>= context_int 1) _ h4 in
      let (address, held, h6) = >>=-eq-some (text_at "address" root) _ h5 in
      let (named, h7) = guard_then (version == 1 && text_eq address requested) _ h6 in
      let (source, _, h8) = >>=-eq-some (word_at "source" "upstream cache" root) _ h7 in
      let (fetched, f, h9) = >>=-eq-some (text_at "fetched_at" root >>= context_stamp) _ h8 in
      let (expires, e, h10) = >>=-eq-some (text_at "expires_at" root >>= context_stamp) _ h9 in
      let same : canonical ≡ requested = eq_of_text_eq canonical requested itself in
      let named_it : address ≡ requested =
        eq_of_text_eq address requested
          (second-test (version == 1) (text_eq address requested) named) in
      let is_object =
        context_object-is
          "schema_version address source fetched_at expires_at reverse_dns registration routing" ""
          v root object in
      let (holds, back) =
        check_parts-IsContext query requested fetched expires root v w is_object
          (held ∙ ap some named_it) f e h10 in
      (
        back,
        (
          query,
          asked,
          public ∙ ap some same,
          subst (λ (x : Value). IsContext url_host query requested x) (sym back) holds,
        ),
      )
