-- ===== src/IpContext/Reader/Accepted.antt =====
-- frontend/state.js, `parseIPContext`: what the controller keeps of an answer is about the address asked for.
use revealnetworktrouble.Prelude.{
  ◌≡◌, sym, ◌∙◌, ap, Option, some, List, leb, ◌>>=◌, >>=-eq-some, guard_then, length, Text,
}
use mathlib.Core.Path.{subst}
use mathlib.Core.Option.{some-injective}
use revealnetworktrouble.Addresses.{Network}
use revealnetworktrouble.IpContext.Json.{context_json}
use revealnetworktrouble.IpContext.Schema.{as_object, text_at, context_stamp}
use revealnetworktrouble.IpContext.Check.{size_limit}
use revealnetworktrouble.IpContext.Check.Sound.{normalize_ip_context-IsAccepted}
use revealnetworktrouble.IpContext.Controller.{Snapshot}
use revealnetworktrouble.IpContext.Reader.{
  decode_from, between_characters, parse_ip_context, read_snapshot,
}

module _ (url_host : Text → Option Text) (inner nonpublic : List Network) where
  pub read_snapshot-address :
      (bytes requested : Text) (s : Snapshot)
      → read_snapshot url_host inner nonpublic bytes requested ≡ some s
      → s.address ≡ requested
  unfolding read_snapshot parse_ip_context
  read_snapshot-address bytes requested s h =
      let (v, parsed, h1) =
        >>=-eq-some (parse_ip_context url_host inner nonpublic bytes requested) _ h in
      let (_, k1) = guard_then (leb (length bytes) size_limit) _ parsed in
      let (t, _, k2) = >>=-eq-some (decode_from between_characters bytes) _ k1 in
      let (u, _, k3) = >>=-eq-some (context_json t) _ k2 in
      let (_, (_, _, _, holds)) =
        normalize_ip_context-IsAccepted url_host inner nonpublic u requested v k3 in
      let (root, object, h2) = >>=-eq-some (as_object v) _ h1 in
      let (address, named, h3) = >>=-eq-some (text_at "address" root) _ h2 in
      let (expires, _, h4) = >>=-eq-some (text_at "expires_at" root >>= context_stamp) _ h3 in
      let same_root : root ≡ holds.root = some-injective _ _ (sym object ∙ holds.root_eq) in
      let same : address ≡ requested =
        some-injective _ _ (sym named ∙ ap (text_at "address") same_root ∙ holds.address_eq) in
      subst (λ (x : Snapshot). x.address ≡ requested) (some-injective _ _ h4) same
