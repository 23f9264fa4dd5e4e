-- ===== src/Topology/AnnotateTests.antt =====
-- Runs of frontend/topology-presentation.js, `annotateASN`: a route with a private address between two public
-- ones of the same autonomous system.
use revealnetworktrouble.Prelude.{
  ℕ, ◌≡◌, refl, Bool, true, false, Option, none, some, List, [], ◌∷◌, map, String, if◌then◌else◌,
  Text, codes, text_eq,
}
use revealnetworktrouble.Addresses.{AddressClass, private_address, public_address}
use revealnetworktrouble.Topology.Data.{Node, ip, Link, Route}
use revealnetworktrouble.Topology.Present.{single, link_key}
use revealnetworktrouble.Topology.Present.Cut.{Kept}
use revealnetworktrouble.Topology.Annotate.{Context, Copy, annotate_asn}
use revealnetworktrouble.Topology.Annotate.Counts.{IsCounted, annotate_asn-IsCounted}

abbrev class_at : Text → AddressClass
class_at t = if text_eq t (codes "10.0.0.1") then private_address else public_address

abbrev hop : String → Bool → Option ℕ → Node
hop address public_ip asn = record {
  id = codes address;
  kind = ip;
  address = codes address;
  status = codes "healthy";
  public_ip = public_ip;
  place = none;
  asn = asn;
  hop_min = none;
  hop_max = none;
}

abbrev hops : List Node
hops =
    hop "8.8.8.8" true (some 15169)
    ∷ hop "10.0.0.1" false none
    ∷ hop "8.8.4.4" true (some 15169)
    ∷ []

abbrev step : String → String → Link
step from to = record {
  from = codes from;
  to = codes to;
  status = codes "healthy";
  observations = 1;
}

abbrev steps : List Link
steps = step "8.8.8.8" "10.0.0.1" ∷ step "10.0.0.1" "8.8.4.4" ∷ []

abbrev path : Route
path = record {
  result_index = 0;
  attempt = 1;
  order = 0;
  address = codes "8.8.4.4";
  status = codes "healthy";
  reached = true;
  complete = true;
  node_ids = codes "8.8.8.8" ∷ codes "10.0.0.1" ∷ codes "8.8.4.4" ∷ [];
}

abbrev kept : Kept
kept = record {
  drawn = record { route = path; node_ids = path.node_ids; spans = none ∷ none ∷ [] };
  node_ids = path.node_ids;
  complete = true;
}

noted :
    map
      (λ (c : Copy). map (λ (x : Context). x.asn ∷ x.start ∷ x.end ∷ []) c.contexts)
      (annotate_asn class_at hops steps
        (path ∷ [])
        (map (λ n. single n) hops)
        (kept ∷ [])
        (map link_key steps)).copies
    ≡ [] ∷ ((15169 ∷ 1 ∷ 1 ∷ []) ∷ []) ∷ [] ∷ []
unfolding annotate_asn
noted = refl

annotate_asn-IsCounted_example : IsCounted (
    annotate_asn class_at hops steps
      (path ∷ [])
      (map (λ n. single n) hops)
      (kept ∷ [])
      (map link_key steps))
annotate_asn-IsCounted_example =
    annotate_asn-IsCounted class_at hops steps (path ∷ []) (map (λ n. single n) hops) (kept ∷ [])
      (map link_key steps)
