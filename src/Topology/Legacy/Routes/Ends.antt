-- ===== src/Topology/Legacy/Routes/Ends.antt =====
-- frontend/topology-model.js, `legacyRoutes`: a path goes up, and ends where no edge leads on.
use revealnetworktrouble.Prelude.{ℕ, ◌≤◌, ◌<◌, ◌≡◌, false, Option, none, some, List, [], ◌∷◌, Text}
use revealnetworktrouble.Topology.Data.{has}
use revealnetworktrouble.Topology.Legacy.Routes.{RawLink, Entry, outgoing, next_edge}

abbrev IsBelow : ℕ → RawLink × Entry → Type 0
IsBelow limit x = x.1.0.hop ≤ limit

-- A path behind an entry: each step takes the next edge of the code, to a higher hop and a node that was not
-- visited, and at the end there is no such edge.
unfoldable pub IsPath :
    List Entry → List RawLink → List Text → Entry → List (RawLink × Entry) → Type 0
IsPath es ls visited current [] =
    next_edge visited current.0.hop (outgoing current.0.id es ls) ≡ none
IsPath es ls visited current (x ∷ xs) =
    (next_edge visited current.0.hop (outgoing current.0.id es ls) ≡ some x)
    × (current.0.hop < x.1.0.hop)
    × (has x.1.0.id visited ≡ false)
    × IsPath es ls (x.1.0.id ∷ visited) x.1 xs
