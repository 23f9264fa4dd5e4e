-- ===== src/Topology/Present/Spans.antt =====
-- frontend/topology-presentation.js, `presentTopology`: a drawn route has a span between any two tokens.
use revealnetworktrouble.Prelude.{
  ℕ, ◌+◌, ◌-◌, ◌≡◌, refl, sym, ◌∙◌, ap, Bool, some, List, [], ◌∷◌, map, arith, >>=-eq-some, length,
  length-map, All,
}
use mathlib.Core.Path.{subst}
use mathlib.Core.Option.{some-injective}
use revealnetworktrouble.Topology.Data.{Node, Link, Route}
use revealnetworktrouble.Topology.Present.{
  Scene, Token, join_tokens, join_all, Drawn, draw_route, resolve, draw_routes, tokens_from,
}

join_all-length :
    (links : List Link) (occurrence i : ℕ) (ts : List Token) (scene : Scene)
    → length (join_all links occurrence i ts scene).1 ≡ length ts - 1
unfolding join_all
join_all-length links occurrence i [] scene = refl
join_all-length links occurrence i (t ∷ []) scene = refl
join_all-length links occurrence i (t ∷ u ∷ ts) scene =
    let (next, span) = join_tokens links occurrence i t u scene in
    let later = join_all-length links occurrence (i + 1) (u ∷ ts) next in omega (arith, later)

-- One span fewer than nodes.
abbrev pub IsSpanned : Drawn → Type 0
IsSpanned d = length d.spans ≡ length d.node_ids - 1

draw_route-IsSpanned :
    (show : Bool) (links : List Link) (occurrence : ℕ) (route : Route) (nodes : List Node)
    (scene : Scene)
    → IsSpanned (draw_route show links occurrence route nodes scene).1
unfolding draw_route
draw_route-IsSpanned show links occurrence route nodes scene =
    let (put, tokens) = tokens_from show route occurrence 0 0 [] nodes scene in
    join_all-length links occurrence 1 tokens put
    ∙ ap (λ n. n - 1) (sym (length-map tokens (λ (t : Token). t.id)))

pub draw_routes-IsSpanned :
    (show : Bool) (nodes : List Node) (links : List Link) (occurrence : ℕ) (rs : List Route)
    (scene : Scene) (out : Scene × List Drawn)
    → draw_routes show nodes links occurrence rs scene ≡ some out
    → All IsSpanned out.1
unfolding draw_routes
draw_routes-IsSpanned show nodes links occurrence [] scene out h =
    subst (λ (o : Scene × List Drawn). All IsSpanned o.1) (some-injective _ _ h) tt
draw_routes-IsSpanned show nodes links occurrence (r ∷ rs) scene out h =
    let (ns, _, h1) = >>=-eq-some (resolve nodes r.node_ids) _ h in
    let here = draw_route-IsSpanned show links occurrence r ns scene in
    let (next, drawn) = draw_route show links occurrence r ns scene in
    let (rest, more, h2) =
      >>=-eq-some (draw_routes show nodes links (occurrence + 1) rs next) _ h1 in
    let later = draw_routes-IsSpanned show nodes links (occurrence + 1) rs next rest more in
    subst (λ (o : Scene × List Drawn). All IsSpanned o.1) (some-injective _ _ h2) (here, later)

pub draw_routes-routes :
    (show : Bool) (nodes : List Node) (links : List Link) (occurrence : ℕ) (rs : List Route)
    (scene : Scene) (out : Scene × List Drawn)
    → draw_routes show nodes links occurrence rs scene ≡ some out
    → map (λ (d : Drawn). d.route) out.1 ≡ rs
unfolding draw_routes draw_route
draw_routes-routes show nodes links occurrence [] scene out h =
    subst (λ (o : Scene × List Drawn). map (λ (d : Drawn). d.route) o.1 ≡ []) (some-injective _ _ h)
      refl
draw_routes-routes show nodes links occurrence (r ∷ rs) scene out h =
    let (ns, _, h1) = >>=-eq-some (resolve nodes r.node_ids) _ h in
    let (next, drawn) = draw_route show links occurrence r ns scene in
    let (rest, more, h2) =
      >>=-eq-some (draw_routes show nodes links (occurrence + 1) rs next) _ h1 in
    let later = draw_routes-routes show nodes links (occurrence + 1) rs next rest more in
    subst (λ (o : Scene × List Drawn). map (λ (d : Drawn). d.route) o.1 ≡ r ∷ rs)
      (some-injective _ _ h2) (ap (λ others. r ∷ others) later)
