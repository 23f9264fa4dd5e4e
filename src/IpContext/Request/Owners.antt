-- ===== src/IpContext/Request/Owners.antt =====
-- frontend/state.js, `createIPContextController`: `setOwner`, `cancel` and `destroy` keep what holds of a
-- controller.
use revealnetworktrouble.Prelude.{
  if_holds, ℕ, ◌<◌, ◌≡◌, refl, false, not, ◌&&◌, ◌||◌, Option, none, some, [], arith, if◌then◌else◌,
}
use revealnetworktrouble.IpContext.Controller.{
  Snapshot, Owner, idle, cancelled, Flight, Controller, Env, cached, set_owner, cancel, destroy,
  revoke, revoked, open_owner, show_cached, same_scope, same_address,
}
use revealnetworktrouble.IpContext.Controller.Cache.{
  cached-address, after_cached-small, after_cached-IsKeyed,
}
use revealnetworktrouble.IpContext.Request.Sound.{
  IsAbout, IsFlown, IsSound, IsQuiet, publish-IsSound,
}

-- Every request is of an earlier generation.
abbrev pub IsPast : Controller → Option Flight → Type 0
IsPast c none = Unit {0}
IsPast c (some f) = f.generation < c.generation

pub revoked-IsPast :
    (c : Controller) (fl : Option Flight) → IsFlown c fl → IsPast (revoke c) (revoked fl)
revoked-IsPast c none h = tt
revoked-IsPast c (some f) h = omega (arith, h.0)

pub IsPast-IsFlown : (c : Controller) (fl : Option Flight) → IsPast c fl → IsFlown c fl
IsPast-IsFlown c none h = tt
IsPast-IsFlown c (some f) h = (omega (arith, h), λ e. absurd (omega (arith, h, e)))

pub revoke-IsSound : (c : Controller) → IsSound c → IsSound (revoke c)
revoke-IsSound c h = record {
  small = h.small;
  keyed = h.keyed;
  about = h.about;
  flown = IsPast-IsFlown (revoke c) (revoked c.flight) (revoked-IsPast c c.flight h.flown);
}

pub show_cached-IsAbout :
    (o : Owner) (v : Option Snapshot)
    → ((w : Snapshot) → v ≡ some w → w.address ≡ o.address)
    → IsAbout (show_cached v) (some o)
show_cached-IsAbout o none h = tt
show_cached-IsAbout o (some w) h = h w refl

pub open_owner-IsSound :
    (now : ℕ) (next : Option Owner) (c : Controller)
    → IsPast c c.flight
    → IsSound c
    → IsSound (open_owner now next c)
open_owner-IsSound now none c p h = record {
  small = h.small;
  keyed = h.keyed;
  about = tt;
  flown = IsPast-IsFlown (open_owner now none c) c.flight (same_past c c.flight p);
}
  where
    same_past :
        (d : Controller) (fl : Option Flight) → IsPast d fl → IsPast (open_owner now none d) fl
    same_past d none q = tt
    same_past d (some f) q = q
open_owner-IsSound now (some o) c p h = record {
  small = omega (arith, h.small, after_cached-small now o.address c.cache);
  keyed = after_cached-IsKeyed now o.address c.cache h.keyed;
  about =
      show_cached-IsAbout o (cached now o.address c.cache)
        (λ w e. cached-address now o.address c.cache w h.keyed e);
  flown = IsPast-IsFlown (open_owner now (some o) c) c.flight (same_past c c.flight p);
}
  where
    same_past :
        (d : Controller) (fl : Option Flight) → IsPast d fl → IsPast (open_owner now (some o) d) fl
    same_past d none q = tt
    same_past d (some f) q = q

pub cleared-IsSound : (c : Controller) → IsSound c → IsSound (record c { cache = [] })
cleared-IsSound c h = record {
  small = omega arith;
  keyed = tt;
  about = h.about;
  flown = flown_alike c.flight h.flown;
}
  where
    flown_alike : (fl : Option Flight) → IsFlown c fl → IsFlown (record c { cache = [] }) fl
    flown_alike none q = tt
    flown_alike (some f) q = q

pub set_owner-IsSound :
    (e : Env) (next : Option Owner) (c : Controller) → IsSound c → IsSound (set_owner e next c)
unfolding set_owner
set_owner-IsSound e next c h =
    let cleared = if same_scope c.owner next then c else record c { cache = [] } in
    let clean =
      if_holds IsSound (same_scope c.owner next) c (record c { cache = [] }) (λ _. h)
        (λ _. cleared-IsSound c h) in
    if_holds IsSound (not c.alive || same_scope c.owner next && same_address c.owner next) _ _
      (λ _. h)
      (λ _.
        open_owner-IsSound e.now next (revoke cleared)
          (revoked-IsPast cleared cleared.flight clean.flown) (revoke-IsSound cleared clean))

pub cancelled-IsQuiet : IsQuiet cancelled
cancelled-IsQuiet o = tt

pub cancel-IsSound : (c : Controller) → IsSound c → IsSound (cancel c)
unfolding cancel
cancel-IsSound c h =
    if_holds IsSound c.alive _ _
      (λ _. publish-IsSound cancelled (revoke c) cancelled-IsQuiet (revoke-IsSound c h)) (λ _. h)

pub destroy-IsSound : (c : Controller) → IsSound c → IsSound (destroy c)
unfolding destroy
destroy-IsSound c h =
    let gone = record (revoke c) { alive = false; owner = none; cache = []; state = idle } in
    if_holds IsSound c.alive _ _
      (λ _. record {
        small = omega arith;
        keyed = tt;
        about = tt;
        flown =
            IsPast-IsFlown gone (revoked c.flight)
              (past_alike (revoked c.flight) (revoked-IsPast c c.flight h.flown));
      })
      (λ _. h)
  where
    past_alike :
        (fl : Option Flight)
        → IsPast (revoke c) fl
        → IsPast (record (revoke c) { alive = false; owner = none; cache = []; state = idle }) fl
    past_alike none q = tt
    past_alike (some f) q = q
