-- ===== src/Topology/Legacy/Model/Sums.antt =====
-- frontend/topology-model.js, `adaptLegacyTopology`: which nodes and links are summed up.
use revealnetworktrouble.Prelude.{
  text_eq_self, if_holds, ◌≡◌, ◌⊎◌, refl, inl, inr, Bool, true, false, ◌||◌, List, [], ◌∷◌, All,
  Text, text_eq,
}
use revealnetworktrouble.Topology.Data.{has}
use revealnetworktrouble.Topology.Legacy.Routes.{Observation}
use revealnetworktrouble.Topology.Legacy.Choice.{Progress}
use revealnetworktrouble.Topology.Legacy.Sums.{
  NodeSum, LinkSum, put_observation, put_observations, accepted_observations, node_sums, sum_with,
}

abbrev pub node_keys : List NodeSum → List Text
node_keys [] = []
node_keys (a ∷ sums) = a.key ∷ node_keys sums

abbrev pub link_keys : List LinkSum → List Text
link_keys [] = []
link_keys (a ∷ sums) = a.key ∷ link_keys sums

pub or_left : (a b : Bool) → a ≡ true → (a || b) ≡ true
or_left a b h = rw h refl

pub or_right : (a b : Bool) → b ≡ true → (a || b) ≡ true
or_right true b h = refl
or_right false b h = h

pub or_cases : (a b : Bool) → (a || b) ≡ true → (a ≡ true) ⊎ (b ≡ true)
or_cases true b h = inl refl
or_cases false b h = inr h

has-put_observation :
    (t : Text) (o : Observation) (sums : List NodeSum)
    → has t (node_keys sums) ≡ true
    → has t (node_keys (put_observation o sums)) ≡ true
unfolding put_observation sum_with
has-put_observation t o [] h = cc
has-put_observation t o (a ∷ sums) h =
    if_holds (λ (x : List NodeSum). has t (node_keys x) ≡ true) (text_eq o.key a.key)
      (sum_with o a ∷ sums) (a ∷ put_observation o sums) (λ _. h)
      (λ _. elim (or_cases (text_eq t a.key) (has t (node_keys sums)) h) [
        | inl e ↦ or_left (text_eq t a.key) _ e
        | inr e ↦ or_right (text_eq t a.key) _ (has-put_observation t o sums e)
      ])

put_observation_self :
    (o : Observation) (sums : List NodeSum) → has o.key (node_keys (put_observation o sums)) ≡ true
unfolding put_observation sum_with
put_observation_self o [] = or_left (text_eq o.key o.key) false (text_eq_self o.key)
put_observation_self o (a ∷ sums) =
    if_holds (λ (x : List NodeSum). has o.key (node_keys x) ≡ true) (text_eq o.key a.key)
      (sum_with o a ∷ sums) (a ∷ put_observation o sums) (λ e. or_left (text_eq o.key a.key) _ e)
      (λ _. or_right (text_eq o.key a.key) _ (put_observation_self o sums))

has-put_observations :
    (t : Text) (os : List Observation) (sums : List NodeSum)
    → has t (node_keys sums) ≡ true
    → has t (node_keys (put_observations os sums)) ≡ true
unfolding put_observations
has-put_observations t [] sums h = h
has-put_observations t (o ∷ os) sums h =
    has-put_observations t os (put_observation o sums) (has-put_observation t o sums h)

abbrev pub AreSummed : List NodeSum → List Observation → Type 0
AreSummed sums os = All (λ (o : Observation). has o.key (node_keys sums) ≡ true) os

put_observations-AreSummed :
    (os : List Observation) (sums : List NodeSum) → AreSummed (put_observations os sums) os
unfolding put_observations
put_observations-AreSummed [] sums = tt
put_observations-AreSummed (o ∷ os) sums = (
  has-put_observations o.key os (put_observation o sums) (put_observation_self o sums),
  put_observations-AreSummed os (put_observation o sums),
)

has-node_sums :
    (t : Text) (ps : List Progress) (sums : List NodeSum)
    → has t (node_keys sums) ≡ true
    → has t (node_keys (node_sums ps sums)) ≡ true
unfolding node_sums
has-node_sums t [] sums h = h
has-node_sums t (p ∷ ps) sums h =
    has-node_sums t ps (put_observations (accepted_observations p) sums)
      (has-put_observations t (accepted_observations p) sums h)

AreSummed-node_sums :
    (ps : List Progress) (sums : List NodeSum) (os : List Observation)
    → AreSummed sums os
    → AreSummed (node_sums ps sums) os
AreSummed-node_sums ps sums [] h = tt
AreSummed-node_sums ps sums (o ∷ os) (here, rest) =
    (has-node_sums o.key ps sums here, AreSummed-node_sums ps sums os rest)

-- Every accepted observation of a route is summed up.
pub node_sums-AreSummed :
    (ps : List Progress) (sums : List NodeSum)
    → All (λ (p : Progress). AreSummed (node_sums ps sums) (accepted_observations p)) ps
unfolding node_sums
node_sums-AreSummed [] sums = tt
node_sums-AreSummed (p ∷ ps) sums =
    let next = put_observations (accepted_observations p) sums in
    (
      AreSummed-node_sums ps next (accepted_observations p)
          (put_observations-AreSummed (accepted_observations p) sums),
      node_sums-AreSummed ps next,
    )
