-- ===== src/AgentCard/Effective.antt =====
-- What the choice of the interface guarantees.
use a2ad.Common.{
  ◌≡◌, refl, Bool, true, false, not, ◌&&◌, Option, none, some, List, [], ◌∷◌, map, Text, is_empty,
  arith, if◌then◌else◌, Bool-cases, inl, inr,
}
use mathlib.Core.Path.{subst}
use a2ad.AgentCard.{
  AgentInterface, Agent, supported, known_binding, is_v1, to_upper, is_local_only_url, safe,
  first_supported, configured, interfaces_of, effective_interface,
}

-- A property of all results of an optional value.
abbrev All : (AgentInterface → Type 0) → Option AgentInterface → Type 0
All P none = Unit
All P (some i) = P i

upgrade : (a b c : Bool) → a && b && c ≡ true → a && b && true ≡ true
upgrade a b c h = ground arith

safe-supported :
    (endpoint : Text) (i : AgentInterface) → supported i ≡ true → supported (safe endpoint i) ≡ true
unfolding safe supported
safe-supported endpoint i h =
    go (is_empty endpoint) (is_local_only_url endpoint) (is_local_only_url i.url) refl
  where
    go :
        (e l m : Bool)
        → is_empty endpoint ≡ e
        → supported (if not e && not l && m then record i { url = endpoint } else i) ≡ true
    go true l m q = h
    go false true m q = h
    go false false false q = h
    go false false true q = rw q (
        upgrade (known_binding (map to_upper i.protocol_binding)) (is_v1 i.protocol_version)
          (not (is_empty i.url)) h)

first_supported-supported :
    (endpoint : Text) (is : List AgentInterface)
    → All (λ i. supported i ≡ true) (first_supported endpoint is)
unfolding first_supported
first_supported-supported endpoint [] = tt
first_supported-supported endpoint (i ∷ is) = elim (Bool-cases (supported i)) [
  | inl h ↦ rw h (safe-supported endpoint i h)
  | inr h ↦ rw h (first_supported-supported endpoint is)
]

configured-supported : (endpoint : Text) → All (λ i. supported i ≡ true) (configured endpoint)
unfolding configured supported known_binding is_v1 to_upper
configured-supported [] = tt
configured-supported (c ∷ s) = refl

or_configured :
    (P : AgentInterface → Type 0) (o d : Option AgentInterface)
    → All P o
    → All P d
    → All P (elim o [ some i ↦ some i | none ↦ d ])
or_configured P none d h k = k
or_configured P (some i) d h k = h

-- The interface that the daemon talks to is one that it supports: a known binding of version 1 with a
-- URL, whether it comes from the card or from the configured endpoint.
pub effective_supported :
    (a : Agent) (i : AgentInterface) → effective_interface a ≡ some i → supported i ≡ true
unfolding effective_interface
effective_supported a i h = subst (All (λ j. supported j ≡ true)) h (
    or_configured _ (first_supported a.endpoint (interfaces_of a.card)) (configured a.endpoint)
      (first_supported-supported a.endpoint (interfaces_of a.card))
      (configured-supported a.endpoint))
