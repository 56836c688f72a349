-- ===== src/A2aClient/Discover/Valid.antt =====
-- Which cards are valid.
use a2ad.Common.{
  ◌≡◌, refl, ap, ◌∙◌, Bool, true, false, ◌&&◌, ◌||◌, not, List, [], ◌∷◌, ◌++◌, ◌==◌, text_eq,
  if◌then◌else◌, Text, bytes, is_empty, starts_with, arith, Bool-cases, inl, inr,
}
use a2ad.Json.{Json}
use a2ad.AgentCard.{AgentInterface, AgentExtension, AgentCard, is_v1}
use a2ad.A2aClient.Discover.{is_nil, warnings_of, versions, required_extension, judged, validated}

abbrev pub any_v1 : List AgentInterface → Bool
any_v1 [] = false
any_v1 (i ∷ is) = is_v1 i.protocol_version || any_v1 is

abbrev pub any_required : List AgentExtension → Bool
any_required [] = false
any_required (e ∷ es) = e.required || any_required es

versions-any_v1 :
    (is : List AgentInterface) (b : Bool) (warnings : List Text)
    → (versions is (b, warnings)).0 ≡ (b || any_v1 is)
unfolding versions is_v1 any_v1
versions-any_v1 [] b warnings = ground arith
versions-any_v1 (i ∷ is) b warnings = go (versions-any_v1 is) (is_empty i.protocol_version) refl
  where
    go :
        ((b : Bool) (w : List Text) → (versions is (b, w)).0 ≡ (b || any_v1 is))
        → (empty : Bool) → is_empty i.protocol_version ≡ empty
        → (versions is (
            if empty
            then (
              true,
              warnings
                  ++ bytes
                      "nonconforming Agent Card: interface protocolVersion is missing; assuming 1.0"
                    ∷ [],
            )
            else (
              b || i.protocol_version == bytes "1" || starts_with i.protocol_version (bytes "1."),
              warnings,
            ))).0
          ≡ (b || any_v1 (i ∷ is))
    go later true e = later true _ ∙ ground (arith, e)
    go later false e =
        later (b || i.protocol_version == bytes "1" || starts_with i.protocol_version (bytes "1."))
          warnings
        ∙ ground (arith, e)

judged-valid :
    (b : Bool) (es : List AgentExtension) (card : AgentCard)
    → (judged b (required_extension es) card).valid ≡ (not (any_required es) && b)
unfolding judged required_extension
judged-valid true [] card = refl
judged-valid false [] card = refl
judged-valid b (e ∷ es) card = elim (Bool-cases e.required) [
  | inl h ↦ rw h refl
  | inr h ↦ rw h (judged-valid b es card)
]

-- A card is valid exactly if it requires no extension, and advertises an interface of A2A 1.x, one
-- without a version, or no interface at all.
pub validated-valid :
    (j : Json) (card : AgentCard)
    → (validated j card).valid
      ≡ (not (any_required card.extensions) && (is_nil card.interfaces || any_v1 card.interfaces))
unfolding validated
validated-valid j card =
    judged-valid (versions card.interfaces (is_nil card.interfaces, warnings_of j card)).0
      card.extensions _
    ∙ ap (λ b. not (any_required card.extensions) && b)
        (versions-any_v1 card.interfaces (is_nil card.interfaces) (warnings_of j card))
