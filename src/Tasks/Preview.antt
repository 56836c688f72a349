-- ===== src/Tasks/Preview.antt =====
-- daemon/src/Artifact.cpp: the one-line previews of parts and artifacts.
use a2ad.Common.{
  ℕ, ◌||◌, not, Option, none, some, List, [], ◌∷◌, ◌++◌, ltb, ◌==◌, nat_eq, if◌then◌else◌, Text,
  bytes, length, take, is_empty, map,
}
use a2ad.Json.{utf8}
use a2ad.Tasks.{Part, Artifact}

-- ` …` behind a text of more than 240 bytes.
unfoldable pub ellipsis : Text → Text
unfolding utf8
ellipsis text = if ltb 240 (length text) then utf8 " …" else []

unfoldable pub blank_line_break : ℕ → ℕ
blank_line_break c = if c == b'\n' || c == b'\r' then b' ' else c

module _ (to_string : ℕ → Text) where
  -- `Part::preview`
  unfoldable pub preview : Part → Text
  unfolding ellipsis blank_line_break
  preview p =
      if not (is_empty p.text)
      then map blank_line_break (take 240 p.text) ++ ellipsis p.text
      else if not (is_empty p.url)
      then bytes "url: " ++ p.url
      else if not (is_empty p.raw_b64)
      then bytes "<binary " ++ to_string (length p.raw_b64) ++ bytes " b64 chars>"
      else if not (is_empty p.json)
      then take 240 p.json ++ ellipsis p.json
      else bytes "(empty part)"

  -- The first part with a content of some kind.
  unfoldable pub first_with : (Part → Text) → List Part → Option Part
  first_with content [] = none
  first_with content (p ∷ ps) =
      let rest = first_with content ps in if is_empty (content p) then rest else some p

  unfoldable pub first_of : Part → Option Part → Option Part → Option Part → Part
  first_of p (some q) _ _ = q
  first_of p none (some q) _ = q
  first_of p none none (some q) = q
  first_of p none none none = p

  -- `Artifact::content_summary`
  unfoldable pub summary_of : List Part → Text
  unfolding preview
  summary_of [] = bytes "(no parts)"
  summary_of (p ∷ ps) = preview (
      first_of p (first_with (λ q. q.text) (p ∷ ps)) (first_with (λ q. q.json) (p ∷ ps))
        (first_with (λ q. q.url) (p ∷ ps)))

  abbrev pub content_summary : Artifact → Text
  content_summary a = summary_of a.parts
