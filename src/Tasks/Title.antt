-- ===== src/Tasks/Title.antt =====
-- daemon/src/TaskManager.cpp: `titleFromMessage`.
use a2ad.Common.{
  ℕ, zero, suc, ◌≤◌, ◌≡◌, refl, Bool, false, ◌&&◌, ◌||◌, [], ◌∷◌, ◌++◌, ltb, ◌==◌, nat_eq,
  if◌then◌else◌, Text, bytes, length, length-append, take, until, has_byte, is_empty, arith,
}

abbrev pub is_blank : ℕ → Bool
is_blank c = c == b' ' || c == 9

-- `find_first_not_of(" \t")`
unfoldable pub drop_blank : Text → Text
drop_blank [] = []
drop_blank (c ∷ s) = if is_blank c then drop_blank s else c ∷ s

-- `find_last_not_of(" \t")`
unfoldable pub trim_end : Text → Text
trim_end [] = []
trim_end (c ∷ s) = let rest = trim_end s in if is_empty rest && is_blank c then [] else c ∷ rest

-- The bytes of the ellipsis.
abbrev pub ellipsis : Text
ellipsis = 226 ∷ 128 ∷ 166 ∷ []

unfoldable pub shorten : Text → Text
shorten t = if ltb 48 (length t) then take 48 t ++ ellipsis else t

abbrev pub untitled : Text
untitled = bytes "(untitled)"

unfoldable pub or_untitled : Text → Text
or_untitled t = if is_empty t then untitled else shorten (trim_end t)

unfoldable pub title_from_message : Text → Text
title_from_message message = or_untitled (drop_blank (until (λ c. c == 10) message))

length-take : (n : ℕ) (s : Text) → length (take n s) ≤ n
length-take zero s = omega arith
length-take (suc n) [] = omega arith
length-take (suc n) (c ∷ s) = omega (arith, length-take n s)

has_byte-until : (s : Text) → has_byte 10 (until (λ c. c == 10) s) ≡ false
has_byte-until [] = refl
has_byte-until (c ∷ s) = ground (arith, has_byte-until s)

has_byte-drop_blank : (s : Text) → has_byte 10 s ≡ false → has_byte 10 (drop_blank s) ≡ false
unfolding drop_blank
has_byte-drop_blank [] h = refl
has_byte-drop_blank (c ∷ s) h = ground (arith, has_byte-drop_blank s)

has_byte-trim_end : (s : Text) → has_byte 10 s ≡ false → has_byte 10 (trim_end s) ≡ false
unfolding trim_end
has_byte-trim_end [] h = refl
has_byte-trim_end (c ∷ s) h = ground (arith, has_byte-trim_end s)

has_byte-take :
    (n : ℕ) (s : Text) → has_byte 10 s ≡ false → has_byte 10 (take n s ++ ellipsis) ≡ false
has_byte-take zero s h = refl
has_byte-take (suc n) [] h = refl
has_byte-take (suc n) (c ∷ s) h = ground (arith, has_byte-take n s)

shorten-fits : (t : Text) → length (shorten t) ≤ 51
unfolding shorten
shorten-fits t = ground (arith, length-append (take 48 t) ellipsis, length-take 48 t)

shorten-line : (t : Text) → has_byte 10 t ≡ false → has_byte 10 (shorten t) ≡ false
unfolding shorten
shorten-line t h = ground (arith, has_byte-take 48 t h)

or_untitled-fits :
    (t : Text)
    → has_byte 10 t ≡ false
    → (length (or_untitled t) ≤ 51) × (has_byte 10 (or_untitled t) ≡ false)
unfolding or_untitled
or_untitled-fits [] h = (omega arith, refl)
or_untitled-fits (c ∷ s) h =
    (shorten-fits (trim_end (c ∷ s)), shorten-line (trim_end (c ∷ s)) (has_byte-trim_end (c ∷ s) h))

-- A title is one line of at most 51 bytes.
pub title-fits :
    (message : Text)
    → (length (title_from_message message) ≤ 51)
      × (has_byte 10 (title_from_message message) ≡ false)
unfolding title_from_message
title-fits message =
    or_untitled-fits (drop_blank (until (λ c. c == 10) message))
      (has_byte-drop_blank (until (λ c. c == 10) message) (has_byte-until message))
