-- ===== src/A2aClient/Stream/Boundaries.antt =====
-- daemon/src/A2AClient.cpp: where the first blank line of a text is, and the removal of carriage returns.
use a2ad.Common.{
  ℕ, zero, suc, ◌+◌, ◌≤◌, ◌≡◌, ◌⊎◌, refl, sym, ap, Bool, true, false, Option, none, some, List, [],
  ◌∷◌, ◌++◌, if◌then◌else◌, Text, length, take, drop, starts_with, find, has_byte, arith, inl, inr,
  string_eq, nat_eq, text_eq,
}
use a2ad.A2aClient.Stream.{strip_cr, blank_line}

-- A blank line lies within the text, and is the first one of every longer text.
-- The first occurrence is at the front or in the rest.
find-cons :
    (c : ℕ) (s p : Text) (n : ℕ)
    → find (c ∷ s) p ≡ some n
    → ((starts_with (c ∷ s) p ≡ true) × (n ≡ 0))
      ⊎ ((m : ℕ) × (starts_with (c ∷ s) p ≡ false) × (find s p ≡ some m) × (n ≡ suc m))
find-cons c s p n = go (starts_with (c ∷ s) p) (find s p) refl refl
  where
    go :
        (b : Bool) (o : Option ℕ)
        → starts_with (c ∷ s) p ≡ b
        → find s p ≡ o
        → (if b then some 0 else elim o [ none ↦ none | some m ↦ some (suc m) ]) ≡ some n
        → ((starts_with (c ∷ s) p ≡ true) × (n ≡ 0))
          ⊎ ((m : ℕ) × (starts_with (c ∷ s) p ≡ false) × (find s p ≡ some m) × (n ≡ suc m))
    go true o e f h = inl (e, ground (arith, h))
    go false none e f h = absurd (ground (arith, h))
    go false (some m) e f h = inr (m, e, f, ground (arith, h))

pub find-within : (s : Text) (n : ℕ) → find s blank_line ≡ some n → n + 2 ≤ length s
find-within [] n h = ground (arith, h)
find-within (c ∷ []) n h = ground (arith, h)
find-within (c ∷ d ∷ s) n h = elim (find-cons c (d ∷ s) blank_line n h) [
  | inl (e, z) ↦ omega (arith, z)
  | inr (m, e, f, z) ↦ omega (arith, z, find-within (d ∷ s) m f)
]

pub find-append :
    (s t : Text) (n : ℕ) → find s blank_line ≡ some n → find (s ++ t) blank_line ≡ some n
find-append [] t n h = ground (arith, h)
find-append (c ∷ []) t n h = ground (arith, h)
find-append (c ∷ d ∷ s) t n h = elim (find-cons c (d ∷ s) blank_line n h) [
  | inl (e, z) ↦ rw e (ap some (sym z))
  | inr (m, e, f, z) ↦ rw e (rw (find-append (d ∷ s) t m f) (ap some (sym z)))
]

pub take-append :
    {A : Type 0} (n : ℕ) (xs ys : List A) → n ≤ length xs → take n (xs ++ ys) ≡ take n xs
take-append zero xs ys h = refl
take-append (suc n) [] ys h = absurd (omega (arith, h))
take-append (suc n) (x ∷ xs) ys h = ap (λ zs. x ∷ zs) (take-append n xs ys (omega (arith, h)))

pub drop-within :
    {A : Type 0} (n : ℕ) (xs ys : List A) → n ≤ length xs → drop n (xs ++ ys) ≡ drop n xs ++ ys
drop-within zero xs ys h = refl
drop-within (suc n) [] ys h = absurd (omega (arith, h))
drop-within (suc n) (x ∷ xs) ys h = drop-within n xs ys (omega (arith, h))

pub length-drop :
    {A : Type 0} (n : ℕ) (xs : List A) → n ≤ length xs → length (drop n xs) + n ≡ length xs
length-drop zero xs h = omega arith
length-drop (suc n) [] h = absurd (omega (arith, h))
length-drop (suc n) (x ∷ xs) h = omega (arith, length-drop n xs (omega (arith, h)))

pub lacks-drop : (c n : ℕ) (s : Text) → has_byte c s ≡ false → has_byte c (drop n s) ≡ false
lacks-drop c zero s h = h
lacks-drop c (suc n) [] h = refl
lacks-drop c (suc n) (d ∷ s) h = lacks-drop c n s (ground (arith, h))

pub strip_cr-append : (s t : Text) → strip_cr (s ++ t) ≡ strip_cr s ++ strip_cr t
unfolding strip_cr
strip_cr-append [] t = refl
strip_cr-append (c ∷ s) t = ground (arith, strip_cr-append s t)

pub strip_cr-nil : strip_cr [] ≡ []
unfolding strip_cr
strip_cr-nil = refl

pub has_byte-append :
    (c : ℕ) (s t : Text) → has_byte c s ≡ false → has_byte c t ≡ false → has_byte c (s ++ t) ≡ false
has_byte-append c [] t h k = k
has_byte-append c (d ∷ s) t h k = ground (arith, h, has_byte-append c s t, k)

pub strip_cr-lacks : (s : Text) → has_byte b'\r' (strip_cr s) ≡ false
unfolding strip_cr
strip_cr-lacks [] = refl
strip_cr-lacks (c ∷ s) = ground (arith, strip_cr-lacks s)

pub strip_cr-same : (s : Text) → has_byte b'\r' s ≡ false → strip_cr s ≡ s
unfolding strip_cr
strip_cr-same [] h = refl
strip_cr-same (c ∷ s) h = ground (arith, strip_cr-same s, h)

-- The bytes of the stream.
abbrev pub concat : List Text → Text
concat [] = []
concat (chunk ∷ chunks) = chunk ++ concat chunks
