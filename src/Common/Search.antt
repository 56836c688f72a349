-- ===== src/Common/Search.antt =====
-- The searches of `std::string` that the program makes, on texts.
use Prim.Native.Nat.{ℕ, zero, suc, ◌-◌}
use mathlib.Core.Path.{◌≡◌, refl, ap}
use mathlib.Core.Bool.{Bool, true, false, ◌||◌, ◌&&◌}
use mathlib.Core.Option.{Option, none, some}
use mathlib.Core.List.{List, [], ◌∷◌, ◌++◌}
use a2ad.Common.Tests.{nat_beq, leb, if◌then◌else◌}
use a2ad.Common.Lists.{Text, length, take, drop, starts_with, text_beq}

-- `s.find(p)`
abbrev pub find : Text → Text → Option ℕ
find [] p = if starts_with [] p then some 0 else none
find (c ∷ s) p =
    if starts_with (c ∷ s) p
    then some 0
    else elim (find s p) [ none ↦ none | some n ↦ some (suc n) ]

-- `s.find(c) != npos`
abbrev pub has_byte : ℕ → Text → Bool
has_byte c [] = false
has_byte c (d ∷ s) = nat_beq d c || has_byte c s

-- The bytes before the first one that passes the test.
abbrev pub until : (ℕ → Bool) → Text → Text
until stop [] = []
until stop (c ∷ s) = if stop c then [] else c ∷ until stop s

-- The bytes after the last `c`, or all if there is none.
abbrev pub after_last : ℕ → Text → Text
after_last c [] = []
after_last c (d ∷ s) = if has_byte c s then after_last c s else if nat_beq d c then s else d ∷ s

-- `s.ends_with(p)`
abbrev pub ends_with : Text → Text → Bool
ends_with s p = leb (length p) (length s) && text_beq (drop (length s - length p) s) p

abbrev pub is_empty : Text → Bool
is_empty [] = true
is_empty (c ∷ s) = false

pub take-drop : {A : Type 0} (n : ℕ) (xs : List A) → take n xs ++ drop n xs ≡ xs
take-drop zero xs = refl
take-drop (suc n) [] = refl
take-drop (suc n) (x ∷ xs) = ap (λ ys. x ∷ ys) (take-drop n xs)
