-- ===== src/Common/Assoc.antt =====
-- A table keyed by texts, as an association list in the order of the keys.
use Prim.Native.String.{String}
use mathlib.Core.Path.{◌≡◌, refl}
use mathlib.Core.Logic.{◌≢◌}
use mathlib.Core.List.{List, [], ◌∷◌}
use mathlib.Core.Option.{Option, none, some}
use native.Mathlib.Omega.{arith}
use a2ad.Common.Tests.{◌==◌, string_eq, str_eq_iff, str_lt, if◌then◌else◌}

abbrev pub Dict {ℓ} : Type ℓ → Type ℓ
Dict V = List (String × V)

module _ {ℓ} {V : Type ℓ} where
  unfoldable pub lookup : String → Dict V → Option V
  lookup key [] = none
  lookup key (row ∷ rows) = if row.0 == key then some row.1 else lookup key rows

  unfoldable pub insert : String → V → Dict V → Dict V
  insert k v [] = (k, v) ∷ []
  insert k v ((j, w) ∷ m) =
      if j == k
      then (k, v) ∷ m
      else if str_lt k j
      then (k, v) ∷ (j, w) ∷ m
      else (j, w) ∷ insert k v m

  -- What a write does to the reads that follow.
  pub lookup-insert :
      (written asked : String) (value : V) (rows : Dict V)
      → lookup asked (insert written value rows)
        ≡ (if written == asked then some value else lookup asked rows)
  unfolding lookup insert
  lookup-insert written asked value [] = refl
  lookup-insert written asked value ((key, old) ∷ rows) = ground (
    arith,
    lookup-insert written asked value rows,
    str_eq_iff key written,
    str_eq_iff key asked,
    str_eq_iff written asked,
  )

  pub lookup-insert_self : (k : String) (v : V) (m : Dict V) → lookup k (insert k v m) ≡ some v
  lookup-insert_self k v m = ground (arith, lookup-insert k k v m, str_eq_iff k k)

  pub lookup-insert_ne :
      (k j : String) (v : V) (m : Dict V) → k ≢ j → lookup j (insert k v m) ≡ lookup j m
  lookup-insert_ne k j v m h = ground (arith, lookup-insert k j v m, str_eq_iff k j)
