-- ===== src/Control/Channel/Pages.antt =====
-- Pages of the event log (`channel.read`, `events.read` of daemon/src/ControlPlane.cpp).
use a2ad.Common.{
  ℕ, zero, suc, ◌+◌, ◌≤◌, ◌≡◌, refl, sym, ◌∙◌, ap, List, [], ◌∷◌, ◌++◌, length, take, drop, arith,
  string_eq,
}
use native.Mathlib.Numerals.{unary_clauses}
use mathlib.Core.Path.{subst}
use a2ad.Control.Records.{Event, Row, Store}
use a2ad.Control.Audit.{Platform, Env, append, append_row, new_row}
use a2ad.Control.Channel.{rows_after, last_sequence, page}

-- Rows are numbered one by one, from the number after `n`.
abbrev pub IsNumbered : ℕ → List Row → Type 0
IsNumbered n [] = Unit
IsNumbered n (row ∷ rows) = (row.sequence ≡ suc n) × IsNumbered (suc n) rows

IsNumbered-append :
    (n : ℕ) (rows : List Row) (row : Row)
    → IsNumbered n rows
    → row.sequence ≡ n + length rows + 1
    → IsNumbered n (rows ++ row ∷ [])
IsNumbered-append n [] row h e = (omega (arith, e), tt)
IsNumbered-append n (r ∷ rows) row h e =
    (h.0, IsNumbered-append (suc n) rows row h.1 (omega (arith, e)))

-- `append` numbers its row after the rows that are there.
pub append-IsNumbered :
    (p : Platform) (env : Env) (event : Event) (s : Store)
    → IsNumbered 0 s.events
    → IsNumbered 0 (append p env event s).events
unfolding append append_row new_row
append-IsNumbered p env event s h = IsNumbered-append 0 s.events _ h (omega arith)

rows_after-all :
    (after n : ℕ) (rows : List Row) → IsNumbered n rows → after ≤ n → rows_after after rows ≡ rows
unfolding rows_after
rows_after-all after n [] h l = refl
rows_after-all after n (row ∷ rows) h l = ground (arith, h.0, rows_after-all after (suc n) rows h.1)

-- The SQL condition on the number is a cut of the log.
pub rows_after-drop :
    (k n : ℕ) (rows : List Row) → IsNumbered n rows → rows_after (n + k) rows ≡ drop k rows
unfolding rows_after
rows_after-drop zero n rows h = rows_after-all (n + 0) n rows h (omega arith)
rows_after-drop (suc k) n [] h = refl
rows_after-drop (suc k) n (row ∷ rows) h = ground (arith, h.0, rows_after-drop k (suc n) rows h.1)

last_sequence-numbered :
    (n : ℕ) (rows : List Row) → IsNumbered n rows → last_sequence n rows ≡ n + length rows
unfolding last_sequence
last_sequence-numbered n [] h = omega arith
last_sequence-numbered n (row ∷ rows) h =
    ground (arith, h.0, last_sequence-numbered (suc n) rows h.1)

IsNumbered-drop : (k n : ℕ) (rows : List Row) → IsNumbered n rows → IsNumbered (n + k) (drop k rows)
IsNumbered-drop zero n rows h = simp unary_clauses h
IsNumbered-drop (suc k) n [] h = tt
IsNumbered-drop (suc k) n (row ∷ rows) h =
    subst (λ j. IsNumbered j (drop k rows)) (omega arith) (IsNumbered-drop k (suc n) rows h.1)

IsNumbered-take : (k n : ℕ) (rows : List Row) → IsNumbered n rows → IsNumbered n (take k rows)
IsNumbered-take zero n rows h = tt
IsNumbered-take (suc k) n [] h = tt
IsNumbered-take (suc k) n (row ∷ rows) h = (h.0, IsNumbered-take k (suc n) rows h.1)

plus_zero : (k : ℕ) → 0 + k ≡ k
plus_zero k = omega arith

suc_plus : (j k : ℕ) → suc j + k ≡ suc (j + k)
suc_plus j k = omega arith

-- In a log that is numbered one by one from 1, a page is a slice: the query with its condition, its
-- order and its limit skips the rows up to `after` and takes the next `limit` ones.
pub page_slice :
    (after limit : ℕ) (rows : List Row)
    → IsNumbered 0 rows
    → page after limit rows ≡ take limit (drop after rows)
unfolding page
page_slice after limit rows h =
    ap (λ j. take limit (rows_after j rows)) (sym (plus_zero after))
    ∙ ap (take limit) (rows_after-drop after 0 rows h)

drop-plus : {A : Type 0} (j k : ℕ) (xs : List A) → drop (j + k) xs ≡ drop k (drop j xs)
drop-plus zero k xs = ap (λ j. drop j xs) (plus_zero k)
drop-plus (suc j) zero [] = simp unary_clauses refl
drop-plus (suc j) (suc k) [] = simp unary_clauses refl
drop-plus (suc j) k (x ∷ xs) = ap (λ i. drop i (x ∷ xs)) (suc_plus j k) ∙ drop-plus j k xs

take-join :
    {A : Type 0} (n m : ℕ) (xs : List A)
    → take n xs ++ take m (drop (length (take n xs)) xs) ≡ take (n + m) xs
take-join zero m xs = ap (λ j. take j xs) (sym (plus_zero m))
take-join (suc n) zero [] = simp unary_clauses refl
take-join (suc n) (suc m) [] = simp unary_clauses refl
take-join (suc n) m (x ∷ xs) =
    ap (λ ys. x ∷ ys) (take-join n m xs) ∙ ap (λ i. take i (x ∷ xs)) (sym (suc_plus n m))

-- In a log that is numbered one by one from 1, reading on from the cursor of a page continues it:
-- nothing is skipped and nothing comes twice.
pub pages_join :
    (after n m : ℕ) (rows : List Row)
    → IsNumbered 0 rows
    → page after n rows ++ page (last_sequence after (page after n rows)) m rows
      ≡ page after (n + m) rows
pages_join after n m rows h =
    let xs = drop after rows in
    let end : last_sequence after (page after n rows) ≡ after + length (take n xs) =
      ap (last_sequence after) (page_slice after n rows h)
      ∙ last_sequence-numbered after (take n xs) (
          IsNumbered-take n after xs (
            subst (λ j. IsNumbered j (drop after rows)) (plus_zero after)
              (IsNumbered-drop after 0 rows h))) in
    let second : page (last_sequence after (page after n rows)) m rows
        ≡ take m (drop (length (take n xs)) xs) =
      ap (λ k. page k m rows) end
      ∙ page_slice (after + length (take n xs)) m rows h
      ∙ ap (take m) (drop-plus after (length (take n xs)) rows) in
    ap (λ ys. ys ++ page (last_sequence after (page after n rows)) m rows)
      (page_slice after n rows h)
    ∙ ap (λ ys. take n xs ++ ys) second
    ∙ take-join n m xs
    ∙ sym (page_slice after (n + m) rows h)
