-- ===== src/Base64/Digits.antt =====
-- The digits of base64: a check of all 64, and what it shows.
use a2ad.Common.{
  ℕ, zero, suc, ◌<◌, ◌≡◌, refl, Bool, true, false, not, ◌&&◌, Option, none, some, ◌==◌, nat_eq,
  get_elem?, arith, ◌⊎◌, inl, inr,
}
use mathlib.Core.Path.{subst, sym}
use a2ad.Base64.{alphabet, index_from, sextet, is_space}

abbrev pub digit : ℕ → ℕ
digit n = elim (get_elem? alphabet n) [ some c ↦ c | none ↦ 0 ]

-- The byte stands for the number, and is neither padding nor white space.
abbrev pub IsDigit : ℕ → ℕ → Type 0
IsDigit c n = ((c == b'=') ≡ false) × (is_space c ≡ false) × (sextet c ≡ some n)

abbrev stands_for : ℕ → Option ℕ → Bool
stands_for n none = false
stands_for n (some k) = k == n

abbrev digit_ok : ℕ → ℕ → Bool
digit_ok c n = not (c == b'=') && not (is_space c) && stands_for n (sextet c)

abbrev digits_ok : ℕ → Bool
digits_ok zero = true
digits_ok (suc n) = digit_ok (digit n) n && digits_ok n

and_left : (a b : Bool) → a && b ≡ true → a ≡ true
and_left a b h = ground arith

and_right : (a b : Bool) → a && b ≡ true → b ≡ true
and_right a b h = ground arith

not-true : (a : Bool) → not a ≡ true → a ≡ false
not-true a h = ground arith

stands_for-some : (n : ℕ) (o : Option ℕ) → stands_for n o ≡ true → o ≡ some n
stands_for-some n none h = cc
stands_for-some n (some k) h = ground (arith, h)

digit_ok-IsDigit : (c n : ℕ) → digit_ok c n ≡ true → IsDigit c n
digit_ok-IsDigit c n h =
    let front = and_left (not (c == b'=') && not (is_space c)) (stands_for n (sextet c)) h in
    (
      not-true (c == b'=') (and_left (not (c == b'=')) (not (is_space c)) front),
      not-true (is_space c) (and_right (not (c == b'=')) (not (is_space c)) front),
      stands_for-some n (sextet c)
          (and_right (not (c == b'=') && not (is_space c)) (stands_for n (sextet c)) h),
    )

below : (n m : ℕ) → n < suc m → (n ≡ m) ⊎ (n < m)
below n m h = ground (arith, h)

digits_ok-lt : (m n : ℕ) → digits_ok m ≡ true → n < m → digit_ok (digit n) n ≡ true
digits_ok-lt zero n h l = absurd (omega (arith, l))
digits_ok-lt (suc m) n h l = elim (below n m l) [
  | inl same ↦
      subst (λ k. digit_ok (digit k) k ≡ true) (sym same)
        (and_left (digit_ok (digit m) m) (digits_ok m) h)
  | inr less ↦ digits_ok-lt m n (and_right (digit_ok (digit m) m) (digits_ok m) h) less
]

all_digits_ok : digits_ok 64 ≡ true
unfolding index_from sextet is_space
all_digits_ok = refl

pub digit-IsDigit : (n : ℕ) → n < 64 → IsDigit (digit n) n
digit-IsDigit n h = digit_ok-IsDigit (digit n) n (digits_ok-lt 64 n all_digits_ok h)
