-- ===== src/Base64.antt =====
-- daemon/src/TaskManager.cpp: `decode_base64`. The `int` that gathers bits is kept modulo 2 ^ 32, as a
-- shift to the left leaves it in C++20; the count of bits is kept 8 above the source's, which starts at
-- -8.
use a2ad.Common.{
  ℕ, zero, suc, ◌+◌, ◌-◌, ◌*◌, ◌/◌, ◌%◌, ◌^◌, Bool, true, false, ◌||◌, ◌&&◌, Option, none, some,
  List, [], ◌∷◌, leb, ◌==◌, nat_eq, Text, bytes,
}
pub mod Digits
pub mod Decode

abbrev pub alphabet : Text
alphabet = bytes "ABCDEFGHIJKLMNOPQRSTUVWXYZabcdefghijklmnopqrstuvwxyz0123456789+/"

-- `table[c]`, from the index `n` on.
unfoldable pub index_from : ℕ → ℕ → Text → Option ℕ
index_from c n [] = none
index_from c n (d ∷ ds) = elim (c == d) [ true ↦ some n | false ↦ index_from c (n + 1) ds ]

unfoldable pub sextet : ℕ → Option ℕ
sextet c = index_from c 0 alphabet

-- `std::isspace` of the C locale.
unfoldable pub is_space : ℕ → Bool
is_space c = c == 32 || leb 9 c && leb c 13

abbrev pub word : ℕ
word = 4294967296

-- `val = (val << 6) + table[c]`
unfoldable pub shifted : ℕ → ℕ → ℕ
shifted val d = val * 64 % word + d

-- `(val >> bits) & 0xff`
unfoldable pub low_byte : ℕ → ℕ → ℕ
low_byte val bits = val / 2 ^ bits % 256

abbrev pub push : ℕ → Option Text → Option Text
push c none = none
push c (some s) = some (c ∷ s)

unfoldable pub decode_from : Text → ℕ → ℕ → Option Text
decode_from [] val bits = some []
decode_from (c ∷ s) val bits = elim (c == b'=') [
  | true ↦ some []
  | false ↦ elim (is_space c) [
    | true ↦ decode_from s val bits
    | false ↦ elim (sextet c) [
      | none ↦ none
      | some d ↦ elim (leb 8 (bits + 6)) [
        | true ↦
            push (low_byte (shifted val d) (bits + 6 - 8))
              (decode_from s (shifted val d) (bits + 6 - 8))
        | false ↦ decode_from s (shifted val d) (bits + 6)
      ]
    ]
  ]
]

unfoldable pub decode_base64 : Text → Option Text
decode_base64 input = decode_from input 0 0
