-- ===== src/Base64/Decode.antt =====
-- `decode_base64` reads what RFC 4648 writes.
use a2ad.Common.{
  ℕ, ◌+◌, ◌-◌, ◌*◌, ◌/◌, ◌%◌, ◌<◌, ◌≡◌, refl, ap, ◌∙◌, true, false, some, [], ◌∷◌, leb, nat_eq,
  Text, arith,
}
use a2ad.Base64.{shifted, low_byte, push, decode_from, decode_base64}
use a2ad.Base64.Digits.{digit, IsDigit, digit-IsDigit}

-- The encoding of RFC 4648, with padding.
abbrev pub encode : Text → Text
encode [] = []
encode (a ∷ []) = digit (a / 4) ∷ digit (a % 4 * 16) ∷ b'=' ∷ b'=' ∷ []
encode (a ∷ b ∷ []) = digit (a / 4) ∷ digit (a % 4 * 16 + b / 16) ∷ digit (b % 16 * 4) ∷ b'=' ∷ []
encode (a ∷ b ∷ c ∷ s) =
    digit (a / 4)
    ∷ digit (a % 4 * 16 + b / 16)
    ∷ digit (b % 16 * 4 + c / 64)
    ∷ digit (c % 64)
    ∷ encode s

abbrev pub IsBytes : Text → Type 0
IsBytes [] = Unit
IsBytes (c ∷ s) = (c < 256) × IsBytes s

-- A digit that does not fill a byte, and one that does.
gather :
    (c n : ℕ) (s : Text) (val bits : ℕ)
    → IsDigit c n
    → leb 8 (bits + 6) ≡ false
    → decode_from (c ∷ s) val bits ≡ decode_from s (shifted val n) (bits + 6)
unfolding decode_from
gather c n s val bits (pad, blank, value) k = rw (decode_from, pad, blank, value, k) refl

fill :
    (c n : ℕ) (s : Text) (val bits : ℕ)
    → IsDigit c n
    → leb 8 (bits + 6) ≡ true
    → decode_from (c ∷ s) val bits
      ≡ push
          (low_byte (shifted val n) (bits + 6 - 8))
          (decode_from s (shifted val n) (bits + 6 - 8))
unfolding decode_from
fill c n s val bits (pad, blank, value) k = rw (decode_from, pad, blank, value, k) refl

padding : (s : Text) (val bits : ℕ) → decode_from (b'=' ∷ s) val bits ≡ some []
unfolding decode_from
padding s val bits = refl

end_of_text : (val bits : ℕ) → decode_from [] val bits ≡ some []
unfolding decode_from
end_of_text val bits = refl

first_byte :
    (val a n x : ℕ)
    → a < 256
    → x < 16
    → n ≡ a % 4 * 16 + x
    → low_byte (shifted (shifted val (a / 4)) n) 4 ≡ a
unfolding low_byte shifted
first_byte val a n x h k e = omega (arith, h, k, e)

second_byte :
    (val b m n x y : ℕ)
    → b < 256
    → x < 4
    → m ≡ y * 16 + b / 16
    → n ≡ b % 16 * 4 + x
    → low_byte (shifted (shifted val m) n) 2 ≡ b
unfolding low_byte shifted
second_byte val b m n x y h k d e = omega (arith, h, k, d, e)

third_byte :
    (val c n z : ℕ)
    → c < 256
    → n ≡ z * 4 + c / 64
    → low_byte (shifted (shifted val n) (c % 64)) 0 ≡ c
unfolding low_byte shifted
third_byte val c n z h e = omega (arith, h, e)

-- Two digits, and the byte that they fill.
decode-first :
    (a n x : ℕ) (s : Text) (val : ℕ)
    → a < 256
    → x < 16
    → n ≡ a % 4 * 16 + x
    → decode_from (digit (a / 4) ∷ digit n ∷ s) val 0
      ≡ push a (decode_from s (shifted (shifted val (a / 4)) n) 4)
decode-first a n x s val h k e =
    gather (digit (a / 4)) (a / 4) (digit n ∷ s) val 0 (digit-IsDigit (a / 4) (omega (arith, h)))
      refl
    ∙ fill (digit n) n s (shifted val (a / 4)) 6 (digit-IsDigit n (omega (arith, k, e))) refl
    ∙ ap (λ b. push b (decode_from s (shifted (shifted val (a / 4)) n) 4))
        (first_byte val a n x h k e)

decode-second :
    (b m n x y : ℕ) (s : Text) (val : ℕ)
    → b < 256
    → x < 4
    → m ≡ y * 16 + b / 16
    → n ≡ b % 16 * 4 + x
    → decode_from (digit n ∷ s) (shifted val m) 4
      ≡ push b (decode_from s (shifted (shifted val m) n) 2)
decode-second b m n x y s val h k d e =
    fill (digit n) n s (shifted val m) 4 (digit-IsDigit n (omega (arith, k, e))) refl
    ∙ ap (λ c. push c (decode_from s (shifted (shifted val m) n) 2))
        (second_byte val b m n x y h k d e)

decode-third :
    (c n z : ℕ) (s : Text) (val : ℕ)
    → c < 256
    → n ≡ z * 4 + c / 64
    → decode_from (digit (c % 64) ∷ s) (shifted val n) 2
      ≡ push c (decode_from s (shifted (shifted val n) (c % 64)) 0)
decode-third c n z s val h e =
    fill (digit (c % 64)) (c % 64) s (shifted val n) 2 (digit-IsDigit (c % 64) (omega arith)) refl
    ∙ ap (λ b. push b (decode_from s (shifted (shifted val n) (c % 64)) 0))
        (third_byte val c n z h e)

decode_from-encode : (s : Text) (val : ℕ) → IsBytes s → decode_from (encode s) val 0 ≡ some s
decode_from-encode [] val h = end_of_text val 0
decode_from-encode (a ∷ []) val (ha, h) =
    decode-first a (a % 4 * 16) 0 (b'=' ∷ b'=' ∷ []) val ha (omega arith) (omega arith)
    ∙ ap (push a) (padding (b'=' ∷ []) (shifted (shifted val (a / 4)) (a % 4 * 16)) 4)
decode_from-encode (a ∷ b ∷ []) val (ha, (hb, h)) =
    let n1 = a % 4 * 16 + b / 16 in
    let n2 = b % 16 * 4 in
    let v1 = shifted val (a / 4) in
    decode-first a n1 (b / 16) (digit n2 ∷ b'=' ∷ []) val ha (omega (arith, hb)) refl
    ∙ ap (push a)
        (decode-second b n1 n2 0 (a % 4) (b'=' ∷ []) v1 hb (omega arith) refl (omega arith))
    ∙ ap (λ o. push a (push b o)) (padding [] (shifted (shifted v1 n1) n2) 2)
decode_from-encode (a ∷ b ∷ c ∷ s) val (ha, (hb, (hc, h))) =
    let n1 = a % 4 * 16 + b / 16 in
    let n2 = b % 16 * 4 + c / 64 in
    let v1 = shifted val (a / 4) in
    let v2 = shifted v1 n1 in
    decode-first a n1 (b / 16) (digit n2 ∷ digit (c % 64) ∷ encode s) val ha (omega (arith, hb))
      refl
    ∙ ap (push a) (
        decode-second b n1 n2 (c / 64) (a % 4) (digit (c % 64) ∷ encode s) v1 hb (omega (arith, hc))
          refl refl)
    ∙ ap (λ o. push a (push b o)) (decode-third c n2 (b % 16) (encode s) v2 hc refl)
    ∙ ap (λ o. push a (push b (push c o)))
        (decode_from-encode s (shifted (shifted v2 n2) (c % 64)) h)

-- Decoding gives back the bytes that RFC 4648 has encoded, however many they are.
pub decode-encode : (s : Text) → IsBytes s → decode_base64 (encode s) ≡ some s
unfolding decode_base64
decode-encode s h = decode_from-encode s 0 h
