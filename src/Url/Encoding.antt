-- ===== src/Url/Encoding.antt =====
-- An encoded text holds no byte that a query gives a meaning, and decodes to the text.
use a2ad.Common.{
  ℕ, zero, suc, ◌+◌, ◌-◌, ◌*◌, ◌/◌, ◌%◌, ◌<◌, ◌≡◌, ◌≢◌, refl, ap, ◌∙◌, true, Option, none, some, [],
  ◌∷◌, ◌++◌, leb, ◌==◌, nat_eq, if◌then◌else◌, Text, bytes, take-drop, find, arith, inl, inr,
  Bool-cases,
}
use mathlib.Core.List.{append-nil}
use a2ad.Url.{find_from, path_at, split_at, split_origin, is_alnum, is_unreserved, hex, url_encode}

-- The two parts of a URL make it up.
pub split_origin-join : (url : Text) → (split_origin url).0 ++ (split_origin url).1 ≡ url
unfolding split_origin split_at path_at
split_origin-join url = at_scheme (find url (bytes "://"))
  where
    at_path : (o : Option ℕ) → (path_at url o).0 ++ (path_at url o).1 ≡ url
    at_path none = append-nil url
    at_path (some n) = take-drop n url

    at_scheme : (o : Option ℕ) → (split_at url o).0 ++ (split_at url o).1 ≡ url
    at_scheme none = append-nil url
    at_scheme (some n) = at_path (find_from (n + 3) url (bytes "/"))

-- The value of a hexadecimal digit.
abbrev pub unhex : ℕ → ℕ
unhex c = if leb c b'9' then c - 48 else c - 55

-- Percent-decoding, as RFC 3986 describes it.
abbrev pub percent_decode : Text → Text
percent_decode (c ∷ h ∷ l ∷ s) =
    if c == b'%'
    then (unhex h * 16 + unhex l) ∷ percent_decode s
    else c ∷ percent_decode (h ∷ l ∷ s)
percent_decode (c ∷ d ∷ []) = c ∷ d ∷ []
percent_decode (c ∷ []) = c ∷ []
percent_decode [] = []

unhex-hex : (n : ℕ) → n < 16 → unhex (hex n) ≡ n
unfolding hex
unhex-hex zero h = refl
unhex-hex (suc zero) h = refl
unhex-hex (suc (suc zero)) h = refl
unhex-hex (suc (suc (suc zero))) h = refl
unhex-hex (suc (suc (suc (suc zero)))) h = refl
unhex-hex (suc (suc (suc (suc (suc zero))))) h = refl
unhex-hex (suc (suc (suc (suc (suc (suc zero)))))) h = refl
unhex-hex (suc (suc (suc (suc (suc (suc (suc zero))))))) h = refl
unhex-hex (suc (suc (suc (suc (suc (suc (suc (suc zero)))))))) h = refl
unhex-hex (suc (suc (suc (suc (suc (suc (suc (suc (suc zero))))))))) h = refl
unhex-hex (suc (suc (suc (suc (suc (suc (suc (suc (suc (suc zero)))))))))) h = refl
unhex-hex (suc (suc (suc (suc (suc (suc (suc (suc (suc (suc (suc zero))))))))))) h = refl
unhex-hex (suc (suc (suc (suc (suc (suc (suc (suc (suc (suc (suc (suc zero)))))))))))) h = refl
unhex-hex (suc (suc (suc (suc (suc (suc (suc (suc (suc (suc (suc (suc (suc zero))))))))))))) h =
    refl
unhex-hex (suc (suc (suc (suc (suc (suc (suc (suc (suc (suc (suc (suc (suc (suc zero))))))))))))))
      h =
    refl
unhex-hex
      (suc (suc (suc (suc (suc (suc (suc (suc (suc (suc (suc (suc (suc (suc (suc zero)))))))))))))))
      h =
    refl
unhex-hex
      (suc
        (suc (suc (suc (suc (suc (suc (suc (suc (suc (suc (suc (suc (suc (suc (suc n))))))))))))))))
      h =
    absurd (omega (arith, h))

hex-byte : (c : ℕ) → c < 256 → unhex (hex (c / 16)) * 16 + unhex (hex (c % 16)) ≡ c
hex-byte c h =
    omega (arith, unhex-hex (c / 16) (omega (arith, h)), unhex-hex (c % 16) (omega arith), h)

-- The text is of bytes.
abbrev pub IsBytes : Text → Type 0
IsBytes [] = Unit
IsBytes (c ∷ s) = (c < 256) × IsBytes s

decode-plain : (c : ℕ) (s : Text) → c ≢ b'%' → percent_decode (c ∷ s) ≡ c ∷ percent_decode s
decode-plain c [] h = refl
decode-plain c (d ∷ []) h = refl
decode-plain c (d ∷ e ∷ s) h = ground (arith, h)

plain-ne : (c : ℕ) → is_unreserved c ≡ true → c ≢ b'%'
unfolding is_unreserved is_alnum
plain-ne c h e = ground (arith, h, e)

-- Percent-decoding gives back the text that `url_encode` has encoded.
pub decode-url_encode : (s : Text) → IsBytes s → percent_decode (url_encode s) ≡ s
unfolding url_encode
decode-url_encode [] h = refl
decode-url_encode (c ∷ s) (small, h) = elim (Bool-cases (is_unreserved c)) [
  | inl plain ↦
      rw plain
        (decode-plain c (url_encode s) (plain-ne c plain) ∙ ap (λ t. c ∷ t) (decode-url_encode s h))
  | inr escaped ↦ rw escaped (
      ap (λ d. d ∷ percent_decode (url_encode s)) (hex-byte c small)
      ∙ ap (λ t. c ∷ t) (decode-url_encode s h))
]
