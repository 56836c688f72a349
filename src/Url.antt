-- ===== src/Url.antt =====
-- daemon/src/A2AClient.cpp: the parts of a URL, and the encoding of its query.
use a2ad.Common.{
  ℕ, ◌+◌, ◌/◌, ◌%◌, ◌≡◌, Bool, true, false, ◌&&◌, ◌||◌, Option, none, some, List, [], ◌∷◌, ◌++◌,
  leb, ◌==◌, nat_eq, if◌then◌else◌, Text, bytes, length, get_elem?, take, drop, find, has_byte,
  is_empty,
}
pub mod Encoding

-- `url.find('/', start)`
abbrev pub find_from : ℕ → Text → Text → Option ℕ
find_from start url p = elim (find (drop start url) p) [ none ↦ none | some n ↦ some (start + n) ]

-- `split_origin`, at the start of the path.
unfoldable pub path_at : Text → Option ℕ → Text × Text
path_at url none = (url, [])
path_at url (some path_start) = (take path_start url, drop path_start url)

-- `split_origin`, at the end of the scheme.
unfoldable pub split_at : Text → Option ℕ → Text × Text
split_at url none = (url, [])
split_at url (some scheme_end) = path_at url (find_from (scheme_end + 3) url (bytes "/"))

unfoldable pub split_origin : Text → Text × Text
split_origin url = split_at url (find url (bytes "://"))

-- `std::isalnum` of the C locale.
unfoldable pub is_alnum : ℕ → Bool
is_alnum c = leb b'0' c && leb c b'9' || leb b'A' c && leb c b'Z' || leb b'a' c && leb c b'z'

unfoldable pub is_unreserved : ℕ → Bool
is_unreserved c = is_alnum c || c == b'-' || c == b'_' || c == b'.' || c == b'~'

-- `hex[n]`, with the byte 0 at the end of the literal.
unfoldable pub hex : ℕ → ℕ
hex n = elim (get_elem? (bytes "0123456789ABCDEF") n) [ some c ↦ c | none ↦ 0 ]

-- `c >> 4` and `c & 15`
unfoldable pub url_encode : Text → Text
url_encode [] = []
url_encode (c ∷ s) =
    if is_unreserved c then c ∷ url_encode s else b'%' ∷ hex (c / 16) ∷ hex (c % 16) ∷ url_encode s

-- `add_query`, with the text of the value; `none` is the JSON null.
unfoldable pub add_query : Text → Text → Option Text → Text
add_query path key none = path
add_query path key (some text) =
    if is_empty text
    then path
    else path
      ++ (if has_byte b'?' path then b'&' else b'?') ∷ url_encode key
      ++ b'=' ∷ url_encode text
