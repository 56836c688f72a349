-- ===== src/Json.antt =====
-- The JSON values of nlohmann::json, as daemon/src/A2AClient.cpp and daemon/src/main.cpp read and build
-- them.
use a2ad.Common.{
  ◌^◌, ◌-◌, ℕ, ◌+◌, ◌/◌, ◌%◌, String, ◌≡◌, refl, ap, Bool, true, false, Option, none, some, List,
  [], ◌∷◌, ◌++◌, ltb, ◌==◌, string_eq, if◌then◌else◌, Text, str_lt,
}
use a2ad.Common.Int.{ℤ, pos, negsuc}
use Prim.Native.Char.{code}

-- A number has its integer part and its spelling.
mutual
  pub data Json : Type 0 where
    null : Json
    boolean : Bool → Json
    number : ℤ → String → Json
    string : String → Json
    array : Items → Json
    object : Fields → Json

  pub data Items : Type 0 where
    no_items : Items
    item : Json → Items → Items

  pub data Fields : Type 0 where
    no_fields : Fields
    field : String → Json → Fields → Fields

-- What is not under the repository: `json::parse`, which may throw, `json::dump`, the string of a
-- `std::string` and the spelling of an integer.
pub record Library : Type 0 where
  pub parse : Text → Option Json
  pub dump : Json → Text
  pub text : Text → String
  pub spelling : ℤ → String

-- The value of an expression that may throw a `json::type_error`.
pub data Try (A : Type 0) : Type 0 where
  raised : Try A
  done : A → Try A

infixl 5 ◌>>=◌
abbrev pub ◌>>=◌ : {A B : Type 0} → Try A → (A → Try B) → Try B
raised >>= next = raised
done a >>= next = next a

abbrev from_done : {A : Type 0} → A → Try A → A
from_done d (done a) = a
from_done d raised = d

pub done-inj : {A : Type 0} {a b : A} → done a ≡ done b → a ≡ b
done-inj {a = a} h = ap (from_done a) h

pub >>=-eq-done :
    {A B : Type 0} (first : Try A) (next : A → Try B) {b : B}
    → (first >>= next) ≡ done b
    → (a : A) × (first ≡ done a) × (next a ≡ done b)
>>=-eq-done raised next h = cc
>>=-eq-done (done a) next h = (a, refl, h)

-- A code point in UTF-8.
unfoldable pub utf8_char : ℕ → Text
utf8_char n =
    if ltb n 128
    then n ∷ []
    else if ltb n 2048
    then (192 + n / 64) ∷ (128 + n % 64) ∷ []
    else if ltb n 65536
    then (224 + n / 4096) ∷ (128 + n / 64 % 64) ∷ (128 + n % 64) ∷ []
    else (240 + n / 262144) ∷ (128 + n / 4096 % 64) ∷ (128 + n / 64 % 64) ∷ (128 + n % 64) ∷ []

-- The bytes of a JSON string, which is UTF-8 in memory.
unfoldable pub utf8 : String → Text
unfolding utf8_char
utf8 String.[] = []
utf8 (String.◌∷◌ c s) = utf8_char (code c) ++ utf8 s

unfoldable pub elements : Items → List Json
elements no_items = []
elements (item j js) = j ∷ elements js

unfoldable pub items : List Json → Items
items [] = no_items
items (j ∷ js) = item j (items js)

unfoldable pub members : Fields → List (String × Json)
members no_fields = []
members (field k v fs) = (k, v) ∷ members fs

unfoldable pub member : String → Fields → Option Json
member key no_fields = none
member key (field k v fs) = if k == key then some v else member key fs

-- `j[key] = v`, in the order of the keys.
unfoldable pub put : String → Json → Fields → Fields
put key v no_fields = field key v no_fields
put key v (field k w fs) =
    if k == key
    then field key v fs
    else if str_lt key k
    then field key v (field k w fs)
    else field k w (put key v fs)

-- `j.contains(key)`, and `j[key]` behind it.
unfoldable pub get : String → Json → Option Json
unfolding member
get key (object fs) = member key fs
get key _ = none

abbrev pub contains : String → Json → Bool
contains key j = elim (get key j) [ none ↦ false | some v ↦ true ]

abbrev pub is_object : Json → Bool
is_object (object fs) = true
is_object _ = false

abbrev pub as_text : Option Json → Option String
as_text (some (string s)) = some s
as_text _ = none

abbrev pub as_array : Option Json → Option (List Json)
as_array (some (array js)) = some (elements js)
as_array _ = none

abbrev pub as_object : Option Json → Option Json
as_object (some (object fs)) = some (object fs)
as_object _ = none

-- `j.contains(key) && j[key].is_string()`, and likewise for arrays and objects.
unfoldable pub text_at : String → Json → Option String
unfolding get
text_at key j = as_text (get key j)

unfoldable pub array_at : String → Json → Option (List Json)
unfolding get elements
array_at key j = as_array (get key j)

unfoldable pub object_at : String → Json → Option Json
unfolding get
object_at key j = as_object (get key j)

abbrev pub or_else {ℓ} : {A : Type ℓ} → Option A → A → A
or_else none d = d
or_else (some a) d = a

abbrev pub text_member : Option Json → String → Try String
text_member none d = done d
text_member (some (string s)) d = done s
text_member (some _) d = raised

abbrev pub bool_member : Option Json → Bool → Try Bool
bool_member none d = done d
bool_member (some (boolean b)) d = done b
bool_member (some _) d = raised

abbrev pub int_member : Option Json → ℤ → Try ℤ
int_member none d = done d
int_member (some (number i s)) d = done i
int_member (some (boolean b)) d = done (pos (if b then 1 else 0))
int_member (some _) d = raised

-- `j.value(key, d)` with a default text, Boolean or integer; only an object has `value`.
unfoldable pub value_text : String → String → Json → Try String
unfolding member
value_text key d (object fs) = text_member (member key fs) d
value_text key d _ = raised

unfoldable pub value_bool : String → Bool → Json → Try Bool
unfolding member
value_bool key d (object fs) = bool_member (member key fs) d
value_bool key d _ = raised

unfoldable pub value_integer : String → ℤ → Json → Try ℤ
unfolding member
value_integer key d (object fs) = int_member (member key fs) d
value_integer key d _ = raised

-- An integer as an `int` of 32 bits.
abbrev pub to_int : ℤ → ℤ
to_int (pos n) = let r = n % 2 ^ 32 in if ltb r (2 ^ 31) then pos r else negsuc (2 ^ 32 - 1 - r)
to_int (negsuc n) = let r = n % 2 ^ 32 in if ltb r (2 ^ 31) then negsuc r else pos (2 ^ 32 - 1 - r)

unfoldable pub value_int : String → ℤ → Json → Try ℤ
unfolding value_integer
value_int key d j = value_integer key d j >>= λ i. done (to_int i)

-- `j.value(key, d)` with a JSON value.
unfoldable pub value_json : String → Json → Json → Try Json
unfolding member
value_json key d (object fs) = done (or_else (member key fs) d)
value_json key d _ = raised

-- The loop `for (const auto& v : values) if (v.is_string()) out.push_back(...)`.
unfoldable pub texts : List Json → List String
texts [] = []
texts (string s ∷ js) = s ∷ texts js
texts (_ ∷ js) = texts js

-- A loop whose body may throw.
unfoldable pub each : {A : Type 0} → (Json → Try A) → List Json → Try (List A)
each f [] = done []
each f (j ∷ js) = do a ← f j; as' ← each f js; done (a ∷ as')

unfoldable pub fields_of : List (String × Json) → Fields
unfolding put
fields_of [] = no_fields
fields_of ((k, v) ∷ rows) = put k v (fields_of rows)

-- `{{k, v}, ...}`
abbrev pub record_of : List (String × Json) → Json
record_of rows = object (fields_of rows)
