-- ===== src/Control/Exit.antt =====
-- How the handlers of daemon/src/ControlPlane.cpp go on or stop: by the next statement, by a
-- `return` of a reply, or by an exception.
use a2ad.Common.{String, ◌≡◌, refl, Bool, true, false, ◌||◌, ltb, ◌==◌, string_eq}
use a2ad.Control.Records.{Field, missing, ill_typed, given, Reply}
use Prim.Native.String.{len}
use mathlib.Core.Path.{subst}

pub data Exit (A : Type 0) : Type 0 where
  next : A → Exit A
  return : Reply → Exit A
  throw : String → Exit A

infixl 5 ◌>>=◌ ◌>>◌
abbrev pub ◌>>=◌ : {A B : Type 0} → Exit A → (A → Exit B) → Exit B
next a >>= f = f a
return r >>= f = return r
throw e >>= f = throw e

abbrev pub ◌>>◌ : {A B : Type 0} → Exit A → Exit B → Exit B
m >> k = m >>= λ _. k

unfoldable pub return_if : Bool → Reply → Exit (Unit {0})
return_if true r = return r
return_if false r = next tt

abbrev pub type_error : String
type_error = "[json.exception.type_error.302]"

-- `j.value(key, d)`
unfoldable pub value : {A : Type 0} → Field A → A → Exit A
value missing d = next d
value ill_typed d = throw type_error
value (given a) d = next a

-- `j.at(key)`
unfoldable pub at : {A : Type 0} → Field A → Exit A
at missing = throw "[json.exception.out_of_range.403]"
at ill_typed = throw type_error
at (given a) = next a

-- `j.contains(key)`
unfoldable pub contains : {A : Type 0} → Field A → Bool
contains missing = false
contains ill_typed = true
contains (given a) = true

-- `required(j, key)`: a text of 1 to 256 bytes.
unfoldable pub bounded_text : String → Exit String
bounded_text v = elim (v == "" || ltb 256 (len v)) [
  | true ↦ throw "must contain 1..256 bytes"
  | false ↦ next v
]

unfoldable pub required : Field String → Exit String
unfolding value bounded_text
required f = value f "" >>= bounded_text

pub >>=-eq-next :
    {A B : Type 0} (m : Exit A) (f : A → Exit B) {b : B}
    → (m >>= f) ≡ next b
    → (a : A) × (m ≡ next a) × (f a ≡ next b)
>>=-eq-next (next a) f h = (a, refl, h)
>>=-eq-next (return r) f h = cc
>>=-eq-next (throw e) f h = cc

pub return_if-next : (b : Bool) (r : Reply) {u : Unit {0}} → return_if b r ≡ next u → b ≡ false
unfolding return_if
return_if-next true r h = cc
return_if-next false r h = refl

-- A statement about a result, whatever makes the code stop before.
pub data Ensures {A : Type 0} (P : A → Type 0) : Exit A → Type 0 where
  on_next : {a : A} → P a → Ensures P (next a)
  on_return : {r : Reply} → Ensures P (return r)
  on_throw : {e : String} → Ensures P (throw e)

pub Ensures-bind :
    {A B : Type 0} {P : B → Type 0} (m : Exit A) (f : A → Exit B)
    → ((a : A) → Ensures P (f a))
    → Ensures P (m >>= f)
Ensures-bind (next a) f h = h a
Ensures-bind (return r) f h = on_return
Ensures-bind (throw e) f h = on_throw

-- The rest of the block may use what the step has returned.
pub Ensures-bind_eq :
    {A B : Type 0} {P : B → Type 0} (m : Exit A) (f : A → Exit B)
    → ((a : A) → m ≡ next a → Ensures P (f a))
    → Ensures P (m >>= f)
Ensures-bind_eq (next a) f h = h a refl
Ensures-bind_eq (return r) f h = on_return
Ensures-bind_eq (throw e) f h = on_throw

-- The rest of the block may use what is known of the step.
pub Ensures-bind_ensured :
    {A B : Type 0} {Q : A → Type 0} {P : B → Type 0} (m : Exit A) (f : A → Exit B)
    → Ensures Q m
    → ((a : A) → Q a → Ensures P (f a))
    → Ensures P (m >>= f)
Ensures-bind_ensured (next a) f (on_next q) h = h a q
Ensures-bind_ensured (return r) f q h = on_return
Ensures-bind_ensured (throw e) f q h = on_throw

abbrev FromNext : {A : Type 0} → (A → Type 0) → Exit A → Type 0
FromNext P (next a) = P a
FromNext P _ = Unit

from_Ensures : {A : Type 0} {P : A → Type 0} {m : Exit A} → Ensures P m → FromNext P m
from_Ensures (on_next h) = h
from_Ensures on_return = tt
from_Ensures on_throw = tt

pub Ensures-next :
    {A : Type 0} (P : A → Type 0) {m : Exit A} {a : A} → Ensures P m → m ≡ next a → P a
Ensures-next P h e = subst (FromNext P) e (from_Ensures h)
