-- ===== src/Daemon/Redact/Secrets.antt =====
-- daemon/src/main.cpp: the secrets of the push configurations that are shown.
use a2ad.Common.{
  String, Bool, false, ◌≡◌, refl, sym, Option, none, some, ◌==◌, string_eq, if◌then◌else◌,
  str_eq_iff, Bool-cases, inl, inr, arith, ◌⊎◌, List, [], ◌∷◌, ap,
}
use mathlib.Core.Path.{subst, ◌∙◌}
use mathlib.Core.Option.{some-injective, none-ne-some}
use a2ad.Json.{
  Json, null, array, object, Items, no_items, item, Fields, no_fields, field, Try, done, ◌>>=◌,
  done-inj, >>=-eq-done, member, get, elements, array_at, as_array,
}
use a2ad.Daemon.Redact.{
  erase, erase_in, map_member, redact, redact_items, redact_list, redact_value,
}

member-erase :
    (erased asked : String) (fs : Fields)
    → member asked (erase erased fs) ≡ (if erased == asked then none else member asked fs)
unfolding member erase
member-erase erased asked no_fields = ground arith
member-erase erased asked (field k v fs) = ground (
  arith,
  member-erase erased asked fs,
  str_eq_iff k erased,
  str_eq_iff k asked,
  str_eq_iff erased asked,
)

-- The two ways in which a member is reached.
map_member_field :
    (key : String) (f : Json → Try Json) (k : String) (v : Json) (fs gs : Fields)
    → map_member key f (field k v fs) ≡ done gs
    → ((k ≡ key) × ((w : Json) × (f v ≡ done w) × (gs ≡ field k w fs)))
      ⊎ (((k == key) ≡ false)
          × ((more : Fields) × (map_member key f fs ≡ done more) × (gs ≡ field k v more)))
unfolding map_member
map_member_field key f k v fs gs h = elim (Bool-cases (k == key)) [
  | inl e ↦
      let (w, made, kept) =
        >>=-eq-done (f v) (λ w. done (field k w fs)) (subst (λ b. Step b) e h) in
      inl ((str_eq_iff k key).0 e, (w, made, sym (done-inj kept)))
  | inr e ↦
      let (more, made, kept) =
        >>=-eq-done (map_member key f fs) (λ more. done (field k v more))
          (subst (λ b. Step b) e h) in
      inr (e, (more, made, sym (done-inj kept)))
]
  where
    Step : Bool → Type 0
    Step b =
        (if b
          then f v >>= (λ w. done (field k w fs))
          else map_member key f fs >>= (λ more. done (field k v more)))
        ≡ done gs

-- What is read after a member has been changed by `f`.
map_member-other :
    (changed asked : String) (f : Json → Try Json) (fs gs : Fields)
    → (changed == asked) ≡ false
    → map_member changed f fs ≡ done gs
    → member asked gs ≡ member asked fs
unfolding member map_member
map_member-other changed asked f no_fields gs ne h = rw (sym (done-inj h)) refl
map_member-other changed asked f (field k v fs) gs ne h =
    elim (map_member_field changed f k v fs gs h) [
      | inl (e, (w, made, kept)) ↦ rw (kept, e, ne) refl
      | inr (e, (more, made, kept)) ↦
          rw (kept, map_member-other changed asked f fs more ne made) refl
    ]

member-first :
    (k key : String) (v : Json) (fs : Fields) → k ≡ key → member key (field k v fs) ≡ some v
unfolding member
member-first k key v fs e = rw ((str_eq_iff k key).1 e) refl

member-later :
    (k key : String) (v : Json) (fs : Fields)
    → (k == key) ≡ false
    → member key (field k v fs) ≡ member key fs
unfolding member
member-later k key v fs e = rw e refl

map_member-changed :
    (key : String) (f : Json → Try Json) (fs gs : Fields) (v : Json)
    → map_member key f fs ≡ done gs
    → member key gs ≡ some v
    → (w : Json) × (f w ≡ done v)
unfolding member map_member
map_member-changed key f no_fields gs v h found =
    absurd (none-ne-some v (subst (λ o. member key o ≡ some v) (sym (done-inj h)) found))
map_member-changed key f (field k w fs) gs v h found = elim (map_member_field key f k w fs gs h) [
  | inl (e, (u, made, kept)) ↦ (
    w,
    subst (λ j. f w ≡ done j)
        (some-injective u v
          (sym (member-first k key u fs e) ∙ subst (λ g. member key g ≡ some v) kept found))
        made,
  )
  | inr (e, (more, made, kept)) ↦
      map_member-changed key f fs more v made
        (sym (member-later k key w more e) ∙ subst (λ g. member key g ≡ some v) kept found)
]

-- Nothing secret of a push configuration: neither its token nor the credentials of its authentication.
abbrev pub IsHidden : Json → Type 0
IsHidden j =
    (get "token" j ≡ none)
    × ((v : Json) → get "authentication" j ≡ some v → get "credentials" v ≡ none)

erase_in-hidden : (key : String) (j v : Json) → erase_in key j ≡ done v → get key v ≡ none
unfolding get
erase_in-hidden key (object fs) v h =
    subst (λ j. get key j ≡ none) (done-inj h)
      (member-erase key key fs ∙ rw ((str_eq_iff key key).1 refl) refl)
erase_in-hidden key null v h = cc
erase_in-hidden key _ v h = cc

fields-IsHidden :
    (fs gs : Fields)
    → map_member "authentication" (erase_in "credentials") (erase "token" fs) ≡ done gs
    → IsHidden (object gs)
unfolding get
fields-IsHidden fs gs h = (
  map_member-other "authentication" "token" (erase_in "credentials") (erase "token" fs) gs refl h
      ∙ member-erase "token" "token" fs,
  λ v found.
      let (w, made) =
        map_member-changed "authentication" (erase_in "credentials") (erase "token" fs) gs v h
          found in
      erase_in-hidden "credentials" w v made,
)

redact-IsHidden : (j r : Json) → redact j ≡ done r → IsHidden r
unfolding redact get
redact-IsHidden (object fs) r h =
    let (gs, made, e) =
      >>=-eq-done (map_member "authentication" (erase_in "credentials") (erase "token" fs))
        (λ more. done (object more)) h in
    subst IsHidden (done-inj e) (fields-IsHidden fs gs made)
redact-IsHidden null r h = subst IsHidden (done-inj h) (refl, λ v e. absurd (none-ne-some v e))
redact-IsHidden _ r h = subst IsHidden (done-inj h) (refl, λ v e. absurd (none-ne-some v e))

-- Each of a list of configurations.
abbrev pub AllHidden : List Json → Type 0
AllHidden [] = Unit {0}
AllHidden (j ∷ js) = IsHidden j × AllHidden js

redact_items-AllHidden : (js rs : Items) → redact_items js ≡ done rs → AllHidden (elements rs)
unfolding redact_items elements
redact_items-AllHidden no_items rs h = subst (λ x. AllHidden (elements x)) (done-inj h) tt
redact_items-AllHidden (item j js) rs h =
    let (r, made, h') =
      >>=-eq-done (redact j) (λ r. redact_items js >>= λ more. done (item r more)) h in
    let (more, rest, e) = >>=-eq-done (redact_items js) (λ more. done (item r more)) h' in
    subst (λ x. AllHidden (elements x)) (done-inj e)
      (redact-IsHidden j r made, redact_items-AllHidden js more rest)

-- What is shown of a list, if it is one.
redact_list-AllHidden :
    (j r : Json) (configs : List Json)
    → as_array (some j) ≡ some configs
    → redact_list j ≡ done r
    → (shown : List Json) × (as_array (some r) ≡ some shown) × AllHidden shown
unfolding elements
redact_list-AllHidden (array js) r configs is_list h =
    let (rs, made, e) = >>=-eq-done (redact_items js) (λ rs. done (array rs)) h in
    (
      elements rs,
      subst (λ j. as_array (some j) ≡ some (elements rs)) (done-inj e) refl,
      redact_items-AllHidden js rs made,
    )
redact_list-AllHidden null r configs is_list h = absurd (none-ne-some configs is_list)
redact_list-AllHidden _ r configs is_list h = absurd (none-ne-some configs is_list)

-- What is shown of the object that an agent has returned: of a list of configurations, each without
-- its secrets; of any other object, the object without its secrets.
abbrev pub IsShown : Option (List Json) → Json → Type 0
IsShown none r = IsHidden r
IsShown (some configs) r =
    (shown : List Json) × (array_at "configs" r ≡ some shown) × AllHidden shown

map_member-found :
    (key : String) (f : Json → Try Json) (fs gs : Fields) (v : Json)
    → member key fs ≡ some v
    → map_member key f fs ≡ done gs
    → (w : Json) × (f v ≡ done w) × (member key gs ≡ some w)
unfolding member map_member
map_member-found key f no_fields gs v there h = absurd (none-ne-some v there)
map_member-found key f (field k u fs) gs v there h = elim (map_member_field key f k u fs gs h) [
  | inl (e, (w, made, kept)) ↦ (
    w,
    subst (λ j. f j ≡ done w) (some-injective u v (sym (member-first k key u fs e) ∙ there)) made,
    ap (member key) kept ∙ member-first k key w fs e,
  )
  | inr (e, (more, made, kept)) ↦
      let (w, made_of, found) =
        map_member-found key f fs more v (sym (member-later k key u fs e) ∙ there) made in
      (w, made_of, ap (member key) kept ∙ member-later k key u more e ∙ found)
]

list-IsShown :
    (fs gs : Fields) (o : Option Json) (configs : List Json)
    → member "configs" fs ≡ o
    → as_array o ≡ some configs
    → map_member "configs" redact_list fs ≡ done gs
    → IsShown (some configs) (object gs)
unfolding array_at get
list-IsShown fs gs none configs e is_list h = absurd (none-ne-some configs is_list)
list-IsShown fs gs (some v) configs e is_list h =
    let (w, made, found) = map_member-found "configs" redact_list fs gs v e h in
    let (shown, is_shown, hidden) = redact_list-AllHidden v w configs is_list made in
    (shown, ap as_array found ∙ is_shown, hidden)

-- What the daemon shows of an object that an agent has returned when the configurations are read, listed
-- or deleted. If it has a list of configurations, they are shown as a list in which no object has a token, or the
-- credentials of its authentication; any other object is shown without its own token and the
-- credentials of its authentication.
pub redact_value-IsShown :
    (fs : Fields) (r : Json)
    → redact_value (array_at "configs" (object fs)) (object fs) ≡ done r
    → (gs : Fields) × (r ≡ object gs) × IsShown (array_at "configs" (object fs)) (object gs)
unfolding redact_value redact array_at get
redact_value-IsShown fs r h = go (as_array (member "configs" fs)) refl h
  where
    go :
        (o : Option (List Json))
        → as_array (member "configs" fs) ≡ o
        → redact_value o (object fs) ≡ done r
        → (gs : Fields) × (r ≡ object gs) × IsShown o (object gs)
    go none e h =
        let (gs, made, kept) =
          >>=-eq-done (map_member "authentication" (erase_in "credentials") (erase "token" fs))
            (λ more. done (object more)) h in
        (gs, sym (done-inj kept), fields-IsHidden fs gs made)
    go (some configs) e h =
        let (gs, made, kept) =
          >>=-eq-done (map_member "configs" redact_list fs) (λ more. done (object more)) h in
        (gs, sym (done-inj kept), list-IsShown fs gs (member "configs" fs) configs refl e made)
