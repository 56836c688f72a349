-- ===== src/Daemon/Redact.antt =====
-- daemon/src/main.cpp: the push configurations that are shown, without their secrets.
use a2ad.Common.{String, Option, some, List, ◌==◌, string_eq, if◌then◌else◌}
use a2ad.Json.{
  Json, null, array, object, Items, no_items, item, Fields, no_fields, field, Try, done, raised,
  ◌>>=◌,
}
pub mod Secrets

-- `item.erase("token")`
unfoldable pub erase : String → Fields → Fields
erase key no_fields = no_fields
erase key (field k v fs) = let rest = erase key fs in if k == key then rest else field k v rest

abbrev pub erase_in : String → Json → Try Json
erase_in key (object fs) = done (object (erase key fs))
erase_in key null = raised
erase_in key _ = raised

unfoldable pub map_member : String → (Json → Try Json) → Fields → Try Fields
map_member key f no_fields = done no_fields
map_member key f (field k v fs) =
    let rest = map_member key f fs in
    if k == key
    then f v >>= (λ w. done (field k w fs))
    else rest >>= (λ more. done (field k v more))

-- A push configuration without its secrets.
unfoldable pub redact : Json → Try Json
unfolding erase
redact (object fs) =
    map_member "authentication" (erase_in "credentials") (erase "token" fs) >>= λ more.
    done (object more)
redact j = done j

unfoldable pub redact_items : Items → Try Items
redact_items no_items = done no_items
redact_items (item j js) = do r ← redact j; rs ← redact_items js; done (item r rs)

abbrev pub redact_list : Json → Try Json
redact_list (array js) = redact_items js >>= λ rs. done (array rs)
redact_list j = done j

-- The configurations of a list, or the one that is the value itself.
unfoldable pub redact_value : Option (List Json) → Json → Try Json
redact_value (some configs) (object fs) =
    map_member "configs" redact_list fs >>= λ more. done (object more)
redact_value _ j = redact j
