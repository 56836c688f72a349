-- ===== src/A2aClient/Discover.antt =====
-- daemon/src/A2AClient.cpp: the agent card in a JSON document, and its validation.
use a2ad.Common.{
  ℕ, String, Bool, true, false, ◌&&◌, ◌||◌, not, Option, none, some, List, [], ◌∷◌, ◌++◌, ◌==◌,
  nat_eq, string_eq, text_eq, if◌then◌else◌, Dict, insert, Text, bytes, starts_with, is_empty, map,
}
use a2ad.Json.{
  Json, string, array, object, Fields, no_fields, Library, Try, done, raised, ◌>>=◌, utf8, elements,
  members, get, contains, is_object, text_at, array_at, object_at, or_else, value_text, value_bool,
  texts, as_array,
}
use a2ad.AgentCard.{
  AgentInterface, SecurityScheme, AgentSkill, AgentCapabilities, AgentExtension, AgentCard, no_card,
}
use a2ad.Tasks.{empty_object}
pub mod Valid

-- `s(key)`: a text, or the empty one.
unfoldable pub text_or_none : String → Json → String
unfolding text_at
text_or_none key j = or_else (text_at key j) ""

unfoldable pub array_or_none : String → Json → List Json
unfolding array_at
array_or_none key j = or_else (array_at key j) []

unfoldable pub capabilities_of : Option Json → Try AgentCapabilities
capabilities_of none = done no_card.capabilities
capabilities_of (some c) = do
  streaming ← value_bool "streaming" false c
  push_notifications ← value_bool "pushNotifications" false c
  extended_agent_card ← value_bool "extendedAgentCard" false c
  done (record {
    streaming = streaming;
    push_notifications = push_notifications;
    extended_agent_card = extended_agent_card;
  })

unfoldable pub extension_of : Json → Try AgentExtension
extension_of j = do
  uri ← value_text "uri" "" j
  description ← value_text "description" "" j
  required ← value_bool "required" false j
  done (record {
    uri = uri;
    description = description;
    required = required;
    params = or_else (object_at "params" j) empty_object;
  })

-- A loop that skips what is no object.
unfoldable pub each_object : {A : Type 0} → (Json → Try A) → List Json → Try (List A)
each_object f [] = done []
each_object f (j ∷ js) =
    let rest = each_object f js in
    if is_object j then (do a ← f j; more ← rest; done (a ∷ more)) else rest

abbrev pub extensions_in : Option Json → List Json
extensions_in none = []
extensions_in (some c) = array_or_none "extensions" c

abbrev pub no_skill : AgentSkill
no_skill = record { id = ""; name = ""; description = ""; tags = [] }

unfoldable pub skill_of : Json → Try AgentSkill
unfolding array_or_none
skill_of (object fs) = do
  id ← value_text "id" "" (object fs)
  name ← value_text "name" "" (object fs)
  description ← value_text "description" "" (object fs)
  done (record {
    id = id;
    name = name;
    description = description;
    tags = texts (array_or_none "tags" (object fs));
  })
skill_of _ = done no_skill

unfoldable pub skills_of : List Json → Try (List AgentSkill)
skills_of [] = done []
skills_of (j ∷ js) = do skill ← skill_of j; skills ← skills_of js; done (skill ∷ skills)

unfoldable pub interface_of : Json → Try AgentInterface
interface_of j = do
  url ← value_text "url" "" j
  protocol_binding ← value_text "protocolBinding" "jsonrpc" j
  protocol_version ← value_text "protocolVersion" "" j
  tenant ← value_text "tenant" "" j
  done (record {
    url = utf8 url;
    protocol_binding = utf8 protocol_binding;
    protocol_version = utf8 protocol_version;
    tenant = tenant;
  })

-- The variant of a security scheme that the protocol wraps in a member of its own.
unfoldable pub api_key_scheme : SecurityScheme → Json → Try SecurityScheme
api_key_scheme scheme v = do
  location ← value_text "location" "" v
  parameter ← value_text "name" "" v
  done (record scheme { type = "apiKey"; location = location; parameter = parameter })

unfoldable pub http_scheme : SecurityScheme → Json → Try SecurityScheme
http_scheme scheme v = do
  name ← value_text "scheme" "" v
  done (record scheme { type = "http"; scheme = name })

unfoldable pub named_scheme : SecurityScheme → Json → SecurityScheme
unfolding get
named_scheme scheme j =
    if contains "oauth2SecurityScheme" j
    then record scheme { type = "oauth2" }
    else if contains "openIdConnectSecurityScheme" j
    then record scheme { type = "openIdConnect" }
    else if contains "mtlsSecurityScheme" j
    then record scheme { type = "mutualTLS" }
    else scheme

unfoldable pub wrapped_scheme :
    SecurityScheme → Json → Option Json → Option Json → Try SecurityScheme
wrapped_scheme scheme j (some v) _ = api_key_scheme scheme v
wrapped_scheme scheme j none (some v) = http_scheme scheme v
wrapped_scheme scheme j none none = done (named_scheme scheme j)

unfoldable pub scheme_of : String → Json → Try SecurityScheme
scheme_of key (object fs) = do
  type ← value_text "type" "" (object fs)
  scheme ← value_text "scheme" "" (object fs)
  location ← value_text "location" "" (object fs)
  inside ← value_text "in" location (object fs)
  parameter ← value_text "name" "" (object fs)
  wrapped_scheme
      (record {
        name = key;
        type = type;
        scheme = scheme;
        location = inside;
        parameter = parameter;
      })
      (object fs) (get "apiKeySecurityScheme" (object fs))
      (get "httpAuthSecurityScheme" (object fs))
scheme_of key _ =
    done (record { name = key; type = ""; scheme = ""; location = ""; parameter = "" })

unfoldable pub schemes_of : List (String × Json) → Try (Dict SecurityScheme)
unfolding insert
schemes_of [] = done []
schemes_of ((key, v) ∷ rows) = do
  scheme ← scheme_of key v
  schemes ← schemes_of rows
  done (insert key scheme schemes)

-- The members of an object.
abbrev pub rows_of : Option Json → List (String × Json)
rows_of (some (object fs)) = members fs
rows_of _ = []

abbrev pub keys : List (String × Json) → List String
keys [] = []
keys ((key, v) ∷ rows) = key ∷ keys rows

-- The scopes of a scheme, which may stand in a member `list`.
unfoldable pub scopes_of : Json → List String
unfolding get elements
scopes_of v = texts (or_else (as_array (some (or_else (get "list" v) v))) [])

unfoldable pub requirement_rows : List (String × Json) → Dict (List String)
unfolding insert
requirement_rows [] = []
requirement_rows ((key, v) ∷ rows) = insert key (scopes_of v) (requirement_rows rows)

unfoldable pub requirement_of : Json → Dict (List String)
unfolding object_at
requirement_of j = requirement_rows (rows_of (some (or_else (object_at "schemes" j) j)))

unfoldable pub requirements_of : List Json → List (Dict (List String))
requirements_of [] = []
requirements_of (object fs ∷ js) = requirement_of (object fs) ∷ requirements_of js
requirements_of (_ ∷ js) = requirements_of js

-- `securityRequirements`, or the older `security`.
unfoldable pub requirements_in : Json → List Json
unfolding get array_or_none
requirements_in j =
    if contains "securityRequirements" j
    then array_or_none "securityRequirements" j
    else array_or_none "security" j

-- The members up to the interfaces, which are registered before the rest is read.
unfoldable pub card_interfaces : Json → Try AgentCard
card_interfaces j = do
  capabilities ← capabilities_of (object_at "capabilities" j)
  extensions ← each_object extension_of (extensions_in (object_at "capabilities" j))
  skills ← skills_of (array_or_none "skills" j)
  interfaces ← each_object interface_of (array_or_none "supportedInterfaces" j)
  done (record no_card {
    name = text_or_none "name" j;
    description = text_or_none "description" j;
    version = text_or_none "version" j;
    capabilities = capabilities;
    extensions = extensions;
    skills = skills;
    interfaces = interfaces;
  })

unfoldable pub card_rest : Json → AgentCard → Try AgentCard
card_rest j card = do
  schemes ← schemes_of (rows_of (object_at "securitySchemes" j))
  done (record card {
    input_modes = texts (array_or_none "defaultInputModes" j);
    output_modes = texts (array_or_none "defaultOutputModes" j);
    auth_schemes = keys (rows_of (object_at "securitySchemes" j));
    security_schemes = schemes;
    security_requirements = requirements_of (requirements_in j);
  })

abbrev pub warn_if : Bool → String → List Text
warn_if true text = (bytes "nonconforming Agent Card: " ++ bytes text) ∷ []
warn_if false text = []

abbrev pub is_nil : {A : Type 0} → List A → Bool
is_nil [] = true
is_nil (x ∷ xs) = false

unfoldable pub warnings_of : Json → AgentCard → List Text
unfolding get
warnings_of j card =
    warn_if (card.description == "") "required description is missing"
    ++ warn_if (card.version == "") "required version is missing"
    ++ warn_if (is_nil card.interfaces)
        "no supportedInterfaces were advertised; using configured endpoint"
    ++ warn_if (not (contains "capabilities" j)) "required capabilities are missing"
    ++ warn_if (is_nil card.input_modes) "required defaultInputModes are missing"
    ++ warn_if (is_nil card.output_modes) "required defaultOutputModes are missing"
    ++ warn_if (is_nil card.skills) "required skills are missing"

-- The loop over the versions of the interfaces, on `has_v1` and the warnings.
unfoldable pub versions : List AgentInterface → Bool × List Text → Bool × List Text
versions [] (has_v1, warnings) = (has_v1, warnings)
versions (i ∷ is) (has_v1, warnings) = versions is (
    if is_empty i.protocol_version
    then (
      true,
      warnings
          ++ bytes "nonconforming Agent Card: interface protocolVersion is missing; assuming 1.0"
            ∷ [],
    )
    else (
      has_v1 || i.protocol_version == bytes "1" || starts_with i.protocol_version (bytes "1."),
      warnings,
    ))

abbrev pub signed : List Json → List Text
signed [] = []
signed (j ∷ js) =
    bytes
      "Agent Card signatures were not verified because no trusted verification key is configured"
    ∷ []

-- The first extension that is required.
unfoldable pub required_extension : List AgentExtension → Option AgentExtension
required_extension [] = none
required_extension (e ∷ es) = if e.required then some e else required_extension es

unfoldable pub judged : Bool → Option AgentExtension → AgentCard → AgentCard
judged has_v1 (some e) card = record card {
  valid = false;
  parse_error = bytes "Agent Card requires unsupported extension: " ++ utf8 e.uri;
}
judged true none card = record card { valid = true }
judged false none card = record card {
  valid = false;
  parse_error = bytes "Agent Card has no supported A2A v1.x interface";
}

unfoldable pub validated : Json → AgentCard → AgentCard
unfolding array_or_none
validated j card =
    let (has_v1, warnings) =
      versions card.interfaces (is_nil card.interfaces, warnings_of j card) in
    judged has_v1 (required_extension card.extensions) (record card {
      warnings =
          warnings
          ++ (if has_v1
              then []
              else bytes "Agent Card does not advertise an A2A v1.x interface" ∷ [])
          ++ signed (array_or_none "signatures" j);
    })
