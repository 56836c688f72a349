-- ===== src/AgentCard.antt =====
-- daemon/src/AgentCard.cpp: which interface of an agent's card the daemon talks to.
use a2ad.Common.{
  ℕ, ◌-◌, String, Bool, true, false, ◌&&◌, ◌||◌, not, Option, none, some, List, [], ◌∷◌, map, leb,
  ltb, ◌==◌, nat_eq, text_eq, if◌then◌else◌, Text, bytes, length, drop, starts_with, find, has_byte,
  Dict, until, after_last, ends_with, is_empty,
}
use a2ad.Json.{Json}
use a2ad.TaskState.{lower}
pub mod Loopback
pub mod Effective

pub record AgentInterface : Type 0 where
  pub url : Text
  pub protocol_binding : Text
  pub protocol_version : Text
  pub tenant : String

pub record SecurityScheme : Type 0 where
  pub name : String
  pub type : String
  pub scheme : String
  pub location : String
  pub parameter : String

pub record AgentSkill : Type 0 where
  pub id : String
  pub name : String
  pub description : String
  pub tags : List String

pub record AgentCapabilities : Type 0 where
  pub streaming : Bool
  pub push_notifications : Bool
  pub extended_agent_card : Bool

pub record AgentExtension : Type 0 where
  pub uri : String
  pub description : String
  pub required : Bool
  pub params : Json

-- A security requirement is a table of scopes by the names of schemes.
pub record AgentCard : Type 0 where
  pub name : String
  pub description : String
  pub version : String
  pub capabilities : AgentCapabilities
  pub extensions : List AgentExtension
  pub skills : List AgentSkill
  pub interfaces : List AgentInterface
  pub input_modes : List String
  pub output_modes : List String
  pub auth_schemes : List String
  pub security_schemes : Dict SecurityScheme
  pub security_requirements : List (Dict (List String))
  pub warnings : List Text
  pub valid : Bool
  pub parse_error : Text

-- The default values of the members.
abbrev pub no_card : AgentCard
no_card = record {
  name = "";
  description = "";
  version = "";
  capabilities = record {
    streaming = false;
    push_notifications = false;
    extended_agent_card = false;
  };
  extensions = [];
  skills = [];
  interfaces = [];
  input_modes = [];
  output_modes = [];
  auth_schemes = [];
  security_schemes = [];
  security_requirements = [];
  warnings = [];
  valid = false;
  parse_error = [];
}

pub record Agent : Type 0 where
  pub endpoint : Text
  pub card : Option AgentCard

-- `std::toupper` of the C locale.
unfoldable pub to_upper : ℕ → ℕ
to_upper c = if leb b'a' c && leb c b'z' then c - 32 else c

unfoldable pub known_binding : Text → Bool
known_binding b =
    b == bytes "JSONRPC"
    || b == bytes "GRPC"
    || b == bytes "HTTP+JSON"
    || b == bytes "REST"
    || b == bytes "HTTP_JSON"

unfoldable pub is_v1 : Text → Bool
is_v1 v = is_empty v || v == bytes "1" || starts_with v (bytes "1.")

unfoldable pub supported : AgentInterface → Bool
supported i =
    known_binding (map to_upper i.protocol_binding)
    && is_v1 i.protocol_version
    && not (is_empty i.url)

abbrev pub ends_authority : ℕ → Bool
ends_authority c = c == b'/' || c == b'?' || c == b'#'

-- The host in an authority from which the user information is gone.
unfoldable pub authority_host : Text → Text
authority_host [] = []
authority_host (c ∷ s) =
    if c == b'['
    then (if has_byte b']' s then until (λ d. d == b']') s else [])
    else lower (until (λ d. d == b':') (c ∷ s))

unfoldable pub url_host : Text → Text
url_host url = elim (find url (bytes "://")) [
  | none ↦ []
  | some n ↦ authority_host (after_last b'@' (until ends_authority (drop 3 (drop n url))))
]

unfoldable pub is_local_host : Text → Bool
is_local_host host =
    host == bytes "localhost"
    || host == bytes "::"
    || host == bytes "::1"
    || host == bytes "0.0.0.0"
    || ltb 10 (length host) && ends_with host (bytes ".localhost")
    || starts_with host (bytes "127.")

unfoldable pub is_local_only_url : Text → Bool
is_local_only_url url = is_local_host (url_host url)

-- A remote card cannot move a configured endpoint that is not local to a local one.
unfoldable pub safe : Text → AgentInterface → AgentInterface
safe endpoint i =
    if not (is_empty endpoint) && not (is_local_only_url endpoint) && is_local_only_url i.url
    then record i { url = endpoint }
    else i

-- The loop over the interfaces of the card.
unfoldable pub first_supported : Text → List AgentInterface → Option AgentInterface
first_supported endpoint [] = none
first_supported endpoint (i ∷ is) =
    if supported i then some (safe endpoint i) else first_supported endpoint is

unfoldable pub configured : Text → Option AgentInterface
configured endpoint =
    if is_empty endpoint
    then none
    else some (record {
      url = endpoint;
      protocol_binding = bytes "JSONRPC";
      protocol_version = bytes "1.0";
      tenant = "";
    })

abbrev pub interfaces_of : Option AgentCard → List AgentInterface
interfaces_of none = []
interfaces_of (some c) = c.interfaces

unfoldable pub effective_interface : Agent → Option AgentInterface
effective_interface a = elim (first_supported a.endpoint (interfaces_of a.card)) [
  | some i ↦ some i
  | none ↦ configured a.endpoint
]

unfoldable pub effective_endpoint : Agent → Text
effective_endpoint a = elim (effective_interface a) [ some i ↦ i.url | none ↦ a.endpoint ]

unfoldable pub supports_streaming : Agent → Bool
supports_streaming a = elim a.card [ none ↦ false | some c ↦ c.capabilities.streaming ]
