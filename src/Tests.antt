-- ===== src/Tests.antt =====
-- The theorems on cards, routing, URLs and states, applied to concrete values.
use a2ad.Common.{◌≤◌, ◌≡◌, refl, true, some, [], ◌∷◌, Text, bytes, length, arith, inl}
use a2ad.TaskState.{lower}
use a2ad.AgentCard.{
  AgentInterface, Agent, no_card, url_host, authority_host, is_local_host, is_local_only_url,
  effective_endpoint, first_supported, supported, safe, effective_interface, known_binding, is_v1,
  to_upper,
}
use a2ad.Config.{ProjectRule, covers, rule_path, better, best, default_agent_for}
use a2ad.Config.Routing.{IsRule, default_agent-longest}
use a2ad.Url.{url_encode}
use a2ad.Url.Encoding.{percent_decode, decode-url_encode}

-- A card that advertises a port of this machine for an agent that is elsewhere.
abbrev loopback : AgentInterface
loopback = record {
  url = bytes "http://localhost:8080/a2a";
  protocol_binding = bytes "jsonrpc";
  protocol_version = bytes "1.0";
  tenant = "";
}

abbrev remote : Agent
remote = record {
  endpoint = bytes "https://dev01.internal/a2a";
  card = some (record no_card { interfaces = loopback ∷ [] });
}

abbrev redirected : AgentInterface
redirected = record loopback { url = bytes "https://dev01.internal/a2a" }

-- An interface of gRPC is given without a scheme, and then moves the agent to this machine.
abbrev schemeless : Agent
schemeless = record remote {
  card = some (record no_card {
    interfaces =
        record loopback { url = bytes "localhost:50051"; protocol_binding = bytes "GRPC" } ∷ [];
  });
}

schemeless_local : effective_endpoint schemeless ≡ bytes "localhost:50051"
unfolding effective_endpoint effective_interface first_supported supported safe is_local_only_url
    url_host authority_host is_local_host known_binding is_v1 to_upper lower
schemeless_local = refl

abbrev as_is : Text → Text
as_is p = p

abbrev home_rule : ProjectRule
home_rule = record { path = bytes "/home"; default_agent = bytes "general" }

abbrev project_rule : ProjectRule
project_rule = record { path = bytes "/home/p"; default_agent = bytes "cpp" }

default_agent-longest_example :
    (r : ProjectRule) × IsRule as_is r (home_rule ∷ project_rule ∷ [])
    × (covers (rule_path as_is r) (bytes "/home/p/src") ≡ true)
    × (r.default_agent ≡ bytes "cpp")
    × (length (rule_path as_is home_rule) ≤ length (rule_path as_is r))
unfolding default_agent_for best better covers
default_agent-longest_example =
    default_agent-longest as_is (home_rule ∷ project_rule ∷ []) (bytes "/home/p/src") (bytes "cpp")
      home_rule refl (inl refl) refl

decode-url_encode_example : percent_decode (url_encode (bytes "a b")) ≡ bytes "a b"
decode-url_encode_example =
    decode-url_encode (bytes "a b") (omega arith, (omega arith, (omega arith, tt)))
