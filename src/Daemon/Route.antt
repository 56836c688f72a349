-- ===== src/Daemon/Route.antt =====
-- daemon/src/main.cpp: the agent that a request is routed to before the control plane hashes it. The
-- configuration is a parameter.
use a2ad.Common.{
  String, Bool, ◌||◌, Option, none, some, ◌==◌, nat_eq, string_eq, if◌then◌else◌, lookup, Text,
}
use a2ad.Json.{Json, string, Try, done, ◌>>=◌, utf8, contains, value_text}
use a2ad.Tasks.{Task, Manager}
use a2ad.A2aClient.Call.{set_member}

-- `if (agent) req["agent"] = *agent`
abbrev pub routed_to : Option String → Json → Try Json
routed_to none req = done req
routed_to (some agent) req = set_member "agent" (string agent) req

-- The request with the default agent of its directory.
abbrev pub with_default : (Text → Option String) → Json → Try Json
with_default default_agent req = do
  cwd ← value_text "cwd" "" req
  routed_to (default_agent (utf8 cwd)) req

-- The request whose agent is known before it is hashed: the default agent of a submission without
-- one, and the agent of the stored task of an operation on a task.
unfoldable pub route_submit : (Text → Option String) → Json → Try Json
route_submit default_agent req = do
  agent ← value_text "agent" "" req
  (if agent == "" then with_default default_agent req else done req)

abbrev pub is_on_task : String → Bool
is_on_task op = op == "respond" || op == "cancel" || op == "artifact.materialize"

abbrev pub agent_of : Option Task → Option String
agent_of none = none
agent_of (some t) = some t.agent

abbrev pub with_task_agent : Manager → Json → Try Json
with_task_agent m req = do
  id ← value_text "task_id" "" req
  routed_to (agent_of (lookup id m.tasks)) req

unfoldable pub route_task : Manager → Json → Try Json
route_task m req = if contains "task_id" req then with_task_agent m req else done req

abbrev pub route_known : Manager → String → Json → Try Json
route_known m op req = if is_on_task op then route_task m req else done req

abbrev pub route_new : (Text → Option String) → String → Json → Try Json
route_new default_agent op req = if op == "submit" then route_submit default_agent req else done req

abbrev pub route_op : (Text → Option String) → Manager → Json → String → Try Json
route_op default_agent m req op = do
  routed ← route_new default_agent op req
  route_known m op routed

unfoldable pub route : (Text → Option String) → Manager → Json → Try Json
route default_agent m req = do op ← value_text "op" "" req; route_op default_agent m req op
