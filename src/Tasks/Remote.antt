-- ===== src/Tasks/Remote.antt =====
-- daemon/src/TaskManager.cpp: cancelling, refreshing, answering and reconciling a task. The agent's
-- side, `A2AClient`, is a parameter, as is the resolution of an agent's endpoint and credentials.
use a2ad.Common.{
  ℕ, String, Bool, true, false, Option, none, some, List, [], ◌∷◌, ◌++◌, ◌==◌, string_eq,
  if◌then◌else◌, lookup, Text, bytes, is_empty,
}
use a2ad.Common.Int.{ℤ, pos}
use a2ad.Json.{Json, null}
use a2ad.Tasks.{Message, Task, Manager, emit, put_task, remote_or}

-- `A2AResult::ErrorKind`
pub data ErrorKind : Type 0 where
  no_error local_network auth_required protocol_error task_failure malformed_response : ErrorKind

unfoldable pub error_kind_name : ErrorKind → String
error_kind_name no_error = ""
error_kind_name local_network = "local_network"
error_kind_name auth_required = "auth_required"
error_kind_name protocol_error = "protocol_error"
error_kind_name task_failure = "task_failure"
error_kind_name malformed_response = "malformed_response"

pub record A2aResult : Type 0 where
  pub ok : Bool
  pub task : Option Task
  pub tasks : List Task
  pub message_text : Text
  pub context_id : String
  pub message : Option Message
  pub next_page_token : String
  pub page_size : ℤ
  pub total_size : ℤ
  pub value : Json
  pub error_kind : ErrorKind
  pub error : Text
  pub http_status : ℕ
  pub protocol_code : ℤ
  pub error_details : Json

-- A new result.
abbrev pub no_result : A2aResult
no_result = record {
  ok = false;
  task = none;
  tasks = [];
  message_text = [];
  context_id = "";
  message = none;
  next_page_token = "";
  page_size = pos 0;
  total_size = pos 0;
  value = null;
  error_kind = no_error;
  error = [];
  http_status = 0;
  protocol_code = pos 0;
  error_details = null;
}

abbrev pub failed_result : ErrorKind → Text → A2aResult
failed_result kind error = record no_result { error_kind = kind; error = error }

-- An endpoint with its credentials, as `resolveEndpoint` finds it.
pub record Client (Endpoint : Type 0) : Type 0 where
  pub resolve : String → Option Endpoint
  pub send_message : Endpoint → Text → String → String → String → A2aResult
  pub get_task : Endpoint → String → A2aResult
  pub cancel_task : Endpoint → String → A2aResult
  pub listens : Bool

-- What stays of the stored task when the agent sends a new version.
unfoldable pub adopt : String → Task → Task → Task
adopt now existing t = record t {
  remote_task_id = remote_or t.remote_task_id t.id;
  id = existing.id;
  agent = existing.agent;
  title = existing.title;
  cwd = existing.cwd;
  created_at = existing.created_at;
  updated_at = now;
}

-- A remote id that is not empty.
unfoldable pub remote_id : Task → Option String
remote_id t = elim t.remote_task_id [ none ↦ none | some id ↦ if id == "" then none else some id ]

-- `if (a.empty()) a = b`
abbrev pub text_or : Text → Text → Text
text_or a b = if is_empty a then b else a

abbrev pub string_or : String → String → String
string_or a b = if a == "" then b else a

module _ {Endpoint : Type 0} (c : Client Endpoint) (now : String) where
  -- The stored task is replaced by `t`, and a change of state is announced.
  unfoldable pub replace : Task → Task → Manager → Manager
  replace existing t m = emit c.listens t.id existing.state t.state (put_task t m)

  -- `if (r.ok && r.task)`
  unfoldable pub when_task : A2aResult → (Task → Manager) → Manager → Manager
  when_task r k m = if r.ok then elim r.task [ some t ↦ k t | none ↦ m ] else m

  unfoldable pub cancelled : Task → A2aResult → Manager → A2aResult × Manager
  cancelled existing r m = (
    r,
    when_task r
        (λ t. replace existing (record (adopt now existing t) { last_state_change = now }) m) m,
  )

  unfoldable pub cancel_at : Manager → Task → Endpoint → Option String → A2aResult × Manager
  cancel_at m existing e none = (
    failed_result protocol_error (bytes "interaction has no remote task and cannot be canceled"),
    m,
  )
  cancel_at m existing e (some id) = cancelled existing (c.cancel_task e id) m

  unfoldable pub cancel_known : Manager → Task → Option Endpoint → A2aResult × Manager
  cancel_known m existing none = (failed_result local_network (bytes "unknown agent"), m)
  cancel_known m existing (some e) = cancel_at m existing e (remote_id existing)

  unfoldable pub no_such_task : String → A2aResult
  no_such_task id = failed_result protocol_error (bytes "no such task: " ++ bytes id)

  unfoldable pub cancel_found : String → Manager → Option Task → A2aResult × Manager
  cancel_found id m none = (no_such_task id, m)
  cancel_found id m (some existing) = cancel_known m existing (c.resolve existing.agent)

  unfoldable pub cancel : String → Manager → A2aResult × Manager
  cancel id m = cancel_found id m (lookup id m.tasks)

  unfoldable pub refresh_at : Manager → Task → Endpoint → Option String → A2aResult × Manager
  refresh_at m existing e none = (
    record (failed_result no_error []) {
      ok = true;
      task = some existing;
      context_id = existing.context;
    },
    m,
  )
  refresh_at m existing e (some id) = (
    c.get_task e id,
    when_task (c.get_task e id) (λ t. replace existing (adopt now existing t) m) m,
  )

  unfoldable pub refresh_known : Manager → Task → Option Endpoint → A2aResult × Manager
  refresh_known m existing none = (failed_result local_network (bytes "unknown agent"), m)
  refresh_known m existing (some e) = refresh_at m existing e (remote_id existing)

  unfoldable pub refresh_found : String → Manager → Option Task → A2aResult × Manager
  refresh_found id m none = (no_such_task id, m)
  refresh_found id m (some existing) = refresh_known m existing (c.resolve existing.agent)

  unfoldable pub refresh : String → Manager → A2aResult × Manager
  refresh id m = refresh_found id m (lookup id m.tasks)

  -- The version that the reconciliation keeps: the agent's title, directory and date, if it has them.
  unfoldable pub reconciled : Task → Task → Task
  reconciled t fresh = record fresh {
    remote_task_id = remote_or fresh.remote_task_id fresh.id;
    id = t.id;
    title = text_or fresh.title t.title;
    cwd = text_or fresh.cwd t.cwd;
    created_at = string_or fresh.created_at t.created_at;
    agent = t.agent;
    updated_at = now;
  }

  abbrev pub noted : Task → Text → Task
  noted t error = record t { error = bytes "reconciliation failed: " ++ error }

  unfoldable pub reconcile_failed : Task → A2aResult → Manager → Manager
  reconcile_failed t r m = elim r.error_kind [
    | local_network ↦ m
    | _ ↦ put_task (noted t r.error) m
  ]

  unfoldable pub reconcile_result : Task → A2aResult → Manager → Manager
  reconcile_result t r m =
      if r.ok
      then elim r.task [
        | some fresh ↦ replace t (reconciled t fresh) m
        | none ↦ reconcile_failed t r m
      ]
      else reconcile_failed t r m

  unfoldable pub reconcile_task : Task → Manager → Manager
  reconcile_task t m = elim (c.resolve t.agent) [
    | none ↦ m
    | some e ↦ elim (remote_id t) [ none ↦ m | some id ↦ reconcile_result t (c.get_task e id) m ]
  ]

  -- The loop of `reconcileOnStartup` over the tasks that are not terminal.
  unfoldable pub reconcile : List Task → Manager → Manager
  reconcile [] m = m
  reconcile (t ∷ ts) m = reconcile ts (reconcile_task t m)
