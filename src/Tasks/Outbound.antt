-- ===== src/Tasks/Outbound.antt =====
-- daemon/src/TaskManager.cpp: the operations that pass a call on to an agent.
use a2ad.Common.{
  String, Option, none, some, List, [], ◌∷◌, ◌++◌, ◌==◌, string_eq, if◌then◌else◌, bytes,
}
use a2ad.Common.Int.{ℤ}
use a2ad.Tasks.{Task}
use a2ad.Tasks.Remote.{A2aResult, no_result, failed_result, protocol_error}
use a2ad.A2aClient.Operations.{ListTasksFilter, PushNotificationConfig}

-- The operations of `A2AClient` at an endpoint with its credentials.
pub record Calls (Endpoint : Type 0) : Type 0 where
  pub list_tasks : Endpoint → ListTasksFilter → A2aResult
  pub create_push : Endpoint → PushNotificationConfig → A2aResult
  pub get_push : Endpoint → String → String → A2aResult
  pub list_push : Endpoint → String → ℤ → String → A2aResult
  pub delete_push : Endpoint → String → String → A2aResult
  pub extended_card : Endpoint → A2aResult

-- `if (task.agent.empty()) task.agent = agent`
unfoldable pub with_agent : String → List Task → List Task
with_agent agent [] = []
with_agent agent (t ∷ ts) =
    (if t.agent == "" then record t { agent = agent } else t) ∷ with_agent agent ts

unfoldable pub listed : String → A2aResult → A2aResult
listed agent r = if r.ok then record r { tasks = with_agent agent r.tasks } else r

module _ {Endpoint : Type 0} (resolve : String → Option Endpoint) (calls : Calls Endpoint) where
  -- The call at the endpoint of the agent.
  unfoldable pub at_agent : String → (Endpoint → A2aResult) → A2aResult
  at_agent agent call = elim (resolve agent) [
    | none ↦ record no_result { error = bytes "unknown agent: " ++ bytes agent }
    | some e ↦ call e
  ]

  unfoldable pub list_remote_tasks : String → ListTasksFilter → A2aResult
  list_remote_tasks agent filter = elim (resolve agent) [
    | none ↦ failed_result protocol_error (bytes "unknown agent: " ++ bytes agent)
    | some e ↦ listed agent (calls.list_tasks e filter)
  ]

  unfoldable pub create_push_config : String → PushNotificationConfig → A2aResult
  create_push_config agent config = at_agent agent (λ e. calls.create_push e config)

  unfoldable pub get_push_config : String → String → String → A2aResult
  get_push_config agent task_id id = at_agent agent (λ e. calls.get_push e task_id id)

  unfoldable pub list_push_configs : String → String → ℤ → String → A2aResult
  list_push_configs agent task_id page_size page_token =
      at_agent agent (λ e. calls.list_push e task_id page_size page_token)

  unfoldable pub delete_push_config : String → String → String → A2aResult
  delete_push_config agent task_id id = at_agent agent (λ e. calls.delete_push e task_id id)

  unfoldable pub get_extended_agent_card : String → A2aResult
  get_extended_agent_card agent = at_agent agent (λ e. calls.extended_card e)
