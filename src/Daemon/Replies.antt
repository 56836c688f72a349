-- ===== src/Daemon/Replies.antt =====
-- daemon/src/main.cpp: tasks and results as the replies of the daemon.
use a2ad.Common.{
  String, Bool, true, false, Option, none, some, List, [], ◌∷◌, nat_eq, string_eq, Text, map,
}
use a2ad.Json.{Json, boolean, string, array, items, record_of}
use a2ad.TaskState.{to_string}
use a2ad.Tasks.{Message, Artifact, Task, message_text}
use a2ad.Tasks.Remote.{error_kind_name, A2aResult}
use a2ad.Tasks.Preview.{content_summary}
use a2ad.Daemon.{Host}

abbrev pub failure : Json → String → Json
failure error kind =
    record_of (("ok", boolean false) ∷ ("error", error) ∷ ("error_kind", string kind) ∷ [])

abbrev pub success : List (String × Json) → Json
success rows = record_of (("ok", boolean true) ∷ rows)

module _ {Endpoint : Type 0} (host : Host Endpoint) where
  abbrev pub json_text : Text → Json
  json_text t = string (host.lib.text t)

  unfoldable pub error_reply : A2aResult → Json
  error_reply r = failure (json_text r.error) (error_kind_name r.error_kind)

  unfoldable pub message_json : Message → Json
  message_json m = record_of (
      ("message_id", string m.message_id)
      ∷ ("role", string m.role)
      ∷ ("text", json_text (message_text m))
      ∷ [])

  unfoldable pub artifact_json : Artifact → Json
  artifact_json a = record_of (
      ("artifact_id", string a.artifact_id)
      ∷ ("name", string a.name)
      ∷ ("description", string a.description)
      ∷ ("content", json_text (content_summary host.services.to_string a))
      ∷ [])

  abbrev pub remote_text : Option String → String
  remote_text none = ""
  remote_text (some id) = id

  -- `taskToJson`
  unfoldable pub task_to_json : Task → Json
  task_to_json t = record_of (
      ("task_id", string t.id)
      ∷ ("remote_task_id", string (remote_text t.remote_task_id))
      ∷ ("agent", string t.agent)
      ∷ ("context_id", string t.context)
      ∷ ("state", json_text (to_string t.state))
      ∷ ("state_message", json_text t.state_message)
      ∷ ("title", json_text t.title)
      ∷ ("cwd", json_text t.cwd)
      ∷ ("created_at", string t.created_at)
      ∷ ("updated_at", string t.updated_at)
      ∷ ("last_state_change", string t.last_state_change)
      ∷ ("error", json_text t.error)
      ∷ ("messages", array (items (map message_json t.messages)))
      ∷ ("artifacts", array (items (map artifact_json t.artifacts)))
      ∷ [])

  abbrev pub has_artifacts : Task → Bool
  has_artifacts t = elim t.artifacts [ [] ↦ false | a ∷ as' ↦ true ]

  -- `summaryToJson`, of the summary that `listTasks` makes.
  unfoldable pub summary_to_json : Task → Json
  summary_to_json t = record_of (
      ("id", string t.id)
      ∷ ("agent", string t.agent)
      ∷ ("state", json_text (to_string t.state))
      ∷ ("title", json_text t.title)
      ∷ ("cwd", json_text t.cwd)
      ∷ ("created_at", string t.created_at)
      ∷ ("updated_at", string t.updated_at)
      ∷ ("state_message", json_text t.state_message)
      ∷ ("has_artifacts", boolean (has_artifacts t))
      ∷ [])
