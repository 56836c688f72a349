-- ===== src/Daemon/Submit.antt =====
-- daemon/src/main.cpp: the operations that submit, answer, cancel, read and save tasks.
use a2ad.Common.{
  ℕ, ◌-◌, ◌%◌, ◌^◌, String, Bool, true, false, ◌||◌, not, Option, none, some, List, [], ◌∷◌, ◌++◌,
  ◌==◌, nat_eq, string_eq, if◌then◌else◌, lookup, Text, bytes, map,
}
use a2ad.Common.Int.{ℤ, pos, negsuc}
use a2ad.Json.{
  Json, boolean, string, array, items, Try, done, ◌>>=◌, utf8, value_text, value_bool, record_of,
  value_integer,
}
use a2ad.TaskState.{to_string, is_terminal}
use a2ad.Tasks.{Task, Manager}
use a2ad.Tasks.Remote.{A2aResult, cancel, refresh}
use a2ad.Tasks.Create.{Fresh, CreateTaskResponse, create_task, respond}
use a2ad.Tasks.Materialize.{Checked, good, fault, Saved, materialize}
use a2ad.Daemon.{Host}
use a2ad.Daemon.Replies.{failure, success, json_text, error_reply, task_to_json, summary_to_json}

-- `size_t`
unfoldable pub to_size : ℤ → ℕ
to_size (pos n) = n % 2 ^ 64
to_size (negsuc n) = 2 ^ 64 - 1 - n % 2 ^ 64

module _ {Endpoint : Type 0} (host : Host Endpoint) (f : Fresh) where
  unfoldable pub submit_reply : CreateTaskResponse → Json
  submit_reply r =
      if r.ok
      then success (
          ("task_id", string r.task_id)
          ∷ ("context_id", string r.context_id)
          ∷ ("state", json_text host (to_string r.state))
          ∷ ("message", json_text host r.message)
          ∷ [])
      else failure (json_text host r.message) r.error_kind

  unfoldable pub no_route : Json
  no_route = failure (string "no agent supplied and no project default matches cwd") "no_route"

  -- The agent that a submission goes to.
  unfoldable pub chosen_agent : String → String → Option String
  chosen_agent agent cwd = if agent == "" then host.default_agent (utf8 cwd) else some agent

  unfoldable pub submit_to : Option String → Json → Manager → Try (Json × Manager)
  submit_to none req m = done (no_route, m)
  submit_to (some agent) req m = do
    cwd ← value_text "cwd" "" req
    message ← value_text "message" "" req
    request_id ← value_text "request_id" "" req
    task_id ← value_text "task_id" "" req
    context_id ← value_text "context_id" "" req
    (let (r, m') =
          create_task host.client f
            (record {
              agent = agent;
              message = utf8 message;
              request_id = request_id;
              cwd = utf8 cwd;
              continue_task_id = task_id;
              continue_context_id = context_id;
            })
            m in
        done (submit_reply r, m'))

  unfoldable pub submit : Json → Manager → Try (Json × Manager)
  submit req m = do
    agent ← value_text "agent" "" req
    cwd ← value_text "cwd" "" req
    submit_to (chosen_agent agent cwd) req m

  abbrev pub wanted : Bool → List (String × Task) → List Task
  wanted all [] = []
  wanted all ((id, t) ∷ rows) =
      let rest = wanted all rows in if all || not (is_terminal t.state) then t ∷ rest else rest

  unfoldable pub list : Json → Manager → Try Json
  list req m = do
    all ← value_bool "include_terminal" true req
    done (success (("tasks", array (items (map (summary_to_json host) (wanted all m.tasks)))) ∷ []))

  abbrev pub plain_error : Text → Json
  plain_error error = record_of (("ok", boolean false) ∷ ("error", json_text host error) ∷ [])

  unfoldable pub task_reply : String → Option Task → Json
  task_reply id none = plain_error (bytes "no such task: " ++ bytes id)
  task_reply id (some t) = success (("task", task_to_json host t) ∷ [])

  -- The stored task, after a refresh that has succeeded if one is asked for.
  unfoldable pub refreshed_reply : String → A2aResult × Manager → Json × Manager
  refreshed_reply id (r, m) =
      if r.ok then (task_reply id (lookup id m.tasks), m) else (error_reply host r, m)

  unfoldable pub status : Json → Manager → Try (Json × Manager)
  status req m = do
    id ← value_text "task_id" "" req
    fresh ← value_bool "refresh" false req
    done (
        if fresh
        then refreshed_reply id (refresh host.client f.now id m)
        else (task_reply id (lookup id m.tasks), m))

  unfoldable pub respond_reply : CreateTaskResponse → Json
  respond_reply r =
      if r.ok
      then success
          (("task_id", string r.task_id) ∷ ("state", json_text host (to_string r.state)) ∷ [])
      else failure (json_text host r.message) r.error_kind

  unfoldable pub respond_op : Json → Manager → Try (Json × Manager)
  respond_op req m = do
    id ← value_text "task_id" "" req
    text ← value_text "message" "" req
    request_id ← value_text "request_id" "" req
    (let (r, m') = respond host.client f id (utf8 text) request_id m in done (respond_reply r, m'))

  abbrev pub state_or_unknown : Option Task → Json
  state_or_unknown none = string "UNKNOWN"
  state_or_unknown (some t) = json_text host (to_string t.state)

  unfoldable pub cancel_reply : String → A2aResult → Json
  cancel_reply id r =
      if r.ok
      then success (("task_id", string id) ∷ ("state", state_or_unknown r.task) ∷ [])
      else error_reply host r

  unfoldable pub cancel_op : Json → Manager → Try (Json × Manager)
  cancel_op req m = do
    id ← value_text "task_id" "" req
    (let (r, m') = cancel host.client f.now id m in done (cancel_reply id r, m'))

  unfoldable pub saved_reply : Checked Saved → Json
  saved_reply (fault e) = plain_error e
  saved_reply (good s) = success (("path", json_text host (s.directory ++ b'/' ∷ s.name)) ∷ [])

  unfoldable pub materialize_op : Json → Manager → Try Json
  materialize_op req m = do
    task_id ← value_text "task_id" "" req
    artifact_id ← value_text "artifact_id" "" req
    part ← value_integer "part" (pos 0) req
    output_dir ← value_text "output_dir" "" req
    sha256 ← value_text "sha256" "" req
    done (
        saved_reply (
          materialize host.services host.disk m task_id artifact_id (to_size part) (utf8 output_dir)
            sha256))
