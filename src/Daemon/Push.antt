-- ===== src/Daemon/Push.antt =====
-- daemon/src/main.cpp: the operations on the tasks and the push configurations an agent keeps.
use a2ad.Common.{
  String, Bool, false, not, Option, none, some, List, [], ◌∷◌, nat_eq, string_eq, if◌then◌else◌,
  Text, bytes, starts_with, is_empty, map,
}
use a2ad.Common.Int.{ℤ, pos}
use a2ad.Json.{
  Json, boolean, number, string, array, items, Try, done, ◌>>=◌, utf8, get, array_at, text_at,
  value_text, value_int, record_of, to_int,
}
use a2ad.TaskState.{TaskState, parse_task_state}
use a2ad.Tasks.Remote.{A2aResult}
use a2ad.Tasks.Outbound.{
  list_remote_tasks, create_push_config, get_push_config, list_push_configs, delete_push_config,
  get_extended_agent_card,
}
use a2ad.A2aClient.Stream.{lines_from}
use a2ad.Credentials.{without_cr}
use a2ad.Daemon.{Host}
use a2ad.Daemon.Replies.{success, error_reply, task_to_json}
use a2ad.Daemon.Redact.{redact, redact_value}

abbrev pub first_or_empty : List Text → Text
first_or_empty [] = []
first_or_empty (line ∷ lines) = line

module _ {Endpoint : Type 0} (host : Host Endpoint) where
  -- `readSecretFile`
  unfoldable pub read_secret : Text → Text
  read_secret path = if is_empty path then [] else elim (host.read_file path) [
    | none ↦ []
    | some content ↦ without_cr (first_or_empty (lines_from [] content))
  ]

  abbrev pub int_of : Option Json → Option ℤ
  int_of (some (number i s)) = some (to_int i)
  int_of _ = none

  abbrev pub bool_of : Option Json → Option Bool
  bool_of (some (boolean b)) = some b
  bool_of _ = none

  abbrev pub state_of : Option String → Option TaskState
  state_of none = none
  state_of (some s) = parse_task_state (utf8 s)

  unfoldable pub remote_reply : A2aResult → Json
  remote_reply r =
      if r.ok
      then success (
          ("tasks", array (items (map (task_to_json host) r.tasks)))
          ∷ ("next_page_token", string r.next_page_token)
          ∷ ("page_size", number r.page_size (host.lib.spelling r.page_size))
          ∷ ("total_size", number r.total_size (host.lib.spelling r.total_size))
          ∷ [])
      else error_reply host r

  unfoldable pub remote_list : Json → Try Json
  remote_list req = do
    context_id ← value_text "context_id" "" req
    page_size ← value_int "page_size" (pos 100) req
    page_token ← value_text "page_token" "" req
    after ← value_text "status_timestamp_after" "" req
    agent ← value_text "agent" "" req
    done (
        remote_reply (
          list_remote_tasks host.client.resolve host.calls agent (record {
            context_id = context_id;
            status = state_of (text_at "status" req);
            page_size = page_size;
            page_token = page_token;
            history_length = int_of (get "history_length" req);
            status_timestamp_after = after;
            include_artifacts = bool_of (get "include_artifacts" req);
          })))

  unfoldable pub config_reply : String → A2aResult → Try Json → Try Json
  config_reply key r redacted =
      if r.ok then redacted >>= (λ v. done (success ((key, v) ∷ []))) else done (error_reply host r)

  unfoldable pub push_create : Json → Try Json
  push_create req = do
    id ← value_text "id" "" req
    task_id ← value_text "task_id" "" req
    url ← value_text "url" "" req
    (if not (starts_with (utf8 url) (bytes "https://"))
        then done (
            record_of
              (("ok", boolean false) ∷ ("error", string "push callback URL must use HTTPS") ∷ []))
        else (do
          token_file ← value_text "token_file" "" req
          auth_scheme ← value_text "auth_scheme" "" req
          auth_file ← value_text "auth_file" "" req
          agent ← value_text "agent" "" req
          (let r = create_push_config host.client.resolve host.calls agent (record {
            id = id;
            task_id = task_id;
            url = url;
            token = host.lib.text (read_secret (utf8 token_file));
            auth_scheme = auth_scheme;
            auth_credentials = host.lib.text (read_secret (utf8 auth_file));
          }) in
              config_reply "config" r (redact r.value))))

  unfoldable pub push_reply : A2aResult → Try Json
  push_reply r = config_reply "result" r (redact_value (array_at "configs" r.value) r.value)

  unfoldable pub push_get : Json → Try Json
  push_get req = do
    agent ← value_text "agent" "" req
    task_id ← value_text "task_id" "" req
    id ← value_text "id" "" req
    push_reply (get_push_config host.client.resolve host.calls agent task_id id)

  unfoldable pub push_list : Json → Try Json
  push_list req = do
    agent ← value_text "agent" "" req
    task_id ← value_text "task_id" "" req
    page_size ← value_int "page_size" (pos 50) req
    page_token ← value_text "page_token" "" req
    push_reply (list_push_configs host.client.resolve host.calls agent task_id page_size page_token)

  unfoldable pub push_delete : Json → Try Json
  push_delete req = do
    agent ← value_text "agent" "" req
    task_id ← value_text "task_id" "" req
    id ← value_text "id" "" req
    push_reply (delete_push_config host.client.resolve host.calls agent task_id id)

  unfoldable pub extended_card : Json → Try Json
  extended_card req = do
    agent ← value_text "agent" "" req
    (let r = get_extended_agent_card host.client.resolve host.calls agent in
        config_reply "card" r (done r.value))
