-- ===== src/A2aClient/Operations.antt =====
-- daemon/src/A2AClient.cpp: the operations of the client, with the parameters of their calls.
use a2ad.Common.{
  String, Bool, true, Option, none, some, List, [], ◌∷◌, ◌++◌, ◌==◌, string_eq, if◌then◌else◌, Text,
  bytes,
}
use a2ad.Common.Int.{ℤ, pos, ltb_ℤ}
use a2ad.Json.{
  Json, boolean, number, string, array, item, no_items, Library, Try, record_of, ◌>>=◌, done,
}
use a2ad.TaskState.{TaskState, task_state_wire_name}
use a2ad.Tasks.Remote.{A2aResult}
use a2ad.Credentials.{AuthSpec}
use a2ad.A2aClient.Response.{Wire, rest}
use a2ad.A2aClient.Call.{
  BindingInfo, HttpRequest, Method, send_message, get_task, list_tasks, cancel_task, create_push,
  get_push, list_push, delete_push, extended_card, auth_headers, auth_query, rest_prefix, segment,
  set_member, media_type,
}

pub record ListTasksFilter : Type 0 where
  pub context_id : String
  pub status : Option TaskState
  pub page_size : ℤ
  pub page_token : String
  pub history_length : Option ℤ
  pub status_timestamp_after : String
  pub include_artifacts : Option Bool

pub record PushNotificationConfig : Type 0 where
  pub id : String
  pub task_id : String
  pub url : String
  pub token : String
  pub auth_scheme : String
  pub auth_credentials : String

-- A member that is left out when it is empty.
abbrev pub unless_empty : String → String → List (String × Json)
unless_empty key v = if v == "" then [] else (key, string v) ∷ []

abbrev pub if_some : {A : Type 0} → String → (A → Json) → Option A → List (String × Json)
if_some key f none = []
if_some key f (some a) = (key, f a) ∷ []

-- `std::clamp(n, 1, 100)`
unfoldable pub clamped : ℤ → ℤ
clamped n = if ltb_ℤ n (pos 1) then pos 1 else if ltb_ℤ (pos 100) n then pos 100 else n

module _ (lib : Library) where
  abbrev pub integer : ℤ → Json
  integer n = number n (lib.spelling n)

  unfoldable pub send_params : Text → String → String → String → Json
  send_params text task_id context_id message_id = record_of (
      (
        "message",
        record_of (
            ("role", string "ROLE_USER")
              ∷ ("messageId", string message_id)
              ∷ ("parts", array (item (record_of (("text", string (lib.text text)) ∷ [])) no_items))
              ∷ unless_empty "contextId" context_id
            ++ unless_empty "taskId" task_id),
      )
      ∷ ("configuration", record_of (("returnImmediately", boolean true) ∷ []))
      ∷ [])

  unfoldable pub id_params : String → Json
  id_params task_id = record_of (("id", string task_id) ∷ [])

  unfoldable pub page_size_row : ℤ → List (String × Json)
  unfolding clamped
  page_size_row n = if ltb_ℤ (pos 0) n then ("pageSize", integer (clamped n)) ∷ [] else []

  unfoldable pub list_params : ListTasksFilter → Json
  unfolding page_size_row
  list_params filter = record_of (
      unless_empty "contextId" filter.context_id
      ++ if_some "status" (λ st. string (lib.text (task_state_wire_name st))) filter.status
      ++ page_size_row filter.page_size
      ++ unless_empty "pageToken" filter.page_token
      ++ if_some "historyLength" integer filter.history_length
      ++ unless_empty "statusTimestampAfter" filter.status_timestamp_after
      ++ if_some "includeArtifacts" boolean filter.include_artifacts)

  unfoldable pub create_push_params : PushNotificationConfig → Json
  create_push_params c = record_of (
      ("id", string c.id)
      ∷ ("taskId", string c.task_id)
      ∷ ("url", string c.url)
      ∷ ("token", string c.token)
      ∷ (if c.auth_scheme == ""
          then []
          else (
            "authentication",
            record_of (
                ("scheme", string c.auth_scheme) ∷ ("credentials", string c.auth_credentials) ∷ []),
          )
            ∷ []))

  unfoldable pub push_params : String → String → Json
  push_params task_id id = record_of (("taskId", string task_id) ∷ ("id", string id) ∷ [])

  unfoldable pub list_push_params : String → ℤ → String → Json
  list_push_params task_id page_size page_token = record_of (
      ("taskId", string task_id)
      ∷ ("pageSize", integer page_size)
      ∷ unless_empty "pageToken" page_token)

  -- `call` is `rpcCall` at an endpoint with its credentials, by the method and the parameters.
  module _ (call : Method → Text → Try A2aResult) where
    -- `uuid_v4()` if there is no message id.
    unfoldable pub send_message_call : Text → String → String → String → String → Try A2aResult
    send_message_call text task_id context_id message_id uuid = call send_message (
        lib.dump
          (send_params text task_id context_id (if message_id == "" then uuid else message_id)))

    unfoldable pub get_task_call : String → Try A2aResult
    get_task_call task_id = call get_task (lib.dump (id_params task_id))

    unfoldable pub cancel_task_call : String → Try A2aResult
    cancel_task_call task_id = call cancel_task (lib.dump (id_params task_id))

    unfoldable pub list_tasks_call : ListTasksFilter → Try A2aResult
    list_tasks_call filter = call list_tasks (lib.dump (list_params filter))

    unfoldable pub create_push_call : PushNotificationConfig → Try A2aResult
    create_push_call config = call create_push (lib.dump (create_push_params config))

    unfoldable pub get_push_call : String → String → Try A2aResult
    get_push_call task_id id = call get_push (lib.dump (push_params task_id id))

    unfoldable pub list_push_call : String → ℤ → String → Try A2aResult
    list_push_call task_id page_size page_token =
        call list_push (lib.dump (list_push_params task_id page_size page_token))

    unfoldable pub delete_push_call : String → String → Try A2aResult
    delete_push_call task_id id = call delete_push (lib.dump (push_params task_id id))

    unfoldable pub extended_card_call : Try A2aResult
    extended_card_call = call extended_card (bytes "{}")

-- `download`, with the credentials of the request.
unfoldable pub download_request : Text → Text → AuthSpec → HttpRequest
unfolding auth_headers auth_query
download_request user_agent url auth = record {
  target = auth_query auth url;
  verb = bytes "GET";
  path = [];
  body = [];
  headers = (bytes "Accept", bytes "*/*") ∷ (bytes "User-Agent", user_agent) ∷ auth_headers auth;
}

-- The request of `streamCall` for a stream that is not gRPC: `subscribe` is whether the method is
-- `SubscribeToTask`.
unfoldable pub stream_path : Library → String → Bool → Json → Try Text
stream_path lib tenant subscribe params =
    if subscribe
    then (do
      id ← segment lib "id" params
      done (rest_prefix lib tenant ++ bytes "tasks/" ++ id ++ bytes ":subscribe"))
    else done (rest_prefix lib tenant ++ bytes "message:stream")

unfoldable pub stream_headers : Wire → Text → BindingInfo → AuthSpec → List (Text × Text)
unfolding auth_headers
stream_headers wire user_agent info auth =
    (bytes "Content-Type", media_type wire)
    ∷ (bytes "Accept", bytes "text/event-stream")
    ∷ (bytes "Cache-Control", bytes "no-cache")
    ∷ (bytes "User-Agent", user_agent)
    ∷ (bytes "A2A-Version", info.version)
    ∷ auth_headers auth

abbrev pub stream_tenant : String → Json → Try Json
stream_tenant tenant params =
    if tenant == "" then done params else set_member "tenant" (string tenant) params

unfoldable pub stream_rest :
    Library → AuthSpec → Text → List (Text × Text) → Bool → Json → Text → HttpRequest
unfolding auth_query
stream_rest lib auth endpoint headers subscribe params path = record {
  target = endpoint;
  verb = if subscribe then bytes "GET" else bytes "POST";
  path = auth_query auth path;
  body = if subscribe then [] else lib.dump params;
  headers = headers;
}

unfoldable pub stream_rpc :
    Library → AuthSpec → Text → List (Text × Text) → String → String → Json → HttpRequest
unfolding auth_query
stream_rpc lib auth endpoint headers id method params = record {
  target = auth_query auth endpoint;
  verb = bytes "POST";
  path = [];
  body = lib.dump (
      record_of (
        ("jsonrpc", string "2.0")
        ∷ ("id", string id)
        ∷ ("method", string method)
        ∷ ("params", params)
        ∷ []));
  headers = headers;
}

unfoldable pub stream_over :
    Library
    → AuthSpec
    → Text
    → List (Text × Text)
    → String
    → String
    → Json
    → Text
    → Wire
    → HttpRequest
stream_over lib auth endpoint headers id method params path rest =
    stream_rest lib auth endpoint headers (method == "SubscribeToTask") params path
stream_over lib auth endpoint headers id method params path _ =
    stream_rpc lib auth endpoint headers id method params

unfoldable pub stream_request :
    Library → Wire → Text → BindingInfo → AuthSpec → Text → String → String → Json → Try HttpRequest
stream_request lib wire user_agent info auth endpoint id method given = do
  params ← stream_tenant info.tenant given
  path ← stream_path lib info.tenant (method == "SubscribeToTask") params
  done (
      stream_over lib auth endpoint (stream_headers wire user_agent info auth) id method params path
        wire)
