-- ===== src/A2aClient/Call.antt =====
-- daemon/src/A2AClient.cpp: the requests that `rpcCall` makes of the transports, and the operations that
-- call it.
use a2ad.Common.{
  ℕ, String, Bool, true, false, ◌&&◌, ◌||◌, not, Option, none, some, List, [], ◌∷◌, ◌++◌, map, ◌==◌,
  nat_eq, string_eq, text_eq, if◌then◌else◌, Text, bytes, is_empty, ltb,
}
use a2ad.Common.Int.{ℤ, pos, negsuc}
use a2ad.Json.{
  Json, null, boolean, number, string, array, object, item, no_items, no_fields, Library, Try, done,
  raised, ◌>>=◌, utf8, Fields, get, contains, put, value_text, record_of, fields_of,
}
use a2ad.TaskState.{TaskState}
use a2ad.AgentCard.{AgentInterface, to_upper}
use a2ad.Url.{url_encode, add_query}
use a2ad.Tasks.Remote.{A2aResult, failed_result, protocol_error}
use a2ad.Credentials.{AuthSpec}
use a2ad.A2aClient.Response.{HttpResponse, Wire, json_rpc, rest, grpc, Digits, classify}
pub mod Segments

-- The wire information of an interface.
pub record BindingInfo : Type 0 where
  pub binding : Text
  pub version : Text
  pub tenant : String

abbrev pub default_binding : BindingInfo
default_binding = record { binding = bytes "JSONRPC"; version = bytes "1.0"; tenant = "" }

-- `bindings_`, by the URL of the interface.
abbrev pub Bindings : Type 0
Bindings = Text → Option BindingInfo

abbrev pub or_text : Text → Text → Text
or_text t d = if is_empty t then d else t

unfoldable pub register_interface : AgentInterface → Bindings → Bindings
register_interface i bindings url =
    if not (is_empty i.url) && url == i.url
    then some (record {
      binding = or_text i.protocol_binding (bytes "JSONRPC");
      version = or_text i.protocol_version (bytes "1.0");
      tenant = i.tenant;
    })
    else bindings url

unfoldable pub info_of : Option BindingInfo → BindingInfo
info_of none = default_binding
info_of (some info) = info

unfoldable pub wire_of : Text → Wire
wire_of binding =
    let b = map to_upper binding in
    if b == bytes "HTTP+JSON" || b == bytes "REST" || b == bytes "HTTP_JSON"
    then rest
    else if b == bytes "GRPC"
    then grpc
    else json_rpc

-- The methods that the client calls through `rpcCall`.
pub data Method : Type 0 where
  send_message get_task list_tasks cancel_task : Method
  create_push get_push list_push delete_push extended_card : Method
  other_method : String → Method

unfoldable pub method_name : Method → String
method_name send_message = "SendMessage"
method_name get_task = "GetTask"
method_name list_tasks = "ListTasks"
method_name cancel_task = "CancelTask"
method_name create_push = "CreateTaskPushNotificationConfig"
method_name get_push = "GetTaskPushNotificationConfig"
method_name list_push = "ListTaskPushNotificationConfigs"
method_name delete_push = "DeleteTaskPushNotificationConfig"
method_name extended_card = "GetExtendedAgentCard"
method_name (other_method name) = name

abbrev pub media_type : Wire → Text
media_type rest = bytes "application/a2a+json"
media_type _ = bytes "application/json"

-- `j[key] = v`
unfoldable pub set_member : String → Json → Json → Try Json
unfolding put
set_member key v (object fs) = done (object (put key v fs))
set_member key v null = done (object (put key v no_fields))
set_member key v _ = raised

-- What a transport is asked for.
pub record HttpRequest : Type 0 where
  pub target : Text
  pub verb : Text
  pub path : Text
  pub body : Text
  pub headers : List (Text × Text)

-- The transports, at the moment of the call.
pub record Transport : Type 0 where
  pub request : HttpRequest → HttpResponse
  pub grpc_call : Text → AuthSpec → String → Json → Text → HttpResponse

abbrev pub if_given : Text → Text → List (Text × Text)
if_given name v = if is_empty v then [] else (name, v) ∷ []

-- The headers of the credentials.
unfoldable pub auth_headers : AuthSpec → List (Text × Text)
auth_headers auth =
    (if auth.active && not (is_empty auth.header_value)
      then (auth.header_name, auth.header_value) ∷ []
      else [])
    ++ auth.extra_headers
    ++ if_given (bytes "X-A2AD-Client-Cert-File") auth.client_cert_file
    ++ if_given (bytes "X-A2AD-Client-Key-File") auth.client_key_file

unfoldable pub add_queries : Text → List (Text × Text) → Text
unfolding add_query
add_queries path [] = path
add_queries path ((name, v) ∷ rows) = add_queries (add_query path name (some v)) rows

-- The query parameters of the credentials.
unfoldable pub auth_query : AuthSpec → Text → Text
unfolding add_query
auth_query auth path =
    add_queries
      (if is_empty auth.query_name
        then path
        else add_query path auth.query_name (some auth.query_value))
      auth.extra_query

-- An operation of the HTTP+JSON binding.
pub record RestCall : Type 0 where
  pub verb : Text
  pub path : Text
  pub body : Text

module _ (lib : Library) where
  -- The text of a query parameter; none for the JSON null.
  unfoldable pub query_text : Json → Option Text
  unfolding utf8
  query_text null = none
  query_text (string s) = some (utf8 s)
  query_text j = some (lib.dump j)

  -- `if (params.contains(key)) add_query(path, key, params[key])`
  unfoldable pub add_param : Json → Text → String → Text
  unfolding get utf8 add_query
  add_param params path key = elim (get key params) [
    | none ↦ path
    | some v ↦ add_query path (utf8 key) (query_text v)
  ]

  unfoldable pub add_params : Json → Text → List String → Text
  add_params params path [] = path
  add_params params path (key ∷ keys) = add_params params (add_param params path key) keys

  unfoldable pub rest_prefix : String → Text
  unfolding utf8 url_encode
  rest_prefix tenant = if tenant == "" then [] else url_encode (utf8 tenant) ++ bytes "/"

  -- `url_encode(params.value(key, ""))`
  unfoldable pub segment : String → Json → Try Text
  unfolding utf8 url_encode
  segment key params = do v ← value_text key "" params; done (url_encode (utf8 v))

  abbrev pub list_keys : List String
  list_keys =
      "contextId" ∷ "status" ∷ "pageSize" ∷ "pageToken" ∷ "historyLength" ∷ "statusTimestampAfter"
      ∷ "includeArtifacts" ∷ []

  abbrev pub posting : Json → Text → RestCall
  posting params path = record { verb = bytes "POST"; path = path; body = lib.dump params }

  abbrev pub getting : Text → RestCall
  getting path = record { verb = bytes "GET"; path = path; body = [] }

  -- The verb, path and body of a method; none for a method that HTTP+JSON has not.
  unfoldable pub rest_call : Text → Method → Json → Try (Option RestCall)
  rest_call prefix send_message params =
      done (some (posting params (prefix ++ bytes "message:send")))
  rest_call prefix get_task params = do
    id ← segment "id" params
    done
        (some (getting (add_params params (prefix ++ bytes "tasks/" ++ id) ("historyLength" ∷ []))))
  rest_call prefix list_tasks params =
      done (some (getting (add_params params (prefix ++ bytes "tasks") list_keys)))
  rest_call prefix cancel_task params = do
    id ← segment "id" params
    done (some (posting params (prefix ++ bytes "tasks/" ++ id ++ bytes ":cancel")))
  rest_call prefix create_push params = do
    task ← segment "taskId" params
    done (
        some
          (posting params (prefix ++ bytes "tasks/" ++ task ++ bytes "/pushNotificationConfigs")))
  rest_call prefix get_push params = do
    task ← segment "taskId" params
    id ← segment "id" params
    done (
        some
          (getting (prefix ++ bytes "tasks/" ++ task ++ bytes "/pushNotificationConfigs/" ++ id)))
  rest_call prefix list_push params = do
    task ← segment "taskId" params
    done (
        some (
          getting (
            add_params params (prefix ++ bytes "tasks/" ++ task ++ bytes "/pushNotificationConfigs")
              ("pageSize" ∷ "pageToken" ∷ []))))
  rest_call prefix delete_push params = do
    task ← segment "taskId" params
    id ← segment "id" params
    done (
        some
          (record (getting
            (prefix ++ bytes "tasks/" ++ task ++ bytes "/pushNotificationConfigs/" ++ id)) {
              verb = bytes "DELETE";
            }))
  rest_call prefix extended_card params =
      done (some (getting (prefix ++ bytes "extendedAgentCard")))
  rest_call prefix (other_method name) params = done none

  -- `if (!info.tenant.empty() && !params.contains("tenant")) params["tenant"] = info.tenant`, which
  -- throws if the parameters are no object.
  unfoldable pub with_tenant : String → Json → Try Json
  unfolding put get
  with_tenant tenant params =
      if not (tenant == "") && not (contains "tenant" params)
      then set_member "tenant" (string tenant) params
      else done params

  unfoldable pub rest_request : AuthSpec → Text → List (Text × Text) → RestCall → HttpRequest
  rest_request auth endpoint headers c = record {
    target = endpoint;
    verb = c.verb;
    path = auth_query auth c.path;
    body = c.body;
    headers = headers;
  }

  -- `{"jsonrpc", "id", "method", "params"}`
  abbrev pub envelope_of : String → Method → Json → Json
  envelope_of id method params = record_of (
      ("jsonrpc", string "2.0")
      ∷ ("id", string id)
      ∷ ("method", string (method_name method))
      ∷ ("params", params)
      ∷ [])

  unfoldable pub rpc_request :
      AuthSpec → Text → List (Text × Text) → String → Method → Json → HttpRequest
  rpc_request auth endpoint headers id method params = record {
    target = auth_query auth endpoint;
    verb = bytes "POST";
    path = [];
    body = lib.dump (envelope_of id method params);
    headers = headers;
  }

  unfoldable pub call_headers : Wire → Text → BindingInfo → AuthSpec → List (Text × Text)
  unfolding auth_headers
  call_headers wire user_agent info auth =
      (bytes "Content-Type", media_type wire)
      ∷ (bytes "Accept", media_type wire)
      ∷ (bytes "User-Agent", user_agent)
      ∷ (bytes "A2A-Version", info.version)
      ∷ auth_headers auth

  module _ (digits : Digits) (transport : Transport) (user_agent : Text) where
    unfoldable pub rest_result :
        AuthSpec → Text → List (Text × Text) → String → Method → Option RestCall → Try A2aResult
    rest_result auth endpoint headers id method none = done (
        failed_result protocol_error
          (bytes "operation is not available through HTTP+JSON: " ++ bytes (method_name method)))
    rest_result auth endpoint headers id method (some c) =
        classify lib digits rest endpoint id (method_name method)
          (transport.request (rest_request auth endpoint headers c))

    unfoldable pub call_with :
        Wire → BindingInfo → AuthSpec → Text → String → Method → Json → Try A2aResult
    call_with rest info auth endpoint id method params = do
      c ← rest_call (rest_prefix info.tenant) method params
      rest_result auth endpoint (call_headers rest user_agent info auth) id method c
    call_with grpc info auth endpoint id method params =
        classify lib digits grpc endpoint id (method_name method)
          (transport.grpc_call endpoint auth (method_name method) params info.version)
    call_with json_rpc info auth endpoint id method params =
        classify lib digits json_rpc endpoint id (method_name method) (
          transport.request (
            rpc_request auth endpoint (call_headers json_rpc user_agent info auth) id method
              params))

    abbrev pub parsed_params : Text → Option Json
    parsed_params text = lib.parse (if is_empty text then bytes "{}" else text)

    unfoldable pub call_params :
        BindingInfo → AuthSpec → Text → String → Method → Option Json → Try A2aResult
    call_params info auth endpoint id method none = raised
    call_params info auth endpoint id method (some given) = do
      params ← with_tenant info.tenant given
      call_with (wire_of info.binding) info auth endpoint id method params

    -- `rpcCall`; `id` is the text of the counter.
    unfoldable pub rpc_call : Bindings → AuthSpec → Text → String → Method → Text → Try A2aResult
    rpc_call bindings auth endpoint id method params =
        call_params (info_of (bindings endpoint)) auth endpoint id method (parsed_params params)
