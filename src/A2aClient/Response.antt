-- ===== src/A2aClient/Response.antt =====
-- daemon/src/A2AClient.cpp: how `rpcCall` classifies the response to a call, from the response of the
-- transport to the result.
pub mod Outcomes
pub mod Answers
use a2ad.Common.{
  ℕ, String, Bool, true, false, ◌&&◌, ◌||◌, not, Option, none, some, List, [], ◌∷◌, ◌++◌, ltb, ◌==◌,
  nat_eq, string_eq, if◌then◌else◌, Text, bytes, is_empty,
}
use a2ad.Common.Int.{ℤ, pos}
use a2ad.Json.{
  Json, string, array, object, no_fields, Library, Try, done, ◌>>=◌, utf8, elements, get, text_at,
  array_at, object_at, value_text, value_int, record_of,
}
use a2ad.TaskState.{TaskState, to_string, failed, rejected, state_eq}
use a2ad.Tasks.{Message, Task, message_text}
use a2ad.Tasks.Remote.{
  local_network, auth_required, protocol_error, task_failure, malformed_response, A2aResult,
  no_result, failed_result,
}
use a2ad.A2aClient.Parse.{parse_task, parse_message}

pub record HttpResponse : Type 0 where
  pub status : ℕ
  pub body : Text
  pub transport_error : Bool
  pub transport_error_detail : Text
  pub etag : Option Text
  pub response_too_large : Bool

-- `status >= 200 && status < 300`
unfoldable pub is_success : ℕ → Bool
is_success status = not (ltb status 200) && ltb status 300

-- The protocol of the interface that is called.
pub data Wire : Type 0 where
  json_rpc rest grpc : Wire

-- Which member of the result, or the result itself, is a task or a message.
pub data Content : Type 0 where
  a_task : Json → Content
  a_message : Json → Content
  neither : Content

-- `std::to_string` of a status and of an error code.
pub record Digits : Type 0 where
  pub of_nat : ℕ → Text
  pub of_int : ℤ → Text

abbrev pub is_text_at : String → Json → Bool
is_text_at key j = elim (text_at key j) [ some s ↦ true | none ↦ false ]

abbrev pub is_array_at : String → Json → Bool
is_array_at key j = elim (array_at key j) [ some js ↦ true | none ↦ false ]

abbrev pub is_object_at : String → Json → Bool
is_object_at key j = elim (object_at key j) [ some v ↦ true | none ↦ false ]

-- A task or a message that is not wrapped.
unfoldable pub bare_content : Json → Content
bare_content result =
    if is_text_at "id" result && is_object_at "status" result
    then a_task result
    else if is_text_at "messageId" result && is_text_at "role" result && is_array_at "parts" result
    then a_message result
    else neither

unfoldable pub unwrapped : Option Json → Option Json → Json → Content
unwrapped (some task) _ result = a_task task
unwrapped none (some message) result = a_message message
unwrapped none none result = bare_content result

unfoldable pub content_of : Json → Content
content_of result = unwrapped (object_at "task" result) (object_at "message" result) result

unfoldable pub task_list : Json → Option (List Json)
unfolding elements
task_list (array js) = some (elements js)
task_list result = array_at "tasks" result

abbrev pub optional : Option Task → List Task → List Task
optional none ts = ts
optional (some t) ts = t ∷ ts

-- The methods whose result need be neither a task nor a message.
unfoldable pub is_config_method : String → Bool
is_config_method method =
    method == "DeleteTaskPushNotificationConfig"
    || method == "CreateTaskPushNotificationConfig"
    || method == "GetTaskPushNotificationConfig"
    || method == "ListTaskPushNotificationConfigs"
    || method == "GetExtendedAgentCard"

-- A failed or rejected task is a result, with its kind of error.
unfoldable pub ended : Bool → TaskState → A2aResult → A2aResult
ended true state out = record out {
  error_kind = task_failure;
  error = bytes "remote task ended in " ++ to_string state;
}
ended false state out = out

unfoldable pub task_result : A2aResult → Task → A2aResult
task_result out t =
    ended (t.state == failed || t.state == rejected) t.state
      (record out { ok = true; task = some t; context_id = t.context })

abbrev pub malformed : A2aResult → Text → A2aResult
malformed out error = record out { ok = false; error_kind = malformed_response; error = error }

unfoldable pub task_or_malformed : A2aResult → Option Task → A2aResult
task_or_malformed out none = malformed out (bytes "malformed task in A2A result")
task_or_malformed out (some t) = task_result out t

unfoldable pub message_result : A2aResult → Message → A2aResult
message_result out m = record out {
  ok = true;
  message_text = message_text m;
  context_id = m.context_id;
  message = some m;
}

unfoldable pub other_result : Bool → A2aResult → A2aResult
other_result true out = record out { ok = true }
other_result false out = malformed out (bytes "A2A result is neither a Task nor a Message")

abbrev pub details_or : Option Json → Json → Json
details_or none d = d
details_or (some v) d = v

-- `j["id"] == req["id"]`, the identifier of the request as text.
abbrev pub matches_id : String → Option Json → Bool
matches_id id (some (string s)) = s == id
matches_id id _ = false

module _ (lib : Library) (digits : Digits) where
  unfoldable pub parse_tasks : List Json → Try (List Task)
  parse_tasks [] = done []
  parse_tasks (j ∷ js) = do t ← parse_task lib j; more ← parse_tasks js; done (optional t more)

  unfoldable pub with_page : Json → A2aResult → Try A2aResult
  with_page (object fs) out = do
    next_page_token ← value_text "nextPageToken" "" (object fs)
    page_size ← value_int "pageSize" (pos 0) (object fs)
    total_size ← value_int "totalSize" (pos 0) (object fs)
    done (record out {
      next_page_token = next_page_token;
      page_size = page_size;
      total_size = total_size;
    })
  with_page _ out = done out

  unfoldable pub list_result : A2aResult → Json → List Json → Try A2aResult
  list_result out result js = do
    tasks ← parse_tasks js
    with_page result (record out { ok = true; tasks = tasks })

  unfoldable pub message_checked : Bool → A2aResult → Json → Try A2aResult
  message_checked true out j = parse_message lib j >>= λ m. done (message_result out m)
  message_checked false out j = done (malformed out (bytes "malformed message in A2A result"))

  unfoldable pub message_or_malformed : A2aResult → Json → Try A2aResult
  message_or_malformed out j =
      message_checked (is_text_at "messageId" j && is_text_at "role" j && is_array_at "parts" j) out
        j

  unfoldable pub content_result : String → A2aResult → Content → Try A2aResult
  content_result method out (a_task j) = parse_task lib j >>= λ t. done (task_or_malformed out t)
  content_result method out (a_message j) = message_or_malformed out j
  content_result method out neither = done (other_result (is_config_method method) out)

  unfoldable pub result_with : String → A2aResult → Json → Option (List Json) → Try A2aResult
  result_with method out result (some js) = list_result out result js
  result_with method out result none = content_result method out (content_of result)

  -- From the member `result` on.
  unfoldable pub result_of : String → A2aResult → Json → Try A2aResult
  result_of method out result =
      result_with method (record out { value = result }) result (task_list result)

  unfoldable pub error_result : A2aResult → Json → Try A2aResult
  error_result out e = do
    code ← value_int "code" (pos 0) e
    message ← value_text "message" "unknown" e
    done (record out {
      ok = false;
      error_kind = protocol_error;
      protocol_code = code;
      error_details = details_or (get "data" e) out.error_details;
      error = bytes "A2A error " ++ digits.of_int code ++ bytes ": " ++ utf8 message;
    })

  unfoldable pub result_or_missing : String → A2aResult → Option Json → Try A2aResult
  result_or_missing method out none = done (malformed out (bytes "A2A response missing 'result'"))
  result_or_missing method out (some result) = result_of method out result

  unfoldable pub error_or_result : String → A2aResult → Json → Option Json → Try A2aResult
  error_or_result method out j (some e) = error_result out e
  error_or_result method out j none = result_or_missing method out (get "result" j)

  unfoldable pub checked : Bool → String → A2aResult → Json → Try A2aResult
  checked true method out j = error_or_result method out j (object_at "error" j)
  checked false method out j =
      done (malformed out (bytes "A2A JSON-RPC response has an invalid version or mismatched id"))

  -- Only the JSON-RPC binding has an envelope of the server's own.
  unfoldable pub envelope : Wire → String → String → A2aResult → Json → Try A2aResult
  envelope json_rpc id method out j = do
    version ← value_text "jsonrpc" "" j
    checked (version == "2.0" && matches_id id (get "id" j)) method out j
  envelope _ id method out j = checked true method out j

  unfoldable pub parsed : Wire → Text → String → String → A2aResult → Option Json → Try A2aResult
  parsed wire endpoint id method out none =
      done (malformed out (bytes "could not parse A2A JSON-RPC response from " ++ endpoint))
  parsed wire endpoint id method out (some j) = envelope wire id method out j

  abbrev pub body_or_object : Text → Option Json
  body_or_object body = if is_empty body then some (object no_fields) else lib.parse body

  unfoldable pub wrapped_body : Text → Option Json → Text
  wrapped_body body none = body
  wrapped_body body (some j) = lib.dump (record_of (("jsonrpc", string "2.0") ∷ ("result", j) ∷ []))

  -- A successful response that is not JSON-RPC gets an envelope.
  unfoldable pub wrapped : Wire → HttpResponse → HttpResponse
  wrapped json_rpc r = r
  wrapped _ r =
      if not r.transport_error && is_success r.status
      then record r { body = wrapped_body r.body (body_or_object r.body) }
      else r

  -- The checks before the body is read.
  unfoldable pub refused : Text → HttpResponse → Option A2aResult
  refused endpoint r =
      if r.response_too_large
      then some (failed_result malformed_response (bytes "A2A response exceeds the 64 MiB limit"))
      else if r.transport_error
      then some (
          failed_result local_network
            (bytes "connection to " ++ endpoint ++ bytes " failed: " ++ r.transport_error_detail))
      else if r.status == 401 || r.status == 403
      then some (record no_result {
        http_status = r.status;
        error_kind = auth_required;
        error =
            bytes "authentication failed (HTTP "
            ++ digits.of_nat r.status
            ++ bytes ") from "
            ++ endpoint;
      })
      else if not (is_success r.status)
      then some (record no_result {
        http_status = r.status;
        error_kind = protocol_error;
        error =
            bytes "A2A server returned HTTP "
            ++ digits.of_nat r.status
            ++ bytes " from "
            ++ endpoint;
      })
      else none

  unfoldable pub unless_refused :
      Wire → Text → String → String → HttpResponse → Option A2aResult → Try A2aResult
  unless_refused wire endpoint id method r (some out) = done out
  unless_refused wire endpoint id method r none =
      parsed wire endpoint id method (record no_result { http_status = r.status })
        (lib.parse r.body)

  -- `rpcCall`, from the response of the transport on.
  unfoldable pub classify : Wire → Text → String → String → HttpResponse → Try A2aResult
  classify wire endpoint id method r =
      let w = wrapped wire r in unless_refused wire endpoint id method w (refused endpoint w)
