-- ===== src/A2aClient/Tests.antt =====
-- The theorems on the client, applied to concrete responses, streams and cards.
use a2ad.A2aClient.Discover.{
  text_or_none, array_or_none, capabilities_of, extension_of, each_object, skill_of, skills_of,
  interface_of, api_key_scheme, http_scheme, named_scheme, wrapped_scheme, scheme_of, schemes_of,
  scopes_of, requirement_rows, requirement_of, requirements_of, requirements_in, card_interfaces,
  card_rest, warnings_of, versions, required_extension, judged, validated,
}
use a2ad.A2aClient.Stream.Boundaries.{concat}
use a2ad.Url.{url_encode, is_unreserved, is_alnum, hex, split_origin, split_at, path_at}
use a2ad.Common.{
  ◌+◌, ◌≡◌, refl, true, false, none, some, List, [], ◌∷◌, ◌++◌, ◌==◌, text_eq, string_eq,
  if◌then◌else◌, Text, bytes, find, arith, lookup,
}
use a2ad.Common.Int.{pos}
use a2ad.Json.{
  Json, number, string, Library, done, record_of, get, object_at, text_at, fields_of, put, member,
  array_at, value_text, value_json, texts, elements, each, utf8, utf8_char, boolean, field,
  no_fields,
}
use a2ad.TaskState.{
  working, completed, parse_task_state_wire, parse_task_state, parse_lowered, lower, to_lower,
}
use a2ad.Tasks.{Task, Manager}
use a2ad.Tasks.Bookkeeping.{Quiet}
use a2ad.Tasks.Remote.{A2aResult, no_result}
use a2ad.AgentCard.{AgentInterface, AgentCard, no_card}
use a2ad.A2aClient.Parse.{
  no_task, parse_task, parse_with, task_of, with_status, with_status_message, parse_artifacts,
}
use a2ad.A2aClient.Parse.Format.{WirePart, WireMessage, text_content, data_content, WireTask}
use a2ad.A2aClient.Response.{
  HttpResponse, Digits, rest, classify, unless_refused, refused, wrapped, is_success, parsed,
  envelope, checked, error_or_result, result_or_missing, result_of, result_with, task_list,
  content_of, unwrapped, bare_content, content_result, task_or_malformed, task_result, ended,
}
use a2ad.A2aClient.Response.Outcomes.{Refusal, classify-Refusal, is_failure}
use a2ad.A2aClient.Response.Answers.{AnswerTo, classify-AnswerTo}
use a2ad.A2aClient.Stream.{Sink, stream, drain, blank_line}
use a2ad.A2aClient.Stream.Chunks.{drain-ends, stream-concat}
use a2ad.A2aClient.Stream.Frames.{received, stream-received}
use a2ad.A2aClient.Subscribe.{Heard}
use a2ad.A2aClient.Subscribe.Quiet.{listener, listener-Quiet}
use a2ad.A2aClient.Call.{Transport, RestCall, cancel_task, rest_call, segment, register_interface}
use a2ad.A2aClient.Call.Segments.{slashes, path_slashes, rest_call-slashes}
use a2ad.A2aClient.Probe.{
  Memory, discover, candidates, without_slashes, candidates_of, card_request, revalidated,
  register_all, remember, finished_card, read_card, document, not_found, probe, answer as answer_of,
}
use a2ad.A2aClient.Probe.Cache.{OnlyValid, discover-OnlyValid}
use a2ad.A2aClient.Parse.{parse_task}

-- The answer to the request 7.
abbrev answer : Json
answer = record_of (
    ("jsonrpc", string "2.0")
    ∷ ("id", string "7")
    ∷ (
      "result",
      record_of
          (("id", string "r1") ∷ ("status", record_of (("state", string "working") ∷ [])) ∷ []),
    )
    ∷ [])

abbrev library : Library
library = record {
  parse = λ t.
      if t == bytes "answer"
      then some answer
      else if t == bytes "card"
      then some (record_of (("name", string "worker") ∷ []))
      else if t == bytes "1"
      then some (number (pos 1) "1")
      else if t == bytes "2"
      then some (number (pos 2) "2")
      else none;
  dump = λ j. bytes "{}";
  text = λ t. "";
  spelling = λ n. "1";
}

abbrev digits : Digits
digits = record { of_nat = λ n. bytes "503"; of_int = λ n. bytes "1" }

abbrev fine : HttpResponse
fine = record {
  status = 200;
  body = bytes "answer";
  transport_error = false;
  transport_error_detail = [];
  etag = none;
  response_too_large = false;
}

abbrev unavailable : HttpResponse
unavailable = record fine { status = 503; body = [] }

abbrev text_part : WirePart
text_part = record {
  content = text_content "done";
  media_type = "text/plain";
  filename = "";
  metadata = no_fields;
}

abbrev data_part : WirePart
data_part = record {
  content = data_content (field "passed" (boolean true) no_fields);
  media_type = "application/json";
  filename = "result.json";
  metadata = no_fields;
}

abbrev told_message : WireMessage
told_message = record {
  message_id = "m1";
  from_agent = true;
  task_id = "r1";
  context_id = "c";
  reference_task_ids = "r0" ∷ [];
  timestamp = "monday";
  metadata = no_fields;
  extensions = [];
  parts = text_part ∷ data_part ∷ [];
}

abbrev told : WireTask
told = record {
  id = "r1";
  context_id = "c";
  state = completed;
  status_message = some told_message;
  timestamp = "monday";
  history = told_message ∷ [];
  artifacts =
      record {
        artifact_id = "a1";
        name = "report";
        description = "the outcome";
        parts = data_part ∷ text_part ∷ [];
        metadata = no_fields;
        extensions = "e" ∷ [];
      }
      ∷ [];
  metadata = no_fields;
}

abbrev working_task : Task
working_task = record no_task { id = "r1"; remote_task_id = some "r1"; state = working }

abbrev result : Json
result =
    record_of (("id", string "r1") ∷ ("status", record_of (("state", string "working") ∷ [])) ∷ [])

abbrev found : A2aResult
found = record no_result { ok = true; task = some working_task; http_status = 200; value = result }

classify-AnswerTo_example : (is_failure fine ≡ false) × AnswerTo library "7" fine.body
unfolding classify unless_refused refused wrapped is_success parsed envelope checked error_or_result
    result_or_missing result_of result_with task_list content_of unwrapped bare_content
    content_result task_or_malformed task_result ended parse_task parse_with task_of with_status
    with_status_message parse_artifacts fields_of put get member text_at array_at object_at
    value_text value_json texts elements each utf8 utf8_char parse_task_state_wire parse_task_state
    parse_lowered lower to_lower
classify-AnswerTo_example =
    classify-AnswerTo library digits (bytes "h") "7" "GetTask" found fine refl refl

classify-Refusal_example :
    (out : A2aResult) × (classify library digits rest (bytes "h") "7" "GetTask" unavailable
      ≡ done out)
    × Refusal unavailable out
unfolding is_success
classify-Refusal_example =
    classify-Refusal library digits rest (bytes "h") "7" "GetTask" unavailable refl

-- A consumer that keeps all events and never stops.
abbrev log : Sink (List Json)
log = record { on_event = λ s j. s ++ j ∷ []; stop_requested = λ s. false }

abbrev chunks : List Text
chunks = bytes "data: 1\n" ∷ bytes "\ndata: 2\n\n" ∷ []

stream-concat_example :
    stream library log [] [] chunks ≡ stream library log [] [] (concat chunks ∷ [])
stream-concat_example = stream-concat library log [] chunks refl

stream-received_example :
    stream library log [] [] chunks ≡ (received library log [] (bytes "1" ∷ bytes "2" ∷ []), [])
stream-received_example =
    stream-received library log [] chunks (bytes "1" ∷ bytes "2" ∷ [])
      (
        record { not_empty = refl; one_line = refl; no_cr = refl; not_done = refl },
        (record { not_empty = refl; one_line = refl; no_cr = refl; not_done = refl }, tt),
      )
      refl refl

drain-ends_example : find (drain library log 9 [] (bytes "data: 1\n\n")).1 blank_line ≡ none
drain-ends_example = drain-ends library log 9 [] (bytes "data: 1\n\n") (omega arith)

abbrev finished_event : Json
finished_event = record_of (
    (
      "statusUpdate",
      record_of (
          ("taskId", string "r1")
          ∷ ("status", record_of (("state", string "completed") ∷ []))
          ∷ []),
    )
    ∷ [])

abbrev finished : Heard
finished = record {
  update = record {
    task = record no_task { id = "r1"; remote_task_id = some "r1"; state = completed };
    partial_update = true;
    has_state_update = true;
    artifact_append = false;
  };
  ends = true;
}

abbrev report_event : Json
report_event = record_of (
    ("artifactUpdate", record_of (("artifact", record_of (("artifactId", string "a1") ∷ [])) ∷ []))
    ∷ [])

abbrev local_task : Task
local_task = record working_task { id = "l1" }

abbrev desk : Manager
desk = record { tasks = ("l1", local_task) ∷ []; events = [] }

listener-Quiet_example :
    Quiet local_task desk
      ((listener library "r1" true "monday" local_task).on_event (desk, false) report_event).0
    × (((listener library "r1" true "monday" local_task).on_event (desk, false) report_event).1
        ≡ false)
unfolding lookup get fields_of text_at object_at
listener-Quiet_example =
    listener-Quiet library "r1" true "monday" local_task desk false report_event refl refl refl refl

abbrev cancel_params : Json
cancel_params = record_of (("id", string "a/../b") ∷ [])

abbrev cancel_call : RestCall
cancel_call = record {
  verb = bytes "POST";
  path = bytes "tasks/a%2F..%2Fb:cancel";
  body = bytes "{}";
}

rest_call-slashes_example : slashes cancel_call.path ≡ slashes [] + path_slashes cancel_task
unfolding rest_call segment url_encode is_unreserved is_alnum hex fields_of put member value_text
    utf8 utf8_char
rest_call-slashes_example = rest_call-slashes library [] cancel_task cancel_params cancel_call refl

abbrev old_interface : AgentInterface
old_interface = record {
  url = bytes "https://h/a2a";
  protocol_binding = bytes "jsonrpc";
  protocol_version = bytes "0.3";
  tenant = "";
}

abbrev old_card : AgentCard
old_card = record no_card { name = "old"; interfaces = old_interface ∷ [] }

-- A transport that sends the card of an agent.
abbrev sender : Transport
sender = record {
  request = λ r. record fine { body = bytes "card"; etag = some (bytes "e1") };
  grpc_call = λ endpoint auth method params version. unavailable;
}

abbrev blank : Memory
blank = record { card_cache = λ url. none; bindings = λ url. none }

discover-OnlyValid_example :
    OnlyValid library sender []
      (candidates (bytes "https://h/a"))
      blank
      (discover library sender [] (bytes "https://h/a") blank)
discover-OnlyValid_example = discover-OnlyValid library sender [] (bytes "https://h/a") blank

-- The card is cached.
discovered :
    (discover library sender [] (bytes "https://h/a") blank).1.card_cache
      (bytes "https://h/.well-known/agent-card.json")
    ≡ some (record { body = bytes "card"; etag = bytes "e1" })
unfolding text_or_none array_or_none capabilities_of extension_of each_object skill_of skills_of
    interface_of api_key_scheme http_scheme named_scheme wrapped_scheme scheme_of schemes_of
    scopes_of requirement_rows requirement_of requirements_of requirements_in card_interfaces
    card_rest warnings_of versions required_extension judged validated without_slashes candidates_of
    candidates card_request revalidated register_all remember finished_card read_card document
    answer_of not_found probe discover is_success fields_of put get member text_at array_at
    object_at register_interface split_origin split_at path_at
discovered = refl
