-- ===== src/A2aClient/Parse.antt =====
-- daemon/src/A2AClient.cpp: the parts, messages and tasks that an agent sends.
pub mod Format
pub mod Wire
use a2ad.Common.{
  String, ◌||◌, Option, none, some, List, [], ◌∷◌, ◌++◌, ◌==◌, string_eq, if◌then◌else◌, Text,
}
use a2ad.Json.{
  Json, null, string, object, Library, Try, done, ◌>>=◌, utf8, get, is_object, text_at, array_at,
  object_at, or_else, value_text, texts, each,
}
use a2ad.TaskState.{unknown, submitted, parse_task_state_wire}
use a2ad.Tasks.{Part, Message, Artifact, Task, no_part, no_message, empty_object, message_text}

unfoldable pub role_internal : String → String
role_internal wire =
    if wire == "ROLE_AGENT" || wire == "agent"
    then "agent"
    else if wire == "ROLE_USER" || wire == "user"
    then "user"
    else "unknown"

-- A task by its default values.
abbrev pub no_task : Task
no_task = record {
  id = "";
  remote_task_id = none;
  agent = "";
  context = "";
  state = submitted;
  state_message = [];
  title = [];
  cwd = [];
  created_at = "";
  updated_at = "";
  last_state_change = "";
  messages = [];
  artifacts = [];
  metadata = empty_object;
  error = [];
}

abbrev pub bytes_or_empty : Option String → Text
bytes_or_empty none = []
bytes_or_empty (some s) = utf8 s

module _ (lib : Library) where
  -- `j["data"].dump()`
  abbrev pub data_text : Option Json → Text
  data_text none = []
  data_text (some null) = []
  data_text (some v) = lib.dump v

  unfoldable pub part_of : Json → Try Part
  part_of j = do
    media_type ← value_text "mediaType" "" j
    filename ← value_text "filename" "" j
    done (record {
      text = bytes_or_empty (text_at "text" j);
      raw_b64 = bytes_or_empty (text_at "raw" j);
      url = bytes_or_empty (text_at "url" j);
      json = data_text (get "data" j);
      media_type = media_type;
      filename = utf8 filename;
      metadata = or_else (object_at "metadata" j) empty_object;
    })

  unfoldable pub parse_part : Json → Try Part
  parse_part j = if is_object j then part_of j else done no_part

  unfoldable pub message_of : Json → Try Message
  message_of j = do
    message_id ← value_text "messageId" "" j
    role ← value_text "role" "ROLE_USER" j
    task_id ← value_text "taskId" "" j
    context_id ← value_text "contextId" "" j
    timestamp ← value_text "timestamp" "" j
    parts ← each parse_part (or_else (array_at "parts" j) [])
    done (record {
      message_id = message_id;
      role = role_internal role;
      parts = parts;
      task_id = task_id;
      context_id = context_id;
      reference_task_ids = texts (or_else (array_at "referenceTaskIds" j) []);
      timestamp = timestamp;
      metadata = or_else (object_at "metadata" j) empty_object;
      extensions = texts (or_else (array_at "extensions" j) []);
    })

  unfoldable pub parse_message : Json → Try Message
  parse_message j = if is_object j then message_of j else done no_message

  -- `st["message"]`: a message, or the text of an older agent.
  unfoldable pub with_status_message : Option Json → Task → Try Task
  with_status_message (some (object fs)) t = do
    message ← parse_message (object fs)
    done (record t { state_message = message_text message; messages = t.messages ++ message ∷ [] })
  with_status_message (some (string s)) t = done (record t { state_message = utf8 s })
  with_status_message _ t = done t

  unfoldable pub with_status : Option Json → Task → Try Task
  with_status none t = done t
  with_status (some st) t = do
    wire ← value_text "state" "" st
    told ←
        with_status_message (get "message" st)
          (record t { state = or_else (parse_task_state_wire (utf8 wire)) unknown })
    timestamp ← value_text "timestamp" "" st
    done (record told { last_state_change = timestamp })

  unfoldable pub artifact_of : Json → Try Artifact
  artifact_of j = do
    artifact_id ← value_text "artifactId" "" j
    name ← value_text "name" "" j
    description ← value_text "description" "" j
    parts ← each parse_part (or_else (array_at "parts" j) [])
    done (record {
      artifact_id = artifact_id;
      name = name;
      description = description;
      parts = parts;
      metadata = or_else (object_at "metadata" j) empty_object;
      extensions = texts (or_else (array_at "extensions" j) []);
    })

  -- `if (!aj.is_object()) continue;`
  unfoldable pub parse_artifacts : List Json → Try (List Artifact)
  parse_artifacts [] = done []
  parse_artifacts (j ∷ js) =
      let rest = parse_artifacts js in
      if is_object j then (do a ← artifact_of j; more ← rest; done (a ∷ more)) else rest

  unfoldable pub task_of : String → Json → Try Task
  task_of id j = do
    context ← value_text "contextId" "" j
    told ←
        with_status (object_at "status" j)
          (record no_task { id = id; remote_task_id = some id; context = context })
    history ← each parse_message (or_else (array_at "history" j) [])
    artifacts ← parse_artifacts (or_else (array_at "artifacts" j) [])
    done (record told {
      messages = told.messages ++ history;
      artifacts = artifacts;
      metadata = or_else (object_at "metadata" j) empty_object;
    })

  unfoldable pub parse_with : Option String → Json → Try (Option Task)
  parse_with none j = done none
  parse_with (some id) j = do t ← task_of id j; done (some t)

  unfoldable pub parse_task : Json → Try (Option Task)
  parse_task j = parse_with (text_at "id" j) j
