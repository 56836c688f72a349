-- ===== src/A2aClient/Parse/Format.antt =====
-- A task as A2A 1.0 writes it, by its members on the wire, and the record that stands for it in the
-- daemon.
use a2ad.Common.{
  String, Bool, true, false, some, List, [], ◌∷◌, map, if◌then◌else◌, Option, none, Text, ◌++◌,
}
use a2ad.Json.{Json, string, array, Library, items, utf8, record_of, Fields, object}
use a2ad.TaskState.{
  TaskState, unknown, submitted, working, input_required, auth_required, completed, failed,
  canceled, rejected,
}
use a2ad.Tasks.{Part, Message, Artifact, Task, no_part, message_text}
use a2ad.A2aClient.Parse.{no_task}

-- The content of a part: a text, bytes in base64, a URL, or an object.
pub data WireContent : Type 0 where
  text_content raw_content url_content : String → WireContent
  data_content : Fields → WireContent

-- A part, a message, an artifact and a task, by their members on the wire.
pub record WirePart : Type 0 where
  pub content : WireContent
  pub media_type : String
  pub filename : String
  pub metadata : Fields

pub record WireMessage : Type 0 where
  pub message_id : String
  pub from_agent : Bool
  pub task_id : String
  pub context_id : String
  pub reference_task_ids : List String
  pub timestamp : String
  pub metadata : Fields
  pub extensions : List String
  pub parts : List WirePart

pub record WireArtifact : Type 0 where
  pub artifact_id : String
  pub name : String
  pub description : String
  pub parts : List WirePart
  pub metadata : Fields
  pub extensions : List String

pub record WireTask : Type 0 where
  pub id : String
  pub context_id : String
  pub state : TaskState
  pub status_message : Option WireMessage
  pub timestamp : String
  pub history : List WireMessage
  pub artifacts : List WireArtifact
  pub metadata : Fields

abbrev pub state_name : TaskState → String
state_name unknown = "TASK_STATE_UNSPECIFIED"
state_name submitted = "TASK_STATE_SUBMITTED"
state_name working = "TASK_STATE_WORKING"
state_name input_required = "TASK_STATE_INPUT_REQUIRED"
state_name auth_required = "TASK_STATE_AUTH_REQUIRED"
state_name completed = "TASK_STATE_COMPLETED"
state_name failed = "TASK_STATE_FAILED"
state_name canceled = "TASK_STATE_CANCELED"
state_name rejected = "TASK_STATE_REJECTED"

abbrev pub content_row : WireContent → String × Json
content_row (text_content s) = ("text", string s)
content_row (raw_content s) = ("raw", string s)
content_row (url_content s) = ("url", string s)
content_row (data_content fs) = ("data", object fs)

abbrev pub part_json : WirePart → Json
part_json p = record_of (
    content_row p.content
    ∷ ("mediaType", string p.media_type)
    ∷ ("filename", string p.filename)
    ∷ ("metadata", object p.metadata)
    ∷ [])

abbrev pub strings_json : List String → Json
strings_json ss = array (items (map string ss))

abbrev pub role_name : Bool → String
role_name true = "ROLE_AGENT"
role_name false = "ROLE_USER"

abbrev pub message_json : WireMessage → Json
message_json m = record_of (
    ("messageId", string m.message_id)
    ∷ ("role", string (role_name m.from_agent))
    ∷ ("taskId", string m.task_id)
    ∷ ("contextId", string m.context_id)
    ∷ ("referenceTaskIds", strings_json m.reference_task_ids)
    ∷ ("timestamp", string m.timestamp)
    ∷ ("metadata", object m.metadata)
    ∷ ("extensions", strings_json m.extensions)
    ∷ ("parts", array (items (map part_json m.parts)))
    ∷ [])

abbrev pub artifact_json : WireArtifact → Json
artifact_json a = record_of (
    ("artifactId", string a.artifact_id)
    ∷ ("name", string a.name)
    ∷ ("description", string a.description)
    ∷ ("parts", array (items (map part_json a.parts)))
    ∷ ("metadata", object a.metadata)
    ∷ ("extensions", strings_json a.extensions)
    ∷ [])

abbrev pub status_rows : Option WireMessage → List (String × Json)
status_rows none = []
status_rows (some m) = ("message", message_json m) ∷ []

abbrev pub status_json : WireTask → Json
status_json t = record_of (
    ("state", string (state_name t.state))
    ∷ ("timestamp", string t.timestamp)
    ∷ status_rows t.status_message)

abbrev pub task_json : WireTask → Json
task_json t = record_of (
    ("id", string t.id)
    ∷ ("contextId", string t.context_id)
    ∷ ("status", status_json t)
    ∷ ("history", array (items (map message_json t.history)))
    ∷ ("artifacts", array (items (map artifact_json t.artifacts)))
    ∷ ("metadata", object t.metadata)
    ∷ [])

-- The records that stand for them in the daemon.
module _ (lib : Library) where
  abbrev pub part_of_content : WireContent → Part
  part_of_content (text_content s) = record no_part { text = utf8 s }
  part_of_content (raw_content s) = record no_part { raw_b64 = utf8 s }
  part_of_content (url_content s) = record no_part { url = utf8 s }
  part_of_content (data_content fs) = record no_part { json = lib.dump (object fs) }

  abbrev pub part_read : WirePart → Part
  part_read p = record (part_of_content p.content) {
    media_type = p.media_type;
    filename = utf8 p.filename;
    metadata = object p.metadata;
  }

  abbrev pub message_read : WireMessage → Message
  message_read m = record {
    message_id = m.message_id;
    role = if m.from_agent then "agent" else "user";
    parts = map part_read m.parts;
    task_id = m.task_id;
    context_id = m.context_id;
    reference_task_ids = m.reference_task_ids;
    timestamp = m.timestamp;
    metadata = object m.metadata;
    extensions = m.extensions;
  }

  abbrev pub artifact_read : WireArtifact → Artifact
  artifact_read a = record {
    artifact_id = a.artifact_id;
    name = a.name;
    description = a.description;
    parts = map part_read a.parts;
    metadata = object a.metadata;
    extensions = a.extensions;
  }

  -- The message of the status is the first of the history, and its text that of the state.
  abbrev pub status_text : Option WireMessage → Text
  status_text none = []
  status_text (some m) = message_text (message_read m)

  abbrev pub status_history : Option WireMessage → List Message
  status_history none = []
  status_history (some m) = message_read m ∷ []

  abbrev pub task_read : WireTask → Task
  task_read t = record no_task {
    id = t.id;
    remote_task_id = some t.id;
    context = t.context_id;
    state = t.state;
    state_message = status_text t.status_message;
    last_state_change = t.timestamp;
    messages = status_history t.status_message ++ map message_read t.history;
    artifacts = map artifact_read t.artifacts;
    metadata = object t.metadata;
  }
