-- ===== src/Tasks.antt =====
-- daemon/src/TaskManager.cpp, daemon/include/kitty_a2a/Task.hpp: the tasks that the daemon keeps, and
-- the operations that create, answer, cancel, refresh and reconcile them.
use a2ad.Common.{
  ℕ, String, Bool, true, false, ◌&&◌, ◌||◌, not, Option, none, some, List, [], ◌∷◌, ◌++◌, ltb, ◌==◌,
  nat_eq, string_eq, if◌then◌else◌, Dict, lookup, insert, Text, bytes, length, take, until,
  is_empty,
}
use a2ad.Json.{Json, object, no_fields}
use a2ad.TaskState.{TaskState, state_eq, completed}
pub mod Title
pub mod Remote
pub mod Create
pub mod Created
pub mod Subscription
pub mod Reconcile
pub mod Materialize
pub mod Preview
pub mod Outbound
pub mod Tests
pub mod Bookkeeping

pub record Part : Type 0 where
  pub text : Text
  pub raw_b64 : Text
  pub url : Text
  pub json : Text
  pub media_type : String
  pub filename : Text
  pub metadata : Json

-- The default values of the members.
abbrev pub empty_object : Json
empty_object = object no_fields

abbrev pub no_part : Part
no_part = record {
  text = [];
  raw_b64 = [];
  url = [];
  json = [];
  media_type = "";
  filename = [];
  metadata = empty_object;
}

pub record Message : Type 0 where
  pub message_id : String
  pub role : String
  pub parts : List Part
  pub task_id : String
  pub context_id : String
  pub reference_task_ids : List String
  pub timestamp : String
  pub metadata : Json
  pub extensions : List String

abbrev pub no_message : Message
no_message = record {
  message_id = "";
  role = "";
  parts = [];
  task_id = "";
  context_id = "";
  reference_task_ids = [];
  timestamp = "";
  metadata = empty_object;
  extensions = [];
}

pub record Artifact : Type 0 where
  pub artifact_id : String
  pub name : String
  pub description : String
  pub parts : List Part
  pub metadata : Json
  pub extensions : List String

pub record Task : Type 0 where
  pub id : String
  pub remote_task_id : Option String
  pub agent : String
  pub context : String
  pub state : TaskState
  pub state_message : Text
  pub title : Text
  pub cwd : Text
  pub created_at : String
  pub updated_at : String
  pub last_state_change : String
  pub messages : List Message
  pub artifacts : List Artifact
  pub metadata : Json
  pub error : Text

-- One part after the text so far.
abbrev pub joined : Text → Text → Text
joined out more = if is_empty out then more else out ++ b'\n' ∷ more

abbrev pub text_of : Text → List Part → Text
text_of out [] = out
text_of out (p ∷ ps) =
    text_of
      (if not (is_empty p.text)
        then joined out p.text
        else if not (is_empty p.json)
        then joined out p.json
        else out)
      ps

-- `Message::text`
unfoldable pub message_text : Message → Text
message_text m = text_of [] m.parts

pub data TaskEvent : Type 0 where
  task_created : String → TaskState → TaskEvent
  state_changed : String → TaskState → TaskState → TaskEvent

-- The table of tasks, and what the event sink has been given.
pub record Manager : Type 0 where
  pub tasks : Dict Task
  pub events : List TaskEvent

-- `emitStateChanged`, with or without an event sink.
unfoldable pub emit : Bool → String → TaskState → TaskState → Manager → Manager
emit listens id old new m =
    if old == new || not listens
    then m
    else record m { events = m.events ++ state_changed id old new ∷ [] }

-- `Database::insertTask`, which `updateTask` calls.
unfoldable pub put_task : Task → Manager → Manager
put_task t m = record m { tasks = insert t.id t m.tasks }

-- `if (!t.remote_task_id) t.remote_task_id = t.id`
abbrev pub remote_or : Option String → String → Option String
remote_or none id = some id
remote_or (some r) id = some r
