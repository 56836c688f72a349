-- ===== src/Tasks/Create.antt =====
-- daemon/src/TaskManager.cpp: `createTask` and `respondToTask`. The subscription to a task that is
-- started at the end is not modelled: it writes through the same operations later.
use a2ad.Common.{
  String, Bool, true, false, Option, none, some, List, [], ◌∷◌, ◌++◌, ◌==◌, string_eq,
  if◌then◌else◌, lookup, not, Text, bytes, is_empty,
}
use a2ad.TaskState.{TaskState, submitted, completed}
use a2ad.Tasks.{
  Part, Message, no_part, no_message, empty_object, Task, task_created, Manager, put_task,
}
use a2ad.Tasks.Title.{title_from_message}
use a2ad.Tasks.Remote.{error_kind_name, A2aResult, Client, adopt, replace, text_or, string_or}

pub record CreateTaskRequest : Type 0 where
  pub agent : String
  pub message : Text
  pub request_id : String
  pub cwd : Text
  pub continue_task_id : String
  pub continue_context_id : String

pub record CreateTaskResponse : Type 0 where
  pub ok : Bool
  pub task_id : String
  pub context_id : String
  pub state : TaskState
  pub message : Text
  pub error_kind : String

abbrev pub refusal : String → Text → CreateTaskResponse
refusal kind message = record {
  ok = false;
  task_id = "";
  context_id = "";
  state = submitted;
  message = message;
  error_kind = kind;
}

-- The text that is sent: the message with its working directory.
unfoldable pub payload : CreateTaskRequest → Text
payload req =
    if is_empty req.cwd
    then req.message
    else req.message ++ bytes "\n[context]\nworking directory: " ++ req.cwd

-- The clock, and the two ids that an operation may draw.
pub record Fresh : Type 0 where
  pub now : String
  pub id : String
  pub message_id : String

-- `if (!t.remote_task_id && !t.id.empty()) t.remote_task_id = t.id`
abbrev pub remote_of : Task → Option String
remote_of t = elim t.remote_task_id [
  | some r ↦ some r
  | none ↦ if t.id == "" then none else some t.id
]

-- The record of a task that the agent has made.
unfoldable pub made : Fresh → CreateTaskRequest → Task → Task
made f req t = record t {
  remote_task_id = remote_of t;
  id = f.id;
  agent = string_or t.agent req.agent;
  context = string_or t.context req.continue_context_id;
  title = text_or t.title (title_from_message req.message);
  cwd = text_or t.cwd req.cwd;
  created_at = string_or t.created_at f.now;
  updated_at = f.now;
  last_state_change = f.now;
}

abbrev pub parts_or : List Part → Text → List Part
parts_or [] text = record no_part { text = text } ∷ []
parts_or (p ∷ ps) text = p ∷ ps

abbrev pub message_or : Option Message → Message
message_or none = no_message
message_or (some m) = m

-- The message of an agent that has answered without a task.
unfoldable pub completed_message : Fresh → A2aResult → Message
completed_message f r =
    let m = message_or r.message in
    record m {
      role = string_or m.role "agent";
      message_id = string_or m.message_id f.message_id;
      parts = parts_or m.parts r.message_text;
    }

-- The record of an interaction that is a bare message.
unfoldable pub interaction : Fresh → CreateTaskRequest → A2aResult → Task
interaction f req r = record {
  id = f.id;
  remote_task_id = none;
  agent = req.agent;
  context = r.context_id;
  state = completed;
  state_message = [];
  title = title_from_message req.message;
  cwd = req.cwd;
  created_at = f.now;
  updated_at = f.now;
  last_state_change = f.now;
  messages = completed_message f r ∷ [];
  artifacts = [];
  metadata = empty_object;
  error = [];
}

abbrev pub new_task : Fresh → CreateTaskRequest → A2aResult → Task
new_task f req r = elim r.task [ some t ↦ made f req t | none ↦ interaction f req r ]

abbrev pub accepted : Task → CreateTaskResponse
accepted t = record {
  ok = true;
  task_id = t.id;
  context_id = t.context;
  state = t.state;
  message = elim t.remote_task_id [
    | some _ ↦ bytes "task submitted"
    | none ↦ bytes "interaction completed"
  ];
  error_kind = "";
}

unfoldable pub put_new : Bool → Task → Manager → Manager
put_new listens t m =
    let stored = put_task t m in
    if listens
    then record stored { events = stored.events ++ task_created t.id t.state ∷ [] }
    else stored

abbrev pub remote_or_empty : Option String → String
remote_or_empty none = ""
remote_or_empty (some id) = id

module _ {Endpoint : Type 0} (c : Client Endpoint) (f : Fresh) where
  unfoldable pub create_result :
      CreateTaskRequest → Manager → A2aResult → CreateTaskResponse × Manager
  create_result req m r =
      if not r.ok
      then (refusal (error_kind_name r.error_kind) r.error, m)
      else (accepted (new_task f req r), put_new c.listens (new_task f req r) m)

  unfoldable pub create_task : CreateTaskRequest → Manager → CreateTaskResponse × Manager
  create_task req m = elim (c.resolve req.agent) [
    | none ↦ (refusal "unknown_agent" (bytes "unknown agent: " ++ bytes req.agent), m)
    | some e ↦
        create_result req m (
          c.send_message e (payload req) req.continue_task_id req.continue_context_id
            req.request_id)
  ]

  -- The stored task after a bare message.
  unfoldable pub answered : Task → Message → String → Task
  answered t message context = record t {
    messages = t.messages ++ message ∷ [];
    state = completed;
    context = if context == "" then t.context else context;
  }

  -- The task as `respondToTask` stores it, before the two times are set.
  unfoldable pub next_version : Task → A2aResult → Task
  next_version existing r = elim r.task [
    | some t ↦ adopt f.now existing t
    | none ↦ elim r.message [
      | some message ↦ answered existing message r.context_id
      | none ↦ existing
    ]
  ]

  abbrev pub responded : Task → A2aResult → Task
  responded existing r = record (next_version existing r) {
    updated_at = f.now;
    last_state_change = f.now;
  }

  unfoldable pub respond_sent : Task → Manager → A2aResult → CreateTaskResponse × Manager
  respond_sent existing m r = (
    record (accepted (responded existing r)) { message = bytes "response sent" },
    replace c f.now existing (responded existing r) m,
  )

  unfoldable pub respond_result : Task → Manager → A2aResult → CreateTaskResponse × Manager
  respond_result existing m r =
      if r.ok
      then respond_sent existing m r
      else (refusal (error_kind_name r.error_kind) r.error, m)

  unfoldable pub respond_known :
      Text → String → Manager → Task → Option Endpoint → CreateTaskResponse × Manager
  respond_known text request_id m existing none =
      (refusal "unknown_agent" (bytes "unknown agent for task"), m)
  respond_known text request_id m existing (some e) =
      respond_result existing m (
        c.send_message e text (remote_or_empty existing.remote_task_id) existing.context request_id)

  unfoldable pub respond_found :
      String → Text → String → Manager → Option Task → CreateTaskResponse × Manager
  respond_found id text request_id m none =
      (refusal "unknown_task" (bytes "no such task: " ++ bytes id), m)
  respond_found id text request_id m (some existing) =
      respond_known text request_id m existing (c.resolve existing.agent)

  unfoldable pub respond : String → Text → String → Manager → CreateTaskResponse × Manager
  respond id text request_id m = respond_found id text request_id m (lookup id m.tasks)
