-- ===== src/Tasks/Tests.antt =====
-- The theorems on tasks, applied to one task and an agent that completes it.
use a2ad.Common.{
  ◌≡◌, refl, ◌≤◌, true, false, none, some, [], ◌∷◌, arith, lookup, Text, bytes, length, has_byte,
}
use a2ad.TaskState.{working, completed}
use a2ad.Tasks.{Task, Manager, no_message, empty_object}
use a2ad.Tasks.Title.{title_from_message, title-fits}
use a2ad.Tasks.Remote.{
  no_result, local_network, failed_result, reconcile_task, A2aResult, Client, refresh, cancel,
}
use a2ad.Tasks.Create.{Fresh, CreateTaskRequest, create_task, respond}
use a2ad.Tasks.Created.{Answers, create_task-Answers}
use a2ad.Tasks.Reconcile.{Unmoved, reconcile-Unmoved}
use a2ad.Tasks.Subscription.{Update, on_update, on_update-Updated}
use a2ad.Base64.{decode_base64}
use a2ad.Base64.Decode.{encode, decode-encode}
use a2ad.Tasks.Bookkeeping.{Updated, remote-Updated, respond-Updated}

abbrev report : Task
report = record {
  id = "l1";
  remote_task_id = some "r1";
  agent = "bot";
  context = "c";
  state = working;
  state_message = [];
  title = bytes "Report";
  cwd = bytes "/home";
  created_at = "monday";
  updated_at = "monday";
  last_state_change = "monday";
  messages = [];
  artifacts = [];
  metadata = empty_object;
  error = [];
}

abbrev completed_result : A2aResult
completed_result = record no_result {
  ok = true;
  task = some (record report { id = "r1"; remote_task_id = none; state = completed; title = [] });
  context_id = "c";
}

abbrev agents : Client Text
agents = record {
  resolve = λ id. some (bytes "https://h");
  send_message = λ e text task context request. completed_result;
  get_task = λ e id. completed_result;
  cancel_task = λ e id. completed_result;
  listens = true;
}

abbrev desk : Manager
desk = record { tasks = ("l1", report) ∷ []; events = [] }

abbrev tuesday : Fresh
tuesday = record { now = "tuesday"; id = "l2"; message_id = "m1" }

abbrev question : CreateTaskRequest
question = record {
  agent = "bot";
  message = bytes "What\nnow";
  request_id = "q";
  cwd = bytes "/home";
  continue_task_id = "";
  continue_context_id = "";
}

remote-Updated_example :
    Updated true report desk (refresh agents "tuesday" "l1" desk).1
    × Updated true report desk (cancel agents "tuesday" "l1" desk).1
unfolding lookup
remote-Updated_example = remote-Updated agents "tuesday" report desk refl

respond-Updated_example :
    Updated true report desk (respond agents tuesday "l1" (bytes "yes") "q" desk).1
unfolding lookup
respond-Updated_example = respond-Updated agents tuesday report desk refl (bytes "yes") "q"

create_task-Answers_example : Answers tuesday desk (create_task agents tuesday question desk)
create_task-Answers_example = create_task-Answers agents tuesday question desk

title-fits_example :
    (length (title_from_message (bytes "What\nnow")) ≤ 51)
    × (has_byte 10 (title_from_message (bytes "What\nnow")) ≡ false)
title-fits_example = title-fits (bytes "What\nnow")

-- An agent that cannot be reached.
abbrev offline : Client Text
offline = record agents { get_task = λ e id. failed_result local_network (bytes "timeout") }

reconcile-Unmoved_example : Unmoved report desk (reconcile_task offline "tuesday" report desk)
unfolding lookup
reconcile-Unmoved_example = reconcile-Unmoved offline "tuesday" report desk refl (λ e id. refl)

-- One more message of the agent.
abbrev note : Update
note = record {
  task = record report { messages = record no_message { message_id = "m2"; role = "agent" } ∷ [] };
  partial_update = true;
  has_state_update = false;
  artifact_append = false;
}

on_update-Updated_example : Updated true report desk (on_update true "tuesday" "l1" note desk)
unfolding lookup
on_update-Updated_example = on_update-Updated true "tuesday" note report desk refl

-- The task with the note.
abbrev noted : Task
noted = record report { messages = note.task.messages; updated_at = "tuesday" }

decode-encode_example : decode_base64 (encode (bytes "any")) ≡ some (bytes "any")
decode-encode_example = decode-encode (bytes "any") (omega arith, (omega arith, (omega arith, tt)))
