-- ===== src/A2aClient/Subscribe.antt =====
-- daemon/src/A2AClient.cpp: `subscribeToTask`, which turns the events of a stream into updates of a task.
use a2ad.Common.{
  String, Bool, true, false, ◌||◌, Option, none, some, List, [], ◌∷◌, ◌==◌, string_eq,
  if◌then◌else◌,
}
use a2ad.Json.{
  Json, string, array, Items, item, no_items, Library, Try, done, raised, ◌>>=◌, get, object_at,
  or_else, value_text, value_json, value_bool, record_of,
}
use a2ad.TaskState.{is_terminal}
use a2ad.Tasks.{Message, Task, empty_object}
use a2ad.Tasks.Subscription.{Update}
use a2ad.A2aClient.Parse.{no_task, parse_task, parse_message}
use a2ad.A2aClient.Stream.{Sink}
pub mod Ends
pub mod Quiet

-- The call of `on_task` that an event makes, and whether it ends the stream.
pub record Heard : Type 0 where
  pub update : Update
  pub ends : Bool

unfoldable pub whole : Task → Heard
whole t = record {
  update = record {
    task = t;
    partial_update = false;
    has_state_update = true;
    artifact_append = false;
  };
  ends = is_terminal t.state;
}

-- `if (update.contains("metadata")) task->metadata = update["metadata"]`
abbrev pub with_metadata : Json → Task → Task
with_metadata update t = record t { metadata = or_else (get "metadata" update) t.metadata }

unfoldable pub status_heard : Json → Option Task → Option Heard
status_heard update none = none
status_heard update (some t) = some (record {
  update = record {
    task = with_metadata update t;
    partial_update = true;
    has_state_update = true;
    artifact_append = false;
  };
  ends = is_terminal t.state;
})

unfoldable pub artifact_heard : Json → Bool → Option Task → Option Heard
artifact_heard update append none = none
artifact_heard update append (some t) = some (record {
  update = record {
    task = with_metadata update t;
    partial_update = true;
    has_state_update = false;
    artifact_append = append;
  };
  ends = false;
})

unfoldable pub message_heard : Message → Option Heard
message_heard m =
    if m.task_id == ""
    then none
    else some (record {
      update = record {
        task = record no_task {
          id = m.task_id;
          remote_task_id = some m.task_id;
          context = m.context_id;
          messages = m ∷ [];
        };
        partial_update = true;
        has_state_update = false;
        artifact_append = false;
      };
      ends = false;
    })

module _ (lib : Library) (task_id : String) where
  unfoldable pub status_update : Json → Try (Option Heard)
  status_update update = do
    id ← value_text "taskId" task_id update
    context ← value_text "contextId" "" update
    status ← value_json "status" empty_object update
    t ←
        parse_task lib
          (record_of (("id", string id) ∷ ("contextId", string context) ∷ ("status", status) ∷ []))
    done (status_heard update t)

  unfoldable pub artifact_update : Json → Try (Option Heard)
  artifact_update update = do
    id ← value_text "taskId" task_id update
    context ← value_text "contextId" "" update
    artifact ← value_json "artifact" empty_object update
    t ← parse_task lib (
        record_of (
          ("id", string id)
          ∷ ("contextId", string context)
          ∷ ("artifacts", array (item artifact no_items))
          ∷ []))
    append ← value_bool "append" false update
    done (artifact_heard update append t)

  unfoldable pub message_event : Option Json → Try (Option Heard)
  message_event none = done none
  message_event (some j) = do m ← parse_message lib j; done (message_heard m)

  unfoldable pub artifact_event : Json → Option Json → Try (Option Heard)
  artifact_event event none = message_event (object_at "message" event)
  artifact_event event (some update) = artifact_update update

  unfoldable pub status_event : Json → Option Json → Try (Option Heard)
  status_event event none = artifact_event event (object_at "artifactUpdate" event)
  status_event event (some update) = status_update update

  unfoldable pub task_event : Json → Option Task → Try (Option Heard)
  task_event event none = status_event event (object_at "statusUpdate" event)
  task_event event (some t) = done (some (whole t))

  -- The event itself, or its member `task`, may be a task.
  unfoldable pub heard : Json → Try (Option Heard)
  heard event = do t ← parse_task lib (or_else (get "task" event) event); task_event event t

  unfoldable pub take_heard :
      {S : Type 0} → (S → Update → S) → S × Bool → Try (Option Heard) → S × Bool
  take_heard on_task (s, stop) raised = (s, stop)
  take_heard on_task (s, stop) (done none) = (s, stop)
  take_heard on_task (s, stop) (done (some h)) = (on_task s h.update, stop || h.ends)

  -- The consumer of the stream, with `stream_stop` beside the state of `on_task`.
  unfoldable pub subscription : {S : Type 0} → (S → Update → S) → Sink (S × Bool)
  subscription on_task = record {
    on_event = λ s event. take_heard on_task s (heard event);
    stop_requested = λ (s, stop). stop;
  }
