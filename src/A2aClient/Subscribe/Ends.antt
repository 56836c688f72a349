-- ===== src/A2aClient/Subscribe/Ends.antt =====
-- Which events change the state of a task, and which end its stream.
use a2ad.Common.{
  String, ◌≡◌, refl, Bool, true, false, ◌&&◌, Option, none, some, ◌==◌, string_eq, Bool-cases, inl,
  inr,
}
use a2ad.Json.{
  Json, Library, done, get, object_at, text_at, or_else, value_text, value_json, value_bool,
}
use a2ad.TaskState.{is_terminal}
use a2ad.Tasks.{Task, Message, empty_object}
use a2ad.A2aClient.Response.Outcomes.{Ensures, Ensures-bind, Ensures-map, Ensures-done}
use a2ad.A2aClient.Parse.{parse_task, parse_message, parse_with}
use a2ad.A2aClient.Subscribe.{
  Heard, whole, with_metadata, status_heard, artifact_heard, message_heard, status_update,
  artifact_update, message_event, artifact_event, status_event, task_event, heard,
}

-- The event ends the stream exactly if it moves the task to a terminal state.
abbrev EndsRight : Option Heard → Type 0
EndsRight none = Unit
EndsRight (some h) = h.ends ≡ (h.update.has_state_update && is_terminal h.update.task.state)

-- The event brings no state.
abbrev pub Stateless : Option Heard → Type 0
Stateless none = Unit
Stateless (some h) =
    (h.update.partial_update ≡ true) × (h.update.has_state_update ≡ false) × (h.ends ≡ false)

message_heard-both : (m : Message) → EndsRight (message_heard m) × Stateless (message_heard m)
unfolding message_heard
message_heard-both m = elim (Bool-cases (m.task_id == "")) [
  | inl e ↦ rw e (tt, tt)
  | inr e ↦ rw e (refl, (refl, refl, refl))
]

artifact_heard-both :
    (update : Json) (append : Bool) (t : Option Task)
    → EndsRight (artifact_heard update append t) × Stateless (artifact_heard update append t)
unfolding artifact_heard
artifact_heard-both update append none = (tt, tt)
artifact_heard-both update append (some t) = (refl, (refl, refl, refl))

status_heard-EndsRight : (update : Json) (t : Option Task) → EndsRight (status_heard update t)
unfolding status_heard with_metadata
status_heard-EndsRight update none = tt
status_heard-EndsRight update (some t) = refl

module _ (lib : Library) (task_id : String) where
  message_event-both :
      (j : Option Json) → Ensures (λ h. EndsRight h × Stateless h) (message_event lib task_id j)
  unfolding message_event
  message_event-both none = (tt, tt)
  message_event-both (some j) = Ensures-bind _ (parse_message lib j) _ message_heard-both

  artifact_event-both :
      (event : Json) (j : Option Json)
      → Ensures (λ h. EndsRight h × Stateless h) (artifact_event lib task_id event j)
  unfolding artifact_event artifact_update
  artifact_event-both event none = message_event-both (object_at "message" event)
  artifact_event-both event (some update) =
      Ensures-bind _ (value_text "taskId" task_id update) _ λ id.
        Ensures-bind _ (value_text "contextId" "" update) _ λ context.
          Ensures-bind _ (value_json "artifact" empty_object update) _ λ artifact.
            Ensures-bind _ (parse_task lib _) _ λ t.
              Ensures-bind _ (value_bool "append" false update) _
                λ append. artifact_heard-both update append t

  status_event-EndsRight :
      (event : Json) (j : Option Json) → Ensures EndsRight (status_event lib task_id event j)
  unfolding status_event status_update
  status_event-EndsRight event none =
      Ensures-map _ _ (artifact_event lib task_id event (object_at "artifactUpdate" event))
        (λ h both. both.0) (artifact_event-both event (object_at "artifactUpdate" event))
  status_event-EndsRight event (some update) =
      Ensures-bind _ (value_text "taskId" task_id update) _ λ id.
        Ensures-bind _ (value_text "contextId" "" update) _ λ context.
          Ensures-bind _ (value_json "status" empty_object update) _
            λ status. Ensures-bind _ (parse_task lib _) _ λ t. status_heard-EndsRight update t

  heard-EndsRight : (event : Json) → Ensures EndsRight (heard lib task_id event)
  unfolding heard task_event whole
  heard-EndsRight event = Ensures-bind _ (parse_task lib (or_else (get "task" event) event)) _ go
    where
      go : (t : Option Task) → Ensures EndsRight (task_event lib task_id event t)
      go none = status_event-EndsRight event (object_at "statusUpdate" event)
      go (some t) = refl

  -- An event that calls `on_task` asks for the end of the stream exactly if it brings a state and that
  -- state is terminal; this holds for a whole task and for each kind of partial update.
  pub heard-ends :
      (event : Json) (h : Heard)
      → heard lib task_id event ≡ done (some h)
      → h.ends ≡ (h.update.has_state_update && is_terminal h.update.task.state)
  heard-ends event h e = Ensures-done EndsRight _ (heard-EndsRight event) e

  -- An event that is no task and has no status update.
  pub heard-Stateless :
      (event : Json)
      → get "task" event ≡ none
      → text_at "id" event ≡ none
      → object_at "statusUpdate" event ≡ none
      → Ensures Stateless (heard lib task_id event)
  unfolding heard parse_task parse_with task_event status_event
  heard-Stateless event a b c = rw (heard, a) (rw (parse_task, b) (rw c quiet))
    where
      quiet :
          Ensures Stateless (artifact_event lib task_id event (object_at "artifactUpdate" event))
      quiet =
          Ensures-map _ _ (artifact_event lib task_id event (object_at "artifactUpdate" event))
            (λ h both. both.1) (artifact_event-both event (object_at "artifactUpdate" event))
