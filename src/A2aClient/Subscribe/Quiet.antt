-- ===== src/A2aClient/Subscribe/Quiet.antt =====
-- An artifact or a message of the stream leaves the state of the stored task alone.
use a2ad.Common.{String, ◌≡◌, refl, sym, Bool, true, false, Option, none, some, lookup, arith}
use mathlib.Core.Path.{subst}
use a2ad.Json.{Json, Library, Try, done, raised, ◌>>=◌, get, object_at, text_at}
use a2ad.TaskState.{state_eq}
use a2ad.Tasks.{Task, Manager}
use a2ad.Tasks.Bookkeeping.{Quiet, Quiet-same, Quiet-emit}
use a2ad.Tasks.Subscription.{
  Update, merge_metadata, merge_state, merge_partial, version, kept, merged, update_merged,
  update_found, on_update, kept-SameTask,
}
use a2ad.A2aClient.Response.Outcomes.{Ensures}
use a2ad.A2aClient.Stream.{Sink}
use a2ad.A2aClient.Subscribe.{Heard, heard, take_heard, subscription}
use a2ad.A2aClient.Subscribe.Ends.{Stateless, heard-Stateless}

partial-state :
    (u : Update) (old : Task) (metadata : Json)
    → u.has_state_update ≡ false
    → (merge_partial u old metadata).state ≡ old.state
unfolding merge_partial merge_state
partial-state u old metadata h = rw (merge_state, h) refl

on_update-Quiet :
    (listens : Bool) (now : String) (u : Update) (old : Task) (m : Manager)
    → lookup old.id m.tasks ≡ some old
    → u.partial_update ≡ true
    → u.has_state_update ≡ false
    → Quiet old m (on_update listens now old.id u m)
unfolding on_update update_found update_merged merged kept version
on_update-Quiet listens now u old m found h k = rw found (
    subst
      (λ b. Quiet old m (
        update_merged listens old.id m old
          (version b u old >>= λ t. done (kept now u.task.id old t))))
      (sym h) (at_metadata (merge_metadata u.task.metadata old.metadata)))
  where
    at_metadata :
        (r : Try Json)
        → Quiet old m (
            update_merged listens old.id m old (
              (r >>= λ metadata. done (merge_partial u old metadata)) >>= λ t.
              done (kept now u.task.id old t)))
    at_metadata raised = Quiet-same listens old m found
    at_metadata (done metadata) =
        Quiet-emit listens old m (kept now u.task.id old (merge_partial u old metadata))
          (kept-SameTask now u.task.id old (merge_partial u old metadata))
          (partial-state u old metadata k)

module _ (lib : Library) (remote_id : String) (listens : Bool) (now : String) (old : Task) where
  -- The subscription to a stored task, as the task manager starts it.
  abbrev pub listener : Sink (Manager × Bool)
  listener = subscription lib remote_id (λ m u. on_update listens now old.id u m)

  take_heard-Quiet :
      (m : Manager) (stop : Bool) (h : Try (Option Heard))
      → lookup old.id m.tasks ≡ some old
      → Ensures Stateless h
      → Quiet old m
          (take_heard lib remote_id (λ m u. on_update listens now old.id u m) (m, stop) h).0
        × ((take_heard lib remote_id (λ m u. on_update listens now old.id u m) (m, stop) h).1
            ≡ stop)
  unfolding take_heard
  take_heard-Quiet m stop raised found q = (Quiet-same listens old m found, refl)
  take_heard-Quiet m stop (done none) found q = (Quiet-same listens old m found, refl)
  take_heard-Quiet m stop (done (some h)) found (partial, stateless, ends) =
      (on_update-Quiet listens now h.update old m found partial stateless, ground (arith, ends))

  -- An event of the stream that is no task and has no status update, so an artifact, a message or
  -- anything else, leaves the state of a task that is stored under its id as it is, announces nothing
  -- and does not end the stream.
  pub listener-Quiet :
      (m : Manager) (stop : Bool) (event : Json)
      → lookup old.id m.tasks ≡ some old
      → get "task" event ≡ none
      → text_at "id" event ≡ none
      → object_at "statusUpdate" event ≡ none
      → Quiet old m (listener.on_event (m, stop) event).0
        × ((listener.on_event (m, stop) event).1 ≡ stop)
  unfolding subscription
  listener-Quiet m stop event found a b c =
      take_heard-Quiet m stop (heard lib remote_id event) found
        (heard-Stateless lib remote_id event a b c)
