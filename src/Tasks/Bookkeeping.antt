-- ===== src/Tasks/Bookkeeping.antt =====
-- What the operations on a task keep of it, and what they announce.
use a2ad.Common.{
  String, ◌≡◌, refl, sym, ap, ◌∙◌, Bool, true, false, not, ◌||◌, Option, none, some, List, [], ◌∷◌,
  ◌++◌, ◌==◌, string_eq, if◌then◌else◌, lookup, insert, lookup-insert_self, lookup-insert_ne, ◌≢◌,
  Text, arith,
}
use mathlib.Core.List.{append-nil}
use a2ad.TaskState.{TaskState, state_eq, state_iff}
use a2ad.Tasks.{Message, Task, TaskEvent, state_changed, Manager, emit, put_task}
use a2ad.Tasks.Remote.{
  A2aResult, Client, error_kind_name, adopt, replace, when_task, cancelled, cancel_at, refresh_at,
  cancel_known, cancel_found, cancel, refresh_known, refresh_found, refresh, remote_id,
}
use a2ad.Tasks.Create.{
  Fresh, next_version, answered, responded, refusal, respond_sent, respond_result, respond_known,
  respond_found, respond,
}

-- What a task is to the owner: its id, agent, title, directory and date.
pub record SameTask (old new : Task) : Type 0 where
  pub id : new.id ≡ old.id
  pub agent : new.agent ≡ old.agent
  pub title : new.title ≡ old.title
  pub cwd : new.cwd ≡ old.cwd
  pub created_at : new.created_at ≡ old.created_at

-- The events of a change of state, if it is one.
abbrev pub changes : Bool → String → TaskState → TaskState → List TaskEvent
changes listens id old new = if old == new || not listens then [] else state_changed id old new ∷ []

-- From `m` to `m'`, the task `old` has at most got a new version; its change of state is announced,
-- and nothing else; what is stored under any other id is as before.
pub record Updated (listens : Bool) (old : Task) (m m' : Manager) : Type 0 where
  pub new : Task
  pub stored : lookup old.id m'.tasks ≡ some new
  pub same : SameTask old new
  pub announced : m'.events ≡ m.events ++ changes listens old.id old.state new.state
  pub others : (k : String) → k ≢ old.id → lookup k m'.tasks ≡ lookup k m.tasks

-- The stored task is in the same state, nothing is announced, and what is stored under any other id
-- is as before.
pub record Quiet (old : Task) (m m' : Manager) : Type 0 where
  pub new : Task
  pub stored : lookup old.id m'.tasks ≡ some new
  pub same_state : new.state ≡ old.state
  pub silent : m'.events ≡ m.events
  pub others : (k : String) → k ≢ old.id → lookup k m'.tasks ≡ lookup k m.tasks

pub same_task : (t : Task) → SameTask t t
same_task t = record { id = refl; agent = refl; title = refl; cwd = refl; created_at = refl }

no_changes : (listens : Bool) (id : String) (st : TaskState) → changes listens id st st ≡ []
no_changes listens id st = ground (arith, state_iff st st)

module _ (listens : Bool) (id : String) (old new : TaskState) (m : Manager) where
  emit-tasks : (emit listens id old new m).tasks ≡ m.tasks
  unfolding emit
  emit-tasks = go (old == new || not listens)
    where
      go :
          (b : Bool)
          → (if b then m else record m { events = m.events ++ state_changed id old new ∷ [] }).tasks
            ≡ m.tasks
      go true = refl
      go false = refl

  emit-events : (emit listens id old new m).events ≡ m.events ++ changes listens id old new
  unfolding emit
  emit-events = go (old == new || not listens)
    where
      go :
          (b : Bool)
          → (if b
              then m
              else record m { events = m.events ++ state_changed id old new ∷ [] }).events
            ≡ m.events ++ (if b then [] else state_changed id old new ∷ [])
      go true = sym (append-nil m.events)
      go false = refl

module _ (listens : Bool) (old : Task) (m : Manager) where
  pub Updated-same : lookup old.id m.tasks ≡ some old → Updated listens old m m
  Updated-same found = record {
    new = old;
    stored = found;
    same = same_task old;
    announced =
        sym (append-nil m.events)
        ∙ ap (λ es. m.events ++ es) (sym (no_changes listens old.id old.state));
    others = λ k other. refl;
  }

  pub Updated-emit :
      (new : Task)
      → SameTask old new
      → Updated listens old m (emit listens new.id old.state new.state (put_task new m))
  unfolding put_task
  Updated-emit new same = record {
    new = new;
    stored =
        ap (lookup old.id) (emit-tasks listens new.id old.state new.state (put_task new m))
        ∙ ap (λ k. lookup k (insert new.id new m.tasks)) (sym same.id)
        ∙ lookup-insert_self new.id new m.tasks;
    same = same;
    announced =
        emit-events listens new.id old.state new.state (put_task new m)
        ∙ ap (λ k. m.events ++ changes listens k old.state new.state) same.id;
    others = λ k other.
        ap (lookup k) (emit-tasks listens new.id old.state new.state (put_task new m))
        ∙ lookup-insert_ne new.id k new m.tasks (λ e. other (sym e ∙ same.id));
  }

  pub Quiet-same : lookup old.id m.tasks ≡ some old → Quiet old m m
  Quiet-same found = record {
    new = old;
    stored = found;
    same_state = refl;
    silent = refl;
    others = λ k other. refl;
  }

  pub Quiet-emit :
      (new : Task)
      → SameTask old new
      → new.state ≡ old.state
      → Quiet old m (emit listens new.id old.state new.state (put_task new m))
  unfolding Updated-emit
  Quiet-emit new same e =
      let u = Updated-emit new same in
      record {
        new = new;
        stored = u.stored;
        same_state = e;
        silent =
            u.announced
            ∙ ap (λ st. m.events ++ changes listens old.id old.state st) e
            ∙ ap (λ es. m.events ++ es) (no_changes listens old.id old.state)
            ∙ append-nil m.events;
        others = u.others;
      }

-- A task that the agent has sent is the stored one for the owner.
adopt-SameTask : (now : String) (old t : Task) → SameTask old (adopt now old t)
unfolding adopt
adopt-SameTask now old t = record {
  id = refl;
  agent = refl;
  title = refl;
  cwd = refl;
  created_at = refl;
}

-- The two times of a task do not matter to the owner.
renewed-SameTask :
    (old t : Task) (updated changed : String)
    → SameTask old t
    → SameTask old (record t { updated_at = updated; last_state_change = changed })
renewed-SameTask old t updated changed h = record {
  id = h.id;
  agent = h.agent;
  title = h.title;
  cwd = h.cwd;
  created_at = h.created_at;
}

module _ {Endpoint : Type 0} (c : Client Endpoint) (now : String) (old : Task) (m : Manager)
    (found : lookup old.id m.tasks ≡ some old) where
  when_task-Updated :
      (r : A2aResult) (k : Task → Manager)
      → ((t : Task) → Updated c.listens old m (k t))
      → Updated c.listens old m (when_task c now r k m)
  unfolding when_task
  when_task-Updated r k h = go r.ok r.task
    where
      by_task : (o : Option Task) → Updated c.listens old m (elim o [ some t ↦ k t | none ↦ m ])
      by_task none = Updated-same c.listens old m found
      by_task (some t) = h t

      go :
          (b : Bool) (o : Option Task)
          → Updated c.listens old m (if b then elim o [ some t ↦ k t | none ↦ m ] else m)
      go true o = by_task o
      go false o = Updated-same c.listens old m found

  refresh_at-Updated :
      (e : Endpoint) (o : Option String) → Updated c.listens old m (refresh_at c now m old e o).1
  unfolding refresh_at replace
  refresh_at-Updated e none = Updated-same c.listens old m found
  refresh_at-Updated e (some id) =
      when_task-Updated (c.get_task e id) (λ t. replace c now old (adopt now old t) m)
        (λ t. Updated-emit c.listens old m (adopt now old t) (adopt-SameTask now old t))

  refresh_known-Updated :
      (e : Option Endpoint) → Updated c.listens old m (refresh_known c now m old e).1
  unfolding refresh_known
  refresh_known-Updated none = Updated-same c.listens old m found
  refresh_known-Updated (some e) = refresh_at-Updated e (remote_id old)

  cancel_at-Updated :
      (e : Endpoint) (o : Option String) → Updated c.listens old m (cancel_at c now m old e o).1
  unfolding cancel_at cancelled replace adopt
  cancel_at-Updated e none = Updated-same c.listens old m found
  cancel_at-Updated e (some id) =
      when_task-Updated (c.cancel_task e id)
        (λ t. replace c now old (record (adopt now old t) { last_state_change = now }) m)
        (λ t.
          Updated-emit c.listens old m _
            (renewed-SameTask old (adopt now old t) now now (adopt-SameTask now old t)))

  cancel_known-Updated :
      (e : Option Endpoint) → Updated c.listens old m (cancel_known c now m old e).1
  unfolding cancel_known
  cancel_known-Updated none = Updated-same c.listens old m found
  cancel_known-Updated (some e) = cancel_at-Updated e (remote_id old)

  -- Refreshing or cancelling a task that is stored under its id keeps it the same for the owner (its
  -- id, agent, title, directory and date), announces its change of state, if there is one, and
  -- nothing else, and leaves what is stored under any other id as it is.
  pub remote-Updated :
      Updated c.listens old m (refresh c now old.id m).1
      × Updated c.listens old m (cancel c now old.id m).1
  unfolding refresh cancel refresh_found cancel_found
  remote-Updated = rw found (refreshed, gone)
    where
      refreshed : Updated c.listens old m (refresh_found c now old.id m (some old)).1
      refreshed = refresh_known-Updated (c.resolve old.agent)

      gone : Updated c.listens old m (cancel_found c now old.id m (some old)).1
      gone = cancel_known-Updated (c.resolve old.agent)

module _ {Endpoint : Type 0} (c : Client Endpoint) (f : Fresh) (old : Task) (m : Manager)
    (found : lookup old.id m.tasks ≡ some old) where
  next_version-SameTask : (r : A2aResult) → SameTask old (next_version c f old r)
  unfolding next_version answered
  next_version-SameTask r = by_task r.task r.message
    where
      by_message :
          (o : Option Message)
          → SameTask old
              (elim o [ some message ↦ answered c f old message r.context_id | none ↦ old ])
      by_message none = same_task old
      by_message (some message) = record {
        id = refl;
        agent = refl;
        title = refl;
        cwd = refl;
        created_at = refl;
      }

      by_task :
          (o : Option Task) (k : Option Message)
          → SameTask old (elim o [
            | some t ↦ adopt f.now old t
            | none ↦ elim k [ some message ↦ answered c f old message r.context_id | none ↦ old ]
          ])
      by_task (some t) k = adopt-SameTask f.now old t
      by_task none k = by_message k

  respond_result-Updated : (r : A2aResult) → Updated c.listens old m (respond_result c f old m r).1
  unfolding respond_result respond_sent replace
  respond_result-Updated r = go r.ok
    where
      go :
          (b : Bool)
          → Updated c.listens old m
              (if b
                then respond_sent c f old m r
                else (refusal (error_kind_name r.error_kind) r.error, m)).1
      go false = Updated-same c.listens old m found
      go true =
          Updated-emit c.listens old m (responded c f old r)
            (renewed-SameTask old (next_version c f old r) f.now f.now (next_version-SameTask r))

  respond_known-Updated :
      (text : Text) (request_id : String) (e : Option Endpoint)
      → Updated c.listens old m (respond_known c f text request_id m old e).1
  unfolding respond_known
  respond_known-Updated text request_id none = Updated-same c.listens old m found
  respond_known-Updated text request_id (some e) = respond_result-Updated _

  -- Answering a task that is stored under its id keeps it the same for the owner, whether the agent
  -- sends a new version, a message or an error, announces its change of state, if there is one, and
  -- nothing else, and leaves what is stored under any other id as it is.
  pub respond-Updated :
      (text : Text) (request_id : String)
      → Updated c.listens old m (respond c f old.id text request_id m).1
  unfolding respond respond_found
  respond-Updated text request_id =
      rw found (respond_known-Updated text request_id (c.resolve old.agent))
