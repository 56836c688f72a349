-- ===== src/Tasks/Reconcile.antt =====
-- What the reconciliation at the start does when it learns nothing.
use a2ad.Common.{
  String, ◌≡◌, refl, sym, false, Option, none, some, if◌then◌else◌, lookup, lookup-insert_self,
}
use mathlib.Core.Path.{subst}
use a2ad.Tasks.{Task, Manager, put_task}
use a2ad.Tasks.Remote.{
  ErrorKind, local_network, A2aResult, Client, remote_id, noted, replace, reconciled,
  reconcile_failed, reconcile_result, reconcile_task,
}
use a2ad.Tasks.Bookkeeping.{SameTask, same_task}

-- The task is stored in a version of the same state, and nothing has been announced.
pub record Unmoved (t : Task) (m m' : Manager) : Type 0 where
  pub new : Task
  pub stored : lookup t.id m'.tasks ≡ some new
  pub same_state : new.state ≡ t.state
  pub same : SameTask t new
  pub silent : m'.events ≡ m.events

module _ {Endpoint : Type 0} (c : Client Endpoint) (now : String) (t : Task) (m : Manager)
    (found : lookup t.id m.tasks ≡ some t) where
  kept : Unmoved t m m
  kept = record { new = t; stored = found; same_state = refl; same = same_task t; silent = refl }

  noted-Unmoved : (r : A2aResult) → Unmoved t m (put_task (noted c now t r.error) m)
  unfolding put_task
  noted-Unmoved r = record {
    new = noted c now t r.error;
    stored = lookup-insert_self t.id (noted c now t r.error) m.tasks;
    same_state = refl;
    same = record { id = refl; agent = refl; title = refl; cwd = refl; created_at = refl };
    silent = refl;
  }

  failed-Unmoved : (r : A2aResult) → Unmoved t m (reconcile_failed c now t r m)
  unfolding reconcile_failed
  failed-Unmoved r = go r.error_kind
    where
      go :
          (k : ErrorKind)
          → Unmoved t m (elim k [ local_network ↦ m | _ ↦ put_task (noted c now t r.error) m ])
      go local_network = kept
      go _ = noted-Unmoved r

  result-Unmoved : (r : A2aResult) → r.ok ≡ false → Unmoved t m (reconcile_result c now t r m)
  unfolding reconcile_result
  result-Unmoved r h =
      subst
        (λ b. Unmoved t m (
          if b
          then elim r.task as (λ _. Manager) [
            | some fresh ↦ replace c now t (reconciled c now t fresh) m
            | none ↦ reconcile_failed c now t r m
          ]
          else reconcile_failed c now t r m))
        (sym h) (failed-Unmoved r)

  -- When the agent of a stored task cannot be reached or answers with an error, its reconciliation
  -- does not change its state, nor what it is to the owner, and announces nothing.
  pub reconcile-Unmoved :
      ((e : Endpoint) (id : String) → (c.get_task e id).ok ≡ false)
      → Unmoved t m (reconcile_task c now t m)
  unfolding reconcile_task
  reconcile-Unmoved down = go (c.resolve t.agent) (remote_id t)
    where
      at :
          (e : Endpoint) (o : Option String)
          → Unmoved t m
              (elim o [ none ↦ m | some id ↦ reconcile_result c now t (c.get_task e id) m ])
      at e none = kept
      at e (some id) = result-Unmoved (c.get_task e id) (down e id)

      go :
          (o : Option Endpoint) (i : Option String)
          → Unmoved t m (elim o [
            | none ↦ m
            | some e ↦ elim i [ none ↦ m | some id ↦ reconcile_result c now t (c.get_task e id) m ]
          ])
      go none i = kept
      go (some e) i = at e i
