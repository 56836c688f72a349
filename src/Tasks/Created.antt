-- ===== src/Tasks/Created.antt =====
-- What `createTask` stores and answers.
use a2ad.Common.{
  ◌≡◌, refl, ap, ◌∙◌, Bool, true, false, not, Option, none, some, ◌++◌, if◌then◌else◌, lookup,
  insert, lookup-insert_self, ◌⊎◌, inl, inr, bytes,
}
use a2ad.Tasks.{Task, Manager, put_task}
use a2ad.Tasks.Remote.{A2aResult, Client, error_kind_name}
use a2ad.Tasks.Create.{
  CreateTaskRequest, CreateTaskResponse, Fresh, refusal, made, interaction, new_task, accepted,
  put_new, create_result, create_task, payload,
}

-- A refusal leaves the tasks and the events alone; otherwise the answer is about the task that is
-- stored under the fresh id.
abbrev pub Answers : Fresh → Manager → CreateTaskResponse × Manager → Type 0
Answers f m (resp, m') =
    ((resp.ok ≡ false) × (m' ≡ m))
    ⊎ ((t : Task) × (resp.ok ≡ true)
        × (lookup f.id m'.tasks ≡ some t)
        × (resp.task_id ≡ f.id)
        × (resp.context_id ≡ t.context)
        × (resp.state ≡ t.state)
        × (m'.tasks ≡ insert f.id t m.tasks))

new_task-id : (f : Fresh) (req : CreateTaskRequest) (r : A2aResult) → (new_task f req r).id ≡ f.id
unfolding made interaction
new_task-id f req r = go r.task
  where
    go :
        (o : Option Task)
        → (elim o as (λ _. Task) [ some t ↦ made f req t | none ↦ interaction f req r ]).id ≡ f.id
    go none = refl
    go (some t) = refl

put_new-tasks :
    (listens : Bool) (t : Task) (m : Manager) → (put_new listens t m).tasks ≡ insert t.id t m.tasks
unfolding put_new put_task
put_new-tasks true t m = refl
put_new-tasks false t m = refl

module _ {Endpoint : Type 0} (c : Client Endpoint) (f : Fresh) (req : CreateTaskRequest)
    (m : Manager) where
  create_result-Answers : (r : A2aResult) → Answers f m (create_result c f req m r)
  unfolding create_result
  create_result-Answers r = go r.ok
    where
      tasks :
          (put_new c.listens (new_task f req r) m).tasks ≡ insert f.id (new_task f req r) m.tasks
      tasks =
          put_new-tasks c.listens (new_task f req r) m
          ∙ ap (λ k. insert k (new_task f req r) m.tasks) (new_task-id f req r)

      go :
          (b : Bool)
          → Answers f m (
              if not b
              then (refusal (error_kind_name r.error_kind) r.error, m)
              else (accepted (new_task f req r), put_new c.listens (new_task f req r) m))
      go false = inl (refl, refl)
      go true = inr (
        new_task f req r,
        refl,
        ap (lookup f.id) tasks ∙ lookup-insert_self f.id (new_task f req r) m.tasks,
        new_task-id f req r,
        refl,
        refl,
        tasks,
      )

  -- A request for a new task is either refused, and then neither the tasks nor the events change, or it
  -- is accepted, and then exactly one task is written, under the fresh id, and the answer is about it.
  pub create_task-Answers : Answers f m (create_task c f req m)
  unfolding create_task
  create_task-Answers = go (c.resolve req.agent)
    where
      go :
          (o : Option Endpoint)
          → Answers f m (elim o [
            | none ↦ (refusal "unknown_agent" (bytes "unknown agent: " ++ bytes req.agent), m)
            | some e ↦ create_result c f req m (
                c.send_message e
                  (payload req)
                  req.continue_task_id
                  req.continue_context_id
                  req.request_id)
          ])
      go none = inl (refl, refl)
      go (some e) = create_result-Answers _
