-- ===== src/Tasks/Subscription.antt =====
-- daemon/src/TaskManager.cpp: what the subscription to a task does with an update that arrives.
use a2ad.Common.{
  String, ◌≡◌, refl, sym, ap, ◌∙◌, Bool, true, false, Option, none, some, List, [], ◌∷◌, ◌++◌, ◌==◌,
  string_eq, str_eq_iff, if◌then◌else◌, lookup, Bool-cases, inl, inr,
}
use mathlib.Core.Path.{subst}
use mathlib.Core.List.{append-nil, append_assoc}
use a2ad.Json.{
  Json, null, array, object, no_items, Fields, no_fields, field, put, Try, done, raised, ◌>>=◌,
  done-inj,
}
use a2ad.Tasks.{Artifact, Task, Manager, emit, put_task, remote_or}
use a2ad.Tasks.Remote.{string_or}
use a2ad.Tasks.Bookkeeping.{SameTask, Updated, Updated-same, Updated-emit}

-- A task of the stream, with the hints for its merge.
pub record Update : Type 0 where
  pub task : Task
  pub partial_update : Bool
  pub has_state_update : Bool
  pub artifact_append : Bool

-- One artifact of the update: a new one, more parts of an old one, or a new version of an old one.
unfoldable pub merge_artifact : Bool → Artifact → List Artifact → List Artifact
merge_artifact more a [] = a ∷ []
merge_artifact more a (x ∷ xs) =
    if x.artifact_id == a.artifact_id
    then (if more then record x { parts = x.parts ++ a.parts } else a) ∷ xs
    else x ∷ merge_artifact more a xs

unfoldable pub merge_artifacts : Bool → List Artifact → List Artifact → List Artifact
merge_artifacts more [] xs = xs
merge_artifacts more (a ∷ sent) xs = merge_artifacts more sent (merge_artifact more a xs)

unfoldable pub update_fields : Fields → Fields → Fields
update_fields no_fields old = old
update_fields (field k v fs) old = update_fields fs (put k v old)

-- `if (!update.metadata.empty()) merged.metadata.update(update.metadata)`: only objects merge, and a
-- null counts as an empty one.
unfoldable pub merge_metadata : Json → Json → Try Json
merge_metadata null old = done old
merge_metadata (array no_items) old = done old
merge_metadata (object no_fields) old = done old
merge_metadata (object (field k v fs)) (object old) =
    done (object (update_fields (field k v fs) old))
merge_metadata (object (field k v fs)) null = done (object (update_fields (field k v fs) no_fields))
merge_metadata _ old = raised

unfoldable pub merge_state : Update → Task → Task
merge_state u t =
    if u.has_state_update
    then record t {
      state = u.task.state;
      state_message = u.task.state_message;
      last_state_change = u.task.last_state_change;
    }
    else t

unfoldable pub merge_partial : Update → Task → Json → Task
merge_partial u existing metadata =
    let t = merge_state u existing in
    record t {
      context = string_or u.task.context t.context;
      messages = t.messages ++ u.task.messages;
      artifacts = merge_artifacts u.artifact_append u.task.artifacts t.artifacts;
      metadata = metadata;
    }

-- `update.partial_update ? *existing : update`, with what the update brings.
unfoldable pub version : Bool → Update → Task → Try Task
version true u existing = do
  metadata ← merge_metadata u.task.metadata existing.metadata
  done (merge_partial u existing metadata)
version false u existing = done u.task

-- What stays of the stored task.
unfoldable pub kept : String → String → Task → Task → Task
kept now id existing t = record t {
  remote_task_id = remote_or t.remote_task_id id;
  id = existing.id;
  agent = existing.agent;
  title = existing.title;
  cwd = existing.cwd;
  created_at = existing.created_at;
  updated_at = now;
}

-- The version that is stored, unless the merge throws.
unfoldable pub merged : String → Update → Task → Try Task
merged now u existing = do
  t ← version u.partial_update u existing
  done (kept now u.task.id existing t)

unfoldable pub update_merged : Bool → String → Manager → Task → Try Task → Manager
update_merged listens id m existing raised = m
update_merged listens id m existing (done new) =
    emit listens id existing.state new.state (put_task new m)

unfoldable pub update_found : Bool → String → String → Update → Manager → Option Task → Manager
update_found listens now id u m none = m
update_found listens now id u m (some existing) =
    update_merged listens id m existing (merged now u existing)

-- The callback of the subscription. The stream catches what it throws.
unfoldable pub on_update : Bool → String → String → Update → Manager → Manager
on_update listens now id u m = update_found listens now id u m (lookup id m.tasks)

pub kept-SameTask : (now id : String) (old t : Task) → SameTask old (kept now id old t)
unfolding kept
kept-SameTask now id old t = record {
  id = refl;
  agent = refl;
  title = refl;
  cwd = refl;
  created_at = refl;
}

-- An update of the stream, partial or whole, of a task that is stored under its id keeps it the same
-- for the owner (its id, agent, title, directory and date), announces its change of state, if there
-- is one, and nothing else, and leaves what is stored under any other id as it is.
pub on_update-Updated :
    (listens : Bool) (now : String) (u : Update) (old : Task) (m : Manager)
    → lookup old.id m.tasks ≡ some old
    → Updated listens old m (on_update listens now old.id u m)
unfolding on_update update_found update_merged merged kept
on_update-Updated listens now u old m found = rw found (at_version (version u.partial_update u old))
  where
    at_version :
        (v : Try Task)
        → Updated listens old m
            (update_merged listens old.id m old (v >>= λ t. done (kept now u.task.id old t)))
    at_version raised = Updated-same listens old m found
    at_version (done t) =
        Updated-emit listens old m (kept now u.task.id old t) (kept-SameTask now u.task.id old t)

abbrev pub artifact_ids : List Artifact → List String
artifact_ids [] = []
artifact_ids (x ∷ xs) = x.artifact_id ∷ artifact_ids xs

-- The first list, and more after it.
abbrev pub Continues : List String → List String → Type 0
Continues old new = (added : List String) × (new ≡ old ++ added)

merge_artifact-Continues :
    (more : Bool) (a : Artifact) (xs : List Artifact)
    → Continues (artifact_ids xs) (artifact_ids (merge_artifact more a xs))
unfolding merge_artifact
merge_artifact-Continues more a [] = (a.artifact_id ∷ [], refl)
merge_artifact-Continues more a (x ∷ xs) = elim (Bool-cases (x.artifact_id == a.artifact_id)) [
  | inl known ↦ rw known (
    [],
    ap (λ id. id ∷ artifact_ids xs) (kept more known) ∙ sym (append-nil (artifact_ids (x ∷ xs))),
  )
  | inr other ↦
      let (added, e) = merge_artifact-Continues more a xs in
      rw other (added, ap (λ ys. x.artifact_id ∷ ys) e)
]
  where
    kept :
        (b : Bool)
        → (x.artifact_id == a.artifact_id) ≡ true
        → (if b then record x { parts = x.parts ++ a.parts } else a).artifact_id ≡ x.artifact_id
    kept true k = refl
    kept false k = sym ((str_eq_iff x.artifact_id a.artifact_id).0 k)

merge_artifacts-Continues :
    (more : Bool) (sent xs : List Artifact)
    → Continues (artifact_ids xs) (artifact_ids (merge_artifacts more sent xs))
unfolding merge_artifacts
merge_artifacts-Continues more [] xs = ([], sym (append-nil (artifact_ids xs)))
merge_artifacts-Continues more (a ∷ sent) xs =
    let (first, e) = merge_artifact-Continues more a xs in
    let (rest, f) = merge_artifacts-Continues more sent (merge_artifact more a xs) in
    (first ++ rest, f ∙ ap (λ ys. ys ++ rest) e ∙ append_assoc (artifact_ids xs) first rest)

merge_state-history :
    (u : Update) (t : Task)
    → ((merge_state u t).messages ≡ t.messages) × ((merge_state u t).artifacts ≡ t.artifacts)
unfolding merge_state
merge_state-history u t = go u.has_state_update
  where
    go :
        (b : Bool)
        → ((if b
              then record t {
                state = u.task.state;
                state_message = u.task.state_message;
                last_state_change = u.task.last_state_change;
              }
              else t).messages
            ≡ t.messages)
          × ((if b
                then record t {
                  state = u.task.state;
                  state_message = u.task.state_message;
                  last_state_change = u.task.last_state_change;
                }
                else t).artifacts
              ≡ t.artifacts)
    go true = (refl, refl)
    go false = (refl, refl)

partial-history :
    (u : Update) (old : Task) (metadata : Json)
    → ((merge_partial u old metadata).messages ≡ old.messages ++ u.task.messages)
      × Continues
          (artifact_ids old.artifacts)
          (artifact_ids (merge_partial u old metadata).artifacts)
unfolding merge_partial
partial-history u old metadata =
    let (m, a) = merge_state-history u old in
    let (added, e) =
      merge_artifacts-Continues u.artifact_append u.task.artifacts (merge_state u old).artifacts in
    (ap (λ ys. ys ++ u.task.messages) m, (added, e ∙ ap (λ xs. artifact_ids xs ++ added) a))

-- A partial update that is stored loses no history: its messages follow those that are stored, and the
-- artifacts that are stored keep their places, with new ones after them.
pub merged-history :
    (now : String) (u : Update) (old new : Task)
    → u.partial_update ≡ true
    → merged now u old ≡ done new
    → (new.messages ≡ old.messages ++ u.task.messages)
      × Continues (artifact_ids old.artifacts) (artifact_ids new.artifacts)
unfolding merged version kept
merged-history now u old new h e =
    at_metadata (merge_metadata u.task.metadata old.metadata)
      (subst (λ b. (version b u old >>= λ t. done (kept now u.task.id old t)) ≡ done new) h e)
  where
    at_metadata :
        (r : Try Json)
        → ((r >>= λ metadata. done (merge_partial u old metadata)) >>= λ t.
            done (kept now u.task.id old t))
          ≡ done new
        → (new.messages ≡ old.messages ++ u.task.messages)
          × Continues (artifact_ids old.artifacts) (artifact_ids new.artifacts)
    at_metadata raised f = cc
    at_metadata (done metadata) f =
        subst
          (λ (t : Task).
            (t.messages ≡ old.messages ++ u.task.messages)
            × Continues (artifact_ids old.artifacts) (artifact_ids t.artifacts))
          (done-inj f) (partial-history u old metadata)
