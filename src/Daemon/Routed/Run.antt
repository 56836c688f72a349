-- ===== src/Daemon/Routed/Run.antt =====
-- daemon/src/main.cpp: an operation does not read the agent that the routing writes.
use a2ad.Common.{
  String, true, ◌≡◌, refl, ap, sym, Option, none, some, ◌==◌, Bool-cases, inl, inr, ◌⊎◌, string_eq,
  nat_eq, text_eq,
}
use mathlib.Core.Path.{subst}
use a2ad.Common.Int.{pos}
use a2ad.Json.{Json, object, Fields, done, >>=-eq-done, value_text, utf8}
use a2ad.Tasks.{Manager}
use a2ad.Tasks.Create.{Fresh}
use a2ad.Daemon.{Host}
use a2ad.Daemon.Route.{route, route_op, is_on_task}
use a2ad.Daemon.Submit.{submit, submit_to, chosen_agent, respond_op, cancel_op, materialize_op}
use a2ad.Daemon.Dispatch.{run, dispatch, same}
use a2ad.Daemon.Routed.{
  with_agent, agent-with_agent, other-with_agent, integer-with_agent, on_task-cases,
  value_text-object, Defaulted, Routing, route_op-Routing,
}

module _ {Endpoint : Type 0} (host : Host Endpoint) (f : Fresh) where
  submit_to-with_agent :
      (o : Option String) (a : String) (fs : Fields) (m : Manager)
      → submit_to host f o (with_agent a fs) m ≡ submit_to host f o (object fs) m
  unfolding submit_to
  submit_to-with_agent none a fs m = refl
  submit_to-with_agent (some b) a fs m =
      rw
        (
          other-with_agent a "cwd" "" fs refl,
          other-with_agent a "message" "" fs refl,
          other-with_agent a "request_id" "" fs refl,
          other-with_agent a "task_id" "" fs refl,
          other-with_agent a "context_id" "" fs refl,
        )
        refl

  respond_op-with_agent :
      (a : String) (fs : Fields) (m : Manager)
      → respond_op host f (with_agent a fs) m ≡ respond_op host f (object fs) m
  unfolding respond_op
  respond_op-with_agent a fs m =
      rw
        (
          other-with_agent a "task_id" "" fs refl,
          other-with_agent a "message" "" fs refl,
          other-with_agent a "request_id" "" fs refl,
        )
        refl

  cancel_op-with_agent :
      (a : String) (fs : Fields) (m : Manager)
      → cancel_op host f (with_agent a fs) m ≡ cancel_op host f (object fs) m
  unfolding cancel_op
  cancel_op-with_agent a fs m = rw (other-with_agent a "task_id" "" fs refl) refl

  materialize_op-with_agent :
      (a : String) (fs : Fields) (m : Manager)
      → materialize_op host f (with_agent a fs) m ≡ materialize_op host f (object fs) m
  unfolding materialize_op
  materialize_op-with_agent a fs m =
      rw
        (
          other-with_agent a "task_id" "" fs refl,
          other-with_agent a "artifact_id" "" fs refl,
          integer-with_agent a "part" (pos 0) fs refl,
          other-with_agent a "output_dir" "" fs refl,
          other-with_agent a "sha256" "" fs refl,
        )
        refl

  run-with_agent :
      (op a : String) (fs : Fields) (m : Manager)
      → is_on_task op ≡ true
      → run host f op (with_agent a fs) m ≡ run host f op (object fs) m
  unfolding run
  run-with_agent op a fs m h = go (on_task-cases op h)
    where
      Kept : String → Type 0
      Kept op = run host f op (with_agent a fs) m ≡ run host f op (object fs) m

      go : (op ≡ "respond") ⊎ (op ≡ "cancel") ⊎ (op ≡ "artifact.materialize") → Kept op
      go (inl e) = subst Kept (sym e) (respond_op-with_agent a fs m)
      go (inr (inl e)) = subst Kept (sym e) (cancel_op-with_agent a fs m)
      go (inr (inr e)) = subst Kept (sym e) (ap (same m) (materialize_op-with_agent a fs m))

  chosen_agent-default :
      (a cwd : String) → host.default_agent (utf8 cwd) ≡ some a → chosen_agent host f a cwd ≡ some a
  unfolding chosen_agent
  chosen_agent-default a cwd h = elim (Bool-cases (a == "")) [ inl e ↦ rw e h | inr e ↦ rw e refl ]

  submit-with_agent :
      (a : String) (fs : Fields) (m : Manager)
      → Defaulted host.default_agent fs a
      → submit host f (with_agent a fs) m ≡ submit host f (object fs) m
  unfolding submit chosen_agent
  submit-with_agent a fs m (cwd, agent, read, h) =
      rw
        (
          agent-with_agent a fs,
          other-with_agent a "cwd" "" fs refl,
          read,
          agent,
          chosen_agent-default a cwd h,
          h,
          submit_to-with_agent (some a) a fs m,
        )
        refl

  run-Routing :
      (op a : String) (fs : Fields) (m : Manager)
      → ((op ≡ "submit") × Defaulted host.default_agent fs a) ⊎ (is_on_task op ≡ true)
      → run host f op (with_agent a fs) m ≡ run host f op (object fs) m
  unfolding run
  run-Routing op a fs m (inl (e, chosen)) =
      subst (λ x. run host f x (with_agent a fs) m ≡ run host f x (object fs) m) (sym e)
        (submit-with_agent a fs m chosen)
  run-Routing op a fs m (inr h) = run-with_agent op a fs m h

  dispatch-Routing :
      (op : String) (fs : Fields) (r : Json) (m : Manager)
      → value_text "op" "" (object fs) ≡ done op
      → Routing host.default_agent op fs r
      → dispatch host f r m ≡ dispatch host f (object fs) m
  unfolding dispatch
  dispatch-Routing op fs r m read (inl e) = rw e refl
  dispatch-Routing op fs r m read (inr (a, e, known)) =
      rw (e, other-with_agent a "op" "" fs refl, read, run-Routing op a fs m known) refl

  -- The agent that the daemon writes into a request before the control plane hashes and dispatches
  -- it does not change what the operation does: the routed request has the reply and the tasks of the
  -- request that was sent.
  pub dispatch-route :
      (req r : Json) (m n : Manager)
      → route host.default_agent m req ≡ done r
      → dispatch host f r n ≡ dispatch host f req n
  unfolding route
  dispatch-route req r m n h =
      let (op, read, h') =
        >>=-eq-done (value_text "op" "" req) (route_op host.default_agent m req) h in
      let (fs, e) = value_text-object "op" "" op req read in
      rw e (
        dispatch-Routing op fs r n (subst (λ j. value_text "op" "" j ≡ done op) e read) (
          route_op-Routing host.default_agent m op fs r
            (subst (λ j. route_op host.default_agent m j op ≡ done r) e h')))
