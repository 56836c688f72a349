-- ===== src/Control/Finish.antt =====
-- daemon/src/ControlPlane.cpp: `finish`, which records what became of a dispatch, and the recovery
-- that the constructor makes of executions that were in flight when the daemon stopped.
use a2ad.Common.{
  ℕ, suc, ◌+◌, String, Bool, true, false, ◌&&◌, ◌||◌, not, Option, none, some, List, [], ◌∷◌, leb,
  ◌==◌, string_eq, if◌then◌else◌, Dict, lookup, insert,
}
use a2ad.Control.Records.{
  Op, other, Outcome, Execution, ExecutionState, dispatching, uncertain, delivered, failed,
  Continuation, ContinuationState, Health, Store, execution_uncertain, continuation_delivered,
  execution_finished,
}
use a2ad.Control.Names.{no_effects}
use a2ad.Control.Audit.{Platform, Env, append}
use a2ad.Control.Agents.{health}
pub mod Frame
pub mod Recovery
pub mod Quarantine

-- The errors after which the remote side may or may not have acted.
unfoldable pub is_uncertain : String → Bool
is_uncertain error =
    error == "local_network" || error == "malformed_response" || error == "dispatch_exception"

unfoldable pub final_state : Outcome → ExecutionState
unfolding is_uncertain
final_state r = if is_uncertain r.error_kind then uncertain else if r.ok then delivered else failed

-- The JSON null that becomes an object when a member is set.
abbrev pub blank_execution : Execution
blank_execution = record {
  id = "";
  state = uncertain;
  request_sha256 = "";
  agent = "";
  operation = other "";
  session_id = "";
  effects = no_effects;
  identity_chain = [];
  parent_execution_id = "";
  continuation_id = "";
  retry_of = "";
  started_at = 0;
  dispatch_deadline_at = 0;
  task_id = "";
  context_id = none;
  result = none;
  finished_at = none;
  reason = none;
}

abbrev pub blank_continuation : Continuation
blank_continuation = record {
  id = "";
  task_id = "";
  kind = "";
  state = ContinuationState.pending;
  reason = "";
  created_at = 0;
  execution_id = none;
}

abbrev pub get_or {ℓ} : {A : Type ℓ} → Option A → A → A
get_or none d = d
get_or (some a) d = a

-- `if (c) execution[key] = v`
abbrev pub option_or {ℓ} : {A : Type ℓ} → Option A → Option A → Option A
option_or none d = d
option_or (some a) d = some a

unfoldable pub finished : Env → Outcome → Execution → Execution
unfolding final_state
finished env r e = record e {
  state = final_state r;
  result = if is_uncertain r.error_kind then e.result else some r;
  finished_at = some env.now;
  task_id = get_or r.task_id e.task_id;
  context_id = option_or r.context_id e.context_id;
}

-- The health of an agent after one more dispatch.
abbrev pub counted : Outcome → Health → Health
counted r h =
    if is_uncertain r.error_kind
    then record h { failures = h.failures + 1 }
    else if r.ok
    then record h { failures = 0 }
    else h

abbrev pub max_failures : ℕ
max_failures = 3

unfoldable pub judged : Health → Health
judged h =
    if leb max_failures h.failures
    then record h { quarantined = true; reason = some "three consecutive uncertain dispatches" }
    else h

unfoldable pub next_health : Outcome → Health → Health
unfolding is_uncertain judged
next_health r h = judged (counted r h)

-- An execution that was in flight when the daemon stopped.
abbrev pub interrupted : Execution → Execution
interrupted e = record e {
  state = uncertain;
  reason = some "daemon restarted during dispatch; reconcile remote state before any new attempt";
}

module _ (p : Platform) where
  unfoldable pub deliver_continuation : Env → String → String → Store → Store
  deliver_continuation env id continuation_id s =
      append p env (continuation_delivered continuation_id id) (record s {
        continuations =
            insert continuation_id
              (record (get_or (lookup continuation_id s.continuations) blank_continuation) {
                state = ContinuationState.delivered;
                execution_id = some id;
              })
              s.continuations;
      })

  unfoldable pub finish_continuation : Env → String → Outcome → String → Store → Store
  finish_continuation env id r continuation_id s =
      if not (continuation_id == "") && r.ok
      then deliver_continuation env id continuation_id s
      else s

  unfoldable pub finish_health : String → Outcome → Store → Store
  finish_health agent r s =
      if agent == ""
      then s
      else record s { healths = insert agent (next_health r (health agent s)) s.healths }

  unfoldable pub finish : Env → String → Outcome → Store → Store
  finish env id r s =
      let e = finished env r (get_or (lookup id s.executions) blank_execution) in
      let s1 : Store = record s { executions = insert id e s.executions } in
      let s2 = finish_continuation env id r e.continuation_id s1 in
      let s3 = finish_health e.agent r s2 in
      append p env (execution_finished id e.state e.task_id) s3

  unfoldable pub interrupt : Env → Execution → Store → Store
  interrupt env e s =
      append p env (execution_uncertain e.id)
        (record s { executions = insert e.id (interrupted e) s.executions })

  unfoldable pub recover_in : ExecutionState → Env → Execution → Store → Store
  recover_in dispatching env e s = interrupt env e s
  recover_in _ env e s = s

  -- The constructor's loop over the executions.
  unfoldable pub recover : Env → Dict Execution → Store → Store
  recover env [] s = s
  recover env ((id, e) ∷ es) s = recover env es (recover_in e.state env e s)

  -- What `ControlPlane::ControlPlane` does to the tables of an existing database.
  unfoldable pub restart : Env → Store → Store
  restart env s = recover env s.executions s
