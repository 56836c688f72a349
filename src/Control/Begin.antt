-- ===== src/Control/Begin.antt =====
-- daemon/src/ControlPlane.cpp: `begin`, which decides whether a mutation is dispatched, and records
-- the execution before it is.
use a2ad.Common.{
  ℕ, ◌+◌, String, Bool, true, false, ◌||◌, not, Option, none, some, List, [], ◌∷◌, ◌++◌, leb, ◌==◌,
  string_eq, lookup, insert,
}
use a2ad.Control.Records.{
  Field, missing, given, Request, Op, EffectSet, Link, Execution, ExecutionState, dispatching,
  Approval, ApprovalState, Store, Reply, failure, approval_needed, approval_required,
  execution_started,
}
use a2ad.Control.Exit.{Exit, next, return, throw, ◌>>=◌, ◌>>◌, return_if, value, contains, required}
use a2ad.Control.Names.{canonical, effect_set, implied_effects}
use a2ad.Control.Audit.{Platform, Env, append}
use a2ad.Control.Checks.{
  answer_prior, check_lease, check_continuation, check_retry, check_quarantine, parent_chain,
  check_session,
}
pub mod Admission
pub mod Outcome

-- What `begin` has computed when its checks have passed.
pub record Plan : Type 0 where
  pub id : String
  pub hash : String
  pub agent : String
  pub requested : EffectSet
  pub chain : List Link
  pub session_id : String
  pub parent_id : String
  pub continuation_id : String
  pub retry_of : String

-- `begin` has refused, perhaps after writing a pending approval, or has recorded the execution.
pub data Begun : Type 0 where
  refused : Reply → Store → Begun
  started : Store → Begun

-- What follows the writes that led to `s`: a refusal keeps them.
unfoldable pub after_writes : Store → Exit (Unit {0}) → Exit Begun → Exit Begun
after_writes s (next _) k = k
after_writes s (return r) k = next (refused r s)
after_writes s (throw e) k = throw e

-- The reply to an approval in another state than `APPROVED`.
unfoldable pub approved_or : Approval → ApprovalState → Exit (Unit {0})
approved_or a ApprovalState.approved = next tt
approved_or a ApprovalState.denied = return (approval_needed "permission_denied" a)
approved_or a _ = return (approval_needed "approval_required" a)

-- `approval.at("expires_at").get<int64_t>()`
unfoldable pub expiry : Option ℕ → Exit ℕ
expiry none = throw "[json.exception.out_of_range.403]"
expiry (some t) = next t

unfoldable pub check_approval : Env → String → Approval → Exit (Unit {0})
check_approval env hash a = do
  return_if (not (a.request_sha256 == hash))
      (failure "idempotency_conflict" "approval is bound to different parameters")
  approved_or a a.state
  t ← expiry a.expires_at
  return_if (leb t env.now)
      (failure "grant_expired" "approval expired; create a new request_id for review")

module _ (p : Platform) where
  -- `digest(canonical(req).dump())`
  unfoldable pub request_hash : Request → String
  request_hash req = p.digest (p.dump_request (canonical req))

  unfoldable pub plan_of : Env → Op → Request → Store → Exit Plan
  plan_of env op req s = do
    id ← required req.request_id
    answer_prior id (request_hash req) (lookup id s.executions)
    check_lease env req.lease s
    continuation_id ← value req.continuation_id ""
    check_continuation continuation_id req.task_id s
    retry_of ← value req.retry_of ""
    check_retry retry_of s
    agent ← value req.agent ""
    check_quarantine agent s
    named ← effect_set req.effects
    let requested = implied_effects op named
    parent_id ← value req.parent_execution_id ""
    chain ← parent_chain env parent_id requested s
    session_id ← value req.session_id ""
    check_session session_id s
    next (record {
      id = id;
      hash = request_hash req;
      agent = agent;
      requested = requested;
      chain = chain ++ record { agent = agent; execution_id = id } ∷ [];
      session_id = session_id;
      parent_id = parent_id;
      continuation_id = continuation_id;
      retry_of = retry_of;
    })

  abbrev pub pending_approval : Env → Op → Plan → String → Approval
  pending_approval env op plan task = record {
    id = plan.id;
    state = ApprovalState.pending;
    request_sha256 = plan.hash;
    agent = plan.agent;
    operation = op;
    effects = plan.requested;
    created_at = env.now;
    task_id = task;
    expires_at = none;
    reason = none;
  }

  unfoldable pub put_pending : Env → Plan → Approval → Store → Store
  put_pending env plan a s =
      append p env (approval_required plan.id plan.requested plan.agent)
        (record s { approvals = insert plan.id a s.approvals })

  abbrev pub fresh_approval : Env → Op → Plan → Store → String → Approval × Store
  fresh_approval env op plan s task = (
    pending_approval env op plan task,
    put_pending env plan (pending_approval env op plan task) s,
  )

  -- The approval of the request, made in state `PENDING` if there is none.
  unfoldable pub approval_for :
      Env → Op → Request → Plan → Store → Option Approval → Exit (Approval × Store)
  approval_for env op req plan s (some a) = next (a, s)
  approval_for env op req plan s none = do
    task ← value req.task_id ""
    next (fresh_approval env op plan s task)

  unfoldable pub new_execution : Env → Op → Plan → String → Execution
  new_execution env op plan task = record {
    id = plan.id;
    state = dispatching;
    request_sha256 = plan.hash;
    agent = plan.agent;
    operation = op;
    session_id = plan.session_id;
    effects = plan.requested;
    identity_chain = plan.chain;
    parent_execution_id = plan.parent_id;
    continuation_id = plan.continuation_id;
    retry_of = plan.retry_of;
    started_at = env.now;
    dispatch_deadline_at = env.now + 60;
    task_id = task;
    context_id = none;
    result = none;
    finished_at = none;
    reason = none;
  }

  unfoldable pub start : Env → Op → Request → Plan → Store → Exit Begun
  start env op req plan s = do
    task ← value req.task_id ""
    next (
        started (
          append p env
            (execution_started plan.id plan.agent plan.session_id plan.hash plan.requested
              plan.chain)
            (record s {
              executions = insert plan.id (new_execution env op plan task) s.executions;
            })))

  -- `enforce_ || req.contains("effects") || !parent_id.empty()`
  unfoldable pub needs_approval : Request → Plan → Bool
  needs_approval req plan = p.enforce || contains req.effects || not (plan.parent_id == "")

  unfoldable pub with_approval : Env → Op → Request → Plan → Store → Exit Begun
  with_approval env op req plan s = do
    (a, s') ← approval_for env op req plan s (lookup plan.id s.approvals)
    after_writes s' (check_approval env plan.hash a) (start env op req plan s')

  unfoldable pub begin : Env → Op → Request → Store → Exit Begun
  begin env op req s = do
    plan ← plan_of env op req s
    elim (needs_approval req plan) [
      | true ↦ with_approval env op req plan s
      | false ↦ start env op req plan s
    ]
