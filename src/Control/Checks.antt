-- ===== src/Control/Checks.antt =====
-- daemon/src/ControlPlane.cpp: the checks of `begin`, in the order of the source. They read the store
-- and write nothing.
use a2ad.Common.{
  ℕ, ◌+◌, String, Bool, true, false, ◌&&◌, ◌||◌, not, Option, none, some, List, [], ◌∷◌, ◌++◌,
  length, leb, ltb, ◌==◌, string_eq, nat_eq, if◌then◌else◌, lookup, insert,
}
use a2ad.Control.Records.{
  Field, missing, ill_typed, given, Request, LeaseClaim, Op, EffectSet, delegate, Link, Outcome,
  Execution, ExecutionState, dispatching, failed, Lease, Approval, ApprovalState, Continuation,
  ContinuationState, Session, Health, Store, Reply, failure, outcome, outcome_uncertain,
  approval_needed, approval_required, execution_started,
}
use a2ad.Control.Exit.{
  Exit, next, return, throw, ◌>>=◌, ◌>>◌, return_if, value, at, contains, required,
}
use a2ad.Control.Names.{canonical, effect_set, implied_effects, includes}
use a2ad.Control.Audit.{Platform, Env, append}
use a2ad.Control.Agents.{health}
pub mod Passed

-- A request id that has an execution is answered from it.
unfoldable pub answer_prior : String → String → Option Execution → Exit (Unit {0})
answer_prior id hash none = next tt
answer_prior id hash (some prior) = do
  return_if (not (prior.request_sha256 == hash))
      (failure "idempotency_conflict" "request_id was used with different parameters")
  elim prior.result [ some r ↦ return (outcome r) | none ↦ return (outcome_uncertain id) ]

abbrev pub dispatch_lease_lost : Reply
dispatch_lease_lost =
    failure "lease_lost" "dispatch requires a live matching lease and fencing number"

unfoldable pub match_lease : Env → LeaseClaim → Option Lease → Exit (Unit {0})
match_lease env claim none = return dispatch_lease_lost
match_lease env claim (some l) = do
  return_if (leb l.expires_at env.now) dispatch_lease_lost
  owner ← required claim.owner
  return_if (not (l.owner == owner)) dispatch_lease_lost
  token ← required claim.token
  return_if (not (l.token == token)) dispatch_lease_lost
  fence ← at claim.fence
  return_if (not (l.fence == fence)) dispatch_lease_lost

unfoldable pub check_lease : Env → Field LeaseClaim → Store → Exit (Unit {0})
unfolding at
check_lease env missing s = next tt
check_lease env f s = do
  claim ← at f
  resource ← required claim.resource
  match_lease env claim (lookup resource s.leases)

abbrev pub invalid_continuation : Reply
invalid_continuation =
    failure "invalid_continuation" "continuation must be pending and bound to this task"

unfoldable pub pending_continuation : Field String → Option Continuation → Exit (Unit {0})
pending_continuation task none = return invalid_continuation
pending_continuation task (some c) = elim c.state [
  | ContinuationState.delivered ↦ return invalid_continuation
  | ContinuationState.pending ↦ do
    t ← value task ""
    return_if (not (c.task_id == t)) invalid_continuation
]

unfoldable pub check_continuation : String → Field String → Store → Exit (Unit {0})
check_continuation id task s = elim (id == "") [
  | true ↦ next tt
  | false ↦ pending_continuation task (lookup id s.continuations)
]

abbrev pub invalid_retry : Reply
invalid_retry =
    failure "invalid_retry"
      "only a definitively failed dispatch may be retried; uncertain dispatches require remote reconciliation"

unfoldable pub failed_execution : Option Execution → Exit (Unit {0})
failed_execution none = return invalid_retry
failed_execution (some e) = elim e.state [ failed ↦ next tt | _ ↦ return invalid_retry ]

unfoldable pub check_retry : String → Store → Exit (Unit {0})
check_retry retry_of s = elim (retry_of == "") [
  | true ↦ next tt
  | false ↦ failed_execution (lookup retry_of s.executions)
]

unfoldable pub check_quarantine : String → Store → Exit (Unit {0})
check_quarantine agent s =
    return_if (not (agent == "") && (health agent s).quarantined)
      (failure "quarantined" "agent is quarantined")

-- The grant of an ancestor is approved and has not expired.
unfoldable pub live_grant : ℕ → Option Approval → Bool
live_grant now none = false
live_grant now (some a) = elim a.state [
  | ApprovalState.approved ↦ elim a.expires_at [ none ↦ false | some t ↦ ltb now t ]
  | _ ↦ false
]

-- The loop over the ancestors.
unfoldable pub check_ancestors : ℕ → List Link → Store → Exit (Unit {0})
check_ancestors now [] s = next tt
check_ancestors now (l ∷ chain) s = do
  return_if (not (live_grant now (lookup l.execution_id s.approvals)))
      (failure "permission_denied" "ancestor grant expired or was revoked")
  check_ancestors now chain s

abbrev pub max_depth : ℕ
max_depth = 16

unfoldable pub delegated : Env → EffectSet → Store → Option Execution → Exit (List Link)
delegated env requested s none = return (failure "invalid_delegation" "parent execution not found")
delegated env requested s (some parent) = do
  return_if (not (parent.effects delegate) || not (includes parent.effects requested))
      (failure "permission_denied" "child effects exceed parent grant or DELEGATE is absent")
  check_ancestors env.now parent.identity_chain s
  return_if (leb max_depth (length parent.identity_chain))
      (failure "invalid_delegation" "maximum delegation depth reached")
  next parent.identity_chain

-- The identity chain before this execution's own link.
unfoldable pub parent_chain : Env → String → EffectSet → Store → Exit (List Link)
parent_chain env parent_id requested s = elim (parent_id == "") [
  | true ↦ next []
  | false ↦ delegated env requested s (lookup parent_id s.executions)
]

unfoldable pub known_session : Option Session → Exit (Unit {0})
known_session none = return (failure "not_found" "session not found")
known_session (some _) = next tt

unfoldable pub check_session : String → Store → Exit (Unit {0})
check_session id s = elim (id == "") [
  | true ↦ next tt
  | false ↦ known_session (lookup id s.sessions)
]
