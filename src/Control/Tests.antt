-- ===== src/Control/Tests.antt =====
-- Concrete runs of the governed request path: a store, a request and a history that exercise it.
use a2ad.Common.{
  ℕ, String, ◌≡◌, refl, ◌≢◌, ◌≤◌, Bool, true, false, Option, none, some, List, [], ◌∷◌, length,
  lookup, insert, arith,
}
use a2ad.Common.Int.{pos}
use a2ad.Control.Records.{
  Field, missing, given, Effect, Request, LeaseClaim, Lease, Approval, ApprovalState, Execution,
  ExecutionState, failed, delivered, Link, Store, Op, Outcome, Reply, approval, approval_needed,
  approval_revoked, read_remote, execute_remote,
}
use a2ad.Control.Exit.{Exit, next, return, required, bounded_text, value, at, contains, return_if}
use a2ad.Control.Names.{
  op_of, mutation, effect_set, collect_effects, effect_of, implied_effects, includes, with_effect,
  no_effects,
}
use a2ad.Control.Audit.{Platform, Env, append, append_row, new_row, last_hash, link_hash}
use a2ad.Control.Agents.{health}
use a2ad.Control.Approval.{revoke, known_approval}
use a2ad.Control.Checks.{
  answer_prior, check_lease, match_lease, check_continuation, check_retry, failed_execution,
  check_quarantine, parent_chain, delegated, check_ancestors, live_grant, check_session,
}
use a2ad.Control.Begin.{
  begin, plan_of, request_hash, needs_approval, with_approval, approval_for, check_approval,
  approved_or, expiry, after_writes, put_pending, start, new_execution,
}
use a2ad.Control.Listing.{read_only}
use a2ad.Control.History.{Action, requested, settled, logged, restarted}
use a2ad.Control.Handle.{
  Input, object, Answer, answered, Decision, reply, dispatch, admit, admit_op, admit_rest,
  admit_mutation, control, with_id, bad_digest, begin_transaction, dispatch_given,
}
pub mod Requests
pub mod Tables

abbrev pub platform : Platform
platform = record {
  digest = λ s. s;
  dump_request = λ r. r.rest;
  dump_event = λ e. "event";
  decimal = λ n. "0";
  enforce = false;
}

abbrev pub at_ten : Env
at_ten = record { now = 10; fresh = "fresh" }

abbrev pub plain : Request
plain = record {
  op = missing;
  request_id = missing;
  id = missing;
  agent = missing;
  task_id = missing;
  session_id = missing;
  continuation_id = missing;
  retry_of = missing;
  parent_execution_id = missing;
  effects = missing;
  lease = missing;
  resource = missing;
  owner = missing;
  token = missing;
  ttl_seconds = missing;
  allow = missing;
  reason = missing;
  label = missing;
  kind = missing;
  after = missing;
  cursor = missing;
  limit = missing;
  sha256 = missing;
  source = missing;
  version = missing;
  sbom_uri = missing;
  rest = "";
}

abbrev pub claim : LeaseClaim
claim = record { resource = given "file"; owner = given "ann"; token = given "t"; fence = given 4 }

abbrev pub file_lease : Lease
file_lease = record { resource = "file"; owner = "ann"; token = "t"; fence = 4; expires_at = 60 }

abbrev pub all_effects : Effect → Bool
all_effects e = true

abbrev pub parent_execution : Execution
parent_execution = record {
  id = "parent";
  state = delivered;
  request_sha256 = "p";
  agent = "root";
  operation = Op.submit;
  session_id = "";
  effects = all_effects;
  identity_chain = record { agent = "root"; execution_id = "parent" } ∷ [];
  parent_execution_id = "";
  continuation_id = "";
  retry_of = "";
  started_at = 1;
  dispatch_deadline_at = 61;
  task_id = "";
  context_id = none;
  result = none;
  finished_at = some 2;
  reason = none;
}

abbrev pub failed_attempt : Execution
failed_attempt = record parent_execution { id = "old"; state = failed; agent = "bot" }

abbrev pub approved : String → String → Approval
approved id hash = record {
  id = id;
  state = ApprovalState.approved;
  request_sha256 = hash;
  agent = "bot";
  operation = Op.submit;
  effects = all_effects;
  created_at = 1;
  task_id = "";
  expires_at = some 300;
  reason = none;
}

abbrev pub no_records : Store
no_records = record {
  executions = [];
  sessions = [];
  leases = [];
  approvals = [];
  healths = [];
  continuations = [];
  channels = [];
  provenances = [];
  events = [];
}

abbrev pub office : Store
office = record no_records {
  executions = ("old", failed_attempt) ∷ ("parent", parent_execution) ∷ [];
  leases = ("file", file_lease) ∷ [];
  approvals = ("child", approved "child" "say hello") ∷ ("parent", approved "parent" "p") ∷ [];
}

-- A child of an execution, which retries another one under a lease.
abbrev pub child : Request
child = record plain {
  op = given "submit";
  request_id = given "child";
  agent = given "bot";
  effects = given ("READ_REMOTE" ∷ []);
  parent_execution_id = given "parent";
  retry_of = given "old";
  lease = given claim;
  rest = "say hello";
}

abbrev pub after_child : Store
after_child = (admit platform at_ten (object child) office).1

pub child_dispatched :
    admit platform at_ten (object child) office ≡ (dispatch "child" child, after_child)
unfolding admit admit_op admit_rest admit_mutation control with_id bad_digest begin_transaction
    dispatch_given read_only op_of mutation value required bounded_text at contains return_if begin
    plan_of request_hash answer_prior check_lease match_lease check_continuation check_retry
    failed_execution check_quarantine health effect_set collect_effects effect_of implied_effects
    parent_chain delegated includes check_ancestors live_grant check_session needs_approval
    with_approval approval_for check_approval approved_or expiry after_writes start new_execution
    append append_row new_row last_hash link_hash lookup insert
child_dispatched = refl

abbrev pub sent : Outcome
sent = record {
  ok = true;
  error_kind = "";
  task_id = some "t1";
  context_id = none;
  execution_id = none;
  payload = "sent";
}

abbrev pub unreachable : Outcome
unreachable = record sent { ok = false; error_kind = "local_network"; task_id = none }

abbrev pub always_sent : Request → Answer × List String
always_sent req = (answered sent, [])

abbrev pub child_history : List Action
child_history =
    requested at_ten (object child)
    ∷ restarted at_ten
    ∷ requested at_ten (object child)
    ∷ settled at_ten "child" sent
    ∷ logged at_ten "task"
    ∷ []

-- A child without an approval: a pending approval is made, and the request is refused.
abbrev pub unapproved : Request
unapproved = record child { request_id = given "new"; rest = "say more" }

abbrev pub after_unapproved : Store
after_unapproved = (admit platform at_ten (object unapproved) office).1

abbrev pub unapproved_reply : Reply
unapproved_reply = approval_needed "approval_required" (record {
  id = "new";
  state = ApprovalState.pending;
  request_sha256 = "say more";
  agent = "bot";
  operation = Op.submit;
  effects = with_effect execute_remote (with_effect read_remote no_effects);
  created_at = 10;
  task_id = "";
  expires_at = none;
  reason = none;
})

pub unapproved_refused :
    admit platform at_ten (object unapproved) office ≡ (reply unapproved_reply, after_unapproved)
unfolding admit admit_op admit_rest admit_mutation control with_id bad_digest begin_transaction
    dispatch_given read_only op_of mutation value required bounded_text at contains return_if begin
    plan_of request_hash answer_prior check_lease match_lease check_continuation check_retry
    failed_execution check_quarantine health effect_set collect_effects effect_of implied_effects
    parent_chain delegated includes check_ancestors live_grant check_session needs_approval
    with_approval approval_for check_approval approved_or expiry after_writes start put_pending
    append append_row new_row last_hash link_hash lookup insert
unapproved_refused = refl

abbrev pub revoke_parent : Request
revoke_parent = record plain { id = given "parent" }

abbrev pub revoked_reply : Reply
revoked_reply = approval (record (approved "parent" "p") { state = ApprovalState.revoked })

abbrev revoked_parent : Store
revoked_parent = record office {
  approvals =
      insert "parent" (record (approved "parent" "p") { state = ApprovalState.revoked })
        office.approvals;
}

abbrev pub after_revoke : Store
after_revoke = append platform at_ten (approval_revoked "parent") revoked_parent

pub parent_revoked :
    revoke platform at_ten revoke_parent office ≡ next (revoked_reply, after_revoke)
unfolding revoke required bounded_text value known_approval lookup
parent_revoked = refl

-- The request of the child, made by the owner.
abbrev pub solo : Request
solo = record child { parent_execution_id = missing }

abbrev pub after_solo : Store
after_solo = (admit platform at_ten (object solo) after_revoke).1

pub solo_dispatched :
    admit platform at_ten (object solo) after_revoke ≡ (dispatch "child" solo, after_solo)
unfolding admit admit_op admit_rest admit_mutation control with_id bad_digest begin_transaction
    dispatch_given read_only op_of mutation value required bounded_text at contains return_if begin
    plan_of request_hash answer_prior check_lease match_lease check_continuation check_retry
    failed_execution check_quarantine health effect_set collect_effects effect_of implied_effects
    parent_chain check_session needs_approval with_approval approval_for check_approval approved_or
    expiry after_writes start new_execution append append_row new_row last_hash link_hash lookup
    insert
solo_dispatched = refl

-- The agent has failed twice.
abbrev pub busy : Store
busy = record office {
  healths =
      ("bot", record { agent = "bot"; failures = 2; quarantined = false; reason = none }) ∷ [];
}
