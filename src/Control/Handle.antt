-- ===== src/Control/Handle.antt =====
-- daemon/src/ControlPlane.cpp: `handle`, the path of a request through the read-only operations, the
-- control operations, the checks of a mutation, the dispatcher and the record of its outcome.
use a2ad.Common.{String, Bool, true, false, ◌||◌, Option, none, some, List, [], ◌∷◌}
use a2ad.Control.Records.{
  Field, missing, ill_typed, given, Op, lease, agent, continuation_create, session_create,
  approval_revoke, approval_decide, provenance_record, channel_open, channel_read, events_read,
  channel_ack, artifact_materialize, Request, Outcome, Store, Reply, failure, outcome, external,
}
use a2ad.Control.Exit.{Exit, next, return, throw, value, contains, at}
use a2ad.Control.Names.{op_of, mutation}
use a2ad.Control.Audit.{Platform, Env, append}
use a2ad.Control.Lease.{lease_op}
use a2ad.Control.Approval.{revoke, decide}
use a2ad.Control.Agents.{agent_op}
use a2ad.Control.Channel.{channel_open_op, channel_read_op, channel_ack_op, events_read_op}
use a2ad.Control.Registry.{continuation_create_op, session_create_op, provenance_record_op}
use a2ad.Control.Begin.{Begun, refused, started, begin}
use a2ad.Control.Finish.{finish}
use a2ad.Control.Listing.{read_only}
pub mod Frame
pub mod Admits
pub mod Guarantees
pub mod Replay
pub mod Settled
pub mod Revocation
pub mod Quarantined

-- A request is a JSON object, or some other JSON value.
pub data Input : Type 0 where
  object : Request → Input
  not_object : Input

-- What `handle` does after its transactions: reply, pass a request on that is not governed, or
-- dispatch the execution that has been recorded under the id.
pub data Decision : Type 0 where
  reply : Reply → Decision
  forward : Request → Decision
  dispatch : String → Request → Decision

-- The dispatcher answers, or raises an exception with a message.
pub data Answer : Type 0 where
  answered : Outcome → Answer
  raised : String → Answer

abbrev pub control_error : String → Reply
control_error e = failure "control_error" e

-- The outer `try` and `catch`.
unfoldable pub caught : Exit Reply → Reply
caught (next r) = r
caught (return r) = r
caught (throw e) = control_error e

-- A transaction: an exception rolls it back, a returned reply commits it.
unfoldable pub transaction : Store → Exit (Reply × Store) → Decision × Store
transaction s (next (r, s')) = (reply r, s')
transaction s (return r) = (reply r, s)
transaction s (throw e) = (reply (control_error e), s)

-- `request.at("request_id")`, which `begin` has required.
unfoldable pub dispatch_given : Field String → Request → Decision
dispatch_given (given id) req = dispatch id req
dispatch_given _ req = reply (control_error "[json.exception.out_of_range.403]")

-- The transaction of `begin`.
unfoldable pub begin_transaction : Request → Store → Exit Begun → Decision × Store
begin_transaction req s (next (refused r s')) = (reply r, s')
begin_transaction req s (next (started s')) = (dispatch_given req.request_id req, s')
begin_transaction req s (return r) = (reply r, s)
begin_transaction req s (throw e) = (reply (control_error e), s)

module _ (p : Platform) where
  -- `control`, without the branches that `handle` never reaches, because `readOnly` answers their
  -- operations first. `none` is the JSON null for an operation that is not its own.
  unfoldable pub control : Env → Op → Request → Store → Option (Exit (Reply × Store))
  control env continuation_create req s = some (continuation_create_op p env req s)
  control env session_create req s = some (session_create_op p env req s)
  control env (lease op) req s = some (lease_op p env op req s)
  control env approval_revoke req s = some (revoke p env req s)
  control env approval_decide req s = some (decide p env req s)
  control env (agent op) req s = some (agent_op p env op req s)
  control env provenance_record req s = some (provenance_record_op p env req s)
  control env channel_open req s = some (channel_open_op req s)
  control env channel_read req s = some (channel_read_op req s)
  control env events_read req s = some (events_read_op req s)
  control env channel_ack req s = some (channel_ack_op req s)
  control env _ req s = none

  -- A request id for a mutation that has none, unless the mutation is governed.
  unfoldable pub with_id : Env → Request → Field String → Option Request
  with_id env req missing = elim (p.enforce || contains req.effects) [
    | true ↦ none
    | false ↦ some (record req { request_id = given env.fresh })
  ]
  with_id env req _ = some req

  -- `request.contains("sha256") && !request.at("sha256").is_string()`
  unfoldable pub bad_digest : Op → Field String → Bool
  bad_digest artifact_materialize ill_typed = true
  bad_digest _ _ = false

  unfoldable pub admit_mutation : Env → Op → Store → Option Request → Decision × Store
  admit_mutation env op s none =
      (reply (failure "invalid_request" "request_id required for governed mutations"), s)
  admit_mutation env op s (some req) = elim (bad_digest op req.sha256) [
    | true ↦ (reply (failure "invalid_request" "sha256 must be a string"), s)
    | false ↦ begin_transaction req s (begin p env op req s)
  ]

  unfoldable pub admit_rest :
      Env → Op → Request → Store → Option (Exit (Reply × Store)) → Decision × Store
  admit_rest env op req s (some e) = transaction s e
  admit_rest env op req s none = elim (mutation op) [
    | true ↦ admit_mutation env op s (with_id env req req.request_id)
    | false ↦ (forward req, s)
  ]

  unfoldable pub admit_op : Env → Op → Request → Store → Option (Exit Reply) → Decision × Store
  admit_op env op req s (some e) = (reply (caught e), s)
  admit_op env op req s none = admit_rest env op req s (control env op req s)

  -- `handle` up to the dispatcher. `env` is read in both transactions.
  unfoldable pub admit : Env → Input → Store → Decision × Store
  admit env not_object s = (reply (failure "invalid_request" "request must be an object"), s)
  admit env (object req) s = elim (value req.op "") [
    | next name ↦ admit_op env (op_of name) req s (read_only p (op_of name) req s)
    | return r ↦ (reply r, s)
    | throw e ↦ (reply (control_error e), s)
  ]

  -- What the dispatcher has answered, or the failure that stands for its exception.
  unfoldable pub outcome_of : String → Answer → Outcome
  outcome_of id (answered r) = record r { execution_id = some id }
  outcome_of id (raised e) = record {
    ok = false;
    error_kind = "dispatch_exception";
    task_id = none;
    context_id = none;
    execution_id = some id;
    payload = "dispatch raised an exception; reconcile before retrying";
  }

  -- `event`, by which the task manager logs.
  unfoldable pub event : Env → String → Store → Store
  event env text s = append p env (external text) s

  unfoldable pub log : Env → List String → Store → Store
  unfolding event
  log env [] s = s
  log env (text ∷ texts) s = log env texts (event env text s)

  -- `handle`, with a dispatcher that answers or raises, and logs events meanwhile.
  unfoldable pub settle : Env → (Request → Answer × List String) → Decision × Store → Reply × Store
  settle env dispatcher (reply r, s) = (r, s)
  settle env dispatcher (forward req, s) =
      let (answer, texts) = dispatcher req in
      (elim answer [ answered r ↦ outcome r | raised e ↦ control_error e ], log env texts s)
  settle env dispatcher (dispatch id req, s) =
      let (answer, texts) = dispatcher req in
      let r = outcome_of id answer in (outcome r, finish p env id r (log env texts s))

  unfoldable pub handle :
      Env → Env → (Request → Answer × List String) → Input → Store → Reply × Store
  handle env later dispatcher input s = settle later dispatcher (admit env input s)
