-- ===== src/Control/Records.antt =====
-- The records that daemon/src/ControlPlane.cpp keeps in `control_records`, one type for each kind,
-- and the requests and replies of daemon/src/ControlPlane.cpp.
use a2ad.Common.{ℕ, String, Bool, Option, List, Dict}
use a2ad.Common.Int.{ℤ}

-- A member of a request object: absent, of a JSON type that the code does not ask for, or given.
pub data Field (A : Type 0) : Type 0 where
  missing ill_typed : Field A
  given : A → Field A

pub data Effect : Type 0 where
  read_remote write_remote execute_remote publish : Effect
  create_identity store_external send_message delegate : Effect

-- A `std::set` of effects, by its membership test.
abbrev pub EffectSet : Type 0
EffectSet = Effect → Bool

-- `lease.acquire`, `lease.renew`, `lease.release`
pub data LeaseOp : Type 0 where
  acquire renew release : LeaseOp

-- `agent.health`, `agent.quarantine`, `agent.release`
pub data AgentOp : Type 0 where
  health quarantine release : AgentOp

-- The member `op` of a request.
pub data Op : Type 0 where
  policy_info execution_list session_list approval_list provenance_list : Op
  continuation_list execution_get session_get audit_verify : Op
  continuation_create session_create approval_revoke approval_decide : Op
  lease : LeaseOp → Op
  agent : AgentOp → Op
  provenance_record channel_open channel_read events_read channel_ack : Op
  submit respond cancel stream_submit push_create push_delete artifact_materialize : Op
  other : String → Op

-- The member `lease` of a governed mutation.
pub record LeaseClaim : Type 0 where
  pub resource : Field String
  pub owner : Field String
  pub token : Field String
  pub fence : Field ℕ

-- The member `after`: a number for the event log, a text for the pages of a list.
pub data After : Type 0 where
  number : ℤ → After
  text : String → After

-- `rest` stands for the members that the control plane only hashes and forwards.
pub record Request : Type 0 where
  pub op : Field String
  pub request_id : Field String
  pub id : Field String
  pub agent : Field String
  pub task_id : Field String
  pub session_id : Field String
  pub continuation_id : Field String
  pub retry_of : Field String
  pub parent_execution_id : Field String
  pub effects : Field (List String)
  pub lease : Field LeaseClaim
  pub resource : Field String
  pub owner : Field String
  pub token : Field String
  pub ttl_seconds : Field ℤ
  pub allow : Field Bool
  pub reason : Field String
  pub label : Field String
  pub kind : Field String
  pub after : Field After
  pub cursor : Field ℤ
  pub limit : Field ℤ
  pub sha256 : Field String
  pub source : Field String
  pub version : Field String
  pub sbom_uri : Field String
  pub rest : String

pub data ExecutionState : Type 0 where
  dispatching uncertain delivered failed : ExecutionState

-- An entry of `identity_chain`.
pub record Link : Type 0 where
  pub agent : String
  pub execution_id : String

-- What the dispatcher answers, and `finish` keeps.
pub record Outcome : Type 0 where
  pub ok : Bool
  pub error_kind : String
  pub task_id : Option String
  pub context_id : Option String
  pub execution_id : Option String
  pub payload : String

pub record Execution : Type 0 where
  pub id : String
  pub state : ExecutionState
  pub request_sha256 : String
  pub agent : String
  pub operation : Op
  pub session_id : String
  pub effects : EffectSet
  pub identity_chain : List Link
  pub parent_execution_id : String
  pub continuation_id : String
  pub retry_of : String
  pub started_at : ℕ
  pub dispatch_deadline_at : ℕ
  pub task_id : String
  pub context_id : Option String
  pub result : Option Outcome
  pub finished_at : Option ℕ
  pub reason : Option String

pub record Session : Type 0 where
  pub id : String
  pub created_at : ℕ
  pub label : String

pub record Lease : Type 0 where
  pub resource : String
  pub owner : String
  pub token : String
  pub fence : ℕ
  pub expires_at : ℕ

pub data ApprovalState : Type 0 where
  pending approved denied revoked : ApprovalState

pub record Approval : Type 0 where
  pub id : String
  pub state : ApprovalState
  pub request_sha256 : String
  pub agent : String
  pub operation : Op
  pub effects : EffectSet
  pub created_at : ℕ
  pub task_id : String
  pub expires_at : Option ℕ
  pub reason : Option String

pub record Health : Type 0 where
  pub agent : String
  pub failures : ℕ
  pub quarantined : Bool
  pub reason : Option String

pub data ContinuationState : Type 0 where
  pending delivered : ContinuationState

pub record Continuation : Type 0 where
  pub id : String
  pub task_id : String
  pub kind : String
  pub state : ContinuationState
  pub reason : String
  pub created_at : ℕ
  pub execution_id : Option String

pub record Channel : Type 0 where
  pub id : String
  pub cursor : ℕ
  pub delivered : ℕ

pub record Provenance : Type 0 where
  pub agent : String
  pub sha256 : String
  pub source : String
  pub version : String
  pub sbom_uri : String
  pub recorded_at : ℕ

-- What the code appends to `control_events`; `external` is an event of the task manager.
pub data Event : Type 0 where
  execution_uncertain : String → Event
  continuation_required : String → String → String → Event
  session_created : String → Event
  lease_changed : LeaseOp → String → String → ℕ → Event
  approval_revoked : String → Event
  approval_required : String → EffectSet → String → Event
  approval_decided : String → ApprovalState → ℕ → Event
  agent_changed : AgentOp → String → String → Event
  provenance_recorded : String → String → Event
  execution_started : String → String → String → String → EffectSet → List Link → Event
  continuation_delivered : String → String → Event
  execution_finished : String → ExecutionState → String → Event
  external : String → Event

-- A row of `control_events`.
pub record Row : Type 0 where
  pub sequence : ℕ
  pub time : ℕ
  pub body : String
  pub previous_hash : String
  pub hash : String

-- The two tables.
pub record Store : Type 0 where
  pub executions : Dict Execution
  pub sessions : Dict Session
  pub leases : Dict Lease
  pub approvals : Dict Approval
  pub healths : Dict Health
  pub continuations : Dict Continuation
  pub channels : Dict Channel
  pub provenances : Dict Provenance
  pub events : List Row

-- The JSON object that a request is answered with. A list has the next cursor of a page, if any.
pub data Reply : Type 0 where
  failure : (kind error : String) → Reply
  outcome_uncertain : (execution_id : String) → Reply
  approval_needed : (kind : String) → Approval → Reply
  outcome : Outcome → Reply
  policy : Bool → Reply
  executions : List Execution → Option String → Reply
  sessions : List Session → Option String → Reply
  approvals : List Approval → Option String → Reply
  provenances : List Provenance → Option String → Reply
  continuations : List Continuation → Option String → Reply
  execution : Execution → Reply
  session : Session → Reply
  lease : Lease → Reply
  approval : Approval → Reply
  health : Health → Reply
  continuation : Continuation → Reply
  provenance : Provenance → Reply
  channel : Channel → Reply
  events : List Row → (next_cursor : ℕ) → (may_have_more : Bool) → Reply
  audit : (count : ℕ) → (head_sha256 : String) → Reply
