-- ===== src/Control/Handle/Frame.antt =====
-- What the control operations leave alone: executions, and the rows that the log already has.
use a2ad.Common.{String, ◌≡◌, refl, Option, none, some}
use mathlib.Core.Path.{subst}
use mathlib.Core.Option.{some-injective}
use a2ad.Control.Records.{
  Op, LeaseOp, AgentOp, Request, Event, Store, Reply, Health, Channel, lease, agent,
  continuation_create, session_create, approval_revoke, approval_decide, provenance_record,
  channel_open, channel_read, events_read, channel_ack,
}
use a2ad.Control.Exit.{Exit, next, Ensures, on_next, Ensures-bind}
use a2ad.Control.Audit.{Platform, Env, append}
use a2ad.Control.Audit.Log.{Logged, Logged-same, Logged-append}
use a2ad.Control.Lease.{lease_op, put_lease}
use a2ad.Control.Approval.{revoke, decide}
use a2ad.Control.Agents.{agent_op, set_health}
use a2ad.Control.Channel.{
  channel_open_op, open_found, open_new, channel_read_op, channel_ack_op, events_read_op,
}
use a2ad.Control.Registry.{continuation_create_op, session_create_op, provenance_record_op}
use a2ad.Control.Handle.{control}

module _ (p : Platform) where
  -- What a successful control operation keeps.
  pub record Kept (s : Store) (r : Reply × Store) : Type 0 where
    pub executions : r.1.executions ≡ s.executions
    pub log : Logged p s r.1

  Kept-append :
      (env : Env) (event : Event) (s t : Store) (r : Reply)
      → t.executions ≡ s.executions
      → t.events ≡ s.events
      → Ensures (Kept s) (next (r, append p env event t))
  unfolding append
  Kept-append env event s t r e f =
      on_next (record { executions = e; log = Logged-append p env event s t f })

  Kept-write :
      (s t : Store) (r : Reply)
      → t.executions ≡ s.executions
      → t.events ≡ s.events
      → Ensures (Kept s) (next (r, t))
  Kept-write s t r e f = on_next (record { executions = e; log = Logged-same p s t f })

  lease_op-Kept :
      (env : Env) (op : LeaseOp) (req : Request) (s : Store)
      → Ensures (Kept s) (lease_op p env op req s)
  unfolding lease_op put_lease
  lease_op-Kept env op req s = search (Ensures-bind, Kept-append env) depth 10

  revoke-Kept : (env : Env) (req : Request) (s : Store) → Ensures (Kept s) (revoke p env req s)
  unfolding revoke
  revoke-Kept env req s = search (Ensures-bind, Kept-append env)

  decide-Kept : (env : Env) (req : Request) (s : Store) → Ensures (Kept s) (decide p env req s)
  unfolding decide
  decide-Kept env req s = search (Ensures-bind, Kept-append env) depth 10

  set_health-Kept :
      (env : Env) (op : AgentOp) (name : String) (h : Health) (req : Request) (s : Store)
      → Ensures (Kept s) (set_health p env op name h req s)
  unfolding set_health
  set_health-Kept env AgentOp.health name h req s = Kept-write s s _ refl refl
  set_health-Kept env AgentOp.quarantine name h req s = search (Ensures-bind, Kept-append env)
  set_health-Kept env AgentOp.release name h req s = search (Ensures-bind, Kept-append env)

  agent_op-Kept :
      (env : Env) (op : AgentOp) (req : Request) (s : Store)
      → Ensures (Kept s) (agent_op p env op req s)
  unfolding agent_op
  agent_op-Kept env op req s = search (Ensures-bind, set_health-Kept env op)

  continuation_create_op-Kept :
      (env : Env) (req : Request) (s : Store)
      → Ensures (Kept s) (continuation_create_op p env req s)
  unfolding continuation_create_op
  continuation_create_op-Kept env req s = search (Ensures-bind, Kept-append env) depth 10

  session_create_op-Kept :
      (env : Env) (req : Request) (s : Store) → Ensures (Kept s) (session_create_op p env req s)
  unfolding session_create_op
  session_create_op-Kept env req s = search (Ensures-bind, Kept-append env) depth 10

  provenance_record_op-Kept :
      (env : Env) (req : Request) (s : Store) → Ensures (Kept s) (provenance_record_op p env req s)
  unfolding provenance_record_op
  provenance_record_op-Kept env req s = search (Ensures-bind, Kept-append env) depth 10

  open_found-Kept :
      (id : String) (req : Request) (s : Store) (c : Option Channel)
      → Ensures (Kept s) (open_found id req s c)
  unfolding open_found open_new
  open_found-Kept id req s none = search (Ensures-bind, Kept-write)
  open_found-Kept id req s (some c) = Kept-write s s _ refl refl

  channel_open_op-Kept : (req : Request) (s : Store) → Ensures (Kept s) (channel_open_op req s)
  unfolding channel_open_op
  channel_open_op-Kept req s = search (Ensures-bind, open_found-Kept)

  channel_read_op-Kept : (req : Request) (s : Store) → Ensures (Kept s) (channel_read_op req s)
  unfolding channel_read_op
  channel_read_op-Kept req s = search (Ensures-bind, Kept-write) depth 10

  channel_ack_op-Kept : (req : Request) (s : Store) → Ensures (Kept s) (channel_ack_op req s)
  unfolding channel_ack_op
  channel_ack_op-Kept req s = search (Ensures-bind, Kept-write) depth 10

  events_read_op-Kept : (req : Request) (s : Store) → Ensures (Kept s) (events_read_op req s)
  unfolding events_read_op
  events_read_op-Kept req s = search (Ensures-bind, Kept-write) depth 10

  of_some :
      {P : Reply × Store → Type 0} {e e' : Exit (Reply × Store)}
      → some e ≡ some e'
      → Ensures P e
      → Ensures P e'
  of_some {P} h k = subst (Ensures P) (some-injective _ _ h) k

  -- A control operation that succeeds leaves the executions alone, and the log has only grown.
  pub control-Kept :
      (env : Env) (op : Op) (req : Request) (s : Store) (e : Exit (Reply × Store))
      → control p env op req s ≡ some e
      → Ensures (Kept s) e
  unfolding control
  control-Kept env continuation_create req s e h = of_some h (continuation_create_op-Kept env req s)
  control-Kept env session_create req s e h = of_some h (session_create_op-Kept env req s)
  control-Kept env (lease op) req s e h = of_some h (lease_op-Kept env op req s)
  control-Kept env approval_revoke req s e h = of_some h (revoke-Kept env req s)
  control-Kept env approval_decide req s e h = of_some h (decide-Kept env req s)
  control-Kept env (agent op) req s e h = of_some h (agent_op-Kept env op req s)
  control-Kept env provenance_record req s e h = of_some h (provenance_record_op-Kept env req s)
  control-Kept env channel_open req s e h = of_some h (channel_open_op-Kept req s)
  control-Kept env channel_read req s e h = of_some h (channel_read_op-Kept req s)
  control-Kept env events_read req s e h = of_some h (events_read_op-Kept req s)
  control-Kept env channel_ack req s e h = of_some h (channel_ack_op-Kept req s)
  control-Kept env _ req s e h = cc
