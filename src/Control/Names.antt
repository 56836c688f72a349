-- ===== src/Control/Names.antt =====
-- daemon/src/ControlPlane.cpp: the words of a request, and what is hashed of it.
use a2ad.Common.{
  String, Bool, true, false, ◌&&◌, List, [], ◌∷◌, ◌==◌, string_eq, if◌then◌else◌, ◌≡◌, arith,
}
use a2ad.Control.Records.{
  Field, missing, ill_typed, given, Effect, read_remote, write_remote, execute_remote, publish,
  create_identity, store_external, send_message, delegate, EffectSet, Op, policy_info,
  execution_list, session_list, approval_list, provenance_list, continuation_list, execution_get,
  session_get, audit_verify, continuation_create, session_create, LeaseOp, AgentOp, approval_revoke,
  approval_decide, provenance_record, channel_open, channel_read, events_read, channel_ack, submit,
  respond, cancel, stream_submit, push_create, push_delete, artifact_materialize, other, Request,
}
use a2ad.Control.Exit.{Exit, next, return, throw}

-- The comparisons of `op` with the literals of the source.
unfoldable pub op_of : String → Op
op_of s =
    if s == "policy.info"
    then policy_info
    else if s == "execution.list"
    then execution_list
    else if s == "session.list"
    then session_list
    else if s == "approval.list"
    then approval_list
    else if s == "provenance.list"
    then provenance_list
    else if s == "continuation.list"
    then continuation_list
    else if s == "execution.get"
    then execution_get
    else if s == "session.get"
    then session_get
    else if s == "audit.verify"
    then audit_verify
    else if s == "continuation.create"
    then continuation_create
    else if s == "session.create"
    then session_create
    else if s == "lease.acquire"
    then Op.lease LeaseOp.acquire
    else if s == "lease.renew"
    then Op.lease LeaseOp.renew
    else if s == "lease.release"
    then Op.lease LeaseOp.release
    else if s == "approval.revoke"
    then approval_revoke
    else if s == "approval.decide"
    then approval_decide
    else if s == "agent.health"
    then Op.agent AgentOp.health
    else if s == "agent.quarantine"
    then Op.agent AgentOp.quarantine
    else if s == "agent.release"
    then Op.agent AgentOp.release
    else if s == "provenance.record"
    then provenance_record
    else if s == "channel.open"
    then channel_open
    else if s == "channel.read"
    then channel_read
    else if s == "events.read"
    then events_read
    else if s == "channel.ack"
    then channel_ack
    else if s == "submit"
    then submit
    else if s == "respond"
    then respond
    else if s == "cancel"
    then cancel
    else if s == "stream_submit"
    then stream_submit
    else if s == "push.create"
    then push_create
    else if s == "push.delete"
    then push_delete
    else if s == "artifact.materialize"
    then artifact_materialize
    else other s

-- `mutation(op)`
unfoldable pub mutation : Op → Bool
mutation submit = true
mutation respond = true
mutation cancel = true
mutation stream_submit = true
mutation push_create = true
mutation push_delete = true
mutation artifact_materialize = true
mutation _ = false

abbrev pub no_effects : EffectSet
no_effects _ = false

-- `requested.insert(effect)`
abbrev pub with_effect : Effect → EffectSet → EffectSet
with_effect read_remote s read_remote = true
with_effect write_remote s write_remote = true
with_effect execute_remote s execute_remote = true
with_effect publish s publish = true
with_effect create_identity s create_identity = true
with_effect store_external s store_external = true
with_effect send_message s send_message = true
with_effect delegate s delegate = true
with_effect _ s e = s e

-- The members of `effects`; any other name is an unknown effect.
unfoldable pub effect_of : String → Exit Effect
effect_of s =
    if s == "READ_REMOTE"
    then next read_remote
    else if s == "WRITE_REMOTE"
    then next write_remote
    else if s == "EXECUTE_REMOTE"
    then next execute_remote
    else if s == "PUBLISH"
    then next publish
    else if s == "CREATE_IDENTITY"
    then next create_identity
    else if s == "STORE_EXTERNAL"
    then next store_external
    else if s == "SEND_MESSAGE"
    then next send_message
    else if s == "DELEGATE"
    then next delegate
    else throw "unknown effect"

-- The loop of `effectSet`, which inserts into `out`.
unfoldable pub collect_effects : EffectSet → List String → Exit EffectSet
collect_effects out [] = next out
collect_effects out (name ∷ names) = elim (effect_of name) [
  | next e ↦ collect_effects (with_effect e out) names
  | return r ↦ return r
  | throw e ↦ throw e
]

-- `effectSet(req.value("effects", J::array()))`
unfoldable pub effect_set : Field (List String) → Exit EffectSet
unfolding collect_effects
effect_set missing = next no_effects
effect_set ill_typed = throw "effects must be an array"
effect_set (given names) = collect_effects no_effects names

-- `std::includes(allowed, requested)`
abbrev implies : Bool → Bool → Bool
implies true b = b
implies false b = true

unfoldable pub includes : EffectSet → EffectSet → Bool
includes allowed requested =
    implies (requested read_remote) (allowed read_remote)
    && implies (requested write_remote) (allowed write_remote)
    && implies (requested execute_remote) (allowed execute_remote)
    && implies (requested publish) (allowed publish)
    && implies (requested create_identity) (allowed create_identity)
    && implies (requested store_external) (allowed store_external)
    && implies (requested send_message) (allowed send_message)
    && implies (requested delegate) (allowed delegate)

pub includes_mem :
    (allowed requested : EffectSet) (e : Effect)
    → includes allowed requested ≡ true
    → requested e ≡ true
    → allowed e ≡ true
unfolding includes
includes_mem a r read_remote h m = ground arith
includes_mem a r write_remote h m = ground arith
includes_mem a r execute_remote h m = ground arith
includes_mem a r publish h m = ground arith
includes_mem a r create_identity h m = ground arith
includes_mem a r store_external h m = ground arith
includes_mem a r send_message h m = ground arith
includes_mem a r delegate h m = ground arith

-- The effects that a mutation has whether or not it names them.
unfoldable pub implied_effects : Op → EffectSet → EffectSet
implied_effects submit = with_effect execute_remote
implied_effects respond = with_effect execute_remote
implied_effects stream_submit = with_effect execute_remote
implied_effects cancel = with_effect write_remote
implied_effects push_create = with_effect write_remote
implied_effects push_delete = with_effect write_remote
implied_effects artifact_materialize = with_effect store_external
implied_effects _ = λ s. s

-- `canonical(request)`: the request without its id.
abbrev pub canonical : Request → Request
canonical r = record r { request_id = missing }
