-- ===== src/Control/Approval.antt =====
-- daemon/src/ControlPlane.cpp: `approval.revoke` and `approval.decide`.
use a2ad.Common.{
  ℕ, ◌+◌, String, Bool, true, false, Option, none, some, if◌then◌else◌, lookup, insert,
}
use a2ad.Common.Int.{ℤ, pos, pos_part}
use a2ad.Control.Records.{
  Field, missing, ill_typed, given, Request, Approval, ApprovalState, Store, Reply, failure,
  approval, approval_revoked, approval_decided,
}
use a2ad.Control.Exit.{Exit, next, return, throw, ◌>>=◌, ◌>>◌, return_if, value, required}
use a2ad.Control.Audit.{Platform, Env, append}
use a2ad.Control.Lease.{bad_ttl}
pub mod Decisions

-- `approval.is_null()` ends the request.
unfoldable pub known_approval : Option Approval → Exit Approval
known_approval none = return (failure "not_found" "approval not found")
known_approval (some a) = next a

-- `approval["state"] != "PENDING"` ends the request.
unfoldable pub undecided : ApprovalState → Exit (Unit {0})
undecided ApprovalState.pending = next tt
undecided _ = return (failure "conflict" "approval already decided")

-- The member `allow`, which must be a Boolean.
unfoldable pub allowed : Field Bool → Exit Bool
allowed (given b) = next b
allowed _ = return (failure "invalid_request" "allow must be boolean")

abbrev pub verdict : Bool → ApprovalState
verdict true = ApprovalState.approved
verdict false = ApprovalState.denied

module _ (p : Platform) where
  unfoldable pub revoke : Env → Request → Store → Exit (Reply × Store)
  revoke env req s = do
    id ← required req.id
    a ← known_approval (lookup id s.approvals)
    let a' = record a { state = ApprovalState.revoked }
    next (
      approval a',
      append p env (approval_revoked id) (record s { approvals = insert id a' s.approvals }),
    )

  unfoldable pub decide : Env → Request → Store → Exit (Reply × Store)
  decide env req s = do
    id ← required req.id
    a ← known_approval (lookup id s.approvals)
    undecided a.state
    allow ← allowed req.allow
    ttl ← value req.ttl_seconds (pos 300)
    return_if (bad_ttl ttl) (failure "invalid_request" "ttl_seconds must be 1..3600")
    reason ← value req.reason ""
    let a' = record a {
      state = verdict allow;
      expires_at = some (env.now + pos_part ttl);
      reason = some reason;
    }
    next (
      approval a',
      append p env (approval_decided id (verdict allow) (env.now + pos_part ttl))
          (record s { approvals = insert id a' s.approvals }),
    )
