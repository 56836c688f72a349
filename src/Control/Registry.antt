-- ===== src/Control/Registry.antt =====
-- daemon/src/ControlPlane.cpp: `continuation.create`, `session.create` and `provenance.record`.
use a2ad.Common.{
  ℕ, String, Bool, true, ◌&&◌, ◌||◌, not, Option, none, some, List, [], ◌∷◌, leb, ◌==◌, string_eq,
  nat_eq, lookup, insert, bytes,
}
use Prim.Native.String.{len}
use a2ad.Control.Records.{
  Field, missing, Request, Session, Continuation, ContinuationState, Provenance, Store, Reply,
  failure, session, continuation, provenance, session_created, continuation_required,
  provenance_recorded,
}
use a2ad.Control.Exit.{Exit, next, return, ◌>>=◌, ◌>>◌, return_if, value, required}
use a2ad.Control.Audit.{Platform, Env, append}

unfoldable pub is_continuation_kind : String → Bool
is_continuation_kind k = k == "INPUT_REQUIRED" || k == "APPROVAL" || k == "RETRY" || k == "HANDOFF"

-- `req.contains("id") ? required(req, "id") : newId()`
unfoldable pub session_id : Env → Field String → Exit String
session_id env missing = next env.fresh
session_id env f = required f

-- `!read("session", id).is_null()` ends the request.
unfoldable pub unused_session : Option Session → Exit (Unit {0})
unused_session none = next tt
unused_session (some _) = return (failure "conflict" "session already exists")

-- `0123456789abcdef`
unfoldable pub is_hex : ℕ → Bool
is_hex c = leb b'0' c && leb c b'9' || leb b'a' c && leb c b'f'

unfoldable pub all_hex : List ℕ → Bool
all_hex [] = true
all_hex (c ∷ cs) = is_hex c && all_hex cs

module _ (p : Platform) where
  unfoldable pub continuation_create_op : Env → Request → Store → Exit (Reply × Store)
  continuation_create_op env req s = do
    task ← required req.task_id
    kind ← required req.kind
    return_if (not (is_continuation_kind kind))
        (failure "invalid_request" "kind must be INPUT_REQUIRED, APPROVAL, RETRY, or HANDOFF")
    reason ← value req.reason ""
    let c : Continuation = record {
      id = env.fresh;
      task_id = task;
      kind = kind;
      state = ContinuationState.pending;
      reason = reason;
      created_at = env.now;
      execution_id = none;
    }
    next (
      continuation c,
      append p env (continuation_required env.fresh task kind)
          (record s { continuations = insert env.fresh c s.continuations }),
    )

  unfoldable pub session_create_op : Env → Request → Store → Exit (Reply × Store)
  session_create_op env req s = do
    id ← session_id env req.id
    unused_session (lookup id s.sessions)
    label ← value req.label ""
    let new : Session = record { id = id; created_at = env.now; label = label }
    next (
      session new,
      append p env (session_created id) (record s { sessions = insert id new s.sessions }),
    )

  unfoldable pub provenance_record_op : Env → Request → Store → Exit (Reply × Store)
  provenance_record_op env req s = do
    agent ← required req.agent
    sha ← required req.sha256
    return_if (not (len sha == 64) || not (all_hex (bytes sha)))
        (failure "invalid_request" "sha256 must be 64 lowercase hexadecimal characters")
    source ← required req.source
    version ← value req.version ""
    sbom_uri ← value req.sbom_uri ""
    let r : Provenance = record {
      agent = agent;
      sha256 = sha;
      source = source;
      version = version;
      sbom_uri = sbom_uri;
      recorded_at = env.now;
    }
    next (
      provenance r,
      append p env (provenance_recorded agent sha)
          (record s { provenances = insert agent r s.provenances }),
    )
