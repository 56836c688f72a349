-- ===== src/Control/Handle/Replay.antt =====
-- A request id that has an execution is answered from it, without a dispatch.
use a2ad.Common.{
  String, ◌≡◌, refl, ◌≢◌, true, false, Option, none, some, List, string_eq, str_eq_iff, lookup,
  arith,
}
use mathlib.Core.Path.{subst}
use a2ad.Control.Records.{
  Field, missing, ill_typed, given, Request, Execution, Store, Op, Outcome, Reply, failure, outcome,
  outcome_uncertain,
}
use a2ad.Control.Exit.{next, return, return_if, required, value}
use a2ad.Control.Names.{op_of, mutation}
use a2ad.Control.Audit.{Platform, Env}
use a2ad.Control.Checks.{answer_prior}
use a2ad.Control.Begin.{request_hash, plan_of, begin}
use a2ad.Control.Listing.{read_only}
use a2ad.Control.Handle.{
  object, Answer, begin_transaction, control, with_id, bad_digest, admit_mutation, admit_rest,
  admit_op, admit, settle, handle,
}

-- The answer to a request whose id and hash have an execution.
abbrev pub replayed : String → Option Outcome → Reply
replayed id none = outcome_uncertain id
replayed id (some r) = outcome r

module _ (p : Platform) (env : Env) where
  mutation-read_only :
      (op : Op) (req : Request) (s : Store) → mutation op ≡ true → read_only p op req s ≡ none
  unfolding read_only mutation
  mutation-read_only Op.submit req s h = refl
  mutation-read_only Op.respond req s h = refl
  mutation-read_only Op.cancel req s h = refl
  mutation-read_only Op.stream_submit req s h = refl
  mutation-read_only Op.push_create req s h = refl
  mutation-read_only Op.push_delete req s h = refl
  mutation-read_only Op.artifact_materialize req s h = refl
  mutation-read_only _ req s h = cc

  mutation-control :
      (op : Op) (req : Request) (s : Store) → mutation op ≡ true → control p env op req s ≡ none
  unfolding control mutation
  mutation-control Op.submit req s h = refl
  mutation-control Op.respond req s h = refl
  mutation-control Op.cancel req s h = refl
  mutation-control Op.stream_submit req s h = refl
  mutation-control Op.push_create req s h = refl
  mutation-control Op.push_delete req s h = refl
  mutation-control Op.artifact_materialize req s h = refl
  mutation-control _ req s h = cc

  with_id-required :
      (req : Request) (f : Field String) (id : String)
      → required f ≡ next id
      → with_id p env req f ≡ some req
  unfolding with_id required
  with_id-required req missing id h = cc
  with_id-required req ill_typed id h = refl
  with_id-required req (given v) id h = refl

  -- A mutation goes straight to `begin`.
  pub admit-begin :
      (req : Request) (s : Store) (name id : String)
      → value req.op "" ≡ next name
      → mutation (op_of name) ≡ true
      → bad_digest p (op_of name) req.sha256 ≡ false
      → required req.request_id ≡ next id
      → admit p env (object req) s ≡ begin_transaction req s (begin p env (op_of name) req s)
  unfolding admit admit_op admit_rest admit_mutation
  admit-begin req s name id e m d i =
      rw
        (
          admit,
          e,
          admit_op,
          mutation-read_only (op_of name) req s m,
          admit_rest,
          mutation-control (op_of name) req s m,
          m,
          admit_mutation,
          with_id-required req req.request_id id i,
          d,
        )
        refl

  answer_prior-same :
      (id : String) (e : Execution)
      → answer_prior id e.request_sha256 (some e) ≡ return (replayed id e.result)
  unfolding answer_prior return_if
  answer_prior-same id e = ground (arith, str_eq_iff e.request_sha256 e.request_sha256)

  answer_prior-other :
      (id hash : String) (e : Execution)
      → e.request_sha256 ≢ hash
      → answer_prior id hash (some e)
        ≡ return (failure "idempotency_conflict" "request_id was used with different parameters")
  unfolding answer_prior return_if
  answer_prior-other id hash e h = ground (arith, str_eq_iff e.request_sha256 hash)

  begin-prior :
      (op : Op) (req : Request) (s : Store) (id : String) (e : Execution) (r : Reply)
      → required req.request_id ≡ next id
      → lookup id s.executions ≡ some e
      → answer_prior id (request_hash p req) (some e) ≡ return r
      → begin p env op req s ≡ return r
  unfolding begin plan_of
  begin-prior op req s id e r i found a = rw (i, found, a) refl

  -- A mutation that repeats a request id with the same parameters is answered, without a dispatch or
  -- a change of the tables, by the result that is on record, or, if there is none, by the reply that
  -- the outcome is uncertain.
  pub replay_same :
      (later : Env) (dispatcher : Request → Answer × List String) (req : Request) (s : Store)
      (name id : String) (e : Execution)
      → value req.op "" ≡ next name
      → mutation (op_of name) ≡ true
      → bad_digest p (op_of name) req.sha256 ≡ false
      → required req.request_id ≡ next id
      → lookup id s.executions ≡ some e
      → e.request_sha256 ≡ request_hash p req
      → handle p env later dispatcher (object req) s ≡ (replayed id e.result, s)
  unfolding handle settle begin_transaction
  replay_same later dispatcher req s name id e o m d i found same =
      rw
        (
          admit-begin req s name id o m d i,
          begin-prior (op_of name) req s id e (replayed id e.result) i found (
              subst (λ h. answer_prior id h (some e) ≡ return (replayed id e.result)) same
                (answer_prior-same id e)),
        )
        refl

  -- A mutation that repeats a request id with other parameters is refused as a conflict, without a
  -- dispatch or a change of the tables.
  pub replay_other :
      (later : Env) (dispatcher : Request → Answer × List String) (req : Request) (s : Store)
      (name id : String) (e : Execution)
      → value req.op "" ≡ next name
      → mutation (op_of name) ≡ true
      → bad_digest p (op_of name) req.sha256 ≡ false
      → required req.request_id ≡ next id
      → lookup id s.executions ≡ some e
      → e.request_sha256 ≢ request_hash p req
      → handle p env later dispatcher (object req) s
        ≡ (failure "idempotency_conflict" "request_id was used with different parameters", s)
  unfolding handle settle begin_transaction
  replay_other later dispatcher req s name id e o m d i found other =
      rw
        (
          admit-begin req s name id o m d i,
          begin-prior (op_of name) req s id e _ i found
              (answer_prior-other id (request_hash p req) e other),
        )
        refl
