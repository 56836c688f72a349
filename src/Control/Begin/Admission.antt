-- ===== src/Control/Begin/Admission.antt =====
-- What holds when `begin` has let a mutation pass: each of its checks.
use a2ad.Common.{String, ◌≡◌, refl, List, [], ◌∷◌, ◌++◌, lookup, string_eq}
use a2ad.Control.Records.{Op, Request, Store, EffectSet, Link}
use a2ad.Control.Exit.{next, Ensures, on_next, Ensures-bind_eq, Ensures-next, value, required}
use a2ad.Control.Names.{effect_set, implied_effects}
use a2ad.Control.Audit.{Platform, Env}
use a2ad.Control.Checks.{
  answer_prior, check_lease, check_continuation, check_retry, check_quarantine, parent_chain,
  check_session,
}
use a2ad.Control.Begin.{Plan, plan_of, request_hash}

abbrev pub own_link : String → String → Link
own_link agent id = record { agent = agent; execution_id = id }

module _ (p : Platform) (env : Env) (op : Op) (req : Request) (s : Store) where
  pub record Admitted (plan : Plan) : Type 0 where
    pub id_given : required req.request_id ≡ next plan.id
    pub prior : answer_prior plan.id (request_hash p req) (lookup plan.id s.executions) ≡ next tt
    pub lease : check_lease env req.lease s ≡ next tt
    pub continuation : check_continuation plan.continuation_id req.task_id s ≡ next tt
    pub retry_given : value req.retry_of "" ≡ next plan.retry_of
    pub retry : check_retry plan.retry_of s ≡ next tt
    pub agent_given : value req.agent "" ≡ next plan.agent
    pub healthy : check_quarantine plan.agent s ≡ next tt
    pub named : EffectSet
    pub named_given : effect_set req.effects ≡ next named
    pub requested : plan.requested ≡ implied_effects op named
    pub parent_given : value req.parent_execution_id "" ≡ next plan.parent_id
    pub ancestors : List Link
    pub delegation : parent_chain env plan.parent_id plan.requested s ≡ next ancestors
    pub chain : plan.chain ≡ ancestors ++ own_link plan.agent plan.id ∷ []
    pub session : check_session plan.session_id s ≡ next tt
    pub hash : plan.hash ≡ request_hash p req

  Admitted-intro :
      (id : String)
      → required req.request_id ≡ next id
      → (u : Unit {0}) → answer_prior id (request_hash p req) (lookup id s.executions) ≡ next u
      → (v : Unit {0}) → check_lease env req.lease s ≡ next v
      → (continuation_id : String) → value req.continuation_id "" ≡ next continuation_id
      → (w : Unit {0}) → check_continuation continuation_id req.task_id s ≡ next w
      → (retry_of : String) → value req.retry_of "" ≡ next retry_of
      → (x : Unit {0}) → check_retry retry_of s ≡ next x
      → (agent : String) → value req.agent "" ≡ next agent
      → (y : Unit {0}) → check_quarantine agent s ≡ next y
      → (named : EffectSet) → effect_set req.effects ≡ next named
      → (parent_id : String) → value req.parent_execution_id "" ≡ next parent_id
      → (chain : List Link) → parent_chain env parent_id (implied_effects op named) s ≡ next chain
      → (session_id : String) → value req.session_id "" ≡ next session_id
      → (z : Unit {0}) → check_session session_id s ≡ next z
      → Ensures Admitted (
          next (record {
            id = id;
            hash = request_hash p req;
            agent = agent;
            requested = implied_effects op named;
            chain = chain ++ own_link agent id ∷ [];
            session_id = session_id;
            parent_id = parent_id;
            continuation_id = continuation_id;
            retry_of = retry_of;
          }))
  Admitted-intro id e0 u e1 v e2 continuation_id e3 w e4 retry_of e5 x e6 agent e7 y e8 named e9
        parent_id e10 chain e11 session_id e12 z e13 =
      on_next (record {
        id_given = e0;
        prior = e1;
        lease = e2;
        continuation = e4;
        retry_given = e5;
        retry = e6;
        agent_given = e7;
        healthy = e8;
        named = named;
        named_given = e9;
        requested = refl;
        parent_given = e10;
        ancestors = chain;
        delegation = e11;
        chain = refl;
        session = e13;
        hash = refl;
      })

  pub plan_of-Admitted : Ensures Admitted (plan_of p env op req s)
  unfolding plan_of
  plan_of-Admitted = search (Ensures-bind_eq, Admitted-intro) depth 20

  -- The checks of `begin` have passed exactly as `Admitted` lists them.
  pub plan_of_lem : (plan : Plan) → plan_of p env op req s ≡ next plan → Admitted plan
  plan_of_lem plan h = Ensures-next Admitted plan_of-Admitted h
