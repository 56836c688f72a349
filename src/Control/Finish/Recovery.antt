-- ===== src/Control/Finish/Recovery.antt =====
-- After a restart of the daemon no execution is in flight, and none is forgotten.
use a2ad.Common.{
  String, ◌≡◌, refl, ◌≢◌, some, [], ◌∷◌, Dict, lookup, lookup-insert, ◌==◌, string_eq, str_eq_iff,
  arith, ◌⊎◌, inl, inr, Bool-cases,
}
use a2ad.Control.Records.{
  Execution, ExecutionState, dispatching, uncertain, delivered, failed, Store,
}
use a2ad.Control.Audit.{Platform, Env, append}
use a2ad.Control.Finish.{interrupted, recover_in, interrupt, recover, restart}

-- Every execution is stored under its own id.
abbrev pub IsKeyed : Dict Execution → Type 0
IsKeyed [] = Unit
IsKeyed ((id, e) ∷ es) = (id ≡ e.id) × IsKeyed es

abbrev Listed : String → Execution → Dict Execution → Type 0
Listed id e [] = ⊥
Listed id e ((k, f) ∷ es) = ((k ≡ id) × (f ≡ e)) ⊎ Listed id e es

-- Executions in flight are among those that the loop has still to visit.
abbrev ToVisit : Dict Execution → Store → Type 0
ToVisit es s =
    (id : String) (e : Execution)
    → lookup id s.executions ≡ some e
    → e.state ≡ dispatching
    → Listed id e es

lookup-Listed :
    (id : String) (e : Execution) (es : Dict Execution) → lookup id es ≡ some e → Listed id e es
unfolding lookup
lookup-Listed id e [] h = cc
lookup-Listed id e ((k, f) ∷ es) h = ground (arith, str_eq_iff k id, lookup-Listed id e es)

rest_of :
    {id k : String} {e f : Execution} (es : Dict Execution)
    → Listed id e ((k, f) ∷ es)
    → k ≢ id
    → Listed id e es
rest_of es (inl (same, _)) other = absurd (other same)
rest_of es (inr l) other = l

module _ (p : Platform) (env : Env) where
  visit :
      (st : ExecutionState) (k : String) (f : Execution) (es : Dict Execution) (s : Store)
      → f.state ≡ st
      → k ≡ f.id
      → ToVisit ((k, f) ∷ es) s
      → ToVisit es (recover_in p st env f s)
  unfolding recover_in interrupt append
  visit dispatching k f es s m q h id e found flying = elim (Bool-cases (f.id == id)) [
    | inl same ↦
        ground (arith, same, found, flying, lookup-insert f.id id (interrupted f) s.executions)
    | inr other ↦
        rest_of es
          (h id e (ground (arith, other, found, lookup-insert f.id id (interrupted f) s.executions))
            flying)
          (ground (arith, other, q, str_eq_iff f.id id))
  ]
  visit uncertain k f es s m q h id e found flying = ground (arith, h id e)
  visit delivered k f es s m q h id e found flying = ground (arith, h id e)
  visit failed k f es s m q h id e found flying = ground (arith, h id e)

  recover-ToVisit :
      (es : Dict Execution) (s : Store)
      → IsKeyed es
      → ToVisit es s
      → ToVisit [] (recover p env es s)
  unfolding recover
  recover-ToVisit [] s k h = h
  recover-ToVisit ((id, e) ∷ es) s k h =
      recover-ToVisit es (recover_in p e.state env e s) k.1 (visit e.state id e es s refl k.0 h)

  -- If every execution is stored under its own id, none is in flight after a restart.
  pub restart_settles :
      (s : Store) (id : String) (e : Execution)
      → IsKeyed s.executions
      → lookup id (restart p env s).executions ≡ some e
      → e.state ≢ dispatching
  unfolding restart
  restart_settles s id e k found flying =
      recover-ToVisit s.executions s k (λ j f l m. lookup-Listed j f s.executions l) id e found
        flying
