-- ===== src/Control/Finish/Frame.antt =====
-- What `finish` and the recovery write to the executions and to the log.
use a2ad.Common.{
  String, ◌≡◌, refl, ◌∙◌, Bool, true, false, if◌then◌else◌, [], ◌∷◌, Dict, lookup, insert,
  string_eq, arith,
}
use a2ad.Control.Records.{Outcome, Execution, ExecutionState, dispatching, Store}
use a2ad.Control.Audit.{Platform, Env, append}
use a2ad.Control.Audit.Log.{Logged, Logged-same, Logged-append, Logged-trans}
use a2ad.Control.Finish.{
  finished, get_or, blank_execution, deliver_continuation, finish_continuation, finish_health,
  finish, recover_in, interrupt, recover, restart,
}

module _ (p : Platform) (env : Env) where
  continuation-executions :
      (id : String) (r : Outcome) (c : String) (s : Store)
      → (finish_continuation p env id r c s).executions ≡ s.executions
  unfolding finish_continuation deliver_continuation append
  continuation-executions id r c s = ground arith

  Logged-if : (b : Bool) (s t : Store) → Logged p s t → Logged p s (if b then t else s)
  Logged-if true s t h = h
  Logged-if false s t h = Logged-same p s s refl

  continuation-Logged :
      (id : String) (r : Outcome) (c : String) (s : Store)
      → Logged p s (finish_continuation p env id r c s)
  unfolding finish_continuation deliver_continuation
  continuation-Logged id r c s = Logged-if _ s _ (Logged-append p env _ s _ refl)

  health-executions :
      (agent : String) (r : Outcome) (s : Store)
      → ((finish_health p agent r s).executions ≡ s.executions)
        × ((finish_health p agent r s).events ≡ s.events)
  unfolding finish_health
  health-executions agent r s = ground arith

  -- `finish` writes one execution.
  pub finish-executions :
      (id : String) (r : Outcome) (s : Store)
      → (finish p env id r s).executions
        ≡ insert id (finished env r (get_or (lookup id s.executions) blank_execution)) s.executions
  unfolding finish append
  finish-executions id r s = (health-executions _ r _).0 ∙ continuation-executions id r _ _

  pub finish-Logged : (id : String) (r : Outcome) (s : Store) → Logged p s (finish p env id r s)
  unfolding finish
  finish-Logged id r s = Logged-trans p s _ _ (Logged-same p s _ refl) (
      Logged-trans p _ _ _ (continuation-Logged id r _ _)
        (Logged-append p env _ _ _ (health-executions _ r _).1))

  recover_in-Logged :
      (st : ExecutionState) (e : Execution) (s : Store) → Logged p s (recover_in p st env e s)
  unfolding recover_in interrupt
  recover_in-Logged dispatching e s = Logged-append p env _ s _ refl
  recover_in-Logged _ e s = Logged-same p s s refl

  recover-Logged : (es : Dict Execution) (s : Store) → Logged p s (recover p env es s)
  unfolding recover
  recover-Logged [] s = Logged-same p s s refl
  recover-Logged ((id, e) ∷ es) s =
      Logged-trans p s _ _ (recover_in-Logged e.state e s) (recover-Logged es _)

  pub restart-Logged : (s : Store) → Logged p s (restart p env s)
  unfolding restart
  restart-Logged s = recover-Logged s.executions s
