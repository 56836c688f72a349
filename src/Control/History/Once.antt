-- ===== src/Control/History/Once.antt =====
-- A request id is dispatched at most once, over any history.
use a2ad.Common.{
  String, ◌≡◌, refl, ◌≢◌, Option, none, some, List, [], ◌∷◌, ◌++◌, Dict, lookup, insert,
  lookup-insert, lookup-insert_self, arith, string_eq,
}
use a2ad.Control.Records.{
  ExecutionState, dispatching, Execution, Store, Outcome, outcome, outcome_uncertain,
}
use a2ad.Control.Exit.{next, return, return_if, >>=-eq-next}
use a2ad.Control.Audit.{Platform, Env, append}
use a2ad.Control.Checks.{answer_prior}
use a2ad.Control.Begin.{new_execution}
use a2ad.Control.Finish.{finish, restart, recover, recover_in, interrupt, interrupted}
use a2ad.Control.Finish.Frame.{finish-executions}
use a2ad.Control.Handle.{Decision, reply, forward, dispatch, event}
use a2ad.Control.Handle.Admits.{AdmitOk, admit-AdmitOk}
use a2ad.Control.History.{
  Action, requested, settled, logged, restarted, dispatched, step, step_dispatches, dispatches,
}

-- The executions of the second store include the ids of the first.
abbrev Remembers : Store → Store → Type 0
Remembers s s' = (id : String) → lookup id s'.executions ≡ none → lookup id s.executions ≡ none

abbrev pub IsAbsent : String → List String → Type 0
IsAbsent id [] = Unit
IsAbsent id (x ∷ xs) = (id ≢ x) × IsAbsent id xs

abbrev pub IsDistinct : List String → Type 0
IsDistinct [] = Unit
IsDistinct (x ∷ xs) = IsAbsent x xs × IsDistinct xs

-- None of the ids has an execution.
abbrev pub IsFresh : Store → List String → Type 0
IsFresh s [] = Unit
IsFresh s (x ∷ xs) = (lookup x s.executions ≡ none) × IsFresh s xs

IsFresh-Remembers :
    (s s' : Store) (ids : List String) → Remembers s s' → IsFresh s' ids → IsFresh s ids
IsFresh-Remembers s s' [] r h = tt
IsFresh-Remembers s s' (x ∷ xs) r h = (r x h.0, IsFresh-Remembers s s' xs r h.1)

IsAbsent-of_fresh :
    (s : Store) (id : String) (e : Execution) (ids : List String)
    → lookup id s.executions ≡ some e
    → IsFresh s ids
    → IsAbsent id ids
IsAbsent-of_fresh s id e [] found h = tt
IsAbsent-of_fresh s id e (x ∷ xs) found h =
    (λ same. ground (arith, found, h.0, same), IsAbsent-of_fresh s id e xs found h.1)

Remembers-insert :
    (s s' : Store) (id : String) (e : Execution)
    → s'.executions ≡ insert id e s.executions
    → Remembers s s'
Remembers-insert s s' id e h k missing =
    ground (arith, h, missing, lookup-insert id k e s.executions)

Remembers-same : (s s' : Store) → s'.executions ≡ s.executions → Remembers s s'
Remembers-same s s' h k missing = ground (arith, h, missing)

answer_prior-next :
    (id hash : String) (prior : Option Execution) (u : Unit {0})
    → answer_prior id hash prior ≡ next u
    → prior ≡ none
unfolding answer_prior
answer_prior-next id hash none u h = refl
answer_prior-next id hash (some e) u h =
    let (v, e0, h0) = >>=-eq-next (return_if _ _) _ h in absurd (no_result e.result h0)
  where
    no_result :
        (r : Option Outcome)
        → elim r [ some x ↦ return (outcome x) | none ↦ return (outcome_uncertain id) ] ≡ next u
        → ⊥
    no_result none k = cc
    no_result (some x) k = cc

module _ (p : Platform) where
  recover_in-Remembers :
      (st : ExecutionState) (env : Env) (e : Execution) (s : Store)
      → Remembers s (recover_in p st env e s)
  unfolding recover_in interrupt append
  recover_in-Remembers dispatching env e s =
      Remembers-insert s (interrupt p env e s) e.id (interrupted e) refl
  recover_in-Remembers _ env e s = Remembers-same s s refl

  recover-Remembers :
      (env : Env) (es : Dict Execution) (s : Store) → Remembers s (recover p env es s)
  unfolding recover
  recover-Remembers env [] s k h = h
  recover-Remembers env ((id, e) ∷ es) s k h =
      recover_in-Remembers e.state env e s k (recover-Remembers env es _ k h)

  -- What a step does to the executions and which ids it dispatches.
  abbrev Dispatches : Store → List String → Store → Type 0
  Dispatches s [] s' = Remembers s s'
  Dispatches s (id ∷ ids) s' =
      (lookup id s.executions ≡ none)
      × ((e : Execution) × (lookup id s'.executions ≡ some e))
      × (ids ≡ [])
      × Remembers s s'

  decision-Dispatches :
      (env : Env) (s : Store) (d : Decision × Store)
      → AdmitOk p env s d
      → Dispatches s (dispatched d.0) d.1
  unfolding dispatched
  decision-Dispatches env s (reply r, s') h = Remembers-same s s' h.0
  decision-Dispatches env s (forward req, s') h = Remembers-same s s' h.0
  decision-Dispatches env s (dispatch id req, s') (op, m, st, same, named) = (
    ground (arith, same, answer_prior-next _ _ _ tt st.admitted.prior),
    (
      new_execution p env op st.plan st.task,
      ground (
        arith,
        same,
        st.executions,
        lookup-insert_self st.plan.id (new_execution p env op st.plan st.task) s.executions,
      ),
    ),
    refl,
    Remembers-insert s s' _ _ st.executions,
  )

  step-Dispatches : (a : Action) (s : Store) → Dispatches s (step_dispatches p a s) (step p a s)
  unfolding step step_dispatches event append restart
  step-Dispatches (requested env input) s =
      decision-Dispatches env s _ (admit-AdmitOk p env s input)
  step-Dispatches (settled env id r) s =
      Remembers-insert s (finish p env id r s) id _ (finish-executions p env id r s)
  step-Dispatches (logged env text) s = Remembers-same s (event p env text s) refl
  step-Dispatches (restarted env) s = recover-Remembers env s.executions s

  Dispatches-cons :
      (s s' : Store) (ids rest : List String)
      → Dispatches s ids s'
      → IsDistinct rest × IsFresh s' rest
      → IsDistinct (ids ++ rest) × IsFresh s (ids ++ rest)
  Dispatches-cons s s' [] rest d h = (h.0, IsFresh-Remembers s s' rest d h.1)
  Dispatches-cons s s' (id ∷ []) rest (free, (e, found), only, r) h =
      ((IsAbsent-of_fresh s' id e rest found h.1, h.0), (free, IsFresh-Remembers s s' rest r h.1))
  Dispatches-cons s s' (id ∷ x ∷ xs) rest (free, (e, found), only, r) h = cc

  -- No history dispatches the same request id twice, or an id that has an execution at its start.
  pub dispatches_once :
      (acts : List Action) (s : Store)
      → IsDistinct (dispatches p acts s) × IsFresh s (dispatches p acts s)
  unfolding dispatches
  dispatches_once [] s = (tt, tt)
  dispatches_once (a ∷ acts) s =
      Dispatches-cons s (step p a s) (step_dispatches p a s) (dispatches p acts (step p a s))
        (step-Dispatches a s) (dispatches_once acts (step p a s))
