-- ===== src/Control/Handle/Settled.antt =====
-- A governed dispatch from end to end: what is on record after its outcome, and what a repetition of
-- the request is answered with.
use a2ad.Common.{
  String, ◌≡◌, refl, ap, ◌∙◌, Bool, true, false, if◌then◌else◌, none, some, List, [], ◌∷◌,
  string_eq, lookup, lookup-insert_self,
}
use mathlib.Core.Path.{subst}
use a2ad.Control.Records.{Request, Execution, Store, Op, Outcome, outcome, outcome_uncertain}
use a2ad.Control.Exit.{next, required, value}
use a2ad.Control.Names.{op_of, mutation}
use a2ad.Control.Audit.{Platform, Env, append}
use a2ad.Control.Begin.{new_execution, request_hash}
use a2ad.Control.Begin.Outcome.{Starts}
use a2ad.Control.Finish.{finished, final_state, is_uncertain, finish, get_or, blank_execution}
use a2ad.Control.Finish.Frame.{finish-executions}
use a2ad.Control.Handle.{
  Input, object, dispatch, Answer, bad_digest, admit, outcome_of, event, log, settle, handle,
}
use a2ad.Control.Handle.Guarantees.{dispatch-Starts}
use a2ad.Control.Handle.Replay.{replayed, replay_same}

module _ (p : Platform) where
  log-executions :
      (env : Env) (texts : List String) (s : Store) → (log p env texts s).executions ≡ s.executions
  unfolding log event append
  log-executions env [] s = refl
  log-executions env (text ∷ texts) s = log-executions env texts (event p env text s)

  module _ (env later : Env) (input : Input) (s : Store) (id : String) (req : Request) (s' : Store)
      (h : admit p env input s ≡ (dispatch id req, s')) where
    -- The execution of a dispatch that has been answered with `r`.
    settled_execution :
        (r : Outcome) (texts : List String)
        → (op : Op) × (st : Starts p env op req s s') × (st.plan.id ≡ id)
          × (lookup id (finish p later id r (log p later texts s')).executions
              ≡ some (finished later r (new_execution p env op st.plan st.task)))
    settled_execution r texts =
        let (op, m, st, same) = dispatch-Starts p env input s id req s' h in
        let e = new_execution p env op st.plan st.task in
        let found : lookup id (log p later texts s').executions ≡ some e =
          ap (lookup id) (log-executions later texts s')
          ∙ subst (λ k. lookup k s'.executions ≡ some e) same
              (ap (lookup st.plan.id) st.executions
                ∙ lookup-insert_self st.plan.id e s.executions) in
        (
          op,
          st,
          same,
          ap (lookup id) (finish-executions p later id r (log p later texts s'))
              ∙ lookup-insert_self id _ (log p later texts s').executions
              ∙ ap (λ o. some (finished later r (get_or o blank_execution))) found,
        )

    -- A dispatch is recorded with its outcome: the state follows from it, and the result is kept
    -- exactly if the remote side is known to have acted or not to have acted.
    pub dispatch_settled :
        (answer : Answer) (texts : List String)
        → (e : Execution) × (lookup id
              (settle p later (λ _. (answer, texts)) (dispatch id req, s')).1.executions
            ≡ some e)
          × (e.state ≡ final_state (outcome_of p id answer))
          × (e.result ≡ (
              if is_uncertain (outcome_of p id answer).error_kind
              then none
              else some (outcome_of p id answer)))
          × (e.request_sha256 ≡ request_hash p req)
    unfolding settle finished new_execution
    dispatch_settled answer texts =
        let (op, st, same, found) = settled_execution (outcome_of p id answer) texts in
        (
          finished later (outcome_of p id answer) (new_execution p env op st.plan st.task),
          found,
          refl,
          refl,
          st.admitted.hash,
        )

    -- When a request has been dispatched and its outcome recorded, a repetition of it is answered,
    -- however the dispatcher would answer, by that outcome, or, if the outcome is uncertain, by the
    -- reply that it is.
    pub dispatch_replayed :
        (answer : Answer) (texts : List String) (env' later' : Env)
        (dispatcher : Request → Answer × List String) (name : String)
        → value req.op "" ≡ next name
        → mutation (op_of name) ≡ true
        → bad_digest p (op_of name) req.sha256 ≡ false
        → (handle p env' later' dispatcher
            (object req)
            (settle p later (λ _. (answer, texts)) (dispatch id req, s')).1).0
          ≡ (if is_uncertain (outcome_of p id answer).error_kind
              then outcome_uncertain id
              else outcome (outcome_of p id answer))
    dispatch_replayed answer texts env' later' dispatcher name o m d =
        let (op, m', st, same) = dispatch-Starts p env input s id req s' h in
        let (e, found, state, result, hash) = dispatch_settled answer texts in
        ap (λ x. x.0)
          (replay_same p env' later' dispatcher req _ name id e o m d
            (subst (λ k. required req.request_id ≡ next k) same st.admitted.id_given) found hash)
        ∙ ap (replayed id) result
        ∙ replayed-if (is_uncertain (outcome_of p id answer).error_kind) (outcome_of p id answer)
      where
        replayed-if :
            (b : Bool) (r : Outcome)
            → replayed id (if b then none else some r)
              ≡ (if b then outcome_uncertain id else outcome r)
        replayed-if true r = refl
        replayed-if false r = refl
