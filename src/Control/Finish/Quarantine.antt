-- ===== src/Control/Finish/Quarantine.antt =====
-- What the outcomes of dispatches do to the health of an agent.
use a2ad.Common.{
  ◌≤◌, String, ◌≡◌, refl, sym, ◌∙◌, ap, ◌≢◌, true, false, ◌&&◌, leb, some, lookup, insert,
  lookup-insert_self, arith, string_eq, str_eq_iff,
}
use a2ad.Control.Records.{Outcome, Execution, Health, Store}
use a2ad.Control.Audit.{Platform, Env, append}
use a2ad.Control.Agents.{health, health_or}
use a2ad.Control.Finish.{
  is_uncertain, next_health, judged, finish, finish_health, finish_continuation,
  deliver_continuation, finished, get_or, blank_execution,
}

module _ (p : Platform) (env : Env) where
  continuation-healths :
      (id : String) (r : Outcome) (c : String) (s : Store)
      → (finish_continuation p env id r c s).healths ≡ s.healths
  unfolding finish_continuation deliver_continuation append
  continuation-healths id r c s = ground arith

  finish_health-healths :
      (agent : String) (r : Outcome) (s : Store)
      → agent ≢ ""
      → (finish_health p agent r s).healths
        ≡ insert agent (next_health r (health agent s)) s.healths
  unfolding finish_health
  finish_health-healths agent r s named = ground (arith, named, str_eq_iff agent "")

  finish_health-after :
      (id c : String) (r : Outcome) (s t : Store) (agent : String)
      → agent ≢ ""
      → t.healths ≡ s.healths
      → (finish_health p agent r (finish_continuation p env id r c t)).healths
        ≡ insert agent (next_health r (health agent s)) s.healths
  unfolding health
  finish_health-after id c r s t agent named h =
      finish_health-healths agent r (finish_continuation p env id r c t) named
      ∙ ap (λ hs. insert agent (next_health r (health_or agent (lookup agent hs))) hs)
          (continuation-healths id r c t ∙ h)

  finish-healths :
      (id : String) (r : Outcome) (s : Store) (e : Execution)
      → lookup id s.executions ≡ some e
      → e.agent ≢ ""
      → (finish p env id r s).healths ≡ insert e.agent (next_health r (health e.agent s)) s.healths
  unfolding finish append finished
  finish-healths id r s e found named =
      let x = get_or (lookup id s.executions) blank_execution in
      let same : x.agent ≡ e.agent = ap (λ o. (get_or o blank_execution).agent) found in
      finish_health-after id x.continuation_id r s
        (record s { executions = insert id (finished env r x) s.executions }) x.agent
        (λ q. named (sym same ∙ q)) refl
      ∙ ap (λ agent. insert agent (next_health r (health agent s)) s.healths) same

  -- The outcome of an execution that names an agent changes the health of that agent by one step.
  pub finish-health :
      (id : String) (r : Outcome) (s : Store) (e : Execution)
      → lookup id s.executions ≡ some e
      → e.agent ≢ ""
      → health e.agent (finish p env id r s) ≡ next_health r (health e.agent s)
  unfolding health
  finish-health id r s e found named = ground (
    arith,
    finish-healths id r s e found named,
    lookup-insert_self e.agent (next_health r (health e.agent s)) s.healths,
  )

-- An agent that is not quarantined and has at most two failures becomes quarantined exactly when it
-- has two and the outcome is uncertain.
pub next_health-quarantined :
    (r : Outcome) (h : Health)
    → h.quarantined ≡ false
    → h.failures ≤ 2
    → (next_health r h).quarantined ≡ (is_uncertain r.error_kind && leb 2 h.failures)
unfolding next_health judged
next_health-quarantined r h q l = ground (arith, q, l)

-- An outcome never lifts a quarantine.
pub next_health-sticky :
    (r : Outcome) (h : Health) → h.quarantined ≡ true → (next_health r h).quarantined ≡ true
unfolding next_health judged
next_health-sticky r h q = ground (arith, q)
