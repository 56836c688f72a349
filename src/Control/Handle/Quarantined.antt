-- ===== src/Control/Handle/Quarantined.antt =====
-- A quarantine takes effect on the requests that follow.
use a2ad.Common.{◌≤◌, String, ◌≡◌, sym, ◌∙◌, ap, ◌≢◌, true, false, some, lookup, arith}
use a2ad.Control.Records.{Request, Outcome, Execution, Health, Store}
use a2ad.Control.Exit.{next, value}
use a2ad.Control.Audit.{Platform, Env}
use a2ad.Control.Agents.{health}
use a2ad.Control.Finish.{is_uncertain, judged, next_health, finish}
use a2ad.Control.Finish.Quarantine.{finish-health}
use a2ad.Control.Handle.{Input, dispatch, admit}
use a2ad.Control.Handle.Guarantees.{dispatch_healthy}

third_failure :
    (r : Outcome) (h : Health)
    → is_uncertain r.error_kind ≡ true
    → 2 ≤ h.failures
    → (next_health r h).quarantined ≡ true
unfolding next_health judged
third_failure r h u l = ground (arith, u, l)

-- When the outcome of a dispatch is uncertain and its agent has at least two failures on record, no
-- mutation for that agent is dispatched with the tables that this leaves.
pub quarantine_stops :
    (p : Platform) (env later : Env) (id : String) (r : Outcome) (s s' : Store) (e : Execution)
    (input : Input) (k : String) (req : Request)
    → lookup id s.executions ≡ some e
    → e.agent ≢ ""
    → is_uncertain r.error_kind ≡ true
    → 2 ≤ (health e.agent s).failures
    → value req.agent "" ≡ next e.agent
    → admit p later input (finish p env id r s) ≢ (dispatch k req, s')
quarantine_stops p env later id r s s' e input k req found named u l names h =
    let after = finish-health p env id r s e found named in
    let quarantined = ap (λ x. x.quarantined) after ∙ third_failure r (health e.agent s) u l in
    true_ne (
      sym quarantined
      ∙ dispatch_healthy p later input (finish p env id r s) k req s' h e.agent names named)
  where
    true_ne : true ≢ false
    true_ne q = cc
