-- ===== src/Control/Handle/Guarantees.antt =====
-- What a governed dispatch guarantees, in terms of the request and of the tables.
use a2ad.Common.{
  ◌≤◌, String, ◌≡◌, refl, sym, ap, ◌∙◌, ◌≢◌, true, false, ◌||◌, some, [], ◌∷◌, ◌++◌, length,
  length-append, string_eq, lookup, lookup-insert_self, lookup-insert_ne, arith, Bool,
}
use mathlib.Core.Path.{subst}
use a2ad.Control.Records.{
  missing, given, LeaseClaim, Request, EffectSet, Lease, Approval, Execution, dispatching, failed,
  Store, Op, Reply, Effect, submit, respond, stream_submit, cancel, push_create, push_delete,
  artifact_materialize, execute_remote, write_remote, store_external,
}
use a2ad.Control.Exit.{next, required, value, contains}
use a2ad.Control.Names.{mutation, implied_effects, effect_set, op_of}
use a2ad.Control.Audit.{Platform, Env}
use a2ad.Control.Agents.{health}
use a2ad.Control.Checks.{check_lease, check_retry}
use a2ad.Control.Checks.Passed.{
  Holds, Delegates, check_lease-next, check_retry-next, check_quarantine-next, parent_chain-next,
}
use a2ad.Control.Begin.{request_hash, needs_approval, new_execution}
use a2ad.Control.Begin.Admission.{own_link}
use a2ad.Control.Begin.Outcome.{Grants, Starts}
use a2ad.Control.Handle.{Input, reply, dispatch, admit}
use a2ad.Control.Handle.Admits.{AdmitOk, admit-AdmitOk}

-- The effect that an operation has whether or not its request lists it.
abbrev pub always_has : Op → Effect → Bool
always_has submit execute_remote = true
always_has respond execute_remote = true
always_has stream_submit execute_remote = true
always_has cancel write_remote = true
always_has push_create write_remote = true
always_has push_delete write_remote = true
always_has artifact_materialize store_external = true
always_has _ _ = false

implied_effects-always_has :
    (op : Op) (x : Effect) (named : EffectSet)
    → implied_effects op named x ≡ (named x || always_has op x)
unfolding implied_effects
implied_effects-always_has submit execute_remote named = ground arith
implied_effects-always_has submit _ named = ground arith
implied_effects-always_has respond execute_remote named = ground arith
implied_effects-always_has respond _ named = ground arith
implied_effects-always_has stream_submit execute_remote named = ground arith
implied_effects-always_has stream_submit _ named = ground arith
implied_effects-always_has cancel write_remote named = ground arith
implied_effects-always_has cancel _ named = ground arith
implied_effects-always_has push_create write_remote named = ground arith
implied_effects-always_has push_create _ named = ground arith
implied_effects-always_has push_delete write_remote named = ground arith
implied_effects-always_has push_delete _ named = ground arith
implied_effects-always_has artifact_materialize store_external named = ground arith
implied_effects-always_has artifact_materialize _ named = ground arith
implied_effects-always_has _ x named = ground arith

module _ (p : Platform) (env : Env) (input : Input) (s : Store) (id : String) (req : Request)
    (s' : Store) (h : admit p env input s ≡ (dispatch id req, s')) where
  pub dispatch-Starts :
      (op : Op) × (mutation op ≡ true) × (st : Starts p env op req s s') × (st.plan.id ≡ id)
  dispatch-Starts =
      let (op, m, st, same, named) = subst (AdmitOk p env s) h (admit-AdmitOk p env s input) in
      (op, m, st, same)

  -- A mutation that declares effects, or any mutation under an enforced policy, is dispatched only
  -- with an approval under its id that is for this very request, has been given and has not expired.
  pub dispatch_approved :
      p.enforce || contains req.effects ≡ true
      → (a : Approval) × (lookup id s.approvals ≡ some a)
        × Grants env (p.digest (p.dump_request (record req { request_id = missing }))) a
  unfolding needs_approval request_hash
  dispatch_approved governed =
      let (op, m, st, same) = dispatch-Starts in
      let (a, found, grants) = st.granted (ground (arith, governed)) in
      (
        a,
        ground (arith, found, same),
        record {
          same_request = ground (arith, grants.same_request, st.admitted.hash);
          approved = grants.approved;
          until = grants.until;
          expires = grants.expires;
          live = grants.live;
        },
      )

  -- A mutation that presents a lease is dispatched only while the lease of that resource is live and
  -- has the owner, the token and the fencing number that are presented.
  pub dispatch_leased :
      (claim : LeaseClaim)
      → req.lease ≡ given claim
      → (resource : String) × (l : Lease) × (required claim.resource ≡ next resource)
        × (lookup resource s.leases ≡ some l)
        × Holds env.now claim l
  dispatch_leased claim presented =
      let (op, m, st, same) = dispatch-Starts in
      check_lease-next env claim s tt
        (subst (λ f. check_lease env f s ≡ next tt) presented st.admitted.lease)

  -- No mutation for a quarantined agent is dispatched.
  pub dispatch_healthy :
      (agent : String)
      → value req.agent "" ≡ next agent
      → agent ≢ ""
      → (health agent s).quarantined ≡ false
  dispatch_healthy agent names named =
      let (op, m, st, same) = dispatch-Starts in
      let e : st.plan.agent ≡ agent = ground (arith, names, st.admitted.agent_given) in
      check_quarantine-next agent s tt (ground (arith, e, st.admitted.healthy)) named

  -- A mutation that is the child of another execution is dispatched only if that execution may
  -- delegate, its effects cover those of the child, the grants of all its ancestors are live, and the
  -- new chain of identities has no more than 16 links.
  pub dispatch_delegated :
      (parent_id : String)
      → value req.parent_execution_id "" ≡ next parent_id
      → parent_id ≢ ""
      → (parent child : Execution) × (lookup parent_id s.executions ≡ some parent)
        × (lookup id s'.executions ≡ some child)
        × Delegates env.now s child.effects parent
        × (length child.identity_chain ≤ 16)
  unfolding new_execution
  dispatch_delegated parent_id names named =
      let (op, m, st, same) = dispatch-Starts in
      let a = st.admitted in
      let plan = st.plan in
      let e : plan.parent_id ≡ parent_id = ground (arith, names, a.parent_given) in
      let (parent, found, chain, delegates) =
        parent_chain-next env plan.parent_id plan.requested s a.ancestors a.delegation
          (λ q. named (sym e ∙ q)) in
      let grown = length-append parent.identity_chain (own_link plan.agent plan.id ∷ []) in
      (
        parent,
        new_execution p env op plan st.task,
        subst (λ k. lookup k s.executions ≡ some parent) e found,
        ground (
          arith,
          same,
          st.executions,
          lookup-insert_self plan.id (new_execution p env op plan st.task) s.executions,
        ),
        delegates,
        subst (λ l. length l ≤ 16)
            (ap (λ l. l ++ own_link plan.agent plan.id ∷ []) (sym chain) ∙ sym a.chain)
            (omega (arith, grown, delegates.shallow)),
      )

  -- A mutation that retries another execution is dispatched only if that execution has failed.
  pub dispatch_retries :
      (retry_of : String)
      → value req.retry_of "" ≡ next retry_of
      → retry_of ≢ ""
      → (e : Execution) × (lookup retry_of s.executions ≡ some e) × (e.state ≡ failed)
  dispatch_retries retry_of names named =
      let (op, m, st, same) = dispatch-Starts in
      check_retry-next retry_of s tt
        (subst (λ k. check_retry k s ≡ next tt) (ground (arith, names, st.admitted.retry_given))
          st.admitted.retry)
        named

  -- A dispatch is recorded before it is made: under its id stands an execution that is dispatching, is
  -- of the operation that the request names, is bound to the hash of the request, and has exactly the
  -- effects that the request lists and the one that its operation always has: executing for `submit`,
  -- `respond` and `stream_submit`, writing for `cancel`, `push.create` and `push.delete`, storing for
  -- `artifact.materialize`.
  pub dispatch_recorded :
      (name : String) × (e : Execution) × (named : EffectSet) × (value req.op "" ≡ next name)
      × (mutation (op_of name) ≡ true)
      × (lookup id s'.executions ≡ some e)
      × (e.state ≡ dispatching)
      × (e.operation ≡ op_of name)
      × (e.request_sha256 ≡ p.digest (p.dump_request (record req { request_id = missing })))
      × (effect_set req.effects ≡ next named)
      × ((x : Effect) → e.effects x ≡ (named x || always_has (op_of name) x))
  unfolding request_hash new_execution
  dispatch_recorded =
      let (op, m, st, same, (name, given_name, is_op)) =
        subst (AdmitOk p env s) h (admit-AdmitOk p env s input) in
      let e = new_execution p env op st.plan st.task in
      (
        name,
        e,
        st.admitted.named,
        given_name,
        subst (λ o. mutation o ≡ true) (sym is_op) m,
        ground (arith, same, st.executions, lookup-insert_self st.plan.id e s.executions),
        refl,
        sym is_op,
        st.admitted.hash,
        st.admitted.named_given,
        λ x.
            ap (λ effects. effects x) st.admitted.requested
            ∙ implied_effects-always_has op x st.admitted.named
            ∙ ap (λ o. st.admitted.named x || always_has o x) (sym is_op),
      )

  -- A dispatch changes no execution but its own.
  pub dispatch_frame : (k : String) → k ≢ id → lookup k s'.executions ≡ lookup k s.executions
  dispatch_frame k other =
      let (op, m, st, same) = dispatch-Starts in
      let e = new_execution p env op st.plan st.task in
      ground (arith, same, st.executions, lookup-insert_ne st.plan.id k e s.executions, other)

-- A request that is answered without a dispatch, by the policy or by an error, changes no execution.
pub reply_frame :
    (p : Platform) (env : Env) (input : Input) (s s' : Store) (r : Reply)
    → admit p env input s ≡ (reply r, s')
    → s'.executions ≡ s.executions
reply_frame p env input s s' r h = (subst (AdmitOk p env s) h (admit-AdmitOk p env s input)).0
