-- ===== src/Control/Begin/Outcome.antt =====
-- What `begin` leaves behind: a refusal touches no execution; a start has passed every check, has an
-- approval where one is needed, and has recorded one execution.
use a2ad.Common.{
  ℕ, ◌<◌, String, ◌≡◌, refl, ◌≢◌, Bool, true, false, Option, none, some, string_eq, str_eq_iff,
  lookup, insert, arith,
}
use a2ad.Control.Records.{Op, Request, Store, Approval, ApprovalState}
use a2ad.Control.Exit.{
  Exit, next, return, throw, ◌>>=◌, return_if-next, Ensures, on_next, on_return, on_throw,
  Ensures-bind_eq, Ensures-bind_ensured, value, >>=-eq-next,
}
use a2ad.Control.Audit.{Platform, Env, append}
use a2ad.Control.Audit.Log.{Logged, Logged-same, Logged-append}
use a2ad.Control.Begin.{
  Plan, plan_of, Begun, refused, started, after_writes, approved_or, expiry, check_approval,
  approval_for, pending_approval, fresh_approval, put_pending, new_execution, start, needs_approval,
  with_approval, begin,
}
use a2ad.Control.Begin.Admission.{Admitted, plan_of-Admitted}

-- An approval of this very request, approved and not expired.
pub record Grants (env : Env) (hash : String) (a : Approval) : Type 0 where
  pub same_request : a.request_sha256 ≡ hash
  pub approved : a.state ≡ ApprovalState.approved
  pub until : ℕ
  pub expires : a.expires_at ≡ some until
  pub live : env.now < until

approved_or-next :
    (a : Approval) (st : ApprovalState) (u : Unit {0})
    → approved_or a st ≡ next u
    → st ≡ ApprovalState.approved
unfolding approved_or
approved_or-next a ApprovalState.approved u h = refl
approved_or-next a _ u h = cc

expiry-next : (o : Option ℕ) (t : ℕ) → expiry o ≡ next t → o ≡ some t
unfolding expiry
expiry-next none t h = cc
expiry-next (some x) t h = ground arith

pub check_approval-next :
    (env : Env) (hash : String) (a : Approval) (w : Unit {0})
    → check_approval env hash a ≡ next w
    → Grants env hash a
unfolding check_approval
check_approval-next env hash a w h =
    let (u, e0, h0) = >>=-eq-next _ _ h in
    let (v, e1, h1) = >>=-eq-next (approved_or a a.state) _ h0 in
    let (t, e2, h2) = >>=-eq-next (expiry a.expires_at) _ h1 in
    record {
      same_request = ground (arith, return_if-next _ _ e0, str_eq_iff a.request_sha256 hash);
      approved = approved_or-next a a.state v e1;
      until = t;
      expires = expiry-next a.expires_at t e2;
      live = ground (arith, return_if-next _ _ h2);
    }

pending_not_approved : ApprovalState.pending ≢ ApprovalState.approved
pending_not_approved h = cc

module _ (p : Platform) (env : Env) (op : Op) (req : Request) (s : Store) where
  -- The store after a start: the new execution, and an approval where one was needed.
  pub record Starts (s' : Store) : Type 0 where
    pub plan : Plan
    pub admitted : Admitted p env op req s plan
    pub task : String
    pub executions : s'.executions ≡ insert plan.id (new_execution p env op plan task) s.executions
    pub approvals : s'.approvals ≡ s.approvals
    pub granted :
        needs_approval p req plan ≡ true
        → (a : Approval) × (lookup plan.id s.approvals ≡ some a) × Grants env plan.hash a
    pub log : Logged p s s'

  abbrev pub BegunOk : Begun → Type 0
  BegunOk (refused r s') = (s'.executions ≡ s.executions) × Logged p s s'
  BegunOk (started s') = Starts s'

  start-BegunOk :
      (plan : Plan)
      → Admitted p env op req s plan
      → (needs_approval p req plan ≡ true
          → (a : Approval) × (lookup plan.id s.approvals ≡ some a) × Grants env plan.hash a)
      → Ensures BegunOk (start p env op req plan s)
  unfolding start append
  start-BegunOk plan h g = Ensures-bind_eq (value req.task_id "") _ (λ task e. on_next (record {
    plan = plan;
    admitted = h;
    task = task;
    executions = refl;
    approvals = refl;
    granted = g;
    log = Logged-append p env _ s _ refl;
  }))

  after_writes-BegunOk :
      (plan : Plan) (a : Approval) (s' : Store) (m : Exit (Unit {0}))
      → Admitted p env op req s plan
      → s'.executions ≡ s.executions
      → Logged p s s'
      → (m ≡ next tt → Ensures BegunOk (start p env op req plan s'))
      → Ensures BegunOk (after_writes s' m (start p env op req plan s'))
  unfolding after_writes
  after_writes-BegunOk plan a s' (next u) h e l k = k refl
  after_writes-BegunOk plan a s' (return r) h e l k = on_next (e, l)
  after_writes-BegunOk plan a s' (throw x) h e l k = on_throw

  -- A pending approval is written, and the request is refused.
  pending-BegunOk :
      (plan : Plan) (m : Exit String)
      → Admitted p env op req s plan
      → Ensures BegunOk (
          (m >>= λ task. next (fresh_approval p env op plan s task)) >>= λ (a, s').
          after_writes s' (check_approval env plan.hash a) (start p env op req plan s'))
  unfolding put_pending append
  pending-BegunOk plan (return r) h = on_return
  pending-BegunOk plan (throw x) h = on_throw
  pending-BegunOk plan (next task) h =
      let a = pending_approval p env op plan task in
      after_writes-BegunOk plan a (put_pending p env plan a s) (check_approval env plan.hash a) h
        refl (Logged-append p env _ s _ refl)
        (λ m. absurd (pending_not_approved (check_approval-next env plan.hash a tt m).approved))

  with_approval-BegunOk :
      (plan : Plan) (found : Option Approval)
      → Admitted p env op req s plan
      → lookup plan.id s.approvals ≡ found
      → Ensures BegunOk (
          approval_for p env op req plan s found >>= λ (a, s').
          after_writes s' (check_approval env plan.hash a) (start p env op req plan s'))
  unfolding approval_for
  with_approval-BegunOk plan (some a) h e =
      after_writes-BegunOk plan a s _ h refl (Logged-same p s s refl)
        λ m. start-BegunOk plan h (λ n. (a, e, check_approval-next env plan.hash a tt m))
  with_approval-BegunOk plan none h e = pending-BegunOk plan (value req.task_id "") h

  gate-BegunOk :
      (plan : Plan) (b : Bool)
      → Admitted p env op req s plan
      → needs_approval p req plan ≡ b
      → Ensures BegunOk
          (elim b [ true ↦ with_approval p env op req plan s | false ↦ start p env op req plan s ])
  unfolding with_approval
  gate-BegunOk plan true h e = with_approval-BegunOk plan (lookup plan.id s.approvals) h refl
  gate-BegunOk plan false h e = start-BegunOk plan h (λ n. cc)

  -- A refusal of `begin` leaves the executions alone. A start has passed every check; if an approval
  -- is needed, there is one for this very request that is approved and has not expired; and the only
  -- new execution is that of the request.
  pub begin-BegunOk : Ensures BegunOk (begin p env op req s)
  unfolding begin
  begin-BegunOk =
      Ensures-bind_ensured (plan_of p env op req s) _ plan_of-Admitted'
        (λ plan h. gate-BegunOk plan (needs_approval p req plan) h refl)
    where
      plan_of-Admitted' : Ensures (Admitted p env op req s) (plan_of p env op req s)
      plan_of-Admitted' = plan_of-Admitted p env op req s
