-- ===== src/Control/Handle/Revocation.antt =====
-- A revoked approval stops the request that it was for, and all that was delegated under it.
use a2ad.Common.{
  ℕ, String, ◌≡◌, sym, ◌∙◌, ap, ◌≢◌, true, ◌||◌, some, List, [], ◌∷◌, lookup, arith, ◌⊎◌, inl, inr,
}
use mathlib.Core.Path.{subst}
use mathlib.Core.Option.{some-injective}
use a2ad.Control.Records.{Request, Approval, ApprovalState, Link, Execution, Store, Reply}
use a2ad.Control.Exit.{next, required, value, contains}
use a2ad.Control.Audit.{Platform, Env}
use a2ad.Control.Approval.{revoke}
use a2ad.Control.Approval.Decisions.{revoke-next}
use a2ad.Control.Checks.Passed.{AllLive}
use a2ad.Control.Handle.{Input, dispatch, admit}
use a2ad.Control.Handle.Guarantees.{dispatch_approved, dispatch_delegated}

-- An execution of the chain has the id `id`.
abbrev pub Involves : String → List Link → Type 0
Involves id [] = ⊥
Involves id (l ∷ chain) = (l.execution_id ≡ id) ⊎ Involves id chain

revoked_not_approved : ApprovalState.revoked ≢ ApprovalState.approved
revoked_not_approved h = cc

revoked_only :
    (s : Store) (id : String) (a b : Approval)
    → lookup id s.approvals ≡ some a
    → a.state ≡ ApprovalState.revoked
    → lookup id s.approvals ≡ some b
    → b.state ≢ ApprovalState.approved
revoked_only s id a b found state again approved =
    revoked_not_approved
      (sym state ∙ ap (λ x. x.state) (some-injective _ _ (sym found ∙ again)) ∙ approved)

revoked_chain :
    (now : ℕ) (s : Store) (id : String) (a : Approval) (chain : List Link)
    → lookup id s.approvals ≡ some a
    → a.state ≡ ApprovalState.revoked
    → AllLive now s chain
    → Involves id chain
    → ⊥
revoked_chain now s id a [] found state live i = i
revoked_chain now s id a (l ∷ chain) found state ((b, again, is_live), live) (inl same) =
    revoked_only s id a b found state (subst (λ k. lookup k s.approvals ≡ some b) same again)
      is_live.approved
revoked_chain now s id a (l ∷ chain) found state (first, live) (inr i) =
    revoked_chain now s id a chain found state live i

module _ (p : Platform) (env later : Env) (req : Request) (s s1 s2 : Store) (r : Reply)
    (id : String) (input : Input) (child_id : String) (child : Request) where
  -- With the tables that a revocation leaves, no governed mutation is dispatched under the id of the
  -- approval.
  pub revoke_stops :
      revoke p env req s ≡ next (r, s1)
      → required req.id ≡ next id
      → p.enforce || contains child.effects ≡ true
      → admit p later input s1 ≡ (dispatch child_id child, s2)
      → child_id ≢ id
  revoke_stops h named governed h' same =
      let (k, a, e, found, state) = revoke-next p env req s s1 r h in
      let (b, again, grants) = dispatch_approved p later input s1 child_id child s2 h' governed in
      let i : k ≡ child_id = ground (arith, e, named, same) in
      revoked_only s1 child_id a b (subst (λ x. lookup x s1.approvals ≡ some a) i found) state again
        grants.approved

  -- With the tables that a revocation leaves, no child is dispatched of an execution that has been
  -- delegated, at any depth, by the one that the approval was for.
  pub revoke_cascades :
      (parent_id : String) (parent : Execution)
      → revoke p env req s ≡ next (r, s1)
      → required req.id ≡ next id
      → lookup parent_id s1.executions ≡ some parent
      → Involves id parent.identity_chain
      → value child.parent_execution_id "" ≡ next parent_id
      → parent_id ≢ ""
      → admit p later input s1 ≢ (dispatch child_id child, s2)
  revoke_cascades parent_id parent h named found involved given nonempty h' =
      let (k, a, e, found_a, state) = revoke-next p env req s s1 r h in
      let (parent', new, found', found_new, d, depth) =
        dispatch_delegated p later input s1 child_id child s2 h' parent_id given nonempty in
      let i : k ≡ id = ground (arith, e, named) in
      let same : parent' ≡ parent = some-injective _ _ (sym found' ∙ found) in
      revoked_chain later.now s1 id a parent.identity_chain
        (subst (λ x. lookup x s1.approvals ≡ some a) i found_a) state
        (subst (λ x. AllLive later.now s1 x.identity_chain) same d.ancestors) involved
