-- ===== src/Control/Approval/Decisions.antt =====
-- An approval is decided once, and a revocation is final.
use a2ad.Common.{
  String, ◌≡◌, refl, sym, ◌∙◌, ◌+◌, ◌≢◌, Bool, true, false, Option, none, some, lookup,
  lookup-insert_self, arith,
}
use mathlib.Core.Path.{subst}
use a2ad.Common.Int.{ℤ, pos, pos_part}
use a2ad.Control.Records.{Request, Approval, ApprovalState, Store, Reply, failure}
use a2ad.Control.Exit.{next, return, >>=-eq-next, return_if-next, return_if, value, required}
use a2ad.Control.Audit.{Platform, Env, append}
use a2ad.Control.Lease.{bad_ttl}
use a2ad.Control.Approval.{known_approval, undecided, allowed, verdict, revoke, decide}

known_approval-next : (o : Option Approval) (a : Approval) → known_approval o ≡ next a → o ≡ some a
unfolding known_approval
known_approval-next none a h = cc
known_approval-next (some b) a h = ground arith

undecided-next :
    (st : ApprovalState) (u : Unit {0}) → undecided st ≡ next u → st ≡ ApprovalState.pending
unfolding undecided
undecided-next ApprovalState.pending u h = refl
undecided-next _ u h = cc

decided :
    (st : ApprovalState)
    → st ≢ ApprovalState.pending
    → undecided st ≡ return (failure "conflict" "approval already decided")
unfolding undecided
decided ApprovalState.pending h = absurd (h refl)
decided _ h = refl

verdict-ne : (b : Bool) → verdict b ≢ ApprovalState.pending
verdict-ne true h = cc
verdict-ne false h = cc

module _ (p : Platform) where
  -- A decision is made on a pending approval: afterwards it is approved or denied as the owner says,
  -- for the seconds that were asked for, at most an hour.
  pub decide-next :
      (env : Env) (req : Request) (s s' : Store) (r : Reply)
      → decide p env req s ≡ next (r, s')
      → (id : String) × (a a' : Approval) × (allow : Bool) × (ttl : ℤ) × (required req.id ≡ next id)
        × (lookup id s.approvals ≡ some a)
        × (a.state ≡ ApprovalState.pending)
        × (allowed req.allow ≡ next allow)
        × (value req.ttl_seconds (pos 300) ≡ next ttl)
        × (bad_ttl ttl ≡ false)
        × (lookup id s'.approvals ≡ some a')
        × (a'.state ≡ verdict allow)
        × (a'.expires_at ≡ some (env.now + pos_part ttl))
        × (a'.request_sha256 ≡ a.request_sha256)
  unfolding decide append
  decide-next env req s s' r h =
      let (id, e0, h0) = >>=-eq-next (required req.id) _ h in
      let (a, e1, h1) = >>=-eq-next (known_approval (lookup id s.approvals)) _ h0 in
      let (u, e2, h2) = >>=-eq-next (undecided a.state) _ h1 in
      let (allow, e3, h3) = >>=-eq-next (allowed req.allow) _ h2 in
      let (ttl, e4, h4) = >>=-eq-next (value req.ttl_seconds (pos 300)) _ h3 in
      let (v, e5, h5) = >>=-eq-next (return_if (bad_ttl ttl) _) _ h4 in
      let (reason, e6, h6) = >>=-eq-next (value req.reason "") _ h5 in
      let a' : Approval = record a {
        state = verdict allow;
        expires_at = some (env.now + pos_part ttl);
        reason = some reason;
      } in
      (
        id,
        a,
        a',
        allow,
        ttl,
        e0,
        known_approval-next _ a e1,
        undecided-next a.state u e2,
        e3,
        e4,
        return_if-next _ _ e5,
        ground (arith, h6, lookup-insert_self id a' s.approvals),
        refl,
        refl,
        refl,
      )

  decide_conflict :
      (env : Env) (req : Request) (s : Store) (id : String) (a : Approval)
      → required req.id ≡ next id
      → lookup id s.approvals ≡ some a
      → a.state ≢ ApprovalState.pending
      → decide p env req s ≡ return (failure "conflict" "approval already decided")
  unfolding decide known_approval
  decide_conflict env req s id a e found late = rw (e, found, decided a.state late) refl

  -- An approval on which a decision has succeeded cannot be decided again with the tables that this
  -- leaves.
  pub decide_once :
      (env env' : Env) (req req' : Request) (s s' : Store) (r : Reply)
      → decide p env req s ≡ next (r, s')
      → req'.id ≡ req.id
      → decide p env' req' s' ≡ return (failure "conflict" "approval already decided")
  decide_once env env' req req' s s' r h same =
      let (id, a, a', allow, ttl, e0, e1, e2, e3, e4, e5, found, state, expiry, hash) =
        decide-next env req s s' r h in
      decide_conflict env' req' s' id a' (subst (λ f. required f ≡ next id) (sym same) e0) found
        (λ q. verdict-ne allow (sym state ∙ q))

  pub revoke-next :
      (env : Env) (req : Request) (s s' : Store) (r : Reply)
      → revoke p env req s ≡ next (r, s')
      → (id : String) × (a' : Approval) × (required req.id ≡ next id)
        × (lookup id s'.approvals ≡ some a')
        × (a'.state ≡ ApprovalState.revoked)
  unfolding revoke append
  revoke-next env req s s' r h =
      let (id, e0, h0) = >>=-eq-next (required req.id) _ h in
      let (a, e1, h1) = >>=-eq-next (known_approval (lookup id s.approvals)) _ h0 in
      let a' : Approval = record a { state = ApprovalState.revoked } in
      (id, a', e0, ground (arith, h1, lookup-insert_self id a' s.approvals), refl)
