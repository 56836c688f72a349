-- ===== src/Control/Checks/Passed.antt =====
-- What each check of `begin` has established when it passes.
use a2ad.Common.{
  ℕ, ◌<◌, String, ◌≡◌, refl, ◌≢◌, true, false, not, Option, none, some, List, [], ◌∷◌, length, ltb,
  leb, ◌==◌, string_eq, nat_eq, str_eq_iff, lookup, arith,
}
use a2ad.Control.Records.{
  given, LeaseClaim, Effect, EffectSet, delegate, Link, Lease, Approval, ApprovalState, Execution,
  ExecutionState, failed, Store,
}
use a2ad.Control.Exit.{next, return, return_if, return_if-next, >>=-eq-next, required, at}
use a2ad.Control.Names.{includes_mem}
use a2ad.Control.Audit.{Env}
use a2ad.Control.Agents.{health}
use a2ad.Control.Checks.{
  invalid_retry, match_lease, check_lease, failed_execution, check_retry, check_quarantine,
  live_grant, check_ancestors, delegated, parent_chain,
}

-- An approval that has been given and has not expired.
pub record IsLive (now : ℕ) (a : Approval) : Type 0 where
  pub approved : a.state ≡ ApprovalState.approved
  pub until : ℕ
  pub expires : a.expires_at ≡ some until
  pub live : now < until

-- The lease of the resource that a claim names: live, and the claim's own.
pub record Holds (now : ℕ) (claim : LeaseClaim) (l : Lease) : Type 0 where
  pub live : now < l.expires_at
  pub owner : required claim.owner ≡ next l.owner
  pub token : required claim.token ≡ next l.token
  pub fence : at claim.fence ≡ next l.fence

match_lease-next :
    (env : Env) (claim : LeaseClaim) (l : Lease) (u : Unit {0})
    → match_lease env claim (some l) ≡ next u
    → Holds env.now claim l
unfolding match_lease
match_lease-next env claim l u h =
    let (u0, e0, h0) = >>=-eq-next (return_if (leb l.expires_at env.now) _) _ h in
    let (owner, e1, h1) = >>=-eq-next (required claim.owner) _ h0 in
    let (u2, e2, h2) = >>=-eq-next (return_if (not (l.owner == owner)) _) _ h1 in
    let (token, e3, h3) = >>=-eq-next (required claim.token) _ h2 in
    let (u4, e4, h4) = >>=-eq-next (return_if (not (l.token == token)) _) _ h3 in
    let (fence, e5, h5) = >>=-eq-next (at claim.fence) _ h4 in
    record {
      live = ground (arith, return_if-next _ _ e0);
      owner = ground (arith, e1, return_if-next _ _ e2, str_eq_iff l.owner owner);
      token = ground (arith, e3, return_if-next _ _ e4, str_eq_iff l.token token);
      fence = ground (arith, e5, return_if-next _ _ h5);
    }

match_lease-none :
    (env : Env) (claim : LeaseClaim) (u : Unit {0}) → match_lease env claim none ≢ next u
unfolding match_lease
match_lease-none env claim u h = cc

found_lease :
    (env : Env) (claim : LeaseClaim) (o : Option Lease) (u : Unit {0})
    → match_lease env claim o ≡ next u
    → (l : Lease) × (o ≡ some l) × Holds env.now claim l
found_lease env claim none u h = absurd (match_lease-none env claim u h)
found_lease env claim (some l) u h = (l, refl, match_lease-next env claim l u h)

pub check_lease-next :
    (env : Env) (claim : LeaseClaim) (s : Store) (u : Unit {0})
    → check_lease env (given claim) s ≡ next u
    → (resource : String) × (l : Lease) × (required claim.resource ≡ next resource)
      × (lookup resource s.leases ≡ some l)
      × Holds env.now claim l
unfolding check_lease at
check_lease-next env claim s u h =
    let (resource, e, h0) = >>=-eq-next (required claim.resource) _ h in
    let (l, found, holds) = found_lease env claim (lookup resource s.leases) u h0 in
    (resource, l, e, found, holds)

failed_execution-next :
    (o : Option Execution) (u : Unit {0})
    → failed_execution o ≡ next u
    → (e : Execution) × (o ≡ some e) × (e.state ≡ failed)
unfolding failed_execution
failed_execution-next none u h = cc
failed_execution-next (some e) u h = (e, refl, go e.state h)
  where
    go :
        (st : ExecutionState)
        → elim st [ failed ↦ next tt | _ ↦ return invalid_retry ] ≡ next u
        → st ≡ failed
    go failed k = refl
    go _ k = cc

pub check_retry-next :
    (id : String) (s : Store) (u : Unit {0})
    → check_retry id s ≡ next u
    → id ≢ ""
    → (e : Execution) × (lookup id s.executions ≡ some e) × (e.state ≡ failed)
unfolding check_retry
check_retry-next id s u h named =
    failed_execution-next (lookup id s.executions) u (ground (arith, h, named, str_eq_iff id ""))

pub check_quarantine-next :
    (agent : String) (s : Store) (u : Unit {0})
    → check_quarantine agent s ≡ next u
    → agent ≢ ""
    → (health agent s).quarantined ≡ false
unfolding check_quarantine
check_quarantine-next agent s u h named =
    ground (arith, return_if-next _ _ h, named, str_eq_iff agent "")

pub live_grant-IsLive :
    (now : ℕ) (o : Option Approval)
    → live_grant now o ≡ true
    → (a : Approval) × (o ≡ some a) × IsLive now a
unfolding live_grant
live_grant-IsLive now none h = cc
live_grant-IsLive now (some a) h = (a, refl, by_state a.state a.expires_at refl refl h)
  where
    by_expiry :
        (t : Option ℕ)
        → a.state ≡ ApprovalState.approved
        → a.expires_at ≡ t
        → elim t [ none ↦ false | some x ↦ ltb now x ] ≡ true
        → IsLive now a
    by_expiry none e f k = cc
    by_expiry (some x) e f k = record {
      approved = e;
      until = x;
      expires = f;
      live = ground (arith, k);
    }

    by_state :
        (st : ApprovalState) (t : Option ℕ)
        → a.state ≡ st
        → a.expires_at ≡ t
        → elim st [
          | ApprovalState.approved ↦ elim t [ none ↦ false | some x ↦ ltb now x ]
          | _ ↦ false
        ]
          ≡ true
        → IsLive now a
    by_state ApprovalState.approved t e f k = by_expiry t e f k
    by_state _ t e f k = cc

-- The grant of each execution of a chain is live.
abbrev pub AllLive : ℕ → Store → List Link → Type 0
AllLive now s [] = Unit
AllLive now s (l ∷ chain) =
    ((a : Approval) × (lookup l.execution_id s.approvals ≡ some a) × IsLive now a)
    × AllLive now s chain

pub check_ancestors-AllLive :
    (now : ℕ) (chain : List Link) (s : Store) (u : Unit {0})
    → check_ancestors now chain s ≡ next u
    → AllLive now s chain
unfolding check_ancestors
check_ancestors-AllLive now [] s u h = tt
check_ancestors-AllLive now (l ∷ chain) s u h =
    let (v, e, h0) = >>=-eq-next (return_if _ _) _ h in
    (
      live_grant-IsLive now (lookup l.execution_id s.approvals)
          (ground (arith, return_if-next _ _ e)),
      check_ancestors-AllLive now chain s u h0,
    )

-- A parent that may delegate the effects `requested`.
pub record Delegates (now : ℕ) (s : Store) (requested : EffectSet) (parent : Execution)
    : Type 0 where
  pub delegates : parent.effects delegate ≡ true
  pub covers : (e : Effect) → requested e ≡ true → parent.effects e ≡ true
  pub ancestors : AllLive now s parent.identity_chain
  pub shallow : length parent.identity_chain < 16

delegated-next :
    (env : Env) (requested : EffectSet) (s : Store) (o : Option Execution) (chain : List Link)
    → delegated env requested s o ≡ next chain
    → (parent : Execution) × (o ≡ some parent)
      × (chain ≡ parent.identity_chain)
      × Delegates env.now s requested parent
unfolding delegated
delegated-next env requested s none chain h = cc
delegated-next env requested s (some parent) chain h =
    let (u0, e0, h0) = >>=-eq-next (return_if _ _) _ h in
    let (u1, e1, h1) = >>=-eq-next (check_ancestors env.now parent.identity_chain s) _ h0 in
    let (u2, e2, h2) = >>=-eq-next (return_if _ _) _ h1 in
    let permitted = return_if-next _ _ e0 in
    (
      parent,
      refl,
      ground (arith, h2),
      record {
        delegates = ground (arith, permitted);
        covers = λ e m. includes_mem parent.effects requested e (ground (arith, permitted)) m;
        ancestors = check_ancestors-AllLive env.now parent.identity_chain s u1 e1;
        shallow = ground (arith, return_if-next _ _ e2);
      },
    )

pub parent_chain-next :
    (env : Env) (parent_id : String) (requested : EffectSet) (s : Store) (chain : List Link)
    → parent_chain env parent_id requested s ≡ next chain
    → parent_id ≢ ""
    → (parent : Execution) × (lookup parent_id s.executions ≡ some parent)
      × (chain ≡ parent.identity_chain)
      × Delegates env.now s requested parent
unfolding parent_chain
parent_chain-next env parent_id requested s chain h named =
    delegated-next env requested s (lookup parent_id s.executions) chain
      (ground (arith, h, named, str_eq_iff parent_id ""))
