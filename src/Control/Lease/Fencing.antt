-- ===== src/Control/Lease/Fencing.antt =====
-- Leases exclude one another, and their fences rise.
use a2ad.Common.{
  ℕ, ◌+◌, ◌≤◌, ◌<◌, ◌≡◌, refl, ◌≢◌, ◌⊎◌, inl, inr, Bool-cases, ◌==◌, string_eq, String, false, some,
  lookup, lookup-insert, lookup-insert_self, arith, str_eq_iff,
}
use a2ad.Common.Int.{ℤ, pos, pos_part}
use a2ad.Control.Records.{LeaseOp, acquire, renew, release, Request, Lease, Store, Reply, lease}
use a2ad.Control.Exit.{next, return, required, value, >>=-eq-next, return_if-next, return_if}
use a2ad.Control.Audit.{Platform, Env, append}
use a2ad.Control.Lease.{bad_ttl, lease_busy, grant, held, new_lease, put_lease, lease_op}

-- The parts of a lease operation that succeeds.
module _ (p : Platform) (env : Env) (op : LeaseOp) (req : Request) (s : Store) where
  lease_op-next :
      (r : Reply) (s' : Store)
      → lease_op p env op req s ≡ next (r, s')
      → (resource owner : String) × (ttl : ℤ) × (l : Lease) × (required req.resource
          ≡ next resource)
        × (required req.owner ≡ next owner)
        × (value req.ttl_seconds (pos 60) ≡ next ttl)
        × (bad_ttl ttl ≡ false)
        × (new_lease env op resource owner (pos_part ttl) req (lookup resource s.leases) ≡ next l)
        × (r ≡ lease l)
        × (s' ≡ put_lease p env op resource owner l s)
  unfolding lease_op
  lease_op-next r s' h =
      let (resource, e0, h0) = >>=-eq-next _ _ h in
      let (owner, e1, h1) = >>=-eq-next _ _ h0 in
      let (ttl, e2, h2) = >>=-eq-next _ _ h1 in
      let (u, e3, h3) = >>=-eq-next _ _ h2 in
      let (l, e4, h4) = >>=-eq-next _ _ h3 in
      (
        resource,
        owner,
        ttl,
        l,
        e0,
        e1,
        e2,
        return_if-next _ _ e3,
        e4,
        ground (arith, h4),
        ground (arith, h4),
      )

-- How one lease of a resource follows another: it is the same grant, with another deadline, or a new
-- grant with the next fence, made when the old one had expired.
abbrev pub Follows : ℕ → Lease → Lease → Type 0
Follows now old new =
    ((new.fence ≡ old.fence) × (new.owner ≡ old.owner) × (new.token ≡ old.token))
    ⊎ ((new.fence ≡ old.fence + 1) × (old.expires_at ≤ now))

-- What a caller that may renew or release a lease has shown.
held-eq :
    (env : Env) (owner : String) (req : Request) (old l : Lease)
    → held env owner req.token (some old) ≡ next l
    → (l ≡ old)
      × (env.now < old.expires_at)
      × (old.owner ≡ owner)
      × (required req.token ≡ next old.token)
unfolding held
held-eq env owner req old l h =
    let (u, e0, h0) = >>=-eq-next _ _ h in
    let (t, e1, h1) = >>=-eq-next (required req.token) _ h0 in
    let (v, e2, h2) = >>=-eq-next _ _ h1 in
    let live = return_if-next _ _ e0 in
    let same = return_if-next _ _ e2 in
    (
      ground arith,
      ground (arith, live),
      ground (arith, live, str_eq_iff old.owner owner),
      ground (arith, e1, same, str_eq_iff old.token t),
    )

grant-Follows :
    (env : Env) (resource owner : String) (ttl : ℕ) (old new : Lease)
    → grant env resource owner ttl (some old) ≡ next new
    → Follows env.now old new
unfolding grant return_if
grant-Follows env resource owner ttl old new h = ground arith

new_lease-Follows :
    (env : Env) (op : LeaseOp) (resource owner : String) (ttl : ℕ) (req : Request) (old new : Lease)
    → new_lease env op resource owner ttl req (some old) ≡ next new
    → Follows env.now old new
unfolding new_lease
new_lease-Follows env acquire resource owner ttl req old new h =
    grant-Follows env resource owner ttl old new h
new_lease-Follows env release resource owner ttl req old new h =
    let (l, e, h0) = >>=-eq-next _ _ h in ground (arith, held-eq env owner req old l e)
new_lease-Follows env renew resource owner ttl req old new h =
    let (l, e, h0) = >>=-eq-next _ _ h in ground (arith, held-eq env owner req old l e)

module _ (p : Platform) (env : Env) (op : LeaseOp) (req : Request) (s : Store) where
  -- A lease operation that succeeds leaves every lease with its grant, but for the lease of its
  -- resource, which may become a new grant with the next fence if it had expired.
  pub lease_op-Follows :
      (k : String) (old : Lease) (r : Reply) (s' : Store)
      → lookup k s.leases ≡ some old
      → lease_op p env op req s ≡ next (r, s')
      → (new : Lease) × (lookup k s'.leases ≡ some new) × Follows env.now old new
  unfolding put_lease append
  lease_op-Follows k old r s' found h =
      let (resource, owner, ttl, l, e0, e1, e2, e3, e4, e5, e6) =
        lease_op-next p env op req s r s' h in
      elim (Bool-cases (resource == k)) [
        | inl same ↦ (
          l,
          ground (arith, e6, same, lookup-insert resource k l s.leases),
          new_lease-Follows env op resource owner (pos_part ttl) req old l
              (ground (arith, e4, found, same, str_eq_iff resource k)),
        )
        | inr other ↦ (
          old,
          ground (arith, e6, other, found, lookup-insert resource k l s.leases),
          inl (refl, refl, refl),
        )
      ]

-- An acquisition of a resource with a live lease is refused.
pub acquire_live :
    (p : Platform) (env : Env) (req : Request) (s : Store) {resource owner : String} {ttl : ℤ}
    {old : Lease}
    → required req.resource ≡ next resource
    → required req.owner ≡ next owner
    → value req.ttl_seconds (pos 60) ≡ next ttl
    → bad_ttl ttl ≡ false
    → lookup resource s.leases ≡ some old
    → env.now < old.expires_at
    → lease_op p env acquire req s ≡ return lease_busy
unfolding lease_op new_lease grant return_if
acquire_live p env req s e0 e1 e2 e3 e4 live = rw (e0, e1, e2, e3, e4) (ground arith)

-- The lease that a successful `lease.release` leaves behind has expired.
release-expires :
    (p : Platform) (env : Env) (req : Request) (s s' : Store) (r : Reply)
    → lease_op p env release req s ≡ next (r, s')
    → (resource : String) × (l : Lease) × (required req.resource ≡ next resource)
      × (lookup resource s'.leases ≡ some l)
      × (l.expires_at ≡ env.now)
unfolding put_lease append new_lease
release-expires p env req s s' r h =
    let (resource, owner, ttl, l, e0, e1, e2, e3, e4, e5, e6) =
      lease_op-next p env release req s r s' h in
    let (old, f, g) = >>=-eq-next (held env owner req.token (lookup resource s.leases)) _ e4 in
    (resource, l, e0, ground (arith, e6, lookup-insert_self resource l s.leases), ground (arith, g))

-- A lease cannot be renewed or released that does not exist or has expired.
held_expired :
    (env : Env) (op : LeaseOp) (resource owner : String) (ttl : ℕ) (req : Request) (old l : Lease)
    → op ≢ acquire
    → old.expires_at ≤ env.now
    → new_lease env op resource owner ttl req (some old) ≢ next l
unfolding new_lease
held_expired env acquire resource owner ttl req old l other late h = absurd (other refl)
held_expired env renew resource owner ttl req old l other late h =
    let (o, e, g) = >>=-eq-next (held env owner req.token (some old)) _ h in
    absurd (omega (arith, (held-eq env owner req old o e).1))
held_expired env release resource owner ttl req old l other late h =
    let (o, e, g) = >>=-eq-next (held env owner req.token (some old)) _ h in
    absurd (omega (arith, (held-eq env owner req old o e).1))

-- After a successful release, at no later time can the lease of that resource be renewed or released
-- again: it must be acquired anew.
pub release_ends :
    (p : Platform) (env env' : Env) (req req' : Request) (s s' : Store) (r : Reply) (op : LeaseOp)
    (x : Reply × Store)
    → lease_op p env release req s ≡ next (r, s')
    → env.now ≤ env'.now
    → req'.resource ≡ req.resource
    → op ≢ acquire
    → lease_op p env' op req' s' ≢ next x
release_ends p env env' req req' s s' r op x h later same other h' =
    let (resource, l, e, found, expired) = release-expires p env req s s' r h in
    let (k, owner, ttl, new, e0, e1, e2, e3, e4, e5, e6) =
      lease_op-next p env' op req' s' x.0 x.1 h' in
    let k-eq : k ≡ resource = ground (arith, e0, e, same) in
    held_expired env' op k owner (pos_part ttl) req' l new other (omega (arith, expired))
      (ground (arith, e4, found, k-eq))
