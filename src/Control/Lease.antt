-- ===== src/Control/Lease.antt =====
-- daemon/src/ControlPlane.cpp: `lease.acquire`, `lease.renew` and `lease.release`.
use a2ad.Common.{
  ℕ, suc, ◌+◌, ◌-◌, String, Bool, true, false, ◌||◌, not, Option, none, some, ◌==◌, string_eq,
  if◌then◌else◌, leb, ltb, lookup, insert,
}
use a2ad.Common.Int.{ℤ, pos, ltb_ℤ, pos_part}
use a2ad.Control.Records.{
  Field, LeaseOp, acquire, renew, release, Request, LeaseClaim, Lease, Store, Reply, failure, lease,
  lease_changed,
}
use a2ad.Control.Exit.{Exit, next, return, throw, ◌>>=◌, ◌>>◌, return_if, value, at, required}
use a2ad.Control.Audit.{Platform, Env, append}
pub mod Fencing

-- `ttl < 1 || ttl > 3600`
abbrev pub bad_ttl : ℤ → Bool
bad_ttl ttl = ltb_ℤ ttl (pos 1) || ltb_ℤ (pos 3600) ttl

abbrev pub lease_busy : Reply
lease_busy = failure "lease_busy" "resource already has a live lease"

abbrev pub lease_lost : Reply
lease_lost = failure "lease_lost" "lease expired or owner/token mismatch"

-- The new lease of `lease.acquire`: the fence goes up by one at each grant.
unfoldable pub grant : Env → String → String → ℕ → Option Lease → Exit Lease
grant env resource owner ttl none = next (record {
  resource = resource;
  owner = owner;
  token = env.fresh;
  fence = 1;
  expires_at = env.now + ttl;
})
grant env resource owner ttl (some old) = do
  return_if (ltb env.now old.expires_at) lease_busy
  next (record {
    resource = resource;
    owner = owner;
    token = env.fresh;
    fence = old.fence + 1;
    expires_at = env.now + ttl;
  })

-- The lease that `lease.renew` or `lease.release` is about, if the caller holds it.
unfoldable pub held : Env → String → Field String → Option Lease → Exit Lease
held env owner token none = return lease_lost
held env owner token (some old) = do
  return_if (leb old.expires_at env.now || not (old.owner == owner)) lease_lost
  t ← required token
  return_if (not (old.token == t)) lease_lost
  next old

unfoldable pub new_lease : Env → LeaseOp → String → String → ℕ → Request → Option Lease → Exit Lease
new_lease env acquire resource owner ttl req old = grant env resource owner ttl old
new_lease env release resource owner ttl req old = do
  l ← held env owner req.token old
  next (record l { expires_at = env.now })
new_lease env renew resource owner ttl req old = do
  l ← held env owner req.token old
  next (record l { expires_at = env.now + ttl })

module _ (p : Platform) where
  unfoldable pub put_lease : Env → LeaseOp → String → String → Lease → Store → Store
  put_lease env op resource owner l s =
      append p env (lease_changed op resource owner l.fence)
        (record s { leases = insert resource l s.leases })

  unfoldable pub lease_op : Env → LeaseOp → Request → Store → Exit (Reply × Store)
  lease_op env op req s = do
    resource ← required req.resource
    owner ← required req.owner
    ttl ← value req.ttl_seconds (pos 60)
    return_if (bad_ttl ttl) (failure "invalid_request" "ttl_seconds must be 1..3600")
    l ← new_lease env op resource owner (pos_part ttl) req (lookup resource s.leases)
    next (lease l, put_lease env op resource owner l s)
