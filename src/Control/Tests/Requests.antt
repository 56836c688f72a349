-- ===== src/Control/Tests/Requests.antt =====
-- The theorems on governed requests, applied to a child execution that retries a failed attempt under
-- a lease.
use a2ad.Common.{
  ◌≤◌, String, ◌≡◌, refl, ◌≢◌, inl, true, if◌then◌else◌, some, [], length, lookup, string_eq,
  texts_differ, arith, ◌||◌,
}
use a2ad.Control.Records.{
  given, EffectSet, Lease, Approval, Execution, dispatching, outcome, outcome_uncertain, Effect,
}
use a2ad.Control.Exit.{next, required, bounded_text, value, contains}
use a2ad.Control.Names.{op_of, mutation, effect_set}
use a2ad.Control.Audit.{append}
use a2ad.Control.Agents.{health}
use a2ad.Control.Approval.{revoke, known_approval}
use a2ad.Control.Checks.Passed.{Holds, Delegates}
use a2ad.Control.Begin.{request_hash}
use a2ad.Control.Begin.Outcome.{Grants}
use a2ad.Control.Finish.{is_uncertain, finish}
use a2ad.Control.Handle.{object, dispatch, answered, admit, bad_digest, outcome_of, settle, handle}
use a2ad.Control.Handle.Guarantees.{
  dispatch_approved, dispatch_leased, dispatch_delegated, dispatch_recorded, always_has,
}
use a2ad.Control.Handle.Replay.{replay_same}
use a2ad.Control.Handle.Settled.{dispatch_replayed}
use a2ad.Control.Handle.Revocation.{revoke_stops, revoke_cascades}
use a2ad.Control.Handle.Quarantined.{quarantine_stops}
use a2ad.Control.Tests.{
  platform, at_ten, claim, solo, after_solo, solo_dispatched, revoke_parent, after_revoke,
  revoked_reply, parent_revoked, busy, office, child, after_child, child_dispatched, sent,
  unreachable, always_sent, parent_execution, failed_attempt,
}

dispatch_approved_example :
    (a : Approval) × (lookup "child" office.approvals ≡ some a) × Grants at_ten "say hello" a
unfolding contains
dispatch_approved_example =
    dispatch_approved platform at_ten (object child) office "child" child after_child
      child_dispatched refl

dispatch_leased_example :
    (resource : String) × (l : Lease) × (required claim.resource ≡ next resource)
    × (lookup resource office.leases ≡ some l)
    × Holds 10 claim l
dispatch_leased_example =
    dispatch_leased platform at_ten (object child) office "child" child after_child child_dispatched
      claim refl

dispatch_delegated_example :
    (parent new : Execution) × (lookup "parent" office.executions ≡ some parent)
    × (lookup "child" after_child.executions ≡ some new)
    × Delegates 10 office new.effects parent
    × (length new.identity_chain ≤ 16)
unfolding value
dispatch_delegated_example =
    dispatch_delegated platform at_ten (object child) office "child" child after_child
      child_dispatched "parent" refl (texts_differ "parent" "" refl)

dispatch_recorded_example :
    (name : String) × (e : Execution) × (named : EffectSet) × (value child.op "" ≡ next name)
    × (mutation (op_of name) ≡ true)
    × (lookup "child" after_child.executions ≡ some e)
    × (e.state ≡ dispatching)
    × (e.operation ≡ op_of name)
    × (e.request_sha256 ≡ "say hello")
    × (effect_set child.effects ≡ next named)
    × ((x : Effect) → e.effects x ≡ (named x || always_has (op_of name) x))
dispatch_recorded_example =
    dispatch_recorded platform at_ten (object child) office "child" child after_child
      child_dispatched

replay_same_example :
    handle platform at_ten at_ten always_sent
      (object (record child { request_id = given "parent"; rest = "p" }))
      office
    ≡ (outcome_uncertain "parent", office)
unfolding value op_of mutation bad_digest required bounded_text lookup request_hash
replay_same_example =
    replay_same platform at_ten at_ten always_sent
      (record child { request_id = given "parent"; rest = "p" }) office "submit" "parent"
      parent_execution refl refl refl refl refl refl

dispatch_replayed_example :
    (handle platform at_ten at_ten always_sent
      (object child)
      (settle platform at_ten (λ _. (answered sent, [])) (dispatch "child" child, after_child)).1).0
    ≡ (if is_uncertain (outcome_of platform "child" (answered sent)).error_kind
        then outcome_uncertain "child"
        else outcome (outcome_of platform "child" (answered sent)))
unfolding value op_of mutation bad_digest
dispatch_replayed_example =
    dispatch_replayed platform at_ten at_ten (object child) office "child" child after_child
      child_dispatched (answered sent) [] at_ten at_ten always_sent "submit" refl refl refl

revoke_stops_example : ◌≢◌ {A = String} "child" "parent"
unfolding required bounded_text contains
revoke_stops_example =
    revoke_stops platform at_ten at_ten revoke_parent office after_revoke after_solo revoked_reply
      "parent" (object solo) "child" solo parent_revoked refl refl solo_dispatched

revoke_cascades_example :
    admit platform at_ten (object child) after_revoke ≢ (dispatch "child" child, office)
unfolding required bounded_text value lookup revoke append known_approval
revoke_cascades_example =
    revoke_cascades platform at_ten at_ten revoke_parent office after_revoke office revoked_reply
      "parent" (object child) "child" child "parent" parent_execution parent_revoked refl refl
      (inl refl) refl (texts_differ "parent" "" refl)

quarantine_stops_example :
    admit platform at_ten (object child) (finish platform at_ten "old" unreachable busy)
    ≢ (dispatch "child" child, office)
unfolding lookup value health is_uncertain
quarantine_stops_example =
    quarantine_stops platform at_ten at_ten "old" unreachable busy office failed_attempt
      (object child) "child" child refl (texts_differ "bot" "" refl) refl (omega arith) refl
