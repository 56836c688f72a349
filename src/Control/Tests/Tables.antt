-- ===== src/Control/Tests/Tables.antt =====
-- The theorems on the tables of the control plane, applied to small stores.
use a2ad.Common.{
  ℕ, ◌+◌, ◌≡◌, refl, ◌≢◌, inl, true, false, none, some, List, [], ◌∷◌, ◌++◌, length, lookup, insert,
  string_eq,
}
use a2ad.Control.Records.{
  given, approval_decided, Request, LeaseOp, Lease, Approval, ApprovalState, Channel, Execution,
  ExecutionState, dispatching, Row, Store, Reply, audit, Health,
}
use a2ad.Control.Exit.{required, bounded_text, value, return_if}
use a2ad.Control.Audit.{append, verify, verify_from, last_hash}
use a2ad.Control.Lease.{lease_op, put_lease, new_lease, held}
use a2ad.Control.Lease.Fencing.{Follows, lease_op-Follows}
use a2ad.Control.Channel.{page, last_sequence, channel_open_op, open_found, open_new, after_number}
use a2ad.Control.Channel.Pages.{pages_join}
use a2ad.Control.Channel.Cursors.{IsSound, channels-IsSound}
use a2ad.Control.Finish.{restart, recover, recover_in, interrupt}
use a2ad.Control.Finish.Recovery.{restart_settles}
use a2ad.Control.History.{run, dispatches}
use a2ad.Control.History.Once.{IsDistinct, IsFresh, dispatches_once}
use a2ad.Control.History.Chained.{run_verified}
use a2ad.Control.Tests.{
  platform, at_ten, plain, office, child_history, parent_execution, file_lease, approved,
  no_records,
}

dispatches_once_example :
    IsDistinct (dispatches platform child_history office)
    × IsFresh office (dispatches platform child_history office)
dispatches_once_example = dispatches_once platform child_history office

run_verified_example :
    (added : List Row) × ((run platform child_history office).events ≡ [] ++ added)
    × (verify platform (run platform child_history office)
        ≡ audit (0 + length added) (last_hash platform "" added))
unfolding verify verify_from
run_verified_example = run_verified platform child_history office 0 "" refl

-- An execution that was in flight.
abbrev in_flight : Store
in_flight = record no_records {
  executions = ("parent", record parent_execution { state = dispatching }) ∷ [];
}

abbrev interrupted_parent : Execution
interrupted_parent = record parent_execution {
  state = ExecutionState.uncertain;
  reason = some "daemon restarted during dispatch; reconcile remote state before any new attempt";
}

restart_settles_example : interrupted_parent.state ≢ dispatching
unfolding restart recover recover_in interrupt append lookup insert
restart_settles_example =
    restart_settles platform at_ten in_flight "parent" interrupted_parent (refl, tt) refl

-- A lease of a file, asked for by its owner and by another.
abbrev renewal : Request
renewal = record plain { resource = given "file"; owner = given "ann"; token = given "t" }

abbrev renewed : Store
renewed =
    put_lease platform at_ten LeaseOp.renew "file" "ann" (record file_lease { expires_at = 70 })
      office

lease_op-Follows_example :
    (new : Lease) × (lookup "file" renewed.leases ≡ some new) × Follows 10 file_lease new
unfolding lease_op required bounded_text value return_if new_lease held lookup
lease_op-Follows_example =
    lease_op-Follows platform at_ten LeaseOp.renew renewal office "file" file_lease
      (Reply.lease (record file_lease { expires_at = 70 })) renewed refl refl

abbrev released : Store
released =
    put_lease platform at_ten LeaseOp.release "file" "ann" (record file_lease { expires_at = 10 })
      office

renew_ne : LeaseOp.renew ≢ LeaseOp.acquire
renew_ne h = cc

-- An approval that waits for the owner.
abbrev waiting : Approval
waiting = record (approved "new" "say more") { state = ApprovalState.pending; expires_at = none }

abbrev inbox : Store
inbox = record no_records { approvals = ("new", waiting) ∷ [] }

abbrev yes_please : Request
yes_please = record plain { id = given "new"; allow = given true }

abbrev given_approval : Approval
given_approval = record waiting {
  state = ApprovalState.approved;
  expires_at = some 310;
  reason = some "";
}

abbrev decided_store : Store
decided_store =
    append platform at_ten (approval_decided "new" ApprovalState.approved 310)
      (record inbox { approvals = insert "new" given_approval inbox.approvals })

-- A log of three events.
abbrev row_at : ℕ → Row
row_at n = record { sequence = n; time = 10; body = "event"; previous_hash = ""; hash = "" }

abbrev three_rows : List Row
three_rows = row_at 1 ∷ row_at 2 ∷ row_at 3 ∷ []

pages_join_example :
    page 0 2 three_rows ++ page (last_sequence 0 (page 0 2 three_rows)) 2 three_rows
    ≡ page 0 (2 + 2) three_rows
pages_join_example = pages_join 0 2 2 three_rows (refl, (refl, (refl, tt)))

abbrev news : Channel
news = record { id = "news"; cursor = 0; delivered = 0 }

no_channels : IsSound no_records
unfolding lookup
no_channels k c h = cc

abbrev opened : Store
opened = record no_records { channels = insert "news" news [] }

channels-IsSound_example : IsSound opened
unfolding channel_open_op open_found open_new required bounded_text value after_number return_if
    lookup
channels-IsSound_example =
    channels-IsSound (record plain { id = given "news" }) no_records opened (Reply.channel news)
      no_channels (inl refl)

abbrev twice_failed : Health
twice_failed = record { agent = "bot"; failures = 2; quarantined = false; reason = none }
