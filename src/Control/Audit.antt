-- ===== src/Control/Audit.antt =====
-- daemon/src/ControlPlane.cpp: the audit log, a chain of hashes (`append`, `event`, and
-- `audit.verify`). The hash function and the serialization of an event are the platform's.
use a2ad.Common.{
  ℕ, suc, String, Bool, ◌||◌, not, List, [], ◌∷◌, ◌++◌, length, ◌==◌, string_eq, if◌then◌else◌,
}
use Prim.Native.Nat.{◌+◌}
use Prim.Native.String.{◌++◌ as str_append}
use a2ad.Control.Records.{Event, Row, Store, Request, Reply, failure, audit}
pub mod Chain
pub mod Log

-- OpenSSL's SHA-256, nlohmann's `dump`, `std::to_string`, and `enforce_policy` of the configuration.
pub record Platform : Type 0 where
  pub digest : String → String
  pub dump_request : Request → String
  pub dump_event : Event → String
  pub decimal : ℕ → String
  pub enforce : Bool

-- What one transaction reads from outside: the clock, and a fresh random id.
pub record Env : Type 0 where
  pub now : ℕ
  pub fresh : String

module _ (p : Platform) where
  -- The hash of an event that follows the hash `previous`.
  unfoldable pub link_hash : String → ℕ → String → String
  link_hash previous time body =
      p.digest
        (str_append previous (str_append "\n" (str_append (p.decimal time) (str_append "\n" body))))

  -- The hash of the last row, or the empty text.
  unfoldable pub last_hash : String → List Row → String
  last_hash previous [] = previous
  last_hash previous (row ∷ rows) = last_hash row.hash rows

  unfoldable pub new_row : Env → Event → List Row → Row
  unfolding last_hash link_hash
  new_row env event rows = record {
    sequence = length rows + 1;
    time = env.now;
    body = p.dump_event event;
    previous_hash = last_hash "" rows;
    hash = link_hash (last_hash "" rows) env.now (p.dump_event event);
  }

  -- `append`, on the table of events.
  unfoldable pub append_row : Env → Event → List Row → List Row
  append_row env event rows = rows ++ new_row env event rows ∷ []

  -- `append`
  unfoldable pub append : Env → Event → Store → Store
  append env event s = record s { events = append_row env event s.events }

  -- The loop of `audit.verify`.
  unfoldable pub verify_from : String → ℕ → List Row → Reply
  verify_from previous count [] = audit count previous
  verify_from previous count (row ∷ rows) =
      if not (previous == row.previous_hash)
        || not (link_hash previous row.time row.body == row.hash)
      then failure "integrity_failure" "audit chain mismatch"
      else verify_from row.hash (suc count) rows

  -- `audit.verify`
  unfoldable pub verify : Store → Reply
  verify s = verify_from "" 0 s.events
