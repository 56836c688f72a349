-- ===== src/Control/Channel.antt =====
-- daemon/src/ControlPlane.cpp: `channel.open`, `channel.read`, `channel.ack` and `events.read`.
use a2ad.Common.{
  ℕ, zero, suc, ◌≤◌, String, Bool, true, false, ◌||◌, not, Option, none, some, List, [], ◌∷◌,
  length, take, ltb, ◌==◌, nat_eq, if◌then◌else◌, lookup, insert,
}
use Prim.Native.Nat.{max}
use a2ad.Common.Int.{ℤ, pos, pos_part, ltb_ℤ}
use a2ad.Control.Records.{
  Field, missing, ill_typed, given, After, number, text, Request, Channel, Row, Store, Reply,
  failure, channel, events,
}
use a2ad.Control.Exit.{Exit, next, return, ◌>>=◌, ◌>>◌, return_if, value, at, required}
pub mod Pages
pub mod Cursors

-- `after`, where a number is asked for.
unfoldable pub after_number : Field After → Field ℤ
after_number (given (number n)) = given n
after_number missing = missing
after_number _ = ill_typed

unfoldable pub known_channel : String → Option Channel → Exit Channel
known_channel error none = return (failure "not_found" error)
known_channel error (some c) = next c

unfoldable pub open_new : String → Request → Store → Exit (Reply × Store)
open_new id req s = do
  after ← value (after_number req.after) (pos 0)
  return_if (ltb_ℤ after (pos 0)) (failure "invalid_request" "after must be nonnegative")
  let c : Channel = record { id = id; cursor = pos_part after; delivered = pos_part after }
  next (channel c, record s { channels = insert id c s.channels })

unfoldable pub open_found : String → Request → Store → Option Channel → Exit (Reply × Store)
open_found id req s none = open_new id req s
open_found id req s (some c) = next (channel c, s)

unfoldable pub channel_open_op : Request → Store → Exit (Reply × Store)
channel_open_op req s = do id ← required req.id; open_found id req s (lookup id s.channels)

-- `SELECT … WHERE sequence>? ORDER BY sequence`: rows are stored in the order of their numbers.
unfoldable pub rows_after : ℕ → List Row → List Row
rows_after after [] = []
rows_after after (row ∷ rows) =
    if ltb after row.sequence then row ∷ rows_after after rows else rows_after after rows

-- `next` after the loop over the rows.
unfoldable pub last_sequence : ℕ → List Row → ℕ
last_sequence after [] = after
last_sequence after (row ∷ rows) = last_sequence row.sequence rows

-- `LIMIT ?`
unfoldable pub page : ℕ → ℕ → List Row → List Row
unfolding rows_after
page after limit rows = take limit (rows_after after rows)

abbrev pub page_reply : ℕ → ℕ → List Row → Reply
page_reply after limit rows = events rows (last_sequence after rows) (length rows == limit)

-- `after < 0 || limit < 1 || limit > 500`
unfoldable pub bad_page : ℤ → ℤ → Bool
bad_page after limit = ltb_ℤ after (pos 0) || ltb_ℤ limit (pos 1) || ltb_ℤ (pos 500) limit

abbrev pub invalid_page : Reply
invalid_page = failure "invalid_request" "after >= 0 and limit 1..500 required"

unfoldable pub events_read_op : Request → Store → Exit (Reply × Store)
events_read_op req s = do
  after ← value (after_number req.after) (pos 0)
  limit ← value req.limit (pos 100)
  return_if (bad_page after limit) invalid_page
  let rows = page (pos_part after) (pos_part limit) s.events
  next (page_reply (pos_part after) (pos_part limit) rows, s)

-- `channel["delivered"] = std::max(delivered, next)`
abbrev pub deliver : Channel → ℕ → Channel
deliver c n = record c { delivered = max c.delivered n }

unfoldable pub channel_read_op : Request → Store → Exit (Reply × Store)
channel_read_op req s = do
  after ← value (after_number req.after) (pos 0)
  id ← required req.id
  c ← known_channel "open channel first" (lookup id s.channels)
  limit ← value req.limit (pos 100)
  return_if (bad_page (pos c.cursor) limit) invalid_page
  let rows = page c.cursor (pos_part limit) s.events
  let c' = deliver c (last_sequence c.cursor rows)
  next
      (page_reply c.cursor (pos_part limit) rows, record s { channels = insert c.id c' s.channels })

unfoldable pub channel_ack_op : Request → Store → Exit (Reply × Store)
channel_ack_op req s = do
  id ← required req.id
  c ← known_channel "channel not found" (lookup id s.channels)
  cursor ← at req.cursor
  return_if (ltb_ℤ cursor (pos c.cursor) || ltb_ℤ (pos c.delivered) cursor)
      (failure "invalid_cursor" "ack must be monotonic and cannot exceed delivered cursor")
  let c' = record c { cursor = pos_part cursor }
  next (channel c', record s { channels = insert id c' s.channels })
