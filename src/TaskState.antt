-- ===== src/TaskState.antt =====
-- daemon/src/types.cpp and daemon/include/kitty_a2a/types.hpp: the life-cycle states of a task and
-- their names.
use a2ad.Common.{
  ℕ, ◌+◌, ◌≡◌, Bool, true, false, ◌&&◌, ◌||◌, Option, none, some, [], ◌∷◌, ◌++◌, map, leb, ◌==◌,
  if◌then◌else◌, Text, bytes, text_eq, length, drop, starts_with, Equality, ◌↔◌, arith,
}
pub mod RoundTrip

pub data TaskState : Type 0 where
  unknown submitted working input_required auth_required : TaskState
  completed failed canceled rejected : TaskState

-- `std::tolower` of the C locale.
unfoldable pub to_lower : ℕ → ℕ
to_lower c = if leb b'A' c && leb c b'Z' then c + 32 else c

unfoldable pub lower : Text → Text
unfolding to_lower
lower = map to_lower

unfoldable pub to_string : TaskState → Text
to_string unknown = bytes "UNKNOWN"
to_string submitted = bytes "SUBMITTED"
to_string working = bytes "WORKING"
to_string input_required = bytes "INPUT_REQUIRED"
to_string auth_required = bytes "AUTH_REQUIRED"
to_string completed = bytes "COMPLETED"
to_string failed = bytes "FAILED"
to_string canceled = bytes "CANCELED"
to_string rejected = bytes "REJECTED"

abbrev pub state_beq : TaskState → TaskState → Bool
state_beq unknown unknown = true
state_beq submitted submitted = true
state_beq working working = true
state_beq input_required input_required = true
state_beq auth_required auth_required = true
state_beq completed completed = true
state_beq failed failed = true
state_beq canceled canceled = true
state_beq rejected rejected = true
state_beq _ _ = false

pub state_iff : (a b : TaskState) → (state_beq a b ≡ true) ↔ (a ≡ b)
state_iff a b = ground arith

instance abbrev pub state_eq : Equality TaskState
state_eq = record { same = state_beq; decides = state_iff }

unfoldable pub is_terminal : TaskState → Bool
is_terminal s = s == completed || s == failed || s == canceled || s == rejected

unfoldable pub is_interrupted : TaskState → Bool
is_interrupted s = s == input_required || s == auth_required

unfoldable pub parse_lowered : Text → Option TaskState
parse_lowered v =
    if v == bytes "unknown" || v == bytes "unspecified"
    then some unknown
    else if v == bytes "submitted"
    then some submitted
    else if v == bytes "working"
    then some working
    else if v == bytes "input_required" || v == bytes "input-required" || v == bytes "inputrequired"
    then some input_required
    else if v == bytes "auth_required" || v == bytes "auth-required" || v == bytes "authrequired"
    then some auth_required
    else if v == bytes "completed"
    then some completed
    else if v == bytes "failed"
    then some failed
    else if v == bytes "canceled" || v == bytes "cancelled"
    then some canceled
    else if v == bytes "rejected"
    then some rejected
    else none

unfoldable pub parse_task_state : Text → Option TaskState
parse_task_state s = parse_lowered (lower s)

abbrev pub wire_prefix : Text
wire_prefix = bytes "TASK_STATE_"

unfoldable pub task_state_wire_name : TaskState → Text
unfolding to_string
task_state_wire_name s =
    if s == unknown then bytes "TASK_STATE_UNSPECIFIED" else wire_prefix ++ to_string s

unfoldable pub parse_task_state_wire : Text → Option TaskState
unfolding parse_task_state
parse_task_state_wire s =
    parse_task_state (if starts_with s wire_prefix then drop (length wire_prefix) s else s)
