-- ===== src/TaskState/RoundTrip.antt =====
-- Names of states are read back, in the daemon's own form and in the form of the wire.
use a2ad.Common.{◌≡◌, refl, ap, ◌∙◌, some, Text}
use a2ad.TaskState.{
  TaskState, unknown, submitted, working, input_required, auth_required, completed, failed,
  canceled, rejected, lower, to_string, parse_task_state, parse_lowered, parse_task_state_wire,
  task_state_wire_name,
}

parse_lowered-to_string : (s : TaskState) → parse_lowered (lower (to_string s)) ≡ some s
unfolding parse_lowered lower to_string
parse_lowered-to_string unknown = refl
parse_lowered-to_string submitted = refl
parse_lowered-to_string working = refl
parse_lowered-to_string input_required = refl
parse_lowered-to_string auth_required = refl
parse_lowered-to_string completed = refl
parse_lowered-to_string failed = refl
parse_lowered-to_string canceled = refl
parse_lowered-to_string rejected = refl

-- A state is read back from its name, in capitals or small letters as one likes.
pub parse_any_case :
    (s : TaskState) (v : Text) → lower v ≡ lower (to_string s) → parse_task_state v ≡ some s
unfolding parse_task_state
parse_any_case s v h = ap parse_lowered h ∙ parse_lowered-to_string s

-- A state is read back from its name on the wire.
pub wire_round_trip : (s : TaskState) → parse_task_state_wire (task_state_wire_name s) ≡ some s
unfolding parse_task_state_wire task_state_wire_name parse_task_state parse_lowered lower to_string
wire_round_trip unknown = refl
wire_round_trip submitted = refl
wire_round_trip working = refl
wire_round_trip input_required = refl
wire_round_trip auth_required = refl
wire_round_trip completed = refl
wire_round_trip failed = refl
wire_round_trip canceled = refl
wire_round_trip rejected = refl
