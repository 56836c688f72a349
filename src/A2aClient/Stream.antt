-- ===== src/A2aClient/Stream.antt =====
-- daemon/src/A2AClient.cpp: how `streamCall` reads the events of a stream from the chunks that the
-- transport hands over, and the result of the stream.
use a2ad.Common.{
  ℕ, zero, suc, ◌+◌, Bool, true, false, ◌&&◌, ◌||◌, not, Option, none, some, List, [], ◌∷◌, ◌++◌,
  ltb, ◌==◌, nat_eq, text_eq, if◌then◌else◌, Text, bytes, length, get_elem?, take, drop,
  starts_with, find, is_empty, String,
}
use a2ad.Json.{Json, Library, get, or_else}
use a2ad.Tasks.{joined}
use a2ad.Tasks.Remote.{A2aResult, no_result, local_network, protocol_error}
use a2ad.A2aClient.Response.{HttpResponse, Digits, is_success}
pub mod Boundaries
pub mod Chunks
pub mod Frames

-- `std::remove` of the carriage returns.
unfoldable pub strip_cr : Text → Text
strip_cr [] = []
strip_cr (c ∷ s) = if c == b'\r' then strip_cr s else c ∷ strip_cr s

-- The calls of `std::getline`, with the line so far.
unfoldable pub lines_from : Text → Text → List Text
lines_from line [] = if is_empty line then [] else line ∷ []
lines_from line (c ∷ s) =
    if c == b'\n' then line ∷ lines_from [] s else lines_from (line ++ c ∷ []) s

abbrev is_space : Option ℕ → Bool
is_space none = false
is_space (some c) = c == b' '

-- A line behind `data:` and one space.
unfoldable pub data_value : Text → Text
data_value line = drop (if ltb 5 (length line) && is_space (get_elem? line 5) then 6 else 5) line

unfoldable pub data_of : Text → List Text → Text
data_of sofar [] = sofar
data_of sofar (line ∷ lines) =
    data_of (if starts_with line (bytes "data:") then joined sofar (data_value line) else sofar)
      lines

unfoldable pub event_data : Text → Text
event_data event = data_of [] (lines_from [] event)

abbrev pub blank_line : Text
blank_line = bytes "\n\n"

-- The consumer of the events: what its callback makes of its state, whether or not it throws, and
-- whether a stop has been requested in that state.
pub record Sink (S : Type 0) : Type 0 where
  pub on_event : S → Json → S
  pub stop_requested : S → Bool

module _ {S : Type 0} (lib : Library) (sink : Sink S) where
  -- The data of an event that is malformed are dropped.
  unfoldable pub handed : S → Option Json → S
  handed s none = s
  handed s (some j) = sink.on_event s (or_else (get "result" j) j)

  unfoldable pub deliver : S → Text → S
  deliver s sent = if is_empty sent || sent == bytes "[DONE]" then s else handed s (lib.parse sent)

  -- The loop over the events in `pending`, each up to a blank line.
  unfoldable pub drain : ℕ → S → Text → S × Text
  drain zero s pending = (s, pending)
  drain (suc fuel) s pending = elim (find pending blank_line) [
    | none ↦ (s, pending)
    | some boundary ↦
        drain fuel (deliver s (event_data (take boundary pending))) (drop (boundary + 2) pending)
  ]

  -- `consume`, on what is pending and a chunk; the Boolean asks for more.
  unfoldable pub consume : S → Text → Text → S × Text × Bool
  consume s pending chunk =
      if sink.stop_requested s
      then (s, pending, false)
      else (let all = strip_cr (pending ++ chunk) in
          let (s', rest) = drain (length all) s all in (s', rest, not (sink.stop_requested s')))

  -- The transport hands the chunks over until `consume` asks for no more.
  unfoldable pub stream : S → Text → List Text → S × Text
  stream s pending [] = (s, pending)
  stream s pending (chunk ∷ chunks) =
      let (s', rest, more) = consume s pending chunk in
      let later = stream s' rest chunks in if more then later else (s', rest)

-- The result of a stream that has ended: `stopped` says whether a stop has been requested.
unfoldable pub stream_result : Digits → String → Bool → HttpResponse → A2aResult
stream_result digits method stopped r =
    let out = record no_result { http_status = r.status } in
    if stopped
    then record out { ok = true }
    else if r.transport_error
    then record out {
      error_kind = local_network;
      error = bytes "stream failed: " ++ r.transport_error_detail;
    }
    else if not (is_success r.status)
    then record out {
      error_kind = protocol_error;
      error = bytes method ++ bytes " returned HTTP " ++ digits.of_nat r.status;
    }
    else record out { ok = true }
