-- ===== src/Remote/Bridge.antt =====
-- src/remote.rs: `bridge`, which connects a client's transport with a worker, or replays what a
-- finished session has left.
pub mod Replays
use babysit.Prelude.{
  ℕ, ◌+◌, ◌-◌, ◌^◌, Bool, true, false, List, [], ◌∷◌, ◌++◌, Option, none, some, Bytes, length, drop,
  leb, ltb, if◌then◌else◌,
}
use babysit.Frame.{
  ExitInfo, s_output, s_exit, s_output_offset, s_ready, s_error, exit_payload, offset_payload,
}
use babysit.Frame.RoundTrip.{write_frames}
use babysit.Session.{State, starting, running, exited, killed, Status}
use babysit.Local.{Connected, connected, finished, unreachable}

-- The request of the first line: to attach, or something else, or none that can be read.
pub data Opening : Type 0 where
  attach : (since : Option ℕ) (protocol : ℕ) → Opening
  other unreadable : Opening

-- What the bridge meets: the connection, whether the session has a terminal, if its metadata can be
-- read, the recorded status and log (empty if it cannot be read); of the connection, what the worker
-- sends until it closes, and what of the client's input is copied until then; and the texts of errors.
pub record Session : Type 0 where
  pub connection : Connected
  pub tty : Option Bool
  pub status : Option Status
  pub log : Bytes
  pub from_worker : Bytes
  pub copied : Bytes
  pub message : Bytes

-- What the bridge does: the bytes that it writes for the client, what it sends to the worker, and
-- whether it ends with an error. Every write is taken to succeed.
pub record Bridged : Type 0 where
  pub output : Bytes
  pub to_worker : Bytes
  pub failed : Bool

-- Some frames, and nothing else; `write_frame` casts the length of each to 32 bits.
abbrev pub writes : List (ℕ × Bytes) → Bridged
writes frames = record { output = write_frames frames; to_worker = []; failed = false }

abbrev pub fails : Bridged
fails = record { output = []; to_worker = []; failed = true }

-- An error, which a client of protocol 1 is told in a frame.
abbrev pub refuse : ℕ → List (ℕ × Bytes) → Bytes → Bridged
refuse protocol before message =
    if leb 1 protocol then writes (before ++ (s_error, message) ∷ []) else fails

abbrev pub ready_frame : Bool → ℕ × Bytes
ready_frame tty = (s_ready, (if tty then 1 else 0) ∷ [])

-- Where the replay of a finished session starts; `none` if the offset is beyond the end.
abbrev pub replay_start : Option ℕ → Bytes → Option ℕ
replay_start none log = some (length log - 2 ^ 20)
replay_start (some offset) log = if ltb (length log) offset then none else some offset

abbrev pub replay_frames : ℕ → ℕ → Bytes → List (ℕ × Bytes)
replay_frames protocol start log =
    if ltb start (length log)
    then (if leb 1 protocol
        then (s_output_offset, offset_payload start (drop start log)) ∷ []
        else (s_output, drop start log) ∷ [])
    else []

abbrev pub is_killed : State → Bool
is_killed killed = true
is_killed starting = false
is_killed running = false
is_killed exited = false

abbrev pub exit_of : Status → ExitInfo
exit_of s = record { code = s.exit_code; signaled = is_killed s.state }

abbrev pub greeting : ℕ → Bool → List (ℕ × Bytes)
greeting protocol tty = if leb 1 protocol then ready_frame tty ∷ [] else []

abbrev pub replay_from : ℕ → Bool → Bytes → Bytes → Status → Option ℕ → Bridged
replay_from protocol tty message log s none = refuse protocol (ready_frame tty ∷ []) message
replay_from protocol tty message log s (some start) = writes (
    greeting protocol tty
    ++ (replay_frames protocol start log ++ (s_exit, exit_payload (some (exit_of s))) ∷ []))

abbrev pub replay : Option ℕ → ℕ → Bool → Bytes → Bytes → Option Status → Bridged
replay since protocol tty message log none = fails
replay since protocol tty message log (some s) =
    replay_from protocol tty message log s (replay_start since log)

abbrev pub with_tty : Option ℕ → ℕ → Bytes → Session → Bool → Option Bool → Bridged
with_tty since protocol hello w live none = refuse protocol [] w.message
with_tty since protocol hello w true (some tty) = record {
  output = write_frames (greeting protocol tty) ++ w.from_worker;
  to_worker = hello ++ w.copied;
  failed = false;
}
with_tty since protocol hello w false (some tty) =
    replay since protocol tty w.message w.log w.status

abbrev pub with_connection : Option ℕ → ℕ → Bytes → Session → Connected → Bridged
with_connection since protocol hello w unreachable = refuse protocol [] w.message
with_connection since protocol hello w (connected i) = with_tty since protocol hello w true w.tty
with_connection since protocol hello w finished = with_tty since protocol hello w false w.tty

-- `bridge`; `hello` is the first line of the input.
unfoldable pub bridge : Opening → Bytes → Session → Bridged
bridge (attach since protocol) hello w = with_connection since protocol hello w w.connection
bridge other hello w = fails
bridge unreadable hello w = fails
