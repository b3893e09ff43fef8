-- ===== src/Lib.antt =====
-- babysit runs a command under a headless worker, which owns its terminal, records its output and
-- serves clients over a socket; clients attach, also over SSH, and commands read the records. This
-- library models the worker, the clients and the readers. Paths are from the root of the repository.
--
-- Prelude             what the other modules share: lists, byte strings, tests on numbers
-- Hub                 src/pane.rs, OutputHub: the log, the backlog and the subscribers
--   Offsets, Streams, Subscribe, Reopen
-- Pane                src/pane.rs, Pane::spawn and the threads that read a child's output
--   Readers, Done, Ends
-- Detach              src/attach.rs, DetachFilter and the keys that it reads
--   Conserve, Presses, Chunks, Bounds, Legacy
-- Frame               src/attach.rs, the frames between worker and client
--   RoundTrip, Payloads
-- Local               src/attach.rs, attach_to: the client of a session on this host
--   Connect, Exits, Shown, Typed
-- Replay              src/control.rs, write_log_range_frames
--   Range
-- Control             src/control.rs, dispatch of the requests, and handle_attach
--   Kill, Attach (Drain)
-- Socket              src/control.rs, serve: the control socket and its directories
--   Private
-- Session             src/session.rs, and the readers of its files in src/sub.rs and src/attach.rs
--   Ids, Prune, Files (Atomic, Notes, Listed)
-- Paths               src/paths.rs: where the files and the socket of a session are
--   Short
-- Starting            src/run.rs, run and spawn_worker_process: a session is started
--   Parser, Printed, Launched, Forwards
-- Worker              src/run.rs, terminate_pane and serve_worker, with the signals of src/pane.rs
--   Terminate (Confirm), Serve (Lifecycle, Starts, Recorded, Codes, Killed, Stale)
-- Durations           src/run.rs, parse_duration, parse_timeout, parse_size
--   Units, Forwarded
-- Log                 src/sub.rs, read_slice, grep_filter, clip_capture_rows; src/control.rs, last_n_lines
--   Utf8, Slice (Safe, Sequences, Held), Lines, Grep
-- Listing             src/sub.rs, render_list_text and last_visible_line
--   Columns, Fits, Visible
-- Poll                src/sub.rs, wait, wait_idle, expect, follow_log
--   Wait, Expect, Follow (Exact, Stops, Grepped)
-- Requests            src/sub.rs, the commands that ask a worker; src/control.rs, read_log
--   Connect, Screen, Logs (Same, Gap)
-- Render              src/render.rs, the formats of a screenshot
--   Cells
-- Keys                src/sub.rs, key_to_bytes
--   Names
-- Remote              src/remote.rs, the client of a session on another host, and the bridge there
--   Progress, Attach, Quote, Args, Bridge (Replays)
-- Tests               the theorems at concrete inputs
--
-- How state corresponds: HubInner is the record Hub; a file that is open is a flag with the contents
-- beside it, since they outlive the handle. What the system does is an argument: the outcomes of
-- writes (Io, Disk), the process and the clock (Os), the files that a round of polling finds (Look).
-- A select! loop is a function of the sequence of the events that it takes, so that every ordering is
-- a list. The parts meet as in the code: the hub's queue and the replay make the frames of an attached
-- client, the client advances its cursor by them and asks for that offset when it connects again;
-- the worker's statuses are what the session's readers see, and the worker runs with what its parent
-- prints for it. The reader threads of a pane, which share its state, are steps of a relation, one thread
-- at a time, so that every interleaving is a path.
--
-- Numbers are natural numbers; 64-bit offsets saturate or are bounded by hypotheses, as the code does,
-- and the fields of frames are written out modulo powers of two. An i32 exit code is its bit pattern.
-- Bytes are numbers; where the code holds text, it is its UTF-8 bytes.
--
-- Fuel: range_frames has the length of the range, and each round sends a byte; wait_group has a round
-- for every millisecond of its timeout, and each round sleeps ten; decimal has 25 digits, more than a
-- 64-bit number of seconds has in milliseconds; read_frames has the number of frames plus one. follow_log
-- runs over the list of its rounds, and twice the length of the log and two quiet rounds end it once the
-- session has finished; connecting has 25 attempts, as in the code. The other loops run over the list of
-- their events.
--
-- Parameters for code that is not in the repository: strip_ansi_escapes (strip), serde_json on sidecar
-- rows (parse), the regular expression (is_match), the screen of vt100 (parser, render), clap on the
-- arguments of run (clap, with the laws of IsClap), is_pid_alive. UTF-8 decoding follows the standard
-- library. System calls are flags and tables: what is at the paths of the socket, which calls succeed.
-- Not modelled: process creation and the PTY, the view filter, JSON, the declarations of the command
-- line and the dispatch of src/main.rs, ssh processes, shell completions, the upgrade command.
pub mod Prelude
pub mod Hub
pub mod Detach
pub mod Frame
pub mod Replay
pub mod Remote
pub mod Log
pub mod Session
pub mod Worker
pub mod Durations
pub mod Poll
pub mod Keys
pub mod Control
pub mod Listing
pub mod Local
pub mod Socket
pub mod Starting
pub mod Render
pub mod Requests
pub mod Pane
pub mod Paths
pub mod Tests
