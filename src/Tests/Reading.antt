-- ===== src/Tests/Reading.antt =====
-- What other commands read of a session: src/sub.rs, src/remote.rs and src/session.rs.
use babysit.Prelude.{
  ℕ, ◌≡◌, ◌≢◌, refl, true, false, Bool, List, [], ◌∷◌, ◌++◌, none, some, Bytes, arith, map, drop,
  codes, bytes_eq,
}
use babysit.Log.Slice.{contents, missing}
use babysit.Log.Utf8.{from_utf8, first_char}
use babysit.Log.Grep.{grep_filter}
use babysit.Poll.Follow.{Look, End, follow_log}
use babysit.Poll.Follow.Exact.{look_at, Follows, follow_log-Follows}
use babysit.Poll.Follow.Stops.{replicate, follow_log-ends}
use babysit.Poll.Follow.Grepped.{grep_misses_split_line}
use babysit.Session.{State, exited, Status, exit_code_from_status}
use babysit.Session.Files.{
  absent, whole, Recorded, Stored, Dir, empty_dir, Extent, before_rename, complete, Files,
  read_status,
}
use babysit.Session.Files.Atomic.{write_all, last_complete, read_status-write_all}
use babysit.Frame.RoundTrip.{read_frames}
use babysit.Frame.{closed, s_exit, parse_exit}
use babysit.Hub.{OutputChunk}
use babysit.Local.{finished}
use babysit.Remote.Progress.{Screen, shown, receive_all}
use babysit.Remote.Bridge.{attach, Session, ready_frame, bridge}
use babysit.Remote.Bridge.Replays.{chunk_frame, bridge-Replays}

abbrev same : Bytes → Bytes
same b = b

-- A log that grows, and a session that finishes.
abbrev growing : List (ℕ × Bool)
growing = (2, false) ∷ (5, true) ∷ (5, true) ∷ (5, true) ∷ []

follow_log-Follows_example :
    Follows
      (codes "hello")
      1
      (follow_log same true none 1 0 (map (look_at (codes "hello")) growing))
unfolding from_utf8 first_char
follow_log-Follows_example = follow_log-Follows same (codes "hello") 1 0 growing (omega arith) refl

abbrev not_yet : List Look
not_yet = record { file = missing; finished = false } ∷ []

follow_log-ends_example :
    (follow_log same false none 0 0
      (not_yet ++ replicate 6 (record { file = contents (codes "hi"); finished = true }))).1
    ≢ End.running
follow_log-ends_example =
    follow_log-ends same false none 0 0 not_yet (codes "hi") 6 (omega arith) (omega arith)

abbrev is_oops : Bytes → Bool
is_oops line = bytes_eq line (codes "oops")

grep_misses_split_line_example :
    ((follow_log same true (some is_oops) 0 0 (
        record { file = contents (codes "oo"); finished = false }
        ∷ record { file = contents (codes "oo" ++ (codes "ps" ++ b'\n' ∷ [])); finished = false }
        ∷ [])).0
      ≡ [])
    × (grep_filter (codes "oo" ++ (codes "ps" ++ b'\n' ∷ [])) (some is_oops)
        ≡ codes "oo" ++ (codes "ps" ++ b'\n' ∷ []))
unfolding from_utf8 bytes_eq first_char
grep_misses_split_line_example =
    grep_misses_split_line same is_oops b'o' b'p' (codes "o") (codes "s") (omega arith)
      (omega arith) refl refl refl refl refl

abbrev ended_status : Status
ended_status = record { state = exited; child_pid = none; exit_code = some 3 }

abbrev left_behind : Session
left_behind = record {
  connection = finished;
  tty = some true;
  status = some ended_status;
  log = codes "hello";
  from_worker = [];
  copied = [];
  message = [];
}

abbrev at_two : Screen
at_two = record { cursor = some 2; printed = codes "he" }

bridge-Replays_example :
    (cs : List OutputChunk) × (exit : Bytes) × (s' : Screen) × (read_frames 4
        (bridge (attach (some 2) 1) [] left_behind).output
        closed
      ≡ some (ready_frame true ∷ (map chunk_frame cs ++ (s_exit, exit) ∷ [])))
    × ((bridge (attach (some 2) 1) [] left_behind).failed ≡ false)
    × (receive_all cs at_two ≡ shown s')
    × (s'.printed ≡ at_two.printed ++ drop 2 left_behind.log)
    × (parse_exit exit ≡ exit_code_from_status (some ended_status))
unfolding exit_code_from_status
bridge-Replays_example =
    bridge-Replays [] left_behind 2 1 true ended_status at_two refl refl refl (omega arith)
      (omega arith) (omega arith) (omega arith) (omega arith) refl

abbrev running_status : Status
running_status = record { state = State.running; child_pid = some 9; exit_code = none }

abbrev writings : List (Extent × Recorded)
writings =
    (complete, record { status = running_status; last_change = 1 })
    ∷ (before_rename, record { status = ended_status; last_change = 2 })
    ∷ []

read_status-write_all_example :
    (read_status (write_all writings empty_dir) ≡ last_complete writings (read_status empty_dir))
    × ((write_all writings empty_dir).meta_file ≡ empty_dir.meta_file)
    × ((write_all writings empty_dir).note_file ≡ empty_dir.note_file)
read_status-write_all_example = read_status-write_all writings empty_dir

abbrev stored_as : Bytes → Stored
stored_as id = record {
  meta = record { id = id; babysit_pid = 1 };
  cmd = codes "sh" ∷ [];
  started_at = 0;
  tty = true;
}

abbrev dir_at : Bytes → ℕ → Dir
dir_at id time = record {
  meta_file = whole (stored_as id);
  status_file = whole (record { status = running_status; last_change = time });
  status_tmp = absent;
  note_file = none;
}

abbrev two_sessions : Files
two_sessions = (codes "a", dir_at (codes "a") 1) ∷ (codes "b", dir_at (codes "b") 2) ∷ []
