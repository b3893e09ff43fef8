-- ===== src/Tests/Attached.antt =====
-- A session on this machine: src/attach.rs and src/pane.rs.
use babysit.Prelude.{
  ℕ, ◌+◌, ◌<◌, ◌≡◌, ◌↔◌, refl, true, false, List, [], ◌∷◌, ◌++◌, none, some, Bytes, arith, map,
  ◌==◌, concat, take, ◌%◌, ◌^◌, length, min, All, codes,
}
use babysit.Frame.{ExitInfo, s_output, s_exit, exit_payload, parse_exit, reported_code}
use babysit.Hub.{Hub, Io, whole, u64_max, broadcast}
use babysit.Control.Attach.{Stream, Round, legacy, serve}
use babysit.Control.Attach.Drain.{arrived}
use babysit.Local.{
  Attempt, connected, accepts, connect_retry, Event, frame, typed, Client, stream, fresh,
}
use babysit.Local.Connect.{Waits, connect_retry_iff}
use babysit.Local.Typed.{Accounted, input_of, typed_in, stream-Accounted}
use babysit.Local.Shown.{output_bytes, stream-serve}
use babysit.Pane.{
  Thread, Shared, Pane, Step, Phase, leaving, last, gone, new_thread, step, Reach, here, and_then,
  advance, reading, holding, chunk, next, ended, new_pane, spawn,
}
use babysit.Pane.Readers.{sum_of, got_length}
use babysit.Pane.Done.{Finished, reader_done-Finished}
use babysit.Pane.Ends.{IsGone, readers_end}

abbrev third_time : ℕ → Attempt
third_time i = record { socket = false; legacy_socket = i == 2; status = none }

connect_retry_iff_example :
    (connect_retry third_time none ≡ connected 2)
    ↔ ((2 < 75) × Waits third_time 0 2 × (accepts (third_time 2) ≡ true))
connect_retry_iff_example = connect_retry_iff third_time none 2

-- Typing, an arrow key in two pieces, and a first press of the hotkey.
abbrev some_typing : List Event
some_typing =
    typed (codes "ls") true
    ∷ typed (0x1b ∷ []) true
    ∷ typed (codes "[A") true
    ∷ typed (0x1c ∷ []) true
    ∷ []

stream-Accounted_example :
    Accounted (input_of [] ++ ([] ++ typed_in some_typing)) (stream some_typing fresh)
stream-Accounted_example = stream-Accounted some_typing fresh

abbrev exit_seven : ExitInfo
exit_seven = record { code = some 7; signaled = false }

-- Two pieces of output, and then the exit.
abbrev two_rounds : List Round
two_rounds =
    record {
      arrivals = legacy (codes "ab") ∷ [];
      channel_closed = false;
      exit = none;
      exit_changed = false;
      detach_changed = false;
      gone = false;
      idle_over = false;
      written = true;
    }
    ∷ record {
      arrivals = [];
      channel_closed = false;
      exit = some exit_seven;
      exit_changed = true;
      detach_changed = false;
      gone = false;
      idle_over = false;
      written = true;
    }
    ∷ []

abbrev live_stream : Stream
live_stream = record { already_exited = false; has_view = false }

abbrev frames_of_two : List Event
frames_of_two = frame s_output (codes "ab") ∷ frame s_exit (exit_payload (some exit_seven)) ∷ []

abbrev after_two : Client
after_two = record fresh { printed = codes "ab" }

stream-serve_example :
    (rounds : ℕ) × (before : List Round) × (r : Round) × (take rounds two_rounds ≡ before ++ r ∷ [])
    × (after_two.printed ≡ concat (map output_bytes ([] ++ arrived (take rounds two_rounds))))
    × (7 ≡ reported_code r.exit % 2 ^ 32)
unfolding serve stream exit_payload parse_exit reported_code
stream-serve_example = stream-serve live_stream [] two_rounds frames_of_two [] 7 after_two refl refl

abbrev new_hub : Hub
new_hub = record {
  backlog = [];
  backlog_start = 0;
  next_offset = 0;
  log = false;
  log_file = [];
  timestamps = false;
  rows = [];
  log_error = none;
  clients = [];
  resume_clients = [];
}

abbrev quiet_io : Io
quiet_io = record { log_write = whole; row_write = true; now = 0 }

abbrev one_reader : Pane
one_reader = new_pane true new_hub

abbrev shared_with : Hub → ℕ → Bytes → ℕ → Shared
shared_with hub seq screen remaining = record {
  hub = hub;
  seq = seq;
  screen = screen;
  remaining = remaining;
  reader_done = false;
}

abbrev thread_in : Phase → Bytes → Bytes → Thread
thread_in phase got sent = record { phase = phase; got = got; sent = sent }

abbrev got_ab : Pane
got_ab = record {
  threads = thread_in (holding (codes "ab")) (codes "ab") [] ∷ [];
  shared = shared_with new_hub 1 (codes "ab") 1;
}

abbrev sent_ab : Pane
sent_ab = record {
  threads = thread_in reading (codes "ab") (codes "ab") ∷ [];
  shared = shared_with (broadcast quiet_io (codes "ab") new_hub) 1 (codes "ab") 1;
}

abbrev at_end : Pane
at_end = record sent_ab { threads = thread_in leaving (codes "ab") (codes "ab") ∷ [] }

abbrev counted_down : Pane
counted_down = record {
  threads = thread_in last (codes "ab") (codes "ab") ∷ [];
  shared = shared_with (broadcast quiet_io (codes "ab") new_hub) 1 (codes "ab") 0;
}

abbrev notified : Pane
notified = record {
  threads = thread_in gone (codes "ab") (codes "ab") ∷ [];
  shared = record counted_down.shared { reader_done = true };
}

reads : Step one_reader got_ab
unfolding advance
reads =
    step [] [] new_thread (thread_in (holding (codes "ab")) (codes "ab") []) (chunk (codes "ab"))
      refl refl refl

sends : Step got_ab sent_ab
unfolding advance
sends =
    step [] [] (thread_in (holding (codes "ab")) (codes "ab") [])
      (thread_in reading (codes "ab") (codes "ab")) (next quiet_io) refl refl refl

finds_end : Step sent_ab at_end
unfolding advance
finds_end =
    step [] [] (thread_in reading (codes "ab") (codes "ab"))
      (thread_in leaving (codes "ab") (codes "ab")) ended refl refl refl

counts_down : Step at_end counted_down
unfolding advance
counts_down =
    step [] [] (thread_in leaving (codes "ab") (codes "ab"))
      (thread_in last (codes "ab") (codes "ab")) (next quiet_io) refl refl refl

notifies : Step counted_down notified
unfolding advance
notifies =
    step [] [] (thread_in last (codes "ab") (codes "ab")) (thread_in gone (codes "ab") (codes "ab"))
      (next quiet_io) refl refl refl

-- The reader reads a chunk and broadcasts it.
one_chunk : Reach one_reader sent_ab
one_chunk = and_then (and_then here reads) sends

-- Then it finds the end of the output.
whole_run : Reach one_reader notified
whole_run = and_then (and_then (and_then one_chunk finds_end) counts_down) notifies

one_reader-spawned : spawn (codes "ls" ∷ []) true true none new_hub ≡ some one_reader
unfolding spawn
one_reader-spawned = refl

reader_done-Finished_example :
    All Finished notified.threads
    × ((notified.shared).hub.next_offset
        ≡ min ((one_reader.shared).hub.next_offset + sum_of got_length notified.threads) u64_max)
    × (length (notified.shared).screen ≡ sum_of got_length notified.threads)
reader_done-Finished_example =
    reader_done-Finished (codes "ls" ∷ []) true true none new_hub one_reader notified
      one_reader-spawned (omega arith) whole_run refl

readers_end_example :
    (r : Pane) × Reach sent_ab r × All IsGone r.threads × ((r.shared).reader_done ≡ true)
readers_end_example =
    readers_end (codes "ls" ∷ []) true true none new_hub one_reader sent_ab one_reader-spawned
      (omega arith) one_chunk
