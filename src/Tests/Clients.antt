-- ===== src/Tests/Clients.antt =====
-- The remote client: src/remote.rs.
use babysit.Prelude.{ℕ, ◌≡◌, refl, true, false, List, [], ◌∷◌, some, Bytes, codes, arith}
use babysit.Frame.{s_ready, s_output_offset, offset_payload, from_be64}
use babysit.Remote.Attach.{
  new_client, Options, Pause, got_frame, got_input, Event, frame_read, stream_closed, Connection,
  attach, handshake, after_handshake,
}
use babysit.Remote.Attach.Exact.{Exactly, screen_of, client_of, attach-Exactly}
use babysit.Remote.Attach.Quiet.{Quiet, after_handshake-Quiet}
use babysit.Remote.Quote.{remote_command_with_term}
use babysit.Remote.Quote.Shell.{words, outside, intended, words-remote_command_with_term}

abbrev to_pipe : Options
to_pipe = record { reconnect = true; local_stdout_is_terminal = false }

abbrev no_pause : Pause
no_pause = record { typed = []; elapses = true }

abbrev reads : ℕ → Bytes → Event
reads offset bytes = record {
  what = frame_read s_output_offset (offset_payload offset bytes);
  written = true;
  pause = no_pause;
}

abbrev drops : Event
drops = record { what = stream_closed; written = true; pause = no_pause }

abbrev joins : List Event → Connection
joins events = record {
  opens = true;
  greeting = got_frame s_ready [] ∷ [];
  queued = [];
  pause = no_pause;
  events = events;
}

-- Two connections, the second of which repeats a byte.
abbrev twice : List Connection
twice = joins (reads 0 (codes "ab") ∷ drops ∷ []) ∷ joins (reads 1 (codes "bc") ∷ []) ∷ []

attach-Exactly_example :
    Exactly (codes "abc") (screen_of (client_of (attach to_pipe twice new_client)))
unfolding offset_payload from_be64
attach-Exactly_example = attach-Exactly (codes "abc") (omega arith) to_pipe refl twice (
  (record { within = omega arith; slice = refl }, (tt, tt)),
  ((record { within = omega arith; slice = refl }, tt), tt),
)

after_handshake-Quiet_example : Quiet new_client (
    after_handshake to_pipe
      (codes "x" ∷ [])
      no_pause
      (handshake (got_input (codes "y") ∷ got_frame s_ready [] ∷ []) new_client.filter).0
      (record new_client {
        filter =
            (handshake (got_input (codes "y") ∷ got_frame s_ready [] ∷ []) new_client.filter).1;
      }))
after_handshake-Quiet_example =
    after_handshake-Quiet to_pipe (got_input (codes "y") ∷ got_frame s_ready [] ∷ [])
      (codes "x" ∷ []) no_pause new_client

words-remote_command_with_term_example :
    words outside [] (remote_command_with_term (codes "it's" ∷ []) (some (codes "xterm")))
    ≡ some (intended (codes "it's" ∷ []) (some (codes "xterm")))
words-remote_command_with_term_example =
    words-remote_command_with_term (codes "it's" ∷ []) (some (codes "xterm"))
