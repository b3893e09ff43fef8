-- ===== src/Tests/Output.antt =====
-- The output path: src/pane.rs, src/control.rs, src/attach.rs and src/remote.rs.
use babysit.Prelude.{
  ℕ, ◌+◌, ◌<◌, ◌≡◌, refl, true, false, List, [], ◌∷◌, none, some, Bytes, length, drop, arith, Memᴰ,
  concat, codes,
}
use babysit.Hub.{
  Hub, Io, Opens, OutputChunk, Subscription, whole, ok, broadcast, broadcast_all, subscribe,
  subscribe_resumable, configure_log,
}
use babysit.Hub.Offsets.{Inv, LogInv, broadcast-Inv, broadcast-LogInv}
use babysit.Hub.Subscribe.{Resumed, resume_delivers, subscribe_delivers}
use babysit.Hub.Reopen.{reopen_misaligns}
use babysit.Replay.{Disk}
use babysit.Frame.{closed}
use babysit.Frame.RoundTrip.{read_frames, write_frames, read_frames-write_frames}
use babysit.Remote.Progress.{Screen, shown, receive_all}
use babysit.Remote.Progress.EndToEnd.{sent, resume_complete}
use babysit.Control.Attach.{Stream, Round, legacy, serve}
use babysit.Control.Attach.Drain.{Found, Drains, serve-Drains}

abbrev ab_hub : Hub
ab_hub = record {
  backlog = codes "ab";
  backlog_start = 0;
  next_offset = 2;
  log = true;
  log_file = codes "ab";
  timestamps = true;
  rows = [];
  log_error = none;
  clients = [];
  resume_clients = [];
}

abbrev good_io : Io
good_io = record { log_write = whole; row_write = true; now = 5 }

abbrev c_chunk : List (Io × Bytes)
c_chunk = (good_io, codes "c") ∷ []

ab_hub-Inv : Inv ab_hub
ab_hub-Inv = record { bounded = omega arith; aligned = refl }

ab_hub-LogInv : LogInv ab_hub
ab_hub-LogInv = record { whole_log = refl; suffix = refl; tiled = omega arith }

broadcast-Inv_example : Inv (broadcast good_io (codes "c") ab_hub)
broadcast-Inv_example = broadcast-Inv good_io (codes "c") ab_hub (omega arith) ab_hub-Inv

broadcast-LogInv_example : LogInv (broadcast good_io (codes "c") ab_hub)
broadcast-LogInv_example =
    broadcast-LogInv good_io (codes "c") ab_hub refl refl (omega arith) ab_hub-Inv ab_hub-LogInv

resume_delivers_example :
    (h' : Hub) × (sub : Subscription) × (subscribe_resumable (some 1) 7 ab_hub ≡ ok h' sub)
    × (sub.backlog_chunk ≡ none)
    × (sub.snapshot_end ≡ 2)
    × ((broadcast_all c_chunk h').log_file ≡ codes "abc")
    × ((broadcast_all c_chunk h').next_offset ≡ 3)
    × Resumed (broadcast_all c_chunk h') 7 1 sub.snapshot_end
resume_delivers_example =
    resume_delivers ab_hub 1 7 c_chunk refl refl (omega arith) (refl, tt) (omega arith) ab_hub-Inv
      ab_hub-LogInv

subscribe_delivers_example :
    (queue : List Bytes) × Memᴰ
      (record { channel = 7; alive = true; queue = queue })
      (broadcast_all c_chunk (subscribe 7 ab_hub)).clients
    × (concat queue ≡ drop 0 (broadcast_all c_chunk (subscribe 7 ab_hub)).log_file)
subscribe_delivers_example =
    subscribe_delivers ab_hub 7 c_chunk refl (refl, tt) (omega arith) ab_hub-Inv ab_hub-LogInv

abbrev both_open : Opens
both_open = record { log_opens = true; timestamps_open = true }

-- The write of `b` failed after `a`.
abbrev broken_hub : Hub
broken_hub = record ab_hub {
  log = false;
  log_file = codes "a";
  log_error = some [];
  timestamps = false;
}

abbrev reopened_hub : Hub
reopened_hub = record broken_hub {
  log = true;
  log_error = none;
  timestamps = true;
  next_offset = 1;
  backlog_start = 1;
}

abbrev reopened_sub : Subscription
reopened_sub = record {
  output = 7;
  snapshot_end = 1;
  backlog_chunk = some (record { offset = 1; bytes = codes "ab" });
}

reopen_misaligns_example :
    (c : OutputChunk) × (reopened_sub.backlog_chunk ≡ some c)
    × (c.offset + length c.bytes ≡ 1 + 2)
    × (1 < c.offset + length c.bytes)
reopen_misaligns_example =
    reopen_misaligns both_open broken_hub reopened_hub
      (record reopened_hub {
        resume_clients = record { channel = 7; alive = true; queue = [] } ∷ [];
      })
      reopened_sub 7 refl (λ e. ground arith) (unfold configure_log in refl)
      (unfold subscribe_resumable in refl)

abbrev abc_disk : Disk
abc_disk = record {
  file = codes "abc";
  opens = true;
  grants = λ offset. 1;
  writes = λ offset. true;
}

abbrev two_frames : List (ℕ × Bytes)
two_frames = (1, codes "hi") ∷ (2, []) ∷ []

read_frames-write_frames_example : read_frames 3 (write_frames two_frames) closed ≡ some two_frames
read_frames-write_frames_example =
    read_frames-write_frames two_frames 3 (omega arith, (omega arith, tt)) (omega arith)

abbrev a_screen : Screen
a_screen = record { cursor = some 1; printed = codes "a" }

resume_complete_example :
    (h' : Hub) × (sub : Subscription) × (queue : List OutputChunk) × (s' : Screen)
    × (subscribe_resumable (some 1) 7 ab_hub ≡ ok h' sub)
    × Memᴰ
        (record { channel = 7; alive = true; queue = queue })
        (broadcast_all c_chunk h').resume_clients
    × (receive_all (sent abc_disk 1 sub.snapshot_end queue) a_screen ≡ shown s')
    × (s'.printed ≡ codes "abc")
resume_complete_example =
    resume_complete ab_hub 1 7 c_chunk abc_disk (codes "c") a_screen refl refl (omega arith)
      (refl, tt) (omega arith) ab_hub-Inv ab_hub-LogInv refl refl (λ offset. refl) refl

abbrev raw_stream : Stream
raw_stream = record { already_exited = false; has_view = false }

abbrev exits_now : Round
exits_now = record {
  arrivals = legacy (codes "b") ∷ [];
  channel_closed = false;
  exit = some (record { code = some 0; signaled = false });
  exit_changed = true;
  detach_changed = false;
  gone = false;
  idle_over = false;
  written = true;
}

serve-Drains_example :
    Drains Found
      (legacy (codes "a") ∷ [])
      (exits_now ∷ [])
      (serve raw_stream (legacy (codes "a") ∷ []) (exits_now ∷ [])).0
serve-Drains_example = serve-Drains raw_stream (legacy (codes "a") ∷ []) (exits_now ∷ [])
