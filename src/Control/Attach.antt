-- ===== src/Control/Attach.antt =====
-- src/control.rs: `handle_attach`, the server of one attached client.
pub mod Drain
use babysit.Prelude.{
  ℕ, Bool, true, false, not, ◌&&◌, ◌||◌, List, [], ◌∷◌, ◌++◌, Option, none, some, Bytes, map, leb,
  ltb, is_empty, if◌then◌else◌, ◌+◌, ◌-◌, length,
}
use babysit.Hub.{
  Hub, OutputChunk, Subscription, Subscribed, SubscribeError, ok, err, subscribe,
  subscribe_resumable,
}
use babysit.Frame.{
  ExitInfo, s_output, s_exit, s_detached, s_output_offset, s_ready, s_error, exit_payload,
  offset_payload, ClientFrame, input, resize, ignored, client_frame,
}
use babysit.Replay.{Disk, Replayed, End, done, write_log_range_frames}

-- `AttachOutput`
pub data AttachOutput : Type 0 where
  legacy : Bytes → AttachOutput
  offset : OutputChunk → AttachOutput

-- The frame that a piece of output is sent in.
unfoldable pub output_frame : AttachOutput → ℕ × Bytes
output_frame (legacy bytes) = (s_output, bytes)
output_frame (offset c) = (s_output_offset, offset_payload c.offset c.bytes)

abbrev pub exit_frame : Option ExitInfo → ℕ × Bytes
exit_frame info = (s_exit, exit_payload info)

abbrev pub detached_frame : ℕ × Bytes
detached_frame = (s_detached, [])

-- What the client asks for.
pub record Hello : Type 0 where
  pub cols : ℕ
  pub rows : ℕ
  pub since : Option ℕ
  pub protocol : ℕ

-- What the connections of a session share: the hub, the number of attached clients, and of the pane
-- its input and its size, rows first.
pub record Shared : Type 0 where
  pub hub : Hub
  pub attached : ℕ
  pub input : Bytes
  pub size : Option (ℕ × ℕ)

-- How the stream begins: it is refused, with the frames that say so, or it is served, with the first
-- frames and what is pending.
pub data Started : Type 0 where
  refused : List (ℕ × Bytes) → Shared → Started
  serving : List (ℕ × Bytes) → List AttachOutput → Shared → Started

abbrev pub ready_frame : ℕ × Bytes
ready_frame = (s_ready, [])

abbrev pub replay_frame : OutputChunk → ℕ × Bytes
replay_frame c = (s_output_offset, offset_payload c.offset c.bytes)

-- `Pane::resize`, which ignores a size with a zero.
abbrev pub resize_pane : ℕ → ℕ → Shared → Shared
resize_pane cols rows s =
    if ltb 0 cols && ltb 0 rows then record s { size = some (rows, cols) } else s

abbrev pub enter : Hello → Shared → Shared
enter hello s = resize_pane hello.cols hello.rows (record s { attached = s.attached + 1 })

-- The end of the handler: `AttachedGuard` is dropped.
abbrev pub leave : Shared → Shared
leave s = record s { attached = s.attached - 1 }

-- The missed range, behind the ready frame; `message` is the text of the error.
abbrev pub replayed : Bytes → Replayed → Shared → Started
replayed message (cs, done) s = serving (ready_frame ∷ map replay_frame cs) [] s
replayed message (cs, _) s =
    refused (ready_frame ∷ (map replay_frame cs ++ (s_error, message) ∷ [])) (leave s)

abbrev pub pending_backlog : Option OutputChunk → List AttachOutput
pending_backlog none = []
pending_backlog (some c) = offset c ∷ []

abbrev pub resumed : Disk → Bytes → Option ℕ → Subscribed → Shared → Started
unfolding write_log_range_frames
resumed d message since (err e) s = refused (ready_frame ∷ (s_error, message) ∷ []) (leave s)
resumed d message none (ok h sub) s =
    serving (ready_frame ∷ []) (pending_backlog sub.backlog_chunk) (record s { hub = h })
resumed d message (some since) (ok h sub) s =
    if ltb since sub.snapshot_end
    then replayed message (write_log_range_frames d since sub.snapshot_end) (record s { hub = h })
    else serving (ready_frame ∷ []) [] (record s { hub = h })

abbrev pub subscribed : ℕ → Shared → Shared
subscribed channel s = record s { hub = subscribe channel s.hub }

abbrev pub open_stream : Disk → Bytes → Bool → ℕ → Hello → Shared → Started
unfolding resumed
open_stream d message has_view_cmd channel hello s =
    if has_view_cmd
    then serving (if leb 1 hello.protocol then ready_frame ∷ [] else []) [] (subscribed channel s)
    else if leb 1 hello.protocol
    then resumed d message hello.since (subscribe_resumable hello.since channel s.hub) s
    else serving [] [] (subscribed channel s)

-- The first part of `handle_attach`, in which every frame can be written. With a view command the
-- stream is the formatter's output, or the legacy one if the formatter cannot be started.
unfoldable pub start : Disk → Bytes → Bool → ℕ → Hello → Shared → Started
unfolding open_stream
start d message has_view_cmd channel hello s =
    open_stream d message has_view_cmd channel hello (enter hello s)

-- The reader half: what a frame of the client does.
abbrev pub apply_frame : ClientFrame → Shared → Shared
apply_frame (input bytes) s = record s { input = s.input ++ bytes }
apply_frame (resize cols rows) s = resize_pane cols rows s
apply_frame ignored s = s

unfoldable pub read_client : List (ℕ × Bytes) → Shared → Shared
unfolding client_frame
read_client [] s = s
read_client ((tag, payload) ∷ fs) s = read_client fs (apply_frame (client_frame tag payload) s)

-- What a round of the loop finds: the output that has arrived since the round before, whether the
-- channel is closed, the exit of the session as it is now and whether it is new, whether a detach is
-- requested, the client gone or the idle guard over, and whether a frame can be written.
pub record Round : Type 0 where
  pub arrivals : List AttachOutput
  pub channel_closed : Bool
  pub exit : Option ExitInfo
  pub exit_changed : Bool
  pub detach_changed : Bool
  pub gone : Bool
  pub idle_over : Bool
  pub written : Bool

-- The session had exited before the client came, and the output goes through a formatter.
pub record Stream : Type 0 where
  pub already_exited : Bool
  pub has_view : Bool

-- The frames of the loop, and whether it has ended.
abbrev pub Sent : Type 0
Sent = List (ℕ × Bytes) × Bool

abbrev pub send_first : ℕ × Bytes → Sent → Sent
send_first f (fs, over) = (f ∷ fs, over)

abbrev pub closing_frame : Option ExitInfo → ℕ × Bytes
closing_frame none = detached_frame
closing_frame (some info) = exit_frame (some info)

-- The end of a round: a stream that had exited before ends when it is drained.
abbrev pub end_of_round : Stream → Option ExitInfo → List AttachOutput → Sent → Sent
end_of_round m exit queue later =
    if m.already_exited && not m.has_view && is_empty queue
    then (exit_frame exit ∷ [], true)
    else later

abbrev pub exit_arm : Stream → Option ExitInfo → Sent → Sent
exit_arm m (some info) later = (exit_frame (some info) ∷ [], true)
exit_arm m none later = end_of_round m none [] later

-- The arms of the `select!` behind the first, in their order; `later` is the rest of the loop.
abbrev pub other_arms : Stream → Round → Sent → Sent
other_arms m r later =
    if r.channel_closed
    then (closing_frame r.exit ∷ [], true)
    else if r.exit_changed
    then exit_arm m r.exit later
    else if r.detach_changed
    then (detached_frame ∷ [], true)
    else if r.gone
    then ([], true)
    else if r.idle_over && m.already_exited && m.has_view
    then (exit_frame r.exit ∷ [], true)
    else later

-- One round, with the output that waits; `k` is the rest of the loop. The select is biased: output
-- goes first.
unfoldable pub on_round : Stream → Round → List AttachOutput → (List AttachOutput → Sent) → Sent
unfolding output_frame
on_round m r [] k = other_arms m r (k [])
on_round m r (c ∷ rest) k =
    if r.written
    then send_first (output_frame c) (end_of_round m r.exit rest (k rest))
    else ([], true)

-- The loop.
unfoldable pub serve : Stream → List AttachOutput → List Round → Sent
unfolding on_round
serve m queue [] = ([], false)
serve m queue (r ∷ rs) = on_round m r (queue ++ r.arrivals) (λ q. serve m q rs)
