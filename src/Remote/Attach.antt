-- ===== src/Remote/Attach.antt =====
-- src/remote.rs: `attach`, the client of a remote session, which reconnects when the transport is
-- lost.
pub mod Keeps
pub mod Exact
pub mod Quiet
use babysit.Prelude.{
  ℕ, ◌+◌, ◌-◌, ◌*◌, Bool, true, false, not, ◌&&◌, ◌||◌, List, [], ◌∷◌, ◌++◌, Option, none, some,
  Bytes, length, drop, min, leb, ltb, ◌==◌, if◌then◌else◌, is_empty,
}
use babysit.Detach.{
  Filter, default, push, has_partial_escape, discard_pending, flush_partial_escape,
}
use babysit.Frame.{
  s_output, s_exit, s_detached, s_output_offset, s_ready, s_error, c_input, c_resize, parse_exit,
  resize_payload, from_be64,
}
use babysit.Remote.Progress.{Progress, advance, gap, offset_frame_progress}

-- The variables of `attach` that outlive a connection; times are in milliseconds. `printed` is what
-- the writes to the standard output that succeed have put out (one that fails ends `attach`, and may have
-- put out a beginning, which is not counted), `sent` the frames that have gone to the session, and `asked` the
-- offsets at which it was asked to resume.
pub record Client : Type 0 where
  pub cursor : Option ℕ
  pub resumable : Bool
  pub established_once : Bool
  pub delay : ℕ
  pub visual_reconnect : Bool
  pub reconnecting : Bool
  pub filter : Filter
  pub cleanup : Bool
  pub restored : Bool
  pub printed : Bytes
  pub sent : List (ℕ × Bytes)
  pub asked : List (Option ℕ)

abbrev pub new_client : Client
new_client = record {
  cursor = none;
  resumable = true;
  established_once = false;
  delay = 250;
  visual_reconnect = false;
  reconnecting = false;
  filter = default;
  cleanup = false;
  restored = false;
  printed = [];
  sent = [];
  asked = [];
}

-- The choices of the user, and whether the local output is a terminal.
pub record Options : Type 0 where
  pub reconnect : Bool
  pub local_stdout_is_terminal : Bool

-- Where `attach` goes on: a new connection, the open one, or a return, with an exit code or an error.
pub data Next : Type 0 where
  connect stream : Client → Next
  returned : ℕ → Client → Next
  returned_error : Client → Next

-- What is typed during the delay before a reconnection, and whether the delay runs out or the
-- standard input ends.
pub record Pause : Type 0 where
  pub typed : List Bytes
  pub elapses : Bool

-- `wait_reconnect`: whether the user detaches.
unfoldable pub wait_reconnect : List Bytes → Bool → Filter → Bool × Filter
wait_reconnect [] elapses f = (false, if elapses then discard_pending f else f)
wait_reconnect (bytes ∷ rest) elapses f =
    let (f', _, detach) = push f bytes in
    let later = wait_reconnect rest elapses f' in if detach then (true, f') else later

-- `discard_queued_input`: whether the user detaches.
unfoldable pub discard_queued_input : List Bytes → Filter → Bool × Filter
discard_queued_input [] f = (false, f)
discard_queued_input (bytes ∷ rest) f =
    let (f', _, detach) = push f bytes in
    let later = discard_queued_input rest f' in if detach then (true, f') else later

-- `restore_terminal_modes` and a return with 0: what every detach does.
abbrev pub detached : Client → Next
detached c = returned 0 (record c { restored = true; cleanup = false; reconnecting = false })

-- The last lines of every branch that has lost the connection, with `reconnect_after_loss`.
abbrev pub reconnect_after_loss : Pause → Client → Next
reconnect_after_loss p c =
    let (detach, f) = wait_reconnect p.typed p.elapses c.filter in
    if detach
    then returned 0 (record c { filter = f; restored = true; cleanup = false; reconnecting = true })
    else connect (record c {
      filter = f;
      reconnecting = true;
      cursor = if c.visual_reconnect then none else c.cursor;
      delay = min (c.delay * 2) 5000;
    })

-- `ready_uses_tty`
unfoldable pub ready_uses_tty : Bytes → Bool
ready_uses_tty [] = true
ready_uses_tty (b ∷ bs) = not (b == 0)

-- What the handshake waits for.
pub data HandshakeEvent : Type 0 where
  got_frame : ℕ → Bytes → HandshakeEvent
  got_end got_failure : HandshakeEvent
  got_input : Bytes → HandshakeEvent

-- How a handshake ends: `(1, tty)`, `(2, _)`, `(0, _)`, an error or a timeout.
pub data Handshake : Type 0 where
  is_ready : Bool → Handshake
  user_detached no_bridge refused late : Handshake

abbrev pub frame_outcome : ℕ → Bytes → Option Handshake
unfolding ready_uses_tty
frame_outcome tag payload =
    if tag == s_ready
    then some (is_ready (ready_uses_tty payload))
    else if tag == s_error
    then some refused
    else none

-- The handshake, which ends with the first outcome; when the events end the twenty seconds are over.
-- What is typed is only watched for a detach.
unfoldable pub handshake : List HandshakeEvent → Filter → Handshake × Filter
handshake [] f = (late, f)
handshake (got_frame tag payload ∷ es) f =
    let later = handshake es f in
    elim (frame_outcome tag payload) [ some h ↦ (h, f) | none ↦ later ]
handshake (got_end ∷ es) f = (no_bridge, f)
handshake (got_failure ∷ es) f = (refused, f)
handshake (got_input bytes ∷ es) f =
    let (f', _, detach) = push f bytes in
    let later = handshake es f' in if detach then (user_detached, f') else later

-- The session is ready. `queued` is what is waiting on the standard input.
unfoldable pub on_ready : Options → Bool → List Bytes → Client → Next
unfolding discard_queued_input
on_ready o remote_tty queued c =
    let c' = record c {
      established_once = true;
      cleanup = true;
      delay = 250;
      visual_reconnect = o.local_stdout_is_terminal && remote_tty;
      reconnecting = false;
    } in
    let (detach, f) = discard_queued_input queued c.filter in
    if detach
    then detached (record c' { filter = f })
    else stream (record c' { filter = discard_pending f })

-- The outcome of the handshake.
unfoldable pub after_handshake : Options → List Bytes → Pause → Handshake → Client → Next
unfolding on_ready wait_reconnect
after_handshake o queued p (is_ready remote_tty) c = on_ready o remote_tty queued c
after_handshake o queued p user_detached c = detached c
after_handshake o queued p _ c =
    if not c.established_once || not o.reconnect then returned_error c else reconnect_after_loss p c

-- An open connection is lost.
unfoldable pub lost : Options → Pause → Client → Next
unfolding wait_reconnect
lost o p c =
    if not o.reconnect
    then returned_error c
    else if not c.resumable
    then returned_error c
    else reconnect_after_loss p c

-- What the open connection waits for. Each write may fail.
pub data StreamEvent : Type 0 where
  frame_read : ℕ → Bytes → StreamEvent
  stream_closed stream_failed : StreamEvent
  typed : Bytes → StreamEvent
  escape_timeout : StreamEvent
  resized : ℕ → ℕ → StreamEvent

-- An event, with whether the write that it leads to succeeds, and the pause if the connection is
-- lost.
pub record Event : Type 0 where
  pub what : StreamEvent
  pub written : Bool
  pub pause : Pause

-- `write_all(..)?` to the standard output, and then the new values of the variables.
abbrev pub print_or_fail : Bool → Client → Client → Next
print_or_fail written before after = if written then stream after else returned_error before

on_progress : Options → Pause → Bool → Bytes → Progress → Client → Next
unfolding wait_reconnect
on_progress o p written bytes (gap expected received) c =
    if not o.reconnect then returned_error c else reconnect_after_loss p c
on_progress o p written bytes (advance skip next) c =
    print_or_fail written c
      (record c { cursor = some next; printed = c.printed ++ drop skip bytes })

-- A frame with an offset.
unfoldable pub on_offset_frame : Options → Pause → Bool → Bytes → Client → Next
unfolding on_progress
on_offset_frame o p written payload c =
    let bytes = drop 8 payload in
    on_progress o p written bytes
      (offset_frame_progress c.cursor (from_be64 payload) (length bytes)) c

-- The arms of the match on a frame.
pub data Kind : Type 0 where
  offset_output output failure ended detach_frame ignored : Kind

abbrev pub kind_of : ℕ → ℕ → Kind
kind_of tag len =
    if tag == s_output_offset && leb 8 len
    then offset_output
    else if tag == s_output
    then output
    else if tag == s_error
    then failure
    else if tag == s_exit
    then ended
    else if tag == s_detached
    then detach_frame
    else ignored

unfoldable pub on_kind : Options → Pause → Bool → Kind → Bytes → Client → Next
unfolding on_offset_frame
on_kind o p written offset_output payload c = on_offset_frame o p written payload c
on_kind o p written output payload c =
    print_or_fail written c
      (record c { cursor = none; resumable = false; printed = c.printed ++ payload })
on_kind o p written failure payload c = returned_error c
on_kind o p written ended payload c = returned (parse_exit payload) (record c { cleanup = false })
on_kind o p written detach_frame payload c =
    returned 0 (record c { restored = true; cleanup = false })
on_kind o p written ignored payload c = stream c

-- A frame of the open connection.
unfoldable pub on_frame : Options → Pause → Bool → ℕ → Bytes → Client → Next
unfolding on_kind
on_frame o p written tag payload c = on_kind o p written (kind_of tag (length payload)) payload c

-- A frame to the session; an empty input makes none.
unfoldable pub send_input : Options → Pause → Bool → Bytes → Client → (Client → Next) → Next
unfolding lost
send_input o p written forward c k =
    if is_empty forward
    then k c
    else if written
    then k (record c { sent = c.sent ++ (c_input, forward) ∷ [] })
    else lost o p c

-- Input is typed.
unfoldable pub on_typed : Options → Pause → Bool → Bytes → Client → Next
unfolding send_input
on_typed o p written bytes c =
    let (f, forward, detach) = push c.filter bytes in
    send_input o p written forward (record c { filter = f })
      (λ c'.
        if detach then returned 0 (record c' { restored = true; cleanup = false }) else stream c')

-- The timeout for an escape sequence.
unfoldable pub on_escape_timeout : Options → Pause → Bool → Client → Next
unfolding send_input flush_partial_escape has_partial_escape
on_escape_timeout o p written c =
    if has_partial_escape c.filter
    then (let (f, forward) = flush_partial_escape c.filter in
        send_input o p written forward (record c { filter = f }) stream)
    else stream c

-- The window has a new size.
unfoldable pub on_resized : Options → Pause → Bool → ℕ → ℕ → Client → Next
unfolding lost
on_resized o p written cols rows c =
    if written
    then stream (record c { sent = c.sent ++ (c_resize, resize_payload cols rows) ∷ [] })
    else lost o p c

-- A branch of the inner `select!`.
unfoldable pub on_stream_event : Options → Pause → Bool → StreamEvent → Client → Next
unfolding on_frame on_typed on_escape_timeout on_resized lost
on_stream_event o p written (frame_read tag payload) c = on_frame o p written tag payload c
on_stream_event o p written stream_closed c = lost o p c
on_stream_event o p written stream_failed c = lost o p c
on_stream_event o p written (typed bytes) c = on_typed o p written bytes c
on_stream_event o p written escape_timeout c = on_escape_timeout o p written c
on_stream_event o p written (resized cols rows) c = on_resized o p written cols rows c

unfoldable pub on_event : Options → Event → Client → Next
unfolding on_stream_event
on_event o e c = on_stream_event o e.pause e.written e.what c

abbrev pub while_stream : Next → (Client → Next) → Next
while_stream (stream c) k = k c
while_stream (connect c) k = connect c
while_stream (returned code c) k = returned code c
while_stream (returned_error c) k = returned_error c

-- The inner loop.
unfoldable pub run_stream : Options → List Event → Client → Next
run_stream o [] c = stream c
run_stream o (e ∷ es) c = while_stream (on_event o e c) (λ c'. run_stream o es c')

-- One connection: whether it can be opened and the request sent, the events of the handshake, what
-- is queued on the standard input when it ends, the pause if it fails, and the events after it.
pub record Connection : Type 0 where
  pub opens : Bool
  pub greeting : List HandshakeEvent
  pub queued : List Bytes
  pub pause : Pause
  pub events : List Event

abbrev pub ask : Client → Client
ask c = record c { asked = c.asked ++ c.cursor ∷ [] }

-- A round of the outer loop.
unfoldable pub connection : Options → Connection → Client → Next
unfolding handshake after_handshake run_stream
connection o n c =
    if n.opens
    then (let (h, f) = handshake n.greeting c.filter in
        while_stream (after_handshake o n.queued n.pause h (record (ask c) { filter = f }))
          (λ c'. run_stream o n.events c'))
    else returned_error c

abbrev pub while_connect : Next → (Client → Next) → Next
while_connect (connect c) k = k c
while_connect (stream c) k = stream c
while_connect (returned code c) k = returned code c
while_connect (returned_error c) k = returned_error c

-- `attach`
unfoldable pub attach : Options → List Connection → Client → Next
unfolding connection
attach o [] c = connect c
attach o (n ∷ ns) c = while_connect (connection o n c) (λ c'. attach o ns c')
