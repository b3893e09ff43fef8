-- ===== src/Remote/Attach/Keeps.antt =====
-- src/remote.rs: what every run of `attach` keeps of delays, reconnections and terminal modes.
use babysit.Prelude.{
  drop, ◌*◌, ◌≤◌, ◌≡◌, refl, Bool, true, false, not, ◌&&◌, ◌||◌, List, [], ◌∷◌, ◌++◌, none, some,
  Bytes, arith, if_ind, if_case, not-false, min, if◌then◌else◌, inl, inr, ◌⊎◌, length, is_empty,
}
use babysit.Detach.{push, has_partial_escape, discard_pending, flush_partial_escape}
use babysit.Frame.{from_be64, c_input, c_resize, resize_payload}
use babysit.Remote.Progress.{Progress, advance, gap, offset_frame_progress}
use babysit.Remote.Attach.{
  Client, new_client, Options, Next, connect, stream, returned, returned_error, Pause,
  wait_reconnect, discard_queued_input, detached, reconnect_after_loss, Handshake, is_ready,
  user_detached, no_bridge, refused, late, handshake, on_ready, after_handshake, lost, StreamEvent,
  frame_read, stream_closed, stream_failed, typed, escape_timeout, resized, Event, Kind,
  offset_output, output, failure, ended, detach_frame, ignored, kind_of, on_kind, on_stream_event,
  print_or_fail, on_progress, on_offset_frame, on_frame, send_input, on_typed, on_escape_timeout,
  on_resized, on_event, while_stream, run_stream, Connection, ask, connection, while_connect,
  attach,
}

pub while_stream_ind :
    (K : Next → Type 0) (n : Next) (k : Client → Next)
    → K n
    → ((c : Client) → K (stream c) → K (k c))
    → K (while_stream n k)
while_stream_ind K (stream c) k h step = step c h
while_stream_ind K (connect c) k h step = h
while_stream_ind K (returned code c) k h step = h
while_stream_ind K (returned_error c) k h step = h

pub while_connect_ind :
    (K : Next → Type 0) (n : Next) (k : Client → Next)
    → K n
    → ((c : Client) → K (connect c) → K (k c))
    → K (while_connect n k)
while_connect_ind K (connect c) k h step = step c h
while_connect_ind K (stream c) k h step = h
while_connect_ind K (returned code c) k h step = h
while_connect_ind K (returned_error c) k h step = h

-- What a client keeps: the delay is between a quarter of a second and five seconds, and the terminal
-- modes are to be restored once a session has been shown.
abbrev pub Kept : Client → Type 0
Kept c = (250 ≤ c.delay) × (c.delay ≤ 5000) × (c.cleanup ≡ c.established_once)

abbrev pub Sane : Options → Next → Type 0
Sane o (connect c) =
    Kept c × ((c.asked ≡ []) ⊎ ((o.reconnect ≡ true) × (c.established_once ≡ true)))
Sane o (stream c) = Kept c × (c.established_once ≡ true)
Sane o (returned code c) = c.cleanup ≡ false
Sane o (returned_error c) = Kept c

reconnect_after_loss-Sane :
    (o : Options) (p : Pause) (c : Client)
    → Kept c
    → c.established_once ≡ true
    → o.reconnect ≡ true
    → Sane o (reconnect_after_loss p c)
reconnect_after_loss-Sane o p c (lo, hi, k) once r =
    let w = wait_reconnect p.typed p.elapses c.filter in
    if_ind (Sane o) w.0
      (returned 0
        (record c { filter = w.1; restored = true; cleanup = false; reconnecting = true }))
      (connect (record c {
        filter = w.1;
        reconnecting = true;
        cursor = if c.visual_reconnect then none else c.cursor;
        delay = min (c.delay * 2) 5000;
      }))
      refl ((omega arith, omega arith, k), inr (r, once))

lost-Sane : (o : Options) (p : Pause) (c : Client) → Sane o (stream c) → Sane o (lost o p c)
unfolding lost
lost-Sane o p c (k, once) =
    if_case (Sane o) (not o.reconnect) (returned_error c)
      (if not c.resumable then returned_error c else reconnect_after_loss p c) (λ _. k)
      (λ r.
        if_ind (Sane o) (not c.resumable) (returned_error c) (reconnect_after_loss p c) k
          (reconnect_after_loss-Sane o p c k once (not-false o.reconnect r)))

print_or_fail-Sane :
    (o : Options) (written : Bool) (before after : Client)
    → Sane o (stream before)
    → Sane o (stream after)
    → Sane o (print_or_fail written before after)
print_or_fail-Sane o written before after h k =
    if_ind (Sane o) written (stream after) (returned_error before) k h.0

on_progress-Sane :
    (o : Options) (p : Pause) (written : Bool) (bytes : Bytes) (g : Progress) (c : Client)
    → Sane o (stream c)
    → Sane o (on_progress o p written bytes g c)
unfolding on_progress
on_progress-Sane o p written bytes (gap expected received) c (k, once) =
    if_case (Sane o) (not o.reconnect) (returned_error c) (reconnect_after_loss p c) (λ _. k)
      (λ r. reconnect_after_loss-Sane o p c k once (not-false o.reconnect r))
on_progress-Sane o p written bytes (advance skip next) c h =
    print_or_fail-Sane o written c
      (record c { cursor = some next; printed = c.printed ++ drop skip bytes }) h h

on_kind-Sane :
    (o : Options) (p : Pause) (written : Bool) (k : Kind) (payload : Bytes) (c : Client)
    → Sane o (stream c)
    → Sane o (on_kind o p written k payload c)
unfolding on_kind on_offset_frame
on_kind-Sane o p written offset_output payload c h =
    on_progress-Sane o p written (drop 8 payload)
      (offset_frame_progress c.cursor (from_be64 payload) (length (drop 8 payload))) c h
on_kind-Sane o p written output payload c h =
    print_or_fail-Sane o written c
      (record c { cursor = none; resumable = false; printed = c.printed ++ payload }) h h
on_kind-Sane o p written failure payload c h = h.0
on_kind-Sane o p written ended payload c h = refl
on_kind-Sane o p written detach_frame payload c h = refl
on_kind-Sane o p written ignored payload c h = h

send_input-Sane :
    (o : Options) (p : Pause) (written : Bool) (forward : Bytes) (c : Client) (k : Client → Next)
    → Sane o (stream c)
    → ((c' : Client) → Sane o (stream c') → Sane o (k c'))
    → Sane o (send_input o p written forward c k)
unfolding send_input
send_input-Sane o p written forward c k h step =
    let c' = record c { sent = c.sent ++ (c_input, forward) ∷ [] } in
    if_ind (Sane o) (is_empty forward) (k c) (if written then k c' else lost o p c) (step c h)
      (if_ind (Sane o) written (k c') (lost o p c) (step c' h) (lost-Sane o p c h))

on_typed-Sane :
    (o : Options) (p : Pause) (written : Bool) (bytes : Bytes) (c : Client)
    → Sane o (stream c)
    → Sane o (on_typed o p written bytes c)
unfolding on_typed
on_typed-Sane o p written bytes c h =
    let (f, forward, done) = push c.filter bytes in
    send_input-Sane o p written forward (record c { filter = f })
      (λ c'.
        if done then returned 0 (record c' { restored = true; cleanup = false }) else stream c')
      h
      (λ c' h'.
        if_ind (Sane o) done (returned 0 (record c' { restored = true; cleanup = false }))
          (stream c') refl h')

on_escape_timeout-Sane :
    (o : Options) (p : Pause) (written : Bool) (c : Client)
    → Sane o (stream c)
    → Sane o (on_escape_timeout o p written c)
unfolding on_escape_timeout
on_escape_timeout-Sane o p written c h =
    let (f, forward) = flush_partial_escape c.filter in
    let sending = send_input o p written forward (record c { filter = f }) stream in
    if_ind (Sane o) (has_partial_escape c.filter) sending (stream c)
      (send_input-Sane o p written forward (record c { filter = f }) stream h (λ c' h'. h')) h

on_event-Sane :
    (o : Options) (p : Pause) (written : Bool) (e : StreamEvent) (c : Client)
    → Sane o (stream c)
    → Sane o (on_stream_event o p written e c)
unfolding on_stream_event on_frame on_resized
on_event-Sane o p written (frame_read tag payload) c h =
    on_kind-Sane o p written (kind_of tag (length payload)) payload c h
on_event-Sane o p written stream_closed c h = lost-Sane o p c h
on_event-Sane o p written stream_failed c h = lost-Sane o p c h
on_event-Sane o p written (typed bytes) c h = on_typed-Sane o p written bytes c h
on_event-Sane o p written escape_timeout c h = on_escape_timeout-Sane o p written c h
on_event-Sane o p written (resized cols rows) c h =
    let c' = record c { sent = c.sent ++ (c_resize, resize_payload cols rows) ∷ [] } in
    if_ind (Sane o) written (stream c') (lost o p c) h (lost-Sane o p c h)

run_stream-Sane :
    (o : Options) (es : List Event) (c : Client) → Sane o (stream c) → Sane o (run_stream o es c)
unfolding run_stream on_event
run_stream-Sane o [] c h = h
run_stream-Sane o (e ∷ es) c h =
    while_stream_ind (Sane o) (on_event o e c) (λ c'. run_stream o es c')
      (on_event-Sane o e.pause e.written e.what c h) (λ c' h'. run_stream-Sane o es c' h')

on_ready-Sane :
    (o : Options) (remote_tty : Bool) (queued : List Bytes) (c : Client)
    → Kept c
    → Sane o (on_ready o remote_tty queued c)
unfolding on_ready
on_ready-Sane o remote_tty queued c (lo, hi, k) =
    let c' = record c {
      established_once = true;
      cleanup = true;
      delay = 250;
      visual_reconnect = o.local_stdout_is_terminal && remote_tty;
      reconnecting = false;
    } in
    let (done, f) = discard_queued_input queued c.filter in
    if_ind (Sane o) done (detached (record c' { filter = f }))
      (stream (record c' { filter = discard_pending f })) refl
      ((omega arith, omega arith, refl), refl)

failed_handshake-Sane :
    (o : Options) (p : Pause) (c : Client)
    → Kept c
    → Sane o (
        if not c.established_once || not o.reconnect
        then returned_error c
        else reconnect_after_loss p c)
failed_handshake-Sane o p c h =
    if_case (Sane o) (not c.established_once || not o.reconnect) (returned_error c)
      (reconnect_after_loss p c) (λ _. h)
      (λ e. reconnect_after_loss-Sane o p c h (ground arith) (ground arith))

after_handshake-Sane :
    (o : Options) (queued : List Bytes) (p : Pause) (r : Handshake) (c : Client)
    → Kept c
    → Sane o (after_handshake o queued p r c)
unfolding after_handshake
after_handshake-Sane o queued p (is_ready remote_tty) c h = on_ready-Sane o remote_tty queued c h
after_handshake-Sane o queued p user_detached c h = refl
after_handshake-Sane o queued p no_bridge c h = failed_handshake-Sane o p c h
after_handshake-Sane o queued p refused c h = failed_handshake-Sane o p c h
after_handshake-Sane o queued p late c h = failed_handshake-Sane o p c h

connection-Sane : (o : Options) (n : Connection) (c : Client) → Kept c → Sane o (connection o n c)
unfolding connection
connection-Sane o n c h =
    let (r, f) = handshake n.greeting c.filter in
    let c' = record (ask c) { filter = f } in
    if_ind (Sane o) n.opens
      (while_stream (after_handshake o n.queued n.pause r c') (λ c''. run_stream o n.events c''))
      (returned_error c)
      (while_stream_ind (Sane o) (after_handshake o n.queued n.pause r c')
        (λ c''. run_stream o n.events c'') (after_handshake-Sane o n.queued n.pause r c' h)
        (λ c'' h'. run_stream-Sane o n.events c'' h'))
      h

attach-kept :
    (o : Options) (ns : List Connection) (c : Client) → Sane o (connect c) → Sane o (attach o ns c)
unfolding attach
attach-kept o [] c h = h
attach-kept o (n ∷ ns) c h =
    while_connect_ind (Sane o) (connection o n c) (λ c'. attach o ns c') (connection-Sane o n c h.0)
      (λ c' h'. attach-kept o ns c' h')

-- In every run of the client the delay between connections stays within a quarter of a second and
-- five seconds, and a further connection is only tried if the user wants to reconnect and a session
-- has been shown before. While it runs, and when it returns an error, terminal modes are due to be
-- restored exactly if a session has been shown; when it returns an exit code they are no longer
-- due.
pub attach-Sane : (o : Options) (ns : List Connection) → Sane o (attach o ns new_client)
attach-Sane o ns = attach-kept o ns new_client ((omega arith, omega arith, refl), inl refl)
