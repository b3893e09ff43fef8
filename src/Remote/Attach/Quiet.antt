-- ===== src/Remote/Attach/Quiet.antt =====
-- src/remote.rs: what is typed while there is no session.
use babysit.Prelude.{
  ◌*◌, ◌≡◌, refl, Bool, true, false, not, ◌&&◌, ◌||◌, List, none, Bytes, if_ind, if◌then◌else◌, min,
}
use babysit.Detach.{Filter, default, discard_pending}
use babysit.Remote.Attach.{
  Client, Options, Next, connect, stream, returned, returned_error, Pause, wait_reconnect,
  discard_queued_input, detached, reconnect_after_loss, HandshakeEvent, Handshake, is_ready,
  user_detached, no_bridge, refused, late, handshake, on_ready, after_handshake,
}

-- Nothing goes to the session; and if one is opened, the filter starts afresh.
abbrev pub Quiet : Client → Next → Type 0
Quiet c (connect c') = c'.sent ≡ c.sent
Quiet c (stream c') = (c'.sent ≡ c.sent) × (c'.filter ≡ default)
Quiet c (returned code c') = c'.sent ≡ c.sent
Quiet c (returned_error c') = c'.sent ≡ c.sent

reconnect_after_loss-Quiet :
    (p : Pause) (f : Filter) (c : Client)
    → Quiet c (reconnect_after_loss p (record c { filter = f }))
reconnect_after_loss-Quiet p f c =
    let w = wait_reconnect p.typed p.elapses f in
    if_ind (Quiet c) w.0
      (returned 0
        (record c { filter = w.1; restored = true; cleanup = false; reconnecting = true }))
      (connect (record c {
        filter = w.1;
        reconnecting = true;
        cursor = if c.visual_reconnect then none else c.cursor;
        delay = min (c.delay * 2) 5000;
      }))
      refl refl

on_ready-Quiet :
    (o : Options) (remote_tty : Bool) (queued : List Bytes) (f : Filter) (c : Client)
    → Quiet c (on_ready o remote_tty queued (record c { filter = f }))
unfolding on_ready discard_pending
on_ready-Quiet o remote_tty queued f c =
    let c' = record c {
      established_once = true;
      cleanup = true;
      delay = 250;
      visual_reconnect = o.local_stdout_is_terminal && remote_tty;
      reconnecting = false;
    } in
    let (done, g) = discard_queued_input queued f in
    if_ind (Quiet c) done (detached (record c' { filter = g }))
      (stream (record c' { filter = discard_pending g })) refl (refl, refl)

failed-Quiet :
    (o : Options) (p : Pause) (f : Filter) (c : Client)
    → Quiet c (
        if not c.established_once || not o.reconnect
        then returned_error (record c { filter = f })
        else reconnect_after_loss p (record c { filter = f }))
failed-Quiet o p f c =
    if_ind (Quiet c) (not c.established_once || not o.reconnect)
      (returned_error (record c { filter = f })) (reconnect_after_loss p (record c { filter = f }))
      refl (reconnect_after_loss-Quiet p f c)

outcome-Quiet :
    (o : Options) (queued : List Bytes) (p : Pause) (r : Handshake) (f : Filter) (c : Client)
    → Quiet c (after_handshake o queued p r (record c { filter = f }))
unfolding after_handshake
outcome-Quiet o queued p (is_ready remote_tty) f c = on_ready-Quiet o remote_tty queued f c
outcome-Quiet o queued p user_detached f c = refl
outcome-Quiet o queued p no_bridge f c = failed-Quiet o p f c
outcome-Quiet o queued p refused f c = failed-Quiet o p f c
outcome-Quiet o queued p late f c = failed-Quiet o p f c

-- Whatever is typed during a handshake, is waiting when it ends, or is typed during the pause
-- before the next connection: nothing of it is sent to the session, and when the session is ready
-- the filter has forgotten it.
pub after_handshake-Quiet :
    (o : Options) (es : List HandshakeEvent) (queued : List Bytes) (p : Pause) (c : Client)
    → let (r, f) = handshake es c.filter in
      Quiet c (after_handshake o queued p r (record c { filter = f }))
after_handshake-Quiet o es queued p c =
    let (r, f) = handshake es c.filter in outcome-Quiet o queued p r f c
