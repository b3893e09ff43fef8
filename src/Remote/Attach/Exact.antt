-- ===== src/Remote/Attach/Exact.antt =====
-- src/remote.rs: what a client that reconnects has printed, when the output is not a terminal.
use babysit.Prelude.{
  ℕ, ◌+◌, ◌-◌, ◌*◌, ◌≤◌, ◌≡◌, refl, sym, ap, subst, ◌∙◌, Bool, true, false, not, ◌&&◌, ◌||◌, List,
  [], ◌∷◌, ◌++◌, none, some, Bytes, arith, if_ind, if◌then◌else◌, inl, inr, ◌⊎◌, length, drop, take,
  is_empty, All, min, max,
}
use babysit.Hub.{OutputChunk, u64_max}
use babysit.Frame.{from_be64, c_input, c_resize, resize_payload}
use babysit.Detach.{push, has_partial_escape, discard_pending, flush_partial_escape}
use babysit.Remote.Progress.{Progress, advance, gap, offset_frame_progress, Screen, shown, receive}
use babysit.Remote.Progress.Follow.{IsSlice, Shows, receive-Shows}
use babysit.Remote.Attach.{
  Client, new_client, Options, Next, connect, stream, returned, returned_error, Pause,
  wait_reconnect, discard_queued_input, detached, reconnect_after_loss, Handshake, is_ready,
  user_detached, no_bridge, refused, late, handshake, on_ready, after_handshake, lost, StreamEvent,
  frame_read, stream_closed, stream_failed, typed, escape_timeout, resized, Event, Kind,
  offset_output, output, failure, ended, detach_frame, ignored, kind_of, on_kind, on_stream_event,
  print_or_fail, on_progress, on_offset_frame, on_frame, send_input, on_typed, on_escape_timeout,
  on_resized, on_event, while_stream, run_stream, Connection, ask, connection, attach,
}
use babysit.Remote.Attach.Keeps.{while_stream_ind, while_connect_ind}

abbrev pub screen_of : Client → Screen
screen_of c = record { cursor = c.cursor; printed = c.printed }

-- Nothing has been printed, or the log from some offset up to the cursor has.
abbrev pub Exactly : Bytes → Screen → Type 0
Exactly log s =
    ((s.cursor ≡ none) × (s.printed ≡ []))
    ⊎ ((origin : ℕ) × (cursor : ℕ) × Shows log origin s cursor)

abbrev pub client_of : Next → Client
client_of (connect c) = c
client_of (stream c) = c
client_of (returned code c) = c
client_of (returned_error c) = c

-- A frame with an offset carries that part of the log; and no output comes without an offset.
abbrev pub HonestKind : Bytes → Kind → Bytes → Type 0
HonestKind log offset_output payload =
    IsSlice log (record { offset = from_be64 payload; bytes = drop 8 payload })
HonestKind log output payload = ⊥
HonestKind log _ payload = Unit

abbrev pub Honest : Bytes → Event → Type 0
Honest log e = elim (e.what) [
  | frame_read tag payload ↦ HonestKind log (kind_of tag (length payload)) payload
  | _ ↦ Unit
]

-- The frame is printed from the cursor on.
first_frame :
    (log : Bytes) (c : OutputChunk) (s : Screen) (skip next : ℕ)
    → length log ≤ u64_max
    → offset_frame_progress s.cursor c.offset (length c.bytes) ≡ advance skip next
    → IsSlice log c
    → s.cursor ≡ none
    → s.printed ≡ []
    → Shows log c.offset
        (record { cursor = some next; printed = s.printed ++ drop skip c.bytes })
        next
unfolding offset_frame_progress
first_frame log c s skip next small e sl unset blank =
    let none_skipped : skip ≡ 0 = ground (arith, sl.within) in
    let end : next ≡ c.offset + length c.bytes = ground (arith, sl.within) in
    let size : length c.bytes ≡ next - c.offset = omega arith in
    record {
      cursor_is = refl;
      reached = omega (arith, sl.within);
      started = omega arith;
      printed_is = rw (blank, none_skipped) (sl.slice ∙ ap (λ n. take n (drop c.offset log)) size);
    }

shown_as :
    (c : OutputChunk) (s s' : Screen) (skip next : ℕ)
    → offset_frame_progress s.cursor c.offset (length c.bytes) ≡ advance skip next
    → receive c s ≡ shown s'
    → s' ≡ record { cursor = some next; printed = s.printed ++ drop skip c.bytes }
unfolding receive
shown_as c s s' skip next e r = ground arith

not_beyond :
    (c : OutputChunk) (s : Screen) (skip next cursor : ℕ)
    → offset_frame_progress s.cursor c.offset (length c.bytes) ≡ advance skip next
    → s.cursor ≡ some cursor
    → c.offset ≤ cursor
unfolding offset_frame_progress
not_beyond c s skip next cursor e k = ground arith

advanced :
    (log : Bytes) (c : OutputChunk) (s : Screen) (skip next : ℕ)
    → length log ≤ u64_max
    → offset_frame_progress s.cursor c.offset (length c.bytes) ≡ advance skip next
    → IsSlice log c
    → Exactly log s
    → Exactly log (record { cursor = some next; printed = s.printed ++ drop skip c.bytes })
advanced log c s skip next small e sl (inl (unset, blank)) =
    inr (c.offset, next, first_frame log c s skip next small e sl unset blank)
advanced log c s skip next small e sl (inr (origin, cursor, v)) =
    let (s', r, shows) =
      receive-Shows log origin cursor s c small v sl
        (not_beyond c s skip next cursor e v.cursor_is) in
    let end = max cursor (c.offset + length c.bytes) in
    inr (origin, end, subst (λ x. Shows log origin x end) (shown_as c s s' skip next e r) shows)

module _ (log : Bytes) (small : length log ≤ u64_max) (o : Options)
    (piped : o.local_stdout_is_terminal ≡ false) where
  Keeps : Next → Type 0
  Keeps n = ((client_of n).visual_reconnect ≡ false) × Exactly log (screen_of (client_of n))

  reconnect_after_loss-Keeps :
      (p : Pause) (c : Client) → Keeps (stream c) → Keeps (reconnect_after_loss p c)
  unfolding Keeps
  reconnect_after_loss-Keeps p c (flat, h) =
      let w = wait_reconnect p.typed p.elapses c.filter in
      let same : (if c.visual_reconnect then none else c.cursor) ≡ c.cursor = ground arith in
      if_ind Keeps w.0
        (returned 0
          (record c { filter = w.1; restored = true; cleanup = false; reconnecting = true }))
        (connect (record c {
          filter = w.1;
          reconnecting = true;
          cursor = if c.visual_reconnect then none else c.cursor;
          delay = min (c.delay * 2) 5000;
        }))
        (flat, h)
        (flat, subst (λ k. Exactly log (record { cursor = k; printed = c.printed })) (sym same) h)

  lost-Keeps : (p : Pause) (c : Client) → Keeps (stream c) → Keeps (lost o p c)
  unfolding lost Keeps
  lost-Keeps p c h =
      if_ind Keeps (not o.reconnect) (returned_error c)
        (if not c.resumable then returned_error c else reconnect_after_loss p c) h
        (if_ind Keeps (not c.resumable) (returned_error c) (reconnect_after_loss p c) h
          (reconnect_after_loss-Keeps p c h))

  print_or_fail-Keeps :
      (written : Bool) (before after : Client)
      → Keeps (stream before)
      → Keeps (stream after)
      → Keeps (print_or_fail written before after)
  print_or_fail-Keeps written before after h k =
      if_ind Keeps written (stream after) (returned_error before) (unfold Keeps in k)
        (unfold Keeps in h)

  on_offset_frame-Keeps :
      (p : Pause) (written : Bool) (payload : Bytes) (g : Progress) (c : Client)
      → offset_frame_progress c.cursor (from_be64 payload) (length (drop 8 payload)) ≡ g
      → HonestKind log offset_output payload
      → Keeps (stream c)
      → Keeps (on_progress o p written (drop 8 payload) g c)
  unfolding on_progress Keeps
  on_offset_frame-Keeps p written payload (gap expected received) c e honest h =
      if_ind Keeps (not o.reconnect) (returned_error c) (reconnect_after_loss p c) h
        (reconnect_after_loss-Keeps p c h)
  on_offset_frame-Keeps p written payload (advance skip next) c e honest h =
      print_or_fail-Keeps written c
        (record c { cursor = some next; printed = c.printed ++ drop skip (drop 8 payload) }) h
        (
          h.0,
          advanced log (record { offset = from_be64 payload; bytes = drop 8 payload }) (screen_of c)
              skip next small e honest h.1,
        )

  on_kind-Keeps :
      (p : Pause) (written : Bool) (k : Kind) (payload : Bytes) (c : Client)
      → HonestKind log k payload
      → Keeps (stream c)
      → Keeps (on_kind o p written k payload c)
  unfolding on_kind on_offset_frame Keeps
  on_kind-Keeps p written offset_output payload c honest h =
      on_offset_frame-Keeps p written payload
        (offset_frame_progress c.cursor (from_be64 payload) (length (drop 8 payload))) c refl honest
        h
  on_kind-Keeps p written output payload c honest h = absurd honest
  on_kind-Keeps p written failure payload c honest h = h
  on_kind-Keeps p written ended payload c honest h = h
  on_kind-Keeps p written detach_frame payload c honest h = h
  on_kind-Keeps p written ignored payload c honest h = h

  send_input-Keeps :
      (p : Pause) (written : Bool) (forward : Bytes) (c : Client) (k : Client → Next)
      → Keeps (stream c)
      → ((c' : Client) → Keeps (stream c') → Keeps (k c'))
      → Keeps (send_input o p written forward c k)
  unfolding send_input Keeps
  send_input-Keeps p written forward c k h step =
      let c' = record c { sent = c.sent ++ (c_input, forward) ∷ [] } in
      if_ind Keeps (is_empty forward) (k c) (if written then k c' else lost o p c) (step c h)
        (if_ind Keeps written (k c') (lost o p c) (step c' h) (lost-Keeps p c h))

  on_typed-Keeps :
      (p : Pause) (written : Bool) (bytes : Bytes) (c : Client)
      → Keeps (stream c)
      → Keeps (on_typed o p written bytes c)
  unfolding on_typed Keeps
  on_typed-Keeps p written bytes c h =
      let (f, forward, done) = push c.filter bytes in
      send_input-Keeps p written forward (record c { filter = f })
        (λ c'.
          if done then returned 0 (record c' { restored = true; cleanup = false }) else stream c')
        h
        (λ c' h'.
          if_ind Keeps done (returned 0 (record c' { restored = true; cleanup = false }))
            (stream c') h' h')

  on_event-Keeps :
      (p : Pause) (written : Bool) (e : StreamEvent) (c : Client)
      → Honest log (record { what = e; written = written; pause = p })
      → Keeps (stream c)
      → Keeps (on_stream_event o p written e c)
  unfolding on_stream_event on_frame on_resized on_escape_timeout Keeps
  on_event-Keeps p written (frame_read tag payload) c honest h =
      on_kind-Keeps p written (kind_of tag (length payload)) payload c honest h
  on_event-Keeps p written stream_closed c honest h = lost-Keeps p c h
  on_event-Keeps p written stream_failed c honest h = lost-Keeps p c h
  on_event-Keeps p written (typed bytes) c honest h = on_typed-Keeps p written bytes c h
  on_event-Keeps p written escape_timeout c honest h =
      let (f, forward) = flush_partial_escape c.filter in
      if_ind Keeps (has_partial_escape c.filter)
        (send_input o p written forward (record c { filter = f }) stream) (stream c)
        (send_input-Keeps p written forward (record c { filter = f }) stream h (λ c' h'. h')) h
  on_event-Keeps p written (resized cols rows) c honest h =
      let c' = record c { sent = c.sent ++ (c_resize, resize_payload cols rows) ∷ [] } in
      if_ind Keeps written (stream c') (lost o p c) h (lost-Keeps p c h)

  run_stream-Keeps :
      (es : List Event) (c : Client)
      → All (Honest log) es
      → Keeps (stream c)
      → Keeps (run_stream o es c)
  unfolding run_stream on_event
  run_stream-Keeps [] c honest h = h
  run_stream-Keeps (e ∷ es) c honest h =
      while_stream_ind Keeps (on_event o e c) (λ c'. run_stream o es c')
        (on_event-Keeps e.pause e.written e.what c honest.0 h)
        (λ c' h'. run_stream-Keeps es c' honest.1 h')

  on_ready-Keeps :
      (remote_tty : Bool) (queued : List Bytes) (c : Client)
      → Keeps (connect c)
      → Keeps (on_ready o remote_tty queued c)
  unfolding on_ready Keeps
  on_ready-Keeps remote_tty queued c (flat, h) =
      let c' = record c {
        established_once = true;
        cleanup = true;
        delay = 250;
        visual_reconnect = o.local_stdout_is_terminal && remote_tty;
        reconnecting = false;
      } in
      let (done, f) = discard_queued_input queued c.filter in
      if_ind Keeps done (detached (record c' { filter = f }))
        (stream (record c' { filter = discard_pending f })) (ground arith, h) (ground arith, h)

  failed_handshake-Keeps :
      (p : Pause) (c : Client)
      → Keeps (connect c)
      → Keeps (
          if not c.established_once || not o.reconnect
          then returned_error c
          else reconnect_after_loss p c)
  unfolding Keeps
  failed_handshake-Keeps p c h =
      if_ind Keeps (not c.established_once || not o.reconnect) (returned_error c)
        (reconnect_after_loss p c) h (reconnect_after_loss-Keeps p c h)

  after_handshake-Keeps :
      (queued : List Bytes) (p : Pause) (r : Handshake) (c : Client)
      → Keeps (connect c)
      → Keeps (after_handshake o queued p r c)
  unfolding after_handshake Keeps
  after_handshake-Keeps queued p (is_ready remote_tty) c h = on_ready-Keeps remote_tty queued c h
  after_handshake-Keeps queued p user_detached c h = h
  after_handshake-Keeps queued p no_bridge c h = failed_handshake-Keeps p c h
  after_handshake-Keeps queued p refused c h = failed_handshake-Keeps p c h
  after_handshake-Keeps queued p late c h = failed_handshake-Keeps p c h

  attach-kept :
      (ns : List Connection) (c : Client)
      → All (λ n. All (Honest log) n.events) ns
      → Keeps (connect c)
      → Keeps (attach o ns c)
  unfolding attach connection Keeps
  attach-kept [] c honest h = h
  attach-kept (n ∷ ns) c honest h =
      let (r, f) = handshake n.greeting c.filter in
      let c' = record (ask c) { filter = f } in
      while_connect_ind Keeps (connection o n c) (λ x. attach o ns x)
        (if_ind Keeps n.opens
          (while_stream (after_handshake o n.queued n.pause r c') (λ x. run_stream o n.events x))
          (returned_error c)
          (while_stream_ind Keeps (after_handshake o n.queued n.pause r c')
            (λ x. run_stream o n.events x) (after_handshake-Keeps n.queued n.pause r c' h)
            (λ x h'. run_stream-Keeps n.events x honest.0 h'))
          h)
        (λ x h'. attach-kept ns x honest.1 h')

  -- Let the length of the log be a 64-bit number and the client's output not be a terminal, let
  -- every frame with an offset carry that part of the log, and let no output come without an
  -- offset. Then after any number of connections, lost or not, what the client has printed is the
  -- log from some offset to its cursor, or nothing if it has no cursor.
  pub attach-Exactly :
      (ns : List Connection)
      → All (λ n. All (Honest log) n.events) ns
      → Exactly log (screen_of (client_of (attach o ns new_client)))
  unfolding Keeps
  attach-Exactly ns honest = (attach-kept ns new_client honest (refl, inl (refl, refl))).1
