-- ===== src/Local.antt =====
-- src/attach.rs: `attach_to`, the client of a session on this machine.
pub mod Connect
pub mod Exits
pub mod Shown
pub mod Typed
use babysit.Prelude.{
  ℕ, zero, suc, ◌+◌, Bool, true, false, not, ◌&&◌, ◌||◌, List, [], ◌∷◌, ◌++◌, Option, none, some,
  Bytes, map, concat, length, drop, leb, ◌==◌, is_empty, if◌then◌else◌, codes,
}
use babysit.Frame.{
  s_output, s_exit, s_detached, s_output_offset, s_error, c_input, c_resize, parse_exit,
  resize_payload,
}
use babysit.Detach.{Filter, default, push, has_partial_escape, flush_partial_escape, esc}
use babysit.Session.{Status, is_terminal, exit_code_from_status}

-- `session_finished`
abbrev pub session_finished : Option Status → Bool
session_finished none = false
session_finished (some s) = is_terminal s.state

-- What one attempt to connect finds: whether the two sockets accept, and the status on record.
pub record Attempt : Type 0 where
  pub socket : Bool
  pub legacy_socket : Bool
  pub status : Option Status

abbrev pub accepts : Attempt → Bool
accepts a = a.socket || a.legacy_socket

-- A connection at the given attempt, which is the number of pauses before it.
pub data Connected : Type 0 where
  connected : ℕ → Connected
  finished unreachable : Connected

-- `connect_from find status n i`: `n` attempts are left, and `i` have been made.
unfoldable pub connect_from : (ℕ → Attempt) → Option Status → ℕ → ℕ → Connected
connect_from find status zero i = if session_finished status then finished else unreachable
connect_from find status (suc n) i =
    let rest = connect_from find status n (suc i) in
    if accepts (find i)
    then connected i
    else if session_finished (find i).status
    then finished
    else rest

-- `connect_retry`; the status is read once more behind the last attempt.
unfoldable pub connect_retry : (ℕ → Attempt) → Option Status → Connected
connect_retry find status = connect_from find status 75 0

-- What the select of `attach_to` takes: a frame, the end of the connection, with the status that is
-- then on record, what is typed, the end of the input, the end of the wait for an escape sequence, or
-- a window that has changed, whose size may be unknown. A flag says whether a frame can be written.
pub data Event : Type 0 where
  frame : ℕ → Bytes → Event
  closed : Option Status → Event
  typed : Bytes → Bool → Event
  typing_ended : Event
  escape_timeout : Bool → Event
  resized : Option (ℕ × ℕ) → Bool → Event

-- The client: the filter of what is typed, what was handed to the standard output, whose errors
-- `attach_to` ignores, and the frames that were sent.
pub record Client : Type 0 where
  pub filter : Filter
  pub printed : Bytes
  pub sent : List (ℕ × Bytes)

-- How `attach_to` ends: with an exit code, where the flag says that the terminal is restored, or with
-- an error. `attached` is no end.
pub data Ending : Type 0 where
  attached : Ending
  done : ℕ → Bool → Ending
  attach_failed : Bytes → Ending
  write_failed not_connected : Ending

abbrev pub print : Bytes → Client → Client
print bytes c = record c { printed = c.printed ++ bytes }

abbrev pub send : ℕ × Bytes → Client → Client
send f c = record c { sent = c.sent ++ f ∷ [] }

-- The arm of a frame.
unfoldable pub on_frame : ℕ → Bytes → Client → Ending × Client
on_frame tag payload c =
    if tag == s_output
    then (attached, print payload c)
    else if tag == s_output_offset && leb 8 (length payload)
    then (attached, print (drop 8 payload) c)
    else if tag == s_error
    then (attach_failed payload, c)
    else if tag == s_exit
    then (done (parse_exit payload) false, c)
    else if tag == s_detached
    then (done 0 true, c)
    else (attached, c)

-- `if !forward.is_empty() { write_frame(C_INPUT) }`, with what follows.
abbrev pub forward_input : Bytes → Bool → Client → Ending → Ending × Client
forward_input bytes written c next =
    if is_empty bytes
    then (next, c)
    else if written
    then (next, send (c_input, bytes) c)
    else (write_failed, c)

-- The arm of what is typed.
unfoldable pub on_typed : Bytes → Bool → Client → Ending × Client
on_typed bytes written c =
    let (filter, forward, detach) = push c.filter bytes in
    forward_input forward written (record c { filter = filter })
      (if detach then done 0 true else attached)

-- The arm of the timeout, which waits only behind a partial escape sequence.
unfoldable pub on_timeout : Bool → Client → Ending × Client
on_timeout written c =
    if has_partial_escape c.filter
    then (let (filter, forward) = flush_partial_escape c.filter in
        forward_input forward written (record c { filter = filter }) attached)
    else (attached, c)

unfoldable pub on_resized : Option (ℕ × ℕ) → Bool → Client → Ending × Client
on_resized none written c = (attached, c)
on_resized (some (cols, rows)) written c =
    if written then (attached, send (c_resize, resize_payload cols rows) c) else (write_failed, c)

unfoldable pub on_event : Event → Client → Ending × Client
unfolding on_frame on_typed on_timeout on_resized
on_event (frame tag payload) c = on_frame tag payload c
on_event (closed status) c = (done (exit_code_from_status status) true, c)
on_event (typed bytes written) c = on_typed bytes written c
on_event typing_ended c = (attached, c)
on_event (escape_timeout written) c = on_timeout written c
on_event (resized size written) c = on_resized size written c

abbrev pub proceed : Ending × Client → (Client → Ending × Client) → Ending × Client
proceed (attached, c) rest = rest c
proceed (done code restore, c) rest = (done code restore, c)
proceed (attach_failed message, c) rest = (attach_failed message, c)
proceed (write_failed, c) rest = (write_failed, c)
proceed (not_connected, c) rest = (not_connected, c)

-- The loop.
unfoldable pub stream : List Event → Client → Ending × Client
unfolding on_event
stream [] c = (attached, c)
stream (e ∷ es) c = proceed (on_event e c) (λ c'. stream es c')

-- `restore_terminal_modes`
abbrev pub cleanup : Bytes
cleanup =
    concat (
      map (◌∷◌ esc) (
        codes "[?1049l"
        ∷ codes "[?25h"
        ∷ codes "[?1000l"
        ∷ codes "[?1002l"
        ∷ codes "[?1003l"
        ∷ codes "[?1006l"
        ∷ codes "[?1015l"
        ∷ codes "[?2004l"
        ∷ codes "[?1004l"
        ∷ codes "[<u"
        ∷ codes "[0m"
        ∷ []))
    ++ 13 ∷ []

abbrev pub restore : Ending × Client → Ending × Client
restore (done code true, c) = (done code true, print cleanup c)
restore r = r

abbrev pub fresh : Client
fresh = record { filter = default; printed = []; sent = [] }

-- `fallback_finished`: `log` is the recorded output, if it can be read, and the status is read again.
unfoldable pub fallback_finished : Option Bytes → Option Status → Ending × Client
fallback_finished log status = (
  done (exit_code_from_status status) false,
  elim log [ none ↦ fresh | some bytes ↦ print bytes fresh ],
)

-- `attach_to`, where the greeting can be written or not.
unfoldable pub attach_to :
    (ℕ → Attempt)
    → Option Status
    → Option Bytes
    → Option Status
    → Bool
    → List Event
    → Ending × Client
unfolding connect_retry stream fallback_finished
attach_to find status log recorded greeted es = elim (connect_retry find status) [
  | connected i ↦ if greeted then restore (stream es fresh) else (write_failed, fresh)
  | finished ↦ fallback_finished log recorded
  | unreachable ↦ (not_connected, fresh)
]
