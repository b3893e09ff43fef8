-- ===== src/Control.antt =====
-- src/control.rs: the requests to a worker over its socket.
pub mod Kill
pub mod Attach
use babysit.Prelude.{
  ℕ, zero, suc, ◌+◌, ◌%◌, ◌^◌, Bool, true, false, not, ◌&&◌, ◌||◌, List, [], ◌∷◌, ◌++◌, Option,
  none, some, Bytes, length, leb, if◌then◌else◌,
}
use babysit.Session.{State, Status, is_terminal}
use babysit.Worker.Serve.{Reply, confirmed, already_exited, kill_failed}

-- `Request`, less `Attach`, which is handled before.
pub data Request : Type 0 where
  status : Request
  log : (tail : Option ℕ) (raw : Bool) → Request
  screenshot : Request
  send : (text : Bytes) (newline : Bool) → Request
  resize : (cols rows : ℕ) → Request
  kill restart detach : Request

-- What the main loop answers a kill request within seven seconds: a reply, none because it has
-- dropped the request, or nothing yet.
pub data Waited : Type 0 where
  replied : Reply → Waited
  dropped late : Waited

-- How a round of `kill_race_error` finds the recorded status, and the time in milliseconds.
pub record RaceLook : Type 0 where
  pub recorded : Option Status
  pub now : ℕ

-- The errors of a request.
pub data Error : Type 0 where
  loop_gone unreadable_status finished_before no_terminal_state kill_error log_error waiting : Error
  not_confirmed : Error → Error

-- `kill_race_error`, which never succeeds.
unfoldable pub kill_race_error : ℕ → List RaceLook → Error
kill_race_error deadline [] = waiting
kill_race_error deadline (l ∷ ls) =
    let rest = kill_race_error deadline ls in
    elim (l.recorded) [
      | none ↦ unreadable_status
      | some s ↦
          if is_terminal s.state
          then finished_before
          else if leb deadline l.now
          then no_terminal_state
          else rest
    ]

-- The data of a response.
pub data Data : Type 0 where
  status_data : Status → (output_bytes screen_seq : ℕ) → Data
  text_data : Bytes → Data
  screen_data : Bytes → (screen_seq : ℕ) → Data
  sent_data : (sent offset : ℕ) → Data
  size_data : (cols rows : ℕ) → Data
  killed_data : (escalated : Bool) → State → Option ℕ → Data
  restart_queued detached : Data

pub data Response : Type 0 where
  ok : Data → Response
  err : Error → Response

-- What a request meets: the recorded status, the length of the log (0 if it cannot be read), the text
-- that `read_log` makes of it, the rendered screen and the frame counter, whether the main loop is
-- there, what it answers a kill, and the rounds of `kill_race_error`.
pub record World : Type 0 where
  pub recorded : Option Status
  pub output_bytes : ℕ
  pub read_log : Option ℕ → Bool → Option Bytes
  pub rendered : Bytes
  pub screen_seq : ℕ
  pub loop_alive : Bool
  pub answer : Waited
  pub races : List RaceLook
  pub race_deadline : ℕ

-- What a request does: bytes for the pane's input, a new size, messages for the main loop, and the
-- generation that detaches the clients.
pub record Effects : Type 0 where
  pub input : Bytes
  pub size : Option (ℕ × ℕ)
  pub restarts : ℕ
  pub kills : ℕ
  pub generation : ℕ

abbrev pub status_response : World → Option Status → Response
status_response w none = err unreadable_status
status_response w (some s) = ok (status_data s w.output_bytes w.screen_seq)

abbrev pub log_response : Option Bytes → Response
log_response none = err log_error
log_response (some text) = ok (text_data text)

abbrev pub reply_response : Reply → Response
reply_response (confirmed escalated state code) = ok (killed_data escalated state code)
reply_response already_exited = err kill_error
reply_response (kill_failed e) = err kill_error

abbrev pub kill_response : World → Waited → Response
unfolding kill_race_error
kill_response w (replied r) = reply_response r
kill_response w dropped = err (kill_race_error w.race_deadline w.races)
kill_response w late = err (not_confirmed (kill_race_error w.race_deadline w.races))

-- `Pane::resize`: a size with a zero is ignored.
abbrev pub resized : ℕ → ℕ → Effects → Effects
resized rows zero e = e
resized zero (suc cols) e = e
resized (suc rows) (suc cols) e = record e { size = some (suc rows, suc cols) }

abbrev pub newline_bytes : Bool → Bytes
newline_bytes newline = if newline then b'\n' ∷ [] else []

-- `dispatch`
unfoldable pub dispatch : World → Request → Effects → Response × Effects
unfolding kill_response
dispatch w status e = (status_response w w.recorded, e)
dispatch w (log tail raw) e = (log_response (w.read_log tail raw), e)
dispatch w screenshot e = (ok (screen_data w.rendered w.screen_seq), e)
dispatch w (send text newline) e = (
  ok (sent_data (length text + (if newline then 1 else 0)) w.output_bytes),
  record e { input = e.input ++ (text ++ newline_bytes newline) },
)
dispatch w (resize cols rows) e = (ok (size_data cols rows), resized rows cols e)
dispatch w kill e =
    if w.loop_alive
    then (kill_response w w.answer, record e { kills = suc e.kills })
    else (err loop_gone, e)
dispatch w restart e =
    if w.loop_alive
    then (ok restart_queued, record e { restarts = suc e.restarts })
    else (err loop_gone, e)
dispatch w detach e = (ok detached, record e { generation = (e.generation + 1) % 2 ^ 64 })
