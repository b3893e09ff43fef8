-- ===== src/Worker/Serve.antt =====
-- src/run.rs: `serve_worker`, from the first status to the last.
pub mod Lifecycle
pub mod Starts
pub mod Recorded
pub mod Codes
pub mod Stale
pub mod Killed
use babysit.Prelude.{
  ℕ, Bool, true, false, ◌&&◌, ◌||◌, List, [], ◌∷◌, ◌++◌, Option, none, some, leb, if◌then◌else◌,
}
use babysit.Frame.{ExitInfo}
use babysit.Session.{State, running, exited, killed, Status, starting_status}
use babysit.Worker.Terminate.{
  Os, Termination, Terminated, TerminateError, ended, failed, terminate_pane,
}

-- What a kill request is answered.
pub data Reply : Type 0 where
  confirmed : Bool → State → Option ℕ → Reply
  already_exited : Reply
  kill_failed : TerminateError → Reply

-- What the loop is woken by. `spawned` is the child's pid if the command could be started again.
pub data Wake : Type 0 where
  timeout_at : Wake
  idle_tick : ℕ → Wake
  restart : (spawned : Option (Option ℕ)) → Wake
  kill_request : Wake
  exit_notify : Wake

-- An event: the state in which the system then is, and whether a status written in it is stored.
pub record Event (S : Type 0) : Type 0 where
  pub wake : Wake
  pub at : S
  pub written : Bool

-- The statuses stored so far, the last one being on disk, and the replies sent.
pub record Book : Type 0 where
  pub statuses : List Status
  pub replies : List Reply

-- Where the loop stands: it goes on, it is left for the shutdown, or the function returns an error.
pub data Next : Type 0 where
  onward : Next
  leave : (info : Option ExitInfo) (terminal_status_written termination_requested : Bool) → Next
  return_error : Next

abbrev pub store : Status → Book → Book
store s b = record b { statuses = b.statuses ++ s ∷ [] }

abbrev pub answer : Reply → Book → Book
answer r b = record b { replies = b.replies ++ r ∷ [] }

-- `write_status(..).await?`
abbrev pub write_or_return : Bool → Status → Next → Book → Next × Book
write_or_return written s next b = if written then (next, store s b) else (return_error, b)

abbrev pub running_status : Option ℕ → Status
running_status pid = record { state = running; child_pid = pid; exit_code = none }

abbrev pub code_of : Option ExitInfo → Option ℕ
code_of none = none
code_of (some i) = i.code

abbrev pub ended_status : State → Option ExitInfo → Status
ended_status state info = record { state = state; child_pid = none; exit_code = code_of info }

abbrev pub killed_if : Bool → State
killed_if b = if b then killed else exited

-- The timeout and the idle timeout end the command.
abbrev pub expire : {S : Type 0} → Terminated S → Book → Next × Book
expire (ended t s) b = (leave (some t.info) false t.signal_sent, b)
expire (failed e s) b = (return_error, b)

abbrev pub restarted : Option (Option ℕ) → Bool → Book → Next × Book
restarted none written b = (return_error, b)
restarted (some pid) written b = write_or_return written (running_status pid) onward b

abbrev pub on_restart : {S : Type 0} → Terminated S → Option (Option ℕ) → Bool → Book → Next × Book
on_restart (ended t s) spawned written b = restarted spawned written b
on_restart (failed e s) spawned written b = (return_error, b)

abbrev pub kill_state : Termination → State
kill_state t = killed_if (t.signal_sent || t.info.signaled)

abbrev pub kill_reply : Termination → Reply
kill_reply t =
    if t.signal_sent then confirmed t.escalated (kill_state t) t.info.code else already_exited

abbrev pub on_kill : {S : Type 0} → Terminated S → Bool → Book → Next × Book
on_kill (failed e s) written b = (onward, answer (kill_failed e) b)
on_kill (ended t s) written b =
    if written
    then (
      leave (some t.info) true false,
      answer (kill_reply t) (store (ended_status (kill_state t) (some t.info)) b),
    )
    else (return_error, b)

-- The limits that the command line gives: whether there is a timeout, and the idle limit.
pub record Limits : Type 0 where
  pub has_timeout : Bool
  pub idle_limit_ms : Option ℕ

module _ {S : Type 0} (os : Os S) (limits : Limits) where
  abbrev pub on_idle : Option ℕ → ℕ → S → Book → Next × Book
  on_idle none idle_ms s b = (onward, b)
  on_idle (some limit) idle_ms s b =
      if leb limit idle_ms then expire (terminate_pane os s) b else (onward, b)

  -- One round of the loop: a branch of its `select!`.
  pub on_wake : Wake → S → Bool → Book → Next × Book
  on_wake timeout_at s written b =
      if limits.has_timeout then expire (terminate_pane os s) b else (onward, b)
  on_wake (idle_tick idle_ms) s written b = on_idle limits.idle_limit_ms idle_ms s b
  on_wake (restart spawned) s written b = on_restart (terminate_pane os s) spawned written b
  on_wake kill_request s written b = on_kill (terminate_pane os s) written b
  on_wake exit_notify s written b = (leave (os.exit_info s) false false, b)

  abbrev after : Next × Book → (Book → Next × Book) → Next × Book
  after (onward, b) k = k b
  after (leave info written requested, b) k = (leave info written requested, b)
  after (return_error, b) k = (return_error, b)

  -- The loop: `onward` if it is still waiting after the events.
  unfoldable pub run_loop : List (Event S) → Book → Next × Book
  unfolding on_wake
  run_loop [] b = (onward, b)
  run_loop (e ∷ es) b = after (on_wake e.wake e.at e.written b) (λ b'. run_loop es b')

  after_ind :
      (K : Next × Book → Type 0) (r : Next × Book) (k : Book → Next × Book)
      → K r
      → ((b : Book) → K (onward, b) → K (k b))
      → K (after r k)
  after_ind K (onward, b) k h step = step b h
  after_ind K (leave info written requested, b) k h step = h
  after_ind K (return_error, b) k h step = h

  -- What each round keeps, the loop keeps.
  pub run_loop_ind :
      (K : Next × Book → Type 0)
      → ((w : Wake) (s : S) (written : Bool) (b : Book) → K (onward, b) → K (on_wake w s written b))
      → (es : List (Event S)) (b : Book) → K (onward, b)
      → K (run_loop es b)
  unfolding run_loop
  run_loop_ind K step [] b h = h
  run_loop_ind K step (e ∷ es) b h =
      after_ind K (on_wake e.wake e.at e.written b) (λ b'. run_loop es b')
        (step e.wake e.at e.written b h) (λ b' k. run_loop_ind K step es b' k)

-- How the function ends, and what it leaves behind. `served` carries the exit that attached clients
-- are told.
pub data End : Type 0 where
  still_running : Book → End
  returned_error : Book → End
  served : ExitInfo → Book → End

abbrev pub or_signaled : Option ExitInfo → ExitInfo
or_signaled none = record { code = none; signaled = true }
or_signaled (some i) = i

abbrev pub was_signaled : Option ExitInfo → Bool
was_signaled none = true
was_signaled (some i) = i.signaled

-- The shutdown; `written` says whether the last status is stored.
abbrev pub shut_down : Bool → Next × Book → End
shut_down written (onward, b) = still_running b
shut_down written (return_error, b) = returned_error b
shut_down written (leave info true requested, b) = served (or_signaled info) b
shut_down written (leave info false requested, b) =
    if written
    then served (or_signaled info)
        (store (ended_status (killed_if (requested || was_signaled info)) info) b)
    else returned_error b

-- How the steps before the loop turn out: which files are stored, whether the command is spawned
-- (and its pid), and whether the control socket is set up.
pub record Setup : Type 0 where
  pub meta_written : Bool
  pub starting_written : Bool
  pub spawned : Option (Option ℕ)
  pub exited_written : Bool
  pub running_written : Bool
  pub serves : Bool
  pub killed_written : Bool
  pub last_written : Bool

abbrev pub store_if : Bool → Status → Book → Book
store_if written s b = if written then store s b else b

abbrev pub setup_failure_status : Status
setup_failure_status = record { state = killed; child_pid = none; exit_code = some 1 }

abbrev pub no_book : Book
no_book = record { statuses = []; replies = [] }

-- The command runs and the setup goes on to the control socket and the loop.
unfoldable pub supervise : {S : Type 0} → Os S → Limits → Setup → List (Event S) → Book → End
unfolding run_loop
supervise os limits setup events runs =
    if setup.serves
    then shut_down setup.last_written (run_loop os limits events runs)
    else returned_error (store_if setup.killed_written setup_failure_status runs)

abbrev pub launched :
    {S : Type 0} → Os S → Limits → Setup → List (Event S) → Option (Option ℕ) → Book → End
launched os limits setup events none started =
    returned_error (store_if setup.exited_written (ended_status exited none) started)
launched os limits setup events (some pid) started =
    if setup.running_written
    then supervise os limits setup events (store (running_status pid) started)
    else returned_error started

-- `serve_worker`
unfoldable pub serve_worker : {S : Type 0} → Os S → Limits → Setup → List (Event S) → End
serve_worker os limits setup events =
    if setup.meta_written && setup.starting_written
    then launched os limits setup events setup.spawned (store starting_status no_book)
    else returned_error no_book
