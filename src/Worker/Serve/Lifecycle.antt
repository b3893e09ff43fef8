-- ===== src/Worker/Serve/Lifecycle.antt =====
-- src/run.rs: the statuses that a worker records, from the first to the last.
use babysit.Prelude.{
  ℕ, ◌≡◌, refl, sym, ap, subst, Bool, true, false, List, [], ◌∷◌, ◌++◌, Option, none, some, ◌⊎◌,
  inl, inr, if_ind, ◌||◌, leb, ◌&&◌,
}
use babysit.Frame.{ExitInfo}
use babysit.Session.{State, starting, running, exited, killed, is_terminal, Status, starting_status}
use babysit.Worker.Terminate.{Os, Terminated, ended, failed, terminate_pane}
use babysit.Worker.Serve.{
  Event, Wake, timeout_at, idle_tick, restart, kill_request, exit_notify, Book, Next, onward, leave,
  return_error, store, running_status, ended_status, killed_if, on_wake, on_idle, run_loop_ind,
  was_signaled, store_if, run_loop, Limits, End, still_running, returned_error, served, shut_down,
  Setup, serve_worker, no_book, setup_failure_status, supervise, launched, expire, on_restart,
  on_kill,
}

-- The life of a session.
pub data Step : State → State → Type 0 where
  launch : Step starting running
  fail : Step starting exited
  relaunch : Step running running
  finish : Step running exited
  kill : Step running killed

abbrev pub Follows : State → List Status → State → Type 0
Follows a [] b = a ≡ b
Follows a (s ∷ ss) b = Step a s.state × Follows s.state ss b

-- The recorded statuses begin with `starting` and follow the steps, up to the given state.
abbrev pub IsHistory : List Status → State → Type 0
IsHistory ss st = (rest : List Status) × (ss ≡ starting_status ∷ rest) × Follows starting rest st

Follows-append :
    (a b : State) (ss : List Status) (s : Status)
    → Follows a ss b
    → Step b s.state
    → Follows a (ss ++ s ∷ []) s.state
Follows-append a b [] s p step = (subst (λ x. Step x s.state) (sym p) step, refl)
Follows-append a b (x ∷ ss) s p step = (p.0, Follows-append x.state b ss s p.1 step)

IsHistory-append :
    (ss : List Status) (b : State) (s : Status)
    → IsHistory ss b
    → Step b s.state
    → IsHistory (ss ++ s ∷ []) s.state
IsHistory-append ss b s (rest, e, p) step =
    (rest ++ s ∷ [], ap (λ x. x ++ s ∷ []) e, Follows-append starting b rest s p step)

abbrev pub Terminal : Book → Type 0
Terminal b = (st : State) × IsHistory b.statuses st × (is_terminal st ≡ true)

-- What a round of the loop leaves of a history that was `running`.
Keeps : Next × Book → Type 0
Keeps (onward, b) = IsHistory b.statuses running
Keeps (leave info false r, b) = IsHistory b.statuses running
Keeps (leave info true r, b) = Terminal b
Keeps (return_error, b) = IsHistory b.statuses running

finished :
    (x : Bool) (i : Option ExitInfo) (b : Book)
    → IsHistory b.statuses running
    → Terminal (store (ended_status (killed_if x) i) b)
unfolding is_terminal
finished true i b h =
    (killed, IsHistory-append b.statuses running (ended_status killed i) h kill, refl)
finished false i b h =
    (exited, IsHistory-append b.statuses running (ended_status exited i) h finish, refl)

module _ {S : Type 0} (os : Os S) (limits : Limits) where
  expire-Keeps : (t : Terminated S) (b : Book) → IsHistory b.statuses running → Keeps (expire t b)
  unfolding Keeps
  expire-Keeps (ended t s) b h = h
  expire-Keeps (failed e s) b h = h

  on_restart-Keeps :
      (t : Terminated S) (spawned : Option (Option ℕ)) (written : Bool) (b : Book)
      → IsHistory b.statuses running
      → Keeps (on_restart t spawned written b)
  unfolding Keeps
  on_restart-Keeps (failed e s) spawned written b h = h
  on_restart-Keeps (ended t s) none written b h = h
  on_restart-Keeps (ended t s) (some pid) false b h = h
  on_restart-Keeps (ended t s) (some pid) true b h =
      IsHistory-append b.statuses running (running_status pid) h relaunch

  on_kill-Keeps :
      (t : Terminated S) (written : Bool) (b : Book)
      → IsHistory b.statuses running
      → Keeps (on_kill t written b)
  unfolding Keeps
  on_kill-Keeps (failed e s) written b h = h
  on_kill-Keeps (ended t s) false b h = h
  on_kill-Keeps (ended t s) true b h = finished (t.signal_sent || t.info.signaled) (some t.info) b h

  on_idle-Keeps :
      (limit : Option ℕ) (idle_ms : ℕ) (s : S) (b : Book)
      → IsHistory b.statuses running
      → Keeps (on_idle os limits limit idle_ms s b)
  unfolding Keeps
  on_idle-Keeps none idle_ms s b h = h
  on_idle-Keeps (some limit) idle_ms s b h =
      if_ind Keeps (leb limit idle_ms) (expire (terminate_pane os s) b) (onward, b)
        (expire-Keeps (terminate_pane os s) b h) h

  on_wake-Keeps :
      (w : Wake) (s : S) (written : Bool) (b : Book)
      → Keeps (onward, b)
      → Keeps (on_wake os limits w s written b)
  unfolding on_wake Keeps
  on_wake-Keeps timeout_at s written b h =
      if_ind Keeps limits.has_timeout (expire (terminate_pane os s) b) (onward, b)
        (expire-Keeps (terminate_pane os s) b h) h
  on_wake-Keeps (idle_tick idle_ms) s written b h = on_idle-Keeps limits.idle_limit_ms idle_ms s b h
  on_wake-Keeps (restart spawned) s written b h =
      on_restart-Keeps (terminate_pane os s) spawned written b h
  on_wake-Keeps kill_request s written b h = on_kill-Keeps (terminate_pane os s) written b h
  on_wake-Keeps exit_notify s written b h = h

-- How the recorded statuses stand when the worker ends, or while it runs.
abbrev pub Ends : End → Type 0
Ends (still_running b) = IsHistory b.statuses running
Ends (served info b) = Terminal b
Ends (returned_error b) = (b.statuses ≡ []) ⊎ ((st : State) × IsHistory b.statuses st)

shut_down-Ends : (written : Bool) (r : Next × Book) → Keeps r → Ends (shut_down written r)
unfolding Keeps
shut_down-Ends written (onward, b) h = h
shut_down-Ends written (return_error, b) h = inr (running, h)
shut_down-Ends written (leave info true requested, b) h = h
shut_down-Ends true (leave info false requested, b) h =
    finished (requested || was_signaled info) info b h
shut_down-Ends false (leave info false requested, b) h = inr (running, h)

store_if-Ends :
    (written : Bool) (a : State) (s : Status) (b : Book)
    → IsHistory b.statuses a
    → Step a s.state
    → Ends (returned_error (store_if written s b))
store_if-Ends true a s b h step = inr (s.state, IsHistory-append b.statuses a s h step)
store_if-Ends false a s b h step = inr (a, h)

runs : (pid : Option ℕ) → IsHistory (starting_status ∷ running_status pid ∷ []) running
runs pid = (running_status pid ∷ [], refl, (launch, refl))

supervise-Ends :
    {S : Type 0} (os : Os S) (limits : Limits) (setup : Setup) (events : List (Event S)) (b : Book)
    → IsHistory b.statuses running
    → Ends (supervise os limits setup events b)
unfolding supervise
supervise-Ends os limits setup events b h =
    if_ind Ends setup.serves (shut_down setup.last_written (run_loop os limits events b))
      (returned_error (store_if setup.killed_written setup_failure_status b))
      (shut_down-Ends setup.last_written (run_loop os limits events b)
        (run_loop_ind os limits Keeps (on_wake-Keeps os limits) events b (unfold Keeps in h)))
      (store_if-Ends setup.killed_written running setup_failure_status b h kill)

launched-Ends :
    {S : Type 0} (os : Os S) (limits : Limits) (setup : Setup) (events : List (Event S))
    (spawned : Option (Option ℕ))
    → Ends (launched os limits setup events spawned (store starting_status no_book))
launched-Ends os limits setup events none =
    store_if-Ends setup.exited_written starting (ended_status exited none)
      (store starting_status no_book) ([], refl, refl) fail
launched-Ends os limits setup events (some pid) =
    if_ind Ends setup.running_written
      (supervise os limits setup events
        (store (running_status pid) (store starting_status no_book)))
      (returned_error (store starting_status no_book))
      (supervise-Ends os limits setup events
        (store (running_status pid) (store starting_status no_book)) (runs pid))
      (inr (starting, ([], refl, refl)))

-- Whatever happens, and in whatever order, the statuses that are recorded follow the life of a
-- session: `starting` first, then nothing but `running`, and no status behind a terminal one. A worker
-- that still runs has `running` on record; one that ends without an error has recorded a terminal
-- status last.
pub serve_worker-Ends :
    {S : Type 0} (os : Os S) (limits : Limits) (setup : Setup) (events : List (Event S))
    → Ends (serve_worker os limits setup events)
unfolding serve_worker
serve_worker-Ends os limits setup events =
    if_ind Ends (setup.meta_written && setup.starting_written)
      (launched os limits setup events setup.spawned (store starting_status no_book))
      (returned_error no_book) (launched-Ends os limits setup events setup.spawned) (inl refl)
