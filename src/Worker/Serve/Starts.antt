-- ===== src/Worker/Serve/Starts.antt =====
-- src/run.rs: which starts of the command a worker has on record.
use babysit.Prelude.{
  ℕ, suc, ◌≡◌, refl, sym, ap, ◌∙◌, Bool, true, false, List, [], ◌∷◌, ◌++◌, Option, none, some, take,
  if_ind, ◌||◌, leb, append-nil, append_assoc,
}
use babysit.Session.{State, starting, running, exited, killed, is_terminal, Status}
use babysit.Worker.Terminate.{Os, Terminated, ended, failed, terminate_pane}
use babysit.Worker.Serve.{
  Event, Wake, timeout_at, idle_tick, restart, kill_request, exit_notify, Book, Next, onward, leave,
  return_error, running_status, ended_status, killed_if, on_wake, on_idle, after, run_loop, Limits,
  expire, on_restart, on_kill,
}

-- The pids of the children that are on record as running.
abbrev pub pid_if_running : State → Option ℕ → List (Option ℕ)
pid_if_running running pid = pid ∷ []
pid_if_running starting pid = []
pid_if_running exited pid = []
pid_if_running killed pid = []

abbrev pub recorded_pids : List Status → List (Option ℕ)
recorded_pids [] = []
recorded_pids (s ∷ ss) = pid_if_running s.state s.child_pid ++ recorded_pids ss

-- The pids of the children that are started again.
abbrev pub restarted_by : Wake → List (Option ℕ)
restarted_by (restart (some pid)) = pid ∷ []
restarted_by (restart none) = []
restarted_by timeout_at = []
restarted_by (idle_tick idle_ms) = []
restarted_by kill_request = []
restarted_by exit_notify = []

abbrev pub restarted_pids : {S : Type 0} → List (Event S) → List (Option ℕ)
restarted_pids [] = []
restarted_pids (e ∷ es) = restarted_by e.wake ++ restarted_pids es

recorded_pids-append :
    (ss ts : List Status) → recorded_pids (ss ++ ts) ≡ recorded_pids ss ++ recorded_pids ts
recorded_pids-append [] ts = refl
recorded_pids-append (s ∷ ss) ts =
    ap (λ i. pid_if_running s.state s.child_pid ++ i) (recorded_pids-append ss ts)
    ∙ sym (append_assoc (pid_if_running s.state s.child_pid) (recorded_pids ss) (recorded_pids ts))

-- One status more, which is terminal.
abbrev pub ThenTerminal : Book → Book → Type 0
ThenTerminal b b' =
    (last : Status) × (b'.statuses ≡ b.statuses ++ last ∷ []) × (is_terminal last.state ≡ true)

-- What a round of the loop makes of the record.
Records : Book → Wake → Next × Book → Type 0
Records b w (onward, b') = recorded_pids b'.statuses ≡ recorded_pids b.statuses ++ restarted_by w
Records b w (leave info true requested, b') = ThenTerminal b b'
Records b w (leave info false requested, b') = b'.statuses ≡ b.statuses
Records b w (return_error, b') = Unit

pub terminal_killed_if : (x : Bool) → is_terminal (killed_if x) ≡ true
unfolding is_terminal
terminal_killed_if true = refl
terminal_killed_if false = refl

module _ {S : Type 0} (os : Os S) (limits : Limits) where
  quiet : (b : Book) → recorded_pids b.statuses ≡ recorded_pids b.statuses ++ []
  quiet b = sym (append-nil (recorded_pids b.statuses))

  expire-Records : (t : Terminated S) (b : Book) (w : Wake) → Records b w (expire t b)
  unfolding Records
  expire-Records (ended t s) b w = refl
  expire-Records (failed e s) b w = tt

  on_restart-Records :
      (t : Terminated S) (spawned : Option (Option ℕ)) (written : Bool) (b : Book)
      → Records b (restart spawned) (on_restart t spawned written b)
  unfolding Records
  on_restart-Records (failed e s) spawned written b = tt
  on_restart-Records (ended t s) none written b = tt
  on_restart-Records (ended t s) (some pid) false b = tt
  on_restart-Records (ended t s) (some pid) true b =
      recorded_pids-append b.statuses (running_status pid ∷ [])

  on_kill-Records :
      (t : Terminated S) (written : Bool) (b : Book) → Records b kill_request (on_kill t written b)
  unfolding Records
  on_kill-Records (failed e s) written b = quiet b
  on_kill-Records (ended t s) false b = tt
  on_kill-Records (ended t s) true b =
      let x = t.signal_sent || t.info.signaled in
      (ended_status (killed_if x) (some t.info), refl, terminal_killed_if x)

  on_idle-Records :
      (limit : Option ℕ) (idle_ms : ℕ) (s : S) (b : Book)
      → Records b (idle_tick idle_ms) (on_idle os limits limit idle_ms s b)
  unfolding Records
  on_idle-Records none idle_ms s b = quiet b
  on_idle-Records (some limit) idle_ms s b =
      if_ind (Records b (idle_tick idle_ms)) (leb limit idle_ms) (expire (terminate_pane os s) b)
        (onward, b) (expire-Records (terminate_pane os s) b (idle_tick idle_ms)) (quiet b)

  on_wake-Records :
      (w : Wake) (s : S) (written : Bool) (b : Book) → Records b w (on_wake os limits w s written b)
  unfolding on_wake Records
  on_wake-Records timeout_at s written b =
      if_ind (Records b timeout_at) limits.has_timeout (expire (terminate_pane os s) b) (onward, b)
        (expire-Records (terminate_pane os s) b timeout_at) (quiet b)
  on_wake-Records (idle_tick idle_ms) s written b = on_idle-Records limits.idle_limit_ms idle_ms s b
  on_wake-Records (restart spawned) s written b =
      on_restart-Records (terminate_pane os s) spawned written b
  on_wake-Records kill_request s written b = on_kill-Records (terminate_pane os s) written b
  on_wake-Records exit_notify s written b = refl

  -- Where the loop is left: behind some of the events it still waits, and the next event ends it.
  unfoldable pub LeftBehind : List (Event S) → Book → (Book → Type 0) → Type 0
  LeftBehind es b P =
      (k : ℕ) × (before : Book) × (run_loop os limits (take k es) b ≡ (onward, before)) × P before

  unfoldable pub LoopRecords : List (Event S) → Book → Next × Book → Type 0
  unfolding LeftBehind
  LoopRecords es b (onward, b') =
      recorded_pids b'.statuses ≡ recorded_pids b.statuses ++ restarted_pids es
  LoopRecords es b (leave info true requested, b') =
      LeftBehind es b (λ before. ThenTerminal before b')
  LoopRecords es b (leave info false requested, b') =
      LeftBehind es b (λ before. b'.statuses ≡ before.statuses)
  LoopRecords es b (return_error, b') = Unit

  further :
      (e : Event S) (es : List (Event S)) (b b1 : Book) (P : Book → Type 0)
      → on_wake os limits e.wake e.at e.written b ≡ (onward, b1)
      → LeftBehind es b1 P
      → LeftBehind (e ∷ es) b P
  unfolding LeftBehind run_loop
  further e es b b1 P first (k, before, waits, p) = (
    suc k,
    before,
    ap (λ r. after os limits r (λ b'. run_loop os limits (take k es) b')) first ∙ waits,
    p,
  )

  pub run_loop-Records :
      (es : List (Event S)) (b : Book) → LoopRecords es b (run_loop os limits es b)
  unfolding run_loop LoopRecords LeftBehind Records
  run_loop-Records [] b = quiet b
  run_loop-Records (e ∷ es) b =
      onto (on_wake os limits e.wake e.at e.written b) refl
        (on_wake-Records e.wake e.at e.written b) (λ b1. run_loop-Records es b1)
    where
      lift :
          (b1 : Book) (r : Next × Book)
          → on_wake os limits e.wake e.at e.written b ≡ (onward, b1)
          → recorded_pids b1.statuses ≡ recorded_pids b.statuses ++ restarted_by e.wake
          → LoopRecords es b1 r
          → LoopRecords (e ∷ es) b r
      lift b1 (onward, b') first one more =
          more
          ∙ ap (λ i. i ++ restarted_pids es) one
          ∙ append_assoc (recorded_pids b.statuses) (restarted_by e.wake) (restarted_pids es)
      lift b1 (leave info true requested, b') first one more =
          further e es b b1 (λ before. ThenTerminal before b') first more
      lift b1 (leave info false requested, b') first one more =
          further e es b b1 (λ before. b'.statuses ≡ before.statuses) first more
      lift b1 (return_error, b') first one more = tt

      onto :
          (r : Next × Book)
          → on_wake os limits e.wake e.at e.written b ≡ r
          → Records b e.wake r
          → ((b1 : Book) → LoopRecords es b1 (run_loop os limits es b1))
          → LoopRecords (e ∷ es) b (after os limits r (λ b'. run_loop os limits es b'))
      onto (onward, b1) first one ih = lift b1 (run_loop os limits es b1) first one (ih b1)
      onto (leave info true requested, b') first one ih = (0, b, refl, one)
      onto (leave info false requested, b') first one ih = (0, b, refl, one)
      onto (return_error, b') first one ih = tt
