-- ===== src/Tests/Supervision.antt =====
-- The worker and the readers of its records: src/run.rs, src/session.rs and src/sub.rs.
use babysit.Prelude.{
  List, ◌++◌, ℕ, ◌+◌, ◌≡◌, refl, Bool, true, false, [], ◌∷◌, Option, none, some, Bytes, codes,
  arith, ◌↔◌, inr, Memᴰ,
}
use babysit.Frame.{ExitInfo}
use babysit.Session.{running, killed, Status, starting_status, Meta}
use babysit.Session.Prune.{Entry, prune, Stays, prune_kept}
use babysit.Worker.Terminate.{Os, Errno, success, esrch, Termination, ended, terminate_pane}
use babysit.Worker.Terminate.Confirm.{IsSticky, IsGone, terminate_pane-confirms}
use babysit.Worker.Serve.{
  Event, kill_request, restart, exit_notify, Limits, Setup, served, confirmed, returned_error,
  serve_worker, supervise, Book, running_status,
}
use babysit.Worker.Serve.Lifecycle.{Ends}
use babysit.Worker.Serve.Recorded.{Starts, serve_worker_recorded}
use babysit.Worker.Serve.Codes.{IsExit, Recorded, late_code}
use babysit.Worker.Serve.Killed.{kill_confirmed}
use babysit.Worker.Serve.Stale.{failed_restart_stays_running}

abbrev by_signal : ExitInfo
by_signal = record { code = none; signaled = true }

-- A system whose states are a child that may have exited, and the time; the first signal ends the
-- child, which is then seen at once.
abbrev Child : Type 0
Child = Bool × ℕ

abbrev child_exit : Child → Option ExitInfo
child_exit (true, t) = none
child_exit (false, t) = some by_signal

abbrev child_probe : Child → Errno
child_probe (true, t) = success
child_probe (false, t) = esrch

abbrev child_os : Os Child
child_os = record {
  has_pid = true;
  exit_info = child_exit;
  probe = child_probe;
  killpg = λ signal s. (success, (false, s.1));
  child_kill = λ s. (true, (false, s.1));
  wait_exit = λ ms s. s;
  sleep = λ ms s. (s.0, s.1 + ms);
  now = λ s. s.1;
}

stays_dead :
    (i : ExitInfo) (s : Child)
    → child_exit s ≡ some i
    → ◌≡◌ {A = Option ExitInfo} (some by_signal) (some i)
stays_dead i (true, t) h = ground arith
stays_dead i (false, t) h = h

stays_over_sleep :
    (i : ExitInfo) (ms : ℕ) (s : Child)
    → child_exit s ≡ some i
    → child_exit (s.0, s.1 + ms) ≡ some i
stays_over_sleep i ms (true, t) h = ground arith
stays_over_sleep i ms (false, t) h = h

child_os-IsSticky : IsSticky child_os
child_os-IsSticky = record {
  over_sleep = λ i ms s h. stays_over_sleep i ms s h;
  over_killpg = λ i signal s h. stays_dead i s h;
  over_child_kill = λ i s h. stays_dead i s h;
}

abbrev hung_up : Termination
hung_up = record { info = by_signal; signal_sent = true; escalated = false }

ends_child : terminate_pane child_os (true, 0) ≡ ended hung_up (false, 0)
unfolding terminate_pane
ends_child = refl

terminate_pane-confirms_example :
    IsGone child_os (false, 0) by_signal
    × ((true ≡ false) ↔ ((i : ExitInfo) × IsGone child_os (true, 0) i))
    × (true ≡ false → ◌≡◌ {A = Child} (false, 0) (true, 0))
terminate_pane-confirms_example =
    terminate_pane-confirms child_os child_os-IsSticky (true, 0) (false, 0) hung_up ends_child

abbrev no_limits : Limits
no_limits = record { has_timeout = false; idle_limit_ms = none }

abbrev good_setup : Setup
good_setup = record {
  meta_written = true;
  starting_written = true;
  spawned = some (some 12);
  exited_written = true;
  running_written = true;
  serves = true;
  killed_written = true;
  last_written = true;
}

abbrev a_kill : Event Child
a_kill = record { wake = kill_request; at = (true, 0); written = true }

serve_worker_recorded_example :
    Ends (serve_worker child_os no_limits good_setup (a_kill ∷ []))
    × Starts child_os no_limits good_setup
        (a_kill ∷ [])
        (serve_worker child_os no_limits good_setup (a_kill ∷ []))
serve_worker_recorded_example = serve_worker_recorded child_os no_limits good_setup (a_kill ∷ [])

abbrev an_exit : Event Child
an_exit = record { wake = exit_notify; at = (false, 0); written = true }

abbrev exit_book : Book
exit_book = record {
  statuses =
      starting_status
      ∷ running_status (some 12)
      ∷ record { state = killed; child_pid = none; exit_code = none }
      ∷ [];
  replies = [];
}

serves_exit : serve_worker child_os no_limits good_setup (an_exit ∷ []) ≡ served by_signal exit_book
unfolding serve_worker supervise
serves_exit = refl

exits_by_signal : (s : Child) (i : ExitInfo) → child_exit s ≡ some i → IsExit i
exits_by_signal (true, t) i h = ground arith
exits_by_signal (false, t) i h = inr (ground arith)

late_code_example : Recorded by_signal exit_book
late_code_example =
    late_code child_os no_limits child_os-IsSticky exits_by_signal good_setup (an_exit ∷ [])
      by_signal exit_book serves_exit

failed_restart_stays_running_example :
    IsGone child_os (false, 0) by_signal
    × (serve_worker child_os no_limits good_setup
          (record { wake = restart none; at = (true, 0); written = true } ∷ [])
        ≡ returned_error
            (record { statuses = starting_status ∷ running_status (some 12) ∷ []; replies = [] }))
failed_restart_stays_running_example =
    failed_restart_stays_running child_os no_limits child_os-IsSticky good_setup (some 12) (true, 0)
      (false, 0) hung_up true [] refl refl refl refl refl ends_child

abbrev kill_book : Book
kill_book = record {
  statuses =
      starting_status
      ∷ running_status (some 12)
      ∷ record { state = killed; child_pid = none; exit_code = none }
      ∷ [];
  replies = confirmed false killed none ∷ [];
}

serves_kill : serve_worker child_os no_limits good_setup (a_kill ∷ []) ≡ served by_signal kill_book
unfolding serve_worker supervise terminate_pane
serves_kill = refl

kill_confirmed_example :
    (s : Child) × IsGone child_os s by_signal
    × (killed ≡ killed)
    × (by_signal.code ≡ by_signal.code)
    × ((before : List Status) × (kill_book.statuses
          ≡ before ++ record { state = killed; child_pid = none; exit_code = none } ∷ []))
kill_confirmed_example =
    kill_confirmed child_os no_limits child_os-IsSticky good_setup (a_kill ∷ []) by_signal kill_book
      false killed none serves_kill (Memᴰ.head refl)

abbrev no_dir : Bytes → Bool
no_dir id = false

abbrev a_meta : Meta
a_meta = record { id = codes "a1"; babysit_pid = 4 }

abbrev running_now : Status
running_now = record { state = running; child_pid = some 12; exit_code = none }

abbrev a_session : Entry
a_session = record { id = codes "a1"; meta = some a_meta; status = some running_now }

abbrev no_pid : ℕ → Bool
no_pid pid = false

prune_kept_example :
    Memᴰ a_session (prune no_pid true no_dir (a_session ∷ [])).kept
    ↔ (Memᴰ a_session (a_session ∷ []) × Stays no_pid true no_dir a_session)
prune_kept_example = prune_kept no_pid true no_dir (a_session ∷ []) a_session
