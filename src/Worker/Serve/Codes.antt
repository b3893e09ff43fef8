-- ===== src/Worker/Serve/Codes.antt =====
-- src/run.rs and src/attach.rs: the exit code that the different clients of a session see.
use babysit.Prelude.{
  ℕ, ◌≡◌, ◌≢◌, refl, sym, subst, Bool, true, false, List, [], ◌∷◌, ◌++◌, Option, none, some, arith,
  ◌⊎◌, inl, inr, Option-cases, if_ind, ◌||◌, ◌&&◌, leb,
}
use babysit.Frame.{ExitInfo, reported_code}
use babysit.Session.{Status, starting_status, exit_code_from_status}
use babysit.Worker.Terminate.{Os, Terminated, ended, failed, Termination, terminate_pane}
use babysit.Worker.Terminate.Confirm.{IsSticky, terminate_pane-confirms}
use babysit.Worker.Serve.{
  Event, Wake, timeout_at, idle_tick, restart, kill_request, exit_notify, Book, Next, onward, leave,
  return_error, store, running_status, ended_status, killed_if, on_wake, on_idle, run_loop,
  run_loop_ind, Limits, End, still_running, returned_error, served, shut_down, Setup, serve_worker,
  no_book, setup_failure_status, supervise, launched, expire, on_restart, on_kill, was_signaled,
  store_if, or_signaled,
}

-- A child exits with a code, or by a signal.
abbrev pub IsExit : ExitInfo → Type 0
IsExit i = (i.code ≢ none) ⊎ (i.signaled ≡ true)

abbrev pub AllExit : Option ExitInfo → Type 0
AllExit none = Unit
AllExit (some i) = IsExit i

-- The last status records the exit that the attached clients are told.
abbrev pub Recorded : ExitInfo → Book → Type 0
Recorded i b =
    (before : List Status) × (s : Status) × (b.statuses ≡ before ++ s ∷ [])
    × (exit_code_from_status (some s) ≡ reported_code (some i))

status_code :
    (x : Bool) (i : Option ExitInfo)
    → AllExit i
    → exit_code_from_status (some (ended_status (killed_if (x || was_signaled i)) i))
      ≡ reported_code (some (or_signaled i))
unfolding exit_code_from_status reported_code
status_code true none h = refl
status_code false none h = refl
status_code x (some i) (inl coded) = ground arith
status_code x (some i) (inr signal) = ground arith

ends_with :
    (x : Bool) (i : Option ExitInfo) (b : Book)
    → AllExit i
    → Recorded (or_signaled i) (store (ended_status (killed_if (x || was_signaled i)) i) b)
ends_with x i b h =
    (b.statuses, ended_status (killed_if (x || was_signaled i)) i, refl, status_code x i h)

-- What the loop hands on: exits that the system reported, and statuses that record them.
Keeps : Next × Book → Type 0
Keeps (onward, b) = Unit
Keeps (return_error, b) = Unit
Keeps (leave info false r, b) = AllExit info
Keeps (leave info true r, b) = Recorded (or_signaled info) b

module _ {S : Type 0} (os : Os S) (limits : Limits) (sticky : IsSticky os)
    (exits : (s : S) (i : ExitInfo) → os.exit_info s ≡ some i → IsExit i) where
  terminated-IsExit :
      (s : S) (t : Termination) (s' : S) → terminate_pane os s ≡ ended t s' → IsExit t.info
  terminated-IsExit s t s' e = exits s' t.info (terminate_pane-confirms os sticky s s' t e).0.reaped

  exit_info-AllExit : (s : S) → AllExit (os.exit_info s)
  exit_info-AllExit s = elim (Option-cases (os.exit_info s)) [
    | inl e ↦ subst AllExit (sym e) tt
    | inr (i, e) ↦ subst AllExit (sym e) (exits s i e)
  ]

  expire-Keeps :
      (s : S) (t : Terminated S) (b : Book) → terminate_pane os s ≡ t → Keeps (expire t b)
  unfolding Keeps
  expire-Keeps s (ended t s') b e = terminated-IsExit s t s' e
  expire-Keeps s (failed err s') b e = tt

  on_restart-Keeps :
      (t : Terminated S) (spawned : Option (Option ℕ)) (written : Bool) (b : Book)
      → Keeps (on_restart t spawned written b)
  unfolding Keeps
  on_restart-Keeps (failed e s) spawned written b = tt
  on_restart-Keeps (ended t s) none written b = tt
  on_restart-Keeps (ended t s) (some pid) false b = tt
  on_restart-Keeps (ended t s) (some pid) true b = tt

  on_kill-Keeps :
      (s : S) (t : Terminated S) (written : Bool) (b : Book)
      → terminate_pane os s ≡ t
      → Keeps (on_kill t written b)
  unfolding Keeps
  on_kill-Keeps s (failed err s') written b e = tt
  on_kill-Keeps s (ended t s') false b e = tt
  on_kill-Keeps s (ended t s') true b e =
      ends_with t.signal_sent (some t.info) b (terminated-IsExit s t s' e)

  on_idle-Keeps :
      (limit : Option ℕ) (idle_ms : ℕ) (s : S) (b : Book)
      → Keeps (on_idle os limits limit idle_ms s b)
  unfolding Keeps
  on_idle-Keeps none idle_ms s b = tt
  on_idle-Keeps (some limit) idle_ms s b =
      if_ind Keeps (leb limit idle_ms) (expire (terminate_pane os s) b) (onward, b)
        (expire-Keeps s (terminate_pane os s) b refl) tt

  on_wake-Keeps :
      (w : Wake) (s : S) (written : Bool) (b : Book)
      → Keeps (onward, b)
      → Keeps (on_wake os limits w s written b)
  unfolding on_wake Keeps
  on_wake-Keeps timeout_at s written b h =
      if_ind Keeps limits.has_timeout (expire (terminate_pane os s) b) (onward, b)
        (expire-Keeps s (terminate_pane os s) b refl) tt
  on_wake-Keeps (idle_tick idle_ms) s written b h = on_idle-Keeps limits.idle_limit_ms idle_ms s b
  on_wake-Keeps (restart spawned) s written b h =
      on_restart-Keeps (terminate_pane os s) spawned written b
  on_wake-Keeps kill_request s written b h = on_kill-Keeps s (terminate_pane os s) written b refl
  on_wake-Keeps exit_notify s written b h = exit_info-AllExit s

  Tells : End → Type 0
  Tells (served i b) = Recorded i b
  Tells (still_running b) = Unit
  Tells (returned_error b) = Unit

  shut_down-Tells : (written : Bool) (r : Next × Book) → Keeps r → Tells (shut_down written r)
  unfolding Keeps Tells
  shut_down-Tells written (onward, b) h = tt
  shut_down-Tells written (return_error, b) h = tt
  shut_down-Tells written (leave info true requested, b) h = h
  shut_down-Tells true (leave info false requested, b) h = ends_with requested info b h
  shut_down-Tells false (leave info false requested, b) h = tt

  supervise-Tells :
      (setup : Setup) (events : List (Event S)) (b : Book)
      → Tells (supervise os limits setup events b)
  unfolding supervise Tells
  supervise-Tells setup events b =
      if_ind Tells setup.serves (shut_down setup.last_written (run_loop os limits events b))
        (returned_error (store_if setup.killed_written setup_failure_status b))
        (shut_down-Tells setup.last_written (run_loop os limits events b)
          (run_loop_ind os limits Keeps on_wake-Keeps events b (unfold Keeps in tt)))
        tt

  launched-Tells :
      (setup : Setup) (events : List (Event S)) (spawned : Option (Option ℕ)) (b : Book)
      → Tells (launched os limits setup events spawned b)
  unfolding Tells
  launched-Tells setup events none b = tt
  launched-Tells setup events (some pid) b =
      if_ind Tells setup.running_written
        (supervise os limits setup events (store (running_status pid) b)) (returned_error b)
        (supervise-Tells setup events (store (running_status pid) b)) tt

  -- Let every exit that the system reports have a code or be by a signal, and never change. If a
  -- worker serves its session to the end, the last status on record gives a client that comes later
  -- the same exit code as the exit frame gives the attached clients.
  pub late_code :
      (setup : Setup) (events : List (Event S)) (i : ExitInfo) (b : Book)
      → serve_worker os limits setup events ≡ served i b
      → Recorded i b
  unfolding serve_worker Tells
  late_code setup events i b e = subst Tells e (
      if_ind Tells (setup.meta_written && setup.starting_written)
        (launched os limits setup events setup.spawned (store starting_status no_book))
        (returned_error no_book)
        (launched-Tells setup events setup.spawned (store starting_status no_book)) tt)
