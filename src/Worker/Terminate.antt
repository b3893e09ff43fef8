-- ===== src/Worker/Terminate.antt =====
-- src/run.rs and src/pane.rs: terminating the command, with confirmation.
pub mod Confirm
use babysit.Prelude.{
  ℕ, zero, suc, ◌+◌, Bool, true, false, not, Option, none, some, leb, if◌then◌else◌,
}
use babysit.Frame.{ExitInfo}

-- The outcome of a system call.
pub data Errno : Type 0 where
  success esrch eperm other : Errno

pub data Signal : Type 0 where
  sighup sigkill : Signal

-- What the worker sees of a pane's child and of the clock. `S` is the state of the child and of the
-- system; time passes only in `sleep` and `wait_exit`.
pub record Os (S : Type 0) : Type 0 where
  pub has_pid : Bool
  pub exit_info : S → Option ExitInfo
  -- `kill(-pid, None)`
  pub probe : S → Errno
  -- `killpg(pid, signal)`
  pub killpg : Signal → S → Errno × S
  -- `ChildKiller::kill` of `portable_pty`
  pub child_kill : S → Bool × S
  -- waiting for `exit_notify`, at most so many milliseconds
  pub wait_exit : ℕ → S → S
  pub sleep : ℕ → S → S
  -- milliseconds
  pub now : S → ℕ

pub data TerminateError : Type 0 where
  probe_failed signal_failed no_exit group_remains out_of_fuel : TerminateError

pub data Waited (S : Type 0) : Type 0 where
  gone : S → Waited S
  gave_up : TerminateError → S → Waited S

-- `Termination`
pub record Termination : Type 0 where
  pub info : ExitInfo
  pub signal_sent : Bool
  pub escalated : Bool

pub data Terminated (S : Type 0) : Type 0 where
  ended : Termination → S → Terminated S
  failed : TerminateError → S → Terminated S

module _ {S : Type 0} (os : Os S) where
  probed : Errno → Option Bool
  probed success = some true
  probed eperm = some true
  probed esrch = some false
  probed other = none

  -- `Pane::process_group_alive`: `none` is an error.
  unfoldable pub process_group_alive : S → Option Bool
  unfolding probed
  process_group_alive s =
      if os.has_pid
      then probed (os.probe s)
      else some (elim (os.exit_info s) [ none ↦ true | some i ↦ false ])

  signalled : Errno × S → Bool × S
  signalled (success, s) = (true, s)
  signalled (esrch, s) = (true, s)
  signalled (_, s) = (false, s)

  -- `signal_process_group`: whether it succeeds.
  pub signal_process_group : Signal → S → Bool × S
  unfolding signalled
  signal_process_group signal s = signalled (os.killpg signal s)

  -- `Pane::kill`
  pub kill : S → Bool × S
  unfolding signal_process_group
  kill s = if os.has_pid then signal_process_group sighup s else os.child_kill s

  -- `Pane::force_kill`
  pub force_kill : S → Bool × S
  unfolding signal_process_group
  force_kill s = if os.has_pid then signal_process_group sigkill s else os.child_kill s

  -- `wait_for_pane_exit`
  unfoldable pub wait_for_pane_exit : ℕ → S → Option ExitInfo × S
  wait_for_pane_exit timeout s = elim (os.exit_info s) [
    | some info ↦ (some info, s)
    | none ↦ (let s' = os.wait_exit timeout s in (os.exit_info s', s'))
  ]

  -- The loop of `wait_for_process_group_exit`.
  unfoldable pub wait_group : ℕ → ℕ → S → Waited S
  unfolding process_group_alive
  wait_group zero deadline s = gave_up out_of_fuel s
  wait_group (suc fuel) deadline s =
      let rest = wait_group fuel deadline (os.sleep 10 s) in
      elim (process_group_alive s) [
        | none ↦ gave_up probe_failed s
        | some true ↦ if leb deadline (os.now s) then gave_up group_remains s else rest
        | some false ↦ gone s
      ]

  -- `wait_for_process_group_exit`; each round but the last sleeps ten milliseconds.
  unfoldable pub wait_for_process_group_exit : ℕ → S → Waited S
  unfolding wait_group
  wait_for_process_group_exit timeout s = wait_group (suc timeout) (os.now s + timeout) s

  abbrev pub confirmed : ExitInfo → Waited S → Terminated S
  confirmed info (gone s) = ended (record { info = info; signal_sent = true; escalated = true }) s
  confirmed info (gave_up e s) = failed e s

  abbrev pub confirm_group : ExitInfo → S → Terminated S
  confirm_group info s = confirmed info (wait_for_process_group_exit 2000 s)

  -- The child had exited before the request, but its group is still there.
  abbrev pub clean_up : ExitInfo → S → Terminated S
  clean_up info s =
      let (sent, s1) = force_kill s in
      if sent then confirm_group info s1 else failed signal_failed s1

  abbrev pub confirm_exit : Option ExitInfo × S → Terminated S
  confirm_exit (none, s) = failed no_exit s
  confirm_exit (some info, s) = confirm_group info s

  abbrev pub escalate : Option ExitInfo → S → Terminated S
  escalate graceful_info s =
      let (sent, s1) = force_kill s in
      if sent
      then elim graceful_info [
        | some info ↦ confirm_group info s1
        | none ↦ confirm_exit (wait_for_pane_exit 2000 s1)
      ]
      else failed signal_failed s1

  abbrev pub after_grace : Option ExitInfo × S → Terminated S
  after_grace (none, s) = escalate none s
  after_grace (some info, s) = elim (process_group_alive s) [
    | none ↦ failed probe_failed s
    | some false ↦ ended (record { info = info; signal_sent = true; escalated = false }) s
    | some true ↦ escalate (some info) s
  ]

  -- `terminate_pane`
  unfoldable pub terminate_pane : S → Terminated S
  unfolding wait_for_process_group_exit wait_for_pane_exit process_group_alive kill force_kill
  terminate_pane s = elim (os.exit_info s) [
    | some info ↦ elim (process_group_alive s) [
      | none ↦ failed probe_failed s
      | some false ↦ ended (record { info = info; signal_sent = false; escalated = false }) s
      | some true ↦ clean_up info s
    ]
    | none ↦
        (let (sent, s1) = kill s in
          if sent then after_grace (wait_for_pane_exit 300 s1) else failed signal_failed s1)
  ]
