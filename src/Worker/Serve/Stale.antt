-- ===== src/Worker/Serve/Stale.antt =====
-- src/run.rs: failures of the worker, and what stays on record.
use babysit.Prelude.{ℕ, ◌≡◌, Bool, true, List, [], ◌∷◌, Option, none, some, arith}
use babysit.Session.{starting_status}
use babysit.Worker.Terminate.{Os, ended, Termination, terminate_pane}
use babysit.Worker.Terminate.Confirm.{IsSticky, IsGone, terminate_pane-confirms}
use babysit.Worker.Serve.{
  Event, restart, Limits, returned_error, Setup, serve_worker, supervise, run_loop, running_status,
}

module _ {S : Type 0} (os : Os S) (limits : Limits) where
  -- Let the setup of the worker succeed, a recorded exit never change, and the first event be a
  -- restart in which the old command is terminated and the new one cannot be started. Then the old
  -- child has exited and its group is gone, and the worker returns an error with only `starting`
  -- and the `running` of the old command on record.
  pub failed_restart_stays_running :
      (sticky : IsSticky os) (setup : Setup) (pid : Option ℕ) (s s' : S) (t : Termination)
      (written : Bool) (rest : List (Event S))
      → setup.meta_written ≡ true
      → setup.starting_written ≡ true
      → setup.spawned ≡ some pid
      → setup.running_written ≡ true
      → setup.serves ≡ true
      → terminate_pane os s ≡ ended t s'
      → IsGone os s' t.info
        × (serve_worker os limits setup
              (record { wake = restart none; at = s; written = written } ∷ rest)
            ≡ returned_error
                (record { statuses = starting_status ∷ running_status pid ∷ []; replies = [] }))
  unfolding serve_worker supervise run_loop
  failed_restart_stays_running sticky setup pid s s' t written rest m st sp r se e =
      ((terminate_pane-confirms os sticky s s' t e).0, ground arith)
