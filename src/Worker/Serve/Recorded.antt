-- ===== src/Worker/Serve/Recorded.antt =====
-- src/run.rs: the whole record of a worker, from the first status to the last.
use babysit.Prelude.{
  ℕ, ◌≡◌, refl, ap, ◌∙◌, true, false, List, [], ◌∷◌, ◌++◌, Option, none, some, take, if_case, ◌||◌,
  ◌&&◌,
}
use babysit.Session.{Status, starting_status}
use babysit.Worker.Terminate.{Os}
use babysit.Worker.Serve.{
  Event, Book, Next, onward, leave, return_error, or_signaled, store, running_status, ended_status,
  killed_if, was_signaled, run_loop, Limits, End, still_running, returned_error, served, shut_down,
  Setup, serve_worker, no_book, supervise, launched, store_if, setup_failure_status,
}
use babysit.Worker.Serve.Starts.{
  recorded_pids, restarted_pids, ThenTerminal, terminal_killed_if, LeftBehind, LoopRecords,
  run_loop-Records,
}
use babysit.Worker.Serve.Lifecycle.{Ends, serve_worker-Ends}

module _ {S : Type 0} (os : Os S) (limits : Limits) (setup : Setup) where
  -- A worker that still runs has `running` on record once for every time the command was started, with
  -- its pid; one that ends without an error still ran behind some of the events, and has recorded one
  -- terminal status since.
  pub Starts : List (Event S) → End → Type 0
  Starts events (still_running b) =
      (pid : Option ℕ) × (setup.spawned ≡ some pid)
      × (recorded_pids b.statuses ≡ pid ∷ restarted_pids events)
  Starts events (served info b) =
      (k : ℕ) × (before : Book) × (serve_worker os limits setup (take k events)
        ≡ still_running before)
      × ThenTerminal before b
  Starts events (returned_error b) = Unit

  started : Option ℕ → Book
  started pid = store (running_status pid) (store starting_status no_book)

  -- The worker comes to the loop.
  Loops : Option ℕ → Type 0
  unfolding started
  Loops pid =
      (es : List (Event S))
      → serve_worker os limits setup es
        ≡ shut_down setup.last_written (run_loop os limits es (started pid))

  shut_down-Starts :
      (events : List (Event S)) (pid : Option ℕ) (r : Next × Book)
      → setup.spawned ≡ some pid
      → Loops pid
      → LoopRecords os limits events (started pid) r
      → Starts events (shut_down setup.last_written r)
  unfolding Starts Loops LoopRecords LeftBehind started
  shut_down-Starts events pid (onward, b) spawned loops h = (pid, spawned, h)
  shut_down-Starts events pid (return_error, b) spawned loops h = tt
  shut_down-Starts events pid (leave info true requested, b) spawned loops (k, before, waits, p) =
      (k, before, loops (take k events) ∙ ap (shut_down setup.last_written) waits, p)
  shut_down-Starts events pid (leave info false requested, b) spawned loops (k, before, waits, p) =
      if_case (Starts events) setup.last_written (served (or_signaled info) (store last b))
        (returned_error b)
        (λ e. (
          k,
          before,
          loops (take k events) ∙ ap (shut_down setup.last_written) waits,
          (last, ap (λ i. i ++ last ∷ []) p, terminal_killed_if (requested || was_signaled info)),
        ))
        (λ e. tt)
    where
      last : Status
      last = ended_status (killed_if (requested || was_signaled info)) info

  serve_worker-Starts :
      (events : List (Event S)) → Starts events (serve_worker os limits setup events)
  unfolding serve_worker supervise Starts Loops started
  serve_worker-Starts events =
      if_case (Starts events) (setup.meta_written && setup.starting_written)
        (launched os limits setup events setup.spawned (store starting_status no_book))
        (returned_error no_book) (λ files. of_spawned setup.spawned refl files) (λ files. tt)
    where
      of_spawned :
          (s : Option (Option ℕ))
          → setup.spawned ≡ s
          → (setup.meta_written && setup.starting_written) ≡ true
          → Starts events (launched os limits setup events s (store starting_status no_book))
      of_spawned none spawned files = tt
      of_spawned (some pid) spawned files =
          if_case (Starts events) setup.running_written
            (supervise os limits setup events (started pid))
            (returned_error (store starting_status no_book))
            (λ written.
              if_case (Starts events) setup.serves
                (shut_down setup.last_written (run_loop os limits events (started pid)))
                (returned_error (store_if setup.killed_written setup_failure_status (started pid)))
                (λ serves.
                  shut_down-Starts events pid (run_loop os limits events (started pid)) spawned
                    (λ es. rw (files, spawned, written, serves) refl)
                    (run_loop-Records os limits events (started pid)))
                (λ serves. tt))
            (λ written. tt)

-- Whatever happens, and in whatever order, the statuses that are recorded follow the life of a
-- session: `starting` first, and no status behind a terminal one. A worker that still runs has `running`
-- on record last, and has recorded it for every start of the command, the first and each restart, with
-- the pid of the child; one that ends without an error was still running behind some of the events,
-- and has recorded exactly one status since, which is terminal.
pub serve_worker_recorded :
    {S : Type 0} (os : Os S) (limits : Limits) (setup : Setup) (events : List (Event S))
    → Ends (serve_worker os limits setup events)
      × Starts os limits setup events (serve_worker os limits setup events)
serve_worker_recorded os limits setup events =
    (serve_worker-Ends os limits setup events, serve_worker-Starts os limits setup events)
