-- ===== src/Starting/Launched.antt =====
-- src/run.rs: the arguments of the worker that a parent launches.
use babysit.Prelude.{
  ◌≡◌, sym, ap, ◌∙◌, Bool, true, false, not, List, ◌∷◌, Option, none, some, Bytes, codes,
  if◌then◌else◌,
}
use babysit.Session.Ids.{make_id}
use babysit.Starting.{
  RunArgs, Inputs, Context, read_inputs, worker_flags, Started, launched, spawn_failed, run, run_on,
  run_with, run_parent, spawn_worker_process, supervisor_exe, announced, Announced,
}

-- What is launched for inputs that have been read.
launched_with :
    (c : Context) (o : RunArgs) (i : Inputs) (id exe : Bytes) (ann : Announced) (args : List Bytes)
    (attached : Bool)
    → run_with c o i o.detached_id ≡ launched id ann exe (codes "run" ∷ args) attached
    → args ≡ worker_flags id c.root o.no_tty i o.view_cmd o.cmd
unfolding run_with run_parent spawn_worker_process
launched_with c o i id exe ann args attached e = of_role o.detached_id e
  where
    goal : Started
    goal = launched id ann exe (codes "run" ∷ args) attached

    of_spawn :
        (b : Bool) (id' exe' : Bytes)
        → (if b
            then launched id'
                (announced c o)
                exe'
                (codes "run" ∷ worker_flags id' c.root o.no_tty i o.view_cmd o.cmd)
                (not o.detach)
            else spawn_failed id' (announced c o))
          ≡ goal
        → args ≡ worker_flags id c.root o.no_tty i o.view_cmd o.cmd
    of_spawn true id' exe' h = cc h
    of_spawn false id' exe' h = absurd (cc h)

    of_exe :
        (id' : Bytes) (r : Option Bytes)
        → spawn_worker_process c o i id' r ≡ goal
        → args ≡ worker_flags id c.root o.no_tty i o.view_cmd o.cmd
    of_exe id' none h = absurd (cc h)
    of_exe id' (some exe') h = of_spawn c.spawns id' exe' h

    of_id :
        (r : Option Bytes)
        → run_parent c o i r ≡ goal
        → args ≡ worker_flags id c.root o.no_tty i o.view_cmd o.cmd
    of_id none h = absurd (cc h)
    of_id (some id') h = of_exe id' (supervisor_exe c) h

    of_role :
        (r : Option Bytes)
        → run_with c o i r ≡ goal
        → args ≡ worker_flags id c.root o.no_tty i o.view_cmd o.cmd
    of_role (some w) h = absurd (cc h)
    of_role none h = of_id (make_id c.new_id c.dir_exists o.id) h

pub launched_args :
    (c : Context) (o : RunArgs) (i : Inputs) (id exe : Bytes) (ann : Announced) (args : List Bytes)
    (attached : Bool)
    → run c o ≡ launched id ann exe (codes "run" ∷ args) attached
    → read_inputs o ≡ some i
    → args ≡ worker_flags id c.root o.no_tty i o.view_cmd o.cmd
unfolding run
launched_args c o i id exe ann args attached e inputs =
    launched_with c o i id exe ann args attached (ap (run_on c o) (sym inputs) ∙ e)
