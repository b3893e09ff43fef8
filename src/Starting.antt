-- ===== src/Starting.antt =====
-- src/run.rs, run, spawn_worker_process and supervisor_exe: how a session is started.
pub mod Parser
pub mod Printed
pub mod Launched
pub mod Forwards
use babysit.Prelude.{
  ℕ, Bool, true, false, not, List, [], ◌∷◌, ◌++◌, Option, none, some, Bytes, codes, if◌then◌else◌,
  ◌>>=◌,
}
use babysit.Session.Ids.{make_id}
use babysit.Durations.{
  Timeout, never, after, invalid_timeout, overflowing, parse_timeout, parse_size,
}
use babysit.Durations.Units.{decimal}
use babysit.Durations.Forwarded.{millis_text}

-- The arguments of `run`, as the command line has them; texts are bytes.
pub record RunArgs : Type 0 where
  pub id : Option Bytes
  pub detach : Bool
  pub detached_id : Option Bytes
  pub root : Option Bytes
  pub no_tty : Bool
  pub timeout : Option Bytes
  pub idle_timeout : Option Bytes
  pub size : Option Bytes
  pub view_cmd : Option Bytes
  pub json : Bool
  pub cmd : List Bytes

-- The inputs that are parsed up front. Durations are in milliseconds.
pub record Inputs : Type 0 where
  pub timeout : Option ℕ
  pub idle_timeout : Option ℕ
  pub size : Option (ℕ × ℕ)

-- A timeout, or none, or an error; so is the overflow at which a checked build panics.
abbrev pub limit_of : Timeout → Option (Option ℕ)
limit_of never = some none
limit_of (after n) = some (some n)
limit_of invalid_timeout = none
limit_of overflowing = none

abbrev pub read_limit : Option Bytes → Option (Option ℕ)
unfolding parse_timeout
read_limit none = some none
read_limit (some s) = limit_of (parse_timeout s)

abbrev pub given_size : Option (ℕ × ℕ) → Option (Option (ℕ × ℕ))
given_size none = none
given_size (some size) = some (some size)

abbrev pub read_size : Option Bytes → Option (Option (ℕ × ℕ))
unfolding parse_size
read_size none = some none
read_size (some s) = given_size (parse_size s)

unfoldable pub read_inputs : RunArgs → Option Inputs
unfolding read_limit read_size
read_inputs o = read_limit o.timeout >>= λ timeout. read_limit o.idle_timeout >>= λ idle_timeout.
    read_size o.size >>= λ size.
    some (record { timeout = timeout; idle_timeout = idle_timeout; size = size })

-- The context: the root, the executable that is pinned, what the system has as the running one, the ids
-- that `new_id` makes, which of them have a directory, and whether the worker can be spawned.
pub record Context : Type 0 where
  pub root : Bytes
  pub is_cli : Bool
  pub supervisor : Option Bytes
  pub proc_self_exe : Bool
  pub current_exe : Option Bytes
  pub new_id : ℕ → Bytes
  pub dir_exists : Bytes → Bool
  pub spawns : Bool

-- `supervisor_exe`, on Linux
unfoldable pub supervisor_exe : Context → Option Bytes
supervisor_exe c = elim (c.supervisor) [
  | some p ↦ some p
  | none ↦ if c.proc_self_exe then some (codes "/proc/self/exe") else c.current_exe
]

abbrev pub size_text : ℕ × ℕ → Bytes
size_text (c, r) = decimal c ++ (b'x' ∷ decimal r)

-- A flag with its value, where there is one.
abbrev pub with_flag : Bytes → Option Bytes → List Bytes → List Bytes
with_flag flag none rest = rest
with_flag flag (some v) rest = flag ∷ v ∷ rest

abbrev pub millis_of : Option ℕ → Option Bytes
millis_of none = none
millis_of (some n) = some (millis_text n)

abbrev pub text_of_size : Option (ℕ × ℕ) → Option Bytes
text_of_size none = none
text_of_size (some s) = some (size_text s)

-- The arguments of the worker behind `run`, as `spawn_worker_process` has them.
unfoldable pub worker_flags : Bytes → Bytes → Bool → Inputs → Option Bytes → List Bytes → List Bytes
worker_flags id root no_tty i view_cmd cmd =
    let behind = with_flag (codes "--timeout") (millis_of i.timeout) (
      with_flag (codes "--idle-timeout") (millis_of i.idle_timeout) (
        with_flag (codes "--size") (text_of_size i.size)
          (with_flag (codes "--view-cmd") view_cmd (codes "--" ∷ cmd)))) in
    codes "--detached-id"
    ∷ id
    ∷ codes "--root"
    ∷ root
    ∷ (if no_tty then codes "--no-tty" ∷ behind else behind)

-- How the parent announces the session.
pub data Announced : Type 0 where
  as_json as_banner silent : Announced

-- What `run` does: an error, before or behind the announcement, the loop of the worker, or a worker
-- that is spawned with its executable and arguments, to which the parent attaches unless it detaches.
pub data Started : Type 0 where
  bad_input bad_id : Started
  spawn_failed : (id : Bytes) → Announced → Started
  worker :
      (cmd : List Bytes) (id : Bytes) (tty : Bool) (timeout idle_timeout : Option ℕ)
      (size : Option (ℕ × ℕ)) (view_cmd : Option Bytes)
      → Started
  launched :
      (id : Bytes) → Announced → (exe : Bytes) → (args : List Bytes) → (attached : Bool) → Started

abbrev pub announced : Context → RunArgs → Announced
announced c o = if o.json then as_json else if c.is_cli then as_banner else silent

-- `spawn_worker_process`
unfoldable pub spawn_worker_process : Context → RunArgs → Inputs → Bytes → Option Bytes → Started
unfolding worker_flags
spawn_worker_process c o i id none = spawn_failed id (announced c o)
spawn_worker_process c o i id (some exe) =
    if c.spawns
    then launched id (announced c o) exe
        (codes "run" ∷ worker_flags id c.root o.no_tty i o.view_cmd o.cmd) (not o.detach)
    else spawn_failed id (announced c o)

unfoldable pub run_parent : Context → RunArgs → Inputs → Option Bytes → Started
unfolding supervisor_exe spawn_worker_process
run_parent c o i none = bad_id
run_parent c o i (some id) = spawn_worker_process c o i id (supervisor_exe c)

unfoldable pub run_with : Context → RunArgs → Inputs → Option Bytes → Started
unfolding run_parent make_id
run_with c o i (some id) = worker o.cmd id (not o.no_tty) i.timeout i.idle_timeout i.size o.view_cmd
run_with c o i none = run_parent c o i (make_id c.new_id c.dir_exists o.id)

unfoldable pub run_on : Context → RunArgs → Option Inputs → Started
unfolding run_with
run_on c o none = bad_input
run_on c o (some i) = run_with c o i o.detached_id

-- `run`
unfoldable pub run : Context → RunArgs → Started
unfolding run_on read_inputs
run c o = run_on c o (read_inputs o)
