-- ===== src/Session.antt =====
-- src/session.rs: the recorded status of a session; and how src/attach.rs and src/sub.rs read it.
pub mod Ids
pub mod Prune
pub mod Files
use babysit.Prelude.{ℕ, Bool, true, false, ◌&&◌, ◌||◌, Option, none, some, List}
use babysit.Frame.{code_or}

pub data State : Type 0 where
  starting running exited killed : State

-- `State::is_terminal`
unfoldable pub is_terminal : State → Bool
is_terminal exited = true
is_terminal killed = true
is_terminal _ = false

-- `Status`, less the time of the change. An `i32` is its bit pattern, below 2 ^ 32.
pub record Status : Type 0 where
  pub state : State
  pub child_pid : Option ℕ
  pub exit_code : Option ℕ

-- `Status::starting`
abbrev pub starting_status : Status
starting_status = record { state = starting; child_pid = none; exit_code = none }

-- `Meta`, less the command and the time.
pub record Meta : Type 0 where
  pub id : List ℕ
  pub babysit_pid : ℕ

-- `is_owner_alive`; `is_pid_alive` asks the operating system.
unfoldable pub is_owner_alive : (ℕ → Bool) → Meta → Status → Bool
is_owner_alive is_pid_alive meta status = elim (status.state) [
  | starting ↦ is_pid_alive meta.babysit_pid
  | running ↦ is_pid_alive meta.babysit_pid
  | exited ↦ false
  | killed ↦ false
]

-- `exit_code_from_status`
unfoldable pub exit_code_from_status : Option Status → ℕ
exit_code_from_status none = 0
exit_code_from_status (some s) = code_or s.exit_code (elim (s.state) [ killed ↦ 130 | _ ↦ 0 ])

pub data Label : Type 0 where
  dead_label starting_label running_label exited_label killed_label : Label
  exit_label : ℕ → Label

exit_code_label : Option ℕ → Label
exit_code_label (some c) = exit_label c
exit_code_label none = exited_label

owned : (ℕ → Bool) → Option Meta → Bool
owned is_pid_alive none = false
owned is_pid_alive (some meta) = is_pid_alive meta.babysit_pid

-- `state_label_for`
unfoldable pub state_label_for : (ℕ → Bool) → Option Meta → Status → Label
unfolding exit_code_label owned
state_label_for is_pid_alive meta s = elim (s.state) [
  | starting ↦ elim (owned is_pid_alive meta) [ true ↦ starting_label | false ↦ dead_label ]
  | running ↦ elim (owned is_pid_alive meta) [ true ↦ running_label | false ↦ dead_label ]
  | exited ↦ exit_code_label s.exit_code
  | killed ↦ killed_label
]
