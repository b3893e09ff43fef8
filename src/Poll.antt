-- ===== src/Poll.antt =====
-- src/sub.rs: the commands that poll a session: `wait`, `wait_idle` and `expect`, and below
-- them `follow_log`.
pub mod Wait
pub mod Expect
pub mod Follow
use babysit.Prelude.{
  ℕ, zero, suc, ◌+◌, ◌-◌, Bool, true, false, not, ◌&&◌, ◌||◌, List, [], ◌∷◌, ◌++◌, Option, none,
  some, Bytes, leb, ltb, ◌==◌, if◌then◌else◌, is_empty,
}
use babysit.Frame.{code_or}
use babysit.Session.{State, starting, running, exited, killed, Status, Meta, is_terminal}

-- A deadline has passed; `none` is no deadline.
abbrev pub past : Option ℕ → ℕ → Bool
past none now = false
past (some deadline) now = leb deadline now

abbrev pub is_finished : Option Status → Bool
is_finished none = false
is_finished (some s) = is_terminal s.state

-- What one round of `wait` finds on disk: the status and the metadata, if they can be read, whether
-- the pid in them is alive, and the time.
pub record Look : Type 0 where
  pub status : Option Status
  pub owner_alive : Option Bool
  pub now : ℕ

-- The exit code of a command that polls, or `waiting` if the rounds end first.
pub data Result : Type 0 where
  code : ℕ → Result
  waiting failed : Result

-- Part of a round of `wait`: the result from the recorded status, if there is one.
abbrev pub status_result : Status → Option Bool → Option ℕ
status_result s owner_alive = elim (s.state) [
  | exited ↦ some (code_or s.exit_code 0)
  | killed ↦ some (code_or s.exit_code 130)
  | starting ↦ elim owner_alive [ some false ↦ some 137 | _ ↦ none ]
  | running ↦ elim owner_alive [ some false ↦ some 137 | _ ↦ none ]
]

abbrev pub look_result : Look → Option ℕ
look_result l = elim (l.status) [ none ↦ none | some s ↦ status_result s l.owner_alive ]

-- `wait`, on what its rounds find.
unfoldable pub wait : Option ℕ → List Look → Result
wait deadline [] = waiting
wait deadline (l ∷ ls) =
    let rest = wait deadline ls in
    elim (look_result l) [ some c ↦ code c | none ↦ if past deadline l.now then code 124 else rest ]

-- A round of `wait_idle`: the size of the log, the recorded status and the time, in milliseconds.
pub record IdleLook : Type 0 where
  pub size : ℕ
  pub status : Option Status
  pub now : ℕ

-- `wait_idle`, from the size seen last and the time since which it has not changed.
unfoldable pub wait_idle : ℕ → Option ℕ → ℕ → ℕ → List IdleLook → Result
wait_idle settle deadline last_size quiet_since [] = waiting
wait_idle settle deadline last_size quiet_since (l ∷ ls) =
    let changed = wait_idle settle deadline l.size l.now ls in
    let same = wait_idle settle deadline last_size quiet_since ls in
    if not (l.size == last_size)
    then (if is_finished l.status
        then code 0
        else if past deadline l.now
        then code 124
        else changed)
    else if leb settle (l.now - quiet_since)
    then code 0
    else if is_finished l.status
    then code 0
    else if past deadline l.now
    then code 124
    else same

-- A round of `expect`: the text that `read_slice` brings (`none` if it fails), the recorded status,
-- the text that a further read brings, and the time.
pub record ExpectLook : Type 0 where
  pub text : Option Bytes
  pub status : Option Status
  pub tail : Option Bytes
  pub now : ℕ

abbrev pub last_match : (Bytes → Bool) → Bytes → Option Bytes → Result
last_match is_match buf none = failed
last_match is_match buf (some tail) = if is_match (buf ++ tail) then code 0 else code 1

-- `expect` on the log; `is_match` is the regular expression.
unfoldable pub expect : (Bytes → Bool) → Option ℕ → Bytes → List ExpectLook → Result
expect is_match deadline buf [] = waiting
expect is_match deadline buf (l ∷ ls) = elim (l.text) [
  | none ↦ failed
  | some text ↦
      (let buf' = buf ++ text in
        let rest = expect is_match deadline buf' ls in
        if not (is_empty text) && is_match buf'
        then code 0
        else if is_finished l.status
        then last_match is_match buf' l.tail
        else if past deadline l.now
        then code 124
        else rest)
]
