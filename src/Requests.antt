-- ===== src/Requests.antt =====
-- src/sub.rs: the commands that send one request to a session's worker.
pub mod Connect
pub mod Screen
pub mod Logs
use babysit.Prelude.{
  ℕ, zero, suc, ◌+◌, Bool, true, false, not, ◌&&◌, ◌||◌, List, [], ◌∷◌, ◌++◌, Option, none, some,
  Bytes, length, if◌then◌else◌, ◌>>=◌,
}
use babysit.Session.{Status, is_terminal}
use babysit.Control.{
  Request, log, screenshot, send, resize, Response, ok, err, Error, Data, text_data, screen_data,
}
use babysit.Keys.{key_to_bytes}
use babysit.Log.Slice.{LogFile, Slice, slice, failed, read_slice}
use babysit.Log.Utf8.{from_utf8_lossy}
use babysit.Log.Lines.{last_n_lines}
use babysit.Log.Grep.{grep_filter}
use babysit.Hub.{Row}
use babysit.Poll.{Result, code, waiting, is_finished, past}
use babysit.Poll.Follow.{Look, End, follow_log}

-- What one attempt to connect finds: whether the two sockets accept, the error of the second if not,
-- the status on record, and whether the supervisor of the metadata is alive.
pub record Attempt : Type 0 where
  pub socket : Bool
  pub legacy_socket : Bool
  pub error : Bytes
  pub status : Option Status
  pub owner_alive : Option Bool

abbrev pub accepts : Attempt → Bool
accepts a = a.socket || a.legacy_socket

-- A connection at an attempt, or the reason why there is none.
pub data Connected : Type 0 where
  connected not_running no_supervisor : ℕ → Connected
  unreachable : Bytes → Connected

-- The session of an attempt will never bind: its status is terminal, or its supervisor is dead.
abbrev pub finished : Attempt → Bool
finished a = is_finished a.status

abbrev pub orphaned : Option Status → Option Bool → Bool
orphaned (some s) (some alive) = not alive
orphaned (some s) none = false
orphaned none owner = false

-- `connect_from find error n i`: `n` attempts are left, `i` have been made, and `error` is the last.
unfoldable pub connect_from : (ℕ → Attempt) → Bytes → ℕ → ℕ → Connected
connect_from find error zero i = unreachable error
connect_from find error (suc n) i =
    let rest = connect_from find (find i).error n (suc i) in
    if accepts (find i)
    then connected i
    else if finished (find i)
    then not_running i
    else if orphaned (find i).status (find i).owner_alive
    then no_supervisor i
    else rest

-- `connect_with_retry`; there is an error behind the first attempt.
unfoldable pub connect_with_retry : (ℕ → Attempt) → Connected
connect_with_retry find = connect_from find [] 25 0

-- How a command reaches the worker: what the attempts find, what the exchange of a request brings, if
-- it succeeds, and the status that is read when there is no response.
pub record Link : Type 0 where
  pub find : ℕ → Attempt
  pub exchange : Request → Option Response
  pub status_after : Option Status

-- `request`: the response, if there is one.
unfoldable pub request : Link → Request → Option Response
unfolding connect_with_retry
request link r = elim (connect_with_retry link.find) [
  | connected i ↦ link.exchange r
  | not_running i ↦ none
  | no_supervisor i ↦ none
  | unreachable e ↦ none
]

-- The result of a command: data, the worker's error, or that there is no worker, because the session
-- has finished or because it is gone.
pub data Outcome : Type 0 where
  data_of : Data → Outcome
  refused : Error → Outcome
  already_finished worker_gone unknown_key : Outcome

-- `dead_worker_error`
abbrev pub dead_worker_error : Option Status → Outcome
dead_worker_error status = if is_finished status then already_finished else worker_gone

abbrev pub outcome_of : Option Status → Option Response → Outcome
outcome_of status (some (ok d)) = data_of d
outcome_of status (some (err e)) = refused e
outcome_of status none = dead_worker_error status

-- `operate`
unfoldable pub operate : Link → Request → Outcome
unfolding request
operate link r = outcome_of link.status_after (request link r)

-- The bytes of named keys; `none` if one is unknown.
unfoldable pub keys_bytes : List Bytes → Option Bytes
keys_bytes [] = some []
keys_bytes (name ∷ names) = key_to_bytes name >>= λ b. keys_bytes names >>= λ bs. some (b ++ bs)

-- The request of `key`.
unfoldable pub key_request : List Bytes → Option Request
unfolding keys_bytes
key_request names = keys_bytes names >>= λ bytes. some (send bytes false)

-- `key`
unfoldable pub key : Link → List Bytes → Outcome
unfolding key_request operate
key link names = elim (key_request names) [ none ↦ unknown_key | some r ↦ operate link r ]

abbrev pub screen_text : (Bytes → Bytes) → Bytes → Option Response → Bytes
screen_text render log_file (some (ok (screen_data text seq))) = text
screen_text render log_file (some (ok _)) = []
screen_text render log_file (some (err e)) = render log_file
screen_text render log_file none = render log_file

-- `current_screen_text`: the worker's screen, or else the recorded log, rendered.
unfoldable pub current_screen_text : (Bytes → Bytes) → Link → Bytes → Bytes
unfolding request
current_screen_text render link log_file = screen_text render log_file (request link screenshot)

-- A round of `expect_screen`: the screen, the status behind it, the screen then, and the time.
pub record ScreenLook : Type 0 where
  pub screen : Bytes
  pub status : Option Status
  pub last_screen : Bytes
  pub now : ℕ

-- `expect_screen`; `is_match` is the regular expression.
unfoldable pub expect_screen : (Bytes → Bool) → Option ℕ → List ScreenLook → Result
expect_screen is_match deadline [] = waiting
expect_screen is_match deadline (l ∷ ls) =
    let rest = expect_screen is_match deadline ls in
    if is_match l.screen
    then code 0
    else if is_finished l.status
    then (if is_match l.last_screen then code 0 else code 1)
    else if past deadline l.now
    then code 124
    else rest
