-- ===== src/Pane.antt =====
-- src/pane.rs: `Pane::spawn`, and the threads that it starts: one reader for each output of the child,
-- and the thread that waits for its exit.
pub mod Readers
pub mod Done
pub mod Ends
use babysit.Prelude.{
  ◌≡◌, ℕ, ◌+◌, ◌-◌, ◌^◌, Bool, true, false, List, [], ◌∷◌, ◌++◌, Option, none, some, Bytes, length,
  is_empty, ltb, ◌==◌, if◌then◌else◌, ◌>>=◌,
}
use babysit.Hub.{Hub, Io, Opens, configure_log, broadcast}
use babysit.Frame.{ExitInfo}

-- Where a reader thread stands: it reads, it has read a chunk that is not broadcast yet, it has left
-- the loop, it was the last to count down, or it has ended.
pub data Phase : Type 0 where
  reading leaving last gone : Phase
  holding : Bytes → Phase

-- `got` and `sent` record what the thread has read and broadcast so far.
pub record Thread : Type 0 where
  pub phase : Phase
  pub got : Bytes
  pub sent : Bytes

-- What the threads share: the hub, the number of chunks, what the screen has processed, the number of
-- readers that have not counted down, and whether `reader_done` was notified.
pub record Shared : Type 0 where
  pub hub : Hub
  pub seq : ℕ
  pub screen : Bytes
  pub remaining : ℕ
  pub reader_done : Bool

-- What happens to a thread: a read that brings a chunk, one that brings the end or an error, or the
-- next step of the code, with the outcome of the writes that it may make.
pub data Move : Type 0 where
  chunk : Bytes → Move
  ended : Move
  next : Io → Move

abbrev pub at : Phase → Thread → Thread
at p t = record t { phase = p }

advance_in : Phase → Move → Thread → Shared → Option (Thread × Shared)
advance_in reading (chunk []) t s = some (at leaving t, s)
advance_in reading (chunk (b ∷ bs)) t s = some (
  record t { phase = holding (b ∷ bs); got = t.got ++ b ∷ bs },
  record s { seq = s.seq + 1; screen = s.screen ++ b ∷ bs },
)
advance_in reading ended t s = some (at leaving t, s)
advance_in (holding bytes) (next io) t s = some (
  record t { phase = reading; sent = t.sent ++ bytes },
  record s { hub = broadcast io bytes s.hub },
)
advance_in leaving (next io) t s =
    some (at (if s.remaining == 1 then last else gone) t, record s { remaining = s.remaining - 1 })
advance_in last (next io) t s = some (at gone t, record s { reader_done = true })
advance_in _ _ t s = none

-- The thread of `spawn_output_reader`; `none`: the thread cannot make this move.
unfoldable pub advance : Move → Thread → Shared → Option (Thread × Shared)
unfolding advance_in
advance m t s = advance_in t.phase m t s

-- The pane, with its readers.
pub record Pane : Type 0 where
  pub threads : List Thread
  pub shared : Shared

-- One thread makes a move.
pub data Step (p q : Pane) : Type 0 where
  step :
      (before after : List Thread) (t t' : Thread) (m : Move)
      → p.threads ≡ before ++ t ∷ after
      → advance m t p.shared ≡ some (t', q.shared)
      → q.threads ≡ before ++ t' ∷ after
      → Step p q

-- The interleavings.
pub data Reach (p : Pane) : Pane → Type 0 where
  here : Reach p p
  and_then : {q r : Pane} → Reach p q → Step q r → Reach p r

abbrev pub new_thread : Thread
new_thread = record { phase = reading; got = []; sent = [] }

-- One reader for a PTY, two for pipes.
abbrev pub readers : Bool → List Thread
readers true = new_thread ∷ []
readers false = new_thread ∷ new_thread ∷ []

abbrev pub new_pane : Bool → Hub → Pane
new_pane tty hub = record {
  threads = readers tty;
  shared = record {
    hub = hub;
    seq = 0;
    screen = [];
    remaining = length (readers tty);
    reader_done = false;
  };
}

abbrev pub open_output : Option Opens → Hub → Option Hub
open_output none hub = some hub
open_output (some opens) hub = configure_log opens hub

-- `Pane::spawn`: `starts` says whether the child can be started with its streams, and `log` is what
-- opening the output log meets, if there is one.
unfoldable pub spawn : List Bytes → Bool → Bool → Option Opens → Hub → Option Pane
unfolding configure_log
spawn cmd tty starts log hub =
    if is_empty cmd
    then none
    else if starts
    then (open_output log hub >>= λ h. some (new_pane tty h))
    else none

-- What waiting for the child brings: an error, or its exit code and whether a signal ended it.
pub data Waited : Type 0 where
  wait_failed : Waited
  ended_with : ℕ → Bool → Waited

-- The wait thread; `try_into` fails for a code that is no `i32`.
unfoldable pub exit_info_of : Waited → ExitInfo
exit_info_of wait_failed = record { code = none; signaled = true }
exit_info_of (ended_with exit_code signaled) = record {
  code = if signaled then none else if ltb exit_code (2 ^ 31) then some exit_code else none;
  signaled = signaled;
}
