-- ===== src/Hub.antt =====
-- src/pane.rs: the output hub. It appends PTY output to the raw log, keeps a bounded backlog with
-- absolute offsets, and fans the output out to attached clients.
pub mod Offsets
pub mod Streams
pub mod Subscribe
pub mod Reopen
use babysit.Prelude.{
  ℕ, ◌+◌, ◌-◌, ◌^◌, min, Bool, true, false, List, [], ◌∷◌, ◌++◌, Option, none, some, Bytes, length,
  take, drop, is_empty, ltb, ◌==◌, if◌then◌else◌,
}

-- `BACKLOG_CAP`, one MiB.
abbrev pub backlog_cap : ℕ
backlog_cap = 2 ^ 20

abbrev pub u64_max : ℕ
u64_max = 2 ^ 64 - 1

-- `u64::saturating_add`
abbrev pub saturating_add : ℕ → ℕ → ℕ
saturating_add a b = min (a + b) u64_max

pub record OutputChunk : Type 0 where
  pub offset : ℕ
  pub bytes : Bytes

-- One side of an unbounded channel: `send` fails once the receiver is dropped. `queue` holds what
-- the receiver has not taken yet, oldest first; `channel` tells the channels of a program apart.
pub record Sender {ℓ} (A : Type ℓ) : Type ℓ where
  pub channel : ℕ
  pub alive : Bool
  pub queue : List A

-- One row of the timestamp sidecar: offset, length, capture time.
pub record Row : Type 0 where
  pub start : ℕ
  pub size : ℕ
  pub time : ℕ

-- `HubInner`. A file that is open is a flag here, and its contents stand beside it: they outlive
-- the handle.
pub record Hub : Type 0 where
  pub backlog : Bytes
  pub backlog_start : ℕ
  pub next_offset : ℕ
  pub log : Bool
  pub log_file : Bytes
  pub timestamps : Bool
  pub rows : List Row
  pub log_error : Option Bytes
  pub clients : List (Sender Bytes)
  pub resume_clients : List (Sender OutputChunk)

-- What the operating system does with a `write_all`: all of it, or an error after a prefix.
pub data Written : Type 0 where
  whole : Written
  failed : ℕ → Bytes → Written

-- `OutputHub::new`, over a session directory that may hold files of an earlier capture.
unfoldable pub new : Bytes → List Row → Hub
new log_file rows = record {
  backlog = [];
  backlog_start = 0;
  next_offset = 0;
  log = false;
  log_file = log_file;
  timestamps = false;
  rows = rows;
  log_error = none;
  clients = [];
  resume_clients = [];
}

-- What `configure_log` meets on disk: whether each of the two files can be opened.
pub record Opens : Type 0 where
  pub log_opens : Bool
  pub timestamps_open : Bool

open_log : Opens → Hub → Hub
open_log o h =
    let end = length h.log_file in
    record h {
      next_offset = end;
      backlog_start = end;
      timestamps = o.timestamps_open;
      rows = if o.timestamps_open then (if end == 0 then [] else h.rows) else h.rows;
      log = true;
      log_error = none;
    }

-- `OutputHub::configure_log`: `none` is an I/O error.
unfoldable pub configure_log : Opens → Hub → Option Hub
unfolding open_log
configure_log o h = if h.log then some h else if o.log_opens then some (open_log o h) else none

-- The outcome of the two writes of one `broadcast`, and the clock.
pub record Io : Type 0 where
  pub log_write : Written
  pub row_write : Bool
  pub now : ℕ

-- `retain(|tx| tx.send(x.clone()).is_ok())`
unfoldable pub send_all {ℓ} : {A : Type ℓ} → A → List (Sender A) → List (Sender A)
send_all x [] = []
send_all x (s ∷ ss) =
    let rest = send_all x ss in
    if s.alive then record s { queue = s.queue ++ x ∷ [] } ∷ rest else rest

append_row : Io → ℕ → ℕ → Hub → Hub
append_row io offset size h =
    if h.timestamps
    then (if io.row_write
        then record h {
          rows = h.rows ++ record { start = offset; size = size; time = io.now } ∷ [];
        }
        else record h { timestamps = false })
    else h

write_outcome : Written → Io → Bytes → Hub → Hub
unfolding append_row
write_outcome whole io chunk h =
    append_row io h.next_offset (length chunk) (record h { log_file = h.log_file ++ chunk })
write_outcome (failed n e) io chunk h = record h {
  log_file = h.log_file ++ take n chunk;
  log_error = some e;
  log = false;
  timestamps = false;
}

-- The first part of `broadcast`: the raw log and the row that describes the chunk.
pub write_log : Io → Bytes → Hub → Hub
unfolding write_outcome
write_log io chunk h = if h.log then write_outcome io.log_write io chunk h else h

-- The second part: the backlog, trimmed from the front.
pub extend_backlog : Bytes → Hub → Hub
extend_backlog chunk h =
    let backlog = h.backlog ++ chunk in
    let overflow = length backlog - backlog_cap in
    record h {
      next_offset = saturating_add h.next_offset (length chunk);
      backlog = if ltb 0 overflow then drop overflow backlog else backlog;
      backlog_start =
          if ltb 0 overflow then saturating_add h.backlog_start overflow else h.backlog_start;
    }

-- The third part: the attached clients. Senders whose receiver is gone are dropped.
pub fan_out : ℕ → Bytes → Hub → Hub
unfolding send_all
fan_out offset chunk h = record h {
  clients = send_all chunk h.clients;
  resume_clients = send_all (record { offset = offset; bytes = chunk }) h.resume_clients;
}

-- `OutputHub::broadcast`
unfoldable pub broadcast : Io → Bytes → Hub → Hub
unfolding write_log extend_backlog fan_out
broadcast io chunk h = fan_out h.next_offset chunk (extend_backlog chunk (write_log io chunk h))

-- Chunks as the reader threads deliver them, in the one total order that the lock gives.
unfoldable pub broadcast_all : List (Io × Bytes) → Hub → Hub
broadcast_all [] h = h
broadcast_all ((io, chunk) ∷ rest) h = broadcast_all rest (broadcast io chunk h)

-- `OutputHub::subscribe`: a channel whose queue starts with the backlog, if there is any.
unfoldable pub subscribe : ℕ → Hub → Hub
subscribe channel h = record h { clients = h.clients ++ sender ∷ [] }
  where
    sender : Sender Bytes
    sender = record {
      channel = channel;
      alive = true;
      queue = if is_empty h.backlog then [] else h.backlog ∷ [];
    }

pub data SubscribeError : Type 0 where
  log_unavailable : Bytes → SubscribeError
  beyond_end : SubscribeError

-- `ResumeSubscription`; the receiver is the channel of that number.
pub record Subscription : Type 0 where
  pub output : ℕ
  pub snapshot_end : ℕ
  pub backlog_chunk : Option OutputChunk

pub data Subscribed : Type 0 where
  ok : Hub → Subscription → Subscribed
  err : SubscribeError → Subscribed

beyond : Option ℕ → ℕ → Bool
beyond none end = false
beyond (some offset) end = ltb end offset

first_chunk : Option ℕ → Hub → Option OutputChunk
first_chunk (some offset) h = none
first_chunk none h =
    if is_empty h.backlog
    then none
    else some (record { offset = h.backlog_start; bytes = h.backlog })

resume_at : Option ℕ → ℕ → Hub → Subscribed
unfolding first_chunk
resume_at since channel h =
    ok
      (record h {
        resume_clients =
            h.resume_clients ++ record { channel = channel; alive = true; queue = [] } ∷ [];
      })
      (record {
        output = channel;
        snapshot_end = h.next_offset;
        backlog_chunk = first_chunk since h;
      })

subscribe_checked : Option Bytes → Option ℕ → ℕ → Hub → Subscribed
unfolding beyond resume_at
subscribe_checked (some e) since channel h = err (log_unavailable e)
subscribe_checked none since channel h =
    if beyond since h.next_offset then err beyond_end else resume_at since channel h

-- `OutputHub::subscribe_resumable`
unfoldable pub subscribe_resumable : Option ℕ → ℕ → Hub → Subscribed
unfolding subscribe_checked
subscribe_resumable since channel h = subscribe_checked h.log_error since channel h
