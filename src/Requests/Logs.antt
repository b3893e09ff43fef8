-- ===== src/Requests/Logs.antt =====
-- src/sub.rs, `log` and emit_log, and src/control.rs, read_log: a session's log, from its worker or
-- from the disk.
pub mod Same
pub mod Gap
use babysit.Prelude.{ℕ, Bool, true, false, List, [], ◌∷◌, Option, none, some, Bytes, if◌then◌else◌}
use babysit.Control.{log, Response, ok, err, Data, text_data}
use babysit.Log.Slice.{LogFile, missing, unreadable, contents, Slice, slice, failed, read_slice}
use babysit.Log.Utf8.{from_utf8_lossy}
use babysit.Log.Lines.{last_n_lines, clip_capture_rows}
use babysit.Log.Grep.{grep_filter}
use babysit.Hub.{Row}
use babysit.Poll.Follow.{Look, End, follow_log}
use babysit.Requests.{Link, request}

-- The last lines of a text, if a number of them is asked for.
abbrev pub tailed : Option ℕ → Bytes → Bytes
unfolding last_n_lines
tailed none text = text
tailed (some n) text = last_n_lines text n

-- The text of a log; `strip` is the function of the crate `strip_ansi_escapes`.
abbrev pub text_of : (Bytes → Bytes) → Bool → Bytes → Bytes
text_of strip raw bytes = from_utf8_lossy (if raw then bytes else strip bytes)

-- `read_log`, of the worker
unfoldable pub read_log : (Bytes → Bytes) → LogFile → Option ℕ → Bool → Option Bytes
unfolding tailed
read_log strip missing tail raw = some (tailed tail (text_of strip raw []))
read_log strip unreadable tail raw = none
read_log strip (contents bytes) tail raw = some (tailed tail (text_of strip raw bytes))

-- `unwrap_or_default` of a read
abbrev pub or_empty : LogFile → Bytes
or_empty missing = []
or_empty unreadable = []
or_empty (contents bytes) = bytes

-- The options of `log`; the regular expression of `--grep` is a test on lines.
pub record Options : Type 0 where
  pub tail : Option ℕ
  pub grep : Option (Bytes → Bool)
  pub raw : Bool
  pub since : Option ℕ
  pub follow : Bool
  pub json : Bool
  pub timestamps : Bool

-- What the command finds: the worker, the log when it is read from the disk, its length when that is
-- asked for, the lines of the sidecar (none if it cannot be read), whether the session has finished,
-- and the rounds of `--follow`.
pub record Found : Type 0 where
  pub link : Link
  pub file : LogFile
  pub size : ℕ
  pub sidecar : List Bytes
  pub is_finished : Bool
  pub rounds : List Look

-- What is printed.
pub data Printed : Type 0 where
  text : Bytes → Printed
  object : Bytes → (offset : ℕ) → (done : Bool) → Printed
  stamped : Bytes → (offset : ℕ) → (done : Bool) → List Row → Printed
  streamed : Bytes × End → Printed
  read_error : Printed

-- `emit_log`
abbrev pub emit_log : Bool → Found → Bytes → ℕ → Printed
emit_log json f t offset = if json then object t offset f.is_finished else text t

-- With `--since`: a slice of the log from an offset. A row is parsed by serde_json.
abbrev pub since_slice : (Bytes → Option Row) → Options → Found → ℕ → Slice → Printed
unfolding grep_filter clip_capture_rows
since_slice parse o f off failed = read_error
since_slice parse o f off (slice t offset) =
    if o.timestamps
    then stamped t offset f.is_finished (clip_capture_rows parse f.sidecar off offset)
    else emit_log o.json f (grep_filter t o.grep) offset

-- What the worker is asked for: with a pattern, all of it.
abbrev pub asked_tail : Option (Bytes → Bool) → Option ℕ → Option ℕ
asked_tail none tail = tail
asked_tail (some re) tail = none

abbrev pub server_tail : Options → Option ℕ
server_tail o = asked_tail o.grep o.tail

-- The text of the response, or else of the file on the disk.
abbrev pub fetched : (Bytes → Bytes) → Options → LogFile → Option Response → Bytes
unfolding tailed
fetched strip o file (some (ok (text_data t))) = t
fetched strip o file (some (ok _)) = []
fetched strip o file (some (err e)) = tailed (server_tail o) (text_of strip o.raw (or_empty file))
fetched strip o file none = tailed (server_tail o) (text_of strip o.raw (or_empty file))

-- `--grep`, and then `--tail` on the lines that match.
abbrev pub grepped : Option (Bytes → Bool) → Option ℕ → Bytes → Bytes
unfolding tailed grep_filter
grepped none tail t = t
grepped (some re) tail t = tailed tail (grep_filter t (some re))

abbrev pub filtered : Options → Bytes → Bytes
unfolding grepped
filtered o t = grepped o.grep o.tail t

-- The whole log, or its tail.
unfoldable pub whole_log : (Bytes → Bytes) → Options → Found → Printed
unfolding filtered fetched request
whole_log strip o f =
    emit_log o.json f
      (filtered o (fetched strip o f.file (request f.link (log (server_tail o) o.raw)))) f.size

abbrev pub offset_or_start : Option ℕ → ℕ
offset_or_start none = 0
offset_or_start (some off) = off

-- `log`
unfoldable pub log_command : (Bytes → Bytes) → (Bytes → Option Row) → Options → Found → Printed
unfolding whole_log follow_log read_slice since_slice
log_command strip parse o f =
    if o.follow
    then streamed (follow_log strip o.raw o.grep (offset_or_start o.since) 0 f.rounds)
    else elim (o.since) [
      | some off ↦ since_slice parse o f off (read_slice strip f.file off o.raw)
      | none ↦ whole_log strip o f
    ]
