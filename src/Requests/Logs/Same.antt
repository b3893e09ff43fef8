-- ===== src/Requests/Logs/Same.antt =====
-- src/sub.rs, log: the answer of a worker and the fallback to the disk.
use babysit.Prelude.{ℕ, ◌≡◌, refl, ap, ◌∙◌, ◌⊎◌, inl, inr, Bool, false, Option, none, some, Bytes}
use babysit.Control.{Request, log, World, Effects, dispatch, log_response}
use babysit.Log.Slice.{LogFile, missing, unreadable, contents}
use babysit.Log.Grep.{grep_filter}
use babysit.Hub.{Row}
use babysit.Requests.{request}
use babysit.Requests.Logs.{
  tailed, text_of, read_log, or_empty, Options, Found, emit_log, asked_tail, server_tail, grepped,
  fetched, filtered, whole_log, log_command,
}

-- What is asked for: of the text of the log, the lines that match, and of these the last.
abbrev pub wanted : (Bytes → Bytes) → Options → Bytes → Bytes
unfolding tailed
wanted strip o bytes = tailed o.tail (grep_filter (text_of strip o.raw bytes) o.grep)

-- No worker answers, or one whose main loop has read the same log.
unfoldable pub Answers : (Bytes → Bytes) → Found → Request → Type 0
Answers strip f r =
    (request f.link r ≡ none)
    ⊎ ((w : World) × (e : Effects) × ((tail : Option ℕ) (raw : Bool)
          → w.read_log tail raw ≡ read_log strip f.file tail raw)
        × (request f.link r ≡ some (dispatch w r e).0))

fetched_same :
    (strip : Bytes → Bytes) (o : Options) (f : Found)
    → Answers strip f (log (server_tail o) o.raw)
    → fetched strip o f.file (request f.link (log (server_tail o) o.raw))
      ≡ tailed (server_tail o) (text_of strip o.raw (or_empty f.file))
unfolding Answers fetched dispatch read_log tailed
fetched_same strip o f (inl e) = ap (fetched strip o f.file) e
fetched_same strip o f (inr (w, e, same, answered)) =
    ap (fetched strip o f.file) answered
    ∙ ap (λ r. fetched strip o f.file (some (log_response r))) (same (server_tail o) o.raw)
    ∙ of_file f.file
  where
    of_file :
        (file : LogFile)
        → fetched strip o file (some (log_response (read_log strip file (server_tail o) o.raw)))
          ≡ tailed (server_tail o) (text_of strip o.raw (or_empty file))
    of_file missing = refl
    of_file unreadable = refl
    of_file (contents bytes) = refl

filtered-tailed :
    (strip : Bytes → Bytes) (o : Options) (bytes : Bytes)
    → filtered o (tailed (server_tail o) (text_of strip o.raw bytes)) ≡ wanted strip o bytes
unfolding filtered grepped grep_filter wanted tailed
filtered-tailed strip o bytes = of_grep o.grep
  where
    of_grep :
        (g : Option (Bytes → Bool))
        → grepped g o.tail (tailed (asked_tail g o.tail) (text_of strip o.raw bytes))
          ≡ tailed o.tail (grep_filter (text_of strip o.raw bytes) g)
    of_grep none = refl
    of_grep (some re) = refl

-- Without `--follow` and `--since`, whether a worker that has read the log answers, refuses, or there is
-- none: what is printed is the text of the log, of which the lines that match the pattern are kept, and
-- of these the last ones, with the length of the log as it is when that is asked for.
pub log_command-Answers :
    (strip : Bytes → Bytes) (parse : Bytes → Option Row) (o : Options) (f : Found)
    → o.follow ≡ false
    → o.since ≡ none
    → Answers strip f (log (server_tail o) o.raw)
    → log_command strip parse o f ≡ emit_log o.json f (wanted strip o (or_empty f.file)) f.size
unfolding log_command whole_log
log_command-Answers strip parse o f no_follow no_since answers =
    rw (
      no_follow,
      no_since,
      fetched_same strip o f answers,
      filtered-tailed strip o (or_empty f.file),
    )
