-- ===== src/Requests/Logs/Gap.antt =====
-- src/sub.rs, log: output that comes between the read of the log and the look at its length.
use babysit.Prelude.{
  ◌≡◌, refl, ◌∙◌, Bool, true, false, [], ◌++◌, Option, none, some, Bytes, length, arith,
}
use babysit.Control.{log}
use babysit.Log.Slice.{contents, slice, read_slice}
use babysit.Log.Grep.{grep_filter}
use babysit.Hub.{Row}
use babysit.Requests.Logs.{Options, Found, object, server_tail, since_slice, log_command}
use babysit.Requests.Logs.Same.{wanted, Answers, log_command-Answers}

grep_filter-nil : (g : Option (Bytes → Bool)) → grep_filter [] g ≡ []
unfolding grep_filter
grep_filter-nil none = refl
grep_filter-nil (some re) = refl

read_slice-end :
    (strip : Bytes → Bytes) (bytes : Bytes) (raw : Bool)
    → read_slice strip (contents bytes) (length bytes) raw ≡ slice [] (length bytes)
unfolding read_slice
read_slice-end strip bytes raw = ground arith

-- With --json and without --since: if the log is `a` when its text is read and `b` has been appended
-- when its length is taken, then the object has the text of `a` with the offset behind `b`, and a command
-- that resumes from this offset has no text and the same offset: neither has anything of `b`.
pub snapshot_skips :
    (strip : Bytes → Bytes) (parse : Bytes → Option Row) (o : Options) (f later : Found)
    (a b : Bytes)
    → o.follow ≡ false
    → o.since ≡ none
    → o.json ≡ true
    → o.timestamps ≡ false
    → Answers strip f (log (server_tail o) o.raw)
    → f.file ≡ contents a
    → f.size ≡ length (a ++ b)
    → later.file ≡ contents (a ++ b)
    → (log_command strip parse o f ≡ object (wanted strip o a) (length (a ++ b)) f.is_finished)
      × (log_command strip parse (record o { since = some (length (a ++ b)) }) later
          ≡ object [] (length (a ++ b)) later.is_finished)
unfolding log_command since_slice
snapshot_skips strip parse o f later a b no_follow no_since json no_rows answers file size grown = (
  log_command-Answers strip parse o f no_follow no_since answers ∙ rw (json, size, file),
  rw (no_follow, grown, read_slice-end strip (a ++ b) o.raw, no_rows, json, grep_filter-nil o.grep),
)
