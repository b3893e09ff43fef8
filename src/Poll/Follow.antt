-- ===== src/Poll/Follow.antt =====
-- src/sub.rs: `follow_log`, which streams the log until the session has finished.
pub mod Exact
pub mod Stops
pub mod Grepped
use babysit.Prelude.{
  ℕ, suc, Bool, true, false, List, [], ◌∷◌, ◌++◌, Option, none, some, Bytes, leb, ltb,
  if◌then◌else◌,
}
use babysit.Log.Slice.{LogFile, Slice, slice, failed, read_slice}
use babysit.Log.Grep.{grep_filter}

-- What a round finds: the log, and, when it has been read, whether the session has finished.
pub record Look : Type 0 where
  pub file : LogFile
  pub finished : Bool

-- The loop still runs, it has ended, or a read has failed.
pub data End : Type 0 where
  running stopped read_failed : End

abbrev pub write : Bytes → Bytes × End → Bytes × End
write text (more, end) = (text ++ more, end)

-- The end of a round: the loop stops at the second round without news of a finished session; `k` is
-- the rest of the loop, from the count of such rounds.
unfoldable pub after_read : Bool → Bool → ℕ → (ℕ → Bytes × End) → Bytes × End
after_read finished advanced idle k =
    if finished
    then (if advanced then k 0 else if leb 2 (suc idle) then ([], stopped) else k (suc idle))
    else k idle

abbrev pub on_slice : Option (Bytes → Bool) → ℕ → Slice → (Bytes → ℕ → Bytes × End) → Bytes × End
on_slice re off (slice text new_off) k = k (grep_filter text re) new_off
on_slice re off failed k = ([], read_failed)

-- `follow_log`: what is written; `strip` is the function of the crate `strip_ansi_escapes`.
unfoldable pub follow_log :
    (Bytes → Bytes) → Bool → Option (Bytes → Bool) → ℕ → ℕ → List Look → Bytes × End
unfolding after_read
follow_log strip raw re off idle [] = ([], running)
follow_log strip raw re off idle (l ∷ ls) =
    on_slice re off (read_slice strip l.file off raw) (λ text new_off. write text (
      after_read l.finished (ltb off new_off) idle
        (λ idle'. follow_log strip raw re new_off idle' ls)))
