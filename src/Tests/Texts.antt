-- ===== src/Tests/Texts.antt =====
-- Reading the log and the command line: src/sub.rs, src/control.rs and src/run.rs.
use babysit.Prelude.{[], ◌∷◌}
use babysit.Log.Slice.{safe_prefix_len}
use babysit.Log.Slice.Held.{Holds, safe_prefix_len-Holds}

safe_prefix_len-Holds_example : Holds (97 ∷ 0xc3 ∷ []) (safe_prefix_len (97 ∷ 0xc3 ∷ []))
safe_prefix_len-Holds_example = safe_prefix_len-Holds (97 ∷ 0xc3 ∷ [])
