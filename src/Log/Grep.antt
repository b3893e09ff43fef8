-- ===== src/Log/Grep.antt =====
-- src/sub.rs: `grep_filter`, and the lines of a text.
use babysit.Prelude.{
  ◌-◌, Bool, List, [], ◌∷◌, ◌++◌, Option, none, some, Bytes, length, take, is_empty, split, ends_in,
  if◌then◌else◌,
}

-- The end of a line that a newline terminates: `\r` in front of it is dropped.
abbrev pub strip_cr : Bytes → Bytes
strip_cr line = if ends_in b'\r' line then take (length line - 1) line else line

abbrev pub lines_in : List Bytes → List Bytes
lines_in [] = []
lines_in (piece ∷ []) = if is_empty piece then [] else piece ∷ []
lines_in (piece ∷ next ∷ pieces) = strip_cr piece ∷ lines_in (next ∷ pieces)

-- `str::lines`
unfoldable pub lines : Bytes → List Bytes
unfolding split
lines text = lines_in (split b'\n' text)

unfoldable pub keep_lines : (Bytes → Bool) → List Bytes → Bytes
keep_lines is_match [] = []
keep_lines is_match (line ∷ rest) =
    (if is_match line then line ++ b'\n' ∷ [] else []) ++ keep_lines is_match rest

-- `grep_filter`; the regular expression is a test on lines.
unfoldable pub grep_filter : Bytes → Option (Bytes → Bool) → Bytes
unfolding lines keep_lines
grep_filter text none = text
grep_filter text (some is_match) = keep_lines is_match (lines text)
