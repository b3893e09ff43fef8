-- ===== src/Log/Lines.antt =====
-- src/control.rs and src/sub.rs: the last lines of a text, and the rows of the timestamp sidecar.
pub mod Clip
use babysit.Prelude.{
  ℕ, zero, suc, ◌+◌, ◌-◌, ◌^◌, Bool, true, false, not, ◌&&◌, ◌||◌, List, [], ◌∷◌, ◌++◌, Option,
  none, some, Bytes, length, drop, leb, ltb, ◌==◌, if◌then◌else◌, is_empty, ends_in, min, max,
  split, take, last?,
}
use babysit.Hub.{Row}

-- `text.strip_suffix('\n').unwrap_or(text)`
abbrev pub trim_newline : Bytes → Bytes
trim_newline text = if ends_in b'\n' text then take (length text - 1) text else text

-- The positions behind the newlines of a text, the last one first (`rmatch_indices`, plus one), with
-- the text starting at `pos` and the later positions `behind`.
abbrev pub starts_onto : ℕ → Bytes → List ℕ → List ℕ
starts_onto pos [] behind = behind
starts_onto pos (b ∷ bs) behind =
    starts_onto (suc pos) bs (if b == b'\n' then suc pos ∷ behind else behind)

-- The n-th of them, counted from one; 0 if there are not so many.
abbrev pub nth_start : ℕ → List ℕ → ℕ
nth_start n [] = 0
nth_start zero (s ∷ ss) = 0
nth_start (suc zero) (s ∷ ss) = s
nth_start (suc (suc n)) (s ∷ ss) = nth_start (suc n) ss

-- `last_n_lines`
unfoldable pub last_n_lines : Bytes → ℕ → Bytes
last_n_lines text zero = []
last_n_lines text (suc n) = drop (nth_start (suc n) (starts_onto 0 (trim_newline text) [])) text

-- Part of `clip_capture_rows`: a row that has been read.
abbrev pub clip_row : ℕ → ℕ → Row → List Row → List Row
clip_row from to r rest =
    let start = max r.start from in
    let end = min (r.start + r.size) to in
    if ltb start end
    then record { start = start; size = end - start; time = r.time } ∷ rest
    else rest

-- `clip_capture_rows`, on the lines of the file; `parse` reads a row from a line (`serde_json`).
unfoldable pub clip_rows : (Bytes → Option Row) → ℕ → ℕ → ℕ → List Bytes → List Row
clip_rows parse from to previous_end [] = []
clip_rows parse from to previous_end (line ∷ lines) =
    let skipped = clip_rows parse from to previous_end lines in
    elim (parse line) [
      | none ↦ skipped
      | some r ↦
          (let taken = clip_rows parse from to (r.start + r.size) lines in
            if not (ltb (r.start + r.size) (2 ^ 64))
            then skipped
            else if r.size == 0 || ltb r.start previous_end
            then skipped
            else clip_row from to r taken)
    ]

unfoldable pub clip_capture_rows : (Bytes → Option Row) → List Bytes → ℕ → ℕ → List Row
unfolding clip_rows
clip_capture_rows parse lines from to = clip_rows parse from to 0 lines
