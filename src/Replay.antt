-- ===== src/Replay.antt =====
-- src/control.rs, `write_log_range_frames`: the part of the log that a resuming client missed, sent
-- in bounded frames.
pub mod Range
use babysit.Prelude.{
  ℕ, zero, suc, ◌+◌, ◌-◌, ◌*◌, min, Bool, true, false, List, [], ◌∷◌, Bytes, length, take, drop,
  ltb, ◌==◌, if◌then◌else◌,
}
use babysit.Hub.{OutputChunk}

-- The size of the read buffer.
abbrev pub buffer_size : ℕ
buffer_size = 64 * 1024

pub data ReplayError : Type 0 where
  invalid_range cannot_open unexpected_eof write_failed : ReplayError

-- How the transfer ends; `unfinished` stands for fuel that ran out.
pub data End : Type 0 where
  done unfinished : End
  failed : ReplayError → End

-- The frames sent, and the end.
abbrev pub Replayed : Type 0
Replayed = List OutputChunk × End

-- What the transfer meets: the file, if it can be opened; how many bytes beyond one a read at an
-- offset may bring; and whether the frame of that offset can be written.
pub record Disk : Type 0 where
  pub opens : Bool
  pub file : Bytes
  pub grants : ℕ → ℕ
  pub writes : ℕ → Bool

-- `file.read(&mut buffer[..wanted])`: nothing at the end of the file only.
abbrev pub read_at : Disk → ℕ → ℕ → Bytes
read_at d offset wanted = take (min wanted (suc (d.grants offset))) (drop offset d.file)

abbrev pub send_first : OutputChunk → Replayed → Replayed
send_first c (cs, e) = (c ∷ cs, e)

-- The loop, with the offset reached and the end of the range.
pub range_frames : ℕ → Disk → ℕ → ℕ → Replayed
range_frames zero d offset end = ([], (if ltb offset end then unfinished else done))
range_frames (suc fuel) d offset end =
    let bytes = read_at d offset (min (end - offset) buffer_size) in
    let more = range_frames fuel d (offset + length bytes) end in
    if ltb offset end
    then (if length bytes == 0
        then ([], failed unexpected_eof)
        else if d.writes offset
        then send_first (record { offset = offset; bytes = bytes }) more
        else ([], failed write_failed))
    else ([], done)

-- Each round sends at least one byte, so that the length of the range is fuel enough.
unfoldable pub write_log_range_frames : Disk → ℕ → ℕ → Replayed
unfolding range_frames
write_log_range_frames d start end =
    if ltb end start
    then ([], failed invalid_range)
    else if d.opens
    then range_frames (end - start) d start end
    else ([], failed cannot_open)
