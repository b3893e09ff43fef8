-- ===== src/Remote/Progress.antt =====
-- src/remote.rs: how the attached client follows the raw output by its offsets.
pub mod Follow
pub mod EndToEnd
use babysit.Prelude.{
  ℕ, ◌+◌, ◌-◌, min, max, List, [], ◌∷◌, ◌++◌, Option, none, some, Bytes, length, drop, ltb,
  if◌then◌else◌,
}
use babysit.Hub.{OutputChunk, saturating_add}

-- `Ok((skip, next))`, or `Err((expected, received))`.
pub data Progress : Type 0 where
  advance : ℕ → ℕ → Progress
  gap : ℕ → ℕ → Progress

abbrev pub or_start : Option ℕ → ℕ → ℕ
or_start none start = start
or_start (some c) start = c

-- `offset_frame_progress`. A usize has 64 bits, so that the conversion of the skip cannot fail.
unfoldable pub offset_frame_progress : Option ℕ → ℕ → ℕ → Progress
offset_frame_progress cursor start len =
    let expected = or_start cursor start in
    if ltb expected start
    then gap expected start
    else (let skip = min (expected - start) len in
        let end = saturating_add start len in advance skip (max expected end))

-- What the attach loop keeps of the output: the cursor, and what has been printed.
pub record Screen : Type 0 where
  pub cursor : Option ℕ
  pub printed : Bytes

pub data Received : Type 0 where
  shown : Screen → Received
  gap_found : ℕ → ℕ → Received

take_progress : Progress → Bytes → Screen → Received
take_progress (gap expected received) bytes s = gap_found expected received
take_progress (advance skip next) bytes s =
    shown (record { cursor = some next; printed = s.printed ++ drop skip bytes })

-- The `S_OUTPUT_OFFSET` arm of the attach loop.
unfoldable pub receive : OutputChunk → Screen → Received
unfolding take_progress
receive c s = take_progress (offset_frame_progress s.cursor c.offset (length c.bytes)) c.bytes s

-- Frames until the first gap.
unfoldable pub receive_all : List OutputChunk → Screen → Received
receive_all [] s = shown s
receive_all (c ∷ cs) s = elim (receive c s) [
  | shown s' ↦ receive_all cs s'
  | gap_found expected received ↦ gap_found expected received
]
