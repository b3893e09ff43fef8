-- ===== src/Frame/RoundTrip.antt =====
-- Reading back what was written, and streams that are cut short.
use babysit.Prelude.{
  ℕ, zero, suc, ◌+◌, ◌/◌, ◌%◌, ◌^◌, ◌<◌, ◌≡◌, refl, ap, List, [], ◌∷◌, ◌++◌, Bytes, length, take,
  arith, take-length_append, drop-length_append, length-append, length-take, All, ltb,
  if◌then◌else◌, Option, none, some,
}
use babysit.Frame.{write_frame, read_frame, frame, eof, failed, End, closed, from_be32}

pub from_be32-be32 :
    (n : ℕ)
    → n < 2 ^ 32
    → from_be32 (n / 16777216 % 256) (n / 65536 % 256) (n / 256 % 256) (n % 256) ≡ n
from_be32-be32 n h = omega arith

-- A frame is read back as it was written, with whatever follows it left in the stream.
pub read_frame-write_frame :
    (tag : ℕ) (payload rest : Bytes) (end : End)
    → length payload < 2 ^ 32
    → read_frame (write_frame tag payload ++ rest) end ≡ frame tag payload rest
unfolding read_frame write_frame
read_frame-write_frame tag payload rest end h = ground (
  arith,
  from_be32-be32 (length payload % 2 ^ 32),
  take-length_append payload rest,
  drop-length_append payload rest,
  length-append payload rest,
)

-- A frame, with a payload below 2 ^ 32 bytes, that is cut short is no frame for the reader: the
-- connection has ended if the cut is inside the header, and has failed if it is behind it.
pub read_frame_cut :
    (tag : ℕ) (payload : Bytes) (k : ℕ)
    → length payload < 2 ^ 32
    → k < 5 + length payload
    → read_frame (take k (write_frame tag payload)) closed ≡ (if ltb k 5 then eof else failed)
unfolding read_frame write_frame
read_frame_cut tag payload zero h lt = refl
read_frame_cut tag payload (suc zero) h lt = refl
read_frame_cut tag payload (suc (suc zero)) h lt = refl
read_frame_cut tag payload (suc (suc (suc zero))) h lt = refl
read_frame_cut tag payload (suc (suc (suc (suc zero)))) h lt = refl
read_frame_cut tag payload (suc (suc (suc (suc (suc k))))) h lt =
    ground (arith, from_be32-be32 (length payload % 2 ^ 32), length-take k payload)

-- The frames that a reading loop takes from a stream until it ends; `none` if it fails, or if the
-- fuel runs out.
abbrev pub add_frame : ℕ × Bytes → Option (List (ℕ × Bytes)) → Option (List (ℕ × Bytes))
add_frame f none = none
add_frame f (some fs) = some (f ∷ fs)

pub read_frames : ℕ → Bytes → End → Option (List (ℕ × Bytes))
read_frames zero bytes end = none
read_frames (suc fuel) bytes end = elim (read_frame bytes end) [
  | eof ↦ some []
  | frame tag payload rest ↦ add_frame (tag, payload) (read_frames fuel rest end)
  | failed ↦ none
]

abbrev pub write_frames : List (ℕ × Bytes) → Bytes
write_frames [] = []
write_frames ((tag, payload) ∷ fs) = write_frame tag payload ++ write_frames fs

abbrev pub Short : ℕ × Bytes → Type 0
Short (tag, payload) = length payload < 2 ^ 32

-- Every frame of a stream of frames, with payloads below 2 ^ 32 bytes, arrives, in order, and then
-- the stream ends; fuel for one round more than there are frames is enough.
pub read_frames-write_frames :
    (fs : List (ℕ × Bytes)) (fuel : ℕ)
    → All Short fs
    → length fs < fuel
    → read_frames fuel (write_frames fs) closed ≡ some fs
unfolding read_frames
read_frames-write_frames fs zero h lt = absurd (omega arith)
read_frames-write_frames [] (suc fuel) h lt = unfold read_frame in refl
read_frames-write_frames ((tag, payload) ∷ fs) (suc fuel) h lt =
    rw (read_frame-write_frame tag payload (write_frames fs) closed h.0, read_frames)
      (ap (add_frame (tag, payload)) (read_frames-write_frames fs fuel h.1 (omega arith)))
