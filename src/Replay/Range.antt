-- ===== src/Replay/Range.antt =====
-- The frames cover the range exactly, and are bounded.
use babysit.Prelude.{
  ℕ, zero, suc, ◌+◌, ◌-◌, ◌≤◌, ◌<◌, ◌≡◌, refl, sym, ap, ◌∙◌, true, List, [], ◌∷◌, ◌++◌, Bytes,
  length, take, drop, arith, min, length-take, length-drop, drop-drop, All, subst, take_split,
}
use native.Mathlib.Decide.{dec_lt}
use babysit.Hub.{OutputChunk}
use babysit.Hub.Streams.{Contiguous, payload}
use babysit.Replay.{
  Disk, Replayed, done, buffer_size, read_at, range_frames, write_log_range_frames, send_first,
}

-- A frame holds at least one byte and at most a buffer's worth.
abbrev pub IsBoundedFrame : OutputChunk → Type 0
IsBoundedFrame c = (0 < length c.bytes) × (length c.bytes ≤ buffer_size)

-- The range `[start, end)` of the file has been sent, and nothing else.
pub record Covers (file : Bytes) (start end : ℕ) (cs : List OutputChunk) : Type 0 where
  pub gapless : Contiguous start cs end
  pub exact : payload cs ≡ take (end - start) (drop start file)
  pub sizes : All IsBoundedFrame cs

abbrev pub Delivers : Disk → ℕ → ℕ → Replayed → Type 0
Delivers d start end r = (r.1 ≡ done) × Covers d.file start end r.0

length-read_at :
    (d : Disk) (offset wanted : ℕ)
    → length (read_at d offset wanted)
      ≡ min (min wanted (suc (d.grants offset))) (length d.file - offset)
length-read_at d offset wanted = omega (
  arith,
  length-take (min wanted (suc (d.grants offset))) (drop offset d.file),
  length-drop offset d.file,
)

-- One read in front of the rest of the range.
Covers-cons :
    (file : Bytes) (offset end n : ℕ) {cs : List OutputChunk}
    → n ≡ length (take n (drop offset file))
    → 0 < n
    → n ≤ buffer_size
    → offset + n ≤ end
    → Covers file (offset + n) end cs
    → Covers file offset end (record { offset = offset; bytes = take n (drop offset file) } ∷ cs)
Covers-cons file offset end n {cs} len pos cap fits v = record {
  gapless = (refl, subst (λ m. Contiguous (offset + m) cs end) len v.gapless);
  exact =
      ap (λ b. take n (drop offset file) ++ b)
        (v.exact ∙ ap (take (end - (offset + n))) (sym (drop-drop (offset + n) offset n file refl)))
      ∙ take_split n (end - (offset + n)) (end - offset) (drop offset file) (omega arith);
  sizes = ((omega arith, omega arith), v.sizes);
}

Covers-nil : (file : Bytes) (end : ℕ) → Covers file end end []
Covers-nil file end = record {
  gapless = refl;
  exact = let e : 0 ≡ end - end = omega arith in ap (λ k. take k (drop end file)) e;
  sizes = tt;
}

range_frames_end : (fuel : ℕ) (d : Disk) (end : ℕ) → range_frames fuel d end end ≡ ([], done)
unfolding range_frames
range_frames_end zero d end = ground arith
range_frames_end (suc fuel) d end = ground arith

range_frames_step :
    (fuel : ℕ) (d : Disk) (offset end : ℕ)
    → offset < end
    → let bytes = read_at d offset (min (end - offset) buffer_size) in
      0 < length bytes
      → d.writes offset ≡ true
      → range_frames (suc fuel) d offset end
        ≡ send_first
            (record { offset = offset; bytes = bytes })
            (range_frames fuel d (offset + length bytes) end)
unfolding range_frames
range_frames_step fuel d offset end more some_read written = ground arith

module _ (d : Disk) (all_written : (offset : ℕ) → d.writes offset ≡ true) where
  abbrev read_amount : ℕ → ℕ → ℕ
  read_amount offset end = min (min (end - offset) buffer_size) (suc (d.grants offset))

  range_frames-Delivers :
      (fuel offset end : ℕ)
      → end ≤ length d.file
      → offset ≤ end
      → end - offset ≤ fuel
      → Delivers d offset end (range_frames fuel d offset end)
  range_frames-Delivers zero offset end hi lo enough =
      let e : offset ≡ end = omega arith in
      rw (e, range_frames_end zero d end) (refl, Covers-nil d.file end)
  range_frames-Delivers (suc fuel) offset end hi lo enough = elim (dec_lt offset end) [
    | yes more ↦
        let bytes = read_at d offset (min (end - offset) buffer_size) in
        let n = read_amount offset end in
        let len : length bytes ≡ n =
          omega (arith, length-read_at d offset (min (end - offset) buffer_size)) in
        let pos : 0 < n = omega arith in
        let cap : (n ≤ buffer_size) × (offset + n ≤ end) = omega arith in
        let (finished, rest) =
          range_frames-Delivers fuel (offset + length bytes) end hi (omega arith) (omega arith) in
        rw (range_frames_step fuel d offset end more (omega arith) (all_written offset)) (
          finished,
          Covers-cons d.file offset end n (sym len) pos cap.0 cap.1 (
              subst
                (λ m.
                  Covers d.file (offset + m) end
                    (range_frames fuel d (offset + length bytes) end).0)
                len rest),
        )
    | no stop ↦
        let e : offset ≡ end = omega arith in
        rw (e, range_frames_end (suc fuel) d end) (refl, Covers-nil d.file end)
  ]

  -- If the log can be opened and holds the range from `start` to `end`, and every frame can be
  -- written, the transfer ends well, however many bytes the reads bring: the frames follow one
  -- another from `start` to `end`, their bytes are that part of the log, and none is empty or
  -- larger than the buffer.
  pub write_log_range_frames-Delivers :
      (start end : ℕ)
      → d.opens ≡ true
      → start ≤ end
      → end ≤ length d.file
      → Delivers d start end (write_log_range_frames d start end)
  unfolding write_log_range_frames
  write_log_range_frames-Delivers start end opens lo hi =
      ground (arith, range_frames-Delivers (end - start) start end hi lo)
