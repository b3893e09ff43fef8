-- ===== src/Log/Lines/Clip.antt =====
-- src/sub.rs: the rows of the sidecar that a range of the log is given.
use babysit.Prelude.{
  ℕ, ◌+◌, ◌-◌, ◌^◌, ◌≤◌, ◌<◌, ◌≡◌, refl, ap, ◌∙◌, List, [], ◌∷◌, Option, some, Bytes, arith,
  Option-cases, inl, inr, max, min, map, All, if_ind, if_case, true, false, ltb, ltb→lt, not,
  if◌then◌else◌, ◌||◌, ◌==◌,
}
use babysit.Hub.{Row}
use babysit.Hub.Offsets.{Tiles}
use babysit.Log.Lines.{clip_row, clip_rows, clip_capture_rows}

-- Rows of at least one byte.
abbrev pub NonEmpty : Row → Type 0
NonEmpty r = 0 < r.size

Tiles-lower : (lo lo' : ℕ) (rs : List Row) (hi : ℕ) → lo' ≤ lo → Tiles lo rs hi → Tiles lo' rs hi
Tiles-lower lo lo' [] hi le t = omega arith
Tiles-lower lo lo' (r ∷ rs) hi le t = (omega arith, t.1)

-- Rows in `[from, to)` behind `prev`, in order and without overlap, none empty.
InRange : ℕ → ℕ → ℕ → List Row → Type 0
InRange from to prev rs = Tiles (max from (min prev to)) rs to × All NonEmpty rs

clip_row-InRange :
    (from to prev : ℕ) (r : Row) (rest : List Row)
    → from ≤ to
    → 0 < r.size
    → prev ≤ r.start
    → InRange from to (r.start + r.size) rest
    → InRange from to prev (clip_row from to r rest)
unfolding InRange
clip_row-InRange from to prev r rest le size after (t, n) =
    let start = max r.start from in
    let end = min (r.start + r.size) to in
    if_case (InRange from to prev) (ltb start end)
      (record { start = start; size = end - start; time = r.time } ∷ rest) rest
      (λ lt.
        let some_left : start < end = ltb→lt start end lt in
        (
          (
            omega arith,
            Tiles-lower (max from (min (r.start + r.size) to)) (start + (end - start)) rest to
                (omega arith) t,
          ),
          (omega arith, n),
        ))
      (λ nothing_left. (
        Tiles-lower (max from (min (r.start + r.size) to)) (max from (min prev to)) rest to
            (omega arith) t,
        n,
      ))

clip_rows-InRange :
    (parse : Bytes → Option Row) (from to prev : ℕ) (lines : List Bytes)
    → from ≤ to
    → InRange from to prev (clip_rows parse from to prev lines)
unfolding clip_rows InRange
clip_rows-InRange parse from to prev [] le = (omega arith, tt)
clip_rows-InRange parse from to prev (line ∷ lines) le =
    let skipped = clip_rows-InRange parse from to prev lines le in
    elim (Option-cases (parse line)) [
      | inl e ↦ rw (e, clip_rows) skipped
      | inr (r, e) ↦
          rw (e, clip_rows)
            (if_ind (InRange from to prev) (not (ltb (r.start + r.size) (2 ^ 64)))
              (clip_rows parse from to prev lines)
              (if r.size == 0 || ltb r.start prev
                then clip_rows parse from to prev lines
                else clip_row from to r (clip_rows parse from to (r.start + r.size) lines))
              skipped
              (if_case (InRange from to prev) (r.size == 0 || ltb r.start prev)
                (clip_rows parse from to prev lines)
                (clip_row from to r (clip_rows parse from to (r.start + r.size) lines))
                (λ _. skipped)
                (λ k.
                  clip_row-InRange from to prev r (clip_rows parse from to (r.start + r.size) lines)
                    le (ground arith) (ground arith)
                    (clip_rows-InRange parse from to (r.start + r.size) lines le))))
    ]

-- Whatever stands in the file, the rows that are given lie in the range asked for, in order and
-- without overlap, and none is empty.
pub clip_capture_rows-Tiles :
    (parse : Bytes → Option Row) (lines : List Bytes) (from to : ℕ)
    → from ≤ to
    → Tiles from (clip_capture_rows parse lines from to) to
      × All NonEmpty (clip_capture_rows parse lines from to)
unfolding clip_capture_rows InRange
clip_capture_rows-Tiles parse lines from to le =
    let (t, n) = clip_rows-InRange parse from to 0 lines le in
    (Tiles-lower (max from (min 0 to)) from (clip_rows parse from to 0 lines) to (omega arith) t, n)

Tiles-le : (lo : ℕ) (rs : List Row) (hi : ℕ) → Tiles lo rs hi → lo ≤ hi
Tiles-le lo [] hi t = t
Tiles-le lo (r ∷ rs) hi t = omega (arith, Tiles-le (r.start + r.size) rs hi t.1)

clip_row-whole :
    (to : ℕ) (r : Row) (rest : List Row)
    → 0 < r.size
    → r.start + r.size ≤ to
    → clip_row 0 to r rest ≡ r ∷ rest
clip_row-whole to r rest size fits =
    let start : max r.start 0 ≡ r.start = omega arith in
    let size_is : min (r.start + r.size) to - max r.start 0 ≡ r.size = omega arith in
    let kept : ltb (max r.start 0) (min (r.start + r.size) to) ≡ true = ground arith in
    rw kept (
      ap
        (λ s.
          record { start = s; size = min (r.start + r.size) to - max r.start 0; time = r.time }
          ∷ rest)
        start
      ∙ ap (λ n. record { start = r.start; size = n; time = r.time } ∷ rest) size_is)

clip_rows-step :
    (parse : Bytes → Option Row) (to prev : ℕ) (r : Row) (line : Bytes) (lines : List Bytes)
    → parse line ≡ some r
    → r.start + r.size < 2 ^ 64
    → 0 < r.size
    → prev ≤ r.start
    → clip_rows parse 0 to prev (line ∷ lines)
      ≡ clip_row 0 to r (clip_rows parse 0 to (r.start + r.size) lines)
unfolding clip_rows
clip_rows-step parse to prev r line lines e small size after =
    let fits : ltb (r.start + r.size) (2 ^ 64) ≡ true = ground arith in
    let taken : (r.size == 0 || ltb r.start prev) ≡ false = ground arith in
    rw (e, clip_rows) (rw (fits, taken) refl)

clip_rows-written :
    (parse : Bytes → Option Row) (print : Row → Bytes) (prev : ℕ) (rows : List Row) (end : ℕ)
    → ((r : Row) → parse (print r) ≡ some r)
    → Tiles prev rows end
    → All NonEmpty rows
    → end < 2 ^ 64
    → clip_rows parse 0 end prev (map print rows) ≡ rows
clip_rows-written parse print prev [] end reads t n small = unfold clip_rows in refl
clip_rows-written parse print prev (r ∷ rs) end reads t n small =
    let fits = Tiles-le (r.start + r.size) rs end t.1 in
    clip_rows-step parse end prev r (print r) (map print rs) (reads r) (omega (arith, fits)) n.0 t.0
    ∙ clip_row-whole end r (clip_rows parse 0 end (r.start + r.size) (map print rs)) n.0 fits
    ∙ ap (λ rest. r ∷ rest)
        (clip_rows-written parse print (r.start + r.size) rs end reads t.1 n.1 small)

-- Let the rows lie within the range from 0 to `end`, in order, without overlap and none empty, with
-- `end` below 2 ^ 64, and let each line be read back as the row that it was printed from. Then the
-- rows that are given for that range are the ones written.
pub clip_capture_rows-written :
    (parse : Bytes → Option Row) (print : Row → Bytes) (rows : List Row) (end : ℕ)
    → ((r : Row) → parse (print r) ≡ some r)
    → Tiles 0 rows end
    → All NonEmpty rows
    → end < 2 ^ 64
    → clip_capture_rows parse (map print rows) 0 end ≡ rows
unfolding clip_capture_rows
clip_capture_rows-written parse print rows end reads t n small =
    clip_rows-written parse print 0 rows end reads t n small
