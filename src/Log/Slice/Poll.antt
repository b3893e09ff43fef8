-- ===== src/Log/Slice/Poll.antt =====
-- Reading a growing log in steps.
use babysit.Prelude.{
  ℕ, ◌+◌, ◌-◌, ◌≤◌, ◌<◌, ◌≡◌, ◌≢◌, refl, sym, ap, ◌∙◌, true, Bool, List, [], ◌∷◌, ◌++◌, Option,
  none, some, Bytes, length, take, drop, arith, length-take, length-drop, take-take, drop-take,
  drop-drop, take_split, append-nil, take-append-drop,
}
use native.Mathlib.Decide.{dec_lt}
use babysit.Log.Utf8.{valid, invalid, from_utf8, from_utf8_lossy}
use babysit.Log.Utf8.Valid.{from_utf8_lossy_valid}
use babysit.Log.Utf8.Prefix.{from_utf8_prefix}
use babysit.Log.Slice.{slice, failed, contents, safe_prefix_len, read_slice}
use babysit.Log.Slice.Safe.{safe_prefix_len-IsSafe}

abbrev then_text : Bytes → Option (Bytes × ℕ) → Option (Bytes × ℕ)
then_text text none = none
then_text text (some (more, end)) = some (text ++ more, end)

-- Successive reads, each from where the one before stopped: the texts together, and the last
-- offset. At each read the log has grown to the given length.
pub poll : (Bytes → Bytes) → Bool → Bytes → ℕ → List ℕ → Option (Bytes × ℕ)
poll strip raw file off [] = some ([], off)
poll strip raw file off (n ∷ ns) = elim (read_slice strip (contents (take n file)) off raw) [
  | slice text off' ↦ then_text text (poll strip raw file off' ns)
  | failed ↦ none
]

-- The log does not shrink between the reads, and the first one finds it at `off` at least.
abbrev pub Grows : ℕ → List ℕ → ℕ → Type 0
Grows lo [] hi = lo ≤ hi
Grows lo (n ∷ ns) hi = (lo ≤ n) × Grows n ns hi

Grows-le : (lo : ℕ) (ns : List ℕ) (hi : ℕ) → Grows lo ns hi → lo ≤ hi
Grows-le lo [] hi g = g
Grows-le lo (n ∷ ns) hi g = omega (arith, Grows-le n ns hi g.1)

Grows-lower : (lo lo' : ℕ) (ns : List ℕ) (hi : ℕ) → lo' ≤ lo → Grows lo ns hi → Grows lo' ns hi
Grows-lower lo lo' [] hi le g = omega arith
Grows-lower lo lo' (n ∷ ns) hi le g = (omega arith, g.1)

-- One raw read of a log whose text from `off` on is valid.
pub record ReadsPart (strip : Bytes → Bytes) (file : Bytes) (off n : ℕ) : Type 0 where
  pub end : ℕ
  pub reads :
      read_slice strip (contents (take n file)) off true
      ≡ slice (take (end - off) (drop off file)) end
  pub lower : off ≤ end
  pub upper : end ≤ n
  pub rest_valid : from_utf8 (drop end file) ≡ valid

slice_at_end :
    (strip : Bytes → Bytes) (file : Bytes) (off : ℕ) (raw : Bool)
    → length file ≤ off
    → read_slice strip (contents file) off raw ≡ slice [] (length file)
unfolding read_slice
slice_at_end strip file off raw h = ground arith

pub slice_part :
    (strip : Bytes → Bytes) (file : Bytes) (off : ℕ)
    → off < length file
    → read_slice strip (contents file) off true
      ≡ slice
          (from_utf8_lossy (take (safe_prefix_len (drop off file)) (drop off file)))
          (off + safe_prefix_len (drop off file))
unfolding read_slice
slice_part strip file off h = ground arith

-- A safe prefix of the part of a valid text that is there: it is valid, and so is what follows it.
safe_part :
    (text : Bytes) (m : ℕ)
    → from_utf8 text ≡ valid
    → m ≤ length text
    → let safe = safe_prefix_len (take m text) in
      (safe ≤ m)
      × (from_utf8_lossy (take safe (take m text)) ≡ take safe text)
      × (from_utf8 (drop safe text) ≡ valid)
unfolding from_utf8_lossy
safe_part text m ok hi = (le, lossy_same, (both (safe_prefix_len (take m text)) le ends).1)
  where
    le : safe_prefix_len (take m text) ≤ m
    le = omega (
      arith,
      (safe_prefix_len-IsSafe (take m text)).before_cut,
      (safe_prefix_len-IsSafe (take m text)).inside,
      length-take m text,
    )

    ends : (p : ℕ) → from_utf8 (take (safe_prefix_len (take m text)) text) ≢ invalid p none
    ends p =
        rw (← take-take (safe_prefix_len (take m text)) m text le)
          ((safe_prefix_len-IsSafe (take m text)).ends_whole p)

    both :
        (s : ℕ)
        → s ≤ m
        → ((p : ℕ) → from_utf8 (take s text) ≢ invalid p none)
        → (from_utf8 (take s text) ≡ valid) × (from_utf8 (drop s text) ≡ valid)
    both s sm e = from_utf8_prefix (take s text) (drop s text) (rw (take-append-drop s text) ok) e

    lossy_same :
        from_utf8_lossy (take (safe_prefix_len (take m text)) (take m text))
        ≡ take (safe_prefix_len (take m text)) text
    lossy_same =
        ap from_utf8_lossy (take-take (safe_prefix_len (take m text)) m text le)
        ∙ ap from_utf8_lossy (sym (append-nil (take (safe_prefix_len (take m text)) text)))
        ∙ from_utf8_lossy_valid (take (safe_prefix_len (take m text)) text) []
            (both (safe_prefix_len (take m text)) le ends).0
        ∙ append-nil (take (safe_prefix_len (take m text)) text)

pub read_slice-ReadsPart :
    (strip : Bytes → Bytes) (file : Bytes) (off n : ℕ)
    → off ≤ n
    → n ≤ length file
    → from_utf8 (drop off file) ≡ valid
    → ReadsPart strip file off n
read_slice-ReadsPart strip file off n lo hi ok = elim (dec_lt off n) [
  | no stop ↦
      let e : n ≡ off = omega arith in
      let z : 0 ≡ off - off = omega arith in
      record {
        end = off;
        reads =
            slice_at_end strip (take n file) off true (omega (arith, length-take n file))
            ∙ (λ i. slice (take (z i) (drop off file)) (len e i));
        lower = omega arith;
        upper = omega arith;
        rest_valid = ok;
      }
  | yes more ↦
      let text = drop off file in
      let seen : drop off (take n file) ≡ take (n - off) text =
        drop-take off (n - off) n file (omega arith) in
      let (le, same, rest) = safe_part text (n - off) ok (omega (arith, length-drop off file)) in
      let safe = safe_prefix_len (take (n - off) text) in
      let k : safe ≡ off + safe - off = omega arith in
      record {
        end = off + safe;
        reads =
            slice_part strip (take n file) off (omega (arith, length-take n file))
            ∙ ap
                (λ b.
                  slice (from_utf8_lossy (take (safe_prefix_len b) b)) (off + safe_prefix_len b))
                seen
            ∙ ap (λ b. slice b (off + safe)) (same ∙ ap (λ j. take j text) k);
        lower = omega arith;
        upper = omega arith;
        rest_valid = rw (← drop-drop (off + safe) off safe file refl) rest;
      }
]
  where
    len : n ≡ off → length (take n file) ≡ off
    len e = omega (arith, length-take n file)

-- Let the text of the log from the first offset on be valid UTF-8, and let the log not shrink. Then
-- raw reads, each from the offset that the one before returned, all succeed, and together they
-- bring the text from the first offset up to the last one, wherever the reads cut the log.
pub poll_exact :
    (strip : Bytes → Bytes) (file : Bytes) (off : ℕ) (ns : List ℕ)
    → Grows off ns (length file)
    → from_utf8 (drop off file) ≡ valid
    → (end : ℕ) × (poll strip true file off ns ≡ some (take (end - off) (drop off file), end))
      × (off ≤ end)
      × (end ≤ length file)
unfolding poll
poll_exact strip file off [] g ok =
    let z : 0 ≡ off - off = omega arith in
    (off, ap (λ j. some (take j (drop off file), off)) z, omega arith, g)
poll_exact strip file off (n ∷ ns) g ok =
    let r = read_slice-ReadsPart strip file off n g.0 (Grows-le n ns (length file) g.1) ok in
    let (end, p, lo, hi) =
      poll_exact strip file r.end ns (Grows-lower n r.end ns (length file) r.upper g.1)
        r.rest_valid in
    (
      end,
      rw (r.reads, poll)
          (ap (then_text (take (r.end - off) (drop off file))) p
            ∙ ap (λ b. some (b, end))
                (ap (λ b. take (r.end - off) (drop off file) ++ take (end - r.end) b)
                    (sym (drop-drop r.end off (r.end - off) file (omega (arith, r.lower))))
                  ∙ take_split (r.end - off) (end - r.end) (end - off) (drop off file)
                      (omega (arith, r.lower)))),
      omega (arith, r.lower),
      hi,
    )
