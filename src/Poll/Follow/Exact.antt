-- ===== src/Poll/Follow/Exact.antt =====
-- src/sub.rs: what `follow_log` writes, and when it ends.
use babysit.Prelude.{
  ℕ, suc, ◌-◌, ◌≤◌, ◌≡◌, ◌≢◌, sym, ap, ◌∙◌, Bool, true, false, List, [], ◌∷◌, ◌++◌, none, Bytes,
  length, take, drop, ltb, leb, arith, drop-drop, take_split, if_ind, map,
}
use babysit.Log.Utf8.{valid, from_utf8}
use babysit.Log.Grep.{grep_filter}
use babysit.Log.Slice.{contents}
use babysit.Log.Slice.Poll.{read_slice-ReadsPart}
use babysit.Poll.Follow.{
  Look, End, running, stopped, read_failed, write, after_read, on_slice, follow_log,
}

-- A round of a log that grows towards `file`: its length, and whether the session has finished.
abbrev pub look_at : Bytes → ℕ × Bool → Look
look_at file (n, finished) = record { file = contents (take n file); finished = finished }

-- The log does not shrink.
abbrev pub Grows : ℕ → List (ℕ × Bool) → ℕ → Type 0
Grows lo [] hi = lo ≤ hi
Grows lo ((n, finished) ∷ ns) hi = (lo ≤ n) × Grows n ns hi

Grows-le : (lo : ℕ) (ns : List (ℕ × Bool)) (hi : ℕ) → Grows lo ns hi → lo ≤ hi
Grows-le lo [] hi g = g
Grows-le lo ((n, finished) ∷ ns) hi g = omega (arith, Grows-le n ns hi g.1)

Grows-lower :
    (lo lo' : ℕ) (ns : List (ℕ × Bool)) (hi : ℕ) → lo' ≤ lo → Grows lo ns hi → Grows lo' ns hi
Grows-lower lo lo' [] hi le g = omega arith
Grows-lower lo lo' ((n, finished) ∷ ns) hi le g = (omega arith, g.1)

-- What has been written from `off` on is the log from there to some offset, and no read has failed.
pub record Follows (file : Bytes) (off : ℕ) (r : Bytes × End) : Type 0 where
  pub end : ℕ
  pub text : r.0 ≡ take (end - off) (drop off file)
  pub lower : off ≤ end
  pub upper : end ≤ length file
  pub readable : r.1 ≢ read_failed

nothing_more :
    (file : Bytes) (off : ℕ) (e : End)
    → off ≤ length file
    → e ≢ read_failed
    → Follows file off ([], e)
nothing_more file off e le ne =
    let z : 0 ≡ off - off = omega arith in
    record {
      end = off;
      text = ap (λ j. take j (drop off file)) z;
      lower = omega arith;
      upper = le;
      readable = ne;
    }

Follows-write :
    (file : Bytes) (off mid : ℕ) (r : Bytes × End)
    → off ≤ mid
    → Follows file mid r
    → Follows file off (write (take (mid - off) (drop off file)) r)
Follows-write file off mid r le f = record {
  end = f.end;
  text =
      ap (λ b. take (mid - off) (drop off file) ++ b)
        (f.text
          ∙ ap (λ b. take (f.end - mid) b) (sym (drop-drop mid off (mid - off) file (omega arith))))
      ∙ take_split (mid - off) (f.end - mid) (f.end - off) (drop off file) (omega (arith, f.lower));
  lower = omega (arith, f.lower);
  upper = f.upper;
  readable = f.readable;
}

after_read-Follows :
    (file : Bytes) (off : ℕ) (finished advanced : Bool) (idle : ℕ) (k : ℕ → Bytes × End)
    → off ≤ length file
    → ((i : ℕ) → Follows file off (k i))
    → Follows file off (after_read finished advanced idle k)
unfolding after_read
after_read-Follows file off false advanced idle k le h = h idle
after_read-Follows file off true true idle k le h = h 0
after_read-Follows file off true false idle k le h =
    if_ind (Follows file off) (leb 2 (suc idle)) ([], stopped) (k (suc idle))
      (nothing_more file off stopped le (λ e. cc)) (h (suc idle))

-- Let the text of the log from `off` on be valid UTF-8, and let the log not shrink. Whatever the
-- rounds find, following it raw writes the log from `off` up to some offset, without a gap or a
-- repetition, and no read fails.
pub follow_log-Follows :
    (strip : Bytes → Bytes) (file : Bytes) (off idle : ℕ) (ns : List (ℕ × Bool))
    → Grows off ns (length file)
    → from_utf8 (drop off file) ≡ valid
    → Follows file off (follow_log strip true none off idle (map (look_at file) ns))
unfolding follow_log grep_filter
follow_log-Follows strip file off idle [] g ok = nothing_more file off running g (λ e. cc)
follow_log-Follows strip file off idle ((n, finished) ∷ ns) g ok =
    let r = read_slice-ReadsPart strip file off n g.0 (Grows-le n ns (length file) g.1) ok in
    let ih = λ (idle' : ℕ).
      follow_log-Follows strip file r.end idle' ns
        (Grows-lower n r.end ns (length file) r.upper g.1) r.rest_valid in
    rw (r.reads, on_slice)
      (Follows-write file off r.end
        (after_read finished (ltb off r.end) idle
          (λ idle'. follow_log strip true none r.end idle' (map (look_at file) ns)))
        r.lower
        (after_read-Follows file r.end finished (ltb off r.end) idle
          (λ idle'. follow_log strip true none r.end idle' (map (look_at file) ns))
          (omega (arith, r.upper, Grows-le n ns (length file) g.1)) ih))
