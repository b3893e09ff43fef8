-- ===== src/Poll/Follow/Grepped.antt =====
-- src/sub.rs: `follow_log` filters each read on its own, and a line may come in two reads.
use babysit.Prelude.{
  ℕ, ◌+◌, ◌-◌, ◌<◌, ◌≡◌, ◌≢◌, refl, sym, ap, ◌∙◌, Bool, true, false, List, [], ◌∷◌, ◌++◌, some,
  Bytes, length, length-append, take, drop, arith, All, append_assoc, take_all, drop-length_append,
  append-nil, split, ends_in, if◌then◌else◌,
}
use babysit.Log.Utf8.{valid, from_utf8, from_utf8_lossy}
use babysit.Log.Utf8.Valid.{from_utf8_lossy_valid}
use babysit.Log.Slice.{esc, slice, contents, read_slice, safe_prefix_len, utf8_cut}
use babysit.Log.Slice.Splits.{NoEsc, safe_prefix_len-NoEsc}
use babysit.Log.Slice.Poll.{slice_part}
use babysit.Log.Grep.{lines, lines_in, keep_lines, grep_filter}
use babysit.Poll.Follow.{Look, after_read, on_slice, follow_log}

-- Part of a line: no escape and no line end.
abbrev pub IsPart : Bytes → Type 0
IsPart = All (λ b. (b ≢ esc) × (b ≢ b'\n') × (b ≢ b'\r'))

IsPart-NoEsc : (a : Bytes) → IsPart a → NoEsc a
IsPart-NoEsc [] h = tt
IsPart-NoEsc (x ∷ a) h = ((h.0).0, IsPart-NoEsc a h.1)

IsPart-append : (a b : Bytes) → IsPart a → IsPart b → IsPart (a ++ b)
IsPart-append [] b ha hb = hb
IsPart-append (x ∷ a) b ha hb = (ha.0, IsPart-append a b ha.1 hb)

split_part : (a : Bytes) → IsPart a → split b'\n' a ≡ a ∷ []
unfolding split
split_part [] h = refl
split_part (x ∷ a) h = rw (split_part a h.1) (ground (arith, (h.0).1))

split_line : (a : Bytes) → IsPart a → split b'\n' (a ++ b'\n' ∷ []) ≡ a ∷ [] ∷ []
unfolding split
split_line [] h = refl
split_line (x ∷ a) h = rw (split_line a h.1) (ground (arith, (h.0).1))

ends_in-part : (a : Bytes) → IsPart a → ends_in b'\r' a ≡ false
ends_in-part [] h = refl
ends_in-part (x ∷ []) h = ground (arith, (h.0).2)
ends_in-part (x ∷ y ∷ a) h = ends_in-part (y ∷ a) h.1

lines_part : (x : ℕ) (a : Bytes) → IsPart (x ∷ a) → lines (x ∷ a) ≡ (x ∷ a) ∷ []
unfolding lines
lines_part x a h = ap lines_in (split_part (x ∷ a) h)

lines_line : (a : Bytes) → IsPart a → lines (a ++ b'\n' ∷ []) ≡ a ∷ []
unfolding lines
lines_line a h =
    ap lines_in (split_line a h)
    ∙ ap (λ e. (if e then take (length a - 1) a else a) ∷ []) (ends_in-part a h)

lossy_same : (text : Bytes) → from_utf8 text ≡ valid → from_utf8_lossy text ≡ text
unfolding from_utf8_lossy
lossy_same text ok =
    ap from_utf8_lossy (sym (append-nil text)) ∙ from_utf8_lossy_valid text [] ok ∙ append-nil text

NoEsc-line : (a : Bytes) → NoEsc a → NoEsc (a ++ b'\n' ∷ [])
NoEsc-line [] h = (omega arith, tt)
NoEsc-line (x ∷ a) h = (h.0, NoEsc-line a h.1)

-- A read of text without an escape, all valid.
plain_read :
    (strip : Bytes → Bytes) (file : Bytes) (off end : ℕ) (text : Bytes)
    → off + length text ≡ end
    → drop off file ≡ text
    → off < length file
    → NoEsc text
    → from_utf8 text ≡ valid
    → read_slice strip (contents file) off true ≡ slice text end
plain_read strip file off end text e at more plain ok =
    let safe : safe_prefix_len text ≡ length text =
      safe_prefix_len-NoEsc text plain ∙ ap (λ c. utf8_cut c (length text)) ok in
    slice_part strip file off more
    ∙ ap (λ t. slice (from_utf8_lossy (take (safe_prefix_len t) t)) (off + safe_prefix_len t)) at
    ∙ ap (λ n. slice (from_utf8_lossy (take n text)) (off + n)) safe
    ∙ ap (λ t. slice (from_utf8_lossy t) (off + length text))
        (take_all (length text) text (omega arith))
    ∙ (λ i. slice (lossy_same text ok i) (e i))

no_match :
    (is_match : Bytes → Bool) (text line : Bytes)
    → lines text ≡ line ∷ []
    → is_match line ≡ false
    → grep_filter text (some is_match) ≡ []
unfolding grep_filter
no_match is_match text line one none_here = rw (one, keep_lines) (rw none_here refl)

matched :
    (is_match : Bytes → Bool) (text line : Bytes)
    → lines text ≡ line ∷ []
    → is_match line ≡ true
    → grep_filter text (some is_match) ≡ line ++ b'\n' ∷ []
unfolding grep_filter
matched is_match text line one hit = rw (one, keep_lines) (rw hit (append-nil (line ++ b'\n' ∷ [])))

-- A round whose text the filter drops.
silent_round :
    (strip : Bytes → Bytes) (is_match : Bytes → Bool) (file : Bytes) (off new_off idle : ℕ)
    (text : Bytes) (ls : List Look)
    → read_slice strip (contents file) off true ≡ slice text new_off
    → grep_filter text (some is_match) ≡ []
    → (follow_log strip true
        (some is_match)
        off
        idle
        (record { file = contents file; finished = false } ∷ ls)).0
      ≡ (follow_log strip true (some is_match) new_off idle ls).0
unfolding follow_log after_read
silent_round strip is_match file off new_off idle text ls e g =
    rw (e, on_slice) (ap (λ t. t ++ (follow_log strip true (some is_match) new_off idle ls).0) g)

-- Let a line be written in two parts, each valid UTF-8 and without escapes, and read after each. If
-- the pattern matches the line and neither of the parts, following the log with the pattern writes
-- nothing, although the line is what the filter keeps of the log.
pub grep_misses_split_line :
    (strip : Bytes → Bytes) (is_match : Bytes → Bool) (x y : ℕ) (a b : Bytes)
    → IsPart (x ∷ a)
    → IsPart (y ∷ b)
    → from_utf8 (x ∷ a) ≡ valid
    → from_utf8 ((y ∷ b) ++ b'\n' ∷ []) ≡ valid
    → is_match (x ∷ a) ≡ false
    → is_match (y ∷ b) ≡ false
    → is_match ((x ∷ a) ++ (y ∷ b)) ≡ true
    → let log = (x ∷ a) ++ ((y ∷ b) ++ b'\n' ∷ []) in
      ((follow_log strip true (some is_match) 0 0 (
          record { file = contents (x ∷ a); finished = false }
          ∷ record { file = contents log; finished = false }
          ∷ [])).0
        ≡ [])
      × (grep_filter log (some is_match) ≡ log)
unfolding follow_log
grep_misses_split_line strip is_match x y a b pa pb va vb na nb hit =
    let rest = (y ∷ b) ++ b'\n' ∷ [] in
    let line = (x ∷ a) ++ (y ∷ b) in
    let first =
      plain_read strip (x ∷ a) 0 (length (x ∷ a)) (x ∷ a) (omega arith) refl (omega arith)
        (IsPart-NoEsc (x ∷ a) pa) va in
    let second =
      plain_read strip ((x ∷ a) ++ rest) (length (x ∷ a)) (length (x ∷ a) + length rest) rest refl
        (drop-length_append (x ∷ a) rest) (omega (arith, length-append a rest))
        (NoEsc-line (y ∷ b) (IsPart-NoEsc (y ∷ b) pb)) vb in
    let whole : (x ∷ a) ++ rest ≡ line ++ b'\n' ∷ [] =
      sym (append_assoc (x ∷ a) (y ∷ b) (b'\n' ∷ [])) in
    (
      silent_round strip is_match (x ∷ a) 0 (length (x ∷ a)) 0 (x ∷ a)
            (record { file = contents ((x ∷ a) ++ rest); finished = false } ∷ []) first
            (no_match is_match (x ∷ a) (x ∷ a) (lines_part x a pa) na)
          ∙ silent_round strip is_match ((x ∷ a) ++ rest) (length (x ∷ a))
              (length (x ∷ a) + length rest) 0 rest [] second
              (no_match is_match rest (y ∷ b) (lines_line (y ∷ b) pb) nb),
      matched is_match ((x ∷ a) ++ rest) line
            (ap lines whole ∙ lines_line line (IsPart-append (x ∷ a) (y ∷ b) pa pb)) hit
          ∙ sym whole,
    )
