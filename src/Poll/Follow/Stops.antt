-- ===== src/Poll/Follow/Stops.antt =====
-- src/sub.rs: `follow_log` ends once the session has finished and the log no longer changes.
use babysit.Prelude.{
  ℕ, zero, suc, ◌+◌, ◌-◌, ◌*◌, ◌≤◌, ◌<◌, ◌≡◌, ◌≢◌, refl, sym, ◌∙◌, Bool, true, false, List, [], ◌∷◌,
  ◌++◌, Option, Bytes, length, take, drop, ltb, leb, arith, inl, inr, Bool-cases, if◌then◌else◌,
  ltb→lt,
}
use babysit.Log.Slice.{Slice, slice, failed, contents, read_slice, safe_prefix_len}
use babysit.Log.Utf8.{from_utf8_lossy}
use babysit.Poll.Follow.{
  Look, End, running, stopped, read_failed, write, after_read, on_slice, follow_log,
}

-- The same round over and over.
abbrev pub replicate : ℕ → Look → List Look
replicate zero l = []
replicate (suc n) l = l ∷ replicate n l

-- Where a read of a log that is there ends.
record Ends (size off : ℕ) (s : Slice) : Type 0 where
  text : Bytes
  end : ℕ
  reads : s ≡ slice text end
  progress : size - end ≤ size - off
  strict : off < end → size - end < size - off

read_slice-Ends :
    (strip : Bytes → Bytes) (file : Bytes) (off : ℕ) (raw : Bool)
    → Ends (length file) off (read_slice strip (contents file) off raw)
unfolding read_slice
read_slice-Ends strip file off raw = elim (Bool-cases (leb (length file) off)) [
  | inl past ↦ rw past (record {
    text = [];
    end = length file;
    reads = refl;
    progress = ground arith;
    strict = λ h. ground arith;
  })
  | inr more ↦ rw more (record {
    text = from_utf8_lossy (
        if raw
        then take (safe_prefix_len (drop off file)) (drop off file)
        else strip (take (safe_prefix_len (drop off file)) (drop off file)));
    end = off + safe_prefix_len (drop off file);
    reads = refl;
    progress = omega arith;
    strict = λ h. ground arith;
  })
]

after_read-stops :
    (advanced : Bool) (idle : ℕ) (k : ℕ → Bytes × End)
    → idle ≤ 1
    → (advanced ≡ true → (k 0).1 ≡ stopped)
    → (advanced ≡ false → idle ≡ 0 → (k 1).1 ≡ stopped)
    → (after_read true advanced idle k).1 ≡ stopped
unfolding after_read
after_read-stops true idle k le busy quiet = busy refl
after_read-stops false zero k le busy quiet = quiet refl refl
after_read-stops false (suc zero) k le busy quiet = refl
after_read-stops false (suc (suc i)) k le busy quiet = absurd (omega arith)

after_read-ends :
    (finished advanced : Bool) (idle : ℕ) (k : ℕ → Bytes × End)
    → idle ≤ 1
    → ((i : ℕ) → i ≤ 1 → (k i).1 ≢ running)
    → (after_read finished advanced idle k).1 ≢ running
unfolding after_read
after_read-ends false advanced idle k le h = h idle le
after_read-ends true true idle k le h = h 0 (omega arith)
after_read-ends true false zero k le h = h 1 (omega arith)
after_read-ends true false (suc zero) k le h = λ e. cc
after_read-ends true false (suc (suc i)) k le h = absurd (omega arith)

quiet_rounds :
    (strip : Bytes → Bytes) (raw : Bool) (re : Option (Bytes → Bool)) (file : Bytes)
    (rounds off idle : ℕ)
    → idle ≤ 1
    → 2 * (length file - off) + 2 ≤ rounds + idle
    → (follow_log strip raw re off idle
        (replicate rounds (record { file = contents file; finished = true }))).1
      ≡ stopped
unfolding follow_log
quiet_rounds strip raw re file zero off idle le enough = absurd (omega arith)
quiet_rounds strip raw re file (suc rounds) off idle le enough =
    let r = read_slice-Ends strip file off raw in
    let later = λ (i : ℕ).
      follow_log strip raw re r.end i
        (replicate rounds (record { file = contents file; finished = true })) in
    rw (r.reads, on_slice)
      (after_read-stops (ltb off r.end) idle later le
        (λ a.
          quiet_rounds strip raw re file rounds r.end 0 (omega arith)
            (omega (arith, r.strict (ltb→lt off r.end a))))
        (λ a z.
          quiet_rounds strip raw re file rounds r.end 1 (omega arith) (omega (arith, r.progress))))

-- Whatever the rounds before have found: once the session has finished and the log no longer changes,
-- `follow_log` ends, within two rounds for each byte of the log and two more.
pub follow_log-ends :
    (strip : Bytes → Bytes) (raw : Bool) (re : Option (Bytes → Bool)) (off idle : ℕ)
    (before : List Look) (file : Bytes) (rounds : ℕ)
    → idle ≤ 1
    → 2 * length file + 2 ≤ rounds
    → (follow_log strip raw re off idle
        (before ++ replicate rounds (record { file = contents file; finished = true }))).1
      ≢ running
unfolding follow_log
follow_log-ends strip raw re off idle [] file rounds le enough e =
    let s = quiet_rounds strip raw re file rounds off idle le (omega arith) in
    absurd (let same : stopped ≡ running = sym s ∙ e in cc)
follow_log-ends strip raw re off idle (l ∷ before) file rounds le enough e =
    of_slice (read_slice strip l.file off raw) e
      (λ off' i le'. follow_log-ends strip raw re off' i before file rounds le' enough)
  where
    of_slice :
        (s : Slice)
        → (on_slice re off s (λ text new_off. write text (
            after_read l.finished (ltb off new_off) idle (λ i.
              follow_log strip raw re new_off i (
                before ++ replicate rounds (record { file = contents file; finished = true })))))).1
          ≡ running
        → ((off' i : ℕ)
            → i ≤ 1
            → (follow_log strip raw re off' i
                (before ++ replicate rounds (record { file = contents file; finished = true }))).1
              ≢ running)
        → ⊥
    of_slice failed k ih = absurd (let same : read_failed ≡ running = k in cc)
    of_slice (slice text new_off) k ih =
        after_read-ends l.finished (ltb off new_off) idle
          (λ i.
            follow_log strip raw re new_off i
              (before ++ replicate rounds (record { file = contents file; finished = true })))
          le (λ i le'. ih new_off i le') k
