-- ===== src/Remote/Progress/EndToEnd.antt =====
-- Worker and client together: a client that lost its connection and resumes at its cursor.
use babysit.Prelude.{
  ℕ, ◌+◌, ◌-◌, ◌≤◌, ◌≡◌, refl, sym, ap, ◌∙◌, true, List, [], ◌∷◌, ◌++◌, none, some, Bytes, length,
  take, drop, arith, append_assoc, length-append, length-drop, drop-append, take-length_append,
  subst, inl, Memᴰ, if◌then◌else◌, ltb,
}
use native.Mathlib.Decide.{dec_lt}
use babysit.Hub.{
  Hub, Io, OutputChunk, Subscription, u64_max, ok, broadcast_all, subscribe_resumable,
}
use babysit.Hub.Offsets.{Inv, LogInv, bytes_of, Writes}
use babysit.Hub.Streams.{Contiguous, payload}
use babysit.Hub.Subscribe.{resume_delivers}
use babysit.Replay.{Disk, write_log_range_frames}
use babysit.Replay.Range.{write_log_range_frames-Delivers}
use babysit.Remote.Progress.{Screen, shown, receive_all}
use babysit.Remote.Progress.Follow.{receive_all-Contiguous}

Contiguous-append :
    (a b c : ℕ) (xs ys : List OutputChunk)
    → Contiguous a xs b
    → Contiguous b ys c
    → Contiguous a (xs ++ ys) c
Contiguous-append a b c [] ys h k = subst (λ n. Contiguous n ys c) (sym h) k
Contiguous-append a b c (x ∷ xs) ys h k =
    (h.0, Contiguous-append (a + length x.bytes) b c xs ys h.1 k)

payload-append : (xs ys : List OutputChunk) → payload (xs ++ ys) ≡ payload xs ++ payload ys
payload-append [] ys = refl
payload-append (x ∷ xs) ys =
    ap (◌++◌ x.bytes) (payload-append xs ys) ∙ sym (append_assoc x.bytes (payload xs) (payload ys))

range_of_grown :
    (file later : Bytes) (n off : ℕ)
    → length file ≡ n
    → off ≤ n
    → take (n - off) (drop off (file ++ later)) ≡ drop off file
range_of_grown file later n off e le =
    let len : n - off ≡ length (drop off file) = omega (arith, length-drop off file) in
    rw (drop-append off file later (omega arith), len) (take-length_append (drop off file) later)

-- The frames that a resumed connection carries: the missed range, if there is one, and then what
-- the subscription's queue holds.
abbrev pub sent : Disk → ℕ → ℕ → List OutputChunk → List OutputChunk
sent d off end queue = (if ltb off end then (write_log_range_frames d off end).0 else []) ++ queue

missed_range :
    (d : Disk) (off end : ℕ)
    → ((offset : ℕ) → d.writes offset ≡ true)
    → d.opens ≡ true
    → off ≤ end
    → end ≤ length d.file
    → (cs : List OutputChunk) × (cs
        ≡ (if ltb off end then (write_log_range_frames d off end).0 else []))
      × Contiguous off cs end
      × (payload cs ≡ take (end - off) (drop off d.file))
missed_range d off end w o le hi = elim (dec_lt off end) [
  | yes more ↦
      let (finished, covers) = write_log_range_frames-Delivers d w off end o le hi in
      ((write_log_range_frames d off end).0, ground arith, covers.gapless, covers.exact)
  | no up_to_date ↦
      let e : 0 ≡ end - off = omega arith in
      ([], ground arith, omega arith, ap (λ k. take k (drop off d.file)) e)
]

-- Let the log be open and not have failed, with offsets, backlog and log in agreement, and let
-- chunks be broadcast whose writes all succeed, within 64-bit offsets. A client whose cursor is an
-- offset that the output has reached can resume there: the worker accepts, and whatever the reads
-- of the missed range bring, and whatever the file has gained when it is read, the client finds no
-- gap in the frames of that range and of its queue, and prints behind what it had printed exactly
-- the log from that offset on.
pub resume_complete :
    (h : Hub) (off channel : ℕ) (cs : List (Io × Bytes)) (d : Disk) (later : Bytes) (s : Screen)
    → h.log ≡ true
    → h.log_error ≡ none
    → off ≤ h.next_offset
    → Writes cs
    → h.next_offset + length (bytes_of cs) ≤ u64_max
    → Inv h
    → LogInv h
    → d.file ≡ h.log_file ++ later
    → d.opens ≡ true
    → ((offset : ℕ) → d.writes offset ≡ true)
    → s.cursor ≡ some off
    → (h' : Hub) × (sub : Subscription) × (queue : List OutputChunk) × (s' : Screen)
      × (subscribe_resumable (some off) channel h ≡ ok h' sub)
      × Memᴰ
          (record { channel = channel; alive = true; queue = queue })
          (broadcast_all cs h').resume_clients
      × (receive_all (sent d off sub.snapshot_end queue) s ≡ shown s')
      × (s'.printed ≡ s.printed ++ drop off (h.log_file ++ bytes_of cs))
resume_complete h off channel cs d later s o e le w fits v l file opens written at =
    let (h', sub, accepted, _, end_is, log_is, next_is, r) =
      resume_delivers h off channel cs o e le w fits v l in
    let lo : off ≤ sub.snapshot_end = omega arith in
    let hi : sub.snapshot_end ≤ length d.file =
      rw file (omega (arith, length-append h.log_file later, l.whole_log)) in
    let (frames, frames_are, gapless, missed) =
      missed_range d off sub.snapshot_end written opens lo hi in
    let joined =
      Contiguous-append off sub.snapshot_end (broadcast_all cs h').next_offset frames r.queue
        gapless r.gapless in
    let (s', shows, printed, _) =
      receive_all-Contiguous off (broadcast_all cs h').next_offset (frames ++ r.queue) s joined
        (inl at) (rw next_is fits) in
    let whole : length h.log_file ≡ sub.snapshot_end = l.whole_log ∙ sym end_is in
    let same : take (sub.snapshot_end - off) (drop off d.file)
        ≡ take (sub.snapshot_end - off) (drop off (broadcast_all cs h').log_file) =
      rw (file, log_is)
        (range_of_grown h.log_file later sub.snapshot_end off whole lo
          ∙ sym (range_of_grown h.log_file (bytes_of cs) sub.snapshot_end off whole lo)) in
    (
      h',
      sub,
      r.queue,
      s',
      accepted,
      r.attached,
      subst (λ fs. receive_all (fs ++ r.queue) s ≡ shown s') frames_are shows,
      printed
          ∙ ap (λ b. s.printed ++ b)
              (payload-append frames r.queue
                ∙ ap (λ b. b ++ payload r.queue) (missed ∙ same)
                ∙ r.exact
                ∙ ap (drop off) log_is),
    )
