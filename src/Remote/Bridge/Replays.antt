-- ===== src/Remote/Bridge/Replays.antt =====
-- src/remote.rs: what a client gets from a session that has finished.
use babysit.Prelude.{
  ℕ, ◌+◌, ◌^◌, All, true, ◌≤◌, ◌<◌, ◌≡◌, refl, sym, ap, subst, ◌∙◌, Bool, false, List, [], ◌∷◌,
  ◌++◌, some, Bytes, length, drop, drop_all, length-drop, ltb, arith, map, lt→ltb, append-nil, inl,
  if◌then◌else◌,
}
use native.Mathlib.Decide.{dec_lt}
use babysit.Frame.{
  closed, s_exit, s_output_offset, offset_payload, exit_payload, parse_exit, reported_code, code_or,
}
use babysit.Frame.RoundTrip.{Short, read_frames, read_frames-write_frames}
use babysit.Frame.Payloads.{parse_exit-exit_payload}
use babysit.Session.{State, starting, running, exited, killed, Status, exit_code_from_status}
use babysit.Hub.{OutputChunk, u64_max}
use babysit.Local.{finished}
use babysit.Remote.Progress.{Screen, shown, receive_all}
use babysit.Hub.Streams.{Contiguous, payload}
use babysit.Remote.Progress.Follow.{receive_all-Contiguous}
use babysit.Remote.Bridge.{
  attach, Session, Bridged, writes, ready_frame, exit_of, is_killed, bridge, replay, with_tty,
  with_connection,
}

-- The code that the bridge reports is the one that a local client reads from the status.
exit_of-code : (s : Status) → reported_code (some (exit_of s)) ≡ exit_code_from_status (some s)
unfolding reported_code exit_code_from_status
exit_of-code s = of_state s.state
  where
    of_state :
        (st : State)
        → code_or s.exit_code (if is_killed st then 130 else 0)
          ≡ code_or s.exit_code (elim st [ killed ↦ 130 | _ ↦ 0 ])
    of_state starting = refl
    of_state running = refl
    of_state exited = refl
    of_state killed = refl

abbrev pub chunk_frame : OutputChunk → ℕ × Bytes
chunk_frame c = (s_output_offset, offset_payload c.offset c.bytes)

-- The chunk of the replay, if there is one.
chunks : ℕ → Bytes → List OutputChunk
chunks off log =
    if ltb off (length log) then record { offset = off; bytes = drop off log } ∷ [] else []

chunks-Contiguous :
    (off : ℕ) (log : Bytes)
    → off ≤ length log
    → Contiguous off (chunks off log) (length log) × (payload (chunks off log) ≡ drop off log)
unfolding chunks
chunks-Contiguous off log le = elim (dec_lt off (length log)) [
  | yes more ↦
      rw (lt→ltb off (length log) more)
        ((refl, omega (arith, length-drop off log)), append-nil (drop off log))
  | no all ↦
      (let f : ltb off (length log) ≡ false = ground arith in
        rw f (omega arith, sym (drop_all off log (omega arith))))
]

replay-chunks :
    (off protocol : ℕ) (tty : Bool) (message log : Bytes) (status : Status)
    → off ≤ length log
    → 1 ≤ protocol
    → replay (some off) protocol tty message log (some status)
      ≡ writes (
          ready_frame tty
          ∷ (map chunk_frame (chunks off log)
              ++ (s_exit, exit_payload (some (exit_of status))) ∷ []))
unfolding chunks
replay-chunks off protocol tty message log status le new = ground arith

-- The frames of a replay whose rest of the log fits, with its offset, into a frame.
replay-Short :
    (off : ℕ) (tty : Bool) (log exit : Bytes)
    → 8 + length (drop off log) < 2 ^ 32
    → length exit < 2 ^ 32
    → All Short (ready_frame tty ∷ (map chunk_frame (chunks off log) ++ (s_exit, exit) ∷ []))
      × (length (ready_frame tty ∷ (map chunk_frame (chunks off log) ++ (s_exit, exit) ∷ [])) < 4)
unfolding chunks offset_payload
replay-Short off tty log exit fits short = of_test (ltb off (length log))
  where
    of_test :
        (b : Bool)
        → let chunk : OutputChunk = record { offset = off; bytes = drop off log } in
          let cs : List OutputChunk = if b then chunk ∷ [] else [] in
          All Short (ready_frame tty ∷ (map chunk_frame cs ++ (s_exit, exit) ∷ []))
          × (length (ready_frame tty ∷ (map chunk_frame cs ++ (s_exit, exit) ∷ [])) < 4)
    of_test true = ((omega arith, (omega (arith, fits), (short, tt))), omega arith)
    of_test false = ((omega arith, (short, tt)), omega arith)

-- A finished session, with a log whose length is a 64-bit number. A client of protocol 1 that asks for
-- an offset that the output has reached, and behind which the log fits with its offset into a frame,
-- reads from what the bridge writes a ready frame, frames with offsets, and an exit, and then the end.
-- With the cursor there it finds no gap, prints behind what it had printed exactly the log from that
-- offset on, and its exit code is the one that a local client reads from the recorded status.
pub bridge-Replays :
    (hello : Bytes) (w : Session) (off protocol : ℕ) (tty : Bool) (status : Status) (s : Screen)
    → w.connection ≡ finished
    → w.tty ≡ some tty
    → w.status ≡ some status
    → off ≤ length w.log
    → length w.log ≤ u64_max
    → 8 + length (drop off w.log) < 2 ^ 32
    → 1 ≤ protocol
    → exit_code_from_status (some status) < 2 ^ 32
    → s.cursor ≡ some off
    → (cs : List OutputChunk) × (exit : Bytes) × (s' : Screen) × (read_frames 4
          (bridge (attach (some off) protocol) hello w).output
          closed
        ≡ some (ready_frame tty ∷ (map chunk_frame cs ++ (s_exit, exit) ∷ [])))
      × ((bridge (attach (some off) protocol) hello w).failed ≡ false)
      × (receive_all cs s ≡ shown s')
      × (s'.printed ≡ s.printed ++ drop off w.log)
      × (parse_exit exit ≡ exit_code_from_status (some status))
unfolding bridge
bridge-Replays hello w off protocol tty status s c t st reached small fits new code at =
    let (gapless, exact) = chunks-Contiguous off w.log reached in
    let (s', shows, printed, cursor) =
      receive_all-Contiguous off (length w.log) (chunks off w.log) s gapless (inl at) small in
    let exit = exit_payload (some (exit_of status)) in
    let fs = ready_frame tty ∷ (map chunk_frame (chunks off w.log) ++ (s_exit, exit) ∷ []) in
    let written : bridge (attach (some off) protocol) hello w ≡ writes fs =
      ap (λ x. with_connection (some off) protocol hello w x) c
      ∙ ap (λ x. with_tty (some off) protocol hello w false x) t
      ∙ ap (λ x. replay (some off) protocol tty w.message w.log x) st
      ∙ replay-chunks off protocol tty w.message w.log status reached new in
    let (short, few) = replay-Short off tty w.log exit fits (unfold exit_payload in omega arith) in
    (
      chunks off w.log,
      exit,
      s',
      ap (λ (b : Bridged). read_frames 4 b.output closed) written
          ∙ read_frames-write_frames fs 4 short few,
      ap (λ (b : Bridged). b.failed) written,
      shows,
      printed ∙ ap (λ b. s.printed ++ b) exact,
      parse_exit-exit_payload (some (exit_of status))
            (subst (λ (n : ℕ). n < 2 ^ 32) (sym (exit_of-code status)) code)
          ∙ exit_of-code status,
    )
