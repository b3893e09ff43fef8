-- ===== src/Control/Kill.antt =====
-- src/control.rs: what a client may conclude from the response to its request.
use babysit.Prelude.{
  ℕ, ◌+◌, ◌≤◌, ◌≡◌, ◌≢◌, refl, Bool, true, false, List, [], ◌∷◌, ◌++◌, Option, Bytes, arith, length,
  ◌↔◌, if◌then◌else◌, length-append, inl, inr, Bool-cases,
}
use babysit.Session.{State}
use babysit.Worker.Serve.{confirmed, already_exited, kill_failed}
use babysit.Control.{
  kill, send, Waited, replied, dropped, late, RaceLook, World, Effects, ok, killed_data, dispatch,
  kill_response, kill_race_error, newline_bytes, waiting, sent_data,
}

kill_response_iff :
    (w : World) (a : Waited) (escalated : Bool) (state : State) (code : Option ℕ)
    → (kill_response w a ≡ ok (killed_data escalated state code))
      ↔ (a ≡ replied (confirmed escalated state code))
unfolding kill_response
kill_response_iff w (replied (confirmed x y z)) escalated state code =
    (λ h. ground arith, λ h. ground arith)
kill_response_iff w (replied already_exited) escalated state code =
    (λ h. ground arith, λ h. ground arith)
kill_response_iff w (replied (kill_failed t)) escalated state code =
    (λ h. ground arith, λ h. ground arith)
kill_response_iff w dropped escalated state code = (λ h. ground arith, λ h. ground arith)
kill_response_iff w late escalated state code = (λ h. ground arith, λ h. ground arith)

-- A kill is reported as done exactly if the main loop is there and confirms it, with the outcome
-- that it reports; a dropped or late answer never is.
pub kill_reported_iff :
    (w : World) (e : Effects) (escalated : Bool) (state : State) (code : Option ℕ)
    → ((dispatch w kill e).0 ≡ ok (killed_data escalated state code))
      ↔ ((w.loop_alive ≡ true) × (w.answer ≡ replied (confirmed escalated state code)))
unfolding dispatch
kill_reported_iff w e escalated state code = elim (Bool-cases w.loop_alive) [
  | inl alive ↦ (
    λ h. (alive, (kill_response_iff w w.answer escalated state code).0 (ground arith)),
    λ h. ground (arith, (kill_response_iff w w.answer escalated state code).1 h.1),
  )
  | inr gone ↦ (λ h. ground arith, λ h. ground arith)
]

-- The error of a kill that lost the race is found: with a round at or behind the deadline there is
-- one, whatever the rounds find.
pub kill_race_error_ends :
    (deadline : ℕ) (before after : List RaceLook) (l : RaceLook)
    → deadline ≤ l.now
    → kill_race_error deadline (before ++ l ∷ after) ≢ waiting
unfolding kill_race_error
kill_race_error_ends deadline [] after l past e = ground arith
kill_race_error_ends deadline (b ∷ before) after l past e =
    ground (arith, kill_race_error_ends deadline before after l past)

-- `send` reports the number of bytes that it has put into the pane's input, and the offset in the
-- log behind which the program's reaction stands.
pub send-counts :
    (w : World) (e : Effects) (text : Bytes) (newline : Bool)
    → let (response, after) = dispatch w (send text newline) e in
      (sent : ℕ) × (response ≡ ok (sent_data sent w.output_bytes))
      × (after.input ≡ e.input ++ (text ++ newline_bytes newline))
      × (length after.input ≡ length e.input + sent)
unfolding dispatch
send-counts w e text newline =
    (length text + (if newline then 1 else 0), refl, refl, counted newline)
  where
    counted :
        (n : Bool)
        → length (e.input ++ (text ++ newline_bytes n))
          ≡ length e.input + (length text + (if n then 1 else 0))
    counted true =
        omega (arith, length-append e.input (text ++ b'\n' ∷ []), length-append text (b'\n' ∷ []))
    counted false = omega (arith, length-append e.input (text ++ []), length-append text [])
