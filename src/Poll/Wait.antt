-- ===== src/Poll/Wait.antt =====
-- src/sub.rs: what `wait` returns, and how it agrees with the other readers of a session's end.
use babysit.Prelude.{
  ℕ, ◌≡◌, refl, Bool, true, false, List, [], ◌∷◌, ◌++◌, Option, none, some, arith, All, ◌↔◌,
}
use babysit.Session.{Status, is_terminal, exit_code_from_status}
use babysit.Poll.{Look, code, waiting, wait, look_result, status_result, past}

-- A round that gives no reason to stop: no terminal status, no dead owner, no deadline.
abbrev pub Quiet : Option ℕ → Look → Type 0
Quiet deadline l = (look_result l ≡ none) × (past deadline l.now ≡ false)

terminal_result :
    (s : Status) (owner_alive : Option Bool)
    → is_terminal s.state ≡ true
    → status_result s owner_alive ≡ some (exit_code_from_status (some s))
unfolding is_terminal exit_code_from_status
terminal_result s owner_alive t = ground arith

-- If no round before gives a reason to stop, the first round that finds a terminal status makes
-- `wait` return the exit code on record, the same that a client takes which attaches late.
pub wait-code :
    (deadline : Option ℕ) (before after : List Look) (l : Look) (s : Status)
    → All (Quiet deadline) before
    → l.status ≡ some s
    → is_terminal s.state ≡ true
    → wait deadline (before ++ l ∷ after) ≡ code (exit_code_from_status (some s))
unfolding wait
wait-code deadline [] after l s q e t = ground (arith, terminal_result s l.owner_alive t)
wait-code deadline (b ∷ before) after l s q e t =
    ground (arith, wait-code deadline before after l s q.1 e t)

-- `wait` goes on waiting exactly as long as no round has a terminal status, a dead owner or a passed
-- deadline.
pub wait_waits :
    (deadline : Option ℕ) (ls : List Look) → (wait deadline ls ≡ waiting) ↔ All (Quiet deadline) ls
unfolding wait
wait_waits deadline [] = (λ h. tt, λ h. refl)
wait_waits deadline (l ∷ ls) = (
  λ h. ((ground arith, ground arith), (wait_waits deadline ls).0 (ground arith)),
  λ h. ground (arith, (wait_waits deadline ls).1 h.1),
)
