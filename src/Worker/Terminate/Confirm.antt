-- ===== src/Worker/Terminate/Confirm.antt =====
-- What a termination that succeeds has confirmed.
use babysit.Prelude.{
  ℕ, zero, suc, ◌+◌, ◌≤◌, ◌<◌, ◌≡◌, ◌≢◌, sym, ◌∙◌, true, false, Option, none, some, arith,
  Option-cases, inl, inr, ◌↔◌,
}
use babysit.Frame.{ExitInfo}
use babysit.Worker.Terminate.{
  Os, Signal, gone, gave_up, ended, failed, Termination, out_of_fuel, process_group_alive,
  signal_process_group, kill, force_kill, wait_for_pane_exit, wait_group,
  wait_for_process_group_exit, terminate_pane, confirm_group, clean_up, confirm_exit, escalate,
  after_grace,
}

module _ {S : Type 0} (os : Os S) where
  -- The recorded exit of a child does not change any more.
  pub record IsSticky : Type 0 where
    pub over_sleep :
        (i : ExitInfo) (ms : ℕ) (s : S)
        → os.exit_info s ≡ some i
        → os.exit_info (os.sleep ms s) ≡ some i
    pub over_killpg :
        (i : ExitInfo) (signal : Signal) (s : S)
        → os.exit_info s ≡ some i
        → os.exit_info (os.killpg signal s).1 ≡ some i
    pub over_child_kill :
        (i : ExitInfo) (s : S) → os.exit_info s ≡ some i → os.exit_info (os.child_kill s).1 ≡ some i

  -- The child has been reaped with this exit, and its process group is gone.
  pub record IsGone (s : S) (i : ExitInfo) : Type 0 where
    pub reaped : os.exit_info s ≡ some i
    pub no_group : process_group_alive os s ≡ some false

  signal_process_group-sticky :
      (v : IsSticky) (i : ExitInfo) (signal : Signal) (s : S)
      → os.exit_info s ≡ some i
      → os.exit_info (signal_process_group os signal s).1 ≡ some i
  unfolding signal_process_group
  signal_process_group-sticky v i signal s h = ground (arith, v.over_killpg i signal s h)

  force_kill-sticky :
      (v : IsSticky) (i : ExitInfo) (s : S)
      → os.exit_info s ≡ some i
      → os.exit_info (force_kill os s).1 ≡ some i
  unfolding force_kill
  force_kill-sticky v i s h =
      ground (arith, v.over_killpg i Signal.sigkill s h, v.over_child_kill i s h)

  wait_group-gone :
      (v : IsSticky) (i : ExitInfo) (fuel deadline : ℕ) (s s' : S)
      → os.exit_info s ≡ some i
      → wait_group os fuel deadline s ≡ gone s'
      → IsGone s' i
  unfolding wait_group
  wait_group-gone v i zero deadline s s' h e = ground arith
  wait_group-gone v i (suc fuel) deadline s s' h e =
      ground (arith, wait_group-gone v i fuel deadline (os.sleep 10 s) s' (v.over_sleep i 10 s h))

  -- The clock moves on by what is slept, at least.
  abbrev pub Clock : Type 0
  Clock = (ms : ℕ) (s : S) → os.now s + ms ≤ os.now (os.sleep ms s)

  wait_group-fuel :
      (clock : Clock) (fuel deadline : ℕ) (s s' : S)
      → 0 < fuel
      → deadline < os.now s + fuel
      → wait_group os fuel deadline s ≢ gave_up out_of_fuel s'
  unfolding wait_group
  wait_group-fuel clock zero deadline s s' pos lt e = omega arith
  wait_group-fuel clock (suc fuel) deadline s s' pos lt e =
      ground (arith, clock 10 s, wait_group-fuel clock fuel deadline (os.sleep 10 s) s')

  wait_for_process_group_exit-gone :
      (v : IsSticky) (i : ExitInfo) (timeout : ℕ) (s s' : S)
      → os.exit_info s ≡ some i
      → wait_for_process_group_exit os timeout s ≡ gone s'
      → IsGone s' i
  unfolding wait_for_process_group_exit
  wait_for_process_group_exit-gone v i timeout s s' h e =
      wait_group-gone v i (suc timeout) (os.now s + timeout) s s' h e

  wait_for_process_group_exit-fuel :
      (clock : Clock) (timeout : ℕ) (s s' : S)
      → wait_for_process_group_exit os timeout s ≢ gave_up out_of_fuel s'
  unfolding wait_for_process_group_exit
  wait_for_process_group_exit-fuel clock timeout s s' e =
      wait_group-fuel clock (suc timeout) (os.now s + timeout) s s' (omega arith) (omega arith) e

  wait_for_pane_exit-seen :
      (timeout : ℕ) (s : S)
      → os.exit_info (wait_for_pane_exit os timeout s).1 ≡ (wait_for_pane_exit os timeout s).0
  unfolding wait_for_pane_exit
  wait_for_pane_exit-seen timeout s = ground arith

  -- What every termination that sends a signal has confirmed.
  abbrev Sent : Termination → S → Type 0
  Sent t s = IsGone s t.info × (t.signal_sent ≡ true)

  confirm_group-Sent :
      (v : IsSticky) (i : ExitInfo) (s s' : S) (t : Termination)
      → os.exit_info s ≡ some i
      → confirm_group os i s ≡ ended t s'
      → Sent t s'
  confirm_group-Sent v i s s' t h e =
      ground (arith, wait_for_process_group_exit-gone v i 2000 s s' h)

  clean_up-Sent :
      (v : IsSticky) (i : ExitInfo) (s s' : S) (t : Termination)
      → os.exit_info s ≡ some i
      → clean_up os i s ≡ ended t s'
      → Sent t s'
  clean_up-Sent v i s s' t h e =
      ground (arith, force_kill-sticky v i s h, confirm_group-Sent v i (force_kill os s).1 s' t)

  confirm_exit-Sent :
      (v : IsSticky) (s s' : S) (t : Termination)
      → confirm_exit os (wait_for_pane_exit os 2000 s) ≡ ended t s'
      → Sent t s'
  confirm_exit-Sent v s s' t e = elim (Option-cases (wait_for_pane_exit os 2000 s).0) [
    | inl none_seen ↦ ground arith
    | inr (i, seen) ↦
        confirm_group-Sent v i (wait_for_pane_exit os 2000 s).1 s' t
          (wait_for_pane_exit-seen 2000 s ∙ seen) (ground arith)
  ]

  escalate-Sent :
      (v : IsSticky) (graceful_info : Option ExitInfo) (s s' : S) (t : Termination)
      → os.exit_info s ≡ graceful_info
      → escalate os graceful_info s ≡ ended t s'
      → Sent t s'
  escalate-Sent v none s s' t h e = ground (arith, confirm_exit-Sent v (force_kill os s).1 s' t)
  escalate-Sent v (some i) s s' t h e =
      ground (arith, force_kill-sticky v i s h, confirm_group-Sent v i (force_kill os s).1 s' t)

  after_grace-Sent :
      (v : IsSticky) (graceful_info : Option ExitInfo) (s s' : S) (t : Termination)
      → os.exit_info s ≡ graceful_info
      → after_grace os (graceful_info, s) ≡ ended t s'
      → Sent t s'
  after_grace-Sent v none s s' t h e = escalate-Sent v none s s' t h e
  after_grace-Sent v (some i) s s' t h e = ground (arith, escalate-Sent v (some i) s s' t h)

  Confirms : S → S → Termination → Type 0
  Confirms s s' t =
      IsGone s' t.info
      × ((t.signal_sent ≡ false) ↔ ((i : ExitInfo) × IsGone s i))
      × (t.signal_sent ≡ false → s' ≡ s)

  Sent-Confirms :
      (s s' : S) (t : Termination)
      → Sent t s'
      → ((i : ExitInfo) → os.exit_info s ≡ some i → process_group_alive os s ≢ some false)
      → Confirms s s' t
  unfolding Confirms
  Sent-Confirms s s' t (confirms, sent) before =
      (confirms, (λ h. cc, λ (i, there). absurd (before i there.reaped there.no_group)), λ h. cc)

  exited-Confirms :
      (v : IsSticky) (i : ExitInfo) (s s' : S) (t : Termination)
      → os.exit_info s ≡ some i
      → terminate_pane os s ≡ ended t s'
      → Confirms s s' t
  unfolding terminate_pane Confirms
  exited-Confirms v i s s' t h e = elim (Option-cases (process_group_alive os s)) [
    | inl failing ↦ ground arith
    | inr (true, alive) ↦
        Sent-Confirms s s' t (clean_up-Sent v i s s' t h (ground arith)) (λ j k none_left. cc)
    | inr (false, none_left) ↦
        let info_is : t.info ≡ i = ground arith in
        let same : s ≡ s' = ground arith in
        let silent : t.signal_sent ≡ false = ground arith in
        (
          record { reaped = rw (← same, info_is) h; no_group = rw (← same) none_left },
          (λ _. (i, record { reaped = h; no_group = none_left }), λ _. silent),
          λ _. sym same,
        )
  ]

  asked-Confirms :
      (v : IsSticky) (s s' : S) (t : Termination)
      → os.exit_info s ≡ none
      → terminate_pane os s ≡ ended t s'
      → Confirms s s' t
  unfolding terminate_pane
  asked-Confirms v s s' t h e =
      let s1 = (kill os s).1 in
      let seen = wait_for_pane_exit-seen 300 s1 in
      Sent-Confirms s s' t
        (after_grace-Sent v (wait_for_pane_exit os 300 s1).0 (wait_for_pane_exit os 300 s1).1 s' t
          seen (ground arith))
        (λ i k none_left. cc)

  -- Let a recorded exit never change. If a termination succeeds then, in the state in which it
  -- returns, the child has exited with the exit that is reported and its process group is gone. No
  -- signal was sent exactly if the child had exited and its group was gone before, and then the
  -- state is unchanged.
  pub terminate_pane-confirms :
      (v : IsSticky) (s s' : S) (t : Termination)
      → terminate_pane os s ≡ ended t s'
      → IsGone s' t.info
        × ((t.signal_sent ≡ false) ↔ ((i : ExitInfo) × IsGone s i))
        × (t.signal_sent ≡ false → s' ≡ s)
  unfolding Confirms
  terminate_pane-confirms v s s' t e = elim (Option-cases (os.exit_info s)) [
    | inl h ↦ asked-Confirms v s s' t h e
    | inr (i, h) ↦ exited-Confirms v i s s' t h e
  ]

  confirm_group-fuel :
      (clock : Clock) (i : ExitInfo) (s s' : S) → confirm_group os i s ≢ failed out_of_fuel s'
  confirm_group-fuel clock i s s' e =
      ground (arith, wait_for_process_group_exit-fuel clock 2000 s s')

  confirm_exit-fuel :
      (clock : Clock) (w : Option ExitInfo × S) (s' : S) → confirm_exit os w ≢ failed out_of_fuel s'
  confirm_exit-fuel clock (none, s) s' e = cc
  confirm_exit-fuel clock (some i, s) s' e = confirm_group-fuel clock i s s' e

  escalate-fuel :
      (clock : Clock) (g : Option ExitInfo) (s s' : S) → escalate os g s ≢ failed out_of_fuel s'
  escalate-fuel clock none s s' e =
      ground (arith, confirm_exit-fuel clock (wait_for_pane_exit os 2000 (force_kill os s).1) s')
  escalate-fuel clock (some i) s s' e =
      ground (arith, confirm_group-fuel clock i (force_kill os s).1 s')

  after_grace-fuel :
      (clock : Clock) (w : Option ExitInfo × S) (s' : S) → after_grace os w ≢ failed out_of_fuel s'
  after_grace-fuel clock (none, s) s' e = escalate-fuel clock none s s' e
  after_grace-fuel clock (some i, s) s' e = ground (arith, escalate-fuel clock (some i) s s')

  -- A termination never runs out of the rounds that the model gives its loop, if the clock moves on
  -- by what is slept, at least.
  pub terminate_pane-terminates :
      (clock : Clock) (s s' : S) → terminate_pane os s ≢ failed out_of_fuel s'
  unfolding terminate_pane
  terminate_pane-terminates clock s s' e = elim (Option-cases (os.exit_info s)) [
    | inl h ↦ ground (arith, after_grace-fuel clock (wait_for_pane_exit os 300 (kill os s).1) s')
    | inr (i, h) ↦ ground (arith, confirm_group-fuel clock i (force_kill os s).1 s')
  ]
