-- ===== src/Worker/Serve/Killed.antt =====
-- src/run.rs: what a confirmed kill request has brought about.
use babysit.Prelude.{
  ℕ, ◌≡◌, refl, sym, ap, subst, ◌∙◌, Bool, true, false, List, [], ◌∷◌, ◌++◌, Option, none, some,
  arith, if_ind, ◌&&◌, leb, All, Memᴰ,
}
use babysit.Frame.{ExitInfo}
use babysit.Session.{State, killed, Status, starting_status}
use babysit.Worker.Terminate.{Os, Terminated, ended, failed, Termination, terminate_pane}
use babysit.Worker.Terminate.Confirm.{IsSticky, IsGone, terminate_pane-confirms}
use babysit.Worker.Serve.{
  Reply, confirmed, kill_failed, Event, Wake, timeout_at, idle_tick, restart, kill_request,
  exit_notify, Book, Next, onward, leave, return_error, store, running_status, ended_status,
  kill_state, kill_reply, on_wake, on_idle, run_loop, run_loop_ind, Limits, End, still_running,
  returned_error, served, shut_down, Setup, serve_worker, no_book, setup_failure_status, supervise,
  launched, expire, on_restart, on_kill, store_if,
}

abbrev pub IsFailure : Reply → Type 0
IsFailure (kill_failed e) = Unit
IsFailure _ = ⊥

failures_append :
    (rs : List Reply) (r : Reply) → All IsFailure rs → IsFailure r → All IsFailure (rs ++ r ∷ [])
failures_append [] r h k = (k, tt)
failures_append (x ∷ rs) r h k = (h.0, failures_append rs r h.1 k)

no_confirmation :
    (rs : List Reply) (e : Bool) (st : State) (c : Option ℕ)
    → All IsFailure rs
    → Memᴰ (confirmed e st c) rs
    → ⊥
no_confirmation [] e st c h m = elim m [ ]
no_confirmation (r ∷ rs) e st c h (Memᴰ.head x) = subst IsFailure (sym x) h.0
no_confirmation (r ∷ rs) e st c h (Memᴰ.tail m) = no_confirmation rs e st c h.1 m

last_confirmation :
    (rs : List Reply) (r : Reply) (e : Bool) (st : State) (c : Option ℕ)
    → All IsFailure rs
    → Memᴰ (confirmed e st c) (rs ++ r ∷ [])
    → confirmed e st c ≡ r
last_confirmation [] r e st c h (Memᴰ.head x) = x
last_confirmation [] r e st c h (Memᴰ.tail m) = elim m [ ]
last_confirmation (x ∷ rs) r e st c h (Memᴰ.head y) = absurd (subst IsFailure (sym y) h.0)
last_confirmation (x ∷ rs) r e st c h (Memᴰ.tail m) = last_confirmation rs r e st c h.1 m

module _ {S : Type 0} (os : Os S) (limits : Limits) (sticky : IsSticky os) where
  -- A termination that the loop has left with, and that is on record and answered.
  record Answered (i : ExitInfo) (b : Book) : Type 0 where
    t : Termination
    state : S
    info_is : i ≡ t.info
    is_gone : IsGone os state i
    earlier : List Reply
    failures : All IsFailure earlier
    replied : b.replies ≡ earlier ++ kill_reply t ∷ []
    before : List Status
    recorded : b.statuses ≡ before ++ ended_status (kill_state t) (some i) ∷ []

  Keeps : Next × Book → Type 0
  Keeps (onward, b) = All IsFailure b.replies
  Keeps (return_error, b) = All IsFailure b.replies
  Keeps (leave info false r, b) = All IsFailure b.replies
  Keeps (leave (some i) true r, b) = Answered i b
  Keeps (leave none true r, b) = ⊥

  expire-Keeps : (t : Terminated S) (b : Book) → All IsFailure b.replies → Keeps (expire t b)
  unfolding Keeps
  expire-Keeps (ended t s) b h = h
  expire-Keeps (failed e s) b h = h

  on_restart-Keeps :
      (t : Terminated S) (spawned : Option (Option ℕ)) (written : Bool) (b : Book)
      → All IsFailure b.replies
      → Keeps (on_restart t spawned written b)
  unfolding Keeps
  on_restart-Keeps (failed e s) spawned written b h = h
  on_restart-Keeps (ended t s) none written b h = h
  on_restart-Keeps (ended t s) (some pid) false b h = h
  on_restart-Keeps (ended t s) (some pid) true b h = h

  on_kill-Keeps :
      (s : S) (t : Terminated S) (written : Bool) (b : Book)
      → terminate_pane os s ≡ t
      → All IsFailure b.replies
      → Keeps (on_kill t written b)
  unfolding Keeps
  on_kill-Keeps s (failed err s') written b e h = failures_append b.replies (kill_failed err) h tt
  on_kill-Keeps s (ended t s') false b e h = h
  on_kill-Keeps s (ended t s') true b e h = record {
    t = t;
    state = s';
    info_is = refl;
    is_gone = (terminate_pane-confirms os sticky s s' t e).0;
    earlier = b.replies;
    failures = h;
    replied = refl;
    before = b.statuses;
    recorded = refl;
  }

  on_idle-Keeps :
      (limit : Option ℕ) (idle_ms : ℕ) (s : S) (b : Book)
      → All IsFailure b.replies
      → Keeps (on_idle os limits limit idle_ms s b)
  unfolding Keeps
  on_idle-Keeps none idle_ms s b h = h
  on_idle-Keeps (some limit) idle_ms s b h =
      if_ind Keeps (leb limit idle_ms) (expire (terminate_pane os s) b) (onward, b)
        (expire-Keeps (terminate_pane os s) b h) h

  on_wake-Keeps :
      (w : Wake) (s : S) (written : Bool) (b : Book)
      → Keeps (onward, b)
      → Keeps (on_wake os limits w s written b)
  unfolding on_wake Keeps
  on_wake-Keeps timeout_at s written b h =
      if_ind Keeps limits.has_timeout (expire (terminate_pane os s) b) (onward, b)
        (expire-Keeps (terminate_pane os s) b h) h
  on_wake-Keeps (idle_tick idle_ms) s written b h = on_idle-Keeps limits.idle_limit_ms idle_ms s b h
  on_wake-Keeps (restart spawned) s written b h =
      on_restart-Keeps (terminate_pane os s) spawned written b h
  on_wake-Keeps kill_request s written b h = on_kill-Keeps s (terminate_pane os s) written b refl h
  on_wake-Keeps exit_notify s written b h = h

  -- What every confirmation among the replies implies.
  Honours : End → Type 0
  Honours (served i b) =
      (escalated : Bool) (st : State) (c : Option ℕ)
      → Memᴰ (confirmed escalated st c) b.replies
      → (s : S) × IsGone os s i
        × (st ≡ killed)
        × (c ≡ i.code)
        × ((before : List Status) × (b.statuses ≡ before ++ ended_status killed (some i) ∷ []))
  Honours (still_running b) = Unit
  Honours (returned_error b) = Unit

  kill_reply_is :
      (t : Termination) (escalated : Bool) (st : State) (c : Option ℕ)
      → confirmed escalated st c ≡ kill_reply t
      → (st ≡ killed) × (c ≡ t.info.code) × (kill_state t ≡ killed)
  kill_reply_is t escalated st c e = (ground arith, ground arith, ground arith)

  Answered-Honours : (i : ExitInfo) (b : Book) → Answered i b → Honours (served i b)
  unfolding Honours
  Answered-Honours i b a escalated st c m =
      let last =
        last_confirmation a.earlier (kill_reply a.t) escalated st c a.failures
          (subst (Memᴰ (confirmed escalated st c)) a.replied m) in
      let (is_killed, code_is, state_is) = kill_reply_is a.t escalated st c last in
      (
        a.state,
        a.is_gone,
        is_killed,
        code_is ∙ ap (λ x. x.code) (sym a.info_is),
        (a.before, a.recorded ∙ ap (λ x. a.before ++ ended_status x (some i) ∷ []) state_is),
      )

  shut_down-Honours : (written : Bool) (r : Next × Book) → Keeps r → Honours (shut_down written r)
  unfolding Keeps Honours
  shut_down-Honours written (onward, b) h = tt
  shut_down-Honours written (return_error, b) h = tt
  shut_down-Honours written (leave (some i) true requested, b) h = Answered-Honours i b h
  shut_down-Honours written (leave none true requested, b) h = absurd h
  shut_down-Honours true (leave info false requested, b) h =
      λ e st c m. absurd (no_confirmation b.replies e st c h m)
  shut_down-Honours false (leave info false requested, b) h = tt

  supervise-Honours :
      (setup : Setup) (events : List (Event S)) (b : Book)
      → All IsFailure b.replies
      → Honours (supervise os limits setup events b)
  unfolding supervise Honours
  supervise-Honours setup events b h =
      if_ind Honours setup.serves (shut_down setup.last_written (run_loop os limits events b))
        (returned_error (store_if setup.killed_written setup_failure_status b))
        (shut_down-Honours setup.last_written (run_loop os limits events b)
          (run_loop_ind os limits Keeps on_wake-Keeps events b (unfold Keeps in h)))
        tt

  launched-Honours :
      (setup : Setup) (events : List (Event S)) (spawned : Option (Option ℕ)) (b : Book)
      → All IsFailure b.replies
      → Honours (launched os limits setup events spawned b)
  unfolding Honours
  launched-Honours setup events none b h = tt
  launched-Honours setup events (some pid) b h =
      if_ind Honours setup.running_written
        (supervise os limits setup events (store (running_status pid) b)) (returned_error b)
        (supervise-Honours setup events (store (running_status pid) b) h) tt

  -- Let a recorded exit never change. If a worker has served its session to the end and has told a
  -- client that its kill request is confirmed, then there is a state in which the child has exited
  -- and its process group is gone, the reply says `killed` and the child's code, and so does the last
  -- status on record.
  pub kill_confirmed :
      (setup : Setup) (events : List (Event S)) (i : ExitInfo) (b : Book) (escalated : Bool)
      (st : State) (c : Option ℕ)
      → serve_worker os limits setup events ≡ served i b
      → Memᴰ (confirmed escalated st c) b.replies
      → (s : S) × IsGone os s i
        × (st ≡ killed)
        × (c ≡ i.code)
        × ((before : List Status) × (b.statuses ≡ before ++ ended_status killed (some i) ∷ []))
  unfolding serve_worker Honours
  kill_confirmed setup events i b escalated st c e m =
      subst Honours e
        (if_ind Honours (setup.meta_written && setup.starting_written)
          (launched os limits setup events setup.spawned (store starting_status no_book))
          (returned_error no_book)
          (launched-Honours setup events setup.spawned (store starting_status no_book) tt) tt)
        escalated st c m
