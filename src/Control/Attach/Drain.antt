-- ===== src/Control/Attach/Drain.antt =====
-- src/control.rs: the client is sent all output before it is told of the end.
use babysit.Prelude.{
  ℕ, suc, ◌≡◌, refl, sym, ap, ◌∙◌, true, false, not, ◌&&◌, List, [], ◌∷◌, ◌++◌, Option, none, some,
  Bytes, map, arith, if_ind, if_case, if◌then◌else◌, ◌⊎◌, inl, inr, append-nil, append_assoc, take,
}
use babysit.Frame.{ExitInfo}
use babysit.Control.Attach.{
  AttachOutput, output_frame, exit_frame, detached_frame, Round, Stream, Sent, send_first,
  closing_frame, end_of_round, other_arms, exit_arm, on_round, serve,
}

-- The frames that end a stream: an exit, with what is known of it, or a detach.
abbrev pub IsLast : (Option ExitInfo → Type 0) → ℕ × Bytes → Type 0
IsLast Known f =
    ((info : Option ExitInfo) × Known info × (f ≡ exit_frame info)) ⊎ (f ≡ detached_frame)

-- The exit that the last of the rounds has found.
abbrev pub Found : List Round → Option ExitInfo → Type 0
Found rounds info =
    (before : List Round) × (r : Round) × (rounds ≡ before ++ r ∷ []) × (r.exit ≡ info)

-- What has arrived in the rounds.
abbrev pub arrived : List Round → List AttachOutput
arrived [] = []
arrived (r ∷ rs) = r.arrivals ++ arrived rs

-- The frames sent are the output in the order of its arrival, up to `left`, which is still waiting;
-- then comes at most one frame that ends the stream, and only if nothing is waiting. What is known of
-- an exit in it is said of the rounds until then.
pub record Drains (Known : List Round → Option ExitInfo → Type 0) (queue : List AttachOutput)
    (rs : List Round) (fs : List (ℕ × Bytes)) : Type 0 where
  pub rounds : ℕ
  pub taken : List AttachOutput
  pub left : List AttachOutput
  pub in_order : queue ++ arrived (take rounds rs) ≡ taken ++ left
  pub frames :
      (fs ≡ map output_frame taken)
      ⊎ ((left ≡ [])
          × ((f : ℕ × Bytes) × IsLast (Known (take rounds rs)) f
              × (fs ≡ map output_frame taken ++ f ∷ [])))

closing_frame-IsLast :
    (Known : Option ExitInfo → Type 0) (info : Option ExitInfo)
    → Known info
    → IsLast Known (closing_frame info)
closing_frame-IsLast Known none k = inr refl
closing_frame-IsLast Known (some info) k = inl (some info, k, refl)

module _ {Known : List Round → Option ExitInfo → Type 0} where
  silent : (waiting : List AttachOutput) (rs : List Round) → Drains Known waiting rs []
  silent waiting rs = record {
    rounds = 0;
    taken = [];
    left = waiting;
    in_order = append-nil waiting;
    frames = inl refl;
  }

  last_frame : (rs : List Round) (f : ℕ × Bytes) → IsLast (Known []) f → Drains Known [] rs (f ∷ [])
  last_frame rs f last = record {
    rounds = 0;
    taken = [];
    left = [];
    in_order = refl;
    frames = inr (refl, (f, last, refl));
  }

  Drains-cons :
      (c : AttachOutput) (rest : List AttachOutput) (rs : List Round) (fs : List (ℕ × Bytes))
      → Drains Known rest rs fs
      → Drains Known (c ∷ rest) rs (output_frame c ∷ fs)
  Drains-cons c rest rs fs d = record {
    rounds = d.rounds;
    taken = c ∷ d.taken;
    left = d.left;
    in_order = ap (◌∷◌ c) d.in_order;
    frames = elim (d.frames) [
      | inl e ↦ inl (ap (◌∷◌ (output_frame c)) e)
      | inr (e, (f, last, e')) ↦ inr (e, (f, last, ap (◌∷◌ (output_frame c)) e'))
    ];
  }

  Drains-round :
      (queue : List AttachOutput) (r : Round) (rs : List Round) (fs : List (ℕ × Bytes))
      → Drains (λ l. Known (r ∷ l)) (queue ++ r.arrivals) rs fs
      → Drains Known queue (r ∷ rs) fs
  Drains-round queue r rs fs d = record {
    rounds = suc d.rounds;
    taken = d.taken;
    left = d.left;
    in_order = sym (append_assoc queue r.arrivals (arrived (take d.rounds rs))) ∙ d.in_order;
    frames = d.frames;
  }

  end_of_round-Drains :
      (m : Stream) (exit : Option ExitInfo) (rest : List AttachOutput) (rs : List Round)
      (later : Sent)
      → Known [] exit
      → Drains Known rest rs later.0
      → Drains Known rest rs (end_of_round m exit rest later).0
  end_of_round-Drains m exit [] rs later k d =
      if_ind (λ x. Drains Known [] rs x.0) (m.already_exited && not m.has_view && true)
        (exit_frame exit ∷ [], true) later (last_frame rs (exit_frame exit) (inl (exit, k, refl))) d
  end_of_round-Drains m exit (c ∷ rest) rs later k d =
      if_case (λ x. Drains Known (c ∷ rest) rs x.0) (m.already_exited && not m.has_view && false)
        (exit_frame exit ∷ [], true) later (λ e. ground arith) (λ _. d)

  exit_arm-Drains :
      (m : Stream) (exit : Option ExitInfo) (rs : List Round) (later : Sent)
      → Known [] exit
      → Drains Known [] rs later.0
      → Drains Known [] rs (exit_arm m exit later).0
  exit_arm-Drains m (some info) rs later k d =
      last_frame rs (exit_frame (some info)) (inl (some info, k, refl))
  exit_arm-Drains m none rs later k d = end_of_round-Drains m none [] rs later k d

  other_arms-Drains :
      (m : Stream) (r : Round) (rs : List Round) (later : Sent)
      → Known [] r.exit
      → Drains Known [] rs later.0
      → Drains Known [] rs (other_arms m r later).0
  other_arms-Drains m r rs later known d =
      let idle =
        if r.idle_over && m.already_exited && m.has_view
        then (exit_frame r.exit ∷ [], true)
        else later in
      let gone = if r.gone then ([], true) else idle in
      let detach = if r.detach_changed then (detached_frame ∷ [], true) else gone in
      let exit = if r.exit_changed then exit_arm m r.exit later else detach in
      if_ind (λ x. Drains Known [] rs x.0) r.channel_closed (closing_frame r.exit ∷ [], true) exit
        (last_frame rs (closing_frame r.exit) (closing_frame-IsLast (Known []) r.exit known))
        (if_ind (λ x. Drains Known [] rs x.0) r.exit_changed (exit_arm m r.exit later) detach
          (exit_arm-Drains m r.exit rs later known d)
          (if_ind (λ x. Drains Known [] rs x.0) r.detach_changed (detached_frame ∷ [], true) gone
            (last_frame rs detached_frame (inr refl))
            (if_ind (λ x. Drains Known [] rs x.0) r.gone ([], true) idle (silent [] rs)
              (if_ind (λ x. Drains Known [] rs x.0) (r.idle_over && m.already_exited && m.has_view)
                (exit_frame r.exit ∷ [], true) later
                (last_frame rs (exit_frame r.exit) (inl (r.exit, known, refl))) d))))

  on_round-Drains :
      (m : Stream) (r : Round) (waiting : List AttachOutput) (rs : List Round)
      (k : List AttachOutput → Sent)
      → Known [] r.exit
      → ((q : List AttachOutput) → Drains Known q rs (k q).0)
      → Drains Known waiting rs (on_round m r waiting k).0
  unfolding on_round
  on_round-Drains m r [] rs k known ih = other_arms-Drains m r rs (k []) known (ih [])
  on_round-Drains m r (c ∷ rest) rs k known ih =
      if_ind (λ x. Drains Known (c ∷ rest) rs x.0) r.written
        (send_first (output_frame c) (end_of_round m r.exit rest (k rest))) ([], true)
        (Drains-cons c rest rs (end_of_round m r.exit rest (k rest)).0
          (end_of_round-Drains m r.exit rest rs (k rest) known (ih rest)))
        (silent (c ∷ rest) rs)

serve-Known :
    (Known : List Round → Option ExitInfo → Type 0) (m : Stream) (queue : List AttachOutput)
    (rs : List Round)
    → ((before : List Round) (r : Round) → Known (before ++ r ∷ []) r.exit)
    → Drains Known queue rs (serve m queue rs).0
unfolding serve
serve-Known Known m queue [] known = silent queue []
serve-Known Known m queue (r ∷ rs) known =
    Drains-round queue r rs (on_round m r (queue ++ r.arrivals) (λ q. serve m q rs)).0 (
      on_round-Drains m r (queue ++ r.arrivals) rs (λ q. serve m q rs) (known [] r)
        (λ q. serve-Known (λ l. Known (r ∷ l)) m q rs (λ before x. known (r ∷ before) x)))

-- Whatever the rounds of the loop find, the frames that a client is sent are the output that has
-- arrived for it, in order and without omission, up to some that is still waiting. At most one frame
-- that ends the stream follows, and only if nothing is waiting: a detach, or the exit that the last
-- round so far has found.
pub serve-Drains :
    (m : Stream) (queue : List AttachOutput) (rs : List Round)
    → Drains Found queue rs (serve m queue rs).0
serve-Drains m queue rs = serve-Known Found m queue rs (λ before r. (before, r, refl, refl))
