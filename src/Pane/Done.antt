-- ===== src/Pane/Done.antt =====
-- src/pane.rs: what `reader_done` means, and that it is notified in the end.
use babysit.Prelude.{
  ℕ, ◌+◌, ◌≤◌, min, ◌≡◌, refl, sym, ap, subst, ◌∙◌, Bool, true, false, List, [], ◌∷◌, ◌++◌, Option,
  none, some, Bytes, length, ◌==◌, arith, All, append-nil, ◌>>=◌,
}
use babysit.Hub.{Hub, Opens, u64_max}
use babysit.Pane.{
  Phase, reading, leaving, last, gone, holding, Thread, Pane, Reach, new_pane, open_output, spawn,
}
use babysit.Pane.Readers.{
  sum_of, counts, counts_in, lasts, got_length, sent_length, in_hand, Faithful, bit, Inv, Reach-Inv,
}

-- A reader that has ended its loop and has broadcast all that it read.
abbrev pub Finished : Thread → Type 0
Finished t = (counts t ≡ 0) × (t.got ≡ t.sent)

in_hand-ended : (p : Phase) → counts_in p ≡ 0 → in_hand p ≡ []
in_hand-ended reading h = absurd (omega arith)
in_hand-ended leaving h = refl
in_hand-ended last h = refl
in_hand-ended gone h = refl
in_hand-ended (holding bytes) h = absurd (omega arith)

All-Finished : (ts : List Thread) → sum_of counts ts ≡ 0 → All Faithful ts → All Finished ts
All-Finished [] h a = tt
All-Finished (t ∷ ts) h a =
    let mine : counts t ≡ 0 = omega arith in
    (
      (mine, a.0 ∙ ap (◌++◌ t.sent) (in_hand-ended t.phase mine) ∙ append-nil t.sent),
      All-Finished ts (omega arith) a.1,
    )

got-eq-sent : (ts : List Thread) → All Finished ts → sum_of got_length ts ≡ sum_of sent_length ts
got-eq-sent [] a = refl
got-eq-sent (t ∷ ts) a = omega (arith, got-eq-sent ts a.1, ap length (a.0).1)

new_pane-Inv : (tty : Bool) (h : Hub) → h.next_offset ≤ u64_max → Inv h.next_offset (new_pane tty h)
new_pane-Inv true h le = record {
  counted = refl;
  fired = refl;
  faithful = (refl, tt);
  offset = omega arith;
  shown = refl;
}
new_pane-Inv false h le = record {
  counted = refl;
  fired = refl;
  faithful = (refl, (refl, tt));
  offset = omega arith;
  shown = refl;
}

-- A pane that was spawned is a new one over some hub.
spawned :
    (cmd : List Bytes) (tty starts : Bool) (log : Option Opens) (h : Hub) (p : Pane)
    → spawn cmd tty starts log h ≡ some p
    → (hub : Hub) × (p ≡ new_pane tty hub)
unfolding spawn
spawned [] tty starts log h p e = absurd (cc e)
spawned (c ∷ cmd) tty false log h p e = absurd (cc e)
spawned (c ∷ cmd) tty true log h p e = of_log (open_output log h) e
  where
    of_log :
        (o : Option Hub)
        → (o >>= λ hub. some (new_pane tty hub)) ≡ some p
        → (hub : Hub) × (p ≡ new_pane tty hub)
    of_log none k = absurd (cc k)
    of_log (some hub) k = (hub, cc)

pub spawned-Inv :
    (cmd : List Bytes) (tty starts : Bool) (log : Option Opens) (h : Hub) (p : Pane)
    → spawn cmd tty starts log h ≡ some p
    → (p.shared).hub.next_offset ≤ u64_max
    → Inv (p.shared).hub.next_offset p
spawned-Inv cmd tty starts log h p e le =
    let (hub, new) = spawned cmd tty starts log h p e in
    subst (λ (x : Pane). Inv (x.shared).hub.next_offset x) (sym new)
      (new_pane-Inv tty hub (subst (λ (x : Pane). (x.shared).hub.next_offset ≤ u64_max) new le))

counted_down :
    (remaining lasts : ℕ) (done : Bool)
    → lasts + bit done ≡ bit (remaining == 0)
    → done ≡ true
    → remaining ≡ 0
counted_down remaining lasts done h d = ground arith

-- The readers of a spawned pane run in any order. Once `reader_done` is notified, each of them has
-- ended its loop and has broadcast all that it read: the hub's offset has advanced by exactly what the
-- readers have read, as far as 64 bits go, and the screen has processed as much.
pub reader_done-Finished :
    (cmd : List Bytes) (tty starts : Bool) (log : Option Opens) (h : Hub) (p q : Pane)
    → spawn cmd tty starts log h ≡ some p
    → (p.shared).hub.next_offset ≤ u64_max
    → Reach p q
    → (q.shared).reader_done ≡ true
    → All Finished q.threads
      × ((q.shared).hub.next_offset
          ≡ min ((p.shared).hub.next_offset + sum_of got_length q.threads) u64_max)
      × (length (q.shared).screen ≡ sum_of got_length q.threads)
reader_done-Finished cmd tty starts log h p q e le r done =
    let v = Reach-Inv (p.shared).hub.next_offset (spawned-Inv cmd tty starts log h p e le) r in
    let zero : sum_of counts q.threads ≡ 0 =
      sym v.counted
      ∙ counted_down (q.shared).remaining (sum_of lasts q.threads) (q.shared).reader_done v.fired
          done in
    let finished = All-Finished q.threads zero v.faithful in
    (
      finished,
      v.offset
          ∙ ap (λ (n : ℕ). min ((p.shared).hub.next_offset + n) u64_max)
              (sym (got-eq-sent q.threads finished)),
      v.shown,
    )
