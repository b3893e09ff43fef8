-- ===== src/Pane/Ends.antt =====
-- src/pane.rs: the readers can always run to their end, and then `reader_done` is notified.
use babysit.Prelude.{
  ℕ, ◌+◌, ◌-◌, ◌≤◌, ◌≡◌, refl, sym, ap, subst, ◌∙◌, inl, inr, Bool, true, List, [], ◌∷◌, ◌++◌,
  Option, some, Bytes, ◌==◌, if◌then◌else◌, arith, All, append-nil, append_assoc, Bool-cases,
}
use babysit.Hub.{Hub, Io, Opens, whole, u64_max, broadcast}
use babysit.Pane.{
  Phase, reading, leaving, last, gone, holding, Thread, Shared, Move, ended, next, at, advance_in,
  advance, Pane, Step, step, Reach, here, and_then, spawn,
}
use babysit.Pane.Readers.{sum_of, counts, counts_in, lasts, is_last, bit, Reach-Inv}
use babysit.Pane.Done.{spawned-Inv}

Reach-trans : {p q r : Pane} → Reach p q → Reach q r → Reach p r
Reach-trans a here = a
Reach-trans a (and_then b st) = and_then (Reach-trans a b) st

first : {p q r : Pane} → Step p q → Reach q r → Reach p r
first st r = Reach-trans (and_then here st) r

quiet : Io
quiet = record { log_write = whole; row_write = true; now = 0 }

-- The thread between `before` and `after` can run to its end, the others standing still.
Ends : List Thread → List Thread → Pane → Type 0
Ends before after p =
    (q : Pane) × (t : Thread) × Reach p q × (q.threads ≡ before ++ t ∷ after) × (t.phase ≡ gone)

moves :
    (before after : List Thread) (p : Pane) (t t' : Thread) (s' : Shared) (m : Move)
    → p.threads ≡ before ++ t ∷ after
    → advance m t p.shared ≡ some (t', s')
    → ((q : Pane) → q.threads ≡ before ++ t' ∷ after → Ends before after q)
    → Ends before after p
unfolding Ends
moves before after p t t' s' m e adv k =
    let q : Pane = record { threads = before ++ t' ∷ after; shared = s' } in
    let (r, u, reach, e', g) = k q refl in
    (r, u, first (step before after t t' m e adv refl) reach, e', g)

module _ (before after : List Thread) where
  gone-Ends :
      (p : Pane) (t : Thread)
      → p.threads ≡ before ++ t ∷ after
      → t.phase ≡ gone
      → Ends before after p
  unfolding Ends
  gone-Ends p t e g = (p, t, here, e, g)

  last-Ends :
      (p : Pane) (t : Thread)
      → p.threads ≡ before ++ t ∷ after
      → t.phase ≡ last
      → Ends before after p
  unfolding advance advance_in
  last-Ends p t e g =
      moves before after p t (at gone t) (record p.shared { reader_done = true }) (next quiet) e
        (ap (λ x. advance_in x (next quiet) t p.shared) g) (λ q e'. gone-Ends q (at gone t) e' refl)

  leaving-Ends :
      (p : Pane) (t : Thread)
      → p.threads ≡ before ++ t ∷ after
      → t.phase ≡ leaving
      → Ends before after p
  unfolding advance advance_in
  leaving-Ends p t e g =
      moves before after p t (at (if (p.shared).remaining == 1 then last else gone) t)
        (record p.shared { remaining = (p.shared).remaining - 1 }) (next quiet) e
        (ap (λ x. advance_in x (next quiet) t p.shared) g)
        (λ q e'. elim (Bool-cases ((p.shared).remaining == 1)) [
          | inl l ↦
              last-Ends q (at (if (p.shared).remaining == 1 then last else gone) t) e' (rw l refl)
          | inr l ↦
              gone-Ends q (at (if (p.shared).remaining == 1 then last else gone) t) e' (rw l refl)
        ])

  reading-Ends :
      (p : Pane) (t : Thread)
      → p.threads ≡ before ++ t ∷ after
      → t.phase ≡ reading
      → Ends before after p
  unfolding advance advance_in
  reading-Ends p t e g =
      moves before after p t (at leaving t) p.shared ended e
        (ap (λ x. advance_in x ended t p.shared) g) (λ q e'. leaving-Ends q (at leaving t) e' refl)

  holding-Ends :
      (p : Pane) (t : Thread) (bytes : Bytes)
      → p.threads ≡ before ++ t ∷ after
      → t.phase ≡ holding bytes
      → Ends before after p
  unfolding advance advance_in
  holding-Ends p t bytes e g =
      moves before after p t (record t { phase = reading; sent = t.sent ++ bytes })
        (record p.shared { hub = broadcast quiet bytes (p.shared).hub }) (next quiet) e
        (ap (λ x. advance_in x (next quiet) t p.shared) g)
        (λ q e'. reading-Ends q (record t { phase = reading; sent = t.sent ++ bytes }) e' refl)

  any-Ends :
      (ph : Phase) (p : Pane) (t : Thread)
      → p.threads ≡ before ++ t ∷ after
      → t.phase ≡ ph
      → Ends before after p
  any-Ends reading p t e g = reading-Ends p t e g
  any-Ends (holding bytes) p t e g = holding-Ends p t bytes e g
  any-Ends leaving p t e g = leaving-Ends p t e g
  any-Ends last p t e g = last-Ends p t e g
  any-Ends gone p t e g = gone-Ends p t e g

abbrev pub IsGone : Thread → Type 0
IsGone t = t.phase ≡ gone

All-snoc : (ts : List Thread) (t : Thread) → All IsGone ts → IsGone t → All IsGone (ts ++ t ∷ [])
All-snoc [] t a g = (g, tt)
All-snoc (x ∷ ts) t a g = (a.0, All-snoc ts t a.1 g)

-- One thread after the other.
run_out :
    (after before : List Thread) (p : Pane)
    → p.threads ≡ before ++ after
    → All IsGone before
    → (q : Pane) × Reach p q × All IsGone q.threads
unfolding Ends
run_out [] before p e a = (p, here, subst (All IsGone) (sym (e ∙ append-nil before)) a)
run_out (t ∷ after) before p e a =
    let (q, t', r, e', g) = any-Ends before after t.phase p t e refl in
    let (q', r', a') =
      run_out after (before ++ t' ∷ []) q (e' ∙ sym (append_assoc before (t' ∷ []) after))
        (All-snoc before t' a g) in
    (q', Reach-trans r r', a')

none_left : (ts : List Thread) → All IsGone ts → (sum_of counts ts ≡ 0) × (sum_of lasts ts ≡ 0)
none_left [] a = (refl, refl)
none_left (t ∷ ts) a =
    let (c, l) = none_left ts a.1 in
    let own = ap (λ (x : Phase). counts_in x) a.0 in
    let own_last = ap (λ (x : Phase). is_last x) a.0 in (omega arith, omega arith)

fired_at_zero :
    (remaining lasts : ℕ) (done : Bool)
    → lasts + bit done ≡ bit (remaining == 0)
    → remaining ≡ 0
    → lasts ≡ 0
    → done ≡ true
fired_at_zero remaining lasts done h r l = ground arith

-- Whatever the readers of a spawned pane have done so far, they can go on to a state in which every
-- one of them has ended, and in that state `reader_done` has been notified: it is never missed.
pub readers_end :
    (cmd : List Bytes) (tty starts : Bool) (log : Option Opens) (h : Hub) (p q : Pane)
    → spawn cmd tty starts log h ≡ some p
    → (p.shared).hub.next_offset ≤ u64_max
    → Reach p q
    → (r : Pane) × Reach q r × All IsGone r.threads × ((r.shared).reader_done ≡ true)
readers_end cmd tty starts log h p q e le reach =
    let (r, further, g) = run_out q.threads [] q refl tt in
    let v =
      Reach-Inv (p.shared).hub.next_offset (spawned-Inv cmd tty starts log h p e le)
        (Reach-trans reach further) in
    let (c, l) = none_left r.threads g in
    (
      r,
      further,
      g,
      fired_at_zero (r.shared).remaining (sum_of lasts r.threads) (r.shared).reader_done v.fired
          (v.counted ∙ c) l,
    )
