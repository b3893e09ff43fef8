-- ===== src/Pane/Readers.antt =====
-- src/pane.rs: the reader threads, whatever the order in which they run.
use babysit.Prelude.{
  ℕ, ◌+◌, ◌≤◌, min, ◌≡◌, refl, sym, subst, Bool, true, false, List, [], ◌∷◌, ◌++◌, some, Bytes,
  length, length-append, ◌==◌, arith, All, append-nil,
}
use babysit.Hub.{Hub, Io, u64_max, broadcast}
use babysit.Pane.{
  Phase, reading, leaving, last, gone, holding, Thread, Shared, Move, chunk, ended, next,
  advance_in, advance, Pane, Step, step, Reach, here, and_then,
}

abbrev pub sum_of : (Thread → ℕ) → List Thread → ℕ
sum_of f [] = 0
sum_of f (t ∷ ts) = f t + sum_of f ts

sum_of-append :
    (f : Thread → ℕ) (xs ys : List Thread) → sum_of f (xs ++ ys) ≡ sum_of f xs + sum_of f ys
sum_of-append f [] ys = omega arith
sum_of-append f (x ∷ xs) ys = omega (arith, sum_of-append f xs ys)

abbrev pub bit : Bool → ℕ
bit true = 1
bit false = 0

-- A thread that has not counted down, and the thread that has counted down last.
abbrev pub counts_in : Phase → ℕ
counts_in reading = 1
counts_in (holding bytes) = 1
counts_in leaving = 1
counts_in last = 0
counts_in gone = 0

abbrev pub is_last : Phase → ℕ
is_last last = 1
is_last reading = 0
is_last (holding bytes) = 0
is_last leaving = 0
is_last gone = 0

abbrev pub in_hand : Phase → Bytes
in_hand (holding bytes) = bytes
in_hand reading = []
in_hand leaving = []
in_hand last = []
in_hand gone = []

abbrev pub counts : Thread → ℕ
counts t = counts_in t.phase

abbrev pub lasts : Thread → ℕ
lasts t = is_last t.phase

abbrev pub got_length : Thread → ℕ
got_length t = length t.got

abbrev pub sent_length : Thread → ℕ
sent_length t = length t.sent

-- What a thread has read is what it has broadcast and what it has in hand.
abbrev pub Faithful : Thread → Type 0
Faithful t = t.got ≡ t.sent ++ in_hand t.phase

-- What a move changes.
record Moved (t : Thread) (s : Shared) (t' : Thread) (s' : Shared) : Type 0 where
  counted : counts t' + s.remaining ≡ counts t + s'.remaining
  fired :
      lasts t' + bit s'.reader_done + bit (s.remaining == 0)
      ≡ lasts t + bit s.reader_done + bit (s'.remaining == 0)
  faithful : Faithful t'
  offset :
      s'.hub.next_offset + sent_length t
      ≡ min (s.hub.next_offset + sent_length t') (u64_max + sent_length t)
  grows : sent_length t ≤ sent_length t'
  shown : length s'.screen + got_length t ≡ length s.screen + got_length t'

offset-broadcast :
    (io : Io) (bytes : Bytes) (h : Hub)
    → (broadcast io bytes h).next_offset ≡ min (h.next_offset + length bytes) u64_max
unfolding broadcast
offset-broadcast io bytes h = ground arith

Moved-advance_in :
    (p : Phase) (m : Move) (t t' : Thread) (s s' : Shared)
    → t.phase ≡ p
    → Faithful t
    → counts t ≤ s.remaining
    → lasts t + bit s.reader_done ≤ 1
    → s.hub.next_offset ≤ u64_max
    → advance_in p m t s ≡ some (t', s')
    → Moved t s t' s'
unfolding advance_in
Moved-advance_in reading (chunk []) t t' s s' h f c l b e = ground arith
Moved-advance_in reading (chunk (x ∷ bs)) t t' s s' h f c l b e =
    ground (arith, length-append t.got (x ∷ bs), length-append s.screen (x ∷ bs), append-nil t.sent)
Moved-advance_in reading ended t t' s s' h f c l b e = ground arith
Moved-advance_in (holding bytes) (next io) t t' s s' h f c l b e = ground (
  arith,
  offset-broadcast io bytes s.hub,
  length-append t.sent bytes,
  append-nil (t.sent ++ bytes),
)
Moved-advance_in leaving (next io) t t' s s' h f c l b e = ground arith
Moved-advance_in last (next io) t t' s s' h f c l b e = ground arith
Moved-advance_in p m t t' s s' h f c l b e = ground arith

-- The count is of the threads that have not counted down; the last of them fires `reader_done`, once;
-- and what the threads have broadcast and read is what the hub and the screen have got.
pub record Inv (start : ℕ) (p : Pane) : Type 0 where
  pub counted : (p.shared).remaining ≡ sum_of counts p.threads
  pub fired : sum_of lasts p.threads + bit (p.shared).reader_done ≡ bit ((p.shared).remaining == 0)
  pub faithful : All Faithful p.threads
  pub offset : (p.shared).hub.next_offset ≡ min (start + sum_of sent_length p.threads) u64_max
  pub shown : length (p.shared).screen ≡ sum_of got_length p.threads

All-middle :
    (before after : List Thread) (t : Thread)
    → All Faithful (before ++ t ∷ after)
    → All Faithful before × Faithful t × All Faithful after
All-middle [] after t a = (tt, a.0, a.1)
All-middle (x ∷ before) after t a =
    let (b, c, d) = All-middle before after t a.1 in ((a.0, b), c, d)

All-join :
    (before after : List Thread) (t : Thread)
    → All Faithful before
    → Faithful t
    → All Faithful after
    → All Faithful (before ++ t ∷ after)
All-join [] after t b f a = (f, a)
All-join (x ∷ before) after t b f a = (b.0, All-join before after t b.1 f a)

sum_of-middle :
    (f : Thread → ℕ) (ts before after : List Thread) (t : Thread)
    → ts ≡ before ++ t ∷ after
    → sum_of f ts ≡ sum_of f before + f t + sum_of f after
sum_of-middle f ts before after t e = rw e (omega (arith, sum_of-append f before (t ∷ after)))

bit_le_one : (b : Bool) → bit b ≤ 1
bit_le_one true = omega arith
bit_le_one false = omega arith

pub Step-Inv : {p q : Pane} (start : ℕ) → Step p q → Inv start p → Inv start q
unfolding advance
Step-Inv {p} {q} start (step before after t t' m e adv e') v =
    let s = p.shared in
    let s' = q.shared in
    let (fb, ft, fa) = All-middle before after t (subst (All Faithful) e v.faithful) in
    let m1 = sum_of-middle counts p.threads before after t e in
    let m2 = sum_of-middle lasts p.threads before after t e in
    let d =
      Moved-advance_in t.phase m t t' s s' refl ft (omega (arith, v.counted))
        (omega (arith, v.fired, bit_le_one (s.remaining == 0))) (omega (arith, v.offset)) adv in
    let n1 = sum_of-middle counts q.threads before after t' e' in
    let n2 = sum_of-middle lasts q.threads before after t' e' in
    record {
      counted = omega (arith, v.counted, d.counted);
      fired = omega (arith, v.fired, d.fired);
      faithful = subst (All Faithful) (sym e') (All-join before after t' fb d.faithful fa);
      offset = omega (
        arith,
        v.offset,
        d.offset,
        d.grows,
        sum_of-middle sent_length p.threads before after t e,
        sum_of-middle sent_length q.threads before after t' e',
      );
      shown = omega (
        arith,
        v.shown,
        d.shown,
        sum_of-middle got_length p.threads before after t e,
        sum_of-middle got_length q.threads before after t' e',
      );
    }

pub Reach-Inv : {p q : Pane} (start : ℕ) → Inv start p → Reach p q → Inv start q
Reach-Inv start v here = v
Reach-Inv start v (and_then r st) = Step-Inv start st (Reach-Inv start v r)
