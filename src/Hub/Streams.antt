-- ===== src/Hub/Streams.antt =====
-- What an attached channel holds after any number of broadcasts.
use babysit.Prelude.{
  ℕ, ◌+◌, ◌≤◌, ◌≡◌, refl, sym, ap, ◌∙◌, true, List, [], ◌∷◌, ◌++◌, Memᴰ, Bytes, length, append-nil,
  append_assoc, length-append, subst, arith, Bool, false, if◌then◌else◌,
}
use babysit.Hub.{Hub, Io, Sender, OutputChunk, u64_max, send_all, broadcast, broadcast_all}
use babysit.Hub.Offsets.{
  Inv, LogInv, bytes_of, Writes, next_offset-broadcast, broadcast-Inv, log-broadcast,
  broadcast-LogInv,
}

abbrev pub chunk_list : List (Io × Bytes) → List Bytes
chunk_list [] = []
chunk_list ((io, chunk) ∷ rest) = chunk ∷ chunk_list rest

-- The chunks with their absolute offsets, from offset `at` on.
abbrev pub offset_chunks : ℕ → List (Io × Bytes) → List OutputChunk
offset_chunks at [] = []
offset_chunks at ((io, chunk) ∷ rest) =
    record { offset = at; bytes = chunk } ∷ offset_chunks (at + length chunk) rest

-- Chunks that follow one another from offset `a` to offset `b`, with no gap and no overlap.
abbrev pub Contiguous : ℕ → List OutputChunk → ℕ → Type 0
Contiguous a [] b = a ≡ b
Contiguous a (c ∷ cs) b = (c.offset ≡ a) × Contiguous (a + length c.bytes) cs b

abbrev pub payload : List OutputChunk → Bytes
payload [] = []
payload (c ∷ cs) = c.bytes ++ payload cs

pub offset_chunks-Contiguous :
    (at : ℕ) (cs : List (Io × Bytes))
    → Contiguous at (offset_chunks at cs) (at + length (bytes_of cs))
offset_chunks-Contiguous at [] = omega arith
offset_chunks-Contiguous at ((io, chunk) ∷ rest) = (
  refl,
  subst (Contiguous (at + length chunk) (offset_chunks (at + length chunk) rest))
      (omega (arith, length-append chunk (bytes_of rest)))
      (offset_chunks-Contiguous (at + length chunk) rest),
)

pub payload-offset_chunks :
    (at : ℕ) (cs : List (Io × Bytes)) → payload (offset_chunks at cs) ≡ bytes_of cs
payload-offset_chunks at [] = refl
payload-offset_chunks at ((io, chunk) ∷ rest) =
    ap (◌++◌ chunk) (payload-offset_chunks (at + length chunk) rest)

module _ {A : Type 0} (x : A) where
  abbrev sent : Sender A → Sender A
  sent s = record s { queue = s.queue ++ x ∷ [] }

  abbrev kept : Bool → Sender A → List (Sender A) → List (Sender A)
  kept b s rest = if b then sent s ∷ rest else rest

  kept_mem :
      (b : Bool) (t : Sender A) {s : Sender A} (rest : List (Sender A))
      → Memᴰ s rest
      → Memᴰ s (kept b t rest)
  kept_mem true t rest m = Memᴰ.tail m
  kept_mem false t rest m = m

  -- A sender whose receiver is alive is kept, with the value at the end of its queue.
  pub send_all-mem :
      {s : Sender A} {ss : List (Sender A)}
      → s.alive ≡ true
      → Memᴰ s ss
      → Memᴰ (sent s) (send_all x ss)
  unfolding send_all
  send_all-mem {s} a (Memᴰ.head {x = t} {xs = ts} e) =
      subst (λ b. Memᴰ (sent s) (kept b t (send_all x ts))) (sym (ap (λ u. u.alive) (sym e) ∙ a))
        (Memᴰ.head (ap sent e))
  send_all-mem {s} a (Memᴰ.tail {x = t} {xs = ts} m) =
      kept_mem t.alive t (send_all x ts) (send_all-mem a m)

pub clients-broadcast :
    (io : Io) (chunk : Bytes) (h : Hub) → (broadcast io chunk h).clients ≡ send_all chunk h.clients
unfolding broadcast
clients-broadcast io chunk h = ground arith

pub resume_clients-broadcast :
    (io : Io) (chunk : Bytes) (h : Hub)
    → (broadcast io chunk h).resume_clients
      ≡ send_all (record { offset = h.next_offset; bytes = chunk }) h.resume_clients
unfolding broadcast
resume_clients-broadcast io chunk h = ground arith

pub clients-broadcast_all :
    (cs : List (Io × Bytes)) (h : Hub) {s : Sender Bytes}
    → s.alive ≡ true
    → Memᴰ s h.clients
    → Memᴰ (record s { queue = s.queue ++ chunk_list cs }) (broadcast_all cs h).clients
unfolding broadcast_all
clients-broadcast_all [] h a m = rw append-nil m
clients-broadcast_all ((io, chunk) ∷ rest) h {s} a m =
    subst (λ q. Memᴰ (record s { queue = q }) (broadcast_all rest (broadcast io chunk h)).clients)
      (append_assoc s.queue (chunk ∷ []) (chunk_list rest))
      (clients-broadcast_all rest (broadcast io chunk h) {s = sent chunk s} a
        (rw (clients-broadcast io chunk h) (send_all-mem chunk a m)))

pub next_offset-broadcast_all :
    (cs : List (Io × Bytes)) (h : Hub)
    → h.next_offset + length (bytes_of cs) ≤ u64_max
    → (broadcast_all cs h).next_offset ≡ h.next_offset + length (bytes_of cs)
unfolding broadcast_all
next_offset-broadcast_all [] h fits = omega arith
next_offset-broadcast_all ((io, chunk) ∷ rest) h fits = omega (
  arith,
  length-append chunk (bytes_of rest),
  next_offset-broadcast io chunk h,
  next_offset-broadcast_all rest (broadcast io chunk h),
)

pub resume_clients-broadcast_all :
    (cs : List (Io × Bytes)) (h : Hub) {s : Sender OutputChunk}
    → s.alive ≡ true
    → h.next_offset + length (bytes_of cs) ≤ u64_max
    → Memᴰ s h.resume_clients
    → Memᴰ
        (record s { queue = s.queue ++ offset_chunks h.next_offset cs })
        (broadcast_all cs h).resume_clients
unfolding broadcast_all
resume_clients-broadcast_all [] h a fits m = rw append-nil m
resume_clients-broadcast_all ((io, chunk) ∷ rest) h {s} a fits m =
    let next =
      next_offset-broadcast io chunk h (omega (arith, length-append chunk (bytes_of rest))) in
    let here : OutputChunk = record { offset = h.next_offset; bytes = chunk } in
    let ih =
      resume_clients-broadcast_all rest (broadcast io chunk h) {s = sent here s} a
        (omega (arith, length-append chunk (bytes_of rest), next))
        (rw (resume_clients-broadcast io chunk h) (send_all-mem here a m)) in
    subst
      (λ q.
        Memᴰ (record s { queue = q }) (broadcast_all rest (broadcast io chunk h)).resume_clients)
      (append_assoc s.queue (here ∷ []) _ ∙ ap (λ n. s.queue ++ here ∷ offset_chunks n rest) next)
      ih

-- While every write succeeds the log stays open and grows by the chunks, and the hub's
-- invariants hold on.
pub broadcast_all-LogInv :
    (cs : List (Io × Bytes)) (h : Hub)
    → Writes cs
    → h.log ≡ true
    → h.next_offset + length (bytes_of cs) ≤ u64_max
    → Inv h
    → LogInv h
    → ((broadcast_all cs h).log_file ≡ h.log_file ++ bytes_of cs)
      × ((broadcast_all cs h).log ≡ true)
      × Inv (broadcast_all cs h)
      × LogInv (broadcast_all cs h)
unfolding broadcast_all
broadcast_all-LogInv [] h w o fits v l = (rw append-nil, o, v, l)
broadcast_all-LogInv ((io, chunk) ∷ rest) h w o fits v l =
    let len = length-append chunk (bytes_of rest) in
    let fits' : h.next_offset + length chunk ≤ u64_max = omega arith in
    let next = next_offset-broadcast io chunk h fits' in
    let (opened, file) = log-broadcast io chunk h o w.0 in
    let (file', log', v', l') =
      broadcast_all-LogInv rest (broadcast io chunk h) w.1 opened (omega arith)
        (broadcast-Inv io chunk h fits' v) (broadcast-LogInv io chunk h o w.0 fits' v l) in
    (file' ∙ rw file (append_assoc h.log_file chunk (bytes_of rest)), log', v', l')
