-- ===== src/Hub/Subscribe.antt =====
-- What a subscriber receives: the end of the log, each byte once.
use babysit.Prelude.{
  ℕ, ◌+◌, ◌-◌, ◌≤◌, ◌≡◌, refl, sym, ap, ◌∙◌, true, List, [], ◌∷◌, ◌++◌, Memᴰ, none, some, Bytes,
  length, take, drop, concat, arith, is_empty, if◌then◌else◌, drop-append, length-drop,
  take-length_append, ◌↔◌,
}
use babysit.Hub.{
  Hub, Io, Sender, OutputChunk, Subscription, ok, u64_max, broadcast_all, subscribe,
  subscribe_resumable,
}
use babysit.Hub.Offsets.{Inv, LogInv, bytes_of, Writes}
use babysit.Hub.Streams.{
  chunk_list, offset_chunks, Contiguous, payload, offset_chunks-Contiguous, payload-offset_chunks,
  next_offset-broadcast_all, clients-broadcast_all, resume_clients-broadcast_all,
  broadcast_all-LogInv,
}

last_mem : {A : Type 0} (xs : List A) (a : A) → Memᴰ a (xs ++ a ∷ [])
last_mem [] a = Memᴰ.head refl
last_mem (x ∷ xs) a = Memᴰ.tail (last_mem xs a)

-- A client that asked for everything from `off` on: the range up to `snapshot` is read from the
-- log, and the queue brings the rest with its offsets.
pub record Resumed (end : Hub) (channel off snapshot : ℕ) : Type 0 where
  pub queue : List OutputChunk
  pub attached : Memᴰ (record { channel = channel; alive = true; queue = queue }) end.resume_clients
  pub gapless : Contiguous snapshot queue end.next_offset
  pub exact : take (snapshot - off) (drop off end.log_file) ++ payload queue ≡ drop off end.log_file

slice-append :
    (file bs : Bytes) (n off : ℕ)
    → length file ≡ n
    → off ≤ n
    → take (n - off) (drop off (file ++ bs)) ++ bs ≡ drop off (file ++ bs)
slice-append file bs n off e le =
    let len : n - off ≡ length (drop off file) = omega (arith, length-drop off file) in
    rw (drop-append off file bs (omega arith), len)
      (ap (λ t. t ++ bs) (take-length_append (drop off file) bs))

-- Let the log be open and not have failed, with backlog and log in order. Resuming at an offset
-- that the output has reached succeeds, without a backlog chunk. After chunks whose writes all
-- succeed, within 64-bit offsets, the queue of the subscription holds chunks that follow one
-- another from the end of the snapshot to the next offset, and the range of the log up to the end
-- of the snapshot, followed by the queue, is the log from the requested offset on.
pub resume_delivers :
    (h : Hub) (off channel : ℕ) (cs : List (Io × Bytes))
    → h.log ≡ true
    → h.log_error ≡ none
    → off ≤ h.next_offset
    → Writes cs
    → h.next_offset + length (bytes_of cs) ≤ u64_max
    → Inv h
    → LogInv h
    → (h' : Hub) × (sub : Subscription) × (subscribe_resumable (some off) channel h ≡ ok h' sub)
      × (sub.backlog_chunk ≡ none)
      × (sub.snapshot_end ≡ h.next_offset)
      × ((broadcast_all cs h').log_file ≡ h.log_file ++ bytes_of cs)
      × ((broadcast_all cs h').next_offset ≡ h.next_offset + length (bytes_of cs))
      × Resumed (broadcast_all cs h') channel off sub.snapshot_end
unfolding subscribe_resumable
resume_delivers h off channel cs o e le w fits v l = (
  h',
  sub,
  ground arith,
  refl,
  refl,
  file,
  next_offset-broadcast_all cs h' fits,
  record {
    queue = offset_chunks h.next_offset cs;
    attached = resume_clients-broadcast_all cs h' refl fits (last_mem h.resume_clients sender);
    gapless = rw (next_offset-broadcast_all cs h' fits) (offset_chunks-Contiguous h.next_offset cs);
    exact =
        rw (file, payload-offset_chunks h.next_offset cs)
          (slice-append h.log_file (bytes_of cs) h.next_offset off l.whole_log le);
  },
)
  where
    sender : Sender OutputChunk
    sender = record { channel = channel; alive = true; queue = [] }

    h' : Hub
    h' = record h { resume_clients = h.resume_clients ++ sender ∷ [] }

    sub : Subscription
    sub = record { output = channel; snapshot_end = h.next_offset; backlog_chunk = none }

    file : (broadcast_all cs h').log_file ≡ h.log_file ++ bytes_of cs
    file =
        (broadcast_all-LogInv cs h' w o fits (record { bounded = v.bounded; aligned = v.aligned })
          (record { whole_log = l.whole_log; suffix = l.suffix; tiled = l.tiled })).0

-- A request to resume at an offset is granted exactly if the log has not failed and the offset does
-- not lie beyond the output.
pub resume_refused_iff :
    (h : Hub) (off channel : ℕ)
    → ((h' : Hub) × (sub : Subscription) × (subscribe_resumable (some off) channel h ≡ ok h' sub))
      ↔ ((h.log_error ≡ none) × (off ≤ h.next_offset))
unfolding subscribe_resumable
resume_refused_iff h off channel = (there, back)
  where
    there :
        ((h' : Hub) × (sub : Subscription) × (subscribe_resumable (some off) channel h ≡ ok h' sub))
        → (h.log_error ≡ none) × (off ≤ h.next_offset)
    there (h', sub, e) = ground arith

    back :
        (h.log_error ≡ none) × (off ≤ h.next_offset)
        → (h' : Hub) × (sub : Subscription) × (subscribe_resumable (some off) channel h ≡ ok h' sub)
    back (e, le) = (
      record h {
        resume_clients =
            h.resume_clients ++ record { channel = channel; alive = true; queue = [] } ∷ [];
      },
      record { output = channel; snapshot_end = h.next_offset; backlog_chunk = none },
      ground arith,
    )

concat-chunk_list : (cs : List (Io × Bytes)) → concat (chunk_list cs) ≡ bytes_of cs
concat-chunk_list [] = refl
concat-chunk_list ((io, chunk) ∷ rest) = ap (◌++◌ chunk) (concat-chunk_list rest)

snapshot : Bytes → List Bytes
snapshot b = if is_empty b then [] else b ∷ []

concat-snapshot : (b : Bytes) (xs : List Bytes) → concat (snapshot b ++ xs) ≡ b ++ concat xs
unfolding snapshot
concat-snapshot [] xs = refl
concat-snapshot (x ∷ b) xs = refl

-- Let the log be open, with backlog and log in order. A legacy client subscribes, and chunks are
-- broadcast whose writes all succeed, within 64-bit offsets: the pieces in its queue, put together,
-- are the log from the start of the backlog on.
pub subscribe_delivers :
    (h : Hub) (channel : ℕ) (cs : List (Io × Bytes))
    → h.log ≡ true
    → Writes cs
    → h.next_offset + length (bytes_of cs) ≤ u64_max
    → Inv h
    → LogInv h
    → let end = broadcast_all cs (subscribe channel h) in
      (queue : List Bytes) × Memᴰ
        (record { channel = channel; alive = true; queue = queue })
        end.clients
      × (concat queue ≡ drop h.backlog_start end.log_file)
unfolding subscribe snapshot
subscribe_delivers h channel cs o w fits v l = (
  snapshot h.backlog ++ chunk_list cs,
  clients-broadcast_all cs (subscribe channel h) {s = sender} refl (last_mem h.clients sender),
  concat-snapshot h.backlog (chunk_list cs)
      ∙ ap (◌++◌ h.backlog) (concat-chunk_list cs)
      ∙ sym (
          rw file (
            drop-append h.backlog_start h.log_file (bytes_of cs)
              (omega (arith, l.whole_log, v.aligned))
            ∙ ap (λ b. b ++ bytes_of cs) l.suffix)),
)
  where
    sender : Sender Bytes
    sender = record { channel = channel; alive = true; queue = snapshot h.backlog }

    file : (broadcast_all cs (subscribe channel h)).log_file ≡ h.log_file ++ bytes_of cs
    file =
        (broadcast_all-LogInv cs (subscribe channel h) w o fits
          (record { bounded = v.bounded; aligned = v.aligned })
          (record { whole_log = l.whole_log; suffix = l.suffix; tiled = l.tiled })).0
