-- ===== src/Hub/Offsets.antt =====
-- The bounds and offsets of the backlog, and how log, backlog and sidecar rows fit together.
use babysit.Prelude.{
  ℕ, ◌+◌, ◌-◌, ◌≤◌, ◌≡◌, refl, sym, ap, ◌∙◌, true, List, [], ◌∷◌, ◌++◌, Bytes, length, drop,
  length-append, length-drop, drop-append, drop-drop, arith,
}
use babysit.Hub.{Hub, Io, Row, whole, backlog_cap, u64_max, broadcast}

-- The backlog is bounded and its end is the hub's next offset.
pub record Inv (h : Hub) : Type 0 where
  pub bounded : length h.backlog ≤ backlog_cap
  pub aligned : h.backlog_start + length h.backlog ≡ h.next_offset

-- Rows in order and without overlap, within `[lo, hi)`.
abbrev pub Tiles : ℕ → List Row → ℕ → Type 0
Tiles lo [] hi = lo ≤ hi
Tiles lo (r ∷ rs) hi = (lo ≤ r.start) × Tiles (r.start + r.size) rs hi

-- While the log is open it holds every byte up to the next offset, and the backlog is its end.
pub record LogInv (h : Hub) : Type 0 where
  pub whole_log : length h.log_file ≡ h.next_offset
  pub suffix : drop h.backlog_start h.log_file ≡ h.backlog
  pub tiled : Tiles 0 h.rows h.next_offset

Tiles-mono : (lo : ℕ) (rs : List Row) {hi hi' : ℕ} → hi ≤ hi' → Tiles lo rs hi → Tiles lo rs hi'
Tiles-mono lo [] le t = omega arith
Tiles-mono lo (r ∷ rs) le t = (t.0, Tiles-mono (r.start + r.size) rs le t.1)

Tiles-append :
    (lo : ℕ) (rs : List Row) (r : Row) {hi hi' : ℕ}
    → Tiles lo rs hi
    → hi ≤ r.start
    → r.start + r.size ≤ hi'
    → Tiles lo (rs ++ r ∷ []) hi'
Tiles-append lo [] r t a b = (omega arith, b)
Tiles-append lo (x ∷ rs) r t a b = (t.0, Tiles-append (x.start + x.size) rs r t.1 a b)

-- What a broadcast does to the parts of the hub.
pub next_offset-broadcast :
    (io : Io) (chunk : Bytes) (h : Hub)
    → h.next_offset + length chunk ≤ u64_max
    → (broadcast io chunk h).next_offset ≡ h.next_offset + length chunk
unfolding broadcast
next_offset-broadcast io chunk h fits = ground arith

-- If the offset stays within 64 bits, a broadcast keeps the backlog within its bound and ending at
-- the next offset, whatever becomes of the log.
pub broadcast-Inv :
    (io : Io) (chunk : Bytes) (h : Hub)
    → h.next_offset + length chunk ≤ u64_max
    → Inv h
    → Inv (broadcast io chunk h)
unfolding broadcast
broadcast-Inv io chunk h fits v = ground (
  arith,
  length-append h.backlog chunk,
  length-drop (length (h.backlog ++ chunk) - backlog_cap) (h.backlog ++ chunk),
)

-- Every byte of a chunk list, in order.
abbrev pub bytes_of : List (Io × Bytes) → Bytes
bytes_of [] = []
bytes_of ((io, chunk) ∷ rest) = chunk ++ bytes_of rest

-- Every write to the log succeeds.
abbrev pub Writes : List (Io × Bytes) → Type 0
Writes [] = Unit {0}
Writes ((io, chunk) ∷ rest) = (io.log_write ≡ whole) × Writes rest

pub log-broadcast :
    (io : Io) (chunk : Bytes) (h : Hub)
    → h.log ≡ true
    → io.log_write ≡ whole
    → ((broadcast io chunk h).log ≡ true) × ((broadcast io chunk h).log_file ≡ h.log_file ++ chunk)
unfolding broadcast
log-broadcast io chunk h opened w = ground arith

backlog_suffix :
    (log backlog chunk : Bytes) (start over : ℕ)
    → start ≤ length log
    → drop start log ≡ backlog
    → over ≤ length (backlog ++ chunk)
    → drop (start + over) (log ++ chunk) ≡ drop over (backlog ++ chunk)
backlog_suffix log backlog chunk start over le e le' =
    sym (drop-drop (start + over) start over (log ++ chunk) refl)
    ∙ ap (drop over) (drop-append start log chunk le ∙ ap (λ b. b ++ chunk) e)

tiled-broadcast :
    (io : Io) (chunk : Bytes) (h : Hub)
    → h.next_offset + length chunk ≤ u64_max
    → Tiles 0 h.rows h.next_offset
    → Tiles 0 (broadcast io chunk h).rows (h.next_offset + length chunk)
unfolding broadcast
tiled-broadcast io chunk h fits t = ground (
  arith,
  Tiles-mono 0 h.rows {hi = h.next_offset} {hi' = h.next_offset + length chunk},
  Tiles-append 0 h.rows (record { start = h.next_offset; size = length chunk; time = io.now })
      {hi = h.next_offset} {hi' = h.next_offset + length chunk},
)

suffix-broadcast :
    (io : Io) (chunk : Bytes) (h : Hub)
    → h.next_offset + length chunk ≤ u64_max
    → Inv h
    → LogInv h
    → drop (broadcast io chunk h).backlog_start (h.log_file ++ chunk)
      ≡ (broadcast io chunk h).backlog
unfolding broadcast
suffix-broadcast io chunk h fits v l =
    let over = length (h.backlog ++ chunk) - backlog_cap in
    ground (
      arith,
      length-append h.backlog chunk,
      backlog_suffix h.log_file h.backlog chunk h.backlog_start 0,
      backlog_suffix h.log_file h.backlog chunk h.backlog_start over,
    )

-- Let the log be open, the write of the chunk succeed and the offset stay within 64 bits, and let
-- backlog and log be in order. Then after the broadcast the log holds every byte up to the next
-- offset, the backlog is its end, and the sidecar rows lie within it, in order and without overlap.
pub broadcast-LogInv :
    (io : Io) (chunk : Bytes) (h : Hub)
    → h.log ≡ true
    → io.log_write ≡ whole
    → h.next_offset + length chunk ≤ u64_max
    → Inv h
    → LogInv h
    → LogInv (broadcast io chunk h)
broadcast-LogInv io chunk h opened w fits v l = record {
  whole_log =
      rw (file, next_offset-broadcast io chunk h fits)
        (omega (arith, length-append h.log_file chunk, l.whole_log));
  suffix = rw file (suffix-broadcast io chunk h fits v l);
  tiled = rw (next_offset-broadcast io chunk h fits) (tiled-broadcast io chunk h fits l.tiled);
}
  where
    file : (broadcast io chunk h).log_file ≡ h.log_file ++ chunk
    file = (log-broadcast io chunk h opened w).1
