-- ===== src/Hub/Reopen.antt =====
-- Opening the log: the first time, and again after a write to it has failed.
use babysit.Prelude.{
  ℕ, ◌+◌, ◌<◌, ◌≡◌, ◌≢◌, true, false, [], none, some, length, drop_all, arith, ◌⊎◌,
}
use babysit.Hub.{Hub, Opens, OutputChunk, Subscription, configure_log, subscribe_resumable, ok}
use babysit.Hub.Offsets.{Inv, LogInv, Tiles}

-- Let the hub have no open log and an empty backlog, and let the rows on disk lie within the log,
-- in order, or the log be empty and the sidecar can be opened. If the log is configured the hub
-- continues it: the log is open and unchanged, the offsets start at its end, and backlog, log and
-- rows are in order.
pub configure_log-LogInv :
    (o : Opens) (h h' : Hub)
    → h.log ≡ false
    → h.backlog ≡ []
    → ((h.log_file ≡ []) × (o.timestamps_open ≡ true)) ⊎ Tiles 0 h.rows (length h.log_file)
    → configure_log o h ≡ some h'
    → Inv h'
      × LogInv h'
      × (h'.log ≡ true)
      × (h'.log_error ≡ none)
      × (h'.log_file ≡ h.log_file)
      × (h'.next_offset ≡ length h.log_file)
unfolding configure_log
configure_log-LogInv o h h' closed empty rows e =
    ground (arith, drop_all (length h.log_file) h.log_file)

-- If a hub whose log is closed and whose backlog is not empty has its log configured again, as on a
-- restart after a failed write, then a client that subscribes without an offset is handed a backlog
-- chunk that ends beyond the offset at which live output goes on, by the whole length of the
-- backlog.
pub reopen_misaligns :
    (o : Opens) (h h' h'' : Hub) (sub : Subscription) (channel : ℕ)
    → h.log ≡ false
    → h.backlog ≢ []
    → configure_log o h ≡ some h'
    → subscribe_resumable none channel h' ≡ ok h'' sub
    → (c : OutputChunk) × (sub.backlog_chunk ≡ some c)
      × (c.offset + length c.bytes ≡ sub.snapshot_end + length h.backlog)
      × (sub.snapshot_end < c.offset + length c.bytes)
unfolding configure_log subscribe_resumable
reopen_misaligns o h h' h'' sub channel closed ne e s = (
  record { offset = length h.log_file; bytes = h.backlog },
  ground arith,
  ground arith,
  ground arith,
)
