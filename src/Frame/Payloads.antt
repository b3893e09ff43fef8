-- ===== src/Frame/Payloads.antt =====
-- The payloads: exit codes, window sizes and offsets.
use babysit.Prelude.{ℕ, ◌+◌, ◌/◌, ◌%◌, ◌^◌, ◌<◌, ◌≡◌, refl, Bytes, length, drop, arith, Option}
use babysit.Frame.{
  ExitInfo, reported_code, exit_payload, parse_exit, resize_payload, client_frame, resize, c_resize,
  from_be64, offset_payload,
}
use babysit.Frame.RoundTrip.{from_be32-be32}

-- The client's exit code is the one that the worker reports: the child's own code, 130 for a
-- signal, 0 for neither.
pub parse_exit-exit_payload :
    (info : Option ExitInfo)
    → reported_code info < 2 ^ 32
    → parse_exit (exit_payload info) ≡ reported_code info
unfolding parse_exit exit_payload
parse_exit-exit_payload info h = from_be32-be32 (reported_code info) h

-- A window size reaches the worker as the client sent it.
pub client_frame-resize_payload :
    (cols rows : ℕ)
    → cols < 2 ^ 16
    → rows < 2 ^ 16
    → client_frame c_resize (resize_payload cols rows) ≡ resize cols rows
unfolding client_frame resize_payload
client_frame-resize_payload cols rows hc hr = ground arith

-- An offset frame carries the offset and the bytes.
pub offset_payload_lem :
    (offset : ℕ) (bytes : Bytes)
    → offset < 2 ^ 64
    → (from_be64 (offset_payload offset bytes) ≡ offset)
      × (drop 8 (offset_payload offset bytes) ≡ bytes)
      × (length (offset_payload offset bytes) ≡ 8 + length bytes)
unfolding from_be64 offset_payload
offset_payload_lem offset bytes h = (
  omega (
    arith,
    from_be32-be32 (offset / 2 ^ 32) (omega arith),
    from_be32-be32 (offset % 2 ^ 32) (omega arith),
  ),
  refl,
  omega arith,
)
