-- ===== src/Frame.antt =====
-- src/attach.rs: the framed wire protocol of an attached connection.
pub mod RoundTrip
pub mod Payloads
use babysit.Prelude.{
  ℕ, ◌+◌, ◌*◌, ◌/◌, ◌%◌, ◌^◌, Bool, true, false, List, [], ◌∷◌, ◌++◌, Option, none, some, Bytes,
  length, take, drop, ltb, ◌==◌, if◌then◌else◌,
}

-- Server to client.
abbrev pub s_output : ℕ
s_output = 1

abbrev pub s_exit : ℕ
s_exit = 2

abbrev pub s_detached : ℕ
s_detached = 3

abbrev pub s_output_offset : ℕ
s_output_offset = 4

abbrev pub s_ready : ℕ
s_ready = 5

abbrev pub s_error : ℕ
s_error = 6

-- Client to server.
abbrev pub c_input : ℕ
c_input = 1

abbrev pub c_resize : ℕ
c_resize = 2

-- `to_be_bytes` of a u16, a u32 and a u64.
abbrev pub be16 : ℕ → Bytes
be16 n = n / 256 % 256 ∷ n % 256 ∷ []

abbrev pub be32 : ℕ → Bytes
be32 n = n / 16777216 % 256 ∷ n / 65536 % 256 ∷ n / 256 % 256 ∷ n % 256 ∷ []

abbrev pub be64 : ℕ → Bytes
be64 n = be32 (n / 2 ^ 32) ++ be32 (n % 2 ^ 32)

-- `u16::from_be_bytes`, `u32::from_be_bytes`
abbrev pub from_be16 : ℕ → ℕ → ℕ
from_be16 a b = a * 256 + b

abbrev pub from_be32 : ℕ → ℕ → ℕ → ℕ → ℕ
from_be32 a b c d = a * 16777216 + b * 65536 + c * 256 + d

-- `u64::from_be_bytes` of the first eight bytes; it is called on payloads of at least that length.
unfoldable pub from_be64 : Bytes → ℕ
from_be64 (a ∷ b ∷ c ∷ d ∷ e ∷ f ∷ g ∷ h ∷ _) = from_be32 a b c d * 2 ^ 32 + from_be32 e f g h
from_be64 _ = 0

-- The bytes that `write_frame` writes; the length is cast to a u32.
unfoldable pub write_frame : ℕ → Bytes → Bytes
write_frame tag payload = (tag ∷ be32 (length payload % 2 ^ 32)) ++ payload

-- What stands behind the bytes that can still be read.
pub data End : Type 0 where
  closed : End
  broken : End

-- `Ok(None)`, `Ok(Some(_))` with the bytes left over, or an I/O error.
pub data Frame : Type 0 where
  eof : Frame
  frame : ℕ → Bytes → Bytes → Frame
  failed : Frame

read_payload : ℕ → ℕ → Bytes → Frame
read_payload tag len bytes =
    if ltb (length bytes) len then failed else frame tag (take len bytes) (drop len bytes)

-- The header could not be read in full.
short_header : End → Frame
short_header closed = eof
short_header broken = failed

-- `read_frame`
unfoldable pub read_frame : Bytes → End → Frame
unfolding read_payload short_header
read_frame (tag ∷ a ∷ b ∷ c ∷ d ∷ bytes) end = read_payload tag (from_be32 a b c d) bytes
read_frame _ end = short_header end

-- A way for the child to end. An `i32` is its bit pattern, below 2 ^ 32.
pub record ExitInfo : Type 0 where
  pub code : Option ℕ
  pub signaled : Bool

abbrev pub code_or : Option ℕ → ℕ → ℕ
code_or none d = d
code_or (some c) d = c

-- The exit code that `exit_payload` reports.
unfoldable pub reported_code : Option ExitInfo → ℕ
reported_code none = 130
reported_code (some i) = code_or i.code (if i.signaled then 130 else 0)

reported_signal : Option ExitInfo → Bool
reported_signal none = true
reported_signal (some i) = i.signaled

-- `exit_payload`
unfoldable pub exit_payload : Option ExitInfo → Bytes
unfolding reported_signal
exit_payload info = (if reported_signal info then 1 else 0) ∷ be32 (reported_code info)

-- `parse_exit`
unfoldable pub parse_exit : Bytes → ℕ
parse_exit (_ ∷ a ∷ b ∷ c ∷ d ∷ []) = from_be32 a b c d
parse_exit _ = 0

-- `resize_payload`
unfoldable pub resize_payload : ℕ → ℕ → Bytes
resize_payload cols rows = be16 cols ++ be16 rows

-- What the worker does with a client's frame.
pub data ClientFrame : Type 0 where
  input : Bytes → ClientFrame
  resize : ℕ → ℕ → ClientFrame
  ignored : ClientFrame

resize_frame : Bytes → ClientFrame
resize_frame (a ∷ b ∷ c ∷ d ∷ []) = resize (from_be16 a b) (from_be16 c d)
resize_frame _ = ignored

-- The `match` of the reader task in `handle_attach`.
unfoldable pub client_frame : ℕ → Bytes → ClientFrame
unfolding resize_frame
client_frame tag payload =
    if tag == c_input
    then input payload
    else if tag == c_resize
    then resize_frame payload
    else ignored

-- An `S_OUTPUT_OFFSET` payload.
unfoldable pub offset_payload : ℕ → Bytes → Bytes
offset_payload offset bytes = be64 offset ++ bytes
