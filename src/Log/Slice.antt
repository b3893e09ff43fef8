-- ===== src/Log/Slice.antt =====
-- src/sub.rs: reading the raw log from an offset, with incomplete endings held back.
pub mod Safe
pub mod Sequences
pub mod Held
pub mod Poll
pub mod Splits
use babysit.Prelude.{
  ℕ, suc, ◌+◌, Bool, true, false, not, ◌&&◌, ◌||◌, List, [], ◌∷◌, Option, none, some, Bytes, length,
  take, drop, any, leb, ltb, ◌==◌, if◌then◌else◌,
}
use babysit.Log.Utf8.{Checked, valid, invalid, from_utf8, from_utf8_lossy}

abbrev pub esc : ℕ
esc = 0x1b

-- `tail.windows(2).any(|w| w == [0x1b, b'\\'])`
unfoldable pub has_terminator : Bytes → Bool
has_terminator [] = false
has_terminator (a ∷ []) = false
has_terminator (a ∷ b ∷ rest) = (a == esc && b == b'\\') || has_terminator (b ∷ rest)

abbrev is_final : ℕ → Bool
is_final b = leb 0x40 b && leb b 0x7e

-- `escape_complete`, on a tail that starts with an escape.
unfoldable pub escape_complete : Bytes → Bool
unfolding has_terminator
escape_complete [] = false
escape_complete (e ∷ []) = false
escape_complete (e ∷ c ∷ rest) =
    if c == b'['
    then any is_final rest
    else if c == b']'
    then any (λ b. b == 0x07) rest || has_terminator (e ∷ c ∷ rest)
    else if c == b'O'
    then leb 3 (length (e ∷ c ∷ rest))
    else true

-- `bytes.iter().rposition(|&b| b == 0x1b)`
unfoldable pub last_esc : Bytes → Option ℕ
last_esc [] = none
last_esc (b ∷ bs) = elim (last_esc bs) [
  | none ↦ if b == esc then some 0 else none
  | some i ↦ some (suc i)
]

-- Where the output ends if an unterminated escape is held back.
unfoldable pub escape_cut : Bytes → ℕ
unfolding last_esc escape_complete
escape_cut bytes = elim (last_esc bytes) [
  | none ↦ length bytes
  | some i ↦ if not (escape_complete (drop i bytes)) then i else length bytes
]

abbrev pub utf8_cut : Checked → ℕ → ℕ
utf8_cut (invalid pos none) end = pos
utf8_cut _ end = end

-- `safe_prefix_len`
unfoldable pub safe_prefix_len : Bytes → ℕ
safe_prefix_len bytes = let end = escape_cut bytes in utf8_cut (from_utf8 (take end bytes)) end

-- Opening the log: it may be missing, or fail to be read.
pub data LogFile : Type 0 where
  missing unreadable : LogFile
  contents : Bytes → LogFile

pub data Slice : Type 0 where
  slice : Bytes → ℕ → Slice
  failed : Slice

read_contents : (Bytes → Bytes) → Bytes → ℕ → Bool → Slice
read_contents strip file off raw =
    if leb (length file) off
    then slice [] (length file)
    else (let bytes = drop off file in
        let safe = safe_prefix_len bytes in
        let chunk = take safe bytes in
        slice (from_utf8_lossy (if raw then chunk else strip chunk)) (off + safe))

-- `read_slice`; `strip` is the `strip` of the crate `strip_ansi_escapes`.
unfoldable pub read_slice : (Bytes → Bytes) → LogFile → ℕ → Bool → Slice
unfolding read_contents
read_slice strip missing off raw = slice [] off
read_slice strip unreadable off raw = failed
read_slice strip (contents file) off raw = read_contents strip file off raw
