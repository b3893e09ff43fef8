-- ===== src/Log/Utf8.antt =====
-- UTF-8 as the standard library checks it: `str::from_utf8` with `valid_up_to` and `error_len`, and
-- `String::from_utf8_lossy`.
pub mod Valid
pub mod Prefix
use babysit.Prelude.{
  ℕ, zero, suc, ◌+◌, ◌-◌, Bool, true, false, ◌&&◌, ◌||◌, List, [], ◌∷◌, ◌++◌, Option, none, some,
  Bytes, leb, ltb, ◌==◌, if◌then◌else◌,
}

abbrev pub within : ℕ → ℕ → ℕ → Bool
within lo hi b = leb lo b && leb b hi

abbrev pub is_continuation : ℕ → Bool
is_continuation b = within 0x80 0xbf b

-- The second byte that may follow a lead byte of three or four.
abbrev pub second_of_three : ℕ → ℕ → Bool
second_of_three b c =
    if b == 0xe0
    then within 0xa0 0xbf c
    else if b == 0xed
    then within 0x80 0x9f c
    else is_continuation c

abbrev pub second_of_four : ℕ → ℕ → Bool
second_of_four b c =
    if b == 0xf0
    then within 0x90 0xbf c
    else if b == 0xf4
    then within 0x80 0x8f c
    else is_continuation c

-- The first character of a text: its length, or an error with its `error_len` (`none`: the text ends
-- inside the character).
pub data Char : Type 0 where
  char : ℕ → Char
  bad : Option ℕ → Char

two : Bytes → Char
two [] = bad none
two (c ∷ _) = if is_continuation c then char 2 else bad (some 1)

three : ℕ → Bytes → Char
three b [] = bad none
three b (c ∷ []) = if second_of_three b c then bad none else bad (some 1)
three b (c ∷ d ∷ _) =
    if second_of_three b c
    then (if is_continuation d then char 3 else bad (some 2))
    else bad (some 1)

four : ℕ → Bytes → Char
four b [] = bad none
four b (c ∷ []) = if second_of_four b c then bad none else bad (some 1)
four b (c ∷ d ∷ []) =
    if second_of_four b c
    then (if is_continuation d then bad none else bad (some 2))
    else bad (some 1)
four b (c ∷ d ∷ e ∷ _) =
    if second_of_four b c
    then (if is_continuation d
        then (if is_continuation e then char 4 else bad (some 3))
        else bad (some 2))
    else bad (some 1)

unfoldable pub first_char : ℕ → Bytes → Char
unfolding two three four
first_char b bs =
    if ltb b 0x80
    then char 1
    else if within 0xc2 0xdf b
    then two bs
    else if within 0xe0 0xef b
    then three b bs
    else if within 0xf0 0xf4 b
    then four b bs
    else bad (some 1)

-- `Ok(_)`, or the error's `valid_up_to` and `error_len`.
pub data Checked : Type 0 where
  valid : Checked
  invalid : ℕ → Option ℕ → Checked

-- `skip` bytes of the character at hand are still to be passed over.
unfoldable pub check : ℕ → ℕ → Bytes → Checked
check skip pos [] = valid
check (suc skip) pos (b ∷ bs) = check skip (pos + 1) bs
check zero pos (b ∷ bs) = elim (first_char b bs) [
  | char n ↦ check (n - 1) (pos + 1) bs
  | bad e ↦ invalid pos e
]

unfoldable pub from_utf8 : Bytes → Checked
unfolding check
from_utf8 bytes = check 0 0 bytes

-- U+FFFD in UTF-8.
abbrev pub replacement : Bytes
replacement = 0xef ∷ 0xbf ∷ 0xbd ∷ []

-- `keep` bytes are still to be copied, then `skip` bytes to be left out.
unfoldable pub lossy : ℕ → ℕ → Bytes → Bytes
lossy keep skip [] = []
lossy (suc keep) skip (b ∷ bs) = b ∷ lossy keep skip bs
lossy zero (suc skip) (b ∷ bs) = lossy zero skip bs
lossy zero zero (b ∷ bs) = elim (first_char b bs) [
  | char n ↦ b ∷ lossy (n - 1) 0 bs
  | bad none ↦ replacement
  | bad (some n) ↦ replacement ++ lossy 0 (n - 1) bs
]

-- The bytes of `String::from_utf8_lossy`.
unfoldable pub from_utf8_lossy : Bytes → Bytes
unfolding lossy
from_utf8_lossy bytes = lossy 0 0 bytes
