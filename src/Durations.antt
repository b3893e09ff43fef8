-- ===== src/Durations.antt =====
-- src/run.rs: `parse_duration`, `parse_timeout` and `parse_size`, on ASCII text.
pub mod Units
pub mod Forwarded
use babysit.Prelude.{
  ℕ, zero, suc, ◌+◌, ◌-◌, ◌*◌, ◌%◌, ◌^◌, ◌≡◌, Bool, true, false, not, ◌&&◌, ◌||◌, List, [], ◌∷◌,
  ◌++◌, Option, none, some, Bytes, ltb, leb, ◌==◌, if◌then◌else◌, is_digit, is_empty, codes,
  bytes_eq, to_lower, map, last?, length, take, ◌>>=◌,
}

-- `char::is_whitespace`, on ASCII
abbrev pub is_space : ℕ → Bool
is_space b = b == b' ' || (leb 9 b && leb b 13)

abbrev pub trim_start : Bytes → Bytes
trim_start [] = []
trim_start (b ∷ bs) = if is_space b then trim_start bs else b ∷ bs

abbrev pub trim_end : Bytes → Bytes
trim_end [] = []
trim_end (b ∷ bs) = let rest = trim_end bs in if is_space b && is_empty rest then [] else b ∷ rest

-- `str::trim`
abbrev pub trim : Bytes → Bytes
trim s = trim_end (trim_start s)

-- The value of a row of digits, read on from `acc`; `none` for another byte, or from `limit` on.
unfoldable pub digits : ℕ → ℕ → Bytes → Option ℕ
digits limit acc [] = some acc
digits limit acc (b ∷ bs) =
    let next = acc * 10 + (b - b'0') in
    let rest = digits limit next bs in if is_digit b && ltb next limit then rest else none

abbrev pub nonempty_digits : ℕ → Bytes → Option ℕ
nonempty_digits limit [] = none
nonempty_digits limit (b ∷ bs) = digits limit 0 (b ∷ bs)

-- `str::parse` for an unsigned integer below `limit`: digits, with a plus sign allowed in front.
unfoldable pub parse_unsigned : ℕ → Bytes → Option ℕ
parse_unsigned limit [] = none
parse_unsigned limit (b ∷ bs) =
    if b == b'+' then nonempty_digits limit bs else nonempty_digits limit (b ∷ bs)

-- The result: a number of milliseconds, an error, or the overflow of the multiplication, at which a
-- checked build panics.
pub data Parsed : Type 0 where
  millis : ℕ → Parsed
  invalid overflow : Parsed

-- The text in front of a suffix.
unfoldable pub strip_suffix : Bytes → Bytes → Option Bytes
strip_suffix suffix [] = none
strip_suffix suffix (b ∷ bs) =
    let rest = strip_suffix suffix bs in
    if bytes_eq suffix (b ∷ bs) then some [] else elim rest [ none ↦ none | some r ↦ some (b ∷ r) ]

-- The unit that a final byte stands for, in seconds.
unfoldable pub unit_secs : ℕ → Option ℕ
unit_secs b =
    if b == b's' || b == b'S'
    then some 1
    else if b == b'm' || b == b'M'
    then some 60
    else if b == b'h' || b == b'H'
    then some 3600
    else if b == b'd' || b == b'D'
    then some 86400
    else none

abbrev pub or_else {ℓ} : {A : Type ℓ} → Option A → Option A → Option A
or_else (some a) b = some a
or_else none b = b

abbrev pub parsed_millis : Option ℕ → Parsed
parsed_millis none = invalid
parsed_millis (some n) = millis n

-- `Duration::from_secs(n * unit_secs)`
abbrev pub parsed_secs : ℕ → Option ℕ → Parsed
parsed_secs unit none = invalid
parsed_secs unit (some n) = if ltb (n * unit) (2 ^ 64) then millis (n * unit * 1000) else overflow

abbrev pub u64 : Bytes → Option ℕ
u64 s = parse_unsigned (2 ^ 64) (trim s)

abbrev pub but_last : Bytes → Bytes
but_last s = take (length s - 1) s

abbrev pub with_unit : Bytes → Option ℕ → Parsed
with_unit s (some unit) = parsed_secs unit (u64 (but_last s))
with_unit s none = parsed_secs 1 (u64 s)

abbrev pub in_secs : Bytes → Option ℕ → Parsed
in_secs s none = invalid
in_secs s (some b) = with_unit s (unit_secs b)

abbrev pub parse_trimmed : Bytes → Parsed
parse_trimmed s = elim (or_else (strip_suffix (codes "ms") s) (strip_suffix (codes "MS") s)) [
  | some num ↦ parsed_millis (u64 num)
  | none ↦ in_secs s (last? s)
]

-- `parse_duration`
unfoldable pub parse_duration : Bytes → Parsed
unfolding strip_suffix unit_secs parse_unsigned
parse_duration s = parse_trimmed (trim s)

-- No timeout, a timeout in milliseconds, or what is wrong with it.
pub data Timeout : Type 0 where
  never : Timeout
  after : ℕ → Timeout
  invalid_timeout overflowing : Timeout

abbrev pub timeout_of : Parsed → Timeout
timeout_of (millis n) = if n == 0 then never else after n
timeout_of invalid = invalid_timeout
timeout_of overflow = overflowing

abbrev pub is_sentinel : Bytes → Bool
is_sentinel t =
    is_empty t
    || bytes_eq t (codes "none")
    || bytes_eq t (codes "off")
    || bytes_eq t (codes "never")

-- `parse_timeout`
unfoldable pub parse_timeout : Bytes → Timeout
unfolding parse_duration
parse_timeout s =
    let t = trim s in if is_sentinel (map to_lower t) then never else timeout_of (parse_duration t)

-- `split_once(['x', 'X'])`
unfoldable pub split_once : Bytes → Option (Bytes × Bytes)
split_once [] = none
split_once (b ∷ bs) =
    let rest = split_once bs in
    if b == b'x' || b == b'X'
    then some ([], bs)
    else elim rest [ none ↦ none | some (c, r) ↦ some (b ∷ c, r) ]

abbrev pub size_of : Option ℕ → Option ℕ → Option (ℕ × ℕ)
size_of (some cols) (some rows) = if cols == 0 || rows == 0 then none else some (cols, rows)
size_of _ _ = none

abbrev pub u16 : Bytes → Option ℕ
u16 s = parse_unsigned (2 ^ 16) (trim s)

abbrev pub parse_sides : Option (Bytes × Bytes) → Option (ℕ × ℕ)
parse_sides none = none
parse_sides (some (c, r)) = size_of (u16 c) (u16 r)

-- `parse_size`: `none` is an error.
unfoldable pub parse_size : Bytes → Option (ℕ × ℕ)
unfolding split_once
parse_size s = parse_sides (split_once s)
