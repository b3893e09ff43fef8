-- ===== src/Detach.antt =====
-- src/attach.rs: the streaming filter for the `Ctrl-\ Ctrl-\` detach sequence.
pub mod Conserve
pub mod Presses
pub mod Chunks
pub mod Bounds
pub mod Legacy
use Prim.Native.Nat.{bit_and}
use babysit.Prelude.{
  ℕ, ◌+◌, ◌-◌, ◌*◌, Bool, true, false, not, ◌&&◌, ◌||◌, List, [], ◌∷◌, ◌++◌, Option, none, some,
  Bytes, length, take, drop, is_empty, ltb, leb, ◌==◌, if◌then◌else◌, ◌>>=◌, bytes_eq, starts_with,
  ends_in, split, is_digit, last?,
}

abbrev pub esc : ℕ
esc = 0x1b

-- `DETACH_KEY`: Ctrl-\ in its legacy form.
abbrev pub detach_key : ℕ
detach_key = 0x1c

-- `MAX_WITHHELD_INPUT`
abbrev pub max_withheld_input : ℕ
max_withheld_input = 1024

abbrev u16_max : ℕ
u16_max = 65535

-- `u16::checked_mul`, `checked_add` and `checked_sub`
abbrev checked_mul : ℕ → ℕ → Option ℕ
checked_mul a b = if leb (a * b) u16_max then some (a * b) else none

abbrev checked_add : ℕ → ℕ → Option ℕ
checked_add a b = if leb (a + b) u16_max then some (a + b) else none

abbrev checked_sub : ℕ → ℕ → Option ℕ
checked_sub a b = if leb b a then some (a - b) else none

decimal_from : ℕ → Bytes → Option ℕ
decimal_from value [] = some value
decimal_from value (b ∷ bs) =
    if not (is_digit b)
    then none
    else (checked_mul value 10 >>= λ v. checked_add v (b - b'0') >>= λ w. decimal_from w bs)

-- `parse_decimal`: a u16 in decimal digits.
unfoldable pub parse_decimal : Bytes → Option ℕ
unfolding decimal_from
parse_decimal [] = none
parse_decimal (b ∷ bs) = decimal_from 0 (b ∷ bs)

pub data DetachEvent : Type 0 where
  press repeat_or_release : DetachEvent

-- `Iterator::next` on the pieces of a split.
abbrev next {ℓ} : {A : Type ℓ} → List A → Option (A × List A)
next [] = none
next (x ∷ xs) = some (x, xs)

-- `modifier & !(64 | 128)`: the lock bits do not count.
without_locks : ℕ → ℕ
without_locks modifier = bit_and modifier 0xff3f

kitty_kind : ℕ → Option DetachEvent
kitty_kind event =
    if event == 1
    then some press
    else if event == 2 || event == 3
    then some repeat_or_release
    else none

-- The event of `modifier_and_event.next()`, with 1 for none given.
event_of : List Bytes → Option ℕ
event_of [] = some 1
event_of (v ∷ _) = parse_decimal v

-- `CSI codepoint:… ; modifier:event … u`
kitty_event : Bytes → Option DetachEvent
unfolding without_locks kitty_kind event_of
kitty_event body = do
  (first, params) ← next (split b';' body)
  (code, _) ← next (split b':' first)
  codepoint ← parse_decimal code
  (second, _) ← next params
  (m, events) ← next (split b':' second)
  value ← parse_decimal m
  modifier ← checked_sub value 1
  event ← event_of events
  if not (codepoint == b'\\') || not (without_locks modifier == 4) then none else kitty_kind event

-- `CSI 27 ; modifier ; codepoint ~`
xterm_event : Bytes → Option DetachEvent
unfolding without_locks
xterm_event body = do
  (p, params) ← next (split b';' body)
  prefix ← parse_decimal p
  (m, params') ← next params
  value ← parse_decimal m
  modifier ← checked_sub value 1
  (c, _) ← next params'
  codepoint ← parse_decimal c
  if prefix == 27 && codepoint == b'\\' && without_locks modifier == 4 then some press else none

-- `sequence[2..sequence.len() - 1]`
body_of : Bytes → Bytes
body_of sequence = take (length sequence - 1 - 2) (drop 2 sequence)

pub enhanced_detach_event : Bytes → Option DetachEvent
unfolding kitty_event xterm_event body_of
enhanced_detach_event sequence =
    if not (starts_with (esc ∷ b'[' ∷ []) sequence)
    then none
    else if ends_in b'u' sequence
    then kitty_event (body_of sequence)
    else if ends_in b'~' sequence
    then xterm_event (body_of sequence)
    else none

-- `DetachFilter`
pub record Filter : Type 0 where
  pub withheld : Bytes
  pub escape : Bytes

abbrev pub default : Filter
default = record { withheld = []; escape = [] }

-- A filter, the bytes to forward so far, and whether to detach.
abbrev pub Outcome : Type 0
Outcome = Filter × Bytes × Bool

handle_other : Filter → Bytes → Bytes → Outcome
handle_other f token out = (record f { withheld = [] }, out ++ f.withheld ++ token, false)

withhold : Filter → Bytes → Bytes → Outcome
withhold f token out = (record f { withheld = f.withheld ++ token }, out, false)

abbrev token_event : Bytes → Option DetachEvent
token_event token =
    if bytes_eq token (detach_key ∷ []) then some press else enhanced_detach_event token

pub handle_event : Option DetachEvent → Filter → Bytes → Bytes → Outcome
unfolding handle_other withhold
handle_event (some press) f token out =
    if not (is_empty f.withheld) then (f, out, true) else withhold f token out
handle_event (some repeat_or_release) f token out =
    if not (is_empty f.withheld) && leb (length f.withheld + length token) max_withheld_input
    then withhold f token out
    else handle_other f token out
handle_event none f token out = handle_other f token out

-- `DetachFilter::handle_token`
pub handle_token : Filter → Bytes → Bytes → Outcome
unfolding handle_event
handle_token f token out = handle_event (token_event token) f token out

-- The escape sequence read so far ends with its last byte.
pub sequence_ends : Bytes → ℕ → Bool
sequence_ends sequence byte =
    let not_csi = length sequence == 2 && not (byte == b'[') in
    let csi_complete = leb 3 (length sequence) && leb 0x40 byte && leb byte 0x7e in
    let too_long = ltb 128 (length sequence) in not_csi || csi_complete || too_long

-- One round of the loop in `push`.
pub push_byte : Filter → Bytes → ℕ → Outcome
push_byte f out byte =
    if not (is_empty f.escape)
    then (let sequence = f.escape ++ byte ∷ [] in
        if sequence_ends sequence byte
        then handle_token (record f { escape = [] }) sequence out
        else (record f { escape = sequence }, out, false))
    else if byte == esc
    then (record f { escape = f.escape ++ byte ∷ [] }, out, false)
    else handle_token f (byte ∷ []) out

-- The loop; the rest of the chunk is dropped when the sequence is complete.
pub push_onto : Filter → Bytes → Bytes → Outcome
push_onto f out [] = (f, out, false)
push_onto f out (byte ∷ rest) =
    let (f', out', done) = push_byte f out byte in
    let more = push_onto f' out' rest in if done then (f', out', true) else more

-- `DetachFilter::push`
unfoldable pub push : Filter → Bytes → Outcome
unfolding push_onto push_byte handle_token sequence_ends
push f chunk = push_onto f [] chunk

unfoldable pub has_partial_escape : Filter → Bool
has_partial_escape f = not (is_empty f.escape)

unfoldable pub discard_pending : Filter → Filter
discard_pending f = record { withheld = []; escape = [] }

-- `DetachFilter::flush_partial_escape`
unfoldable pub flush_partial_escape : Filter → Filter × Bytes
unfolding handle_other
flush_partial_escape f =
    let (f', out, _) = handle_other (record f { escape = [] }) f.escape [] in (f', out)
