-- ===== src/Keys.antt =====
-- src/sub.rs: `key_to_bytes`, the bytes that a terminal sends for a named key. Names are ASCII.
pub mod Names
use babysit.Prelude.{
  ℕ, ◌-◌, Bool, true, false, ◌&&◌, ◌||◌, List, [], ◌∷◌, ◌++◌, Option, none, some, Bytes, codes,
  bytes_eq, map, to_lower, to_upper, strip_prefix, is_alphabetic, if◌then◌else◌,
}

abbrev pub or_else : Option Bytes → Option Bytes → Option Bytes
or_else (some a) b = some a
or_else none b = b

-- The letter of a control combination: `c-`, `ctrl-` or `^` and one more byte.
abbrev pub ctrl_rest : Bytes → Option Bytes
unfolding strip_prefix
ctrl_rest name =
    let lower = map to_lower name in
    or_else (strip_prefix (codes "c-") lower)
      (or_else (strip_prefix (codes "ctrl-") lower) (strip_prefix (codes "^") name))

abbrev pub ctrl_byte : Option Bytes → Option Bytes
ctrl_byte (some (c ∷ [])) = if is_alphabetic c then some ((to_upper c - b'@') ∷ []) else none
ctrl_byte _ = none

-- The table of the named keys.
abbrev pub named_keys : List (Bytes × Bytes)
named_keys =
    (codes "enter", 13 ∷ [])
    ∷ (codes "return", 13 ∷ [])
    ∷ (codes "cr", 13 ∷ [])
    ∷ (codes "tab", 9 ∷ [])
    ∷ (codes "esc", 0x1b ∷ [])
    ∷ (codes "escape", 0x1b ∷ [])
    ∷ (codes "space", 32 ∷ [])
    ∷ (codes "backspace", 0x7f ∷ [])
    ∷ (codes "bs", 0x7f ∷ [])
    ∷ (codes "up", 0x1b ∷ codes "[A")
    ∷ (codes "down", 0x1b ∷ codes "[B")
    ∷ (codes "right", 0x1b ∷ codes "[C")
    ∷ (codes "left", 0x1b ∷ codes "[D")
    ∷ (codes "home", 0x1b ∷ codes "[H")
    ∷ (codes "end", 0x1b ∷ codes "[F")
    ∷ (codes "insert", 0x1b ∷ codes "[2~")
    ∷ (codes "ins", 0x1b ∷ codes "[2~")
    ∷ (codes "delete", 0x1b ∷ codes "[3~")
    ∷ (codes "del", 0x1b ∷ codes "[3~")
    ∷ (codes "pageup", 0x1b ∷ codes "[5~")
    ∷ (codes "pgup", 0x1b ∷ codes "[5~")
    ∷ (codes "pagedown", 0x1b ∷ codes "[6~")
    ∷ (codes "pgdn", 0x1b ∷ codes "[6~")
    ∷ (codes "f1", 0x1b ∷ codes "OP")
    ∷ (codes "f2", 0x1b ∷ codes "OQ")
    ∷ (codes "f3", 0x1b ∷ codes "OR")
    ∷ (codes "f4", 0x1b ∷ codes "OS")
    ∷ (codes "f5", 0x1b ∷ codes "[15~")
    ∷ (codes "f6", 0x1b ∷ codes "[17~")
    ∷ (codes "f7", 0x1b ∷ codes "[18~")
    ∷ (codes "f8", 0x1b ∷ codes "[19~")
    ∷ (codes "f9", 0x1b ∷ codes "[20~")
    ∷ (codes "f10", 0x1b ∷ codes "[21~")
    ∷ (codes "f11", 0x1b ∷ codes "[23~")
    ∷ (codes "f12", 0x1b ∷ codes "[24~")
    ∷ []

unfoldable pub find : Bytes → List (Bytes × Bytes) → Option Bytes
unfolding bytes_eq
find name [] = none
find name ((k, v) ∷ rest) = let later = find name rest in if bytes_eq name k then some v else later

-- `key_to_bytes`
unfoldable pub key_to_bytes : Bytes → Option Bytes
unfolding ctrl_rest find
key_to_bytes name = or_else (ctrl_byte (ctrl_rest name)) (find (map to_lower name) named_keys)
