-- ===== src/Paths.antt =====
-- src/paths.rs: where a session's files and its control socket are. Paths are bytes.
pub mod Short
use babysit.Prelude.{
  ℕ, zero, suc, ◌+◌, ◌-◌, ◌*◌, ◌/◌, ◌%◌, ◌^◌, Bool, true, false, ◌||◌, List, [], ◌∷◌, ◌++◌, Option,
  none, some, Bytes, codes, is_empty, ends_in, ◌==◌, if◌then◌else◌,
}
use babysit.Render.{hex_digit}

-- A path with a separator behind it, where one is needed.
abbrev pub with_separator : Bytes → Bytes
with_separator a = if is_empty a || ends_in b'/' a then a else a ++ b'/' ∷ []

-- `Path::join`: an absolute path replaces the first.
abbrev pub join : Bytes → Bytes → Bytes
join a [] = with_separator a
join a (b ∷ bs) = if b == b'/' then b ∷ bs else with_separator a ++ b ∷ bs

-- The exclusive or of numbers of `n` bits.
unfoldable pub xor : ℕ → ℕ → ℕ → ℕ
xor zero a b = 0
xor (suc n) a b = (a % 2 + b % 2) % 2 + 2 * xor n (a / 2) (b / 2)

-- The loop of `stable_hash`, with wrapping multiplication of 64 bits.
unfoldable pub hash_from : ℕ → Bytes → ℕ
unfolding xor
hash_from hash [] = hash
hash_from hash (byte ∷ bytes) = hash_from ((xor 64 hash byte * 0x100000001b3) % 2 ^ 64) bytes

-- `stable_hash`
unfoldable pub stable_hash : Bytes → ℕ
unfolding hash_from
stable_hash bytes = hash_from 0xcbf29ce484222325 bytes

-- `{:016x}` of a number of 64 bits, and the digits of any number of digits.
unfoldable pub hex_onto : ℕ → ℕ → Bytes → Bytes
hex_onto zero n tail = tail
hex_onto (suc digits) n tail = hex_onto digits (n / 16) (hex_digit (n % 16) ∷ tail)

abbrev pub hex16 : ℕ → Bytes
unfolding hex_onto
hex16 n = hex_onto 16 n []

-- `Babysit`: the root, and the directory of the sockets.
pub record Babysit : Type 0 where
  pub root : Bytes
  pub sockets : Bytes

-- `from_env`: the root, from `$BABYSIT_DIR` and the home directory; `none` is an error.
unfoldable pub from_env : Option Bytes → Option Bytes → Option Bytes
from_env none none = none
from_env none (some home) = some (join home (codes ".babysit"))
from_env (some []) none = none
from_env (some []) (some home) = some (join home (codes ".babysit"))
from_env (some (b ∷ dir)) home = if b == b'/' then some (b ∷ dir) else none

-- The directory of the sockets that `new` takes; `uid` is the effective user, in decimal.
abbrev pub sockets_of : Option Bytes → Bytes → Bytes
sockets_of (some home) uid = join home (codes ".babysit-sockets")
sockets_of none uid = codes "/tmp/babysit-" ++ uid

abbrev pub session_dir : Babysit → Bytes → Bytes
session_dir bs id = join (join bs.root (codes "sessions")) id

abbrev pub meta_path : Babysit → Bytes → Bytes
meta_path bs id = join (session_dir bs id) (codes "meta.json")

abbrev pub status_path : Babysit → Bytes → Bytes
status_path bs id = join (session_dir bs id) (codes "status.json")

abbrev pub output_log_path : Babysit → Bytes → Bytes
output_log_path bs id = join (session_dir bs id) (codes "output.log")

abbrev pub note_path : Babysit → Bytes → Bytes
note_path bs id = join (session_dir bs id) (codes "note")

abbrev pub legacy_control_socket_path : Babysit → Bytes → Bytes
legacy_control_socket_path bs id = join (session_dir bs id) (codes "control.sock")

-- `control_socket_path`
unfoldable pub control_socket_path : Babysit → Bytes → Bytes
unfolding stable_hash hex16
control_socket_path bs id =
    join (join bs.sockets (hex16 (stable_hash bs.root))) (hex16 (stable_hash id))
