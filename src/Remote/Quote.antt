-- ===== src/Remote/Quote.antt =====
-- src/remote.rs: the command line that is handed to the remote shell.
pub mod Shell
use babysit.Prelude.{
  ℕ, Bool, true, false, not, ◌||◌, List, [], ◌∷◌, ◌++◌, Option, none, some, Bytes, map, codes,
  is_empty, ◌==◌, if◌then◌else◌, starts_with,
}

-- `value.replace('\'', "'\\''")`
unfoldable pub escape_quotes : Bytes → Bytes
escape_quotes [] = []
escape_quotes (c ∷ cs) =
    let rest = escape_quotes cs in
    if c == b'\'' then b'\'' ∷ b'\\' ∷ b'\'' ∷ b'\'' ∷ rest else c ∷ rest

-- `shell_quote`
unfoldable pub shell_quote : Bytes → Bytes
unfolding escape_quotes
shell_quote value =
    if is_empty value then b'\'' ∷ b'\'' ∷ [] else (b'\'' ∷ escape_quotes value) ++ b'\'' ∷ []

-- `join(" ")`
unfoldable pub join_words : List Bytes → Bytes
join_words [] = []
join_words (w ∷ []) = w
join_words (w ∷ v ∷ ws) = w ++ (b' ' ∷ join_words (v ∷ ws))

abbrev pub babysit_word : Bytes
babysit_word = codes "babysit"

abbrev command_of : List Bytes → Bytes
command_of args = join_words (map shell_quote (babysit_word ∷ args))

with_term : Option Bytes → Bytes → Bytes
with_term none command = command
with_term (some value) command =
    if is_empty value then command else codes "TERM=" ++ (shell_quote value ++ (b' ' ∷ command))

-- `remote_command_with_term`
unfoldable pub remote_command_with_term : List Bytes → Option Bytes → Bytes
unfolding shell_quote join_words with_term
remote_command_with_term args term = with_term term (command_of args)

-- `validate_host`: true if the host is accepted.
unfoldable pub validate_host : Bytes → Bool
validate_host host = not (is_empty host || starts_with (codes "-") host)

-- The arguments that `ssh_command` gives to ssh; `none` if the host is refused.
unfoldable pub ssh_command : Bytes → List Bytes → Option Bytes → Option (List Bytes)
unfolding validate_host
ssh_command host args term =
    if validate_host host
    then some (
        codes "-T"
        ∷ codes "-o"
        ∷ codes "ServerAliveInterval=3"
        ∷ codes "-o"
        ∷ codes "ServerAliveCountMax=2"
        ∷ codes "-o"
        ∷ codes "ConnectTimeout=5"
        ∷ codes "--"
        ∷ host
        ∷ remote_command_with_term args term
        ∷ [])
    else none
