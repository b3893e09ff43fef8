-- ===== src/Starting/Parser.antt =====
-- The reading of the arguments of `run` by clap, which src/cli.rs declares: what the worker relies on.
use babysit.Prelude.{
  ◌≡◌, ◌≢◌, Bool, true, false, List, [], ◌∷◌, Option, none, some, Bytes, codes, ◌==◌,
}
use babysit.Starting.{RunArgs}

-- A flag that takes a value.
pub data Flag : Type 0 where
  detached_id root timeout idle_timeout size view_cmd : Flag

unfoldable pub flag_name : Flag → Bytes
flag_name detached_id = codes "--detached-id"
flag_name root = codes "--root"
flag_name timeout = codes "--timeout"
flag_name idle_timeout = codes "--idle-timeout"
flag_name size = codes "--size"
flag_name view_cmd = codes "--view-cmd"

unfoldable pub value_of : Flag → RunArgs → Option Bytes
value_of detached_id a = a.detached_id
value_of root a = a.root
value_of timeout a = a.timeout
value_of idle_timeout a = a.idle_timeout
value_of size a = a.size
value_of view_cmd a = a.view_cmd

unfoldable pub with_value : Flag → Bytes → RunArgs → RunArgs
with_value detached_id v a = record a { detached_id = some v }
with_value root v a = record a { root = some v }
with_value timeout v a = record a { timeout = some v }
with_value idle_timeout v a = record a { idle_timeout = some v }
with_value size v a = record a { size = some v }
with_value view_cmd v a = record a { view_cmd = some v }

-- No flag, and the command.
abbrev pub plain_args : List Bytes → RunArgs
plain_args cmd = record {
  id = none;
  detach = false;
  detached_id = none;
  root = none;
  no_tty = false;
  timeout = none;
  idle_timeout = none;
  size = none;
  view_cmd = none;
  json = false;
  cmd = cmd;
}

-- What looks like a flag: a dash with something behind it.
unfoldable pub dashed : Bytes → Bool
dashed [] = false
dashed (b ∷ []) = false
dashed (b ∷ c ∷ s) = b == b'-'

-- A value that cannot be taken for anything else.
pub record IsPlain (v : Bytes) : Type 0 where
  pub some_text : v ≢ []
  pub not_dashed : dashed v ≡ false

-- What clap documents of options like those of `run`: behind `--` stands the command; and a switch, or a
-- flag with a value that cannot be taken for a flag itself, is set by standing in front of arguments that
-- do not set it. `clap` reads the arguments behind `run`; `none` is an error.
pub record IsClap (clap : List Bytes → Option RunArgs) : Type 0 where
  pub command :
      (c : Bytes) (cmd : List Bytes) → clap (codes "--" ∷ c ∷ cmd) ≡ some (plain_args (c ∷ cmd))
  pub switch :
      (rest : List Bytes) (a : RunArgs)
      → clap rest ≡ some a
      → a.no_tty ≡ false
      → clap (codes "--no-tty" ∷ rest) ≡ some (record a { no_tty = true })
  pub value :
      (f : Flag) (v : Bytes) (rest : List Bytes) (a : RunArgs)
      → IsPlain v
      → clap rest ≡ some a
      → value_of f a ≡ none
      → clap (flag_name f ∷ v ∷ rest) ≡ some (with_value f v a)
