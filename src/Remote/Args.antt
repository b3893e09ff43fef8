-- ===== src/Remote/Args.antt =====
-- src/remote.rs, `strip_host_args`: the global host selector is taken off a command line.
pub mod Strip
use babysit.Prelude.{
  ℕ, ◌≡◌, ◌↔◌, refl, sym, ap, ◌∙◌, Bool, true, false, List, [], ◌∷◌, ◌++◌, Option, none, some,
  Bytes, codes, starts_with, bytes_eq, bytes_eq_iff, if◌then◌else◌, arith, Bool-cases, inl, inr,
}

abbrev pub separator : Bytes
separator = codes "--"

abbrev pub host_flag : Bytes
host_flag = codes "--host"

abbrev pub is_host_value : Bytes → Bool
is_host_value arg = starts_with (codes "--host=") arg

abbrev add_arg : Bytes → Option (List Bytes) → Option (List Bytes)
add_arg a none = none
add_arg a (some as') = some (a ∷ as')

-- The loop before the separator; behind it every argument is kept. `none` is the error that
-- `--host` has no value.
unfoldable pub strip_host_args : List Bytes → Option (List Bytes)
strip_host_args [] = some []
strip_host_args (a ∷ []) =
    if bytes_eq a separator
    then some (a ∷ [])
    else if bytes_eq a host_flag
    then none
    else if is_host_value a
    then some []
    else some (a ∷ [])
strip_host_args (a ∷ b ∷ rest) =
    if bytes_eq a separator
    then some (a ∷ b ∷ rest)
    else if bytes_eq a host_flag
    then strip_host_args rest
    else if is_host_value a
    then strip_host_args (b ∷ rest)
    else add_arg a (strip_host_args (b ∷ rest))
