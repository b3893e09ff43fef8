-- ===== src/Socket.antt =====
-- src/control.rs: the control socket: its private directories, and the connections that it serves.
pub mod Private
use babysit.Prelude.{
  ℕ, Bool, true, false, not, ◌&&◌, ◌||◌, List, [], ◌∷◌, ◌++◌, Option, none, some, Bytes, ◌==◌,
  if◌then◌else◌, is_empty,
}

-- What is at a path; permissions are the low bits of a mode.
pub data Node : Type 0 where
  nothing : Node
  directory : (owner mode : ℕ) → Node
  symlink : Node
  plain : (owner mode : ℕ) → Node
  socket : (owner mode : ℕ) → Node

-- The system calls of the process: its effective user, and whether calls that may fail succeed.
pub record Calls : Type 0 where
  pub uid : ℕ
  pub creates : Bool
  pub inspects : Bool
  pub sets_mode : Bool
  pub removes : Bool
  pub binds : Bool
  pub legacy_binds : Bool

-- `DirBuilder::create`: whether it is no error, or one for a path that exists, and what is there then.
abbrev pub create_dir : Calls → Node → Bool × Node
create_dir c nothing = if c.creates then (true, directory c.uid 448) else (false, nothing)
create_dir c (directory owner mode) = (true, directory owner mode)
create_dir c symlink = (true, symlink)
create_dir c (plain owner mode) = (true, plain owner mode)
create_dir c (socket owner mode) = (true, socket owner mode)

-- The checks of `ensure_private_dir` on what is there.
abbrev pub secure_dir : Calls → Node → Bool × Node
secure_dir c (directory owner mode) =
    if c.inspects && owner == c.uid
    then (if c.sets_mode then (true, directory owner 448) else (false, directory owner mode))
    else (false, directory owner mode)
secure_dir c nothing = (false, nothing)
secure_dir c symlink = (false, symlink)
secure_dir c (plain owner mode) = (false, plain owner mode)
secure_dir c (socket owner mode) = (false, socket owner mode)

-- `ensure_private_dir`: whether it succeeds, and what is at the path then.
unfoldable pub ensure_private_dir : Calls → Node → Bool × Node
ensure_private_dir c n =
    let (created, m) = create_dir c n in if created then secure_dir c m else (false, m)

-- The paths that `serve` touches.
pub record Places : Type 0 where
  pub user_dir : Node
  pub socket_dir : Node
  pub control_socket : Node
  pub legacy_socket : Node

-- `secure_socket` on a socket that was bound with some mode.
abbrev pub secure_socket : Calls → Node → Bool × Node
secure_socket c (socket owner mode) =
    if c.inspects && c.sets_mode then (true, socket owner 384) else (false, socket owner mode)
secure_socket c n = (false, n)

-- `remove_file`, which is best effort: it may fail, and does nothing to a directory.
abbrev pub remove_file : Calls → Node → Node
remove_file c (directory owner mode) = directory owner mode
remove_file c nothing = nothing
remove_file c symlink = if c.removes then nothing else symlink
remove_file c (plain owner mode) = if c.removes then nothing else plain owner mode
remove_file c (socket owner mode) = if c.removes then nothing else socket owner mode

-- `bind`, at a path where nothing is; `mode` is what the process makes of a new file.
abbrev pub bind : Bool → ℕ → ℕ → Node → Option Node
bind allowed uid mode nothing = if allowed then some (socket uid mode) else none
bind allowed uid mode n = none

-- The second, best-effort socket: whether it is listened on. It is removed again where it cannot be
-- secured; `n` is what is left where it cannot be bound.
abbrev pub secured_legacy : Calls → Bool × Node → Bool × Node
secured_legacy c (true, s) = (true, s)
secured_legacy c (false, s) = (false, remove_file c s)

abbrev pub bound_legacy : Calls → Node → Option Node → Bool × Node
bound_legacy c n none = (false, n)
bound_legacy c n (some s) = secured_legacy c (secure_socket c s)

abbrev pub bind_legacy : Calls → ℕ → Node → Bool × Node
bind_legacy c mode n =
    bound_legacy c (remove_file c n) (bind c.legacy_binds c.uid mode (remove_file c n))

-- What `serve` leaves: an error, or a socket that is listened on, and perhaps the legacy one.
pub data Bound : Type 0 where
  failed : Places → Bound
  listening : Bool → Places → Bound

abbrev pub with_legacy : Calls → ℕ → Places → Bound
with_legacy c mode p =
    let (listened, n) = bind_legacy c mode p.legacy_socket in
    listening listened (record p { legacy_socket = n })

abbrev pub secured_control : Calls → ℕ → Places → Bool × Node → Bound
secured_control c mode p (true, s) = with_legacy c mode (record p { control_socket = s })
secured_control c mode p (false, s) = failed (record p { control_socket = s })

abbrev pub bound_control : Calls → ℕ → Places → Option Node → Bound
bound_control c mode p none = failed p
bound_control c mode p (some s) = secured_control c mode p (secure_socket c s)

abbrev pub bind_control : Calls → ℕ → Places → Bound
bind_control c mode p =
    let node = remove_file c p.control_socket in
    bound_control c mode (record p { control_socket = node }) (bind c.binds c.uid mode node)

abbrev pub with_socket_dir : Calls → ℕ → Places → Bool × Node → Bound
with_socket_dir c mode p (true, dir) = bind_control c mode (record p { socket_dir = dir })
with_socket_dir c mode p (false, dir) = failed (record p { socket_dir = dir })

abbrev pub with_user_dir : Calls → ℕ → Places → Bool × Node → Bound
unfolding ensure_private_dir
with_user_dir c mode p (true, dir) =
    with_socket_dir c mode (record p { user_dir = dir }) (ensure_private_dir c p.socket_dir)
with_user_dir c mode p (false, dir) = failed (record p { user_dir = dir })

-- `serve`
unfoldable pub serve : Calls → ℕ → Places → Bound
unfolding ensure_private_dir with_user_dir
serve c mode p = with_user_dir c mode p (ensure_private_dir c p.user_dir)
