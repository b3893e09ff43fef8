-- ===== src/Socket/Private.antt =====
-- src/control.rs: only the user can reach a worker's sockets.
use babysit.Prelude.{ℕ, ◌≡◌, ◌⊎◌, Bool, false}
use babysit.Socket.{directory, socket, Places, Bound, failed, listening}

-- The places of a worker that listens: both directories are real ones, of the user, with mode 0700,
-- and the sockets that are listened on are the user's, with mode 0600.
pub record IsPrivate (uid : ℕ) (legacy : Bool) (p : Places) : Type 0 where
  pub user_dir : p.user_dir ≡ directory uid 448
  pub socket_dir : p.socket_dir ≡ directory uid 448
  pub control_socket : p.control_socket ≡ socket uid 384
  pub legacy_socket : (legacy ≡ false) ⊎ (p.legacy_socket ≡ socket uid 384)

abbrev places_of : Bound → Places
places_of (failed p) = p
places_of (listening legacy p) = p

abbrev listened_of : Bound → Bool
listened_of (failed p) = false
listened_of (listening legacy p) = legacy
