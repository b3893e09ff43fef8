-- ===== src/Session/Files/Atomic.antt =====
-- src/session.rs: a reader of the status never sees a part of one.
use babysit.Prelude.{◌≡◌, refl, List, [], ◌∷◌, Option, some}
use babysit.Session.Files.{
  Recorded, Dir, Extent, not_begun, in_tmp, before_rename, complete, write_status, read_status,
}

-- Successive writings, each of which may be interrupted or fail.
abbrev pub write_all : List (Extent × Recorded) → Dir → Dir
write_all [] d = d
write_all ((x, r) ∷ ws) d = write_all ws (write_status x r d)

-- The last status whose writing has come to its end, or else the one before.
abbrev pub last_complete : List (Extent × Recorded) → Option Recorded → Option Recorded
last_complete [] before = before
last_complete ((complete, r) ∷ ws) before = last_complete ws (some r)
last_complete ((not_begun, r) ∷ ws) before = last_complete ws before
last_complete ((in_tmp, r) ∷ ws) before = last_complete ws before
last_complete ((before_rename, r) ∷ ws) before = last_complete ws before

-- However the writings of a status are interrupted, or fail, a reader gets the last one that has come
-- to its end, whole, or the one before them all; metadata and note stay as they were.
pub read_status-write_all :
    (ws : List (Extent × Recorded)) (d : Dir)
    → (read_status (write_all ws d) ≡ last_complete ws (read_status d))
      × ((write_all ws d).meta_file ≡ d.meta_file)
      × ((write_all ws d).note_file ≡ d.note_file)
unfolding write_status
read_status-write_all [] d = (refl, refl, refl)
read_status-write_all ((complete, r) ∷ ws) d = read_status-write_all ws (write_status complete r d)
read_status-write_all ((not_begun, r) ∷ ws) d =
    read_status-write_all ws (write_status not_begun r d)
read_status-write_all ((in_tmp, r) ∷ ws) d = read_status-write_all ws (write_status in_tmp r d)
read_status-write_all ((before_rename, r) ∷ ws) d =
    read_status-write_all ws (write_status before_rename r d)
