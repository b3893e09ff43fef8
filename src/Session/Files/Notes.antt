-- ===== src/Session/Files/Notes.antt =====
-- src/session.rs: flagging one session does not touch another.
use babysit.Prelude.{
  ◌≡◌, refl, ap, ◌∙◌, Bool, true, false, [], ◌∷◌, Option, none, some, Bytes, arith, bytes_eq,
  bytes_eq_iff, if◌then◌else◌,
}
use babysit.Session.Files.{
  Dir, empty_dir, Files, find, in_dir, write_note, clear_note, read_note, trim,
}
use babysit.Log.Utf8.{from_utf8_lossy}

abbrev pub or_empty : Option Dir → Dir
or_empty none = empty_dir
or_empty (some d) = d

find-in_dir :
    (j id : Bytes) (f : Dir → Dir) (fs : Files)
    → find j (in_dir id f fs)
      ≡ (if bytes_eq id j then some (f (or_empty (find id fs))) else find j fs)
unfolding find in_dir
find-in_dir j id f [] = refl
find-in_dir j id f ((name, d) ∷ fs) =
    ground
      (arith, bytes_eq_iff id j, bytes_eq_iff name id, bytes_eq_iff name j, find-in_dir j id f fs)

find-clear_note :
    (j id : Bytes) (fs : Files)
    → find j (clear_note id fs) ≡ elim (find j fs) [
      | none ↦ none
      | some d ↦ some (if bytes_eq id j then record d { note_file = none } else d)
    ]
unfolding find clear_note
find-clear_note j id [] = refl
find-clear_note j id ((name, d) ∷ fs) =
    ground
      (arith, bytes_eq_iff id j, bytes_eq_iff name id, bytes_eq_iff name j, find-clear_note j id fs)

-- The note of a session, if it is flagged.
abbrev pub note_in : Option Dir → Option Bytes
unfolding read_note
note_in none = none
note_in (some d) = read_note d

abbrev pub note_of : Bytes → Files → Option Bytes
note_of id fs = note_in (find id fs)

if-note_in :
    (b : Bool) (d : Dir) (other : Option Dir)
    → note_in (if b then some d else other) ≡ (if b then note_in (some d) else note_in other)
if-note_in true d other = refl
if-note_in false d other = refl

cleared :
    (b : Bool) (o : Option Dir)
    → note_in
        (elim o [ none ↦ none | some d ↦ some (if b then record d { note_file = none } else d) ])
      ≡ (if b then none else note_in o)
unfolding read_note
cleared true none = refl
cleared false none = refl
cleared true (some d) = refl
cleared false (some d) = refl

-- Flagging a session gives it the message as its note, decoded and trimmed, also if it has no files
-- yet; clearing the flag leaves it without a note, also if there was none. The note of every other
-- session stays as it is.
pub note_of_flagged :
    (id message j : Bytes) (fs : Files)
    → (note_of j (write_note id message fs)
        ≡ (if bytes_eq id j then some (trim (from_utf8_lossy message)) else note_of j fs))
      × (note_of j (clear_note id fs) ≡ (if bytes_eq id j then none else note_of j fs))
unfolding write_note read_note
note_of_flagged id message j fs = (
  ap note_in (find-in_dir j id (λ d. record d { note_file = some message }) fs)
      ∙ if-note_in (bytes_eq id j) (record (or_empty (find id fs)) { note_file = some message })
          (find j fs),
  ap note_in (find-clear_note j id fs) ∙ cleared (bytes_eq id j) (find j fs),
)
