-- ===== src/Session/Files.antt =====
-- src/session.rs: the files of the sessions, and the list that is made of them.
pub mod Atomic
pub mod Notes
pub mod Listed
use babysit.Prelude.{
  ℕ, zero, suc, ◌-◌, Bool, true, false, not, ◌&&◌, ◌||◌, List, [], ◌∷◌, ◌++◌, Option, none, some,
  Bytes, map, leb, ◌==◌, if◌then◌else◌, bytes_eq, length, drop,
}
use mathlib.Core.List.{reverse}
use babysit.Session.{State, Status, starting_status, Meta, is_owner_alive}
use babysit.Log.Utf8.{from_utf8_lossy}

-- A JSON file: missing, cut short, or what can be read of it.
pub data Cell {ℓ} (A : Type ℓ) : Type ℓ where
  absent torn : Cell A
  whole : A → Cell A

-- A file that is parsed; an error is `none`.
abbrev pub read {ℓ} : {A : Type ℓ} → Cell A → Option A
read absent = none
read torn = none
read (whole a) = some a

-- `Status` with its time.
pub record Recorded : Type 0 where
  pub status : Status
  pub last_change : ℕ

-- `StoredMeta`: `Meta` with its command and time, and whether the session has a terminal.
pub record Stored : Type 0 where
  pub meta : Meta
  pub cmd : List Bytes
  pub started_at : ℕ
  pub tty : Bool

-- The directory of a session.
pub record Dir : Type 0 where
  pub meta_file : Cell Stored
  pub status_file : Cell Recorded
  pub status_tmp : Cell Recorded
  pub note_file : Option Bytes

abbrev pub empty_dir : Dir
empty_dir = record {
  meta_file = absent;
  status_file = absent;
  status_tmp = absent;
  note_file = none;
}

-- How far a call of `write_status` comes before it is interrupted or fails: nowhere, into or to the end
-- of the writing of the temporary file, or to its end.
pub data Extent : Type 0 where
  not_begun in_tmp before_rename complete : Extent

-- `write_status`
unfoldable pub write_status : Extent → Recorded → Dir → Dir
write_status not_begun r d = d
write_status in_tmp r d = record d { status_tmp = torn }
write_status before_rename r d = record d { status_tmp = whole r }
write_status complete r d = record d { status_file = whole r; status_tmp = absent }

-- `read_status`, `read_meta`, `read_tty`
abbrev pub read_status : Dir → Option Recorded
read_status d = read d.status_file

abbrev pub read_meta : Dir → Option Stored
read_meta d = read d.meta_file

-- The white space of Unicode at the start of a text: how many bytes it has, or 0.
abbrev pub space_length : Bytes → ℕ
space_length [] = 0
space_length (a ∷ []) = if (leb 9 a && leb a 13) || a == 32 then 1 else 0
space_length (a ∷ b ∷ []) =
    if (leb 9 a && leb a 13) || a == 32
    then 1
    else if a == 0xc2 && (b == 0x85 || b == 0xa0)
    then 2
    else 0
space_length (a ∷ b ∷ c ∷ r) =
    if (leb 9 a && leb a 13) || a == 32
    then 1
    else if a == 0xc2 && (b == 0x85 || b == 0xa0)
    then 2
    else if (a == 0xe1 && b == 0x9a && c == 0x80)
        || (a == 0xe2
            && b == 0x80
            && ((leb 0x80 c && leb c 0x8a) || c == 0xa8 || c == 0xa9 || c == 0xaf))
        || (a == 0xe2 && b == 0x81 && c == 0x9f)
        || (a == 0xe3 && b == 0x80 && c == 0x80)
    then 3
    else 0

-- The same at the end, on the text reversed.
abbrev pub back_space_length : Bytes → ℕ
back_space_length [] = 0
back_space_length (a ∷ []) = space_length (a ∷ [])
back_space_length (b ∷ a ∷ []) =
    if space_length (b ∷ []) == 1 then 1 else if space_length (a ∷ b ∷ []) == 2 then 2 else 0
back_space_length (c ∷ b ∷ a ∷ r) =
    if space_length (c ∷ []) == 1
    then 1
    else if space_length (b ∷ c ∷ []) == 2
    then 2
    else if space_length (a ∷ b ∷ c ∷ []) == 3
    then 3
    else 0

-- Drops what `measure` finds, as long as it finds something; each round drops a byte at least.
drop_while : ℕ → (Bytes → ℕ) → Bytes → Bytes
drop_while zero measure text = text
drop_while (suc fuel) measure text =
    let rest = drop_while fuel measure (drop (measure text) text) in
    if measure text == 0 then text else rest

-- `str::trim`
unfoldable pub trim : Bytes → Bytes
unfolding drop_while
trim text =
    let front = drop_while (length text) space_length text in
    reverse (drop_while (length front) back_space_length (reverse front))

-- `read_note`
unfoldable pub read_note : Dir → Option Bytes
unfolding trim
read_note d = elim (d.note_file) [ none ↦ none | some bytes ↦ some (trim (from_utf8_lossy bytes)) ]

-- The directories of the root, in the order in which they are found.
abbrev pub Files : Type 0
Files = List (Bytes × Dir)

unfoldable pub find : Bytes → Files → Option Dir
find id [] = none
find id ((name, d) ∷ fs) = if bytes_eq name id then some d else find id fs

-- Changes a directory, which is made if it is missing.
unfoldable pub in_dir : Bytes → (Dir → Dir) → Files → Files
in_dir id f [] = (id, f empty_dir) ∷ []
in_dir id f ((name, d) ∷ fs) =
    if bytes_eq name id then (name, f d) ∷ fs else (name, d) ∷ in_dir id f fs

-- `write_note`, `write_meta`: every write is taken to succeed.
unfoldable pub write_note : Bytes → Bytes → Files → Files
unfolding in_dir
write_note id message = in_dir id (λ d. record d { note_file = some message })

unfoldable pub write_meta : Stored → Files → Files
unfolding in_dir
write_meta m = in_dir (m.meta).id (λ d. record d { meta_file = whole m })

-- `clear_note`; a missing note is fine.
unfoldable pub clear_note : Bytes → Files → Files
clear_note id [] = []
clear_note id ((name, d) ∷ fs) =
    if bytes_eq name id
    then (name, record d { note_file = none }) ∷ fs
    else (name, d) ∷ clear_note id fs

-- `list_ids`
abbrev pub list_ids : Files → List Bytes
list_ids fs = map (λ f. f.0) fs

-- One row of the list.
pub record SessionInfo : Type 0 where
  pub id : Bytes
  pub cmd : List Bytes
  pub state : State
  pub alive : Bool
  pub exit_code : Option ℕ
  pub note : Option Bytes
  pub started_at : ℕ
  pub last_change : ℕ

abbrev pub Entry : Type 0
Entry = Stored × Recorded × Option Bytes

abbrev pub or_starting : ℕ → Option Recorded → Recorded
or_starting now none = record { status = starting_status; last_change = now }
or_starting now (some r) = r

abbrev pub entry_of : ℕ → Dir → Option Stored → List Entry
entry_of now d none = []
entry_of now d (some m) = (m, or_starting now (read_status d), read_note d) ∷ []

-- The loop of `list_sessions` and of `gather_list_entries`.
unfoldable pub gather : ℕ → Files → List Entry
unfolding read_note
gather now [] = []
gather now ((name, d) ∷ fs) = entry_of now d (read_meta d) ++ gather now fs

abbrev pub changed : Entry → ℕ
changed (m, r, flag) = r.last_change

-- `sort_by_key` with `Reverse`, a stable sort.
unfoldable pub insert_recent : Entry → List Entry → List Entry
insert_recent e [] = e ∷ []
insert_recent e (x ∷ xs) =
    if leb (changed x) (changed e) then e ∷ x ∷ xs else x ∷ insert_recent e xs

unfoldable pub sort_recent : List Entry → List Entry
unfolding insert_recent
sort_recent [] = []
sort_recent (e ∷ es) = insert_recent e (sort_recent es)

abbrev pub info : (ℕ → Bool) → Entry → SessionInfo
info is_pid_alive (m, r, note) = record {
  id = (m.meta).id;
  cmd = m.cmd;
  state = (r.status).state;
  alive = is_owner_alive is_pid_alive m.meta r.status;
  exit_code = (r.status).exit_code;
  note = note;
  started_at = m.started_at;
  last_change = r.last_change;
}

-- `list_sessions`
unfoldable pub list_sessions : (ℕ → Bool) → ℕ → Files → List SessionInfo
unfolding gather sort_recent
list_sessions is_pid_alive now fs = map (info is_pid_alive) (sort_recent (gather now fs))
