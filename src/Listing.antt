-- ===== src/Listing.antt =====
-- src/sub.rs: the table of `babysit list`. A text is the list of its characters, as its columns count
-- them; an id is ASCII.
pub mod Columns
pub mod Fits
pub mod Visible
use babysit.Prelude.{
  ℕ, zero, suc, ◌+◌, ◌-◌, ◌/◌, ◌^◌, max, Bool, true, false, ◌&&◌, ◌||◌, List, [], ◌∷◌, ◌++◌, map,
  Option, none, some, length, bytes_eq, take, drop, codes, ◌==◌, ltb, leb, is_empty, if◌then◌else◌,
}
use babysit.Session.{
  Status, Meta, Label, dead_label, starting_label, running_label, exited_label, killed_label,
  exit_label, state_label_for,
}
use babysit.Durations.Units.{decimal}

abbrev pub Chars : Type 0
Chars = List ℕ

-- An entry: what `gather_list_entries` reads of a session. Times are in nanoseconds.
pub record Entry : Type 0 where
  pub meta : Meta
  pub cmd : List Chars
  pub started_at : ℕ
  pub status : Status
  pub note : Option Chars

abbrev pub spaces : ℕ → Chars
spaces zero = []
spaces (suc n) = b' ' ∷ spaces n

-- `{:<width$}`
abbrev pub padded : ℕ → Chars → Chars
padded width s = s ++ spaces (width - length s)

-- `truncate_cols`
unfoldable pub truncate_cols : Chars → ℕ → Chars
truncate_cols s max_cols =
    if max_cols == 0 || leb (length s) max_cols then s else take (max_cols - 1) s ++ 0x2026 ∷ []

-- `format_age`
unfoldable pub format_age : ℕ → ℕ → Chars
format_age started now =
    let secs = (now - started) / 1000000000 in
    if ltb secs 60
    then decimal secs ++ codes "s"
    else if ltb secs 3600
    then decimal (secs / 60) ++ codes "m"
    else if ltb secs 86400
    then decimal (secs / 3600) ++ codes "h"
    else decimal (secs / 86400) ++ codes "d"

-- An `i32`, from its bit pattern.
abbrev pub signed : ℕ → Chars
signed c = if ltb c (2 ^ 31) then decimal c else b'-' ∷ decimal (2 ^ 32 - c)

-- The text of `state_label_for`.
unfoldable pub label_text : Label → Chars
label_text dead_label = codes "dead"
label_text starting_label = codes "starting"
label_text running_label = codes "running"
label_text exited_label = codes "exited"
label_text killed_label = codes "killed"
label_text (exit_label c) = codes "exit:" ++ signed c

-- `state_color`
unfoldable pub state_color : Chars → Chars
state_color label =
    if bytes_eq label (codes "exit:0") || bytes_eq label (codes "running")
    then 0x1b ∷ codes "[32m"
    else if bytes_eq label (codes "starting") || bytes_eq label (codes "exited")
    then 0x1b ∷ codes "[33m"
    else 0x1b ∷ codes "[31m"

-- `join`
abbrev pub join : Chars → List Chars → Chars
join sep [] = []
join sep (s ∷ []) = s
join sep (s ∷ t ∷ rest) = s ++ sep ++ join sep (t ∷ rest)

abbrev pub suffix_of : Option Chars → Chars
suffix_of none = []
suffix_of (some n) =
    if is_empty n then codes "  " ++ 0x2691 ∷ [] else codes "  " ++ 0x2691 ∷ b' ' ∷ n

-- The columns of a row.
pub record Cells : Type 0 where
  pub id : Chars
  pub label : Label
  pub age : Chars
  pub cmd : Chars

abbrev pub cells_of : (ℕ → Bool) → ℕ → Entry → Cells
unfolding format_age
cells_of is_pid_alive now e = record {
  id = e.meta.id;
  label = state_label_for is_pid_alive (some e.meta) e.status;
  age = format_age e.started_at now;
  cmd = join (codes " ") e.cmd ++ suffix_of e.note;
}

-- Each row reads the clock: `clock i` is what the i-th row reads.
abbrev pub rows_of : (ℕ → Bool) → (ℕ → ℕ) → ℕ → List Entry → List Cells
unfolding format_age
rows_of is_pid_alive clock i [] = []
rows_of is_pid_alive clock i (e ∷ es) =
    cells_of is_pid_alive (clock i) e ∷ rows_of is_pid_alive clock (suc i) es

-- The widest of a column, its title included.
unfoldable pub widest : ℕ → List Chars → ℕ
widest title [] = title
widest title (s ∷ rest) = max (length s) (widest title rest)

-- How a table is laid out.
pub record Layout : Type 0 where
  pub id_w : ℕ
  pub state_w : ℕ
  pub age_w : ℕ
  pub color : Bool
  pub width : ℕ

abbrev pub layout_of : List Cells → Bool → ℕ → Layout
unfolding widest label_text
layout_of rows color width = record {
  id_w = widest (length (codes "ID")) (map (λ r. r.id) rows);
  state_w = widest (length (codes "STATE")) (map (λ r. label_text r.label) rows);
  age_w = widest (length (codes "AGE")) (map (λ r. r.age) rows);
  color = color;
  width = width;
}

abbrev pub dim : Bool → Chars
dim color = if color then 0x1b ∷ codes "[2m" else []

abbrev pub reset : Bool → Chars
reset color = if color then 0x1b ∷ codes "[0m" else []

abbrev pub indent : Layout → ℕ
indent l = l.id_w + 1 + l.state_w + 1 + l.age_w + 1

abbrev pub state_cell : Layout → Label → Chars
unfolding label_text state_color
state_cell l label =
    let state = label_text label in
    if l.color
    then state_color state ++ state ++ reset l.color ++ drop (length state) (padded l.state_w state)
    else padded l.state_w state

-- The line of a row, with its newline.
abbrev pub row_line : Layout → Cells → Chars
unfolding label_text state_color
row_line l r =
    padded l.id_w r.id
    ++ codes " "
    ++ state_cell l r.label
    ++ codes " "
    ++ padded l.age_w r.age
    ++ codes " "
    ++ r.cmd
    ++ b'\n' ∷ []

-- The line below it that shows the last output.
abbrev pub last_line : Layout → Chars → Chars
unfolding truncate_cols
last_line l last =
    spaces (indent l)
    ++ dim l.color
    ++ 0x21b3 ∷ b' ' ∷ truncate_cols last (l.width - (indent l + 2))
    ++ reset l.color
    ++ b'\n' ∷ []

abbrev pub continuation : Layout → Option Chars → Chars
unfolding truncate_cols
continuation l none = []
continuation l (some last) = last_line l last

-- `last_lines.get(i)`, row by row.
abbrev pub first_of : List (Option Chars) → Option Chars
first_of [] = none
first_of (x ∷ xs) = x

unfoldable pub render_rows : Layout → List Cells → List (Option Chars) → Chars
unfolding label_text state_color truncate_cols
render_rows l [] last_lines = []
render_rows l (r ∷ rows) last_lines =
    row_line l r ++ continuation l (first_of last_lines) ++ render_rows l rows (drop 1 last_lines)

abbrev pub title_line : Layout → Chars
title_line l =
    dim l.color
    ++ padded l.id_w (codes "ID")
    ++ codes " "
    ++ padded l.state_w (codes "STATE")
    ++ codes " "
    ++ padded l.age_w (codes "AGE")
    ++ codes " CMD"
    ++ reset l.color
    ++ b'\n' ∷ []

abbrev pub render_cells : List Cells → Bool → List (Option Chars) → ℕ → Chars
unfolding widest label_text render_rows
render_cells rows color last_lines width =
    let l = layout_of rows color width in title_line l ++ render_rows l rows last_lines

-- `render_list_text`
unfoldable pub render_list_text :
    (ℕ → Bool) → (ℕ → ℕ) → List Entry → Bool → List (Option Chars) → ℕ → Chars
unfolding widest label_text render_rows format_age
render_list_text is_pid_alive clock [] color last_lines width = codes "(no sessions)\n"
render_list_text is_pid_alive clock (e ∷ es) color last_lines width =
    render_cells (rows_of is_pid_alive clock 0 (e ∷ es)) color last_lines width
