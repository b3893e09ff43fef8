-- ===== src/Tests/Listed.antt =====
-- The list of sessions, src/sub.rs, the control socket, src/control.rs, a screen, src/render.rs, and
-- the path of a socket, src/paths.rs.
use babysit.Prelude.{
  take, ◌-◌, ℕ, ◌+◌, ◌<◌, ◌≤◌, ◌≡◌, ◌↔◌, ◌⊎◌, true, false, Bool, [], ◌∷◌, ◌++◌, none, some, codes,
  length, Option, ◌==◌, if◌then◌else◌,
}
use babysit.Session.{running, exited}
use babysit.Listing.{
  Chars, Entry, spaces, dim, reset, Layout, indent, last_line, rows_of, render_list_text,
  title_line,
}
use babysit.Listing.Columns.{Rows, table_layout, render_list_text-Rows}
use babysit.Listing.Fits.{last_line_fits_iff}
use babysit.Paths.{Babysit, stable_hash, control_socket_path}
use babysit.Paths.Short.{control_socket_path_short}
use babysit.Render.{Cell, Screen, default, idx, cell_object, render_screen, as_json}
use babysit.Render.Cells.{at, objects, expected, shown, at-render_screen}
use babysit.Socket.{nothing, Calls, Places, directory, socket, plain}

abbrev a_running_session : Entry
a_running_session = record {
  meta = record { id = codes "build"; babysit_pid = 7 };
  cmd = codes "make" ∷ codes "all" ∷ [];
  started_at = 1000000000;
  status = record { state = running; child_pid = some 8; exit_code = none };
  note = some (codes "look");
}

abbrev a_finished_session : Entry
a_finished_session = record {
  meta = record { id = codes "a"; babysit_pid = 9 };
  cmd = codes "ls" ∷ [];
  started_at = 0;
  status = record { state = exited; child_pid = none; exit_code = some 0 };
  note = none;
}

abbrev everyone : ℕ → Bool
everyone pid = true

abbrev a_clock : ℕ → ℕ
a_clock i = 65000000000

render_list_text-Rows_example :
    (rest : Chars) × (render_list_text everyone a_clock
        (a_running_session ∷ a_finished_session ∷ [])
        true
        (some (codes "ok") ∷ none ∷ [])
        80
      ≡ title_line
          (table_layout everyone a_clock (a_running_session ∷ a_finished_session ∷ []) true 80)
        ++ rest)
    × Rows
        (table_layout everyone a_clock (a_running_session ∷ a_finished_session ∷ []) true 80)
        (rows_of everyone a_clock 0 (a_running_session ∷ a_finished_session ∷ []))
        (some (codes "ok") ∷ none ∷ [])
        rest
render_list_text-Rows_example =
    render_list_text-Rows everyone a_clock a_running_session (a_finished_session ∷ []) true
      (some (codes "ok") ∷ none ∷ []) 80

abbrev narrow : Layout
narrow = record { id_w = 5; state_w = 7; age_w = 3; color = false; width = 16 }

last_line_fits_iff_example :
    (shown : Chars) × (last_line narrow (codes "compiling")
      ≡ spaces (indent narrow)
        ++ dim narrow.color
        ++ 0x21b3 ∷ b' ' ∷ shown
        ++ reset narrow.color
        ++ b'\n' ∷ [])
    × ((shown ≡ codes "compiling"
          × ((narrow.width ≤ indent narrow + 2)
              ⊎ (indent narrow + 2 + length (codes "compiling") ≤ narrow.width)))
        ⊎ ((indent narrow + 2 < narrow.width)
            × (narrow.width < indent narrow + 2 + length (codes "compiling"))
            × (shown
                ≡ take (narrow.width - (indent narrow + 2) - 1) (codes "compiling")
                  ++ 0x2026 ∷ [])))
    × ((indent narrow + 2 + length shown ≤ narrow.width) ↔ (
        (indent narrow + 2 < narrow.width)
        ⊎ (indent narrow + 2 + length (codes "compiling") ≤ narrow.width)))
last_line_fits_iff_example = last_line_fits_iff narrow (codes "compiling")

abbrev all_succeed : Calls
all_succeed = record {
  uid = 5;
  creates = true;
  inspects = true;
  sets_mode = true;
  removes = true;
  binds = true;
  legacy_binds = true;
}

-- A directory of an earlier worker, open to others, with its stale socket.
abbrev before : Places
before = record {
  user_dir = directory 5 509;
  socket_dir = nothing;
  control_socket = socket 5 509;
  legacy_socket = plain 5 420;
}

abbrev after : Places
after = record {
  user_dir = directory 5 448;
  socket_dir = directory 5 448;
  control_socket = socket 5 384;
  legacy_socket = socket 5 384;
}

abbrev a_cell : Cell
a_cell = record {
  contents = codes "X";
  wide_continuation = false;
  bold = false;
  italic = false;
  underline = false;
  inverse = true;
  fg = idx 1;
  bg = default;
}

abbrev x_then_nothing : ℕ → ℕ → Option Cell
x_then_nothing r c = if c == 0 then some a_cell else none

abbrev a_screen : Screen
a_screen = record {
  rows = 1;
  cols = 2;
  cursor = (0, 1);
  hide_cursor = false;
  alternate = false;
  plain = codes "X" ∷ [];
  formatted = codes "X" ∷ [];
  cell = x_then_nothing;
}

at-render_screen_example :
    at 0 0 (objects (render_screen (λ ls. 0) a_screen as_json true).body)
    ≡ cell_object 0 0 a_cell ∷ []
unfolding expected shown
at-render_screen_example = at-render_screen (λ ls. 0) a_screen true 0 0

abbrev a_home : Babysit
a_home = record { root = codes "/home/me/.babysit"; sockets = codes "/home/me/.babysit-sockets" }

control_socket_path_short_example :
    (length (control_socket_path a_home (codes "build")) ≤ length a_home.sockets + 34)
    × ((control_socket_path a_home (codes "build") ≡ control_socket_path a_home (codes "test"))
        ↔ (stable_hash (codes "build") ≡ stable_hash (codes "test")))
control_socket_path_short_example = control_socket_path_short a_home (codes "build") (codes "test")
