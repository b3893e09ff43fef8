-- ===== src/Render.antt =====
-- src/render.rs: a screen as `babysit screenshot` emits it. The screen of the crate vt100 is a record
-- of what its methods return.
pub mod Cells
use babysit.Prelude.{
  ℕ, zero, suc, ◌+◌, ◌/◌, ◌%◌, Bool, true, false, not, ◌&&◌, ◌||◌, List, [], ◌∷◌, ◌++◌, Option,
  none, some, Bytes, take, codes, is_empty, ltb, leb, ◌==◌, if◌then◌else◌,
}
use babysit.Durations.{is_space}
use babysit.Durations.Units.{decimal}
use babysit.Log.Utf8.{from_utf8_lossy}

-- `vt100::Color`
pub data Color : Type 0 where
  default : Color
  idx : ℕ → Color
  rgb : (r g b : ℕ) → Color

-- `vt100::Cell`
pub record Cell : Type 0 where
  pub contents : Bytes
  pub wide_continuation : Bool
  pub bold : Bool
  pub italic : Bool
  pub underline : Bool
  pub inverse : Bool
  pub fg : Color
  pub bg : Color

-- `vt100::Screen`: its size, the cursor, its flags, its rows as plain text and with escape sequences, and
-- its cells, if there are any at a place.
pub record Screen : Type 0 where
  pub rows : ℕ
  pub cols : ℕ
  pub cursor : ℕ × ℕ
  pub hide_cursor : Bool
  pub alternate : Bool
  pub plain : List Bytes
  pub formatted : List Bytes
  pub cell : ℕ → ℕ → Option Cell

abbrev pub is_default : Color → Bool
is_default default = true
is_default (idx i) = false
is_default (rgb r g b) = false

abbrev pub hex_digit : ℕ → ℕ
hex_digit n = if ltb n 10 then b'0' + n else 87 + n

-- `{:02x}` of a byte
abbrev pub hex_byte : ℕ → Bytes
hex_byte n = hex_digit (n / 16) ∷ hex_digit (n % 16) ∷ []

-- `color_str`
unfoldable pub color_str : Color → Bytes
color_str default = codes "default"
color_str (idx i) = codes "idx" ++ decimal i
color_str (rgb r g b) = b'#' ∷ hex_byte r ++ hex_byte g ++ hex_byte b

-- The white space that takes two bytes, and three, in UTF-8.
abbrev pub is_space2 : ℕ → ℕ → Bool
is_space2 a b = a == 0xc2 && (b == 0x85 || b == 0xa0)

abbrev pub is_space3 : ℕ → ℕ → ℕ → Bool
is_space3 a b c =
    (a == 0xe1 && b == 0x9a && c == 0x80)
    || (a == 0xe2
        && b == 0x80
        && ((leb 0x80 c && leb c 0x8a) || c == 0xa8 || c == 0xa9 || c == 0xaf))
    || (a == 0xe2 && b == 0x81 && c == 0x9f)
    || (a == 0xe3 && b == 0x80 && c == 0x80)

-- `trim().is_empty()`
unfoldable pub is_blank : Bytes → Bool
is_blank [] = true
is_blank (a ∷ []) = is_space a
is_blank (a ∷ b ∷ []) = let one = is_blank (b ∷ []) in if is_space a then one else is_space2 a b
is_blank (a ∷ b ∷ c ∷ rest) =
    let one = is_blank (b ∷ c ∷ rest) in
    let two = is_blank (c ∷ rest) in
    let three = is_blank rest in
    if is_space a then one else if is_space2 a b then two else is_space3 a b c && three

-- `last_nonblank`: the index behind the last row that is not blank.
unfoldable pub last_nonblank : List Bytes → ℕ
unfolding is_blank
last_nonblank [] = 0
last_nonblank (l ∷ ls) = elim (last_nonblank ls) [
  | zero ↦ if not (is_blank l) then 1 else 0
  | suc n ↦ suc (suc n)
]

-- `lines.truncate(last_nonblank(plain))`, if the screen is trimmed
abbrev pub truncated : Bool → List Bytes → List Bytes → List Bytes
unfolding last_nonblank
truncated trimmed plain lines = if trimmed then take (last_nonblank plain) lines else lines

abbrev pub join_lines : List Bytes → Bytes
join_lines [] = []
join_lines (l ∷ []) = l
join_lines (l ∷ m ∷ ls) = l ++ b'\n' ∷ join_lines (m ∷ ls)

abbrev pub lossy : List Bytes → List Bytes
lossy [] = []
lossy (l ∷ ls) = from_utf8_lossy l ∷ lossy ls

-- The object of a cell: a color that is not the default, and the attributes that are set.
pub record CellObject : Type 0 where
  pub row : ℕ
  pub col : ℕ
  pub char : Bytes
  pub fg : Option Bytes
  pub bg : Option Bytes
  pub bold : Bool
  pub italic : Bool
  pub underline : Bool
  pub inverse : Bool

abbrev pub color_of : Color → Option Bytes
unfolding color_str
color_of c = if not (is_default c) then some (color_str c) else none

abbrev pub is_styled : Cell → Bool
is_styled x =
    x.bold || x.italic || x.underline || x.inverse || not (is_default x.fg) || not (is_default x.bg)

abbrev pub cell_object : ℕ → ℕ → Cell → CellObject
unfolding color_of
cell_object r c x = record {
  row = r;
  col = c;
  char = x.contents;
  fg = color_of x.fg;
  bg = color_of x.bg;
  bold = x.bold;
  italic = x.italic;
  underline = x.underline;
  inverse = x.inverse;
}

-- What a place adds to the cells.
unfoldable pub emitted : ℕ → ℕ → Option Cell → List CellObject
unfolding cell_object
emitted r c none = []
emitted r c (some x) =
    if x.wide_continuation
    then []
    else if is_empty x.contents && not (is_styled x)
    then []
    else cell_object r c x ∷ []

-- The inner loop: `n` columns of a row, from `c` on.
unfoldable pub row_cells : Screen → ℕ → ℕ → ℕ → List CellObject
unfolding emitted
row_cells s r zero c = []
row_cells s r (suc n) c = emitted r c (s.cell r c) ++ row_cells s r n (suc c)

-- The outer loop: `n` rows, from `r` on.
unfoldable pub cells_from : Screen → ℕ → ℕ → List CellObject
unfolding row_cells
cells_from s zero r = []
cells_from s (suc n) r = row_cells s r s.cols 0 ++ cells_from s n (suc r)

-- The formats, and what they put beside the geometry.
pub data Format : Type 0 where
  as_plain as_ansi as_json : Format

pub data Body : Type 0 where
  plain_text ansi_text : Bytes → Body
  json_cells : List CellObject → Body

pub record Shot : Type 0 where
  pub size : ℕ × ℕ
  pub cursor : ℕ × ℕ
  pub hidden : Bool
  pub alternate_screen : Bool
  pub screen_hash : ℕ
  pub body : Body

abbrev pub body_of : Screen → Format → Bool → Body
unfolding truncated cells_from
body_of s as_plain trimmed = plain_text (join_lines (truncated trimmed s.plain s.plain))
body_of s as_ansi trimmed =
    ansi_text (join_lines (truncated trimmed s.plain (lossy s.formatted)) ++ 0x1b ∷ codes "[0m")
body_of s as_json trimmed = json_cells (cells_from s s.rows 0)

-- `render_screen`; `text_hash` hashes the plain rows with the hasher of the standard library.
unfoldable pub render_screen : (List Bytes → ℕ) → Screen → Format → Bool → Shot
unfolding body_of
render_screen text_hash s format trimmed = record {
  size = (s.rows, s.cols);
  cursor = s.cursor;
  hidden = s.hide_cursor;
  alternate_screen = s.alternate;
  screen_hash = text_hash s.plain;
  body = body_of s format trimmed;
}

-- `render_log`: the screen that the crate's parser makes of the bytes of a log.
abbrev pub render_log : (Bytes → Screen) → (List Bytes → ℕ) → Bytes → Format → Bool → Shot
unfolding render_screen
render_log parser text_hash bytes format trimmed =
    render_screen text_hash (parser bytes) format trimmed
