-- ===== src/Listing/Columns.antt =====
-- src/sub.rs, render_list_text: the rows of the table stand in columns.
use babysit.Prelude.{
  ℕ, zero, suc, ◌+◌, ◌-◌, ◌≤◌, max, ◌≡◌, refl, ap, ◌∙◌, Bool, true, false, List, [], ◌∷◌, ◌++◌, map,
  append_assoc, Option, length, drop, codes, if◌then◌else◌, arith, All, drop-length_append,
}
use babysit.Listing.{
  Chars, Entry, spaces, padded, label_text, state_color, Cells, rows_of, widest, Layout, layout_of,
  reset, state_cell, row_line, continuation, first_of, render_rows, title_line, render_list_text,
}

-- A label as a reader sees it, in its color.
abbrev pub painted : Layout → Chars → Chars
unfolding state_color
painted l label = if l.color then state_color label ++ label ++ reset l.color else label

-- A line that shows a row in the columns of a layout: between two cells there is a gap, and every
-- cell starts where the layout has its column, escape sequences not counted.
pub record Aligned (l : Layout) (r : Cells) (line : Chars) : Type 0 where
  pub gap_1 : ℕ
  pub gap_2 : ℕ
  pub gap_3 : ℕ
  pub shown :
      line
      ≡ r.id
        ++ spaces (suc gap_1)
        ++ painted l (label_text r.label)
        ++ spaces (suc gap_2)
        ++ r.age
        ++ spaces (suc gap_3)
        ++ r.cmd
        ++ b'\n' ∷ []
  pub state_column : length r.id + suc gap_1 ≡ l.id_w + 1
  pub age_column : length (label_text r.label) + suc gap_2 ≡ l.state_w + 1
  pub cmd_column : length r.age + suc gap_3 ≡ l.age_w + 1

-- Rows, each followed by the last output of its session, where there is any.
pub data Rows (l : Layout) : List Cells → List (Option Chars) → Chars → Type 0 where
  no_rows : (last_lines : List (Option Chars)) → Rows l [] last_lines []
  row_then :
      (r : Cells) (rows : List Cells) (last_lines : List (Option Chars)) (line rest : Chars)
      → Aligned l r line
      → Rows l rows (drop 1 last_lines) rest
      → Rows l (r ∷ rows) last_lines (line ++ continuation l (first_of last_lines) ++ rest)

length-spaces : (n : ℕ) → length (spaces n) ≡ n
length-spaces zero = refl
length-spaces (suc n) = ap suc (length-spaces n)

spaces_snoc : (n : ℕ) (s : Chars) → spaces n ++ b' ' ∷ s ≡ b' ' ∷ spaces n ++ s
spaces_snoc zero s = refl
spaces_snoc (suc n) s = ap (◌∷◌ b' ') (spaces_snoc n s)

state_cell_painted :
    (color : Bool) (sgr label reset pad : Chars)
    → (if color then sgr ++ label ++ reset ++ drop (length label) (label ++ pad) else label ++ pad)
      ≡ (if color then sgr ++ label ++ reset else label) ++ pad
state_cell_painted true sgr label reset pad =
    ap (◌++◌ (sgr ++ label ++ reset)) (drop-length_append label pad)
state_cell_painted false sgr label reset pad = refl

-- Three cells that are padded, each with a space behind it.
three_cells :
    (a b c : ℕ) (id state age cmd : Chars)
    → (id ++ spaces a)
        ++ codes " "
        ++ (state ++ spaces b)
        ++ codes " "
        ++ (age ++ spaces c)
        ++ codes " "
        ++ cmd
        ++ b'\n' ∷ []
      ≡ id
        ++ spaces (suc a)
        ++ state
        ++ spaces (suc b)
        ++ age
        ++ spaces (suc c)
        ++ cmd
        ++ b'\n' ∷ []
three_cells a b c id state age cmd = simp (append_assoc, spaces_snoc)

weaken :
    (f : Cells → Chars) (m n : ℕ) (rows : List Cells)
    → m ≤ n
    → All (λ r. length (f r) ≤ m) rows
    → All (λ r. length (f r) ≤ n) rows
weaken f m n [] le all = tt
weaken f m n (r ∷ rows) le all = (omega (arith, all.0), weaken f m n rows le all.1)

-- A column is as wide as its widest cell.
widest-bounds :
    (title : ℕ) (f : Cells → Chars) (rows : List Cells)
    → All (λ r. length (f r) ≤ widest title (map f rows)) rows
unfolding widest
widest-bounds title f [] = tt
widest-bounds title f (r ∷ rows) = (
  omega arith,
  weaken f (widest title (map f rows)) (max (length (f r)) (widest title (map f rows))) rows
      (omega arith) (widest-bounds title f rows),
)

row_line-Aligned :
    (l : Layout) (r : Cells)
    → length r.id ≤ l.id_w
    → length (label_text r.label) ≤ l.state_w
    → length r.age ≤ l.age_w
    → Aligned l r (row_line l r)
unfolding state_cell painted
row_line-Aligned l r i s a = record {
  gap_1 = l.id_w - length r.id;
  gap_2 = l.state_w - length (label_text r.label);
  gap_3 = l.age_w - length r.age;
  shown = shown;
  state_column = omega arith;
  age_column = omega arith;
  cmd_column = omega arith;
}
  where
    cell :
        state_cell l r.label
        ≡ painted l (label_text r.label) ++ spaces (l.state_w - length (label_text r.label))
    cell =
        state_cell_painted l.color (state_color (label_text r.label)) (label_text r.label)
          (reset l.color) (spaces (l.state_w - length (label_text r.label)))

    shown :
        row_line l r
        ≡ r.id
          ++ spaces (suc (l.id_w - length r.id))
          ++ painted l (label_text r.label)
          ++ spaces (suc (l.state_w - length (label_text r.label)))
          ++ r.age
          ++ spaces (suc (l.age_w - length r.age))
          ++ r.cmd
          ++ b'\n' ∷ []
    shown =
        ap
          (λ c.
            padded l.id_w r.id
            ++ codes " "
            ++ c
            ++ codes " "
            ++ padded l.age_w r.age
            ++ codes " "
            ++ r.cmd
            ++ b'\n' ∷ [])
          cell
        ∙ three_cells (l.id_w - length r.id) (l.state_w - length (label_text r.label))
            (l.age_w - length r.age) r.id (painted l (label_text r.label)) r.age r.cmd

render_rows-Rows :
    (l : Layout) (rows : List Cells) (last_lines : List (Option Chars))
    → All (λ r. length r.id ≤ l.id_w) rows
    → All (λ r. length (label_text r.label) ≤ l.state_w) rows
    → All (λ r. length r.age ≤ l.age_w) rows
    → Rows l rows last_lines (render_rows l rows last_lines)
unfolding render_rows
render_rows-Rows l [] last_lines i s a = no_rows last_lines
render_rows-Rows l (r ∷ rows) last_lines i s a =
    row_then r rows last_lines (row_line l r) (render_rows l rows (drop 1 last_lines))
      (row_line-Aligned l r i.0 s.0 a.0) (render_rows-Rows l rows (drop 1 last_lines) i.1 s.1 a.1)

-- The layout of the table of some entries.
abbrev pub table_layout : (ℕ → Bool) → (ℕ → ℕ) → List Entry → Bool → ℕ → Layout
unfolding rows_of
table_layout is_pid_alive clock es color width =
    layout_of (rows_of is_pid_alive clock 0 es) color width

-- The table of one session or more is its title line and then, for each session in order, a line with
-- its id, state, age and command, where every column starts at the same place in all rows, with a gap
-- of at least one space and the escape sequences of the colors not counted, and then the line of its
-- last output, where there is one.
pub render_list_text-Rows :
    (is_pid_alive : ℕ → Bool) (clock : ℕ → ℕ) (e : Entry) (es : List Entry) (color : Bool)
    (last_lines : List (Option Chars)) (width : ℕ)
    → (rest : Chars) × (render_list_text is_pid_alive clock (e ∷ es) color last_lines width
        ≡ title_line (table_layout is_pid_alive clock (e ∷ es) color width) ++ rest)
      × Rows
          (table_layout is_pid_alive clock (e ∷ es) color width)
          (rows_of is_pid_alive clock 0 (e ∷ es))
          last_lines
          rest
unfolding render_list_text
render_list_text-Rows is_pid_alive clock e es color last_lines width =
    let rows = rows_of is_pid_alive clock 0 (e ∷ es) in
    let l = layout_of rows color width in
    (
      render_rows l rows last_lines,
      refl,
      render_rows-Rows l rows last_lines (widest-bounds 2 (λ r. r.id) rows)
          (widest-bounds 5 (λ r. label_text r.label) rows) (widest-bounds 3 (λ r. r.age) rows),
    )
