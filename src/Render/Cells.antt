-- ===== src/Render/Cells.antt =====
-- src/render.rs: the cells of the structured format.
use babysit.Prelude.{
  ℕ, zero, suc, ◌+◌, ◌<◌, ◌≤◌, ◌≡◌, ◌≢◌, ◌⊎◌, inl, inr, subst, append-nil, refl, ◌∙◌, sym, Bool,
  true, false, ◌&&◌, ◌||◌, List, [], ◌∷◌, ◌++◌, Option, none, some, Bytes, ltb, is_empty, not, ◌==◌,
  if◌then◌else◌, arith,
}
use native.Mathlib.Decide.{dec_lt}
use babysit.Render.{
  Screen, Cell, CellObject, is_styled, cell_object, emitted, row_cells, cells_from, render_screen,
  as_json, Body, json_cells, plain_text, ansi_text,
}

-- The objects that say they are at a place.
pub at : ℕ → ℕ → List CellObject → List CellObject
at r c [] = []
at r c (o ∷ os) = if o.row == r && o.col == c then o ∷ at r c os else at r c os

at-append : (r c : ℕ) (a b : List CellObject) → at r c (a ++ b) ≡ at r c a ++ at r c b
unfolding at
at-append r c [] b = refl
at-append r c (o ∷ a) b = ground (arith, at-append r c a b)

at-if :
    (r c : ℕ) (b : Bool) (xs ys : List CellObject)
    → at r c (if b then xs else ys) ≡ (if b then at r c xs else at r c ys)
at-if r c true xs ys = refl
at-if r c false xs ys = refl

-- An object is at its own place.
at-cell_object :
    (r c r' c' : ℕ) (x : Cell)
    → at r c (cell_object r' c' x ∷ [])
      ≡ (if r' == r && c' == c then cell_object r' c' x ∷ [] else [])
unfolding at cell_object
at-cell_object r c r' c' x = refl

-- A place gives an object at that place only.
at-emitted :
    (r c r' c' : ℕ) (x : Option Cell)
    → at r c (emitted r' c' x) ≡ (if r' == r && c' == c then emitted r' c' x else [])
unfolding at emitted
at-emitted r c r' c' none = if_same (r' == r && c' == c)
  where
    if_same : (b : Bool) → [] ≡ (if b then (let os : List CellObject = [] in os) else [])
    if_same true = refl
    if_same false = refl
at-emitted r c r' c' (some x) =
    at_tests (r' == r && c' == c) x.wide_continuation (is_empty x.contents && not (is_styled x))
      (cell_object r' c' x) (at-cell_object r c r' c' x)
  where
    at_tests :
        (here wide skip : Bool) (o : CellObject)
        → at r c (o ∷ []) ≡ (if here then o ∷ [] else [])
        → at r c (if wide then [] else if skip then [] else o ∷ [])
          ≡ (if here then (if wide then [] else if skip then [] else o ∷ []) else [])
    at_tests true true skip o h = refl
    at_tests false true skip o h = refl
    at_tests true false true o h = refl
    at_tests false false true o h = refl
    at_tests true false false o h = h
    at_tests false false false o h = h

emitted_elsewhere :
    (r c r' c' : ℕ) (x : Option Cell) → (r' ≢ r) ⊎ (c' ≢ c) → at r c (emitted r' c' x) ≡ []
emitted_elsewhere r c r' c' x h = at-emitted r c r' c' x ∙ ground arith

emitted_here : (r c : ℕ) (x : Option Cell) → at r c (emitted r c x) ≡ emitted r c x
emitted_here r c x = at-emitted r c r c x ∙ ground arith

-- The columns of another row, and columns that are not reached, give nothing at a place.
row_cells_elsewhere :
    (s : Screen) (r c r' n k : ℕ)
    → (r' ≢ r) ⊎ ((c < k) ⊎ (k + n ≤ c))
    → at r c (row_cells s r' n k) ≡ []
unfolding row_cells at
row_cells_elsewhere s r c r' zero k h = refl
row_cells_elsewhere s r c r' (suc n) k h =
    at-append r c (emitted r' k (s.cell r' k)) (row_cells s r' n (suc k))
    ∙ rw
        (
          emitted_elsewhere r c r' k (s.cell r' k) (elim h [
            | inl e ↦ inl e
            | inr (inl e) ↦ inr (λ same. omega arith)
            | inr (inr e) ↦ inr (λ same. omega arith)
          ]),
          row_cells_elsewhere s r c r' n (suc k) (elim h [
            | inl e ↦ inl e
            | inr (inl e) ↦ inr (inl (omega arith))
            | inr (inr e) ↦ inr (inr (omega arith))
          ]),
        )
        refl

row_cells_here :
    (s : Screen) (r c n k : ℕ)
    → k ≤ c
    → c < k + n
    → at r c (row_cells s r n k) ≡ emitted r c (s.cell r c)
unfolding row_cells
row_cells_here s r c zero k le lt = absurd (omega arith)
row_cells_here s r c (suc n) k le lt =
    at-append r c (emitted r k (s.cell r k)) (row_cells s r n (suc k)) ∙ elim (dec_lt k c) [
      | yes before ↦
          rw
            (
              emitted_elsewhere r c r k (s.cell r k) (inr (λ same. omega arith)),
              row_cells_here s r c n (suc k) (omega arith) (omega arith),
            )
            refl
      | no same ↦ found k (omega arith)
    ]
  where
    found :
        (j : ℕ)
        → j ≡ c
        → at r c (emitted r j (s.cell r j)) ++ at r c (row_cells s r n (suc j))
          ≡ emitted r c (s.cell r c)
    found j e =
        subst
          (λ j'.
            at r c (emitted r j' (s.cell r j')) ++ at r c (row_cells s r n (suc j'))
            ≡ emitted r c (s.cell r c))
          (sym e)
          (rw
            (
              emitted_here r c (s.cell r c),
              row_cells_elsewhere s r c r n (suc c) (inr (inl (omega arith))),
            )
            (append-nil (emitted r c (s.cell r c))))

cells_from_elsewhere :
    (s : Screen) (r c n k : ℕ)
    → (r < k) ⊎ ((k + n ≤ r) ⊎ (s.cols ≤ c))
    → at r c (cells_from s n k) ≡ []
unfolding cells_from at
cells_from_elsewhere s r c zero k h = refl
cells_from_elsewhere s r c (suc n) k h =
    at-append r c (row_cells s k s.cols 0) (cells_from s n (suc k))
    ∙ rw
        (
          row_cells_elsewhere s r c k s.cols 0 (elim h [
            | inl e ↦ inl (λ same. omega arith)
            | inr (inl e) ↦ inl (λ same. omega arith)
            | inr (inr e) ↦ inr (inr (omega arith))
          ]),
          cells_from_elsewhere s r c n (suc k) (elim h [
            | inl e ↦ inl (omega arith)
            | inr (inl e) ↦ inr (inl (omega arith))
            | inr (inr e) ↦ inr (inr e)
          ]),
        )
        refl

cells_from_here :
    (s : Screen) (r c n k : ℕ)
    → k ≤ r
    → r < k + n
    → c < s.cols
    → at r c (cells_from s n k) ≡ emitted r c (s.cell r c)
unfolding cells_from
cells_from_here s r c zero k le lt col = absurd (omega arith)
cells_from_here s r c (suc n) k le lt col =
    at-append r c (row_cells s k s.cols 0) (cells_from s n (suc k)) ∙ elim (dec_lt k r) [
      | yes before ↦
          rw
            (
              row_cells_elsewhere s r c k s.cols 0 (inl (λ same. omega arith)),
              cells_from_here s r c n (suc k) (omega arith) (omega arith) col,
            )
            refl
      | no same ↦ found k (omega arith)
    ]
  where
    found :
        (j : ℕ)
        → j ≡ r
        → at r c (row_cells s j s.cols 0) ++ at r c (cells_from s n (suc j))
          ≡ emitted r c (s.cell r c)
    found j e =
        subst
          (λ j'.
            at r c (row_cells s j' s.cols 0) ++ at r c (cells_from s n (suc j'))
            ≡ emitted r c (s.cell r c))
          (sym e)
          (rw
            (
              row_cells_here s r c s.cols 0 (omega arith) (omega arith),
              cells_from_elsewhere s r c n (suc r) (inl (omega arith)),
            )
            (append-nil (emitted r c (s.cell r c))))

-- What a place shows: a cell that is no continuation of a wide one, with contents, color or attribute.
unfoldable pub shown : ℕ → ℕ → Option Cell → List CellObject
unfolding cell_object
shown r c none = []
shown r c (some x) =
    if not x.wide_continuation && (not (is_empty x.contents) || is_styled x)
    then cell_object r c x ∷ []
    else []

emitted_shown : (r c : ℕ) (x : Option Cell) → emitted r c x ≡ shown r c x
unfolding emitted shown
emitted_shown r c none = refl
emitted_shown r c (some x) =
    tests x.wide_continuation (is_empty x.contents) (is_styled x) (cell_object r c x ∷ [])
  where
    tests :
        (wide empty styled : Bool) (os : List CellObject)
        → (if wide then [] else if empty && not styled then [] else os)
          ≡ (if not wide && (not empty || styled) then os else [])
    tests true empty styled os = refl
    tests false true true os = refl
    tests false true false os = refl
    tests false false styled os = refl

-- The objects of a screen that are at a place, as they should be.
unfoldable pub expected : Screen → ℕ → ℕ → List CellObject
unfolding shown
expected s r c = if ltb r s.rows && ltb c s.cols then shown r c (s.cell r c) else []

abbrev pub objects : Body → List CellObject
objects (json_cells os) = os
objects (plain_text t) = []
objects (ansi_text t) = []

-- The structured format has, for every place on the screen, the object of its cell exactly once if the
-- cell is no continuation of a wide one and has contents, a color or an attribute, and else none; and it
-- has no object for a place that is not on the screen.
pub at-render_screen :
    (text_hash : List Bytes → ℕ) (s : Screen) (trimmed : Bool) (r c : ℕ)
    → at r c (objects (render_screen text_hash s as_json trimmed).body) ≡ expected s r c
unfolding render_screen expected
at-render_screen text_hash s trimmed r c = elim (dec_lt r s.rows) [
  | no below ↦ cells_from_elsewhere s r c s.rows 0 (inr (inl (omega arith))) ∙ ground arith
  | yes row ↦ elim (dec_lt c s.cols) [
    | no right ↦ cells_from_elsewhere s r c s.rows 0 (inr (inr (omega arith))) ∙ ground arith
    | yes col ↦
        cells_from_here s r c s.rows 0 (omega arith) (omega arith) col
        ∙ emitted_shown r c (s.cell r c)
        ∙ ground arith
  ]
]
