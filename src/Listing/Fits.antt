-- ===== src/Listing/Fits.antt =====
-- src/sub.rs, render_list_text and truncate_cols: whether the line of the last output fits the terminal.
use babysit.Prelude.{
  ℕ, ◌+◌, ◌-◌, ◌<◌, ◌≤◌, ◌≡◌, ◌↔◌, ◌⊎◌, inl, inr, refl, ap, [], ◌∷◌, ◌++◌, length, take, arith,
  length-append, length-take,
}
use babysit.Listing.{Chars, truncate_cols, Layout, indent, dim, reset, spaces, last_line}

-- `truncate_cols` by what it is for: no more than the limit, unless there is none.
pub length-truncate_cols :
    (s : Chars) (limit : ℕ)
    → (truncate_cols s limit ≡ s × ((limit ≡ 0) ⊎ (length s ≤ limit)))
      ⊎ (length (truncate_cols s limit) ≡ limit × (0 < limit) × (limit < length s))
unfolding truncate_cols
length-truncate_cols s limit =
    ground (arith, length-append (take (limit - 1) s) (0x2026 ∷ []), length-take (limit - 1) s)

-- The same in numbers: `t` columns of `n` are shown, of a limit that is what an indentation leaves.
fits_iff :
    (i width t n : ℕ)
    → ((t ≡ n × ((width - i ≡ 0) ⊎ (n ≤ width - i)))
        ⊎ (t ≡ width - i × (0 < width - i) × (width - i < n)))
    → (i + t ≤ width) ↔ ((i < width) ⊎ (i + n ≤ width))
fits_iff i width t n h = ground arith

-- All of it where there is no limit or it is within, or else the beginning and an ellipsis.
truncate_cols-cases :
    (s : Chars) (i width : ℕ)
    → (truncate_cols s (width - i) ≡ s × ((width ≤ i) ⊎ (i + length s ≤ width)))
      ⊎ ((i < width)
          × (width < i + length s)
          × (truncate_cols s (width - i) ≡ take (width - i - 1) s ++ 0x2026 ∷ []))
unfolding truncate_cols
truncate_cols-cases s i width = ground arith

-- The line of the last output is indented to the command column. What it shows of the output is all of
-- it, if the indentation leaves no room or the output fits, or else as much of its beginning as there is
-- room for and an ellipsis; so it has at most as many columns as the terminal exactly if the indentation
-- leaves room for a character, or if the output fits as it is.
pub last_line_fits_iff :
    (l : Layout) (last : Chars)
    → (shown : Chars) × (last_line l last
        ≡ spaces (indent l) ++ dim l.color ++ 0x21b3 ∷ b' ' ∷ shown ++ reset l.color ++ b'\n' ∷ [])
      × ((shown ≡ last × ((l.width ≤ indent l + 2) ⊎ (indent l + 2 + length last ≤ l.width)))
          ⊎ ((indent l + 2 < l.width)
              × (l.width < indent l + 2 + length last)
              × (shown ≡ take (l.width - (indent l + 2) - 1) last ++ 0x2026 ∷ [])))
      × ((indent l + 2 + length shown ≤ l.width)
          ↔ ((indent l + 2 < l.width) ⊎ (indent l + 2 + length last ≤ l.width)))
unfolding last_line
last_line_fits_iff l last =
    let limit = l.width - (indent l + 2) in
    (
      truncate_cols last limit,
      refl,
      truncate_cols-cases last (indent l + 2) l.width,
      fits_iff (indent l + 2) l.width (length (truncate_cols last limit)) (length last)
          (elim (length-truncate_cols last limit) [
            | inl kept ↦ inl (ap length kept.0, kept.1)
            | inr cut ↦ inr cut
          ]),
    )
