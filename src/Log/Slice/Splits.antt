-- ===== src/Log/Slice/Splits.antt =====
-- Two kinds of incomplete output that are let through.
use babysit.Prelude.{
  ℕ, ◌+◌, ◌<◌, ◌≡◌, ◌≢◌, refl, ap, ◌∙◌, false, [], ◌∷◌, ◌++◌, none, some, Bytes, length, arith, any,
  ◌==◌, All, take_all, take-length_append, drop-length_append,
}
use babysit.Log.Utf8.{valid, invalid, from_utf8, check, first_char}
use babysit.Log.Utf8.Valid.{from_utf8_truncated}
use babysit.Log.Utf8.Prefix.{from_utf8_junk}
use babysit.Log.Slice.{
  esc, has_terminator, escape_complete, last_esc, escape_cut, utf8_cut, safe_prefix_len,
}

abbrev pub NoEsc : Bytes → Type 0
NoEsc = All λ b. b ≢ esc

last_esc-NoEsc : (bytes : Bytes) → NoEsc bytes → last_esc bytes ≡ none
unfolding last_esc
last_esc-NoEsc [] h = refl
last_esc-NoEsc (b ∷ bs) h = ground (arith, last_esc-NoEsc bs h.1)

escape_cut-NoEsc : (bytes : Bytes) → NoEsc bytes → escape_cut bytes ≡ length bytes
unfolding escape_cut
escape_cut-NoEsc bytes h = rw (last_esc-NoEsc bytes h, escape_cut)

NoEsc-append : (xs ys : Bytes) → NoEsc xs → NoEsc ys → NoEsc (xs ++ ys)
NoEsc-append [] ys hx hy = hy
NoEsc-append (x ∷ xs) ys hx hy = (hx.0, NoEsc-append xs ys hx.1 hy)

pub safe_prefix_len-NoEsc :
    (bytes : Bytes)
    → NoEsc bytes
    → safe_prefix_len bytes ≡ utf8_cut (from_utf8 bytes) (length bytes)
unfolding safe_prefix_len
safe_prefix_len-NoEsc bytes h =
    rw (escape_cut-NoEsc bytes h) (
      ap (λ b. utf8_cut (from_utf8 b) (length bytes)) (take_all (length bytes) bytes (omega arith)))

-- Let neither text hold an escape, `xs` hold an invalid byte, and `ys` end inside a character. Then
-- `ys` is held back from that character on, but `xs ++ ys` is let through whole.
pub junk_lets_truncated_through :
    (xs ys : Bytes) {p n q : ℕ}
    → NoEsc xs
    → NoEsc ys
    → from_utf8 xs ≡ invalid p (some n)
    → from_utf8 ys ≡ invalid q none
    → (safe_prefix_len ys ≡ q) × (q < length ys) × (safe_prefix_len (xs ++ ys) ≡ length (xs ++ ys))
junk_lets_truncated_through xs ys {p} {n} {q} hx hy junk cut = (
  safe_prefix_len-NoEsc ys hy ∙ ap (λ c. utf8_cut c (length ys)) cut,
  (from_utf8_truncated ys q cut).1,
  safe_prefix_len-NoEsc (xs ++ ys) (NoEsc-append xs ys hx hy)
      ∙ ap (λ c. utf8_cut c (length (xs ++ ys))) (from_utf8_junk xs ys junk),
)

-- The body of a title or the like: ASCII with neither an escape nor a bell.
abbrev pub IsBody : Bytes → Type 0
IsBody = All λ b. (b ≢ esc) × (b ≢ 0x07) × (b < 0x80)

IsBody-NoEsc : (body : Bytes) → IsBody body → NoEsc body
IsBody-NoEsc [] h = tt
IsBody-NoEsc (b ∷ bs) h = (h.0.0, IsBody-NoEsc bs h.1)

no_bell : (body : Bytes) → IsBody body → any (λ b. b == 0x07) body ≡ false
no_bell [] h = refl
no_bell (b ∷ bs) h = ground (arith, no_bell bs h.1)

no_terminator : (body : Bytes) → NoEsc body → has_terminator body ≡ false
unfolding has_terminator
no_terminator [] h = refl
no_terminator (b ∷ []) h = refl
no_terminator (b ∷ c ∷ bs) h = ground (arith, no_terminator (c ∷ bs) h.1)

check_ascii : (pos : ℕ) (body : Bytes) → All (λ b. b < 0x80) body → check 0 pos body ≡ valid
unfolding check first_char
check_ascii pos [] h = refl
check_ascii pos (b ∷ bs) h = ground (arith, check_ascii (pos + 1) bs h.1)

IsBody-ascii : (body : Bytes) → IsBody body → All (λ b. b < 0x80) body
IsBody-ascii [] h = tt
IsBody-ascii (b ∷ bs) h = (h.0.2, IsBody-ascii bs h.1)

last_esc-append : (xs : Bytes) → last_esc (xs ++ esc ∷ []) ≡ some (length xs)
unfolding last_esc
last_esc-append [] = refl
last_esc-append (x ∷ xs) = rw (last_esc-append xs, last_esc)

abbrev pub osc : Bytes → Bytes
osc body = esc ∷ b']' ∷ body

osc_incomplete : (body : Bytes) → IsBody body → escape_complete (osc body) ≡ false
unfolding escape_complete
osc_incomplete body h =
    ground (arith, no_bell body h, no_terminator (b']' ∷ body) (λ e. cc, IsBody-NoEsc body h))

osc_held : (body : Bytes) → IsBody body → safe_prefix_len (osc body) ≡ 0
unfolding safe_prefix_len
osc_held body h = rw cut (unfold from_utf8 in refl)
  where
    found : last_esc (osc body) ≡ some 0
    found = unfold last_esc in rw (last_esc-NoEsc body (IsBody-NoEsc body h), last_esc)

    cut : escape_cut (osc body) ≡ 0
    cut = unfold escape_cut in rw (found, escape_cut) (rw (osc_incomplete body h, escape_cut))

osc-ascii : (body : Bytes) → IsBody body → check 0 0 (osc body) ≡ valid
osc-ascii body h = check_ascii 0 (osc body) (omega arith, (omega arith, IsBody-ascii body h))

osc_let_through :
    (body : Bytes) → IsBody body → safe_prefix_len (osc body ++ esc ∷ []) ≡ length (osc body)
unfolding safe_prefix_len
osc_let_through body h = rw cut (
    ap (λ b. utf8_cut (from_utf8 b) (length (osc body))) (take-length_append (osc body) (esc ∷ []))
    ∙ ap (λ c. utf8_cut c (length (osc body))) whole)
  where
    cut : escape_cut (osc body ++ esc ∷ []) ≡ length (osc body)
    cut =
        unfold escape_cut in
        rw (last_esc-append (osc body), escape_cut)
          (rw (drop-length_append (osc body) (esc ∷ [])) (unfold escape_complete in refl))

    whole : from_utf8 (osc body) ≡ valid
    whole = unfold from_utf8 in osc-ascii body h

-- Let `body` be ASCII without an escape or a bell. An operating system command with that body that
-- is not terminated yet is held back whole; once the escape of its two-byte terminator has come,
-- only that byte is held back and the rest is let through.
pub osc_split :
    (body : Bytes)
    → IsBody body
    → (escape_complete (osc body) ≡ false)
      × (safe_prefix_len (osc body) ≡ 0)
      × (safe_prefix_len (osc body ++ esc ∷ []) ≡ length (osc body))
osc_split body h = (osc_incomplete body h, osc_held body h, osc_let_through body h)
