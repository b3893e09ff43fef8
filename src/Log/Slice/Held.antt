-- ===== src/Log/Slice/Held.antt =====
-- What `safe_prefix_len` holds back.
use babysit.Prelude.{
  ℕ, suc, ◌+◌, ◌≤◌, ◌<◌, ◌≡◌, ◌⊎◌, inl, inr, refl, sym, ap, ◌∙◌, Bool, true, false, not, [], ◌∷◌,
  ◌++◌, Option, none, some, Bytes, length, take, drop, arith, ◌==◌, ==_iff, if◌then◌else◌,
  Bool-cases, take-take, drop-length_append,
}
use babysit.Log.Utf8.{Checked, valid, invalid, from_utf8}
use babysit.Log.Utf8.Valid.{from_utf8_truncated}
use babysit.Log.Slice.{esc, escape_complete, last_esc, escape_cut, utf8_cut, safe_prefix_len}
use babysit.Log.Slice.Splits.{NoEsc}
use babysit.Log.Slice.Safe.{length-cut}
use babysit.Log.Slice.Sequences.{Complete, escape_complete-Complete}

-- Where the last escape is, and whether what begins there is complete: `cut` is in front of an escape
-- whose sequence is not, or at the end.
pub CutsEscape : Bytes → ℕ → Type 0
CutsEscape bytes cut =
    (NoEsc bytes × (cut ≡ length bytes))
    ⊎ ((before : Bytes) × (after : Bytes) × (bytes ≡ before ++ esc ∷ after)
        × NoEsc after
        × ((Complete (esc ∷ after) × (cut ≡ length bytes))
            ⊎ ((Complete (esc ∷ after) → ⊥) × (cut ≡ length before))))

LastEsc : Bytes → Option ℕ → Type 0
LastEsc bytes none = NoEsc bytes
LastEsc bytes (some i) =
    (before : Bytes) × (after : Bytes) × (bytes ≡ before ++ esc ∷ after)
    × NoEsc after
    × (i ≡ length before)

first_or_none :
    (b : ℕ) (bytes : Bytes) (t : Bool)
    → (b == esc) ≡ t
    → NoEsc bytes
    → LastEsc (b ∷ bytes) (if t then some 0 else none)
unfolding LastEsc
first_or_none b bytes true h clear =
    ([], bytes, ap (λ x. x ∷ bytes) ((==_iff b esc).0 h), clear, refl)
first_or_none b bytes false h clear = (λ e. ground arith, clear)

LastEsc-cons :
    (b : ℕ) (bytes : Bytes) (o : Option ℕ)
    → LastEsc bytes o
    → LastEsc
        (b ∷ bytes)
        (elim o [ none ↦ if b == esc then some 0 else none | some i ↦ some (suc i) ])
unfolding LastEsc
LastEsc-cons b bytes none clear = first_or_none b bytes (b == esc) refl clear
LastEsc-cons b bytes (some i) (before, after, at, clear, len) =
    (b ∷ before, after, ap (◌∷◌ b) at, clear, ap suc len)

last_esc-LastEsc : (bytes : Bytes) → LastEsc bytes (last_esc bytes)
unfolding last_esc LastEsc
last_esc-LastEsc [] = tt
last_esc-LastEsc (b ∷ bytes) = LastEsc-cons b bytes (last_esc bytes) (last_esc-LastEsc bytes)

escape_cut-CutsEscape : (bytes : Bytes) → CutsEscape bytes (escape_cut bytes)
unfolding escape_cut CutsEscape LastEsc
escape_cut-CutsEscape bytes = of_last (last_esc bytes) (last_esc-LastEsc bytes)
  where
    of_last :
        (o : Option ℕ)
        → LastEsc bytes o
        → CutsEscape bytes (elim o [
          | none ↦ length bytes
          | some i ↦ if not (escape_complete (drop i bytes)) then i else length bytes
        ])
    of_last none clear = inl (clear, refl)
    of_last (some i) (before, after, at, clear, len) =
        let tail : drop i bytes ≡ esc ∷ after =
          ap (λ n. drop n bytes) len
          ∙ ap (drop (length before)) at
          ∙ drop-length_append before (esc ∷ after) in
        let iff = escape_complete-Complete (esc ∷ after) in
        elim (Bool-cases (escape_complete (esc ∷ after))) [
          | inl e ↦ inr (before, after, at, clear, inl (iff.0 e, rw (tail, e) refl))
          | inr e ↦ inr (before, after, at, clear, inr (λ c. cc (iff.1 c), rw (tail, e) len))
        ]

-- A cut in front of an incomplete escape, or at the end, and what is let through: all in front of it, if
-- that is UTF-8 or the first error in it is another than an incomplete character at its end; or, if that
-- is the first error, what is in front of that character, which is at most three bytes.
pub record Holds (bytes : Bytes) (n : ℕ) : Type 0 where
  pub cut : ℕ
  pub cuts_escape : CutsEscape bytes cut
  pub let_through :
      ((n ≡ cut)
        × ((from_utf8 (take n bytes) ≡ valid)
            ⊎ ((p : ℕ) × (len : ℕ) × (from_utf8 (take n bytes) ≡ invalid p (some len)))))
      ⊎ ((n < cut)
          × (cut ≤ n + 3)
          × (from_utf8 (take cut bytes) ≡ invalid n none)
          × (from_utf8 (take n bytes) ≡ valid))

Holds-utf8_cut :
    (bytes : Bytes) (c : Checked)
    → from_utf8 (take (escape_cut bytes) bytes) ≡ c
    → Holds bytes (utf8_cut c (escape_cut bytes))
Holds-utf8_cut bytes valid e = record {
  cut = escape_cut bytes;
  cuts_escape = escape_cut-CutsEscape bytes;
  let_through = inl (refl, inl e);
}
Holds-utf8_cut bytes (invalid p (some n)) e = record {
  cut = escape_cut bytes;
  cuts_escape = escape_cut-CutsEscape bytes;
  let_through = inl (refl, inr (p, n, e));
}
Holds-utf8_cut bytes (invalid p none) e =
    let (ok, lt, close) = from_utf8_truncated (take (escape_cut bytes) bytes) p e in
    let le : p ≤ escape_cut bytes = omega (arith, length-cut bytes) in
    record {
      cut = escape_cut bytes;
      cuts_escape = escape_cut-CutsEscape bytes;
      let_through = inr (
        omega (arith, length-cut bytes),
        omega (arith, length-cut bytes),
        e,
        ap from_utf8 (sym (take-take p (escape_cut bytes) bytes le)) ∙ ok,
      );
    }

-- What is let through of a text: it is cut in front of the last escape if the sequence that begins there
-- is incomplete, and else at the end. All in front of the cut is let through if it is UTF-8, or if the
-- first error in it is another than an incomplete character at the end; and if it is UTF-8 up to such a
-- character, all in front of that, one to three bytes less, which is UTF-8.
pub safe_prefix_len-Holds : (bytes : Bytes) → Holds bytes (safe_prefix_len bytes)
unfolding safe_prefix_len
safe_prefix_len-Holds bytes = Holds-utf8_cut bytes (from_utf8 (take (escape_cut bytes) bytes)) refl
