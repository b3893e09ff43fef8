-- ===== src/Log/Utf8/Prefix.antt =====
-- Prefixes of texts, and what stands behind a valid prefix.
use babysit.Prelude.{
  ℕ, zero, suc, ◌+◌, ◌-◌, ◌≤◌, ◌≡◌, ◌≢◌, refl, sym, ap, ◌∙◌, [], ◌∷◌, ◌++◌, none, some, Bytes,
  length, arith, inl, inr,
}
use babysit.Log.Utf8.{bad, first_char, Checked, valid, invalid, check, from_utf8}
use babysit.Log.Utf8.Valid.{first_char-append, Char-cases, check_char, check_bad}

first_char_junk :
    (b : ℕ) (bs rest : Bytes) {n : ℕ}
    → first_char b bs ≡ bad (some n)
    → first_char b (bs ++ rest) ≡ bad (some n)
unfolding first_char
first_char_junk b [] rest h = ground arith
first_char_junk b (c ∷ []) rest h = ground arith
first_char_junk b (c ∷ d ∷ []) rest h = ground arith
first_char_junk b (c ∷ d ∷ e ∷ bs) rest h = ground arith

check_junk :
    (skip pos : ℕ) (xs ys : Bytes) {p n : ℕ}
    → check skip pos xs ≡ invalid p (some n)
    → check skip pos (xs ++ ys) ≡ invalid p (some n)
unfolding check
check_junk zero pos [] ys h = cc
check_junk (suc skip) pos [] ys h = cc
check_junk (suc skip) pos (x ∷ xs) ys h = check_junk skip (pos + 1) xs ys h
check_junk zero pos (b ∷ bs) ys {p} {n} h = elim (Char-cases (first_char b bs)) [
  | inl (m, e) ↦
      check_char b pos m (bs ++ ys) (first_char-append b bs ys e).0
      ∙ check_junk (m - 1) (pos + 1) bs ys (sym (check_char b pos m bs e) ∙ h)
  | inr (k, e) ↦
      let q : invalid pos k ≡ invalid p (some n) = sym (check_bad b pos k bs e) ∙ h in
      let k_is : k ≡ some n = ground arith in
      check_bad b pos (some n) (bs ++ ys) (first_char_junk b bs ys (e ∙ ap bad k_is)) ∙ ground arith
]

-- Junk stays junk whatever follows it, at the same place.
pub from_utf8_junk :
    (xs ys : Bytes) {p n : ℕ}
    → from_utf8 xs ≡ invalid p (some n)
    → from_utf8 (xs ++ ys) ≡ invalid p (some n)
unfolding from_utf8
from_utf8_junk xs ys h = check_junk 0 0 xs ys h

check_rest :
    (skip pos : ℕ) (xs ys : Bytes)
    → skip ≤ length xs
    → check skip pos xs ≡ valid
    → check skip pos (xs ++ ys) ≡ check 0 (pos + length xs) ys
unfolding check
check_rest zero pos [] ys le h = let e : pos ≡ pos + 0 = omega arith in ap (λ p. check 0 p ys) e
check_rest (suc skip) pos [] ys le h = absurd (omega arith)
check_rest (suc skip) pos (x ∷ xs) ys le h =
    let e : pos + 1 + length xs ≡ pos + suc (length xs) = omega arith in
    check_rest skip (pos + 1) xs ys (omega arith) h ∙ ap (λ p. check 0 p ys) e
check_rest zero pos (b ∷ bs) ys le h = elim (Char-cases (first_char b bs)) [
  | inl (m, e) ↦
      let (e', _, fits) = first_char-append b bs ys e in
      let q : pos + 1 + length bs ≡ pos + suc (length bs) = omega arith in
      check_char b pos m (bs ++ ys) e'
      ∙ check_rest (m - 1) (pos + 1) bs ys (omega arith) (sym (check_char b pos m bs e) ∙ h)
      ∙ ap (λ p. check 0 p ys) q
  | inr (k, e) ↦ cc (check_bad b pos k bs e)
]

check_anywhere :
    (skip pos at : ℕ) (xs : Bytes) → check skip pos xs ≡ valid → check skip at xs ≡ valid
unfolding check
check_anywhere zero pos at [] h = refl
check_anywhere (suc skip) pos at [] h = refl
check_anywhere (suc skip) pos at (x ∷ xs) h = check_anywhere skip (pos + 1) (at + 1) xs h
check_anywhere zero pos at (b ∷ bs) h = elim (Char-cases (first_char b bs)) [
  | inl (m, e) ↦
      check_char b at m bs e
      ∙ check_anywhere (m - 1) (pos + 1) (at + 1) bs (sym (check_char b pos m bs e) ∙ h)
  | inr (k, e) ↦ cc (check_bad b pos k bs e)
]

-- A prefix of a valid text that does not end inside a character is valid, and so is the rest.
pub from_utf8_prefix :
    (xs ys : Bytes)
    → from_utf8 (xs ++ ys) ≡ valid
    → ((p : ℕ) → from_utf8 xs ≢ invalid p none)
    → (from_utf8 xs ≡ valid) × (from_utf8 ys ≡ valid)
from_utf8_prefix xs ys h whole = by_check (from_utf8 xs) refl
  where
    by_check : (c : Checked) → from_utf8 xs ≡ c → (from_utf8 xs ≡ valid) × (from_utf8 ys ≡ valid)
    by_check valid e = (
      e,
      unfold from_utf8 in
          check_anywhere 0 (0 + length xs) 0 ys (sym (check_rest 0 0 xs ys (omega arith) e) ∙ h),
    )
    by_check (invalid p none) e = absurd (whole p e)
    by_check (invalid p (some n)) e = cc (from_utf8_junk xs ys e)
