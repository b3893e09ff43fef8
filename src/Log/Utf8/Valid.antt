-- ===== src/Log/Utf8/Valid.antt =====
-- Valid texts are kept as they are, also in front of more output, and what is held back is short.
use babysit.Prelude.{
  ℕ, zero, suc, ◌+◌, ◌-◌, ◌≤◌, ◌<◌, ◌≡◌, refl, sym, ap, ◌∙◌, [], ◌∷◌, ◌++◌, Option, none, Bytes,
  length, take, arith, inl, inr, ◌⊎◌,
}
use babysit.Log.Utf8.{
  Char, char, bad, first_char, valid, invalid, check, from_utf8, lossy, from_utf8_lossy,
}

-- The character is there in full: longer texts read the same.
pub first_char-append :
    (b : ℕ) (bs rest : Bytes) {n : ℕ}
    → first_char b bs ≡ char n
    → (first_char b (bs ++ rest) ≡ char n) × (0 < n) × (n ≤ 1 + length bs)
unfolding first_char
first_char-append b [] rest h = ground arith
first_char-append b (c ∷ []) rest h = ground arith
first_char-append b (c ∷ d ∷ []) rest h = ground arith
first_char-append b (c ∷ d ∷ e ∷ bs) rest h = ground arith

pub first_char_truncated : (b : ℕ) (bs : Bytes) → first_char b bs ≡ bad none → length bs ≤ 2
unfolding first_char
first_char_truncated b [] h = omega arith
first_char_truncated b (c ∷ []) h = omega arith
first_char_truncated b (c ∷ d ∷ []) h = omega arith
first_char_truncated b (c ∷ d ∷ e ∷ bs) h = ground arith

-- The character does not depend on what stands behind it.
first_char-take :
    (b : ℕ) (bs : Bytes) (k : ℕ) {n : ℕ}
    → first_char b bs ≡ char n
    → n ≤ 1 + k
    → first_char b (take k bs) ≡ char n
unfolding first_char
first_char-take b [] zero h le = ground arith
first_char-take b [] (suc k) h le = ground arith
first_char-take b (c ∷ []) zero h le = ground arith
first_char-take b (c ∷ []) (suc k) h le = ground arith
first_char-take b (c ∷ d ∷ []) zero h le = ground arith
first_char-take b (c ∷ d ∷ []) (suc zero) h le = ground arith
first_char-take b (c ∷ d ∷ []) (suc (suc k)) h le = ground arith
first_char-take b (c ∷ d ∷ e ∷ bs) zero h le = ground arith
first_char-take b (c ∷ d ∷ e ∷ bs) (suc zero) h le = ground arith
first_char-take b (c ∷ d ∷ e ∷ bs) (suc (suc zero)) h le = ground arith
first_char-take b (c ∷ d ∷ e ∷ bs) (suc (suc (suc k))) h le = ground arith

pub check_char :
    (b pos n : ℕ) (bs : Bytes)
    → first_char b bs ≡ char n
    → check 0 pos (b ∷ bs) ≡ check (n - 1) (pos + 1) bs
unfolding check
check_char b pos n bs h = rw (h, check)

pub check_bad :
    (b pos : ℕ) (e : Option ℕ) (bs : Bytes)
    → first_char b bs ≡ bad e
    → check 0 pos (b ∷ bs) ≡ invalid pos e
unfolding check
check_bad b pos e bs h = rw (h, check)

lossy_char :
    (b n : ℕ) (bs : Bytes) → first_char b bs ≡ char n → lossy 0 0 (b ∷ bs) ≡ b ∷ lossy (n - 1) 0 bs
unfolding lossy
lossy_char b n bs h = rw (h, lossy)

pub Char-cases : (c : Char) → ((n : ℕ) × (c ≡ char n)) ⊎ ((e : Option ℕ) × (c ≡ bad e))
Char-cases (char n) = inl (n, refl)
Char-cases (bad e) = inr (e, refl)

lossy_valid :
    (skip pos : ℕ) (xs ys : Bytes)
    → skip ≤ length xs
    → check skip pos xs ≡ valid
    → lossy skip 0 (xs ++ ys) ≡ xs ++ lossy 0 0 ys
unfolding lossy check
lossy_valid zero pos [] ys le h = refl
lossy_valid (suc skip) pos [] ys le h = absurd (omega arith)
lossy_valid (suc skip) pos (x ∷ xs) ys le h =
    ap (◌∷◌ x) (lossy_valid skip (pos + 1) xs ys (omega arith) h)
lossy_valid zero pos (b ∷ bs) ys le h = elim (Char-cases (first_char b bs)) [
  | inl (n, e) ↦
      let (e', pos_n, fits) = first_char-append b bs ys e in
      lossy_char b n (bs ++ ys) e'
      ∙ ap (◌∷◌ b)
          (lossy_valid (n - 1) (pos + 1) bs ys (omega arith) (sym (check_char b pos n bs e) ∙ h))
  | inr (k, e) ↦ cc (check_bad b pos k bs e)
]

-- Text that is valid is decoded to itself, and the decoding of what follows does not depend on it.
pub from_utf8_lossy_valid :
    (xs ys : Bytes) → from_utf8 xs ≡ valid → from_utf8_lossy (xs ++ ys) ≡ xs ++ from_utf8_lossy ys
unfolding from_utf8_lossy from_utf8
from_utf8_lossy_valid xs ys h = lossy_valid 0 0 xs ys (omega arith) h

-- A text that ends inside a character: what stands before that character is valid, and the character
-- has at most three bytes.
record Truncated (skip pos p : ℕ) (xs : Bytes) : Type 0 where
  good : ℕ
  at : p ≡ pos + good
  passed : skip ≤ good
  short : length xs ≤ good + 3
  some_left : good < length xs
  good_valid : check skip pos (take good xs) ≡ valid

check-Truncated :
    (skip pos p : ℕ) (xs : Bytes)
    → skip ≤ length xs
    → check skip pos xs ≡ invalid p none
    → Truncated skip pos p xs
unfolding check
check-Truncated zero pos p [] le h = cc
check-Truncated (suc skip) pos p [] le h = absurd (omega arith)
check-Truncated (suc skip) pos p (x ∷ xs) le h =
    let t = check-Truncated skip (pos + 1) p xs (omega arith) h in
    record {
      good = suc t.good;
      at = omega (arith, t.at);
      passed = omega (arith, t.passed);
      short = omega (arith, t.short);
      some_left = omega (arith, t.some_left);
      good_valid = t.good_valid;
    }
check-Truncated zero pos p (b ∷ bs) le h = elim (Char-cases (first_char b bs)) [
  | inl (n, e) ↦
      let (_, pos_n, fits) = first_char-append b bs [] e in
      let t =
        check-Truncated (n - 1) (pos + 1) p bs (omega arith) (sym (check_char b pos n bs e) ∙ h) in
      record {
        good = suc t.good;
        at = omega (arith, t.at);
        passed = omega arith;
        short = omega (arith, t.short);
        some_left = omega (arith, t.some_left);
        good_valid =
            check_char b pos n (take t.good bs)
              (first_char-take b bs t.good e (omega (arith, t.passed)))
            ∙ t.good_valid;
      }
  | inr (k, e) ↦
      let q : invalid pos k ≡ invalid p none = sym (check_bad b pos k bs e) ∙ h in
      record {
        good = 0;
        at = ground arith;
        passed = omega arith;
        short = ground (arith, first_char_truncated b bs);
        some_left = omega arith;
        good_valid = refl;
      }
]

pub from_utf8_truncated :
    (xs : Bytes) (p : ℕ)
    → from_utf8 xs ≡ invalid p none
    → (from_utf8 (take p xs) ≡ valid) × (p < length xs) × (length xs ≤ p + 3)
unfolding from_utf8
from_utf8_truncated xs p h =
    let t = check-Truncated 0 0 p xs (omega arith) h in
    let e : p ≡ t.good = omega (arith, t.at) in
    (rw e t.good_valid, omega (arith, t.some_left), omega (arith, t.short))
