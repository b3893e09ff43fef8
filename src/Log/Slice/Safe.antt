-- ===== src/Log/Slice/Safe.antt =====
-- What `safe_prefix_len` lets through.
use babysit.Prelude.{
  ℕ, ◌+◌, ◌≤◌, ◌<◌, ◌≡◌, ◌≢◌, refl, ap, [], ◌∷◌, none, some, Bytes, length, take, arith, inl, inr,
  length-take, take-take, Option-cases,
}
use babysit.Log.Utf8.{Checked, valid, invalid, from_utf8}
use babysit.Log.Utf8.Valid.{from_utf8_truncated}
use babysit.Log.Slice.{last_esc, escape_cut, utf8_cut, safe_prefix_len}

last_esc-lt : (bytes : Bytes) {i : ℕ} → last_esc bytes ≡ some i → i < length bytes
unfolding last_esc
last_esc-lt [] h = cc
last_esc-lt (b ∷ bs) {i} h = elim (Option-cases (last_esc bs)) [
  | inl e ↦ ground arith
  | inr (j, e) ↦ ground (arith, last_esc-lt bs e)
]

pub escape_cut-le : (bytes : Bytes) → escape_cut bytes ≤ length bytes
unfolding escape_cut
escape_cut-le bytes = elim (Option-cases (last_esc bytes)) [
  | inl e ↦ ground arith
  | inr (i, e) ↦ ground (arith, last_esc-lt bytes e)
]

-- The first error in the text, if it has one, is not that it ends inside a character.
abbrev pub EndsWhole : Bytes → Type 0
EndsWhole xs = (p : ℕ) → from_utf8 xs ≢ invalid p none

-- A prefix in front of an unterminated escape at the end.
pub record IsSafe (bytes : Bytes) (n : ℕ) : Type 0 where
  pub before_cut : n ≤ escape_cut bytes
  pub close : escape_cut bytes ≤ n + 3
  pub inside : escape_cut bytes ≤ length bytes
  pub ends_whole : EndsWhole (take n bytes)

pub length-cut : (bytes : Bytes) → length (take (escape_cut bytes) bytes) ≡ escape_cut bytes
length-cut bytes = omega (arith, length-take (escape_cut bytes) bytes, escape_cut-le bytes)

IsSafe-utf8_cut :
    (bytes : Bytes) (c : Checked)
    → from_utf8 (take (escape_cut bytes) bytes) ≡ c
    → IsSafe bytes (utf8_cut c (escape_cut bytes))
IsSafe-utf8_cut bytes valid e = record {
  before_cut = omega arith;
  close = omega arith;
  inside = escape_cut-le bytes;
  ends_whole = λ p h. cc;
}
IsSafe-utf8_cut bytes (invalid p (some n)) e = record {
  before_cut = omega arith;
  close = omega arith;
  inside = escape_cut-le bytes;
  ends_whole = λ q h. cc;
}
IsSafe-utf8_cut bytes (invalid p none) e =
    let (ok, lt, close) = from_utf8_truncated (take (escape_cut bytes) bytes) p e in
    let le : p ≤ escape_cut bytes = omega (arith, length-cut bytes) in
    record {
      before_cut = le;
      close = omega (arith, length-cut bytes);
      inside = escape_cut-le bytes;
      ends_whole = λ q h. cc (ap from_utf8 (take-take p (escape_cut bytes) bytes le));
    }

-- What is let through of a text is a prefix whose first error, if it has one, is not that it ends inside
-- a character. It ends at the cut that `escape_cut` makes, or at most three bytes before.
pub safe_prefix_len-IsSafe : (bytes : Bytes) → IsSafe bytes (safe_prefix_len bytes)
unfolding safe_prefix_len
safe_prefix_len-IsSafe bytes =
    IsSafe-utf8_cut bytes (from_utf8 (take (escape_cut bytes) bytes)) refl
