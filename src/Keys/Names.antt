-- ===== src/Keys/Names.antt =====
-- src/sub.rs: the names of keys are read without regard to case.
use babysit.Prelude.{
  ℕ, ◌≡◌, ◌≢◌, refl, sym, ap, ◌∙◌, [], ◌∷◌, Option, none, Bytes, map, to_lower, arith, codes,
  strip_prefix,
}
use babysit.Keys.{key_to_bytes, ctrl_rest, ctrl_byte, find, named_keys, or_else}

lower_twice : (s : Bytes) → map to_lower (map to_lower s) ≡ map to_lower s
lower_twice [] = refl
lower_twice (c ∷ cs) = ground (arith, lower_twice cs)

no_caret : (c : ℕ) (cs : Bytes) → c ≢ b'^' → strip_prefix (codes "^") (c ∷ cs) ≡ none
unfolding strip_prefix
no_caret c cs ne = ground arith

-- What a name in lower case stands for, if there is no `^`.
by_lower : Bytes → Option Bytes
by_lower lower =
    or_else
      (ctrl_byte (
        or_else (strip_prefix (codes "c-") lower)
          (or_else (strip_prefix (codes "ctrl-") lower) none)))
      (find lower named_keys)

key_to_bytes-by_lower :
    (name : Bytes)
    → strip_prefix (codes "^") name ≡ none
    → key_to_bytes name ≡ by_lower (map to_lower name)
unfolding key_to_bytes ctrl_rest by_lower
key_to_bytes-by_lower name e =
    ap
      (λ caret.
        or_else
          (ctrl_byte (
            or_else (strip_prefix (codes "c-") (map to_lower name))
              (or_else (strip_prefix (codes "ctrl-") (map to_lower name)) caret)))
          (find (map to_lower name) named_keys))
      e

-- A name and the same name in lower case stand for the same bytes, if it does not begin with `^`.
pub key_to_bytes-lower :
    (c : ℕ) (cs : Bytes) → c ≢ b'^' → key_to_bytes (map to_lower (c ∷ cs)) ≡ key_to_bytes (c ∷ cs)
key_to_bytes-lower c cs ne =
    key_to_bytes-by_lower (map to_lower (c ∷ cs))
      (no_caret (to_lower c) (map to_lower cs) (λ e. ground arith))
    ∙ ap by_lower (lower_twice (c ∷ cs))
    ∙ sym (key_to_bytes-by_lower (c ∷ cs) (no_caret c cs ne))
