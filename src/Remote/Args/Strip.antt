-- ===== src/Remote/Args/Strip.antt =====
-- What is left of a command line when the host selector is gone.
use babysit.Prelude.{
  ◌≡◌, refl, ◌∙◌, true, false, List, [], ◌∷◌, ◌++◌, Option, none, some, Bytes, bytes_eq,
  bytes_eq_iff, if◌then◌else◌, arith, Option-cases, inl, inr, All, subst,
}
use babysit.Remote.Args.{separator, host_flag, is_host_value, add_arg, strip_host_args}

-- No host selector before the separator.
abbrev pub IsClean : List Bytes → Type 0
IsClean [] = Unit
IsClean (a ∷ rest) =
    if bytes_eq a separator
    then Unit {0}
    else (bytes_eq a host_flag ≡ false) × (is_host_value a ≡ false) × IsClean rest

abbrev CleanResult : Option (List Bytes) → Type 0
CleanResult none = Unit
CleanResult (some ys) = IsClean ys

add_arg-CleanResult :
    (a : Bytes) (r : Option (List Bytes))
    → bytes_eq a separator ≡ false
    → bytes_eq a host_flag ≡ false
    → is_host_value a ≡ false
    → CleanResult r
    → CleanResult (add_arg a r)
add_arg-CleanResult a none n h v c = tt
add_arg-CleanResult a (some ys) n h v c = rw n (h, v, c)

strip-CleanResult : (xs : List Bytes) → CleanResult (strip_host_args xs)
unfolding strip_host_args
strip-CleanResult [] = tt
strip-CleanResult (a ∷ []) = ground arith
strip-CleanResult (a ∷ b ∷ rest) = ground (
  arith,
  strip-CleanResult rest,
  strip-CleanResult (b ∷ rest),
  add_arg-CleanResult a (strip_host_args (b ∷ rest)),
)

strip_clean : (ys : List Bytes) → IsClean ys → strip_host_args ys ≡ some ys
unfolding strip_host_args
strip_clean [] h = refl
strip_clean (a ∷ []) h = ground arith
strip_clean (a ∷ b ∷ rest) h = ground (arith, strip_clean (b ∷ rest))

separator_is : bytes_eq separator separator ≡ true
separator_is = (bytes_eq_iff separator separator).1 refl

strip_separator : (post : List Bytes) → strip_host_args (separator ∷ post) ≡ some (separator ∷ post)
unfolding strip_host_args
strip_separator [] = ground (arith, separator_is)
strip_separator (p ∷ ps) = ground (arith, separator_is)

-- If the arguments in front of the separator hold no separator and can be stripped, then what
-- stands behind the separator is passed on as it is, whatever selectors it holds.
pub strip_verbatim :
    (pre pre' post : List Bytes)
    → All (λ a. bytes_eq a separator ≡ false) pre
    → strip_host_args pre ≡ some pre'
    → strip_host_args (pre ++ separator ∷ post) ≡ some (pre' ++ separator ∷ post)
unfolding strip_host_args
strip_verbatim [] pre' post h e = strip_separator post ∙ ground arith
strip_verbatim (a ∷ []) pre' post h e = ground (arith, strip_separator post)
strip_verbatim (a ∷ b ∷ rest) pre' post h e = elim (Option-cases (strip_host_args (b ∷ rest))) [
  | inl stuck ↦ ground (arith, strip_verbatim rest pre' post h.1.1)
  | inr (kept, k) ↦
      ground (arith, strip_verbatim rest pre' post h.1.1, strip_verbatim (b ∷ rest) kept post h.1 k)
]

-- Taking the selector off leaves none to take off: a second pass changes nothing, so that the remote
-- babysit is never asked to go on to another host.
pub strip_twice : (xs ys : List Bytes) → strip_host_args xs ≡ some ys → strip_host_args ys ≡ some ys
strip_twice xs ys e = strip_clean ys (subst CleanResult e (strip-CleanResult xs))
