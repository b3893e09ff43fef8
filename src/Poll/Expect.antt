-- ===== src/Poll/Expect.antt =====
-- src/sub.rs: what the result of `expect` says of the text.
use babysit.Prelude.{
  ℕ, ◌≡◌, ◌≢◌, Bool, true, false, List, [], ◌∷◌, ◌++◌, Option, none, some, Bytes, arith,
  Option-cases, Bool-cases, inl, inr, ◌⊎◌, is_empty, not, ◌&&◌,
}
use babysit.Poll.{ExpectLook, code, expect, is_finished, past}

-- The texts that are examined: all that was read up to a round; or, once the session has finished,
-- with what a last read brings.
pub data Examined : Bytes → List ExpectLook → Bytes → Type 0 where
  now_read :
      (buf text : Bytes) (l : ExpectLook) (ls : List ExpectLook)
      → l.text ≡ some text
      → Examined buf (l ∷ ls) (buf ++ text)
  at_end :
      (buf text tail : Bytes) (l : ExpectLook) (ls : List ExpectLook)
      → l.text ≡ some text
      → is_finished l.status ≡ true
      → l.tail ≡ some tail
      → Examined buf (l ∷ ls) (buf ++ text ++ tail)
  later :
      (buf text : Bytes) (l : ExpectLook) (ls : List ExpectLook) (t : Bytes)
      → l.text ≡ some text
      → is_finished l.status ≡ false
      → Examined (buf ++ text) ls t
      → Examined buf (l ∷ ls) t

-- A code that `expect` returns is 124, and there is a deadline; or 0, and a text that was examined
-- matches; or 1, and a text that was examined does not. The texts examined are all that was read up
-- to a round, or that with a last read once the session has finished.
pub expect_sound :
    (is_match : Bytes → Bool) (deadline : Option ℕ) (buf : Bytes) (ls : List ExpectLook) (c : ℕ)
    → expect is_match deadline buf ls ≡ code c
    → ((c ≡ 124) × (deadline ≢ none))
      ⊎ ((t : Bytes) × Examined buf ls t
          × (((c ≡ 0) × (is_match t ≡ true)) ⊎ ((c ≡ 1) × (is_match t ≡ false))))
unfolding expect
expect_sound is_match deadline buf [] c h = ground arith
expect_sound is_match deadline buf (l ∷ ls) c h = elim (Option-cases (l.text)) [
  | inl e ↦ ground arith
  | inr (text, e) ↦ elim (Bool-cases (not (is_empty text) && is_match (buf ++ text))) [
    | inl found ↦ inr (buf ++ text, now_read buf text l ls e, inl (ground arith, ground arith))
    | inr none_yet ↦ elim (Bool-cases (is_finished l.status)) [
      | inl finished ↦ elim (Option-cases (l.tail)) [
        | inl no_tail ↦ ground arith
        | inr (tail, e') ↦ elim (Bool-cases (is_match (buf ++ text ++ tail))) [
          | inl m ↦
              inr (
                buf ++ text ++ tail,
                at_end buf text tail l ls e finished e',
                inl (ground arith, m),
              )
          | inr m ↦
              inr (
                buf ++ text ++ tail,
                at_end buf text tail l ls e finished e',
                inr (ground arith, m),
              )
        ]
      ]
      | inr going ↦ elim (Bool-cases (past deadline l.now)) [
        | inl late ↦ inl (ground arith, λ k. ground arith)
        | inr early ↦ elim (expect_sound is_match deadline (buf ++ text) ls c (ground arith)) [
          | inl timed_out ↦ inl timed_out
          | inr (t, x, r) ↦ inr (t, later buf text l ls t e going x, r)
        ]
      ]
    ]
  ]
]
