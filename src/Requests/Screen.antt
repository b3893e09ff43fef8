-- ===== src/Requests/Screen.antt =====
-- src/sub.rs: what the result of `expect_screen` says of the screens.
use babysit.Prelude.{
  ℕ, ◌≡◌, refl, ap, subst, Bool, true, false, List, [], ◌∷◌, ◌++◌, Option, Bytes, inl, inr,
  Bool-cases, All,
}
use babysit.Poll.{code, is_finished, past}
use babysit.Requests.{ScreenLook, expect_screen}

-- A round that goes on: no match, the session has not finished, and the deadline has not passed.
abbrev pub GoesOn : (Bytes → Bool) → Option ℕ → ScreenLook → Type 0
GoesOn is_match deadline l =
    (is_match l.screen ≡ false) × (is_finished l.status ≡ false) × (past deadline l.now ≡ false)

-- How a round ends the wait.
pub data Decides (is_match : Bytes → Bool) (deadline : Option ℕ) (l : ScreenLook) : ℕ → Type 0 where
  shows : is_match l.screen ≡ true → Decides is_match deadline l 0
  shows_at_end :
      is_match l.screen ≡ false
      → is_finished l.status ≡ true
      → is_match l.last_screen ≡ true
      → Decides is_match deadline l 0
  ends :
      is_match l.screen ≡ false
      → is_finished l.status ≡ true
      → is_match l.last_screen ≡ false
      → Decides is_match deadline l 1
  times_out :
      is_match l.screen ≡ false
      → is_finished l.status ≡ false
      → past deadline l.now ≡ true
      → Decides is_match deadline l 124

-- The result of `expect_screen` on `ls`, in the words above.
abbrev pub Decided : (Bytes → Bool) → Option ℕ → List ScreenLook → ℕ → Type 0
Decided is_match deadline ls c =
    (before after : List ScreenLook) × (l : ScreenLook) × (ls ≡ before ++ l ∷ after)
    × All (GoesOn is_match deadline) before
    × Decides is_match deadline l c

now-Decided :
    (is_match : Bytes → Bool) (deadline : Option ℕ) (l : ScreenLook) (ls : List ScreenLook)
    (n c : ℕ)
    → Decides is_match deadline l n
    → code n ≡ code c
    → Decided is_match deadline (l ∷ ls) c
now-Decided is_match deadline l ls n c d e =
    let same : n ≡ c = cc in
    ([], ls, l, refl, tt, subst (λ m. Decides is_match deadline l m) same d)

-- A code of `expect_screen` is decided by the first round that does not go on: 0 if its screen
-- matches, or the last one of a finished session; 1 if the session has finished and neither does; and
-- 124 if the deadline has passed and none of these holds.
pub expect_screen-Decides :
    (is_match : Bytes → Bool) (deadline : Option ℕ) (ls : List ScreenLook) (c : ℕ)
    → expect_screen is_match deadline ls ≡ code c
    → Decided is_match deadline ls c
unfolding expect_screen
expect_screen-Decides is_match deadline [] c e = absurd (cc e)
expect_screen-Decides is_match deadline (l ∷ ls) c e = elim (Bool-cases (is_match l.screen)) [
  | inl m ↦ now-Decided is_match deadline l ls 0 c (shows m) (rw m at e)
  | inr m ↦ elim (Bool-cases (is_finished l.status)) [
    | inl f ↦ elim (Bool-cases (is_match l.last_screen)) [
      | inl x ↦ now-Decided is_match deadline l ls 0 c (shows_at_end m f x) (rw (m, f, x) at e)
      | inr x ↦ now-Decided is_match deadline l ls 1 c (ends m f x) (rw (m, f, x) at e)
    ]
    | inr f ↦ elim (Bool-cases (past deadline l.now)) [
      | inl t ↦ now-Decided is_match deadline l ls 124 c (times_out m f t) (rw (m, f, t) at e)
      | inr t ↦
          (let later : expect_screen is_match deadline ls ≡ code c = rw (m, f, t) at e in
            let (before, after, x, eq, a, d) = expect_screen-Decides is_match deadline ls c later in
            (l ∷ before, after, x, ap (◌∷◌ l) eq, ((m, f, t), a), d))
    ]
  ]
]
