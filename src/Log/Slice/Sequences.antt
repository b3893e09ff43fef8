-- ===== src/Log/Slice/Sequences.antt =====
-- `escape_complete` by what it means: the forms of escape sequences.
use babysit.Prelude.{
  ℕ, ◌≤◌, ◌≡◌, ◌≢◌, ◌↔◌, ◌⊎◌, inl, inr, refl, ap, ◌∙◌, Bool, true, ◌&&◌, ◌||◌, [], ◌∷◌, ◌++◌, Bytes,
  length, arith, any, leb, ◌==◌, ==_iff, if◌then◌else◌, Bool-cases,
}
use babysit.Log.Slice.{esc, is_final, has_terminator, escape_complete}

-- A text has a byte of some kind.
abbrev pub Has : (ℕ → Type 0) → Bytes → Type 0
Has P bytes = (before : Bytes) × (b : ℕ) × (after : Bytes) × (bytes ≡ before ++ b ∷ after) × P b

-- A text has the escape and the backslash that terminate a string.
abbrev pub HasTerminator : Bytes → Type 0
HasTerminator bytes = (before : Bytes) × (after : Bytes) × (bytes ≡ before ++ esc ∷ b'\\' ∷ after)

-- An escape and what is behind it hold the whole of its sequence: a control sequence with its final byte,
-- an operating system command with a bell or a terminator, a single shift with a character, or two bytes.
pub Complete : Bytes → Type 0
Complete [] = ⊥
Complete (e ∷ []) = ⊥
Complete (e ∷ c ∷ rest) =
    ((c ≡ b'[') × Has (λ b. (0x40 ≤ b) × (b ≤ 0x7e)) rest)
    ⊎ (((c ≡ b']') × (Has (λ b. b ≡ 0x07) rest ⊎ HasTerminator rest))
        ⊎ (((c ≡ b'O') × (rest ≢ [])) ⊎ ((c ≢ b'[') × (c ≢ b']') × (c ≢ b'O'))))

any-Has : (p : ℕ → Bool) (bytes : Bytes) → (any p bytes ≡ true) ↔ Has (λ b. p b ≡ true) bytes
any-Has p bytes = (there bytes, back bytes)
  where
    there : (bs : Bytes) → any p bs ≡ true → Has (λ b. p b ≡ true) bs
    there [] h = absurd (cc h)
    there (x ∷ bs) h = elim (Bool-cases (p x)) [
      | inl e ↦ ([], x, bs, refl, e)
      | inr e ↦
          let (before, b, after, at, q) = there bs (ground arith) in
          (x ∷ before, b, after, ap (◌∷◌ x) at, q)
    ]

    onto :
        (before : Bytes) (b : ℕ) (after : Bytes) → p b ≡ true → any p (before ++ b ∷ after) ≡ true
    onto [] b after q = rw q refl
    onto (x ∷ before) b after q = let ih = onto before b after q in ground arith

    back : (bs : Bytes) → Has (λ b. p b ≡ true) bs → any p bs ≡ true
    back bs (before, b, after, at, q) = ap (any p) at ∙ onto before b after q

has_terminator-HasTerminator : (bytes : Bytes) → (has_terminator bytes ≡ true) ↔ HasTerminator bytes
unfolding has_terminator
has_terminator-HasTerminator bytes = (there bytes, back bytes)
  where
    there : (bs : Bytes) → has_terminator bs ≡ true → HasTerminator bs
    there [] h = absurd (cc h)
    there (a ∷ []) h = absurd (cc h)
    there (a ∷ b ∷ rest) h = elim (Bool-cases (a == esc && b == b'\\')) [
      | inl e ↦
          let ha : a ≡ esc = (==_iff a esc).0 (ground arith) in
          let hb : b ≡ b'\\' = (==_iff b b'\\').0 (ground arith) in ([], rest, cc)
      | inr e ↦
          let (before, after, at) = there (b ∷ rest) (ground arith) in
          (a ∷ before, after, ap (◌∷◌ a) at)
    ]

    onto : (before after : Bytes) → has_terminator (before ++ esc ∷ b'\\' ∷ after) ≡ true
    onto [] after = refl
    onto (x ∷ []) after = ground arith
    onto (x ∷ y ∷ before) after = let ih = onto (y ∷ before) after in ground arith

    back : (bs : Bytes) → HasTerminator bs → has_terminator bs ≡ true
    back bs (before, after, at) = ap has_terminator at ∙ onto before after

Has-map : (P Q : ℕ → Type 0) (bytes : Bytes) → ((b : ℕ) → P b → Q b) → Has P bytes → Has Q bytes
Has-map P Q bytes f (before, b, after, at, p) = (before, b, after, at, f b p)

final-Has : (rest : Bytes) → (any is_final rest ≡ true) ↔ Has (λ b. (0x40 ≤ b) × (b ≤ 0x7e)) rest
final-Has rest =
    let iff = any-Has is_final rest in
    (
      λ h.
          Has-map (λ b. is_final b ≡ true) (λ b. (0x40 ≤ b) × (b ≤ 0x7e)) rest (λ b q. ground arith)
            (iff.0 h),
      λ h. iff.1 (
          Has-map (λ b. (0x40 ≤ b) × (b ≤ 0x7e)) (λ b. is_final b ≡ true) rest (λ b q. ground arith)
            h),
    )

bell-Has : (rest : Bytes) → (any (λ b. b == 0x07) rest ≡ true) ↔ Has (λ b. b ≡ 0x07) rest
bell-Has rest =
    let iff = any-Has (λ b. b == 0x07) rest in
    (
      λ h.
          Has-map (λ b. (b == 0x07) ≡ true) (λ b. b ≡ 0x07) rest (λ b q. (==_iff b 0x07).0 q)
            (iff.0 h),
      λ h.
          iff.1
            (Has-map (λ b. b ≡ 0x07) (λ b. (b == 0x07) ≡ true) rest (λ b q. (==_iff b 0x07).1 q) h),
    )

-- A bracket behind an escape begins no terminator.
has_terminator-bracket :
    (e : ℕ) (rest : Bytes) → has_terminator (e ∷ b']' ∷ rest) ≡ has_terminator rest
unfolding has_terminator
has_terminator-bracket e [] = ground arith
has_terminator-bracket e (x ∷ rest) = ground arith

-- The cases of the second byte.
by_kind :
    (c : ℕ) (csi osc ss3 : Bool) (A B C : Type 0)
    → ((csi ≡ true) ↔ A)
    → ((c ≡ b']') → ((osc ≡ true) ↔ B))
    → ((ss3 ≡ true) ↔ C)
    → ((if c == b'[' then csi else if c == b']' then osc else if c == b'O' then ss3 else true)
        ≡ true)
      ↔ (((c ≡ b'[') × A)
          ⊎ (((c ≡ b']') × B) ⊎ (((c ≡ b'O') × C) ⊎ ((c ≢ b'[') × (c ≢ b']') × (c ≢ b'O')))))
by_kind c csi osc ss3 A B C a b k = (there, back)
  where
    there :
        (if c == b'[' then csi else if c == b']' then osc else if c == b'O' then ss3 else true)
          ≡ true
        → ((c ≡ b'[') × A)
          ⊎ (((c ≡ b']') × B) ⊎ (((c ≡ b'O') × C) ⊎ ((c ≢ b'[') × (c ≢ b']') × (c ≢ b'O'))))
    there h = elim (Bool-cases (c == b'[')) [
      | inl e ↦ inl ((==_iff c b'[').0 e, a.0 (ground arith))
      | inr e ↦ elim (Bool-cases (c == b']')) [
        | inl f ↦ let at = (==_iff c b']').0 f in inr (inl (at, (b at).0 (ground arith)))
        | inr f ↦ elim (Bool-cases (c == b'O')) [
          | inl g ↦ inr (inr (inl ((==_iff c b'O').0 g, k.0 (ground arith))))
          | inr g ↦ inr (inr (inr (λ x. ground arith, λ x. ground arith, λ x. ground arith)))
        ]
      ]
    ]

    back :
        ((c ≡ b'[') × A)
          ⊎ (((c ≡ b']') × B) ⊎ (((c ≡ b'O') × C) ⊎ ((c ≢ b'[') × (c ≢ b']') × (c ≢ b'O'))))
        → (if c == b'[' then csi else if c == b']' then osc else if c == b'O' then ss3 else true)
          ≡ true
    back (inl (e, x)) = let y = a.1 x in ground arith
    back (inr (inl (e, x))) = let y = (b e).1 x in ground arith
    back (inr (inr (inl (e, x)))) = let y = k.1 x in ground arith
    back (inr (inr (inr (e, f, g)))) = ground arith

osc-Has :
    (e c : ℕ) (rest : Bytes)
    → c ≡ b']'
    → ((any (λ b. b == 0x07) rest || has_terminator (e ∷ c ∷ rest)) ≡ true)
      ↔ (Has (λ b. b ≡ 0x07) rest ⊎ HasTerminator rest)
osc-Has e c rest at = (there, back)
  where
    skipped : has_terminator (e ∷ c ∷ rest) ≡ has_terminator rest
    skipped = ap (λ x. has_terminator (e ∷ x ∷ rest)) at ∙ has_terminator-bracket e rest

    there :
        (any (λ b. b == 0x07) rest || has_terminator (e ∷ c ∷ rest)) ≡ true
        → Has (λ b. b ≡ 0x07) rest ⊎ HasTerminator rest
    there h = elim (Bool-cases (any (λ b. b == 0x07) rest)) [
      | inl t ↦ inl ((bell-Has rest).0 t)
      | inr f ↦ inr ((has_terminator-HasTerminator rest).0 (ground (arith, skipped)))
    ]

    back :
        Has (λ b. b ≡ 0x07) rest ⊎ HasTerminator rest
        → (any (λ b. b == 0x07) rest || has_terminator (e ∷ c ∷ rest)) ≡ true
    back (inl x) = let y = (bell-Has rest).1 x in ground arith
    back (inr x) = let y = (has_terminator-HasTerminator rest).1 x in ground (arith, skipped)

-- Three bytes are two and another.
third_byte : (e c : ℕ) (rest : Bytes) → (leb 3 (length (e ∷ c ∷ rest)) ≡ true) ↔ (rest ≢ [])
third_byte e c [] = (λ h. ground arith, λ h. absurd (h refl))
third_byte e c (x ∷ rest) = (λ h e. cc e, λ h. ground arith)

pub escape_complete-Complete : (tail : Bytes) → (escape_complete tail ≡ true) ↔ Complete tail
unfolding escape_complete Complete
escape_complete-Complete [] = (λ h. cc h, λ h. absurd h)
escape_complete-Complete (e ∷ []) = (λ h. cc h, λ h. absurd h)
escape_complete-Complete (e ∷ c ∷ rest) =
    by_kind c (any is_final rest) (any (λ b. b == 0x07) rest || has_terminator (e ∷ c ∷ rest))
      (leb 3 (length (e ∷ c ∷ rest))) (Has (λ b. (0x40 ≤ b) × (b ≤ 0x7e)) rest)
      (Has (λ b. b ≡ 0x07) rest ⊎ HasTerminator rest) (rest ≢ []) (final-Has rest)
      (osc-Has e c rest) (third_byte e c rest)
