-- ===== src/Durations/Units.antt =====
-- src/run.rs: numbers printed in decimal, as `run` hands them to its worker, and read back.
use babysit.Prelude.{
  ℕ, zero, suc, ◌+◌, ◌/◌, ◌%◌, ◌^◌, ◌<◌, ◌≤◌, ◌≡◌, refl, sym, ap, subst, ◌∙◌, false, [], ◌∷◌, ◌++◌,
  none, some, Bytes, ltb, if◌then◌else◌, arith, All,
}
use native.Mathlib.Decide.{dec_lt}
use babysit.Durations.{digits, parse_unsigned, trim, trim_start, trim_end, is_space}

-- A number printed in decimal in front of `tail`; the fuel bounds the number of digits.
unfoldable pub decimal_onto : ℕ → ℕ → Bytes → Bytes
decimal_onto zero n tail = tail
decimal_onto (suc fuel) n tail =
    let more = decimal_onto fuel (n / 10) ((b'0' + n % 10) ∷ tail) in
    if ltb n 10 then (b'0' + n) ∷ tail else more

-- Numbers below 10 ^ 25, which all durations in milliseconds are.
abbrev pub decimal : ℕ → Bytes
decimal n = decimal_onto 25 n []

more_digits : (fuel n : ℕ) → n < 10 ^ suc fuel → 10 ≤ n → 0 < fuel
more_digits zero n lt le = omega arith
more_digits (suc fuel) n lt le = omega arith

digits-decimal_onto :
    (limit fuel n : ℕ) (tail : Bytes)
    → n < 10 ^ fuel
    → 0 < fuel
    → n < limit
    → digits limit 0 (decimal_onto fuel n tail) ≡ digits limit n tail
unfolding digits decimal_onto
digits-decimal_onto limit zero n tail lt pos small = absurd (omega arith)
digits-decimal_onto limit (suc fuel) n tail lt pos small = elim (dec_lt n 10) [
  | yes one ↦ ground arith
  | no more ↦
      let ih : digits limit 0 (decimal_onto fuel (n / 10) ((b'0' + n % 10) ∷ tail))
          ≡ digits limit (n / 10) ((b'0' + n % 10) ∷ tail) =
        digits-decimal_onto limit fuel (n / 10) ((b'0' + n % 10) ∷ tail) (omega arith)
          (more_digits fuel n lt (omega arith)) (omega arith) in
      ground arith
]

too_many :
    (limit fuel n : ℕ) (tail : Bytes)
    → n < 10 ^ fuel
    → 0 < fuel
    → limit ≤ n
    → digits limit 0 (decimal_onto fuel n tail) ≡ none
unfolding digits decimal_onto
too_many limit zero n tail lt pos big = absurd (omega arith)
too_many limit (suc fuel) n tail lt pos big = elim (dec_lt n 10) [
  | yes one ↦ ground arith
  | no more ↦ elim (dec_lt (n / 10) limit) [
    | yes below ↦
        let e : digits limit 0 (decimal_onto fuel (n / 10) ((b'0' + n % 10) ∷ tail))
            ≡ digits limit (n / 10) ((b'0' + n % 10) ∷ tail) =
          digits-decimal_onto limit fuel (n / 10) ((b'0' + n % 10) ∷ tail) (omega arith)
            (more_digits fuel n lt (omega arith)) below in
        ground arith
    | no above ↦
        let e : digits limit 0 (decimal_onto fuel (n / 10) ((b'0' + n % 10) ∷ tail)) ≡ none =
          too_many limit fuel (n / 10) ((b'0' + n % 10) ∷ tail) (omega arith)
            (more_digits fuel n lt (omega arith)) (omega arith) in
        ground arith
  ]
]

abbrev pub IsDigit : ℕ → Type 0
IsDigit b = (b'0' ≤ b) × (b ≤ b'9')

-- The printed number begins with a digit, and holds only digits.
decimal_onto-digits :
    (fuel n : ℕ) (tail : Bytes)
    → n < 10 ^ fuel
    → 0 < fuel
    → All IsDigit tail
    → (b : ℕ) × (bs : Bytes) × (decimal_onto fuel n tail ≡ b ∷ bs) × IsDigit b × All IsDigit bs
unfolding decimal_onto
decimal_onto-digits zero n tail lt pos h = absurd (omega arith)
decimal_onto-digits (suc fuel) n tail lt pos h = elim (dec_lt n 10) [
  | yes one ↦ (b'0' + n, tail, ground arith, (omega arith, omega arith), h)
  | no more ↦
      let (b, bs, e, d, ds) =
        decimal_onto-digits fuel (n / 10) ((b'0' + n % 10) ∷ tail) (omega arith)
          (more_digits fuel n lt (omega arith)) ((omega arith, omega arith), h) in
      (b, bs, ground arith, d, ds)
]

-- Text without blanks.
abbrev pub NoSpace : Bytes → Type 0
NoSpace = All λ b. is_space b ≡ false

trim_end-NoSpace : (s : Bytes) → NoSpace s → trim_end s ≡ s
trim_end-NoSpace [] h = refl
trim_end-NoSpace (b ∷ bs) h = ground (arith, trim_end-NoSpace bs h.1)

trim_start-NoSpace : (s : Bytes) → NoSpace s → trim_start s ≡ s
trim_start-NoSpace [] h = refl
trim_start-NoSpace (b ∷ bs) h = ground arith

pub trim-NoSpace : (s : Bytes) → NoSpace s → trim s ≡ s
trim-NoSpace s h = ap trim_end (trim_start-NoSpace s h) ∙ trim_end-NoSpace s h

digits-NoSpace : (s rest : Bytes) → All IsDigit s → NoSpace rest → NoSpace (s ++ rest)
digits-NoSpace [] rest h k = k
digits-NoSpace (b ∷ bs) rest h k = (ground arith, digits-NoSpace bs rest h.1 k)

pub decimal-digits : (n : ℕ) → n < 10 ^ 25 → All IsDigit (decimal n)
decimal-digits n lt =
    let (b, bs, e, d, ds) = decimal_onto-digits 25 n [] lt (omega arith) tt in
    subst (All IsDigit) (sym e) (d, ds)

pub decimal-NoSpace :
    (n : ℕ) (rest : Bytes) → n < 10 ^ 25 → NoSpace rest → NoSpace (decimal n ++ rest)
decimal-NoSpace n rest lt k = digits-NoSpace (decimal n) rest (decimal-digits n lt) k

parse_digits :
    (limit : ℕ) (s : Bytes) (b : ℕ) (bs : Bytes)
    → s ≡ b ∷ bs
    → IsDigit b
    → parse_unsigned limit s ≡ digits limit 0 s
unfolding parse_unsigned
parse_digits limit s b bs e d = rw e (ground arith)

-- A printed number is read back if it is below the limit, and refused otherwise.
pub parse_unsigned-decimal :
    (limit n : ℕ)
    → n < 10 ^ 25
    → parse_unsigned limit (decimal n) ≡ (if ltb n limit then some n else none)
unfolding digits
parse_unsigned-decimal limit n lt =
    let (b, bs, e, d, ds) = decimal_onto-digits 25 n [] lt (omega arith) tt in
    parse_digits limit (decimal n) b bs e d ∙ value
  where
    value : digits limit 0 (decimal n) ≡ (if ltb n limit then some n else none)
    value = elim (dec_lt n limit) [
      | yes small ↦ digits-decimal_onto limit 25 n [] lt (omega arith) small ∙ ground arith
      | no big ↦ too_many limit 25 n [] lt (omega arith) (omega arith) ∙ ground arith
    ]
