-- ===== src/Durations/Forwarded.antt =====
-- src/run.rs: what the parent process hands to its worker on the command line.
use babysit.Prelude.{
  ℕ, ◌-◌, ◌*◌, ◌^◌, ◌<◌, ◌≤◌, ◌≡◌, ◌≢◌, refl, ap, subst, ◌∙◌, false, ◌||◌, [], ◌∷◌, ◌++◌, none,
  some, Bytes, ltb, ◌==◌, if◌then◌else◌, codes, bytes_eq, to_lower, map, last?, length, take, arith,
  All, length-append, take-length_append, append-nil,
}
use babysit.Durations.{
  parse_unsigned, millis, invalid, overflow, strip_suffix, unit_secs, parse_duration, never, after,
  invalid_timeout, parse_timeout, split_once, parse_size, is_space, u64, is_sentinel, timeout_of,
  parse_trimmed, but_last, u16,
}
use babysit.Durations.Units.{
  decimal, IsDigit, NoSpace, trim-NoSpace, decimal-digits, decimal-NoSpace, parse_unsigned-decimal,
}

strip_suffix-ms : (s : Bytes) → All IsDigit s → strip_suffix (codes "ms") (s ++ codes "ms") ≡ some s
unfolding strip_suffix bytes_eq
strip_suffix-ms [] h = refl
strip_suffix-ms (b ∷ bs) h = ground (arith, strip_suffix-ms bs h.1)

strip_suffix-unit :
    (m m' c : ℕ) (s : Bytes)
    → All IsDigit s
    → b'9' < m
    → strip_suffix (m ∷ m' ∷ []) (s ++ c ∷ []) ≡ none
unfolding strip_suffix bytes_eq
strip_suffix-unit m m' c [] h k = ground arith
strip_suffix-unit m m' c (b ∷ bs) h k = ground (arith, strip_suffix-unit m m' c bs h.1 k)

last?-append : (s : Bytes) (c : ℕ) → last? (s ++ c ∷ []) ≡ some c
last?-append [] c = refl
last?-append (a ∷ []) c = refl
last?-append (a ∷ b ∷ r) c = last?-append (b ∷ r) c

but_last-append : (s : Bytes) (c : ℕ) → but_last (s ++ c ∷ []) ≡ s
but_last-append s c =
    let e : length (s ++ c ∷ []) - 1 ≡ length s = omega (arith, length-append s (c ∷ [])) in
    ap (λ n. take n (s ++ c ∷ [])) e ∙ take-length_append s (c ∷ [])

u64-decimal : (n : ℕ) → n < 10 ^ 25 → u64 (decimal n) ≡ (if ltb n (2 ^ 64) then some n else none)
u64-decimal n lt =
    ap (parse_unsigned (2 ^ 64)) (
      trim-NoSpace (decimal n)
        (subst NoSpace (append-nil (decimal n)) (decimal-NoSpace n [] lt tt)))
    ∙ parse_unsigned-decimal (2 ^ 64) n lt

abbrev pub millis_text : ℕ → Bytes
millis_text n = decimal n ++ codes "ms"

-- A number of milliseconds is read as it was printed, if it fits into 64 bits.
parse_duration-millis :
    (n : ℕ)
    → n < 10 ^ 25
    → parse_duration (millis_text n) ≡ (if ltb n (2 ^ 64) then millis n else invalid)
unfolding parse_duration
parse_duration-millis n lt =
    ap parse_trimmed
      (trim-NoSpace (millis_text n) (decimal-NoSpace n (codes "ms") lt (refl, (refl, tt))))
    ∙ ground (arith, strip_suffix-ms (decimal n) (decimal-digits n lt), u64-decimal n lt)

-- A number with a unit of seconds, minutes, hours or days is read as that many seconds, up to 64
-- bits; beyond, the multiplication overflows.
pub parse_duration-unit :
    (n c unit : ℕ)
    → n < 2 ^ 64
    → unit_secs c ≡ some unit
    → parse_duration (decimal n ++ c ∷ [])
      ≡ (if ltb (n * unit) (2 ^ 64) then millis (n * unit * 1000) else overflow)
unfolding parse_duration
parse_duration-unit n c unit lt u =
    let big : n < 10 ^ 25 = omega arith in
    ap parse_trimmed
      (trim-NoSpace (decimal n ++ c ∷ []) (decimal-NoSpace n (c ∷ []) big (no_space, tt)))
    ∙ ground (
      arith,
      strip_suffix-unit b'm' b's' c (decimal n) (decimal-digits n big) (omega arith),
      strip_suffix-unit b'M' b'S' c (decimal n) (decimal-digits n big) (omega arith),
      last?-append (decimal n) c,
      but_last-append (decimal n) c,
      u64-decimal n big,
    )
  where
    no_space : is_space c ≡ false
    no_space = unfold unit_secs in ground arith

lower_digits : (s rest : Bytes) → All IsDigit s → map to_lower (s ++ rest) ≡ s ++ map to_lower rest
lower_digits [] rest h = refl
lower_digits (b ∷ bs) rest h = ground (arith, lower_digits bs rest h.1)

-- What begins with a digit is none of the words that mean no timeout.
not_sentinel :
    (s rest : Bytes) → All IsDigit s → s ≢ [] → is_sentinel (map to_lower (s ++ rest)) ≡ false
unfolding bytes_eq
not_sentinel [] rest h ne = absurd (ne refl)
not_sentinel (b ∷ bs) rest h ne = ground arith

pub decimal-nonempty : (n : ℕ) → n < 10 ^ 25 → decimal n ≢ []
decimal-nonempty n lt e = ground (arith, parse_unsigned-decimal (10 ^ 25) n lt, empty)
  where
    empty : parse_unsigned (10 ^ 25) (decimal n) ≡ none
    empty = rw e (unfold parse_unsigned in refl)

parse_timeout-number :
    (n : ℕ) (rest : Bytes)
    → n < 10 ^ 25
    → NoSpace rest
    → parse_timeout (decimal n ++ rest) ≡ timeout_of (parse_duration (decimal n ++ rest))
unfolding parse_timeout
parse_timeout-number n rest lt k =
    ap (λ t. if is_sentinel (map to_lower t) then never else timeout_of (parse_duration t))
      (trim-NoSpace (decimal n ++ rest) (decimal-NoSpace n rest lt k))
    ∙ ap (λ x. if x then never else timeout_of (parse_duration (decimal n ++ rest)))
        (not_sentinel (decimal n) rest (decimal-digits n lt) (decimal-nonempty n lt))

-- A timeout of `n` milliseconds, below 10 ^ 25, that the parent prints for its worker is read there
-- as the same timeout if it fits into 64 bits, with zero for none, and is refused otherwise.
pub parse_timeout-millis_text :
    (n : ℕ)
    → n < 10 ^ 25
    → parse_timeout (millis_text n)
      ≡ (if ltb n (2 ^ 64) then (if n == 0 then never else after n) else invalid_timeout)
parse_timeout-millis_text n lt =
    parse_timeout-number n (codes "ms") lt (refl, (refl, tt))
    ∙ ap timeout_of (parse_duration-millis n lt)
    ∙ ground arith

-- A timeout of `n` seconds, a 64-bit number, whose milliseconds do not fit into 64 bits is accepted
-- by the parent, and what the parent prints for its worker is refused there.
pub long_timeout_lost :
    (n : ℕ)
    → n < 2 ^ 64
    → 2 ^ 64 ≤ n * 1000
    → (parse_timeout (decimal n ++ b's' ∷ []) ≡ after (n * 1000))
      × (parse_timeout (millis_text (n * 1000)) ≡ invalid_timeout)
long_timeout_lost n lt long = (
  parse_timeout-number n (b's' ∷ []) (omega arith) (refl, tt)
      ∙ ap timeout_of (parse_duration-unit n b's' 1 lt (unfold unit_secs in refl))
      ∙ ground arith,
  parse_timeout-millis_text (n * 1000) (omega arith) ∙ ground arith,
)

split_once-x : (s rest : Bytes) → All IsDigit s → split_once (s ++ (b'x' ∷ rest)) ≡ some (s, rest)
unfolding split_once
split_once-x [] rest h = refl
split_once-x (b ∷ bs) rest h = ground (arith, split_once-x bs rest h.1)

u16-decimal : (n : ℕ) → n < 2 ^ 16 → u16 (decimal n) ≡ some n
u16-decimal n lt =
    let big : n < 10 ^ 25 = omega arith in
    ap (parse_unsigned (2 ^ 16)) (
      trim-NoSpace (decimal n)
        (subst NoSpace (append-nil (decimal n)) (decimal-NoSpace n [] big tt)))
    ∙ parse_unsigned-decimal (2 ^ 16) n big
    ∙ ground arith

-- A window size reaches the worker as the parent printed it.
pub parse_size-text :
    (cols rows : ℕ)
    → cols < 2 ^ 16
    → rows < 2 ^ 16
    → parse_size (decimal cols ++ (b'x' ∷ decimal rows))
      ≡ (if cols == 0 || rows == 0 then none else some (cols, rows))
unfolding parse_size
parse_size-text cols rows hc hr =
    rw (split_once-x (decimal cols) (decimal rows) (decimal-digits cols (omega arith)), parse_size)
      (rw (u16-decimal cols hc, u16-decimal rows hr) refl)
