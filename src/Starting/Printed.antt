-- ===== src/Starting/Printed.antt =====
-- src/run.rs: the limits and the size that a parent prints for its worker are values, and are read back.
use babysit.Prelude.{
  ℕ, ◌+◌, ◌-◌, ◌*◌, ◌^◌, ◌<◌, ◌≡◌, ◌≢◌, refl, false, [], ◌∷◌, ◌++◌, Option, none, some, Bytes,
  codes, arith, All,
}
use babysit.Durations.{
  parse_timeout, parse_size, parse_duration, digits, parse_unsigned, Parsed, millis, invalid,
  overflow, timeout_of, nonempty_digits, split_once, u16, trim, size_of, parse_sides,
}
use babysit.Durations.Units.{decimal, IsDigit, decimal-digits}
use babysit.Durations.Forwarded.{parse_timeout-millis_text, parse_size-text, decimal-nonempty}
use babysit.Starting.{limit_of, read_limit, given_size, read_size, millis_of, text_of_size}
use babysit.Starting.Parser.{dashed, IsPlain}

-- A limit that fits into 64 bits, and is not zero, where there is one.
pub Fits : Option ℕ → Type 0
Fits none = Unit
Fits (some n) = (n < 2 ^ 64) × (0 < n)

pub FitsSize : Option (ℕ × ℕ) → Type 0
FitsSize none = Unit
FitsSize (some (c, r)) = (c < 2 ^ 16) × (r < 2 ^ 16) × (0 < c) × (0 < r)

below_limit : (limit acc n : ℕ) (s : Bytes) → acc < limit → digits limit acc s ≡ some n → n < limit
unfolding digits
below_limit limit acc n [] lt e = ground arith
below_limit limit acc n (b ∷ bs) lt e =
    let ih = below_limit limit (acc * 10 + (b - b'0')) n bs in ground arith

u16-bounds : (s : Bytes) (n : ℕ) → u16 s ≡ some n → n < 2 ^ 16
unfolding parse_unsigned
u16-bounds s n e = of_text (trim s) e
  where
    of_digits : (t : Bytes) → nonempty_digits (2 ^ 16) t ≡ some n → n < 2 ^ 16
    of_digits [] h = absurd (cc h)
    of_digits (b ∷ bs) h = below_limit (2 ^ 16) 0 n (b ∷ bs) (omega arith) h

    of_text : (t : Bytes) → parse_unsigned (2 ^ 16) t ≡ some n → n < 2 ^ 16
    of_text [] h = absurd (cc h)
    of_text (b ∷ bs) h = let d = of_digits (b ∷ bs) in let e = of_digits bs in ground arith

-- A size that is read fits, and no side is zero.
parse_size-FitsSize : (s : Bytes) (z : ℕ × ℕ) → parse_size s ≡ some z → FitsSize (some z)
unfolding parse_size FitsSize
parse_size-FitsSize s z e = of_sides (split_once s) e
  where
    of_numbers :
        (c r : Option ℕ)
        → ((n : ℕ) → c ≡ some n → n < 2 ^ 16)
        → ((n : ℕ) → r ≡ some n → n < 2 ^ 16)
        → size_of c r ≡ some z
        → FitsSize (some z)
    of_numbers (some c) (some r) hc hr h = let lc = hc c refl in let lr = hr r refl in ground arith
    of_numbers none r hc hr h = absurd (cc h)
    of_numbers (some c) none hc hr h = absurd (cc h)

    of_sides : (t : Option (Bytes × Bytes)) → parse_sides t ≡ some z → FitsSize (some z)
    of_sides none h = absurd (cc h)
    of_sides (some (c, r)) h = of_numbers (u16 c) (u16 r) (u16-bounds c) (u16-bounds r) h

-- A timeout that is read is not zero.
positive_limit : (p : Parsed) (n : ℕ) → limit_of (timeout_of p) ≡ some (some n) → 0 < n
positive_limit (millis m) n e = ground arith
positive_limit invalid n e = absurd (cc e)
positive_limit overflow n e = absurd (cc e)

positive : (s : Option Bytes) (n : ℕ) → read_limit s ≡ some (some n) → 0 < n
unfolding read_limit parse_timeout
positive none n e = absurd (cc e)
positive (some s) n e = ground (arith, positive_limit (parse_duration (trim s)) n)

dashed-digit : (b : ℕ) (t : Bytes) → IsDigit b → dashed (b ∷ t) ≡ false
unfolding dashed
dashed-digit b [] d = refl
dashed-digit b (c ∷ t) d = ground arith

digits-IsPlain : (s rest : Bytes) → All IsDigit s → s ≢ [] → IsPlain (s ++ rest)
digits-IsPlain [] rest all ne = absurd (ne refl)
digits-IsPlain (b ∷ s) rest all ne = record {
  some_text = λ e. cc e;
  not_dashed = dashed-digit b (s ++ rest) all.0;
}

decimal-IsPlain : (n : ℕ) (rest : Bytes) → n < 10 ^ 25 → IsPlain (decimal n ++ rest)
decimal-IsPlain n rest lt =
    digits-IsPlain (decimal n) rest (decimal-digits n lt) (decimal-nonempty n lt)

-- A value that is plain, if there is one.
abbrev pub PlainValue : Option Bytes → Type 0
PlainValue none = Unit
PlainValue (some v) = IsPlain v

pub millis_of-PlainValue : (t : Option ℕ) → Fits t → PlainValue (millis_of t)
unfolding Fits
millis_of-PlainValue none f = tt
millis_of-PlainValue (some n) f = decimal-IsPlain n (codes "ms") (omega arith)

pub text_of_size-PlainValue : (z : Option (ℕ × ℕ)) → FitsSize z → PlainValue (text_of_size z)
unfolding FitsSize
text_of_size-PlainValue none f = tt
text_of_size-PlainValue (some (c, r)) f = decimal-IsPlain c (b'x' ∷ decimal r) (omega arith)

pub read_limit-millis_of : (t : Option ℕ) → Fits t → read_limit (millis_of t) ≡ some t
unfolding read_limit Fits
read_limit-millis_of none f = refl
read_limit-millis_of (some n) f = ground (arith, parse_timeout-millis_text n (omega arith))

pub read_size-text_of_size : (z : Option (ℕ × ℕ)) → FitsSize z → read_size (text_of_size z) ≡ some z
unfolding read_size FitsSize
read_size-text_of_size none f = refl
read_size-text_of_size (some (c, r)) f = ground (arith, parse_size-text c r f.0 f.1)

-- A limit whose milliseconds fit into 64 bits, if there is one.
abbrev pub FitsMillis : Option ℕ → Type 0
FitsMillis none = Unit
FitsMillis (some n) = n < 2 ^ 64

pub read_limit-Fits :
    (s : Option Bytes) (t : Option ℕ) → read_limit s ≡ some t → FitsMillis t → Fits t
unfolding Fits
read_limit-Fits s none e f = tt
read_limit-Fits s (some n) e f = (f, positive s n e)

pub read_size-FitsSize : (s : Option Bytes) (z : Option (ℕ × ℕ)) → read_size s ≡ some z → FitsSize z
unfolding read_size FitsSize
read_size-FitsSize s none e = tt
read_size-FitsSize none (some z) e = absurd (cc e)
read_size-FitsSize (some s) (some z) e = of_size (parse_size s) refl e
  where
    of_size :
        (r : Option (ℕ × ℕ)) → parse_size s ≡ r → given_size r ≡ some (some z) → FitsSize (some z)
    of_size none h k = absurd (cc k)
    of_size (some y) h k = parse_size-FitsSize s z (cc (h, k))
