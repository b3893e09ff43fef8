-- ===== src/Paths/Short.antt =====
-- src/paths.rs: the path of a control socket is short, and is a session's own unless hashes collide.
use babysit.Prelude.{
  ℕ, zero, suc, ◌+◌, ◌*◌, ◌/◌, ◌%◌, ◌^◌, ◌<◌, ◌≤◌, ◌≡◌, ◌↔◌, refl, sym, ap, ◌∙◌, Bool, true, false,
  ◌||◌, [], ◌∷◌, ◌++◌, Bytes, length, drop, is_empty, ends_in, if◌then◌else◌, arith, length-append,
  drop-length_append,
}
use babysit.Render.{hex_digit}
use babysit.Paths.{
  with_separator, xor, join, hash_from, stable_hash, hex_onto, hex16, Babysit, control_socket_path,
}

hex_onto-digits :
    (n k : ℕ) (b : ℕ) (bs : Bytes)
    → b'/' < b
    → (c : ℕ) × (cs : Bytes) × (hex_onto n k (b ∷ bs) ≡ c ∷ cs)
      × (b'/' < c)
      × (length cs ≡ length bs + n)
unfolding hex_onto
hex_onto-digits zero k b bs h = (b, bs, refl, h, omega arith)
hex_onto-digits (suc n) k b bs h =
    let (c, cs, e, lt, len) =
      hex_onto-digits n (k / 16) (hex_digit (k % 16)) (b ∷ bs) (ground arith) in
    (c, cs, e, lt, omega (arith, len))

hex16_cons : (k : ℕ) → (c : ℕ) × (cs : Bytes) × (hex16 k ≡ c ∷ cs) × (b'/' < c) × (length cs ≡ 15)
unfolding hex16
hex16_cons k =
    let (c, cs, e, lt, len) = hex_onto-digits 15 (k / 16) (hex_digit (k % 16)) [] (ground arith) in
    (c, cs, e, lt, len)

hex_digit-injective : (m n : ℕ) → m < 16 → n < 16 → hex_digit m ≡ hex_digit n → m ≡ n
hex_digit-injective m n hm hn e = ground arith

hex_onto-injective :
    (f m n : ℕ) (t u : Bytes)
    → m < 16 ^ f
    → n < 16 ^ f
    → hex_onto f m t ≡ hex_onto f n u
    → (m ≡ n) × (t ≡ u)
unfolding hex_onto
hex_onto-injective zero m n t u hm hn e = (omega arith, e)
hex_onto-injective (suc f) m n t u hm hn e =
    let (quotients, tails) =
      hex_onto-injective f (m / 16) (n / 16) (hex_digit (m % 16) ∷ t) (hex_digit (n % 16) ∷ u)
        (omega arith) (omega arith) e in
    let digits : m % 16 ≡ n % 16 =
      hex_digit-injective (m % 16) (n % 16) (omega arith) (omega arith) (cc tails) in
    (omega arith, cc tails)

mod_below : (x : ℕ) → x % 2 ^ 64 < 2 ^ 64
mod_below x = omega arith

hash_from-below : (h : ℕ) (s : Bytes) → h < 2 ^ 64 → hash_from h s < 2 ^ 64
unfolding hash_from
hash_from-below h [] lt = lt
hash_from-below h (b ∷ s) lt =
    hash_from-below ((xor 64 h b * 0x100000001b3) % 2 ^ 64) s
      (mod_below (xor 64 h b * 0x100000001b3))

join-hex16 : (a : Bytes) (k : ℕ) → join a (hex16 k) ≡ with_separator a ++ hex16 k
join-hex16 a k =
    let (c, cs, e, lt, len) = hex16_cons k in
    ap (join a) e ∙ ground arith ∙ ap (◌++◌ (with_separator a)) (sym e)

length-hex16 : (k : ℕ) → length (hex16 k) ≡ 16
length-hex16 k = let (c, cs, e, lt, len) = hex16_cons k in ap length e ∙ omega (arith, len)

with_separator-longer : (a : Bytes) → length (with_separator a) ≤ length a + 1
with_separator-longer a = of_test (is_empty a || ends_in b'/' a)
  where
    of_test : (b : Bool) → length (if b then a else a ++ b'/' ∷ []) ≤ length a + 1
    of_test true = omega arith
    of_test false = omega (arith, length-append a (b'/' ∷ []))

-- Behind a first part, the digits of two hashes of 64 bits are the same only if the hashes are.
same_hash :
    (a s t : Bytes)
    → a ++ hex16 (stable_hash s) ≡ a ++ hex16 (stable_hash t)
    → stable_hash s ≡ stable_hash t
unfolding stable_hash hex16
same_hash a s t e =
    let digits : hex16 (stable_hash s) ≡ hex16 (stable_hash t) =
      sym (drop-length_append a (hex16 (stable_hash s)))
      ∙ ap (drop (length a)) e
      ∙ drop-length_append a (hex16 (stable_hash t)) in
    let below = λ (u : Bytes). hash_from-below 0xcbf29ce484222325 u (omega arith) in
    let s_below : stable_hash s < 16 ^ 16 = omega (arith, below s) in
    let t_below : stable_hash t < 16 ^ 16 = omega (arith, below t) in
    (hex_onto-injective 16 (stable_hash s) (stable_hash t) [] [] s_below t_below digits).0

-- Whatever the root and the id are, the path of a control socket is at most 34 bytes longer than the
-- directory of the sockets; and two sessions of a root have the same path exactly if the hashes of their
-- ids are the same.
pub control_socket_path_short :
    (bs : Babysit) (id other : Bytes)
    → (length (control_socket_path bs id) ≤ length bs.sockets + 34)
      × ((control_socket_path bs id ≡ control_socket_path bs other)
          ↔ (stable_hash id ≡ stable_hash other))
unfolding control_socket_path
control_socket_path_short bs id other = (
  omega (
    arith,
    ap length path,
    length-append (with_separator base) (hex16 (stable_hash id)),
    length-hex16 (stable_hash id),
    with_separator-longer base,
    ap length (join-hex16 bs.sockets (stable_hash bs.root)),
    length-append (with_separator bs.sockets) (hex16 (stable_hash bs.root)),
    length-hex16 (stable_hash bs.root),
    with_separator-longer bs.sockets,
  ),
  (
    λ e.
        same_hash (with_separator base) id other
          (sym path ∙ e ∙ join-hex16 base (stable_hash other)),
    λ e. ap (λ h. join base (hex16 h)) e,
  ),
)
  where
    base : Bytes
    base = join bs.sockets (hex16 (stable_hash bs.root))

    path : control_socket_path bs id ≡ with_separator base ++ hex16 (stable_hash id)
    path = join-hex16 base (stable_hash id)
