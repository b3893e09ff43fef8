-- ===== src/Session/Ids.antt =====
-- src/session.rs: choosing an id for a new session, and resolving one that the user names.
use babysit.Prelude.{
  ℕ, zero, suc, ◌+◌, ◌<◌, sym, ap, subst, ◌∙◌, ◌⊎◌, ◌≤◌, ◌≡◌, ◌≢◌, refl, Bool, true, false, not,
  ◌||◌, List, [], ◌∷◌, Option, none, some, Bytes, codes, bytes_eq, bytes_eq_iff, is_empty, length,
  any, all, ltb, ◌==◌, if◌then◌else◌, is_digit, is_alphabetic, arith, All, Memᴰ, ◌↔◌, Bool-cases,
  inl, inr,
}

-- `c.is_ascii_alphanumeric() || matches!(c, '-' | '_' | '.')`
abbrev pub is_id_char : ℕ → Bool
is_id_char c = is_alphabetic c || is_digit c || c == b'-' || c == b'_' || c == b'.'

-- `validate_id`
unfoldable pub validate_id : Bytes → Bool
unfolding bytes_eq
validate_id id =
    if is_empty id
    then false
    else if ltb 64 (length id)
    then false
    else if bytes_eq id (codes ".") || bytes_eq id (codes "..")
    then false
    else all is_id_char id

-- `new_unique_id`: the ids that `new_id` makes on its successive calls, and which of them have a
-- directory.
unfoldable pub new_unique_id : ℕ → (ℕ → Bytes) → (Bytes → Bool) → ℕ → Bytes
new_unique_id zero new_id dir_exists call = new_id call
new_unique_id (suc tries) new_id dir_exists call =
    let rest = new_unique_id tries new_id dir_exists (suc call) in
    if not (dir_exists (new_id call)) then new_id call else rest

-- `make_id`: `none` is an error.
unfoldable pub make_id : (ℕ → Bytes) → (Bytes → Bool) → Option Bytes → Option Bytes
unfolding new_unique_id
make_id new_id dir_exists (some id) =
    if validate_id id then (if dir_exists id then none else some id) else none
make_id new_id dir_exists none = some (new_unique_id 10000 new_id dir_exists 0)

-- `resolve_one`, on the ids that `list_ids` finds.
unfoldable pub resolve_one : List Bytes → Bytes → Option Bytes
resolve_one ids s = if any (λ i. bytes_eq i s) ids then some s else none

-- `resolve`, with the value of `$BABYSIT_SESSION_ID`.
unfoldable pub resolve : List Bytes → Option Bytes → Option Bytes → Option Bytes
unfolding resolve_one
resolve ids (some s) env = resolve_one ids s
resolve ids none none = none
resolve ids none (some env_id) = if not (is_empty env_id) then resolve_one ids env_id else none

all-All : (p : ℕ → Bool) (s : Bytes) → all p s ≡ true → All (λ c. p c ≡ true) s
all-All p [] h = tt
all-All p (c ∷ s) h = elim (Bool-cases (p c)) [
  | inl e ↦ (e, all-All p s (ground arith))
  | inr e ↦ ground arith
]

-- If `make_id` accepts a requested id, it is the request itself, at most 64 bytes long: not empty,
-- neither `.` nor `..`, and of letters, digits, `-`, `_` and `.` only. It names no directory yet.
pub make_id_requested :
    (new_id : ℕ → Bytes) (dir_exists : Bytes → Bool) (request id : Bytes)
    → make_id new_id dir_exists (some request) ≡ some id
    → (id ≡ request)
      × (id ≢ [])
      × (length id ≤ 64)
      × (id ≢ codes ".")
      × (id ≢ codes "..")
      × All (λ c. is_id_char c ≡ true) id
      × (dir_exists id ≡ false)
unfolding make_id validate_id
make_id_requested new_id dir_exists request id e = (
  same,
  ground arith,
  ground arith,
  λ dot. ground (arith, (bytes_eq_iff id (codes ".")).1 dot),
  λ dots. ground (arith, (bytes_eq_iff id (codes "..")).1 dots),
  all-All is_id_char id (ground arith),
  ground arith,
)
  where
    same : id ≡ request
    same = ground arith

-- An id that is made up names no directory, if one of the ids that are tried does not.
pub new_unique_id_free :
    (tries k call : ℕ) (new_id : ℕ → Bytes) (dir_exists : Bytes → Bool)
    → k < tries
    → dir_exists (new_id (call + k)) ≡ false
    → dir_exists (new_unique_id tries new_id dir_exists call) ≡ false
unfolding new_unique_id
new_unique_id_free zero k call new_id dir_exists lt free = absurd (omega arith)
new_unique_id_free (suc tries) zero call new_id dir_exists lt free =
    let e : call + 0 ≡ call = omega arith in ground (arith, ap new_id e)
new_unique_id_free (suc tries) (suc k) call new_id dir_exists lt free =
    let e : call + suc k ≡ suc call + k = omega arith in
    ground (
      arith,
      new_unique_id_free tries k (suc call) new_id dir_exists (omega arith)
          (ap (λ n. dir_exists (new_id n)) (sym e) ∙ free),
    )

any-Mem : (ids : List Bytes) (s : Bytes) → any (λ i. bytes_eq i s) ids ≡ true → Memᴰ s ids
any-Mem [] s h = cc
any-Mem (i ∷ ids) s h = elim (Bool-cases (bytes_eq i s)) [
  | inl e ↦ Memᴰ.head (sym ((bytes_eq_iff i s).0 e))
  | inr e ↦ Memᴰ.tail (any-Mem ids s (ground arith))
]

Mem-any : (ids : List Bytes) (s : Bytes) → Memᴰ s ids → any (λ i. bytes_eq i s) ids ≡ true
Mem-any [] s m = elim m [ ]
Mem-any (i ∷ ids) s (Memᴰ.head e) = ground (arith, (bytes_eq_iff i s).1 (sym e))
Mem-any (i ∷ ids) s (Memᴰ.tail m) = ground (arith, Mem-any ids s m)

-- What the user or the environment names.
abbrev pub Selected : Option Bytes → Option Bytes → Bytes → Type 0
Selected session env id = (session ≡ some id) ⊎ ((session ≡ none) × (env ≡ some id) × (id ≢ []))

resolve_one_found : (ids : List Bytes) (id : Bytes) → Memᴰ id ids → resolve_one ids id ≡ some id
unfolding resolve_one
resolve_one_found ids id m = ground (arith, Mem-any ids id m)

resolve_one_sound :
    (ids : List Bytes) (s id : Bytes) → resolve_one ids s ≡ some id → (s ≡ id) × Memᴰ id ids
unfolding resolve_one
resolve_one_sound ids s id e =
    let same : s ≡ id = ground arith in
    (same, subst (λ t. Memᴰ t ids) same (any-Mem ids s (ground arith)))

resolve_sound :
    (ids : List Bytes) (session env : Option Bytes) (id : Bytes)
    → resolve ids session env ≡ some id
    → Memᴰ id ids × Selected session env id
unfolding resolve
resolve_sound ids (some s) env id e =
    let (same, m) = resolve_one_sound ids s id e in (m, inl (ap some same))
resolve_sound ids none none id e = ground arith
resolve_sound ids none (some []) id e = ground arith
resolve_sound ids none (some (c ∷ cs)) id e =
    let (same, m) = resolve_one_sound ids (c ∷ cs) id e in
    (m, inr (refl, ap some same, λ z. ground arith))

filled : (s : Bytes) → s ≢ [] → is_empty s ≡ false
filled [] ne = absurd (ne refl)
filled (c ∷ cs) ne = refl

resolve_complete :
    (ids : List Bytes) (session env : Option Bytes) (id : Bytes)
    → Memᴰ id ids
    → Selected session env id
    → resolve ids session env ≡ some id
unfolding resolve
resolve_complete ids session env id m (inl e) = rw (e, resolve) (resolve_one_found ids id m)
resolve_complete ids session env id m (inr (e, f, ne)) =
    rw (e, f, resolve) (rw (filled id ne) (resolve_one_found ids id m))

-- A session is resolved exactly if it exists and is selected, by the argument or else by a nonempty
-- environment variable.
pub resolve_iff :
    (ids : List Bytes) (session env : Option Bytes) (id : Bytes)
    → (resolve ids session env ≡ some id) ↔ (Memᴰ id ids × Selected session env id)
resolve_iff ids session env id =
    (resolve_sound ids session env id, λ h. resolve_complete ids session env id h.0 h.1)
