-- ===== src/Requests/Connect.antt =====
-- src/sub.rs: why `connect_with_retry` connects or does not.
use babysit.Prelude.{
  ℕ, zero, suc, ◌+◌, ◌≤◌, ◌<◌, ◌≡◌, refl, subst, true, false, Bytes, [], arith, if_case,
  if◌then◌else◌,
}
use native.Mathlib.Decide.{dec_lt}
use babysit.Requests.{
  Attempt, accepts, Connected, connected, not_running, no_supervisor, unreachable, finished,
  orphaned, connect_from, connect_with_retry,
}

-- An attempt that neither connects nor shows that there is no use in going on.
abbrev pub IsVain : Attempt → Type 0
IsVain a = (accepts a ≡ false) × (finished a ≡ false) × (orphaned a.status a.owner_alive ≡ false)

abbrev pub Vain : (ℕ → Attempt) → ℕ → ℕ → Type 0
Vain find i k = (j : ℕ) → i ≤ j → j < k → IsVain (find j)

-- What a result says of the attempts from `i` to `hi`.
abbrev pub Explains : (ℕ → Attempt) → Bytes → ℕ → ℕ → Connected → Type 0
Explains find error i hi (connected k) =
    (i ≤ k) × (k < hi) × Vain find i k × (accepts (find k) ≡ true)
Explains find error i hi (not_running k) =
    (i ≤ k) × (k < hi) × Vain find i k × (accepts (find k) ≡ false) × (finished (find k) ≡ true)
Explains find error i hi (no_supervisor k) =
    (i ≤ k)
    × (k < hi)
    × Vain find i k
    × (accepts (find k) ≡ false)
    × (finished (find k) ≡ false)
    × (orphaned (find k).status (find k).owner_alive ≡ true)
Explains find error i hi (unreachable e) = Vain find i hi

Vain-first : (find : ℕ → Attempt) (i k : ℕ) → IsVain (find i) → Vain find (suc i) k → Vain find i k
Vain-first find i k first w j le lt = elim (dec_lt i j) [
  | yes p ↦ w j (omega arith) lt
  | no p ↦ (let e : i ≡ j = omega arith in subst (λ m. IsVain (find m)) e first)
]

Explains-later :
    (find : ℕ → Attempt) (e e' : Bytes) (i hi : ℕ) (c : Connected)
    → IsVain (find i)
    → Explains find e' (suc i) hi c
    → Explains find e i hi c
Explains-later find e e' i hi (connected k) v (a, b, w, x) =
    (omega arith, b, Vain-first find i k v w, x)
Explains-later find e e' i hi (not_running k) v (a, b, w, x, y) =
    (omega arith, b, Vain-first find i k v w, x, y)
Explains-later find e e' i hi (no_supervisor k) v (a, b, w, x, y, z) =
    (omega arith, b, Vain-first find i k v w, x, y, z)
Explains-later find e e' i hi (unreachable t) v w = Vain-first find i hi v w

Vain-none : (find : ℕ → Attempt) (i k : ℕ) → k ≤ i → Vain find i k
Vain-none find i k le j a b = absurd (omega arith)

connect_from-Explains :
    (find : ℕ → Attempt) (error : Bytes) (n i hi : ℕ)
    → i + n ≡ hi
    → Explains find error i hi (connect_from find error n i)
unfolding connect_from
connect_from-Explains find error zero i hi e = Vain-none find i hi (omega arith)
connect_from-Explains find error (suc n) i hi e =
    let later = connect_from find (find i).error n (suc i) in
    let ih = connect_from-Explains find (find i).error n (suc i) hi (omega arith) in
    let lt : i < hi = omega arith in
    let here = Vain-none find i i (omega arith) in
    let P = Explains find error i hi in
    let orphan = if orphaned (find i).status (find i).owner_alive then no_supervisor i else later in
    let ended = if finished (find i) then not_running i else orphan in
    if_case P (accepts (find i)) (connected i) ended (λ a. (omega arith, lt, here, a))
      (λ a.
        if_case P (finished (find i)) (not_running i) orphan (λ f. (omega arith, lt, here, a, f))
          (λ f.
            if_case P (orphaned (find i).status (find i).owner_alive) (no_supervisor i) later
              (λ o. (omega arith, lt, here, a, f, o))
              (λ o. Explains-later find error (find i).error i hi later (a, f, o) ih)))

-- A command connects at the first of 25 attempts at which a socket accepts, if no attempt before has
-- shown that the session has finished or that its supervisor is dead. It is told one of these only if
-- that is what an attempt has found, at which no socket accepted, and no attempt before it; otherwise
-- all 25 attempts were in vain.
pub connect_with_retry-Explains :
    (find : ℕ → Attempt) → Explains find [] 0 25 (connect_with_retry find)
unfolding connect_with_retry
connect_with_retry-Explains find = connect_from-Explains find [] 25 0 25 refl
