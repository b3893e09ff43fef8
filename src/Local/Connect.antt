-- ===== src/Local/Connect.antt =====
-- src/attach.rs: when `connect_retry` connects.
use native.Mathlib.Decide.{dec_lt}
use babysit.Prelude.{
  ℕ, zero, suc, ◌+◌, ◌≤◌, ◌<◌, ◌≡◌, ◌↔◌, subst, inl, inr, true, false, Option, arith, Bool-cases,
}
use babysit.Session.{Status}
use babysit.Local.{
  Attempt, accepts, session_finished, connected, finished, connect_from, connect_retry,
}

-- The attempts before `k`, from `i`, neither connect nor find that the session has finished.
abbrev pub Waits : (ℕ → Attempt) → ℕ → ℕ → Type 0
Waits find i k =
    (j : ℕ)
    → i ≤ j
    → j < k
    → (accepts (find j) ≡ false) × (session_finished (find j).status ≡ false)

connect_from-connects :
    (find : ℕ → Attempt) (status : Option Status) (n i k : ℕ)
    → i ≤ k
    → k < i + n
    → Waits find i k
    → accepts (find k) ≡ true
    → connect_from find status n i ≡ connected k
unfolding connect_from
connect_from-connects find status zero i k le lt w h = absurd (omega arith)
connect_from-connects find status (suc n) i k le lt w h = elim (dec_lt i k) [
  | yes p ↦
      (let (a, f) = w i (omega arith) p in
        rw (a, f)
          (connect_from-connects find status n (suc i) k (omega arith) (omega arith)
            (λ j x y. w j (omega arith) y) h))
  | no p ↦ (let e : i ≡ k = omega arith in rw (e, h))
]

Waits-first :
    (find : ℕ → Attempt) (i k : ℕ)
    → (accepts (find i) ≡ false) × (session_finished (find i).status ≡ false)
    → Waits find (suc i) k
    → Waits find i k
Waits-first find i k first w j le lt = elim (dec_lt i j) [
  | yes p ↦ w j (omega arith) lt
  | no p ↦
      (let e : i ≡ j = omega arith in
        subst (λ m. (accepts (find m) ≡ false) × (session_finished (find m).status ≡ false)) e
          first)
]

connected-attempt :
    (find : ℕ → Attempt) (status : Option Status) (n i k : ℕ)
    → connect_from find status n i ≡ connected k
    → (i ≤ k) × (k < i + n) × Waits find i k × (accepts (find k) ≡ true)
unfolding connect_from
connected-attempt find status zero i k e = elim (Bool-cases (session_finished status)) [
  | inl f ↦ ground (arith, f)
  | inr f ↦ ground (arith, f)
]
connected-attempt find status (suc n) i k e = elim (Bool-cases (accepts (find i))) [
  | inl a ↦
      (let same : connected i ≡ connected k = rw a at e in
        let eq : i ≡ k = cc in
        (
          omega arith,
          omega arith,
          λ j x y. absurd (omega arith),
          subst (λ m. accepts (find m) ≡ true) eq a,
        ))
  | inr a ↦ elim (Bool-cases (session_finished (find i).status)) [
    | inl f ↦ (let other : finished ≡ connected k = rw (a, f) at e in cc)
    | inr f ↦
        (let later : connect_from find status n (suc i) ≡ connected k = rw (a, f) at e in
          let (le, lt, w, h) = connected-attempt find status n (suc i) k later in
          (omega arith, omega arith, Waits-first find i k (a, f) w, h))
  ]
]

-- A client connects at the attempt `k`, counted from 0, exactly if this is one of the 75, it is the
-- first that a socket accepts, and none before has found the session finished.
pub connect_retry_iff :
    (find : ℕ → Attempt) (status : Option Status) (k : ℕ)
    → (connect_retry find status ≡ connected k)
      ↔ ((k < 75) × Waits find 0 k × (accepts (find k) ≡ true))
unfolding connect_retry
connect_retry_iff find status k = (
  λ e. (let (le, lt, w, h) = connected-attempt find status 75 0 k e in (lt, w, h)),
  λ (lt, w, h). connect_from-connects find status 75 0 k (omega arith) lt w h,
)
