-- ===== src/Session/Files/Listed.antt =====
-- src/session.rs: the order of the list of sessions.
use babysit.Prelude.{ℕ, ◌≤◌, List, [], ◌∷◌, ◌==◌, All, if◌then◌else◌}
use babysit.Session.Files.{Entry, changed, Files}

-- The most recent first.
abbrev pub Recent : List Entry → Type 0
Recent [] = Unit
Recent (x ∷ xs) = All (λ y. changed y ≤ changed x) xs × Recent xs

-- The entries of one time, in their order.
abbrev pub changed_at : ℕ → List Entry → List Entry
changed_at t [] = []
changed_at t (x ∷ xs) = if changed x == t then x ∷ changed_at t xs else changed_at t xs
