-- ===== src/Session/Prune.antt =====
-- src/sub.rs: `prune`, the removal of finished sessions.
use babysit.Prelude.{
  ℕ, ◌≡◌, refl, sym, subst, Bool, true, false, not, List, [], ◌∷◌, Option, none, some, Bytes,
  if◌then◌else◌, arith, Memᴰ, ◌↔◌, ◌⊎◌, inl, inr, Bool-cases,
}
use babysit.Session.{
  State, starting, running, exited, killed, Status, Meta, state_label_for, Label, starting_label,
  running_label,
}

-- A session's directory: its metadata and status, if they can be read.
pub record Entry : Type 0 where
  pub id : Bytes
  pub meta : Option Meta
  pub status : Option Status

abbrev pub terminal_or : Option Status → Bool → Bool
terminal_or none dead = dead
terminal_or (some s) dead = elim (s.state) [
  | exited ↦ true
  | killed ↦ true
  | starting ↦ dead
  | running ↦ dead
]

-- `should_delete`, of `prune`
unfoldable pub should_delete : (ℕ → Bool) → Entry → Bool
should_delete is_pid_alive e = elim (e.meta) [
  | none ↦ false
  | some meta ↦ terminal_or e.status (not (is_pid_alive meta.babysit_pid))
]

-- The second loop of `prune`: which directories stay, and the reported results. `removes` says
-- whether a directory can be removed.
pub record Pruned : Type 0 where
  pub kept : List Entry
  pub results : List (Bytes × Bool)

pub prune_entry : Bool → (Bytes → Bool) → Bool → Entry → Pruned → Pruned
prune_entry dry_run removes deletes e p =
    if not deletes
    then record p { kept = e ∷ p.kept }
    else if dry_run
    then record { kept = e ∷ p.kept; results = (e.id, false) ∷ p.results }
    else if removes e.id
    then record p { results = (e.id, true) ∷ p.results }
    else record p { kept = e ∷ p.kept }

-- `prune`
unfoldable pub prune : (ℕ → Bool) → Bool → (Bytes → Bool) → List Entry → Pruned
unfolding prune_entry
prune is_pid_alive dry_run removes [] = record { kept = []; results = [] }
prune is_pid_alive dry_run removes (e ∷ es) =
    prune_entry dry_run removes (should_delete is_pid_alive e) e
      (prune is_pid_alive dry_run removes es)

-- What the user sees as live: a session labelled `starting` or `running`.
abbrev pub IsLive : Label → Type 0
IsLive label = (label ≡ starting_label) ⊎ (label ≡ running_label)

should_delete_in :
    (is_pid_alive : ℕ → Bool) (id : Bytes) (meta : Meta) (st : State) (pid code : Option ℕ)
    → let s : Status = record { state = st; child_pid = pid; exit_code = code } in
      (should_delete is_pid_alive (record { id = id; meta = some meta; status = some s }) ≡ false)
      ↔ IsLive (state_label_for is_pid_alive (some meta) s)
unfolding should_delete state_label_for
should_delete_in is_pid_alive id meta starting pid code =
    (λ h. inl (ground arith), λ h. elim h [ inl x ↦ ground arith | inr x ↦ ground arith ])
should_delete_in is_pid_alive id meta running pid code =
    (λ h. inr (ground arith), λ h. elim h [ inl x ↦ ground arith | inr x ↦ ground arith ])
should_delete_in is_pid_alive id meta exited pid (some c) =
    (λ h. cc, λ h. elim h [ inl x ↦ cc | inr x ↦ cc ])
should_delete_in is_pid_alive id meta exited pid none =
    (λ h. cc, λ h. elim h [ inl x ↦ cc | inr x ↦ cc ])
should_delete_in is_pid_alive id meta killed pid code =
    (λ h. cc, λ h. elim h [ inl x ↦ cc | inr x ↦ cc ])

-- A session with readable metadata and status is not to be deleted exactly if its label in the list
-- of sessions is `starting` or `running`.
pub should_delete_iff :
    (is_pid_alive : ℕ → Bool) (id : Bytes) (meta : Meta) (s : Status)
    → (should_delete is_pid_alive (record { id = id; meta = some meta; status = some s }) ≡ false)
      ↔ IsLive (state_label_for is_pid_alive (some meta) s)
should_delete_iff is_pid_alive id meta s =
    should_delete_in is_pid_alive id meta s.state s.child_pid s.exit_code

-- What is not to be deleted: a session whose metadata cannot be read; one without a readable status
-- whose owner is alive; and one that the user sees as live.
pub Spared : (ℕ → Bool) → Option Meta → Option Status → Type 0
Spared is_pid_alive none status = Unit
Spared is_pid_alive (some meta) none = is_pid_alive meta.babysit_pid ≡ true
Spared is_pid_alive (some meta) (some s) = IsLive (state_label_for is_pid_alive (some meta) s)

should_delete-Spared :
    (is_pid_alive : ℕ → Bool) (id : Bytes) (meta : Option Meta) (status : Option Status)
    → (should_delete is_pid_alive (record { id = id; meta = meta; status = status }) ≡ false)
      ↔ Spared is_pid_alive meta status
unfolding Spared should_delete
should_delete-Spared is_pid_alive id none status = (λ e. tt, λ u. refl)
should_delete-Spared is_pid_alive id (some meta) none = (λ e. ground arith, λ e. ground arith)
should_delete-Spared is_pid_alive id (some meta) (some s) = should_delete_iff is_pid_alive id meta s

-- What stays: what is spared, and all of it where nothing is to be removed or a directory resists.
abbrev pub Stays : (ℕ → Bool) → Bool → (Bytes → Bool) → Entry → Type 0
Stays is_pid_alive dry_run removes e =
    Spared is_pid_alive e.meta e.status ⊎ ((dry_run ≡ true) ⊎ (removes e.id ≡ false))

prune_entry-kept :
    (dry_run : Bool) (removes : Bytes → Bool) (deletes : Bool) (e : Entry) (p : Pruned)
    → (((deletes ≡ false) ⊎ ((dry_run ≡ true) ⊎ (removes e.id ≡ false)))
        × ((prune_entry dry_run removes deletes e p).kept ≡ e ∷ p.kept))
      ⊎ ((deletes ≡ true)
          × (dry_run ≡ false)
          × (removes e.id ≡ true)
          × ((prune_entry dry_run removes deletes e p).kept ≡ p.kept))
unfolding prune_entry
prune_entry-kept dry_run removes false e p = inl (inl refl, refl)
prune_entry-kept true removes true e p = inl (inr (inl refl), refl)
prune_entry-kept false removes true e p = elim (Bool-cases (removes e.id)) [
  | inl r ↦ inr (refl, refl, r, rw r refl)
  | inr r ↦ inl (inr (inr r), rw r refl)
]

Stays-contrary :
    (is_pid_alive : ℕ → Bool) (dry_run : Bool) (removes : Bytes → Bool) (e : Entry)
    → should_delete is_pid_alive e ≡ true
    → dry_run ≡ false
    → removes e.id ≡ true
    → Stays is_pid_alive dry_run removes e
    → ⊥
Stays-contrary is_pid_alive dry_run removes e d n r (inl s) =
    let spared = (should_delete-Spared is_pid_alive e.id e.meta e.status).1 s in cc
Stays-contrary is_pid_alive dry_run removes e d n r (inr (inl s)) = cc
Stays-contrary is_pid_alive dry_run removes e d n r (inr (inr s)) = cc

Stays_cons :
    (x e : Entry) (es kept : List Entry) (P : Entry → Type 0)
    → P x
    → (Memᴰ e kept ↔ (Memᴰ e es × P e))
    → Memᴰ e (x ∷ kept) ↔ (Memᴰ e (x ∷ es) × P e)
Stays_cons x e es kept P px ih = (there, λ h. back h.0 h.1)
  where
    there : Memᴰ e (x ∷ kept) → Memᴰ e (x ∷ es) × P e
    there (Memᴰ.head h) = (Memᴰ.head h, subst P (sym h) px)
    there (Memᴰ.tail m) = let (k, p) = ih.0 m in (Memᴰ.tail k, p)

    back : Memᴰ e (x ∷ es) → P e → Memᴰ e (x ∷ kept)
    back (Memᴰ.head h) p = Memᴰ.head h
    back (Memᴰ.tail k) p = Memᴰ.tail (ih.1 (k, p))

Stays_drop :
    (x e : Entry) (es kept : List Entry) (P : Entry → Type 0)
    → (P x → ⊥)
    → (Memᴰ e kept ↔ (Memᴰ e es × P e))
    → Memᴰ e kept ↔ (Memᴰ e (x ∷ es) × P e)
Stays_drop x e es kept P not_P ih = (there, λ h. back h.0 h.1)
  where
    there : Memᴰ e kept → Memᴰ e (x ∷ es) × P e
    there m = let (k, p) = ih.0 m in (Memᴰ.tail k, p)

    back : Memᴰ e (x ∷ es) → P e → Memᴰ e kept
    back (Memᴰ.head h) p = absurd (not_P (subst P h p))
    back (Memᴰ.tail k) p = ih.1 (k, p)

-- A session stays exactly if it was there and one of these holds: its metadata cannot be read; its
-- status cannot be read and its owner is alive; the list of sessions labels it `starting` or `running`;
-- it is a dry run; or its directory cannot be removed.
pub prune_kept :
    (is_pid_alive : ℕ → Bool) (dry_run : Bool) (removes : Bytes → Bool) (es : List Entry)
    (e : Entry)
    → Memᴰ e (prune is_pid_alive dry_run removes es).kept
      ↔ (Memᴰ e es × Stays is_pid_alive dry_run removes e)
unfolding prune
prune_kept is_pid_alive dry_run removes [] e = (λ m. elim m [ ], λ h. elim (h.0) [ ])
prune_kept is_pid_alive dry_run removes (x ∷ es) e =
    let rest = prune is_pid_alive dry_run removes es in
    let P = Stays is_pid_alive dry_run removes in
    let ih = prune_kept is_pid_alive dry_run removes es e in
    elim (prune_entry-kept dry_run removes (should_delete is_pid_alive x) x rest) [
      | inl (stays, same) ↦
          subst (λ k. Memᴰ e k ↔ (Memᴰ e (x ∷ es) × P e)) (sym same)
            (Stays_cons x e es rest.kept P
              (elim stays [
                | inl d ↦ inl ((should_delete-Spared is_pid_alive x.id x.meta x.status).0 d)
                | inr r ↦ inr r
              ])
              ih)
      | inr (d, n, r, same) ↦
          subst (λ k. Memᴰ e k ↔ (Memᴰ e (x ∷ es) × P e)) (sym same)
            (Stays_drop x e es rest.kept P (Stays-contrary is_pid_alive dry_run removes x d n r) ih)
    ]
