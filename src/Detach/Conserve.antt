-- ===== src/Detach/Conserve.antt =====
-- The filter loses, repeats and reorders nothing of what is typed.
use babysit.Prelude.{
  ℕ, ◌≡◌, ◌≢◌, refl, sym, ap, subst, ◌∙◌, ◌⊎◌, inl, inr, true, false, [], ◌∷◌, ◌++◌, Option, none,
  some, Bytes, arith, append_assoc, append-nil,
}
use babysit.Detach.{
  Filter, Outcome, DetachEvent, press, repeat_or_release, token_event, handle_event, handle_token,
  push_byte, push_onto, push, flush_partial_escape,
}

-- What has been read and not dropped: the output, then the withheld keys, then the open sequence.
abbrev pub total : Filter → Bytes → Bytes
total f out = out ++ (f.withheld ++ f.escape)

-- After a detach the second press is the `token` that was read last.
abbrev pub Read : Bytes → Outcome → Type 0
Read input (f, out, false) = total f out ≡ input
Read input (f, out, true) =
    (token : Bytes) × (out ++ (f.withheld ++ token) ≡ input)
    × (token_event token ≡ some press)
    × (f.withheld ≢ [])

forwarded : (out w t e : Bytes) → e ≡ [] → ((out ++ w) ++ t) ++ e ≡ out ++ (w ++ t)
forwarded out w t e h = rw h (append-nil ((out ++ w) ++ t) ∙ append_assoc out w t)

withheld : (out w t e : Bytes) → e ≡ [] → out ++ ((w ++ t) ++ e) ≡ out ++ (w ++ t)
withheld out w t e h = rw h (ap (◌++◌ out) (append-nil (w ++ t)))

handle_event-Read :
    (e : Option DetachEvent) (f : Filter) (token out : Bytes)
    → f.escape ≡ []
    → token_event token ≡ e
    → Read (out ++ (f.withheld ++ token)) (handle_event e f token out)
unfolding handle_event
handle_event-Read none f token out h e = forwarded out f.withheld token f.escape h
handle_event-Read (some press) f token out h e = press_case f.withheld refl
  where
    press_case :
        (w : Bytes)
        → f.withheld ≡ w
        → Read (out ++ (f.withheld ++ token)) (handle_event (some press) f token out)
    press_case [] k = rw (k, handle_event) (withheld out [] token f.escape h)
    press_case (b ∷ w) k = rw (k, handle_event) (token, refl, e, λ eq. cc)
handle_event-Read (some repeat_or_release) f token out h e =
    ground
      (arith, forwarded out f.withheld token f.escape h, withheld out f.withheld token f.escape h)

handle_token-Read :
    (f : Filter) (token out : Bytes)
    → f.escape ≡ []
    → Read (out ++ (f.withheld ++ token)) (handle_token f token out)
unfolding handle_token
handle_token-Read f token out h = handle_event-Read (token_event token) f token out h refl

-- A byte is added to the open sequence, or it completes a token.
pub push_byte-cases :
    (f : Filter) (out : Bytes) (byte : ℕ)
    → (push_byte f out byte ≡ (record f { escape = f.escape ++ byte ∷ [] }, out, false))
      ⊎ (push_byte f out byte ≡ handle_token (record f { escape = [] }) (f.escape ++ byte ∷ []) out)
unfolding push_byte
push_byte-cases f out byte = ground arith

push_byte-Read :
    (f : Filter) (out : Bytes) (byte : ℕ) → Read (total f out ++ byte ∷ []) (push_byte f out byte)
push_byte-Read f out byte = elim (push_byte-cases f out byte) [
  | inl e ↦ rw e (sym whole)
  | inr e ↦
      rw (e, whole) (handle_token-Read (record f { escape = [] }) (f.escape ++ byte ∷ []) out refl)
]
  where
    whole : total f out ++ byte ∷ [] ≡ out ++ (f.withheld ++ (f.escape ++ byte ∷ []))
    whole =
        append_assoc out (f.withheld ++ f.escape) (byte ∷ [])
        ∙ ap (◌++◌ out) (append_assoc f.withheld f.escape (byte ∷ []))

-- As `Read`, with the bytes behind the detach left over.
abbrev pub Accounts : Bytes → Outcome → Type 0
Accounts input (f, out, false) = total f out ≡ input
Accounts input (f, out, true) =
    (token : Bytes) × (rest : Bytes) × ((out ++ (f.withheld ++ token)) ++ rest ≡ input)
    × (token_event token ≡ some press)
    × (f.withheld ≢ [])

push_onto-Accounts :
    (f : Filter) (out chunk : Bytes) → Accounts (total f out ++ chunk) (push_onto f out chunk)
unfolding push_onto
push_onto-Accounts f out [] = sym (append-nil (total f out))
push_onto-Accounts f out (byte ∷ rest) =
    continue (push_byte f out byte) refl (push_byte-Read f out byte)
      (λ f' out'. push_onto-Accounts f' out' rest)
  where
    continue :
        (o : Outcome)
        → push_byte f out byte ≡ o
        → Read (total f out ++ byte ∷ []) o
        → ((f' : Filter) (out' : Bytes) → Accounts (total f' out' ++ rest) (push_onto f' out' rest))
        → Accounts (total f out ++ byte ∷ rest) (push_onto f out (byte ∷ rest))
    continue (f', out', false) e r ih =
        rw (e, push_onto)
          (subst (λ i. Accounts i (push_onto f' out' rest))
            (ap (λ i. i ++ rest) r ∙ append_assoc (total f out) (byte ∷ []) rest) (ih f' out'))
    continue (f', out', true) e (token, eq, p, ne) ih =
        rw (e, push_onto)
          (token, rest, ap (λ i. i ++ rest) eq ∙ append_assoc (total f out) (byte ∷ []) rest, p, ne)

-- Nothing typed is lost, repeated or reordered: what is forwarded, withheld and in an open escape
-- sequence is, in this order, what was withheld, open and in the chunk. On a detach it is followed
-- by a press of the hotkey, with something withheld before it, and by the rest of the chunk.
pub push-Accounts : (f : Filter) (chunk : Bytes) → Accounts (total f [] ++ chunk) (push f chunk)
unfolding push
push-Accounts f chunk = push_onto-Accounts f [] chunk

-- The escape timeout hands over all that was held back.
pub flush_partial_escape_lem : (f : Filter) → (flush_partial_escape f).1 ≡ total f []
unfolding flush_partial_escape
flush_partial_escape_lem f = refl
