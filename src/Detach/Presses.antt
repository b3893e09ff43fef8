-- ===== src/Detach/Presses.antt =====
-- What the filter withholds is a press of the hotkey and what belongs to it.
use babysit.Prelude.{
  ℕ, ◌≡◌, ◌≢◌, refl, inl, inr, true, false, not, ◌&&◌, [], ◌∷◌, ◌++◌, Option, none, some, Bytes,
  arith, is_empty, if_case, ◌+◌, leb, length,
}
use babysit.Detach.{
  Filter, Outcome, DetachEvent, press, repeat_or_release, token_event, handle_event, handle_token,
  push_byte, push_onto, push, max_withheld_input, withhold, handle_other,
}
use babysit.Detach.Conserve.{total, Accounts, push-Accounts, push_byte-cases}

-- Nothing, or a press of the hotkey, and behind it only repeats and releases of it.
pub data Withholds : Bytes → Type 0 where
  nothing : Withholds []
  first : (token : Bytes) → token_event token ≡ some press → Withholds token
  more :
      (w token : Bytes)
      → Withholds w
      → w ≢ []
      → token_event token ≡ some repeat_or_release
      → Withholds (w ++ token)

abbrev Keeps : Outcome → Type 0
Keeps (f, out, done) = Withholds f.withheld

some_bytes : (w : Bytes) → not (is_empty w) ≡ true → w ≢ []
some_bytes [] h e = cc h
some_bytes (b ∷ w) h e = cc e

handle_event-Keeps :
    (e : Option DetachEvent) (f : Filter) (token out : Bytes)
    → token_event token ≡ e
    → Withholds f.withheld
    → Keeps (handle_event e f token out)
unfolding handle_event withhold handle_other
handle_event-Keeps none f token out e h = nothing
handle_event-Keeps (some press) f token out e h = press_case f.withheld refl h
  where
    press_case :
        (w : Bytes) → f.withheld ≡ w → Withholds w → Keeps (handle_event (some press) f token out)
    press_case [] k h' = rw (k, handle_event) (first token e)
    press_case (b ∷ w) k h' = rw (k, handle_event) h'
handle_event-Keeps (some repeat_or_release) f token out e h =
    if_case Keeps
      (not (is_empty f.withheld) && leb (length f.withheld + length token) max_withheld_input)
      (withhold f token out) (handle_other f token out)
      (λ t. more f.withheld token h (some_bytes f.withheld (ground arith)) e) (λ t. nothing)

push_byte-Keeps :
    (f : Filter) (out : Bytes) (byte : ℕ) → Withholds f.withheld → Keeps (push_byte f out byte)
unfolding handle_token
push_byte-Keeps f out byte h = elim (push_byte-cases f out byte) [
  | inl e ↦ rw e h
  | inr e ↦ rw e (
      handle_event-Keeps (token_event (f.escape ++ byte ∷ [])) (record f { escape = [] })
        (f.escape ++ byte ∷ []) out refl h)
]

push_onto-Keeps :
    (f : Filter) (out chunk : Bytes) → Withholds f.withheld → Keeps (push_onto f out chunk)
unfolding push_onto
push_onto-Keeps f out [] h = h
push_onto-Keeps f out (byte ∷ rest) h =
    continue (push_byte f out byte) refl (push_byte-Keeps f out byte h)
      (λ f' out'. push_onto-Keeps f' out' rest)
  where
    continue :
        (o : Outcome)
        → push_byte f out byte ≡ o
        → Keeps o
        → ((f' : Filter) (out' : Bytes) → Withholds f'.withheld → Keeps (push_onto f' out' rest))
        → Keeps (push_onto f out (byte ∷ rest))
    continue (f', out', false) e k ih = rw (e, push_onto) (ih f' out' k)
    continue (f', out', true) e k ih = rw (e, push_onto) k

-- If the filter withholds nothing, or a press of the hotkey with repeats and releases behind it, then so
-- it does after a chunk; and nothing typed is lost, repeated or reordered: what is forwarded, withheld
-- and in an open escape sequence is, in this order, what was withheld, open and in the chunk. On a
-- detach it is followed by a second press of the hotkey, behind one that is withheld, and by the rest of
-- the chunk.
pub push-Withholds :
    (f : Filter) (chunk : Bytes)
    → Withholds f.withheld
    → Accounts (total f [] ++ chunk) (push f chunk) × Withholds (push f chunk).0.withheld
unfolding push
push-Withholds f chunk h = (push-Accounts f chunk, push_onto-Keeps f [] chunk h)
