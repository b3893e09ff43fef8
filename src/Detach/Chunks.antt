-- ===== src/Detach/Chunks.antt =====
-- How the terminal cuts the input into chunks does not matter.
use babysit.Prelude.{
  ℕ, ◌≡◌, refl, sym, ap, ◌∙◌, true, false, [], ◌∷◌, ◌++◌, Bytes, arith, append_assoc, append-nil,
  Option, none, some,
}
use babysit.Detach.{
  Filter, Outcome, push_byte, push_onto, push, handle_token, handle_event, DetachEvent, press,
  repeat_or_release, token_event,
}

-- Going on with a further chunk, unless the outcome is a detach.
abbrev pub then_push : Outcome → Bytes → Outcome
then_push (f, out, true) chunk = (f, out, true)
then_push (f, out, false) chunk = let (f', more, done) = push f chunk in (f', out ++ more, done)

abbrev with_prefix : Bytes → Outcome → Outcome
with_prefix p (f, out, done) = (f, p ++ out, done)

handle_event-prefix :
    (p : Bytes) (e : Option DetachEvent) (f : Filter) (token out : Bytes)
    → handle_event e f token (p ++ out) ≡ with_prefix p (handle_event e f token out)
unfolding handle_event
handle_event-prefix p none f token out =
    ground (arith, append_assoc p out f.withheld, append_assoc p (out ++ f.withheld) token)
handle_event-prefix p (some press) f token out = ground arith
handle_event-prefix p (some repeat_or_release) f token out =
    ground (arith, append_assoc p out f.withheld, append_assoc p (out ++ f.withheld) token)

push_byte-prefix :
    (p : Bytes) (f : Filter) (out : Bytes) (byte : ℕ)
    → push_byte f (p ++ out) byte ≡ with_prefix p (push_byte f out byte)
unfolding push_byte handle_token
push_byte-prefix p f out byte = ground (
  arith,
  handle_event-prefix p (token_event (f.escape ++ byte ∷ [])) (record f { escape = [] })
      (f.escape ++ byte ∷ []) out,
  handle_event-prefix p (token_event (byte ∷ [])) f (byte ∷ []) out,
)

push_onto-prefix :
    (p : Bytes) (f : Filter) (out chunk : Bytes)
    → push_onto f (p ++ out) chunk ≡ with_prefix p (push_onto f out chunk)
unfolding push_onto
push_onto-prefix p f out [] = refl
push_onto-prefix p f out (byte ∷ rest) =
    let (f', out', done) = push_byte f out byte in
    ground (arith, push_byte-prefix p f out byte, push_onto-prefix p f' out' rest)

resume : Outcome → Bytes → Outcome
resume (f, out, true) chunk = (f, out, true)
resume (f, out, false) chunk = push_onto f out chunk

push_onto-append :
    (f : Filter) (out a b : Bytes) → push_onto f out (a ++ b) ≡ resume (push_onto f out a) b
unfolding push_onto resume
push_onto-append f out [] b = refl
push_onto-append f out (byte ∷ rest) b =
    let (f', out', done) = push_byte f out byte in ground (arith, push_onto-append f' out' rest b)

resume-then_push : (o : Outcome) (b : Bytes) → resume o b ≡ then_push o b
unfolding resume push
resume-then_push (f, out, true) b = refl
resume-then_push (f, out, false) b =
    ap (λ p. push_onto f p b) (sym (append-nil out)) ∙ push_onto-prefix out f [] b

-- Reading `a` and then, unless that detaches, `b` forwards the same bytes, detaches at the same
-- point and leaves the same state as reading `a ++ b` at once.
pub push-append : (f : Filter) (a b : Bytes) → push f (a ++ b) ≡ then_push (push f a) b
unfolding push
push-append f a b = push_onto-append f [] a b ∙ resume-then_push (push_onto f [] a) b
