-- ===== src/Detach/Bounds.antt =====
-- What the filter holds back is bounded.
use babysit.Prelude.{ℕ, ◌≤◌, [], ◌∷◌, ◌++◌, Option, none, some, Bytes, length, length-append, arith}
use babysit.Detach.{
  Filter, DetachEvent, press, repeat_or_release, max_withheld_input, token_event, handle_event,
  handle_token, push_byte, push_onto, push, sequence_ends,
}

pub record IsBounded (f : Filter) : Type 0 where
  pub withheld_bound : length f.withheld ≤ max_withheld_input
  pub escape_bound : length f.escape ≤ 128

handle_event-IsBounded :
    (e : Option DetachEvent) (f : Filter) (token out : Bytes)
    → length token ≤ 129
    → IsBounded f
    → IsBounded (handle_event e f token out).0
unfolding handle_event
handle_event-IsBounded none f token out n v = ground arith
handle_event-IsBounded (some press) f token out n v = ground (arith, length-append f.withheld token)
handle_event-IsBounded (some repeat_or_release) f token out n v =
    ground (arith, length-append f.withheld token)

push_byte-IsBounded :
    (f : Filter) (out : Bytes) (byte : ℕ) → IsBounded f → IsBounded (push_byte f out byte).0
unfolding push_byte handle_token sequence_ends
push_byte-IsBounded f out byte v =
    let len = length-append f.escape (byte ∷ []) in
    ground (
      arith,
      len,
      handle_event-IsBounded (token_event (f.escape ++ byte ∷ [])) (record f { escape = [] })
          (f.escape ++ byte ∷ []) out,
      handle_event-IsBounded (token_event (byte ∷ [])) f (byte ∷ []) out,
    )

push_onto-IsBounded :
    (f : Filter) (out chunk : Bytes) → IsBounded f → IsBounded (push_onto f out chunk).0
unfolding push_onto
push_onto-IsBounded f out [] v = v
push_onto-IsBounded f out (byte ∷ rest) v =
    let (f', out', done) = push_byte f out byte in
    ground (arith, push_byte-IsBounded f out byte v, push_onto-IsBounded f' out' rest)

-- Reading a chunk keeps the bounds of the filter: at most 1024 bytes of withheld detach keys and
-- 128 bytes of an unfinished escape sequence.
pub push-IsBounded : (f : Filter) (chunk : Bytes) → IsBounded f → IsBounded (push f chunk).0
unfolding push
push-IsBounded f chunk v = push_onto-IsBounded f [] chunk v
