-- ===== src/Detach/Legacy.antt =====
-- Plain typing: input without escape sequences.
use babysit.Prelude.{
  ℕ, ◌≡◌, ◌≢◌, refl, Bool, true, false, ◌&&◌, ◌||◌, [], ◌∷◌, ◌++◌, Bytes, arith, if◌then◌else◌,
  none, ◌==◌, All, starts_with, strip_prefix, bytes_eq,
}
use native.Mathlib.Decide.{ℕ_discrete}
use babysit.Detach.{
  Filter, push_byte, push_onto, push, handle_token, handle_event, enhanced_detach_event, esc,
  detach_key, default,
}

-- The hotkey twice in a row, given whether it was the last key before.
abbrev pub pressed_twice : Bool → Bytes → Bool
pressed_twice armed [] = false
pressed_twice armed (b ∷ bs) = (armed && b == detach_key) || pressed_twice (b == detach_key) bs

-- What goes through in plain typing with no detach; `armed` as above.
abbrev pub armed_filter : Bool → Filter
armed_filter armed = record { withheld = if armed then detach_key ∷ [] else []; escape = [] }

one_byte : (b : ℕ) → b ≢ esc → enhanced_detach_event (b ∷ []) ≡ none
unfolding enhanced_detach_event starts_with strip_prefix
one_byte b ne = ground arith

plain_key :
    (armed : Bool) (out : Bytes) (b : ℕ)
    → b ≢ esc
    → b ≢ detach_key
    → push_byte (armed_filter armed) out b
      ≡ (armed_filter false, (out ++ (armed_filter armed).withheld) ++ b ∷ [], false)
unfolding push_byte handle_token handle_event bytes_eq
plain_key true out b ne nk = ground (arith, one_byte b ne)
plain_key false out b ne nk = ground (arith, one_byte b ne)

hotkey :
    (armed : Bool) (out : Bytes)
    → push_byte (armed_filter armed) out detach_key ≡ (armed_filter true, out, armed)
unfolding push_byte handle_token handle_event bytes_eq
hotkey true out = refl
hotkey false out = refl

push_onto_plain :
    (armed : Bool) (out chunk : Bytes)
    → All (λ b. b ≢ esc) chunk
    → (push_onto (armed_filter armed) out chunk).2 ≡ pressed_twice armed chunk
unfolding push_onto
push_onto_plain armed out [] h = refl
push_onto_plain armed out (b ∷ bs) h = elim (ℕ_discrete b detach_key) [
  | yes e ↦ rw e (rw (hotkey armed out) (pressed armed (push_onto_plain true out bs h.1)))
  | no ne ↦ rw (plain_key armed out b h.0 ne) (
      ground
        (arith, push_onto_plain false ((out ++ (armed_filter armed).withheld) ++ b ∷ []) bs h.1))
]
  where
    pressed :
        (x : Bool)
        → (push_onto (armed_filter true) out bs).2 ≡ pressed_twice true bs
        → (if x then (armed_filter true, out, true) else push_onto (armed_filter true) out bs).2
          ≡ (x && true) || pressed_twice true bs
    pressed true ih = refl
    pressed false ih = ih

-- A fresh filter that reads a chunk without escape bytes detaches exactly if the chunk holds the
-- hotkey twice in a row.
pub push_plain :
    (chunk : Bytes) → All (λ b. b ≢ esc) chunk → (push default chunk).2 ≡ pressed_twice false chunk
unfolding push
push_plain chunk h = push_onto_plain false [] chunk h
