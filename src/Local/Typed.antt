-- ===== src/Local/Typed.antt =====
-- src/attach.rs: what is typed reaches the session.
use babysit.Prelude.{
  ℕ, ◌≡◌, ◌≢◌, refl, sym, ap, subst, ◌∙◌, inl, inr, Bool, true, false, List, [], ◌∷◌, ◌++◌, Option,
  none, some, Bytes, append_assoc, append-nil, Bool-cases, ◌==◌, ◌&&◌, leb, length, drop, if_ind,
  if◌then◌else◌,
}
use babysit.Frame.{c_input, s_output, s_exit, s_detached, s_output_offset, s_error, parse_exit}
use babysit.Session.{exit_code_from_status}
use babysit.Detach.{Outcome, push, has_partial_escape, flush_partial_escape}
use babysit.Detach.Conserve.{total, Accounts, push-Accounts}
use babysit.Local.{
  Event, frame, closed, typed, typing_ended, escape_timeout, resized, Client, Ending, attached,
  done, attach_failed, write_failed, not_connected, forward_input, on_frame, on_typed, on_timeout,
  on_resized, on_event, proceed, stream, print,
}

-- The bytes of the input frames.
abbrev pub input_of : List (ℕ × Bytes) → Bytes
input_of [] = []
input_of ((tag, payload) ∷ fs) = (if tag == c_input then payload else []) ++ input_of fs

input_of-append : (fs gs : List (ℕ × Bytes)) → input_of (fs ++ gs) ≡ input_of fs ++ input_of gs
input_of-append [] gs = refl
input_of-append ((tag, payload) ∷ fs) gs =
    ap (◌++◌ (if tag == c_input then payload else [])) (input_of-append fs gs)
    ∙ sym (append_assoc (if tag == c_input then payload else []) (input_of fs) (input_of gs))

-- What is typed in an event, and in all of them.
abbrev pub typed_of : Event → Bytes
typed_of (typed bytes written) = bytes
typed_of (frame tag payload) = []
typed_of (closed status) = []
typed_of typing_ended = []
typed_of (escape_timeout written) = []
typed_of (resized size written) = []

abbrev pub typed_in : List Event → Bytes
typed_in [] = []
typed_in (e ∷ es) = typed_of e ++ typed_in es

-- What the filter holds back.
abbrev pub held : Client → Bytes
held c = total c.filter []

-- The input that was sent is `input` up to a rest; while attached, the rest is held back.
abbrev pub Accounted : Bytes → Ending × Client → Type 0
Accounted input (ending, c) =
    (rest : Bytes) × (input_of c.sent ++ rest ≡ input) × (ending ≡ attached → rest ≡ held c)

forward_input-Accounted :
    (bytes rest input : Bytes) (written : Bool) (c : Client) (next : Ending)
    → bytes ++ rest ≡ input
    → (next ≡ attached → rest ≡ held c)
    → Accounted (input_of c.sent ++ input) (forward_input bytes written c next)
forward_input-Accounted [] rest input written c next e h = (rest, ap (◌++◌ (input_of c.sent)) e, h)
forward_input-Accounted (b ∷ bytes) rest input true c next e h = (
  rest,
  ap (λ i. i ++ rest) (input_of-append c.sent ((c_input, b ∷ bytes) ∷ []))
      ∙ append_assoc (input_of c.sent) ((b ∷ bytes) ++ []) rest
      ∙ ap (λ i. input_of c.sent ++ (i ++ rest)) (append-nil (b ∷ bytes))
      ∙ ap (◌++◌ (input_of c.sent)) e,
  h,
)
forward_input-Accounted (b ∷ bytes) rest input false c next e h =
    ((b ∷ bytes) ++ rest, ap (◌++◌ (input_of c.sent)) e, λ x. cc)

on_typed-Accounted :
    (bytes : Bytes) (written : Bool) (c : Client)
    → Accounted (input_of c.sent ++ (held c ++ bytes)) (on_typed bytes written c)
unfolding on_typed
on_typed-Accounted bytes written c = of_push (push c.filter bytes) (push-Accounts c.filter bytes)
  where
    of_push :
        (o : Outcome)
        → Accounts (held c ++ bytes) o
        → Accounted (input_of c.sent ++ (held c ++ bytes)) (
            forward_input o.1 written
              (record c { filter = o.0 })
              (if o.2 then done 0 true else attached))
    of_push (f, out, false) a =
        forward_input-Accounted out (f.withheld ++ f.escape) (held c ++ bytes) written
          (record c { filter = f }) attached a (λ x. refl)
    of_push (f, out, true) (token, rest, a, p, ne) =
        forward_input-Accounted out ((f.withheld ++ token) ++ rest) (held c ++ bytes) written
          (record c { filter = f }) (done 0 true)
          (sym (append_assoc out (f.withheld ++ token) rest) ∙ a) (λ x. cc)

unchanged :
    (c : Client) (ending : Ending) → Accounted (input_of c.sent ++ (held c ++ [])) (ending, c)
unchanged c ending = (held c, ap (◌++◌ (input_of c.sent)) (sym (append-nil (held c))), λ x. refl)

on_timeout-Accounted :
    (written : Bool) (c : Client)
    → Accounted (input_of c.sent ++ (held c ++ [])) (on_timeout written c)
unfolding on_timeout flush_partial_escape
on_timeout-Accounted written c = elim (Bool-cases (has_partial_escape c.filter)) [
  | inl p ↦ rw p (
      forward_input-Accounted (held c) [] (held c ++ []) written
        (record c { filter = (flush_partial_escape c.filter).0 }) attached refl (λ x. refl))
  | inr p ↦ rw p (unchanged c attached)
]

on_resized-Accounted :
    (size : Option (ℕ × ℕ)) (written : Bool) (c : Client)
    → Accounted (input_of c.sent ++ (held c ++ [])) (on_resized size written c)
unfolding on_resized
on_resized-Accounted none written c = unchanged c attached
on_resized-Accounted (some (cols, rows)) true c =
    (held c, simp (input_of-append, append-nil), λ x. refl)
on_resized-Accounted (some (cols, rows)) false c = unchanged c write_failed

on_frame-Accounted :
    (tag : ℕ) (payload : Bytes) (c : Client)
    → Accounted (input_of c.sent ++ (held c ++ [])) (on_frame tag payload c)
unfolding on_frame
on_frame-Accounted tag payload c =
    let P : Ending × Client → Type 0 = Accounted (input_of c.sent ++ (held c ++ [])) in
    let other : Ending × Client = (attached, c) in
    let detached = if tag == s_detached then (done 0 true, c) else other in
    let exit = if tag == s_exit then (done (parse_exit payload) false, c) else detached in
    let error = if tag == s_error then (attach_failed payload, c) else exit in
    let shown =
      if tag == s_output_offset && leb 8 (length payload)
      then (attached, print (drop 8 payload) c)
      else error in
    if_ind P (tag == s_output) (attached, print payload c) shown
      (unchanged (print payload c) attached)
      (if_ind P (tag == s_output_offset && leb 8 (length payload))
        (attached, print (drop 8 payload) c) error (unchanged (print (drop 8 payload) c) attached)
        (if_ind P (tag == s_error) (attach_failed payload, c) exit
          (unchanged c (attach_failed payload))
          (if_ind P (tag == s_exit) (done (parse_exit payload) false, c) detached
            (unchanged c (done (parse_exit payload) false))
            (if_ind P (tag == s_detached) (done 0 true, c) other (unchanged c (done 0 true))
              (unchanged c attached)))))

on_event-Accounted :
    (e : Event) (c : Client) → Accounted (input_of c.sent ++ (held c ++ typed_of e)) (on_event e c)
unfolding on_event
on_event-Accounted (frame tag payload) c = on_frame-Accounted tag payload c
on_event-Accounted (closed status) c = unchanged c (done (exit_code_from_status status) true)
on_event-Accounted (typed bytes written) c = on_typed-Accounted bytes written c
on_event-Accounted typing_ended c = unchanged c attached
on_event-Accounted (escape_timeout written) c = on_timeout-Accounted written c
on_event-Accounted (resized size written) c = on_resized-Accounted size written c

ended :
    (before this later : Bytes) (ending : Ending) (c : Client)
    → ending ≢ attached
    → Accounted (before ++ this) (ending, c)
    → Accounted (before ++ (this ++ later)) (ending, c)
ended before this later ending c ne (rest, e, h) = (
  rest ++ later,
  sym (append_assoc (input_of c.sent) rest later)
      ∙ ap (λ i. i ++ later) e
      ∙ append_assoc before this later,
  λ x. absurd (ne x),
)

-- The input frames that a client has sent carry what was typed, up to a rest, in order: nothing is
-- lost, repeated or made up, however the connection goes. While the client is attached the rest is
-- exactly what the filter holds back.
pub stream-Accounted :
    (es : List Event) (c : Client)
    → Accounted (input_of c.sent ++ (held c ++ typed_in es)) (stream es c)
unfolding stream
stream-Accounted [] c = unchanged c attached
stream-Accounted (e ∷ es) c =
    of_event (on_event e c) (on_event-Accounted e c) (λ c'. stream-Accounted es c')
  where
    goal : Ending × Client → Type 0
    goal = Accounted (input_of c.sent ++ (held c ++ (typed_of e ++ typed_in es)))

    ended_by :
        (ending : Ending) (c' : Client)
        → ending ≢ attached
        → Accounted (input_of c.sent ++ (held c ++ typed_of e)) (ending, c')
        → goal (ending, c')
    ended_by ending c' ne a =
        subst (λ i. Accounted (input_of c.sent ++ i) (ending, c'))
          (append_assoc (held c) (typed_of e) (typed_in es))
          (ended (input_of c.sent) (held c ++ typed_of e) (typed_in es) ending c' ne a)

    of_event :
        (r : Ending × Client)
        → Accounted (input_of c.sent ++ (held c ++ typed_of e)) r
        → ((c' : Client) → Accounted (input_of c'.sent ++ (held c' ++ typed_in es)) (stream es c'))
        → goal (proceed r (λ c'. stream es c'))
    of_event (attached, c') (rest, eq, h) ih =
        let (rest', eq', h') = ih c' in
        (
          rest',
          eq'
              ∙ sym (append_assoc (input_of c'.sent) (held c') (typed_in es))
              ∙ ap (λ i. (input_of c'.sent ++ i) ++ typed_in es) (sym (h refl))
              ∙ ap (λ i. i ++ typed_in es) eq
              ∙ append_assoc (input_of c.sent) (held c ++ typed_of e) (typed_in es)
              ∙ ap (◌++◌ (input_of c.sent)) (append_assoc (held c) (typed_of e) (typed_in es)),
          h',
        )
    of_event (done code restored, c') a ih = ended_by (done code restored) c' (λ x. cc) a
    of_event (attach_failed message, c') a ih = ended_by (attach_failed message) c' (λ x. cc) a
    of_event (write_failed, c') a ih = ended_by write_failed c' (λ x. cc) a
    of_event (not_connected, c') a ih = ended_by not_connected c' (λ x. cc) a
