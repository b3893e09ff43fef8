-- ===== src/Local/Exits.antt =====
-- src/attach.rs with src/control.rs: the client of a session that exits has shown all output.
use mathlib.Core.List.{map-append}
use babysit.Detach.{push, has_partial_escape, flush_partial_escape}
use babysit.Prelude.{
  ℕ, ◌≡◌, refl, sym, ap, subst, ◌∙◌, ◌⊎◌, inl, inr, Bool, true, false, ◌&&◌, List, [], ◌∷◌, ◌++◌,
  Option, none, some, Bytes, append_assoc, append-nil, is_empty, ◌==◌, leb, length, drop, map,
  concat, if_ind, if_case, if◌then◌else◌, ==_iff,
}
use babysit.Frame.{c_input, s_output, s_exit, s_detached, s_output_offset, s_error, parse_exit}
use babysit.Local.{
  Event, frame, closed, typed, typing_ended, escape_timeout, resized, Client, Ending, attached,
  done, attach_failed, write_failed, not_connected, print, send, on_frame, on_typed, on_timeout,
  on_resized, on_event, proceed, stream, forward_input,
}

-- The frames that are received.
abbrev pub received_of : Event → List (ℕ × Bytes)
received_of (frame tag payload) = (tag, payload) ∷ []
received_of (closed status) = []
received_of (typed bytes written) = []
received_of typing_ended = []
received_of (escape_timeout written) = []
received_of (resized size written) = []

abbrev pub received : List Event → List (ℕ × Bytes)
received [] = []
received (e ∷ es) = received_of e ++ received es

-- The output in a frame.
abbrev pub shown : ℕ × Bytes → Bytes
shown (tag, payload) =
    if tag == s_output
    then payload
    else if tag == s_output_offset && leb 8 (length payload)
    then drop 8 payload
    else []

-- What a step has done with the frames `fs`: it has shown their output, or they are the exit.
abbrev pub Took : List (ℕ × Bytes) → Client → Ending × Client → Type 0
Took fs c (attached, c') = c'.printed ≡ c.printed ++ concat (map shown fs)
Took fs c (done code false, c') =
    (payload : Bytes) × (fs ≡ (s_exit, payload) ∷ [])
    × (code ≡ parse_exit payload)
    × (c'.printed ≡ c.printed)
Took fs c (done code true, c') = Unit
Took fs c (attach_failed message, c') = Unit
Took fs c (write_failed, c') = Unit
Took fs c (not_connected, c') = Unit

on_frame-Took :
    (tag : ℕ) (payload : Bytes) (c : Client) → Took ((tag, payload) ∷ []) c (on_frame tag payload c)
unfolding on_frame
on_frame-Took tag payload c =
    let P : Ending × Client → Type 0 = Took ((tag, payload) ∷ []) c in
    let other : Ending × Client = (attached, c) in
    let detached = if tag == s_detached then (done 0 true, c) else other in
    let exit = if tag == s_exit then (done (parse_exit payload) false, c) else detached in
    let error = if tag == s_error then (attach_failed payload, c) else exit in
    let shown_part =
      if tag == s_output_offset && leb 8 (length payload)
      then (attached, print (drop 8 payload) c)
      else error in
    if_case P (tag == s_output) (attached, print payload c) shown_part
      (λ t. rw t (ap (◌++◌ c.printed) (sym (append-nil payload))))
      (λ t.
        if_case P (tag == s_output_offset && leb 8 (length payload))
          (attached, print (drop 8 payload) c) error
          (λ u. rw (t, u) (ap (◌++◌ c.printed) (sym (append-nil (drop 8 payload)))))
          (λ u.
            if_ind P (tag == s_error) (attach_failed payload, c) exit tt
              (if_case P (tag == s_exit) (done (parse_exit payload) false, c) detached
                (λ v. (payload, ap (λ i. (i, payload) ∷ []) ((==_iff tag s_exit).0 v), refl, refl))
                (λ v.
                  if_ind P (tag == s_detached) (done 0 true, c) other tt
                    (rw (t, u) (sym (append-nil c.printed)))))))

forward_input-Took :
    (bytes : Bytes) (written : Bool) (c c' : Client) (next : Ending)
    → c'.printed ≡ c.printed
    → (next ≡ attached) ⊎ (next ≡ done 0 true)
    → Took [] c (forward_input bytes written c' next)
forward_input-Took bytes written c c' next e h =
    if_ind (Took [] c) (is_empty bytes) (next, c')
      (if written then (next, send (c_input, bytes) c') else (write_failed, c')) (both c' e)
      (if_ind (Took [] c) written (next, send (c_input, bytes) c') (write_failed, c')
        (both (send (c_input, bytes) c') e) tt)
  where
    both : (c2 : Client) → c2.printed ≡ c.printed → Took [] c (next, c2)
    both c2 k = elim h [
      | inl a ↦ subst (λ n. Took [] c (n, c2)) (sym a) (k ∙ sym (append-nil c.printed))
      | inr d ↦ subst (λ n. Took [] c (n, c2)) (sym d) tt
    ]

on_typed-Took : (bytes : Bytes) (written : Bool) (c : Client) → Took [] c (on_typed bytes written c)
unfolding on_typed
on_typed-Took bytes written c =
    forward_input-Took (push c.filter bytes).1 written c
      (record c { filter = (push c.filter bytes).0 })
      (if (push c.filter bytes).2 then done 0 true else attached) refl
      (if_ind (λ n. (n ≡ attached) ⊎ (n ≡ done 0 true)) (push c.filter bytes).2 (done 0 true)
        attached (inr refl) (inl refl))

on_timeout-Took : (written : Bool) (c : Client) → Took [] c (on_timeout written c)
unfolding on_timeout
on_timeout-Took written c =
    if_ind (Took [] c) (has_partial_escape c.filter)
      (forward_input (flush_partial_escape c.filter).1 written
        (record c { filter = (flush_partial_escape c.filter).0 }) attached)
      (attached, c)
      (forward_input-Took (flush_partial_escape c.filter).1 written c
        (record c { filter = (flush_partial_escape c.filter).0 }) attached refl (inl refl))
      (sym (append-nil c.printed))

on_resized-Took :
    (size : Option (ℕ × ℕ)) (written : Bool) (c : Client) → Took [] c (on_resized size written c)
unfolding on_resized
on_resized-Took none written c = sym (append-nil c.printed)
on_resized-Took (some (cols, rows)) true c = sym (append-nil c.printed)
on_resized-Took (some (cols, rows)) false c = tt

on_event-Took : (e : Event) (c : Client) → Took (received_of e) c (on_event e c)
unfolding on_event
on_event-Took (frame tag payload) c = on_frame-Took tag payload c
on_event-Took (closed status) c = tt
on_event-Took (typed bytes written) c = on_typed-Took bytes written c
on_event-Took typing_ended c = sym (append-nil c.printed)
on_event-Took (escape_timeout written) c = on_timeout-Took written c
on_event-Took (resized size written) c = on_resized-Took size written c

concat-append : (xs ys : List Bytes) → concat (xs ++ ys) ≡ concat xs ++ concat ys
concat-append [] ys = refl
concat-append (x ∷ xs) ys =
    ap (◌++◌ x) (concat-append xs ys) ∙ sym (append_assoc x (concat xs) (concat ys))

-- How a client that ends with the session's exit code has got there.
pub record Exited (fs : List (ℕ × Bytes)) (c : Client) (code : ℕ) (c' : Client) : Type 0 where
  pub before : List (ℕ × Bytes)
  pub payload : Bytes
  pub after : List (ℕ × Bytes)
  pub in_order : fs ≡ before ++ (s_exit, payload) ∷ after
  pub reported : code ≡ parse_exit payload
  pub output : c'.printed ≡ c.printed ++ concat (map shown before)

pub stream-Exited :
    (es : List Event) (c c' : Client) (code : ℕ)
    → stream es c ≡ (done code false, c')
    → Exited (received es) c code c'
unfolding stream
stream-Exited [] c c' code e =
    absurd (let same : attached ≡ done code false = ap (λ r. r.0) e in cc)
stream-Exited (e ∷ es) c c' code h =
    of_event (on_event e c) (on_event-Took e c) h (λ c1 k. stream-Exited es c1 c' code k)
  where
    of_event :
        (r : Ending × Client)
        → Took (received_of e) c r
        → proceed r (λ c1. stream es c1) ≡ (done code false, c')
        → ((c1 : Client) → stream es c1 ≡ (done code false, c') → Exited (received es) c1 code c')
        → Exited (received_of e ++ received es) c code c'
    of_event (attached, c1) t k ih =
        let later = ih c1 k in
        record {
          before = received_of e ++ later.before;
          payload = later.payload;
          after = later.after;
          in_order =
              ap (◌++◌ (received_of e)) later.in_order
              ∙ sym (
                  append_assoc (received_of e) later.before
                    ((s_exit, later.payload) ∷ later.after));
          reported = later.reported;
          output =
              later.output
              ∙ ap (λ p. p ++ concat (map shown later.before)) t
              ∙ append_assoc c.printed (concat (map shown (received_of e)))
                  (concat (map shown later.before))
              ∙ ap (◌++◌ c.printed) (
                  sym (
                    ap concat (map-append shown (received_of e) later.before)
                    ∙ concat-append (map shown (received_of e)) (map shown later.before)));
        }
    of_event (done code1 false, c1) (payload, fs, rep, pr) k ih = record {
      before = [];
      payload = payload;
      after = received es;
      in_order = ap (λ i. i ++ received es) fs;
      reported =
          (let same : done code1 false ≡ done code false = ap (λ r. r.0) k in
            let one : code1 ≡ code = cc in sym one ∙ rep);
      output = sym (ap (λ r. (r.1).printed) k) ∙ pr ∙ sym (append-nil c.printed);
    }
    of_event (done code1 true, c1) t k ih =
        absurd (let same : done code1 true ≡ done code false = ap (λ r. r.0) k in cc)
    of_event (attach_failed message, c1) t k ih =
        absurd (let same : attach_failed message ≡ done code false = ap (λ r. r.0) k in cc)
    of_event (write_failed, c1) t k ih =
        absurd (let same : write_failed ≡ done code false = ap (λ r. r.0) k in cc)
    of_event (not_connected, c1) t k ih =
        absurd (let same : not_connected ≡ done code false = ap (λ r. r.0) k in cc)
