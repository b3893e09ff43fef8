-- ===== src/Local/Shown.antt =====
-- src/attach.rs with src/control.rs: the client of a session that exits has shown all output.
use babysit.Prelude.{
  ℕ, ◌%◌, ◌^◌, ◌≡◌, ◌≢◌, refl, sym, ap, ◌∙◌, inl, inr, false, List, [], ◌∷◌, ◌++◌, Option, Bytes,
  arith, append_assoc, append-nil, map, concat, take,
}
use babysit.Frame.{ExitInfo, s_exit, offset_payload, parse_exit, exit_payload, reported_code}
use babysit.Control.Attach.{AttachOutput, legacy, offset, output_frame, Round, Stream, serve}
use babysit.Control.Attach.Drain.{IsLast, Found, Drains, arrived, serve-Drains}
use babysit.Local.{Event, Client, done, stream, fresh}
use babysit.Local.Exits.{received, shown, Exited, stream-Exited}

abbrev pub output_bytes : AttachOutput → Bytes
output_bytes (legacy bytes) = bytes
output_bytes (offset c) = c.bytes

shown-output_frame : (o : AttachOutput) → shown (output_frame o) ≡ output_bytes o
unfolding output_frame offset_payload
shown-output_frame (legacy bytes) = refl
shown-output_frame (offset c) = ground arith

shown_all :
    (os : List AttachOutput)
    → concat (map shown (map output_frame os)) ≡ concat (map output_bytes os)
shown_all [] = refl
shown_all (o ∷ os) = rw (shown-output_frame o, shown_all os)

exit-ne-output : (payload : Bytes) (o : AttachOutput) → (s_exit, payload) ≢ output_frame o
unfolding output_frame
exit-ne-output payload (legacy bytes) e = absurd (omega (arith, ap (λ f. f.0) e))
exit-ne-output payload (offset c) e = absurd (omega (arith, ap (λ f. f.0) e))

cons_inj : {x y : ℕ × Bytes} {xs ys : List (ℕ × Bytes)} → x ∷ xs ≡ y ∷ ys → (x ≡ y) × (xs ≡ ys)
cons_inj e = (cc, cc)

append_cons-ne-nil : (before after : List (ℕ × Bytes)) (f : ℕ × Bytes) → before ++ f ∷ after ≢ []
append_cons-ne-nil [] after f e = cc
append_cons-ne-nil (b ∷ before) after f e = cc

-- An exit frame stands behind the output, or nowhere.
exit_last :
    (os : List AttachOutput) (f : ℕ × Bytes) (before after : List (ℕ × Bytes)) (payload : Bytes)
    → before ++ (s_exit, payload) ∷ after ≡ map output_frame os ++ f ∷ []
    → (before ≡ map output_frame os) × ((s_exit, payload) ≡ f)
exit_last [] f [] after payload e = (refl, (cons_inj e).0)
exit_last [] f (b ∷ before) after payload e =
    absurd (append_cons-ne-nil before after (s_exit, payload) (cons_inj e).1)
exit_last (o ∷ os) f [] after payload e = absurd (exit-ne-output payload o (cons_inj e).0)
exit_last (o ∷ os) f (b ∷ before) after payload e =
    let (same, ex) = exit_last os f before after payload (cons_inj e).1 in
    let head = (cons_inj e).0 in (rw (head, same), ex)

exit_nowhere :
    (os : List AttachOutput) (before after : List (ℕ × Bytes)) (payload : Bytes)
    → before ++ (s_exit, payload) ∷ after ≢ map output_frame os
exit_nowhere [] before after payload e = append_cons-ne-nil before after (s_exit, payload) e
exit_nowhere (o ∷ os) [] after payload e = exit-ne-output payload o (cons_inj e).0
exit_nowhere (o ∷ os) (b ∷ before) after payload e =
    exit_nowhere os before after payload (cons_inj e).1

parse_exit-low :
    (info : Option ExitInfo) → parse_exit (exit_payload info) ≡ reported_code info % 2 ^ 32
unfolding parse_exit exit_payload
parse_exit-low info = omega arith

-- The client of a served session that ends with an exit code and leaves the terminal alone, having
-- received some of the frames that the server sent in their order: it has printed all output that had
-- arrived for it in some first rounds of the server, once and in order, and its code is the one of the
-- exit that the last of these rounds has found, as 32 bits.
pub stream-serve :
    (m : Stream) (queue : List AttachOutput) (rs : List Round) (es : List Event)
    (later : List (ℕ × Bytes)) (code : ℕ) (c : Client)
    → received es ++ later ≡ (serve m queue rs).0
    → stream es fresh ≡ (done code false, c)
    → (rounds : ℕ) × (before : List Round) × (r : Round) × (take rounds rs ≡ before ++ r ∷ [])
      × (c.printed ≡ concat (map output_bytes (queue ++ arrived (take rounds rs))))
      × (code ≡ reported_code r.exit % 2 ^ 32)
stream-serve m queue rs es later code c sent e =
    let x = stream-Exited es fresh c code e in
    let d = serve-Drains m queue rs in
    let whole : x.before ++ (s_exit, x.payload) ∷ (x.after ++ later) ≡ (serve m queue rs).0 =
      sym (append_assoc x.before ((s_exit, x.payload) ∷ x.after) later)
      ∙ ap (λ i. i ++ later) (sym x.in_order)
      ∙ sent in
    elim (d.frames) [
      | inl only ↦
          absurd (exit_nowhere d.taken x.before (x.after ++ later) x.payload (whole ∙ only))
      | inr (empty, (f, last, fs)) ↦
          of_last d x empty last
            (exit_last d.taken f x.before (x.after ++ later) x.payload (whole ∙ fs))
    ]
  where
    of_last :
        {f : ℕ × Bytes} (d : Drains Found queue rs (serve m queue rs).0)
        (x : Exited (received es) fresh code c)
        → d.left ≡ []
        → IsLast (Found (take d.rounds rs)) f
        → (x.before ≡ map output_frame d.taken) × ((s_exit, x.payload) ≡ f)
        → (rounds : ℕ) × (before : List Round) × (r : Round) × (take rounds rs ≡ before ++ r ∷ [])
          × (c.printed ≡ concat (map output_bytes (queue ++ arrived (take rounds rs))))
          × (code ≡ reported_code r.exit % 2 ^ 32)
    of_last d x empty (inl (info, (past, r, found, same), is_exit)) (before, ex) = (
      d.rounds,
      past,
      r,
      found,
      x.output
          ∙ ap (λ i. concat (map shown i)) before
          ∙ shown_all d.taken
          ∙ ap (λ i. concat (map output_bytes i))
              (sym (d.in_order ∙ ap (◌++◌ d.taken) empty ∙ append-nil d.taken)),
      x.reported
          ∙ ap (λ i. parse_exit i.1) (ex ∙ is_exit)
          ∙ parse_exit-low info
          ∙ ap (λ i. reported_code i % 2 ^ 32) (sym same),
    )
    of_last d x empty (inr is_detached) (before, ex) =
        absurd (omega (arith, ap (λ i. i.0) (ex ∙ is_detached)))
