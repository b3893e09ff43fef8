-- ===== src/Remote/Progress/Follow.antt =====
-- The client shows each byte of the log once, also when frames overlap what it has shown.
use babysit.Prelude.{
  ℕ, ◌+◌, ◌-◌, ◌≤◌, ◌<◌, ◌≡◌, refl, sym, ap, ◌∙◌, List, [], ◌∷◌, ◌++◌, Option, none, some, Bytes,
  length, take, drop, arith, max, append_assoc, append-nil, take_split, drop-drop, subst, drop_all,
  drop-take, ◌↔◌, ◌⊎◌, inl,
}
use native.Mathlib.Decide.{dec_lt}
use babysit.Hub.{OutputChunk, u64_max}
use babysit.Hub.Streams.{Contiguous, payload}
use babysit.Remote.Progress.{offset_frame_progress, Screen, shown, gap_found, receive, receive_all}

-- The chunk is the part of the log that its offset says.
pub record IsSlice (log : Bytes) (c : OutputChunk) : Type 0 where
  pub within : c.offset + length c.bytes ≤ length log
  pub slice : c.bytes ≡ take (length c.bytes) (drop c.offset log)

-- The client has shown the log from `origin` to its cursor, exactly.
pub record Shows (log : Bytes) (origin : ℕ) (s : Screen) (cursor : ℕ) : Type 0 where
  pub cursor_is : s.cursor ≡ some cursor
  pub reached : cursor ≤ length log
  pub started : origin ≤ cursor
  pub printed_is : s.printed ≡ take (cursor - origin) (drop origin log)

fresh_part :
    (log bytes : Bytes) (origin cursor offset end : ℕ)
    → bytes ≡ take (length bytes) (drop offset log)
    → end ≡ offset + length bytes
    → origin ≤ cursor
    → offset ≤ cursor
    → cursor ≤ end
    → take (cursor - origin) (drop origin log) ++ drop (cursor - offset) bytes
      ≡ take (end - origin) (drop origin log)
fresh_part log bytes origin cursor offset end slice e lo seen hi =
    ap (λ b. take (cursor - origin) (drop origin log) ++ b) tail
    ∙ take_split (cursor - origin) (end - cursor) (end - origin) (drop origin log) (omega arith)
  where
    tail :
        drop (cursor - offset) bytes
        ≡ take (end - cursor) (drop (cursor - origin) (drop origin log))
    tail =
        ap (drop (cursor - offset)) slice
        ∙ drop-take (cursor - offset) (end - cursor) (length bytes) (drop offset log) (omega arith)
        ∙ ap (take (end - cursor)) (
            drop-drop cursor offset (cursor - offset) log (omega arith)
            ∙ sym (drop-drop cursor origin (cursor - origin) log (omega arith)))

-- Let the length of the log be a 64-bit number, and let the client have shown the log from `origin`
-- to its cursor. A frame that carries its part of the log and starts at or before the cursor is
-- shown, and then the client has shown the log from `origin` to the later one of the cursor and the
-- end of the frame.
pub receive-Shows :
    (log : Bytes) (origin cursor : ℕ) (s : Screen) (c : OutputChunk)
    → length log ≤ u64_max
    → Shows log origin s cursor
    → IsSlice log c
    → c.offset ≤ cursor
    → (s' : Screen) × (receive c s ≡ shown s')
      × Shows log origin s' (max cursor (c.offset + length c.bytes))
unfolding receive offset_frame_progress
receive-Shows log origin cursor s c small v sl seen =
    elim (dec_lt (c.offset + length c.bytes) cursor) [
      | yes old ↦ (
        record { cursor = some cursor; printed = s.printed ++ drop (length c.bytes) c.bytes },
        ground (arith, v.cursor_is, sl.within),
        let e : cursor ≡ max cursor (c.offset + length c.bytes) = omega arith in
            subst (Shows log origin _) e (record {
              cursor_is = refl;
              reached = v.reached;
              started = v.started;
              printed_is =
                  ap (λ b. s.printed ++ b) (drop_all (length c.bytes) c.bytes (omega arith))
                  ∙ append-nil s.printed
                  ∙ v.printed_is;
            }),
      )
      | no new ↦ (
        record {
          cursor = some (c.offset + length c.bytes);
          printed = s.printed ++ drop (cursor - c.offset) c.bytes;
        },
        ground (arith, v.cursor_is, sl.within),
        let e : c.offset + length c.bytes ≡ max cursor (c.offset + length c.bytes) = omega arith in
            subst (Shows log origin _) e (record {
              cursor_is = refl;
              reached = sl.within;
              started = omega (arith, v.started);
              printed_is =
                  ap (λ b. b ++ drop (cursor - c.offset) c.bytes) v.printed_is
                  ∙ fresh_part log c.bytes origin cursor c.offset (c.offset + length c.bytes)
                      sl.slice refl v.started seen (omega arith);
            }),
      )
    ]

-- A frame that starts beyond the cursor is never shown: it is reported as a gap, with the offset
-- that was expected.
pub receive_gap :
    (cursor : ℕ) (s : Screen) (c : OutputChunk)
    → s.cursor ≡ some cursor
    → (receive c s ≡ gap_found cursor c.offset) ↔ (cursor < c.offset)
unfolding receive offset_frame_progress
receive_gap cursor s c e = (λ h. ground arith, λ h. ground arith)

-- A frame after which the client shows the log further.
receive_exact :
    (at end : ℕ) (c : OutputChunk) (s : Screen)
    → c.offset ≡ at
    → (s.cursor ≡ some at) ⊎ (s.cursor ≡ none)
    → at + length c.bytes ≤ u64_max
    → receive c s
      ≡ shown (record { cursor = some (at + length c.bytes); printed = s.printed ++ c.bytes })
unfolding receive offset_frame_progress
receive_exact at end c s e k fits = ground arith

abbrev pub cursor_after : Option ℕ → ℕ → List OutputChunk → Option ℕ
cursor_after start end [] = start
cursor_after start end (c ∷ cs) = some end

Contiguous-le : (a : ℕ) (cs : List OutputChunk) (b : ℕ) → Contiguous a cs b → a ≤ b
Contiguous-le a [] b h = omega arith
Contiguous-le a (c ∷ cs) b h = omega (arith, Contiguous-le (a + length c.bytes) cs b h.1)

-- Frames that follow one another from the cursor on (or from wherever they start, for a client that
-- has no cursor yet) are shown whole.
pub receive_all-Contiguous :
    (at end : ℕ) (cs : List OutputChunk) (s : Screen)
    → Contiguous at cs end
    → (s.cursor ≡ some at) ⊎ (s.cursor ≡ none)
    → end ≤ u64_max
    → (s' : Screen) × (receive_all cs s ≡ shown s')
      × (s'.printed ≡ s.printed ++ payload cs)
      × (s'.cursor ≡ cursor_after s.cursor end cs)
unfolding receive_all
receive_all-Contiguous at end [] s h k fits = (s, refl, sym (append-nil s.printed), refl)
receive_all-Contiguous at end (c ∷ cs) s h k fits =
    let s1 : Screen = record {
      cursor = some (at + length c.bytes);
      printed = s.printed ++ c.bytes;
    } in
    let (s', r, p, q) =
      receive_all-Contiguous (at + length c.bytes) end cs s1 h.1 (inl refl) fits in
    (
      s',
      rw
          (
            receive_exact at end c s h.0 k
                (omega (arith, Contiguous-le (at + length c.bytes) cs end h.1)),
            receive_all,
          )
          r,
      p ∙ append_assoc s.printed c.bytes (payload cs),
      q ∙ after cs h.1,
    )
  where
    after :
        (ds : List OutputChunk)
        → Contiguous (at + length c.bytes) ds end
        → cursor_after (some (at + length c.bytes)) end ds ≡ some end
    after [] e = ap some e
    after (d ∷ ds) e = refl
