-- ===== src/Listing/Visible.antt =====
-- src/sub.rs, last_visible_line: the last output of a session, for the table that is redrawn.
use babysit.Prelude.{
  ℕ, ◌≡◌, ◌≢◌, refl, sym, ap, subst, ◌∙◌, Bool, true, false, not, ◌&&◌, ◌||◌, List, [], ◌∷◌, ◌++◌,
  map, Option, none, some, ◌==◌, leb, is_empty, if◌then◌else◌, arith, All,
}
use babysit.Listing.{Chars}

-- `char::is_whitespace` and `char::is_control`.
unfoldable pub is_whitespace : ℕ → Bool
is_whitespace c =
    (leb 9 c && leb c 13)
    || c == 32
    || c == 0x85
    || c == 0xa0
    || c == 0x1680
    || (leb 0x2000 c && leb c 0x200a)
    || c == 0x2028
    || c == 0x2029
    || c == 0x202f
    || c == 0x205f
    || c == 0x3000

unfoldable pub is_control : ℕ → Bool
is_control c = leb c 31 || (leb 127 c && leb c 159)

unfoldable pub trim_start : Chars → Chars
trim_start [] = []
trim_start (c ∷ cs) = if is_whitespace c then trim_start cs else c ∷ cs

unfoldable pub trim_end : Chars → Chars
trim_end [] = []
trim_end (c ∷ cs) =
    let rest = trim_end cs in if is_whitespace c && is_empty rest then [] else c ∷ rest

abbrev pub trim : Chars → Chars
unfolding trim_start trim_end
trim s = trim_end (trim_start s)

abbrev pub onto_first : ℕ → List Chars → List Chars
onto_first c [] = (c ∷ []) ∷ []
onto_first c (p ∷ ps) = (c ∷ p) ∷ ps

-- `split(['\n', '\r'])`
unfoldable pub frames : Chars → List Chars
frames [] = [] ∷ []
frames (c ∷ cs) = if c == 10 || c == 13 then [] ∷ frames cs else onto_first c (frames cs)

-- `rev().find(..)`
unfoldable pub rfind : (Chars → Bool) → List Chars → Option Chars
rfind p [] = none
rfind p (l ∷ ls) = elim (rfind p ls) [
  | some found ↦ some found
  | none ↦ if p l then some l else none
]

unfoldable pub drop_controls : Chars → Chars
drop_controls [] = []
drop_controls (c ∷ cs) = if is_control c then drop_controls cs else c ∷ drop_controls cs

abbrev pub is_visible : Chars → Bool
unfolding trim_start trim_end
is_visible l = not (is_empty (trim l))

abbrev pub cleaned : Option Chars → Option Chars
unfolding trim_start trim_end drop_controls
cleaned none = none
cleaned (some line) = let s = trim (drop_controls line) in if is_empty s then none else some s

-- `last_visible_line`
unfoldable pub last_visible_line : Chars → Option Chars
unfolding trim_start trim_end drop_controls frames rfind
last_visible_line text = cleaned (rfind is_visible (map trim_end (frames text)))

-- What may stand in a cell: not empty, with no space around it, and with no control character.
pub record IsPrintable (s : Chars) : Type 0 where
  pub some_text : s ≢ []
  pub trimmed : trim s ≡ s
  pub no_control : All (λ c. is_control c ≡ false) s

if-All :
    (P : ℕ → Type 0) (b : Bool) (xs ys : Chars) → All P xs → All P ys → All P (if b then xs else ys)
if-All P true xs ys x y = x
if-All P false xs ys x y = y

trim_end-All : (P : ℕ → Type 0) (s : Chars) → All P s → All P (trim_end s)
unfolding trim_end
trim_end-All P [] all = tt
trim_end-All P (c ∷ cs) all =
    if-All P (is_whitespace c && is_empty (trim_end cs)) [] (c ∷ trim_end cs) tt
      (all.0, trim_end-All P cs all.1)

trim_start-All : (P : ℕ → Type 0) (s : Chars) → All P s → All P (trim_start s)
unfolding trim_start
trim_start-All P [] all = tt
trim_start-All P (c ∷ cs) all =
    if-All P (is_whitespace c) (trim_start cs) (c ∷ cs) (trim_start-All P cs all.1) all

keep_if :
    (b : Bool) (c : ℕ) (s : Chars)
    → is_control c ≡ b
    → All (λ d. is_control d ≡ false) s
    → All (λ d. is_control d ≡ false) (if b then s else c ∷ s)
keep_if true c s h all = all
keep_if false c s h all = (h, all)

drop_controls-All : (s : Chars) → All (λ c. is_control c ≡ false) (drop_controls s)
unfolding drop_controls
drop_controls-All [] = tt
drop_controls-All (c ∷ cs) = keep_if (is_control c) c (drop_controls cs) refl (drop_controls-All cs)

drop_controls_nil : (s : Chars) → All (λ c. is_control c ≡ true) s → drop_controls s ≡ []
unfolding drop_controls
drop_controls_nil [] all = refl
drop_controls_nil (c ∷ cs) all = ground (arith, all.0, drop_controls_nil cs all.1)

trim_end-trim_end : (s : Chars) → trim_end (trim_end s) ≡ trim_end s
unfolding trim_end
trim_end-trim_end [] = refl
trim_end-trim_end (c ∷ cs) = ground (arith, trim_end-trim_end cs)

-- No space at the front.
Bare : Chars → Type 0
Bare [] = Unit
Bare (c ∷ cs) = is_whitespace c ≡ false

if-Bare :
    (b : Bool) (c : ℕ) (s t : Chars) → is_whitespace c ≡ b → Bare s → Bare (if b then s else c ∷ t)
unfolding Bare
if-Bare true c s t h bare = bare
if-Bare false c s t h bare = h

trim_start-Bare : (s : Chars) → Bare (trim_start s)
unfolding Bare trim_start
trim_start-Bare [] = tt
trim_start-Bare (c ∷ cs) = if-Bare (is_whitespace c) c (trim_start cs) cs refl (trim_start-Bare cs)

trim_start-trim_end : (s : Chars) → Bare s → trim_start (trim_end s) ≡ trim_end s
unfolding trim_start trim_end Bare
trim_start-trim_end [] h = refl
trim_start-trim_end (c ∷ cs) h = ground arith

trim-trim : (s : Chars) → trim (trim s) ≡ trim s
unfolding trim trim_end
trim-trim s =
    ap trim_end (trim_start-trim_end (trim_start s) (trim_start-Bare s))
    ∙ trim_end-trim_end (trim_start s)

-- Where `rfind` finds: the last element that passes the test.
abbrev pub FoundLast : (Chars → Bool) → List Chars → Chars → Type 0
FoundLast p ls l =
    (before : List Chars) × (after : List Chars) × (ls ≡ before ++ l ∷ after)
    × (p l ≡ true)
    × All (λ m. p m ≡ false) after

FoundIn : (Chars → Bool) → List Chars → Option Chars → Type 0
FoundIn p ls none = All (λ m. p m ≡ false) ls
FoundIn p ls (some l) = FoundLast p ls l

found_here :
    (p : Chars → Bool) (m : Chars) (ls : List Chars) (b : Bool)
    → p m ≡ b
    → All (λ l. p l ≡ false) ls
    → FoundIn p (m ∷ ls) (if b then some m else none)
unfolding FoundIn
found_here p m ls true h all = ([], ls, refl, h, all)
found_here p m ls false h all = (h, all)

found_step :
    (p : Chars → Bool) (m : Chars) (ls : List Chars) (r : Option Chars)
    → FoundIn p ls r
    → FoundIn p (m ∷ ls) (elim r [ some found ↦ some found | none ↦ if p m then some m else none ])
unfolding FoundIn
found_step p m ls none f = found_here p m ls (p m) refl f
found_step p m ls (some l) (before, after, e, found, all) =
    (m ∷ before, after, ap (◌∷◌ m) e, found, all)

rfind-FoundIn : (p : Chars → Bool) (ls : List Chars) → FoundIn p ls (rfind p ls)
unfolding rfind FoundIn
rfind-FoundIn p [] = tt
rfind-FoundIn p (m ∷ ls) = found_step p m ls (rfind p ls) (rfind-FoundIn p ls)

cleaned-IsPrintable :
    (line s : Chars)
    → cleaned (some line) ≡ some s
    → IsPrintable s × (s ≡ trim (drop_controls line))
unfolding cleaned trim
cleaned-IsPrintable line s e = of_text (trim (drop_controls line)) refl e
  where
    of_text :
        (t : Chars)
        → t ≡ trim (drop_controls line)
        → (if is_empty t then none else some t) ≡ some s
        → IsPrintable s × (s ≡ trim (drop_controls line))
    of_text [] h k = absurd (cc k)
    of_text (c ∷ cs) h k =
        let same : c ∷ cs ≡ s = cc k in
        let text : s ≡ trim (drop_controls line) = sym same ∙ h in
        (
          record {
            some_text = λ empty. absurd (cc (same, empty));
            trimmed = ap trim text ∙ trim-trim (drop_controls line) ∙ sym text;
            no_control = subst (All (λ d. is_control d ≡ false)) (sym text) (
                trim_end-All (λ d. is_control d ≡ false) (trim_start (drop_controls line))
                  (trim_start-All (λ d. is_control d ≡ false) (drop_controls line)
                    (drop_controls-All line)));
          },
          text,
        )

-- If there is a last visible line, then it is not empty, has no space around it and no control
-- character, and it is what is left, without control characters and trimmed, of the last frame of the
-- text that does not consist of white space; frames end at a line feed or a carriage return.
pub last_visible_line-IsPrintable :
    (text s : Chars)
    → last_visible_line text ≡ some s
    → IsPrintable s
      × ((line : Chars) × (s ≡ trim (drop_controls line))
          × FoundLast is_visible (map trim_end (frames text)) line)
unfolding last_visible_line FoundIn
last_visible_line-IsPrintable text s e =
    of_found (rfind is_visible (map trim_end (frames text)))
      (rfind-FoundIn is_visible (map trim_end (frames text))) e
  where
    of_found :
        (r : Option Chars)
        → FoundIn is_visible (map trim_end (frames text)) r
        → cleaned r ≡ some s
        → IsPrintable s
          × ((line : Chars) × (s ≡ trim (drop_controls line))
              × FoundLast is_visible (map trim_end (frames text)) line)
    of_found none f k = absurd (cc k)
    of_found (some line) f k =
        let (printable, e) = cleaned-IsPrintable line s k in (printable, (line, e, f))

onto_first-append :
    (c : ℕ) (ps qs : List Chars) → ps ≢ [] → onto_first c (ps ++ qs) ≡ onto_first c ps ++ qs
onto_first-append c [] qs h = absurd (h refl)
onto_first-append c (p ∷ ps) qs h = refl

frames_nonempty : (s : Chars) → frames s ≢ []
unfolding frames
frames_nonempty [] e = cc e
frames_nonempty (c ∷ cs) e = ground (arith, of_first (frames cs))
  where
    of_first : (ps : List Chars) → onto_first c ps ≢ []
    of_first [] k = cc k
    of_first (p ∷ ps) k = cc k

frames-append : (s t : Chars) → frames (s ++ 10 ∷ t) ≡ frames s ++ frames t
unfolding frames
frames-append [] t = refl
frames-append (c ∷ cs) t =
    ground
      (arith, frames-append cs t, onto_first-append c (frames cs) (frames t) (frames_nonempty cs))

rfind-snoc :
    (p : Chars → Bool) (f : Chars → Chars) (ls : List Chars) (l : Chars)
    → p (f l) ≡ true
    → rfind p (map f (ls ++ l ∷ [])) ≡ some (f l)
unfolding rfind
rfind-snoc p f [] l h = rw h
rfind-snoc p f (m ∷ ls) l h = rw (rfind-snoc p f ls l h)

-- If the last frame of the output is only control characters, and not only white space, then no last
-- visible line is found, whatever lines stand above it.
pub controls_hide_lines :
    (text tail : Chars)
    → frames tail ≡ tail ∷ []
    → is_visible (trim_end tail) ≡ true
    → All (λ c. is_control c ≡ true) tail
    → last_visible_line (text ++ 10 ∷ tail) ≡ none
unfolding last_visible_line cleaned trim trim_start trim_end
controls_hide_lines text tail one visible controls =
    let split : frames (text ++ 10 ∷ tail) ≡ frames text ++ tail ∷ [] =
      frames-append text tail ∙ ap (◌++◌ (frames text)) one in
    let found = rfind-snoc is_visible trim_end (frames text) tail visible in
    let nothing =
      drop_controls_nil (trim_end tail) (trim_end-All (λ c. is_control c ≡ true) tail controls) in
    ap (λ fs. cleaned (rfind is_visible (map trim_end fs))) split
    ∙ ap cleaned found
    ∙ ap (λ d. if is_empty (trim d) then none else some (trim d)) nothing
