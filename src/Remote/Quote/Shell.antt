-- ===== src/Remote/Quote/Shell.antt =====
-- A POSIX shell takes the command line apart into the words that were meant.
use babysit.Prelude.{
  ℕ, ◌≡◌, refl, sym, ap, ◌∙◌, Bool, ◌||◌, List, [], ◌∷◌, ◌++◌, Option, none, some, Bytes, map,
  codes, ◌==◌, if◌then◌else◌, append_assoc, append-nil, arith, is_alphabetic, is_digit,
}
use babysit.Remote.Quote.{
  escape_quotes, shell_quote, join_words, babysit_word, remote_command_with_term,
}

-- Where the shell stands in its input: between words, in a word, in single quotes, behind a
-- backslash.
pub data Mode : Type 0 where
  outside plain quoted escaped : Mode

-- Characters that mean themselves outside quotes. All others that are not treated below (`$`, `;`,
-- `*`, a newline and so on) may have a meaning to the shell, and have no reading here.
abbrev is_plain : ℕ → Bool
is_plain c = is_alphabetic c || is_digit c || c == b'='

abbrev add_word : Bytes → Option (List Bytes) → Option (List Bytes)
add_word w none = none
add_word w (some ws) = some (w ∷ ws)

-- The words of a command line, by the shell's rules for blanks, backslashes and single quotes.
pub words : Mode → Bytes → Bytes → Option (List Bytes)
words outside w [] = some []
words plain w [] = some (w ∷ [])
words quoted w [] = none
words escaped w [] = none
words outside w (c ∷ cs) =
    if c == b' '
    then words outside [] cs
    else if c == b'\''
    then words quoted [] cs
    else if c == b'\\'
    then words escaped [] cs
    else if is_plain c
    then words plain (c ∷ []) cs
    else none
words plain w (c ∷ cs) =
    if c == b' '
    then add_word w (words outside [] cs)
    else if c == b'\''
    then words quoted w cs
    else if c == b'\\'
    then words escaped w cs
    else if is_plain c
    then words plain (w ++ c ∷ []) cs
    else none
words quoted w (c ∷ cs) = if c == b'\'' then words plain w cs else words quoted (w ++ c ∷ []) cs
words escaped w (c ∷ cs) = words plain (w ++ c ∷ []) cs

words-escape_quotes :
    (v w rest : Bytes)
    → words quoted w (escape_quotes v ++ (b'\'' ∷ rest)) ≡ words plain (w ++ v) rest
unfolding words escape_quotes
words-escape_quotes [] w rest = ap (λ u. words plain u rest) (sym (append-nil w))
words-escape_quotes (c ∷ cs) w rest =
    ground (arith, words-escape_quotes cs (w ++ c ∷ []) rest, append_assoc w (c ∷ []) cs)

quote_in_word :
    (v w rest : Bytes) → words plain w (shell_quote v ++ rest) ≡ words plain (w ++ v) rest
unfolding words shell_quote
quote_in_word [] w rest = ap (λ u. words plain u rest) (sym (append-nil w))
quote_in_word (c ∷ cs) w rest =
    ap (words quoted w) (append_assoc (escape_quotes (c ∷ cs)) (b'\'' ∷ []) rest)
    ∙ words-escape_quotes (c ∷ cs) w rest

quote_starts_word : (v rest : Bytes) → words outside [] (shell_quote v ++ rest) ≡ words plain v rest
unfolding words shell_quote
quote_starts_word [] rest = refl
quote_starts_word (c ∷ cs) rest =
    ap (words quoted []) (append_assoc (escape_quotes (c ∷ cs)) (b'\'' ∷ []) rest)
    ∙ words-escape_quotes (c ∷ cs) [] rest

words-join_words :
    (args : List Bytes) → words outside [] (join_words (map shell_quote args)) ≡ some args
unfolding words join_words
words-join_words [] = refl
words-join_words (v ∷ []) =
    ap (words outside []) (sym (append-nil (shell_quote v))) ∙ quote_starts_word v []
words-join_words (v ∷ u ∷ us) =
    quote_starts_word v (b' ' ∷ join_words (map shell_quote (u ∷ us)))
    ∙ ap (add_word v) (words-join_words (u ∷ us))

-- The words that a remote command line stands for.
abbrev pub intended : List Bytes → Option Bytes → List Bytes
intended args none = babysit_word ∷ args
intended args (some []) = babysit_word ∷ args
intended args (some (c ∷ cs)) = (codes "TERM=" ++ (c ∷ cs)) ∷ babysit_word ∷ args

-- Whatever bytes the arguments and the terminal name hold, quotes and shell syntax included, the
-- remote shell reads the assignment of `TERM`, if there is one, the program's name and exactly the
-- arguments.
pub words-remote_command_with_term :
    (args : List Bytes) (term : Option Bytes)
    → words outside [] (remote_command_with_term args term) ≡ some (intended args term)
unfolding words remote_command_with_term
words-remote_command_with_term args none = words-join_words (babysit_word ∷ args)
words-remote_command_with_term args (some []) = words-join_words (babysit_word ∷ args)
words-remote_command_with_term args (some (c ∷ cs)) =
    quote_in_word (c ∷ cs) (codes "TERM=")
      (b' ' ∷ join_words (map shell_quote (babysit_word ∷ args)))
    ∙ ap (add_word (codes "TERM=" ++ (c ∷ cs))) (words-join_words (babysit_word ∷ args))
