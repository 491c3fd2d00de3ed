-- ===== src/Parse/Tests.antt =====
-- The theorems on parseline of tshlab-s20-bhxxzp/tsh_helper.c at concrete lines, and test runs.
use cmu.Common.{List, ◌++◌, ◌≡◌, refl, true, false, none, some, [], ◌∷◌, arith}
use cmu.Parse.{
  no_tokens, empty, Text, Parsed, parsed, error, no_builtin, fg, parseline, rounds, round, skip,
  plain, quoted, at_char, take_token, record_token, finish, split_amp, builtin_of, starts_amp,
}
use cmu.Parse.Rounds.{WithinArgs, parseline_lem}
use cmu.Parse.Pieces.{Piece, word, output, command, put_all, IsLine}
use cmu.Parse.Words.{last_of, parseline_words}

abbrev ls : Text
ls = b'l' ∷ b's' ∷ []

abbrev amp : Text
amp = b'&' ∷ []

parseline_lem_example : (p : Parsed) × (parseline (some ls) ≡ some p) × WithinArgs p
parseline_lem_example = parseline_lem (some ls)

abbrev x : Text
x = b'x' ∷ []

abbrev blank : Text
blank = b' ' ∷ []

-- `ls >o x &`
abbrev pieces : List (Piece × Text)
pieces =
    (word ls, blank)
    ∷ (output [] (b'o' ∷ []), blank)
    ∷ (word x, b' ' ∷ 9 ∷ [])
    ∷ (word amp, [])
    ∷ []

pieces-IsLine : IsLine pieces no_tokens
pieces-IsLine = (
  (refl, omega arith),
  refl,
  (λ _ e. cc),
  (
    (refl, refl, refl),
    refl,
    (λ _ e. cc),
    (
      (refl, omega arith),
      refl,
      (λ _ e. cc),
      ((refl, omega arith), refl, (λ ne. absurd (ne refl)), tt),
    ),
  ),
)

parseline_words_example :
    let t = put_all pieces no_tokens in
    (t.argv ≡ [] → parseline (some (command [] pieces)) ≡ some empty)
    × ((name : Text) (rest : List Text)
        → t.argv ≡ name ∷ rest
        → starts_amp (last_of name rest) ≡ false
        → parseline (some (command [] pieces)) ≡ some (parsed false (builtin_of name) t))
    × ((name : Text) (rest : List Text) (last : Text)
        → t.argv ≡ name ∷ rest ++ last ∷ []
        → starts_amp last ≡ true
        → parseline (some (command [] pieces))
          ≡ some (parsed true (builtin_of name) (record t { argv = name ∷ rest })))
parseline_words_example = parseline_words [] pieces refl pieces-IsLine (omega arith)

-- What that says of the line: `ls` and `x` in the background, with the output to `o`.
background_run :
    parseline (some (command [] pieces))
    ≡ some (
        parsed true no_builtin
          (record { argv = ls ∷ x ∷ []; infile = none; outfile = some (b'o' ∷ []) }))
unfolding parseline rounds round skip plain quoted at_char take_token record_token finish split_amp
    builtin_of
background_run = refl

-- `fg %1` in quotes is one argument.
quotes :
    parseline (some (b'"' ∷ b'f' ∷ b'g' ∷ b' ' ∷ b'1' ∷ b'"' ∷ []))
    ≡ some (
        parsed false no_builtin
          (record { argv = (b'f' ∷ b'g' ∷ b' ' ∷ b'1' ∷ []) ∷ []; infile = none; outfile = none }))
unfolding parseline rounds round skip plain quoted at_char take_token record_token finish split_amp
    builtin_of
quotes = refl

-- A quote that is not closed, and a redirection without a file.
unclosed : parseline (some (b'"' ∷ b'f' ∷ [])) ≡ some error
unfolding parseline rounds round skip plain quoted at_char take_token record_token
unclosed = refl

no_file : parseline (some (b'f' ∷ b'g' ∷ b' ' ∷ b'>' ∷ b' ' ∷ [])) ≡ some error
unfolding parseline rounds round skip plain quoted at_char take_token record_token
no_file = refl

-- A last argument that only begins with `&` is dropped as a whole.
dropped :
    parseline (some (b'f' ∷ b'g' ∷ b' ' ∷ b'&' ∷ b'x' ∷ []))
    ≡ some
        (parsed true fg (record { argv = (b'f' ∷ b'g' ∷ []) ∷ []; infile = none; outfile = none }))
unfolding parseline rounds round skip plain quoted at_char take_token record_token finish split_amp
    builtin_of
dropped = refl
