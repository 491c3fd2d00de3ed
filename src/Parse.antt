-- ===== src/Parse.antt =====
-- parseline of tshlab-s20-bhxxzp/tsh_helper.c. The buffer is the text from `buf` to its end; an
-- argument is the text that its pointer leads to. What it prints on an error is left out.
pub mod Rounds
pub mod Pieces
pub mod Words
mod Tests
use cmu.Common.{
  ℕ, zero, suc, ◌+◌, ◌-◌, Bool, true, false, not, ◌&&◌, ◌||◌, Option, none, some, List, [], ◌∷◌,
  ◌++◌, ◌==◌, leb, if◌then◌else◌, is_some, length, take,
}

abbrev pub Text : Type 0
Text = List ℕ

abbrev pub maxline : ℕ
maxline = 1024

abbrev pub maxargs : ℕ
maxargs = 128

-- `builtin_state`
pub data Builtin : Type 0 where
  no_builtin quit jobs bg fg : Builtin

-- `parse_state`
pub data ParseState : Type 0 where
  normal infile outfile : ParseState

-- `struct cmdline_tokens`: `argv` up to the null pointer.
pub record Tokens : Type 0 where
  pub argv : List Text
  pub infile : Option Text
  pub outfile : Option Text

-- `parseline_return`, with the tokens where they are complete.
pub data Parsed : Type 0 where
  parsed : (background : Bool) → Builtin → Tokens → Parsed
  empty error : Parsed

-- `" \t\r\n"`
abbrev pub is_delim : ℕ → Bool
is_delim c = c == b' ' || (c == 9 || (c == 13 || c == 10))

-- `buf += strspn(buf, delims)`
unfoldable pub skip : Text → Text
skip [] = []
skip (c ∷ t) = let rest = skip t in if is_delim c then rest else c ∷ t

abbrev pub prepend : ℕ → Text × Text → Text × Text
prepend c (token, rest) = (c ∷ token, rest)

-- `strcspn(buf, delims)`: the text up to a delimiter, and the text from `next + 1` on.
unfoldable pub plain : Text → Text × Text
plain [] = ([], [])
plain (c ∷ t) = let r = plain t in if is_delim c then ([], t) else prepend c r

abbrev pub prepend? : ℕ → Option (Text × Text) → Option (Text × Text)
prepend? c none = none
prepend? c (some r) = some (prepend c r)

-- `strchr(buf, quote)`: the same up to the quote; `none` if it is not found.
unfoldable pub quoted : ℕ → Text → Option (Text × Text)
quoted q [] = none
quoted q (c ∷ t) = let r = quoted q t in if c == q then some ([], t) else prepend? c r

abbrev pub is_quote : ℕ → Bool
is_quote c = c == 39 || c == b'"'

-- How a round of the loop ends: with `return PARSELINE_ERROR`, out of the loop, or at its next round.
pub data Round : Type 0 where
  failed : Round
  stop : ParseState → Tokens → Round
  go : Text → ParseState → Tokens → Round

-- The switch on the parsing state.
unfoldable pub record_token : ParseState → Text → Tokens → Tokens
record_token normal token t = record t { argv = t.argv ++ token ∷ [] }
record_token infile token t = record t { infile = some token }
record_token outfile token t = record t { outfile = some token }

unfoldable pub take_token : ParseState → Tokens → Option (Text × Text) → Round
take_token state t none = failed
take_token state t (some (token, rest)) =
    let t' = record_token state token t in
    if leb (maxargs - 1) (length t'.argv) then stop normal t' else go rest normal t'

unfoldable pub at_char : ℕ → Text → ParseState → Tokens → Round
at_char c rest state t =
    if c == b'<'
    then (if is_some t.infile then failed else go rest infile t)
    else if c == b'>'
    then (if is_some t.outfile then failed else go rest outfile t)
    else if is_quote c
    then take_token state t (quoted c rest)
    else take_token state t (some (plain (c ∷ rest)))

abbrev pub round_at : Text → ParseState → Tokens → Round
round_at [] state t = stop state t
round_at (c ∷ rest) state t = at_char c rest state t

-- One round of `while (buf < endbuf)`; at the end of the text it is the loop's end as well.
unfoldable pub round : Text → ParseState → Tokens → Round
round buf state t = round_at (skip buf) state t

abbrev pub continue_round : (Text → ParseState → Tokens → Option Round) → Round → Option Round
continue_round next failed = some failed
continue_round next (stop state t) = some (stop state t)
continue_round next (go buf state t) = next buf state t

-- `none` is more rounds than the fuel gives.
unfoldable pub rounds : ℕ → Text → ParseState → Tokens → Option Round
rounds zero buf state t = none
rounds (suc fuel) buf state t = continue_round (rounds fuel) (round buf state t)

abbrev pub text_eq : Text → Text → Bool
text_eq [] [] = true
text_eq [] (d ∷ u) = false
text_eq (c ∷ t) [] = false
text_eq (c ∷ t) (d ∷ u) = c == d && text_eq t u

-- The chain of `strcmp`s on the first argument.
unfoldable pub builtin_of : Text → Builtin
builtin_of t =
    if text_eq t (b'q' ∷ b'u' ∷ b'i' ∷ b't' ∷ [])
    then quit
    else if text_eq t (b'j' ∷ b'o' ∷ b'b' ∷ b's' ∷ [])
    then jobs
    else if text_eq t (b'b' ∷ b'g' ∷ [])
    then bg
    else if text_eq t (b'f' ∷ b'g' ∷ [])
    then fg
    else no_builtin

abbrev pub starts_amp : Text → Bool
starts_amp [] = false
starts_amp (c ∷ t) = c == b'&'

-- The arguments without the last one if that begins with `&`, and whether it does.
unfoldable pub split_amp : Text → List Text → Bool × List Text
split_amp last [] = if starts_amp last then (true, []) else (false, last ∷ [])
split_amp a (b ∷ rest) = let r = split_amp b rest in (r.0, a ∷ r.1)

-- What follows the loop when the argument list is not empty.
unfoldable pub finish : Tokens → Text → List Text → Parsed
finish t name rest =
    let r = split_amp name rest in parsed r.0 (builtin_of name) (record t { argv = r.1 })

abbrev pub by_args : Tokens → List Text → Parsed
by_args t [] = empty
by_args t (name ∷ rest) = finish t name rest

abbrev pub after_loop : Round → Parsed
after_loop failed = error
after_loop (go buf state t) = error
after_loop (stop infile t) = error
after_loop (stop outfile t) = error
after_loop (stop normal t) = by_args t t.argv

abbrev pub no_tokens : Tokens
no_tokens = record { argv = []; infile = none; outfile = none }

-- The text as `strncpy` and the terminator leave it in the buffer.
abbrev pub buffer : Text → Text
buffer cmdline = take (maxline - 1) cmdline

abbrev pub outcome_of : Option Round → Option Parsed
outcome_of none = none
outcome_of (some r) = some (after_loop r)

-- `none` as an answer would be a loop that does not end in a round per character and one more.
unfoldable pub parseline : Option Text → Option Parsed
parseline none = some empty
parseline (some cmdline) =
    outcome_of (rounds (length (buffer cmdline) + 1) (buffer cmdline) normal no_tokens)
