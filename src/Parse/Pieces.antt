-- ===== src/Parse/Pieces.antt =====
-- The rounds of parseline of tshlab-s20-bhxxzp/tsh_helper.c over words, redirections and the gaps between
-- them.
use cmu.Common.{
  ℕ, zero, suc, ◌+◌, ◌≤◌, ◌<◌, ◌≡◌, refl, ◌≢◌, ◌∙◌, sym, ap, Bool, true, false, not, ◌&&◌, none,
  some, List, [], ◌∷◌, ◌++◌, arith, ◌==◌, length, length-append, leb-false,
}
use cmu.Parse.{
  Text, Tokens, ParseState, normal, infile, outfile, Round, failed, stop, go, skip, plain, is_delim,
  is_quote, record_token, take_token, at_char, round, rounds, continue_round,
}

-- A character that begins no redirection and no quotation.
abbrev pub is_letter : ℕ → Bool
is_letter c = not (is_delim c) && (not (c == b'<') && (not (c == b'>') && not (is_quote c)))

abbrev pub no_delim : Text → Bool
no_delim [] = true
no_delim (c ∷ t) = not (is_delim c) && no_delim t

-- A word that needs no quotes.
abbrev pub is_word : Text → Bool
is_word [] = false
is_word (c ∷ t) = is_letter c && no_delim t

abbrev pub IsWord : Text → Type 0
IsWord w = is_word w ≡ true

abbrev pub is_gap : Text → Bool
is_gap [] = true
is_gap (c ∷ t) = is_delim c && is_gap t

-- Blanks, tabs and line ends, or nothing.
abbrev pub IsGap : Text → Type 0
IsGap g = is_gap g ≡ true

-- A word, or a redirection: the gap behind its sign, and the file.
pub data Piece : Type 0 where
  word : Text → Piece
  input output : Text → Text → Piece

abbrev pub show : Piece → Text → Text
show (word w) rest = w ++ rest
show (input g w) rest = b'<' ∷ g ++ (w ++ rest)
show (output g w) rest = b'>' ∷ g ++ (w ++ rest)

-- The text of a command line: the gap in front, and then each piece with the gap behind it.
abbrev pub command : Text → List (Piece × Text) → Text
command lead [] = lead
command lead ((p, g) ∷ rest) = lead ++ show p (command g rest)

-- What a piece says.
abbrev pub put : Piece → Tokens → Tokens
put (word w) t = record t { argv = t.argv ++ w ∷ [] }
put (input g w) t = record t { infile = some w }
put (output g w) t = record t { outfile = some w }

abbrev pub put_all : List (Piece × Text) → Tokens → Tokens
put_all [] t = t
put_all ((p, g) ∷ rest) t = put_all rest (put p t)

-- A piece that can follow what `t` says: a word is not the 127th, and there is one redirection of each
-- kind.
abbrev pub Fits : Piece → Tokens → Type 0
Fits (word w) t = IsWord w × (length t.argv + 1 < 127)
Fits (input g w) t = IsGap g × IsWord w × (t.infile ≡ none)
Fits (output g w) t = IsGap g × IsWord w × (t.outfile ≡ none)

-- The pieces are apart: behind all but the last there is a gap that is not empty.
abbrev pub IsLine : List (Piece × Text) → Tokens → Type 0
IsLine [] t = Unit {0}
IsLine ((p, g) ∷ rest) t = Fits p t × IsGap g × (rest ≢ [] → g ≢ []) × IsLine rest (put p t)

skip-gap : (g buf : Text) → IsGap g → skip (g ++ buf) ≡ skip buf
unfolding skip
skip-gap [] buf h = refl
skip-gap (c ∷ g) buf h =
    let delim : is_delim c ≡ true = ground arith in rw delim (skip-gap g buf (ground arith))

round-gap :
    (g buf : Text) (state : ParseState) (t : Tokens)
    → IsGap g
    → round (g ++ buf) state t ≡ round buf state t
unfolding round
round-gap g buf state t h = rw (skip-gap g buf h) refl

-- What is left when the word in front of it has been taken off.
abbrev left_of : Text → Text
left_of [] = []
left_of (c ∷ g) = g

-- The text begins with a delimiter, or is empty.
abbrev is_apart : Text → Bool
is_apart [] = true
is_apart (c ∷ g) = is_delim c

plain-word :
    (w tail : Text)
    → no_delim w ≡ true
    → is_apart tail ≡ true
    → plain (w ++ tail) ≡ (w, left_of tail)
unfolding plain
plain-word [] [] h a = refl
plain-word [] (c ∷ g) h a = rw a refl
plain-word (c ∷ w) tail h a =
    let letter : is_delim c ≡ false = ground arith in
    rw (letter, plain-word w tail (ground arith) a) refl

-- One round takes a word off the front.
round-word :
    (w tail : Text) (state : ParseState) (t : Tokens)
    → IsWord w
    → is_apart tail ≡ true
    → length (record_token state w t).argv < 127
    → round (w ++ tail) state t ≡ go (left_of tail) normal (record_token state w t)
unfolding round skip at_char take_token
round-word [] tail state t h a few = absurd (cc)
round-word (c ∷ w) tail state t h a few =
    let not_delim : is_delim c ≡ false = ground arith in
    let not_lt : (c == b'<') ≡ false = ground arith in
    let not_gt : (c == b'>') ≡ false = ground arith in
    let not_quote : is_quote c ≡ false = ground arith in
    let letters : no_delim (c ∷ w) ≡ true = ground arith in
    rw (
      not_delim,
      not_lt,
      not_gt,
      not_quote,
      plain-word (c ∷ w) tail letters a,
      leb-false 127 (length (record_token state (c ∷ w) t).argv) few,
    )

round-sign_in :
    (buf : Text) (t : Tokens) → t.infile ≡ none → round (b'<' ∷ buf) normal t ≡ go buf infile t
unfolding round skip at_char
round-sign_in buf t free = rw free

round-sign_out :
    (buf : Text) (t : Tokens) → t.outfile ≡ none → round (b'>' ∷ buf) normal t ≡ go buf outfile t
unfolding round skip at_char
round-sign_out buf t free = rw free

-- More fuel gives the same result.
pub rounds-more :
    (fuel more : ℕ) (buf : Text) (state : ParseState) (t : Tokens) (r : Round)
    → fuel ≤ more
    → rounds fuel buf state t ≡ some r
    → rounds more buf state t ≡ some r
unfolding rounds
rounds-more zero more buf state t r le e = absurd (cc)
rounds-more (suc fuel) zero buf state t r le e = absurd (omega arith)
rounds-more (suc fuel) (suc more) buf state t r le e =
    at_round (round buf state t) (λ b s t' e'. rounds-more fuel more b s t' r (omega arith) e') e
  where
    at_round :
        (q : Round)
        → ((b : Text) (s : ParseState) (t' : Tokens)
            → rounds fuel b s t' ≡ some r
            → rounds more b s t' ≡ some r)
        → continue_round (rounds fuel) q ≡ some r
        → continue_round (rounds more) q ≡ some r
    at_round failed ih h = h
    at_round (stop s t') ih h = h
    at_round (go b s t') ih h = ih b s t' h

-- Two rounds are enough for a piece.
rounds-piece :
    (p : Piece) (lead tail : Text) (fuel : ℕ) (t : Tokens) (r : Round)
    → IsGap lead
    → Fits p t
    → length t.argv < 127
    → is_apart tail ≡ true
    → rounds fuel (left_of tail) normal (put p t) ≡ some r
    → rounds (suc (suc fuel)) (lead ++ show p tail) normal t ≡ some r
unfolding rounds record_token
rounds-piece (word w) lead tail fuel t r l f few a e =
    let few' : length (t.argv ++ w ∷ []) < 127 =
      omega (arith, length-append t.argv (w ∷ []), f.1) in
    rw (round-gap lead (w ++ tail) normal t l, round-word w tail normal t f.0 a few')
      (rounds-more fuel (suc fuel) (left_of tail) normal (put (word w) t) r (omega arith) e)
rounds-piece (input g w) lead tail fuel t r l f few a e =
    rw
      (
        round-gap lead (show (input g w) tail) normal t l,
        round-sign_in (g ++ (w ++ tail)) t f.2,
        round-gap g (w ++ tail) infile t f.0,
        round-word w tail infile t f.1 a few,
      )
      e
rounds-piece (output g w) lead tail fuel t r l f few a e =
    rw
      (
        round-gap lead (show (output g w) tail) normal t l,
        round-sign_out (g ++ (w ++ tail)) t f.2,
        round-gap g (w ++ tail) outfile t f.0,
        round-word w tail outfile t f.1 a few,
      )
      e

-- The text behind a piece begins with a delimiter if it is not empty, which the round passes over.
apart :
    (g : Text) (rest : List (Piece × Text))
    → IsGap g
    → (rest ≢ [] → g ≢ [])
    → (is_apart (command g rest) ≡ true)
      × (left_of (command g rest) ≡ command (left_of g) rest)
      × IsGap (left_of g)
apart [] [] h sep = (refl, refl, refl)
apart [] (p ∷ rest) h sep = absurd (sep (λ e. cc) refl)
apart (c ∷ g) [] h sep = (ground arith, refl, ground arith)
apart (c ∷ g) (p ∷ rest) h sep = (ground arith, refl, ground arith)

put-few : (p : Piece) (t : Tokens) → Fits p t → length t.argv < 127 → length (put p t).argv < 127
put-few (word w) t f few = omega (arith, length-append t.argv (w ∷ []), f.1)
put-few (input g w) t f few = few
put-few (output g w) t f few = few

-- Two rounds for each piece, and one for the end.
abbrev pub fuel_for : List (Piece × Text) → ℕ
fuel_for [] = 1
fuel_for (p ∷ ps) = suc (suc (fuel_for ps))

append_nil : (xs : Text) → xs ++ [] ≡ xs
append_nil [] = refl
append_nil (x ∷ xs) = ap (λ l. x ∷ l) (append_nil xs)

rounds-gap : (lead : Text) (t : Tokens) → IsGap lead → rounds 1 lead normal t ≡ some (stop normal t)
unfolding rounds round skip
rounds-gap lead t l =
    ap (λ buf. rounds 1 buf normal t) (sym (append_nil lead))
    ∙ rw (round-gap lead [] normal t l) refl

pub rounds-line :
    (ps : List (Piece × Text)) (lead : Text) (t : Tokens)
    → IsGap lead
    → IsLine ps t
    → length t.argv < 127
    → rounds (fuel_for ps) (command lead ps) normal t ≡ some (stop normal (put_all ps t))
rounds-line [] lead t l h few = rounds-gap lead t l
rounds-line ((p, g) ∷ rest) lead t l h few =
    let (begins, left, gap) = apart g rest h.1 h.2 in
    rounds-piece p lead (command g rest) (fuel_for rest) t _ l h.0 few begins
      (rw left (rounds-line rest (left_of g) (put p t) gap h.3 (put-few p t h.0 few)))
