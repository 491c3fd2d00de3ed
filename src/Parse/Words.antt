-- ===== src/Parse/Words.antt =====
-- parseline of tshlab-s20-bhxxzp/tsh_helper.c reads back a command line of words and redirections.
use cmu.Common.{
  ℕ, zero, suc, ◌+◌, ◌≤◌, ◌<◌, ◌≡◌, refl, ◌∙◌, sym, ap, inl, inr, true, false, some, List, [], ◌∷◌,
  ◌++◌, arith, leb, length, Bool-cases, le_of_leb, lt_of_leb, take,
}
use cmu.Parse.{
  Text, Tokens, ParseState, normal, Round, rounds, parsed, empty, by_args, finish, split_amp,
  starts_amp, no_tokens, parseline, builtin_of,
}
use cmu.Parse.Rounds.{rounds-Progress}
use cmu.Parse.Pieces.{Piece, IsGap, command, put_all, IsLine, fuel_for, rounds-more, rounds-line}

take-all : (n : ℕ) (t : Text) → length t ≤ n → take n t ≡ t
take-all zero [] h = refl
take-all zero (c ∷ t) h = absurd (omega arith)
take-all (suc n) [] h = refl
take-all (suc n) (c ∷ t) h = ap (λ u. c ∷ u) (take-all n t (omega arith))

-- A run with enough fuel is the run with the fuel that `parseline` gives, which always suffices.
rounds-agree :
    (fuel more : ℕ) (buf : Text) (state : ParseState) (t : Tokens) (r r' : Round)
    → rounds fuel buf state t ≡ some r
    → rounds more buf state t ≡ some r'
    → r ≡ r'
rounds-agree fuel more buf state t r r' e e' = elim (Bool-cases (leb fuel more)) [
  | inl le ↦
      let g = rounds-more fuel more buf state t r (le_of_leb fuel more le) e in
      some_inj (sym g ∙ e')
  | inr gt ↦
      let lt = lt_of_leb fuel more gt in
      let g = rounds-more more fuel buf state t r' (omega arith) e' in some_inj (sym e ∙ g)
]
  where
    some_inj : {x y : Round} → some x ≡ some y → x ≡ y
    some_inj p = cc

abbrev pub last_of : Text → List Text → Text
last_of a [] = a
last_of a (b ∷ rest) = last_of b rest

split_amp-word :
    (a : Text) (rest : List Text)
    → starts_amp (last_of a rest) ≡ false
    → split_amp a rest ≡ (false, a ∷ rest)
unfolding split_amp
split_amp-word a [] h = rw h
split_amp-word a (b ∷ rest) h = rw (split_amp-word b rest h)

split_amp-amp :
    (a : Text) (rest : List Text) (last : Text)
    → starts_amp last ≡ true
    → split_amp a (rest ++ last ∷ []) ≡ (true, a ∷ rest)
unfolding split_amp
split_amp-amp a [] last h = rw h
split_amp-amp a (b ∷ rest) last h = rw (split_amp-amp b rest last h)

parseline-command :
    (lead : Text) (ps : List (Piece × Text))
    → IsGap lead
    → IsLine ps no_tokens
    → length (command lead ps) < 1024
    → let t = put_all ps no_tokens in parseline (some (command lead ps)) ≡ some (by_args t t.argv)
unfolding parseline
parseline-command lead ps l h short =
    let text = command lead ps in
    let whole : take 1023 text ≡ text = take-all 1023 text (omega arith) in
    let (r, e, _) =
      rounds-Progress (length text + 1) text normal no_tokens (omega arith) (omega arith) in
    let run = rounds-line ps lead no_tokens l h (omega arith) in
    let same = rounds-agree (length text + 1) (fuel_for ps) text normal no_tokens r _ e run in
    rw (whole, e, same)

-- A command line of less than 1024 characters, of words that need no quotes, fewer than 127 of them,
-- and of at most one redirection of the input and one of the output, in any order and with any blanks,
-- tabs or line ends between them, in front and behind, is read back. With no words it is empty. If the
-- last word does not begin with `&`, the job runs in the foreground, with exactly these words as
-- arguments and these files. If it does, and is not the only word, the job runs in the background,
-- with the other words as arguments and the same files. The first word says which builtin it is.
pub parseline_words :
    (lead : Text) (ps : List (Piece × Text))
    → IsGap lead
    → IsLine ps no_tokens
    → length (command lead ps) < 1024
    → let t = put_all ps no_tokens in
      (t.argv ≡ [] → parseline (some (command lead ps)) ≡ some empty)
      × ((name : Text) (rest : List Text)
          → t.argv ≡ name ∷ rest
          → starts_amp (last_of name rest) ≡ false
          → parseline (some (command lead ps)) ≡ some (parsed false (builtin_of name) t))
      × ((name : Text) (rest : List Text) (last : Text)
          → t.argv ≡ name ∷ rest ++ last ∷ []
          → starts_amp last ≡ true
          → parseline (some (command lead ps))
            ≡ some (parsed true (builtin_of name) (record t { argv = name ∷ rest })))
unfolding finish
parseline_words lead ps l h short =
    let t = put_all ps no_tokens in
    let runs = parseline-command lead ps l h short in
    (
      λ e. runs ∙ ap (λ ws. some (by_args t ws)) e,
      λ name rest e plain_last.
          runs
          ∙ ap (λ ws. some (by_args t ws)) e
          ∙ rw (split_amp-word name rest plain_last)
              (ap (λ ws. some (parsed false (builtin_of name) (record t { argv = ws }))) (sym e)),
      λ name rest last e amp.
          runs ∙ ap (λ ws. some (by_args t ws)) e ∙ rw (split_amp-amp name rest last amp) refl,
    )
