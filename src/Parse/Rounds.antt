-- ===== src/Parse/Rounds.antt =====
-- The loop of parseline in tshlab-s20-bhxxzp/tsh_helper.c ends, and its argument list stays in bounds.
use cmu.Common.{
  is_some, ℕ, zero, suc, ◌+◌, ◌≤◌, ◌<◌, ◌≡◌, refl, inl, inr, Bool, true, false, Option, none, some,
  List, [], ◌∷◌, arith, ◌==◌, leb, if◌then◌else◌, length, length-append, Bool-cases, lt_of_leb,
}
use cmu.Parse.{
  Text, Tokens, ParseState, normal, infile, outfile, Round, failed, stop, go, skip, plain, quoted,
  prepend?, is_quote, record_token, take_token, at_char, round_at, round, rounds, continue_round,
  Parsed, parsed, empty, error, after_loop, by_args, finish, split_amp, buffer, no_tokens,
  parseline,
}

length-skip : (t : Text) → length (skip t) ≤ length t
unfolding skip
length-skip [] = omega arith
length-skip (c ∷ t) = ground (arith, length-skip t)

length-plain : (t : Text) → length (plain t).1 ≤ length t
unfolding plain
length-plain [] = omega arith
length-plain (c ∷ t) = ground (arith, length-plain t)

plain-shorter : (c : ℕ) (t : Text) → length (plain (c ∷ t)).1 < length (c ∷ t)
unfolding plain
plain-shorter c t = ground (arith, length-plain t)

-- A token that is found leaves less of the text than there was.
abbrev Leaves : ℕ → Option (Text × Text) → Type 0
Leaves n none = Unit {0}
Leaves n (some (token, rest)) = length rest < n

Leaves-mono : (n m : ℕ) (o : Option (Text × Text)) → n ≤ m → Leaves n o → Leaves m o
Leaves-mono n m none le h = tt
Leaves-mono n m (some (token, rest)) le h = omega arith

Leaves-prepend : (n c : ℕ) (o : Option (Text × Text)) → Leaves n o → Leaves (suc n) (prepend? c o)
Leaves-prepend n c none h = tt
Leaves-prepend n c (some (token, rest)) h = omega arith

quoted-Leaves : (q : ℕ) (t : Text) → Leaves (length t) (quoted q t)
unfolding quoted
quoted-Leaves q [] = tt
quoted-Leaves q (c ∷ t) = elim (Bool-cases (c == q)) [
  | inl here ↦ rw here (omega arith)
  | inr there ↦ rw there (Leaves-prepend (length t) c (quoted q t) (quoted-Leaves q t))
]

-- A round that goes on leaves less of the text, and fewer than 127 arguments; one that ends the loop
-- leaves at most 127.
abbrev pub Progress : ℕ → Round → Type 0
Progress n failed = Unit {0}
Progress n (stop state t) = length t.argv ≤ 127
Progress n (go buf state t) = (length buf < n) × (length t.argv < 127)

length-record_token :
    (state : ParseState) (token : Text) (t : Tokens)
    → length (record_token state token t).argv ≤ length t.argv + 1
unfolding record_token
length-record_token normal token t = omega (arith, length-append t.argv (token ∷ []))
length-record_token infile token t = omega arith
length-record_token outfile token t = omega arith

take_token-Progress :
    (n : ℕ) (state : ParseState) (t : Tokens) (o : Option (Text × Text))
    → length t.argv < 127
    → Leaves n o
    → Progress n (take_token state t o)
unfolding take_token
take_token-Progress n state t none few h = tt
take_token-Progress n state t (some (token, rest)) few h =
    elim (Bool-cases (leb 127 (length (record_token state token t).argv))) [
      | inl full ↦ rw full (omega (arith, length-record_token state token t))
      | inr more ↦ rw more (h, lt_of_leb 127 (length (record_token state token t).argv) more)
    ]

at_char-Progress :
    (c : ℕ) (rest : Text) (state : ParseState) (t : Tokens)
    → length t.argv < 127
    → Progress (suc (length rest)) (at_char c rest state t)
unfolding at_char
at_char-Progress c rest state t few = elim (Bool-cases (c == b'<')) [
  | inl lt ↦ rw lt (redirect (is_some t.infile) infile)
  | inr not_lt ↦ elim (Bool-cases (c == b'>')) [
    | inl gt ↦ rw (not_lt, gt) (redirect (is_some t.outfile) outfile)
    | inr not_gt ↦ elim (Bool-cases (is_quote c)) [
      | inl q ↦
          rw (not_lt, not_gt, q)
            (take_token-Progress (suc (length rest)) state t (quoted c rest) few (
              Leaves-mono (length rest) (suc (length rest)) (quoted c rest) (omega arith)
                (quoted-Leaves c rest)))
      | inr p ↦
          rw (not_lt, not_gt, p)
            (take_token-Progress (suc (length rest)) state t (some (plain (c ∷ rest))) few
              (plain-shorter c rest))
    ]
  ]
]
  where
    redirect :
        (b : Bool) (state' : ParseState)
        → Progress (suc (length rest)) (if b then failed else go rest state' t)
    redirect true state' = tt
    redirect false state' = (omega arith, few)

Progress-mono : (n m : ℕ) (r : Round) → n ≤ m → Progress n r → Progress m r
Progress-mono n m failed le h = tt
Progress-mono n m (stop state t) le h = h
Progress-mono n m (go buf state t) le h = (omega (arith, h.0), h.1)

round-Progress :
    (buf : Text) (state : ParseState) (t : Tokens)
    → length t.argv < 127
    → Progress (length buf) (round buf state t)
unfolding round
round-Progress buf state t few = at_skip (skip buf) (length-skip buf)
  where
    at_skip : (b : Text) → length b ≤ length buf → Progress (length buf) (round_at b state t)
    at_skip [] le = omega arith
    at_skip (c ∷ rest) le =
        Progress-mono (suc (length rest)) (length buf) (at_char c rest state t) le
          (at_char-Progress c rest state t few)

-- With a round for each character and one more, the loop ends.
pub rounds-Progress :
    (fuel : ℕ) (buf : Text) (state : ParseState) (t : Tokens)
    → length t.argv < 127
    → length buf < fuel
    → (r : Round) × (rounds fuel buf state t ≡ some r) × Progress 0 r
unfolding rounds
rounds-Progress zero buf state t few enough = absurd (omega arith)
rounds-Progress (suc fuel) buf state t few enough =
    after (round buf state t) (round-Progress buf state t few)
      (λ buf' state' t' few' less. rounds-Progress fuel buf' state' t' few' less)
  where
    after :
        (r : Round)
        → Progress (length buf) r
        → ((buf' : Text) (state' : ParseState) (t' : Tokens)
            → length t'.argv < 127
            → length buf' < fuel
            → (r' : Round) × (rounds fuel buf' state' t' ≡ some r') × Progress 0 r')
        → (r' : Round) × (continue_round (rounds fuel) r ≡ some r') × Progress 0 r'
    after failed h ih = (failed, refl, tt)
    after (stop state' t') h ih = (stop state' t', refl, h)
    after (go buf' state' t') h ih = ih buf' state' t' h.1 (omega (arith, h.0))

-- What `parseline` answers when the loop has ended: between 1 and 127 arguments were read, the last of
-- which is not kept if it begins with `&`.
abbrev pub WithinArgs : Parsed → Type 0
WithinArgs (parsed background b t) =
    (1 ≤ length t.argv + (if background then 1 else 0))
    × (length t.argv + (if background then 1 else 0) ≤ 127)
WithinArgs empty = Unit {0}
WithinArgs error = Unit {0}

length-split_amp :
    (a : Text) (rest : List Text)
    → length (split_amp a rest).1 + (if (split_amp a rest).0 then 1 else 0) ≡ suc (length rest)
unfolding split_amp
length-split_amp a [] = ground arith
length-split_amp a (b ∷ rest) = omega (arith, length-split_amp b rest)

by_args-WithinArgs :
    (t : Tokens) (args : List Text) → length args ≤ 127 → WithinArgs (by_args t args)
unfolding finish
by_args-WithinArgs t [] h = tt
by_args-WithinArgs t (name ∷ rest) h =
    (omega (arith, length-split_amp name rest), omega (arith, length-split_amp name rest))

after_loop-WithinArgs : (r : Round) → Progress 0 r → WithinArgs (after_loop r)
after_loop-WithinArgs failed h = tt
after_loop-WithinArgs (go buf state t) h = tt
after_loop-WithinArgs (stop infile t) h = tt
after_loop-WithinArgs (stop outfile t) h = tt
after_loop-WithinArgs (stop normal t) h = by_args-WithinArgs t t.argv h

-- On every text parseline returns: its loop ends within a round for each character of the buffer and
-- one more. It never reads more than 127 arguments, so the null pointer behind the last one is
-- written within the array of 128; and an answer with tokens has read at least one argument.
pub parseline_lem :
    (cmdline : Option Text) → (p : Parsed) × (parseline cmdline ≡ some p) × WithinArgs p
unfolding parseline
parseline_lem none = (empty, refl, tt)
parseline_lem (some cmdline) =
    let (r, e, h) =
      rounds-Progress (length (buffer cmdline) + 1) (buffer cmdline) normal no_tokens (omega arith)
        (omega arith) in
    (after_loop r, rw e, after_loop-WithinArgs r h)
