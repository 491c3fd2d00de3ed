-- ===== src/Queue/Insert.antt =====
-- q_insert_head and q_insert_tail of cprogramminglab-handout/queue.c.
use cmu.Common.{
  Bool, ne_of_==, eq_of_==, ap, ℕ, suc, ◌≡◌, refl, ◌≢◌, ◌∙◌, sym, ◌⊎◌, inl, inr, true, false,
  Option, none, some, List, [], ◌∷◌, ◌++◌, arith, ◌==◌, length, Bool-cases, update, update_ne,
  update_self, ==-false, if◌then◌else◌, subst,
}
use cmu.Queue.{
  Block, Text, ele, str, Memory, Queue, Run, ok, fault, out_of_fuel, set_next, load, free,
  q_insert_head, q_insert_tail,
}
use cmu.Queue.Chain.{
  first-snoc, set_next-first, at-ne-value, Cell, last_at, owns, has, Chain, IsQueue, SameOutside,
  frame, not-has_of_none, length-snoc, last_at-snoc, has-append,
}

-- The call returns, and what it returns satisfies `P`.
abbrev pub Ensures : {A : Type 0} → (A → Memory → Type 0) → Run A → Type 0
Ensures P (ok a m) = P a m
Ensures P fault = ⊥
Ensures P out_of_fuel = ⊥

pub Ensures-inv :
    {A : Type 0} (P : A → Memory → Type 0) (r : Run A)
    → Ensures P r
    → (a : A) × (m : Memory) × (r ≡ ok a m) × P a m
Ensures-inv P (ok a m) h = (a, m, refl, h)
Ensures-inv P fault h = absurd h
Ensures-inv P out_of_fuel h = absurd h

-- The two blocks that `malloc` gives are new: not null, not allocated, and not the same.
pub record IsFresh (m : Memory) (c : Cell) : Type 0 where
  pub at : c.at ≢ 0
  pub value : c.value ≢ 0
  pub at_free : m c.at ≡ none
  pub value_free : m c.value ≡ none
  pub apart : c.value ≢ c.at

-- What the queue is after a call.
abbrev pub Holds : List Cell → Memory → Option Queue → Type 0
Holds cs m none = ⊥
Holds cs m (some q) = IsQueue m q cs

-- A chain does not own the new blocks.
not-owned :
    (m : Memory) (stop : ℕ) (cs : List Cell) (c : Cell)
    → Chain m stop cs
    → IsFresh m c
    → (a : ℕ) → has a cs ≡ true
    → owns c a ≡ false
not-owned m stop cs c ch f a h = ground (
  arith,
  not-has_of_none m stop c.at cs ch f.at_free,
  not-has_of_none m stop c.value cs ch f.value_free,
)

module _ (m : Memory) (cs : List Cell) (c : Cell) (f : IsFresh m c) (n : ℕ) where
  abbrev pub written : Memory
  written = update (update m c.value (some (str c.text))) c.at (some (ele c.value n))

  pub written-other : (a : ℕ) → owns c a ≡ false → written a ≡ m a
  written-other a h = ground arith

  pub written-Chain : (stop : ℕ) → Chain m stop cs → Chain written stop cs
  written-Chain stop ch =
      frame m stop written cs ch λ a h. written-other a (not-owned m stop cs c ch f a h)

  pub written-value : written c.value ≡ some (str c.text)
  written-value = ground (arith, f.apart)

-- With two new blocks q_insert_head returns true and puts the string in front: the queue holds it
-- and then what it held, the tail is right also if it was empty, and no other memory changes.
pub q_insert_head_lem :
    (m : Memory) (q : Queue) (cs : List Cell) (c : Cell)
    → IsQueue m q cs
    → IsFresh m c
    → Ensures
        (λ (done, q') g. (done ≡ true) × Holds (c ∷ cs) g q' × SameOutside (c ∷ []) m g)
        (q_insert_head c.at c.value (some q) c.text m)
unfolding q_insert_head
q_insert_head_lem m q cs c is f =
    rw (==-false c.at 0 f.at, ==-false c.value 0 f.value)
      (
        refl,
        record {
          head = refl;
          tail = λ ne. tail_lem cs is.size is.tail;
          size = omega (arith, is.size);
          chain = (
            f.at,
            f.value,
            ground (arith, is.head),
            written-value m cs c f q.head,
            not-has_of_none m 0 c.at cs is.chain f.at_free,
            not-has_of_none m 0 c.value cs is.chain f.value_free,
            written-Chain m cs c f q.head 0 is.chain,
          );
        },
        λ a h. written-other m cs c f q.head a (ground arith),
      )
  where
    tail_lem :
        (ds : List Cell)
        → q.size ≡ length ds
        → (ds ≢ [] → q.tail ≡ last_at ds 0)
        → (if q.size == 0 then c.at else q.tail) ≡ last_at ds c.at
    tail_lem [] e t = rw e
    tail_lem (d ∷ ds) e t = rw (e, ==-false (suc (length ds)) 0 (omega arith)) (t (λ p. cc))

free-block :
    (m : Memory) (p : ℕ) (b : Block)
    → (p == 0) ≡ false
    → m p ≡ some b
    → free p m ≡ ok tt (update m p none)
unfolding free
free-block m p b nz e = rw (nz, e) refl

-- The call has answered false, and every block of memory is as it was in `m`.
abbrev pub Refused : Memory → Option Queue → Bool × Option Queue → Memory → Type 0
Refused m q (done, q') g = (done ≡ false) × (q' ≡ q) × ((a : ℕ) → g a ≡ m a)

-- At a null queue, and if either call of malloc fails (the first one gives the null pointer or a new
-- block), q_insert_head and q_insert_tail return false, the queue is as it was, and so is the memory,
-- block for block: a new element is not left behind without a string.
pub q_insert_fails :
    (m : Memory) (q : Option Queue) (new value : ℕ) (s : Text)
    → (q ≡ none) ⊎ ((new ≡ 0) ⊎ (value ≡ 0))
    → (new ≢ 0 → m new ≡ none)
    → Ensures (Refused m q) (q_insert_head new value q s m)
      × Ensures (Refused m q) (q_insert_tail new value q s m)
unfolding q_insert_head q_insert_tail free
q_insert_fails m none new value s h free_new = ((refl, refl, λ a. refl), (refl, refl, λ a. refl))
q_insert_fails m (some q) new value s (inl e) free_new = absurd (cc)
q_insert_fails m (some q) new value s (inr (inl e)) free_new =
    rw e ((refl, refl, λ a. refl), (refl, refl, λ a. refl))
q_insert_fails m (some q) new value s (inr (inr e)) free_new = elim (Bool-cases (new == 0)) [
  | inl z ↦ rw (eq_of_== new 0 z) ((refl, refl, λ a. refl), (refl, refl, λ a. refl))
  | inr nz ↦
      let freed =
        free-block (update m new (some (ele 0 0))) new (ele 0 0) nz
          (update_self m new (some (ele 0 0))) in
      rw (nz, e, freed) ((refl, refl, back nz), (refl, refl, back nz))
]
  where
    back : (new == 0) ≡ false → (a : ℕ) → update (update m new (some (ele 0 0))) new none a ≡ m a
    back nz a = ground (arith, free_new (ne_of_== new 0 nz))

-- The effect of `tail->next = n` on a chain whose last element is the tail.
record Relinked (m : Memory) (d : Cell) (ds : List Cell) (n : ℕ) : Type 0 where
  memory : Memory
  runs : set_next (last_at ds d.at) n m ≡ ok tt memory
  chain : Chain memory n (d ∷ ds)
  others : SameOutside (d ∷ ds) m memory

relink :
    (m : Memory) (d : Cell) (ds : List Cell) (stop n : ℕ)
    → Chain m stop (d ∷ ds)
    → Relinked m d ds n
relink m d [] stop n ch = record {
  memory = update m d.at (some (ele d.value n));
  runs = set_next-first m stop d [] ch n;
  chain = (
    ch.0,
    ch.1,
    update_self m d.at (some (ele d.value n)),
    update_ne m d.at d.value _ (at-ne-value m stop d [] ch) ∙ ch.3,
    refl,
    refl,
    tt,
  );
  others = λ a h. ground arith;
}
relink m d (e ∷ es) stop n ch =
    let r = relink m e es stop n ch.6 in
    record {
      memory = r.memory;
      runs = r.runs;
      chain = (
        ch.0,
        ch.1,
        r.others d.at ch.4 ∙ ch.2,
        r.others d.value ch.5 ∙ ch.3,
        ch.4,
        ch.5,
        r.chain,
      );
      others = λ a h. r.others a (ground arith);
    }

-- A chain that ends at a new last element is one chain with it.
pub Chain-snoc :
    (g : Memory) (cs : List Cell) (c : Cell)
    → Chain g c.at cs
    → Chain g 0 (c ∷ [])
    → has c.at cs ≡ false
    → has c.value cs ≡ false
    → Chain g 0 (cs ++ c ∷ [])
Chain-snoc g [] c ch last o o' = last
Chain-snoc g (d ∷ cs) c ch last o o' = (
  ch.0,
  ch.1,
  ch.2 ∙ ap (λ n. some (ele d.value n)) (sym (first-snoc cs c)),
  ch.3,
  ground (arith, has-append d.at cs (c ∷ [])),
  ground (arith, has-append d.value cs (c ∷ [])),
  Chain-snoc g cs c ch.6 last (ground arith) (ground arith),
)

outside-snoc :
    (a : ℕ) (cs : List Cell) (c : Cell)
    → has a (cs ++ c ∷ []) ≡ false
    → (has a cs ≡ false) × (owns c a ≡ false)
outside-snoc a [] c h = (refl, ground arith)
outside-snoc a (d ∷ cs) c h =
    let none_of_d : owns d a ≡ false = ground arith in
    let (o, o') = outside-snoc a cs c (ground arith) in (rw (none_of_d, o), o')

-- With two new blocks and a queue that holds at least one string, q_insert_tail returns true and puts
-- the string behind the others; no memory outside the old elements and the new blocks changes.
pub q_insert_tail_lem :
    (m : Memory) (q : Queue) (d : Cell) (ds : List Cell) (c : Cell)
    → IsQueue m q (d ∷ ds)
    → IsFresh m c
    → Ensures
        (λ (done, q') g.
          (done ≡ true) × Holds (d ∷ ds ++ c ∷ []) g q' × SameOutside (d ∷ ds ++ c ∷ []) m g)
        (q_insert_tail c.at c.value (some q) c.text m)
unfolding q_insert_tail
q_insert_tail_lem m q d ds c is f =
    let w = written m (d ∷ ds) c f 0 in
    let out = not-has_of_none m 0 c.at (d ∷ ds) is.chain f.at_free in
    let out' = not-has_of_none m 0 c.value (d ∷ ds) is.chain f.value_free in
    let r = relink w d ds 0 c.at (written-Chain m (d ∷ ds) c f 0 0 is.chain) in
    let tail : q.tail ≡ last_at ds d.at = is.tail (λ p. cc) in
    let runs = subst (λ p. set_next p c.at w ≡ ok tt r.memory) (sym tail) r.runs in
    let size : (q.size == 0) ≡ false = rw is.size (==-false (suc (length ds)) 0 (omega arith)) in
    rw (==-false c.at 0 f.at, ==-false c.value 0 f.value, runs, size)
      (
        refl,
        record {
          head = is.head;
          tail = λ ne. sym (last_at-snoc ds c d.at);
          size = omega (arith, is.size, length-snoc ds c);
          chain =
              Chain-snoc r.memory (d ∷ ds) c r.chain
                (
                  f.at,
                  f.value,
                  r.others c.at out
                      ∙ update_self (update m c.value (some (str c.text))) c.at
                          (some (ele c.value 0)),
                  r.others c.value out' ∙ written-value m (d ∷ ds) c f 0,
                  refl,
                  refl,
                  tt,
                )
                out out';
        },
        λ a h.
            let (o, o') = outside-snoc a (d ∷ ds) c h in
            r.others a o ∙ written-other m (d ∷ ds) c f 0 a o',
      )

-- q_insert_tail writes through the tail pointer before it looks at the size. Where that pointer leads
-- to no element, the call faults, though malloc gave both blocks.
pub q_insert_tail-dangling :
    (m : Memory) (q : Queue) (c : Cell)
    → c.at ≢ 0
    → c.value ≢ 0
    → m q.tail ≡ none
    → q.tail ≢ c.at
    → q.tail ≢ c.value
    → q_insert_tail c.at c.value (some q) c.text m ≡ fault
unfolding q_insert_tail set_next load
q_insert_tail-dangling m q c ne ne' e out out' = rw (
  ==-false c.at 0 ne,
  ==-false c.value 0 ne',
  ==-false c.at q.tail (λ p. out (sym p)),
  ==-false c.value q.tail (λ p. out' (sym p)),
  e,
)
