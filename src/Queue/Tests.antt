-- ===== src/Queue/Tests.antt =====
-- The theorems on cprogramminglab-handout/queue.c at concrete queues, and test runs.
use mathlib.Core.List.{reverse}
use cmu.Common.{◌≡◌, refl, inr, true, false, none, some, [], ◌∷◌, arith, update}
use cmu.Queue.{
  ◌>>=◌, ele, str, Memory, Queue, ok, fault, load, load_str, q_new, q_insert_head, q_insert_tail,
  q_remove_head, copy_out, free, q_reverse, set_next, q_free,
}
use cmu.Queue.Chain.{Cell, IsQueue, SameOutside}
use cmu.Queue.Insert.{
  Ensures, Holds, IsFresh, q_insert_head_lem, q_insert_tail_lem, Refused, q_insert_fails,
}
use cmu.Queue.Remove.{copied, q_remove_head_lem, q_remove_head-empty, q_insert_tail-drained}
use cmu.Queue.Reverse.{q_reverse_lem}
use cmu.Queue.Free.{Released, q_free_lem}

abbrev m0 : Memory
m0 = λ a. none

abbrev q0 : Queue
q0 = record { head = 0; tail = 0; size = 0 }

abbrev a_cell : Cell
a_cell = record { at = 10; value = 11; text = b'a' ∷ b'b' ∷ [] }

abbrev b_cell : Cell
b_cell = record { at = 20; value = 21; text = b'c' ∷ [] }

abbrev m1 : Memory
m1 = update (update m0 11 (some (str a_cell.text))) 10 (some (ele 11 0))

abbrev q1 : Queue
q1 = record { head = 10; tail = 10; size = 1 }

abbrev m2 : Memory
m2 = update (update m1 21 (some (str b_cell.text))) 20 (some (ele 21 10))

abbrev q2 : Queue
q2 = record { head = 20; tail = 10; size = 2 }

empty : IsQueue m0 q0 []
empty = record { head = refl; tail = λ ne. absurd (ne refl); size = refl; chain = tt }

a_cell-IsFresh : IsFresh m0 a_cell
a_cell-IsFresh = record {
  at = λ e. omega arith;
  value = λ e. omega arith;
  at_free = refl;
  value_free = refl;
  apart = λ e. omega arith;
}

one-IsQueue : IsQueue m1 q1 (a_cell ∷ [])
one-IsQueue = record {
  head = refl;
  tail = λ ne. refl;
  size = refl;
  chain = (λ e. omega arith, λ e. omega arith, refl, refl, refl, refl, tt);
}

b_cell-IsFresh : IsFresh m1 b_cell
b_cell-IsFresh = record {
  at = λ e. omega arith;
  value = λ e. omega arith;
  at_free = refl;
  value_free = refl;
  apart = λ e. omega arith;
}

two : IsQueue m2 q2 (b_cell ∷ a_cell ∷ [])
two = record {
  head = refl;
  tail = λ ne. refl;
  size = refl;
  chain = (
    λ e. omega arith,
    λ e. omega arith,
    refl,
    refl,
    refl,
    refl,
    (λ e. omega arith, λ e. omega arith, refl, refl, refl, refl, tt),
  );
}

-- A string goes in at the front of a new queue and comes out again.
insert_remove :
    (q_insert_head 10 11 (q_new true) a_cell.text >>= λ r. q_remove_head true 8 r.1) m0
    ≡ ok
        (true, some a_cell.text, some (record { head = 0; tail = 10; size = 0 }))
        (update (update m1 11 none) 10 none)
unfolding q_new q_insert_head q_remove_head load copy_out load_str free
insert_remove = refl

-- The first insertion at the tail of a new queue writes through the null pointer.
first_tail_insertion : q_insert_tail 10 11 (q_new true) a_cell.text m0 ≡ fault
unfolding q_new q_insert_tail set_next load
first_tail_insertion = refl

q_insert_head_lem_example :
    Ensures
      (λ (done, q') g. (done ≡ true) × Holds (a_cell ∷ []) g q' × SameOutside (a_cell ∷ []) m0 g)
      (q_insert_head 10 11 (some q0) a_cell.text m0)
q_insert_head_lem_example = q_insert_head_lem m0 q0 [] a_cell empty a_cell-IsFresh

q_insert_tail_lem_example :
    Ensures
      (λ (done, q') g.
        (done ≡ true) × Holds (a_cell ∷ b_cell ∷ []) g q' × SameOutside (a_cell ∷ b_cell ∷ []) m1 g)
      (q_insert_tail 20 21 (some q1) b_cell.text m1)
q_insert_tail_lem_example = q_insert_tail_lem m1 q1 a_cell [] b_cell one-IsQueue b_cell-IsFresh

q_insert_fails_example :
    Ensures (Refused m1 (some q1)) (q_insert_head 20 0 (some q1) (b'x' ∷ []) m1)
    × Ensures (Refused m1 (some q1)) (q_insert_tail 20 0 (some q1) (b'x' ∷ []) m1)
q_insert_fails_example = q_insert_fails m1 (some q1) 20 0 (b'x' ∷ []) (inr (inr refl)) (λ ne. refl)

q_remove_head_lem_example :
    Ensures
      (λ (done, text, q') g.
        (done ≡ true)
        × (text ≡ copied true 2 b_cell.text)
        × Holds (a_cell ∷ []) g q'
        × (g 20 ≡ none)
        × (g 21 ≡ none)
        × SameOutside (b_cell ∷ []) m2 g)
      (q_remove_head true 2 (some q2) m2)
q_remove_head_lem_example =
    q_remove_head_lem m2 q2 b_cell (a_cell ∷ []) true 2 two (λ e. omega arith)

q_remove_head-empty_example : q_remove_head true 8 (some q0) m0 ≡ ok (false, none, some q0) m0
q_remove_head-empty_example = q_remove_head-empty m0 q0 true 8 empty

q_insert_tail-drained_example :
    (q_remove_head false 0 (some q1) >>= λ r. q_insert_tail 20 21 r.2 b_cell.text) m1 ≡ fault
q_insert_tail-drained_example =
    q_insert_tail-drained m1 q1 a_cell b_cell false 0 one-IsQueue (λ e. cc) (λ e. omega arith)
      (λ e. omega arith) (λ e. omega arith) (λ e. omega arith)

q_reverse_lem_example :
    Ensures
      (λ q' g.
        Holds (reverse (b_cell ∷ a_cell ∷ [])) g q' × SameOutside (b_cell ∷ a_cell ∷ []) m2 g)
      (q_reverse (some q2) m2)
q_reverse_lem_example = q_reverse_lem m2 q2 (b_cell ∷ a_cell ∷ []) two

q_free_lem_example : Ensures (λ _ g. Released (b_cell ∷ a_cell ∷ []) m2 g) (q_free (some q2) m2)
q_free_lem_example = q_free_lem m2 q2 (b_cell ∷ a_cell ∷ []) two
