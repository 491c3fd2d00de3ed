-- ===== src/Queue/Free.antt =====
-- q_free of cprogramminglab-handout/queue.c.
use cmu.Common.{
  ℕ, zero, suc, ◌+◌, ◌<◌, ◌≡◌, refl, none, some, List, [], ◌∷◌, arith, length, ==-false,
  if◌then◌else◌,
}
use cmu.Queue.{Memory, Queue, Run, ok, fault, out_of_fuel, free_loop, q_free}
use cmu.Queue.Chain.{Cell, first, has, Chain, IsQueue, load-first, free-first}
use cmu.Queue.Insert.{Ensures}
use cmu.Queue.Remove.{without, without-Chain}

-- Of the memory `m` exactly the blocks of `cs` have been given back.
abbrev pub Released : List Cell → Memory → Memory → Type 0
Released cs m g = (a : ℕ) → g a ≡ (if has a cs then none else m a)

free_loop-Released :
    (k : ℕ) (m : Memory) (cs : List Cell)
    → Chain m 0 cs
    → length cs < k
    → Ensures (λ _ g. Released cs m g) (free_loop k (first cs 0) m)
unfolding free_loop
free_loop-Released zero m cs ch fuel = absurd (omega arith)
free_loop-Released (suc k) m [] ch fuel = λ a. refl
free_loop-Released (suc k) m (c ∷ cs) ch fuel =
    rw
      (
        ==-false c.at 0 ch.0,
        load-first m 0 c cs ch,
        free-first m 0 c cs ch (free_loop k (first cs 0)),
      )
      (weaken (free_loop k (first cs 0) (without m c))
        (free_loop-Released k (without m c) cs (without-Chain m 0 c cs ch) (omega arith)))
  where
    weaken :
        (r : Run (Unit {0}))
        → Ensures (λ _ g. Released cs (without m c) g) r
        → Ensures (λ _ g. Released (c ∷ cs) m g) r
    weaken (ok u g) e = λ a. ground (arith, e a)
    weaken fault e = e
    weaken out_of_fuel e = e

-- q_free on a queue returns without a fault: it gives back both blocks of every element, each once,
-- and no other memory changes.
pub q_free_lem :
    (m : Memory) (q : Queue) (cs : List Cell)
    → IsQueue m q cs
    → Ensures (λ _ g. Released cs m g) (q_free (some q) m)
unfolding q_free
q_free_lem m q cs is =
    rw is.head (free_loop-Released (q.size + 1) m cs is.chain (omega (arith, is.size)))
