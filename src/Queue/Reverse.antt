-- ===== src/Queue/Reverse.antt =====
-- q_reverse of cprogramminglab-handout/queue.c.
use mathlib.Core.List.{reverse, reverse_aux}
use cmu.Common.{
  ℕ, zero, suc, ◌+◌, ◌<◌, ◌≡◌, refl, ◌∙◌, sym, true, false, ◌||◌, some, List, [], ◌∷◌, ◌++◌, arith,
  leb, length, update, update_ne, update_self, ==-false, leb-false, leb-true,
}
use cmu.Queue.{
  pure, ◌>>◌, ele, Memory, Queue, Run, ok, fault, out_of_fuel, load, reverse_loop, q_reverse,
  set_next,
}
use cmu.Queue.Chain.{
  first-snoc, Cell, first, has, Chain, IsQueue, SameOutside, frame, load-first, set_next-first,
  at-ne-value, length-snoc, last_at-snoc,
}
use cmu.Queue.Insert.{Ensures-inv, Ensures, Holds, Chain-snoc}

-- No block of the first list is one of the second.
abbrev Apart : List Cell → List Cell → Type 0
Apart cs ds = (a : ℕ) → has a cs ≡ true → has a ds ≡ false

-- The turned list owns what the two lists owned.
has-reverse_aux : (a : ℕ) (xs ds : List Cell) → has a (reverse_aux xs ds) ≡ (has a xs || has a ds)
has-reverse_aux a [] ds = refl
has-reverse_aux a (x ∷ xs) ds = ground (arith, has-reverse_aux a xs (x ∷ ds))

-- The loop moves the elements that `temp` leads to in front of those that `pre` leads to, one by one,
-- and writes nowhere else.
reverse_loop-Chain :
    (k : ℕ) (m : Memory) (xs ds : List Cell) (stop : ℕ)
    → Chain m 0 xs
    → Chain m stop ds
    → Apart xs ds
    → length xs < k
    → Ensures
        (λ p g.
          (p ≡ first (reverse_aux xs ds) stop)
          × Chain g stop (reverse_aux xs ds)
          × SameOutside xs m g)
        (reverse_loop k (first ds stop) (first xs 0) m)
unfolding reverse_loop
reverse_loop-Chain zero m xs ds stop ch done apart fuel = absurd (omega arith)
reverse_loop-Chain (suc k) m [] ds stop ch done apart fuel = (refl, done, λ a h. refl)
reverse_loop-Chain (suc k) m (x ∷ xs) ds stop ch done apart fuel =
    let g = update m x.at (some (ele x.value (first ds stop))) in
    let ne = at-ne-value m 0 x xs ch in
    let out : has x.at ds ≡ false = apart x.at (ground arith) in
    let out' : has x.value ds ≡ false = apart x.value (ground arith) in
    let rest = frame m 0 g xs ch.6 (λ a h. ground (arith, ch.4)) in
    let turned : Chain g stop (x ∷ ds) = (
      ch.0,
      ch.1,
      update_self m x.at (some (ele x.value (first ds stop))),
      update_ne m x.at x.value (some (ele x.value (first ds stop))) ne ∙ ch.3,
      out,
      out',
      frame m stop g ds done (λ a h. ground (arith, out)),
    ) in
    rw (==-false x.at 0 ch.0, load-first m 0 x xs ch, set_next-first m 0 x xs ch (first ds stop))
      (weaken (reverse_loop k x.at (first xs 0) g) (
        reverse_loop-Chain k g xs (x ∷ ds) stop rest turned
          (λ a h. ground (arith, apart a, ch.4, ch.5)) (omega arith)))
  where
    g' : Memory
    g' = update m x.at (some (ele x.value (first ds stop)))

    weaken :
        (r : Run ℕ)
        → Ensures
            (λ p g.
              (p ≡ first (reverse_aux xs (x ∷ ds)) stop)
              × Chain g stop (reverse_aux xs (x ∷ ds))
              × SameOutside xs g' g)
            r
        → Ensures
            (λ p g.
              (p ≡ first (reverse_aux xs (x ∷ ds)) stop)
              × Chain g stop (reverse_aux xs (x ∷ ds))
              × SameOutside (x ∷ xs) m g)
            r
    weaken (ok p g) e = (e.0, e.1, λ a h. ground (arith, e.2 a))
    weaken fault e = e
    weaken out_of_fuel e = e

reverse_aux-append : (xs ys zs : List Cell) → reverse_aux xs (ys ++ zs) ≡ reverse_aux xs ys ++ zs
reverse_aux-append [] ys zs = refl
reverse_aux-append (x ∷ xs) ys zs = reverse_aux-append xs (x ∷ ys) zs

length-reverse_aux : (xs ys : List Cell) → length (reverse_aux xs ys) ≡ length xs + length ys
length-reverse_aux [] ys = omega arith
length-reverse_aux (x ∷ xs) ys = omega (arith, length-reverse_aux xs (x ∷ ys))

-- What the last write of q_reverse makes of the loop's result.
module _ (m : Memory) (c : Cell) (xs : List Cell) (ch : Chain m 0 (c ∷ xs)) where
  closed :
      (q : Queue) (p : ℕ) (g : Memory)
      → q.head ≡ c.at
      → q.size ≡ suc (length xs)
      → p ≡ first (reverse xs) c.at
      → Chain g c.at (reverse xs)
      → SameOutside xs m g
      → Ensures
          (λ q' g'. Holds (reverse (c ∷ xs)) g' q' × SameOutside (c ∷ xs) m g')
          ((set_next c.at 0 >> pure (some (record q { head = p; tail = c.at }))) g)
  unfolding set_next load
  closed q p g head size at_p turned same =
      let kept : g c.at ≡ some (ele c.value (first xs 0)) = same c.at ch.4 ∙ ch.2 in
      let ne = at-ne-value m 0 c xs ch in
      let g' = update g c.at (some (ele c.value 0)) in
      let out : has c.at (reverse xs) ≡ false = has-reverse_aux c.at xs [] ∙ rw ch.4 in
      let out' : has c.value (reverse xs) ≡ false = has-reverse_aux c.value xs [] ∙ rw ch.5 in
      let last : Chain g' 0 (c ∷ []) = (
        ch.0,
        ch.1,
        update_self g c.at (some (ele c.value 0)),
        update_ne g c.at c.value (some (ele c.value 0)) ne ∙ same c.value ch.5 ∙ ch.3,
        refl,
        refl,
        tt,
      ) in
      let whole =
        Chain-snoc g' (reverse xs) c
          (frame g c.at g' (reverse xs) turned (λ a h. ground (arith, out))) last out out' in
      let e = reverse_aux-append xs [] (c ∷ []) in
      rw (kept, e)
        (
          record {
            head = at_p ∙ sym (first-snoc (reverse xs) c);
            tail = λ ne. sym (last_at-snoc (reverse xs) c 0);
            size = omega (arith, length-snoc (reverse xs) c, length-reverse_aux xs []);
            chain = whole;
          },
          λ a h. ground (arith, same a),
        )

-- q_reverse on a queue returns, and the queue then holds the same elements, their blocks included, in
-- reverse order; it writes to no memory outside them. (A queue of at most one element is left alone.)
pub q_reverse_lem :
    (m : Memory) (q : Queue) (cs : List Cell)
    → IsQueue m q cs
    → Ensures (λ q' g. Holds (reverse cs) g q' × SameOutside cs m g) (q_reverse (some q) m)
unfolding q_reverse
q_reverse_lem m q [] is = rw (leb-true q.size 1 (omega (arith, is.size))) (is, λ a h. refl)
q_reverse_lem m q (c ∷ []) is = rw (leb-true q.size 1 (omega (arith, is.size))) (is, λ a h. refl)
q_reverse_lem m q (c ∷ x ∷ xs) is =
    let loop =
      reverse_loop-Chain q.size m (x ∷ xs) [] c.at is.chain.6 tt (λ a h. refl)
        (omega (arith, is.size)) in
    let big : leb q.size 1 ≡ false = leb-false q.size 1 (omega (arith, is.size)) in
    let (p, g, e, r) = Ensures-inv _ (reverse_loop q.size c.at x.at m) loop in
    rw (big, is.head, load-first m 0 c (x ∷ xs) is.chain, e)
      (closed m c (x ∷ xs) is.chain q p g is.head is.size r.0 r.1 r.2)
