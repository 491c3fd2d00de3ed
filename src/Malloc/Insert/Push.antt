-- ===== src/Malloc/Insert/Push.antt =====
-- A list of blocks of malloclab-s20-bhxxzp/mm.c whose first block gets another block before it.
use cmu.Common.{ℕ, ◌+◌, ◌≡◌, ◌≢◌, ◌∙◌, sym, subst, true, false, List, [], ◌∷◌, arith}
use cmu.Malloc.Heap.{Heap, next_of, prev_of}
use cmu.Malloc.Fit.{contains}
use cmu.Malloc.Lists.{once, Chain, both_of, Same, Chain-Same}

-- A chain whose first block gets another block before it.
pub Chain-push :
    (h g : Heap) (i prev b p : ℕ) (xs : List ℕ)
    → Chain h (both_of i) prev p xs
    → once xs ≡ true
    → (p ≢ 0 → g.mem (p + 8) ≡ h.mem (p + 8))
    → (both_of i ≡ true → p ≢ 0 → g.mem (p + 16) ≡ b)
    → ((a : ℕ) → contains xs a ≡ true → a ≢ p → Same h g i a)
    → Chain g (both_of i) b p xs
unfolding next_of prev_of
Chain-push h g i prev b p [] c o next back same = c
Chain-push h g i prev b p (a ∷ xs) c o next back same =
    let fresh : contains xs a ≡ false = ground arith in
    let p_ne : p ≢ 0 = λ e. c.1 (sym c.0 ∙ e) in
    let at : g.mem (a + 8) ≡ h.mem (a + 8) =
      subst (λ n. g.mem (n + 8) ≡ h.mem (n + 8)) c.0 (next p_ne) in
    let to : both_of i ≡ true → g.mem (a + 16) ≡ b =
      λ both. subst (λ n. g.mem (n + 16) ≡ b) c.0 (back both p_ne) in
    (
      c.0,
      c.1,
      to,
      subst (λ n. Chain g (both_of i) a n xs) (sym at)
          (Chain-Same h g i a (h.mem (a + 8)) xs c.3 (λ d m. same d (ground arith) (λ e.
            let e' : d ≡ a = e ∙ c.0 in
            let m' : contains xs a ≡ true = subst (λ n. contains xs n ≡ true) e' m in cc))),
    )
