-- ===== src/Malloc/Delete/Bypass.antt =====
-- A list of blocks of malloclab-s20-bhxxzp/mm.c in which the links go round one block.
use cmu.Common.{
  ℕ, ◌+◌, ◌≡◌, refl, ◌≢◌, ◌∙◌, sym, subst, inl, inr, Bool, true, false, List, [], ◌∷◌, arith, ◌==◌,
  if◌then◌else◌, Bool-cases, eq_of_==, ==-false, ==-true,
}
use cmu.Malloc.Heap.{Heap, next_of, prev_of}
use cmu.Malloc.Fit.{contains}
use cmu.Malloc.Lists.{first, once, Chain, both_of, Chain-first}
use cmu.Malloc.Insert.Push.{Chain-push}
use cmu.Malloc.Delete.Without.{remove, pred, pred-in, Chain-next}

-- The block before `b`, or the start of the list, leads to the block after `b`, which leads back; the
-- other links are as before.
pub record Bypass (h g : Heap) (i b r : ℕ) (xs : List ℕ) : Type 0 where
  pub headers : (a : ℕ) → contains xs a ≡ true → g.mem a ≡ h.mem a
  pub nexts : (a : ℕ) → contains xs a ≡ true → a ≢ r → g.mem (a + 8) ≡ h.mem (a + 8)
  pub prevs :
      both_of i ≡ true
      → (a : ℕ) → contains xs a ≡ true
      → a ≢ h.mem (b + 8)
      → g.mem (a + 16) ≡ h.mem (a + 16)
  pub link : r ≢ 0 → g.mem (r + 8) ≡ h.mem (b + 8)
  pub back : both_of i ≡ true → h.mem (b + 8) ≢ 0 → g.mem (h.mem (b + 8) + 16) ≡ r

Bypass-tail :
    (h g : Heap) (i b r a : ℕ) (xs : List ℕ) → Bypass h g i b r (a ∷ xs) → Bypass h g i b r xs
Bypass-tail h g i b r a xs p = record {
  headers = λ d m. p.headers d (ground arith);
  nexts = λ d m. p.nexts d (ground arith);
  prevs = λ both d m. p.prevs both d (ground arith);
  link = p.link;
  back = p.back;
}

Chain-start : (h : Heap) (both : Bool) (q s : ℕ) (xs : List ℕ) → Chain h both q s xs → s ≡ first xs
Chain-start h both q s [] c = c
Chain-start h both q s (a ∷ xs) c = c.0

pred-past : (q c b : ℕ) (xs : List ℕ) → c ≢ b → pred q (c ∷ xs) b ≡ pred c xs b
pred-past q c b xs ne = rw (==-false c b ne) refl

-- The next link of the block before the rest of the list.
step_next :
    (h g : Heap) (i b r a : ℕ) (xs : List ℕ)
    → Chain h (both_of i) a (h.mem (a + 8)) xs
    → contains xs b ≡ true
    → contains xs a ≡ false
    → a ≢ 0
    → r ≡ pred a xs b
    → Bypass h g i b r (a ∷ xs)
    → g.mem (a + 8) ≡ (if h.mem (a + 8) == b then h.mem (b + 8) else h.mem (a + 8))
step_next h g i b r a [] c m out ne e p = absurd (cc)
step_next h g i b r a (d ∷ xs) c m out ne e p = elim (Bool-cases (d == b)) [
  | inl at ↦
      let same : r ≡ a = rw at at e in
      let hit : (h.mem (a + 8) == b) ≡ true = rw c.0 at in
      rw hit (subst (λ n. g.mem (n + 8) ≡ h.mem (b + 8)) same (p.link (λ z. ne (sym same ∙ z))))
  | inr past ↦
      let far : r ≡ pred d xs b = rw past at e in
      let miss : (h.mem (a + 8) == b) ≡ false = rw c.0 past in
      rw miss (
        p.nexts a (rw (==-true a a refl) refl) (λ same. elim (pred-in d xs b (ground arith)) [
          | inl z ↦ absurd (let w : a ≡ d = same ∙ far ∙ z in ground arith)
          | inr z ↦
              let w : contains xs a ≡ true =
                subst (λ n. contains xs n ≡ true) (sym far ∙ sym same) z in
              absurd (ground arith)
        ]))
]

pub Chain-Bypass :
    (h g : Heap) (i b r q s : ℕ) (xs : List ℕ)
    → Chain h (both_of i) q s xs
    → once xs ≡ true
    → contains xs b ≡ true
    → contains xs q ≡ false
    → r ≡ pred q xs b
    → Bypass h g i b r xs
    → Chain g (both_of i) q (if s == b then h.mem (b + 8) else s) (remove xs b)
unfolding next_of prev_of
Chain-Bypass h g i b r q s [] c o m out e p = absurd (cc)
Chain-Bypass h g i b r q s (a ∷ xs) c o m out e p = elim (Bool-cases (a == b)) [
  | inl at ↦
      let ab : a ≡ b = eq_of_== a b at in
      let same : r ≡ q = rw at at e in
      let hit : (s == b) ≡ true = rw c.0 at in
      let c3 : Chain h (both_of i) a (h.mem (b + 8)) xs =
        subst (λ n. Chain h (both_of i) a (h.mem (n + 8)) xs) ab c.3 in
      let o' : once xs ≡ true = ground arith in
      let apart = λ (d : ℕ) (md : contains xs d ≡ true) (dr : d ≡ r).
        let out' : contains xs q ≡ false = ground arith in
        let md' : contains xs q ≡ true = subst (λ n. contains xs n ≡ true) (dr ∙ same) md in
        let z : true ≡ false = sym md' ∙ out' in absurd {A = ⊥} (cc) in
      rw (at, hit)
        (Chain-push h g i a q (h.mem (b + 8)) xs c3 o'
          (λ ne.
            let md = Chain-first h (both_of i) a (h.mem (b + 8)) xs c3 ne in
            p.nexts (h.mem (b + 8)) (ground arith) (apart (h.mem (b + 8)) md))
          (λ both ne. p.back both ne ∙ same)
          (λ d md ne. record {
            header = p.headers d (ground arith);
            next = p.nexts d (ground arith) (apart d md);
            prev = λ both. p.prevs both d (ground arith) ne;
          }))
  | inr past ↦
      let miss : (s == b) ≡ false = rw c.0 past in
      let e' : r ≡ pred a xs b = rw past at e in
      let o' : once xs ≡ true = ground arith in
      let out' : contains xs a ≡ false = ground arith in
      let m' : contains xs b ≡ true = ground arith in
      rw (past, miss)
        (
          c.0,
          c.1,
          (λ both.
              p.prevs both a (rw (==-true a a refl) refl) (λ z.
                let w = Chain-next h (both_of i) a (h.mem (a + 8)) xs b c.3 m' (λ y. c.1 (z ∙ y)) in
                let w' : contains xs a ≡ true = subst (λ n. contains xs n ≡ true) (sym z) w in
                absurd (ground arith))
              ∙ c.2 both),
          subst (λ n. Chain g (both_of i) a n (remove xs b))
              (sym (step_next h g i b r a xs c.3 m' out' c.1 e' p))
              (Chain-Bypass h g i b r a (h.mem (a + 8)) xs c.3 o' m' out' e'
                (Bypass-tail h g i b r a xs p)),
        )
]
