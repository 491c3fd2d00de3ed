-- ===== src/Malloc/Quiet.antt =====
-- Writes outside the listed blocks of malloclab-s20-bhxxzp/mm.c keep the lists.
use cmu.Common.{
  ℕ, ◌+◌, ◌^◌, ◌<◌, ◌≤◌, ◌≡◌, refl, sym, subst, ◌⊎◌, inl, inr, true, List, arith, ◌==◌, Bool-cases,
  eq_of_==,
}
use cmu.Malloc.Heap.{Heap, get_size, store}
use cmu.Malloc.Fit.{contains}
use cmu.Malloc.Lists.{
  Chain, IsLists, IsUnlisted, Same, Chain-Same, both_of, size-wide, size-header, IsBlock-header,
  Apart-header,
}

-- Address `x` lies outside the block `a`.
abbrev pub Outside : Heap → ℕ → ℕ → Type 0
Outside h a x = (x < a) ⊎ (a + get_size h a ≤ x)

-- `g` has the listed blocks of `h`, word for word.
pub record Quiet (h g : Heap) (lists : ℕ → List ℕ) : Type 0 where
  pub heads : (j : ℕ) → g.seg_list j ≡ h.seg_list j
  pub inside :
      (x : ℕ)
      → (g.mem x ≡ h.mem x) ⊎ ((j a : ℕ) → j < 14 → contains (lists j) a ≡ true → Outside h a x)
  pub words : (x : ℕ) → g.mem x < 2 ^ 64

pub Quiet-refl : {h : Heap} {lists : ℕ → List ℕ} → IsLists h lists → Quiet h h lists
Quiet-refl l = record { heads = λ j. refl; inside = λ x. inl refl; words = l.words }

pub Quiet-store :
    (h g : Heap) (lists : ℕ → List ℕ) (x v : ℕ)
    → Quiet h g lists
    → v < 2 ^ 64
    → ((j a : ℕ) → j < 14 → contains (lists j) a ≡ true → Outside h a x)
    → Quiet h (store x v g) lists
unfolding store
Quiet-store h g lists x v q small out = record {
  heads = q.heads;
  inside = λ y. elim (Bool-cases (x == y)) [
    | inl at ↦ inr (λ j a lt m. subst (Outside h a) (eq_of_== x y at) (out j a lt m))
    | inr past ↦ elim (q.inside y) [ inl e ↦ inl (rw past e) | inr o ↦ inr o ]
  ];
  words = λ y. elim (Bool-cases (x == y)) [ inl at ↦ rw at small | inr past ↦ rw past (q.words y) ];
}

module _ (h g : Heap) (lists : ℕ → List ℕ) (l : IsLists h lists) (q : Quiet h g lists) where
  pub kept :
      (j a x : ℕ)
      → j < 14
      → contains (lists j) a ≡ true
      → a ≤ x
      → x < a + get_size h a
      → g.mem x ≡ h.mem x
  kept j a x lt m lo hi = elim (q.inside x) [
    | inl e ↦ e
    | inr o ↦ absurd (omega (arith, o j a lt m))
  ]

  header-kept : (j a : ℕ) → j < 14 → contains (lists j) a ≡ true → g.mem a ≡ h.mem a
  header-kept j a lt m = kept j a a lt m (omega arith) (omega (arith, (l.block j a lt m).least))

  Same-kept : (j a : ℕ) → j < 14 → contains (lists j) a ≡ true → Same h g j a
  Same-kept j a lt m =
      let k = l.block j a lt m in
      record {
        header = header-kept j a lt m;
        next = kept j a (a + 8) lt m (omega arith) (omega (arith, k.least));
        prev = λ both.
            kept j a (a + 16) lt m (omega arith)
              (omega (arith, size-wide h j a (l.words a) k both));
      }

  pub Quiet-IsLists : IsLists g lists
  Quiet-IsLists = record {
    chain = λ j lt.
        subst (λ n. Chain g (both_of j) 0 n (lists j)) (sym (q.heads j))
          (Chain-Same h g j 0 (h.seg_list j) (lists j) (l.chain j lt) (λ a m. Same-kept j a lt m));
    block = λ j a lt m. IsBlock-header h g j a (header-kept j a lt m) (l.block j a lt m);
    apart = λ j k a d lt lt' m m' ne.
        Apart-header h g a d (header-kept j a lt m) (header-kept k d lt' m')
          (l.apart j k a d lt lt' m m' ne);
    once = l.once;
    words = q.words;
    heads = λ j lt. subst (λ n. n < 2 ^ 64) (sym (q.heads j)) (l.heads j lt);
  }

  pub Quiet-IsUnlisted :
      (b : ℕ) → IsUnlisted h lists b → get_size g b ≡ get_size h b → IsUnlisted g lists b
  Quiet-IsUnlisted b u e = record {
    aligned = u.aligned;
    small = u.small;
    least = subst (λ n. 16 ≤ n) (sym e) u.least;
    apart = λ j a lt m.
        let e' = size-header h g a (header-kept j a lt m) in
        elim (u.apart j a lt m) [
          | inl le ↦ inl (omega (arith, e))
          | inr le ↦ inr (omega (arith, e'))
        ];
  }
