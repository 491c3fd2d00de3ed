-- ===== src/Malloc/Serve.antt =====
-- malloc of malloclab-s20-bhxxzp/mm.c when a free block fits.
use cmu.Common.{
  ℕ, ◌+◌, ◌-◌, ◌^◌, ◌<◌, ◌≤◌, ◌≡◌, refl, ◌≢◌, ◌∙◌, sym, ap, subst, ◌⊎◌, inl, inr, Bool, true, false,
  some, List, [], ◌∷◌, arith, ◌==◌, Bool-cases, eq_of_==, ne_of_==, ==-false, length,
}
use cmu.Malloc.Word.{adjusted, get_index, round_up, dsize}
use cmu.Malloc.Heap.{Heap, get_size, get_alloc, next_of}
use cmu.Malloc.SegList.{index_of, room, find_fit}
use cmu.Malloc.Alloc.{malloc, obtain, place, split_block}
use cmu.Malloc.Fit.{contains, fits, Linked, HasLists, Answer, find_fit_lem}
use cmu.Malloc.Sizes.{adjusted_lem}
use cmu.Malloc.Lists.{Apart, IsLists, Chain, both_of, size-header, index-lt}
use cmu.Malloc.Quiet.{Outside}
use cmu.Malloc.Delete.Lists.{dropped}
use cmu.Malloc.Delete.Without.{contains-remove}
use cmu.Malloc.Insert.Lists.{pushed-cases}
use cmu.Malloc.Split.Listed.{with_spare}
use cmu.Malloc.Split.Taken.{IsTaken, split_block_lem}

-- The free lists between two calls: well formed, with an allocated block, or the end of the heap, behind
-- each free block, and all within the addresses of 64 bits.
pub record IsCoalesced (h : Heap) (lists : ℕ → List ℕ) : Type 0 where
  pub listed : IsLists h lists
  pub gaps :
      (i j a b : ℕ)
      → i < 14
      → j < 14
      → contains (lists i) a ≡ true
      → contains (lists j) b ≡ true
      → Outside h b (a + get_size h a)
  pub inside : (i a : ℕ) → i < 14 → contains (lists i) a ≡ true → a + get_size h a < 2 ^ 64

Chain-Linked :
    (h : Heap) (both : Bool) (prev p : ℕ) (xs : List ℕ) → Chain h both prev p xs → Linked h p xs
Chain-Linked h both prev p [] c = c
Chain-Linked h both prev p (a ∷ xs) c = (c.0, c.1, Chain-Linked h both a (next_of h a) xs c.3)

IsLists-HasLists :
    (h : Heap) (lists : ℕ → List ℕ)
    → IsLists h lists
    → ((i : ℕ) → i < 14 → length (lists i) < room h)
    → HasLists h lists
IsLists-HasLists h lists l short = record {
  linked = λ i lt. Chain-Linked h (both_of i) 0 (h.seg_list i) (lists i) (l.chain i lt);
  short = short;
  words = l.words;
}

-- What find_fit answers, if it is not the null pointer, is a listed block that fits.
Answer-fits :
    (h : Heap) (asize i r : ℕ) (lists : ℕ → List ℕ)
    → Answer h asize lists i r
    → r ≢ 0
    → (k : ℕ) × (k < 14) × (contains (lists k) r ≡ true) × (fits h asize r ≡ true)
Answer-fits h asize i r lists (Answer.nothing nf) ne = absurd (ne refl)
Answer-fits h asize i r lists (Answer.best_of k block lo hi m g least nf) ne = (k, hi, m, g)

malloc_run :
    (h g : Heap) (size : ℕ)
    → h.heap_start ≢ 0
    → size ≢ 0
    → find_fit h (adjusted size) ≢ 0
    → split_block (find_fit h (adjusted size)) (adjusted size) h ≡ some g
    → malloc size h ≡ some (find_fit h (adjusted size) + 8, g)
unfolding malloc obtain place
malloc_run h g size started ne found run =
    let b = find_fit h (adjusted size) in
    let e1 = ==-false h.heap_start 0 started in
    let e2 = ==-false size 0 ne in let e3 = ==-false b 0 found in rw (e1, e2, e3, e3, run) refl

module _ (h g : Heap) (lists : ℕ → List ℕ) (b asize : ℕ) (c : IsCoalesced h lists)
    (m : contains (lists (index_of h b)) b ≡ true) (t : IsTaken h g lists b asize)
    (fit : asize ≤ get_size h b) where
  abbrev after : ℕ → List ℕ
  after = with_spare h (dropped lists (index_of h b) b) b asize

  -- A block that is still listed, or the part that was not taken.
  dropped-old :
      (j a : ℕ)
      → j < 14
      → contains (dropped lists (index_of h b) b j) a ≡ true
      → (contains (lists j) a ≡ true) × (a ≢ b)
  dropped-old j a lt ma = elim (Bool-cases (index_of h b == j)) [
    | inl here ↦
        let e = eq_of_== (index_of h b) j here in
        let r =
          contains-remove (lists (index_of h b)) a b (c.listed.once (index_of h b) (index-lt h b))
            (rw here at ma) in
        (subst (λ n. contains (lists n) a ≡ true) e r.0, r.1)
    | inr there ↦
        let ma' : contains (lists j) a ≡ true = rw there at ma in
        (
          ma',
          λ e.
              let k = c.listed.block j b lt (subst (λ n. contains (lists j) n ≡ true) e ma') in
              absurd (ne_of_== (index_of h b) j there k.index),
        )
  ]

  after-cases :
      (j a : ℕ)
      → j < 14
      → contains (after j) a ≡ true
      → (a ≡ b + asize) × (asize ≢ get_size h b) ⊎ ((contains (lists j) a ≡ true) × (a ≢ b))
  after-cases j a lt ma = elim (Bool-cases (get_size h b == asize)) [
    | inl same ↦ inr (dropped-old j a lt (rw same at ma))
    | inr other ↦
        let rest = dropped lists (index_of h b) b in
        elim (pushed-cases rest (get_index (round_up (get_size h b - asize) dsize)) (b + asize) j a
          (rw other at ma)) [
            | inl (e, e') ↦ inl (e, λ z. ne_of_== (get_size h b) asize other (sym z))
            | inr old ↦ inr (dropped-old j a lt old)
          ]
  ]

  old_size : (j a : ℕ) → j < 14 → contains (lists j) a ≡ true → a ≢ b → get_size g a ≡ get_size h a
  old_size j a lt ma ne = size-header h g a (t.headers j a lt ma ne)

  new_size : (a : ℕ) → a ≡ b + asize → asize ≢ get_size h b → get_size g a ≡ get_size h b - asize
  new_size a e ne = ap (get_size g) e ∙ t.spare_size ne

  after-gaps :
      (i j a d : ℕ)
      → i < 14
      → j < 14
      → contains (after i) a ≡ true
      → contains (after j) d ≡ true
      → Outside g d (a + get_size g a)
  after-gaps i j a d lt lt' ma md = elim (after-cases i a lt ma) [
    | inl (e, z) ↦ elim (after-cases j d lt' md) [
      | inl (e', z') ↦ inr (omega (arith, new_size a e z, new_size d e' z'))
      | inr (md', ne') ↦ elim (c.gaps (index_of h b) j b d (index-lt h b) lt' m md') [
        | inl le ↦ inl (omega (arith, new_size a e z))
        | inr le ↦ inr (omega (arith, new_size a e z, old_size j d lt' md' ne'))
      ]
    ]
    | inr (ma', ne) ↦ elim (after-cases j d lt' md) [
      | inl (e', z') ↦ elim (c.gaps i (index_of h b) a b lt (index-lt h b) ma' m) [
        | inl le ↦ inl (omega (arith, old_size i a lt ma' ne))
        | inr le ↦ inr (omega (arith, old_size i a lt ma' ne, new_size d e' z'))
      ]
      | inr (md', ne') ↦ elim (c.gaps i j a d lt lt' ma' md') [
        | inl le ↦ inl (omega (arith, old_size i a lt ma' ne))
        | inr le ↦ inr (omega (arith, old_size i a lt ma' ne, old_size j d lt' md' ne'))
      ]
    ]
  ]

  after-Apart : (j a : ℕ) → j < 14 → contains (after j) a ≡ true → Apart g b a
  after-Apart j a lt ma = elim (after-cases j a lt ma) [
    | inl (e, z) ↦ inl (omega (arith, t.size))
    | inr (ma', ne) ↦
        elim (c.listed.apart (index_of h b) j b a (index-lt h b) lt m ma' (λ e. ne (sym e))) [
          | inl le ↦ inl (omega (arith, t.size))
          | inr le ↦ inr (omega (arith, old_size j a lt ma' ne))
        ]
  ]

  IsCoalesced-after : IsCoalesced g after
  IsCoalesced-after = record {
    listed = t.listed;
    gaps = after-gaps;
    inside = λ j a lt ma. elim (after-cases j a lt ma) [
      | inl (e, z) ↦ omega (arith, new_size a e z, c.inside (index_of h b) b (index-lt h b) m)
      | inr (ma', ne) ↦ omega (arith, old_size j a lt ma' ne, c.inside j a lt ma')
    ];
  }

-- malloc of up to 2^64 - 24 bytes, when find_fit finds a block: it always succeeds, and returns the
-- payload of that block, which was listed as free and overlaps no block that is free afterwards. The
-- block is allocated now, has room for the request and its header and fewer than 24 bytes more, what
-- is left over is a free block of its own, the lists are well formed, with no two free blocks side by
-- side, and nothing outside the old free blocks and the header behind the block is written.
pub malloc_lem :
    (h : Heap) (lists : ℕ → List ℕ) (size : ℕ)
    → IsCoalesced h lists
    → ((i : ℕ) → i < 14 → length (lists i) < room h)
    → h.heap_start ≢ 0
    → size ≢ 0
    → size ≤ 2 ^ 64 - 24
    → find_fit h (adjusted size) ≢ 0
    → let b = find_fit h (adjusted size) in
      (g : Heap) × (malloc size h ≡ some (b + 8, g))
      × (contains (lists (index_of h b)) b ≡ true)
      × (get_alloc h b ≡ false)
      × (size + 8 ≤ get_size g b)
      × (get_size g b < size + 24)
      × IsTaken h g lists b (adjusted size)
      × IsCoalesced g (with_spare h (dropped lists (index_of h b) b) b (adjusted size))
      × ((j a : ℕ)
          → j < 14
          → contains (with_spare h (dropped lists (index_of h b) b) b (adjusted size) j) a ≡ true
          → Apart g b a)
malloc_lem h lists size c short started ne small found =
    let asize = adjusted size in
    let b = find_fit h asize in
    let r =
      Answer-fits h asize (get_index asize) b lists
        (find_fit_lem h asize lists (IsLists-HasLists h lists c.listed short)) found in
    let at : r.0 ≡ index_of h b = sym (c.listed.block r.0 b r.1 r.2).index in
    let m : contains (lists (index_of h b)) b ≡ true =
      subst (λ n. contains (lists n) b ≡ true) at r.2 in
    let fit : asize ≤ get_size h b = ground (arith, r.3) in
    let free : get_alloc h b ≡ false = ground (arith, r.3) in
    let a = adjusted_lem size small in
    let (g, run, t) =
      split_block_lem h lists b asize c.listed m (short (index_of h b) (index-lt h b))
        (λ j d lt md. c.gaps (index_of h b) j b d (index-lt h b) lt m md) a.2 a.3 fit
        (c.inside (index_of h b) b (index-lt h b) m) in
    (
      g,
      malloc_run h g size started ne found run,
      m,
      free,
      omega (arith, t.size, a.0),
      omega (arith, t.size, a.1),
      t,
      IsCoalesced-after h g lists b asize c m t fit,
      after-Apart h g lists b asize c m t fit,
    )
