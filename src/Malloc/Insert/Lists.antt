-- ===== src/Malloc/Insert/Lists.antt =====
-- insert_block of malloclab-s20-bhxxzp/mm.c on the lists that the links stand for.
use cmu.Common.{
  ℕ, ◌+◌, ◌^◌, ◌<◌, ◌≤◌, ◌≡◌, ◌≢◌, ◌∙◌, sym, ap, subst, ◌⊎◌, inl, inr, true, false, List, ◌∷◌,
  arith, ◌==◌, Bool-cases, eq_of_==, ne_of_==, update,
}
use cmu.Malloc.Heap.{Heap, get_size, next_of, prev_of}
use cmu.Malloc.SegList.{index_of, insert_block}
use cmu.Malloc.Fit.{contains}
use cmu.Malloc.Lists.{
  IsLists-first, once, Chain, Apart, IsBlock, both_of, IsLists, index-mini, Chain-Same, Apart-sym,
  IsBlock-header, Apart-header, Beyond, IsUnlisted, index-lt,
}
use cmu.Malloc.Insert.{Inserted, insert_block-Inserted}
use cmu.Malloc.Insert.Push.{Chain-push}
use cmu.Malloc.Insert.Frame.{
  front_wide, front-IsBlock, own_wide, header-listed, header-own, Same-listed,
}

-- The lists with `b` in front of list `i`.
abbrev pub pushed : (ℕ → List ℕ) → (i b : ℕ) → ℕ → List ℕ
pushed lists i b = update lists i (b ∷ lists i)

pub pushed-cases :
    (lists : ℕ → List ℕ) (i b j a : ℕ)
    → contains (pushed lists i b j) a ≡ true
    → (a ≡ b) × (j ≡ i) ⊎ (contains (lists j) a ≡ true)
pushed-cases lists i b j a m = elim (Bool-cases (i == j)) [
  | inl here ↦
      let e : i ≡ j = eq_of_== i j here in
      let m' : contains (b ∷ lists i) a ≡ true = rw here at m in
      elim (Bool-cases (a == b)) [
        | inl at ↦ inl (eq_of_== a b at, sym e)
        | inr past ↦ inr (subst (λ n. contains (lists n) a ≡ true) e (rw past at m'))
      ]
  | inr there ↦ inr (rw there at m)
]

module _ (h g : Heap) (lists : ℕ → List ℕ) (b : ℕ) (l : IsLists h lists) (u : IsUnlisted h lists b)
    (w : Inserted h g (index_of h b) b) where
  own_new : (j : ℕ) → j < 14 → contains (lists j) b ≡ false
  own_new j lt = elim (Bool-cases (contains (lists j) b)) [
    | inl m ↦ absurd (omega (arith, u.apart j b lt m, u.least))
    | inr out ↦ out
  ]

  Chain-own :
      Chain g (both_of (index_of h b)) 0 (g.seg_list (index_of h b)) (b ∷ lists (index_of h b))
  unfolding next_of prev_of
  Chain-own =
      let i = index_of h b in
      (
        w.head,
        omega (arith, u.aligned),
        w.prev,
        subst (λ n. Chain g (both_of i) b n (lists i)) (sym w.next)
            (Chain-push h g i 0 b (h.seg_list i) (lists i) (l.chain i (index-lt h b))
              (l.once i (index-lt h b))
              (λ ne.
                let m = IsLists-first l i (index-lt h b) ne in
                w.rest (h.seg_list i + 8)
                  (λ e. absurd (
                    omega (
                      arith,
                      u.apart i (h.seg_list i) (index-lt h b) m,
                      u.least,
                      (front-IsBlock h g lists b l u w ne).least,
                    )))
                  (λ both. λ e.
                    absurd (omega (arith, u.aligned, (front-IsBlock h g lists b l u w ne).aligned)))
                  (λ both ne'. λ e. absurd (omega arith)))
              w.back (λ a m d. Same-listed h g lists b l u w i a (index-lt h b) m d)),
      )

  Chain-other : (j : ℕ) → j < 14 → index_of h b ≢ j → Chain g (both_of j) 0 (g.seg_list j) (lists j)
  Chain-other j lt ne =
      subst (λ n. Chain g (both_of j) 0 n (lists j)) (sym (w.others j ne))
        (Chain-Same h g j 0 (h.seg_list j) (lists j) (l.chain j lt) (λ a m.
          Same-listed h g lists b l u w j a lt m (λ e.
            let k = l.block j a lt m in
            let nz : h.seg_list (index_of h b) ≢ 0 = λ z. absurd (omega (arith, k.aligned)) in
            ne (
              sym (front-IsBlock h g lists b l u w nz).index ∙ ap (index_of h) (sym e) ∙ k.index))))

  Chain-pushed :
      (j : ℕ) → j < 14 → Chain g (both_of j) 0 (g.seg_list j) (pushed lists (index_of h b) b j)
  Chain-pushed j lt = elim (Bool-cases (index_of h b == j)) [
    | inl here ↦ rw here (
        subst (λ n. Chain g (both_of n) 0 (g.seg_list n) (b ∷ lists (index_of h b)))
          (eq_of_== (index_of h b) j here) Chain-own)
    | inr there ↦ rw there (Chain-other j lt (ne_of_== (index_of h b) j there))
  ]

  header-pushed :
      (j a : ℕ) → j < 14 → contains (pushed lists (index_of h b) b j) a ≡ true → g.mem a ≡ h.mem a
  header-pushed j a lt m = elim (pushed-cases lists (index_of h b) b j a m) [
    | inl (e, e') ↦ subst (λ n. g.mem n ≡ h.mem n) (sym e) (header-own h g lists b l u w)
    | inr m' ↦ header-listed h g lists b l u w j a lt m'
  ]

  IsBlock-pushed :
      (j a : ℕ) → j < 14 → contains (pushed lists (index_of h b) b j) a ≡ true → IsBlock g j a
  IsBlock-pushed j a lt m =
      IsBlock-header h g j a (header-pushed j a lt m)
        (elim (pushed-cases lists (index_of h b) b j a m) [
          | inl (e, e') ↦ record {
            aligned = omega (arith, u.aligned);
            index = ap (index_of h) e ∙ sym e';
            least = subst (λ n. 16 ≤ get_size h n) (sym e) u.least;
          }
          | inr m' ↦ l.block j a lt m'
        ])

  Apart-pushed :
      (j k a d : ℕ)
      → j < 14
      → k < 14
      → contains (pushed lists (index_of h b) b j) a ≡ true
      → contains (pushed lists (index_of h b) b k) d ≡ true
      → a ≢ d
      → Apart g a d
  Apart-pushed j k a d lt lt' m m' ne =
      Apart-header h g a d (header-pushed j a lt m) (header-pushed k d lt' m')
        (elim (pushed-cases lists (index_of h b) b j a m) [
          | inl (e, at) ↦ elim (pushed-cases lists (index_of h b) b k d m') [
            | inl (e', at') ↦ absurd (ne (e ∙ sym e'))
            | inr there ↦ subst (λ n. Apart h n d) (sym e) (u.apart k d lt' there)
          ]
          | inr here ↦ elim (pushed-cases lists (index_of h b) b k d m') [
            | inl (e', at') ↦
                subst (λ n. Apart h a n) (sym e') (Apart-sym h b a (u.apart j a lt here))
            | inr there ↦ l.apart j k a d lt lt' here there ne
          ]
        ])

  once-pushed : (j : ℕ) → j < 14 → once (pushed lists (index_of h b) b j) ≡ true
  once-pushed j lt = elim (Bool-cases (index_of h b == j)) [
    | inl here ↦
        rw (here, own_new (index_of h b) (index-lt h b)) (l.once (index_of h b) (index-lt h b))
    | inr there ↦ rw there (l.once j lt)
  ]

  words-pushed : b < 2 ^ 64 → (x : ℕ) → g.mem x < 2 ^ 64
  words-pushed small x =
      let i = index_of h b in
      let f = h.seg_list i in
      elim (Bool-cases (x == b + 8)) [
        | inl at ↦
            subst (λ n. g.mem n < 2 ^ 64) (sym (eq_of_== x (b + 8) at))
              (rw w.next (l.heads i (index-lt h b)))
        | inr p ↦ elim (Bool-cases (both_of i)) [
          | inr one_way ↦
              rw
                (w.rest x (ne_of_== x (b + 8) p)
                  (λ both. absurd (let z : true ≡ false = sym both ∙ one_way in cc))
                  (λ both. absurd (let z : true ≡ false = sym both ∙ one_way in cc)))
                (l.words x)
          | inl both ↦ elim (Bool-cases (x == b + 16)) [
            | inl at ↦
                subst (λ n. g.mem n < 2 ^ 64) (sym (eq_of_== x (b + 16) at))
                  (rw (w.prev both) (omega arith))
            | inr q ↦ elim (Bool-cases (f == 0)) [
              | inl empty ↦
                  rw
                    (w.rest x (ne_of_== x (b + 8) p) (λ e. ne_of_== x (b + 16) q)
                      (λ e ne. absurd (ne (eq_of_== f 0 empty))))
                    (l.words x)
              | inr more ↦ elim (Bool-cases (x == f + 16)) [
                | inl at ↦
                    subst (λ n. g.mem n < 2 ^ 64) (sym (eq_of_== x (f + 16) at))
                      (rw (w.back both (ne_of_== f 0 more)) small)
                | inr r ↦
                    rw
                      (w.rest x (ne_of_== x (b + 8) p) (λ e. ne_of_== x (b + 16) q)
                        (λ e ne. ne_of_== x (f + 16) r))
                      (l.words x)
              ]
            ]
          ]
        ]
      ]

  heads-pushed : b < 2 ^ 64 → (j : ℕ) → j < 14 → g.seg_list j < 2 ^ 64
  heads-pushed small j lt = elim (Bool-cases (index_of h b == j)) [
    | inl here ↦
        subst (λ n. g.seg_list n < 2 ^ 64) (eq_of_== (index_of h b) j here) (rw w.head small)
    | inr there ↦ rw (w.others j (ne_of_== (index_of h b) j there)) (l.heads j lt)
  ]

  IsLists-pushed : IsLists g (pushed lists (index_of h b) b)
  IsLists-pushed = record {
    chain = Chain-pushed;
    block = IsBlock-pushed;
    apart = Apart-pushed;
    once = once-pushed;
    words = words-pushed u.small;
    heads = heads-pushed u.small;
  }

  Beyond-pushed :
      (x : ℕ)
      → Beyond h b x
      → ((j a : ℕ) → j < 14 → contains (lists j) a ≡ true → Beyond h a x)
      → g.mem x ≡ h.mem x
  Beyond-pushed x own listed =
      w.rest x (λ e. absurd (omega (arith, u.least)))
        (λ both. λ e. absurd (omega (arith, own_wide h g lists b l u w both)))
        (λ both ne. λ e.
          let i = index_of h b in
          let m = IsLists-first l i (index-lt h b) ne in
          absurd (
            omega (
              arith,
              listed i (h.seg_list i) (index-lt h b) m,
              front_wide h g lists b l u w both ne,
            )))

-- A block that no list holds and that overlaps no listed block, put in by insert_block, is the first
-- of the list of its size, linked as that list is linked, one way for blocks of 16 bytes and both ways
-- for others. The other lists stay as they were, all are well formed again, and no word of memory
-- outside the free blocks' bodies is written.
pub insert_block_lem :
    (h : Heap) (lists : ℕ → List ℕ) (b : ℕ)
    → IsLists h lists
    → IsUnlisted h lists b
    → IsLists (insert_block b h) (pushed lists (index_of h b) b)
      × ((x : ℕ)
          → Beyond h b x
          → ((j a : ℕ) → j < 14 → contains (lists j) a ≡ true → Beyond h a x)
          → (insert_block b h).mem x ≡ h.mem x)
insert_block_lem h lists b l u =
    let i = index_of h b in
    let f = h.seg_list i in
    let listed = λ (ne : f ≢ 0). IsLists-first l i (index-lt h b) ne in
    let w : Inserted h (insert_block b h) i b =
      insert_block-Inserted h b (omega (arith, u.aligned)) (index-mini h b (l.words b) u.least)
        (λ ne.
          let k = l.block i f (index-lt h b) (listed ne) in
          (
            (λ e. absurd (omega (arith, u.apart i f (index-lt h b) (listed ne), u.least, k.least))),
            (λ e. absurd (omega (arith, u.aligned, k.aligned))),
          )) in
    (
      IsLists-pushed h (insert_block b h) lists b l u w,
      Beyond-pushed h (insert_block b h) lists b l u w,
    )
