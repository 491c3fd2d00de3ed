-- ===== src/Malloc/Fit.antt =====
-- find_fit of malloclab-s20-bhxxzp/mm.c against the lists that the links stand for.
use cmu.Common.{
  ℕ, zero, suc, ◌+◌, ◌-◌, ◌^◌, ◌≤◌, ◌<◌, ◌≡◌, refl, ◌≢◌, ◌∙◌, sym, subst, ◌⊎◌, inl, inr, Bool, true,
  false, not, List, [], ◌∷◌, arith, ◌==◌, leb, ltb, ◌&&◌, ◌||◌, Bool-cases, length, ==-false,
  eq_of_==, le_of_ltb, lt_of_ltb,
}
use cmu.Malloc.Word.{get_index, extract_size}
use cmu.Malloc.Heap.{Heap, get_size, get_alloc, next_of}
use cmu.Malloc.SegList.{Best, no_best, walk, fit_from, find_fit, room}
use cmu.Malloc.Index.{get_index_lem}

-- From `p` the links lead through the blocks `xs` and end.
abbrev pub Linked : Heap → ℕ → List ℕ → Type 0
Linked h p [] = p ≡ 0
Linked h p (a ∷ xs) = (p ≡ a) × (a ≢ 0) × Linked h (next_of h a) xs

abbrev pub contains : List ℕ → ℕ → Bool
contains [] a = false
contains (x ∷ xs) a = (a == x) || contains xs a

-- A free block of at least the size asked for.
abbrev pub fits : Heap → ℕ → ℕ → Bool
fits h asize a = not (get_alloc h a) && leb asize (get_size h a)

-- No block of the list that fits has less to spare than `n`.
abbrev pub NoneBelow : Heap → ℕ → ℕ → List ℕ → Type 0
NoneBelow h asize n xs =
    (a : ℕ) → contains xs a ≡ true → fits h asize a ≡ true → n ≤ get_size h a - asize

record Found (h : Heap) (asize : ℕ) (xs : List ℕ) (best r : Best) : Type 0 where
  in_list : contains xs r.block ≡ true
  good : fits h asize r.block ≡ true
  num : r.num ≡ get_size h r.block - asize
  improves : r.num ≤ best.num
  least : NoneBelow h asize r.num xs

NoneBelow-cons :
    (h : Heap) (asize n a : ℕ) (xs : List ℕ)
    → (fits h asize a ≡ true → n ≤ get_size h a - asize)
    → NoneBelow h asize n xs
    → NoneBelow h asize n (a ∷ xs)
NoneBelow-cons h asize n a xs head rest b m f = elim (Bool-cases (b == a)) [
  | inl here ↦
      let e : b ≡ a = eq_of_== b a here in
      subst (λ x. n ≤ get_size h x - asize) (sym e) (head (subst (λ x. fits h asize x ≡ true) e f))
  | inr there ↦ rest b (rw there at m) f
]

abbrev Walked : Heap → ℕ → List ℕ → Best → Best → Type 0
Walked h asize xs best r = ((r ≡ best) × NoneBelow h asize best.num xs) ⊎ Found h asize xs best r

-- A first block that is no better than the best so far changes nothing.
passed :
    (h : Heap) (asize a : ℕ) (xs : List ℕ) (best r : Best)
    → (fits h asize a ≡ true → best.num ≤ get_size h a - asize)
    → Walked h asize xs best r
    → Walked h asize (a ∷ xs) best r
passed h asize a xs best r head (inl (e, none)) =
    inl (e, NoneBelow-cons h asize best.num a xs head none)
passed h asize a xs best r head (inr f) = inr (record {
  in_list = ground (arith, f.in_list);
  good = f.good;
  num = f.num;
  improves = f.improves;
  least = NoneBelow-cons h asize r.num a xs (λ g. omega (arith, head g, f.improves)) f.least;
})

-- One that is better becomes the best.
improved :
    (h : Heap) (asize a : ℕ) (xs : List ℕ) (best r : Best)
    → fits h asize a ≡ true
    → ltb (get_size h a - asize) best.num ≡ true
    → Walked h asize xs (record { block = a; num = get_size h a - asize }) r
    → Walked h asize (a ∷ xs) best r
improved h asize a xs best r f less (inl (e, none)) =
    let lt = lt_of_ltb (get_size h a - asize) best.num less in
    inr (
      rw e (record {
        in_list = ground arith;
        good = f;
        num = refl;
        improves = omega arith;
        least = NoneBelow-cons h asize (get_size h a - asize) a xs (λ g. omega arith) none;
      }))
improved h asize a xs best r f less (inr q) =
    let lt = lt_of_ltb (get_size h a - asize) best.num less in
    inr (record {
      in_list = ground (arith, q.in_list);
      good = q.good;
      num = q.num;
      improves = omega (arith, q.improves);
      least = NoneBelow-cons h asize r.num a xs (λ g. q.improves) q.least;
    })

-- The walk over a list: either nothing in it is better than what it began with, or it ends with the
-- block of the list that has the least to spare.
walk_lem :
    (h : Heap) (asize fuel p : ℕ) (best : Best) (xs : List ℕ)
    → Linked h p xs
    → length xs < fuel
    → ((walk h asize fuel p best ≡ best) × NoneBelow h asize best.num xs)
      ⊎ Found h asize xs best (walk h asize fuel p best)
unfolding walk
walk_lem h asize zero p best xs l enough = absurd (omega arith)
walk_lem h asize (suc fuel) p best [] l enough = inl (rw l, λ a m. cc)
walk_lem h asize (suc fuel) p best (a ∷ xs) l enough =
    rw (l.0, ==-false a 0 l.1)
      (elim (Bool-cases (fits h asize a)) [
        | inl f ↦ elim (Bool-cases (get_size h a - asize == 0)) [
          | inl exact ↦
              rw (f, exact)
                (inr (record {
                  in_list = ground arith;
                  good = f;
                  num = sym (eq_of_== (get_size h a - asize) 0 exact);
                  improves = omega arith;
                  least = λ b m g. omega arith;
                }))
          | inr spare ↦ elim (Bool-cases (ltb (get_size h a - asize) best.num)) [
            | inl less ↦
                rw (f, spare, less)
                  (improved h asize a xs best (walk h asize fuel (next_of h a) _) f less (
                    walk_lem h asize fuel (next_of h a)
                      (record { block = a; num = get_size h a - asize }) xs l.2 (omega arith)))
            | inr more ↦
                rw (f, spare, more)
                  (passed h asize a xs best (walk h asize fuel (next_of h a) best)
                    (λ g. le_of_ltb (get_size h a - asize) best.num more)
                    (walk_lem h asize fuel (next_of h a) best xs l.2 (omega arith)))
          ]
        ]
        | inr no_fit ↦ rw no_fit (
            passed h asize a xs best (walk h asize fuel (next_of h a) best)
              (λ g. absurd (clash g no_fit))
              (walk_lem h asize fuel (next_of h a) best xs l.2 (omega arith)))
      ])
  where
    clash : {b : Bool} → b ≡ true → b ≡ false → ⊥
    clash g g' = cc

-- The free lists as the links show them; each has fewer blocks than the heap has room for.
pub record HasLists (h : Heap) (lists : ℕ → List ℕ) : Type 0 where
  pub linked : (i : ℕ) → i < 14 → Linked h (h.seg_list i) (lists i)
  pub short : (i : ℕ) → i < 14 → length (lists i) < room h
  pub words : (a : ℕ) → h.mem a < 2 ^ 64

-- No block of the lists `i` and on up to `j` fits.
abbrev pub NoFit : Heap → ℕ → (ℕ → List ℕ) → ℕ → ℕ → Type 0
NoFit h asize lists i j =
    (k : ℕ) → i ≤ k → k < j → (a : ℕ) → contains (lists k) a ≡ true → fits h asize a ≡ false

-- What find_fit answers, from list `i` on.
pub data Answer (h : Heap) (asize : ℕ) (lists : ℕ → List ℕ) (i : ℕ) : ℕ → Type 0 where
  nothing : NoFit h asize lists i 14 → Answer h asize lists i 0
  best_of :
      (k block : ℕ)
      → i ≤ k
      → k < 14
      → contains (lists k) block ≡ true
      → fits h asize block ≡ true
      → ((a : ℕ)
          → contains (lists k) a ≡ true
          → fits h asize a ≡ true
          → get_size h block ≤ get_size h a)
      → NoFit h asize lists i k
      → Answer h asize lists i block

get_size_lt : (h : Heap) (a : ℕ) → h.mem a < 2 ^ 64 → get_size h a < 2 ^ 64 - 1
unfolding get_size extract_size
get_size_lt h a lt = omega arith

Linked-ne_zero : (h : Heap) (p a : ℕ) (xs : List ℕ) → Linked h p xs → contains xs a ≡ true → a ≢ 0
Linked-ne_zero h p a [] l m = absurd (let bad : false ≡ true = m in (cc))
Linked-ne_zero h p a (x ∷ xs) l m = elim (Bool-cases (a == x)) [
  | inl here ↦ λ e. l.1 (sym (eq_of_== a x here) ∙ e)
  | inr there ↦ Linked-ne_zero h (next_of h x) a xs l.2 (rw there at m)
]

fit_from_lem :
    (h : Heap) (asize : ℕ) (lists : ℕ → List ℕ) (i rounds : ℕ)
    → HasLists h lists
    → i + rounds ≡ 14
    → Answer h asize lists i (fit_from h asize i rounds)
unfolding fit_from
fit_from_lem h asize lists i zero hl e = nothing (λ k lo hi. absurd (omega arith))
fit_from_lem h asize lists i (suc rounds) hl e =
    elim (walk_lem h asize (room h) (h.seg_list i) no_best (lists i) (hl.linked i (omega arith))
      (hl.short i (omega arith))) [
        | inl (same, none) ↦ rw same (
            earlier (no_fit none) (fit_from h asize (suc i) rounds)
              (fit_from_lem h asize lists (suc i) rounds hl (omega arith)))
        | inr f ↦
            let block = (walk h asize (room h) (h.seg_list i) no_best).block in
            let ne =
              Linked-ne_zero h (h.seg_list i) block (lists i) (hl.linked i (omega arith))
                f.in_list in
            rw (==-false block 0 ne) (
              best_of i block (omega arith) (omega arith) f.in_list f.good
                (λ a m g. omega (arith, f.least a m g, f.num, fits_le block f.good, fits_le a g))
                (λ k lo hi. absurd (omega arith)))
      ]
  where
    fits_le : (a : ℕ) → fits h asize a ≡ true → asize ≤ get_size h a
    fits_le a g = ground arith

    no_fit :
        NoneBelow h asize (2 ^ 64 - 1) (lists i)
        → (a : ℕ) → contains (lists i) a ≡ true
        → fits h asize a ≡ false
    no_fit none a m = elim (Bool-cases (fits h asize a)) [
      | inl g ↦ absurd (let le = none a m g in omega (arith, get_size_lt h a (hl.words a)))
      | inr g ↦ g
    ]

    extend :
        (k : ℕ)
        → ((a : ℕ) → contains (lists i) a ≡ true → fits h asize a ≡ false)
        → NoFit h asize lists (suc i) k
        → NoFit h asize lists i k
    extend k here rest l lo hi = elim (Bool-cases (ltb i l)) [
      | inl later ↦ rest l (lt_of_ltb i l later) hi
      | inr now ↦ let e : l ≡ i = ground arith in rw e here
    ]

    earlier :
        ((a : ℕ) → contains (lists i) a ≡ true → fits h asize a ≡ false)
        → (r : ℕ) → Answer h asize lists (suc i) r
        → Answer h asize lists i r
    earlier here r (nothing none) = nothing (extend 14 here none)
    earlier here r (best_of k block lo hi m g least none) =
        best_of k block (omega arith) hi m g least (extend k here none)

-- Over free lists that the links show, find_fit answers 0 only if no block from the list of the
-- asked size on fits, and otherwise a block of the first list that has one that fits, of the least
-- size among those of that list.
pub find_fit_lem :
    (h : Heap) (asize : ℕ) (lists : ℕ → List ℕ)
    → HasLists h lists
    → Answer h asize lists (get_index asize) (find_fit h asize)
unfolding find_fit
find_fit_lem h asize lists hl =
    let small : get_index asize ≤ 13 = omega (arith, get_index_lem asize) in
    fit_from_lem h asize lists (get_index asize) (14 - get_index asize) hl (omega arith)
