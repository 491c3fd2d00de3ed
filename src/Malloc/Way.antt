-- ===== src/Malloc/Way.antt =====
-- Writes of free and split_block, in malloclab-s20-bhxxzp/mm.c, to a block that no list holds and to the
-- header behind it.
use cmu.Common.{
  ℕ, ◌+◌, ◌^◌, ◌<◌, ◌≤◌, ◌≡◌, refl, ◌≢◌, ◌∙◌, sym, ap, inl, inr, Bool, true, false, List, arith,
  ◌==◌, Bool-cases, eq_of_==, ne_of_==, ==-false, update_ne, update_self,
}
use cmu.Malloc.Word.{pack, extract_size, extract_alloc, extract_prev_alloc, extract_prev_mini}
use cmu.Malloc.Heap.{Heap, get_size, get_alloc, get_prev_alloc, get_prev_mini, store}
use cmu.Malloc.SegList.{insert_block}
use cmu.Malloc.Fit.{contains}
use cmu.Malloc.Packing.{pack_lem}
use cmu.Malloc.Lists.{IsLists, IsUnlisted, Beyond, size-aligned, size-header}
use cmu.Malloc.Quiet.{Outside, Quiet, Quiet-refl, Quiet-store, Quiet-IsLists, kept}
use cmu.Malloc.Insert.Lists.{insert_block_lem}

pub pack-small :
    (h : Heap) (b : ℕ) (a p m : Bool) → h.mem b < 2 ^ 64 → pack (get_size h b) a p m < 2 ^ 64
unfolding get_size extract_size
pack-small h b a p m lt = omega (arith, (pack_lem (get_size h b) a p m (size-aligned h b)).4)

pub mem-store_self : (h : Heap) (x v : ℕ) → (store x v h).mem x ≡ v
unfolding store
mem-store_self h x v = update_self h.mem x v

pub mem-store_ne : (h : Heap) (x y v : ℕ) → x ≢ y → (store x v h).mem y ≡ h.mem y
unfolding store
mem-store_ne h x y v ne = update_ne h.mem x y v ne

pub size-store :
    (h : Heap) (x v : ℕ) → extract_size v ≡ get_size h x → get_size (store x v h) x ≡ get_size h x
unfolding get_size
size-store h x v e = ap extract_size (mem-store_self h x v) ∙ e

pub alloc-store :
    (h : Heap) (x v : ℕ)
    → extract_alloc v ≡ get_alloc h x
    → get_alloc (store x v h) x ≡ get_alloc h x
unfolding get_alloc
alloc-store h x v e = ap extract_alloc (mem-store_self h x v) ∙ e

-- A heap on the way: the lists are as they were, and the block behind has kept its size and its flag.
pub record OnTheWay (h t : Heap) (lists : ℕ → List ℕ) (b : ℕ) : Type 0 where
  pub quiet : Quiet h t lists
  pub next_size : get_size t (b + get_size h b) ≡ get_size h (b + get_size h b)
  pub next_alloc : get_alloc t (b + get_size h b) ≡ get_alloc h (b + get_size h b)
  pub rest : (x : ℕ) → Outside h b x → x ≢ b + get_size h b → t.mem x ≡ h.mem x

module _ (h : Heap) (lists : ℕ → List ℕ) (b : ℕ) (l : IsLists h lists) (u : IsUnlisted h lists b)
    (out : (j a : ℕ) → j < 14 → contains (lists j) a ≡ true → Outside h a (b + get_size h b)) where
  pub own-Outside :
      (x : ℕ)
      → b ≤ x
      → x < b + get_size h b
      → (j a : ℕ) → j < 14
      → contains (lists j) a ≡ true
      → Outside h a x
  own-Outside x lo hi j a lt m = elim (u.apart j a lt m) [
    | inl le ↦ inl (omega arith)
    | inr le ↦ inr (omega arith)
  ]

  pub OnTheWay-refl : OnTheWay h h lists b
  OnTheWay-refl = record {
    quiet = Quiet-refl l;
    next_size = refl;
    next_alloc = refl;
    rest = λ x o ne. refl;
  }

  pub own_write :
      (t : Heap) (x v : ℕ)
      → OnTheWay h t lists b
      → b ≤ x
      → x < b + get_size h b
      → v < 2 ^ 64
      → OnTheWay h (store x v t) lists b
  unfolding store get_size get_alloc
  own_write t x v w lo hi small =
      let past : (x == b + get_size h b) ≡ false = ==-false x (b + get_size h b) (omega arith) in
      record {
        quiet = Quiet-store h t lists x v w.quiet small (own-Outside x lo hi);
        next_size = rw past w.next_size;
        next_alloc = rw past w.next_alloc;
        rest = λ y o ne. rw (==-false x y (λ e. omega arith)) (w.rest y o ne);
      }

  -- The header behind is written again, with its size and its flag as they are.
  pub end_write :
      (t : Heap) (prev_alloc mini : Bool)
      → OnTheWay h t lists b
      → let n = b + get_size h b in
        let t' = store n (pack (get_size t n) (get_alloc t n) prev_alloc mini) t in
        OnTheWay h t' lists b
        × (get_prev_alloc t' n ≡ prev_alloc)
        × (get_prev_mini t' n ≡ mini)
        × ((x : ℕ) → x ≢ n → t'.mem x ≡ t.mem x)
  unfolding get_prev_alloc get_prev_mini
  end_write t prev_alloc mini w =
      let n = b + get_size h b in
      let v = pack (get_size t n) (get_alloc t n) prev_alloc mini in
      let r = pack_lem (get_size t n) (get_alloc t n) prev_alloc mini (size-aligned t n) in
      (
        record {
          quiet =
              Quiet-store h t lists n v w.quiet
                (pack-small t n (get_alloc t n) prev_alloc mini (w.quiet.words n)) out;
          next_size = size-store t n v r.0 ∙ w.next_size;
          next_alloc = alloc-store t n v r.1 ∙ w.next_alloc;
          rest = λ x o ne. mem-store_ne t n x v (λ y. ne (sym y)) ∙ w.rest x o ne;
        },
        ap extract_prev_alloc (mem-store_self t n v) ∙ r.2,
        ap extract_prev_mini (mem-store_self t n v) ∙ r.3,
        λ x ne. mem-store_ne t n x v (λ y. ne (sym y)),
      )

  -- insert_block of a block that lies within `b` touches no word outside of it and of the lists.
  pub insert_rest :
      (t : Heap) (c x : ℕ)
      → OnTheWay h t lists b
      → IsUnlisted t lists c
      → Beyond t c x
      → ((j a : ℕ) → j < 14 → contains (lists j) a ≡ true → Outside h a x)
      → (insert_block c t).mem x ≡ t.mem x
  insert_rest t c x w v own listed =
      (insert_block_lem t lists c (Quiet-IsLists h t lists l w.quiet) v).1 x own (λ j a lt m.
        let e' = size-header h t a (
          kept h t lists l w.quiet j a a lt m (omega arith)
            (omega (arith, (l.block j a lt m).least))) in
        elim (listed j a lt m) [ inl le ↦ inl (omega arith) | inr le ↦ inr (omega arith) ])

  -- Nor does it touch the header of a listed block.
  pub insert_header :
      (t : Heap) (c j a : ℕ)
      → OnTheWay h t lists b
      → IsUnlisted t lists c
      → j < 14
      → contains (lists j) a ≡ true
      → (insert_block c t).mem a ≡ h.mem a
  insert_header t c j a w v lt m =
      let q = Quiet-IsLists h t lists l w.quiet in
      let k = q.block j a lt m in
      (insert_block_lem t lists c q v).1 a
        (elim (v.apart j a lt m) [ inl le ↦ inr le | inr le ↦ inl (omega (arith, k.least)) ])
        (λ i d lt' md. elim (Bool-cases (a == d)) [
          | inl same ↦ inl (omega (arith, eq_of_== a d same))
          | inr other ↦ elim (q.apart j i a d lt lt' m md (ne_of_== a d other)) [
            | inl le ↦ inl (omega (arith, k.least))
            | inr le ↦ inr le
          ]
        ])
      ∙ kept h t lists l w.quiet j a a lt m (omega arith) (omega (arith, (l.block j a lt m).least))
