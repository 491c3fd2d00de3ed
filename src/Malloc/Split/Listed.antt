-- ===== src/Malloc/Split/Listed.antt =====
-- split_block of malloclab-s20-bhxxzp/mm.c on the lists that the links stand for.
use cmu.Common.{
  ℕ, ◌+◌, ◌-◌, ◌%◌, ◌^◌, ◌<◌, ◌≤◌, ◌≡◌, ◌≢◌, ◌∙◌, sym, ap, subst, inl, inr, true, false, List,
  arith, ◌==◌, leb, if◌then◌else◌, Bool-cases, eq_of_==, ne_of_==, ==-false, ==-true, leb-true,
  leb-false,
}
use cmu.Malloc.Word.{get_index, round_up, dsize, extract_size, extract_alloc, extract_prev_alloc}
use cmu.Malloc.Heap.{Heap, get_size, get_alloc, get_prev_alloc, get_prev_mini}
use cmu.Malloc.SegList.{insert_block}
use cmu.Malloc.Alloc.{split_off, take_whole}
use cmu.Malloc.Fit.{contains}
use cmu.Malloc.Lists.{IsLists, IsUnlisted, size-aligned, size-header}
use cmu.Malloc.Quiet.{Outside, Quiet-IsLists, kept}
use cmu.Malloc.Insert.Lists.{pushed, insert_block_lem}
use cmu.Malloc.Way.{OnTheWay, own-Outside, end_write, insert_rest, insert_header}
use cmu.Malloc.Split.{
  taken_word, spare_word, parted_heap, end_heap, whole_heap, taken_parts, spare_parts,
  parted-OnTheWay, split_off_run, whole-OnTheWay, take_whole_run,
}

-- The lists after `asize` bytes of the unlisted block `b` are taken: the rest is a block of its own.
abbrev pub with_spare : Heap → (lists : ℕ → List ℕ) → (b asize : ℕ) → ℕ → List ℕ
with_spare h lists b asize =
    if get_size h b == asize
    then lists
    else pushed lists (get_index (round_up (get_size h b - asize) dsize)) (b + asize)

-- What split_block leaves of a block at `b` that no list holds any more.
pub record IsSplit (h g : Heap) (lists : ℕ → List ℕ) (b asize : ℕ) : Type 0 where
  pub listed : IsLists g (with_spare h lists b asize)
  pub size : get_size g b ≡ asize
  pub alloc : get_alloc g b ≡ true
  pub spare_size : asize ≢ get_size h b → get_size g (b + asize) ≡ get_size h b - asize
  pub spare_alloc : asize ≢ get_size h b → get_alloc g (b + asize) ≡ false
  pub spare_prev : asize ≢ get_size h b → get_prev_alloc g (b + asize) ≡ true
  pub next_size : get_size g (b + get_size h b) ≡ get_size h (b + get_size h b)
  pub next_alloc : get_alloc g (b + get_size h b) ≡ get_alloc h (b + get_size h b)
  pub next_prev : get_prev_alloc g (b + get_size h b) ≡ (get_size h b == asize)
  pub headers : (j a : ℕ) → j < 14 → contains (lists j) a ≡ true → g.mem a ≡ h.mem a
  pub untouched :
      (x : ℕ)
      → Outside h b x
      → x ≢ b + get_size h b
      → ((j a : ℕ) → j < 14 → contains (lists j) a ≡ true → Outside h a x)
      → g.mem x ≡ h.mem x

module _ (h : Heap) (lists : ℕ → List ℕ) (b asize : ℕ) (l : IsLists h lists)
    (u : IsUnlisted h lists b)
    (out : (j a : ℕ) → j < 14 → contains (lists j) a ≡ true → Outside h a (b + get_size h b))
    (even : asize % 16 ≡ 0) (least : 16 ≤ asize) (fit : asize ≤ get_size h b)
    (small : b + get_size h b < 2 ^ 64) where
  whole-IsSplit : get_size h b ≡ asize → IsSplit h (take_whole b (get_size h b) h) lists b asize
  unfolding get_size get_alloc get_prev_alloc
  whole-IsSplit same =
      let n = b + get_size h b in
      let t = whole_heap h b in
      let w = whole-OnTheWay h lists b l u out in
      let e = end_write h lists b l u out t true (get_prev_mini h n) w.0 in
      let g = end_heap h b t true (get_prev_mini h n) in
      let at : g.mem b ≡ taken_word h b (get_size h b) = e.3 b (omega (arith, u.least)) ∙ w.1 in
      let p =
        taken_parts h lists b (get_size h b) l u out (size-aligned h b) u.least (omega arith) in
      let hit : (get_size h b == asize) ≡ true = ==-true (get_size h b) asize same in
      let done : IsSplit h g lists b asize = record {
        listed = rw hit (Quiet-IsLists h g lists l e.0.quiet);
        size = ap extract_size at ∙ p.0 ∙ same;
        alloc = ap extract_alloc at ∙ p.1;
        spare_size = λ ne. absurd (ne (sym same));
        spare_alloc = λ ne. absurd (ne (sym same));
        spare_prev = λ ne. absurd (ne (sym same));
        next_size = e.0.next_size;
        next_alloc = e.0.next_alloc;
        next_prev = e.1 ∙ sym hit;
        headers = λ j a lt m.
            kept h g lists l e.0.quiet j a a lt m (omega arith)
              (omega (arith, (l.block j a lt m).least));
        untouched = λ x o ne listed. e.0.rest x o ne;
      } in
      subst (λ y. IsSplit h y lists b asize) (sym (take_whole_run h lists b l u out)) done

  module _ (more : 16 ≤ get_size h b - asize) where
    abbrev parted : Heap
    parted = end_heap h b (parted_heap h b asize) false (get_size h b - asize == 16)

    parted_facts :
        OnTheWay h parted lists b
        × (parted.mem b ≡ taken_word h b asize)
        × (parted.mem (b + asize) ≡ spare_word h b asize)
        × (get_prev_alloc parted (b + get_size h b) ≡ false)
    parted_facts =
        let w = parted-OnTheWay h lists b asize l u out even least fit more in
        let e =
          end_write h lists b l u out (parted_heap h b asize) false (get_size h b - asize == 16)
            w.0 in
        (e.0, e.3 b (omega (arith, u.least)) ∙ w.1, e.3 (b + asize) (omega arith) ∙ w.2, e.1)

    spare_size_lem : get_size parted (b + asize) ≡ get_size h b - asize
    unfolding get_size
    spare_size_lem =
        ap extract_size parted_facts.2 ∙ (spare_parts h lists b asize l u out even least fit).0

    IsUnlisted-spare : IsUnlisted parted lists (b + asize)
    IsUnlisted-spare =
        let f = parted_facts in
        record {
          aligned = omega (arith, u.aligned);
          small = omega arith;
          least = omega (arith, spare_size_lem);
          apart = λ j a lt m.
              let e' = size-header h parted a (
                kept h parted lists l f.0.quiet j a a lt m (omega arith)
                  (omega (arith, (l.block j a lt m).least))) in
              elim (u.apart j a lt m) [
                | inl le ↦ inl (omega (arith, spare_size_lem))
                | inr le ↦ inr (omega (arith, e'))
              ];
        }

    parted-IsSplit : IsSplit h (split_off b (get_size h b) asize h) lists b asize
    unfolding get_size get_alloc get_prev_alloc
    parted-IsSplit =
        let n = b + get_size h b in
        let c = b + asize in
        let f = parted_facts in
        let t = parted in
        let g = insert_block c t in
        let ne : (get_size h b == asize) ≡ false =
          ==-false (get_size h b) asize (λ e. omega arith) in
        let i = insert_block_lem t lists c (Quiet-IsLists h t lists l f.0.quiet) IsUnlisted-spare in
        let rest = λ (x : ℕ). insert_rest h lists b l u out t c x f.0 IsUnlisted-spare in
        let own = own-Outside h lists b l u out in
        let at_b =
          rest b (inl (omega arith)) (own b (omega arith) (omega (arith, u.least))) ∙ f.1 in
        let at_c = rest c (inl (omega arith)) (own c (omega arith) (omega arith)) ∙ f.2 in
        let at_n = rest n (inr (omega (arith, spare_size_lem))) out in
        let p = taken_parts h lists b asize l u out even least fit in
        let q = spare_parts h lists b asize l u out even least fit in
        let done : IsSplit h g lists b asize = record {
          listed = rw ne (
              subst (λ y. IsLists g (pushed lists (get_index (round_up y dsize)) c)) spare_size_lem
                i.0);
          size = ap extract_size at_b ∙ p.0;
          alloc = ap extract_alloc at_b ∙ p.1;
          spare_size = λ z. ap extract_size at_c ∙ q.0;
          spare_alloc = λ z. ap extract_alloc at_c ∙ q.1;
          spare_prev = λ z. ap extract_prev_alloc at_c ∙ q.2;
          next_size = ap extract_size at_n ∙ f.0.next_size;
          next_alloc = ap extract_alloc at_n ∙ f.0.next_alloc;
          next_prev = ap extract_prev_alloc at_n ∙ f.3 ∙ sym ne;
          headers = λ j a lt m. insert_header h lists b l u out t c j a f.0 IsUnlisted-spare lt m;
          untouched = λ x o z listed.
              rest x
                (elim o [
                  | inl le ↦ inl (omega arith)
                  | inr le ↦ inr (omega (arith, spare_size_lem))
                ])
                listed
              ∙ f.0.rest x o z;
        } in
        subst (λ y. IsSplit h y lists b asize)
          (sym (split_off_run h lists b asize l u out even least fit more)) done

-- What split_block does once the block is out of its list.
unfoldable pub split_rest : (h : Heap) (b size asize : ℕ) → Heap
split_rest h b size asize =
    if leb 16 ((size + 2 ^ 64 - asize) % 2 ^ 64)
    then split_off b size asize h
    else take_whole b size h

pub split_rest-IsSplit :
    (h : Heap) (lists : ℕ → List ℕ) (b asize : ℕ)
    → IsLists h lists
    → IsUnlisted h lists b
    → ((j a : ℕ) → j < 14 → contains (lists j) a ≡ true → Outside h a (b + get_size h b))
    → asize % 16 ≡ 0
    → 16 ≤ asize
    → asize ≤ get_size h b
    → b + get_size h b < 2 ^ 64
    → IsSplit h (split_rest h b (get_size h b) asize) lists b asize
unfolding split_rest
split_rest-IsSplit h lists b asize l u out even least fit small =
    let wrap : (get_size h b + 2 ^ 64 - asize) % 2 ^ 64 ≡ get_size h b - asize = omega arith in
    elim (Bool-cases (get_size h b == asize)) [
      | inl same ↦
          let e = eq_of_== (get_size h b) asize same in
          rw (wrap, leb-false 16 (get_size h b - asize) (omega arith))
            (whole-IsSplit h lists b asize l u out even least fit small e)
      | inr other ↦
          let ne = ne_of_== (get_size h b) asize other in
          let more : 16 ≤ get_size h b - asize = omega (arith, size-aligned h b) in
          rw (wrap, leb-true 16 (get_size h b - asize) more)
            (parted-IsSplit h lists b asize l u out even least fit small more)
    ]
