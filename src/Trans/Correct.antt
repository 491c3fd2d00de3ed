-- ===== src/Trans/Correct.antt =====
-- Each of the functions of cachelab-s20-bhxxzp/trans.c is a transposition at the sizes it is used for.
use cmu.Common.{
  ℕ, ◌+◌, ◌*◌, ◌/◌, ◌%◌, ◌≤◌, ◌<◌, ◌≡◌, inl, inr, true, ◌&&◌, ◌==◌, ltb, if◌then◌else◌, arith,
  Bool-cases,
}
use cmu.Trans.{Matrix, State, trans, trans32, trans63, trans_tmp, transpose_submit, rounds4}
use cmu.Trans.Cells.{
  Cells, single, union, union-intro, union-elim, Fills-all, write-Fills, through_tmp-Fills,
  for_range-Fills, Bool_ext,
}

single_self : (j i : ℕ) → single j i j i ≡ true
single_self j i = ground arith

single_eq : (j i j' i' : ℕ) → single j i j' i' ≡ true → (j' ≡ j) × (i' ≡ i)
single_eq j i j' i' h = (ground arith, ground arith)

in_bounds : (j i m n : ℕ) → (ltb j m && ltb i n) ≡ true → (j < m) × (i < n)
in_bounds j i m n h = (ground arith, ground arith)

bounds_in : (j i m n : ℕ) → j < m → i < n → (ltb j m && ltb i n) ≡ true
bounds_in j i m n h h' = ground arith

-- The cells of the row-wise scan.
scan : (m n : ℕ) → Cells
scan m n = union (λ i. union (λ j. single j i) 0 m) 0 n

scan_whole : (m n j i : ℕ) → scan m n j i ≡ (ltb j m && ltb i n)
unfolding scan
scan_whole m n j i = Bool_ext (scan m n j i) (ltb j m && ltb i n) inside all
  where
    inside : scan m n j i ≡ true → (ltb j m && ltb i n) ≡ true
    inside h =
        let (i', _, hi, h') = union-elim (λ i. union (λ j. single j i) 0 m) 0 n j i h in
        let (j', _, hj, h'') = union-elim (λ j. single j i') 0 m j i h' in
        let (ej, ei) = single_eq j' i' j i h'' in bounds_in j i m n (omega arith) (omega arith)

    all : (ltb j m && ltb i n) ≡ true → scan m n j i ≡ true
    all h =
        let (hj, hi) = in_bounds j i m n h in
        union-intro (λ i. union (λ j. single j i) 0 m) 0 n i j i (omega arith) (omega arith)
          (union-intro (λ j. single j i) 0 m j j i (omega arith) (omega arith) (single_self j i))

-- The cells of the blocks of 8 by 8, and of 4 by 4 cut off at the edges.
blocks32 : Cells
blocks32 =
    union (λ p. union (λ q. union (λ k. union (λ d. single (8 * q + d) k) 0 8) (8 * p) 8) 0 4) 0 4

blocks63 : Cells
blocks63 =
    union
      (λ p.
        union
          (λ q. union (λ k. union (λ l. single l k) (q * 4) (rounds4 63 q)) (p * 4) (rounds4 65 p))
          0 17)
      0 17

blocks32_whole : (j i : ℕ) → blocks32 j i ≡ (ltb j 32 && ltb i 32)
unfolding blocks32
blocks32_whole j i = Bool_ext (blocks32 j i) (ltb j 32 && ltb i 32) inside all
  where
    inside : blocks32 j i ≡ true → (ltb j 32 && ltb i 32) ≡ true
    inside h =
        let (p, _, hp, h1) =
          union-elim
            (λ p. union (λ q. union (λ k. union (λ d. single (8 * q + d) k) 0 8) (8 * p) 8) 0 4) 0 4
            j i h in
        let (q, _, hq, h2) =
          union-elim (λ q. union (λ k. union (λ d. single (8 * q + d) k) 0 8) (8 * p) 8) 0 4 j i
            h1 in
        let (k, _, hk, h3) =
          union-elim (λ k. union (λ d. single (8 * q + d) k) 0 8) (8 * p) 8 j i h2 in
        let (d, _, hd, h4) = union-elim (λ d. single (8 * q + d) k) 0 8 j i h3 in
        let (ej, ei) = single_eq (8 * q + d) k j i h4 in
        bounds_in j i 32 32 (omega arith) (omega arith)

    all : (ltb j 32 && ltb i 32) ≡ true → blocks32 j i ≡ true
    all h =
        let (hj, hi) = in_bounds j i 32 32 h in
        let e : 8 * (j / 8) + j % 8 ≡ j = omega arith in
        union-intro _ 0 4 (i / 8) j i (omega arith) (omega arith) (
          union-intro _ 0 4 (j / 8) j i (omega arith) (omega arith) (
            union-intro _ (8 * (i / 8)) 8 i j i (omega arith) (omega arith) (
              union-intro (λ d. single (8 * (j / 8) + d) i) 0 8 (j % 8) j i (omega arith)
                (omega arith) (rw e (single_self j i)))))

rounds4_inside : (bound p k : ℕ) → p * 4 ≤ k → k < p * 4 + rounds4 bound p → k < bound
rounds4_inside bound p k lo hi = ground arith

rounds4_covers : (bound k : ℕ) → k < bound → k < k / 4 * 4 + rounds4 bound (k / 4)
rounds4_covers bound k h = ground arith

blocks63_whole : (j i : ℕ) → blocks63 j i ≡ (ltb j 63 && ltb i 65)
unfolding blocks63
blocks63_whole j i = Bool_ext (blocks63 j i) (ltb j 63 && ltb i 65) inside all
  where
    inside : blocks63 j i ≡ true → (ltb j 63 && ltb i 65) ≡ true
    inside h =
        let (p, _, hp, h1) =
          union-elim
            (λ p.
              union
                (λ q.
                  union (λ k. union (λ l. single l k) (q * 4) (rounds4 63 q)) (p * 4)
                    (rounds4 65 p))
                0 17)
            0 17 j i h in
        let (q, _, hq, h2) =
          union-elim
            (λ q.
              union (λ k. union (λ l. single l k) (q * 4) (rounds4 63 q)) (p * 4) (rounds4 65 p))
            0 17 j i h1 in
        let (k, lk, hk, h3) =
          union-elim (λ k. union (λ l. single l k) (q * 4) (rounds4 63 q)) (p * 4) (rounds4 65 p) j
            i h2 in
        let (l, ll, hl, h4) = union-elim (λ l. single l k) (q * 4) (rounds4 63 q) j i h3 in
        let (ej, ei) = single_eq l k j i h4 in
        let k_in = rounds4_inside 65 p k lk hk in
        let l_in = rounds4_inside 63 q l ll hl in bounds_in j i 63 65 (omega arith) (omega arith)

    all : (ltb j 63 && ltb i 65) ≡ true → blocks63 j i ≡ true
    all h =
        let (hj, hi) = in_bounds j i 63 65 h in
        union-intro _ 0 17 (i / 4) j i (omega arith) (omega arith) (
          union-intro _ 0 17 (j / 4) j i (omega arith) (omega arith) (
            union-intro _ (i / 4 * 4) (rounds4 65 (i / 4)) i j i (omega arith)
              (rounds4_covers 65 i hi)
              (union-intro (λ l. single l i) (j / 4 * 4) (rounds4 63 (j / 4)) j j i (omega arith)
                (rounds4_covers 63 j hj) (single_self j i))))

module _ {ℓ} {V : Type ℓ} (a b : Matrix V) (tmp : ℕ → V) where
  abbrev start : State V
  start = record { b = b; tmp = tmp }

  -- What a transposition of an m-column, n-row matrix leaves in the target.
  abbrev Transposed : (m n : ℕ) → State V → Type ℓ
  Transposed m n s = (j i : ℕ) → s.b j i ≡ (if ltb j m && ltb i n then a i j else b j i)

  trans-Transposed : (m n : ℕ) → Transposed m n (trans m n a start)
  unfolding trans scan
  trans-Transposed m n =
      Fills-all a b m n (scan m n) (trans m n a)
        (for_range-Fills a b _ _ (λ i. for_range-Fills a b _ _ (λ j. write-Fills a b j i) 0 m) 0 n)
        (scan_whole m n) tmp

  trans_tmp-Transposed : (m n : ℕ) → Transposed m n (trans_tmp m n a start)
  unfolding trans_tmp scan
  trans_tmp-Transposed m n =
      Fills-all a b m n (scan m n) (trans_tmp m n a)
        (for_range-Fills a b _ _ (λ i. for_range-Fills a b _ _ (λ j. through_tmp-Fills a b j i) 0 m)
          0 n)
        (scan_whole m n) tmp

  trans32-Transposed : Transposed 32 32 (trans32 32 32 a start)
  unfolding trans32 blocks32
  trans32-Transposed =
      Fills-all a b 32 32 blocks32 (trans32 32 32 a)
        (for_range-Fills a b _ _
          (λ p.
            for_range-Fills a b _ _
              (λ q.
                for_range-Fills a b _ _
                  (λ k. for_range-Fills a b _ _ (λ d. write-Fills a b (8 * q + d) k) 0 8) (8 * p) 8)
              0 4)
          0 4)
        blocks32_whole tmp

  trans63-Transposed : Transposed 63 65 (trans63 63 65 a start)
  unfolding trans63 blocks63
  trans63-Transposed =
      Fills-all a b 63 65 blocks63 (trans63 63 65 a)
        (for_range-Fills a b _ _
          (λ p.
            for_range-Fills a b _ _
              (λ q.
                for_range-Fills a b _ _
                  (λ k. for_range-Fills a b _ _ (λ l. write-Fills a b l k) (q * 4) (rounds4 63 q))
                  (p * 4) (rounds4 65 p))
              0 17)
          0 17)
        blocks63_whole tmp

-- For every number of columns and rows, transpose_submit leaves in the target, at row j and column i
-- within the transposed matrix, the element of row i and column j, whatever was there and in the
-- scratch array before; and it writes to no cell outside the transposed matrix.
pub transpose_submit_lem {ℓ} :
    {V : Type ℓ} (a b : Matrix V) (tmp : ℕ → V) (m n j i : ℕ)
    → (transpose_submit m n a (record { b = b; tmp = tmp })).b j i
      ≡ (if ltb j m && ltb i n then a i j else b j i)
unfolding transpose_submit
transpose_submit_lem a b tmp m n j i = elim (Bool-cases ((m == n) && (m == 32))) [
  | inl c32 ↦
      let em : m ≡ 32 = ground arith in
      let en : n ≡ 32 = ground arith in rw (em, en) (trans32-Transposed a b tmp j i)
  | inr other ↦ elim (Bool-cases ((m == 63) && (n == 65))) [
    | inl c63 ↦
        let em : m ≡ 63 = ground arith in
        let en : n ≡ 65 = ground arith in rw (em, en) (trans63-Transposed a b tmp j i)
    | inr rest ↦ elim (Bool-cases (m == n)) [
      | inl square ↦ rw (other, rest, square) (trans-Transposed a b tmp m n j i)
      | inr oblong ↦ rw (other, rest, oblong) (trans_tmp-Transposed a b tmp m n j i)
    ]
  ]
]
