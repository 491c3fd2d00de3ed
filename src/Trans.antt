-- ===== src/Trans.antt =====
-- The matrix transpositions of cachelab-s20-bhxxzp/trans.c, over elements of any type. A matrix is a
-- function of row and column; a write outside the matrix would show as a change there.
pub mod Cells
pub mod Correct
mod Tests
use cmu.Common.{ℕ, zero, suc, ◌+◌, ◌-◌, ◌*◌, ◌/◌, ◌%◌, Bool, ◌&&◌, ◌==◌, ltb, if◌then◌else◌, update}

-- `for (i = first; rounds more; i++) body(i);`
unfoldable pub for_range {ℓ} : {S : Type ℓ} → (first rounds : ℕ) → (ℕ → S → S) → S → S
for_range i zero body s = s
for_range i (suc rounds) body s = for_range (suc i) rounds body (body i s)

abbrev pub Matrix {ℓ} : Type ℓ → Type ℓ
Matrix V = ℕ → ℕ → V

-- What the functions write to: the matrix `B` and the array `tmp`.
pub record State {ℓ} (V : Type ℓ) : Type ℓ where
  pub b : Matrix V
  pub tmp : ℕ → V

-- The rounds of `for (k = 4 * p; k < MIN(bound, 4 * p + 4); k++)`.
abbrev pub rounds4 : (bound p : ℕ) → ℕ
rounds4 bound p = (if ltb bound (p * 4 + 4) then bound else p * 4 + 4) - p * 4

module _ {ℓ} {V : Type ℓ} where
  -- `B[j][i] = v`
  unfoldable pub write : (j i : ℕ) → V → State V → State V
  write j i v s = record s { b = λ j' i'. if (j' == j) && (i' == i) then v else s.b j' i' }

  unfoldable pub trans : (m n : ℕ) → Matrix V → State V → State V
  trans m n a = for_range 0 n (λ i. for_range 0 m (λ j. write j i (a i j)))

  -- Blocks of 8 by 8. The eight reads come before the eight writes, and `A` is not written.
  unfoldable pub trans32 : (m n : ℕ) → Matrix V → State V → State V
  trans32 m n a = for_range 0 ((n + 7) / 8) λ p.
      for_range 0 ((m + 7) / 8)
        λ q. for_range (8 * p) 8 λ k. for_range 0 8 (λ d. write (8 * q + d) k (a k (8 * q + d)))

  unfoldable pub trans63 : (m n : ℕ) → Matrix V → State V → State V
  trans63 m n a = for_range 0 ((65 + 4 - 1) / 4) λ p. for_range 0 ((65 + 4 - 1) / 4) λ q.
      for_range (p * 4) (rounds4 n p) λ k. for_range (q * 4) (rounds4 m q) λ l. write l k (a k l)

  unfoldable pub through_tmp : (j i : ℕ) → V → State V → State V
  unfolding write
  through_tmp j i v s =
      let t = 2 * (i % 2) + j % 2 in
      let s1 : State V = record s { tmp = update s.tmp t v } in write j i (s1.tmp t) s1

  unfoldable pub trans_tmp : (m n : ℕ) → Matrix V → State V → State V
  trans_tmp m n a = for_range 0 n (λ i. for_range 0 m (λ j. through_tmp j i (a i j)))

  unfoldable pub transpose_submit : (m n : ℕ) → Matrix V → State V → State V
  transpose_submit m n a =
      if (m == n) && (m == 32)
      then trans32 m n a
      else if (m == 63) && (n == 65)
      then trans63 m n a
      else if m == n
      then trans m n a
      else trans_tmp m n a
