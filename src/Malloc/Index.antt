-- ===== src/Malloc/Index.antt =====
-- get_index of malloclab-s20-bhxxzp/mm.c: which free list a size belongs to.
use cmu.Common.{
  sym, subst, lt_of_ltb, le_of_ltb, ℕ, zero, suc, ◌+◌, ◌-◌, ◌*◌, ◌^◌, ◌≤◌, ◌<◌, ◌≡◌, refl, ◌⊎◌, inl,
  inr, arith, leb, ltb, Bool-cases, leb-true, le_of_leb, lt_of_leb,
}
use cmu.Malloc.Word.{get_index, index_from}

-- A size that list `j` holds, for a list in the middle.
abbrev pub InClass : ℕ → ℕ → Type 0
InClass asize j = (16 * 2 ^ (j - 1) ≤ asize) × (asize < 16 * 2 ^ j)

index_from-InClass :
    (asize i rounds n : ℕ)
    → n ≡ i + rounds
    → 16 * 2 ^ i ≤ asize
    → asize < 16 * 2 ^ n
    → let j = index_from asize (suc i) rounds in (suc i ≤ j) × (j ≤ n) × InClass asize j
unfolding index_from
index_from-InClass asize i zero n e lo hi =
    let same : n ≡ i = omega arith in
    absurd (let hi' : asize < 16 * 2 ^ i = subst (λ k. asize < 16 * 2 ^ k) same hi in omega arith)
index_from-InClass asize i (suc rounds) n e lo hi =
    let one_less : suc i - 1 ≡ i = omega arith in
    let low : 16 * 2 ^ (suc i - 1) ≤ asize = subst (λ k. 16 * 2 ^ k ≤ asize) (sym one_less) lo in
    elim (Bool-cases (ltb asize (16 * 2 ^ suc i))) [
      | inl below ↦
          rw (leb-true (16 * 2 ^ (suc i - 1)) asize low, below)
            (omega arith, omega arith, (low, lt_of_ltb asize (16 * 2 ^ suc i) below))
      | inr above ↦
          let r =
            index_from-InClass asize (suc i) rounds n (omega arith)
              (le_of_ltb asize (16 * 2 ^ suc i) above) hi in
          rw (leb-true (16 * 2 ^ (suc i - 1)) asize low, above) (omega (arith, r.0), r.1, r.2)
    ]

-- Every list holds one range of sizes: the first those up to 16, the last those from 65536 on, and
-- list j in between those from 16 * 2^(j-1) on and below 16 * 2^j. So the loop always returns an
-- index, and a block of more than 16 bytes never comes into the first list.
pub get_index_lem :
    (asize : ℕ)
    → let j = get_index asize in
      (asize ≤ 16) × (j ≡ 0)
      ⊎ ((65536 ≤ asize) × (j ≡ 13)
          ⊎ (1 ≤ j) × (j ≤ 12) × (16 < asize) × (asize < 65536) × InClass asize j)
unfolding get_index
get_index_lem asize = elim (Bool-cases (leb asize 16)) [
  | inl small ↦ rw small (inl (le_of_leb asize 16 small, refl))
  | inr more ↦ elim (Bool-cases (leb 65536 asize)) [
    | inl big ↦ rw (more, big) (inr (inl (le_of_leb 65536 asize big, refl)))
    | inr mid ↦
        let lo = lt_of_leb asize 16 more in
        let hi = lt_of_leb 65536 asize mid in
        let r = index_from-InClass asize 0 12 12 refl (omega arith) (omega arith) in
        rw (more, mid) (inr (inr (r.0, r.1, lo, hi, r.2)))
  ]
]
