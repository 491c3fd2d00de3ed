-- ===== src/Malloc/Sizes.antt =====
-- The request sizes of malloclab-s20-bhxxzp/mm.c: what malloc rounds them to, and calloc's product.
use native.Mathlib.Nat.{div-mul-le_self, mod-eq_of_lt, mul-div_right}
use cmu.Common.{
  subst, ℕ, ◌+◌, ◌-◌, ◌*◌, ◌/◌, ◌%◌, ◌^◌, ◌≤◌, ◌<◌, ◌≡◌, refl, ◌≢◌, none, some, arith, ==-false,
  ==-true,
}
use cmu.Malloc.Word.{adjusted, round_up}
use cmu.Malloc.Alloc.{calloc_size}

-- Up to 2^64 - 24 bytes, the block is the least multiple of 16 with room for the request and the
-- 8-byte header, and no block is smaller than 16 bytes.
pub adjusted_lem :
    (size : ℕ)
    → size ≤ 2 ^ 64 - 24
    → (size + 8 ≤ adjusted size)
      × (adjusted size < size + 24)
      × (adjusted size % 16 ≡ 0)
      × (16 ≤ adjusted size)
unfolding adjusted round_up
adjusted_lem size h = omega arith

-- The division finds every overflow of calloc's product and nothing else: with at least one element,
-- calloc goes on, with the exact product, when that fits 64 bits, and gives up otherwise. With no
-- elements it divides by zero.
pub calloc_size_lem :
    (elements size : ℕ)
    → (elements ≡ 0 → calloc_size elements size ≡ none)
      × (elements ≢ 0
          → elements * size < 2 ^ 64
          → calloc_size elements size ≡ some (some (elements * size)))
      × (elements ≢ 0 → 2 ^ 64 ≤ elements * size → calloc_size elements size ≡ some none)
unfolding calloc_size
calloc_size_lem elements size = (λ e. rw e, fits, over)
  where
    fits :
        elements ≢ 0
        → elements * size < 2 ^ 64
        → calloc_size elements size ≡ some (some (elements * size))
    fits ne lt = rw (
      ==-false elements 0 ne,
      mod-eq_of_lt lt,
      mul-div_right size (let p : 0 < elements = omega arith in p),
      ==-true size size refl,
    )

    too_small : elements ≢ 0 → 2 ^ 64 ≤ elements * size → elements * size % 2 ^ 64 / elements ≢ size
    too_small ne le e =
        let back : elements * size % 2 ^ 64 / elements * elements ≤ elements * size % 2 ^ 64 =
          div-mul-le_self (elements * size % 2 ^ 64) elements in
        let whole : size * elements ≤ elements * size % 2 ^ 64 =
          subst (λ n. n * elements ≤ elements * size % 2 ^ 64) e back in
        omega (arith)

    over : elements ≢ 0 → 2 ^ 64 ≤ elements * size → calloc_size elements size ≡ some none
    over ne le = rw (
      ==-false elements 0 ne,
      ==-false (elements * size % 2 ^ 64 / elements) size (too_small ne le),
    )
