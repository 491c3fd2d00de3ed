-- ===== src/Malloc/Copy/Bytes.antt =====
-- What realloc copies and calloc clears, in malloclab-s20-bhxxzp/mm.c, byte for byte.
use cmu.Common.{
  ℕ, zero, suc, ◌+◌, ◌-◌, ◌*◌, ◌/◌, ◌%◌, ◌^◌, ◌<◌, ◌≤◌, ◌≡◌, refl, ◌≢◌, ◌∙◌, sym, ap, ◌⊎◌, inl, inr,
  none, some, arith, ◌==◌, if◌then◌else◌, Bool-cases, eq_of_==, ne_of_==, ==-false, update,
  update_self, update_ne,
}
use cmu.Malloc.Heap.{Heap, store}
use cmu.Malloc.Heap.{get_payload_size}
use cmu.Malloc.Alloc.{◌>>=◌, malloc, free}
use cmu.Malloc.Sizes.{calloc_size_lem}
use cmu.Malloc.Copy.{
  copy_words, low_bytes, copy_bytes, clear_words, clear_bytes, copysize_of, move_to, realloc,
  clear_new, calloc,
}

low_bytes_lem :
    (r w old : ℕ)
    → r < 8
    → (low_bytes r w old % 2 ^ (8 * r) ≡ w % 2 ^ (8 * r))
      × (low_bytes r w old / 2 ^ (8 * r) ≡ old / 2 ^ (8 * r))
low_bytes_lem zero w old lt = omega arith
low_bytes_lem (suc zero) w old lt = omega arith
low_bytes_lem (suc (suc zero)) w old lt = omega arith
low_bytes_lem (suc (suc (suc zero))) w old lt = omega arith
low_bytes_lem (suc (suc (suc (suc zero)))) w old lt = omega arith
low_bytes_lem (suc (suc (suc (suc (suc zero))))) w old lt = omega arith
low_bytes_lem (suc (suc (suc (suc (suc (suc zero)))))) w old lt = omega arith
low_bytes_lem (suc (suc (suc (suc (suc (suc (suc zero))))))) w old lt = omega arith
low_bytes_lem (suc (suc (suc (suc (suc (suc (suc (suc r)))))))) w old lt = absurd (omega arith)

-- The first `n` bytes at `to` are those that `word` gives for their words, and all else is as in `h`.
pub record IsFilled (h g : Heap) (n to : ℕ) (word : ℕ → ℕ) : Type 0 where
  pub words : (k : ℕ) → k < n / 8 → g.mem (to + 8 * k) ≡ word k
  pub last :
      n % 8 ≢ 0 → g.mem (to + 8 * (n / 8)) % 2 ^ (8 * (n % 8)) ≡ word (n / 8) % 2 ^ (8 * (n % 8))
  pub above :
      n % 8 ≢ 0
      → g.mem (to + 8 * (n / 8)) / 2 ^ (8 * (n % 8)) ≡ h.mem (to + 8 * (n / 8)) / 2 ^ (8 * (n % 8))
  pub rest : (x : ℕ) → ((k : ℕ) → 8 * k < n → x ≢ to + 8 * k) → g.mem x ≡ h.mem x

copy_words_lem :
    (n from to : ℕ) (h : Heap)
    → (from + 8 * n ≤ to) ⊎ (to + 8 * n ≤ from)
    → ((k : ℕ) → k < n → (copy_words n from to h).mem (to + 8 * k) ≡ h.mem (from + 8 * k))
      × ((x : ℕ) → ((k : ℕ) → k < n → x ≢ to + 8 * k) → (copy_words n from to h).mem x ≡ h.mem x)
unfolding copy_words store
copy_words_lem zero from to h d = (λ k lt. absurd (omega arith), λ x ne. refl)
copy_words_lem (suc n) from to h d =
    let h1 : Heap = record h { mem = update h.mem to (h.mem from) } in
    let ih = copy_words_lem n (from + 8) (to + 8) h1 (omega arith) in
    let rest = λ (x : ℕ) (ne : (k : ℕ) → k < suc n → x ≢ to + 8 * k).
      ih.1 x (λ k lt e. ne (suc k) (omega arith) (omega arith))
      ∙ update_ne h.mem to x (h.mem from) (λ e. ne 0 (omega arith) (omega arith)) in
    (
      λ k lt. elim (Bool-cases (k == 0)) [
        | inl z ↦
            let e : to + 8 * k ≡ to = omega (arith, eq_of_== k 0 z) in
            let e' : from ≡ from + 8 * k = omega (arith, eq_of_== k 0 z) in
            ap (copy_words n (from + 8) (to + 8) h1).mem e
            ∙ ih.1 to (λ j lt' y. omega arith)
            ∙ update_self h.mem to (h.mem from)
            ∙ ap h.mem e'
        | inr z ↦
            let p : k ≢ 0 = ne_of_== k 0 z in
            let e : to + 8 * k ≡ to + 8 + 8 * (k - 1) = omega arith in
            let e' : from + 8 + 8 * (k - 1) ≡ from + 8 * k = omega arith in
            ap (copy_words n (from + 8) (to + 8) h1).mem e
            ∙ ih.0 (k - 1) (omega arith)
            ∙ update_ne h.mem to (from + 8 + 8 * (k - 1)) (h.mem from) (λ y. omega arith)
            ∙ ap h.mem e'
      ],
      rest,
    )

clear_words_lem :
    (n to : ℕ) (h : Heap)
    → ((k : ℕ) → k < n → (clear_words n to h).mem (to + 8 * k) ≡ 0)
      × ((x : ℕ) → ((k : ℕ) → k < n → x ≢ to + 8 * k) → (clear_words n to h).mem x ≡ h.mem x)
unfolding clear_words store
clear_words_lem zero to h = (λ k lt. absurd (omega arith), λ x ne. refl)
clear_words_lem (suc n) to h =
    let h1 : Heap = record h { mem = update h.mem to 0 } in
    let ih = clear_words_lem n (to + 8) h1 in
    (
      λ k lt. elim (Bool-cases (k == 0)) [
        | inl z ↦
            let e : to + 8 * k ≡ to = omega (arith, eq_of_== k 0 z) in
            ap (clear_words n (to + 8) h1).mem e
            ∙ ih.1 to (λ j lt' y. omega arith)
            ∙ update_self h.mem to 0
        | inr z ↦
            let p : k ≢ 0 = ne_of_== k 0 z in
            let e : to + 8 * k ≡ to + 8 + 8 * (k - 1) = omega arith in
            ap (clear_words n (to + 8) h1).mem e ∙ ih.0 (k - 1) (omega arith)
      ],
      λ x ne.
          ih.1 x (λ k lt e. ne (suc k) (omega arith) (omega arith))
          ∙ update_ne h.mem to x 0 (λ e. ne 0 (omega arith) (omega arith)),
    )

-- Whole words first, then the low bytes of one more.
IsFilled-last :
    (h g : Heap) (n to w : ℕ) (word : ℕ → ℕ)
    → ((k : ℕ) → k < n / 8 → g.mem (to + 8 * k) ≡ word k)
    → ((x : ℕ) → ((k : ℕ) → k < n / 8 → x ≢ to + 8 * k) → g.mem x ≡ h.mem x)
    → w ≡ word (n / 8)
    → IsFilled h
        (if n % 8 == 0
          then g
          else store (to + 8 * (n / 8)) (low_bytes (n % 8) w (g.mem (to + 8 * (n / 8)))) g)
        n
        to
        word
unfolding store
IsFilled-last h g n to w word whole rest e = elim (Bool-cases (n % 8 == 0)) [
  | inl even ↦ rw even (record {
    words = whole;
    last = λ ne. absurd (ne (eq_of_== (n % 8) 0 even));
    above = λ ne. absurd (ne (eq_of_== (n % 8) 0 even));
    rest = λ x ne. rest x (λ k lt. ne k (omega arith));
  })
  | inr odd ↦
      let x = to + 8 * (n / 8) in
      let v = low_bytes (n % 8) w (g.mem x) in
      let b = low_bytes_lem (n % 8) w (g.mem x) (omega arith) in
      let old : g.mem x ≡ h.mem x = rest x (λ k lt y. omega arith) in
      rw odd (record {
        words = λ k lt. update_ne g.mem x (to + 8 * k) v (λ y. omega arith) ∙ whole k lt;
        last = λ ne.
            ap (λ t. t % 2 ^ (8 * (n % 8))) (update_self g.mem x v)
            ∙ b.0
            ∙ ap (λ t. t % 2 ^ (8 * (n % 8))) e;
        above = λ ne.
            ap (λ t. t / 2 ^ (8 * (n % 8))) (update_self g.mem x v)
            ∙ b.1
            ∙ ap (λ t. t / 2 ^ (8 * (n % 8))) old;
        rest = λ y ne.
            update_ne g.mem x y v (λ z. ne (n / 8) (omega (arith, ne_of_== (n % 8) 0 odd)) (sym z))
            ∙ rest y (λ k lt. ne k (omega arith));
      })
]

copy_bytes-IsFilled :
    (n from to : ℕ) (h : Heap)
    → (from + n + 8 ≤ to) ⊎ (to + n + 8 ≤ from)
    → IsFilled h (copy_bytes n from to h) n to (λ k. h.mem (from + 8 * k))
unfolding copy_bytes
copy_bytes-IsFilled n from to h d =
    let c = copy_words_lem (n / 8) from to h (omega arith) in
    IsFilled-last h (copy_words (n / 8) from to h) n to
      ((copy_words (n / 8) from to h).mem (from + 8 * (n / 8))) (λ k. h.mem (from + 8 * k)) c.0 c.1
      (c.1 (from + 8 * (n / 8)) (λ k lt e. omega arith))

clear_bytes-IsFilled : (n to : ℕ) (h : Heap) → IsFilled h (clear_bytes n to h) n to (λ k. 0)
unfolding clear_bytes
clear_bytes-IsFilled n to h =
    let c = clear_words_lem (n / 8) to h in
    IsFilled-last h (clear_words (n / 8) to h) n to 0 (λ k. 0) c.0 c.1 refl

-- realloc of a block to a size that is not 0, by what malloc gives. If malloc fails, the answer is the
-- null pointer and the heap is as malloc left it, so the old block is kept. If it gives a block apart
-- from the old one, then the bytes that fit in both, that is, the lesser of the request and of what
-- the old block holds, are copied, byte for byte, and nothing else is written, before the old block is freed and the new one returned.
pub realloc_lem :
    (ptr size new : ℕ) (h h1 : Heap)
    → size ≢ 0
    → ptr ≢ 0
    → malloc size h ≡ some (new, h1)
    → let n = copysize_of h1 ptr size in
      (new ≢ 0 → (ptr + n + 8 ≤ new) ⊎ (new + n + 8 ≤ ptr))
      → (new ≡ 0 → realloc ptr size h ≡ some (0, h1))
        × (new ≢ 0
            → (h2 : Heap) × (realloc ptr size h ≡ (free ptr h2 >>= λ h3. some (new, h3)))
              × IsFilled h1 h2 n new (λ k. h1.mem (ptr + 8 * k))
              × (n ≤ size)
              × (n ≤ get_payload_size h1 (ptr - 8))
              × ((n ≡ size) ⊎ (n ≡ get_payload_size h1 (ptr - 8))))
unfolding realloc move_to copysize_of
realloc_lem ptr size new h h1 s p m d = (
  λ z. rw (==-false size 0 s, ==-false ptr 0 p, m, z) refl,
  λ nz.
      let n = copysize_of h1 ptr size in
      (
        copy_bytes n ptr new h1,
        rw (==-false size 0 s, ==-false ptr 0 p, m, ==-false new 0 nz) refl,
        copy_bytes-IsFilled n ptr new h1 (d nz),
        ground arith,
        ground arith,
        ground arith,
      ),
)

-- calloc by what malloc gives. With no elements the code divides by 0; if the product overflows, or
-- malloc fails, the answer is the null pointer; otherwise all `elements * size` bytes of the block
-- are 0 and no other byte is written.
pub calloc_lem :
    (elements size new : ℕ) (h h1 : Heap)
    → malloc (elements * size) h ≡ some (new, h1)
    → (elements ≡ 0 → calloc elements size h ≡ none)
      × (elements ≢ 0 → 2 ^ 64 ≤ elements * size → calloc elements size h ≡ some (0, h))
      × (elements ≢ 0 → elements * size < 2 ^ 64 → new ≡ 0 → calloc elements size h ≡ some (0, h1))
      × (elements ≢ 0
          → elements * size < 2 ^ 64
          → new ≢ 0
          → (g : Heap) × (calloc elements size h ≡ some (new, g))
            × IsFilled h1 g (elements * size) new (λ k. 0))
unfolding calloc clear_new
calloc_lem elements size new h h1 m =
    let c = calloc_size_lem elements size in
    (
      λ z. rw (c.0 z, calloc) refl,
      λ nz over. rw (c.2 nz over, calloc) refl,
      λ nz w z. rw (c.1 nz w, calloc, m, z) refl,
      λ nz w y. (
        clear_bytes (elements * size) new h1,
        rw (c.1 nz w, calloc, m, ==-false new 0 y) refl,
        clear_bytes-IsFilled (elements * size) new h1,
      ),
    )
