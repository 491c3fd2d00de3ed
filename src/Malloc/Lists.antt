-- ===== src/Malloc/Lists.antt =====
-- The segregated free lists of malloclab-s20-bhxxzp/mm.c as lists of blocks: what the links show, and
-- that writes elsewhere leave it so.
use cmu.Common.{
  ℕ, ◌+◌, ◌-◌, ◌*◌, ◌/◌, ◌%◌, ◌^◌, ◌<◌, ◌≤◌, ◌≡◌, refl, ◌≢◌, ◌∙◌, sym, ap, subst, ◌⊎◌, inl, inr,
  Bool, true, false, not, List, [], ◌∷◌, arith, ◌==◌, if◌then◌else◌, Bool-cases, ==-true,
}
use cmu.Malloc.Word.{round_up, get_index, dsize, extract_size}
use cmu.Malloc.Heap.{Heap, get_size, next_of, prev_of}
use cmu.Malloc.SegList.{index_of}
use cmu.Malloc.Index.{get_index_lem}
use cmu.Malloc.Fit.{contains}

abbrev pub first : List ℕ → ℕ
first [] = 0
first (a ∷ xs) = a

abbrev pub once : List ℕ → Bool
once [] = true
once (a ∷ xs) = if contains xs a then false else once xs

-- The blocks `xs`, from `p` on, each linked to the next, and back to the one before if the list is
-- linked both ways.
abbrev pub Chain : Heap → (both : Bool) → (prev p : ℕ) → List ℕ → Type 0
Chain h both prev p [] = p ≡ 0
Chain h both prev p (a ∷ xs) =
    (p ≡ a) × (a ≢ 0) × (both ≡ true → prev_of h a ≡ prev) × Chain h both a (next_of h a) xs

-- The bytes of the one block end before the other begins.
abbrev pub Apart : Heap → ℕ → ℕ → Type 0
Apart h a b = (a + get_size h a ≤ b) ⊎ (b + get_size h b ≤ a)

-- A block whose header says that it belongs to list `i`.
pub record IsBlock (h : Heap) (i a : ℕ) : Type 0 where
  pub aligned : a % 16 ≡ 8
  pub index : index_of h a ≡ i
  pub least : 16 ≤ get_size h a

-- List 0, of blocks of 16 bytes, is linked one way.
abbrev pub both_of : ℕ → Bool
both_of i = not (i == 0)

-- The lists between two operations: linked, of blocks of their own class, and no two blocks overlap.
pub record IsLists (h : Heap) (lists : ℕ → List ℕ) : Type 0 where
  pub chain : (i : ℕ) → i < 14 → Chain h (both_of i) 0 (h.seg_list i) (lists i)
  pub block : (i a : ℕ) → i < 14 → contains (lists i) a ≡ true → IsBlock h i a
  pub apart :
      (i j a b : ℕ)
      → i < 14
      → j < 14
      → contains (lists i) a ≡ true
      → contains (lists j) b ≡ true
      → a ≢ b
      → Apart h a b
  pub once : (i : ℕ) → i < 14 → once (lists i) ≡ true
  pub words : (a : ℕ) → h.mem a < 2 ^ 64
  pub heads : (i : ℕ) → i < 14 → h.seg_list i < 2 ^ 64

-- A block is of 16 bytes exactly when it belongs to list 0.
pub index-mini :
    (h : Heap) (a : ℕ)
    → h.mem a < 2 ^ 64
    → 16 ≤ get_size h a
    → (get_size h a == 16) ≡ (index_of h a == 0)
unfolding get_size extract_size round_up
index-mini h a word least = mini (h.mem a - h.mem a % 16) (omega arith) (omega arith) least
  where
    round : (n : ℕ) → n % 16 ≡ 0 → n < 2 ^ 64 → 16 * ((n + 15) % 2 ^ 64 / 16) % 2 ^ 64 ≡ n
    round n m lt = omega arith

    mini :
        (n : ℕ)
        → n % 16 ≡ 0
        → n < 2 ^ 64
        → 16 ≤ n
        → (n == 16) ≡ (get_index (16 * ((n + 15) % 2 ^ 64 / 16) % 2 ^ 64) == 0)
    mini n m lt ge = rw (round n m lt) (ground (arith, get_index_lem n))

-- The words of a block in list `i` that the lists read.
pub record Same (h g : Heap) (i a : ℕ) : Type 0 where
  pub header : g.mem a ≡ h.mem a
  pub next : g.mem (a + 8) ≡ h.mem (a + 8)
  pub prev : both_of i ≡ true → g.mem (a + 16) ≡ h.mem (a + 16)

pub Chain-Same :
    (h g : Heap) (i prev p : ℕ) (xs : List ℕ)
    → Chain h (both_of i) prev p xs
    → ((a : ℕ) → contains xs a ≡ true → Same h g i a)
    → Chain g (both_of i) prev p xs
unfolding next_of prev_of
Chain-Same h g i prev p [] c same = c
Chain-Same h g i prev p (a ∷ xs) c same =
    let s = same a (ground arith) in
    (
      c.0,
      c.1,
      λ b. s.prev b ∙ c.2 b,
      subst (λ n. Chain g (both_of i) a n xs) (sym s.next)
          (Chain-Same h g i a (h.mem (a + 8)) xs c.3 (λ b m. same b (ground arith))),
    )

-- A header that is as before says what it said.
pub size-header : (h g : Heap) (a : ℕ) → g.mem a ≡ h.mem a → get_size g a ≡ get_size h a
unfolding get_size
size-header h g a e = ap extract_size e

pub index-header : (h g : Heap) (a : ℕ) → g.mem a ≡ h.mem a → index_of g a ≡ index_of h a
index-header h g a e = ap (λ n. get_index (round_up n dsize)) (size-header h g a e)

pub IsBlock-header : (h g : Heap) (i a : ℕ) → g.mem a ≡ h.mem a → IsBlock h i a → IsBlock g i a
IsBlock-header h g i a e b = record {
  aligned = b.aligned;
  index = index-header h g a e ∙ b.index;
  least = subst (λ n. 16 ≤ n) (sym (size-header h g a e)) b.least;
}

pub Apart-header :
    (h g : Heap) (a b : ℕ) → g.mem a ≡ h.mem a → g.mem b ≡ h.mem b → Apart h a b → Apart g a b
Apart-header h g a b e e' (inl le) = inl (omega (arith, size-header h g a e))
Apart-header h g a b e e' (inr le) = inr (omega (arith, size-header h g b e'))

-- The size of a block is a multiple of 16.
pub size-aligned : (h : Heap) (a : ℕ) → get_size h a % 16 ≡ 0
unfolding get_size extract_size
size-aligned h a = omega arith

-- A block of a list that is linked both ways has room for both links.
pub size-wide :
    (h : Heap) (i a : ℕ) → h.mem a < 2 ^ 64 → IsBlock h i a → both_of i ≡ true → 32 ≤ get_size h a
size-wide h i a word b both = elim (Bool-cases (get_size h a == 16)) [
  | inl small ↦
      let e = index-mini h a word b.least in
      absurd (let z : (index_of h a == 0) ≡ true = sym e ∙ small in ground (arith, b.index))
  | inr wide ↦ ground (arith, size-aligned h a, b.least)
]

pub Chain-first :
    (h : Heap) (both : Bool) (prev p : ℕ) (xs : List ℕ)
    → Chain h both prev p xs
    → p ≢ 0
    → contains xs p ≡ true
Chain-first h both prev p [] c ne = absurd (ne c)
Chain-first h both prev p (a ∷ xs) c ne = rw (==-true p a c.0) refl

-- What a call that only links a block into lists, or out of them, may not touch: all but the bodies
-- of blocks.
abbrev pub Beyond : Heap → ℕ → ℕ → Type 0
Beyond h a x = (x ≤ a) ⊎ (a + get_size h a ≤ x)

-- A block that no list holds.
pub record IsUnlisted (h : Heap) (lists : ℕ → List ℕ) (b : ℕ) : Type 0 where
  pub aligned : b % 16 ≡ 8
  pub small : b < 2 ^ 64
  pub least : 16 ≤ get_size h b
  pub apart : (j a : ℕ) → j < 14 → contains (lists j) a ≡ true → Apart h b a

pub index-lt : (h : Heap) (a : ℕ) → index_of h a < 14
index-lt h a = omega (arith, get_index_lem (round_up (get_size h a) dsize))

pub IsUnlisted-IsBlock :
    {h : Heap} {lists : ℕ → List ℕ} {b : ℕ} → IsUnlisted h lists b → IsBlock h (index_of h b) b
IsUnlisted-IsBlock u = record { aligned = u.aligned; index = refl; least = u.least }

pub Apart-sym : (h : Heap) (a b : ℕ) → Apart h a b → Apart h b a
Apart-sym h a b (inl le) = inr le
Apart-sym h a b (inr le) = inl le

pub IsLists-first :
    {h : Heap} {lists : ℕ → List ℕ}
    → IsLists h lists
    → (i : ℕ) → i < 14
    → h.seg_list i ≢ 0
    → contains (lists i) (h.seg_list i) ≡ true
IsLists-first {h} {lists} l i lt ne =
    Chain-first h (both_of i) 0 (h.seg_list i) (lists i) (l.chain i lt) ne
