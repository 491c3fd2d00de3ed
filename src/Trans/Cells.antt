-- ===== src/Trans/Cells.antt =====
-- Which cells of the target a loop of cachelab-s20-bhxxzp/trans.c fills.
use mathlib.Core.Bool.{or-true, or-false, or_assoc}
use cmu.Common.{
  ◌%◌, update_self, ℕ, zero, suc, ◌+◌, ◌*◌, ◌≤◌, ◌<◌, ◌≡◌, refl, ◌∙◌, sym, ap, inl, inr, Bool, true,
  false, ◌&&◌, ◌||◌, ◌==◌, ltb, if◌then◌else◌, update, arith, Bool-cases,
}
use cmu.Trans.{Matrix, State, for_range, write, through_tmp}

-- A set of cells of the target, by row and column.
abbrev pub Cells : Type 0
Cells = ℕ → ℕ → Bool

abbrev pub single : ℕ → ℕ → Cells
single j i j' i' = (j' == j) && (i' == i)

-- The cells of a run of rounds.
pub union : (ℕ → Cells) → (first rounds : ℕ) → Cells
union s i zero j' i' = false
union s i (suc rounds) j' i' = s i j' i' || union s (suc i) rounds j' i'

pub union-intro :
    (s : ℕ → Cells) (i rounds k j' i' : ℕ)
    → i ≤ k
    → k < i + rounds
    → s k j' i' ≡ true
    → union s i rounds j' i' ≡ true
unfolding union
union-intro s i zero k j' i' lo hi h = absurd (omega arith)
union-intro s i (suc rounds) k j' i' lo hi h = elim (Bool-cases (ltb i k)) [
  | inl later ↦
      let r = union-intro s (suc i) rounds k j' i' (ground arith) (omega arith) h in
      ground (arith, r)
  | inr now ↦ let e : k ≡ i = ground arith in let h' : s i j' i' ≡ true = rw e at h in rw h'
]

pub union-elim :
    (s : ℕ → Cells) (i rounds j' i' : ℕ)
    → union s i rounds j' i' ≡ true
    → (k : ℕ) × (i ≤ k) × (k < i + rounds) × (s k j' i' ≡ true)
unfolding union
union-elim s i zero j' i' h = absurd (cc)
union-elim s i (suc rounds) j' i' h = elim (Bool-cases (s i j' i')) [
  | inl here ↦ (i, omega arith, omega arith, here)
  | inr there ↦
      let (k, lo, hi, e) = union-elim s (suc i) rounds j' i' (rw there at h) in
      (k, omega arith, omega arith, e)
]

module _ {ℓ} {V : Type ℓ} (a b : Matrix V) where
  -- The cells in the set hold the transposed element, all others what they held at the start.
  abbrev pub Filled : Cells → State V → Type ℓ
  Filled done s = (j i : ℕ) → s.b j i ≡ (if done j i then a i j else b j i)

  -- Running the body fills these cells besides those filled before.
  abbrev pub Fills : Cells → (State V → State V) → Type ℓ
  Fills cells body =
      (done : Cells) (s : State V) → Filled done s → Filled (λ j i. done j i || cells j i) (body s)

  pub write-Fills : (j i : ℕ) → Fills (single j i) (write j i (a i j))
  unfolding write
  write-Fills j i done s f j' i' = elim (Bool-cases (single j i j' i')) [
    | inl here ↦
        let e : j' ≡ j = ground arith in
        let e' : i' ≡ i = ground arith in rw (here, or-true (done j' i')) (rw (e, e'))
    | inr there ↦ rw (there, or-false (done j' i')) (f j' i')
  ]

  pub through_tmp-Fills : (j i : ℕ) → Fills (single j i) (through_tmp j i (a i j))
  unfolding through_tmp
  through_tmp-Fills j i done s f j' i' =
      let t = 2 * (i % 2) + j % 2 in
      rw (update_self s.tmp t (a i j))
        (write-Fills j i done (record s { tmp = update s.tmp t (a i j) }) f j' i')

  pub for_range-Fills :
      (cells : ℕ → Cells) (body : ℕ → State V → State V)
      → ((k : ℕ) → Fills (cells k) (body k))
      → (first rounds : ℕ) → Fills (union cells first rounds) (for_range first rounds body)
  unfolding union for_range
  for_range-Fills cells body each first zero done s f j i = rw (or-false (done j i)) (f j i)
  for_range-Fills cells body each first (suc rounds) done s f j i =
      rw (← or_assoc (done j i) (cells first j i) (union cells (suc first) rounds j i)) (
        for_range-Fills cells body each (suc first) rounds (λ j i. done j i || cells first j i)
          (body first s) (each first done s f) j i)

  -- A body that fills exactly the cells of a matrix of `m` rows and `n` columns transposes.
  pub Fills-all :
      (m n : ℕ) (cells : Cells) (body : State V → State V)
      → Fills cells body
      → ((j i : ℕ) → cells j i ≡ (ltb j m && ltb i n))
      → (tmp : ℕ → V) (j i : ℕ)
      → (body (record { b = b; tmp = tmp })).b j i ≡ (if ltb j m && ltb i n then a i j else b j i)
  Fills-all m n cells body fills whole tmp j i =
      fills (λ j i. false) (record { b = b; tmp = tmp }) (λ j i. refl) j i
      ∙ ap (λ t. if t then a i j else b j i) (whole j i)

-- Two tests that hold together are equal.
pub Bool_ext : (p q : Bool) → (p ≡ true → q ≡ true) → (q ≡ true → p ≡ true) → p ≡ q
Bool_ext true q f g = sym (f refl)
Bool_ext false true f g = g refl
Bool_ext false false f g = refl
