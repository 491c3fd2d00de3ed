-- ===== src/Malloc/Delete/Without.antt =====
-- A chain of blocks of malloclab-s20-bhxxzp/mm.c without one of them.
use cmu.Common.{
  ℕ, zero, suc, ◌+◌, ◌≡◌, refl, ◌≢◌, ◌∙◌, sym, subst, ◌<◌, ◌^◌, ◌⊎◌, inl, inr, Bool, true, false,
  List, [], ◌∷◌, ◌||◌, arith, ◌==◌, if◌then◌else◌, Bool-cases, eq_of_==, ==-false, ==-true, length,
  some,
}
use cmu.Malloc.Heap.{Heap, next_of, prev_of}
use cmu.Malloc.SegList.{before}
use cmu.Malloc.Fit.{contains}
use cmu.Malloc.Lists.{once, Chain, Chain-first}

abbrev pub remove : List ℕ → ℕ → List ℕ
remove [] b = []
remove (a ∷ xs) b = if a == b then xs else a ∷ remove xs b

-- The block before `b`, if `q` stands before the list.
abbrev pub pred : ℕ → List ℕ → ℕ → ℕ
pred q [] b = q
pred q (a ∷ xs) b = if a == b then q else pred a xs b

pub contains-remove :
    (xs : List ℕ) (a b : ℕ)
    → once xs ≡ true
    → contains (remove xs b) a ≡ true
    → (contains xs a ≡ true) × (a ≢ b)
contains-remove [] a b o m = absurd (cc)
contains-remove (c ∷ xs) a b o m = elim (Bool-cases (c == b)) [
  | inl at ↦
      let m' : contains xs a ≡ true = rw at at m in (ground arith, λ e. absurd (ground arith))
  | inr past ↦
      let m' : ((a == c) || contains (remove xs b) a) ≡ true = rw past at m in
      elim (Bool-cases (a == c)) [
        | inl here ↦ (rw here refl, λ e. absurd (ground arith))
        | inr there ↦
            let r = contains-remove xs a b (ground arith) (rw there at m') in (rw there r.0, r.1)
      ]
]

pub once-remove : (xs : List ℕ) (b : ℕ) → once xs ≡ true → once (remove xs b) ≡ true
once-remove [] b o = refl
once-remove (c ∷ xs) b o = elim (Bool-cases (c == b)) [
  | inl at ↦ rw at (ground arith)
  | inr past ↦
      let o' : once xs ≡ true = ground arith in
      elim (Bool-cases (contains (remove xs b) c)) [
        | inl m ↦ absurd (let r = contains-remove xs c b o' m in ground arith)
        | inr out ↦ rw (past, out) (once-remove xs b o')
      ]
]

-- A block is preceded by one of the list, or it is the first.
pub pred-in :
    (q : ℕ) (xs : List ℕ) (b : ℕ)
    → contains xs b ≡ true
    → (pred q xs b ≡ q) ⊎ (contains xs (pred q xs b) ≡ true)
pred-in q [] b m = absurd (cc)
pred-in q (a ∷ xs) b m = elim (Bool-cases (a == b)) [
  | inl at ↦ rw at (inl refl)
  | inr past ↦
      let m' : contains xs b ≡ true = ground arith in
      rw past (elim (pred-in a xs b m') [
        | inl e ↦ inr (rw (==-true _ _ e) refl)
        | inr r ↦ inr (ground arith)
      ])
]

pub Chain-next :
    (h : Heap) (both : Bool) (q s : ℕ) (xs : List ℕ) (b : ℕ)
    → Chain h both q s xs
    → contains xs b ≡ true
    → h.mem (b + 8) ≢ 0
    → contains xs (h.mem (b + 8)) ≡ true
unfolding next_of
Chain-next h both q s [] b c m ne = absurd (cc)
Chain-next h both q s (a ∷ xs) b c m ne = elim (Bool-cases (b == a)) [
  | inl at ↦
      let e : a ≡ b = sym (eq_of_== b a at) in
      let r =
        Chain-first h both a (h.mem (a + 8)) xs c.3 (subst (λ n. h.mem (n + 8) ≢ 0) (sym e) ne) in
      let r' : contains xs (h.mem (b + 8)) ≡ true =
        subst (λ n. contains xs (h.mem (n + 8)) ≡ true) e r in
      ground arith
  | inr past ↦
      let r = Chain-next h both a (h.mem (a + 8)) xs b c.3 (rw past at m) ne in ground arith
]

pub Chain-prev :
    (h : Heap) (q s : ℕ) (xs : List ℕ) (b : ℕ)
    → Chain h true q s xs
    → contains xs b ≡ true
    → h.mem (b + 16) ≡ pred q xs b
unfolding next_of prev_of
Chain-prev h q s [] b c m = absurd (cc)
Chain-prev h q s (a ∷ xs) b c m = elim (Bool-cases (a == b)) [
  | inl at ↦ rw at (subst (λ n. h.mem (n + 16) ≡ q) (eq_of_== a b at) (c.2 refl))
  | inr past ↦ rw past (Chain-prev h a (h.mem (a + 8)) xs b c.3 (ground arith))
]

-- The loop of delete_block finds the block before.
pub before-pred :
    (h : Heap) (both : Bool) (q s : ℕ) (xs : List ℕ) (b fuel : ℕ)
    → Chain h both q s xs
    → contains xs b ≡ true
    → length xs < fuel
    → before h b fuel q s ≡ some (pred q xs b)
unfolding before next_of
before-pred h both q s xs b zero c m lt = absurd (omega arith)
before-pred h both q s [] b (suc fuel) c m lt = absurd (cc)
before-pred h both q s (a ∷ xs) b (suc fuel) c m lt = elim (Bool-cases (a == b)) [
  | inl at ↦ rw (c.0, at) refl
  | inr past ↦
      rw (c.0, past, ==-false a 0 c.1)
        (before-pred h both a (h.mem (a + 8)) xs b fuel c.3 (ground arith) (omega arith))
]

pub Chain-small :
    (h : Heap) (both : Bool) (q s : ℕ) (xs : List ℕ) (b : ℕ)
    → Chain h both q s xs
    → ((x : ℕ) → h.mem x < 2 ^ 64)
    → s < 2 ^ 64
    → contains xs b ≡ true
    → b < 2 ^ 64
unfolding next_of
Chain-small h both q s [] b c words lt m = absurd (cc)
Chain-small h both q s (a ∷ xs) b c words lt m = elim (Bool-cases (b == a)) [
  | inl at ↦ omega (arith, eq_of_== b a at)
  | inr past ↦ Chain-small h both a (h.mem (a + 8)) xs b c.3 words (words (a + 8)) (rw past at m)
]

pub remove_still :
    (xs : List ℕ) (a b : ℕ) → contains xs a ≡ true → a ≢ b → contains (remove xs b) a ≡ true
remove_still [] a b m ne = absurd (cc)
remove_still (c ∷ xs) a b m ne = elim (Bool-cases (a == c)) [
  | inl at ↦
      let past : (c == b) ≡ false = ==-false c b (λ e. ne (eq_of_== a c at ∙ e)) in
      rw (past, at) refl
  | inr later ↦
      let m' : contains xs a ≡ true = rw later at m in
      elim (Bool-cases (c == b)) [
        | inl gone ↦ rw gone m'
        | inr stays ↦ rw (stays, later) (remove_still xs a b m' ne)
      ]
]
