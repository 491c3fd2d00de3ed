-- ===== src/Common/Search.antt =====
-- The loop `for (i = first; rounds more; i++) if (test(i)) break;` over an array.
use Prim.Native.Nat.{ℕ, zero, suc, ◌+◌, ◌≤◌, ◌<◌}
use mathlib.Core.Path.{◌≡◌, refl}
use mathlib.Core.Logic.{inl, inr}
use mathlib.Core.Bool.{Bool, true, false}
use mathlib.Core.Option.{Option, none, some}
use native.Mathlib.Omega.{arith}
use cmu.Common.Tests.{if◌then◌else◌, Bool-cases, ltb}

unfoldable pub find_index : (ℕ → Bool) → (first rounds : ℕ) → Option ℕ
find_index test i zero = none
find_index test i (suc rounds) = if test i then some i else find_index test (suc i) rounds

module _ (test : ℕ → Bool) where
  -- The loop runs to its end only if every index fails the test.
  pub find_index-none :
      (i rounds : ℕ)
      → find_index test i rounds ≡ none
      → (k : ℕ) → i ≤ k
      → k < i + rounds
      → test k ≡ false
  unfolding find_index
  find_index-none i zero e k lo hi = absurd (omega arith)
  find_index-none i (suc rounds) e k lo hi = elim (Bool-cases (test i)) [
    | inl hit ↦ absurd (let e' : some i ≡ none = rw hit at e in (cc))
    | inr miss ↦ elim (Bool-cases (ltb i k)) [
      | inl later ↦ find_index-none (suc i) rounds (rw miss at e) k (ground arith) (omega arith)
      | inr same ↦ let eq : k ≡ i = ground arith in rw eq miss
    ]
  ]

  -- It breaks at the first index that passes.
  pub find_index-some :
      (i rounds j : ℕ)
      → find_index test i rounds ≡ some j
      → (test j ≡ true) × (i ≤ j) × (j < i + rounds) × ((k : ℕ) → i ≤ k → k < j → test k ≡ false)
  unfolding find_index
  find_index-some i zero j e = absurd (cc)
  find_index-some i (suc rounds) j e = elim (Bool-cases (test i)) [
    | inl hit ↦
        let e' : some i ≡ some j = rw hit at e in
        let eq : j ≡ i = cc in
        (rw eq hit, omega arith, omega arith, λ k lo hi. absurd (omega arith))
    | inr miss ↦
        let r = find_index-some (suc i) rounds j (rw miss at e) in
        (
          r.0,
          omega (arith, r.1),
          omega (arith, r.2),
          λ k lo hi. elim (Bool-cases (ltb i k)) [
            | inl later ↦ r.3 k (ground arith) hi
            | inr same ↦ let eq : k ≡ i = ground arith in rw eq miss
          ],
        )
  ]

  -- An index that passes is found, at itself or before.
  pub find_index-found :
      (i rounds k : ℕ)
      → i ≤ k
      → k < i + rounds
      → test k ≡ true
      → (j : ℕ) × (find_index test i rounds ≡ some j)
  find_index-found i rounds k lo hi hit = go (find_index test i rounds) refl
    where
      go :
          (r : Option ℕ)
          → find_index test i rounds ≡ r
          → (j : ℕ) × (find_index test i rounds ≡ some j)
      go none e = absurd (clash hit (find_index-none i rounds e k lo hi))
        where
          clash : {b : Bool} → b ≡ true → b ≡ false → ⊥
          clash p q = cc
      go (some j) e = (j, e)
