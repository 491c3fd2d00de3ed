-- ===== src/Jobs/Loops.antt =====
-- The loops over the job list, and the well-formedness of the shell's memory.
use cmu.Common.{
  refl, ℕ, zero, suc, ◌+◌, ◌≤◌, ◌<◌, ◌≡◌, inl, inr, Bool, true, false, arith, ltb, Bool-cases,
  ltb-true,
}
use cmu.Common.Int.{pos}
use cmu.Jobs.{Job, is_undef, used, maxjid_from, first_jid}

module _ (test : Job → Bool) (jobs : ℕ → Job) where
  -- The loop returns 0 only if every place fails the test.
  pub first_jid-zero :
      (i rounds : ℕ)
      → first_jid test jobs i rounds ≡ 0
      → (k : ℕ) → i ≤ k
      → k < i + rounds
      → test (jobs k) ≡ false
  unfolding first_jid
  first_jid-zero i zero e k lo hi = absurd (omega arith)
  first_jid-zero i (suc rounds) e k lo hi = elim (Bool-cases (test (jobs i))) [
    | inl hit ↦ absurd (let e' : suc i ≡ 0 = rw hit at e in omega arith)
    | inr miss ↦ elim (Bool-cases (ltb i k)) [
      | inl later ↦ first_jid-zero (suc i) rounds (rw miss at e) k (ground arith) (omega arith)
      | inr same ↦ let eq : k ≡ i = ground arith in rw eq miss
    ]
  ]

  -- Otherwise it returns the id of the first place that passes.
  pub first_jid-suc :
      (i rounds j : ℕ)
      → first_jid test jobs i rounds ≡ suc j
      → (test (jobs j) ≡ true)
        × (i ≤ j)
        × (j < i + rounds)
        × ((k : ℕ) → i ≤ k → k < j → test (jobs k) ≡ false)
  unfolding first_jid
  first_jid-suc i zero j e = absurd (omega arith)
  first_jid-suc i (suc rounds) j e = elim (Bool-cases (test (jobs i))) [
    | inl hit ↦
        let e' : suc i ≡ suc j = rw hit at e in
        let eq : j ≡ i = omega arith in
        (rw eq hit, omega arith, omega arith, λ k lo hi. absurd (omega arith))
    | inr miss ↦
        let r = first_jid-suc (suc i) rounds j (rw miss at e) in
        (
          r.0,
          omega (arith, r.1),
          omega (arith, r.2),
          λ k lo hi. elim (Bool-cases (ltb i k)) [
            | inl later ↦ r.3 k (ground arith) hi
            | inr same ↦ let eq : k ≡ i = ground arith in rw eq miss
          ],
        )
  ]

-- `maxjid` is the last place in use, seen from above and from the place itself.
module _ (jobs : ℕ → Job) where
  pub maxjid_from-le : (n : ℕ) → maxjid_from jobs n ≤ n
  unfolding maxjid_from
  maxjid_from-le zero = omega arith
  maxjid_from-le (suc n) = ground (arith, maxjid_from-le n)

  pub maxjid_from-above :
      (n i : ℕ) → n ≤ 64 → maxjid_from jobs n ≤ i → i < n → is_undef (jobs i).state ≡ true
  unfolding maxjid_from
  maxjid_from-above zero i b lo hi = absurd (omega arith)
  maxjid_from-above (suc n) i b lo hi = elim (Bool-cases (used jobs (pos (suc n)))) [
    | inl yes_used ↦ absurd (let lo' : suc n ≤ i = rw yes_used at lo in omega arith)
    | inr unused ↦ elim (Bool-cases (ltb i n)) [
      | inl below ↦ maxjid_from-above n i (omega arith) (rw unused at lo) (ground arith)
      | inr top ↦ let eq : i ≡ n = ground arith in rw eq (ground (arith, ltb-true n 64))
    ]
  ]

  pub maxjid_from-used : (n i : ℕ) → maxjid_from jobs n ≡ suc i → is_undef (jobs i).state ≡ false
  unfolding maxjid_from
  maxjid_from-used zero i e = absurd (omega arith)
  maxjid_from-used (suc n) i e = elim (Bool-cases (used jobs (pos (suc n)))) [
    | inl yes_used ↦
        let e' : suc n ≡ suc i = rw yes_used at e in
        let eq : i ≡ n = omega arith in rw eq (ground arith)
    | inr unused ↦ maxjid_from-used n i (rw unused at e)
  ]

  -- The last place in use, with only free places behind it, is what the loop finds.
  pub maxjid_from-eq :
      (n i : ℕ)
      → n ≤ 64
      → i < n
      → is_undef (jobs i).state ≡ false
      → ((k : ℕ) → i < k → k < n → is_undef (jobs k).state ≡ true)
      → maxjid_from jobs n ≡ suc i
  unfolding maxjid_from
  maxjid_from-eq zero i b h u free = absurd (omega arith)
  maxjid_from-eq (suc n) i b h u free = elim (Bool-cases (ltb i n)) [
    | inl below ↦
        let free_n = free n (ground arith) (omega arith) in
        let rest =
          maxjid_from-eq n i (omega arith) (ground arith) u (λ k lo hi. free k lo (omega arith)) in
        ground (arith, free_n, rest)
    | inr top ↦
        let eq : i ≡ n = ground arith in
        rw eq
          (let u' : is_undef (jobs n).state ≡ false = rw eq at u in ground (arith, ltb-true n 64))
  ]

pub maxjid_from-cong :
    (a b : ℕ → Job) (n : ℕ)
    → ((k : ℕ) → is_undef (a k).state ≡ is_undef (b k).state)
    → maxjid_from a n ≡ maxjid_from b n
unfolding maxjid_from
maxjid_from-cong a b zero same = refl
maxjid_from-cong a b (suc n) same = ground (arith, same n, maxjid_from-cong a b n same)
