-- ===== src/Bits/Log.antt =====
-- copyLSB and integerLog2 of datalab-s20-bhxxzp/bits.c.
use native.Mathlib.Nat.{one-le-pow, pow-le-pow_right}
use cmu.Common.{
  ℕ, ◌+◌, ◌-◌, ◌*◌, ◌/◌, ◌%◌, ◌^◌, ◌<◌, ◌≤◌, ◌≡◌, ◌≢◌, subst, inl, inr, arith, ◌==◌, ltb,
  if◌then◌else◌, Bool-cases, eq_of_==, ne_of_==, ltb-true,
}
use cmu.Bits.{any_from, copy_lsb, log_step, integer_log2}

-- copyLSB gives the word of all ones for an odd word and 0 for an even one.
pub copy_lsb_lem : (x : ℕ) → copy_lsb x ≡ (if x % 2 == 1 then 2 ^ 64 - 1 else 0)
unfolding copy_lsb
copy_lsb_lem x = ground arith

-- `x` lies in the window of `width` bits from `r` on.
abbrev Window : ℕ → ℕ → ℕ → Type 0
Window x width r = (2 ^ r ≤ x) × (x < 2 ^ (width + r))

div_zero : (x p : ℕ) → 0 < p → x / p ≡ 0 → x < p
div_zero x p pos e = grind arith

div_more : (x p : ℕ) → x / p ≢ 0 → p ≤ x
div_more x p ne = elim (Bool-cases (ltb x p)) [
  | inl less ↦ absurd (ne (grind arith))
  | inr more ↦ ground arith
]

log_step-Window :
    (x width wide r : ℕ)
    → wide ≡ width + width
    → x < 2 ^ 63
    → Window x wide r
    → Window x width (log_step x width r)
unfolding log_step
log_step-Window x width wide r e small w =
    let p = width + r in
    let pos : 0 < 2 ^ p = one-le-pow p 2 (omega arith) in
    rw (ltb-true x (2 ^ 63) small) (elim (Bool-cases (x / 2 ^ p == 0)) [
      | inl none ↦
          let e0 : r + 0 * width ≡ r = omega arith in
          rw (none, e0) (w.0, div_zero x (2 ^ p) pos (eq_of_== (x / 2 ^ p) 0 none))
      | inr some ↦
          let e1 : r + 1 * width ≡ p = omega arith in
          let e2 : width + p ≡ wide + r = omega arith in
          rw (some, e1, e2) (div_more x (2 ^ p) (ne_of_== (x / 2 ^ p) 0 some), w.1)
    ])

first_step : (x : ℕ) → log_step x 32 0 ≡ any_from x 32 * 32
unfolding log_step
first_step x = omega arith

below_63 : (x r : ℕ) → x < 2 ^ 63 → 2 ^ r ≤ x → r < 63
below_63 x r small le = elim (Bool-cases (ltb r 63)) [
  | inl less ↦ ground arith
  | inr more ↦
      let le' : 63 ≤ r = ground arith in
      let large : 2 ^ 63 ≤ 2 ^ r = pow-le-pow_right (omega arith) le' in absurd (omega arith)
]

-- integerLog2 of a positive number is its logarithm to base 2, rounded down.
pub integer_log2_lem :
    (x : ℕ)
    → 0 < x
    → x < 2 ^ 63
    → (2 ^ integer_log2 x ≤ x) × (x < 2 ^ (1 + integer_log2 x)) × (integer_log2 x < 63)
unfolding integer_log2
integer_log2_lem x pos small =
    let w0 : Window x 64 0 = (omega arith, omega arith) in
    let w1 = log_step-Window x 32 64 0 (omega arith) small w0 in
    let w2 = log_step-Window x 16 32 (log_step x 32 0) (omega arith) small w1 in
    let w3 = log_step-Window x 8 16 (log_step x 16 (log_step x 32 0)) (omega arith) small w2 in
    let w4 =
      log_step-Window x 4 8 (log_step x 8 (log_step x 16 (log_step x 32 0))) (omega arith) small
        w3 in
    let w5 =
      log_step-Window x 2 4 (log_step x 4 (log_step x 8 (log_step x 16 (log_step x 32 0))))
        (omega arith) small w4 in
    let w6 =
      log_step-Window x 1 2
        (log_step x 2 (log_step x 4 (log_step x 8 (log_step x 16 (log_step x 32 0))))) (omega arith)
        small w5 in
    let w =
      subst
        (λ n.
          Window x 1 (log_step x 1 (log_step x 2 (log_step x 4 (log_step x 8 (log_step x 16 n))))))
        (first_step x) w6 in
    (w.0, w.1, below_63 x (integer_log2 x) small w.0)
