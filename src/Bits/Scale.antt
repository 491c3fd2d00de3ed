-- ===== src/Bits/Scale.antt =====
-- floatScale4 of datalab-s20-bhxxzp/bits.c.
use native.Mathlib.Nat.{pow-suc}
use cmu.Common.{
  ℕ, zero, suc, ◌+◌, ◌*◌, ◌/◌, ◌%◌, ◌^◌, ◌<◌, ◌≤◌, ◌≡◌, refl, ◌∙◌, ap, inl, inr, true, false, arith,
  ◌==◌, ◌&&◌, ltb, Bool-cases, eq_of_==, ne_of_==, lt_of_ltb, le_of_ltb,
}
use cmu.Bits.{exp_of, frac_of, scale_round, join, float_scale4}
use cmu.Bits.Float.{value, field_value, sign}

join_fields :
    (s e f : ℕ)
    → s < 2
    → e < 256
    → let r = join (s * 2 ^ 31) (e, f) in
      (exp_of r ≡ e) × (frac_of r ≡ f % 2 ^ 23) × (sign r ≡ s) × (r < 2 ^ 32)
unfolding join
join_fields s e f ls le = omega arith

-- One round of the loop.
round_zero :
    (f : ℕ)
    → f < 2 ^ 23
    → let r = scale_round (0, f) in
      (r.0 ≤ 1) × (field_value r.0 (r.1 % 2 ^ 23) ≡ 2 * f) × (r.0 ≡ 0 → r.1 < 2 ^ 23)
unfolding scale_round
round_zero f lt = elim (Bool-cases (f / 2 ^ 22 % 2 == 0)) [
  | inl small ↦ rw small (
    omega arith,
    omega (arith, eq_of_== (f / 2 ^ 22 % 2) 0 small),
    λ e. omega (arith, eq_of_== (f / 2 ^ 22 % 2) 0 small),
  )
  | inr large ↦
      rw large
        (omega arith, omega (arith, ne_of_== (f / 2 ^ 22 % 2) 0 large), λ e. absurd (omega arith))
]

round_suc : (e f : ℕ) → e < 253 → scale_round (suc e, f) ≡ (suc (suc e), f)
unfolding scale_round
round_suc e f lt = ground arith

round_large : (e f : ℕ) → 254 ≤ e → e ≤ 255 → scale_round (e, f) ≡ (255, 0)
unfolding scale_round
round_large e f lo hi = ground arith

value_suc : (e f : ℕ) → field_value (suc (suc e)) f ≡ 2 * field_value (suc e) f
value_suc e f = grind (arith, pow-suc 2 e)

round_small_frac : (f : ℕ) → f < 2 ^ 22 → scale_round (0, f) ≡ (0, f * 2)
unfolding scale_round
round_small_frac f lt = ground arith

round_large_frac : (f : ℕ) → 2 ^ 22 ≤ f → f < 2 ^ 23 → scale_round (0, f) ≡ (1, f * 2)
unfolding scale_round
round_large_frac f lo hi = ground arith

-- Both rounds, up to exponent 252.
IsScaled : ℕ → ℕ → ℕ × ℕ → Type 0
IsScaled e f (e', f') = (e' ≤ 254) × (field_value e' (f' % 2 ^ 23) ≡ 4 * field_value e f)

scale_twice-IsScaled :
    (e f : ℕ) → e ≤ 252 → f < 2 ^ 23 → IsScaled e f (scale_round (scale_round (e, f)))
unfolding IsScaled
scale_twice-IsScaled zero f le lt = elim (Bool-cases (ltb f (2 ^ 22))) [
  | inr large ↦
      rw (round_large_frac f (le_of_ltb f (2 ^ 22) large) lt, round_suc 0 (f * 2) (omega arith))
        (omega arith, omega (arith, le_of_ltb f (2 ^ 22) large))
  | inl small ↦
      rw (round_small_frac f (lt_of_ltb f (2 ^ 22) small))
        (elim (Bool-cases (ltb (f * 2) (2 ^ 22))) [
          | inl small' ↦
              rw (round_small_frac (f * 2) (lt_of_ltb (f * 2) (2 ^ 22) small'))
                (omega arith, omega (arith, lt_of_ltb (f * 2) (2 ^ 22) small'))
          | inr large' ↦
              let lt' : f * 2 < 2 ^ 23 = omega (arith, lt_of_ltb f (2 ^ 22) small) in
              rw (round_large_frac (f * 2) (le_of_ltb (f * 2) (2 ^ 22) large') lt')
                (omega arith, omega (arith, le_of_ltb (f * 2) (2 ^ 22) large'))
        ])
]
scale_twice-IsScaled (suc e) f le lt =
    let mask : f % 2 ^ 23 ≡ f = omega arith in
    rw (round_suc e f (omega arith), round_suc (suc e) f (omega arith), mask)
      (omega arith, omega (arith, value_suc e f, value_suc (suc e) f))

-- From exponent 253 on both rounds end at infinity.
scale_twice-large : (e f : ℕ) → 253 ≤ e → e ≤ 254 → scale_round (scale_round (e, f)) ≡ (255, 0)
scale_twice-large e f lo hi = elim (Bool-cases (e == 253)) [
  | inl at ↦
      let z : e ≡ 253 = eq_of_== e 253 at in
      rw (z, round_suc 252 f (omega arith)) (round_large 254 f (omega arith) (omega arith))
  | inr past ↦
      rw (round_large e f (omega (arith, ne_of_== e 253 past)) (omega arith))
        (round_large 255 0 (omega arith) (omega arith))
]

joined :
    (s e f : ℕ) (p : ℕ × ℕ)
    → s < 2
    → IsScaled e f p
    → let r = join (s * 2 ^ 31) p in
      (value r ≡ 4 * field_value e f) × (exp_of r ≤ 254) × (sign r ≡ s) × (r < 2 ^ 32)
unfolding IsScaled
joined s e f (e', f') lt w =
    let j = join_fields s e' f' lt (omega (arith, w.0)) in
    (
      ap (λ n. field_value n (frac_of (join (s * 2 ^ 31) (e', f')))) j.0
          ∙ ap (field_value e') j.1
          ∙ w.1,
      omega (arith, j.0, w.0),
      j.2,
      j.3,
    )

-- floatScale4 multiplies by 4: a NaN or an infinity is given back as it is; a float below 2^126 in
-- absolute value, denormalised or not, becomes a finite float of exactly four times its value and of
-- its sign; and one from there on becomes the infinity of its sign.
pub float_scale4_lem :
    (u : ℕ)
    → u < 2 ^ 32
    → let r = float_scale4 u in
      (exp_of u ≡ 255 → r ≡ u)
      × (exp_of u ≤ 252
          → (value r ≡ 4 * value u) × (exp_of r ≤ 254) × (sign r ≡ sign u) × (r < 2 ^ 32))
      × (253 ≤ exp_of u → exp_of u ≤ 254 → (exp_of r ≡ 255) × (frac_of r ≡ 0) × (sign r ≡ sign u))
unfolding float_scale4
float_scale4_lem u lt = (nan, finite, infinite)
  where
    sign_bit : u / 2 ^ 31 % 2 ≡ u / 2 ^ 31
    sign_bit = omega arith

    nan : exp_of u ≡ 255 → float_scale4 u ≡ u
    nan e = ground arith

    finite :
        exp_of u ≤ 252
        → let r = float_scale4 u in
          (value r ≡ 4 * value u) × (exp_of r ≤ 254) × (sign r ≡ sign u) × (r < 2 ^ 32)
    finite le = elim (Bool-cases ((frac_of u == 0) && (exp_of u == 0))) [
      | inl null ↦
          let f0 : frac_of u ≡ 0 = ground arith in
          let e0 : exp_of u ≡ 0 = ground arith in
          let v : value u ≡ 0 = ap (λ n. field_value n (frac_of u)) e0 ∙ f0 in
          rw null (omega (arith, v), omega (arith, e0), refl, lt)
      | inr other ↦
          let plain : ((exp_of u + 1) / 2 ^ 8 % 2 == 0) ≡ true = ground arith in
          rw (other, plain, sign_bit)
            (joined (u / 2 ^ 31) (exp_of u) (frac_of u)
              (scale_round (scale_round (exp_of u, frac_of u))) (omega arith)
              (scale_twice-IsScaled (exp_of u) (frac_of u) le (omega arith)))
    ]

    infinite :
        253 ≤ exp_of u
        → exp_of u ≤ 254
        → let r = float_scale4 u in (exp_of r ≡ 255) × (frac_of r ≡ 0) × (sign r ≡ sign u)
    infinite lo hi =
        let other : ((frac_of u == 0) && (exp_of u == 0)) ≡ false = ground arith in
        let plain : ((exp_of u + 1) / 2 ^ 8 % 2 == 0) ≡ true = ground arith in
        let j = join_fields (u / 2 ^ 31) 255 0 (omega arith) (omega arith) in
        rw (other, plain, sign_bit, scale_twice-large (exp_of u) (frac_of u) lo hi) (j.0, j.1, j.2)
