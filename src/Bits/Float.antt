-- ===== src/Bits/Float.antt =====
-- What the words of datalab-s20-bhxxzp/bits.c stand for as floats, and floatIsEqual.
use native.Mathlib.Nat.{
  one-le-pow, pow-le-pow_right, pow-suc, mul-le-mul_left, mul-lt-mul_of_pos_right,
}
use cmu.Common.{
  ℕ, zero, suc, ◌+◌, ◌*◌, ◌/◌, ◌%◌, ◌^◌, ◌<◌, ◌≤◌, ◌≡◌, refl, ◌∙◌, ap, subst, inl, inr, Bool, arith,
  ◌==◌, ◌&&◌, ◌||◌, not, ltb, if◌then◌else◌, Bool-cases, eq_of_==, ne_of_==, ==-true, ==-false,
  lt_of_ltb, le_of_ltb,
}
use cmu.Bits.{exp_of, frac_of, float_is_equal}

-- The absolute value of a float with the given fields, in units of the least one, 2^-149. The exponent
-- 255 with fraction 0 is infinity, here a number above all finite ones.
abbrev pub field_value : (exp frac : ℕ) → ℕ
field_value zero frac = frac
field_value (suc e) frac = (2 ^ 23 + frac) * 2 ^ e

abbrev pub value : ℕ → ℕ
value u = field_value (exp_of u) (frac_of u)

abbrev pub sign : ℕ → ℕ
sign u = u / 2 ^ 31

abbrev pub is_nan : ℕ → Bool
is_nan u = (exp_of u == 255) && not (frac_of u == 0)

field_value-lt : (e f : ℕ) → f < 2 ^ 23 → field_value e f < 2 ^ 23 * 2 ^ e
field_value-lt zero f lt = omega arith
field_value-lt (suc e) f lt =
    let more : (2 ^ 23 + f) * 2 ^ e < 2 ^ 24 * 2 ^ e =
      mul-lt-mul_of_pos_right (omega arith) (one-le-pow e 2 (omega arith)) in
    omega (arith, pow-suc 2 e)

field_value-ge : (e f : ℕ) → 2 ^ 23 * 2 ^ e ≤ field_value (suc e) f
field_value-ge e f =
    let more = mul-le-mul_left (2 ^ e) (let le : 2 ^ 23 ≤ 2 ^ 23 + f = omega arith in le) in
    omega (arith, more)

field_value_mono :
    (e f e' f' : ℕ) → f < 2 ^ 23 → f' < 2 ^ 23 → e < e' → field_value e f < field_value e' f'
field_value_mono e f zero f' lt lt' less = absurd (omega arith)
field_value_mono e f (suc e') f' lt lt' less =
    let le : e ≤ e' = omega arith in
    let p : 2 ^ e ≤ 2 ^ e' = pow-le-pow_right (omega arith) le in
    omega (arith, field_value-lt e f lt, field_value-ge e' f', p)

field_value-frac : (e f f' : ℕ) → field_value e f ≡ field_value e f' → f ≡ f'
field_value-frac zero f f' e = e
field_value-frac (suc k) f f' e =
    let pos : 0 < 2 ^ k = one-le-pow k 2 (omega arith) in
    elim (Bool-cases (ltb f f')) [
      | inl less ↦
          let lt : 2 ^ 23 + f < 2 ^ 23 + f' = omega (arith, lt_of_ltb f f' less) in
          let more = mul-lt-mul_of_pos_right {k = 2 ^ k} lt pos in absurd (omega arith)
      | inr more ↦ elim (Bool-cases (ltb f' f)) [
        | inl less ↦
            let lt : 2 ^ 23 + f' < 2 ^ 23 + f = omega (arith, lt_of_ltb f' f less) in
            let more' = mul-lt-mul_of_pos_right {k = 2 ^ k} lt pos in absurd (omega arith)
        | inr same ↦ omega (arith, le_of_ltb f f' more, le_of_ltb f' f same)
      ]
    ]

-- Different fields stand for different values.
field_value-eq :
    (e f e' f' : ℕ)
    → f < 2 ^ 23
    → f' < 2 ^ 23
    → field_value e f ≡ field_value e' f'
    → (e ≡ e') × (f ≡ f')
field_value-eq e f e' f' lt lt' same = elim (Bool-cases (ltb e e')) [
  | inl less ↦ absurd (omega (arith, field_value_mono e f e' f' lt lt' (lt_of_ltb e e' less), same))
  | inr more ↦ elim (Bool-cases (ltb e' e)) [
    | inl less ↦
        absurd (omega (arith, field_value_mono e' f' e f lt' lt (lt_of_ltb e' e less), same))
    | inr no_less ↦
        let eq : e ≡ e' = omega (arith, le_of_ltb e e' more, le_of_ltb e' e no_less) in
        (eq, field_value-frac e' f f' (subst (λ n. field_value n f ≡ field_value e' f') eq same))
  ]
]

value-magnitude : (u v : ℕ) → value u ≡ value v → u % 2 ^ 31 ≡ v % 2 ^ 31
value-magnitude u v e =
    let r =
      field_value-eq (exp_of u) (frac_of u) (exp_of v) (frac_of v) (omega arith) (omega arith) e in
    omega (arith, r.0, r.1)

magnitude-value : (u v : ℕ) → u % 2 ^ 31 ≡ v % 2 ^ 31 → value u ≡ value v
magnitude-value u v e =
    let x : exp_of u ≡ exp_of v = omega arith in
    let y : frac_of u ≡ frac_of v = omega arith in
    ap (λ n. field_value n (frac_of u)) x ∙ ap (field_value (exp_of v)) y

-- Two floats are equal if neither is a NaN and they have one value, and one sign unless that is 0.
abbrev pub same_float : ℕ → ℕ → Bool
same_float u v =
    not (is_nan u)
    && (not (is_nan v) && ((value u == value v) && ((sign u == sign v) || (value u == 0))))

value-same : (u v : ℕ) → (value u == value v) ≡ (u % 2 ^ 31 == v % 2 ^ 31)
value-same u v = elim (Bool-cases (u % 2 ^ 31 == v % 2 ^ 31)) [
  | inl same ↦ rw (same, ==-true (value u) (value v) (magnitude-value u v (eq_of_== _ _ same))) refl
  | inr other ↦
      rw
        (
          other,
          ==-false (value u) (value v)
              (λ e. ne_of_== (u % 2 ^ 31) (v % 2 ^ 31) other (value-magnitude u v e)),
        )
        refl
]

-- floatIsEqual tells whether two words stand for equal floats.
pub float_is_equal_lem :
    (uf ug : ℕ)
    → uf < 2 ^ 32
    → ug < 2 ^ 32
    → float_is_equal uf ug ≡ (if same_float uf ug then 1 else 0)
unfolding float_is_equal
float_is_equal_lem uf ug lt lt' = rw (value-same uf ug, value-same uf 0) (ground arith)
