-- ===== src/Common/Arith.antt =====
-- Products, quotients and powers that the linear tactics do not reach.
use Prim.Native.Nat.{ℕ, zero, suc, ◌+◌, ◌*◌, ◌/◌, ◌%◌, ◌^◌, ◌<◌}
use mathlib.Core.Path.{◌≡◌, sym, ◌∙◌, ap}
use native.Mathlib.Omega.{arith}
use native.Mathlib.Nat.{
  pow-zero, pow-suc, one-le-pow, mod-lt, mod-eq_of_lt, mod-add-div', add-mul-mod_self_right,
  add-mul-div_right, div-lt_iff_lt-mul, mul_assoc, add-zero,
}

pub pow_pos : (n : ℕ) → 0 < 2 ^ n
pow_pos n = one-le-pow n 2 (omega arith)

pub pow-add : (a m n : ℕ) → a ^ (m + n) ≡ a ^ m * a ^ n
pow-add a m zero = rw (add-zero, pow-zero) (omega arith)
pow-add a m (suc n) =
    let shift : m + suc n ≡ suc (m + n) = omega arith in
    rw (shift, pow-suc, pow-suc, pow-add a m n) (mul_assoc (a ^ m) (a ^ n) a)

pub mul_lt : (a b c : ℕ) → a < b → 0 < c → a * c < b * c
mul_lt a b c h p = grind arith

pub mul_pos : (a b : ℕ) → 0 < a → 0 < b → 0 < a * b
mul_pos a b h p = grind arith

-- `(a << t) mod (n << t)` is `(a mod n) << t`.
pub mul-mod-mul : (a n t : ℕ) → 0 < n → 0 < t → a * t % (n * t) ≡ a % n * t
mul-mod-mul a n t hn ht =
    ap (λ x. x * t % (n * t)) (sym (mod-add-div' a n))
    ∙ ap (λ x. x % (n * t)) split
    ∙ add-mul-mod_self_right (a % n * t) (a / n) (n * t)
    ∙ mod-eq_of_lt (mul_lt (a % n) n t (mod-lt a hn) ht)
  where
    split : (a % n + a / n * n) * t ≡ a % n * t + a / n * (n * t)
    split = omega arith

-- `(a mod (q * p)) / p` is `(a / p) mod q`.
pub mod-mul-div : (a q p : ℕ) → 0 < q → 0 < p → a % (q * p) / p ≡ a / p % q
mod-mul-div a q p hq hp =
    sym (mod-eq_of_lt small)
    ∙ sym (add-mul-mod_self_right (a % (q * p) / p) (a / (q * p)) q)
    ∙ ap (λ x. x % q) (sym whole)
  where
    small : a % (q * p) / p < q
    small = (div-lt_iff_lt-mul hp).1 (mod-lt a (mul_pos q p hq hp))

    whole : a / p ≡ a % (q * p) / p + a / (q * p) * q
    whole =
        ap (λ x. x / p) (sym (mod-add-div' a (q * p)) ∙ regroup)
        ∙ add-mul-div_right (a % (q * p)) (a / (q * p) * q) hp
      where
        regroup : a % (q * p) + a / (q * p) * (q * p) ≡ a % (q * p) + a / (q * p) * q * p
        regroup = omega arith
