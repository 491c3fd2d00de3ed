-- ===== src/Csim/Address.antt =====
-- How cachelab-s20-bhxxzp/csim.c takes an address apart.
use native.Mathlib.Nat.{mul-div-mul_right, mod-lt, div-add-mod', mul_comm, div-div-eq-div-mul}
use cmu.Common.{
  ltb-true, ltb-false, zero, suc, refl, some, ℕ, ◌+◌, ◌-◌, ◌*◌, ◌/◌, ◌%◌, ◌^◌, ◌≤◌, ◌<◌, ◌≡◌, ◌∙◌,
  sym, ap, arith, ==-false,
}
use cmu.Common.Arith.{pow_pos, pow-add, mul-mod-mul, mod-mul-div, mul_pos}
use cmu.Csim.{tag_of, set_of, shift_left, shift_right}

shift_pair : (a q p t : ℕ) → 0 < q → 0 < p → 0 < t → a * t % (q * p * t) / (p * t) ≡ a / p % q
shift_pair a q p t hq hp ht =
    ap (λ x. x / (p * t)) (mul-mod-mul a (q * p) t (mul_pos q p hq hp) ht)
    ∙ mul-div-mul_right (a % (q * p)) p ht
    ∙ mod-mul-div a q p hq hp

-- The two shifts at a word of `w` bits.
shifts : (w s b a : ℕ) → s + b ≤ w → a * 2 ^ (w - s - b) % 2 ^ w / 2 ^ (w - s) ≡ a / 2 ^ b % 2 ^ s
shifts w s b a fit =
    ap (λ n. a * 2 ^ (w - s - b) % n / 2 ^ (w - s)) whole
    ∙ ap (λ n. a * 2 ^ (w - s - b) % (2 ^ s * 2 ^ b * 2 ^ (w - s - b)) / n) low
    ∙ shift_pair a (2 ^ s) (2 ^ b) (2 ^ (w - s - b)) (pow_pos s) (pow_pos b) (pow_pos (w - s - b))
  where
    low : 2 ^ (w - s) ≡ 2 ^ b * 2 ^ (w - s - b)
    low = ap (λ n. 2 ^ n) parts ∙ pow-add 2 b (w - s - b)
      where
        parts : w - s ≡ b + (w - s - b)
        parts = omega arith

    whole : 2 ^ w ≡ 2 ^ s * 2 ^ b * 2 ^ (w - s - b)
    whole =
        ap (λ n. 2 ^ n) parts
        ∙ pow-add 2 (s + b) (w - s - b)
        ∙ ap (λ n. n * 2 ^ (w - s - b)) (pow-add 2 s b)
      where
        parts : w ≡ s + b + (w - s - b)
        parts = omega arith

-- Quotient and remainder by two powers, put together again.
recompose : (a q p : ℕ) → (a / (q * p) * q + a / p % q) * p + a % p ≡ a
recompose a q p =
    ap (λ n. (n * q + a / p % q) * p + a % p)
      (ap (λ n. a / n) (mul_comm q p) ∙ sym (div-div-eq-div-mul a p q))
    ∙ ap (λ n. n * p + a % p) (div-add-mod' (a / p) q)
    ∙ div-add-mod' a p

-- The bits of an address that the simulator can take apart: the shift counts are below 64, which asks
-- for `s + b < 64`, and for no block bits where there are no set bits.
abbrev pub IsDefined : (s b : ℕ) → Type 0
IsDefined s b = (s + b < 64) × (s ≡ 0 → b ≡ 0)

pub tag_of-eq :
    (s b address : ℕ) → IsDefined s b → tag_of s b address ≡ some (address / 2 ^ (s + b))
unfolding tag_of shift_right
tag_of-eq s b address d = rw (ltb-true (s + b) 64 d.0) refl

pub set_of-eq :
    (s b address : ℕ) → IsDefined s b → set_of s b address ≡ some (address / 2 ^ b % 2 ^ s)
unfolding set_of shift_left shift_right
set_of-eq zero b address d = rw (d.1 refl) (ap (λ n. some n) (omega arith))
set_of-eq (suc s) b address d =
    rw
      (
        ==-false (suc s + b) 0 (λ e. omega arith),
        ltb-false 64 (suc s + b) (omega (arith, d.0)),
        ltb-true (64 - suc s - b) 64 (omega arith),
        ltb-true (64 - suc s) 64 (omega arith),
      )
      (ap (λ n. some n) (shifts 64 (suc s) b address (omega (arith, d.0))))

-- With set and block bits for which the shifts have a value, the tag and the set of an address are
-- those that its bits say; the set is below the number of sets; and the tag, the set and the block
-- offset give the address back.
pub set_of_lem :
    (s b address : ℕ)
    → IsDefined s b
    → (tag : ℕ) × (set : ℕ) × (tag_of s b address ≡ some tag)
      × (set_of s b address ≡ some set)
      × (set ≡ address / 2 ^ b % 2 ^ s)
      × (set < 2 ^ s)
      × ((tag * 2 ^ s + set) * 2 ^ b + address % 2 ^ b ≡ address)
set_of_lem s b address d = (
  address / 2 ^ (s + b),
  address / 2 ^ b % 2 ^ s,
  tag_of-eq s b address d,
  set_of-eq s b address d,
  refl,
  mod-lt (address / 2 ^ b) (pow_pos s),
  ap (λ n. (n * 2 ^ s + address / 2 ^ b % 2 ^ s) * 2 ^ b + address % 2 ^ b)
        (ap (λ n. address / n) (pow-add 2 s b))
      ∙ recompose address (2 ^ s) (2 ^ b),
)
