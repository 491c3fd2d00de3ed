-- ===== src/Bits.antt =====
-- The puzzles of datalab-s20-bhxxzp/bits.c that work by shifts and tests: longs as words of 64 bits in
-- two's complement, floats as words of 32 bits. A mask of low ones is the remainder by a power of two.
pub mod Log
pub mod Float
pub mod Scale
mod Tests
use cmu.Common.{
  ℕ, zero, suc, ◌+◌, ◌-◌, ◌*◌, ◌/◌, ◌%◌, ◌^◌, Bool, not, ◌&&◌, ◌||◌, ◌==◌, ltb, if◌then◌else◌,
}

-- `x << k` and `x >> k` on `long`.
abbrev pub shl : ℕ → ℕ → ℕ
shl x k = x * 2 ^ k % 2 ^ 64

abbrev pub sar : ℕ → ℕ → ℕ
sar x k = if ltb x (2 ^ 63) then x / 2 ^ k else x / 2 ^ k + (2 ^ 64 - 2 ^ (64 - k))

unfoldable pub copy_lsb : ℕ → ℕ
copy_lsb x = sar (shl x 63) 63

-- `!!(x >> k)`
abbrev pub any_from : ℕ → ℕ → ℕ
any_from x k = if sar x k == 0 then 0 else 1

-- `b = !!(x >> (width + result)); result = result + b * width`
unfoldable pub log_step : (x width result : ℕ) → ℕ
log_step x width result = result + any_from x (width + result) * width

unfoldable pub integer_log2 : ℕ → ℕ
integer_log2 x =
    log_step x 1 (log_step x 2 (log_step x 4 (log_step x 8 (log_step x 16 (any_from x 32 * 32)))))

-- The fields of a float.
abbrev pub exp_of : ℕ → ℕ
exp_of u = u / 2 ^ 23 % 2 ^ 8

abbrev pub frac_of : ℕ → ℕ
frac_of u = u % 2 ^ 23

unfoldable pub float_is_equal : ℕ → ℕ → ℕ
float_is_equal uf ug =
    if exp_of uf == 255 && not (frac_of uf == 0) || (exp_of ug == 255 && not (frac_of ug == 0))
    then 0
    else if uf % 2 ^ 31 == 0 && ug % 2 ^ 31 == 0
    then 1
    else if uf == ug
    then 1
    else 0

-- The body of `while (time--)`, on the exponent and the fraction.
unfoldable pub scale_round : ℕ × ℕ → ℕ × ℕ
scale_round (exp, frac) =
    if not (exp == 0)
    then (let exp' = if not (exp == 255) then exp + 1 else exp in
        (exp', if exp' == 255 then 0 else frac))
    else if not (frac / 2 ^ 22 % 2 == 0)
    then (1, frac * 2 % 2 ^ 32)
    else (0, frac * 2 % 2 ^ 32)

-- `sf + (exp << 23) + frac`, once the fields are masked.
unfoldable pub join : ℕ → ℕ × ℕ → ℕ
join sf (exp, frac) = (sf + exp % 2 ^ 8 * 2 ^ 23 + frac % 2 ^ 23) % 2 ^ 32

unfoldable pub float_scale4 : ℕ → ℕ
float_scale4 uf =
    let denormalize = (exp_of uf + 1) / 2 ^ 8 % 2 in
    if frac_of uf == 0 && exp_of uf == 0 || not (denormalize == 0)
    then uf
    else join (uf / 2 ^ 31 % 2 * 2 ^ 31) (scale_round (scale_round (exp_of uf, frac_of uf)))
