-- ===== src/Bits/Tests.antt =====
-- The puzzles of datalab-s20-bhxxzp/bits.c at concrete words.
use cmu.Common.{ℕ, ◌+◌, ◌*◌, ◌^◌, ◌<◌, ◌≤◌, ◌≡◌, refl, arith, if◌then◌else◌}
use cmu.Bits.{
  log_step, integer_log2, float_is_equal, scale_round, join, float_scale4, exp_of, frac_of,
}
use cmu.Bits.Log.{integer_log2_lem}
use cmu.Bits.Float.{float_is_equal_lem, same_float, value, sign}
use cmu.Bits.Scale.{float_scale4_lem}

integer_log2_lem_example :
    (2 ^ integer_log2 31 ≤ 31) × (31 < 2 ^ (1 + integer_log2 31)) × (integer_log2 31 < 63)
integer_log2_lem_example = integer_log2_lem 31 (omega arith) (omega arith)

float_is_equal_lem_example : float_is_equal 0 (2 ^ 31) ≡ (if same_float 0 (2 ^ 31) then 1 else 0)
float_is_equal_lem_example = float_is_equal_lem 0 (2 ^ 31) (omega arith) (omega arith)

float_scale4_lem_example :
    let u : ℕ = 0x200001 in
    let r = float_scale4 u in
    (exp_of u ≡ 255 → r ≡ u)
    × (exp_of u ≤ 252
        → (value r ≡ 4 * value u) × (exp_of r ≤ 254) × (sign r ≡ sign u) × (r < 2 ^ 32))
    × (253 ≤ exp_of u → exp_of u ≤ 254 → (exp_of r ≡ 255) × (frac_of r ≡ 0) × (sign r ≡ sign u))
float_scale4_lem_example = float_scale4_lem 0x200001 (omega arith)

-- The example of the comment, and the least number that is no longer denormalised.
log_of_31 : integer_log2 31 ≡ 4
unfolding integer_log2 log_step
log_of_31 = refl

scaled : float_scale4 0x200001 ≡ 0x800004
unfolding float_scale4 scale_round join
scaled = refl

zeros : float_is_equal 0 (2 ^ 31) ≡ 1
unfolding float_is_equal
zeros = refl
