-- ===== src/Trans/Tests.antt =====
-- The transposition theorem of cachelab-s20-bhxxzp/trans.c at a concrete matrix, and test runs.
use cmu.Common.{ℕ, ◌+◌, ◌*◌, ◌≡◌, refl, ◌&&◌, ltb, if◌then◌else◌}
use cmu.Trans.{Matrix, State, for_range, write, through_tmp, trans_tmp, transpose_submit}
use cmu.Trans.Correct.{transpose_submit_lem}

abbrev sample : Matrix ℕ
sample = λ i j. i * 10 + j

abbrev start : State ℕ
start = record { b = λ j i. 999; tmp = λ t. 0 }

oblong :
    ((transpose_submit 2 3 sample start).b 1 2 ≡ 21)
    × ((transpose_submit 2 3 sample start).b 2 1 ≡ 999)
unfolding transpose_submit trans_tmp through_tmp write for_range
oblong = (refl, refl)

transpose_submit_lem_example :
    (transpose_submit 32 32 sample (record { b = λ j i. 999; tmp = λ t. 0 })).b 31 7
    ≡ (if ltb 31 32 && ltb 7 32 then sample 7 31 else 999)
transpose_submit_lem_example = transpose_submit_lem sample (λ j i. 999) (λ t. 0) 32 32 31 7
