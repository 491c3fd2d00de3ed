-- ===== src/Csim/Tests.antt =====
-- The theorems on cachelab-s20-bhxxzp/csim.c at concrete caches, and test runs.
use mathlib.Core.Option.{map}
use cmu.Common.{
  none, some, ℕ, ◌+◌, ◌*◌, ◌/◌, ◌%◌, ◌^◌, ◌<◌, ◌≡◌, refl, ◌≢◌, true, false, List, [], ◌∷◌, arith,
}
use cmu.Common.Int.{pos}
use cmu.Common.Search.{find_index}
use cmu.Csim.{
  Row, Stats, Access, init_sim, init_line, step, step_at, shift_left, shift_right, Sim, run, set_of,
  tag_of, matches, access_row, hit_row, fill_row, evict_row, evict, on_miss, victim, min_lru,
  fill_row,
}
use cmu.Csim.Row.{Accessed, access_row_lem}
use cmu.Csim.Age.{IsUniform, fill_row-age, evict-last_used}
use cmu.Csim.Trace.{IsCache, init_sim-IsCache, step_lem, run_counts}
use cmu.Csim.Address.{IsDefined, set_of_lem}

abbrev no_stats : Stats
no_stats = record { hits = 0; misses = 0; evicts = 0; d_evict = 0 }

abbrev trace : List Access
trace = (false, 16) ∷ (true, 17) ∷ (false, 48) ∷ (true, 80) ∷ (false, 16) ∷ []

-- Two sets of one line of 16 bytes: one hit, four misses, three evictions, one of them dirty.
trace_stats :
    map {B = Stats} (λ sim. sim.stats) (run 1 1 4 trace (init_sim 1))
    ≡ some (record { hits = 1; misses = 4; evicts = 3; d_evict = 32 })
unfolding run step step_at init_sim init_line set_of tag_of shift_left shift_right access_row
    on_miss evict victim min_lru hit_row fill_row evict_row find_index
trace_stats = refl

-- With 64 set and block bits, and with block bits alone, a shift has no value.
no_tag : step 32 1 32 (false, 16) (init_sim 1) ≡ none
unfolding step set_of tag_of shift_left shift_right
no_tag = refl

no_set : step 0 1 4 (false, 16) (init_sim 1) ≡ none
unfolding step set_of tag_of shift_left shift_right
no_set = refl

init_sim-IsCache_example : IsCache 2 (init_sim 2)
init_sim-IsCache_example = init_sim-IsCache 2

access_row_lem_example :
    Accessed 2 4 5 true
      ((init_sim 2).cache 0)
      no_stats
      (access_row 2 4 5 true ((init_sim 2).cache 0) no_stats)
access_row_lem_example =
    access_row_lem 2 4 5 true ((init_sim 2).cache 0) no_stats (omega arith)
      (init_sim-IsCache_example 0)

defined : IsDefined 1 4
defined = (omega arith, λ e. omega arith)

step_lem_example :
    (sim' : Sim) × (step 1 2 4 (true, 16) (init_sim 2) ≡ some sim')
    × IsCache 2 sim'
    × (16 / 2 ^ 4 % 2 ^ 1 < 2 ^ 1)
    × ((set : ℕ) → 16 / 2 ^ 4 % 2 ^ 1 ≢ set → sim'.cache set ≡ (init_sim 2).cache set)
    × ((i : ℕ) × (i < 2) × (matches (sim'.cache (16 / 2 ^ 4 % 2 ^ 1)) (16 / 2 ^ (1 + 4)) i ≡ true))
step_lem_example =
    step_lem 1 2 4 true 16 (init_sim 2) defined (omega arith) init_sim-IsCache_example

run_counts_example :
    (sim' : Sim) × (run 1 2 4 trace (init_sim 2) ≡ some sim')
    × (sim'.stats.hits + sim'.stats.misses
        ≡ (init_sim 2).stats.hits + (init_sim 2).stats.misses + 5)
    × IsCache 2 sim'
run_counts_example =
    run_counts 1 2 4 trace (init_sim 2) defined (omega arith) init_sim-IsCache_example

set_of_lem_example :
    (tag : ℕ) × (set : ℕ) × (tag_of 5 4 1234 ≡ some tag)
    × (set_of 5 4 1234 ≡ some set)
    × (set ≡ 1234 / 2 ^ 4 % 2 ^ 5)
    × (set < 2 ^ 5)
    × ((tag * 2 ^ 5 + set) * 2 ^ 4 + 1234 % 2 ^ 4 ≡ 1234)
set_of_lem_example = set_of_lem 5 4 1234 (omega arith, λ e. omega arith)

-- A row of two used lines with the ages that the first accesses leave.
abbrev filled : Row
filled = λ i. record { valid = 1; tag = i; dirty = false; lru = pos 2 }

uniform : IsUniform 2 2 filled
uniform = record { full = λ k h. refl; age = λ k h. refl }

fill_row-age_example : (fill_row 2 filled 1 9 true 0).lru ≡ pos 2
fill_row-age_example = fill_row-age 2 1 9 true filled (omega arith) (λ k h. refl) 0 (omega arith)

evict-last_used_example :
    let r1 = access_row 2 4 7 false filled no_stats in
    let r2 = access_row 2 4 8 true r1.row r1.stats in
    ((r1.row 0).tag ≡ 7)
    × ((r2.row 0).tag ≡ 8)
    × ((k : ℕ) → k < 2 → k ≢ 0 → (r2.row k).tag ≡ (filled k).tag)
evict-last_used_example =
    evict-last_used 2 4 7 8 false true filled no_stats (omega arith) uniform
      (λ k h. (λ e. omega arith, λ e. omega arith)) (λ e. omega arith)
