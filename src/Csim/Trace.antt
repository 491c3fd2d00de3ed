-- ===== src/Csim/Trace.antt =====
-- The loop over the trace in cachelab-s20-bhxxzp/csim.c.
use cmu.Common.{
  some, ◌/◌, ◌%◌, ◌^◌, ℕ, ◌+◌, ◌<◌, ◌≡◌, refl, ◌≢◌, inl, inr, Bool, true, List, [], ◌∷◌, ◌==◌,
  arith, Bool-cases, length, update_self, update_ne, ltb-true,
}
use native.Mathlib.Nat.{mod-lt}
use cmu.Common.Arith.{pow_pos}
use cmu.Csim.{Sim, Access, init_sim, init_line, step_at, step, run, matches, access_row}
use cmu.Csim.Address.{IsDefined, tag_of-eq, set_of-eq}
use cmu.Csim.Row.{IsRow, Accessed, access_row_lem}

-- Every set of the cache is well formed.
abbrev pub IsCache : ℕ → Sim → Type 0
IsCache e sim = (set : ℕ) → IsRow e (sim.cache set)

-- The cache that the program starts with is well formed.
pub init_sim-IsCache : (e : ℕ) → IsCache e (init_sim e)
unfolding init_sim init_line
init_sim-IsCache e set = record {
  bits = λ i h. inl refl;
  unique = λ i k h h' v v' t. absurd (omega arith);
  aged = λ i h. ltb-true e (e + 1) (omega arith);
}

step_at-Accessed :
    (e b tag set : ℕ) (store : Bool) (sim : Sim)
    → 0 < e
    → IsCache e sim
    → Accessed e b tag store
        (sim.cache set)
        sim.stats
        (access_row e b tag store (sim.cache set) sim.stats)
step_at-Accessed e b tag set store sim some_line c =
    access_row_lem e b tag store (sim.cache set) sim.stats some_line (c set)

step_at-IsCache :
    (e b tag set : ℕ) (store : Bool) (sim : Sim)
    → 0 < e
    → IsCache e sim
    → IsCache e (step_at e b tag set store sim)
unfolding step_at
step_at-IsCache e b tag set store sim some_line c other = elim (Bool-cases (set == other)) [
  | inl here ↦ rw here (step_at-Accessed e b tag set store sim some_line c).valid
  | inr there ↦ rw there (c other)
]

step-eq :
    (s e b : ℕ) (store : Bool) (address : ℕ) (sim : Sim)
    → IsDefined s b
    → step s e b (store, address) sim
      ≡ some (step_at e b (address / 2 ^ (s + b)) (address / 2 ^ b % 2 ^ s) store sim)
unfolding step
step-eq s e b store address sim d = rw (tag_of-eq s b address d, set_of-eq s b address d) refl

-- With set and block bits for which the shifts have a value, at least one line in a set and a
-- well-formed cache, one access succeeds. It leaves every set but the one that the address's bits
-- name, which is one of the cache, as it is, and a line of that set holds the block; the cache is
-- well formed.
pub step_lem :
    (s e b : ℕ) (store : Bool) (address : ℕ) (sim : Sim)
    → IsDefined s b
    → 0 < e
    → IsCache e sim
    → (sim' : Sim) × (step s e b (store, address) sim ≡ some sim')
      × IsCache e sim'
      × (address / 2 ^ b % 2 ^ s < 2 ^ s)
      × ((set : ℕ) → address / 2 ^ b % 2 ^ s ≢ set → sim'.cache set ≡ sim.cache set)
      × ((i : ℕ) × (i < e)
          × (matches (sim'.cache (address / 2 ^ b % 2 ^ s)) (address / 2 ^ (s + b)) i ≡ true))
unfolding step_at
step_lem s e b store address sim d some_line c =
    let set = address / 2 ^ b % 2 ^ s in
    let tag = address / 2 ^ (s + b) in
    let r = access_row e b tag store (sim.cache set) sim.stats in
    let a = step_at-Accessed e b tag set store sim some_line c in
    (
      step_at e b tag set store sim,
      step-eq s e b store address sim d,
      step_at-IsCache e b tag set store sim some_line c,
      mod-lt (address / 2 ^ b) (pow_pos s),
      λ other ne. update_ne sim.cache set other r.row ne,
      (a.place, a.in_row, rw (update_self sim.cache set r.row) a.present),
    )

-- With set and block bits for which the shifts have a value and at least one line in a set, a run
-- over any trace from a well-formed cache succeeds; hits and misses together go up by the number of
-- accesses, and the cache stays well formed.
pub run_counts :
    (s e b : ℕ) (trace : List Access) (sim : Sim)
    → IsDefined s b
    → 0 < e
    → IsCache e sim
    → (sim' : Sim) × (run s e b trace sim ≡ some sim')
      × (sim'.stats.hits + sim'.stats.misses ≡ sim.stats.hits + sim.stats.misses + length trace)
      × IsCache e sim'
unfolding run step_at
run_counts s e b [] sim d some_line c = (sim, refl, omega arith, c)
run_counts s e b ((store, address) ∷ trace) sim d some_line c =
    let set = address / 2 ^ b % 2 ^ s in
    let tag = address / 2 ^ (s + b) in
    let next = step_at e b tag set store sim in
    let (sim', runs, sum, c') =
      run_counts s e b trace next d some_line (step_at-IsCache e b tag set store sim some_line c) in
    (
      sim',
      rw (step-eq s e b store address sim d) runs,
      omega (arith, sum, (step_at-Accessed e b tag set store sim some_line c).counted),
      c',
    )
