-- ===== src/Csim.antt =====
-- The cache simulator, cachelab-s20-bhxxzp/csim.c: the sets of lines and the loop over the trace.
-- The trace is the list of what fscanf reads; options, memory and printing are left out.
pub mod Address
pub mod Row
pub mod Age
pub mod Trace
mod Tests
use cmu.Common.{
  ℕ, zero, suc, ◌+◌, ◌-◌, ◌*◌, ◌/◌, ◌%◌, ◌^◌, Bool, true, false, not, ◌&&◌, ◌||◌, Option, none,
  some, List, [], ◌∷◌, ◌==◌, ltb, if◌then◌else◌, update,
}
use cmu.Common.Int.{ℤ, pos, eqb_ℤ, ltb_ℤ, dec}
use cmu.Common.Search.{find_index}

-- `line`; the ages go down without a bound, so they are integers.
pub record Line : Type 0 where
  pub valid : ℕ
  pub tag : ℕ
  pub dirty : Bool
  pub lru : ℤ

-- `line *row` of `E` lines.
abbrev pub Row : Type 0
Row = ℕ → Line

pub record Stats : Type 0 where
  pub hits : ℕ
  pub misses : ℕ
  pub evicts : ℕ
  pub d_evict : ℕ

-- `Tag == tag && valid == 1`
abbrev pub matches : Row → ℕ → ℕ → Bool
matches row tag i = (row i).tag == tag && (row i).valid == 1

abbrev pub invalid : Row → ℕ → Bool
invalid row i = (row i).valid == 0

-- The effect of a hit at line `i`: its age becomes `E`, and the ages above its old one go down.
unfoldable pub hit_row : (e : ℕ) → Row → (i : ℕ) → (store : Bool) → Row
hit_row e row i store j =
    if i == j
    then record (row j) { dirty = store || (row j).dirty; lru = pos e }
    else if ltb j e && ltb_ℤ (row i).lru (row j).lru
    then record (row j) { lru = dec (row j).lru }
    else row j

-- The effect of a miss that fills the empty line `i`.
unfoldable pub fill_row : (e : ℕ) → Row → (i tag : ℕ) → (store : Bool) → Row
fill_row e row i tag store j =
    if i == j
    then record { valid = 1; tag = tag; dirty = store || (row j).dirty; lru = pos e }
    else if ltb j e && eqb_ℤ (row j).lru (pos 1)
    then record (row j) { lru = dec (row j).lru }
    else row j

-- `for (h = 0; h < E; h++) if (row[h].LRU < min) min = row[h].LRU;`
unfoldable pub min_lru : Row → (h rounds : ℕ) → ℤ → ℤ
min_lru row h zero min = min
min_lru row h (suc rounds) min =
    min_lru row (suc h) rounds (if ltb_ℤ (row h).lru min then (row h).lru else min)

unfoldable pub victim : (e : ℕ) → Row → Option ℕ
victim e row = find_index (λ j. eqb_ℤ (row j).lru (min_lru row 0 e (pos (e + 1)))) 0 e

-- The effect of a miss that replaces line `i`: it gets the age `E`, and then every age goes down.
unfoldable pub evict_row : (e : ℕ) → Row → (i tag : ℕ) → (store : Bool) → Row
evict_row e row i tag store j =
    if i == j
    then record (row j) { tag = tag; dirty = store; lru = dec (pos e) }
    else if ltb j e
    then record (row j) { lru = dec (row j).lru }
    else row j

-- What the trace shows of an access: the verbose output of its kind.
pub data Kind : Type 0 where
  hit miss miss_eviction : Kind

pub record Result : Type 0 where
  pub row : Row
  pub stats : Stats
  pub kind : Kind

unfoldable pub evict : (e b tag : ℕ) → (store : Bool) → Row → Stats → Result
evict e b tag store row s = elim (victim e row) [
  | none ↦ record {
    row = row;
    stats = record s { misses = s.misses + 1; evicts = s.evicts + 1 };
    kind = miss_eviction;
  }
  | some j ↦ record {
    row = evict_row e row j tag store;
    stats = record s {
      misses = s.misses + 1;
      evicts = s.evicts + 1;
      d_evict = s.d_evict + (if (row j).dirty then 2 ^ b else 0);
    };
    kind = miss_eviction;
  }
]

unfoldable pub on_miss : (e b tag : ℕ) → (store : Bool) → Row → Stats → Result
on_miss e b tag store row s = elim (find_index (invalid row) 0 e) [
  | none ↦ evict e b tag store row s
  | some i ↦ record {
    row = fill_row e row i tag store;
    stats = record s { misses = s.misses + 1 };
    kind = miss;
  }
]

-- The body of the trace loop, for the row that the address selects.
unfoldable pub access_row : (e b tag : ℕ) → (store : Bool) → Row → Stats → Result
access_row e b tag store row s = elim (find_index (matches row tag) 0 e) [
  | none ↦ on_miss e b tag store row s
  | some i ↦ record {
    row = hit_row e row i store;
    stats = record s { hits = s.hits + 1 };
    kind = hit;
  }
]

-- The shifts of a 64-bit word; C gives a shift by 64 or more no value.
unfoldable pub shift_left : (word n : ℕ) → Option ℕ
shift_left word n = if ltb n 64 then some (word * 2 ^ n % 2 ^ 64) else none

unfoldable pub shift_right : (word n : ℕ) → Option ℕ
shift_right word n = if ltb n 64 then some (word / 2 ^ n) else none

abbrev pub bind : {A B : Type 0} → Option A → (A → Option B) → Option B
bind none k = none
bind (some a) k = k a

-- `tag = address >> (s + b)`
unfoldable pub tag_of : (s b address : ℕ) → Option ℕ
tag_of s b address = shift_right address (s + b)

-- `set = (address << (64 - s - b)) >> (64 - s)`, 0 when `s + b` is 0; where `s + b` is above 64 the
-- first shift is by a negative number.
unfoldable pub set_of : (s b address : ℕ) → Option ℕ
set_of s b address =
    if s + b == 0
    then some 0
    else if ltb 64 (s + b)
    then none
    else bind (shift_left address (64 - s - b)) (λ word. shift_right word (64 - s))

-- A line of the trace: whether the instruction is `S`, and the address.
abbrev pub Access : Type 0
Access = Bool × ℕ

pub record Sim : Type 0 where
  pub cache : ℕ → Row
  pub stats : Stats

unfoldable pub init_line : ℕ → Line
init_line e = record { valid = 0; tag = 0; dirty = false; lru = pos e }

unfoldable pub init_sim : ℕ → Sim
init_sim e = record {
  cache = λ set i. init_line e;
  stats = record { hits = 0; misses = 0; evicts = 0; d_evict = 0 };
}

-- The access to the set `set`.
unfoldable pub step_at : (e b tag set : ℕ) → (store : Bool) → Sim → Sim
step_at e b tag set store sim =
    let r = access_row e b tag store (sim.cache set) sim.stats in
    record { cache = update sim.cache set r.row; stats = r.stats }

-- One round of the trace loop; `none` where a shift has no value.
unfoldable pub step : (s e b : ℕ) → Access → Sim → Option Sim
step s e b (store, address) sim =
    bind (tag_of s b address)
      λ tag. bind (set_of s b address) λ set. some (step_at e b tag set store sim)

unfoldable pub run : (s e b : ℕ) → List Access → Sim → Option Sim
run s e b [] sim = some sim
run s e b (a ∷ trace) sim = bind (step s e b a sim) (run s e b trace)

-- `D_Cache`: the dirty bytes of the lines `j` to `j + rounds` of a row, and of the sets.
unfoldable pub dirty_row : (b : ℕ) → Row → (j rounds : ℕ) → ℕ
dirty_row b row j zero = 0
dirty_row b row j (suc rounds) =
    (if (row j).dirty then 2 ^ b else 0) + dirty_row b row (suc j) rounds

unfoldable pub dirty_cache : (e b : ℕ) → (ℕ → Row) → (i rounds : ℕ) → ℕ
dirty_cache e b cache i zero = 0
dirty_cache e b cache i (suc rounds) =
    dirty_row b (cache i) 0 e + dirty_cache e b cache (suc i) rounds
