-- ===== src/Csim/Age.antt =====
-- The ages of cachelab-s20-bhxxzp/csim.c do not give LRU replacement after a row has filled up.
use cmu.Common.{
  ℕ, zero, suc, ◌+◌, ◌≤◌, ◌<◌, ◌≡◌, refl, ◌≢◌, inl, inr, Bool, Option, none, some, ◌==◌, arith,
  Bool-cases, ==-true, ==-false, ltb-true, ltb-false,
}
use cmu.Common.Int.{pos}
use cmu.Common.Search.{find_index, find_index-some}
use cmu.Csim.{Row, matches, invalid, fill_row, min_lru, victim, evict_row, Stats, access_row}
use cmu.Csim.Row.{access_row-evict}

-- Every line is in use and has the age `a`.
pub record IsUniform (e a : ℕ) (row : Row) : Type 0 where
  pub full : (k : ℕ) → k < e → (row k).valid ≡ 1
  pub age : (k : ℕ) → k < e → (row k).lru ≡ pos a

-- Filling an empty line of a row of at least two lines whose ages are all `E` leaves them all at `E`,
-- so this is how the ages stand when the last line has been filled.
pub fill_row-age :
    (e i tag : ℕ) (store : Bool) (row : Row)
    → 2 ≤ e
    → ((k : ℕ) → k < e → (row k).lru ≡ pos e)
    → (k : ℕ) → k < e
    → (fill_row e row i tag store k).lru ≡ pos e
unfolding fill_row
fill_row-age e i tag store row two age k h = elim (Bool-cases (i == k)) [
  | inl here ↦ rw here
  | inr there ↦ rw (there, age k h, ==-false e 1 (omega arith), ltb-true k e h) refl
]

min_lru-uniform :
    (row : Row) (a h rounds e : ℕ)
    → ((k : ℕ) → k < e → (row k).lru ≡ pos a)
    → h + rounds ≤ e
    → min_lru row h rounds (pos a) ≡ pos a
unfolding min_lru
min_lru-uniform row a h zero e age le = refl
min_lru-uniform row a h (suc rounds) e age le =
    rw (age h (omega arith), ltb-false a a (omega arith))
      (min_lru-uniform row a (suc h) rounds e age (omega arith))

victim-uniform :
    (e a : ℕ) (row : Row)
    → a ≤ suc e
    → ((k : ℕ) → k < suc e → (row k).lru ≡ pos a)
    → victim (suc e) row ≡ some 0
unfolding victim min_lru find_index
victim-uniform e a row le age = rw (
  age 0 (omega arith),
  ltb-true a (suc e + 1) (omega arith),
  min_lru-uniform row a 1 e (suc e) age (omega arith),
  ==-true a a refl,
)

no_empty :
    (e : ℕ) (row : Row)
    → ((k : ℕ) → k < e → (row k).valid ≡ 1)
    → find_index (invalid row) 0 e ≡ none
no_empty e row full = go (find_index (invalid row) 0 e) refl
  where
    go : (r : Option ℕ) → find_index (invalid row) 0 e ≡ r → find_index (invalid row) 0 e ≡ none
    go none h = h
    go (some i) h =
        let f = find_index-some (invalid row) 0 e i h in
        absurd (ground (arith, f.0, full i (omega (arith, f.2))))

no_match :
    (e tag : ℕ) (row : Row)
    → ((k : ℕ) → k < e → (row k).tag ≢ tag)
    → find_index (matches row tag) 0 e ≡ none
no_match e tag row ne = go (find_index (matches row tag) 0 e) refl
  where
    go :
        (r : Option ℕ)
        → find_index (matches row tag) 0 e ≡ r
        → find_index (matches row tag) 0 e ≡ none
    go none h = h
    go (some i) h =
        let f = find_index-some (matches row tag) 0 e i h in
        absurd (ground (arith, f.0, ne i (omega (arith, f.2))))

module _ (e b tag a : ℕ) (store : Bool) (row : Row) (s : Stats) (le : a ≤ suc e)
    (u : IsUniform (suc e) a row) (ne : (k : ℕ) → k < suc e → (row k).tag ≢ tag) where
  access_uniform : (access_row (suc e) b tag store row s).row ≡ evict_row (suc e) row 0 tag store
  access_uniform = rw (
      access_row-evict (suc e) b tag 0 store row s (no_match (suc e) tag row ne)
        (no_empty (suc e) row u.full) (victim-uniform e a row le u.age))

-- In a full row whose ages are all `E`, of at least two lines, two misses in a row to two new blocks
-- both replace line 0: the second throws out the block that was used last, and every other line, all
-- of them used longer ago, keeps its block.
pub evict-last_used :
    (e b t1 t2 : ℕ) (st1 st2 : Bool) (row : Row) (s : Stats)
    → 2 ≤ e
    → IsUniform e e row
    → ((k : ℕ) → k < e → ((row k).tag ≢ t1) × ((row k).tag ≢ t2))
    → t1 ≢ t2
    → let r1 = access_row e b t1 st1 row s in
      let r2 = access_row e b t2 st2 r1.row r1.stats in
      ((r1.row 0).tag ≡ t1)
      × ((r2.row 0).tag ≡ t2)
      × ((k : ℕ) → k < e → k ≢ 0 → (r2.row k).tag ≡ (row k).tag)
unfolding evict_row
evict-last_used zero b t1 t2 st1 st2 row s two u ne apart = absurd (omega arith)
evict-last_used (suc zero) b t1 t2 st1 st2 row s two u ne apart = absurd (omega arith)
evict-last_used (suc (suc d)) b t1 t2 st1 st2 row s two u ne apart =
    let e = suc d in
    let r1 = access_row (suc e) b t1 st1 row s in
    let is1 = access_uniform e b t1 (suc e) st1 row s (omega arith) u (λ k h. (ne k h).0) in
    let u1 : IsUniform (suc e) e r1.row = rw is1 (record {
      full = λ k h. ground (arith, u.full k h);
      age = λ k h. ground (arith, u.age k h);
    }) in
    let ne1 : (k : ℕ) → k < suc e → (r1.row k).tag ≢ t2 =
      rw is1 (λ k h. ground (arith, (ne k h).1)) in
    let is2 = access_uniform e b t2 e st2 r1.row r1.stats (omega arith) u1 ne1 in
    rw is2 (rw is1 (refl, refl, λ k h k0. ground arith))
